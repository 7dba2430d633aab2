-- ===== src/Certificates/Fuel.antt =====
-- The fuel of the inner loop of cleanChain in internal/tenant/certificates.go, which is the length
-- of its text: enough where each block that pem.Decode finds takes a byte of it.
use deevnet_provisioning_api.Prelude.{
  ℕ, zero, suc, ◌≤◌, ◌<◌, ◌≡◌, refl, ap, Option-cases, inl, inr, some, List, ◌∷◌, length, Text,
  arith,
}
use deevnet_provisioning_api.Certificates.{Block, X509}
use deevnet_provisioning_api.Certificates.Checks.{blocks}

pub record Shrinks (x : X509) : Type 0 where
  pub shrinks :
      (text rest : Text) (block : Block)
      → x.decode text ≡ some (block, rest)
      → length rest < length text

-- Where each block that pem.Decode finds takes a byte of the text, any fuel from the length of the
-- text on, the one that cleanChain is given among it, finds the same blocks.
pub blocks_enough :
    (x : X509) (n m : ℕ) (text : Text)
    → Shrinks x
    → length text ≤ n
    → length text ≤ m
    → blocks x n text ≡ blocks x m text
unfolding blocks
blocks_enough x zero zero text s h k = refl
blocks_enough x zero (suc m) text s h k = elim (Option-cases (x.decode text)) [
  | inl e ↦ rw (blocks, e) refl
  | inr ((block, rest), e) ↦ absurd (let l = s.shrinks text rest block e in omega arith)
]
blocks_enough x (suc n) zero text s h k = elim (Option-cases (x.decode text)) [
  | inl e ↦ rw (blocks, e) refl
  | inr ((block, rest), e) ↦ absurd (let l = s.shrinks text rest block e in omega arith)
]
blocks_enough x (suc n) (suc m) text s h k = elim (Option-cases (x.decode text)) [
  | inl e ↦ rw (blocks, e) refl
  | inr ((block, rest), e) ↦
      let l = s.shrinks text rest block e in
      rw (blocks, e)
        (ap (λ (l : List Block). block ∷ l)
          (blocks_enough x n m rest s (omega arith) (omega arith)))
]
