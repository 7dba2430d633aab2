-- ===== src/Wireless/Drawn.antt =====
-- The keys that randomPSK of internal/tenant/wifikeys.go draws.
use deevnet_provisioning_api.Prelude.{
  ℕ, zero, suc, ◌<◌, ◌≡◌, refl, subst, ap, Bool-cases, inl, inr, true, false, Bool, ◌&&◌, [], ◌∷◌,
  length, all, contains, leb, not, is_empty, Text, arith,
}
use deevnet_provisioning_api.Calls.{Outcome, returns, raises, Call}
use deevnet_provisioning_api.Calls.Laws.{give-eq-returns}
use deevnet_provisioning_api.Calls.Outcomes.{
  After, Ensures, given-Ensures, give-Ensures, bind-Ensures,
}
use deevnet_provisioning_api.Registry.{Error, State, outside, keep}
use deevnet_provisioning_api.Lifecycle.{Service}
use deevnet_provisioning_api.Wireless.{
  psk_alphabet, psk_length, valid_psk, symbol, random_symbols, random_psk,
}
use deevnet_provisioning_api.Wireless.Issue.{choose_psk}

-- A number below the bound that it is asked for
pub record IsBounded {W : Type 0} (draw : ℕ → Call Error W ℕ) : Type 0 where
  pub bounded : (n v : ℕ) (w u : W) → draw n w ≡ returns v u → v < n

symbol-contains :
    (alphabet : Text) (i : ℕ) → i < length alphabet → contains (symbol alphabet i) alphabet ≡ true
unfolding symbol contains
symbol-contains [] i h = absurd (omega arith)
symbol-contains (c ∷ alphabet) zero h = ground arith
symbol-contains (c ∷ alphabet) (suc i) h = ground (arith, symbol-contains alphabet i (omega arith))

-- What a test says of every symbol, it says of a text of symbols.
all-drawn :
    (test : ℕ → Bool) (alphabet : Text)
    → all test alphabet ≡ true
    → (c : ℕ) → contains c alphabet ≡ true
    → test c ≡ true
unfolding contains
all-drawn test [] h c m = absurd (cc)
all-drawn test (d ∷ alphabet) h c m =
    let k : all test alphabet ≡ true = ground arith in grind (arith, all-drawn test alphabet k c)

IsDrawn : ℕ → Text → Type 0
IsDrawn n text = (length text ≡ n) × (all (λ c. contains c psk_alphabet) text ≡ true)

module _ {W : Type 0} (sv : Service W) (draws : IsBounded sv.random_int) where
  drawn_kept :
      (s : State W) (o : Outcome Error W ℕ) (n : ℕ)
      → ((v : ℕ) (u : W) → o ≡ returns v u → v < n)
      → After (λ v (t : State W). Unit × (v < n)) (λ (e : Error) t. Unit) (keep s.registry o)
  drawn_kept s (returns v u) n h = (tt, h v u refl)
  drawn_kept s (raises e u) n h = tt

  draw-Ensures :
      (n : ℕ)
      → Ensures (λ s. Unit) (outside (sv.random_int n)) (λ v s. Unit × (v < n)) (λ e s. Unit)
  unfolding outside
  draw-Ensures n = record {
    run = λ s h. drawn_kept s (sv.random_int n s.world) n (λ v u e. draws.bounded n v s.world u e);
  }

  random_symbols-IsDrawn :
      (n : ℕ)
      → Ensures (λ s. Unit) (random_symbols sv n) (λ text s. Unit × IsDrawn n text) (λ e s. Unit)
  unfolding random_symbols IsDrawn
  random_symbols-IsDrawn zero = give-Ensures [] (λ s h. (tt, (refl, refl)))
  random_symbols-IsDrawn (suc n) = bind-Ensures (draw-Ensures (length psk_alphabet)) (λ v.
      given-Ensures (λ below. bind-Ensures (random_symbols-IsDrawn n) (λ rest.
        given-Ensures (λ drawn.
          give-Ensures _
            (λ s h. (tt, (ap suc drawn.0, (rw (symbol-contains psk_alphabet v below) drawn.1))))))))

all_mono :
    (one other : ℕ → Bool) (text : Text)
    → ((c : ℕ) → one c ≡ true → other c ≡ true)
    → all one text ≡ true
    → all other text ≡ true
all_mono one other [] h k = refl
all_mono one other (c ∷ text) h k = ground (arith, h c, all_mono one other text h)

alphabet_visible : all (λ c. leb 0x21 c && leb c 0x7E) psk_alphabet ≡ true
alphabet_visible = refl

valid_psk-drawn : (text : Text) → IsDrawn psk_length text → valid_psk text ≡ true
unfolding valid_psk IsDrawn
valid_psk-drawn text (long, drawn) =
    rw long (all_mono _ _ text (all-drawn _ psk_alphabet alphabet_visible) drawn)

-- What the request of a key is checked for: no text, or one that can be a key.
abbrev pub Passes : Text → Type 0
Passes text = (not (is_empty text) && not (valid_psk text)) ≡ false

Passes-valid_psk : (text : Text) → Passes text → is_empty text ≡ false → valid_psk text ≡ true
Passes-valid_psk text p full = ground arith

drawn-valid_psk :
    {W : Type 0} (sv : Service W) (s t : State W) (psk : Text)
    → IsBounded sv.random_int
    → random_psk sv s ≡ returns psk t
    → valid_psk psk ≡ true
unfolding random_psk
drawn-valid_psk sv s t psk draws h =
    valid_psk-drawn psk
      (subst
        (λ o.
          After (λ text (u : State _). Unit × IsDrawn psk_length text) (λ (e : Error) u. Unit) o)
        h ((random_symbols-IsDrawn sv draws psk_length).run s tt)).1

-- Where a random number is below the bound that it is asked for: the key that a create settles on,
-- the one supplied, the stored one or a new one, passes the check of a create that brings it back,
-- if what is supplied and what is stored pass it or are empty.
pub choose_psk-valid_psk :
    {W : Type 0} (sv : Service W) (supplied stored psk : Text) (s t : State W)
    → IsBounded sv.random_int
    → Passes supplied
    → Passes stored
    → choose_psk sv supplied stored s ≡ returns psk t
    → valid_psk psk ≡ true
unfolding choose_psk
choose_psk-valid_psk sv supplied stored psk s t draws p q h =
    elim (Bool-cases (is_empty supplied)) [
      | inr brought ↦
          rw (← give-eq-returns supplied psk s t (rw brought at h))
            (Passes-valid_psk supplied p brought)
      | inl e ↦ elim (Bool-cases (is_empty stored)) [
        | inr kept ↦
            rw (← give-eq-returns stored psk s t (rw (e, kept) at h))
              (Passes-valid_psk stored q kept)
        | inl none_stored ↦ drawn-valid_psk sv s t psk draws (rw (e, none_stored) at h)
      ]
    ]
