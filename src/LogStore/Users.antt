-- ===== src/LogStore/Users.antt =====
-- What a validated request makes of its tenant's users.
use deevnet_provisioning_api.Prelude.{
  ℕ, ◌≤◌, ◌≡◌, ◌≢◌, refl, sym, ap, ◌∙◌, Bool, true, false, [], ◌∷◌, ◌++◌, length, all, Text, codes,
  contains, text_eq, text_eq_iff, ℤ, pos, negsuc, within, ok, arith, ◌==◌,
}
use mathlib.Core.List.{Memᴰ}
use deevnet_provisioning_api.Names.{is_lower, is_digit}
use deevnet_provisioning_api.LogStore.{
  Request, is_token_byte, valid_token, validate_tokens, validate_op, validate, Partition,
  ingest_partition, read_partitions, device_partition, ingest_user, read_user,
}

token_byte-ne : (c d : ℕ) → is_token_byte d ≡ true → is_token_byte c ≡ false → (d == c) ≡ false
unfolding is_token_byte is_lower is_digit
token_byte-ne c d h k = ground arith

all_token_byte-free :
    (c : ℕ) (s : Text) → is_token_byte c ≡ false → all is_token_byte s ≡ true → contains c s ≡ false
unfolding contains
all_token_byte-free c [] h k = refl
all_token_byte-free c (d ∷ s) h k = ground (arith, token_byte-ne c d, all_token_byte-free c s)

-- A token that can stand in the store's configuration file: of a bounded length, and with none of
-- the bytes that would end its scalar.
pub record IsScalar (tok : Text) : Type 0 where
  pub long : 32 ≤ length tok
  pub short : length tok ≤ 128
  pub no_newline : contains 10 tok ≡ false
  pub no_quote : contains b'"' tok ≡ false
  pub no_colon : contains b':' tok ≡ false
  pub no_hash : contains b'#' tok ≡ false
  pub no_space : contains b' ' tok ≡ false

valid_token-IsScalar : (ingest : Bool) (tok : Text) → valid_token ingest tok ≡ ok tt → IsScalar tok
unfolding valid_token
valid_token-IsScalar ingest tok h =
    let bytes : all is_token_byte tok ≡ true = ground arith in
    (unfold is_token_byte is_lower is_digit in
      record {
        long = ground arith;
        short = ground arith;
        no_newline = all_token_byte-free 10 tok refl bytes;
        no_quote = all_token_byte-free b'"' tok refl bytes;
        no_colon = all_token_byte-free b':' tok refl bytes;
        no_hash = all_token_byte-free b'#' tok refl bytes;
        no_space = all_token_byte-free b' ' tok refl bytes;
      })

-- Two tokens, and the partitions that the reading one opens: those of the account that is the
-- tenant's index, and never the substrate's, whose account is 0.
pub record IsUserPair (r : Request) : Type 0 where
  pub ingest : IsScalar r.ingest_token
  pub read : IsScalar r.read_token
  pub distinct : r.ingest_token ≢ r.read_token
  pub own : (p : Partition) → Memᴰ p (read_partitions r) → p.0 ≡ r.index
  pub never_substrate : (p : Partition) → Memᴰ p (read_partitions r) → p.0 ≢ pos 0
  pub reads_own : Memᴰ (ingest_partition r) (read_partitions r)
  pub reads_devices : Memᴰ (device_partition r) (read_partitions r)

within-ne_zero : (z : ℤ) → within 1 63 z ≡ true → z ≢ pos 0
within-ne_zero (pos n) h e = ground arith
within-ne_zero (negsuc n) h e = absurd (cc)

account_of_read : (r : Request) (p : Partition) → Memᴰ p (read_partitions r) → p.0 ≡ r.index
unfolding read_partitions
account_of_read r p (Memᴰ.head e) = ap (λ (x : Partition). x.0) e
account_of_read r p (Memᴰ.tail (Memᴰ.head e)) = ap (λ (x : Partition). x.0) e
account_of_read r p (Memᴰ.tail (Memᴰ.tail (Memᴰ.head e))) = ap (λ (x : Partition). x.0) e
account_of_read r p (Memᴰ.tail (Memᴰ.tail (Memᴰ.tail m))) = elim m [ ]

validate_tokens-parts :
    (r : Request)
    → validate_tokens r ≡ ok tt
    → (valid_token true r.ingest_token ≡ ok tt)
      × (valid_token false r.read_token ≡ ok tt)
      × (text_eq r.ingest_token r.read_token ≡ false)
unfolding validate_tokens
validate_tokens-parts r h = ground arith

validate-parts :
    (r : Request) → validate r ≡ ok tt → (within 1 63 r.index ≡ true) × (validate_op r ≡ ok tt)
unfolding validate
validate-parts r h = ground arith

validate_op-put : (r : Request) → r.op ≡ codes "put" → validate_op r ≡ validate_tokens r
unfolding validate_op text_eq
validate_op-put r put = rw put refl

-- A put that the writer accepts gives its tenant two different tokens, each of 32 to 128 bytes and
-- safe in the configuration file, and reading rights to partitions of its own account alone, which
-- is never the substrate's 0; among them are the partition that it writes and its devices'.
pub validate-IsUserPair : (r : Request) → r.op ≡ codes "put" → validate r ≡ ok tt → IsUserPair r
validate-IsUserPair r put h =
    let (index_ok, op_ok) = validate-parts r h in
    let (ingest_ok, read_ok, differ) =
      validate_tokens-parts r (sym (validate_op-put r put) ∙ op_ok) in
    record {
      ingest = valid_token-IsScalar true r.ingest_token ingest_ok;
      read = valid_token-IsScalar false r.read_token read_ok;
      distinct = λ e. (let b = (text_eq_iff r.ingest_token r.read_token).1 e in ground arith);
      own = account_of_read r;
      never_substrate = λ p m e. within-ne_zero r.index index_ok (sym (account_of_read r p m) ∙ e);
      reads_own = (unfold ingest_partition read_partitions in Memᴰ.head refl);
      reads_devices =
          (unfold device_partition read_partitions in Memᴰ.tail (Memᴰ.tail (Memᴰ.head refl)));
    }

append_cancel : (s t u : Text) → (s ++ t) ≡ (s ++ u) → t ≡ u
append_cancel [] t u e = e
append_cancel (c ∷ s) t u e = append_cancel s t u (cc)

abbrev head_byte : Text → ℕ
head_byte [] = 0
head_byte (c ∷ s) = c

-- The users of different tenants have different names, and no tenant's ingest user has the name of
-- a read user.
pub users_injective :
    (r q : Request)
    → (ingest_user r ≡ ingest_user q → r.tenant ≡ q.tenant)
      × (read_user r ≡ read_user q → r.tenant ≡ q.tenant)
      × (ingest_user r ≢ read_user q)
unfolding ingest_user read_user
users_injective r q = (
  append_cancel (codes "ingest-") r.tenant q.tenant,
  append_cancel (codes "read-") r.tenant q.tenant,
  λ e. (let h : ◌≡◌ {A = ℕ} 105 114 = ap head_byte e in omega arith),
)
