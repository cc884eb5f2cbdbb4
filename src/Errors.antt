-- ===== src/Errors.antt =====
-- The error codes of src/lib/errors.ts, and calls that return or throw one. Messages and hints are
-- not modelled.
use remote_ops_mcp.Prelude.{Bool, true, false, ◌≡◌, ◌⊎◌, inl, inr, refl}

pub data ErrorCode : Type 0 where
  target_not_found target_disabled capability_denied path_denied secret_path_denied : ErrorCode
  container_not_allowed service_not_allowed repo_not_allowed docker_access_denied : ErrorCode
  journal_access_denied ssh_unavailable host_key_mismatch command_timeout : ErrorCode
  remote_command_failed output_limit_exceeded invalid_argument internal : ErrorCode

pub data Result {ℓ} (A : Type ℓ) : Type ℓ where
  ok : A → Result A
  err : ErrorCode → Result A

infixl 5 ◌>>=◌ ◌>>◌
abbrev pub ◌>>=◌ {ℓ κ} : {A : Type ℓ} {B : Type κ} → Result A → (A → Result B) → Result B
err code >>= next = err code
ok value >>= next = next value

abbrev pub ◌>>◌ {ℓ} : {B : Type ℓ} → Result (Unit {0}) → Result B → Result B
err code >> rest = err code
ok _ >> rest = rest

-- if (!b) throw e
abbrev pub require : Bool → ErrorCode → Result (Unit {0})
require true e = ok tt
require false e = err e

-- Does `toolErrorPayload` count the error as a denial? The codes that end in "_DENIED", and two.
unfoldable pub is_denied : ErrorCode → Bool
is_denied capability_denied = true
is_denied path_denied = true
is_denied secret_path_denied = true
is_denied docker_access_denied = true
is_denied journal_access_denied = true
is_denied target_not_found = true
is_denied target_disabled = true
is_denied _ = false

pub Result-cases {ℓ} :
    {A : Type ℓ} (r : Result A) → ((a : A) × (r ≡ ok a)) ⊎ ((e : ErrorCode) × (r ≡ err e))
Result-cases (ok a) = inl (a, refl)
Result-cases (err e) = inr (e, refl)

pub bind_ok {ℓ κ} :
    {A : Type ℓ} {B : Type κ} (r : Result A) (next : A → Result B) (x : B)
    → (r >>= next) ≡ ok x
    → (a : A) × (r ≡ ok a) × (next a ≡ ok x)
bind_ok (ok a) next x h = (a, refl, h)
bind_ok (err e) next x h = absurd (cc)
