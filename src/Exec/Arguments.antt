-- ===== src/Exec/Arguments.antt =====
-- The checks of the exec broker's arguments (src/exec/broker.ts). The file system, `path.posix` and
-- the decoding of base64 are arguments.
use Prim.Native.Char.{code}
use remote_ops_mcp.Prelude.{
  ℕ, ◌+◌, ◌≡◌, refl, ◌⊎◌, inl, inr, String, Bool, true, false, not, ◌&&◌, ◌||◌, Option, none, some,
  List, [], ◌∷◌, ◌==◌, if◌then◌else◌, any, all, length, includes, text_length, any_code, all_codes,
  is_break, is_alphanumeric, eqb, leb, ltb, split_on, strip_slashes, starts_with, concat,
}

pub data ExecError : Type 0 where
  invalid_path secret_path_denied path_outside_workspace file_error : ExecError
  argument_too_large invalid_base64 payload_too_large invalid_args program_not_allowed : ExecError
  session_capacity session_not_found session_not_running signal_not_allowed : ExecError

pub data Checked (A : Type 0) : Type 0 where
  passed : A → Checked A
  failed : ExecError → Checked A

pub Checked-cases :
    {A : Type 0} (c : Checked A) → ((a : A) × (c ≡ passed a)) ⊎ ((e : ExecError) × (c ≡ failed e))
Checked-cases (passed a) = inl (a, refl)
Checked-cases (failed e) = inr (e, refl)

infixl 5 ◌>>=◌
abbrev pub ◌>>=◌ : {A B : Type 0} → Checked A → (A → Checked B) → Checked B
passed a >>= f = f a
failed e >>= f = failed e

pub record Host : Type 0 where
  pub roots : List String
  pub programs : List String
  pub max_active_sessions : ℕ
  -- path.posix.normalize
  pub normalize : String → String
  -- fs.realpathSync; `none`: it throws
  pub realpath : String → Option String
  -- Buffer.from(s, "base64")
  pub from_base64 : String → List ℕ

-- The code of the lower-case letter.
abbrev pub lower : ℕ → ℕ
lower n = if leb 65 n && leb n 90 then n + 32 else n

-- Does the text start with `low`, without regard to case?
unfoldable pub starts_low : String → String → Bool
starts_low s String.[] = true
starts_low String.[] (String.◌∷◌ d low) = false
starts_low (String.◌∷◌ c s) (String.◌∷◌ d low) = eqb (lower (code c)) (code d) && starts_low s low

-- The same text, without regard to case.
unfoldable pub is_low : String → String → Bool
is_low String.[] String.[] = true
is_low String.[] (String.◌∷◌ d low) = false
is_low (String.◌∷◌ c s) String.[] = false
is_low (String.◌∷◌ c s) (String.◌∷◌ d low) = eqb (lower (code c)) (code d) && is_low s low

unfoldable pub ends_low : String → String → Bool
unfolding is_low
ends_low String.[] low = is_low String.[] low
ends_low (String.◌∷◌ c s) low = is_low (String.◌∷◌ c s) low || ends_low s low

abbrev pub secret_directories : List String
secret_directories = ".ssh" ∷ ".aws" ∷ ".gnupg" ∷ ".kube" ∷ ".docker" ∷ []

abbrev pub secret_files : List String
secret_files =
    ".env" ∷ "authorized_keys" ∷ "known_hosts" ∷ ".netrc" ∷ ".git-credentials" ∷ ".npmrc"
    ∷ ".pypirc" ∷ ".htpasswd" ∷ "shadow" ∷ "gshadow" ∷ []

abbrev pub secret_suffixes : List String
secret_suffixes = ".pem" ∷ ".key" ∷ ".p12" ∷ ".pfx" ∷ ".jks" ∷ ".keystore" ∷ ".kdbx" ∷ []

unfoldable pub is_secret_segment : String → Bool
unfolding any is_low starts_low
is_secret_segment name =
    any (is_low name) secret_directories
    || (any (is_low name) secret_files || starts_low name ".env.")

-- The regular expression, without regard to case: a secret directory or file among the segments, or
-- an ending of a secret file at the end.
unfoldable pub is_secret_path : String → Bool
unfolding split_on any ends_low is_secret_segment
is_secret_path p = any is_secret_segment (split_on b'/' p) || any (ends_low p) secret_suffixes

unfoldable pub clean_abs : Host → String → Checked String
unfolding text_length any_code split_on includes is_secret_path
clean_abs h s =
    if starts_with s "/"
      && (not (any_code is_break s)
          && (not (includes ".." (split_on b'/' s)) && leb (text_length s) 2048))
    then (if is_secret_path (h.normalize s)
        then failed secret_path_denied
        else passed (h.normalize s))
    else failed invalid_path

unfoldable pub is_inside : String → String → Bool
is_inside root p = p == root || starts_with p (concat root "/")

unfoldable pub add_root_real : Option String → Checked (List String) → Checked (List String)
unfolding strip_slashes
add_root_real (some real) (passed reals) = passed (strip_slashes real ∷ reals)
add_root_real (some real) (failed e) = failed e
add_root_real none reals = failed file_error

-- ROOTS.map(rootReal)
unfoldable pub root_reals : Host → List String → Checked (List String)
unfolding add_root_real
root_reals h [] = passed []
root_reals h (root ∷ roots) = add_root_real (h.realpath root) (root_reals h roots)

unfoldable pub inside_roots : List String → String → Checked String
unfolding is_inside any is_secret_path
inside_roots allowed real =
    if any (λ r. is_inside r real) allowed
    then (if is_secret_path real then failed secret_path_denied else passed real)
    else failed path_outside_workspace

-- checkedPath(input, true)
unfoldable pub checked_path : Host → String → Checked String
checked_path h input = clean_abs h input >>= λ normalized. root_reals h h.roots >>= λ allowed.
    elim (h.realpath normalized) [
      | none ↦ failed file_error
      | some real ↦ inside_roots allowed real
    ]

-- Buffer.byteLength(s, "utf8")
unfoldable pub utf8_length : String → ℕ
utf8_length String.[] = 0
utf8_length (String.◌∷◌ c s) =
    (if ltb (code c) 0x80
      then 1
      else if ltb (code c) 0x800
      then 2
      else if ltb (code c) 0x1_0000
      then 3
      else 4)
    + utf8_length s

-- [A-Za-z0-9_.+-]
abbrev pub is_program_char : ℕ → Bool
is_program_char n = is_alphanumeric n || (eqb n b'_' || (eqb n b'.' || (eqb n b'+' || eqb n b'-')))

unfoldable pub safe_program : Host → String → Checked String
unfolding all_codes text_length includes
safe_program h p =
    if (all_codes is_program_char p && (leb 1 (text_length p) && leb (text_length p) 80))
      && includes p h.programs
    then passed p
    else failed program_not_allowed

unfoldable pub safe_args : List String → Checked (List String)
unfolding all utf8_length
safe_args argv =
    if ltb 80 (length argv)
    then failed invalid_args
    else if all (λ a. leb (utf8_length a) 16_384) argv
    then passed argv
    else failed argument_too_large

-- [A-Za-z0-9+/]
abbrev pub is_base64_char : ℕ → Bool
is_base64_char n = is_alphanumeric n || (eqb n b'+' || eqb n b'/')

-- /^[A-Za-z0-9+/]*={0,2}$/
unfoldable pub is_base64 : String → Bool
is_base64 String.[] = true
is_base64 (String.◌∷◌ c s) =
    let rest = is_base64 s in
    if is_base64_char (code c) then rest else (String.◌∷◌ c s) == "=" || (String.◌∷◌ c s) == "=="

unfoldable pub decode_b64 : Host → String → ℕ → Checked (List ℕ)
unfolding is_base64
decode_b64 h s max =
    if is_base64 s
    then (if ltb max (length (h.from_base64 s))
        then failed payload_too_large
        else passed (h.from_base64 s))
    else failed invalid_base64
