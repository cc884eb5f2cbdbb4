-- ===== src/Docker/Checks.antt =====
-- The checks that src/docker/read-proxy.ts makes of names, images, ports, programs and paths.
use Prim.Native.Char.{code}
use remote_ops_mcp.Prelude.{
  ℕ, String, Bool, false, not, ◌&&◌, ◌||◌, Option, none, some, List, [], ◌∷◌, ◌==◌, leb, eqb,
  if◌then◌else◌, any, all, length, includes, text_length, any_code, all_codes, is_break,
  is_alphanumeric, split_on, strip_slashes, starts_with, concat,
}
use remote_ops_mcp.Exec.Arguments.{is_program_char, lower}
use remote_ops_mcp.Security.SecretPaths.{deny_secret_path}
use remote_ops_mcp.Docker.Json.{Json, Host, items_of, text_or_empty}

-- [a-f0-9], without regard to case
abbrev pub is_hex_char : ℕ → Bool
is_hex_char n = (leb 48 n && leb n 57) || (leb 97 (lower n) && leb (lower n) 102)

-- /^[a-f0-9]{12,64}$/i
unfoldable pub is_docker_id : String → Bool
unfolding all_codes text_length
is_docker_id s = all_codes is_hex_char s && (leb 12 (text_length s) && leb (text_length s) 64)

unfoldable pub starts_alphanumeric : String → Bool
starts_alphanumeric String.[] = false
starts_alphanumeric (String.◌∷◌ c s) = is_alphanumeric (code c)

-- [A-Za-z0-9_.-]
abbrev pub is_ref_char : ℕ → Bool
is_ref_char n = is_alphanumeric n || (eqb n b'_' || (eqb n b'.' || eqb n b'-'))

-- [A-Za-z0-9_./:@+-]
abbrev pub is_image_char : ℕ → Bool
is_image_char n = is_ref_char n || (eqb n b'/' || (eqb n b':' || (eqb n b'@' || eqb n b'+')))

-- /^[A-Za-z0-9][A-Za-z0-9_.-]{0,127}$/
unfoldable pub is_container_ref : String → Bool
unfolding all_codes text_length starts_alphanumeric
is_container_ref s = starts_alphanumeric s && (all_codes is_ref_char s && leb (text_length s) 128)

unfoldable pub clean_container_ref : Host → String → Option String
unfolding is_container_ref
clean_container_ref os raw = elim (os.decode_uri_component raw) [
  | none ↦ none
  | some ref ↦ if is_container_ref ref then some ref else none
]

-- /^[A-Za-z0-9][A-Za-z0-9_./:@+-]{0,199}$/
unfoldable pub is_image_ref : String → Bool
unfolding all_codes text_length starts_alphanumeric
is_image_ref s = starts_alphanumeric s && (all_codes is_image_char s && leb (text_length s) 200)

unfoldable pub clean_image_ref : Host → Json → Option String
unfolding is_image_ref
clean_image_ref os value = let s = text_or_empty os value in if is_image_ref s then some s else none

unfoldable pub is_port : ℕ → Bool
is_port n = leb 1 n && leb n 65_535

unfoldable pub clean_port : Host → Json → Option ℕ
unfolding is_port
clean_port os value = elim (os.to_natural value) [
  | none ↦ none
  | some n ↦ if is_port n then some n else none
]

unfoldable pub allowed_prefix : List String → String → Bool
unfolding any
allowed_prefix set value = any (λ prefix. prefix == "*" || starts_with value prefix) set

-- /^[A-Za-z0-9_.+-]{1,80}$/
unfoldable pub clean_program : Host → Json → Option String
unfolding all_codes text_length
clean_program os value =
    let p = text_or_empty os value in
    if all_codes is_program_char p && (leb 1 (text_length p) && leb (text_length p) 80)
    then some p
    else none

unfoldable pub is_argument : Host → String → Bool
unfolding any_code
is_argument os s = leb (os.byte_length s) 16_384 && not (any_code is_break s)

unfoldable pub texts_of : Host → List Json → List String
texts_of os [] = []
texts_of os (v ∷ vs) = text_or_empty os v ∷ texts_of os vs

unfoldable pub clean_args : Host → Json → Option (List String)
unfolding items_of texts_of all is_argument
clean_args os value = elim (items_of value) [
  | none ↦ none
  | some items ↦
      if leb (length items) 80 && all (is_argument os) (texts_of os items)
      then some (texts_of os items)
      else none
]

unfoldable pub ends_with : String → String → Bool
ends_with String.[] end = "" == end
ends_with (String.◌∷◌ c s) end = String.◌∷◌ c s == end || ends_with s end

-- The tests on the path as it came.
unfoldable pub is_load_path : String → Bool
unfolding any_code split_on includes deny_secret_path ends_with
is_load_path raw =
    starts_with raw "/"
    && (not (any_code is_break raw)
        && (not (includes ".." (split_on b'/' raw))
            && (not (deny_secret_path raw) && ends_with raw ".tar")))

-- Is the path a root or below it? A root that does not resolve is passed over.
unfoldable pub is_in_root : Host → String → String → Bool
unfolding strip_slashes
is_in_root os real raw_root = elim (os.realpath raw_root) [
  | none ↦ false
  | some root ↦ real == strip_slashes root || starts_with real (concat (strip_slashes root) "/")
]

unfoldable pub clean_allowed_load_path : Host → List String → Json → Option String
unfolding is_load_path deny_secret_path ends_with any is_in_root
clean_allowed_load_path os roots value =
    let raw = text_or_empty os value in
    if is_load_path raw
    then (elim (os.realpath raw) [
      | none ↦ none
      | some real ↦
          if (not (deny_secret_path real) && ends_with real ".tar")
            && any (is_in_root os real) roots
          then some real
          else none
    ])
    else none

-- /^\/v\d+(?:\.\d+)?/
unfoldable pub drop_digits : String → String
drop_digits String.[] = String.[]
drop_digits (String.◌∷◌ c s) =
    let rest = drop_digits s in if leb 48 (code c) && leb (code c) 57 then rest else String.◌∷◌ c s

unfoldable pub starts_with_digit : String → Bool
starts_with_digit String.[] = false
starts_with_digit (String.◌∷◌ c s) = leb 48 (code c) && leb (code c) 57

unfoldable pub drop_fraction : String → String
unfolding drop_digits starts_with_digit
drop_fraction String.[] = String.[]
drop_fraction (String.◌∷◌ c s) =
    if eqb (code c) b'.' && starts_with_digit s then drop_digits s else String.◌∷◌ c s

-- pathname.replace(/^\/v\d+(?:\.\d+)?/, "") || "/"
unfoldable pub strip_api_version : String → String
unfolding drop_digits starts_with_digit drop_fraction
strip_api_version (String.◌∷◌ a (String.◌∷◌ b s)) =
    if eqb (code a) b'/' && (eqb (code b) b'v' && starts_with_digit s)
    then (if drop_fraction (drop_digits s) == "" then "/" else drop_fraction (drop_digits s))
    else String.◌∷◌ a (String.◌∷◌ b s)
strip_api_version (String.◌∷◌ a String.[]) = String.◌∷◌ a String.[]
strip_api_version String.[] = "/"
