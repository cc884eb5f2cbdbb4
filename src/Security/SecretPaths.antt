-- ===== src/Security/SecretPaths.antt =====
-- `denySecretPath` of src/security/paths.ts: each regular expression as a test on the segments of
-- the path, on its last segment, or on its ending.
use remote_ops_mcp.Prelude.{
  ℕ, String, Bool, false, not, ◌&&◌, ◌||◌, List, [], ◌∷◌, ◌==◌, leb, any, includes, all_codes,
  split_on, starts_with,
}
use remote_ops_mcp.Exec.Arguments.{starts_low, is_low, ends_low}

-- The text after as many characters as the prefix has.
unfoldable pub after_prefix : String → String → String
after_prefix String.[] s = s
after_prefix (String.◌∷◌ d p) String.[] = String.[]
after_prefix (String.◌∷◌ d p) (String.◌∷◌ c s) = after_prefix p s

-- /\d/
abbrev pub is_digit : ℕ → Bool
is_digit n = leb 48 n && leb n 57

-- The directories of the expressions /(^|\/)NAME(\/|$)/.
abbrev pub secret_directories : List String
secret_directories = ".ssh" ∷ ".aws" ∷ ".gnupg" ∷ ".kube" ∷ ".docker" ∷ []

-- The files of the expressions /(^|\/)NAME$/.
abbrev pub secret_files : List String
secret_files =
    "authorized_keys" ∷ "known_hosts" ∷ ".netrc" ∷ ".git-credentials" ∷ ".npmrc" ∷ ".pypirc"
    ∷ ".htpasswd" ∷ []

-- The files of the expressions /(^|\/)NAME(\.[^/]+)?$/.
abbrev pub secret_stems : List String
secret_stems = ".env" ∷ "id_rsa" ∷ "id_ed25519" ∷ "id_ecdsa" ∷ "id_dsa" ∷ []

-- /\.(pem|key|p12|pfx|jks|keystore|kdbx)$/i
abbrev pub secret_endings : List String
secret_endings = ".pem" ∷ ".key" ∷ ".p12" ∷ ".pfx" ∷ ".jks" ∷ ".keystore" ∷ ".kdbx" ∷ []

-- credentials?|secrets?|tokens?
abbrev pub secret_words : List String
secret_words = "credential" ∷ "credentials" ∷ "secret" ∷ "secrets" ∷ "token" ∷ "tokens" ∷ []

abbrev pub shadow_files : List String
shadow_files = "shadow" ∷ "gshadow" ∷ []

unfoldable pub last_segment : List String → String
last_segment [] = ""
last_segment (s ∷ []) = s
last_segment (s ∷ (t ∷ rest)) = last_segment (t ∷ rest)

-- NAME(\.[^/]+)?, for a segment
unfoldable pub is_stem : String → String → Bool
unfolding after_prefix
is_stem file stem =
    file == stem
    || (starts_with file stem
        && (starts_with (after_prefix stem file) "." && not (after_prefix stem file == ".")))

-- NAME(\.[^/]*)?, for a segment, without regard to case
unfoldable pub is_word : String → String → Bool
unfolding is_low starts_low after_prefix
is_word file word =
    is_low file word || (starts_low file word && starts_with (after_prefix word file) ".")

-- NAME(-\d+)?, for a segment
unfoldable pub is_shadow : String → String → Bool
unfolding after_prefix all_codes
is_shadow file name =
    file == name
    || (starts_with file name
        && (starts_with (after_prefix name file) "-"
            && (not (after_prefix name file == "-")
                && all_codes is_digit (after_prefix "-" (after_prefix name file)))))

-- /(^|\/)\.git\/config$/
unfoldable pub is_git_config : List String → Bool
is_git_config [] = false
is_git_config (a ∷ []) = false
is_git_config (a ∷ (b ∷ [])) = a == ".git" && b == "config"
is_git_config (a ∷ (b ∷ (c ∷ rest))) = is_git_config (b ∷ (c ∷ rest))

unfoldable pub is_secret_file : String → Bool
unfolding any includes is_stem is_word is_shadow
is_secret_file file =
    includes file secret_files
    || (any (is_stem file) secret_stems
        || (any (is_word file) secret_words || any (is_shadow file) shadow_files))

unfoldable pub deny_secret_path : String → Bool
unfolding split_on any includes last_segment is_secret_file ends_low is_git_config
deny_secret_path p =
    any (λ s. includes s secret_directories) (split_on b'/' p)
    || (is_secret_file (last_segment (split_on b'/' p))
        || (any (ends_low p) secret_endings || is_git_config (split_on b'/' p)))
