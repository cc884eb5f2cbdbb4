-- ===== src/Docker/Postgres.antt =====
-- src/docker/postgres-readback.ts: SQL scripts that are pinned by their hash.
pub mod Pinned
pub mod Allowlist
use Prim.Native.Char.{Char, code}
use remote_ops_mcp.Prelude.{
  ℕ, ◌*◌, String, Bool, true, false, not, ◌&&◌, ◌||◌, Option, none, some, List, [], ◌∷◌, ◌==◌, ltb,
  leb, eqb, if◌then◌else◌, text_length, all_codes, any_code, is_lower_or_digit, is_alphanumeric,
  split_on, trim, starts_with, concat,
}
use remote_ops_mcp.Dict.{Dict, lookup, insert}
use remote_ops_mcp.Docker.Json.{
  Json, Host, get, text_or_empty, Made, made, failed, ◌>>=◌, unless_thrown,
}
use remote_ops_mcp.Docker.Checks.{is_ref_char}
use remote_ops_mcp.Docker.Settings.{csv_items}

pub record Payload : Type 0 where
  pub verifier_id : String
  pub sql : String

pub record Config : Type 0 where
  pub container : String
  pub exec_user : String
  pub db_user : String
  pub db_name : String
  pub verifiers : Dict String

pub record Exec : Type 0 where
  pub verifier_id : String
  pub sha256 : String
  pub container : String
  pub exec_user : String
  pub env : List String
  pub cmd : List String

-- [a-z0-9_.-]
abbrev pub is_verifier_char : ℕ → Bool
is_verifier_char n = is_lower_or_digit n || (eqb n b'_' || (eqb n b'.' || eqb n b'-'))

unfoldable pub starts_with_code : (ℕ → Bool) → String → Bool
starts_with_code p String.[] = false
starts_with_code p (String.◌∷◌ c s) = p (code c)

-- /^[a-z0-9][a-z0-9_.-]{1,79}$/
unfoldable pub is_verifier_id : String → Bool
unfolding starts_with_code all_codes text_length
is_verifier_id s =
    starts_with_code is_lower_or_digit s
    && (all_codes is_verifier_char s && (leb 2 (text_length s) && leb (text_length s) 80))

-- /^[a-f0-9]{64}$/
unfoldable pub is_sha256 : String → Bool
unfolding all_codes text_length
is_sha256 s =
    all_codes (λ n. (leb 97 n && leb n 102) || (leb 48 n && leb n 57)) s && eqb (text_length s) 64

-- /^[A-Za-z_][A-Za-z0-9_.-]{0,79}$/
unfoldable pub is_safe_name : String → Bool
unfolding starts_with_code all_codes text_length
is_safe_name s =
    starts_with_code (λ n. (leb 65 n && leb n 90) || ((leb 97 n && leb n 122) || eqb n b'_')) s
    && (all_codes is_ref_char s && leb (text_length s) 80)

-- The text before and after the first "="; `none` without one.
unfoldable pub cut : String → Option (String × String)
cut String.[] = none
cut (String.◌∷◌ c s) =
    let later = cut s in
    if eqb (code c) b'='
    then some ("", s)
    else elim later [ none ↦ none | some (a, b) ↦ some (String.◌∷◌ c a, b) ]

unfoldable pub read_entry : Host → String → Made (String × String)
unfolding cut trim is_verifier_id is_sha256
read_entry os entry = elim (cut entry) [
  | none ↦ failed "invalid_postgres_verifier_allowlist"
  | some (name, value) ↦
      let id = trim name in
      let sha256 = os.to_lower_case (trim value) in
      unless_thrown
        (not (name == "") && (not (value == "") && (is_verifier_id id && is_sha256 sha256)))
        "invalid_postgres_verifier_allowlist" (made (id, sha256))
]

unfoldable pub is_absent : Option String → Bool
is_absent none = true
is_absent (some v) = false

unfoldable pub read_entries : Host → Dict String → List String → Made (Dict String)
unfolding read_entry is_absent lookup insert
read_entries os out [] = made out
read_entries os out (entry ∷ rest) = read_entry os entry >>= λ kv.
    unless_thrown (is_absent (lookup kv.0 out)) "duplicate_postgres_verifier_id"
      (read_entries os (insert kv.0 kv.1 out) rest)

unfoldable pub parse_postgres_verifier_allowlist : Host → String → Made (Dict String)
unfolding read_entries csv_items
parse_postgres_verifier_allowlist os raw = read_entries os [] (csv_items raw)

unfoldable pub normalize_postgres_pinned_readback_payload : Host → Json → Made Payload
unfolding get is_verifier_id any_code
normalize_postgres_pinned_readback_payload os raw =
    let id = text_or_empty os (get "verifierId" raw) in
    let sql = text_or_empty os (get "sql" raw) in
    unless_thrown (is_verifier_id id) "invalid_postgres_verifier_id" (
      unless_thrown
        (not (sql == "")
          && (leb (os.byte_length sql) (128 * 1024) && not (any_code (λ n. eqb n 0) sql)))
        "invalid_postgres_verifier_sql" (made (record { verifier_id = id; sql = sql })))

-- line.replace(/\r$/, "")
unfoldable pub drop_return : String → String
drop_return String.[] = String.[]
drop_return (String.◌∷◌ c String.[]) = if eqb (code c) 13 then String.[] else String.◌∷◌ c String.[]
drop_return (String.◌∷◌ c (String.◌∷◌ d s)) = String.◌∷◌ c (drop_return (String.◌∷◌ d s))

unfoldable pub drop_returns : List String → List String
unfolding drop_return
drop_returns [] = []
drop_returns (l ∷ []) = l ∷ []
drop_returns (l ∷ (m ∷ rest)) = drop_return l ∷ drop_returns (m ∷ rest)

-- sql.split(/\r?\n/)
unfoldable pub lines_of : String → List String
unfolding drop_returns split_on
lines_of sql = drop_returns (split_on 10 sql)

-- Does the line start with a backslash, white space aside?
unfoldable pub is_meta_command : String → Bool
unfolding trim
is_meta_command line = starts_with (trim line) "\\"

unfoldable pub is_approved_meta_command : String → Bool
unfolding trim
is_approved_meta_command line =
    trim line == "\\set ON_ERROR_STOP on" || trim line == "\\pset pager off"

unfoldable pub drop_meta_commands : List String → Made (List String)
unfolding is_meta_command is_approved_meta_command
drop_meta_commands [] = made []
drop_meta_commands (line ∷ rest) =
    let later = drop_meta_commands rest in
    if not (is_meta_command line)
    then later >>= (λ out. made (line ∷ out))
    else if is_approved_meta_command line
    then later
    else failed "unsupported_postgres_meta_command"

-- out.join("\n")
unfoldable pub join_lines : List String → String
join_lines [] = ""
join_lines (l ∷ []) = l
join_lines (l ∷ (m ∷ rest)) = concat l (concat "\n" (join_lines (m ∷ rest)))

unfoldable pub postgres_sql_after_approved_meta_commands : String → Made String
unfolding lines_of drop_meta_commands join_lines
postgres_sql_after_approved_meta_commands sql =
    drop_meta_commands (lines_of sql) >>= λ out. made (join_lines out)

abbrev pub readback_env : List String
readback_env =
    "PGAPPNAME=wandora-postgres-pinned-readback" ∷ "PGCONNECT_TIMEOUT=5"
    ∷ "PGOPTIONS=-c default_transaction_read_only=on -c statement_timeout=20000 -c lock_timeout=3000"
    ∷ []

-- The SQL in a transaction that is read-only and rolled back.
abbrev pub wrapped_sql : String → String
wrapped_sql sql = concat "BEGIN TRANSACTION READ ONLY;\n" (concat sql "\nROLLBACK;\n")

abbrev pub psql_command : String → String → String → List String
psql_command db_user db_name sql =
    "psql" ∷ "-w" ∷ "-X" ∷ "-v" ∷ "ON_ERROR_STOP=1" ∷ "-U" ∷ db_user ∷ "-d" ∷ db_name ∷ "-c" ∷ sql
    ∷ []

-- The hash that is expected: `none`, or an empty text, is no hash.
unfoldable pub expected_sha256 : Config → Payload → Made String
unfolding lookup
expected_sha256 config payload = elim (lookup payload.verifier_id config.verifiers) [
  | none ↦ failed "postgres_verifier_not_allowed"
  | some expected ↦
      unless_thrown (not (expected == "")) "postgres_verifier_not_allowed" (made expected)
]

unfoldable pub build_postgres_pinned_readback_exec : Host → Config → Payload → Made Exec
unfolding expected_sha256 is_safe_name postgres_sql_after_approved_meta_commands
build_postgres_pinned_readback_exec os config payload =
    expected_sha256 config payload >>= λ expected.
    unless_thrown (os.sha256 payload.sql == expected) "postgres_verifier_hash_mismatch" (
      unless_thrown (is_safe_name config.container) "invalid_postgres_container" (
        unless_thrown (is_safe_name config.exec_user) "invalid_postgres_exec_user" (
          unless_thrown (is_safe_name config.db_user) "invalid_postgres_db_user" (
            unless_thrown (is_safe_name config.db_name) "invalid_postgres_db_name" (
              postgres_sql_after_approved_meta_commands payload.sql >>= λ sql. made (record {
                verifier_id = payload.verifier_id;
                sha256 = os.sha256 payload.sql;
                container = config.container;
                exec_user = config.exec_user;
                env = readback_env;
                cmd = psql_command config.db_user config.db_name (wrapped_sql sql);
              }))))))
