-- ===== src/Docker/Postgres/Pinned.antt =====
-- What runs in PostgreSQL: a script whose hash is on the list, read-only, without psql commands.
use remote_ops_mcp.Prelude.{
  concat, String, ◌≡◌, refl, sym, ap, ◌∙◌, Bool, true, false, not, ◌&&◌, some, List, [], ◌∷◌, ◌==◌,
  arith, any, if◌then◌else◌, ◌⊎◌, eq_iff, Option-cases, inl, inr,
}
use remote_ops_mcp.Dict.{lookup}
use remote_ops_mcp.Docker.Json.{bind_made, Host, Made, made, failed, ◌>>=◌, unless_thrown}
use remote_ops_mcp.Docker.Postgres.{
  Config, Exec, Payload, expected_sha256, is_safe_name, readback_env, psql_command, wrapped_sql,
  is_meta_command, is_approved_meta_command, drop_meta_commands, lines_of, join_lines,
  postgres_sql_after_approved_meta_commands, build_postgres_pinned_readback_exec,
}

checked_five :
    (a b c d e : Bool) (m n o p q : String) (r : Made String) (f : String → Exec) (x : Exec)
    → unless_thrown a m (
        unless_thrown b n
          (unless_thrown c o (unless_thrown d p (unless_thrown e q (r >>= λ sql. made (f sql))))))
      ≡ made x
    → (a ≡ true) × ((b && (c && (d && e))) ≡ true) × (sql : String) × (r ≡ made sql) × (x ≡ f sql)
checked_five a b c d e m n o p q (failed message) f x h = absurd (ground (arith, h))
checked_five a b c d e m n o p q (made sql) f x h =
    (ground (arith, h), ground (arith, h), sql, refl, ground (arith, h))

expected_sha256_lem :
    (config : Config) (p : Payload) (hash : String)
    → expected_sha256 config p ≡ made hash
    → lookup p.verifier_id config.verifiers ≡ some hash
unfolding expected_sha256
expected_sha256_lem config p hash h = elim (Option-cases (lookup p.verifier_id config.verifiers)) [
  | inl e ↦ absurd (ground (arith, e, h))
  | inr (x, e) ↦ ground (arith, e, h)
]

-- A kept line is put before the later ones; an approved command is left out; another one throws.
dropped :
    (meta approved : Bool) (line message : String) (later : Made (List String)) (out : List String)
    → (if not meta
        then (later >>= λ rest. made (line ∷ rest))
        else if approved
        then later
        else failed message)
      ≡ made out
    → ((rest : List String) × (later ≡ made rest) × (meta ≡ false) × (out ≡ line ∷ rest))
      ⊎ (later ≡ made out)
dropped true approved line message later out h = inr (ground (arith, h))
dropped false approved line message (failed m) out h = absurd (cc)
dropped false approved line message (made rest) out h = inl (rest, refl, refl, ground (arith, h))

drop_meta_commands_lem :
    (lines out : List String)
    → drop_meta_commands lines ≡ made out
    → any is_meta_command out ≡ false
unfolding drop_meta_commands any
drop_meta_commands_lem [] out h = ground (arith, h)
drop_meta_commands_lem (line ∷ lines) out h =
    elim (dropped (is_meta_command line) (is_approved_meta_command line) line _
      (drop_meta_commands lines) out h) [
        | inl (rest, later, kept, same) ↦
            ap (any is_meta_command) same
            ∙ ground (arith, kept, drop_meta_commands_lem lines rest later)
        | inr later ↦ drop_meta_commands_lem lines out later
      ]

sql_lines :
    (sql text : String)
    → postgres_sql_after_approved_meta_commands sql ≡ made text
    → (out : List String) × (any is_meta_command out ≡ false)
      × (drop_meta_commands (lines_of sql) ≡ made out)
      × (text ≡ join_lines out)
unfolding postgres_sql_after_approved_meta_commands
sql_lines sql text h =
    let (out, kept, joined) = bind_made (drop_meta_commands (lines_of sql)) _ text h in
    (out, drop_meta_commands_lem (lines_of sql) out kept, kept, ground (arith, joined))

-- An exec is built only for a verifier on the list, with the hash on the list of the very script that
-- came, and safe names. It runs psql as the user of the settings, in their container and database, on
-- the lines of the script without the approved psql commands; no line that is left is a psql command,
-- and the lines stand in a read-only transaction that is rolled back.
pub built_exec_is_pinned :
    (os : Host) (config : Config) (p : Payload) (e : Exec)
    → build_postgres_pinned_readback_exec os config p ≡ made e
    → (lookup p.verifier_id config.verifiers ≡ some (os.sha256 p.sql))
      × ((is_safe_name config.container
            && (is_safe_name config.exec_user
                && (is_safe_name config.db_user && is_safe_name config.db_name)))
          ≡ true)
      × ((e.container ≡ config.container)
          × (e.exec_user ≡ config.exec_user)
          × (e.env ≡ readback_env))
      × (out : List String) × (any is_meta_command out ≡ false)
      × (drop_meta_commands (lines_of p.sql) ≡ made out)
      × (e.cmd
          ≡ psql_command config.db_user config.db_name
              (concat "BEGIN TRANSACTION READ ONLY;\n" (concat (join_lines out) "\nROLLBACK;\n")))
unfolding build_postgres_pinned_readback_exec
built_exec_is_pinned os config p e h =
    let (hash, on_list, rest) = bind_made (expected_sha256 config p) _ e h in
    let (same_hash, names, sql, made_sql, same) =
      checked_five (os.sha256 p.sql == hash) (is_safe_name config.container)
        (is_safe_name config.exec_user) (is_safe_name config.db_user) (is_safe_name config.db_name)
        _ _ _ _ _ (postgres_sql_after_approved_meta_commands p.sql) _ e rest in
    let (out, plain, kept, joined) = sql_lines p.sql sql made_sql in
    (
      expected_sha256_lem config p hash on_list
          ∙ ap some (sym ((eq_iff (os.sha256 p.sql) hash).0 same_hash)),
      names,
      (ap (λ x. x.container) same, ap (λ x. x.exec_user) same, ap (λ x. x.env) same),
      out,
      plain,
      kept,
      ap (λ x. x.cmd) same
          ∙ ap (λ t. psql_command config.db_user config.db_name (wrapped_sql t)) joined,
    )
