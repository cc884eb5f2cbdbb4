-- ===== src/Docker/Permits/Fixed.antt =====
-- The requests of the readback and of the Paperclip operations.
use remote_ops_mcp.Prelude.{
  String, ◌≡◌, ap, ◌∙◌, Bool, true, false, ◌||◌, ◌&&◌, Option, none, some, List, arith, includes,
  eq_refl, eq_iff,
}
use remote_ops_mcp.Docker.Json.{bind_made, Json, Host, is_nullish, made, ◌>>=◌, unless_thrown}
use remote_ops_mcp.Docker.Requests.{ExecSpec, create_exec, executed, read_back, throws}
use remote_ops_mcp.Docker.Settings.{Settings}
use remote_ops_mcp.Docker.Postgres.{
  Exec, psql_command, normalize_postgres_pinned_readback_payload,
  build_postgres_pinned_readback_exec,
}
use remote_ops_mcp.Docker.Paperclip.{
  Operation, normalize_paperclip_semantic_payload, paperclip_semantic_exec_command,
}
use remote_ops_mcp.Docker.Proxy.{
  readback_problem, config_of, spec_of, read_back_payload, run_semantic, semantic_payload,
}
use remote_ops_mcp.Docker.Guarded.{
  History, IsGuarded, IsGuarded-if, IsGuarded-reply, IsGuarded-throws, IsGuarded-with_made,
}
use remote_ops_mcp.Docker.Rule.{
  is_operator_exec, permits, is_readback_exec, is_semantic_exec, is_psql, is_semantic_command,
}
use remote_ops_mcp.Docker.Permits.{run_exec-IsGuarded}
use remote_ops_mcp.Docker.Postgres.Pinned.{built_exec_is_pinned}

semantic_words :
    (b : Bool) (m : String) (words cmd : List String)
    → unless_thrown b m (made words) ≡ made cmd
    → cmd ≡ words
semantic_words true m words cmd h = ground (arith, h)
semantic_words false m words cmd h = absurd (cc)

psql-is_psql :
    (s : Settings) (sql : String)
    → is_psql s (psql_command s.postgres_db_user s.postgres_db_name sql) ≡ true
unfolding is_psql
psql-is_psql s sql = ground (arith, eq_refl s.postgres_db_user, eq_refl s.postgres_db_name)

abbrev semantic_spec : List String → ExecSpec
semantic_spec cmd = record { user = none; env = none; cmd = cmd }

or_middle : (a b c : Bool) → b ≡ true → (a || (b || c)) ≡ true
or_middle a b c h = ground (arith, h)

or_last : (a b c : Bool) → c ≡ true → (a || (b || c)) ≡ true
or_last a b c h = ground (arith, h)

module _ (os : Host) (s : Settings) where
  readback_passes :
      (container user : String) (env : Option (List String)) (cmd : List String) (sql : String)
      → container ≡ s.postgres_container
      → user ≡ s.postgres_exec_user
      → cmd ≡ psql_command s.postgres_db_user s.postgres_db_name sql
      → is_readback_exec s container (record { user = some user; env = env; cmd = cmd }) ≡ true
  unfolding is_readback_exec
  readback_passes container user env cmd sql same_container same_user same_cmd = ground (
    arith,
    (eq_iff container s.postgres_container).1 same_container,
    (eq_iff user s.postgres_exec_user).1 same_user,
    ap (is_psql s) same_cmd ∙ psql-is_psql s sql,
  )

  may_read_back :
      (h : History) (raw : Json) (e : Exec)
      → (normalize_postgres_pinned_readback_payload os raw
          >>= build_postgres_pinned_readback_exec os (config_of s))
        ≡ made e
      → permits os s h (create_exec e.container (spec_of e)) ≡ true
  unfolding permits
  may_read_back h raw e built =
      let (p, payload, exec) =
        bind_made (normalize_postgres_pinned_readback_payload os raw) _ e built in
      let (on_list, names, (container, user, env), out, plain, kept, cmd) =
        built_exec_is_pinned os (config_of s) p e exec in
      or_middle _ _ _
        (readback_passes e.container e.exec_user (some e.env) e.cmd _ container user cmd)

  pub read_back-IsGuarded :
      (h : History) (raw : Json) → IsGuarded (permits os s) h (read_back_payload os s raw)
  unfolding read_back_payload
  read_back-IsGuarded h raw =
      IsGuarded-if (permits os s) h (is_nullish raw) _ _ (λ e. IsGuarded-throws (permits os s) h _)
        λ e.
          IsGuarded-with_made (permits os s) h
            (normalize_postgres_pinned_readback_payload os raw
              >>= build_postgres_pinned_readback_exec os (config_of s))
            throws _ (λ message. IsGuarded-throws (permits os s) h message)
            λ x built.
              run_exec-IsGuarded os s h x.container (spec_of x) (read_back x.verifier_id x.sha256)
                (may_read_back h raw x built)

  pub problem_is_reply :
      (h : History) (code : String) → IsGuarded (permits os s) h (readback_problem code)
  unfolding readback_problem
  problem_is_reply h code = IsGuarded-reply (permits os s) h _

  may_run_semantic :
      (h : History) (op : Operation) (payload : Json) (cmd : List String)
      → (includes s.paperclip_container s.allowed
          && includes s.paperclip_container s.exec_containers)
        ≡ true
      → paperclip_semantic_exec_command os op payload ≡ made cmd
      → permits os s h
          (create_exec s.paperclip_container (record { user = none; env = none; cmd = cmd }))
        ≡ true
  unfolding permits is_semantic_exec paperclip_semantic_exec_command
  may_run_semantic h op payload cmd both built =
      or_last (is_operator_exec os s h s.paperclip_container (semantic_spec cmd))
        (is_readback_exec s s.paperclip_container (semantic_spec cmd))
        (is_semantic_exec os s s.paperclip_container (semantic_spec cmd))
        (ground (
          arith,
          both,
          eq_refl s.paperclip_container,
          ap (is_semantic_command os) (semantic_words _ _ _ cmd built) ∙ eq_refl os.semantic_script,
        ))

  pub semantic-IsGuarded :
      (h : History) (op : Operation) (raw : Json)
      → (includes s.paperclip_container s.allowed
          && includes s.paperclip_container s.exec_containers)
        ≡ true
      → IsGuarded (permits os s) h (semantic_payload os s op raw)
  unfolding semantic_payload run_semantic
  semantic-IsGuarded h op raw both =
      IsGuarded-with_made (permits os s) h (normalize_paperclip_semantic_payload os op raw) _ _
        (λ code. IsGuarded-reply (permits os s) h _)
        λ payload is_payload.
          IsGuarded-with_made (permits os s) h (paperclip_semantic_exec_command os op payload)
            throws _ (λ message. IsGuarded-throws (permits os s) h message)
            λ cmd is_cmd.
              run_exec-IsGuarded os s h s.paperclip_container _ executed
                (may_run_semantic h op payload cmd both is_cmd)
