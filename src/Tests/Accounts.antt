-- ===== src/Tests/Accounts.antt =====
-- Clients, codes, sessions and targets at concrete data.
use remote_ops_mcp.Prelude.{
  Bool, inr, if◌then◌else◌, leb, ℕ, String, ◌≡◌, refl, true, false, none, some, List, [], ◌∷◌,
  arith, eq_iff,
}
use remote_ops_mcp.Dict.{lookup}
use remote_ops_mcp.Store.Model.{Process}
use remote_ops_mcp.Store.Calls.{Call, run, step, revokes_clients, purges, touches_session, controls}
use remote_ops_mcp.Store.Invariant.{IsValid}
use remote_ops_mcp.Store.Invariant.Histories.{run-IsValid}
use remote_ops_mcp.Store.Clients.{revoke_client, put_auth_code}
use remote_ops_mcp.Store.Sessions.{
  session_is_active, consume_auth_code, find_session_by_refresh_token, rotate_refresh_token,
}
use remote_ops_mcp.Store.Revocation.{revoke_client_is_final}
use remote_ops_mcp.Store.Codes.{code_is_single_use}
use remote_ops_mcp.Store.Tokens.{rotated, OnlyAt, rotation_replaces_token}
use remote_ops_mcp.Store.Targets.{set_target_enabled, effective_target_enabled}
use remote_ops_mcp.Store.TargetControls.{switched_off_stays_off}
use remote_ops_mcp.Store.Durability.{IsSaved, step-IsSaved, restart_keeps_active_sessions}
use remote_ops_mcp.Store.Purge.{init_state_store, parsed, to_raw}
use remote_ops_mcp.Tests.Data.{limits, hash, setup, session, code, process, state-IsValid}

abbrev calls : List (ℕ × Call)
calls =
    (10, touches_session "s1")
    ∷ (11, controls "t" false none)
    ∷ (12, purges)
    ∷ (13, revokes_clients)
    ∷ []

run-IsValid_example : IsValid limits (run setup calls process).state
run-IsValid_example = run-IsValid setup calls process state-IsValid

revoke_client_example :
    session_is_active "s1" "c1" 20 (run setup calls (revoke_client "c1" 9 process).0) ≡ false
revoke_client_example =
    revoke_client_is_final setup "c1" 9 process calls "s1" 20 (ground arith)
      (ground arith, (ground arith, (ground arith, (ground arith, tt))))

code_example :
    let used = consume_auth_code hash "secret" 10 (put_auth_code hash "secret" code process) in
    (used.1
      ≡ (if leb 10 code.expires_at then some (record code { code_hash = "h:secret" }) else none))
    × ((consume_auth_code hash "secret" 20 (run setup calls used.0)).1 ≡ none)
code_example = code_is_single_use setup "secret" code 10 20 process calls (tt, (tt, (tt, (tt, tt))))

only_session : (token : String) → OnlyAt token "s1" process
unfolding lookup
only_session token j x found h = ground (arith, found, eq_iff "s1" j)

rotation_example :
    let q = rotate_refresh_token hash "s1" "r2" 900 90 30 process in
    (q.1 ≡ true)
    × (find_session_by_refresh_token hash "r1" q.0 ≡ none)
    × (find_session_by_refresh_token hash "r2" q.0
        ≡ some (rotated limits hash process session "r1" "r2" 900 90 30))
unfolding find_session_by_refresh_token
rotation_example =
    rotation_replaces_token limits hash process session "r1" "r2" 900 90 30 state-IsValid refl refl
      (ground (arith, eq_iff "h:r1" "h:r2")) (only_session "h:r1") (only_session "h:r2")

target_example :
    ((registry_enabled : Bool)
      → effective_target_enabled "t" registry_enabled
          (run setup calls (set_target_enabled (λ r. r) "t" false (some "upgrade") 9 process))
        ≡ false)
    × ((q : Process) → effective_target_enabled "t" false q ≡ false)
target_example =
    switched_off_stays_off setup "t" (some "upgrade") 9 process calls
      (tt, (inr refl, (tt, (tt, tt))))

step_example : IsSaved (step setup 20 purges process)
step_example = step-IsSaved setup 20 purges process tt refl

restart_example :
    (q : Process) × (init_state_store limits 20 (parsed (to_raw process.file)) ≡ some q)
    × (session_is_active "s1" "c1" 30 q ≡ true)
unfolding lookup session_is_active
restart_example =
    restart_keeps_active_sessions limits 20 30 process "s1" "c1" session refl (ground arith) refl
      refl refl
