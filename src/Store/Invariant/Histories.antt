-- ===== src/Store/Invariant/Histories.antt =====
-- Every history of calls keeps the state valid.
use remote_ops_mcp.Prelude.{ℕ, List, [], ◌∷◌}
use remote_ops_mcp.Store.Model.{Process}
use remote_ops_mcp.Store.Calls.{
  Setup, Call, registers, touches_client, revokes_client, revokes_clients, revokes_sessions, purges,
  puts_code, consumes_code, creates_session, rotates, touches_session, revokes_session, controls,
  records, probes, starts_pairing, approves, claims, heartbeats, revokes_device, step, run,
}
use remote_ops_mcp.Store.Invariant.{IsValid}
use remote_ops_mcp.Store.Invariant.Accounts.{
  register_client-IsValid, touch_client-IsValid, revoke_client-IsValid, revoke_all_clients-IsValid,
  put_auth_code-IsValid, consume_auth_code-IsValid, create_session-IsValid,
  rotate_refresh_token-IsValid, revoke_session-IsValid, revoke_all_sessions-IsValid,
  touch_session-IsValid,
}
use remote_ops_mcp.Store.Invariant.Devices.{
  record_tool_result-IsValid, record_target_probe-IsValid, set_target_enabled-IsValid,
  create_pairing-IsValid, approve_pairing_by_code-IsValid, claim_pairing-IsValid,
  touch_device_heartbeat-IsValid, revoke_device-IsValid, purge_state-IsValid,
}

step-IsValid :
    (s : Setup) (now : ℕ) (c : Call) (p : Process)
    → IsValid s.env p.state
    → IsValid s.env (step s now c p).state
unfolding step
step-IsValid s now (registers c) p h = register_client-IsValid s.env now p h c
step-IsValid s now (touches_client id) p h = touch_client-IsValid s.env now p h id
step-IsValid s now (revokes_client id) p h = revoke_client-IsValid s.env now p h id
step-IsValid s now revokes_clients p h = revoke_all_clients-IsValid s.env now p h
step-IsValid s now revokes_sessions p h = revoke_all_sessions-IsValid s.env now p h
step-IsValid s now purges p h = purge_state-IsValid s.env _ now p h
step-IsValid s now (puts_code raw c) p h = put_auth_code-IsValid s.env now p h s.os.sha256 raw c
step-IsValid s now (consumes_code raw) p h = consume_auth_code-IsValid s.env now p h s.os.sha256 raw
step-IsValid s now (creates_session x) p h = create_session-IsValid s.env now p h x
step-IsValid s now (rotates id raw r a) p h =
    rotate_refresh_token-IsValid s.env now p h s.os.sha256 id raw r a
step-IsValid s now (touches_session id) p h = touch_session-IsValid s.env now p h id
step-IsValid s now (revokes_session id) p h = revoke_session-IsValid s.env now p h id
step-IsValid s now (controls t e r) p h = set_target_enabled-IsValid s.env now p h s.clip t e r
step-IsValid s now (records t tool r c) p h =
    record_tool_result-IsValid s.env now p h s.month_of t tool r c
step-IsValid s now (probes t ok c) p h = record_target_probe-IsValid s.env now p h t ok c
step-IsValid s now (starts_pairing r m) p h = create_pairing-IsValid s.env now p h s.os r m
step-IsValid s now (approves code) p h = approve_pairing_by_code-IsValid s.env now p h s.os code
step-IsValid s now (claims id t f) p h = claim_pairing-IsValid s.env now p h s.os id t f
step-IsValid s now (heartbeats id v c) p h = touch_device_heartbeat-IsValid s.env now p h id v c
step-IsValid s now (revokes_device id) p h = revoke_device-IsValid s.env now p h id

-- From a valid state, whatever calls come in whatever order and at whatever times, the state stays
-- valid: keys are unique and are the ids of their entries, the clients are at most
-- `oauth_max_clients`, and in every month's usage the calls are the sum of the results.
pub run-IsValid :
    (s : Setup) (cs : List (ℕ × Call)) (p : Process)
    → IsValid s.env p.state
    → IsValid s.env (run s cs p).state
unfolding run
run-IsValid s [] p h = h
run-IsValid s ((now, c) ∷ cs) p h = run-IsValid s cs (step s now c p) (step-IsValid s now c p h)
