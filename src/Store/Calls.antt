-- ===== src/Store/Calls.antt =====
-- The calls that change the store, in any order and at any times.
use remote_ops_mcp.Prelude.{ℕ, String, Bool, true, Option, List, [], ◌∷◌}
use remote_ops_mcp.Store.Model.{
  StoredClient, StoredAuthCode, StoredSession, ToolResult, Limits, Process,
}
use remote_ops_mcp.Store.Clients.{
  register_client, touch_client, revoke_client, revoke_all_clients, put_auth_code,
}
use remote_ops_mcp.Store.Sessions.{
  consume_auth_code, create_session, rotate_refresh_token, touch_session, revoke_session,
  revoke_all_sessions,
}
use remote_ops_mcp.Store.Targets.{set_target_enabled, record_tool_result, record_target_probe}
use remote_ops_mcp.Store.Pairings.{
  Platform, PairingMeta, Randoms, create_pairing, approve_pairing_by_code, claim_pairing,
}
use remote_ops_mcp.Store.Devices.{touch_device_heartbeat, revoke_device}
use remote_ops_mcp.Store.Purge.{purge_state}

-- What the store runs with.
pub record Setup : Type 0 where
  pub env : Limits
  pub os : Platform
  pub clip : Option String → Option String
  pub month_of : ℕ → String

pub data Call : Type 0 where
  registers : StoredClient → Call
  touches_client revokes_client : String → Call
  revokes_clients revokes_sessions purges : Call
  puts_code : String → StoredAuthCode → Call
  consumes_code : String → Call
  creates_session : StoredSession → Call
  rotates : String → String → ℕ → ℕ → Call
  touches_session revokes_session : String → Call
  controls : String → Bool → Option String → Call
  records : Option String → String → ToolResult → Option String → Call
  probes : String → Bool → Option String → Call
  starts_pairing : Randoms → PairingMeta → Call
  approves : String → Call
  claims : String → String → String → Call
  heartbeats : String → Option String → Option (List String) → Call
  revokes_device : String → Call

unfoldable pub step : Setup → ℕ → Call → Process → Process
step s now (registers client) p = (register_client s.env client now p).0
step s now (touches_client id) p = touch_client id now p
step s now (revokes_client id) p = (revoke_client id now p).0
step s now revokes_clients p = (revoke_all_clients now p).0
step s now revokes_sessions p = (revoke_all_sessions now p).0
step s now purges p = purge_state s.env true now p
step s now (puts_code raw code) p = put_auth_code s.os.sha256 raw code p
step s now (consumes_code raw) p = (consume_auth_code s.os.sha256 raw now p).0
step s now (creates_session session) p = create_session session p
step s now (rotates id raw refresh access) p =
    (rotate_refresh_token s.os.sha256 id raw refresh access now p).0
step s now (touches_session id) p = touch_session id now p
step s now (revokes_session id) p = (revoke_session id now p).0
step s now (controls id enabled reason) p = set_target_enabled s.clip id enabled reason now p
step s now (records target tool result code) p =
    record_tool_result s.month_of target tool result code now p
step s now (probes target ok code) p = record_target_probe target ok code now p
step s now (starts_pairing r meta) p = (create_pairing s.env s.os r meta now p).0
step s now (approves code) p = (approve_pairing_by_code s.os code now p).0
step s now (claims id token fresh_id) p = (claim_pairing s.os id token fresh_id now p).0
step s now (heartbeats id version capabilities) p =
    (touch_device_heartbeat id version capabilities now p).0
step s now (revokes_device id) p = (revoke_device id now p).0

unfoldable pub run : Setup → List (ℕ × Call) → Process → Process
run s [] p = p
run s ((now, c) ∷ cs) p = run s cs (step s now c p)

abbrev pub AllMay : (ℕ → Call → Type 0) → List (ℕ × Call) → Type 0
AllMay May [] = Unit
AllMay May ((now, c) ∷ cs) = May now c × AllMay May cs

-- What every permitted call keeps, every history of permitted calls keeps.
module _ (s : Setup) (P : Process → Type 0) (May : ℕ → Call → Type 0)
    (keep : (now : ℕ) (c : Call) (p : Process) → May now c → P p → P (step s now c p)) where
  pub run_keeps : (cs : List (ℕ × Call)) (p : Process) → AllMay May cs → P p → P (run s cs p)
  unfolding run
  run_keeps [] p m h = h
  run_keeps ((now, c) ∷ cs) p m h = run_keeps cs (step s now c p) m.1 (keep now c p m.0 h)
