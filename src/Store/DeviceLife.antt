-- ===== src/Store/DeviceLife.antt =====
-- A revoked device stays out.
use remote_ops_mcp.Prelude.{
  ℕ, ◌<◌, String, ◌≡◌, ◌≢◌, true, false, Option, none, some, List, arith, eq_iff, eq_refl,
  Option-cases, inl, inr, truthy,
}
use remote_ops_mcp.Dict.{lookup, insert, lookup-insert}
use remote_ops_mcp.Dict.Index.{IsIndex-find}
use remote_ops_mcp.Store.Invariant.{IsValid}
use remote_ops_mcp.Store.Invariant.Histories.{run-IsValid}
use remote_ops_mcp.Store.Invariant.Devices.{revoke_device-IsValid}
use remote_ops_mcp.Store.Model.{StoredDevice, Process, persist}
use remote_ops_mcp.Store.Clients.{
  prune_pending_clients, register_client, touch_client, revoke_client, revoke_all_clients,
  put_auth_code,
}
use remote_ops_mcp.Store.Sessions.{
  consume_auth_code, create_session, rotate_refresh_token, touch_session, revoke_session,
  revoke_all_sessions, touch_client_of,
}
use remote_ops_mcp.Store.Targets.{set_target_enabled, record_tool_result, record_target_probe}
use remote_ops_mcp.Store.Pairings.{
  create_pairing, approve_pairing_by_code, claim_pairing, new_device,
}
use remote_ops_mcp.Store.Devices.{
  touch_device_heartbeat, revoke_device, or_old_version, or_old_capabilities,
  authenticate_device_token,
}
use remote_ops_mcp.Store.Purge.{purge_state}
use remote_ops_mcp.Store.Calls.{
  Setup, Call, registers, touches_client, revokes_client, revokes_clients, revokes_sessions, purges,
  puts_code, consumes_code, creates_session, rotates, touches_session, revokes_session, controls,
  records, probes, starts_pairing, approves, claims, heartbeats, revokes_device, step, run, AllMay,
  run_keeps,
}

-- No live device has this id.
abbrev pub IsDeadDevice : Option StoredDevice → Type 0
IsDeadDevice none = Unit
IsDeadDevice (some d) = truthy d.revoked_at ≡ true

-- Any call at a time after the epoch, but a claim that would mint this device id.
abbrev pub MayClaim : String → ℕ → Call → Type 0
MayClaim id now (claims j t fresh_id) = (0 < now) × (fresh_id ≢ id)
MayClaim id now _ = 0 < now

touch_client_of-devices :
    (j : String) (now : ℕ) (p : Process) → (touch_client_of j now p).devices ≡ p.devices
unfolding touch_client_of
touch_client_of-devices j now p = ground arith

touch_session-devices :
    (j : String) (now : ℕ) (p : Process) → (touch_session j now p).devices ≡ p.devices
unfolding touch_session persist
touch_session-devices j now p = elim (Option-cases (lookup j p.sessions)) [
  | inl e ↦ ground arith
  | inr (x, e) ↦ ground (
    arith,
    touch_client_of-devices x.client_id now (record p {
      state = record p.state { sessions = insert j (record x { last_seen_at = now }) p.sessions };
      last_session_touch = insert j now p.last_session_touch;
    }),
  )
]

module _ (s : Setup) (id : String) where
  abbrev IsOut : Process → Type 0
  IsOut p = IsDeadDevice (lookup id p.devices)

  claim_pairing-IsOut :
      (j token fresh_id : String) (now : ℕ) (p : Process)
      → fresh_id ≢ id
      → IsOut p
      → IsOut (claim_pairing s.os j token fresh_id now p).0
  unfolding claim_pairing persist
  claim_pairing-IsOut j token fresh_id now p other h = elim (Option-cases (lookup j p.pairings)) [
    | inl e ↦ ground arith
    | inr (x, e) ↦ ground (
      arith,
      lookup-insert fresh_id id (new_device s.os x token fresh_id now) p.devices,
      eq_iff fresh_id id,
    )
  ]

  heartbeat-IsOut :
      (j : String) (v : Option String) (caps : Option (List String)) (now : ℕ) (p : Process)
      → IsOut p
      → IsOut (touch_device_heartbeat j v caps now p).0
  unfolding touch_device_heartbeat persist
  heartbeat-IsOut j v caps now p h = elim (Option-cases (lookup j p.devices)) [
    | inl e ↦ ground arith
    | inr (d, e) ↦ ground (
      arith,
      lookup-insert j id
          (record d {
            last_seen_at = some now;
            agent_version = or_old_version v d.agent_version;
            capabilities = or_old_capabilities caps d.capabilities;
          })
          p.devices,
      eq_iff j id,
    )
  ]

  revoke_device-IsOut :
      (j : String) (now : ℕ) (p : Process) → 0 < now → IsOut p → IsOut (revoke_device j now p).0
  unfolding revoke_device persist
  revoke_device-IsOut j now p pos h = elim (Option-cases (lookup j p.devices)) [
    | inl e ↦ ground arith
    | inr (d, e) ↦ ground (
      arith,
      lookup-insert j id d p.devices,
      lookup-insert j id (record d { revoked_at = some now }) p.devices,
      eq_iff j id,
    )
  ]

  step-IsOut :
      (now : ℕ) (c : Call) (p : Process) → MayClaim id now c → IsOut p → IsOut (step s now c p)
  unfolding step persist
  step-IsOut now (registers c) p m h = unfold register_client prune_pending_clients in ground arith
  step-IsOut now (touches_client j) p m h = unfold touch_client in ground arith
  step-IsOut now (revokes_client j) p m h = unfold revoke_client in ground arith
  step-IsOut now revokes_clients p m h = unfold revoke_all_clients in h
  step-IsOut now revokes_sessions p m h = unfold revoke_all_sessions in h
  step-IsOut now purges p m h = unfold purge_state in ground arith
  step-IsOut now (puts_code raw c) p m h = unfold put_auth_code in h
  step-IsOut now (consumes_code raw) p m h = unfold consume_auth_code in ground arith
  step-IsOut now (creates_session x) p m h = unfold create_session in h
  step-IsOut now (rotates j raw r a) p m h = unfold rotate_refresh_token in ground arith
  step-IsOut now (touches_session j) p m h = rw (touch_session-devices j now p) h
  step-IsOut now (revokes_session j) p m h = unfold revoke_session in ground arith
  step-IsOut now (controls t e r) p m h = unfold set_target_enabled in h
  step-IsOut now (records none tool r c) p m h = unfold record_tool_result in h
  step-IsOut now (records (some t) tool r c) p m h = unfold record_tool_result in ground arith
  step-IsOut now (probes t ok c) p m h = unfold record_target_probe in h
  step-IsOut now (starts_pairing r me) p m h = unfold create_pairing in ground arith
  step-IsOut now (approves code) p m h = unfold approve_pairing_by_code in ground arith
  step-IsOut now (claims j t f) p m h = claim_pairing-IsOut j t f now p m.1 h
  step-IsOut now (heartbeats j v c) p m h = heartbeat-IsOut j v c now p h
  step-IsOut now (revokes_device j) p m h = revoke_device-IsOut j now p m h

revoked_is_out :
    (id : String) (now : ℕ) (p : Process)
    → 0 < now
    → IsDeadDevice (lookup id (revoke_device id now p).0.devices)
unfolding revoke_device persist
revoked_is_out id now p pos = elim (Option-cases (lookup id p.devices)) [
  | inl e ↦ ground arith
  | inr (d, e) ↦ ground (
    arith,
    lookup-insert id id d p.devices,
    lookup-insert id id (record d { revoked_at = some now }) p.devices,
    eq_refl id,
  )
]

not_authentic :
    (s : Setup) (id raw : String) (p : Process) (d : StoredDevice)
    → IsValid s.env p.state
    → IsDeadDevice (lookup id p.devices)
    → authenticate_device_token s.os.sha256 raw p ≡ some d
    → d.device_id ≢ id
unfolding authenticate_device_token
not_authentic s id raw p d v out found same =
    let (at_own, passes) = IsIndex-find _ _ p.devices d v.devices found in
    ground (arith, rw same at at_own, out, passes)

-- After `revokeDevice`, from a valid state, at once and after any later calls at times after the
-- epoch of which none mints the same device id: no token authenticates the device, and its
-- heartbeats are refused.
pub revoke_device_is_final :
    (s : Setup) (id : String) (now : ℕ) (p : Process) (cs : List (ℕ × Call))
    → IsValid s.env p.state
    → 0 < now
    → AllMay (MayClaim id) cs
    → let q = run s cs (revoke_device id now p).0 in
      ((raw : String) (d : StoredDevice)
        → authenticate_device_token s.os.sha256 raw q ≡ some d
        → d.device_id ≢ id)
      × ((v : Option String) (caps : Option (List String)) (t : ℕ)
          → touch_device_heartbeat id v caps t q ≡ (q, false))
unfolding touch_device_heartbeat
revoke_device_is_final s id now p cs v pos may =
    let out = run_keeps s (IsOut s id) _ (step-IsOut s id) cs _ may (revoked_is_out id now p pos) in
    let valid = run-IsValid s cs _ (revoke_device-IsValid s.env now p v id) in
    (λ raw d. not_authentic s id raw _ d valid out, λ w caps t. ground (arith, out))
