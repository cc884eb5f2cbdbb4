-- ===== src/Store/TargetControls.antt =====
-- Target controls can only take authority away; usage is counted exactly.
use remote_ops_mcp.Prelude.{
  ℕ, String, ◌≡◌, ◌≢◌, ◌+◌, refl, Bool, false, Option, none, some, List, arith, eq_iff,
  Option-cases, inl, inr, ◌⊎◌,
}
use remote_ops_mcp.Dict.{lookup, insert, lookup-insert, lookup-insert_self}
use remote_ops_mcp.Store.Model.{
  TargetControl, TargetActivity, UsageBucket, Process, persist, ToolResult,
}
use remote_ops_mcp.Store.Clients.{
  prune_pending_clients, register_client, touch_client, revoke_client, revoke_all_clients,
  put_auth_code,
}
use remote_ops_mcp.Store.Sessions.{
  consume_auth_code, create_session, rotate_refresh_token, touch_session, revoke_session,
  revoke_all_sessions, touch_client_of,
}
use remote_ops_mcp.Store.Targets.{
  set_target_enabled, record_tool_result, record_target_probe, effective_target_enabled,
}
use remote_ops_mcp.Store.Pairings.{create_pairing, approve_pairing_by_code, claim_pairing}
use remote_ops_mcp.Store.Devices.{touch_device_heartbeat, revoke_device}
use remote_ops_mcp.Store.Purge.{purge_state}
use remote_ops_mcp.Store.Calls.{
  Setup, Call, registers, touches_client, revokes_client, revokes_clients, revokes_sessions, purges,
  puts_code, consumes_code, creates_session, rotates, touches_session, revokes_session, controls,
  records, probes, starts_pairing, approves, claims, heartbeats, revokes_device, step, run, AllMay,
  run_keeps,
}

-- Any call, but a control that would enable this target.
abbrev pub MayControl : String → ℕ → Call → Type 0
MayControl id now (controls t enabled reason) = (t ≢ id) ⊎ (enabled ≡ false)
MayControl id now _ = Unit {0}

abbrev IsOff : Option TargetControl → Type 0
IsOff none = ⊥
IsOff (some c) = c.enabled ≡ false

touch_client_of-controls :
    (j : String) (now : ℕ) (p : Process)
    → (touch_client_of j now p).target_controls ≡ p.target_controls
unfolding touch_client_of
touch_client_of-controls j now p = ground arith

touch_session-controls :
    (j : String) (now : ℕ) (p : Process)
    → (touch_session j now p).target_controls ≡ p.target_controls
unfolding touch_session persist
touch_session-controls j now p = elim (Option-cases (lookup j p.sessions)) [
  | inl e ↦ ground arith
  | inr (x, e) ↦ ground (
    arith,
    touch_client_of-controls x.client_id now (record p {
      state = record p.state { sessions = insert j (record x { last_seen_at = now }) p.sessions };
      last_session_touch = insert j now p.last_session_touch;
    }),
  )
]

module _ (s : Setup) (id : String) where
  control-IsOff :
      (t : String) (enabled : Bool) (reason : Option String) (now : ℕ) (p : Process)
      → (t ≢ id) ⊎ (enabled ≡ false)
      → IsOff (lookup id p.target_controls)
      → IsOff (lookup id (set_target_enabled s.clip t enabled reason now p).target_controls)
  unfolding set_target_enabled persist
  control-IsOff t enabled reason now p m h = ground (
    arith,
    eq_iff t id,
    lookup-insert t id (record { enabled = enabled; updated_at = now; reason = s.clip reason })
        p.target_controls,
  )

  step-IsOff :
      (now : ℕ) (c : Call) (p : Process)
      → MayControl id now c
      → IsOff (lookup id p.target_controls)
      → IsOff (lookup id (step s now c p).target_controls)
  unfolding step persist
  step-IsOff now (registers c) p m h = unfold register_client prune_pending_clients in ground arith
  step-IsOff now (touches_client j) p m h = unfold touch_client in ground arith
  step-IsOff now (revokes_client j) p m h = unfold revoke_client in ground arith
  step-IsOff now revokes_clients p m h = unfold revoke_all_clients in h
  step-IsOff now revokes_sessions p m h = unfold revoke_all_sessions in h
  step-IsOff now purges p m h = unfold purge_state in ground arith
  step-IsOff now (puts_code raw c) p m h = unfold put_auth_code in h
  step-IsOff now (consumes_code raw) p m h = unfold consume_auth_code in ground arith
  step-IsOff now (creates_session x) p m h = unfold create_session in h
  step-IsOff now (rotates j raw r a) p m h = unfold rotate_refresh_token in ground arith
  step-IsOff now (touches_session j) p m h = rw (touch_session-controls j now p) h
  step-IsOff now (revokes_session j) p m h = unfold revoke_session in ground arith
  step-IsOff now (controls t e r) p m h = control-IsOff t e r now p m h
  step-IsOff now (records none tool r c) p m h = unfold record_tool_result in h
  step-IsOff now (records (some t) tool r c) p m h = unfold record_tool_result in ground arith
  step-IsOff now (probes t ok c) p m h = unfold record_target_probe in h
  step-IsOff now (starts_pairing r me) p m h = unfold create_pairing in ground arith
  step-IsOff now (approves code) p m h = unfold approve_pairing_by_code in ground arith
  step-IsOff now (claims j t f) p m h = unfold claim_pairing in ground arith
  step-IsOff now (heartbeats j v c) p m h = unfold touch_device_heartbeat in ground arith
  step-IsOff now (revokes_device j) p m h = unfold revoke_device in ground arith

  -- A target that is switched off is not enabled, whatever the registry says, until a control
  -- switches this target on; and no control enables a target that the registry disables.
  pub switched_off_stays_off :
      (reason : Option String) (now : ℕ) (p : Process) (cs : List (ℕ × Call))
      → AllMay (MayControl id) cs
      → ((registry_enabled : Bool)
          → effective_target_enabled id registry_enabled
              (run s cs (set_target_enabled s.clip id false reason now p))
            ≡ false)
        × ((q : Process) → effective_target_enabled id false q ≡ false)
  unfolding effective_target_enabled set_target_enabled persist
  switched_off_stays_off reason now p cs may =
      let off : TargetControl = record {
        enabled = false;
        updated_at = now;
        reason = s.clip reason;
      } in
      let q = set_target_enabled s.clip id false reason now p in
      let r =
        run_keeps s (λ p. IsOff (lookup id p.target_controls)) (MayControl id) step-IsOff cs q may
          (ground (arith, lookup-insert_self id off p.target_controls)) in
      (λ b. ground (arith, r), λ q. refl)

-- How many results of a kind a month has.
abbrev pub results : ToolResult → UsageBucket → ℕ
results ToolResult.ok b = b.ok
results ToolResult.denied b = b.denied
results ToolResult.error b = b.error

-- The time of the last success of a target, and of its last error.
abbrev pub success_time : Option TargetActivity → Option ℕ
success_time none = none
success_time (some a) = a.last_ok_at

abbrev pub error_time : Option TargetActivity → Option ℕ
error_time none = none
error_time (some a) = a.last_error_at

-- What is known of a target after a result: the time of this call stands for the last success only if
-- it was one, and for the last error only if it was one.
abbrev pub IsRecorded :
    String → ToolResult → Option String → ℕ → Option TargetActivity → TargetActivity → Type 0
IsRecorded tool r code now before a =
    (a.last_seen_at ≡ now)
    × (a.last_tool ≡ some tool)
    × (a.last_result ≡ r)
    × (a.last_error_code ≡ code)
    × (r ≡ ToolResult.ok → success_time (some a) ≡ some now)
    × (r ≢ ToolResult.ok → success_time (some a) ≡ success_time before)
    × (r ≡ ToolResult.error → error_time (some a) ≡ some now)
    × (r ≢ ToolResult.error → error_time (some a) ≡ error_time before)

-- One call and one result of the kind more, and the other kinds as before.
abbrev pub IsCounted : ToolResult → UsageBucket → UsageBucket → Type 0
IsCounted r before after =
    (after.tool_calls ≡ before.tool_calls + 1)
    × (results r after ≡ results r before + 1)
    × ((k : ToolResult) → k ≢ r → results k after ≡ results k before)
