-- ===== src/Store/Invariant/Devices.antt =====
-- Calls on targets, pairings and devices, the purge, and so every history, keep the state valid.
use remote_ops_mcp.Prelude.{
  ℕ, ◌+◌, String, ◌≡◌, refl, Bool, Option, none, some, arith, List, Option-cases, inl, inr, or_else,
}
use remote_ops_mcp.Dict.{Dict, lookup, insert, prune, lookup-insert}
use remote_ops_mcp.Dict.Index.{IsIndex-insert, IsIndex-prune, IsIndex-key}
use remote_ops_mcp.Store.Model.{StoredPairing, UsageBucket, ToolResult, Limits, Process}
use remote_ops_mcp.Store.Targets.{
  set_target_enabled, record_tool_result, record_target_probe, note_activity, count_result,
  next_activity, empty_bucket,
}
use remote_ops_mcp.Store.Pairings.{
  Platform, PairingMeta, Randoms, create_pairing, add_pairing, approve_pairing_by_code,
  claim_pairing, claim_device, find_pending, draw_code, new_pairing, new_device, is_dead_pairing,
}
use remote_ops_mcp.Store.Devices.{
  touch_device_heartbeat, revoke_device, or_old_version, or_old_capabilities,
}
use remote_ops_mcp.Store.Purge.{purge_state, is_old_code, is_old_pairing, is_old_session}
use remote_ops_mcp.Store.Clients.{prune_pending_clients}
use remote_ops_mcp.Store.Invariant.{
  IsValid, IsBalanced, usage-IsValid, activity-IsValid, controls-IsValid, pairings-IsValid,
  devices-IsValid, device_entry-IsValid, auth_codes-IsValid, sessions-IsValid,
}
use remote_ops_mcp.Store.Invariant.Accounts.{prune_pending_clients-IsValid}

-- One more result keeps a bucket in balance.
count_result_balanced :
    (r : ToolResult) (b : UsageBucket)
    → b.tool_calls ≡ b.ok + b.denied + b.error
    → (count_result r b).tool_calls
      ≡ (count_result r b).ok + (count_result r b).denied + (count_result r b).error
unfolding count_result
count_result_balanced r b h = ground arith

bucket_balanced :
    (m : String) (d : Dict UsageBucket)
    → IsBalanced d
    → (or_else (lookup m d) empty_bucket).tool_calls
      ≡ (or_else (lookup m d) empty_bucket).ok
        + (or_else (lookup m d) empty_bucket).denied
        + (or_else (lookup m d) empty_bucket).error
bucket_balanced m d h = elim (Option-cases (lookup m d)) [
  | inl e ↦ rw e refl
  | inr (b, e) ↦ rw e (h m b e)
]

note_activity-IsValid :
    (env : Limits) (t : Option String) (tool : String) (r : ToolResult) (c : Option String)
    (now : ℕ) (p : Process)
    → IsValid env p.state
    → IsValid env (note_activity t tool r c now p).state
unfolding note_activity
note_activity-IsValid env none tool r c now p h = h
note_activity-IsValid env (some t) tool r c now p h = ground (
  arith,
  h,
  activity-IsValid h
      (insert t (next_activity (lookup t p.target_activity) tool r c now) p.target_activity),
)

module _ (env : Limits) (now : ℕ) (p : Process) (h : IsValid env p.state) where
  pub record_tool_result-IsValid :
      (month_of : ℕ → String) (t : Option String) (tool : String) (r : ToolResult)
      (c : Option String)
      → IsValid env (record_tool_result month_of t tool r c now p).state
  unfolding record_tool_result
  record_tool_result-IsValid month_of t tool r c =
      let m = month_of now in
      let b = count_result r (or_else (lookup m p.usage_monthly) empty_bucket) in
      let b_balanced =
        count_result_balanced r (or_else (lookup m p.usage_monthly) empty_bucket)
          (bucket_balanced m p.usage_monthly h.usage) in
      note_activity-IsValid env t tool r c now _ (
        usage-IsValid h (insert m b p.usage_monthly)
          λ k w e. ground (arith, lookup-insert m k b p.usage_monthly, h.usage k w, b_balanced))

  pub record_target_probe-IsValid :
      (t : String) (ok : Bool) (c : Option String)
      → IsValid env (record_target_probe t ok c now p).state
  unfolding record_target_probe
  record_target_probe-IsValid t ok c = activity-IsValid h _

  pub set_target_enabled-IsValid :
      (clip : Option String → Option String) (t : String) (enabled : Bool) (reason : Option String)
      → IsValid env (set_target_enabled clip t enabled reason now p).state
  unfolding set_target_enabled
  set_target_enabled-IsValid clip t enabled reason = controls-IsValid h _

  add_pairing-IsValid :
      (os : Platform) (r : Randoms) (meta : PairingMeta)
      → IsValid env (add_pairing env os r meta now p).0.state
  unfolding add_pairing
  add_pairing-IsValid os r meta = elim (Option-cases (draw_code os now p.pairings r.draws)) [
    | inl e ↦ ground (arith, h)
    | inr (code, e) ↦ ground (
      arith,
      pairings-IsValid h (insert r.pairing_id (new_pairing env os r meta now code) p.pairings) (
          IsIndex-insert _ r.pairing_id (new_pairing env os r meta now code) p.pairings
            (unfold new_pairing in refl) h.pairings),
    )
  ]

  pub approve_pairing_by_code-IsValid :
      (os : Platform) (code : String) → IsValid env (approve_pairing_by_code os code now p).0.state
  unfolding approve_pairing_by_code
  approve_pairing_by_code-IsValid os code = elim (Option-cases (find_pending os code now p)) [
    | inl e ↦ ground (arith, h)
    | inr (x, e) ↦ ground (
      arith,
      pairings-IsValid h (insert x.pairing_id (record x { approved_at = some now }) p.pairings) (
          IsIndex-insert _ x.pairing_id (record x { approved_at = some now }) p.pairings refl
            h.pairings),
    )
  ]

  claim_device-IsValid :
      (os : Platform) (x : StoredPairing) (id token fresh_id : String)
      → x.pairing_id ≡ id
      → IsValid env (claim_device os x id token fresh_id now p).0.state
  unfolding claim_device
  claim_device-IsValid os x id token fresh_id e =
      let y = record x { device_id = some fresh_id; claimed_at = some now } in
      ground (
        arith,
        h,
        pairings-IsValid
            (devices-IsValid h (insert fresh_id (new_device os x token fresh_id now) p.devices) (
              IsIndex-insert _ fresh_id (new_device os x token fresh_id now) p.devices
                (unfold new_device in refl) h.devices))
            (insert id y p.pairings) (IsIndex-insert _ id y p.pairings e h.pairings),
      )

  pub claim_pairing-IsValid :
      (os : Platform) (id token fresh_id : String)
      → IsValid env (claim_pairing os id token fresh_id now p).0.state
  unfolding claim_pairing
  claim_pairing-IsValid os id token fresh_id = elim (Option-cases (lookup id p.pairings)) [
    | inl e ↦ ground (arith, h)
    | inr (x, e) ↦ ground (
      arith,
      h,
      claim_device-IsValid os x id token fresh_id (IsIndex-key _ p.pairings id x h.pairings e),
    )
  ]

  pub touch_device_heartbeat-IsValid :
      (id : String) (v : Option String) (caps : Option (List String))
      → IsValid env (touch_device_heartbeat id v caps now p).0.state
  unfolding touch_device_heartbeat
  touch_device_heartbeat-IsValid id v caps = elim (Option-cases (lookup id p.devices)) [
    | inl e ↦ ground (arith, h)
    | inr (d, e) ↦ ground (
      arith,
      h,
      device_entry-IsValid h id d
          (record d {
            last_seen_at = some now;
            agent_version = or_old_version v d.agent_version;
            capabilities = or_old_capabilities caps d.capabilities;
          })
          e refl,
    )
  ]

  pub revoke_device-IsValid : (id : String) → IsValid env (revoke_device id now p).0.state
  unfolding revoke_device
  revoke_device-IsValid id = elim (Option-cases (lookup id p.devices)) [
    | inl e ↦ ground (arith, h)
    | inr (d, e) ↦ ground (
      arith,
      device_entry-IsValid h id d d e refl,
      device_entry-IsValid h id d (record d { revoked_at = some now }) e refl,
    )
  ]

pub create_pairing-IsValid :
    (env : Limits) (now : ℕ) (p : Process)
    → IsValid env p.state
    → (os : Platform) (r : Randoms) (meta : PairingMeta)
    → IsValid env (create_pairing env os r meta now p).0.state
unfolding create_pairing
create_pairing-IsValid env now p h os r meta =
    let v = pairings-IsValid h _ (IsIndex-prune _ (is_dead_pairing now) p.pairings h.pairings) in
    ground (
      arith,
      v,
      add_pairing-IsValid env now
          (record p {
            state = record p.state { pairings = prune (is_dead_pairing now) p.pairings };
          })
          v os r meta,
    )

pub purge_state-IsValid :
    (env : Limits) (b : Bool) (now : ℕ) (p : Process)
    → IsValid env p.state
    → IsValid env (purge_state env b now p).state
unfolding purge_state
purge_state-IsValid env b now p h =
    let q = (prune_pending_clients env now p).0 in
    let v = prune_pending_clients-IsValid env now p h in
    let w =
      sessions-IsValid
        (pairings-IsValid
          (auth_codes-IsValid v _ (IsIndex-prune _ (is_old_code now) q.auth_codes v.auth_codes)) _
          (IsIndex-prune _ (is_old_pairing now) q.pairings v.pairings))
        _ (IsIndex-prune _ (is_old_session now) q.sessions v.sessions) in
    ground (arith, w)
