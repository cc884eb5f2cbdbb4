-- ===== src/Store/Durability.antt =====
-- Cleaning keeps what is in use; the file holds the state; a restart keeps the active sessions.
use remote_ops_mcp.Prelude.{
  ℕ, ◌≤◌, String, ◌≡◌, refl, sym, ap, ◌∙◌, Bool, true, false, none, some, [], ◌∷◌, arith, ◌==◌,
  eq_iff, any,
}
use remote_ops_mcp.Dict.{Dict, lookup, values, lookup-prune}
use remote_ops_mcp.Dict.Keys.{prune-none}
use remote_ops_mcp.Store.Model.{
  StoredClient, StoredSession, PersistentState, Limits, Process, persist,
}
use remote_ops_mcp.Store.Clients.{
  is_stale_client, prune_pending_clients, register_client, touch_client, revoke_client,
  revoke_all_clients, put_auth_code, get_client,
}
use remote_ops_mcp.Store.Sessions.{
  consume_auth_code, create_session, rotate_refresh_token, touch_session, revoke_session,
  revoke_all_sessions, session_is_active, is_live_client, get_session,
}
use remote_ops_mcp.Store.Targets.{set_target_enabled, record_tool_result, record_target_probe}
use remote_ops_mcp.Store.Pairings.{
  PairingStarted, started, create_pairing, approve_pairing_by_code, claim_pairing,
}
use remote_ops_mcp.Store.Devices.{touch_device_heartbeat, revoke_device}
use remote_ops_mcp.Store.Purge.{
  purge_state, is_old_code, is_old_pairing, is_old_session, init_state_store, parsed, to_raw,
  start_with,
}
use remote_ops_mcp.Store.Calls.{
  Setup, Call, registers, touches_client, revokes_client, revokes_clients, revokes_sessions, purges,
  puts_code, consumes_code, creates_session, rotates, touches_session, revokes_session, controls,
  records, probes, starts_pairing, approves, claims, heartbeats, revokes_device, step,
}

-- A client with a session is not pruned.
any_session_of :
    (id : String) (d : Dict StoredSession) (k : String) (x : StoredSession)
    → lookup k d ≡ some x
    → x.client_id ≡ id
    → any (λ s. s.client_id == id) (values d) ≡ true
unfolding any lookup
any_session_of id [] k x e h = absurd (cc)
any_session_of id ((j, y) ∷ d) k x e h =
    ground (arith, any_session_of id d k x, eq_iff y.client_id id, eq_iff x.client_id id)

-- A session that is active at some time not before the purge, and that carries no revocation mark,
-- is still active after it.
pub purge_keeps_active_sessions :
    (env : Limits) (write : Bool) (now t : ℕ) (p : Process) (sid id : String) (x : StoredSession)
    → now ≤ t
    → lookup sid p.sessions ≡ some x
    → x.revoked_at ≡ none
    → session_is_active sid id t p ≡ true
    → session_is_active sid id t (purge_state env write now p) ≡ true
unfolding purge_state prune_pending_clients session_is_active get_session get_client persist
    is_old_session is_stale_client is_live_client
purge_keeps_active_sessions env write now t p sid id x later found unmarked active = ground (
  arith,
  found,
  unmarked,
  lookup-prune (is_old_session now) sid p.sessions,
  lookup-prune (is_stale_client env p.sessions now) id p.clients,
  any_session_of id p.sessions sid x found,
  eq_iff x.client_id id,
)

abbrev pub IsSaved : Process → Type 0
IsSaved p = p.file ≡ p.state

-- Starting a pairing saves the state if it does start one.
abbrev pub Saves : Setup → ℕ → Call → Process → Type 0
Saves s now (starts_pairing r meta) p =
    (st : PairingStarted) × ((create_pairing s.env s.os r meta now p).1 ≡ started st)
Saves s now _ p = Unit {0}

purge_saves :
    (env : Limits) (now : ℕ) (p : Process) → IsSaved p → IsSaved (purge_state env true now p)
unfolding purge_state prune_pending_clients persist
purge_saves env now p h = ground (
  arith,
  prune-none (is_stale_client env p.sessions now) p.clients,
  prune-none (is_old_code now) p.auth_codes,
  prune-none (is_old_pairing now) p.pairings,
  prune-none (is_old_session now) p.sessions,
)

register_saves :
    (env : Limits) (c : StoredClient) (now : ℕ) (p : Process)
    → IsSaved p
    → IsSaved (register_client env c now p).0
unfolding register_client prune_pending_clients persist
register_saves env c now p h =
    ground (arith, prune-none (is_stale_client env p.sessions now) p.clients)

-- After every call the state file holds the state, if it did before; a `createPairing` that throws
-- is the one exception.
pub step-IsSaved :
    (s : Setup) (now : ℕ) (c : Call) (p : Process)
    → Saves s now c p
    → IsSaved p
    → IsSaved (step s now c p)
unfolding step persist
step-IsSaved s now (registers c) p m h = register_saves s.env c now p h
step-IsSaved s now (touches_client j) p m h = unfold touch_client in ground arith
step-IsSaved s now (revokes_client j) p m h = unfold revoke_client in ground arith
step-IsSaved s now revokes_clients p m h = unfold revoke_all_clients in refl
step-IsSaved s now revokes_sessions p m h = unfold revoke_all_sessions in refl
step-IsSaved s now purges p m h = purge_saves s.env now p h
step-IsSaved s now (puts_code raw c) p m h = unfold put_auth_code in refl
step-IsSaved s now (consumes_code raw) p m h = unfold consume_auth_code in ground arith
step-IsSaved s now (creates_session x) p m h = unfold create_session in refl
step-IsSaved s now (rotates j raw r a) p m h = unfold rotate_refresh_token in ground arith
step-IsSaved s now (touches_session j) p m h = unfold touch_session in ground arith
step-IsSaved s now (revokes_session j) p m h = unfold revoke_session in ground arith
step-IsSaved s now (controls t e r) p m h = unfold set_target_enabled in refl
step-IsSaved s now (records t tool r c) p m h = unfold record_tool_result in refl
step-IsSaved s now (probes t ok c) p m h = unfold record_target_probe in refl
step-IsSaved s now (starts_pairing r me) p m h = unfold create_pairing in ground (arith, m.1)
step-IsSaved s now (approves code) p m h = unfold approve_pairing_by_code in ground arith
step-IsSaved s now (claims j t f) p m h = unfold claim_pairing in ground arith
step-IsSaved s now (heartbeats j v c) p m h = unfold touch_device_heartbeat in ground arith
step-IsSaved s now (revokes_device j) p m h = unfold revoke_device in ground arith

-- Whether a session is active depends on the state alone.
active_by_state :
    (sid id : String) (t : ℕ) (p q : Process)
    → p.state ≡ q.state
    → session_is_active sid id t p ≡ session_is_active sid id t q
unfolding session_is_active
active_by_state sid id t p q e =
    ap
      (λ (st : PersistentState).
        session_is_active sid id t (record { state = st; file = p.file; last_session_touch = [] }))
      e

-- A restart from the file of a saved state succeeds, and a session that carries no revocation mark
-- is active after it at every later time at which it would have been active before.
pub restart_keeps_active_sessions :
    (env : Limits) (now t : ℕ) (p : Process) (sid id : String) (x : StoredSession)
    → IsSaved p
    → now ≤ t
    → lookup sid p.sessions ≡ some x
    → x.revoked_at ≡ none
    → session_is_active sid id t p ≡ true
    → (q : Process) × (init_state_store env now (parsed (to_raw p.file)) ≡ some q)
      × (session_is_active sid id t q ≡ true)
unfolding init_state_store session_is_active get_session get_client
restart_keeps_active_sessions env now t p sid id x saved later found unmarked active = (
  purge_state env false now (start_with p.file),
  refl,
  purge_keeps_active_sessions env false now t (start_with p.file) sid id x later (rw saved found)
      unmarked (sym (active_by_state sid id t p (start_with p.file) (sym saved)) ∙ active),
)
