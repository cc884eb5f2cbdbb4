-- ===== src/Store/Revocation.antt =====
-- Revoking a client or a device takes effect at once and for good.
use remote_ops_mcp.Prelude.{
  false, eq_refl, ℕ, ◌<◌, String, ◌≡◌, ◌≢◌, true, Option, none, some, List, arith, eq_iff, truthy,
  Option-cases, inl, inr,
}
use remote_ops_mcp.Dict.{lookup, insert, lookup-insert, lookup-prune, lookup-update_all}
use remote_ops_mcp.Store.Model.{StoredClient, Limits, Process, persist}
use remote_ops_mcp.Store.Clients.{
  get_client, prune_pending_clients, register_client, touch_client, revoke_client,
  revoke_all_clients, put_auth_code, is_stale_client, mark_client_revoked,
}
use remote_ops_mcp.Store.Sessions.{
  is_live_client, session_is_active, consume_auth_code, create_session, rotate_refresh_token,
  touch_session, revoke_session, revoke_all_sessions, touch_client_of,
}
use remote_ops_mcp.Store.Targets.{set_target_enabled, record_tool_result, record_target_probe}
use remote_ops_mcp.Store.Pairings.{create_pairing, approve_pairing_by_code, claim_pairing}
use remote_ops_mcp.Store.Devices.{touch_device_heartbeat, revoke_device}
use remote_ops_mcp.Store.Purge.{purge_state}
use remote_ops_mcp.Store.Calls.{
  Setup, Call, registers, touches_client, revokes_client, revokes_clients, revokes_sessions, purges,
  puts_code, consumes_code, creates_session, rotates, touches_session, revokes_session, controls,
  records, probes, starts_pairing, approves, claims, heartbeats, revokes_device, step, run, AllMay,
  run_keeps,
}

-- No live client has this id.
abbrev pub IsDead : Option StoredClient → Type 0
IsDead none = Unit
IsDead (some c) = truthy c.revoked_at ≡ true

-- Any call at a time after the epoch, but the registration of a client under this id.
abbrev pub MayRegister : String → ℕ → Call → Type 0
MayRegister id now (registers c) = (0 < now) × (c.client_id ≢ id)
MayRegister id now _ = 0 < now

module _ (id : String) where
  touch_client_of-IsDead :
      (j : String) (now : ℕ) (p : Process)
      → IsDead (lookup id p.clients)
      → IsDead (lookup id (touch_client_of j now p).clients)
  unfolding touch_client_of
  touch_client_of-IsDead j now p h = elim (Option-cases (lookup j p.clients)) [
    | inl e ↦ ground arith
    | inr (c, e) ↦
        ground
          (arith, lookup-insert j id (record c { last_seen_at = some now }) p.clients, eq_iff j id)
  ]

  prune_pending_clients-IsDead :
      (env : Limits) (now : ℕ) (p : Process)
      → IsDead (lookup id p.clients)
      → IsDead (lookup id (prune_pending_clients env now p).0.clients)
  unfolding prune_pending_clients
  prune_pending_clients-IsDead env now p h =
      ground (arith, lookup-prune (is_stale_client env p.sessions now) id p.clients)

  register_client-IsDead :
      (env : Limits) (c : StoredClient) (now : ℕ) (p : Process)
      → c.client_id ≢ id
      → IsDead (lookup id p.clients)
      → IsDead (lookup id (register_client env c now p).0.clients)
  unfolding register_client persist
  register_client-IsDead env c now p other h =
      let q = (prune_pending_clients env now p).0 in
      ground (
        arith,
        prune_pending_clients-IsDead env now p h,
        lookup-insert c.client_id id c q.clients,
        eq_iff c.client_id id,
      )

  touch_client-IsDead :
      (j : String) (now : ℕ) (p : Process)
      → IsDead (lookup id p.clients)
      → IsDead (lookup id (touch_client j now p).clients)
  unfolding touch_client persist
  touch_client-IsDead j now p h = elim (Option-cases (lookup j p.clients)) [
    | inl e ↦ ground arith
    | inr (c, e) ↦
        ground
          (arith, lookup-insert j id (record c { last_seen_at = some now }) p.clients, eq_iff j id)
  ]

  revoke_client-IsDead :
      (j : String) (now : ℕ) (p : Process)
      → 0 < now
      → IsDead (lookup id p.clients)
      → IsDead (lookup id (revoke_client j now p).0.clients)
  unfolding revoke_client persist
  revoke_client-IsDead j now p pos h = elim (Option-cases (lookup j p.clients)) [
    | inl e ↦ ground arith
    | inr (c, e) ↦
        ground
          (arith, lookup-insert j id (record c { revoked_at = some now }) p.clients, eq_iff j id)
  ]

  revoke_all_clients-IsDead :
      (now : ℕ) (p : Process)
      → IsDead (lookup id p.clients)
      → IsDead (lookup id (revoke_all_clients now p).0.clients)
  unfolding revoke_all_clients persist mark_client_revoked
  revoke_all_clients-IsDead now p h =
      ground (arith, lookup-update_all (mark_client_revoked now) id p.clients)

  touch_session-IsDead :
      (j : String) (now : ℕ) (p : Process)
      → IsDead (lookup id p.clients)
      → IsDead (lookup id (touch_session j now p).clients)
  unfolding touch_session persist
  touch_session-IsDead j now p h = elim (Option-cases (lookup j p.sessions)) [
    | inl e ↦ ground arith
    | inr (x, e) ↦ ground (
      arith,
      touch_client_of-IsDead x.client_id now
          (record p {
            state = record p.state {
              sessions = insert j (record x { last_seen_at = now }) p.sessions;
            };
            last_session_touch = insert j now p.last_session_touch;
          })
          h,
    )
  ]

  step-IsDead :
      (s : Setup) (now : ℕ) (c : Call) (p : Process)
      → MayRegister id now c
      → IsDead (lookup id p.clients)
      → IsDead (lookup id (step s now c p).clients)
  unfolding step persist
  step-IsDead s now (registers c) p m h = register_client-IsDead s.env c now p m.1 h
  step-IsDead s now (touches_client j) p m h = touch_client-IsDead j now p h
  step-IsDead s now (revokes_client j) p m h = revoke_client-IsDead j now p m h
  step-IsDead s now revokes_clients p m h = revoke_all_clients-IsDead now p h
  step-IsDead s now revokes_sessions p m h = unfold revoke_all_sessions in h
  step-IsDead s now purges p m h =
      unfold purge_state in ground (arith, prune_pending_clients-IsDead s.env now p h)
  step-IsDead s now (puts_code raw c) p m h = unfold put_auth_code in h
  step-IsDead s now (consumes_code raw) p m h = unfold consume_auth_code in ground arith
  step-IsDead s now (creates_session x) p m h = unfold create_session in h
  step-IsDead s now (rotates j raw r a) p m h = unfold rotate_refresh_token in ground arith
  step-IsDead s now (touches_session j) p m h = touch_session-IsDead j now p h
  step-IsDead s now (revokes_session j) p m h = unfold revoke_session in ground arith
  step-IsDead s now (controls t e r) p m h = unfold set_target_enabled in h
  step-IsDead s now (records none tool r c) p m h = unfold record_tool_result in h
  step-IsDead s now (records (some t) tool r c) p m h = unfold record_tool_result in ground arith
  step-IsDead s now (probes t ok c) p m h = unfold record_target_probe in h
  step-IsDead s now (starts_pairing r me) p m h = unfold create_pairing in ground arith
  step-IsDead s now (approves code) p m h = unfold approve_pairing_by_code in ground arith
  step-IsDead s now (claims j t f) p m h = unfold claim_pairing in ground arith
  step-IsDead s now (heartbeats j v c) p m h = unfold touch_device_heartbeat in ground arith
  step-IsDead s now (revokes_device j) p m h = unfold revoke_device in ground arith

  run-IsDead :
      (s : Setup) (cs : List (ℕ × Call)) (p : Process)
      → AllMay (MayRegister id) cs
      → IsDead (lookup id p.clients)
      → IsDead (lookup id (run s cs p).clients)
  run-IsDead s = run_keeps s _ _ (step-IsDead s)

-- A session of a client that is dead is not active.
not_active :
    (sid id : String) (t : ℕ) (p : Process)
    → IsDead (lookup id p.clients)
    → session_is_active sid id t p ≡ false
unfolding session_is_active get_client is_live_client
not_active sid id t p h = ground arith

revoke_client-IsDead' :
    (id : String) (now : ℕ) (p : Process)
    → 0 < now
    → IsDead (lookup id (revoke_client id now p).0.clients)
unfolding revoke_client persist
revoke_client-IsDead' id now p pos = elim (Option-cases (lookup id p.clients)) [
  | inl e ↦ ground arith
  | inr (c, e) ↦
      ground (arith, lookup-insert id id (record c { revoked_at = some now }) p.clients, eq_refl id)
]

revoke_all_clients-IsDead' :
    (id : String) (now : ℕ) (p : Process)
    → 0 < now
    → IsDead (lookup id (revoke_all_clients now p).0.clients)
unfolding revoke_all_clients persist mark_client_revoked
revoke_all_clients-IsDead' id now p pos =
    ground (arith, lookup-update_all (mark_client_revoked now) id p.clients)

-- After `revokeClient`, no session counts as active for that client: not at once, nor after any
-- later calls at times after the epoch, unless a client is registered under the same id.
pub revoke_client_is_final :
    (s : Setup) (id : String) (now : ℕ) (p : Process) (cs : List (ℕ × Call)) (sid : String) (t : ℕ)
    → 0 < now
    → AllMay (MayRegister id) cs
    → session_is_active sid id t (run s cs (revoke_client id now p).0) ≡ false
revoke_client_is_final s id now p cs sid t pos may =
    not_active sid id t _ (run-IsDead id s cs _ may (revoke_client-IsDead' id now p pos))

-- After `revokeAllClients`, no session counts as active for any client: not at once, nor after any
-- later calls at times after the epoch, unless that client is registered again.
pub revoke_all_clients_is_final :
    (s : Setup) (id : String) (now : ℕ) (p : Process) (cs : List (ℕ × Call)) (sid : String) (t : ℕ)
    → 0 < now
    → AllMay (MayRegister id) cs
    → session_is_active sid id t (run s cs (revoke_all_clients now p).0) ≡ false
revoke_all_clients_is_final s id now p cs sid t pos may =
    not_active sid id t _ (run-IsDead id s cs _ may (revoke_all_clients-IsDead' id now p pos))
