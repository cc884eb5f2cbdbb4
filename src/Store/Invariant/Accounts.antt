-- ===== src/Store/Invariant/Accounts.antt =====
-- Calls on clients, codes and sessions keep the state valid.
use remote_ops_mcp.Prelude.{ℕ, ◌≤◌, String, ◌≡◌, refl, some, arith, length, Option-cases, inl, inr}
use remote_ops_mcp.Dict.{lookup, insert}
use remote_ops_mcp.Dict.Keys.{length-insert, length-prune-le, length-update_all}
use remote_ops_mcp.Dict.Index.{IsIndex-insert, IsIndex-remove, IsIndex-prune, IsIndex-update_all}
use remote_ops_mcp.Store.Model.{StoredClient, StoredAuthCode, StoredSession, Limits, Process}
use remote_ops_mcp.Store.Clients.{
  prune_pending_clients, register_client, touch_client, revoke_client, revoke_all_clients,
  put_auth_code, is_stale_client, revoke_session_of, mark_client_revoked, mark_session_revoked,
}
use remote_ops_mcp.Store.Sessions.{
  consume_auth_code, create_session, rotate_refresh_token, touch_session, revoke_session,
  revoke_all_sessions, touch_client_of,
}
use remote_ops_mcp.Store.Invariant.{
  IsValid, clients-IsValid, auth_codes-IsValid, sessions-IsValid, client_entry-IsValid,
  session_entry-IsValid,
}

pub session_id-revoke_session_of :
    (id : String) (now : ℕ) (x : StoredSession)
    → (revoke_session_of id now x).session_id ≡ x.session_id
unfolding revoke_session_of
session_id-revoke_session_of id now x = ground arith

pub session_id-mark_session_revoked :
    (now : ℕ) (x : StoredSession) → (mark_session_revoked now x).session_id ≡ x.session_id
unfolding mark_session_revoked
session_id-mark_session_revoked now x = ground arith

pub client_id-mark_client_revoked :
    (now : ℕ) (x : StoredClient) → (mark_client_revoked now x).client_id ≡ x.client_id
unfolding mark_client_revoked
client_id-mark_client_revoked now x = ground arith

module _ (env : Limits) (now : ℕ) (p : Process) (h : IsValid env p.state) where
  pub prune_pending_clients-IsValid : IsValid env (prune_pending_clients env now p).0.state
  unfolding prune_pending_clients
  prune_pending_clients-IsValid =
      clients-IsValid h _ (IsIndex-prune _ _ _ h.clients)
        (omega (arith, length-prune-le (is_stale_client env p.sessions now) p.clients, h.bounded))

  pub register_client-IsValid :
      (c : StoredClient) → IsValid env (register_client env c now p).0.state
  unfolding register_client
  register_client-IsValid c =
      let v = prune_pending_clients-IsValid in
      let q = (prune_pending_clients env now p).0 in
      ground (
        arith,
        v,
        length-insert c.client_id c q.clients,
        λ (b : length (insert c.client_id c q.clients) ≤ env.oauth_max_clients).
            clients-IsValid v _ (IsIndex-insert _ c.client_id c q.clients refl v.clients) b,
      )

  pub touch_client-IsValid : (id : String) → IsValid env (touch_client id now p).state
  unfolding touch_client
  touch_client-IsValid id = elim (Option-cases (lookup id p.clients)) [
    | inl e ↦ ground (arith, h)
    | inr (c, e) ↦
        ground (arith, h, client_entry-IsValid h id c (record c { last_seen_at = some now }) e refl)
  ]

  pub revoke_client-IsValid : (id : String) → IsValid env (revoke_client id now p).0.state
  unfolding revoke_client
  revoke_client-IsValid id = elim (Option-cases (lookup id p.clients)) [
    | inl e ↦ ground (arith, h)
    | inr (c, e) ↦
        let v = client_entry-IsValid h id c (record c { revoked_at = some now }) e refl in
        ground (
          arith,
          sessions-IsValid v _ (
              IsIndex-update_all _ (revoke_session_of id now) p.sessions
                (session_id-revoke_session_of id now) h.sessions),
        )
  ]

  pub revoke_all_clients-IsValid : IsValid env (revoke_all_clients now p).0.state
  unfolding revoke_all_clients
  revoke_all_clients-IsValid =
      sessions-IsValid
        (clients-IsValid h _
          (IsIndex-update_all _ (mark_client_revoked now) p.clients
            (client_id-mark_client_revoked now) h.clients)
          (omega (arith, length-update_all (mark_client_revoked now) p.clients, h.bounded)))
        _
        (IsIndex-update_all _ (mark_session_revoked now) p.sessions
          (session_id-mark_session_revoked now) h.sessions)

  pub put_auth_code-IsValid :
      (sha256 : String → String) (raw : String) (c : StoredAuthCode)
      → IsValid env (put_auth_code sha256 raw c p).state
  unfolding put_auth_code
  put_auth_code-IsValid sha256 raw c =
      auth_codes-IsValid h _ (IsIndex-insert _ (sha256 raw) _ p.auth_codes refl h.auth_codes)

  pub consume_auth_code-IsValid :
      (sha256 : String → String) (raw : String)
      → IsValid env (consume_auth_code sha256 raw now p).0.state
  unfolding consume_auth_code
  consume_auth_code-IsValid sha256 raw =
      ground
        (arith, h, auth_codes-IsValid h _ (IsIndex-remove _ (sha256 raw) p.auth_codes h.auth_codes))

  pub create_session-IsValid : (x : StoredSession) → IsValid env (create_session x p).state
  unfolding create_session
  create_session-IsValid x =
      sessions-IsValid h _ (IsIndex-insert _ x.session_id x p.sessions refl h.sessions)

  pub rotate_refresh_token-IsValid :
      (sha256 : String → String) (id raw : String) (refresh access : ℕ)
      → IsValid env (rotate_refresh_token sha256 id raw refresh access now p).0.state
  unfolding rotate_refresh_token
  rotate_refresh_token-IsValid sha256 id raw refresh access =
      elim (Option-cases (lookup id p.sessions)) [
        | inl e ↦ ground (arith, h)
        | inr (x, e) ↦ ground (
          arith,
          h,
          session_entry-IsValid h id x
              (record x {
                refresh_hash = sha256 raw;
                refresh_expires_at = refresh;
                access_expires_at = access;
                last_seen_at = now;
              })
              e refl,
        )
      ]

  pub revoke_session-IsValid : (id : String) → IsValid env (revoke_session id now p).0.state
  unfolding revoke_session
  revoke_session-IsValid id = elim (Option-cases (lookup id p.sessions)) [
    | inl e ↦ ground (arith, h)
    | inr (x, e) ↦ ground (
      arith,
      h,
      session_entry-IsValid h id x (mark_session_revoked now x) e
          (session_id-mark_session_revoked now x),
    )
  ]

  pub revoke_all_sessions-IsValid : IsValid env (revoke_all_sessions now p).0.state
  unfolding revoke_all_sessions
  revoke_all_sessions-IsValid = sessions-IsValid h _ (
      IsIndex-update_all _ (mark_session_revoked now) p.sessions
        (session_id-mark_session_revoked now) h.sessions)

touch_client_of-IsValid :
    (env : Limits) (id : String) (now : ℕ) (p : Process)
    → IsValid env p.state
    → IsValid env (touch_client_of id now p).state
unfolding touch_client_of
touch_client_of-IsValid env id now p h = elim (Option-cases (lookup id p.clients)) [
  | inl e ↦ ground (arith, h)
  | inr (c, e) ↦
      ground (arith, h, client_entry-IsValid h id c (record c { last_seen_at = some now }) e refl)
]

pub touch_session-IsValid :
    (env : Limits) (now : ℕ) (p : Process)
    → IsValid env p.state
    → (id : String) → IsValid env (touch_session id now p).state
unfolding touch_session
touch_session-IsValid env now p h id = elim (Option-cases (lookup id p.sessions)) [
  | inl e ↦ ground (arith, h)
  | inr (x, e) ↦ ground (
    arith,
    h,
    touch_client_of-IsValid env x.client_id now
        (record p {
          state = record p.state {
            sessions = insert id (record x { last_seen_at = now }) p.sessions;
          };
          last_session_touch = insert id now p.last_session_touch;
        })
        (session_entry-IsValid h id x (record x { last_seen_at = now }) e refl),
  )
]
