-- ===== src/Store/Sessions.antt =====
-- Sessions and authorization codes (src/state/store.ts).
use remote_ops_mcp.Prelude.{
  ℕ, ◌+◌, ◌-◌, String, Bool, true, false, not, ◌&&◌, ◌||◌, Option, none, some, List, [], ◌∷◌, ◌==◌,
  ltb, leb, if◌then◌else◌, truthy, or_else, length, find, filter,
}
use remote_ops_mcp.Dict.{lookup, insert, remove, update_all, values}
use remote_ops_mcp.Store.Model.{
  StoredClient, StoredAuthCode, StoredSession, Process, persist, set_clients, set_auth_codes,
  set_sessions,
}
use remote_ops_mcp.Store.Clients.{get_client, mark_session_revoked}

unfoldable pub consume_auth_code :
    (String → String) → String → ℕ → Process → Process × Option StoredAuthCode
unfolding lookup remove persist
consume_auth_code sha256 raw_code now p = elim (lookup (sha256 raw_code) p.auth_codes) [
  | none ↦ (p, none)
  | some code ↦ (
    persist (set_auth_codes p (remove (sha256 raw_code) p.auth_codes)),
    if ltb code.expires_at now then none else some code,
  )
]

unfoldable pub create_session : StoredSession → Process → Process
unfolding insert persist
create_session session p = persist (set_sessions p (insert session.session_id session p.sessions))

unfoldable pub get_session : String → Process → Option StoredSession
unfolding lookup
get_session session_id p = lookup session_id p.sessions

unfoldable pub find_session_by_refresh_token :
    (String → String) → String → Process → Option StoredSession
unfolding find
find_session_by_refresh_token sha256 raw_refresh p =
    find (λ s. s.refresh_hash == sha256 raw_refresh) (values p.sessions)

unfoldable pub rotate_refresh_token :
    (String → String) → String → String → ℕ → ℕ → ℕ → Process → Process × Bool
unfolding get_session insert persist
rotate_refresh_token sha256 session_id raw_refresh refresh_expires_at access_expires_at now p =
    elim (get_session session_id p) [
      | none ↦ (p, false)
      | some session ↦ if truthy session.revoked_at then (p, false) else (
        persist (
            set_sessions p (
              insert session_id
                (record session {
                  refresh_hash = sha256 raw_refresh;
                  refresh_expires_at = refresh_expires_at;
                  access_expires_at = access_expires_at;
                  last_seen_at = now;
                })
                p.sessions)),
        true,
      )
    ]

-- `!!client && !client.revoked_at`
unfoldable pub is_live_client : Option StoredClient → Bool
is_live_client none = false
is_live_client (some client) = not (truthy client.revoked_at)

unfoldable pub session_is_active : String → String → ℕ → Process → Bool
unfolding get_session get_client is_live_client
session_is_active session_id client_id now p = elim (get_session session_id p) [
  | none ↦ false
  | some session ↦
      if not (session.client_id == client_id)
        || truthy session.revoked_at
        || ltb session.refresh_expires_at now
      then false
      else is_live_client (get_client client_id p)
]

-- The part of `touchSession` that marks the session's client as seen.
unfoldable pub touch_client_of : String → ℕ → Process → Process
unfolding get_client insert
touch_client_of client_id now p = elim (get_client client_id p) [
  | none ↦ p
  | some c ↦
      if truthy c.revoked_at
      then p
      else set_clients p (insert client_id (record c { last_seen_at = some now }) p.clients)
]

unfoldable pub touch_session : String → ℕ → Process → Process
unfolding get_session insert persist touch_client_of lookup
touch_session session_id now p = elim (get_session session_id p) [
  | none ↦ p
  | some session ↦
      if truthy session.revoked_at
        || ltb (now - or_else (lookup session_id p.last_session_touch) 0) 60_000
      then p
      else (let q = record p { last_session_touch = insert session_id now p.last_session_touch } in
          persist (
            touch_client_of session.client_id now (
              set_sessions q
                (insert session_id (record session { last_seen_at = now }) q.sessions))))
]

unfoldable pub revoke_session : String → ℕ → Process → Process × Bool
unfolding get_session insert persist mark_session_revoked
revoke_session session_id now p = elim (get_session session_id p) [
  | none ↦ (p, false)
  | some session ↦ (
    persist (set_sessions p (insert session_id (mark_session_revoked now session) p.sessions)),
    true,
  )
]

unfoldable pub count_active : List StoredSession → ℕ
count_active [] = 0
count_active (s ∷ ss) = let rest = count_active ss in if truthy s.revoked_at then rest else rest + 1

unfoldable pub revoke_all_sessions : ℕ → Process → Process × ℕ
unfolding persist update_all mark_session_revoked count_active
revoke_all_sessions now p = (
  persist (set_sessions p (update_all (mark_session_revoked now) p.sessions)),
  count_active (values p.sessions),
)

-- `clientId && s.client_id !== clientId`: an empty id counts the sessions of every client.
unfoldable pub is_of_client : Option String → StoredSession → Bool
is_of_client none s = true
is_of_client (some client_id) s = client_id == "" || s.client_id == client_id

unfoldable pub active_session_count : Option String → ℕ → Process → ℕ
unfolding filter get_client is_live_client is_of_client
active_session_count client_id now p = length (
    filter
      (λ s.
        is_of_client client_id s
        && (not (truthy s.revoked_at)
            && (leb now s.refresh_expires_at && is_live_client (get_client s.client_id p))))
      (values p.sessions))
