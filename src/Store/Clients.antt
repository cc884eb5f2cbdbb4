-- ===== src/Store/Clients.antt =====
-- OAuth clients (src/state/store.ts).
use remote_ops_mcp.Prelude.{
  ℕ, ◌+◌, ◌-◌, ◌*◌, String, Bool, true, false, not, ◌&&◌, ◌||◌, Option, none, some, List, [], ◌∷◌,
  ◌==◌, ltb, leb, if◌then◌else◌, truthy, or_else, length, any,
}
use remote_ops_mcp.Dict.{Dict, lookup, insert, prune, any_entry, update_all, values}
use remote_ops_mcp.Store.Model.{
  StoredClient, StoredAuthCode, StoredSession, Limits, Process, persist, set_clients,
  set_auth_codes, set_sessions,
}

abbrev pub hour_ms : ℕ
hour_ms = 3_600_000

-- A client that was never used and has no session, and whose time to be used is over.
unfoldable pub is_stale_client : Limits → Dict StoredSession → ℕ → String → StoredClient → Bool
unfolding any
is_stale_client env sessions now client_id client =
    let never_activated =
      not (truthy client.last_seen_at)
      && not (any (λ s. s.client_id == client_id) (values sessions)) in
    never_activated && ltb (client.created_at + env.oauth_pending_client_ttl_hours * hour_ms) now

-- The `Bool` tells whether a client was deleted.
unfoldable pub prune_pending_clients : Limits → ℕ → Process → Process × Bool
unfolding is_stale_client prune any_entry
prune_pending_clients env now p =
    let stale = is_stale_client env p.sessions now in
    (set_clients p (prune stale p.clients), any_entry stale p.clients)

unfoldable pub register_client : Limits → StoredClient → ℕ → Process → Process × Bool
unfolding prune_pending_clients insert persist
register_client env client now p =
    let (q, pruned) = prune_pending_clients env now p in
    if leb env.oauth_max_clients (length q.clients)
    then ((if pruned then persist q else q), false)
    else (persist (set_clients q (insert client.client_id client q.clients)), true)

unfoldable pub get_client : String → Process → Option StoredClient
unfolding lookup
get_client client_id p = lookup client_id p.clients

unfoldable pub touch_client : String → ℕ → Process → Process
unfolding get_client insert persist
touch_client client_id now p = elim (get_client client_id p) [
  | none ↦ p
  | some c ↦
      if truthy c.revoked_at
        || (truthy c.last_seen_at && ltb (now - or_else c.last_seen_at 0) 60_000)
      then p
      else persist
          (set_clients p (insert client_id (record c { last_seen_at = some now }) p.clients))
]

unfoldable pub revoke_session_of : String → ℕ → StoredSession → StoredSession
revoke_session_of client_id now s =
    if s.client_id == client_id && not (truthy s.revoked_at)
    then record s { revoked_at = some now }
    else s

unfoldable pub revoke_client : String → ℕ → Process → Process × Bool
unfolding get_client insert persist update_all revoke_session_of
revoke_client client_id now p = elim (get_client client_id p) [
  | none ↦ (p, false)
  | some c ↦
      let q = set_clients p (insert client_id (record c { revoked_at = some now }) p.clients) in
      (persist (set_sessions q (update_all (revoke_session_of client_id now) q.sessions)), true)
]

unfoldable pub mark_client_revoked : ℕ → StoredClient → StoredClient
mark_client_revoked now c = if truthy c.revoked_at then c else record c { revoked_at = some now }

unfoldable pub mark_session_revoked : ℕ → StoredSession → StoredSession
mark_session_revoked now s = if truthy s.revoked_at then s else record s { revoked_at = some now }

unfoldable pub count_active_clients : List StoredClient → ℕ
count_active_clients [] = 0
count_active_clients (c ∷ cs) =
    let rest = count_active_clients cs in if truthy c.revoked_at then rest else rest + 1

unfoldable pub revoke_all_clients : ℕ → Process → Process × ℕ
unfolding persist update_all mark_client_revoked mark_session_revoked count_active_clients
revoke_all_clients now p =
    let q = set_clients p (update_all (mark_client_revoked now) p.clients) in
    (
      persist (set_sessions q (update_all (mark_session_revoked now) q.sessions)),
      count_active_clients (values p.clients),
    )

-- An authorization code without its hash.
unfoldable pub put_auth_code : (String → String) → String → StoredAuthCode → Process → Process
unfolding insert persist
put_auth_code sha256 raw_code code p =
    let hash = sha256 raw_code in
    persist (set_auth_codes p (insert hash (record code { code_hash = hash }) p.auth_codes))
