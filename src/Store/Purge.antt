-- ===== src/Store/Purge.antt =====
-- Periodic cleaning, and loading the state file (src/state/store.ts).
use remote_ops_mcp.Prelude.{
  ℕ, ◌+◌, ◌*◌, String, Bool, false, ◌||◌, Option, none, some, [], ltb, eqb, if◌then◌else◌, or_else,
}
use remote_ops_mcp.Dict.{prune, any_entry}
use remote_ops_mcp.Store.Model.{
  StoredAuthCode, StoredPairing, StoredSession, Limits, PersistentState, RawState, Process,
  empty_state, persist,
}
use remote_ops_mcp.Store.Clients.{hour_ms, prune_pending_clients}

unfoldable pub is_old_code : ℕ → String → StoredAuthCode → Bool
is_old_code now hash code = ltb code.expires_at now

unfoldable pub is_old_pairing : ℕ → String → StoredPairing → Bool
is_old_pairing now id p = ltb (or_else p.claimed_at p.expires_at + 24 * hour_ms) now

abbrev pub retention : ℕ
retention = 90 * 24 * hour_ms

unfoldable pub is_old_session : ℕ → String → StoredSession → Bool
is_old_session now id s = ltb (or_else s.revoked_at s.refresh_expires_at + retention) now

unfoldable pub purge_state : Limits → Bool → ℕ → Process → Process
unfolding prune_pending_clients prune any_entry persist is_old_code is_old_pairing is_old_session
purge_state env do_persist now p =
    let (q, pruned) = prune_pending_clients env now p in
    let codes_changed = any_entry (is_old_code now) q.auth_codes in
    let pairings_changed = any_entry (is_old_pairing now) q.pairings in
    let sessions_changed = any_entry (is_old_session now) q.sessions in
    let r = record q {
      state = record q.state {
        auth_codes = prune (is_old_code now) q.auth_codes;
        pairings = prune (is_old_pairing now) q.pairings;
        sessions = prune (is_old_session now) q.sessions;
      };
    } in
    if pruned || (codes_changed || (pairings_changed || sessions_changed))
    then (if do_persist then persist r else r)
    else r

-- A version other than 1 is refused.
unfoldable pub normalize : RawState → Option PersistentState
normalize raw = elim raw.version [
  | none ↦ none
  | some v ↦
      if eqb v 1
      then some (record {
        clients = or_else raw.clients [];
        auth_codes = or_else raw.auth_codes [];
        sessions = or_else raw.sessions [];
        target_controls = or_else raw.target_controls [];
        target_activity = or_else raw.target_activity [];
        usage_monthly = or_else raw.usage_monthly [];
        pairings = or_else raw.pairings [];
        devices = or_else raw.devices [];
      })
      else none
]

-- What reading and parsing the state file gives.
pub data StateFile : Type 0 where
  absent unreadable : StateFile
  parsed : RawState → StateFile

abbrev pub start_with : PersistentState → Process
start_with s = record { state = s; file = s; last_session_touch = [] }

-- The first call in a process. `none`: it throws. A missing file is created.
unfoldable pub init_state_store : Limits → ℕ → StateFile → Option Process
unfolding normalize purge_state
init_state_store env now absent = some (purge_state env false now (start_with empty_state))
init_state_store env now unreadable = none
init_state_store env now (parsed raw) = elim (normalize raw) [
  | none ↦ none
  | some s ↦ some (purge_state env false now (start_with s))
]

-- The file that `persist` writes, as it is parsed again.
abbrev pub to_raw : PersistentState → RawState
to_raw s = record {
  version = some 1;
  clients = some s.clients;
  auth_codes = some s.auth_codes;
  sessions = some s.sessions;
  target_controls = some s.target_controls;
  target_activity = some s.target_activity;
  usage_monthly = some s.usage_monthly;
  pairings = some s.pairings;
  devices = some s.devices;
}
