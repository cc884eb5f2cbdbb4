-- ===== src/Exec/Capacity.antt =====
-- The broker never runs more processes than its limit.
use remote_ops_mcp.Prelude.{
  ℕ, ◌+◌, ◌≤◌, String, ◌≡◌, Bool, some, List, [], ◌∷◌, if◌then◌else◌, arith, leb, Option-cases,
  Bool-cases, inl, inr,
}
use remote_ops_mcp.Dict.{lookup, insert, remove, prune}
use remote_ops_mcp.Exec.Arguments.{Host, Checked-cases}
use remote_ops_mcp.Exec.Sessions.{
  Session, Sessions, is_active, active_session_count, is_reaped, reap, append, on_session, close,
  checked_start, new_session, start, Event, started, requested, wrote, closed, step, run,
}

abbrev active_one : Session → ℕ
active_one s = if is_active s then 1 else 0

active-insert :
    (id : String) (s : Session) (d : Sessions)
    → active_session_count (insert id s d) ≤ active_session_count d + active_one s
unfolding active_session_count insert
active-insert id s [] = ground arith
active-insert id s ((j, v) ∷ d) = ground (arith, active-insert id s d)

active-remove :
    (id : String) (d : Sessions) → active_session_count (remove id d) ≤ active_session_count d
unfolding active_session_count remove
active-remove id [] = ground arith
active-remove id ((j, v) ∷ d) = ground (arith, active-remove id d)

active-prune :
    (p : String → Session → Bool) (d : Sessions)
    → active_session_count (prune p d) ≤ active_session_count d
unfolding active_session_count prune
active-prune p [] = ground arith
active-prune p ((j, v) ∷ d) = ground (arith, active-prune p d, active-remove j (prune p d))

-- Writing over a session that is there.
active-replace :
    (id : String) (old new : Session) (d : Sessions)
    → lookup id d ≡ some old
    → active_one new ≤ active_one old
    → active_session_count (insert id new d) ≤ active_session_count d
unfolding active_session_count insert lookup
active-replace id old new [] e h = ground (arith, e)
active-replace id old new ((j, v) ∷ d) e h = ground (arith, active-replace id old new d, e, h)

active-on_session :
    (id : String) (f : Session → Session) (d : Sessions)
    → ((s : Session) → active_one (f s) ≤ active_one s)
    → active_session_count (on_session id f d) ≤ active_session_count d
unfolding on_session
active-on_session id f d h = elim (Option-cases (lookup id d)) [
  | inl absent ↦ ground (arith, absent)
  | inr (s, e) ↦ ground (arith, e, active-replace id s (f s) d e (h s))
]

active-append :
    (label chunk : List ℕ) (s : Session) → active_one (append label chunk s) ≤ active_one s
unfolding append
active-append label chunk s = ground arith

active-start :
    (h : Host) (cwd program : String) (argv : List String) (id : String) (now : ℕ) (d : Sessions)
    → active_session_count d ≤ h.max_active_sessions
    → active_session_count (start h cwd program argv id now d).0 ≤ h.max_active_sessions
unfolding start
active-start h cwd program argv id now d fits =
    elim (Bool-cases (leb h.max_active_sessions (active_session_count d))) [
      | inl full ↦ ground (arith, full, fits)
      | inr free ↦ elim (Checked-cases (checked_start h cwd program argv)) [
        | inl (place, e) ↦ ground (arith, free, e, active-insert id (new_session place now) d)
        | inr (e, bad) ↦ ground (arith, free, bad, fits)
      ]
    ]

active-step :
    (h : Host) (e : Event) (now : ℕ) (d : Sessions)
    → active_session_count d ≤ h.max_active_sessions
    → active_session_count (step h e now d) ≤ h.max_active_sessions
unfolding step reap
active-step h (started cwd program argv id) now d fits =
    active-start h cwd program argv id now (reap now d)
      (ground (arith, active-prune (is_reaped now) d))
active-step h requested now d fits = ground (arith, active-prune (is_reaped now) d)
active-step h (wrote id label chunk) now d fits =
    ground (arith, active-on_session id (append label chunk) d (active-append label chunk))
active-step h (closed id exit_code) now d fits =
    ground (arith, active-on_session id (close exit_code now) d (λ s. ground arith))

-- If at most `MAX_ACTIVE_SESSIONS` sessions are active, so is it after any requests and any events of
-- the children, whatever the requests ask for.
pub capacity_is_kept :
    (h : Host) (es : List (Event × ℕ)) (d : Sessions)
    → active_session_count d ≤ h.max_active_sessions
    → active_session_count (run h es d) ≤ h.max_active_sessions
unfolding run
capacity_is_kept h [] d fits = fits
capacity_is_kept h (e ∷ es) d fits =
    capacity_is_kept h es (step h e.0 e.1 d) (active-step h e.0 e.1 d fits)
