-- ===== src/Exec/Sessions.antt =====
-- The sessions of the exec broker (src/exec/broker.ts). The child processes are outside: what they
-- write and when they end are events. A text is its UTF-16 code units.
use remote_ops_mcp.Prelude.{
  ℕ, ◌+◌, ◌*◌, ◌-◌, String, Bool, false, not, ◌&&◌, Option, none, some, List, [], ◌∷◌, ◌++◌,
  if◌then◌else◌, is_some, or_else, includes, length, take, drop, ltb, leb, eqb,
}
use remote_ops_mcp.Dict.{Dict, lookup, insert, prune}
use remote_ops_mcp.Exec.Arguments.{
  session_capacity, session_not_found, session_not_running, signal_not_allowed, Checked, passed,
  failed, ◌>>=◌, Host, checked_path, safe_program, safe_args, decode_b64,
}

pub record Session : Type 0 where
  pub started_at : ℕ
  pub cwd : String
  pub program : String
  pub output : List ℕ
  pub exit_code : Option ℕ
  pub closed_at : Option ℕ

abbrev pub Sessions : Type 0
Sessions = Dict Session

abbrev pub max_output : ℕ
max_output = 1024 * 1024

abbrev pub reap_after_ms : ℕ
reap_after_ms = 30 * 60_000

abbrev is_high : ℕ → Bool
is_high u = leb 0xD800 u && ltb u 0xDC00

abbrev is_low : ℕ → Bool
is_low u = leb 0xDC00 u && ltb u 0xE000

abbrev unit_bytes : ℕ → ℕ
unit_bytes u = if ltb u 0x80 then 1 else if ltb u 0x800 then 2 else 3

-- Buffer.byteLength(s, "utf8"): two units of a pair take four bytes, one without its pair three.
unfoldable pub byte_length : List ℕ → ℕ
byte_length [] = 0
byte_length (u ∷ []) = unit_bytes u
byte_length (u ∷ v ∷ s) =
    let one = byte_length (v ∷ s) in
    let two = byte_length s in if is_high u && is_low v then 4 + two else unit_bytes u + one

-- s.slice(-n)
unfoldable pub last_units : ℕ → List ℕ → List ℕ
last_units n s = drop (length s - n) s

unfoldable pub append : List ℕ → List ℕ → Session → Session
unfolding byte_length last_units
append label chunk s =
    let longer = s.output ++ (label ++ chunk) in
    record s {
      output = if ltb max_output (byte_length longer) then last_units max_output longer else longer;
    }

abbrev pub is_active : Session → Bool
is_active s = not (is_some s.closed_at)

unfoldable pub active_session_count : Sessions → ℕ
active_session_count [] = 0
active_session_count ((id, s) ∷ rest) = (if is_active s then 1 else 0) + active_session_count rest

abbrev pub is_reaped : ℕ → String → Session → Bool
is_reaped now id s = elim s.closed_at [
  | none ↦ false
  | some closed ↦ not (eqb closed 0) && ltb reap_after_ms (now - closed)
]

unfoldable pub reap : ℕ → Sessions → Sessions
unfolding prune
reap now sessions = prune (is_reaped now) sessions

unfoldable pub on_session : String → (Session → Session) → Sessions → Sessions
unfolding lookup insert
on_session id f sessions = elim (lookup id sessions) [
  | none ↦ sessions
  | some s ↦ insert id (f s) sessions
]

-- The child's `close` event.
abbrev pub close : Option ℕ → ℕ → Session → Session
close exit_code now s = record s { exit_code = exit_code; closed_at = some now }

-- The directory and the program of a `process.start`.
unfoldable pub checked_start : Host → String → String → List String → Checked (String × String)
checked_start h cwd program argv = checked_path h cwd >>= λ d.
    safe_program h program >>= λ p. safe_args argv >>= λ _. passed (d, p)

abbrev pub new_session : String × String → ℕ → Session
new_session place now = record {
  started_at = now;
  cwd = place.0;
  program = place.1;
  output = [];
  exit_code = none;
  closed_at = none;
}

-- process.start, with the random part of the new id. It returns the directory and the program.
unfoldable pub start :
    Host
    → String
    → String
    → List String
    → String
    → ℕ
    → Sessions
    → Sessions × Checked (String × String)
unfolding insert
start h cwd program argv id now sessions =
    if leb h.max_active_sessions (active_session_count sessions)
    then (sessions, failed session_capacity)
    else (elim (checked_start h cwd program argv) [
      | failed e ↦ (sessions, failed e)
      | passed place ↦ (insert id (new_session place now) sessions, passed place)
    ])

pub record Chunk : Type 0 where
  pub running : Bool
  pub code : Option ℕ
  pub text : List ℕ
  pub next_offset : ℕ
  pub truncated : Bool

abbrev min : ℕ → ℕ → ℕ
min a b = if leb a b then a else b

-- Number(a.max_chars ?? 65536) || 65536, between the bounds
abbrev pub read_limit : Option ℕ → ℕ
read_limit max_chars =
    let n = or_else max_chars 65_536 in min (if eqb n 0 then 65_536 else n) 262_144

unfoldable pub read_session : ℕ → ℕ → Session → Chunk
read_session offset limit s =
    let text = take limit (drop offset s.output) in
    record {
      running = is_active s;
      code = s.exit_code;
      text = text;
      next_offset = offset + length text;
      truncated = ltb (offset + length text) (length s.output);
    }

-- process.read
unfoldable pub read : String → Option ℕ → Option ℕ → Sessions → Checked Chunk
unfolding lookup read_session
read id offset max_chars sessions = elim (lookup id sessions) [
  | none ↦ failed session_not_found
  | some s ↦ passed (read_session (or_else offset 0) (read_limit max_chars) s)
]

-- process.input: what is written to the child.
unfoldable pub input : Host → String → String → Sessions → Checked (List ℕ)
unfolding lookup
input h id text sessions = elim (lookup id sessions) [
  | none ↦ failed session_not_running
  | some s ↦ if is_active s then decode_b64 h text 65_536 else failed session_not_running
]

abbrev pub signals : List String
signals = "SIGTERM" ∷ "SIGINT" ∷ "SIGKILL" ∷ []

-- process.kill: the signal that is sent.
unfoldable pub kill : String → Option String → Sessions → Checked String
unfolding lookup includes
kill id signal sessions = elim (lookup id sessions) [
  | none ↦ failed session_not_found
  | some s ↦
      if includes (or_else signal "SIGTERM") signals
      then passed (or_else signal "SIGTERM")
      else failed signal_not_allowed
]

-- A request, after `reap`, and what a child does.
pub data Event : Type 0 where
  started : String → String → List String → String → Event
  requested : Event
  wrote : String → List ℕ → List ℕ → Event
  closed : String → Option ℕ → Event

-- `requested`: a request that is no `process.start` changes no more than `reap` does.
unfoldable pub step : Host → Event → ℕ → Sessions → Sessions
unfolding reap start on_session append
step h (started cwd program argv id) now sessions =
    (start h cwd program argv id now (reap now sessions)).0
step h requested now sessions = reap now sessions
step h (wrote id label chunk) now sessions = on_session id (append label chunk) sessions
step h (closed id exit_code) now sessions = on_session id (close exit_code now) sessions

unfoldable pub run : Host → List (Event × ℕ) → Sessions → Sessions
unfolding step
run h [] sessions = sessions
run h (e ∷ es) sessions = run h es (step h e.0 e.1 sessions)
