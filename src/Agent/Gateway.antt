-- ===== src/Agent/Gateway.antt =====
-- Live connections and pending requests (src/agent/gateway.ts). Sockets, timers and promises are
-- outside: a socket is a number, `is_open` tells its state, and what a step does to them is in the
-- effects that it returns. The device store is that of src/state/store.ts.
pub mod Answers
use remote_ops_mcp.Prelude.{
  ℕ, ◌-◌, String, Bool, true, false, not, ◌&&◌, Option, none, some, List, [], ◌∷◌, ◌++◌, ◌==◌,
  if◌then◌else◌, ltb, leb, eqb, or_else, take,
}
use remote_ops_mcp.Dict.{Dict, lookup, insert, remove, prune, values}
use remote_ops_mcp.Store.Model.{StoredDevice, Process}
use remote_ops_mcp.Store.Devices.{authenticate_device_token, touch_device_heartbeat}

pub record LiveConnection : Type 0 where
  pub device_id : String
  pub token : String
  pub ws : ℕ
  pub connected_at : ℕ
  pub last_seen_at : ℕ

-- What is made of the result that an agent sends, if that is an object.
pub record ExecResult : Type 0 where
  pub code : Option ℕ
  pub stdout : String
  pub stderr : String
  pub duration_ms : ℕ
  pub truncated : Bool
  pub timed_out : Bool

pub data Reason : Type 0 where
  agent_disconnected agent_revoked invalid_agent_result agent_request_timeout : Reason
  send_failed : Reason

pub data Effect : Type 0 where
  closes : ℕ → ℕ → Effect
  welcomes acknowledges reports_unsupported pings : ℕ → Effect
  sends : ℕ → String → ℕ → ℕ → Effect
  rejects : String → Reason → Effect
  resolves : String → ExecResult → Effect

-- The module's maps, with the store that it calls. A pending request has the device it was sent to.
pub record Gateway : Type 0 where
  pub live : Dict LiveConnection
  pub pending : Dict String
  pub store : Process

-- What the gateway takes from the platform: SHA-256, and `slice(0, 40)` of a text.
pub record Platform : Type 0 where
  pub sha256 : String → String
  pub slice_version : String → String

abbrev is_of_device : String → String → String → Bool
is_of_device device_id id d = d == device_id

unfoldable pub reject_all : String → Reason → Dict String → List Effect
reject_all device_id why [] = []
reject_all device_id why ((id, d) ∷ rest) =
    let more = reject_all device_id why rest in
    if d == device_id then rejects id why ∷ more else more

unfoldable pub reject_pending_for_device : String → Reason → Gateway → Gateway × List Effect
unfolding prune reject_all
reject_pending_for_device device_id why g = (
  record g { pending = prune (is_of_device device_id) g.pending },
  reject_all device_id why g.pending,
)

-- The close of a connection that a new one takes the place of.
unfoldable pub supersede : (ℕ → Bool) → Option LiveConnection → List Effect
supersede is_open none = []
supersede is_open (some c) = if is_open c.ws then closes c.ws 4001 ∷ [] else []

-- The `upgrade` handler for `/agent/connect`, with the bearer token of the request. The `Bool` tells
-- that the request is accepted.
unfoldable pub connect :
    Platform → (ℕ → Bool) → Option String → ℕ → ℕ → Gateway → Gateway × List Effect × Bool
unfolding authenticate_device_token lookup insert supersede touch_device_heartbeat
connect os is_open none ws now g = (g, [], false)
connect os is_open (some token) ws now g =
    elim (authenticate_device_token os.sha256 token g.store) [
      | none ↦ (g, [], false)
      | some d ↦
          let conn : LiveConnection = record {
            device_id = d.device_id;
            token = token;
            ws = ws;
            connected_at = now;
            last_seen_at = now;
          } in
          (
            record g {
              live = insert d.device_id conn g.live;
              store =
                  (touch_device_heartbeat d.device_id d.agent_version d.capabilities now g.store).0;
            },
            supersede is_open (lookup d.device_id g.live) ++ welcomes ws ∷ [],
            true,
          )
    ]

-- A message after JSON: bad, a hello or a heartbeat, a result (`none`: it is no object), or another.
pub data Message : Type 0 where
  invalid_json unsupported : Message
  heartbeat : Option String → Option (List String) → Message
  execute_result : String → Option ExecResult → Message

-- `conn.lastSeenAt = now`, which the map sees if it still holds that connection.
unfoldable pub mark_seen : String → ℕ → ℕ → Gateway → Gateway
unfolding lookup insert
mark_seen device_id ws now g = elim (lookup device_id g.live) [
  | none ↦ g
  | some c ↦
      if eqb c.ws ws
      then record g { live = insert device_id (record c { last_seen_at = now }) g.live }
      else g
]

unfoldable pub settle : String → Option ExecResult → Effect
settle id none = rejects id invalid_agent_result
settle id (some r) = resolves id r

-- `slice_version` of a version that is there; the first 64 capabilities.
unfoldable pub beat :
    Platform → String → Option String → Option (List String) → ℕ → Process → Process
unfolding touch_device_heartbeat
beat os device_id version capabilities now p =
    (touch_device_heartbeat device_id
      (elim version [ none ↦ none | some v ↦ some (os.slice_version v) ])
      (elim capabilities [ none ↦ none | some xs ↦ some (take 64 xs) ]) now p).0

-- A message on the socket `ws` of a device that connected with `token`, for a token that is good.
unfoldable pub receive : Platform → String → ℕ → Message → ℕ → Gateway → Gateway × List Effect
unfolding beat mark_seen lookup remove settle
receive os device_id ws invalid_json now g = (g, closes ws 4002 ∷ [])
receive os device_id ws unsupported now g = (g, reports_unsupported ws ∷ [])
receive os device_id ws (heartbeat version capabilities) now g =
    let q = record g { store = beat os device_id version capabilities now g.store } in
    (mark_seen device_id ws now q, acknowledges ws ∷ [])
receive os device_id ws (execute_result id result) now g = elim (lookup id g.pending) [
  | none ↦ (g, [])
  | some d ↦
      if d == device_id
      then (
        mark_seen device_id ws now (record g { pending = remove id g.pending }),
        settle id result ∷ [],
      )
      else (g, [])
]

unfoldable pub message :
    Platform → String → String → ℕ → Message → ℕ → Gateway → Gateway × List Effect
unfolding authenticate_device_token receive
message os device_id token ws m now g = elim (authenticate_device_token os.sha256 token g.store) [
  | none ↦ (g, closes ws 4003 ∷ [])
  | some d ↦ receive os device_id ws m now g
]

-- `live.delete(id)` if the map holds this socket
unfoldable pub drop_socket : String → ℕ → Gateway → Gateway
unfolding lookup remove
drop_socket device_id ws g = elim (lookup device_id g.live) [
  | none ↦ g
  | some c ↦ if eqb c.ws ws then record g { live = remove device_id g.live } else g
]

-- The `close` event of the socket `ws` of a device.
unfoldable pub closed : String → ℕ → Gateway → Gateway × List Effect
unfolding drop_socket reject_pending_for_device
closed device_id ws g =
    reject_pending_for_device device_id agent_disconnected (drop_socket device_id ws g)

-- One turn of the timer.
unfoldable pub sweep : Platform → (ℕ → Bool) → ℕ → Process → List LiveConnection → List Effect
unfolding authenticate_device_token
sweep os is_open now p [] = []
sweep os is_open now p (c ∷ cs) =
    let rest = sweep os is_open now p cs in
    elim (authenticate_device_token os.sha256 c.token p) [
      | none ↦ closes c.ws 4003 ∷ rest
      | some d ↦
          if ltb 90_000 (now - c.last_seen_at)
          then closes c.ws 4000 ∷ rest
          else if is_open c.ws
          then pings c.ws ∷ rest
          else rest
    ]

abbrev pub clamp : ℕ → ℕ → ℕ → ℕ
clamp low high n = if ltb n low then low else if ltb high n then high else n

pub data Dispatched : Type 0 where
  sent offline revoked : Dispatched

-- `id` is the new request's id; `timeout` and `bytes` are the options.
unfoldable pub dispatch_agent_operation :
    Platform
    → (ℕ → Bool)
    → String
    → String
    → Option ℕ
    → Option ℕ
    → Gateway
    → Gateway × List Effect × Dispatched
unfolding lookup insert authenticate_device_token
dispatch_agent_operation os is_open device_id id timeout bytes g = elim (lookup device_id g.live) [
  | none ↦ (g, [], offline)
  | some c ↦
      if is_open c.ws
      then (elim (authenticate_device_token os.sha256 c.token g.store) [
        | none ↦ (g, [], revoked)
        | some d ↦ (
          record g { pending = insert id device_id g.pending },
          sends c.ws id (clamp 2_000 120_000 (or_else timeout 15_000))
                (clamp 4_096 4_194_304 (or_else bytes 262_144))
              ∷ [],
          sent,
        )
      ])
      else (g, [], offline)
]

-- The timer of a request, or the error of its send. A request that is settled has no timer any more,
-- and its promise takes no second answer.
unfoldable pub fail_request : String → Reason → Gateway → Gateway × List Effect
unfolding lookup remove
fail_request id why g = elim (lookup id g.pending) [
  | none ↦ (g, [])
  | some d ↦ (record g { pending = remove id g.pending }, rejects id why ∷ [])
]

unfoldable pub disconnect_agent_device : (ℕ → Bool) → String → Gateway → Gateway × List Effect
unfolding lookup remove reject_pending_for_device
disconnect_agent_device is_open device_id g =
    let gone =
      reject_pending_for_device device_id agent_revoked
        (record g { live = remove device_id g.live }) in
    elim (lookup device_id g.live) [
      | none ↦ gone
      | some c ↦ (gone.0, if is_open c.ws then closes c.ws 4003 ∷ gone.1 else gone.1)
    ]
