-- ===== src/Agent/Routes.antt =====
-- The HTTP routes of the agents (src/agent/router.ts): who may call, how often, and the status that
-- a store call gives. Express, and what the zod schemas make of a body, are outside: a body comes in
-- parsed, `none` if the schema refuses it, and a reply is its status with what the store gave.
pub mod Heartbeat
use remote_ops_mcp.Prelude.{
  ℕ, ◌-◌, ◌*◌, String, Bool, true, false, Option, none, some, List, [], ◌∷◌, ◌++◌, if◌then◌else◌,
  ltb, leb, length, filter, or_else,
}
use remote_ops_mcp.Dict.{Dict, lookup, insert}
use remote_ops_mcp.Store.Model.{StoredDevice, Limits, Process}
use remote_ops_mcp.Store.Pairings.{
  Platform, PairingMeta, Randoms, PairingResult, started, agent_max_devices_reached,
  agent_pairing_capacity, out_of_draws, create_pairing, ClaimResult, pending, expired, invalid,
  paired, claim_pairing,
}
use remote_ops_mcp.Store.Devices.{authenticate_device_token, touch_device_heartbeat}

abbrev pub start_max : ℕ
start_max = 5

abbrev pub window_ms : ℕ
window_ms = 10 * 60_000

unfoldable pub recent_hits : ℕ → String → Dict (List ℕ) → List ℕ
unfolding lookup filter
recent_hits now key hits = filter (λ t. ltb (now - t) window_ms) (or_else (lookup key hits) [])

-- The hits of each address. The `Bool` tells that the request goes on; otherwise the status is 429.
unfoldable pub pair_start_limiter : ℕ → String → ℕ → Dict (List ℕ) → Dict (List ℕ) × Bool
unfolding recent_hits insert
pair_start_limiter max key now hits =
    let arr = recent_hits now key hits in
    let next = insert key (arr ++ now ∷ []) hits in
    if leb max (length arr)
    then (hits, false)
    else (if ltb 10000 (length next) then [] else next, true)

unfoldable pub pair_start_status : PairingResult → ℕ
pair_start_status (started s) = 201
pair_start_status agent_pairing_capacity = 429
pair_start_status agent_max_devices_reached = 503
pair_start_status out_of_draws = 500

-- `/pair/start`, once the limiter lets it go on.
unfoldable pub pair_start :
    Limits → Platform → Randoms → Option PairingMeta → ℕ → Process → Process × ℕ
unfolding create_pairing pair_start_status
pair_start env os r none now p = (p, 400)
pair_start env os r (some meta) now p =
    let result = create_pairing env os r meta now p in (result.0, pair_start_status result.1)

unfoldable pub pair_claim_status : ClaimResult → ℕ
pair_claim_status pending = 202
pair_claim_status expired = 410
pair_claim_status invalid = 401
pair_claim_status (paired d token) = 201

-- `/pair/claim`, with the pairing's id and the poll token.
unfoldable pub pair_claim : Platform → Option (String × String) → String → ℕ → Process → Process × ℕ
unfolding claim_pairing pair_claim_status
pair_claim os none fresh_id now p = (p, 400)
pair_claim os (some (id, token)) fresh_id now p =
    let result = claim_pairing os id token fresh_id now p in (result.0, pair_claim_status result.1)

-- `requireDevice`, with the bearer token of the request; `none`: it replies 401.
unfoldable pub require_device : (String → String) → Option String → Process → Option StoredDevice
unfolding authenticate_device_token
require_device sha256 none p = none
require_device sha256 (some raw) p = authenticate_device_token sha256 raw p

-- What follows `requireDevice` for a device: the version and the capabilities of the body.
unfoldable pub beat :
    String → Option (Option String × Option (List String)) → ℕ → Process → Process × ℕ
unfolding touch_device_heartbeat
beat device_id none now p = (p, 400)
beat device_id (some (version, capabilities)) now p =
    let result = touch_device_heartbeat device_id version capabilities now p in
    (result.0, if result.1 then 200 else 401)

-- `/heartbeat`
unfoldable pub heartbeat :
    (String → String)
    → Option String
    → Option (Option String × Option (List String))
    → ℕ
    → Process
    → Process × ℕ
unfolding require_device beat
heartbeat sha256 token body now p = elim (require_device sha256 token p) [
  | none ↦ (p, 401)
  | some d ↦ beat d.device_id body now p
]
