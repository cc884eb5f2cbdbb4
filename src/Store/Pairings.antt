-- ===== src/Store/Pairings.antt =====
-- Pairing of Agent Mesh devices (src/state/store.ts). SHA-256, the HMAC, `toUpperCase` and the
-- random values are arguments.
use remote_ops_mcp.Prelude.{
  ℕ, zero, suc, ◌+◌, ◌*◌, ◌%◌, String, Bool, not, ◌&&◌, Option, none, some, List, [], ◌∷◌, ◌==◌,
  ltb, leb, if◌then◌else◌, truthy, length, take, drop, any, find, filter, trim, remove_spaces,
  concat,
}
use remote_ops_mcp.Dict.{Dict, lookup, insert, prune, values}
use remote_ops_mcp.Store.Model.{
  StoredPairing, StoredDevice, Limits, Process, persist, set_pairings, set_devices,
}
use remote_ops_mcp.Store.Clients.{hour_ms}

abbrev pub pair_alphabet : String
pair_alphabet = "ABCDEFGHJKLMNPQRSTUVWXYZ23456789"

-- s[i], as a text
unfoldable pub letter_at : String → ℕ → String
letter_at String.[] i = ""
letter_at (String.◌∷◌ c s) zero = String.◌∷◌ c String.[]
letter_at (String.◌∷◌ c s) (suc i) = letter_at s i

unfoldable pub letters : List ℕ → String
unfolding letter_at
letters [] = ""
letters (b ∷ bytes) = concat (letter_at pair_alphabet (b % 32)) (letters bytes)

-- The code that eight random bytes give.
unfoldable pub pairing_code : List ℕ → String
unfolding letters
pairing_code bytes =
    concat "WD-" (concat (letters (take 4 bytes)) (concat "-" (letters (drop 4 (take 8 bytes)))))

unfoldable pub normalize_pair_code : (String → String) → String → String
unfolding trim remove_spaces
normalize_pair_code to_upper_case code = remove_spaces (to_upper_case (trim code))

-- What the store takes from the platform: two hashes and `toUpperCase`.
pub record Platform : Type 0 where
  pub sha256 : String → String
  -- hmac key message, in base64url
  pub hmac : String → String → String
  pub to_upper_case : String → String

unfoldable pub code_hash_of : Platform → String → String
unfolding normalize_pair_code
code_hash_of os code = os.sha256 (normalize_pair_code os.to_upper_case code)

unfoldable pub is_dead_pairing : ℕ → String → StoredPairing → Bool
is_dead_pairing now id p = not (truthy p.claimed_at) && ltb (p.expires_at + hour_ms) now

-- Unclaimed, and not over.
unfoldable pub is_pending : ℕ → StoredPairing → Bool
is_pending now p = not (truthy p.claimed_at) && leb now p.expires_at

unfoldable pub is_live_device : StoredDevice → Bool
is_live_device d = not (truthy d.revoked_at)

-- Does a pending pairing use this code?
unfoldable pub is_code_taken : Platform → ℕ → Dict StoredPairing → String → Bool
unfolding any
is_code_taken os now pairings code =
    any
      (λ p.
        (p.code_hash == code_hash_of os code)
        && (ltb now p.expires_at && not (truthy p.claimed_at)))
      (values pairings)

-- Draws codes until one is free. `none`: every draw of the list was taken.
unfoldable pub draw_code : Platform → ℕ → Dict StoredPairing → List (List ℕ) → Option String
unfolding is_code_taken pairing_code
draw_code os now pairings [] = none
draw_code os now pairings (bytes ∷ draws) =
    let rest = draw_code os now pairings draws in
    if is_code_taken os now pairings (pairing_code bytes) then rest else some (pairing_code bytes)

pub record PairingMeta : Type 0 where
  pub hostname : String
  pub os : Option String
  pub agent_version : Option String
  pub fingerprint : Option String

-- The random values of one call.
pub record Randoms : Type 0 where
  pub draws : List (List ℕ)
  pub poll_token : String
  pub pairing_id : String

pub record PairingStarted : Type 0 where
  pub pairing_id : String
  pub code : String
  pub poll_token : String
  pub expires_at : ℕ

pub data PairingResult : Type 0 where
  started : PairingStarted → PairingResult
  agent_max_devices_reached agent_pairing_capacity out_of_draws : PairingResult

abbrev pub minute_ms : ℕ
minute_ms = 60_000

unfoldable pub new_pairing : Limits → Platform → Randoms → PairingMeta → ℕ → String → StoredPairing
new_pairing env os r meta now code = record {
  pairing_id = r.pairing_id;
  code_hash = code_hash_of os code;
  poll_hash = os.sha256 r.poll_token;
  created_at = now;
  expires_at = now + env.agent_pairing_ttl_minutes * minute_ms;
  hostname = meta.hostname;
  os = meta.os;
  agent_version = meta.agent_version;
  fingerprint = meta.fingerprint;
  approved_at = none;
  claimed_at = none;
  device_id = none;
}

-- The end of `createPairing`, once the capacities allow it.
unfoldable pub add_pairing :
    Limits → Platform → Randoms → PairingMeta → ℕ → Process → Process × PairingResult
unfolding draw_code insert persist new_pairing
add_pairing env os r meta now p = elim (draw_code os now p.pairings r.draws) [
  | none ↦ (p, out_of_draws)
  | some code ↦
      let pairing = new_pairing env os r meta now code in
      (
        persist (set_pairings p (insert r.pairing_id pairing p.pairings)),
        started (record {
          pairing_id = r.pairing_id;
          code = code;
          poll_token = r.poll_token;
          expires_at = pairing.expires_at;
        }),
      )
]

unfoldable pub create_pairing :
    Limits → Platform → Randoms → PairingMeta → ℕ → Process → Process × PairingResult
unfolding prune filter is_dead_pairing is_pending is_live_device add_pairing
create_pairing env os r meta now p =
    let q = set_pairings p (prune (is_dead_pairing now) p.pairings) in
    if leb env.agent_max_devices (length (filter is_live_device (values q.devices)))
    then (q, agent_max_devices_reached)
    else if leb env.agent_max_pending_pairings
        (length (filter (is_pending now) (values q.pairings)))
    then (q, agent_pairing_capacity)
    else add_pairing env os r meta now q

-- The pairing that a code approves: the first pending one with its hash.
unfoldable pub find_pending : Platform → String → ℕ → Process → Option StoredPairing
unfolding find is_pending
find_pending os code now p =
    find (λ x. (x.code_hash == code_hash_of os code) && is_pending now x) (values p.pairings)

unfoldable pub approve_pairing_by_code :
    Platform → String → ℕ → Process → Process × Option StoredPairing
unfolding find_pending insert persist
approve_pairing_by_code os code now p = elim (find_pending os code now p) [
  | none ↦ (p, none)
  | some x ↦
      let y = record x { approved_at = some now } in
      (persist (set_pairings p (insert x.pairing_id y p.pairings)), some y)
]

pub data ClaimResult : Type 0 where
  pending expired invalid : ClaimResult
  paired : StoredDevice → String → ClaimResult

-- "wdv_" + deviceId + "." + secret
unfoldable pub device_token : Platform → String → String → String
device_token os poll_token device_id =
    concat "wdv_" (concat device_id (concat "." (os.hmac poll_token device_id)))

-- p.device_id ? devices[p.device_id] : undefined
unfoldable pub device_of : StoredPairing → Process → Option StoredDevice
unfolding lookup
device_of x p = elim x.device_id [
  | none ↦ none
  | some id ↦ if id == "" then none else lookup id p.devices
]

unfoldable pub new_device : Platform → StoredPairing → String → String → ℕ → StoredDevice
unfolding device_token
new_device os x poll_token device_id now = record {
  device_id = device_id;
  display_name = x.hostname;
  hostname = x.hostname;
  os = x.os;
  agent_version = x.agent_version;
  fingerprint = x.fingerprint;
  credential_hash = os.sha256 (device_token os poll_token device_id);
  created_at = now;
  last_seen_at = none;
  capabilities = none;
  revoked_at = none;
}

-- The end of `claimPairing` for an approved pairing: its device, or a new one.
unfoldable pub claim_device :
    Platform → StoredPairing → String → String → String → ℕ → Process → Process × ClaimResult
unfolding device_of insert persist new_device device_token
claim_device os x pairing_id poll_token fresh_id now p = elim (device_of x p) [
  | none ↦
      let d = new_device os x poll_token fresh_id now in
      let y = record x { device_id = some fresh_id; claimed_at = some now } in
      let q = set_devices p (insert fresh_id d p.devices) in
      (
        persist (set_pairings q (insert pairing_id y q.pairings)),
        paired d (device_token os poll_token fresh_id),
      )
  | some d ↦ (p, paired d (device_token os poll_token d.device_id))
]

-- `fresh_id` is the device id that this call would make.
unfoldable pub claim_pairing :
    Platform → String → String → String → ℕ → Process → Process × ClaimResult
unfolding lookup claim_device
claim_pairing os pairing_id poll_token fresh_id now p = elim (lookup pairing_id p.pairings) [
  | none ↦ (p, invalid)
  | some x ↦
      if not (x.poll_hash == os.sha256 poll_token)
      then (p, invalid)
      else if ltb x.expires_at now
      then (p, expired)
      else if not (truthy x.approved_at)
      then (p, pending)
      else claim_device os x pairing_id poll_token fresh_id now p
]
