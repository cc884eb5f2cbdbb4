-- ===== src/Tests/Agents.antt =====
-- Pairings and devices at concrete data.
use remote_ops_mcp.Prelude.{
  ℕ, String, ◌≡◌, ◌≢◌, ◌⊎◌, ◌≤◌, ◌<◌, refl, true, false, Option, none, some, List, [], ◌∷◌, arith,
  eq_iff, truthy,
}
use remote_ops_mcp.Dict.{lookup, prune}
use remote_ops_mcp.Store.Model.{StoredPairing, StoredDevice}
use remote_ops_mcp.Store.Calls.{Call, run, claims, heartbeats, purges}
use remote_ops_mcp.Store.Pairings.{
  Randoms, PairingMeta, PairingStarted, started, out_of_draws, agent_max_devices_reached,
  agent_pairing_capacity, code_hash_of, is_dead_pairing, new_pairing, create_pairing,
  approve_pairing_by_code, pending, expired, invalid, paired, claim_pairing, new_device, device_of,
  device_token,
}
use remote_ops_mcp.Store.Devices.{authenticate_device_token, touch_device_heartbeat, revoke_device}
use remote_ops_mcp.Store.DeviceLife.{revoke_device_is_final}
use remote_ops_mcp.Store.PairingLife.{
  paired_only_when_approved, claim_token_authenticates, issued_code_approves_own_pairing,
  create_pairing_capacity, live_count, pending_count,
}
use remote_ops_mcp.Tests.Data.{limits, hash, platform, setup, pairing, process, state-IsValid}

abbrev calls : List (ℕ × Call)
calls = (10, heartbeats "d1" none none) ∷ (11, claims "p1" "poll" "d2") ∷ (12, purges) ∷ []

revoke_device_example :
    let q = run setup calls (revoke_device "d1" 9 process).0 in
    ((raw : String) (d : StoredDevice)
      → authenticate_device_token hash raw q ≡ some d
      → d.device_id ≢ "d1")
    × ((v : Option String) (caps : Option (List String)) (t : ℕ)
        → touch_device_heartbeat "d1" v caps t q ≡ (q, false))
revoke_device_example =
    revoke_device_is_final setup "d1" 9 process calls state-IsValid (ground arith)
      (ground arith, ((ground arith, ground (arith, eq_iff "d2" "d1")), (ground arith, tt)))

paired_example :
    let r = claim_pairing platform "p1" "poll" "d2" 20 process in
    (((x : StoredPairing) × (lookup "p1" process.pairings ≡ some x)
        × (x.poll_hash ≡ hash "poll")
        × (20 ≤ x.expires_at)
        × (truthy x.approved_at ≡ true)
        × ((d : StoredDevice) × (t : String) × (r.1 ≡ paired d t)))
      ⊎ ((r.0 ≡ process) × ((r.1 ≡ pending) ⊎ ((r.1 ≡ expired) ⊎ (r.1 ≡ invalid)))))
paired_example = paired_only_when_approved platform "p1" "poll" "d2" 20 process

abbrev made : StoredDevice
made = new_device platform pairing "poll" "d2" 20

abbrev token : String
token = device_token platform "poll" "d2"

claimed : (claim_pairing platform "p1" "poll" "d2" 20 process).1 ≡ paired made token
unfolding claim_pairing lookup
claimed = refl

no_other :
    (j : String) (c : StoredDevice)
    → lookup j process.devices ≡ some c
    → c.credential_hash ≡ hash token
    → j ≡ "d2"
unfolding lookup device_token
no_other j c found h = ground (arith, found, h, eq_iff "h:secret" (hash token))

claim_token_example :
    (made.device_id ≡ "d2")
    × (authenticate_device_token hash token (claim_pairing platform "p1" "poll" "d2" 20 process).0
        ≡ some made)
unfolding lookup device_of
claim_token_example =
    claim_token_authenticates limits platform "p1" "poll" "d2" 20 process pairing made token
      state-IsValid refl refl no_other claimed

abbrev randoms : Randoms
randoms = record {
  draws = (0 ∷ 0 ∷ 0 ∷ 0 ∷ 1 ∷ 1 ∷ 1 ∷ 1 ∷ []) ∷ (0 ∷ 0 ∷ 0 ∷ 0 ∷ 1 ∷ 1 ∷ 1 ∷ 2 ∷ []) ∷ [];
  poll_token = "t";
  pairing_id = "p2";
}

abbrev meta : PairingMeta
meta = record { hostname = "h"; os = none; agent_version = none; fingerprint = none }

abbrev started_pairing : PairingStarted
started_pairing = record {
  pairing_id = "p2";
  code = "WD-AAAA-BBBC";
  poll_token = "t";
  expires_at = 600_020;
}

issued_code_example :
    (approve_pairing_by_code platform "WD-AAAA-BBBC" 30
      (create_pairing limits platform randoms meta 20 process).0).1
    ≡ some (record (new_pairing limits platform randoms meta 20 "WD-AAAA-BBBC") {
      approved_at = some 30;
    })
unfolding create_pairing lookup code_hash_of
issued_code_example =
    issued_code_approves_own_pairing limits platform randoms meta 20 30 process started_pairing
      state-IsValid refl refl (ground arith) (ground arith)

pairing_capacity_example :
    let c = create_pairing limits platform randoms meta 20 process in
    (((st : PairingStarted) × (c.1 ≡ started st))
      × (live_count process < 3)
      × (pending_count 20 c.0 ≤ 2))
    ⊎ ((c.0.pairings ≡ prune (is_dead_pairing 20) process.pairings)
        × (c.0.devices ≡ process.devices)
        × ((c.1 ≡ agent_max_devices_reached)
            ⊎ ((c.1 ≡ agent_pairing_capacity) ⊎ (c.1 ≡ out_of_draws))))
pairing_capacity_example = create_pairing_capacity limits platform randoms meta 20 process
