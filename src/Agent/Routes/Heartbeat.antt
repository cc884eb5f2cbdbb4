-- ===== src/Agent/Routes/Heartbeat.antt =====
-- Which heartbeats are taken, and which starts of a pairing.
use remote_ops_mcp.Prelude.{
  ℕ, ◌≤◌, String, ◌≡◌, ◌⊎◌, true, false, not, ◌&&◌, Option, none, some, List, ◌==◌, arith, ltb,
  length, truthy, Option-cases, inl, inr,
}
use remote_ops_mcp.Dict.{Dict}
use remote_ops_mcp.Dict.Index.{IsIndex, IsIndex-find}
use remote_ops_mcp.Store.Model.{StoredDevice, Process}
use remote_ops_mcp.Store.Devices.{authenticate_device_token, touch_device_heartbeat}
use remote_ops_mcp.Agent.Routes.{recent_hits, pair_start_limiter, require_device, beat, heartbeat}

taken :
    (sha256 : String → String) (raw : String) (version : Option String)
    (capabilities : Option (List String)) (now : ℕ) (p : Process) (d : StoredDevice)
    → IsIndex (λ (d : StoredDevice). d.device_id) p.devices
    → authenticate_device_token sha256 raw p ≡ some d
    → (touch_device_heartbeat d.device_id version capabilities now p).1 ≡ true
unfolding authenticate_device_token touch_device_heartbeat
taken sha256 raw version capabilities now p d index good =
    let h = sha256 raw in
    let (found, live) =
      IsIndex-find (λ (d : StoredDevice). d.device_id)
        (λ d. (d.credential_hash == h) && not (truthy d.revoked_at)) p.devices d index good in
    ground (arith, found, live)

-- A heartbeat with a good body is taken if the token authenticates a device, and is refused with
-- 401 and without any change if not: never does the store refuse a device that the token has
-- authenticated.
pub heartbeat_lem :
    (sha256 : String → String) (raw : String) (version : Option String)
    (capabilities : Option (List String)) (now : ℕ) (p : Process)
    → IsIndex (λ (d : StoredDevice). d.device_id) p.devices
    → ((d : StoredDevice) × (authenticate_device_token sha256 raw p ≡ some d)
        × ((heartbeat sha256 (some raw) (some (version, capabilities)) now p).1 ≡ 200))
      ⊎ ((authenticate_device_token sha256 raw p ≡ none)
          × (heartbeat sha256 (some raw) (some (version, capabilities)) now p ≡ (p, 401)))
unfolding heartbeat require_device beat
heartbeat_lem sha256 raw version capabilities now p index =
    elim (Option-cases (authenticate_device_token sha256 raw p)) [
      | inl bad ↦ inr (bad, ground (arith, bad))
      | inr (d, good) ↦
          inl (
            d,
            good,
            ground (arith, good, taken sha256 raw version capabilities now p d index good),
          )
    ]

-- The limiter lets an address start a pairing if fewer than `max` of its starts lie in the window;
-- otherwise it changes nothing. It never holds more than 10000 addresses.
pub pair_start_limiter_lem :
    (max : ℕ) (key : String) (now : ℕ) (hits : Dict (List ℕ))
    → length hits ≤ 10_000
    → ((pair_start_limiter max key now hits).1 ≡ ltb (length (recent_hits now key hits)) max)
      × ((pair_start_limiter max key now hits).1 ≡ false
          → (pair_start_limiter max key now hits).0 ≡ hits)
      × (length (pair_start_limiter max key now hits).0 ≤ 10_000)
unfolding pair_start_limiter
pair_start_limiter_lem max key now hits h = (ground arith, ground arith, ground (arith, h))
