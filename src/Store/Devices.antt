-- ===== src/Store/Devices.antt =====
-- Devices: authentication, heartbeat and revocation (src/state/store.ts).
use remote_ops_mcp.Prelude.{
  ℕ, String, Bool, true, false, not, ◌&&◌, Option, none, some, List, [], ◌∷◌, ◌==◌, leb,
  if◌then◌else◌, truthy, take, includes, find,
}
use remote_ops_mcp.Dict.{lookup, insert, values}
use remote_ops_mcp.Store.Model.{StoredDevice, Process, persist, set_devices}

unfoldable pub authenticate_device_token :
    (String → String) → String → Process → Option StoredDevice
unfolding find
authenticate_device_token sha256 raw p =
    let h = sha256 raw in
    find (λ d. (d.credential_hash == h) && not (truthy d.revoked_at)) (values p.devices)

-- [...new Set(xs)]: the first of equal texts stays; `seen` are those before.
unfoldable pub distinct : List String → List String → List String
unfolding includes
distinct seen [] = []
distinct seen (x ∷ xs) =
    let fresh = x ∷ distinct (x ∷ seen) xs in
    let old = distinct seen xs in if includes x seen then old else fresh

-- `if (input.agent_version)`
abbrev pub or_old_version : Option String → Option String → Option String
or_old_version none old = old
or_old_version (some v) old = if v == "" then old else some v

unfoldable pub or_old_capabilities :
    Option (List String) → Option (List String) → Option (List String)
unfolding distinct
or_old_capabilities none old = old
or_old_capabilities (some xs) old = some (take 64 (distinct [] xs))

unfoldable pub touch_device_heartbeat :
    String → Option String → Option (List String) → ℕ → Process → Process × Bool
unfolding lookup insert persist or_old_capabilities
touch_device_heartbeat device_id agent_version capabilities now p =
    elim (lookup device_id p.devices) [
      | none ↦ (p, false)
      | some d ↦ if truthy d.revoked_at then (p, false) else (
        persist (
            set_devices p (
              insert device_id
                (record d {
                  last_seen_at = some now;
                  agent_version = or_old_version agent_version d.agent_version;
                  capabilities = or_old_capabilities capabilities d.capabilities;
                })
                p.devices)),
        true,
      )
    ]

-- Newest first, and the older order among equal times, as `sort((a, b) => b.created_at - a.created_at)`.
unfoldable pub insert_by_age : StoredDevice → List StoredDevice → List StoredDevice
insert_by_age d [] = d ∷ []
insert_by_age d (x ∷ xs) =
    let later = x ∷ insert_by_age d xs in
    if leb x.created_at d.created_at then d ∷ x ∷ xs else later

unfoldable pub sort_by_age : List StoredDevice → List StoredDevice
unfolding insert_by_age
sort_by_age [] = []
sort_by_age (d ∷ ds) = insert_by_age d (sort_by_age ds)

unfoldable pub list_devices : Process → List StoredDevice
unfolding sort_by_age
list_devices p = sort_by_age (values p.devices)

unfoldable pub revoke_device : String → ℕ → Process → Process × Bool
unfolding lookup insert persist
revoke_device device_id now p = elim (lookup device_id p.devices) [
  | none ↦ (p, false)
  | some d ↦ (
    persist (
        set_devices p (
          insert device_id (if truthy d.revoked_at then d else record d { revoked_at = some now })
            p.devices)),
    true,
  )
]
