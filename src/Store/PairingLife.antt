-- ===== src/Store/PairingLife.antt =====
-- The life of a pairing: started, approved by its code, claimed with its poll token.
use remote_ops_mcp.Prelude.{
  ℕ, ◌<◌, ◌≤◌, String, ◌≡◌, ◌≢◌, refl, true, false, not, ◌&&◌, none, some, List, [], ◌∷◌, arith,
  ◌==◌, eq_iff, eq_refl, Option-cases, Bool-cases, inl, inr, truthy, any, all, filter, length, ◌⊎◌,
  leb, ltb,
}
use remote_ops_mcp.Dict.{Dict, lookup, insert, prune, values, lookup-insert, lookup-insert_self}
use remote_ops_mcp.Dict.Index.{IsIndex-insert, IsIndex-find_self, IsIndex-prune}
use remote_ops_mcp.Dict.Keys.{count-insert-le}
use remote_ops_mcp.Store.Invariant.{IsValid}
use remote_ops_mcp.Store.Model.{StoredPairing, StoredDevice, Limits, Process, persist}
use remote_ops_mcp.Store.Pairings.{
  Platform, PairingMeta, Randoms, PairingStarted, started, agent_max_devices_reached,
  agent_pairing_capacity, out_of_draws, create_pairing, add_pairing, new_pairing, draw_code,
  is_code_taken, find_pending, approve_pairing_by_code, is_pending, is_dead_pairing, is_live_device,
  code_hash_of, pending, expired, invalid, paired, claim_pairing, claim_device, device_of,
  new_device, device_token, pairing_code,
}
use remote_ops_mcp.Store.Devices.{authenticate_device_token}

-- `claimPairing` pairs a device only for a pairing that is in the store, with its poll token, not
-- after its expiry, and approved; otherwise it changes nothing.
pub paired_only_when_approved :
    (os : Platform) (id token fresh_id : String) (now : ℕ) (p : Process)
    → let r = claim_pairing os id token fresh_id now p in
      (((x : StoredPairing) × (lookup id p.pairings ≡ some x)
          × (x.poll_hash ≡ os.sha256 token)
          × (now ≤ x.expires_at)
          × (truthy x.approved_at ≡ true)
          × ((d : StoredDevice) × (t : String) × (r.1 ≡ paired d t)))
        ⊎ ((r.0 ≡ p) × ((r.1 ≡ pending) ⊎ ((r.1 ≡ expired) ⊎ (r.1 ≡ invalid)))))
unfolding claim_pairing claim_device
paired_only_when_approved os id token fresh_id now p = elim (Option-cases (lookup id p.pairings)) [
  | inl e ↦ inr (ground arith)
  | inr (x, e) ↦
      elim (Bool-cases
        (x.poll_hash == os.sha256 token && (leb now x.expires_at && truthy x.approved_at))) [
          | inl ok ↦ elim (Option-cases (device_of x p)) [
            | inl f ↦ inl (
              x,
              e,
              ground (arith, eq_iff x.poll_hash (os.sha256 token)),
              ground arith,
              ground arith,
              (new_device os x token fresh_id now, device_token os token fresh_id, ground arith),
            )
            | inr (d, f) ↦ inl (
              x,
              e,
              ground (arith, eq_iff x.poll_hash (os.sha256 token)),
              ground arith,
              ground arith,
              (d, device_token os token d.device_id, ground arith),
            )
          ]
          | inr no_ok ↦ inr (ground (arith, e))
        ]
]

-- Two claims of one pairing, in time: the second gives the same device and token, and changes
-- nothing. The device id of the first is not the empty text.
pub claim_again :
    (env : Limits) (os : Platform) (id token fresh_id other_id : String) (now later : ℕ)
    (p : Process) (x : StoredPairing) (d : StoredDevice) (t : String)
    → IsValid env p.state
    → fresh_id ≢ ""
    → lookup id p.pairings ≡ some x
    → later ≤ x.expires_at
    → (claim_pairing os id token fresh_id now p).1 ≡ paired d t
    → let q = (claim_pairing os id token fresh_id now p).0 in
      claim_pairing os id token other_id later q ≡ (q, paired d t)
unfolding claim_pairing claim_device persist device_of new_device
claim_again env os id token fresh_id other_id now later p x d t v nonempty found in_time first =
    let y = record x { device_id = some fresh_id; claimed_at = some now } in
    let n = new_device os x token fresh_id now in
    elim (Option-cases (device_of x p)) [
      | inl f ↦ ground (
        arith,
        found,
        f,
        lookup-insert_self id y p.pairings,
        lookup-insert_self fresh_id n p.devices,
        eq_iff fresh_id "",
      )
      | inr (c, f) ↦ ground (arith, found, f)
    ]

-- A device that a claim has made is authenticated by the token that the claim returned, if the
-- device id is new and no other device has a credential with the same hash.
pub claim_token_authenticates :
    (env : Limits) (os : Platform) (id token fresh_id : String) (now : ℕ) (p : Process)
    (x : StoredPairing) (d : StoredDevice) (t : String)
    → IsValid env p.state
    → lookup id p.pairings ≡ some x
    → device_of x p ≡ none
    → ((j : String) (c : StoredDevice)
        → lookup j p.devices ≡ some c
        → c.credential_hash ≡ os.sha256 (device_token os token fresh_id)
        → j ≡ fresh_id)
    → (claim_pairing os id token fresh_id now p).1 ≡ paired d t
    → (d.device_id ≡ fresh_id)
      × (authenticate_device_token os.sha256 t (claim_pairing os id token fresh_id now p).0
          ≡ some d)
unfolding claim_pairing claim_device persist authenticate_device_token new_device
claim_token_authenticates env os id token fresh_id now p x d t v found no_device only paired_d =
    let n = new_device os x token fresh_id now in
    let ds = insert fresh_id n p.devices in
    let valid = IsIndex-insert _ fresh_id n p.devices refl v.devices in
    let h = os.sha256 (device_token os token fresh_id) in
    let authentic =
      IsIndex-find_self (λ (c : StoredDevice). c.device_id)
        (λ c. (c.credential_hash == h) && not (truthy c.revoked_at)) ds fresh_id n valid
        (lookup-insert_self fresh_id n p.devices) (ground (arith, eq_refl h))
        λ j c e m. ground (
          arith,
          lookup-insert fresh_id j n p.devices,
          eq_iff fresh_id j,
          eq_iff c.credential_hash h,
          only j c,
        ) in
    (ground (arith, found, no_device), ground (arith, found, no_device, authentic))

-- A drawn code is the code of one of the draws and is not taken; drawing fails only if the codes of
-- all draws are taken.
pub draw_code_finds :
    (os : Platform) (now : ℕ) (d : Dict StoredPairing) (draws : List (List ℕ))
    → ((code : String) × (draw_code os now d draws ≡ some code)
        × (is_code_taken os now d code ≡ false)
        × (any (λ b. pairing_code b == code) draws ≡ true))
      ⊎ ((draw_code os now d draws ≡ none)
          × (all (λ b. is_code_taken os now d (pairing_code b)) draws ≡ true))
unfolding draw_code any all
draw_code_finds os now d [] = inr (refl, refl)
draw_code_finds os now d (b ∷ draws) = elim (Bool-cases (is_code_taken os now d (pairing_code b))) [
  | inr free ↦ inl (pairing_code b, ground arith, free, ground (arith, eq_refl (pairing_code b)))
  | inl taken ↦ elim (draw_code_finds os now d draws) [
    | inl (code, e, free, drawn) ↦ inl (code, ground arith, free, ground arith)
    | inr (e, taken_all) ↦ inr (ground arith, ground arith)
  ]
]

-- A pairing does not use a code that is not taken.
not_taken_at :
    (os : Platform) (now : ℕ) (d : Dict StoredPairing) (code : String) (k : String)
    (x : StoredPairing)
    → is_code_taken os now d code ≡ false
    → lookup k d ≡ some x
    → ((x.code_hash == code_hash_of os code) && (ltb now x.expires_at && not (truthy x.claimed_at)))
      ≡ false
unfolding is_code_taken any lookup
not_taken_at os now [] code k x h e = absurd (cc)
not_taken_at os now ((j, y) ∷ d) code k x h e = ground (arith, not_taken_at os now d code k x)

abbrev pub pending_count : ℕ → Process → ℕ
pending_count now p = length (filter (is_pending now) (values p.pairings))

abbrev pub live_count : Process → ℕ
live_count p = length (filter is_live_device (values p.devices))

-- `createPairing` starts a pairing only with fewer live devices than `agent_max_devices`; then there
-- are at most `agent_max_pending_pairings` pending ones. If it does not start one, it adds none.
pub create_pairing_capacity :
    (env : Limits) (os : Platform) (r : Randoms) (meta : PairingMeta) (now : ℕ) (p : Process)
    → let c = create_pairing env os r meta now p in
      (((st : PairingStarted) × (c.1 ≡ started st))
        × (live_count p < env.agent_max_devices)
        × (pending_count now c.0 ≤ env.agent_max_pending_pairings))
      ⊎ ((c.0.pairings ≡ prune (is_dead_pairing now) p.pairings)
          × (c.0.devices ≡ p.devices)
          × ((c.1 ≡ agent_max_devices_reached)
              ⊎ ((c.1 ≡ agent_pairing_capacity) ⊎ (c.1 ≡ out_of_draws))))
unfolding create_pairing add_pairing persist
create_pairing_capacity env os r meta now p =
    let d = prune (is_dead_pairing now) p.pairings in
    elim (Bool-cases (leb env.agent_max_devices (live_count p))) [
      | inl full ↦ inr (ground (arith, full))
      | inr room ↦
          elim (Bool-cases
            (leb env.agent_max_pending_pairings (length (filter (is_pending now) (values d))))) [
              | inl full ↦ inr (ground (arith, full, room))
              | inr space ↦ elim (Option-cases (draw_code os now d r.draws)) [
                | inl e ↦ inr (ground (arith, room, space, e))
                | inr (code, e) ↦
                    let n = new_pairing env os r meta now code in
                    inl (
                      (
                        record {
                          pairing_id = r.pairing_id;
                          code = code;
                          poll_token = r.poll_token;
                          expires_at = n.expires_at;
                        },
                        ground (arith, room, space, e),
                      ),
                      ground (arith, room),
                      ground (
                        arith,
                        room,
                        space,
                        e,
                        count-insert-le (is_pending now) r.pairing_id n d,
                      ),
                    )
              ]
            ]
    ]

-- The code that `createPairing` returns approves, later and up to its expiry, the pairing that it was
-- issued for, if nothing happens in between and the pairing id is new.
pub issued_code_approves_own_pairing :
    (env : Limits) (os : Platform) (r : Randoms) (meta : PairingMeta) (now later : ℕ) (p : Process)
    (st : PairingStarted)
    → IsValid env p.state
    → lookup r.pairing_id p.pairings ≡ none
    → (create_pairing env os r meta now p).1 ≡ started st
    → now < later
    → later ≤ st.expires_at
    → (approve_pairing_by_code os st.code later (create_pairing env os r meta now p).0).1
      ≡ some (record (new_pairing env os r meta now st.code) { approved_at = some later })
unfolding create_pairing add_pairing persist approve_pairing_by_code find_pending is_pending
    new_pairing
issued_code_approves_own_pairing env os r meta now later p st v new_id ok after in_time =
    let d = prune (is_dead_pairing now) p.pairings in
    elim (draw_code_finds os now d r.draws) [
      | inr (e, _) ↦ absurd (ground (arith, e))
      | inl (code, e, free, _) ↦
          let n = new_pairing env os r meta now code in
          let pid = r.pairing_id in
          let added = insert pid n d in
          let pairings_valid = IsIndex-prune _ (is_dead_pairing now) p.pairings v.pairings in
          let finds =
            IsIndex-find_self (λ (x : StoredPairing). x.pairing_id)
              (λ x. (x.code_hash == code_hash_of os code) && is_pending later x) added pid n
              (IsIndex-insert _ pid n d refl pairings_valid) (lookup-insert_self pid n d)
              (ground (arith, eq_refl (code_hash_of os code), e))
              λ j w at_j passes. ground (
                arith,
                lookup-insert pid j n d,
                eq_iff pid j,
                not_taken_at os now d code j w free,
              ) in
          ground (arith, e, finds)
    ]
