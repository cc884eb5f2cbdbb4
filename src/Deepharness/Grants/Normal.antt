-- ===== src/Deepharness/Grants/Normal.antt =====
-- The state and the file pass the tests of `normalize` after every call, and what then loads again.
use remote_ops_mcp.Prelude.{
  ◌≤◌, ℕ, String, ◌≡◌, refl, Bool, true, false, not, ◌&&◌, ◌||◌, Option, none, some, List, ◌==◌,
  leb, length, is_some,
}
use remote_ops_mcp.Dict.{lookup}
use remote_ops_mcp.Deepharness.Model.{
  max_file_bytes, Identity, Grant, Delivery, Persisted, Process, Platform, max_grants,
  max_deliveries, max_safe_integer, valid_id, is_hash, is_identity, identity_key, delivery_key,
  are_actions, is_normal_grant, is_normal_delivery, holds, load_file, is_written,
}
use remote_ops_mcp.Deepharness.Grants.{
  commit_under, new_delivery, sort_actions, is_instruction, put_grant, revoke_grant, Instruction,
  Commit, submit_delivery, start_delivery, continue_delivery, with_authorized_lead_commit,
  is_authorized, is_accepted,
}
use remote_ops_mcp.Deepharness.Grants.Authority.{Call, put, revoke, commit, step}
use remote_ops_mcp.Deepharness.Grants.Shapes.{if_keeps, on_some_keeps, on_submitted_keeps}
use remote_ops_mcp.Deepharness.Grants.Entries.{
  all_entries-lookup, sort_actions-are_actions, six_true, two_parts, and_false, three_parts,
}
use remote_ops_mcp.Deepharness.Grants.Records.{
  revised_is_normal, new_is_normal, accepted_is_normal, revision_is_valid,
}
use remote_ops_mcp.Deepharness.Grants.Saves.{
  IsNormal, save-IsNormal, with_grants, with_deliveries, if_keeps_given, found_keeps,
  grants_of_normal, deliveries_of_normal, saved_at_key, already_there, loads,
}

-- A call whose identifiers are of the form that the store accepts and whose times are safe integers.
abbrev pub is_plain : Call → Bool
is_plain (put i actions uuid now how) = valid_id uuid && leb now max_safe_integer
is_plain (revoke i uuid now how) = valid_id uuid && leb now max_safe_integer
is_plain (commit i x c) =
    valid_id c.uuid_receipt
    && (leb c.created max_safe_integer && leb c.accepted_at max_safe_integer)

module _ (os : Platform) (hashes : (xs : List String) → is_hash (os.sha256_json xs) ≡ true) where
  new_grant_is_normal :
      (i : Identity) (actions : List String) (uuid : String) (now : ℕ)
      → (is_identity i && are_actions actions) ≡ true
      → (valid_id uuid && leb now max_safe_integer) ≡ true
      → is_normal_grant (identity_key os i) (record {
        identity = i;
        actions = sort_actions actions;
        revision = uuid;
        updated_at = now;
        revoked_at = none;
      })
        ≡ true
  unfolding is_normal_grant identity_key
  new_grant_is_normal i actions uuid now tests plain =
      let (good, known) = two_parts (is_identity i) (are_actions actions) tests in
      let (good_id, good_time) = two_parts (valid_id uuid) (leb now max_safe_integer) plain in
      six_true _ _ _ _ _ _ (hashes _) good (sort_actions-are_actions actions known) good_id
        good_time refl

  put-IsNormal :
      (i : Identity) (actions : Option (List String)) (uuid : String) (now : ℕ) (how : Persisted)
      (p : Process)
      → (valid_id uuid && leb now max_safe_integer) ≡ true
      → IsNormal p
      → IsNormal (put_grant os i actions uuid now how p).1
  unfolding put_grant
  put-IsNormal i none uuid now how p plain h = if_keeps IsNormal p.faulted _ _ h h
  put-IsNormal i (some actions) uuid now how p plain h = if_keeps IsNormal p.faulted _ _ h (
      if_keeps_given (is_identity i && are_actions actions) _ _
        (λ tests.
          if_keeps_given
            (not (is_some (lookup (identity_key os i) p.state.grants))
              && leb max_grants (length p.state.grants))
            _ _ (λ full. h)
            λ room.
              save-IsNormal _ how p
                (with_grants (identity_key os i) _ p.state.grants p.state.deliveries h.0
                  (new_grant_is_normal i actions uuid now tests plain) room)
                h)
        (λ e. h))

  revoke-IsNormal :
      (i : Identity) (uuid : String) (now : ℕ) (how : Persisted) (p : Process)
      → (valid_id uuid && leb now max_safe_integer) ≡ true
      → IsNormal p
      → IsNormal (revoke_grant os i uuid now how p).1
  unfolding revoke_grant
  revoke-IsNormal i uuid now how p plain h = if_keeps IsNormal p.faulted _ _ h (
      if_keeps IsNormal (is_identity i) _ _
        (found_keeps (lookup (identity_key os i) p.state.grants) _ _ h λ g found.
          if_keeps IsNormal (is_some g.revoked_at) _ _ h (
            save-IsNormal _ how p
              (with_grants (identity_key os i) _ p.state.grants p.state.deliveries h.0
                (revised_is_normal (identity_key os i) uuid now g
                  (all_entries-lookup is_normal_grant (identity_key os i) g p.state.grants
                    (grants_of_normal p.state h.0) found)
                  plain)
                (already_there max_grants (identity_key os i) g p.state.grants found))
              h))
        h)

  -- The key of the delivery is in the table, or there is room for it.
  submit-IsNormal :
      (i : Identity) (key : String) (g : Grant) (d : Delivery) (c : Commit) (p : Process)
      → leb c.accepted_at max_safe_integer ≡ true
      → is_normal_delivery key d ≡ true
      → (not (is_some (lookup key p.state.deliveries))
          && leb max_deliveries (length p.state.deliveries))
        ≡ false
      → IsNormal p
      → IsNormal (submit_delivery os i key g d c p).1
  unfolding submit_delivery
  submit-IsNormal i key g d c p plain good room h =
      on_submitted_keeps IsNormal c.submitted _ _ _ h h (
        on_some_keeps IsNormal (lookup (identity_key os i) p.state.grants) _ _ h λ current.
          if_keeps IsNormal (is_authorized g.revision current) _ _
            (save-IsNormal _ c.second_write p
              (with_deliveries key _ p.state.grants p.state.deliveries h.0
                (accepted_is_normal key d c.accepted_at good plain) room)
              h)
            h)

  start-IsNormal :
      (i : Identity) (x : Instruction) (key : String) (g : Grant) (c : Commit) (p : Process)
      → is_plain (commit i x c) ≡ true
      → is_normal_delivery key (new_delivery i x g c) ≡ true
      → IsNormal p
      → IsNormal (start_delivery os i x key g c p).1
  unfolding start_delivery
  start-IsNormal i x key g c p plain good h =
      if_keeps_given (leb max_deliveries (length p.state.deliveries)) _ _ (λ full. h)
        λ room.
          let next =
            with_deliveries key (new_delivery i x g c) p.state.grants p.state.deliveries h.0 good
              (and_false _ _ room) in
          let (good_id, created, finished) =
            three_parts (valid_id c.uuid_receipt) (leb c.created max_safe_integer)
              (leb c.accepted_at max_safe_integer) plain in
          if_keeps_given (is_written c.first_write) _ _
            (λ saved.
              submit-IsNormal i key g (new_delivery i x g c) c _ finished good
                (already_there max_deliveries key (new_delivery i x g c) _
                  (saved_at_key key (new_delivery i x g c) c.first_write p saved))
                (save-IsNormal _ c.first_write p next h))
            (λ e. save-IsNormal _ c.first_write p next h)

  continue-IsNormal :
      (i : Identity) (x : Instruction) (key : String) (g : Grant) (c : Commit) (d : Delivery)
      (p : Process)
      → is_plain (commit i x c) ≡ true
      → lookup key p.state.deliveries ≡ some d
      → IsNormal p
      → IsNormal (continue_delivery os i x key g c d p).1
  unfolding continue_delivery
  continue-IsNormal i x key g c d p plain found h =
      let (good_id, created, finished) =
        three_parts (valid_id c.uuid_receipt) (leb c.created max_safe_integer)
          (leb c.accepted_at max_safe_integer) plain in
      if_keeps IsNormal
        (not (d.payload_hash == x.payload_hash) || not (d.grant_revision == g.revision)) _ _ h
        (if_keeps IsNormal (is_accepted d.status) _ _ h (
          submit-IsNormal i key g d c p finished
            (all_entries-lookup is_normal_delivery key d p.state.deliveries
              (deliveries_of_normal p.state h.0) found)
            (already_there max_deliveries key d p.state.deliveries found) h))

  commit-IsNormal :
      (i : Identity) (x : Instruction) (c : Commit) (p : Process)
      → is_plain (commit i x c) ≡ true
      → IsNormal p
      → IsNormal (with_authorized_lead_commit os i x c p).1
  unfolding with_authorized_lead_commit commit_under delivery_key
  commit-IsNormal i x c p plain h =
      let key = delivery_key os i x.idempotency_key in
      let (good_id, created, finished) =
        three_parts (valid_id c.uuid_receipt) (leb c.created max_safe_integer)
          (leb c.accepted_at max_safe_integer) plain in
      if_keeps IsNormal p.faulted _ _ h (
        if_keeps_given (is_identity i && is_instruction x) _ _
          (λ valid. found_keeps (lookup (identity_key os i) p.state.grants) _ _ h λ g at_identity.
            if_keeps IsNormal (is_authorized x.revision g) _ _
              (found_keeps (lookup key p.state.deliveries) _ _
                (start-IsNormal i x key g c p plain
                  (new_is_normal key i x g c (hashes _) (two_parts _ _ valid).0
                    (two_parts (is_identity i) _ valid).1
                    (revision_is_valid (identity_key os i) g (
                      all_entries-lookup is_normal_grant (identity_key os i) g p.state.grants
                        (grants_of_normal p.state h.0) at_identity))
                    good_id created)
                  h)
                λ d at_key. continue-IsNormal i x key g c d p plain at_key h)
              h)
          (λ e. h))

  step-IsNormal :
      (call : Call) (p : Process) → is_plain call ≡ true → IsNormal p → IsNormal (step os call p)
  unfolding step
  step-IsNormal (put i actions uuid now how) p plain h =
      put-IsNormal i actions uuid now how p plain h
  step-IsNormal (revoke i uuid now how) p plain h = revoke-IsNormal i uuid now how p plain h
  step-IsNormal (commit i x c) p plain h = commit-IsNormal i x c p plain h

  -- If the state and the file pass the tests of `normalize` before a call, they pass them after it,
  -- whatever becomes of its writes, and the store starts again from the file if that is no longer than
  -- `MAX_FILE_BYTES`; SHA-256 gives 64 hexadecimal digits, and the identifiers and the times of the call
  -- are of the form that the store accepts.
  pub file_loads_again :
      (call : Call) (p : Process) (how : Persisted)
      → is_plain call ≡ true
      → IsNormal p
      → os.file_size (step os call p).file ≤ max_file_bytes
      → IsNormal (step os call p)
        × (load_file os (holds (step os call p).file) how
            ≡ some (record {
              state = (step os call p).file;
              file = (step os call p).file;
              faulted = false;
            }))
  file_loads_again call p how plain h short =
      let after = step-IsNormal call p plain h in
      (after, loads os (step os call p).file how short after.1)
