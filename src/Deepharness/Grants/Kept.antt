-- ===== src/Deepharness/Grants/Kept.antt =====
-- A commit keeps the grants.
use remote_ops_mcp.Prelude.{String, ◌≡◌, refl, ◌∙◌, not, ◌&&◌, ◌||◌, ◌==◌, leb, length}
use remote_ops_mcp.Dict.{lookup}
use remote_ops_mcp.Deepharness.Model.{
  Identity, Grant, Delivery, State, Persisted, written, kept, replaced_and_failed, Process,
  Platform, max_deliveries, delivery_key, is_identity, identity_key, save, is_written,
}
use remote_ops_mcp.Deepharness.Grants.Shapes.{if_keeps, on_some_keeps, on_submitted_keeps}
use remote_ops_mcp.Deepharness.Grants.{
  commit_under, new_delivery, is_instruction, is_accepted, Instruction, Commit, submit_delivery,
  start_delivery, continue_delivery, with_authorized_lead_commit, is_authorized,
}

save_keeps :
    (next : State) (how : Persisted) (p : Process)
    → next.grants ≡ p.state.grants
    → (save next how p).state.grants ≡ p.state.grants
unfolding save
save_keeps next written p h = h
save_keeps next kept p h = refl
save_keeps next replaced_and_failed p h = refl

-- The process still has the grants of `p`.
abbrev pub HasGrants : Process → Process → Type 0
HasGrants p q = q.state.grants ≡ p.state.grants

submit_keeps :
    (os : Platform) (i : Identity) (key : String) (g : Grant) (d : Delivery) (c : Commit)
    (p : Process)
    → HasGrants p (submit_delivery os i key g d c p).1
unfolding submit_delivery
submit_keeps os i key g d c p = on_submitted_keeps (HasGrants p) c.submitted _ _ _ refl refl (
    on_some_keeps (HasGrants p) (lookup (identity_key os i) p.state.grants) _ _ refl λ current.
      if_keeps (HasGrants p) (is_authorized g.revision current) _ _
        (save_keeps _ c.second_write p refl) refl)

start_keeps :
    (os : Platform) (i : Identity) (x : Instruction) (key : String) (g : Grant) (c : Commit)
    (p : Process)
    → HasGrants p (start_delivery os i x key g c p).1
unfolding start_delivery
start_keeps os i x key g c p =
    if_keeps (HasGrants p) (leb max_deliveries (length p.state.deliveries)) _ _ refl (
      if_keeps (HasGrants p) (is_written c.first_write) _ _
        (submit_keeps os i key g (new_delivery i x g c) c _ ∙ save_keeps _ c.first_write p refl)
        (save_keeps _ c.first_write p refl))

continue_keeps :
    (os : Platform) (i : Identity) (x : Instruction) (key : String) (g : Grant) (c : Commit)
    (d : Delivery) (p : Process)
    → HasGrants p (continue_delivery os i x key g c d p).1
unfolding continue_delivery
continue_keeps os i x key g c d p =
    if_keeps (HasGrants p)
      (not (d.payload_hash == x.payload_hash) || not (d.grant_revision == g.revision)) _ _ refl
      (if_keeps (HasGrants p) (is_accepted d.status) _ _ refl (submit_keeps os i key g d c p))

pub commit_keeps :
    (os : Platform) (i : Identity) (x : Instruction) (c : Commit) (p : Process)
    → HasGrants p (with_authorized_lead_commit os i x c p).1
unfolding with_authorized_lead_commit commit_under
commit_keeps os i x c p =
    let key = delivery_key os i x.idempotency_key in
    if_keeps (HasGrants p) p.faulted _ _ refl (
      if_keeps (HasGrants p) (is_identity i && is_instruction x) _ _
        (on_some_keeps (HasGrants p) (lookup (identity_key os i) p.state.grants) _ _ refl λ g.
          if_keeps (HasGrants p) (is_authorized x.revision g) _ _
            (on_some_keeps (HasGrants p) (lookup key p.state.deliveries) _ _
              (start_keeps os i x key g c p) λ d. continue_keeps os i x key g c d p)
            refl)
        refl)
