-- ===== src/Deepharness/Grants/Deliveries.antt =====
-- The commits of instructions: under which grant one is submitted, and what a repetition gives.
use mathlib.Core.Path.{subst}
use remote_ops_mcp.Deepharness.Grants.Kept.{commit_keeps}
use remote_ops_mcp.Deepharness.Grants.Submissions.{IsOpen, IsOnRecord, submission_records}
use remote_ops_mcp.Docker.Paperclip.{is_guid}
use remote_ops_mcp.Prelude.{
  eq_iff, includes, String, ◌≡◌, refl, sym, ap, ◌∙◌, Bool, true, false, ◌&&◌, Option, none, some,
  arith, if◌then◌else◌, eq_refl,
}
use remote_ops_mcp.Dict.{lookup}
use remote_ops_mcp.Deepharness.Model.{
  valid_id, is_hash, Identity, Grant, Process, Platform, is_identity, identity_key, delivery_key,
  Done, done,
}
use remote_ops_mcp.Deepharness.Grants.{
  on_some, is_instruction, is_accepted, is_authorized, Instruction, Receipt, Commit,
  continue_delivery, commit_under, with_authorized_lead_commit,
}
use remote_ops_mcp.Deepharness.Grants.Settled.{IsSettled, under_settles, commit_succeeded}

both : (a b : Bool) → (a && b) ≡ true → (a ≡ true) × (b ≡ true)
both a b h = ground (arith, h)

tested :
    (Q : Process → Type 0) (b : Bool) (x y : (Bool × Done Receipt) × Process) (R : Type 0)
    → y.0.0 ≡ false
    → (x.0.0 ≡ true → R × Q x.1)
    → (if b then x else y).0.0 ≡ true
    → (b ≡ true) × R × Q (if b then x else y).1
tested Q true x y R a k h = let (rest, after) = k h in (refl, rest, after)
tested Q false x y R a k h = absurd (ground (arith, a, h))

-- A call of `submit` comes from the branch under a grant that passes its test.
authorized_shape :
    (R : Grant → Type 0) (Q : Grant → Process → Type 0) (faulted valid : Bool) (o : Option Grant)
    (t : Grant → Bool) (next : Grant → (Bool × Done Receipt) × Process)
    (a b c e : Done Receipt × Process)
    → ((g : Grant) → (next g).0.0 ≡ true → R g × Q g (next g).1)
    → let whole =
        if faulted
        then ((false, a.0), a.1)
        else if valid
        then (on_some o ((false, b.0), b.1) λ g. if t g then next g else ((false, c.0), c.1))
        else ((false, e.0), e.1) in
      whole.0.0 ≡ true
      → (faulted ≡ false)
        × (valid ≡ true)
        × (g : Grant) × (o ≡ some g)
        × (t g ≡ true)
        × R g
        × Q g whole.1
authorized_shape R Q true valid o t next a b c e k h = absurd (cc)
authorized_shape R Q false false o t next a b c e k h = absurd (cc)
authorized_shape R Q false true none t next a b c e k h = absurd (cc)
authorized_shape R Q false true (some g) t next a b c e k h =
    let (passes, rest, after) =
      tested (Q g) (t g) (next g) ((false, c.0), c.1) (R g) refl (k g) h in
    (refl, refl, g, refl, passes, rest, after)

may_instruct :
    (revision : String) (g : Grant)
    → is_authorized revision g ≡ true
    → (g.revoked_at ≡ none) × (includes "lead.instruct" g.actions ≡ true) × (g.revision ≡ revision)
unfolding is_authorized
may_instruct revision g h = ground (arith, h, eq_iff g.revision revision)

is_instruction_lem :
    (x : Instruction)
    → is_instruction x ≡ true
    → (x.action ≡ "lead.instruct")
      × (valid_id x.revision ≡ true)
      × (is_guid x.idempotency_key ≡ true)
      × (is_hash x.payload_hash ≡ true)
unfolding is_instruction
is_instruction_lem x h = ground (arith, h, eq_iff x.action "lead.instruct")

-- `submit` is called only in a store that has not failed, for a valid identity and an instruction to
-- the lead whose revision, idempotency key and hash have their forms, and under a grant of the identity
-- that is not revoked, allows instructions, and has the revision that the instruction names. Before,
-- the store holds no delivery under the key, or a pending one of the same text and revision: what was
-- accepted is not submitted again. Afterwards, whatever the answer and whatever becomes of the writes,
-- the store holds a delivery of this text and revision under the key.
pub submit_is_authorized :
    (os : Platform) (i : Identity) (x : Instruction) (c : Commit) (p : Process)
    → (with_authorized_lead_commit os i x c p).0.0 ≡ true
    → let key = delivery_key os i x.idempotency_key in
      (p.faulted ≡ false)
      × (is_identity i ≡ true)
      × ((x.action ≡ "lead.instruct")
          × (valid_id x.revision ≡ true)
          × (is_guid x.idempotency_key ≡ true)
          × (is_hash x.payload_hash ≡ true))
      × ((g : Grant) × (lookup (identity_key os i) p.state.grants ≡ some g)
          × (g.revoked_at ≡ none)
          × (includes "lead.instruct" g.actions ≡ true)
          × (g.revision ≡ x.revision))
      × IsOpen key x.payload_hash x.revision p
      × IsOnRecord key x.payload_hash x.revision (with_authorized_lead_commit os i x c p).1
unfolding with_authorized_lead_commit commit_under
submit_is_authorized os i x c p h =
    let key = delivery_key os i x.idempotency_key in
    let (working, valid, g, found, authorized, is_open, on_record) =
      authorized_shape (λ g. IsOpen key x.payload_hash g.revision p)
        (λ g q. IsOnRecord key x.payload_hash g.revision q) p.faulted
        (is_identity i && is_instruction x) (lookup (identity_key os i) p.state.grants)
        (is_authorized x.revision) _ (_, _) (_, _) (_, _) (_, _) (submission_records os i x key c p)
        h in
    let (good, instruction) = both (is_identity i) (is_instruction x) valid in
    let (current, allows, same) = may_instruct x.revision g authorized in
    (
      working,
      good,
      is_instruction_lem x instruction,
      (g, found, current, allows, same),
      subst (λ r. IsOpen key x.payload_hash r p) same is_open,
      subst (λ r. IsOnRecord key x.payload_hash r (with_authorized_lead_commit os i x c p).1) same
          on_record,
    )

repeated :
    (os : Platform) (i : Identity) (x : Instruction) (c : Commit) (q : Process) (g : Grant)
    (r : Receipt)
    → (is_identity i && is_instruction x) ≡ true
    → lookup (identity_key os i) q.state.grants ≡ some g
    → is_authorized x.revision g ≡ true
    → IsSettled (delivery_key os i x.idempotency_key) x g r q
    → with_authorized_lead_commit os i x c q ≡ ((false, done (record r { duplicate = true })), q)
unfolding with_authorized_lead_commit commit_under continue_delivery IsSettled
repeated os i x c q g r valid found authorized
      (d, at_key, payload, revision, is_accepted, receipt, working) =
    ground (
      arith,
      valid,
      found,
      authorized,
      at_key,
      payload,
      revision,
      is_accepted,
      receipt,
      working,
      eq_refl x.payload_hash,
      eq_refl g.revision,
    )

-- A commit that has succeeded, sent again at once with the same instruction, gives the same receipt,
-- marked as a duplicate; it does not call `submit`, and it leaves the process as it is.
pub commit_again_is_duplicate :
    (os : Platform) (i : Identity) (x : Instruction) (c again : Commit) (p : Process) (r : Receipt)
    → (with_authorized_lead_commit os i x c p).0.1 ≡ done r
    → with_authorized_lead_commit os i x again (with_authorized_lead_commit os i x c p).1
      ≡ ((false, done (record r { duplicate = true })), (with_authorized_lead_commit os i x c p).1)
commit_again_is_duplicate os i x c again p r h =
    let (working, valid, g, found, authorized, whole) = commit_succeeded os i x c p r h in
    let key = delivery_key os i x.idempotency_key in
    repeated os i x again (with_authorized_lead_commit os i x c p).1 g r valid
      (ap (lookup (identity_key os i)) (commit_keeps os i x c p) ∙ found) authorized
      (subst (λ e. e.0.1 ≡ done r → IsSettled key x g r e.1) (sym whole)
        (under_settles os i x key c p g r working) h)
