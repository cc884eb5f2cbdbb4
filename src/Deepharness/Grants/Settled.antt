-- ===== src/Deepharness/Grants/Settled.antt =====
-- What a commit goes through when it succeeds.
use mathlib.Core.Path.{subst}
use remote_ops_mcp.Prelude.{
  String, ◌≡◌, refl, sym, ap, ◌∙◌, Bool, true, false, not, ◌&&◌, ◌||◌, Option, none, some, ◌==◌,
  leb, arith, length, if◌then◌else◌, eq_iff,
}
use remote_ops_mcp.Dict.{lookup, lookup-insert_self}
use remote_ops_mcp.Deepharness.Model.{
  Identity, Grant, Status, pending, accepted, Delivery, State, Persisted, written, kept,
  replaced_and_failed, Process, Platform, max_deliveries, is_identity, identity_key, delivery_key,
  Done, done, denied, write_failed, save, is_written,
}
use remote_ops_mcp.Deepharness.Grants.{
  on_some, on_submitted, save_then, is_instruction, is_accepted, is_authorized, Instruction,
  Receipt, Commit, Submitted, threw, not_accepted, acknowledged, new_delivery, submit_delivery,
  start_delivery, continue_delivery, commit_under, with_authorized_lead_commit,
}

-- A submission that succeeds has saved what it was to save.
saved_shape :
    (b : Bool) (how : Persisted) (next : State) (v r : Receipt) (p : Process)
    → (if b then save_then next how v p else (denied "grant_denied", p)).0 ≡ done r
    → (r ≡ v)
      × ((if b then save_then next how v p else (denied "grant_denied", p)).1
          ≡ record { state = next; file = next; faulted = p.faulted })
unfolding save
saved_shape false how next v r p h = absurd (cc)
saved_shape true written next v r p h = (ground (arith, h), refl)
saved_shape true kept next v r p h = absurd (cc)
saved_shape true replaced_and_failed next v r p h = absurd (cc)

submit_shape :
    (s : Submitted) (o : Option Grant) (t : Grant → Bool) (how : Persisted) (next : State)
    (v r : Receipt) (p : Process)
    → (let e : Done Receipt × Process =
          on_submitted s
            (denied "submit_failed", p)
            (denied "dsh_prompt_not_accepted", p)
            (on_some o
              (denied "grant_denied", p)
              λ g. if t g then save_then next how v p else (denied "grant_denied", p)) in
        e.0 ≡ done r → (r ≡ v) × (e.1 ≡ record { state = next; file = next; faulted = p.faulted }))
unfolding save
submit_shape threw o t how next v r p h = absurd (cc)
submit_shape not_accepted o t how next v r p h = absurd (cc)
submit_shape acknowledged none t how next v r p h = absurd (cc)
submit_shape acknowledged (some g) t how next v r p h = saved_shape (t g) how next v r p h

-- The delivery of the instruction is accepted in the process, with the receipt.
unfoldable pub IsSettled : String → Instruction → Grant → Receipt → Process → Type 0
IsSettled key x g r q =
    (d : Delivery) × (lookup key q.state.deliveries ≡ some d)
    × (d.payload_hash ≡ x.payload_hash)
    × (d.grant_revision ≡ g.revision)
    × (d.status ≡ accepted)
    × (r ≡ record {
      grant_revision = g.revision;
      receipt_id = d.receipt_id;
      duplicate = r.duplicate;
    })
    × (q.faulted ≡ false)

submit_settles :
    (os : Platform) (i : Identity) (x : Instruction) (key : String) (g : Grant) (d : Delivery)
    (c : Commit) (p : Process) (r : Receipt)
    → p.faulted ≡ false
    → d.payload_hash ≡ x.payload_hash
    → d.grant_revision ≡ g.revision
    → (submit_delivery os i key g d c p).0 ≡ done r
    → IsSettled key x g r (submit_delivery os i key g d c p).1
unfolding submit_delivery IsSettled
submit_settles os i x key g d c p r working same_payload same_grant h =
    let (is_receipt, after) =
      submit_shape c.submitted (lookup (identity_key os i) p.state.grants)
        (is_authorized g.revision) c.second_write _ _ r p h in
    subst (IsSettled key x g r) (sym after) (
      record d { status = accepted; accepted_at = some c.accepted_at },
      lookup-insert_self key _ p.state.deliveries,
      same_payload,
      same_grant,
      refl,
      is_receipt
          ∙ ap
              (λ b. record {
                grant_revision = g.revision;
                receipt_id = d.receipt_id;
                duplicate = b;
              })
              (sym (ap (λ y. y.duplicate) is_receipt)),
      working,
    )

-- What a commit that succeeds went through.
done_shape :
    (faulted valid : Bool) (o : Option Grant) (next : Grant → (Bool × Done Receipt) × Process)
    (p : Process) (r : Receipt)
    → (let e : (Bool × Done Receipt) × Process =
          if faulted
          then ((false, denied "grant_store_unavailable"), p)
          else if valid
          then on_some o ((false, denied "grant_denied"), p) next
          else ((false, denied "grant_denied"), p) in
        e.0.1 ≡ done r
        → (faulted ≡ false)
          × (valid ≡ true)
          × (g : Grant) × (o ≡ some g)
          × ((next g).0.1 ≡ done r)
          × (e ≡ next g))
done_shape true valid o next p r h = absurd (cc)
done_shape false false o next p r h = absurd (cc)
done_shape false true none next p r h = absurd (cc)
done_shape false true (some g) next p r h = (refl, refl, g, refl, h, refl)

allowed_shape :
    (b : Bool) (e : (Bool × Done Receipt) × Process) (p : Process) (r : Receipt)
    → (if b then e else ((false, denied "grant_denied"), p)).0.1 ≡ done r
    → b ≡ true
allowed_shape true e p r h = refl
allowed_shape false e p r h = absurd (cc)

under_authorized :
    (os : Platform) (i : Identity) (x : Instruction) (key : String) (c : Commit) (p : Process)
    (g : Grant) (r : Receipt)
    → (commit_under os i x key c p g).0.1 ≡ done r
    → is_authorized x.revision g ≡ true
unfolding commit_under
under_authorized os i x key c p g r h = allowed_shape (is_authorized x.revision g) _ p r h

start_shape :
    (full saved : Bool) (p q : Process) (s : Done Receipt × Process) (r : Receipt)
    (Q : Process → Type 0)
    → (saved ≡ true → s.0 ≡ done r → Q s.1)
    → (let e : (Bool × Done Receipt) × Process =
          if full
          then ((false, denied "delivery_store_full"), p)
          else if saved
          then ((true, s.0), s.1)
          else ((false, write_failed), q) in
        e.0.1 ≡ done r → Q e.1)
start_shape true saved p q s r Q k h = absurd (cc)
start_shape false true p q s r Q k h = k refl h
start_shape false false p q s r Q k h = absurd (cc)

continue_shape :
    (conflict again : Bool) (p : Process) (dup r : Receipt) (s : Done Receipt × Process)
    (Q : Process → Type 0)
    → (conflict ≡ false → again ≡ true → dup ≡ r → Q p)
    → (conflict ≡ false → s.0 ≡ done r → Q s.1)
    → (let e : (Bool × Done Receipt) × Process =
          if conflict
          then ((false, denied "idempotency_conflict"), p)
          else if again
          then ((false, done dup), p)
          else ((true, s.0), s.1) in
        e.0.1 ≡ done r → Q e.1)
continue_shape true again p dup r s Q k l h = absurd (cc)
continue_shape false true p dup r s Q k l h = k refl refl cc
continue_shape false false p dup r s Q k l h = l refl h

save_working :
    (next : State) (how : Persisted) (p : Process)
    → is_written how ≡ true
    → (save next how p).faulted ≡ p.faulted
unfolding save
save_working next written p h = refl
save_working next kept p h = absurd (cc)
save_working next replaced_and_failed p h = absurd (cc)

accepted_status : (s : Status) → is_accepted s ≡ true → s ≡ accepted
accepted_status pending h = absurd (cc)
accepted_status accepted h = refl

start_settles :
    (os : Platform) (i : Identity) (x : Instruction) (key : String) (g : Grant) (c : Commit)
    (p : Process) (r : Receipt)
    → p.faulted ≡ false
    → (start_delivery os i x key g c p).0.1 ≡ done r
    → IsSettled key x g r (start_delivery os i x key g c p).1
unfolding start_delivery
start_settles os i x key g c p r working h =
    start_shape (leb max_deliveries (length p.state.deliveries)) (is_written c.first_write) p _
      (submit_delivery os i key g (new_delivery i x g c) c _) r (IsSettled key x g r)
      (λ saved done_now.
        submit_settles os i x key g (new_delivery i x g c) c _ r
          (save_working _ c.first_write p saved ∙ working) refl refl done_now)
      h

continue_settles :
    (os : Platform) (i : Identity) (x : Instruction) (key : String) (g : Grant) (c : Commit)
    (d : Delivery) (p : Process) (r : Receipt)
    → p.faulted ≡ false
    → lookup key p.state.deliveries ≡ some d
    → (continue_delivery os i x key g c d p).0.1 ≡ done r
    → IsSettled key x g r (continue_delivery os i x key g c d p).1
unfolding continue_delivery IsSettled
continue_settles os i x key g c d p r working at_key h =
    continue_shape (not (d.payload_hash == x.payload_hash) || not (d.grant_revision == g.revision))
      (is_accepted d.status) p _ r (submit_delivery os i key g d c p) (IsSettled key x g r)
      (λ agrees again same. (
        d,
        at_key,
        (eq_iff d.payload_hash x.payload_hash).0 (ground (arith, agrees)),
        (eq_iff d.grant_revision g.revision).0 (ground (arith, agrees)),
        accepted_status d.status again,
        sym same
            ∙ ap
                (λ b. record {
                  grant_revision = g.revision;
                  receipt_id = d.receipt_id;
                  duplicate = b;
                })
                (ap (λ y. y.duplicate) same),
        working,
      ))
      (λ agrees done_now.
        submit_settles os i x key g d c p r working
          ((eq_iff d.payload_hash x.payload_hash).0 (ground (arith, agrees)))
          ((eq_iff d.grant_revision g.revision).0 (ground (arith, agrees))) done_now)
      h

under_shape :
    (authorized : Bool) (o : Option Delivery) (a : (Bool × Done Receipt) × Process)
    (k : Delivery → (Bool × Done Receipt) × Process) (p : Process) (r : Receipt)
    (Q : Process → Type 0)
    → (a.0.1 ≡ done r → Q a.1)
    → ((d : Delivery) → o ≡ some d → (k d).0.1 ≡ done r → Q (k d).1)
    → (let e : (Bool × Done Receipt) × Process =
          if authorized then on_some o a k else ((false, denied "grant_denied"), p) in
        e.0.1 ≡ done r → Q e.1)
under_shape false o a k p r Q new old h = absurd (cc)
under_shape true none a k p r Q new old h = new h
under_shape true (some d) a k p r Q new old h = old d refl h

pub under_settles :
    (os : Platform) (i : Identity) (x : Instruction) (key : String) (c : Commit) (p : Process)
    (g : Grant) (r : Receipt)
    → p.faulted ≡ false
    → (commit_under os i x key c p g).0.1 ≡ done r
    → IsSettled key x g r (commit_under os i x key c p g).1
unfolding commit_under
under_settles os i x key c p g r working h =
    under_shape (is_authorized x.revision g) (lookup key p.state.deliveries) _ _ p r
      (IsSettled key x g r) (start_settles os i x key g c p r working)
      (λ d at_key. continue_settles os i x key g c d p r working at_key) h

pub commit_succeeded :
    (os : Platform) (i : Identity) (x : Instruction) (c : Commit) (p : Process) (r : Receipt)
    → (with_authorized_lead_commit os i x c p).0.1 ≡ done r
    → (p.faulted ≡ false)
      × ((is_identity i && is_instruction x) ≡ true)
      × (g : Grant) × (lookup (identity_key os i) p.state.grants ≡ some g)
      × (is_authorized x.revision g ≡ true)
      × (with_authorized_lead_commit os i x c p
          ≡ commit_under os i x (delivery_key os i x.idempotency_key) c p g)
unfolding with_authorized_lead_commit
commit_succeeded os i x c p r h =
    let key = delivery_key os i x.idempotency_key in
    let (working, valid, g, found, again, whole) =
      done_shape p.faulted (is_identity i && is_instruction x)
        (lookup (identity_key os i) p.state.grants) (commit_under os i x key c p) p r h in
    (working, valid, g, found, under_authorized os i x key c p g r again, whole)
