-- ===== src/Deepharness/Grants/Submissions.antt =====
-- What the store holds about a delivery when `submit` is called for it, and afterwards.
use remote_ops_mcp.Prelude.{
  String, ◌≡◌, ◌⊎◌, inl, inr, refl, Bool, true, false, not, ◌||◌, Option, none, some, ◌==◌, leb,
  arith, length, if◌then◌else◌, eq_iff,
}
use remote_ops_mcp.Dict.{lookup, insert, lookup-insert_self}
use remote_ops_mcp.Deepharness.Model.{
  Identity, Grant, Status, pending, accepted, Delivery, Persisted, written, kept,
  replaced_and_failed, Process, Platform, max_deliveries, identity_key, Done, save, is_written,
}
use remote_ops_mcp.Deepharness.Grants.Shapes.{if_keeps, on_some_keeps, on_submitted_keeps}
use remote_ops_mcp.Deepharness.Grants.{
  on_some, new_delivery, is_accepted, is_authorized, Instruction, Receipt, Commit, submit_delivery,
  start_delivery, continue_delivery,
}

-- The store holds a delivery of the text with this hash, under this revision of a grant.
abbrev pub IsOnRecord : String → String → String → Process → Type 0
IsOnRecord key payload revision q =
    (d : Delivery) × (lookup key q.state.deliveries ≡ some d)
    × (d.payload_hash ≡ payload)
    × (d.grant_revision ≡ revision)

-- The store holds no delivery under the key, or one of this text and this revision that is pending.
abbrev pub IsOpen : String → String → String → Process → Type 0
IsOpen key payload revision p =
    (lookup key p.state.deliveries ≡ none)
    ⊎ ((d : Delivery) × (lookup key p.state.deliveries ≡ some d)
        × (d.status ≡ pending)
        × (d.payload_hash ≡ payload)
        × (d.grant_revision ≡ revision))

save_records :
    (key payload revision : String) (d : Delivery) (how : Persisted) (p : Process)
    → d.payload_hash ≡ payload
    → d.grant_revision ≡ revision
    → IsOnRecord key payload revision p
    → IsOnRecord key payload revision
        (save (record p.state { deliveries = insert key d p.state.deliveries }) how p)
unfolding save
save_records key payload revision d written p a b h =
    (d, lookup-insert_self key d p.state.deliveries, a, b)
save_records key payload revision d kept p a b h = h
save_records key payload revision d replaced_and_failed p a b h = h

submit_records :
    (os : Platform) (i : Identity) (key payload : String) (g : Grant) (d : Delivery) (c : Commit)
    (p : Process)
    → d.payload_hash ≡ payload
    → d.grant_revision ≡ g.revision
    → IsOnRecord key payload g.revision p
    → IsOnRecord key payload g.revision (submit_delivery os i key g d c p).1
unfolding submit_delivery
submit_records os i key payload g d c p a b h =
    let On = IsOnRecord key payload g.revision in
    on_submitted_keeps On c.submitted _ _ _ h h (
      on_some_keeps On (lookup (identity_key os i) p.state.grants) _ _ h λ current.
        if_keeps On (is_authorized g.revision current) _ _
          (save_records key payload g.revision
            (record d { status = accepted; accepted_at = some c.accepted_at }) c.second_write p a b
            h)
          h)

-- Where only `y` has called `submit`, what holds after `y` holds after a call.
started :
    (Q : Process → Type 0) (full saved : Bool) (x y z : (Bool × Done Receipt) × Process)
    → x.0.0 ≡ false
    → z.0.0 ≡ false
    → (saved ≡ true → Q y.1)
    → (if full then x else if saved then y else z).0.0 ≡ true
    → Q (if full then x else if saved then y else z).1
started Q true saved x y z a b k h = absurd (ground (arith, a, h))
started Q false true x y z a b k h = k refl
started Q false false x y z a b k h = absurd (ground (arith, b, h))

continued :
    (Q : Process → Type 0) (conflict again : Bool) (x y z : (Bool × Done Receipt) × Process)
    → x.0.0 ≡ false
    → y.0.0 ≡ false
    → (conflict ≡ false → again ≡ false → Q z.1)
    → (if conflict then x else if again then y else z).0.0 ≡ true
    → (conflict ≡ false) × (again ≡ false) × Q (if conflict then x else if again then y else z).1
continued Q true again x y z a b k h = absurd (ground (arith, a, h))
continued Q false true x y z a b k h = absurd (ground (arith, b, h))
continued Q false false x y z a b k h = (refl, refl, k refl refl)

saved_record :
    (key : String) (d : Delivery) (how : Persisted) (p : Process)
    → is_written how ≡ true
    → IsOnRecord key d.payload_hash d.grant_revision
        (save (record p.state { deliveries = insert key d p.state.deliveries }) how p)
unfolding save
saved_record key d written p e = (d, lookup-insert_self key d p.state.deliveries, refl, refl)
saved_record key d kept p e = absurd (cc)
saved_record key d replaced_and_failed p e = absurd (cc)

start_records :
    (os : Platform) (i : Identity) (x : Instruction) (key : String) (g : Grant) (c : Commit)
    (p : Process)
    → (start_delivery os i x key g c p).0.0 ≡ true
    → IsOnRecord key x.payload_hash g.revision (start_delivery os i x key g c p).1
unfolding start_delivery
start_records os i x key g c p h =
    let d = new_delivery i x g c in
    started (IsOnRecord key x.payload_hash g.revision)
      (leb max_deliveries (length p.state.deliveries)) (is_written c.first_write) (_, _) (_, _)
      (_, _) refl refl
      (λ saved.
        submit_records os i key x.payload_hash g d c _ refl refl
          (saved_record key d c.first_write p saved))
      h

no_conflict :
    (a b c d : String) (s : Status)
    → (not (a == b) || not (c == d)) ≡ false
    → is_accepted s ≡ false
    → (a ≡ b) × (c ≡ d) × (s ≡ pending)
no_conflict a b c d pending h k = ground (arith, h, eq_iff a b, eq_iff c d)
no_conflict a b c d accepted h k = absurd (cc)

continue_records :
    (os : Platform) (i : Identity) (x : Instruction) (key : String) (g : Grant) (c : Commit)
    (d : Delivery) (p : Process)
    → lookup key p.state.deliveries ≡ some d
    → (continue_delivery os i x key g c d p).0.0 ≡ true
    → IsOpen key x.payload_hash g.revision p
      × IsOnRecord key x.payload_hash g.revision (continue_delivery os i x key g c d p).1
unfolding continue_delivery
continue_records os i x key g c d p found h =
    let (agrees, is_open, on_record) =
      continued (IsOnRecord key x.payload_hash g.revision)
        (not (d.payload_hash == x.payload_hash) || not (d.grant_revision == g.revision))
        (is_accepted d.status) (_, _) (_, _) (_, _) refl refl
        (λ a b.
          let (payload, revision, waits) = no_conflict _ _ _ _ d.status a b in
          submit_records os i key x.payload_hash g d c p payload revision
            (d, found, payload, revision))
        h in
    let (payload, revision, waits) = no_conflict _ _ _ _ d.status agrees is_open in
    (inr (d, found, waits, payload, revision), on_record)

found_or_not :
    (Q : Process → Type 0) (R : Type 0) (o : Option Delivery) (x : (Bool × Done Receipt) × Process)
    (next : Delivery → (Bool × Done Receipt) × Process)
    → (o ≡ none → x.0.0 ≡ true → R × Q x.1)
    → ((d : Delivery) → o ≡ some d → (next d).0.0 ≡ true → R × Q (next d).1)
    → (on_some o x next).0.0 ≡ true
    → R × Q (on_some o x next).1
found_or_not Q R none x next a b h = a refl h
found_or_not Q R (some d) x next a b h = b d refl h

-- A commit under a grant that calls `submit` finds the delivery open, and leaves it on record.
pub submission_records :
    (os : Platform) (i : Identity) (x : Instruction) (key : String) (c : Commit) (p : Process)
    (g : Grant)
    → let e =
        on_some
          (lookup key p.state.deliveries)
          (start_delivery os i x key g c p)
          (λ d. continue_delivery os i x key g c d p) in
      e.0.0 ≡ true
      → IsOpen key x.payload_hash g.revision p × IsOnRecord key x.payload_hash g.revision e.1
submission_records os i x key c p g h =
    found_or_not (IsOnRecord key x.payload_hash g.revision) (IsOpen key x.payload_hash g.revision p)
      (lookup key p.state.deliveries) _ _
      (λ absent called. (inl absent, start_records os i x key g c p called))
      (λ d found called. continue_records os i x key g c d p found called) h
