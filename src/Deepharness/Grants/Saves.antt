-- ===== src/Deepharness/Grants/Saves.antt =====
-- A write keeps a store that passes the tests of `normalize`, and a state that passes them loads from a
-- file that is not too long.
use remote_ops_mcp.Prelude.{
  ℕ, ◌≤◌, String, ◌≡◌, refl, Bool, true, false, not, ◌&&◌, Option, none, some, leb, arith, length,
  if◌then◌else◌, Option-cases, inl, inr, is_some,
}
use remote_ops_mcp.Dict.{Dict, lookup, insert, lookup-insert_self}
use remote_ops_mcp.Dict.Keys.{length-insert}
use remote_ops_mcp.Deepharness.Model.{
  Grant, Delivery, State, Persisted, written, kept, replaced_and_failed, Process, max_grants,
  max_deliveries, Platform, max_file_bytes, is_normal_grant, is_normal_delivery, all_entries,
  is_normal, holds, load_file, save, is_written,
}
use remote_ops_mcp.Deepharness.Grants.{on_some}
use remote_ops_mcp.Deepharness.Grants.Entries.{all_entries-insert, four_parts, four_true}

-- Both the state and the file pass the tests of `normalize`.
abbrev pub IsNormal : Process → Type 0
IsNormal p = (is_normal p.state ≡ true) × (is_normal p.file ≡ true)

pub save-IsNormal :
    (next : State) (how : Persisted) (p : Process)
    → is_normal next ≡ true
    → IsNormal p
    → IsNormal (save next how p)
unfolding save
save-IsNormal next written p good h = (good, good)
save-IsNormal next kept p good h = h
save-IsNormal next replaced_and_failed p good h = (h.0, good)

insert_fits :
    {V : Type 0} (max : ℕ) (k : String) (v : V) (d : Dict V)
    → leb (length d) max ≡ true
    → (not (is_some (lookup k d)) && leb max (length d)) ≡ false
    → leb (length (insert k v d)) max ≡ true
insert_fits max k v d h room = elim (Option-cases (lookup k d)) [
  | inl e ↦ ground (arith, e, h, room, length-insert k v d)
  | inr (w, e) ↦ ground (arith, e, h, room, length-insert k v d)
]

pub with_grants :
    (k : String) (g : Grant) (grants : Dict Grant) (deliveries : Dict Delivery)
    → is_normal (record { grants = grants; deliveries = deliveries }) ≡ true
    → is_normal_grant k g ≡ true
    → (not (is_some (lookup k grants)) && leb max_grants (length grants)) ≡ false
    → is_normal (record { grants = insert k g grants; deliveries = deliveries }) ≡ true
unfolding is_normal
with_grants k g grants deliveries h new room =
    let parts =
      four_parts (leb (length grants) max_grants) (leb (length deliveries) max_deliveries)
        (all_entries is_normal_grant grants) (all_entries is_normal_delivery deliveries) h in
    four_true _ _ _ _ (insert_fits max_grants k g grants parts.0 room) parts.1
      (all_entries-insert is_normal_grant k g grants parts.2 new) parts.3

pub with_deliveries :
    (k : String) (d : Delivery) (grants : Dict Grant) (deliveries : Dict Delivery)
    → is_normal (record { grants = grants; deliveries = deliveries }) ≡ true
    → is_normal_delivery k d ≡ true
    → (not (is_some (lookup k deliveries)) && leb max_deliveries (length deliveries)) ≡ false
    → is_normal (record { grants = grants; deliveries = insert k d deliveries }) ≡ true
unfolding is_normal
with_deliveries k d grants deliveries h new room =
    let parts =
      four_parts (leb (length grants) max_grants) (leb (length deliveries) max_deliveries)
        (all_entries is_normal_grant grants) (all_entries is_normal_delivery deliveries) h in
    four_true _ _ _ _ parts.0 (insert_fits max_deliveries k d deliveries parts.1 room) parts.2
      (all_entries-insert is_normal_delivery k d deliveries parts.3 new)

pub if_keeps_given :
    {A : Type 0} (b : Bool) (x y : A × Process)
    → (b ≡ true → IsNormal x.1)
    → (b ≡ false → IsNormal y.1)
    → IsNormal (if b then x else y).1
if_keeps_given true x y h k = h refl
if_keeps_given false x y h k = k refl

pub found_keeps :
    {A B : Type 0} (o : Option B) (x : A × Process) (next : B → A × Process)
    → IsNormal x.1
    → ((b : B) → o ≡ some b → IsNormal (next b).1)
    → IsNormal (on_some o x next).1
found_keeps none x next h k = h
found_keeps (some b) x next h k = k b refl

pub grants_of_normal :
    (st : State) → is_normal st ≡ true → all_entries is_normal_grant st.grants ≡ true
unfolding is_normal
grants_of_normal st h =
    (four_parts (leb (length st.grants) max_grants) (leb (length st.deliveries) max_deliveries)
      (all_entries is_normal_grant st.grants) (all_entries is_normal_delivery st.deliveries) h).2

pub deliveries_of_normal :
    (st : State) → is_normal st ≡ true → all_entries is_normal_delivery st.deliveries ≡ true
unfolding is_normal
deliveries_of_normal st h =
    (four_parts (leb (length st.grants) max_grants) (leb (length st.deliveries) max_deliveries)
      (all_entries is_normal_grant st.grants) (all_entries is_normal_delivery st.deliveries) h).3

pub saved_at_key :
    (key : String) (d : Delivery) (how : Persisted) (p : Process)
    → is_written how ≡ true
    → lookup key
        (save
          (record p.state { deliveries = insert key d p.state.deliveries })
          how
          p).state.deliveries
      ≡ some d
unfolding save
saved_at_key key d written p h = lookup-insert_self key d p.state.deliveries
saved_at_key key d kept p h = absurd (cc)
saved_at_key key d replaced_and_failed p h = absurd (cc)

pub already_there :
    {V : Type 0} (max : ℕ) (k : String) (v : V) (d : Dict V)
    → lookup k d ≡ some v
    → (not (is_some (lookup k d)) && leb max (length d)) ≡ false
already_there max k v d h = ground (arith, h)

pub loads :
    (os : Platform) (st : State) (how : Persisted)
    → os.file_size st ≤ max_file_bytes
    → is_normal st ≡ true
    → load_file os (holds st) how ≡ some (record { state = st; file = st; faulted = false })
unfolding load_file
loads os st how short h = ground (arith, short, h)
