-- ===== src/Deepharness/Grants/Entries.antt =====
-- Lemmas for the tests of the file: a test of all entries, sorted actions, and chains of `&&`.
use remote_ops_mcp.Prelude.{
  String, ◌≢◌, ◌≡◌, refl, Bool, true, false, ◌&&◌, ◌||◌, some, List, [], ◌∷◌, arith, if◌then◌else◌,
  eq_iff, includes, any, all, filter,
}
use remote_ops_mcp.Dict.{Dict, lookup, insert}
use remote_ops_mcp.Deepharness.Model.{
  has_duplicate, is_unset, are_actions, actions_known, all_entries,
}
use remote_ops_mcp.Deepharness.Grants.{sort_actions}

module _ {V : Type 0} (p : String → V → Bool) where
  pub all_entries-insert :
      (k : String) (v : V) (d : Dict V)
      → all_entries p d ≡ true
      → p k v ≡ true
      → all_entries p (insert k v d) ≡ true
  unfolding all_entries insert
  all_entries-insert k v [] h new = ground (arith, new)
  all_entries-insert k v ((j, w) ∷ d) h new =
      ground (arith, h, new, eq_iff j k, all_entries-insert k v d)

  pub all_entries-lookup :
      (k : String) (v : V) (d : Dict V)
      → all_entries p d ≡ true
      → lookup k d ≡ some v
      → p k v ≡ true
  unfolding all_entries lookup
  all_entries-lookup k v [] h found = absurd (cc)
  all_entries-lookup k v ((j, w) ∷ d) h found =
      ground (arith, h, found, eq_iff j k, all_entries-lookup k v d)

sorted_shape :
    (a b c : Bool)
    → (a || (b || c)) ≡ true
    → are_actions (
        if a
        then "chat.read"
          ∷ (if b
              then "lead.instruct" ∷ (if c then "team.read" ∷ [] else [])
              else (if c then "team.read" ∷ [] else []))
        else (if b
            then "lead.instruct" ∷ (if c then "team.read" ∷ [] else [])
            else (if c then "team.read" ∷ [] else [])))
      ≡ true
unfolding are_actions is_unset all includes any has_duplicate
sorted_shape true true true h = refl
sorted_shape true true false h = refl
sorted_shape true false true h = refl
sorted_shape true false false h = refl
sorted_shape false true true h = refl
sorted_shape false true false h = refl
sorted_shape false false true h = refl
sorted_shape false false false h = absurd (cc)

known_head :
    (x : String) (xs : List String)
    → includes x actions_known ≡ true
    → (includes "chat.read" (x ∷ xs)
        || (includes "lead.instruct" (x ∷ xs) || includes "team.read" (x ∷ xs)))
      ≡ true
unfolding includes any
known_head x xs h = ground (
  arith,
  h,
  eq_iff "chat.read" x,
  eq_iff "lead.instruct" x,
  eq_iff "team.read" x,
  eq_iff x "chat.read",
  eq_iff x "lead.instruct",
  eq_iff x "team.read",
)

head_known :
    (x : String) (xs : List String) → are_actions (x ∷ xs) ≡ true → includes x actions_known ≡ true
unfolding are_actions all
head_known x xs h = ground (arith, h)

not_empty : are_actions [] ≢ true
unfolding are_actions is_unset
not_empty h = cc

pub sort_actions-are_actions :
    (actions : List String) → are_actions actions ≡ true → are_actions (sort_actions actions) ≡ true
unfolding sort_actions filter
sort_actions-are_actions [] h = absurd (not_empty h)
sort_actions-are_actions (x ∷ xs) h = sorted_shape _ _ _ (known_head x xs (head_known x xs h))

pub four_parts :
    (a b c d : Bool)
    → ((a && b) && (c && d)) ≡ true
    → (a ≡ true) × (b ≡ true) × (c ≡ true) × (d ≡ true)
four_parts a b c d h = ground (arith, h)

pub four_true :
    (a b c d : Bool) → a ≡ true → b ≡ true → c ≡ true → d ≡ true → ((a && b) && (c && d)) ≡ true
four_true a b c d h k l m = ground (arith, h, k, l, m)

pub six_parts :
    (a b c d e f : Bool)
    → ((a && b) && ((c && d) && (e && f))) ≡ true
    → (a ≡ true) × (b ≡ true) × (c ≡ true) × (d ≡ true) × (e ≡ true) × (f ≡ true)
six_parts a b c d e f h = ground (arith, h)

pub six_true :
    (a b c d e f : Bool)
    → a ≡ true
    → b ≡ true
    → c ≡ true
    → d ≡ true
    → e ≡ true
    → f ≡ true
    → ((a && b) && ((c && d) && (e && f))) ≡ true
six_true a b c d e f h k l m n o = ground (arith, h, k, l, m, n, o)

pub two_parts : (a b : Bool) → (a && b) ≡ true → (a ≡ true) × (b ≡ true)
two_parts a b h = ground (arith, h)

pub last_true :
    (a b c d e : Bool) → (a && (b && (c && d))) ≡ true → e ≡ true → (a && (b && (c && e))) ≡ true
last_true a b c d e h k = ground (arith, h, k)

pub and_false : (a b : Bool) → b ≡ false → (a && b) ≡ false
and_false a b h = ground (arith, h)

pub three_parts : (a b c : Bool) → (a && (b && c)) ≡ true → (a ≡ true) × (b ≡ true) × (c ≡ true)
three_parts a b c h = ground (arith, h)
