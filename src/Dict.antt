-- ===== src/Dict.antt =====
-- A JavaScript record or `Map` with string keys: its entries in insertion order. A record holds a
-- key once (`Unique`); names that objects inherit, such as "constructor", are no keys here.
pub mod Keys
pub mod Index
use remote_ops_mcp.Prelude.{
  String, ◌≡◌, refl, Bool, false, ◌||◌, Option, none, some, List, [], ◌∷◌, arith, ◌==◌, eq_iff,
  eq_refl, if◌then◌else◌,
}

abbrev pub Dict {ℓ} : Type ℓ → Type ℓ
Dict V = List (String × V)

module _ {ℓ} {V : Type ℓ} where
  -- d[k]
  unfoldable pub lookup : String → Dict V → Option V
  lookup k [] = none
  lookup k ((j, v) ∷ d) = if j == k then some v else lookup k d

  -- d[k] = v: a new key goes to the end, an old one keeps its place.
  unfoldable pub insert : String → V → Dict V → Dict V
  insert k v [] = (k, v) ∷ []
  insert k v ((j, w) ∷ d) = if j == k then (j, v) ∷ d else (j, w) ∷ insert k v d

  -- delete d[k]
  unfoldable pub remove : String → Dict V → Dict V
  remove k [] = []
  remove k ((j, v) ∷ d) = let rest = remove k d in if j == k then rest else (j, v) ∷ rest

  -- for (const [k, v] of Object.entries(d)) if (p(k, v)) delete d[k]
  unfoldable pub prune : (String → V → Bool) → Dict V → Dict V
  unfolding remove
  prune p [] = []
  prune p ((k, v) ∷ d) = let rest = prune p d in if p k v then remove k rest else (k, v) ∷ rest

  -- Is there an entry that `prune p` deletes?
  unfoldable pub any_entry : (String → V → Bool) → Dict V → Bool
  any_entry p [] = false
  any_entry p ((k, v) ∷ d) = p k v || any_entry p d

  -- for (const v of Object.values(d)) v := f(v)
  unfoldable pub update_all : (V → V) → Dict V → Dict V
  update_all f [] = []
  update_all f ((k, v) ∷ d) = (k, f v) ∷ update_all f d

  -- Object.values(d)
  abbrev pub values : Dict V → List V
  values [] = []
  values ((k, v) ∷ d) = v ∷ values d

  abbrev pub Unique : Dict V → Type ℓ
  Unique [] = Unit
  Unique ((k, v) ∷ d) = (lookup k d ≡ none) × Unique d

  pub lookup-insert :
      (k j : String) (v : V) (d : Dict V)
      → lookup j (insert k v d) ≡ (if k == j then some v else lookup j d)
  unfolding lookup insert
  lookup-insert k j v [] = refl
  lookup-insert k j v ((i, w) ∷ d) =
      ground (arith, eq_iff k j, eq_iff i k, eq_iff i j, lookup-insert k j v d)

  pub lookup-insert_self : (k : String) (v : V) (d : Dict V) → lookup k (insert k v d) ≡ some v
  lookup-insert_self k v d = simp (lookup-insert, eq_refl)

  pub lookup-remove :
      (k j : String) (d : Dict V) → lookup j (remove k d) ≡ (if k == j then none else lookup j d)
  unfolding lookup remove
  lookup-remove k j [] = ground arith
  lookup-remove k j ((i, w) ∷ d) =
      ground (arith, eq_iff k j, eq_iff i k, eq_iff i j, lookup-remove k j d)

  pub lookup-remove_self : (k : String) (d : Dict V) → lookup k (remove k d) ≡ none
  lookup-remove_self k d = simp (lookup-remove, eq_refl)

  abbrev pub unless : (String → V → Bool) → String → Option V → Option V
  unless p k none = none
  unless p k (some v) = if p k v then none else some v

  pub lookup-prune :
      (p : String → V → Bool) (k : String) (d : Dict V)
      → lookup k (prune p d) ≡ unless p k (lookup k d)
  unfolding lookup prune
  lookup-prune p k [] = refl
  lookup-prune p k ((j, v) ∷ d) =
      ground (arith, eq_iff j k, lookup-remove j k (prune p d), lookup-prune p k d)

  abbrev pub map_value : (V → V) → Option V → Option V
  map_value f none = none
  map_value f (some v) = some (f v)

  pub lookup-update_all :
      (f : V → V) (k : String) (d : Dict V) → lookup k (update_all f d) ≡ map_value f (lookup k d)
  unfolding lookup update_all
  lookup-update_all f k [] = refl
  lookup-update_all f k ((j, v) ∷ d) = ground (arith, lookup-update_all f k d)
