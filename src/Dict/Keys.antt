-- ===== src/Dict/Keys.antt =====
-- Keys stay unique under every operation; sizes; searching the values of a dictionary.
use remote_ops_mcp.Prelude.{
  ◌+◌, ◌≤◌, String, ◌≡◌, refl, Bool, true, false, none, some, [], ◌∷◌, arith, eq_iff, length, find,
  filter, ◌+◌, Bool-cases, eq_refl, inl, inr,
}
use remote_ops_mcp.Dict.{
  Dict, lookup, insert, remove, prune, any_entry, update_all, values, Unique, lookup-insert,
  lookup-remove, lookup-prune, lookup-update_all,
}

module _ {ℓ} {V : Type ℓ} where
  pub insert-Unique : (k : String) (v : V) (d : Dict V) → Unique d → Unique (insert k v d)
  unfolding insert lookup
  insert-Unique k v [] u = (refl, tt)
  insert-Unique k v ((j, w) ∷ d) u =
      ground (arith, lookup-insert k j v d, insert-Unique k v d u.1, eq_iff k j, eq_iff j k)

  pub remove-Unique : (k : String) (d : Dict V) → Unique d → Unique (remove k d)
  unfolding remove
  remove-Unique k [] u = tt
  remove-Unique k ((j, w) ∷ d) u = ground (arith, lookup-remove k j d, remove-Unique k d u.1)

  pub prune-Unique : (p : String → V → Bool) (d : Dict V) → Unique d → Unique (prune p d)
  unfolding prune
  prune-Unique p [] u = tt
  prune-Unique p ((k, v) ∷ d) u = ground (
    arith,
    lookup-prune p k d,
    prune-Unique p d u.1,
    remove-Unique k (prune p d) (prune-Unique p d u.1),
  )

  pub update_all-Unique : (f : V → V) (d : Dict V) → Unique d → Unique (update_all f d)
  unfolding update_all
  update_all-Unique f [] u = tt
  update_all-Unique f ((k, v) ∷ d) u =
      ground (arith, lookup-update_all f k d, update_all-Unique f d u.1)

  -- A write to a key that is there adds no entry; a write to a new key adds one.
  pub length-insert :
      (k : String) (v : V) (d : Dict V)
      → length (insert k v d) ≡ (elim (lookup k d) [ none ↦ length d + 1 | some w ↦ length d ])
  unfolding insert lookup
  length-insert k v [] = refl
  length-insert k v ((j, w) ∷ d) = ground (arith, length-insert k v d)

  pub length-remove-le : (k : String) (d : Dict V) → length (remove k d) ≤ length d
  unfolding remove
  length-remove-le k [] = omega arith
  length-remove-le k ((j, w) ∷ d) = ground (arith, length-remove-le k d)

  pub length-prune-le : (p : String → V → Bool) (d : Dict V) → length (prune p d) ≤ length d
  unfolding prune
  length-prune-le p [] = omega arith
  length-prune-le p ((k, v) ∷ d) =
      ground (arith, length-prune-le p d, length-remove-le k (prune p d))

  -- Nothing to delete: the dictionary is left as it was.
  pub prune-none : (p : String → V → Bool) (d : Dict V) → any_entry p d ≡ false → prune p d ≡ d
  unfolding prune any_entry
  prune-none p [] h = refl
  prune-none p ((k, v) ∷ d) h = ground (arith, prune-none p d)

  -- What a search of the values finds is the entry of some key.
  pub find-values-lookup :
      (p : V → Bool) (d : Dict V) (v : V)
      → Unique d
      → find p (values d) ≡ some v
      → (k : String) × (lookup k d ≡ some v) × (p v ≡ true)
  unfolding find lookup
  find-values-lookup p [] v u h = absurd (cc)
  find-values-lookup p ((k, w) ∷ d) v u h = elim (Bool-cases (p w)) [
    | inl e ↦ (k, ground (arith, eq_refl k), ground arith)
    | inr e ↦
        let (j, found, passes) = find-values-lookup p d v u.1 (rw (e, find) at h) in
        (j, ground (arith, eq_iff k j, u.0), passes)
  ]

  -- No entry passes the test: the search of the values fails.
  pub find-values-none :
      (p : V → Bool) (d : Dict V)
      → Unique d
      → ((k : String) (v : V) → lookup k d ≡ some v → p v ≡ false)
      → find p (values d) ≡ none
  unfolding find lookup
  find-values-none p [] u h = refl
  find-values-none p ((k, w) ∷ d) u h = ground (
    arith,
    h k w (ground (arith, eq_refl k)),
    find-values-none p d u.1 λ j v e. h j v (ground (arith, eq_iff k j, u.0)),
  )

  -- A failed search: no entry passes the test.
  pub find-values-fails :
      (p : V → Bool) (d : Dict V) (k : String) (v : V)
      → find p (values d) ≡ none
      → lookup k d ≡ some v
      → p v ≡ false
  unfolding find lookup
  find-values-fails p [] k v h found = absurd (cc)
  find-values-fails p ((j, w) ∷ d) k v h found = ground (arith, find-values-fails p d k v)

  pub length-update_all : (f : V → V) (d : Dict V) → length (update_all f d) ≡ length d
  unfolding update_all
  length-update_all f [] = refl
  length-update_all f ((k, v) ∷ d) = omega (arith, length-update_all f d)

  -- A write changes how many values pass a test by one at most, and by one if it adds a passing one.
  pub count-insert-le :
      (p : V → Bool) (k : String) (v : V) (d : Dict V)
      → length (filter p (values (insert k v d))) ≤ length (filter p (values d)) + 1
  unfolding insert filter
  count-insert-le p k v [] = ground arith
  count-insert-le p k v ((j, w) ∷ d) = ground (arith, count-insert-le p k v d)

  pub count-insert_new :
      (p : V → Bool) (k : String) (v : V) (d : Dict V)
      → lookup k d ≡ none
      → p v ≡ true
      → length (filter p (values (insert k v d))) ≡ length (filter p (values d)) + 1
  unfolding insert filter lookup
  count-insert_new p k v [] h e = ground arith
  count-insert_new p k v ((j, w) ∷ d) h e = ground (arith, count-insert_new p k v d)
