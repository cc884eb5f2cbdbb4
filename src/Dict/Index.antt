-- ===== src/Dict/Index.antt =====
-- Dictionaries whose entries carry their own key.
use remote_ops_mcp.Prelude.{
  String, ◌≡◌, Bool, true, some, [], arith, eq_iff, find, Option-cases, inl, inr, sym, ◌∙◌,
}
use remote_ops_mcp.Dict.{
  Dict, lookup, insert, remove, prune, update_all, values, Unique, lookup-insert, lookup-remove,
  lookup-prune, lookup-update_all,
}
use remote_ops_mcp.Dict.Keys.{
  insert-Unique, remove-Unique, prune-Unique, update_all-Unique, find-values-lookup,
  find-values-fails,
}

module _ {ℓ} {V : Type ℓ} where
  -- Keys are unique, and each entry carries its key in the field `f`.
  pub IsIndex : (V → String) → Dict V → Type ℓ
  IsIndex f d = Unique d × ((k : String) (v : V) → lookup k d ≡ some v → f v ≡ k)

module _ {ℓ} {V : Type ℓ} (f : V → String) where
  pub IsIndex-empty : IsIndex f []
  unfolding IsIndex lookup
  IsIndex-empty = (tt, λ k v h. absurd (cc))

  pub IsIndex-Unique : (d : Dict V) → IsIndex f d → Unique d
  unfolding IsIndex
  IsIndex-Unique d h = h.0

  pub IsIndex-key : (d : Dict V) (k : String) (v : V) → IsIndex f d → lookup k d ≡ some v → f v ≡ k
  unfolding IsIndex
  IsIndex-key d k v h e = h.1 k v e

  pub IsIndex-insert :
      (k : String) (v : V) (d : Dict V) → f v ≡ k → IsIndex f d → IsIndex f (insert k v d)
  unfolding IsIndex
  IsIndex-insert k v d e h = (
    insert-Unique k v d h.0,
    λ j w found. ground (arith, lookup-insert k j v d, eq_iff k j, h.1 j w),
  )

  pub IsIndex-remove : (k : String) (d : Dict V) → IsIndex f d → IsIndex f (remove k d)
  unfolding IsIndex
  IsIndex-remove k d h =
      (remove-Unique k d h.0, λ j w found. ground (arith, lookup-remove k j d, h.1 j w))

  pub IsIndex-prune : (p : String → V → Bool) (d : Dict V) → IsIndex f d → IsIndex f (prune p d)
  unfolding IsIndex
  IsIndex-prune p d h =
      (prune-Unique p d h.0, λ j w found. ground (arith, lookup-prune p j d, h.1 j w))

  pub IsIndex-update_all :
      (g : V → V) (d : Dict V)
      → ((v : V) → f (g v) ≡ f v)
      → IsIndex f d
      → IsIndex f (update_all g d)
  unfolding IsIndex
  IsIndex-update_all g d same h = (
    update_all-Unique g d h.0,
    λ j w found. elim (Option-cases (lookup j d)) [
      | inl e ↦ absurd (cc (lookup-update_all g j d, e, found))
      | inr (v, e) ↦ cc (lookup-update_all g j d, e, found, same v, h.1 j v e)
    ],
  )

  -- A search of the values finds an entry under its own key.
  pub IsIndex-find :
      (p : V → Bool) (d : Dict V) (v : V)
      → IsIndex f d
      → find p (values d) ≡ some v
      → (lookup (f v) d ≡ some v) × (p v ≡ true)
  unfolding IsIndex
  IsIndex-find p d v h e =
      let (k, found, passes) = find-values-lookup p d v h.0 e in (rw (h.1 k v found) found, passes)

  -- A value under its own key that alone passes the test is what the search finds.
  pub IsIndex-find_self :
      (p : V → Bool) (d : Dict V) (k : String) (v : V)
      → IsIndex f d
      → lookup k d ≡ some v
      → p v ≡ true
      → ((j : String) (w : V) → lookup j d ≡ some w → p w ≡ true → j ≡ k)
      → find p (values d) ≡ some v
  unfolding IsIndex
  IsIndex-find_self p d k v h found passes only = elim (Option-cases (find p (values d))) [
    | inl e ↦ absurd (cc (find-values-fails p d k v e found, passes))
    | inr (w, e) ↦
        let (j, at_j, passes_w) = find-values-lookup p d w h.0 e in
        let j_is_k = only j w at_j passes_w in e ∙ sym (rw j_is_k at at_j) ∙ found
  ]
