-- ===== src/Config/Registry/Adding.antt =====
-- Targets that can be added to a registry, and lists of them.
use remote_ops_mcp.Prelude.{
  String, ◌≡◌, refl, ◌∙◌, sym, true, false, not, Option, none, some, List, [], ◌∷◌, ◌++◌, ◌==◌,
  arith, eq_iff, if◌then◌else◌, any, filter, find,
}
use remote_ops_mcp.Dict.{Dict, lookup, insert, lookup-insert}
use remote_ops_mcp.Config.Target.{TargetConfig}
use remote_ops_mcp.Config.Baseline.{Order}
use remote_ops_mcp.Config.Registry.{is_valid_agent_target, add_targets, insert_by_id, sort_by_id}

abbrev pub by_id : String → List TargetConfig → Option TargetConfig
by_id id = find (λ t. t.id == id)

abbrev pub or_in : Option TargetConfig → Option TargetConfig → Option TargetConfig
or_in none old = old
or_in (some t) old = some t

-- Valid targets with ids that are different and not in the registry.
abbrev pub Addable : List TargetConfig → Dict TargetConfig → Type 0
Addable [] m = Unit
Addable (t ∷ ts) m =
    (is_valid_agent_target t ≡ true)
    × (lookup t.id m ≡ none)
    × (by_id t.id ts ≡ none)
    × Addable ts m

Addable-insert :
    (ts : List TargetConfig) (m : Dict TargetConfig) (t : TargetConfig)
    → Addable ts m
    → by_id t.id ts ≡ none
    → Addable ts (insert t.id t m)
unfolding find
Addable-insert [] m t h e = tt
Addable-insert (x ∷ xs) m t h e = ground (
  arith,
  lookup-insert t.id x.id t m,
  eq_iff t.id x.id,
  eq_iff x.id t.id,
  Addable-insert xs m t h.3,
)

-- Addable targets are added, and found by their ids.
pub add-Addable :
    (ts : List TargetConfig) (m : Dict TargetConfig)
    → Addable ts m
    → (m' : Dict TargetConfig) × (add_targets ts m ≡ some m')
      × ((id : String) → lookup id m' ≡ or_in (by_id id ts) (lookup id m))
unfolding add_targets find
add-Addable [] m h = (m, refl, λ id. refl)
add-Addable (t ∷ ts) m h =
    let (m', added, found) = add-Addable ts (insert t.id t m) (Addable-insert ts m t h.3 h.2) in
    (
      m',
      ground (arith, added),
      λ id. ground (arith, found id, lookup-insert t.id id t m, eq_iff t.id id),
    )

-- Only addable targets are added.
Addable-before :
    (ts : List TargetConfig) (m : Dict TargetConfig) (t : TargetConfig)
    → lookup t.id m ≡ none
    → Addable ts (insert t.id t m)
    → Addable ts m × (by_id t.id ts ≡ none)
unfolding find
Addable-before [] m t e h = (tt, refl)
Addable-before (x ∷ xs) m t e h = ground (
  arith,
  lookup-insert t.id x.id t m,
  eq_iff t.id x.id,
  eq_iff x.id t.id,
  Addable-before xs m t e h.3,
)

pub added-Addable :
    (ts : List TargetConfig) (m m' : Dict TargetConfig) → add_targets ts m ≡ some m' → Addable ts m
unfolding add_targets find
added-Addable [] m m' e = tt
added-Addable (t ∷ ts) m m' e =
    let fresh : lookup t.id m ≡ none = ground (arith, e) in
    let (h, apart) =
      Addable-before ts m t fresh (added-Addable ts (insert t.id t m) m' (ground (arith, e))) in
    (ground (arith, e), fresh, apart, h)

-- Sorting in a new target.
by_id-insert_by_id :
    (le : Order) (t : TargetConfig) (ts : List TargetConfig) (id : String)
    → by_id t.id ts ≡ none
    → by_id id (insert_by_id le t ts) ≡ (if t.id == id then some t else by_id id ts)
unfolding insert_by_id find
by_id-insert_by_id le t [] id h = refl
by_id-insert_by_id le t (x ∷ xs) id h =
    ground (arith, by_id-insert_by_id le t xs id, eq_iff t.id id, eq_iff x.id id, eq_iff x.id t.id)

Addable-insert_by_id :
    (le : Order) (t : TargetConfig) (ts : List TargetConfig) (m : Dict TargetConfig)
    → Addable (t ∷ ts) m
    → Addable (insert_by_id le t ts) m
unfolding insert_by_id find
Addable-insert_by_id le t [] m h = h
Addable-insert_by_id le t (x ∷ xs) m h = ground (
  arith,
  Addable-insert_by_id le t xs m,
  by_id-insert_by_id le t xs x.id,
  eq_iff x.id t.id,
  eq_iff t.id x.id,
)

pub sorted :
    (le : Order) (ts : List TargetConfig) (m : Dict TargetConfig)
    → Addable ts m
    → Addable (sort_by_id le ts) m × ((id : String) → by_id id (sort_by_id le ts) ≡ by_id id ts)
unfolding sort_by_id find
sorted le [] m h = (tt, λ id. refl)
sorted le (t ∷ ts) m h =
    let (rest, same) = sorted le ts m h.3 in
    let apart : by_id t.id (sort_by_id le ts) ≡ none = same t.id ∙ h.2 in
    (
      Addable-insert_by_id le t (sort_by_id le ts) m (h.0, h.1, apart, rest),
      λ id. ground (arith, by_id-insert_by_id le t (sort_by_id le ts) id apart, same id),
    )

-- The list before sorting: the old targets but the one that is replaced, and the new one.
pub replaced :
    (p : TargetConfig) (ts : List TargetConfig) (m : Dict TargetConfig)
    → is_valid_agent_target p ≡ true
    → lookup p.id m ≡ none
    → Addable ts m
    → Addable (filter (λ t. not (t.id == p.id)) ts ++ p ∷ []) m
      × ((id : String)
          → by_id id (filter (λ t. not (t.id == p.id)) ts ++ p ∷ [])
            ≡ (if p.id == id then some p else by_id id ts))
unfolding filter find
replaced p [] m valid fresh h = ((valid, fresh, refl, tt), λ id. refl)
replaced p (t ∷ ts) m valid fresh h =
    let (rest, same) = replaced p ts m valid fresh h.3 in
    (
      ground (arith, rest, same t.id, eq_iff t.id p.id, eq_iff p.id t.id),
      λ id. ground (arith, same id, eq_iff t.id p.id, eq_iff p.id id, eq_iff t.id id),
    )

pub any-by_id :
    (id : String) (ts : List TargetConfig) → any (λ t. t.id == id) ts ≡ false → by_id id ts ≡ none
unfolding any find
any-by_id id [] h = refl
any-by_id id (t ∷ ts) h = ground (arith, any-by_id id ts, h)

-- What `add_targets` gave is what it gives.
pub found_in :
    (ts : List TargetConfig) (m m' : Dict TargetConfig)
    → add_targets ts m ≡ some m'
    → (id : String) → lookup id m' ≡ or_in (by_id id ts) (lookup id m)
found_in ts m m' e id =
    let (m'', e', found) = add-Addable ts m (added-Addable ts m m' e) in
    let same : some m' ≡ some m'' = sym e ∙ e' in ground (arith, same, found id)
