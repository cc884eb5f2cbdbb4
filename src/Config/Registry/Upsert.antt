-- ===== src/Config/Registry/Upsert.antt =====
-- Changing a dynamic target changes that target and nothing else.
use remote_ops_mcp.Prelude.{
  String, ◌≡◌, refl, ◌∙◌, ap, true, false, not, ◌&&◌, Option, none, some, List, [], ◌∷◌, ◌++◌, ◌==◌,
  arith, eq_refl, if◌then◌else◌, any, filter, Option-cases, inl, inr,
}
use remote_ops_mcp.Errors.{ok}
use remote_ops_mcp.Dict.{Dict, lookup}
use remote_ops_mcp.Config.Target.{TargetConfig}
use remote_ops_mcp.Config.Baseline.{Order}
use remote_ops_mcp.Config.Registry.{
  targets, parse_registry_file, is_valid_agent_target, has_device_id, is_agent, add_targets, Files,
  load_registry, Registry, next_dynamic, write_dynamic, upsert_dynamic_agent_target,
}
use remote_ops_mcp.Config.Registry.Adding.{
  or_in, add-Addable, added-Addable, sorted, replaced, any-by_id, found_in,
}

-- The registry in memory is what its files give.
pub record IsLoaded (r : Registry) (map : Dict TargetConfig) : Type 0 where
  pub from_files : load_registry r.files ≡ some map
  pub in_memory : r.loaded ≡ some map

-- The steps of loading.
record Parts (f : Files) (map : Dict TargetConfig) : Type 0 where
  static : List TargetConfig
  dynamic : List TargetConfig
  base : Dict TargetConfig
  parsed_static : parse_registry_file f.static_file true ≡ some static
  parsed_dynamic : parse_registry_file f.dynamic_file false ≡ some dynamic
  added_static : add_targets static [] ≡ some base
  added_dynamic : add_targets dynamic base ≡ some map

load_registry-Parts :
    (f : Files) (map : Dict TargetConfig) → load_registry f ≡ some map → Parts f map
unfolding load_registry
load_registry-Parts f map e = elim (Option-cases (parse_registry_file f.static_file true)) [
  | inl none_there ↦ ground (arith, none_there, e)
  | inr (ss, es) ↦ elim (Option-cases (parse_registry_file f.dynamic_file false)) [
    | inl none_there ↦ ground (arith, none_there, es, e)
    | inr (ds, ed) ↦ elim (Option-cases (add_targets ss [])) [
      | inl none_there ↦ ground (arith, none_there, es, ed, e)
      | inr (base, eb) ↦ record {
        static = ss;
        dynamic = ds;
        base = base;
        parsed_static = es;
        parsed_dynamic = ed;
        added_static = eb;
        added_dynamic = ground (arith, es, ed, eb, e);
      }
    ]
  ]
]

parse_written : (ts : List TargetConfig) → parse_registry_file (targets ts) false ≡ some ts
unfolding parse_registry_file
parse_written [] = refl
parse_written (t ∷ ts) = refl

-- The new dynamic targets, beside the static ones.
next_found :
    (le : Order) (p : TargetConfig) (ds : List TargetConfig) (base map : Dict TargetConfig)
    → is_valid_agent_target p ≡ true
    → lookup p.id base ≡ none
    → add_targets ds base ≡ some map
    → (map' : Dict TargetConfig) × (add_targets (next_dynamic le p ds) base ≡ some map')
      × ((id : String) → lookup id map' ≡ (if p.id == id then some p else lookup id map))
unfolding next_dynamic
next_found le p ds base map valid fresh e =
    let (addable, swapped) = replaced p ds base valid fresh (added-Addable ds base map e) in
    let (addable', same) = sorted le (filter (λ t. not (t.id == p.id)) ds ++ p ∷ []) base addable in
    let (map', e', found) = add-Addable (next_dynamic le p ds) base addable' in
    (map', e', λ id. ground (arith, found id, same id, swapped id, found_in ds base map e id))

reload :
    (f : Files) (map map' : Dict TargetConfig) (ps : Parts f map) (ds : List TargetConfig)
    → add_targets ds ps.base ≡ some map'
    → load_registry (record f { dynamic_file = targets ds }) ≡ some map'
unfolding load_registry
reload f map map' ps ds e = ground (arith, ps.parsed_static, parse_written ds, ps.added_static, e)

write_dynamic_lem :
    (le : Order) (p : TargetConfig) (ds : List TargetConfig) (r : Registry)
    (map' : Dict TargetConfig)
    → load_registry (record r.files { dynamic_file = targets (next_dynamic le p ds) }) ≡ some map'
    → lookup p.id map' ≡ some p
    → ((write_dynamic le p ds r).1 ≡ ok p) × IsLoaded (write_dynamic le p ds r).0 map'
unfolding write_dynamic
write_dynamic_lem le p ds r map' e found = (
  ground (arith, e, found),
  record { from_files = ground (arith, e); in_memory = ground (arith, e) },
)

upsert_writes :
    (le : Order) (schema : TargetConfig → Option TargetConfig) (input p : TargetConfig)
    (r : Registry)
    → (ss ds : List TargetConfig) → schema input ≡ some p
    → is_agent p.transport && has_device_id p ≡ true
    → parse_registry_file r.files.static_file true ≡ some ss
    → parse_registry_file r.files.dynamic_file false ≡ some ds
    → any (λ t. t.id == p.id) ss ≡ false
    → upsert_dynamic_agent_target le schema input r ≡ write_dynamic le p ds r
unfolding upsert_dynamic_agent_target
upsert_writes le schema input p r ss ds e agent es ed apart =
    ground (arith, e, agent, es, ed, apart)

-- No target of the static file has this id.
abbrev pub NotStatic : String → Files → Type 0
NotStatic id f =
    (ts : List TargetConfig)
    → parse_registry_file f.static_file true ≡ some ts
    → any (λ t. t.id == id) ts ≡ false

agent_valid :
    (p : TargetConfig)
    → is_agent p.transport && has_device_id p ≡ true
    → is_valid_agent_target p ≡ true
unfolding is_valid_agent_target
agent_valid p h = ground (arith, h)

-- In a loaded registry, for an input that the schema turns into an agent target with a device id
-- and that no static target shares its id with, `upsertDynamicAgentTarget` returns the target, and
-- the registry is loaded again: it gives the new target under its id, and under every other id what
-- it gave before.
pub upsert_changes_one_target :
    (le : Order) (schema : TargetConfig → Option TargetConfig) (input p : TargetConfig)
    (r : Registry) (map : Dict TargetConfig)
    → IsLoaded r map
    → schema input ≡ some p
    → is_agent p.transport && has_device_id p ≡ true
    → NotStatic p.id r.files
    → (map' : Dict TargetConfig) × ((upsert_dynamic_agent_target le schema input r).1 ≡ ok p)
      × IsLoaded (upsert_dynamic_agent_target le schema input r).0 map'
      × ((id : String) → lookup id map' ≡ (if p.id == id then some p else lookup id map))
unfolding lookup
upsert_changes_one_target le schema input p r map loaded e agent apart =
    let ps = load_registry-Parts r.files map loaded.from_files in
    let alone = apart ps.static ps.parsed_static in
    let fresh : lookup p.id ps.base ≡ none =
      found_in ps.static [] ps.base ps.added_static p.id
      ∙ ap (λ o. or_in o none) (any-by_id p.id ps.static alone) in
    let valid : is_valid_agent_target p ≡ true = agent_valid p agent in
    let (map', added, found) =
      next_found le p ps.dynamic ps.base map valid fresh ps.added_dynamic in
    let written =
      upsert_writes le schema input p r ps.static ps.dynamic e agent ps.parsed_static
        ps.parsed_dynamic alone in
    let (done, loaded') =
      write_dynamic_lem le p ps.dynamic r map'
        (reload r.files map map' ps (next_dynamic le p ps.dynamic) added)
        (ground (arith, found p.id, eq_refl p.id)) in
    (
      map',
      ap (λ w. w.1) written ∙ done,
      record {
        from_files = ap (λ w. load_registry w.0.files) written ∙ loaded'.from_files;
        in_memory = ap (λ w. w.0.loaded) written ∙ loaded'.in_memory;
      },
      found,
    )
