-- ===== src/Config/Registry.antt =====
-- The target registry (src/config/targets.ts). Reading a file, the schema and the locale's order are
-- arguments; writing the dynamic file is taken to succeed.
pub mod Adding
pub mod Upsert
use remote_ops_mcp.Prelude.{
  ℕ, String, Bool, true, false, not, ◌&&◌, ◌||◌, Option, none, some, List, [], ◌∷◌, ◌++◌, ◌==◌,
  if◌then◌else◌, is_some, any, filter,
}
use remote_ops_mcp.Errors.{Result, ok, err, capability_denied, invalid_argument, internal}
use remote_ops_mcp.Dict.{Dict, lookup, insert}
use remote_ops_mcp.Config.Target.{TargetConfig, Transport, agent}
use remote_ops_mcp.Config.Baseline.{Order}

-- What a registry file gives: nothing there, no valid registry, or targets that the schema lets through.
pub data RegistryFile : Type 0 where
  absent malformed : RegistryFile
  targets : List TargetConfig → RegistryFile

-- `none`: it throws. The static registry has to be there, with a target at least.
unfoldable pub parse_registry_file : RegistryFile → Bool → Option (List TargetConfig)
parse_registry_file absent require_one = if require_one then none else some []
parse_registry_file malformed require_one = none
parse_registry_file (targets []) require_one = if require_one then none else some []
parse_registry_file (targets (t ∷ ts)) require_one = some (t ∷ ts)

-- `!!t.deviceId`
unfoldable pub has_device_id : TargetConfig → Bool
has_device_id t = elim t.device_id [ none ↦ false | some d ↦ not (d == "") ]

abbrev pub is_agent : Transport → Bool
is_agent agent = true
is_agent _ = false

unfoldable pub is_valid_agent_target : TargetConfig → Bool
unfolding has_device_id
is_valid_agent_target t = not (is_agent t.transport) || has_device_id t

-- Adds targets to the registry; `none`: a bad target, or an id that is there already.
unfoldable pub add_targets : List TargetConfig → Dict TargetConfig → Option (Dict TargetConfig)
unfolding is_valid_agent_target lookup insert
add_targets [] map = some map
add_targets (t ∷ ts) map =
    let rest = add_targets ts (insert t.id t map) in
    if is_valid_agent_target t && not (is_some (lookup t.id map)) then rest else none

pub record Files : Type 0 where
  pub static_file : RegistryFile
  pub dynamic_file : RegistryFile

unfoldable pub load_registry : Files → Option (Dict TargetConfig)
load_registry f = elim (parse_registry_file f.static_file true) [
  | none ↦ none
  | some static_targets ↦ elim (parse_registry_file f.dynamic_file false) [
    | none ↦ none
    | some dynamic_targets ↦ elim (add_targets static_targets []) [
      | none ↦ none
      | some map ↦ add_targets dynamic_targets map
    ]
  ]
]

-- The registry module: the files, and the registry in memory, if it is loaded.
pub record Registry : Type 0 where
  pub files : Files
  pub loaded : Option (Dict TargetConfig)

unfoldable pub get_target : String → Registry → Result (Option TargetConfig)
unfolding lookup
get_target id r = elim r.loaded [ none ↦ err internal | some map ↦ ok (lookup id map) ]

unfoldable pub insert_by_id : Order → TargetConfig → List TargetConfig → List TargetConfig
insert_by_id le t [] = t ∷ []
insert_by_id le t (x ∷ xs) =
    let rest = x ∷ insert_by_id le t xs in if le t.id x.id then t ∷ x ∷ xs else rest

unfoldable pub sort_by_id : Order → List TargetConfig → List TargetConfig
unfolding insert_by_id
sort_by_id le [] = []
sort_by_id le (t ∷ ts) = insert_by_id le t (sort_by_id le ts)

-- [...current.filter((t) => t.id !== parsed.id), parsed].sort(by id)
unfoldable pub next_dynamic : Order → TargetConfig → List TargetConfig → List TargetConfig
unfolding sort_by_id filter
next_dynamic le parsed current =
    sort_by_id le (filter (λ t. not (t.id == parsed.id)) current ++ parsed ∷ [])

-- What the end of `upsertDynamicAgentTarget` does: write the file and load the registry again.
unfoldable pub write_dynamic :
    Order → TargetConfig → List TargetConfig → Registry → Registry × Result TargetConfig
write_dynamic le parsed current r =
    let files = record r.files { dynamic_file = targets (next_dynamic le parsed current) } in
    elim (load_registry files) [
      | none ↦ (record r { files = files }, err internal)
      | some map ↦ (
        record { files = files; loaded = some map },
        elim (lookup parsed.id map) [ none ↦ err internal | some t ↦ ok t ],
      )
    ]

-- `schema` is `TargetSchema.parse`; `none`: it throws. An error that is no `OpsError` is `internal`.
unfoldable pub upsert_dynamic_agent_target :
    Order
    → (TargetConfig → Option TargetConfig)
    → TargetConfig
    → Registry
    → Registry × Result TargetConfig
upsert_dynamic_agent_target le schema input r = elim (schema input) [
  | none ↦ (r, err internal)
  | some parsed ↦
      if is_agent parsed.transport && has_device_id parsed
      then (elim (parse_registry_file r.files.static_file true) [
        | none ↦ (r, err internal)
        | some static_targets ↦
            if any (λ t. t.id == parsed.id) static_targets
            then (r, err capability_denied)
            else (elim (parse_registry_file r.files.dynamic_file false) [
              | none ↦ (r, err internal)
              | some current ↦ write_dynamic le parsed current r
            ])
      ])
      else (r, err invalid_argument)
]
