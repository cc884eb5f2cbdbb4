-- ===== src/Config/Baseline.antt =====
-- Comparing a target with a preset (src/config/capability-baseline.ts). The locale's order is an
-- argument; so is the text of a number.
use remote_ops_mcp.Prelude.{
  ℕ, String, Bool, true, false, ◌&&◌, Option, none, some, List, [], ◌∷◌, ◌==◌, if◌then◌else◌, map,
}
use remote_ops_mcp.Config.Target.{
  CapabilityProfile, read_only, prod_read_mostly, operator, semantic_operator, agent, TargetConfig,
}
use remote_ops_mcp.Config.Presets.{
  Preset, build_agent_target_from_preset, CapabilityBaseline, describe_target_capability_baseline,
}

-- Does the first text come before the second, or at the same place? (localeCompare)
abbrev pub Order : Type 0
Order = String → String → Bool

unfoldable pub insert_sorted : Order → String → List String → List String
insert_sorted le x [] = x ∷ []
insert_sorted le x (y ∷ ys) =
    let rest = y ∷ insert_sorted le x ys in if le x y then x ∷ y ∷ ys else rest

unfoldable pub sort : Order → List String → List String
unfolding insert_sorted
sort le [] = []
sort le (x ∷ xs) = insert_sorted le x (sort le xs)

unfoldable pub same_texts : List String → List String → Bool
same_texts [] [] = true
same_texts (x ∷ xs) (y ∷ ys) = x == y && same_texts xs ys
same_texts _ _ = false

abbrev pub profile_name : CapabilityProfile → String
profile_name read_only = "read-only"
profile_name prod_read_mostly = "prod-read-mostly"
profile_name operator = "operator"
profile_name semantic_operator = "semantic-operator"

-- The authority of a target, key by key, in the order of AUTHORITY_KEYS; the ports as their texts.
unfoldable pub authority : (ℕ → String) → TargetConfig → List (String × List String)
authority text t =
    ("capabilityProfile", profile_name t.capability_profile ∷ [])
    ∷ ("allowedPaths", t.allowed_paths)
    ∷ ("allowedDockerContainers", t.allowed_docker_containers)
    ∷ ("allowedDockerExecContainers", t.allowed_docker_exec_containers)
    ∷ ("allowedDockerExecPrograms", t.allowed_docker_exec_programs)
    ∷ ("allowedDockerActions", t.allowed_docker_actions)
    ∷ ("allowedDockerImageLoadRoots", t.allowed_docker_image_load_roots)
    ∷ ("allowedDockerCandidateImagePrefixes", t.allowed_docker_candidate_image_prefixes)
    ∷ ("allowedDockerCandidateNetworks", t.allowed_docker_candidate_networks)
    ∷ ("allowedDockerCandidateNamePrefixes", t.allowed_docker_candidate_name_prefixes)
    ∷ ("allowedDockerCandidateHostPorts", map text t.allowed_docker_candidate_host_ports)
    ∷ ("allowedDockerCandidateContainerPorts", map text t.allowed_docker_candidate_container_ports)
    ∷ ("allowedServices", t.allowed_services)
    ∷ ("allowedServiceActions", t.allowed_service_actions)
    ∷ ("allowedGitRepos", t.allowed_git_repos)
    ∷ ("allowedSemanticCapabilities", t.allowed_semantic_capabilities)
    ∷ ("allowedAdminPrograms", t.allowed_admin_programs)
    ∷ ("allowedAdminCwds", t.allowed_admin_cwds)
    ∷ ("allowedWritePaths", t.allowed_write_paths)
    ∷ ("allowedProcessCwds", t.allowed_process_cwds)
    ∷ ("allowedProcessPrograms", t.allowed_process_programs)
    ∷ []

-- The keys at which the sorted values differ.
unfoldable pub differing :
    Order → List (String × List String) → List (String × List String) → List String
unfolding same_texts sort
differing le ((k, xs) ∷ l) ((j, ys) ∷ m) =
    let rest = differing le l m in if same_texts (sort le xs) (sort le ys) then rest else k ∷ rest
differing le _ _ = []

pub record Validation : Type 0 where
  pub preset : Preset
  pub valid : Bool
  pub differences : List String
  pub capability_baseline : CapabilityBaseline

-- `transport !== "agent" || !deviceId`
abbrev pub has_device : TargetConfig → Option String
has_device t = elim t.transport [
  | agent ↦ elim t.device_id [ none ↦ none | some d ↦ if d == "" then none else some d ]
  | _ ↦ none
]

abbrev pub is_empty {ℓ} : {A : Type ℓ} → List A → Bool
is_empty [] = true
is_empty (x ∷ xs) = false

-- `none`: building the expected target throws.
unfoldable pub validate_agent_target_against_preset :
    Order → (ℕ → String) → TargetConfig → Preset → Option Validation
unfolding differing authority
validate_agent_target_against_preset le text target preset = elim (has_device target) [
  | none ↦ some (record {
    preset = preset;
    valid = false;
    differences = "transport/deviceId" ∷ [];
    capability_baseline = describe_target_capability_baseline target;
  })
  | some device ↦
      elim (build_agent_target_from_preset (record {
        target_id = target.id;
        device_id = device;
        environment = target.environment;
        preset = preset;
      })) [
        | none ↦ none
        | some expected ↦
            let d = differing le (authority text target) (authority text expected) in
            some (record {
              preset = preset;
              valid = is_empty d;
              differences = d;
              capability_baseline = describe_target_capability_baseline target;
            })
      ]
]
