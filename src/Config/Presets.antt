-- ===== src/Config/Presets.antt =====
-- The authority that each preset gives (src/config/capability-baseline.ts).
pub mod Authority
use remote_ops_mcp.Prelude.{
  ℕ, String, Bool, true, false, not, ◌&&◌, ◌||◌, Option, none, some, List, [], ◌∷◌, ◌==◌,
  if◌then◌else◌, length, includes,
}
use remote_ops_mcp.Privileged.Policy.{
  managed_admin_capability, managed_admin_default_programs, managed_admin_default_cwds,
}
use remote_ops_mcp.Config.Target.{
  Environment, development, CapabilityProfile, read_only, operator, semantic_operator, Transport,
  agent, TargetConfig,
}

pub data Preset : Type 0 where
  operator_workspace read_only_preset openhands_read openhands_execute : Preset
  postgres_readback managed_admin deepharness_semantic_lab : Preset

abbrev pub agent_workspace_root : String
agent_workspace_root = "/opt/wandora/ops-workspace"

abbrev pub operator_workspace_programs : List String
operator_workspace_programs =
    "bash" ∷ "sh" ∷ "git" ∷ "node" ∷ "npm" ∷ "npx" ∷ "pnpm" ∷ "python3" ∷ "curl" ∷ "wget" ∷ "jq"
    ∷ "grep" ∷ "sed" ∷ "awk" ∷ "find" ∷ "head" ∷ "tail" ∷ "cat" ∷ "wc" ∷ "make" ∷ []

abbrev pub lab_id : String
lab_id = "deepharness-semantic-lab"

pub record PresetInput : Type 0 where
  pub target_id : String
  pub device_id : String
  pub environment : Environment
  pub preset : Preset

-- `base`, with the profile; every list that a preset does not set is empty.
unfoldable pub base_target : PresetInput → CapabilityProfile → TargetConfig
base_target input profile = record {
  id = input.target_id;
  host = "127.0.0.1";
  port = 22;
  username = "ops-mcp";
  credential_ref = none;
  key_file = none;
  device_id = some input.device_id;
  host_key_fingerprint = none;
  host_key = none;
  environment = input.environment;
  capability_profile = profile;
  allowed_paths = [];
  allowed_docker_containers = [];
  allowed_docker_exec_containers = [];
  allowed_docker_exec_programs = [];
  allowed_docker_actions = [];
  allowed_docker_image_load_roots = [];
  allowed_docker_candidate_image_prefixes = [];
  allowed_docker_candidate_networks = [];
  allowed_docker_candidate_name_prefixes = [];
  allowed_docker_candidate_host_ports = [];
  allowed_docker_candidate_container_ports = [];
  allowed_services = [];
  allowed_service_actions = [];
  allowed_git_repos = [];
  allowed_semantic_capabilities = [];
  allowed_admin_programs = [];
  allowed_admin_cwds = [];
  allowed_write_paths = [];
  allowed_process_cwds = [];
  allowed_process_programs = [];
  enabled = true;
  transport = agent;
  command_timeout_ms = none;
  connect_timeout_ms = none;
}

abbrev pub is_development : Environment → Bool
is_development development = true
is_development _ = false

abbrev root_only : List String
root_only = agent_workspace_root ∷ []

-- The fields that a preset sets beyond the base.
unfoldable pub preset_target : Preset → TargetConfig → TargetConfig
preset_target managed_admin t = record t {
  allowed_paths = root_only;
  allowed_services =
      "wandora-ops-agent.service" ∷ "wandora-ops-exec-broker.service"
      ∷ "wandora-ops-admin-broker.service" ∷ [];
  allowed_service_actions = "restart" ∷ [];
  allowed_write_paths = root_only;
  allowed_process_cwds = root_only;
  allowed_process_programs = operator_workspace_programs;
  allowed_semantic_capabilities = managed_admin_capability ∷ [];
  allowed_admin_programs = managed_admin_default_programs;
  allowed_admin_cwds = managed_admin_default_cwds;
}
preset_target deepharness_semantic_lab t = record t {
  allowed_semantic_capabilities = "deepharness.semantic" ∷ [];
}
preset_target openhands_read t = record t { allowed_semantic_capabilities = "openhands.read" ∷ [] }
preset_target openhands_execute t = record t {
  allowed_semantic_capabilities = "openhands.read" ∷ "openhands.execute" ∷ [];
}
preset_target postgres_readback t = record t {
  allowed_semantic_capabilities = "postgres.pinned_readback" ∷ [];
}
preset_target read_only_preset t = record t {
  allowed_paths = root_only;
  allowed_services = "wandora-ops-agent.service" ∷ "wandora-ops-exec-broker.service" ∷ [];
}
preset_target operator_workspace t = record t {
  allowed_paths = root_only;
  allowed_services = "wandora-ops-agent.service" ∷ "wandora-ops-exec-broker.service" ∷ [];
  allowed_service_actions = "restart" ∷ [];
  allowed_write_paths = root_only;
  allowed_process_cwds = root_only;
  allowed_process_programs = operator_workspace_programs;
}

unfoldable pub preset_profile : Preset → CapabilityProfile
preset_profile managed_admin = operator
preset_profile deepharness_semantic_lab = semantic_operator
preset_profile openhands_read = read_only
preset_profile openhands_execute = semantic_operator
preset_profile postgres_readback = read_only
preset_profile read_only_preset = read_only
preset_profile operator_workspace = operator

abbrev pub is_lab : Preset → Bool
is_lab deepharness_semantic_lab = true
is_lab _ = false

-- `none`: the lab preset, for another target or outside development, throws.
unfoldable pub build_agent_target_from_preset : PresetInput → Option TargetConfig
unfolding base_target preset_target preset_profile
build_agent_target_from_preset input =
    if is_lab input.preset
      && (not (input.target_id == lab_id) || not (is_development input.environment))
    then none
    else some (preset_target input.preset (base_target input (preset_profile input.preset)))

pub record CapabilityBaseline : Type 0 where
  pub authority_class : CapabilityProfile
  pub transport : Transport
  pub workspace_read_roots : ℕ
  pub workspace_write_roots : ℕ
  pub process_cwd_roots : ℕ
  pub process_programs : ℕ
  pub docker_read_containers : ℕ
  pub docker_exec_containers : ℕ
  pub docker_actions : ℕ
  pub service_units : ℕ
  pub service_actions : ℕ
  pub semantic_capabilities : ℕ
  pub managed_admin : Bool
  pub admin_programs : ℕ
  pub admin_cwd_roots : ℕ

unfoldable pub describe_target_capability_baseline : TargetConfig → CapabilityBaseline
unfolding includes
describe_target_capability_baseline t = record {
  authority_class = t.capability_profile;
  transport = t.transport;
  workspace_read_roots = length t.allowed_paths;
  workspace_write_roots = length t.allowed_write_paths;
  process_cwd_roots = length t.allowed_process_cwds;
  process_programs = length t.allowed_process_programs;
  docker_read_containers = length t.allowed_docker_containers;
  docker_exec_containers = length t.allowed_docker_exec_containers;
  docker_actions = length t.allowed_docker_actions;
  service_units = length t.allowed_services;
  service_actions = length t.allowed_service_actions;
  semantic_capabilities = length t.allowed_semantic_capabilities;
  managed_admin = includes managed_admin_capability t.allowed_semantic_capabilities;
  admin_programs = length t.allowed_admin_programs;
  admin_cwd_roots = length t.allowed_admin_cwds;
}
