-- ===== src/Config/Target.antt =====
-- `TargetConfig` of src/config/targets.ts: what the schema lets through.
use remote_ops_mcp.Prelude.{ℕ, String, Bool, Option, List}

pub data Environment : Type 0 where
  production staging development : Environment

pub data CapabilityProfile : Type 0 where
  read_only prod_read_mostly operator semantic_operator : CapabilityProfile

pub data Transport : Type 0 where
  ssh mock agent : Transport

pub record TargetConfig : Type 0 where
  pub id : String
  pub host : String
  pub port : ℕ
  pub username : String
  pub credential_ref : Option String
  pub key_file : Option String
  pub device_id : Option String
  pub host_key_fingerprint : Option String
  pub host_key : Option String
  pub environment : Environment
  pub capability_profile : CapabilityProfile
  pub allowed_paths : List String
  pub allowed_docker_containers : List String
  pub allowed_docker_exec_containers : List String
  pub allowed_docker_exec_programs : List String
  pub allowed_docker_actions : List String
  pub allowed_docker_image_load_roots : List String
  pub allowed_docker_candidate_image_prefixes : List String
  pub allowed_docker_candidate_networks : List String
  pub allowed_docker_candidate_name_prefixes : List String
  pub allowed_docker_candidate_host_ports : List ℕ
  pub allowed_docker_candidate_container_ports : List ℕ
  pub allowed_services : List String
  pub allowed_service_actions : List String
  pub allowed_git_repos : List String
  pub allowed_semantic_capabilities : List String
  pub allowed_admin_programs : List String
  pub allowed_admin_cwds : List String
  pub allowed_write_paths : List String
  pub allowed_process_cwds : List String
  pub allowed_process_programs : List String
  pub enabled : Bool
  pub transport : Transport
  pub command_timeout_ms : Option ℕ
  pub connect_timeout_ms : Option ℕ
