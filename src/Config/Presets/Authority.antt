-- ===== src/Config/Presets/Authority.antt =====
-- What the presets grant.
use remote_ops_mcp.Prelude.{◌≡◌, true, false, some, [], includes}
use remote_ops_mcp.Config.Target.{TargetConfig}
use remote_ops_mcp.Config.Presets.{Preset, managed_admin, PresetInput}
use remote_ops_mcp.Privileged.Policy.{managed_admin_capability}

-- Root commands come with their own preset only.
abbrev pub AdminOnly : Preset → TargetConfig → Type 0
AdminOnly managed_admin t = includes managed_admin_capability t.allowed_semantic_capabilities ≡ true
AdminOnly _ t =
    (t.allowed_admin_programs ≡ [])
    × (includes managed_admin_capability t.allowed_semantic_capabilities ≡ false)

-- The target has the ids of its request, no Docker authority, and root commands as its preset says.
abbrev pub IsModest : PresetInput → TargetConfig → Type 0
IsModest input t =
    (t.id ≡ input.target_id)
    × (t.device_id ≡ some input.device_id)
    × (t.allowed_docker_containers ≡ [])
    × (t.allowed_docker_exec_containers ≡ [])
    × (t.allowed_docker_exec_programs ≡ [])
    × (t.allowed_docker_actions ≡ [])
    × (t.allowed_docker_image_load_roots ≡ [])
    × (t.allowed_docker_candidate_image_prefixes ≡ [])
    × (t.allowed_docker_candidate_networks ≡ [])
    × (t.allowed_docker_candidate_name_prefixes ≡ [])
    × (t.allowed_docker_candidate_host_ports ≡ [])
    × (t.allowed_docker_candidate_container_ports ≡ [])
