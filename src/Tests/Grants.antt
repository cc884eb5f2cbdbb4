-- ===== src/Tests/Grants.antt =====
-- Presets and approvals of targets at concrete data.
use remote_ops_mcp.Prelude.{
  any, filter, includes, find, all, add_trimmed, is_space, trim_end, trim_start, ◌≤◌, ◌≡◌, ◌⊎◌,
  refl, some, [], ◌∷◌, trim, concat,
}
use remote_ops_mcp.Errors.{ok}
use remote_ops_mcp.Dict.{Dict, lookup, remove, insert}
use remote_ops_mcp.Dict.Index.{IsIndex, IsIndex-empty, IsIndex-insert}
use remote_ops_mcp.Config.Target.{TargetConfig, production, read_only}
use remote_ops_mcp.Config.Presets.{
  read_only_preset, managed_admin, PresetInput, base_target, preset_target, preset_profile,
}
use remote_ops_mcp.Approvals.Utils.{require_approval_confirmation, require_live_device, is_stale}
use remote_ops_mcp.Store.Devices.{list_devices, insert_by_age, sort_by_age}
use remote_ops_mcp.Config.Registry.{
  has_device_id, parse_registry_file, add_targets, insert_by_id, is_valid_agent_target,
  load_registry, next_dynamic, sort_by_id, write_dynamic, Registry, targets, get_target,
  upsert_dynamic_agent_target,
}
use remote_ops_mcp.Approvals.AgentTarget as AgentTarget
use remote_ops_mcp.Approvals.AgentTarget.{
  Access, purge, check_application, device_has, apply_checked, apply_agent_target_approval,
}
use remote_ops_mcp.Approvals.AgentTarget.Once.{registry_changes_only_if_confirmed}
use remote_ops_mcp.Approvals.DeepharnessRead as DeepharnessRead
use remote_ops_mcp.Approvals.DeepharnessRead.{
  read_target, read_containers, has_no_authority, apply_deepharness_docker_read,
}
use remote_ops_mcp.Approvals.DeepharnessRead.Authority.{IsReader, only_containers_change}
use remote_ops_mcp.Tests.Root.{world, stored}
use remote_ops_mcp.Tests.Processes.{registry, new, keep_order}

abbrev request : PresetInput
request = record {
  target_id = "vps-one";
  device_id = "dev_abcdefgh";
  environment = production;
  preset = managed_admin;
}

abbrev made : TargetConfig
made = preset_target managed_admin (base_target request (preset_profile managed_admin))

abbrev access : Access
access = record { le = keep_order; schema = λ t. some t }

abbrev approval : AgentTarget.Pending
approval = record {
  id = "adm_1";
  actor = "owner";
  created_at = 2000;
  expires_at = 602_000;
  target = new;
}

abbrev approvals : Dict AgentTarget.Pending
approvals = ("adm_1", approval) ∷ []

approvals-IsIndex : IsIndex (λ (a : AgentTarget.Pending). a.id) approvals
unfolding insert
approvals-IsIndex =
    IsIndex-insert (λ (a : AgentTarget.Pending). a.id) "adm_1" approval [] refl
      (IsIndex-empty (λ (a : AgentTarget.Pending). a.id))

registry_example :
    let applied =
      apply_agent_target_approval access world.env stored "owner" "adm_1" "APPROVE adm_1" 3000
        approvals registry in
    (applied.1 ≡ registry)
    ⊎ ((a : AgentTarget.Pending) × (lookup "adm_1" approvals ≡ some a)
        × (3000 ≤ a.expires_at)
        × (a.actor ≡ "owner")
        × (trim "APPROVE adm_1" ≡ concat "APPROVE " a.id)
        × (applied.1 ≡ (upsert_dynamic_agent_target keep_order (λ t. some t) a.target registry).0))
registry_example =
    registry_changes_only_if_confirmed access world.env stored "owner" "adm_1" "APPROVE adm_1" 3000
      approvals registry

abbrev reader : TargetConfig
reader =
    base_target
      (record {
        target_id = "deepharness-read";
        device_id = "dev_abcdefgh";
        environment = production;
        preset = read_only_preset;
      })
      read_only

abbrev read_registry : Registry
read_registry = record {
  files = record { static_file = targets (made ∷ []); dynamic_file = targets (reader ∷ []) };
  loaded = some (("vps-one", made) ∷ ("deepharness-read", reader) ∷ []);
}

abbrev pending : Dict DeepharnessRead.Pending
pending = ("adm_1", record { actor = "owner"; expires = 602_000; device_id = "dev_abcdefgh" }) ∷ []

-- The approval is applied, and the target may read the two containers.
reader_reads :
    let applied =
      apply_deepharness_docker_read access world.env stored "owner" "adm_1" "APPROVE adm_1" 3000
        pending read_registry in
    (applied.2 ≡ ok tt)
    × (get_target read_target applied.1
        ≡ ok (some (record reader { allowed_docker_containers = read_containers })))
unfolding preset_target apply_deepharness_docker_read lookup DeepharnessRead.check_read
    require_approval_confirmation trim DeepharnessRead.baseline get_target
    DeepharnessRead.check_baseline base_target has_no_authority all require_live_device find
    list_devices DeepharnessRead.grant_read upsert_dynamic_agent_target has_device_id
    parse_registry_file is_stale add_targets insert_by_id is_valid_agent_target load_registry
    next_dynamic sort_by_id write_dynamic insert remove any filter includes add_trimmed is_space
    trim_end trim_start insert_by_age sort_by_age
reader_reads = (refl, refl)

containers_example :
    let applied =
      apply_deepharness_docker_read access world.env stored "owner" "adm_1" "APPROVE adm_1" 3000
        pending read_registry in
    (applied.1 ≡ read_registry)
    ⊎ ((p : DeepharnessRead.Pending) × (t : TargetConfig) × (lookup "adm_1" pending ≡ some p)
        × (3000 ≤ p.expires)
        × ("owner" ≡ p.actor)
        × (trim "APPROVE adm_1" ≡ concat "APPROVE " "adm_1")
        × (get_target read_target read_registry ≡ ok (some t))
        × IsReader world.env stored 3000 p.device_id t
        × (applied.1
            ≡ (upsert_dynamic_agent_target keep_order
                (λ t. some t)
                (record t { allowed_docker_containers = read_containers })
                read_registry).0))
containers_example =
    only_containers_change access world.env stored "owner" "adm_1" "APPROVE adm_1" 3000 pending
      read_registry
