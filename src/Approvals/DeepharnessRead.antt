-- ===== src/Approvals/DeepharnessRead.antt =====
-- src/config/deepharness-read-approval.ts: letting a read-only target read two containers.
pub mod Authority
use remote_ops_mcp.Prelude.{
  ℕ, ◌+◌, String, Bool, true, false, ◌&&◌, none, some, List, [], ◌∷◌, ◌==◌, ltb, if◌then◌else◌,
  includes, all,
}
use remote_ops_mcp.Errors.{
  Result, ok, err, require, ◌>>=◌, ◌>>◌, capability_denied, invalid_argument,
}
use remote_ops_mcp.Dict.{Dict, lookup, insert, remove, prune}
use remote_ops_mcp.Store.Model.{Process}
use remote_ops_mcp.Config.Target.{
  TargetConfig, Environment, production, CapabilityProfile, read_only,
}
use remote_ops_mcp.Config.Baseline.{has_device, is_empty}
use remote_ops_mcp.Config.Registry.{Registry, get_target, upsert_dynamic_agent_target}
use remote_ops_mcp.Approvals.Utils.{
  Settings, approval_ttl_ms, new_approval_id, require_live_device, require_approval_confirmation,
}
use remote_ops_mcp.Approvals.AgentTarget.{Access}

abbrev pub read_target : String
read_target = "deepharness-read"

abbrev pub read_containers : List String
read_containers = "deepharness-web-1" ∷ "deepharness-mcp-grants-db-1" ∷ []

pub record Pending : Type 0 where
  pub actor : String
  pub expires : ℕ
  pub device_id : String

abbrev pub is_read_only : CapabilityProfile → Bool
is_read_only read_only = true
is_read_only _ = false

abbrev pub is_production : Environment → Bool
is_production production = true
is_production _ = false

-- No authority beyond reading.
unfoldable pub has_no_authority : TargetConfig → Bool
has_no_authority t =
    is_empty t.allowed_docker_exec_containers
    && (is_empty t.allowed_docker_exec_programs
        && (is_empty t.allowed_docker_actions
            && (is_empty t.allowed_write_paths
                && (is_empty t.allowed_process_programs
                    && (is_empty t.allowed_admin_programs
                        && is_empty t.allowed_semantic_capabilities)))))

unfoldable pub check_baseline :
    Settings → Process → ℕ → TargetConfig → Result (TargetConfig × String)
check_baseline env store now t = elim (has_device t) [
  | none ↦ err capability_denied
  | some device ↦ do
    require (is_read_only t.capability_profile && (t.enabled && is_production t.environment))
        capability_denied
    require (has_no_authority t) capability_denied
    require (all (λ c. includes c read_containers) t.allowed_docker_containers) capability_denied
    live ← require_live_device env device now store
    ok (t, device)
]

-- The target, and its device.
unfoldable pub baseline : Settings → Process → Registry → ℕ → Result (TargetConfig × String)
baseline env store r now = do
  found ← get_target read_target r
  elim found [ none ↦ err capability_denied | some t ↦ check_baseline env store now t ]

abbrev pub is_expired : ℕ → String → Pending → Bool
is_expired now id p = ltb p.expires now

unfoldable pub prepare_deepharness_docker_read :
    Settings
    → Process
    → Registry
    → String
    → String
    → ℕ
    → Dict Pending
    → Dict Pending × Result String
prepare_deepharness_docker_read env store r actor hex now pending =
    elim (baseline env store r now) [
      | err e ↦ (pending, err e)
      | ok (t, device) ↦
          let id = new_approval_id hex in
          let p : Pending = record {
            actor = actor;
            expires = now + approval_ttl_ms;
            device_id = device;
          } in
          (insert id p (prune (is_expired now) pending), ok id)
    ]

-- The end of `applyDeepharnessDockerRead`: two containers, and nothing else, are written.
unfoldable pub grant_read :
    Access
    → TargetConfig
    → String
    → Dict Pending
    → Registry
    → Dict Pending × Registry × Result (Unit {0})
grant_read x t id pending r =
    let (r', result) =
      upsert_dynamic_agent_target x.le x.schema
        (record t { allowed_docker_containers = read_containers }) r in
    elim result [ err e ↦ (pending, r', err e) | ok _ ↦ (remove id pending, r', ok tt) ]

-- The checks of an approval that is there and unexpired.
unfoldable pub check_read :
    Settings
    → Process
    → Registry
    → Pending
    → String
    → String
    → String
    → ℕ
    → Result (TargetConfig × String)
check_read env store r p actor id confirmation now = do
  require (actor == p.actor) capability_denied
  require_approval_confirmation id confirmation
  t ← baseline env store r now
  require (t.1 == p.device_id) capability_denied
  ok t

unfoldable pub apply_deepharness_docker_read :
    Access
    → Settings
    → Process
    → String
    → String
    → String
    → ℕ
    → Dict Pending
    → Registry
    → Dict Pending × Registry × Result (Unit {0})
apply_deepharness_docker_read x env store actor id confirmation now pending r =
    elim (lookup id pending) [
      | none ↦ (remove id pending, r, err invalid_argument)
      | some p ↦
          if ltb p.expires now
          then (remove id pending, r, err invalid_argument)
          else (elim (check_read env store r p actor id confirmation now) [
            | err e ↦ (pending, r, err e)
            | ok (t, device) ↦ grant_read x t id pending r
          ])
    ]
