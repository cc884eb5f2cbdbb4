-- ===== src/Approvals/AgentTarget.antt =====
-- src/config/target-approvals.ts: preparing a dynamic target from a preset, and applying it. Texts
-- for the reader are left out.
pub mod Once
use remote_ops_mcp.Prelude.{
  ℕ, ◌+◌, String, Bool, true, false, not, ◌&&◌, ◌||◌, Option, none, some, [], ◌∷◌, ◌==◌, ltb,
  includes, or_else,
}
use remote_ops_mcp.Errors.{
  Result, ok, err, require, ◌>>=◌, ◌>>◌, capability_denied, invalid_argument, internal,
}
use remote_ops_mcp.Dict.{Dict, lookup, insert, remove, prune}
use remote_ops_mcp.Privileged.Policy.{managed_admin_capability}
use remote_ops_mcp.Store.Model.{Process, StoredDevice}
use remote_ops_mcp.Config.Target.{TargetConfig}
use remote_ops_mcp.Config.Presets.{
  Preset, PresetInput, managed_admin, openhands_execute, deepharness_semantic_lab, lab_id, is_lab,
  is_development, build_agent_target_from_preset,
}
use remote_ops_mcp.Config.Baseline.{Order}
use remote_ops_mcp.Config.Registry.{Registry, upsert_dynamic_agent_target}
use remote_ops_mcp.Approvals.Utils.{
  Settings, approval_ttl_ms, new_approval_id, require_live_device, require_approval_confirmation,
  has_strong_auth,
}

pub record Pending : Type 0 where
  pub id : String
  pub actor : String
  pub created_at : ℕ
  pub expires_at : ℕ
  pub target : TargetConfig

abbrev pub is_expired : ℕ → String → Pending → Bool
is_expired now id a = ltb a.expires_at now

unfoldable pub purge : ℕ → Dict Pending → Dict Pending
purge now approvals = prune (is_expired now) approvals

abbrev pub is_privileged : Preset → Bool
is_privileged managed_admin = true
is_privileged openhands_execute = true
is_privileged deepharness_semantic_lab = true
is_privileged _ = false

abbrev pub is_managed_admin : Preset → Bool
is_managed_admin managed_admin = true
is_managed_admin _ = false

abbrev pub deepharness_capability : String
deepharness_capability = "deepharness.semantic"

-- device.capabilities?.includes(c)
unfoldable pub device_has : String → StoredDevice → Bool
device_has c d = includes c (or_else d.capabilities [])

-- if (p) require(b)
abbrev pub require_if : Bool → Bool → Result (Unit {0})
require_if p b = require (not p || b) capability_denied

unfoldable pub from_preset : PresetInput → Result TargetConfig
from_preset input = elim (build_agent_target_from_preset input) [
  | none ↦ err internal
  | some t ↦ ok t
]

-- The target of a request that may be prepared.
unfoldable pub checked_target : Settings → Process → PresetInput → ℕ → Result TargetConfig
checked_target env store input now = do
  require_if (is_privileged input.preset) (has_strong_auth env)
  require_if (is_lab input.preset) (input.target_id == lab_id && is_development input.environment)
  device ← require_live_device env input.device_id now store
  require_if (is_lab input.preset) (device_has deepharness_capability device)
  target ← from_preset input
  require_if (is_managed_admin input.preset) (device_has managed_admin_capability device)
  ok target

unfoldable pub prepare_agent_target :
    Settings
    → Process
    → String
    → PresetInput
    → String
    → ℕ
    → Dict Pending
    → Dict Pending × Result Pending
prepare_agent_target env store actor input hex now approvals =
    let purged = purge now approvals in
    elim (checked_target env store input now) [
      | err e ↦ (purged, err e)
      | ok target ↦
          let approval : Pending = record {
            id = new_approval_id hex;
            actor = actor;
            created_at = now;
            expires_at = now + approval_ttl_ms;
            target = target;
          } in
          (insert (new_approval_id hex) approval purged, ok approval)
    ]

-- `allowedSemanticCapabilities` is just the lab's.
abbrev pub is_lab_target : TargetConfig → Bool
is_lab_target t = t.id == lab_id && (elim t.allowed_semantic_capabilities [
  | [] ↦ false
  | c ∷ cs ↦ c == deepharness_capability && (elim cs [ [] ↦ true | _ ∷ _ ↦ false ])
])

-- What has to hold when the approval is applied.
unfoldable pub check_application :
    Settings → Process → Pending → String → String → ℕ → Result (Unit {0})
check_application env store approval actor confirmation now = do
  require (approval.actor == actor) capability_denied
  require_approval_confirmation approval.id confirmation
  device ← require_live_device env (or_else approval.target.device_id "") now store
  require_if (is_lab_target approval.target) (device_has deepharness_capability device)
  require_if (includes managed_admin_capability approval.target.allowed_semantic_capabilities)
      (device_has managed_admin_capability device)

-- What the registry is reached with.
pub record Access : Type 0 where
  pub le : Order
  pub schema : TargetConfig → Option TargetConfig

-- The approval is deleted only if the registry has taken the target.
unfoldable pub apply_checked :
    Access → Pending → Dict Pending → Registry → Dict Pending × Registry × Result TargetConfig
apply_checked x approval purged r =
    let (r', result) = upsert_dynamic_agent_target x.le x.schema approval.target r in
    elim result [ err e ↦ (purged, r', err e) | ok t ↦ (remove approval.id purged, r', ok t) ]

unfoldable pub apply_agent_target_approval :
    Access
    → Settings
    → Process
    → String
    → String
    → String
    → ℕ
    → Dict Pending
    → Registry
    → Dict Pending × Registry × Result TargetConfig
apply_agent_target_approval x env store actor approval_id confirmation now approvals r =
    let purged = purge now approvals in
    elim (lookup approval_id purged) [
      | none ↦ (purged, r, err invalid_argument)
      | some approval ↦ elim (check_application env store approval actor confirmation now) [
        | err e ↦ (purged, r, err e)
        | ok _ ↦ apply_checked x approval purged r
      ]
    ]
