-- ===== src/Approvals/Utils.antt =====
-- src/config/approval-utils.ts
use remote_ops_mcp.Prelude.{
  ℕ, ◌*◌, ◌-◌, String, Bool, false, not, ◌&&◌, ◌||◌, Option, none, some, ◌==◌, ltb, if◌then◌else◌,
  find, truthy, or_else, trim, concat, text_length,
}
use remote_ops_mcp.Errors.{
  Result, ok, err, require, capability_denied, invalid_argument, remote_command_failed,
}
use remote_ops_mcp.Store.Model.{StoredDevice, Process}
use remote_ops_mcp.Store.Devices.{list_devices}

abbrev pub approval_ttl_ms : ℕ
approval_ttl_ms = 10 * 60_000

-- The settings of src/lib/env.ts that the approvals read.
pub record Settings : Type 0 where
  pub is_oauth : Bool
  pub auth_secret : Option String
  pub agent_heartbeat_stale_seconds : ℕ

-- "adm_" and 24 hexadecimal digits that the call draws
abbrev pub new_approval_id : String → String
new_approval_id hex = concat "adm_" hex

-- `now - last_seen_at > staleMs`, or never seen
unfoldable pub is_stale : Settings → ℕ → StoredDevice → Bool
is_stale env now d =
    not (truthy d.last_seen_at)
    || ltb (env.agent_heartbeat_stale_seconds * 2 * 1000) (now - or_else d.last_seen_at 0)

unfoldable pub require_live_device : Settings → String → ℕ → Process → Result StoredDevice
unfolding is_stale
require_live_device env device_id now p =
    elim (find (λ d. d.device_id == device_id) (list_devices p)) [
      | none ↦ err invalid_argument
      | some d ↦
          if truthy d.revoked_at
          then err invalid_argument
          else if is_stale env now d
          then err remote_command_failed
          else ok d
    ]

unfoldable pub require_approval_confirmation : String → String → Result (Unit {0})
require_approval_confirmation id confirmation =
    require (trim confirmation == concat "APPROVE " id) capability_denied

-- AUTH_MODE=oauth and a secret of 32 units at least
unfoldable pub has_strong_auth : Settings → Bool
has_strong_auth env =
    env.is_oauth && (elim env.auth_secret [ none ↦ false | some s ↦ not (ltb (text_length s) 32) ])
