-- ===== src/Approvals/ManagedAdmin.antt =====
-- src/config/managed-admin-approvals.ts: preparing a root command, and turning the confirmed
-- approval into a signed ticket. The summary text is left out.
pub mod Safety
pub mod Once
pub mod Handover
use remote_ops_mcp.Prelude.{
  ℕ, ◌+◌, String, Bool, true, false, not, ◌&&◌, ◌||◌, Option, none, some, List, [], ◌∷◌, ◌==◌, ltb,
  leb, if◌then◌else◌, includes, all, length, or_else,
}
use remote_ops_mcp.Errors.{
  Result, ok, err, require, ◌>>=◌, ◌>>◌, capability_denied, invalid_argument, target_not_found,
  target_disabled, internal,
}
use remote_ops_mcp.Dict.{Dict, lookup, insert, remove, prune}
use remote_ops_mcp.Privileged.Policy.{
  managed_admin_capability, managed_admin_hard_deny, cwd_lexically_allowed,
}
use remote_ops_mcp.Privileged.Ticket.{
  Ticket, Crypto, NumberInput, whole, other, is_program_name, is_plain_argument, is_timeout,
  sign_managed_admin_ticket,
}
use remote_ops_mcp.Store.Model.{Process}
use remote_ops_mcp.Store.Targets.{effective_target_enabled}
use remote_ops_mcp.Config.Target.{TargetConfig, CapabilityProfile, operator}
use remote_ops_mcp.Config.Baseline.{has_device}
use remote_ops_mcp.Config.Registry.{Registry, get_target}
use remote_ops_mcp.Approvals.Utils.{
  Settings, approval_ttl_ms, new_approval_id, require_live_device, require_approval_confirmation,
  has_strong_auth,
}

pub record Action : Type 0 where
  pub target_id : String
  pub device_id : String
  pub program : String
  pub argv : List String
  pub cwd : String
  pub timeout_ms : ℕ

pub record Pending : Type 0 where
  pub id : String
  pub actor : String
  pub created_at : ℕ
  pub expires_at : ℕ
  pub action : Action

-- What the calls read: settings, platform, the store and the registry.
pub record World : Type 0 where
  pub env : Settings
  pub crypto : Crypto
  pub store : Process
  pub registry : Registry

abbrev pub ticket_ttl_ms : ℕ
ticket_ttl_ms = 90_000

abbrev pub is_expired : ℕ → String → Pending → Bool
is_expired now id a = ltb a.expires_at now

unfoldable pub purge : ℕ → Dict Pending → Dict Pending
purge now approvals = prune (is_expired now) approvals

unfoldable pub require_managed_admin_auth_secret : Settings → Result String
require_managed_admin_auth_secret env =
    if has_strong_auth env then ok (or_else env.auth_secret "") else err capability_denied

abbrev pub is_operator : CapabilityProfile → Bool
is_operator operator = true
is_operator _ = false

unfoldable pub check_managed_admin_target : World → TargetConfig → Result (TargetConfig × String)
check_managed_admin_target w t = do
  require (effective_target_enabled t.id t.enabled w.store) target_disabled
  elim (has_device t) [
    | none ↦ err capability_denied
    | some device ↦ do
      require (is_operator t.capability_profile) capability_denied
      require (includes managed_admin_capability t.allowed_semantic_capabilities) capability_denied
      ok (t, device)
  ]

-- A target, and its device.
unfoldable pub require_managed_admin_target : World → String → Result (TargetConfig × String)
unfolding check_managed_admin_target
require_managed_admin_target w target_id = do
  found ← get_target target_id w.registry
  elim found [ none ↦ err target_not_found | some t ↦ check_managed_admin_target w t ]

unfoldable pub normalize_program : TargetConfig → String → Result String
normalize_program t program = do
  require (is_program_name program) invalid_argument
  require (not (includes program managed_admin_hard_deny)) capability_denied
  require (includes program t.allowed_admin_programs) capability_denied
  ok program

-- The `argv` that came in: missing, no array, or the texts of its items.
pub data ArgvInput : Type 0 where
  missing no_array : ArgvInput
  items : List String → ArgvInput

unfoldable pub normalize_argv : (String → ℕ) → ArgvInput → Result (List String)
normalize_argv byte_length missing = ok []
normalize_argv byte_length no_array = err invalid_argument
normalize_argv byte_length (items argv) = do
  require (leb (length argv) 80) invalid_argument
  require (all (is_plain_argument byte_length) argv) invalid_argument
  ok argv

unfoldable pub normalize_cwd : TargetConfig → Option String → Result String
normalize_cwd t value = do
  let cwd = or_else value "/opt/wandora/ops-workspace"
  require (cwd_lexically_allowed cwd t.allowed_admin_cwds) capability_denied
  ok cwd

unfoldable pub normalize_timeout : Option NumberInput → Result ℕ
normalize_timeout none = ok 30_000
normalize_timeout (some other) = err invalid_argument
normalize_timeout (some (whole n)) = do require (is_timeout n) invalid_argument; ok n

unfoldable pub require_device_capability : World → String → ℕ → Result (Unit {0})
require_device_capability w device_id now = do
  device ← require_live_device w.env device_id now w.store
  require (includes managed_admin_capability (or_else device.capabilities [])) capability_denied

pub record PrepareInput : Type 0 where
  pub actor : String
  pub target_id : String
  pub program : String
  pub argv : ArgvInput
  pub cwd : Option String
  pub timeout_ms : Option NumberInput

-- The checked action of a request.
unfoldable pub checked_action : World → PrepareInput → ℕ → Result Action
checked_action w input now = do
  secret ← require_managed_admin_auth_secret w.env
  target ← require_managed_admin_target w input.target_id
  require_device_capability w target.1 now
  program ← normalize_program target.0 input.program
  argv ← normalize_argv w.crypto.byte_length input.argv
  cwd ← normalize_cwd target.0 input.cwd
  timeout ← normalize_timeout input.timeout_ms
  ok (record {
    target_id = target.0.id;
    device_id = target.1;
    program = program;
    argv = argv;
    cwd = cwd;
    timeout_ms = timeout;
  })

abbrev pub new_pending : String → String → ℕ → Action → Pending
new_pending id actor now action = record {
  id = id;
  actor = actor;
  created_at = now;
  expires_at = now + approval_ttl_ms;
  action = action;
}

-- `hex` is what the new id is drawn from.
unfoldable pub prepare_managed_admin_action :
    World → PrepareInput → String → ℕ → Dict Pending → Dict Pending × Result Pending
prepare_managed_admin_action w input hex now approvals =
    let purged = purge now approvals in
    elim (checked_action w input now) [
      | err e ↦ (purged, err e)
      | ok action ↦
          let id = new_approval_id hex in
          let approval = new_pending id input.actor now action in
          (insert id approval purged, ok approval)
    ]

pub record ConsumeInput : Type 0 where
  pub actor : String
  pub target_id : String
  pub approval_id : String
  pub confirmation : String

pub record Signed : Type 0 where
  pub approval_id : String
  pub target : TargetConfig
  pub ticket : Ticket
  pub signature : String

-- The ticket of an approval, by what holds at the time of its use; and the secret.
unfoldable pub checked_ticket :
    World → Pending → String → ℕ → Result (TargetConfig × Ticket × String)
checked_ticket w approval nonce now = do
  secret ← require_managed_admin_auth_secret w.env
  target ← require_managed_admin_target w approval.action.target_id
  require (target.1 == approval.action.device_id) capability_denied
  require_device_capability w approval.action.device_id now
  program ← normalize_program target.0 approval.action.program
  argv ← normalize_argv w.crypto.byte_length (items approval.action.argv)
  cwd ← normalize_cwd target.0 (some approval.action.cwd)
  timeout ← normalize_timeout (some (whole approval.action.timeout_ms))
  ok (
    target.0,
    record {
      v = 1;
      target_id = approval.action.target_id;
      device_id = approval.action.device_id;
      program = program;
      argv = argv;
      cwd = cwd;
      timeout_ms = timeout;
      nonce = nonce;
      issued_at = now;
      expires_at = now + ticket_ttl_ms;
    },
    secret,
  )

-- Who may use the approval.
unfoldable pub check_consumer : Pending → ConsumeInput → Result (Unit {0})
check_consumer approval input = do
  require (approval.actor == input.actor) capability_denied
  require (approval.action.target_id == input.target_id) capability_denied
  require_approval_confirmation approval.id input.confirmation

-- The approval is deleted before the ticket is signed.
unfoldable pub sign_checked :
    World → Pending → TargetConfig × Ticket × String → Dict Pending → Dict Pending × Result Signed
sign_checked w approval (target, ticket, secret) approvals = (
  remove approval.id approvals,
  elim (sign_managed_admin_ticket w.crypto ticket secret) [
    | none ↦ err internal
    | some signature ↦ ok (record {
      approval_id = approval.id;
      target = target;
      ticket = ticket;
      signature = signature;
    })
  ],
)

unfoldable pub consume_managed_admin_approval :
    World → ConsumeInput → String → ℕ → Dict Pending → Dict Pending × Result Signed
consume_managed_admin_approval w input nonce now approvals =
    let purged = purge now approvals in
    elim (lookup input.approval_id purged) [
      | none ↦ (purged, err invalid_argument)
      | some approval ↦ elim (check_consumer approval input) [
        | err e ↦ (purged, err e)
        | ok _ ↦ elim (checked_ticket w approval nonce now) [
          | err e ↦ (purged, err e)
          | ok checked ↦ sign_checked w approval checked purged
        ]
      ]
    ]
