-- ===== src/Tests/Root.antt =====
-- Root commands at concrete data: approval, ticket, broker.
use remote_ops_mcp.Prelude.{
  any, trim, text_length, includes, all, find, String, ◌≡◌, ◌≢◌, refl, true, false, none, some,
  List, [], ◌∷◌, arith, ◌==◌, eq_iff, truthy, take,
}
use remote_ops_mcp.Errors.{ok, err, invalid_argument}
use remote_ops_mcp.Dict.{Dict, lookup, insert, prune, remove}
use remote_ops_mcp.Dict.Index.{IsIndex, IsIndex-empty, IsIndex-insert}
use remote_ops_mcp.Store.Model.{StoredDevice, Process, empty_state}
use remote_ops_mcp.Config.Target.{TargetConfig, operator, production}
use remote_ops_mcp.Config.Presets.{base_target, preset_target, managed_admin}
use remote_ops_mcp.Config.Registry.{get_target, absent}
use remote_ops_mcp.Privileged.Ticket.{
  is_program_name, is_plain_argument, is_timeout, sign_managed_admin_ticket, is_well_formed,
  is_nonce, is_target_id, is_device_id, is_signature_text, Crypto, to_raw,
  normalize_managed_admin_ticket, verify_managed_admin_ticket,
}
use remote_ops_mcp.Privileged.Broker as Broker
use remote_ops_mcp.Privileged.Broker.{
  validate_local_authority, cwd_allowed, real_roots, add_root, consume_nonce, executed, handle,
  authorize, load_replay,
}
use remote_ops_mcp.Privileged.Broker.Replay.{
  Request, serve, serve_one, IsAuthorized, executed_only_with_authority, ticket_runs_once,
}
use remote_ops_mcp.Privileged.Broker.Output.{collect, joined, output_is_prefix}
use remote_ops_mcp.Approvals.ManagedAdmin.{
  purge, check_consumer, checked_ticket, require_managed_admin_auth_secret,
  require_managed_admin_target, require_device_capability, check_managed_admin_target,
  normalize_argv, normalize_cwd, normalize_program, normalize_timeout, sign_checked, checked_action,
  World, Pending, PrepareInput, items, ConsumeInput, Signed, prepare_managed_admin_action,
  consume_managed_admin_approval, new_pending,
}
use remote_ops_mcp.Approvals.ManagedAdmin.Safety.{IsGranted, ticket_of, ticket_only_if_confirmed}
use remote_ops_mcp.Approvals.ManagedAdmin.Once.{Call, prepares, run, approval_is_single_use}
use remote_ops_mcp.Approvals.ManagedAdmin.Handover.{
  IsSound, broker_takes_ticket, confirmed_action_is_granted,
}
use remote_ops_mcp.Approvals.Utils.{
  require_approval_confirmation, has_strong_auth, require_live_device,
}
use remote_ops_mcp.Store.Targets.{effective_target_enabled}
use remote_ops_mcp.Store.Devices.{list_devices}
use remote_ops_mcp.Privileged.Policy.{is_below, clean_cwd, cwd_lexically_allowed}

abbrev target : TargetConfig
target = preset_target managed_admin (
    base_target
      (record {
        target_id = "vps-one";
        device_id = "dev_abcdefgh";
        environment = production;
        preset = managed_admin;
      })
      operator)

abbrev device : StoredDevice
device = record {
  device_id = "dev_abcdefgh";
  display_name = "vps";
  hostname = "vps";
  os = none;
  agent_version = none;
  fingerprint = none;
  credential_hash = "h";
  created_at = 2;
  last_seen_at = some 1000;
  capabilities = some ("host.managed_admin" ∷ []);
  revoked_at = none;
}

abbrev pub stored : Process
stored = record {
  state = record empty_state { devices = ("dev_abcdefgh", device) ∷ [] };
  file = empty_state;
  last_session_touch = [];
}

abbrev signature : String
signature = "AAAAAAAAAAAAAAAAAAAAAAAAAAAAAAAAAAAAAAAAAAA"

abbrev crypto : Crypto
crypto = record {
  byte_length = λ s. 1;
  json = λ t. t.nonce;
  private_key = λ s. s;
  public_key = λ s. s;
  sign = λ key bytes. signature;
  verify = λ key bytes s. s == signature;
}

abbrev secret : String
secret = "0123456789abcdef0123456789abcdef"

abbrev pub world : World
world = record {
  env = record { is_oauth = true; auth_secret = some secret; agent_heartbeat_stale_seconds = 60 };
  crypto = crypto;
  store = stored;
  registry = record {
    files = record { static_file = absent; dynamic_file = absent };
    loaded = some (("vps-one", target) ∷ []);
  };
}

abbrev request : PrepareInput
request = record {
  actor = "owner";
  target_id = "vps-one";
  program = "systemctl";
  argv = items ("restart" ∷ "nginx" ∷ []);
  cwd = some "/opt/wandora";
  timeout_ms = none;
}

abbrev approval : Pending
approval = new_pending "adm_1" "owner" 2000 (record {
  target_id = "vps-one";
  device_id = "dev_abcdefgh";
  program = "systemctl";
  argv = "restart" ∷ "nginx" ∷ [];
  cwd = "/opt/wandora";
  timeout_ms = 30_000;
})

abbrev nonce : String
nonce = "0123456789abcdef0123456789abcdef0123456789abcdef"

abbrev answer : ConsumeInput
answer = record {
  actor = "owner";
  target_id = "vps-one";
  approval_id = "adm_1";
  confirmation = " APPROVE adm_1 ";
}

abbrev approvals : Dict Pending
approvals = ("adm_1", approval) ∷ []

approvals-IsIndex : IsIndex (λ (a : Pending). a.id) approvals
unfolding insert
approvals-IsIndex =
    IsIndex-insert (λ (a : Pending). a.id) "adm_1" approval [] refl
      (IsIndex-empty (λ (a : Pending). a.id))

abbrev signed : Signed
signed = record {
  approval_id = "adm_1";
  target = target;
  ticket = ticket_of approval nonce 3000;
  signature = signature;
}

granted : (consume_managed_admin_approval world answer nonce 3000 approvals).1 ≡ ok signed
unfolding consume_managed_admin_approval lookup purge prune check_consumer
    require_approval_confirmation trim checked_ticket require_managed_admin_auth_secret
    has_strong_auth text_length require_managed_admin_target get_target effective_target_enabled
    preset_target base_target includes require_device_capability check_managed_admin_target
    normalize_argv normalize_cwd normalize_program normalize_timeout sign_checked
    require_live_device remove all find cwd_lexically_allowed is_program_name is_plain_argument
    is_timeout sign_managed_admin_ticket list_devices is_well_formed is_below clean_cwd
granted = refl

ticket_example :
    ((a : Pending) × (lookup "adm_1" approvals ≡ some a)
      × IsGranted world answer nonce 3000 a signed)
    × (lookup "adm_1" (consume_managed_admin_approval world answer nonce 3000 approvals).0 ≡ none)
ticket_example =
    ticket_only_if_confirmed world answer nonce 3000 approvals signed approvals-IsIndex granted

abbrev later_calls : List Call
later_calls = prepares world request "2" 3500 ∷ []

single_use_example :
    (consume_managed_admin_approval world answer nonce 4000
      (run later_calls (consume_managed_admin_approval world answer nonce 3000 approvals).0)).1
    ≡ err invalid_argument
single_use_example =
    approval_is_single_use world world answer answer nonce nonce 3000 4000 approvals later_calls
      signed approvals-IsIndex granted (ground (arith, eq_iff "adm_2" "adm_1"), tt) refl

abbrev hex : String
hex = "1"

prepared : (prepare_managed_admin_action world request hex 2000 []).1 ≡ ok approval
unfolding prepare_managed_admin_action checked_action lookup purge prune check_consumer
    require_approval_confirmation trim checked_ticket require_managed_admin_auth_secret
    has_strong_auth text_length require_managed_admin_target get_target effective_target_enabled
    preset_target base_target includes require_device_capability check_managed_admin_target
    normalize_argv normalize_cwd normalize_program normalize_timeout sign_checked
    require_live_device remove all find cwd_lexically_allowed is_program_name is_plain_argument
    is_timeout sign_managed_admin_ticket list_devices is_well_formed is_below clean_cwd
prepared = refl

live : require_device_capability world "dev_abcdefgh" 3000 ≡ ok tt
unfolding require_device_capability require_live_device find list_devices includes
live = refl

confirmed_example :
    (r : Signed) × ((consume_managed_admin_approval world answer nonce 3000
        (prepare_managed_admin_action world request hex 2000 []).0).1
      ≡ ok r)
    × (r.ticket ≡ ticket_of approval nonce 3000)
unfolding trim is_nonce is_target_id is_device_id
confirmed_example =
    confirmed_action_is_granted world request hex nonce " APPROVE adm_1 " 2000 3000 [] approval
      prepared refl (ground arith) refl live refl refl refl

abbrev broker : Broker.Settings
broker = record {
  roots = "/opt/wandora" ∷ [];
  programs = "systemctl" ∷ [];
  expected_device = "dev_abcdefgh";
  public_key = secret;
  realpath = λ path. some path;
}

crypto-IsSound : IsSound crypto
unfolding is_signature_text
crypto-IsSound = record { verifies = λ key bytes. refl; text = λ key bytes. refl }

auth_secret : require_managed_admin_auth_secret world.env ≡ ok secret
unfolding require_managed_admin_auth_secret has_strong_auth text_length
auth_secret = refl

broker_example :
    handle crypto broker (to_raw signed.ticket) signature 3100 3200 []
    ≡ authorize broker signed.ticket 3100 3200 []
broker_example =
    broker_takes_ticket world answer nonce 3000 approvals signed broker secret 3100 3200 []
      approvals-IsIndex crypto-IsSound auth_secret refl granted

abbrev incoming : Request
incoming = record {
  raw = to_raw signed.ticket;
  signature = signature;
  now = 3100;
  consumed_at = 3200;
}

ran : (serve_one crypto broker incoming []).1 ≡ executed signed.ticket "/opt/wandora"
unfolding handle authorize is_well_formed normalize_managed_admin_ticket verify_managed_admin_ticket
    validate_local_authority cwd_allowed real_roots add_root any includes consume_nonce
ran = refl

executed_example :
    (normalize_managed_admin_ticket crypto.byte_length incoming.raw ≡ some signed.ticket)
    × (verify_managed_admin_ticket crypto signed.ticket signature secret ≡ true)
    × IsAuthorized broker signed.ticket 3100 "/opt/wandora"
    × (truthy (lookup nonce (load_replay 3200 [])) ≡ false)
executed_example =
    executed_only_with_authority crypto broker incoming signed.ticket [] "/opt/wandora" ran

abbrev again : Request
again = record { raw = to_raw signed.ticket; signature = signature; now = 3400; consumed_at = 3500 }

runs_once_example :
    (serve_one crypto broker again
      (serve crypto broker [] (serve_one crypto broker incoming []).0)).1
    ≢ executed signed.ticket "/opt"
runs_once_example =
    ticket_runs_once crypto broker signed.ticket incoming again [] [] "/opt/wandora" "/opt" ran
      (ground arith) tt (ground arith) (ground arith)

output_example :
    (collect 4 [] false ((1 ∷ 2 ∷ []) ∷ (3 ∷ 4 ∷ 5 ∷ []) ∷ [])).0
    ≡ take 4 (joined ((1 ∷ 2 ∷ []) ∷ (3 ∷ 4 ∷ 5 ∷ []) ∷ []))
output_example = output_is_prefix 4 ((1 ∷ 2 ∷ []) ∷ (3 ∷ 4 ∷ 5 ∷ []) ∷ [])
