-- ===== src/Store/Model.antt =====
-- The records of src/state/store.ts, and the process that holds them: the state in memory, what the
-- state file holds, and the map `lastSessionTouch`. Times are milliseconds. A text that stands for a
-- hash or a random id is opaque. Writing the file is taken to succeed.
use remote_ops_mcp.Prelude.{ℕ, String, Bool, Option, List, []}
use remote_ops_mcp.Dict.{Dict}

pub record StoredClient : Type 0 where
  pub client_id : String
  pub client_name : Option String
  pub redirect_uris : List String
  pub created_at : ℕ
  pub last_seen_at : Option ℕ
  pub revoked_at : Option ℕ

pub record StoredAuthCode : Type 0 where
  pub code_hash : String
  pub client_id : String
  pub redirect_uri : String
  pub challenge : String
  pub resource : Option String
  pub expires_at : ℕ

pub record StoredSession : Type 0 where
  pub session_id : String
  pub client_id : String
  pub created_at : ℕ
  pub last_seen_at : ℕ
  pub access_expires_at : ℕ
  pub refresh_hash : String
  pub refresh_expires_at : ℕ
  pub resource : Option String
  pub revoked_at : Option ℕ

pub record TargetControl : Type 0 where
  pub enabled : Bool
  pub updated_at : ℕ
  pub reason : Option String

pub data ToolResult : Type 0 where
  ok denied error : ToolResult

pub record TargetActivity : Type 0 where
  pub last_seen_at : ℕ
  pub last_ok_at : Option ℕ
  pub last_error_at : Option ℕ
  pub last_tool : Option String
  pub last_result : ToolResult
  pub last_error_code : Option String

pub record StoredPairing : Type 0 where
  pub pairing_id : String
  pub code_hash : String
  pub poll_hash : String
  pub created_at : ℕ
  pub expires_at : ℕ
  pub hostname : String
  pub os : Option String
  pub agent_version : Option String
  pub fingerprint : Option String
  pub approved_at : Option ℕ
  pub claimed_at : Option ℕ
  pub device_id : Option String

pub record StoredDevice : Type 0 where
  pub device_id : String
  pub display_name : String
  pub hostname : String
  pub os : Option String
  pub agent_version : Option String
  pub fingerprint : Option String
  pub credential_hash : String
  pub created_at : ℕ
  pub last_seen_at : Option ℕ
  pub capabilities : Option (List String)
  pub revoked_at : Option ℕ

pub record UsageBucket : Type 0 where
  pub tool_calls : ℕ
  pub ok : ℕ
  pub denied : ℕ
  pub error : ℕ

pub record PersistentState : Type 0 where
  pub clients : Dict StoredClient
  pub auth_codes : Dict StoredAuthCode
  pub sessions : Dict StoredSession
  pub target_controls : Dict TargetControl
  pub target_activity : Dict TargetActivity
  pub usage_monthly : Dict UsageBucket
  pub pairings : Dict StoredPairing
  pub devices : Dict StoredDevice

abbrev pub empty_state : PersistentState
empty_state = record {
  clients = [];
  auth_codes = [];
  sessions = [];
  target_controls = [];
  target_activity = [];
  usage_monthly = [];
  pairings = [];
  devices = [];
}

-- The settings of src/lib/env.ts that the store reads.
pub record Limits : Type 0 where
  pub oauth_max_clients : ℕ
  pub oauth_pending_client_ttl_hours : ℕ
  pub agent_pairing_ttl_minutes : ℕ
  pub agent_max_devices : ℕ
  pub agent_max_pending_pairings : ℕ

pub record Process : Type 0 where
  pub state : PersistentState
  pub open state use *
  pub file : PersistentState
  pub last_session_touch : Dict ℕ

-- Writes the state over the state file.
unfoldable pub persist : Process → Process
persist p = record p { file = p.state }

-- Sets one component of the state.
abbrev pub set_clients : Process → Dict StoredClient → Process
set_clients p d = record p { state = record p.state { clients = d } }

abbrev pub set_auth_codes : Process → Dict StoredAuthCode → Process
set_auth_codes p d = record p { state = record p.state { auth_codes = d } }

abbrev pub set_sessions : Process → Dict StoredSession → Process
set_sessions p d = record p { state = record p.state { sessions = d } }

abbrev pub set_target_controls : Process → Dict TargetControl → Process
set_target_controls p d = record p { state = record p.state { target_controls = d } }

abbrev pub set_target_activity : Process → Dict TargetActivity → Process
set_target_activity p d = record p { state = record p.state { target_activity = d } }

abbrev pub set_usage_monthly : Process → Dict UsageBucket → Process
set_usage_monthly p d = record p { state = record p.state { usage_monthly = d } }

abbrev pub set_pairings : Process → Dict StoredPairing → Process
set_pairings p d = record p { state = record p.state { pairings = d } }

abbrev pub set_devices : Process → Dict StoredDevice → Process
set_devices p d = record p { state = record p.state { devices = d } }

-- What the parsed file holds: a component is `none` if it is missing or no object. A root that is
-- no object is no `RawState`.
pub record RawState : Type 0 where
  pub version : Option ℕ
  pub clients : Option (Dict StoredClient)
  pub auth_codes : Option (Dict StoredAuthCode)
  pub sessions : Option (Dict StoredSession)
  pub target_controls : Option (Dict TargetControl)
  pub target_activity : Option (Dict TargetActivity)
  pub usage_monthly : Option (Dict UsageBucket)
  pub pairings : Option (Dict StoredPairing)
  pub devices : Option (Dict StoredDevice)
