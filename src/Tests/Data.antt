-- ===== src/Tests/Data.antt =====
-- A small store: one client with a session, an approved pairing, a device.
use remote_ops_mcp.Prelude.{
  String, none, some, [], ◌∷◌, arith, concat, if◌then◌else◌, ltb, ◌≡◌, refl,
}
use remote_ops_mcp.Dict.{lookup, insert}
use remote_ops_mcp.Dict.Index.{IsIndex, IsIndex-insert, IsIndex-empty}
use remote_ops_mcp.Store.Model.{
  StoredClient, StoredAuthCode, StoredSession, StoredPairing, StoredDevice, PersistentState, Limits,
  Process,
}
use remote_ops_mcp.Store.Pairings.{Platform}
use remote_ops_mcp.Store.Calls.{Setup}
use remote_ops_mcp.Store.Invariant.{IsValid}

abbrev pub limits : Limits
limits = record {
  oauth_max_clients = 2;
  oauth_pending_client_ttl_hours = 24;
  agent_pairing_ttl_minutes = 10;
  agent_max_devices = 3;
  agent_max_pending_pairings = 2;
}

abbrev pub hash : String → String
hash s = concat "h:" s

abbrev pub platform : Platform
platform = record { sha256 = hash; hmac = λ k m. concat k m; to_upper_case = λ s. s }

abbrev pub setup : Setup
setup = record {
  env = limits;
  os = platform;
  clip = λ r. r;
  month_of = λ t. if ltb t 1000 then "2024-01" else "2024-02";
}

abbrev pub client : StoredClient
client = record {
  client_id = "c1";
  client_name = none;
  redirect_uris = [];
  created_at = 1;
  last_seen_at = some 5;
  revoked_at = none;
}

abbrev pub session : StoredSession
session = record {
  session_id = "s1";
  client_id = "c1";
  created_at = 5;
  last_seen_at = 5;
  access_expires_at = 50;
  refresh_hash = "h:r1";
  refresh_expires_at = 500;
  resource = none;
  revoked_at = none;
}

abbrev pub code : StoredAuthCode
code = record {
  code_hash = "";
  client_id = "c1";
  redirect_uri = "https://example.org/callback";
  challenge = "x";
  resource = none;
  expires_at = 100;
}

abbrev pub pairing : StoredPairing
pairing = record {
  pairing_id = "p1";
  code_hash = "h:WD-AAAA-BBBB";
  poll_hash = "h:poll";
  created_at = 5;
  expires_at = 600_005;
  hostname = "vps";
  os = none;
  agent_version = none;
  fingerprint = none;
  approved_at = some 7;
  claimed_at = none;
  device_id = none;
}

abbrev pub device : StoredDevice
device = record {
  device_id = "d1";
  display_name = "old";
  hostname = "old";
  os = none;
  agent_version = none;
  fingerprint = none;
  credential_hash = "h:secret";
  created_at = 2;
  last_seen_at = none;
  capabilities = none;
  revoked_at = none;
}

abbrev pub state : PersistentState
state = record {
  clients = ("c1", client) ∷ [];
  auth_codes = [];
  sessions = ("s1", session) ∷ [];
  target_controls = [];
  target_activity = [];
  usage_monthly = [];
  pairings = ("p1", pairing) ∷ [];
  devices = ("d1", device) ∷ [];
}

abbrev pub process : Process
process = record { state = state; file = state; last_session_touch = [] }

single-IsIndex :
    {V : Type 0} (f : V → String) (k : String) (v : V) → f v ≡ k → IsIndex f ((k, v) ∷ [])
unfolding insert
single-IsIndex f k v e = IsIndex-insert f k v [] e (IsIndex-empty f)

pub state-IsValid : IsValid limits state
unfolding lookup
state-IsValid = record {
  clients = single-IsIndex (λ (c : StoredClient). c.client_id) "c1" client refl;
  bounded = ground arith;
  auth_codes = IsIndex-empty (λ (c : StoredAuthCode). c.code_hash);
  sessions = single-IsIndex (λ (x : StoredSession). x.session_id) "s1" session refl;
  pairings = single-IsIndex (λ (x : StoredPairing). x.pairing_id) "p1" pairing refl;
  devices = single-IsIndex (λ (d : StoredDevice). d.device_id) "d1" device refl;
  usage = λ m b h. ground (arith, h);
}
