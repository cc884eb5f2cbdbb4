-- ===== src/Store/Invariant.antt =====
-- What every call keeps of the state: entries under their own keys, the client limit, and usage
-- counters that add up.
pub mod Accounts
pub mod Devices
pub mod Histories
use remote_ops_mcp.Prelude.{ℕ, ◌+◌, ◌≤◌, String, ◌≡◌, some, arith, length, ◌∙◌}
use remote_ops_mcp.Dict.{Dict, lookup, insert}
use remote_ops_mcp.Dict.Keys.{length-insert}
use remote_ops_mcp.Dict.Index.{IsIndex, IsIndex-empty, IsIndex-insert, IsIndex-key}
use remote_ops_mcp.Store.Model.{
  StoredClient, StoredAuthCode, StoredSession, StoredPairing, StoredDevice, UsageBucket,
  TargetActivity, TargetControl, Limits, PersistentState, empty_state,
}

abbrev pub IsBalanced : Dict UsageBucket → Type 0
IsBalanced d =
    (m : String) (b : UsageBucket) → lookup m d ≡ some b → b.tool_calls ≡ b.ok + b.denied + b.error

-- The parts stay behind their lemmas.
pub record IsValid (env : Limits) (s : PersistentState) : Type 0 where
  pub clients : IsIndex (λ (c : StoredClient). c.client_id) s.clients
  pub bounded : length s.clients ≤ env.oauth_max_clients
  pub auth_codes : IsIndex (λ (c : StoredAuthCode). c.code_hash) s.auth_codes
  pub sessions : IsIndex (λ (x : StoredSession). x.session_id) s.sessions
  pub pairings : IsIndex (λ (x : StoredPairing). x.pairing_id) s.pairings
  pub devices : IsIndex (λ (d : StoredDevice). d.device_id) s.devices
  pub usage : IsBalanced s.usage_monthly

-- Writing one component keeps the state valid, if the component is.
module _ {env : Limits} {s : PersistentState} (h : IsValid env s) where
  pub clients-IsValid :
      (d : Dict StoredClient)
      → IsIndex (λ c. c.client_id) d
      → length d ≤ env.oauth_max_clients
      → IsValid env (record s { clients = d })
  clients-IsValid d i b = record {
    clients = i;
    bounded = b;
    auth_codes = h.auth_codes;
    sessions = h.sessions;
    pairings = h.pairings;
    devices = h.devices;
    usage = h.usage;
  }

  pub auth_codes-IsValid :
      (d : Dict StoredAuthCode)
      → IsIndex (λ c. c.code_hash) d
      → IsValid env (record s { auth_codes = d })
  auth_codes-IsValid d i = record {
    clients = h.clients;
    bounded = h.bounded;
    auth_codes = i;
    sessions = h.sessions;
    pairings = h.pairings;
    devices = h.devices;
    usage = h.usage;
  }

  pub sessions-IsValid :
      (d : Dict StoredSession)
      → IsIndex (λ x. x.session_id) d
      → IsValid env (record s { sessions = d })
  sessions-IsValid d i = record {
    clients = h.clients;
    bounded = h.bounded;
    auth_codes = h.auth_codes;
    sessions = i;
    pairings = h.pairings;
    devices = h.devices;
    usage = h.usage;
  }

  pub pairings-IsValid :
      (d : Dict StoredPairing)
      → IsIndex (λ x. x.pairing_id) d
      → IsValid env (record s { pairings = d })
  pairings-IsValid d i = record {
    clients = h.clients;
    bounded = h.bounded;
    auth_codes = h.auth_codes;
    sessions = h.sessions;
    pairings = i;
    devices = h.devices;
    usage = h.usage;
  }

  pub devices-IsValid :
      (d : Dict StoredDevice)
      → IsIndex (λ x. x.device_id) d
      → IsValid env (record s { devices = d })
  devices-IsValid d i = record {
    clients = h.clients;
    bounded = h.bounded;
    auth_codes = h.auth_codes;
    sessions = h.sessions;
    pairings = h.pairings;
    devices = i;
    usage = h.usage;
  }

  pub usage-IsValid :
      (d : Dict UsageBucket) → IsBalanced d → IsValid env (record s { usage_monthly = d })
  usage-IsValid d i = record {
    clients = h.clients;
    bounded = h.bounded;
    auth_codes = h.auth_codes;
    sessions = h.sessions;
    pairings = h.pairings;
    devices = h.devices;
    usage = i;
  }

  pub activity-IsValid : (d : Dict TargetActivity) → IsValid env (record s { target_activity = d })
  activity-IsValid d = record {
    clients = h.clients;
    bounded = h.bounded;
    auth_codes = h.auth_codes;
    sessions = h.sessions;
    pairings = h.pairings;
    devices = h.devices;
    usage = h.usage;
  }

  pub controls-IsValid : (d : Dict TargetControl) → IsValid env (record s { target_controls = d })
  controls-IsValid d = record {
    clients = h.clients;
    bounded = h.bounded;
    auth_codes = h.auth_codes;
    sessions = h.sessions;
    pairings = h.pairings;
    devices = h.devices;
    usage = h.usage;
  }

  -- An entry is replaced by one with the same id.
  pub client_entry-IsValid :
      (id : String) (c d : StoredClient)
      → lookup id s.clients ≡ some c
      → d.client_id ≡ c.client_id
      → IsValid env (record s { clients = insert id d s.clients })
  client_entry-IsValid id c d found same =
      clients-IsValid (insert id d s.clients)
        (IsIndex-insert _ id d s.clients (same ∙ IsIndex-key _ s.clients id c h.clients found)
          h.clients)
        (ground (arith, length-insert id d s.clients, h.bounded))

  pub session_entry-IsValid :
      (id : String) (c d : StoredSession)
      → lookup id s.sessions ≡ some c
      → d.session_id ≡ c.session_id
      → IsValid env (record s { sessions = insert id d s.sessions })
  session_entry-IsValid id c d found same = sessions-IsValid (insert id d s.sessions) (
      IsIndex-insert _ id d s.sessions (same ∙ IsIndex-key _ s.sessions id c h.sessions found)
        h.sessions)

  pub pairing_entry-IsValid :
      (id : String) (c d : StoredPairing)
      → lookup id s.pairings ≡ some c
      → d.pairing_id ≡ c.pairing_id
      → IsValid env (record s { pairings = insert id d s.pairings })
  pairing_entry-IsValid id c d found same = pairings-IsValid (insert id d s.pairings) (
      IsIndex-insert _ id d s.pairings (same ∙ IsIndex-key _ s.pairings id c h.pairings found)
        h.pairings)

  pub device_entry-IsValid :
      (id : String) (c d : StoredDevice)
      → lookup id s.devices ≡ some c
      → d.device_id ≡ c.device_id
      → IsValid env (record s { devices = insert id d s.devices })
  device_entry-IsValid id c d found same = devices-IsValid (insert id d s.devices) (
      IsIndex-insert _ id d s.devices (same ∙ IsIndex-key _ s.devices id c h.devices found)
        h.devices)

pub empty_state-IsValid : (env : Limits) → IsValid env empty_state
unfolding lookup
empty_state-IsValid env = record {
  clients = IsIndex-empty _;
  bounded = omega arith;
  auth_codes = IsIndex-empty _;
  sessions = IsIndex-empty _;
  pairings = IsIndex-empty _;
  devices = IsIndex-empty _;
  usage = λ m b e. absurd (cc);
}
