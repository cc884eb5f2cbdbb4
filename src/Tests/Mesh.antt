-- ===== src/Tests/Mesh.antt =====
-- The gateway and the routes of agents at concrete data.
use remote_ops_mcp.Prelude.{◌≡◌, refl, true, false, none, some, [], ◌∷◌, any}
use remote_ops_mcp.Dict.{lookup}
use remote_ops_mcp.Store.Model.{StoredDevice}
use remote_ops_mcp.Store.Devices.{authenticate_device_token}
use remote_ops_mcp.Agent.Gateway.{
  LiveConnection, ExecResult, Gateway, Platform, execute_result, message, receive, settle, closed,
}
use remote_ops_mcp.Agent.Gateway.Answers.{
  answers, message_resolves_own_request, late_close_answers_requests,
}
use remote_ops_mcp.Tests.Data.{hash, process}

abbrev platform : Platform
platform = record { sha256 = hash; slice_version = λ s. s }

abbrev connection : LiveConnection
connection = record {
  device_id = "d1";
  token = "secret";
  ws = 2;
  connected_at = 5;
  last_seen_at = 5;
}

abbrev gateway : Gateway
gateway = record {
  live = ("d1", connection) ∷ [];
  pending = ("r1", "d1") ∷ ("r2", "d2") ∷ [];
  store = process;
}

abbrev result : ExecResult
result = record {
  code = some 0;
  stdout = "";
  stderr = "";
  duration_ms = 3;
  truncated = false;
  timed_out = false;
}

resolve_example :
    ((d : StoredDevice) × (authenticate_device_token hash "secret" process ≡ some d))
    × (lookup "r1" gateway.pending ≡ some "d1")
    × (lookup "r1"
          (message platform "d1" "secret" 2 (execute_result "r1" (some result)) 9 gateway).0.pending
        ≡ none)
unfolding message receive settle authenticate_device_token
resolve_example =
    message_resolves_own_request platform "d1" "secret" 2 (execute_result "r1" (some result)) 9
      gateway "r1" result refl

late_close_example :
    ((closed "d1" 1 gateway).0.live ≡ gateway.live)
    × (any (answers "r1") (closed "d1" 1 gateway).1 ≡ true)
unfolding lookup
late_close_example = late_close_answers_requests "d1" 1 gateway connection "r1" refl refl refl
