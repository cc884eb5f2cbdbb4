-- ===== src/Tests/Proxy.antt =====
-- The Docker proxy and the path rules at concrete data.
use remote_ops_mcp.Prelude.{
  concat, ℕ, String, ◌≡◌, refl, true, false, ◌&&◌, Option, none, some, List, [], ◌∷◌, arith, eqb,
  any, length, if◌then◌else◌,
}
use remote_ops_mcp.Errors.{ok}
use remote_ops_mcp.Dict.{lookup}
use remote_ops_mcp.Config.Target.{TargetConfig, production, operator}
use remote_ops_mcp.Config.Presets.{base_target, read_only_preset}
use remote_ops_mcp.Security.SecretPaths.{deny_secret_path}
use remote_ops_mcp.Security.Paths.{
  sanitize_segments, segments, join_segments, Run, finished, canonical_real_path, is_under,
  resolve_checked_path, assert_configured_path,
}
use remote_ops_mcp.Security.Cleaning.{IsClean}
use remote_ops_mcp.Security.Confinement.{checked_path_is_confined, configured_path_is_confined}
use remote_ops_mcp.Docker.Json.{
  Json, number, text, array, object, no_item, item, no_field, field, Host, made,
}
use remote_ops_mcp.Docker.Requests.{
  Number, natural, create_exec, start_exec, Answer, answered, executed, listing, reply, Call,
}
use remote_ops_mcp.Docker.Settings.{Settings}
use remote_ops_mcp.Docker.Exec.{listed}
use remote_ops_mcp.Docker.Demux.{demux_loop}
use remote_ops_mcp.Docker.Demux.Frames.{demux_loop_enough}
use remote_ops_mcp.Docker.Postgres.{
  Config, Exec, Payload, is_safe_name, readback_env, psql_command, wrapped_sql, is_meta_command,
  drop_meta_commands, lines_of, join_lines, build_postgres_pinned_readback_exec,
}
use remote_ops_mcp.Docker.Postgres.Pinned.{built_exec_is_pinned}
use remote_ops_mcp.Docker.Reads.{list_reply}
use remote_ops_mcp.Docker.Proxy.{handle}
use remote_ops_mcp.Docker.Proxy.Names.{Stands, HasAllowedName}
use remote_ops_mcp.Docker.Proxy.Replies.{Daemon, converse, list_holds_allowed_only}
use remote_ops_mcp.Docker.Guarded.{IsGuarded}
use remote_ops_mcp.Docker.Rule.{permits}
use remote_ops_mcp.Docker.Permits.Whole.{handle_asks_permitted}

abbrev text_of : Json → String
text_of (text s) = s
text_of _ = ""

abbrev natural_of : Json → Option ℕ
natural_of (number n) = some n
natural_of _ = none

-- A body of one byte is an object with an id, one of two bytes a list of two containers.
abbrev container : String → String → Json
container id name =
    object (field "Id" (text id) (field "Names" (array (item (text name) no_item)) no_field))

abbrev parsed : List ℕ → Option Json
parsed [] = none
parsed (b ∷ []) =
    some (object (field "Id" (text "0123456789ab") (field "ExitCode" (number 0) no_field)))
parsed (b ∷ (c ∷ rest)) =
    some (
      array
        (item (container "0123456789ab" "/web") (item (container "ffffffffffff" "/db") no_item)))

abbrev docker : Host
docker = record {
  decode_uri_component = λ s. some s;
  realpath = λ p. some p;
  is_file = λ p. some true;
  utf8 = λ bytes. if eqb (length bytes) 0 then "" else "out";
  parse = parsed;
  to_text = text_of;
  to_natural = natural_of;
  byte_length = λ s. 1;
  sha256 = λ s. "cafe";
  base64url = λ v. "e30";
  to_lower_case = λ s. s;
  semantic_script = "script";
}

abbrev proxy_settings : Settings
proxy_settings = record {
  allowed = "web" ∷ [];
  exec_containers = "web" ∷ [];
  exec_programs = "ls" ∷ [];
  allowed_actions = "restart" ∷ [];
  image_load_roots = [];
  candidate_image_prefixes = [];
  candidate_networks = [];
  candidate_name_prefixes = [];
  candidate_host_ports = [];
  candidate_container_ports = [];
  postgres_container = "";
  postgres_verifiers = [];
  postgres_exec_user = "postgres";
  postgres_db_user = "postgres";
  postgres_db_name = "postgres";
  paperclip_container = "wandora-paperclip";
}

abbrev exec_call : Call
exec_call = record {
  method = "POST";
  pathname = "/v1.41/ops/containers/web/exec";
  search = "";
  params = [];
  size = 20;
  json = some (
      object
        (field "program" (text "ls") (field "argv" (array (item (text "/") no_item)) no_field)));
}

abbrev no_number : String → Number
no_number s = natural 0

handle_asks_permitted_example :
    IsGuarded (permits docker proxy_settings) [] (handle docker no_number proxy_settings exec_call)
handle_asks_permitted_example = handle_asks_permitted docker proxy_settings no_number exec_call []

abbrev frame_answer : List ℕ
frame_answer = 1 ∷ 0 ∷ 0 ∷ 0 ∷ 0 ∷ 0 ∷ 0 ∷ 2 ∷ 104 ∷ 105 ∷ []

abbrev daemon : Daemon
daemon asked (create_exec c spec) =
    answered (record { status = 201; content_type = none; body = 0 ∷ [] })
daemon asked (start_exec id) =
    answered (record { status = 200; content_type = none; body = frame_answer })
daemon asked r = answered (record { status = 200; content_type = none; body = 0 ∷ [] })

-- The exec of the call runs to its end.
exec_runs :
    (converse daemon [] (handle docker no_number proxy_settings exec_call)).1
    ≡ some (executed (number 0) (record { stdout = "out"; stderr = "" }))
unfolding converse handle
exec_runs = refl

abbrev listed_answer : Answer
listed_answer = record { status = 200; content_type = none; body = 0 ∷ 0 ∷ [] }

web_only :
    list_reply docker proxy_settings listed_answer
    ≡ reply (listing (container "0123456789ab" "/web" ∷ []))
unfolding list_reply
web_only = refl

list_example :
    let sent = container "0123456789ab" "/web" ∷ [] in
    (upstream : List Json) × (listed docker (0 ∷ 0 ∷ []) ≡ some upstream)
    × ((value : Json)
        → (Stands value sent → Stands value upstream × HasAllowedName ("web" ∷ []) value)
          × (Stands value upstream → HasAllowedName ("web" ∷ []) value → Stands value sent))
list_example =
    list_holds_allowed_only docker proxy_settings listed_answer
      (container "0123456789ab" "/web" ∷ []) web_only

rounds_example :
    demux_loop docker.utf8 10 frame_answer (record { stdout = ""; stderr = "" }) 0
    ≡ demux_loop docker.utf8 25 frame_answer (record { stdout = ""; stderr = "" }) 0
rounds_example =
    demux_loop_enough docker.utf8 10 25 frame_answer (record { stdout = ""; stderr = "" }) 0
      (omega arith) (omega arith)

abbrev pg_config : Config
pg_config = record {
  container = "pg";
  exec_user = "postgres";
  db_user = "reader";
  db_name = "app";
  verifiers = ("count_users", "cafe") ∷ [];
}

abbrev pg_payload : Payload
pg_payload = record { verifier_id = "count_users"; sql = "\\pset pager off\nselect 1;" }

abbrev pg_exec : Exec
pg_exec = record {
  verifier_id = "count_users";
  sha256 = "cafe";
  container = "pg";
  exec_user = "postgres";
  env = readback_env;
  cmd = psql_command "reader" "app" (wrapped_sql "select 1;");
}

pg_built : build_postgres_pinned_readback_exec docker pg_config pg_payload ≡ made pg_exec
unfolding build_postgres_pinned_readback_exec
pg_built = refl

pinned_example :
    (lookup "count_users" pg_config.verifiers ≡ some "cafe")
    × ((is_safe_name "pg"
          && (is_safe_name "postgres" && (is_safe_name "reader" && is_safe_name "app")))
        ≡ true)
    × ((pg_exec.container ≡ "pg") × (pg_exec.exec_user ≡ "postgres") × (pg_exec.env ≡ readback_env))
    × (out : List String) × (any is_meta_command out ≡ false)
    × (drop_meta_commands (lines_of pg_payload.sql) ≡ made out)
    × (pg_exec.cmd
        ≡ psql_command "reader" "app"
            (concat "BEGIN TRANSACTION READ ONLY;\n" (concat (join_lines out) "\nROLLBACK;\n")))
pinned_example = built_exec_is_pinned docker pg_config pg_payload pg_exec pg_built

abbrev remote : List String → Run
remote argv = finished 0 "/srv/app\n"

abbrev confined_target : TargetConfig
confined_target =
    record (base_target
      (record {
        target_id = "vps-one";
        device_id = "dev_abcdefgh";
        environment = production;
        preset = read_only_preset;
      })
      operator) { allowed_paths = "/srv/" ∷ [] }

path_resolves : resolve_checked_path "/srv//link" confined_target remote ≡ ok "/srv/app"
unfolding resolve_checked_path sanitize_segments segments deny_secret_path join_segments
path_resolves = refl

checked_path_example :
    (canonical_real_path "/srv//link" remote ≡ ok "/srv/app")
    × IsClean "/srv/app"
    × (any (is_under "/srv/app") ("/srv/" ∷ []) ≡ true)
checked_path_example =
    checked_path_is_confined "/srv//link" confined_target remote "/srv/app" path_resolves

path_configured : assert_configured_path "/opt/./work//a" ("/opt/work" ∷ []) ≡ ok "/opt/work/a"
unfolding assert_configured_path sanitize_segments segments deny_secret_path join_segments
path_configured = refl

configured_path_example :
    IsClean "/opt/work/a"
    × (any (is_under "/opt/work/a") ("/opt/work" ∷ []) ≡ true)
    × (assert_configured_path "/opt/work/a" ("/opt/work" ∷ []) ≡ ok "/opt/work/a")
configured_path_example =
    configured_path_is_confined "/opt/./work//a" ("/opt/work" ∷ []) "/opt/work/a" path_configured
