-- ===== src/Docker/Proxy.antt =====
-- The handlers of src/docker/read-proxy.ts in their order: PostgreSQL readback, Paperclip operations,
-- container operations, reads.
pub mod Names
pub mod Replies
use remote_ops_mcp.Prelude.{
  ℕ, ◌*◌, String, Bool, true, false, not, ◌&&◌, ◌||◌, Option, none, some, List, [], ◌∷◌, ◌==◌,
  if◌then◌else◌, includes, starts_with, concat,
}
use remote_ops_mcp.Docker.Json.{Json, Host, is_nullish, Made, made, failed, ◌>>=◌}
use remote_ops_mcp.Docker.Requests.{
  Number, ExecSpec, Request, Outcome, Reply, problem, executed, read_back, Script, reply, throws,
  ask, Call,
}
use remote_ops_mcp.Docker.Settings.{Settings}
use remote_ops_mcp.Docker.Checks.{strip_api_version}
use remote_ops_mcp.Docker.Exec.{post_only, with_json, run_exec}
use remote_ops_mcp.Docker.Operator.{max_body, handle_operator}
use remote_ops_mcp.Docker.Postgres.{
  Config, Exec, normalize_postgres_pinned_readback_payload, build_postgres_pinned_readback_exec,
}
use remote_ops_mcp.Docker.Paperclip.{
  Operation, task_drain_status, task_drain_start, task_drain_stop, tool_policies_list,
  tool_connection_activity_safe, tool_policy_test, tool_policy_create, tool_policy_delete, name_of,
  normalize_paperclip_semantic_payload, paperclip_semantic_exec_command,
}
use remote_ops_mcp.Docker.Reads.{handle_read}

-- try { script } catch (e) { handler(e.message) }
unfoldable pub catch_with : (String → Script) → Script → Script
catch_with handler (reply r) = reply r
catch_with handler (throws message) = handler message
catch_with handler (ask r next) = ask r λ outcome. catch_with handler (next outcome)

-- Does the text hold the other one?
unfoldable pub contains : String → String → Bool
contains String.[] part = "" == part
contains (String.◌∷◌ c s) part = starts_with (String.◌∷◌ c s) part || contains s part

unfoldable pub readback_problem : String → Script
unfolding contains
readback_problem code = reply (
    problem (if contains code "not_allowed" || contains code "hash_mismatch" then 403 else 400)
      code)

abbrev pub config_of : Settings → Config
config_of s = record {
  container = s.postgres_container;
  exec_user = s.postgres_exec_user;
  db_user = s.postgres_db_user;
  db_name = s.postgres_db_name;
  verifiers = s.postgres_verifiers;
}

unfoldable pub is_postgres_configured : Settings → Bool
is_postgres_configured s =
    not (s.postgres_container == "") && (elim s.postgres_verifiers [ [] ↦ false | v ∷ vs ↦ true ])

abbrev pub spec_of : Exec → ExecSpec
spec_of e = record { user = some e.exec_user; env = some e.env; cmd = e.cmd }

abbrev pub with_made : {A : Type 0} → Made A → (String → Script) → (A → Script) → Script
with_made (failed message) otherwise next = otherwise message
with_made (made value) otherwise next = next value

-- The readback of a payload, inside the `try`.
unfoldable pub read_back_payload : Host → Settings → Json → Script
unfolding normalize_postgres_pinned_readback_payload build_postgres_pinned_readback_exec run_exec
read_back_payload os s raw =
    if is_nullish raw
    then throws "TypeError"
    else with_made
        (normalize_postgres_pinned_readback_payload os raw
          >>= build_postgres_pinned_readback_exec os (config_of s))
        throws (λ e. run_exec os e.container (spec_of e) (read_back e.verifier_id e.sha256))

unfoldable pub handle_postgres_pinned_readback : Host → Settings → Call → String → Option Script
unfolding is_postgres_configured with_json catch_with readback_problem read_back_payload
handle_postgres_pinned_readback os s call path =
    if path == "/ops/postgres/pinned-verifier"
    then some (
        post_only call (
          if is_postgres_configured s
          then with_json (160 * 1024) call
              (λ raw. catch_with readback_problem (read_back_payload os s raw))
          else reply (problem 403 "postgres_readback_not_configured")))
    else none

abbrev pub operations : List Operation
operations =
    task_drain_status ∷ task_drain_start ∷ task_drain_stop ∷ tool_policies_list
    ∷ tool_connection_activity_safe ∷ tool_policy_test ∷ tool_policy_create ∷ tool_policy_delete
    ∷ []

-- /^\/ops\/paperclip\/(task-drain-status|...)$/
unfoldable pub operation_at : String → List Operation → Option Operation
operation_at path [] = none
operation_at path (op ∷ rest) =
    let later = operation_at path rest in
    if path == concat "/ops/paperclip/" (name_of op) then some op else later

unfoldable pub run_semantic : Host → Settings → Operation → Json → Script
unfolding paperclip_semantic_exec_command run_exec
run_semantic os s op payload =
    with_made (paperclip_semantic_exec_command os op payload) throws λ cmd.
      run_exec os s.paperclip_container (record { user = none; env = none; cmd = cmd }) executed

unfoldable pub semantic_payload : Host → Settings → Operation → Json → Script
unfolding normalize_paperclip_semantic_payload run_semantic
semantic_payload os s op raw =
    with_made (normalize_paperclip_semantic_payload os op raw) (λ code. reply (problem 400 code))
      (run_semantic os s op)

unfoldable pub handle_operation : Host → Settings → Call → Option Operation → Option Script
unfolding includes with_json semantic_payload
handle_operation os s call none = none
handle_operation os s call (some op) = some (
    post_only call (
      if includes s.paperclip_container s.allowed
        && includes s.paperclip_container s.exec_containers
      then with_json max_body call (semantic_payload os s op)
      else reply (problem 403 "paperclip_semantic_container_not_allowed")))

unfoldable pub handle_paperclip_semantic : Host → Settings → Call → String → Option Script
unfolding operation_at handle_operation
handle_paperclip_semantic os s call path = handle_operation os s call (operation_at path operations)

abbrev pub or_handler : Option Script → Script → Script
or_handler none next = next
or_handler (some script) next = script

-- What is answered for an exception: `upstream_error`.
abbrev pub upstream_error : String → Script
upstream_error message = reply (problem 502 "upstream_error")

-- The first handler whose path it is; an exception is answered with 502.
unfoldable pub handle : Host → (String → Number) → Settings → Call → Script
unfolding strip_api_version handle_postgres_pinned_readback handle_paperclip_semantic
    handle_operator handle_read catch_with
handle os read_number s call =
    let path = strip_api_version call.pathname in
    catch_with upstream_error (
      or_handler (handle_postgres_pinned_readback os s call path) (
        or_handler (handle_paperclip_semantic os s call path)
          (or_handler (handle_operator os s call path) (handle_read os read_number s call path))))
