-- ===== src/Docker/Exec.antt =====
-- How the handlers of src/docker/read-proxy.ts resolve a container and run a command in it.
use remote_ops_mcp.Prelude.{
  ℕ, String, Bool, false, not, ◌&&◌, Option, none, some, List, [], ◌∷◌, ◌==◌, eqb, ltb,
  if◌then◌else◌, any, includes, starts_with, or_else,
}
use remote_ops_mcp.Docker.Json.{
  Json, number, Host, member, get, is_nullish, items_of, string_of, is_number, text_or_empty,
}
use remote_ops_mcp.Docker.Requests.{
  ExecSpec, list_all, create_exec, start_exec, inspect_exec, Answer, Output, Reply, problem, relay,
  Script, reply, throws, await, with_some, Call,
}
use remote_ops_mcp.Docker.Checks.{is_docker_id, clean_container_ref}
use remote_ops_mcp.Docker.Demux.{demux_docker_stream}
use remote_ops_mcp.Security.SecretPaths.{after_prefix}

-- send(res, u.status, u.body, String(u.headers["content-type"] ?? default))
abbrev pub relay_typed : Answer → String → Script
relay_typed u default = reply (relay u.status u.body (or_else u.content_type default))

-- send(res, u.status, u.body)
abbrev pub relay_json : Answer → Script
relay_json u = reply (relay u.status u.body "application/json")

-- if (req.method !== "POST") ...
abbrev pub post_only : Call → Script → Script
post_only call next =
    if call.method == "POST" then next else reply (problem 405 "method_not_allowed")

-- JSON.parse((await readBody(req, max)).toString("utf8") || "{}"), or 400
unfoldable pub with_json : ℕ → Call → (Json → Script) → Script
with_json max call next =
    if ltb max call.size
    then reply (problem 400 "invalid_json")
    else with_some call.json (reply (problem 400 "invalid_json")) next

-- The same, for a handler that reads fields of the payload: of null, that throws.
unfoldable pub with_payload : ℕ → Call → (Json → Script) → Script
unfolding with_json
with_payload max call next =
    with_json max call λ payload. if is_nullish payload then throws "TypeError" else next payload

-- String((JSON.parse(body.toString("utf8"))).Id ?? ""), "" where that throws
unfoldable pub id_of : Host → List ℕ → String
unfolding member
id_of os body = elim (os.parse body) [
  | none ↦ ""
  | some value ↦ elim (member "Id" value) [ none ↦ "" | some id ↦ text_or_empty os id ]
]

-- The field `ExitCode` if the answer is 200 and it is a number, and else 1.
unfoldable pub exit_code : Host → Answer → Json
unfolding get
exit_code os u =
    if eqb u.status 200
    then (elim (os.parse u.body) [
      | none ↦ number 1
      | some value ↦ if is_number (get "ExitCode" value) then get "ExitCode" value else number 1
    ])
    else number 1

-- Creates the exec, starts it, reads its exit code and takes its output apart.
unfoldable pub run_exec : Host → String → ExecSpec → (Json → Output → Reply) → Script
unfolding id_of exit_code is_docker_id demux_docker_stream
run_exec os container spec finish = await (create_exec container spec) λ created.
    if not (eqb created.status 201)
    then relay_json created
    else if not (is_docker_id (id_of os created.body))
    then reply (problem 502 "invalid_exec_id")
    else await (start_exec (id_of os created.body)) λ started.
      if not (eqb started.status 200)
      then relay_typed started "application/json"
      else await (inspect_exec (id_of os created.body)) λ inspected.
        reply (finish (exit_code os inspected) (demux_docker_stream os.utf8 started.body))

-- n.replace(/^\//, "")
unfoldable pub without_slash : String → String
unfolding after_prefix
without_slash n = if starts_with n "/" then after_prefix "/" n else n

-- typeof n === "string" && scope.has(n.replace(/^\//, ""))
unfoldable pub is_name_in : List String → Json → Bool
unfolding includes without_slash
is_name_in scope n = elim (string_of n) [ none ↦ false | some s ↦ includes (without_slash s) scope ]

-- Does the list `Names` of a listed container hold a name of the set?
unfoldable pub has_name_in : List String → Json → Bool
unfolding get items_of any is_name_in
has_name_in scope value = elim (items_of (get "Names" value)) [
  | none ↦ false
  | some names ↦ any (is_name_in scope) names
]

unfoldable pub is_listed_as : String → List String → Json → Bool
unfolding get has_name_in
is_listed_as ref scope value =
    starts_with (or_else (string_of (get "Id" value)) "") ref && has_name_in scope value

-- The search of the list: found, not found, or an entry that is null, which throws.
unfoldable pub scan : String → List String → List Json → (Option String → Script) → Script
unfolding is_listed_as
scan ref scope [] next = next none
scan ref scope (value ∷ rest) next =
    let later = scan ref scope rest next in
    if is_nullish value
    then throws "TypeError"
    else if is_listed_as ref scope value
    then next (some ref)
    else later

-- The containers in a body, if it is an array.
unfoldable pub listed : Host → List ℕ → Option (List Json)
unfolding items_of
listed os body = elim (os.parse body) [ none ↦ none | some value ↦ items_of value ]

-- resolveAllowedContainerRef: the container by its name, or by the start of its id if the list says
-- that a container of that id has an allowed name.
unfoldable pub resolve_allowed_container_ref :
    Host → String → List String → (Option String → Script) → Script
unfolding clean_container_ref includes is_docker_id listed scan
resolve_allowed_container_ref os raw scope next =
    with_some (clean_container_ref os raw) (next none) λ ref.
      if includes ref scope
      then next (some ref)
      else if not (is_docker_id ref)
      then next none
      else await list_all λ u.
        if not (eqb u.status 200)
        then next none
        else with_some (listed os u.body) (next none) λ items. scan ref scope items next
