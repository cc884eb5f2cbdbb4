-- ===== src/Docker/Operator.antt =====
-- `handleOperator` of src/docker/read-proxy.ts: image load, candidates, exec and container actions.
use remote_ops_mcp.Prelude.{
  ℕ, ◌*◌, String, Bool, not, ◌&&◌, ◌||◌, Option, none, some, List, [], ◌∷◌, ◌==◌, eqb,
  if◌then◌else◌, includes, split_on,
}
use remote_ops_mcp.Docker.Json.{Json, Host, get, text_or_empty}
use remote_ops_mcp.Docker.Requests.{
  Candidate, create_container, start_container, remove_container, load_image, change_container,
  Answer, problem, image_loaded, candidate_started, candidate_absent, candidate_removed, executed,
  action_done, Script, reply, throws, ask, await, with_some, Call,
}
use remote_ops_mcp.Docker.Settings.{Settings, has_number, is_unset}
use remote_ops_mcp.Docker.Checks.{
  is_docker_id, clean_container_ref, clean_image_ref, clean_port, clean_program, clean_args,
  clean_allowed_load_path, allowed_prefix,
}
use remote_ops_mcp.Docker.Exec.{
  relay_typed, relay_json, post_only, with_payload, id_of, run_exec, resolve_allowed_container_ref,
}

-- The paths of the handler, with the parts that they hold.
pub data Route : Type 0 where
  images_load candidates_run unknown : Route
  candidates_remove container_exec : String → Route
  container_action : String → String → Route

abbrev pub is_action : String → Bool
is_action a = a == "start" || (a == "stop" || a == "restart")

-- /^\/ops\/candidates\/([^/]+)\/remove$/, /^\/ops\/containers\/([^/]+)\/exec$/ and
-- /^\/ops\/containers\/([^/]+)\/(start|stop|restart)$/
unfoldable pub route_by_segments : List String → Route
route_by_segments (root ∷ (ops ∷ (kind ∷ (name ∷ (verb ∷ []))))) =
    if root == "" && (ops == "ops" && not (name == ""))
    then (if kind == "candidates" && verb == "remove"
        then candidates_remove name
        else if kind == "containers" && verb == "exec"
        then container_exec name
        else if kind == "containers" && is_action verb
        then container_action name verb
        else unknown)
    else unknown
route_by_segments _ = unknown

unfoldable pub route : String → Route
unfolding route_by_segments split_on
route path =
    if path == "/ops/images/load"
    then images_load
    else if path == "/ops/candidates/run"
    then candidates_run
    else route_by_segments (split_on b'/' path)

abbrev pub max_body : ℕ
max_body = 128 * 1024

-- dockerFileRequest: the file is looked at before the request is made.
unfoldable pub load_file : Host → String → (Answer → Script) → Script
load_file os path next =
    with_some (os.is_file path) (throws "ENOENT")
      λ file. if file then await (load_image path) next else throws "image_load_path_not_file"

unfoldable pub image_load : Host → Settings → Call → Script
unfolding with_payload get clean_allowed_load_path is_unset load_file
image_load os s call = post_only call (
    with_payload max_body call λ payload.
      with_some (clean_allowed_load_path os s.image_load_roots (get "path" payload))
        (reply (problem 403 "image_load_path_not_allowed"))
        λ path.
          if is_unset s.image_load_roots
          then reply (problem 403 "image_load_path_not_allowed")
          else load_file os path λ u.
            if eqb u.status 200
            then reply (image_loaded path u.body)
            else relay_typed u "application/json")

-- The tests of a candidate: its name and its other properties, or the code of the first test that
-- fails.
pub data Vetted : Type 0 where
  accepted : String → Candidate → Vetted
  not_allowed : String → Vetted

abbrev pub when {ℓ} : {A : Type ℓ} → Option A → (A → Bool) → String → (A → Vetted) → Vetted
when none test code next = not_allowed code
when (some value) test code next = if test value then next value else not_allowed code

unfoldable pub check_candidate : Host → Settings → Json → Vetted
unfolding get clean_container_ref clean_image_ref clean_port allowed_prefix includes has_number
check_candidate os s payload =
    when (clean_container_ref os (text_or_empty os (get "name" payload)))
      (allowed_prefix s.candidate_name_prefixes) "candidate_name_not_allowed"
      λ name.
        when (clean_image_ref os (get "image" payload)) (allowed_prefix s.candidate_image_prefixes)
          "candidate_image_not_allowed"
          λ image.
            when (clean_container_ref os (text_or_empty os (get "network" payload)))
              (λ n. includes n s.candidate_networks) "candidate_network_not_allowed"
              λ network.
                when (clean_port os (get "hostPort" payload))
                  (λ p. has_number p s.candidate_host_ports) "candidate_host_port_not_allowed"
                  λ host_port.
                    when (clean_port os (get "containerPort" payload))
                      (λ p. has_number p s.candidate_container_ports)
                      "candidate_container_port_not_allowed"
                      λ container_port. accepted name (record {
                        image = image;
                        network = network;
                        host_port = host_port;
                        container_port = container_port;
                      })

-- Creates the candidate and starts it; one that does not start is removed.
unfoldable pub start_candidate : Host → String → Candidate → Script
unfolding id_of is_docker_id
start_candidate os name c = await (create_container name c) λ created.
    if not (eqb created.status 201)
    then relay_json created
    else if not (is_docker_id (id_of os created.body))
    then reply (problem 502 "invalid_container_id")
    else await (start_container (id_of os created.body)) λ started.
      if eqb started.status 204
      then reply (candidate_started (id_of os created.body) name c)
      else ask (remove_container (id_of os created.body)) λ removed. relay_json started

abbrev pub if_accepted : Vetted → (String → Candidate → Script) → Script
if_accepted (not_allowed code) next = reply (problem 403 code)
if_accepted (accepted name c) next = next name c

unfoldable pub run_candidate : Host → Settings → Call → Script
unfolding with_payload check_candidate start_candidate
run_candidate os s call = post_only call (
    with_payload max_body call
      λ payload. if_accepted (check_candidate os s payload) (start_candidate os))

unfoldable pub remove_candidate : Host → Settings → Call → String → Script
unfolding clean_container_ref allowed_prefix
remove_candidate os s call raw = post_only call (
    with_some (clean_container_ref os raw) (reply (problem 403 "candidate_name_not_allowed"))
      λ name.
        if not (allowed_prefix s.candidate_name_prefixes name)
        then reply (problem 403 "candidate_name_not_allowed")
        else await (remove_container name) λ u.
          if eqb u.status 404
          then reply (candidate_absent name)
          else if eqb u.status 204
          then reply (candidate_removed name)
          else relay_json u)

-- The program and the arguments of an exec, run in the container.
unfoldable pub exec_payload : Host → Settings → String → Json → Script
unfolding get clean_program clean_args includes run_exec
exec_payload os s ref payload =
    with_some (clean_program os (get "program" payload)) (reply (problem 400 "invalid_exec"))
      λ program.
        with_some (clean_args os (get "argv" payload)) (reply (problem 400 "invalid_exec")) λ argv.
          if includes program s.exec_programs
          then run_exec os ref (record { user = none; env = none; cmd = program ∷ argv }) executed
          else reply (problem 403 "program_not_allowed")

-- What the handler does with the container that was resolved.
unfoldable pub exec_in_resolved : Host → Settings → Call → Option String → Script
unfolding includes with_payload exec_payload
exec_in_resolved os s call found =
    with_some found (reply (problem 403 "container_exec_not_allowed")) λ ref.
      if includes ref s.allowed
      then with_payload max_body call (exec_payload os s ref)
      else reply (problem 403 "container_exec_not_allowed")

unfoldable pub exec_in_container : Host → Settings → Call → String → Script
unfolding resolve_allowed_container_ref exec_in_resolved
exec_in_container os s call raw =
    post_only call
      (resolve_allowed_container_ref os raw s.exec_containers (exec_in_resolved os s call))

unfoldable pub act_on_resolved : Settings → String → Option String → Script
act_on_resolved s action found =
    with_some found (reply (problem 403 "container_not_allowed")) λ ref.
      await (change_container ref action) λ u.
        if eqb u.status 204 || eqb u.status 304
        then reply (action_done ref action)
        else relay_json u

unfoldable pub act_on_container : Host → Settings → Call → String → String → Script
unfolding includes resolve_allowed_container_ref act_on_resolved
act_on_container os s call raw action = post_only call (
    if includes action s.allowed_actions
    then resolve_allowed_container_ref os raw s.allowed (act_on_resolved s action)
    else reply (problem 403 "docker_action_not_allowed"))

unfoldable pub handle_route : Host → Settings → Call → Route → Option Script
unfolding image_load run_candidate remove_candidate exec_in_container act_on_container
handle_route os s call images_load = some (image_load os s call)
handle_route os s call candidates_run = some (run_candidate os s call)
handle_route os s call (candidates_remove raw) = some (remove_candidate os s call raw)
handle_route os s call (container_exec raw) = some (exec_in_container os s call raw)
handle_route os s call (container_action raw action) = some (act_on_container os s call raw action)
handle_route os s call unknown = none

-- `none`: the path is not one of the handler's.
unfoldable pub handle_operator : Host → Settings → Call → String → Option Script
unfolding route handle_route
handle_operator os s call path = handle_route os s call (route path)
