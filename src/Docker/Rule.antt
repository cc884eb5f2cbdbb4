-- ===== src/Docker/Rule.antt =====
-- The rule of the proxy: which request it may make, after which requests and answers.
use remote_ops_mcp.Prelude.{
  String, Bool, true, false, not, ◌&&◌, ◌||◌, Option, none, some, List, [], ◌∷◌, ◌==◌, eqb, any,
  includes,
}
use remote_ops_mcp.Docker.Json.{Host}
use remote_ops_mcp.Docker.Requests.{
  ExecSpec, Candidate, Request, list_all, ping, version, list_containers, inspect_container,
  read_logs, create_exec, start_exec, inspect_exec, change_container, create_container,
  start_container, remove_container, load_image, Answer, answered,
}
use remote_ops_mcp.Docker.Settings.{Settings, has_number}
use remote_ops_mcp.Docker.Checks.{
  is_docker_id, is_container_ref, allowed_prefix, ends_with, is_in_root,
}
use remote_ops_mcp.Docker.Exec.{id_of, is_listed_as, listed}
use remote_ops_mcp.Docker.Paperclip.{tsx_loader}
use remote_ops_mcp.Docker.Guarded.{History}
use remote_ops_mcp.Security.SecretPaths.{deny_secret_path}

-- Does the answer list a container whose id starts with the reference under a name of the set?
unfoldable pub lists : Host → List String → String → Answer → Bool
unfolding listed any is_listed_as
lists os scope ref u =
    eqb u.status 200
    && (elim (listed os u.body) [ none ↦ false | some items ↦ any (is_listed_as ref scope) items ])

-- Did the last request list it so?
unfoldable pub was_listed : Host → List String → History → String → Bool
unfolding lists
was_listed os scope ((list_all, answered u) ∷ h) ref = lists os scope ref u
was_listed os scope _ ref = false

-- A reference is a name of the set, or the start of the id of a container that has just been listed
-- under a name of the set.
unfoldable pub may_use : Host → List String → History → String → Bool
unfolding includes was_listed
may_use os scope h ref = includes ref scope || was_listed os scope h ref

-- The request before created an exec, and Docker answered with this id.
unfoldable pub has_created_exec : Host → History → String → Bool
unfolding id_of is_docker_id
has_created_exec os ((create_exec c spec, answered a) ∷ h) id =
    eqb a.status 201 && (is_docker_id id && id_of os a.body == id)
has_created_exec os _ id = false

unfoldable pub has_started_exec : History → String → Bool
has_started_exec ((start_exec started, answered a) ∷ h) id = started == id
has_started_exec _ id = false

-- The request before created a container, and Docker answered with this id.
unfoldable pub has_created_container : Host → History → String → Bool
unfolding id_of is_docker_id
has_created_container os ((create_container name c, answered a) ∷ h) id =
    eqb a.status 201 && (is_docker_id id && id_of os a.body == id)
has_created_container os _ id = false

unfoldable pub has_tried_start : History → String → Bool
has_tried_start ((start_container started, answered a) ∷ h) id =
    started == id && not (eqb a.status 204)
has_tried_start _ id = false

abbrev pub is_none : Option String → Bool
is_none none = true
is_none (some s) = false

abbrev pub is_text : String → Option String → Bool
is_text s none = false
is_text s (some t) = t == s

abbrev pub is_program_of : List String → List String → Bool
is_program_of programs [] = false
is_program_of programs (program ∷ argv) = includes program programs

-- A command of the operator: in a container of both sets, a program of the set, as the container's
-- own user.
unfoldable pub is_operator_exec : Host → Settings → History → String → ExecSpec → Bool
unfolding may_use includes
is_operator_exec os s h container spec =
    (may_use os s.exec_containers h container && includes container s.allowed)
    && (is_none spec.user && is_program_of s.exec_programs spec.cmd)

-- The command is psql with the user and the database of the settings.
unfoldable pub is_psql : Settings → List String → Bool
is_psql s (p ∷ (w ∷ (x ∷ (v ∷ (stop ∷ (u ∷ (user ∷ (d ∷ (name ∷ (c ∷ (sql ∷ []))))))))))) =
    (p == "psql" && (w == "-w" && (x == "-X" && (v == "-v" && stop == "ON_ERROR_STOP=1"))))
    && ((u == "-U" && user == s.postgres_db_user)
        && ((d == "-d" && name == s.postgres_db_name) && c == "-c"))
is_psql s _ = false

unfoldable pub is_readback_exec : Settings → String → ExecSpec → Bool
unfolding is_psql
is_readback_exec s container spec =
    container == s.postgres_container
    && (is_text s.postgres_exec_user spec.user && is_psql s spec.cmd)

unfoldable pub is_semantic_command : Host → List String → Bool
is_semantic_command os (n ∷ (i ∷ (l ∷ (t ∷ (e ∷ (script ∷ (op ∷ (payload ∷ [])))))))) =
    (n == "node" && (i == "--import" && (l == tsx_loader && t == "--input-type=module")))
    && (e == "-e" && script == os.semantic_script)
is_semantic_command os _ = false

-- The semantic script, in the Paperclip container, if both sets hold it.
unfoldable pub is_semantic_exec : Host → Settings → String → ExecSpec → Bool
unfolding is_semantic_command includes
is_semantic_exec os s container spec =
    (container == s.paperclip_container
      && (includes container s.allowed && includes container s.exec_containers))
    && (is_none spec.user && is_semantic_command os spec.cmd)

unfoldable pub is_allowed_candidate : Settings → String → Candidate → Bool
unfolding is_container_ref allowed_prefix includes has_number
is_allowed_candidate s name c =
    (is_container_ref name && allowed_prefix s.candidate_name_prefixes name)
    && (allowed_prefix s.candidate_image_prefixes c.image
        && (includes c.network s.candidate_networks
            && (has_number c.host_port s.candidate_host_ports
                && has_number c.container_port s.candidate_container_ports)))

unfoldable pub is_loadable : Host → Settings → String → Bool
unfolding deny_secret_path ends_with any is_in_root
is_loadable os s path =
    (not (deny_secret_path path) && ends_with path ".tar")
    && any (is_in_root os path) s.image_load_roots

unfoldable pub permits : Host → Settings → History → Request → Bool
unfolding may_use has_created_exec has_started_exec has_created_container has_tried_start
    is_operator_exec is_readback_exec is_semantic_exec is_allowed_candidate is_loadable includes
    is_container_ref allowed_prefix
permits os s h list_all = true
permits os s h ping = true
permits os s h version = true
permits os s h (list_containers q) = true
permits os s h (inspect_container ref) = may_use os s.allowed h ref
permits os s h (read_logs ref q) = may_use os s.allowed h ref
permits os s h (change_container ref action) =
    includes action s.allowed_actions && may_use os s.allowed h ref
permits os s h (create_exec container spec) =
    is_operator_exec os s h container spec
    || (is_readback_exec s container spec || is_semantic_exec os s container spec)
permits os s h (start_exec id) = has_created_exec os h id
permits os s h (inspect_exec id) = has_started_exec h id
permits os s h (create_container name c) = is_allowed_candidate s name c
permits os s h (start_container id) = has_created_container os h id
permits os s h (remove_container name) =
    (is_container_ref name && allowed_prefix s.candidate_name_prefixes name)
    || has_tried_start h name
permits os s h (load_image path) = is_loadable os s path
