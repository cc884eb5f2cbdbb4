-- ===== src/Docker/Permits/Whole.antt =====
-- The requests of every call of the proxy.
use remote_ops_mcp.Prelude.{
  ◌*◌, String, Bool, true, false, ◌&&◌, Option, none, some, ◌==◌, includes, if◌then◌else◌,
}
use remote_ops_mcp.Docker.Json.{Host}
use remote_ops_mcp.Docker.Requests.{Number, Script, Call}
use remote_ops_mcp.Docker.Settings.{Settings}
use remote_ops_mcp.Docker.Checks.{strip_api_version}
use remote_ops_mcp.Docker.Operator.{
  Route, images_load, candidates_run, unknown, candidates_remove, container_exec, container_action,
  route, handle_route, max_body, handle_operator,
}
use remote_ops_mcp.Docker.Paperclip.{Operation}
use remote_ops_mcp.Docker.Proxy.{
  readback_problem, is_postgres_configured, handle_postgres_pinned_readback, operations,
  operation_at, handle_operation, handle_paperclip_semantic, or_handler, upstream_error, handle,
}
use remote_ops_mcp.Docker.Guarded.{
  History, IsGuarded, IsGuarded-if, IsGuarded-reply, IsGuarded-catch_with,
}
use remote_ops_mcp.Docker.Rule.{permits}
use remote_ops_mcp.Docker.Permits.Operator.{
  post_only-IsGuarded, with_json-IsGuarded, image_load-IsGuarded, run_candidate-IsGuarded,
  remove_candidate-IsGuarded,
}
use remote_ops_mcp.Docker.Permits.Containers.{
  exec_in_container-IsGuarded, act_on_container-IsGuarded,
}
use remote_ops_mcp.Docker.Permits.Fixed.{read_back-IsGuarded, problem_is_reply, semantic-IsGuarded}
use remote_ops_mcp.Docker.Permits.Reads.{handle_read-IsGuarded}

module _ (os : Host) (s : Settings) where
  -- What a handler returns for its own paths is guarded.
  abbrev IsHandled : History → Option Script → Type 0
  IsHandled h none = Unit
  IsHandled h (some script) = IsGuarded (permits os s) h script

  or_handler-IsGuarded :
      (h : History) (first : Option Script) (next : Script)
      → IsHandled h first
      → IsGuarded (permits os s) h next
      → IsGuarded (permits os s) h (or_handler first next)
  or_handler-IsGuarded h none next f g = g
  or_handler-IsGuarded h (some script) next f g = f

  some_if-IsHandled :
      (h : History) (b : Bool) (script : Script)
      → IsGuarded (permits os s) h script
      → IsHandled h (if b then some script else none)
  some_if-IsHandled h true script g = g
  some_if-IsHandled h false script g = tt

  postgres-IsHandled :
      (call : Call) (h : History) (path : String)
      → IsHandled h (handle_postgres_pinned_readback os s call path)
  unfolding handle_postgres_pinned_readback
  postgres-IsHandled call h path = some_if-IsHandled h (path == "/ops/postgres/pinned-verifier") _ (
      post_only-IsGuarded os s call h _ (
        IsGuarded-if (permits os s) h (is_postgres_configured s) _ _
          (λ e. with_json-IsGuarded os s call h (160 * 1024) _ λ raw.
            IsGuarded-catch_with (permits os s) h readback_problem _ (problem_is_reply os s)
              (read_back-IsGuarded os s h raw))
          (λ e. IsGuarded-reply (permits os s) h _)))

  operation-IsHandled :
      (call : Call) (h : History) (op : Option Operation)
      → IsHandled h (handle_operation os s call op)
  unfolding handle_operation
  operation-IsHandled call h none = tt
  operation-IsHandled call h (some op) = post_only-IsGuarded os s call h _ (
      IsGuarded-if (permits os s) h
        (includes s.paperclip_container s.allowed
          && includes s.paperclip_container s.exec_containers)
        _ _
        (λ both.
          with_json-IsGuarded os s call h max_body _ λ raw. semantic-IsGuarded os s h op raw both)
        (λ e. IsGuarded-reply (permits os s) h _))

  route-IsHandled : (call : Call) (h : History) (r : Route) → IsHandled h (handle_route os s call r)
  unfolding handle_route
  route-IsHandled call h images_load = image_load-IsGuarded os s call h
  route-IsHandled call h candidates_run = run_candidate-IsGuarded os s call h
  route-IsHandled call h (candidates_remove raw) = remove_candidate-IsGuarded os s call h raw
  route-IsHandled call h (container_exec raw) = exec_in_container-IsGuarded os s call h raw
  route-IsHandled call h (container_action raw action) =
      act_on_container-IsGuarded os s call h raw action
  route-IsHandled call h unknown = tt

  module _ (read_number : String → Number) (call : Call) where
    -- Whatever the call, and whatever Docker answers, each request that the proxy makes is one that
    -- its rule permits after the requests and answers before it. By the rule, a container is inspected,
    -- logged or acted on only under an allowed name or the start of an id that Docker has just listed
    -- with one, and only with an allowed action; an exec is created only for an allowed program in an
    -- allowed container, for psql in the configured container, or for the Paperclip script in its own;
    -- it is started only under the id that Docker gave it; a candidate has a configured name, image,
    -- network and ports; and an image is loaded only from a .tar file under a configured root.
    pub handle_asks_permitted :
        (h : History) → IsGuarded (permits os s) h (handle os read_number s call)
    unfolding handle handle_operator handle_paperclip_semantic
    handle_asks_permitted h =
        let path = strip_api_version call.pathname in
        IsGuarded-catch_with (permits os s) h upstream_error _
          (λ k message. IsGuarded-reply (permits os s) k _)
          (or_handler-IsGuarded h (handle_postgres_pinned_readback os s call path) _
            (postgres-IsHandled call h path)
            (or_handler-IsGuarded h (handle_paperclip_semantic os s call path) _
              (operation-IsHandled call h (operation_at path operations))
              (or_handler-IsGuarded h (handle_operator os s call path) _
                (route-IsHandled call h (route path))
                (handle_read-IsGuarded os s read_number call h path))))
