-- ===== src/Docker/Permits/Containers.antt =====
-- The requests of the operator's handlers of containers.
use remote_ops_mcp.Prelude.{String, ◌≡◌, true, ◌||◌, none, some, List, ◌∷◌, eqb, arith, includes}
use remote_ops_mcp.Docker.Json.{Json, Host, get}
use remote_ops_mcp.Docker.Requests.{create_exec, change_container, executed, Call}
use remote_ops_mcp.Docker.Settings.{Settings}
use remote_ops_mcp.Docker.Checks.{clean_program, clean_args}
use remote_ops_mcp.Docker.Operator.{
  max_body, exec_payload, exec_in_resolved, exec_in_container, act_on_resolved, act_on_container,
}
use remote_ops_mcp.Docker.Guarded.{
  History, IsGuarded, IsGuarded-await, IsGuarded-if, IsGuarded-reply, IsGuarded-with_some,
}
use remote_ops_mcp.Docker.Rule.{permits, may_use, is_operator_exec}
use remote_ops_mcp.Docker.Permits.{run_exec-IsGuarded, resolve-IsGuarded}
use remote_ops_mcp.Docker.Permits.Operator.{post_only-IsGuarded, with_payload-IsGuarded}

module _ (os : Host) (s : Settings) (call : Call) where
  may_exec :
      (h : History) (ref program : String) (argv : List String)
      → may_use os s.exec_containers h ref ≡ true
      → includes ref s.allowed ≡ true
      → includes program s.exec_programs ≡ true
      → permits os s h (create_exec ref (record { user = none; env = none; cmd = program ∷ argv }))
        ≡ true
  unfolding permits is_operator_exec
  may_exec h ref program argv usable allowed known = ground (arith, usable, allowed, known)

  exec_payload-IsGuarded :
      (h : History) (ref : String) (payload : Json)
      → may_use os s.exec_containers h ref ≡ true
      → includes ref s.allowed ≡ true
      → IsGuarded (permits os s) h (exec_payload os s ref payload)
  unfolding exec_payload
  exec_payload-IsGuarded h ref payload usable allowed =
      IsGuarded-with_some (permits os s) h (clean_program os (get "program" payload)) _ _
        (IsGuarded-reply (permits os s) h _)
        λ program is_program.
          IsGuarded-with_some (permits os s) h (clean_args os (get "argv" payload)) _ _
            (IsGuarded-reply (permits os s) h _)
            λ argv is_argv.
              IsGuarded-if (permits os s) h (includes program s.exec_programs) _ _
                (λ known.
                  run_exec-IsGuarded os s h ref _ executed
                    (may_exec h ref program argv usable allowed known))
                (λ e. IsGuarded-reply (permits os s) h _)

  exec_in_resolved-IsGuarded :
      (h : History) (ref : String)
      → may_use os s.exec_containers h ref ≡ true
      → IsGuarded (permits os s) h (exec_in_resolved os s call (some ref))
  unfolding exec_in_resolved
  exec_in_resolved-IsGuarded h ref usable =
      IsGuarded-if (permits os s) h (includes ref s.allowed) _ _
        (λ allowed.
          with_payload-IsGuarded os s call h max_body _
            λ payload. exec_payload-IsGuarded h ref payload usable allowed)
        (λ e. IsGuarded-reply (permits os s) h _)

  exec_not_found : (h : History) → IsGuarded (permits os s) h (exec_in_resolved os s call none)
  unfolding exec_in_resolved
  exec_not_found h = IsGuarded-reply (permits os s) h _

  pub exec_in_container-IsGuarded :
      (h : History) (raw : String) → IsGuarded (permits os s) h (exec_in_container os s call raw)
  unfolding exec_in_container
  exec_in_container-IsGuarded h raw = post_only-IsGuarded os s call h _ (
      resolve-IsGuarded os s s.exec_containers (exec_in_resolved os s call) exec_not_found
        exec_in_resolved-IsGuarded h raw)

  may_act :
      (h : History) (ref action : String)
      → includes action s.allowed_actions ≡ true
      → may_use os s.allowed h ref ≡ true
      → permits os s h (change_container ref action) ≡ true
  unfolding permits
  may_act h ref action allowed usable = ground (arith, allowed, usable)

  act_on_resolved-IsGuarded :
      (action : String)
      → includes action s.allowed_actions ≡ true
      → (h : History) (ref : String) → may_use os s.allowed h ref ≡ true
      → IsGuarded (permits os s) h (act_on_resolved s action (some ref))
  unfolding act_on_resolved
  act_on_resolved-IsGuarded action allowed h ref usable =
      IsGuarded-await (permits os s) h (change_container ref action) _
        (may_act h ref action allowed usable)
        λ u.
          IsGuarded-if (permits os s) _ (eqb u.status 204 || eqb u.status 304) _ _
            (λ e. IsGuarded-reply (permits os s) _ _) (λ e. IsGuarded-reply (permits os s) _ _)

  action_not_found :
      (action : String) (h : History) → IsGuarded (permits os s) h (act_on_resolved s action none)
  unfolding act_on_resolved
  action_not_found action h = IsGuarded-reply (permits os s) h _

  pub act_on_container-IsGuarded :
      (h : History) (raw action : String)
      → IsGuarded (permits os s) h (act_on_container os s call raw action)
  unfolding act_on_container
  act_on_container-IsGuarded h raw action = post_only-IsGuarded os s call h _ (
      IsGuarded-if (permits os s) h (includes action s.allowed_actions) _ _
        (λ allowed.
          resolve-IsGuarded os s s.allowed (act_on_resolved s action) (action_not_found action)
            (act_on_resolved-IsGuarded action allowed) h raw)
        (λ e. IsGuarded-reply (permits os s) h _))
