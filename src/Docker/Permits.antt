-- ===== src/Docker/Permits.antt =====
-- Every request that the proxy makes is one that its rule permits.
pub mod Operator
pub mod Fixed
pub mod Reads
pub mod Vetted
pub mod Containers
pub mod Whole
use remote_ops_mcp.Prelude.{
  ℕ, String, ◌≡◌, refl, Bool, true, false, not, ◌||◌, ◌&&◌, Option, none, some, List, [], ◌∷◌, ◌==◌,
  eqb, arith, any, includes, if◌then◌else◌, eq_refl, eq_iff, Bool-cases, Option-cases, inl, inr,
}
use remote_ops_mcp.Docker.Json.{Json, Host, is_nullish}
use remote_ops_mcp.Docker.Requests.{
  ExecSpec, Request, list_all, create_exec, start_exec, inspect_exec, Answer, Outcome, answered,
  Output, Reply, Script, reply, ask, await,
}
use remote_ops_mcp.Docker.Settings.{Settings}
use remote_ops_mcp.Docker.Checks.{is_docker_id, clean_container_ref}
use remote_ops_mcp.Docker.Exec.{
  id_of, run_exec, is_listed_as, listed, scan, resolve_allowed_container_ref,
}
use remote_ops_mcp.Docker.Guarded.{
  History, IsGuarded, IsGuarded-await, IsGuarded-if, IsGuarded-reply, IsGuarded-throws,
  IsGuarded-ask, IsGuarded-with_some,
}
use remote_ops_mcp.Docker.Rule.{
  permits, may_use, was_listed, lists, has_created_exec, has_started_exec,
}

module _ (os : Host) (s : Settings) where
  may_start_exec :
      (h : History) (container : String) (spec : ExecSpec) (a : Answer)
      → not (eqb a.status 201) ≡ false
      → not (is_docker_id (id_of os a.body)) ≡ false
      → permits os s ((create_exec container spec, answered a) ∷ h) (start_exec (id_of os a.body))
        ≡ true
  unfolding permits has_created_exec
  may_start_exec h container spec a created valid =
      ground (arith, created, valid, eq_refl (id_of os a.body))

  may_inspect_exec :
      (h : History) (id : String) (a : Answer)
      → permits os s ((start_exec id, answered a) ∷ h) (inspect_exec id) ≡ true
  unfolding permits has_started_exec
  may_inspect_exec h id a = eq_refl id

  list_all_allowed : (h : History) → permits os s h list_all ≡ true
  unfolding permits
  list_all_allowed h = refl

  -- An exec that may be created is created, started and inspected.
  pub run_exec-IsGuarded :
      (h : History) (container : String) (spec : ExecSpec) (finish : Json → Output → Reply)
      → permits os s h (create_exec container spec) ≡ true
      → IsGuarded (permits os s) h (run_exec os container spec finish)
  unfolding run_exec
  run_exec-IsGuarded h container spec finish allowed =
      IsGuarded-await (permits os s) h (create_exec container spec) _ allowed λ created.
        IsGuarded-if (permits os s) _ (not (eqb created.status 201)) _ _
          (λ e. IsGuarded-reply (permits os s) _ _)
          λ is_created.
            IsGuarded-if (permits os s) _ (not (is_docker_id (id_of os created.body))) _ _
              (λ e. IsGuarded-reply (permits os s) _ _)
              λ is_id.
                IsGuarded-await (permits os s) _ (start_exec (id_of os created.body)) _
                  (may_start_exec h container spec created is_created is_id)
                  λ started.
                    IsGuarded-if (permits os s) _ (not (eqb started.status 200)) _ _
                      (λ e. IsGuarded-reply (permits os s) _ _)
                      λ is_started.
                        IsGuarded-await (permits os s) _ (inspect_exec (id_of os created.body)) _
                          (may_inspect_exec _ _ started)
                          λ inspected. IsGuarded-reply (permits os s) _ _

  module _ (scope : List String) (next : Option String → Script)
      (absent : (h : History) → IsGuarded (permits os s) h (next none))
      (found : (h : History) (ref : String)
        → may_use os scope h ref ≡ true
        → IsGuarded (permits os s) h (next (some ref))) where
    named : (h : History) (ref : String) → includes ref scope ≡ true → may_use os scope h ref ≡ true
    unfolding may_use
    named h ref e = ground (arith, e)

    listed_now :
        (h : History) (ref : String) (u : Answer) (items : List Json)
        → not (eqb u.status 200) ≡ false
        → listed os u.body ≡ some items
        → any (is_listed_as ref scope) items ≡ true
        → may_use os scope ((list_all, answered u) ∷ h) ref ≡ true
    unfolding may_use was_listed lists
    listed_now h ref u items is_list is_items e = ground (arith, is_list, is_items, e)

    scan-IsGuarded :
        (h : History) (ref : String) (items : List Json)
        → (any (is_listed_as ref scope) items ≡ true → may_use os scope h ref ≡ true)
        → IsGuarded (permits os s) h (scan ref scope items next)
    unfolding scan any
    scan-IsGuarded h ref [] usable = absent h
    scan-IsGuarded h ref (v ∷ items) usable =
        IsGuarded-if (permits os s) h (is_nullish v) _ _ (λ e. IsGuarded-throws (permits os s) _ _)
          λ not_null.
            IsGuarded-if (permits os s) h (is_listed_as ref scope v) _ _
              (λ e. found h ref (usable (ground (arith, e))))
              (λ e. scan-IsGuarded h ref items λ k. usable (ground (arith, e, k)))

    pub resolve-IsGuarded :
        (h : History) (raw : String)
        → IsGuarded (permits os s) h (resolve_allowed_container_ref os raw scope next)
    unfolding resolve_allowed_container_ref
    resolve-IsGuarded h raw =
        IsGuarded-with_some (permits os s) h (clean_container_ref os raw) _ _ (absent h)
          λ ref is_ref.
            IsGuarded-if (permits os s) h (includes ref scope) _ _
              (λ e. found h ref (named h ref e))
              λ not_named.
                IsGuarded-if (permits os s) h (not (is_docker_id ref)) _ _ (λ e. absent h)
                  λ is_id. IsGuarded-await (permits os s) h list_all _ (list_all_allowed h) λ u.
                    IsGuarded-if (permits os s) _ (not (eqb u.status 200)) _ _ (λ e. absent _)
                      λ is_list.
                        IsGuarded-with_some (permits os s) _ (listed os u.body) _ _ (absent _)
                          λ items is_items.
                            scan-IsGuarded _ ref items
                              λ e. listed_now h ref u items is_list is_items e
