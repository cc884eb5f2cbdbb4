-- ===== src/Docker/Permits/Operator.antt =====
-- The requests of the operator's handlers.
use remote_ops_mcp.Prelude.{
  ℕ, String, ◌≡◌, refl, true, false, not, ◌∷◌, ◌==◌, eqb, ltb, arith, eq_refl,
}
use remote_ops_mcp.Docker.Json.{Json, Host, is_nullish, get}
use remote_ops_mcp.Docker.Requests.{
  Candidate, create_container, start_container, remove_container, load_image, Answer, answered,
  Script, Call,
}
use remote_ops_mcp.Docker.Settings.{Settings, is_unset}
use remote_ops_mcp.Docker.Checks.{
  is_docker_id, is_container_ref, clean_container_ref, allowed_prefix, clean_allowed_load_path,
}
use remote_ops_mcp.Docker.Exec.{id_of, with_json, with_payload, post_only}
use remote_ops_mcp.Docker.Operator.{
  max_body, load_file, image_load, Vetted, accepted, not_allowed, if_accepted, check_candidate,
  start_candidate, run_candidate, remove_candidate,
}
use remote_ops_mcp.Docker.Guarded.{
  History, IsGuarded, IsGuarded-await, IsGuarded-if, IsGuarded-reply, IsGuarded-throws,
  IsGuarded-ask, IsGuarded-with_some,
}
use remote_ops_mcp.Docker.Rule.{
  permits, has_created_container, has_tried_start, is_allowed_candidate, is_loadable,
}
use remote_ops_mcp.Docker.Permits.Vetted.{
  clean_container_ref_lem, clean_allowed_load_path_lem, check_candidate-permits,
}

module _ (os : Host) (s : Settings) (call : Call) where
  pub post_only-IsGuarded :
      (h : History) (next : Script)
      → IsGuarded (permits os s) h next
      → IsGuarded (permits os s) h (post_only call next)
  post_only-IsGuarded h next g =
      IsGuarded-if (permits os s) h (call.method == "POST") next _ (λ e. g)
        (λ e. IsGuarded-reply (permits os s) h _)

  pub with_json-IsGuarded :
      (h : History) (max : ℕ) (next : Json → Script)
      → ((payload : Json) → IsGuarded (permits os s) h (next payload))
      → IsGuarded (permits os s) h (with_json max call next)
  unfolding with_json
  with_json-IsGuarded h max next g =
      IsGuarded-if (permits os s) h (ltb max call.size) _ _
        (λ e. IsGuarded-reply (permits os s) h _)
        λ e.
          IsGuarded-with_some (permits os s) h call.json _ next (IsGuarded-reply (permits os s) h _)
            λ payload is_json. g payload

  pub with_payload-IsGuarded :
      (h : History) (max : ℕ) (next : Json → Script)
      → ((payload : Json) → IsGuarded (permits os s) h (next payload))
      → IsGuarded (permits os s) h (with_payload max call next)
  unfolding with_payload
  with_payload-IsGuarded h max next g = with_json-IsGuarded h max _ λ payload.
      IsGuarded-if (permits os s) h (is_nullish payload) _ _
        (λ e. IsGuarded-throws (permits os s) h _) (λ e. g payload)

  may_load :
      (h : History) (path : String)
      → is_loadable os s path ≡ true
      → permits os s h (load_image path) ≡ true
  unfolding permits
  may_load h path e = e

  load_file-IsGuarded :
      (h : History) (path : String) (next : Answer → Script)
      → is_loadable os s path ≡ true
      → ((k : History) (a : Answer) → IsGuarded (permits os s) k (next a))
      → IsGuarded (permits os s) h (load_file os path next)
  unfolding load_file
  load_file-IsGuarded h path next ok g =
      IsGuarded-with_some (permits os s) h (os.is_file path) _ _
        (IsGuarded-throws (permits os s) h _)
        λ file is_file.
          IsGuarded-if (permits os s) h file _ _
            (λ e.
              IsGuarded-await (permits os s) h (load_image path) next (may_load h path ok)
                (λ a. g _ a))
            (λ e. IsGuarded-throws (permits os s) h _)

  pub image_load-IsGuarded : (h : History) → IsGuarded (permits os s) h (image_load os s call)
  unfolding image_load
  image_load-IsGuarded h = post_only-IsGuarded h _ (
      with_payload-IsGuarded h max_body _ λ payload.
        IsGuarded-with_some (permits os s) h
          (clean_allowed_load_path os s.image_load_roots (get "path" payload)) _ _
          (IsGuarded-reply (permits os s) h _)
          λ path is_path.
            IsGuarded-if (permits os s) h (is_unset s.image_load_roots) _ _
              (λ e. IsGuarded-reply (permits os s) h _)
              λ e.
                load_file-IsGuarded h path _
                  (clean_allowed_load_path_lem os s (get "path" payload) path is_path)
                  λ k u.
                    IsGuarded-if (permits os s) k (eqb u.status 200) _ _
                      (λ e. IsGuarded-reply (permits os s) k _)
                      (λ e. IsGuarded-reply (permits os s) k _))

  may_start :
      (h : History) (name : String) (c : Candidate) (a : Answer)
      → not (eqb a.status 201) ≡ false
      → not (is_docker_id (id_of os a.body)) ≡ false
      → permits os s ((create_container name c, answered a) ∷ h) (start_container (id_of os a.body))
        ≡ true
  unfolding permits has_created_container
  may_start h name c a created valid = ground (arith, created, valid, eq_refl (id_of os a.body))

  may_clean_up :
      (h : History) (id : String) (a : Answer)
      → eqb a.status 204 ≡ false
      → permits os s ((start_container id, answered a) ∷ h) (remove_container id) ≡ true
  unfolding permits has_tried_start
  may_clean_up h id a failed = ground (arith, failed, eq_refl id)

  may_create :
      (h : History) (name : String) (c : Candidate)
      → is_allowed_candidate s name c ≡ true
      → permits os s h (create_container name c) ≡ true
  unfolding permits
  may_create h name c e = e

  start_candidate-IsGuarded :
      (h : History) (name : String) (c : Candidate)
      → is_allowed_candidate s name c ≡ true
      → IsGuarded (permits os s) h (start_candidate os name c)
  unfolding start_candidate
  start_candidate-IsGuarded h name c ok =
      IsGuarded-await (permits os s) h (create_container name c) _ (may_create h name c ok)
        λ created.
          IsGuarded-if (permits os s) _ (not (eqb created.status 201)) _ _
            (λ e. IsGuarded-reply (permits os s) _ _)
            λ is_created.
              IsGuarded-if (permits os s) _ (not (is_docker_id (id_of os created.body))) _ _
                (λ e. IsGuarded-reply (permits os s) _ _)
                λ is_id.
                  IsGuarded-await (permits os s) _ (start_container (id_of os created.body)) _
                    (may_start h name c created is_created is_id)
                    λ started.
                      IsGuarded-if (permits os s) _ (eqb started.status 204) _ _
                        (λ e. IsGuarded-reply (permits os s) _ _)
                        λ is_started.
                          IsGuarded-ask (permits os s) _ (remove_container (id_of os created.body))
                            _ (may_clean_up _ (id_of os created.body) started is_started)
                            λ o. IsGuarded-reply (permits os s) _ _

  if_accepted-IsGuarded :
      (h : History) (v : Vetted) (next : String → Candidate → Script)
      → ((name : String) (c : Candidate)
          → v ≡ accepted name c
          → IsGuarded (permits os s) h (next name c))
      → IsGuarded (permits os s) h (if_accepted v next)
  if_accepted-IsGuarded h (not_allowed code) next g = IsGuarded-reply (permits os s) h _
  if_accepted-IsGuarded h (accepted name c) next g = g name c refl

  pub run_candidate-IsGuarded : (h : History) → IsGuarded (permits os s) h (run_candidate os s call)
  unfolding run_candidate
  run_candidate-IsGuarded h = post_only-IsGuarded h _ (
      with_payload-IsGuarded h max_body _ λ payload.
        if_accepted-IsGuarded h (check_candidate os s payload) _ λ name c passes.
          start_candidate-IsGuarded h name c (check_candidate-permits os s payload name c passes))

  may_remove :
      (h : History) (name : String)
      → is_container_ref name ≡ true
      → not (allowed_prefix s.candidate_name_prefixes name) ≡ false
      → permits os s h (remove_container name) ≡ true
  unfolding permits
  may_remove h name is_ref allowed = ground (arith, is_ref, allowed)

  pub remove_candidate-IsGuarded :
      (h : History) (raw : String) → IsGuarded (permits os s) h (remove_candidate os s call raw)
  unfolding remove_candidate
  remove_candidate-IsGuarded h raw = post_only-IsGuarded h _ (
      IsGuarded-with_some (permits os s) h (clean_container_ref os raw) _ _
        (IsGuarded-reply (permits os s) h _)
        λ name is_name.
          IsGuarded-if (permits os s) h (not (allowed_prefix s.candidate_name_prefixes name)) _ _
            (λ e. IsGuarded-reply (permits os s) h _)
            λ allowed.
              IsGuarded-await (permits os s) h (remove_container name) _
                (may_remove h name (clean_container_ref_lem os raw name is_name) allowed)
                λ u.
                  IsGuarded-if (permits os s) _ (eqb u.status 404) _ _
                    (λ e. IsGuarded-reply (permits os s) _ _)
                    λ e.
                      IsGuarded-if (permits os s) _ (eqb u.status 204) _ _
                        (λ e. IsGuarded-reply (permits os s) _ _)
                        (λ e. IsGuarded-reply (permits os s) _ _))
