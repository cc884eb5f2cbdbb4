-- ===== src/Docker/Permits/Vetted.antt =====
-- What the checks of the operator's values pass.
use remote_ops_mcp.Prelude.{
  ℕ, String, ◌≡◌, Bool, true, false, not, ◌&&◌, Option, none, some, arith, any, includes,
  if◌then◌else◌, Option-cases, inl, inr,
}
use remote_ops_mcp.Docker.Json.{Json, Host, get, text_or_empty}
use remote_ops_mcp.Docker.Requests.{Candidate}
use remote_ops_mcp.Docker.Settings.{Settings, has_number}
use remote_ops_mcp.Docker.Checks.{
  is_container_ref, clean_container_ref, clean_image_ref, clean_port, allowed_prefix,
  clean_allowed_load_path, is_load_path, ends_with, is_in_root,
}
use remote_ops_mcp.Security.SecretPaths.{deny_secret_path}
use remote_ops_mcp.Docker.Operator.{accepted, when, check_candidate}
use remote_ops_mcp.Docker.Rule.{is_allowed_candidate, is_loadable}

pub clean_container_ref_lem :
    (os : Host) (raw ref : String)
    → clean_container_ref os raw ≡ some ref
    → is_container_ref ref ≡ true
unfolding clean_container_ref
clean_container_ref_lem os raw ref h = elim (Option-cases (os.decode_uri_component raw)) [
  | inl e ↦ absurd (ground (arith, e, h))
  | inr (x, e) ↦ ground (arith, e, h)
]

checked_value :
    (b : Bool) (o : Option String) (test : String → Bool) (path : String)
    → (if b
        then (elim o [ none ↦ none | some real ↦ if test real then some real else none ])
        else none)
      ≡ some path
    → test path ≡ true
checked_value false o test path h = absurd (cc)
checked_value true none test path h = absurd (cc)
checked_value true (some real) test path h = ground (arith, h)

pub clean_allowed_load_path_lem :
    (os : Host) (s : Settings) (value : Json) (path : String)
    → clean_allowed_load_path os s.image_load_roots value ≡ some path
    → is_loadable os s path ≡ true
unfolding clean_allowed_load_path is_loadable
clean_allowed_load_path_lem os s value path h =
    checked_value (is_load_path (text_or_empty os value)) (os.realpath (text_or_empty os value))
      (λ real.
        (not (deny_secret_path real) && ends_with real ".tar")
        && any (is_in_root os real) s.image_load_roots)
      path h

vetted :
    (n i w : Option String) (p q : Option ℕ) (nt it wt : String → Bool) (pt qt : ℕ → Bool)
    (a b d e f : String) (name : String) (c : Candidate)
    → (when n nt a λ n'. when i it b λ i'. when w wt d λ w'. when p pt e λ p'. when q qt f λ q'.
        accepted n' (record { image = i'; network = w'; host_port = p'; container_port = q' }))
      ≡ accepted name c
    → (n ≡ some name)
      × ((nt name && (it c.image && (wt c.network && (pt c.host_port && qt c.container_port))))
          ≡ true)
vetted none i w p q nt it wt pt qt a b d e f name c h = absurd (cc)
vetted (some n) none w p q nt it wt pt qt a b d e f name c h = absurd (ground (arith, h))
vetted (some n) (some i) none p q nt it wt pt qt a b d e f name c h = absurd (ground (arith, h))
vetted (some n) (some i) (some w) none q nt it wt pt qt a b d e f name c h =
    absurd (ground (arith, h))
vetted (some n) (some i) (some w) (some p) none nt it wt pt qt a b d e f name c h =
    absurd (ground (arith, h))
vetted (some n) (some i) (some w) (some p) (some q) nt it wt pt qt a b d e f name c h =
    ground (arith, h)

-- A candidate passes the tests only if the rule permits it.
pub check_candidate-permits :
    (os : Host) (s : Settings) (payload : Json) (name : String) (c : Candidate)
    → check_candidate os s payload ≡ accepted name c
    → is_allowed_candidate s name c ≡ true
unfolding check_candidate is_allowed_candidate
check_candidate-permits os s payload name c h =
    let raw = text_or_empty os (get "name" payload) in
    let (is_name, passes) =
      vetted (clean_container_ref os raw) (clean_image_ref os (get "image" payload))
        (clean_container_ref os (text_or_empty os (get "network" payload)))
        (clean_port os (get "hostPort" payload)) (clean_port os (get "containerPort" payload))
        (allowed_prefix s.candidate_name_prefixes) (allowed_prefix s.candidate_image_prefixes)
        (λ n. includes n s.candidate_networks) (λ x. has_number x s.candidate_host_ports)
        (λ x. has_number x s.candidate_container_ports) _ _ _ _ _ name c h in
    ground (arith, passes, clean_container_ref_lem os raw name is_name)
