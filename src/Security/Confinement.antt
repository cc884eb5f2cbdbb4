-- ===== src/Security/Confinement.antt =====
-- Where the paths that are let through lie.
use remote_ops_mcp.Prelude.{
  String, ◌≡◌, Bool, true, false, not, refl, List, [], ◌∷◌, arith, any, ap, ◌∙◌, sym,
}
use remote_ops_mcp.Errors.{repo_not_allowed, Result, ok, require, ◌>>=◌, ◌>>◌, bind_ok}
use remote_ops_mcp.Config.Target.{TargetConfig}
use remote_ops_mcp.Security.Paths.{
  RemoteRun, is_empty, check_real, read_real, normalized_path, canonical_real_path, is_under,
  inside, is_same_repo, resolve_checked_path, resolve_checked_process_cwd, resolve_checked_git_repo,
  assert_configured_path,
}
use remote_ops_mcp.Security.Cleaning.{
  IsClean, normalized_path-IsClean, normalized_path-normalized_path,
}

check_real-IsClean : (real p : String) → check_real real ≡ ok p → IsClean p
unfolding check_real
check_real-IsClean real p h = ground (arith, h)

canonical-IsClean :
    (input : String) (run : RemoteRun) (p : String)
    → canonical_real_path input run ≡ ok p
    → IsClean p
unfolding canonical_real_path
canonical-IsClean input run p h =
    let (n, good, rest) = bind_ok (normalized_path input) _ p h in
    let (real, read, checked) =
      bind_ok (read_real (run ("realpath" ∷ "-e" ∷ "--" ∷ n ∷ []))) check_real p rest in
    check_real-IsClean real p checked

inside_root :
    (roots : List String) (real p : String)
    → inside roots real ≡ ok p
    → (p ≡ real) × (any (is_under p) roots ≡ true)
unfolding inside
inside_root roots real p h = ground (arith, h)

inside_some :
    (roots : List String) (p : String) → any (is_under p) roots ≡ true → is_empty roots ≡ false
unfolding any is_empty
inside_some [] p h = absurd (cc)
inside_some (r ∷ roots) p h = refl

inside_passes :
    (roots : List String) (p : String)
    → is_empty roots ≡ false
    → any (is_under p) roots ≡ true
    → inside roots p ≡ ok p
unfolding inside
inside_passes roots p some_left under = ground (arith, some_left, under)

confined :
    (r : Result String) (roots : List String) (p : String)
    → (r >>= inside roots) ≡ ok p
    → (r ≡ ok p) × (any (is_under p) roots ≡ true)
confined r roots p h =
    let (real, resolved, rest) = bind_ok r (inside roots) p h in
    let (same, under) = inside_root roots real p rest in (resolved ∙ ap ok (sym same), under)

-- A path that a tool may read is what the target's `realpath` printed: it is absolute, not secret,
-- without "..", and equal to or below an allowed path of the target.
pub checked_path_is_confined :
    (input : String) (t : TargetConfig) (run : RemoteRun) (p : String)
    → resolve_checked_path input t run ≡ ok p
    → (canonical_real_path input run ≡ ok p) × IsClean p × (any (is_under p) t.allowed_paths ≡ true)
unfolding resolve_checked_path
checked_path_is_confined input t run p h =
    let (resolved, under) = confined (canonical_real_path input run) t.allowed_paths p h in
    (resolved, canonical-IsClean input run p resolved, under)

-- The same of a working directory.
pub checked_cwd_is_confined :
    (input : String) (t : TargetConfig) (run : RemoteRun) (p : String)
    → resolve_checked_process_cwd input t run ≡ ok p
    → IsClean p × (any (is_under p) t.allowed_process_cwds ≡ true)
unfolding resolve_checked_process_cwd
checked_cwd_is_confined input t run p h =
    let (resolved, under) = confined (canonical_real_path input run) t.allowed_process_cwds p h in
    (canonical-IsClean input run p resolved, under)

repo_passes :
    (none_left : Bool) (same : String → Bool) (real p : String)
    → (require (not none_left) repo_not_allowed
        >> (require (same real) repo_not_allowed >> ok real))
      ≡ ok p
    → (p ≡ real) × (same p ≡ true)
repo_passes none_left same real p h = ground (arith, h)

-- A repository that is let through is clean, and a configured repository of the target resolves to
-- the same path.
pub checked_repo_is_configured :
    (input : String) (t : TargetConfig) (run : RemoteRun) (p : String)
    → resolve_checked_git_repo input t run ≡ ok p
    → IsClean p × (any (λ r. is_same_repo p (canonical_real_path r run)) t.allowed_git_repos ≡ true)
unfolding resolve_checked_git_repo
checked_repo_is_configured input t run p h =
    let (real, resolved, rest) = bind_ok (canonical_real_path input run) _ p h in
    let (same, found) =
      repo_passes (is_empty t.allowed_git_repos)
        (λ q. any (λ r. is_same_repo q (canonical_real_path r run)) t.allowed_git_repos) real p
        rest in
    (canonical-IsClean input run p (resolved ∙ ap ok (sym same)), found)

-- A configured path that is let through is returned in a clean form: absolute, not secret and without
-- "..". It lies under a root, and it is let through again as it is.
pub configured_path_is_confined :
    (input : String) (roots : List String) (p : String)
    → assert_configured_path input roots ≡ ok p
    → IsClean p × (any (is_under p) roots ≡ true) × (assert_configured_path p roots ≡ ok p)
unfolding assert_configured_path
configured_path_is_confined input roots p h =
    let (cleaned, under) = confined (normalized_path input) roots p h in
    (
      normalized_path-IsClean input p cleaned,
      under,
      ap (λ r. r >>= inside roots) (normalized_path-normalized_path input p cleaned)
          ∙ inside_passes roots p (inside_some roots p under) under,
    )
