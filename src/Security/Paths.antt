-- ===== src/Security/Paths.antt =====
-- src/security/paths.ts: the paths that tools read, the repositories and working directories that
-- they use. The remote `realpath` is an argument; texts of errors are left out.
use Prim.Native.Char.{code}
use remote_ops_mcp.Prelude.{
  ℕ, String, Bool, true, false, not, ◌&&◌, ◌||◌, List, [], ◌∷◌, ◌==◌, eqb, if◌then◌else◌, any,
  filter, includes, is_break, split_on, strip_slashes, starts_with, concat, trim, append,
}
use remote_ops_mcp.Errors.{
  ErrorCode, path_denied, secret_path_denied, repo_not_allowed, Result, ok, err, ◌>>=◌, ◌>>◌,
  require,
}
use remote_ops_mcp.Config.Target.{TargetConfig}
use remote_ops_mcp.Security.SecretPaths.{deny_secret_path}

-- What a `RemoteRun` ends with: an exit code and the standard output, an `OpsError`, or another
-- exception.
pub data Run : Type 0 where
  finished : ℕ → String → Run
  refused : ErrorCode → Run
  broke : Run

abbrev pub RemoteRun : Type 0
RemoteRun = List String → Run

-- input.replace(/\0/g, "").replace(/[\r\n]/g, "")
unfoldable pub sanitize_segments : String → String
sanitize_segments String.[] = String.[]
sanitize_segments (String.◌∷◌ c s) =
    let rest = sanitize_segments s in if is_break (code c) then rest else String.◌∷◌ c rest

-- split("/").filter((s) => s.length > 0 && s !== ".")
unfoldable pub segments : String → List String
unfolding split_on filter
segments p = filter (λ s. not (s == "") && not (s == ".")) (split_on b'/' p)

-- "/" + segs.join("/")
unfoldable pub join_segments : List String → String
unfolding append
join_segments [] = ""
join_segments (s ∷ rest) = append "/" (append s (join_segments rest))

unfoldable pub is_empty : List String → Bool
is_empty [] = true
is_empty (s ∷ rest) = false

-- The path that is asked for, cleaned: absolute, not empty, with no "..", and not secret.
unfoldable pub normalized_path : String → Result String
unfolding is_empty includes
normalized_path input =
    require (starts_with (sanitize_segments input) "/") path_denied
    >> (require (not (is_empty (segments (sanitize_segments input)))) path_denied
        >> (require (not (includes ".." (segments (sanitize_segments input)))) path_denied
            >> (require
                  (not (deny_secret_path (join_segments (segments (sanitize_segments input)))))
                  secret_path_denied
                >> ok (join_segments (segments (sanitize_segments input))))))

unfoldable pub first_line : List String → String
first_line [] = ""
first_line (l ∷ rest) = l

-- The first line that `realpath` printed.
unfoldable pub read_real : Run → Result String
unfolding first_line split_on trim
read_real (finished code stdout) =
    if eqb code 0 then ok (first_line (split_on 10 (trim stdout))) else err path_denied
read_real (refused e) = err e
read_real broke = err path_denied

-- The checks of the path that `realpath` printed.
unfoldable pub check_real : String → Result String
unfolding split_on includes
check_real real =
    require (starts_with real "/" && not (includes ".." (split_on b'/' real))) path_denied
    >> (require (not (deny_secret_path real)) secret_path_denied >> ok real)

unfoldable pub canonical_real_path : String → RemoteRun → Result String
unfolding normalized_path read_real check_real
canonical_real_path input run = normalized_path input >>= λ normalized.
    read_real (run ("realpath" ∷ "-e" ∷ "--" ∷ normalized ∷ [])) >>= check_real

-- real === r || real.startsWith(r + "/")
unfoldable pub is_under : String → String → Bool
unfolding strip_slashes
is_under real root =
    real == strip_slashes root || starts_with real (concat (strip_slashes root) "/")

-- The path lies under one of the roots; without roots, nothing does.
unfoldable pub inside : List String → String → Result String
unfolding is_empty any is_under
inside roots real =
    require (not (is_empty roots)) path_denied
    >> (require (any (is_under real) roots) path_denied >> ok real)

unfoldable pub resolve_checked_path : String → TargetConfig → RemoteRun → Result String
unfolding canonical_real_path inside
resolve_checked_path input t run = canonical_real_path input run >>= inside t.allowed_paths

unfoldable pub resolve_checked_process_cwd : String → TargetConfig → RemoteRun → Result String
unfolding canonical_real_path inside
resolve_checked_process_cwd input t run =
    canonical_real_path input run >>= inside t.allowed_process_cwds

-- A configured repository counts if it resolves, and to the same path.
unfoldable pub is_same_repo : String → Result String → Bool
is_same_repo real (ok allowed) = real == allowed
is_same_repo real (err e) = false

unfoldable pub resolve_checked_git_repo : String → TargetConfig → RemoteRun → Result String
unfolding canonical_real_path is_empty any is_same_repo
resolve_checked_git_repo input t run = canonical_real_path input run >>= λ real.
    require (not (is_empty t.allowed_git_repos)) repo_not_allowed
    >> (require (any (λ r. is_same_repo real (canonical_real_path r run)) t.allowed_git_repos)
          repo_not_allowed
        >> ok real)

unfoldable pub assert_configured_path : String → List String → Result String
unfolding normalized_path inside
assert_configured_path input roots = normalized_path input >>= inside roots
