-- ===== src/Docker/Reads.antt =====
-- The reading part of `handle` in src/docker/read-proxy.ts: ping, version, the list of containers,
-- inspection and logs.
use Prim.Native.Char.{code}
use remote_ops_mcp.Prelude.{
  ℕ, String, Bool, true, false, not, ◌&&◌, ◌||◌, Option, none, some, List, [], ◌∷◌, ◌==◌, ltb, leb,
  eqb, if◌then◌else◌, any, filter, includes, split_on, is_some, or_else,
}
use remote_ops_mcp.Dict.{Dict, lookup}
use remote_ops_mcp.Docker.Json.{Json, Host, is_nullish, items_of}
use remote_ops_mcp.Docker.Requests.{
  Number, natural, between, negative, infinite, not_a_number, ListQuery, LogQuery, ping, version,
  list_containers, inspect_container, read_logs, Answer, problem, relay_text, health, listing,
  Script, reply, throws, await, with_some, Call,
}
use remote_ops_mcp.Docker.Settings.{Settings}
use remote_ops_mcp.Docker.Checks.{drop_digits, starts_with_digit}
use remote_ops_mcp.Docker.Exec.{relay_typed, has_name_in, resolve_allowed_container_ref}

-- send(res, u.status, u.body.toString("utf8"), String(u.headers["content-type"] ?? default))
abbrev pub relay_decoded : Host → Answer → String → Script
relay_decoded os u default =
    reply (relay_text u.status (os.utf8 u.body) (or_else u.content_type default))

unfoldable pub allowed_query : Dict String → List String → Bool
unfolding includes
allowed_query [] keys = true
allowed_query ((k, v) ∷ params) keys = includes k keys && allowed_query params keys

-- searchParams.get(k) === v
unfoldable pub has_value : String → String → Dict String → Bool
unfolding lookup
has_value k v params = elim (lookup k params) [ none ↦ false | some w ↦ w == v ]

-- x || default
abbrev pub or_number : Number → ℕ → Number
or_number (natural n) default = if eqb n 0 then natural default else natural n
or_number not_a_number default = natural default
or_number x default = x

-- Math.min(Math.max(x, low), high), for low below high
unfoldable pub clamp_number : ℕ → ℕ → Number → Number
clamp_number low high (natural n) =
    if ltb n low then natural low else if ltb high n then natural high else natural n
clamp_number low high (between n) =
    if ltb n low then natural low else if leb high n then natural high else between n
clamp_number low high negative = natural low
clamp_number low high infinite = natural high
clamp_number low high not_a_number = not_a_number

-- /^\d+(?:\.\d+)?$/
unfoldable pub is_fraction_end : String → Bool
unfolding starts_with_digit drop_digits
is_fraction_end String.[] = true
is_fraction_end (String.◌∷◌ c s) = eqb (code c) b'.' && (starts_with_digit s && drop_digits s == "")

unfoldable pub is_timestamp : String → Bool
unfolding starts_with_digit drop_digits is_fraction_end
is_timestamp v = starts_with_digit v && is_fraction_end (drop_digits v)

abbrev pub timestamp_of : Option String → Option String
timestamp_of none = none
timestamp_of (some v) = if is_timestamp v then some v else none

-- `read_number` is Number(s).
unfoldable pub list_query : (String → Number) → Dict String → ListQuery
unfolding has_value lookup clamp_number
list_query read_number params = record {
  all = has_value "all" "1" params;
  limit = elim (lookup "limit" params) [
    | none ↦ none
    | some s ↦ some (clamp_number 0 100 (or_number (read_number s) 0))
  ];
  size = if is_some (lookup "size" params) then some (has_value "size" "1" params) else none;
}

unfoldable pub log_query : (String → Number) → Dict String → LogQuery
unfolding has_value lookup clamp_number is_timestamp
log_query read_number params = record {
  stdout = not (has_value "stdout" "0" params);
  stderr = not (has_value "stderr" "0" params);
  timestamps = has_value "timestamps" "1" params;
  tail = clamp_number 1 500 (or_number (read_number (or_else (lookup "tail" params) "100")) 100);
  since = timestamp_of (lookup "since" params);
  until = timestamp_of (lookup "until" params);
}

-- The containers with an allowed name; reading the names of null throws.
unfoldable pub list_allowed : Settings → List Json → Script
unfolding any filter has_name_in
list_allowed s items =
    if any is_nullish items
    then throws "TypeError"
    else reply (listing (filter (has_name_in s.allowed) items))

unfoldable pub list_reply : Host → Settings → Answer → Script
unfolding list_allowed items_of
list_reply os s u =
    if eqb u.status 200
    then (with_some (os.parse u.body) (reply (problem 502 "invalid_upstream_json")) λ value.
        with_some (items_of value) (reply (problem 502 "invalid_upstream_shape")) (list_allowed s))
    else relay_decoded os u "application/json"

abbrev pub no_query : Call → Script → Script
no_query call next = if call.search == "" then next else reply (problem 400 "query_not_allowed")

abbrev pub known_query : Call → List String → Script → Script
known_query call keys next =
    if allowed_query call.params keys then next else reply (problem 400 "query_not_allowed")

abbrev pub log_keys : List String
log_keys = "stdout" ∷ "stderr" ∷ "timestamps" ∷ "tail" ∷ "since" ∷ "until" ∷ []

-- Inspection, or logs, of the container that was resolved.
unfoldable pub read_resolved : Host → (String → Number) → Call → String → Option String → Script
unfolding allowed_query log_query
read_resolved os read_number call verb found =
    with_some found (reply (problem 403 "container_not_allowed")) λ ref.
      if verb == "json"
      then no_query call (await (inspect_container ref) λ u. relay_decoded os u "application/json")
      else known_query call log_keys (
          await (read_logs ref (log_query read_number call.params))
            λ u. relay_typed u "application/octet-stream")

unfoldable pub read_container :
    Host → (String → Number) → Settings → Call → String → String → Script
unfolding resolve_allowed_container_ref read_resolved
read_container os read_number s call raw verb =
    resolve_allowed_container_ref os raw s.allowed (read_resolved os read_number call verb)

-- /^\/containers\/([^/]+)\/(json|logs)$/
unfoldable pub read_by_segments : Host → (String → Number) → Settings → Call → List String → Script
unfolding read_container
read_by_segments os read_number s call (root ∷ (containers ∷ (raw ∷ (verb ∷ [])))) =
    if root == ""
      && (containers == "containers" && (not (raw == "") && (verb == "json" || verb == "logs")))
    then read_container os read_number s call raw verb
    else reply (problem 404 "not_allowed")
read_by_segments os read_number s call _ = reply (problem 404 "not_allowed")

unfoldable pub handle_read : Host → (String → Number) → Settings → Call → String → Script
unfolding allowed_query list_query list_reply split_on read_by_segments
handle_read os read_number s call path =
    if not (call.method == "GET")
    then reply (problem 405 "method_not_allowed")
    else if path == "/healthz"
    then reply health
    else if path == "/_ping"
    then no_query call (await ping λ u. relay_decoded os u "text/plain")
    else if path == "/version"
    then no_query call (await version λ u. relay_decoded os u "application/json")
    else if path == "/containers/json"
    then known_query call ("all" ∷ "limit" ∷ "size" ∷ "filters" ∷ [])
        (await (list_containers (list_query read_number call.params)) (list_reply os s))
    else read_by_segments os read_number s call (split_on b'/' path)
