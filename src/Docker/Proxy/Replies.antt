-- ===== src/Docker/Proxy/Replies.antt =====
-- What the proxy sends back when Docker fails, and for a list of containers.
use mathlib.Core.Path.{subst}
use remote_ops_mcp.Docker.Proxy.Names.{
  Stands, HasAllowedName, filter-Stands, Stands-filter, has_name_in-HasAllowedName,
  HasAllowedName-has_name_in,
}
use remote_ops_mcp.Prelude.{
  sym, or_else, ℕ, String, ◌≡◌, ap, Bool, true, false, Option, none, some, List, ◌∷◌, arith, any,
  filter, eqb, if◌then◌else◌, Option-cases, inl, inr,
}
use remote_ops_mcp.Docker.Json.{Json, Host, is_nullish, items_of}
use remote_ops_mcp.Docker.Requests.{
  Request, Answer, Outcome, rejected, Reply, relay_text, problem, listing, Script, reply, throws,
  ask, await, on_answer,
}
use remote_ops_mcp.Docker.Settings.{Settings}
use remote_ops_mcp.Docker.Exec.{has_name_in, listed}
use remote_ops_mcp.Docker.Reads.{list_allowed, list_reply}
use remote_ops_mcp.Docker.Proxy.{catch_with, upstream_error}

-- Docker's side of a conversation: what it answers to a request, after the earlier ones.
abbrev pub Daemon : Type 0
Daemon = List Request → Request → Outcome

-- The requests that the script makes of the daemon, the last one first, and its reply; `none`: an
-- exception.
unfoldable pub converse : Daemon → List Request → Script → List Request × Option Reply
converse d asked (reply r) = (asked, some r)
converse d asked (throws message) = (asked, none)
converse d asked (ask r next) = converse d (r ∷ asked) (next (d asked r))

-- If Docker fails a request of a handler that does not look at the failure, and so throws, the caller
-- gets 502.
pub failed_request_is_502 :
    (d : Daemon) (asked : List Request) (r : Request) (next : Answer → Script) (message : String)
    → d asked r ≡ rejected message
    → (converse d asked (catch_with upstream_error (await r next))).1
      ≡ some (problem 502 "upstream_error")
unfolding converse catch_with
failed_request_is_502 d asked r next message h =
    ap (λ o. (converse d (r ∷ asked) (catch_with upstream_error (on_answer next o))).1) h

filtered :
    (good null : Bool) (p : Json → Bool) (upstream items : List Json) (n : ℕ) (body kind : String)
    → (if good
        then (if null then throws "TypeError" else reply (listing (filter p upstream)))
        else reply (relay_text n body kind))
      ≡ reply (listing items)
    → items ≡ filter p upstream
filtered false null p upstream items n body kind h = absurd (cc)
filtered true true p upstream items n body kind h = absurd (cc)
filtered true false p upstream items n body kind h = ground (arith, h)

exactly_allowed :
    (allowed : List String) (upstream items : List Json)
    → items ≡ filter (has_name_in allowed) upstream
    → (value : Json)
    → (Stands value items → Stands value upstream × HasAllowedName allowed value)
      × (Stands value upstream → HasAllowedName allowed value → Stands value items)
exactly_allowed allowed upstream items same value = (
  λ there.
      let (stands, good) =
        filter-Stands (has_name_in allowed) value upstream (subst (Stands value) same there) in
      (stands, has_name_in-HasAllowedName allowed value good),
  λ stands named. subst (Stands value) (sym same) (
      Stands-filter (has_name_in allowed) value upstream stands
        (HasAllowedName-has_name_in allowed value named)),
)

-- A list of containers that the proxy sends holds exactly those containers of the list that Docker sent
-- that have an allowed name: a text in their `Names` which, without one leading slash, is one of the
-- allowed names.
pub list_holds_allowed_only :
    (os : Host) (s : Settings) (u : Answer) (items : List Json)
    → list_reply os s u ≡ reply (listing items)
    → (upstream : List Json) × (listed os u.body ≡ some upstream)
      × ((value : Json)
          → (Stands value items → Stands value upstream × HasAllowedName s.allowed value)
            × (Stands value upstream → HasAllowedName s.allowed value → Stands value items))
unfolding list_reply list_allowed listed
list_holds_allowed_only os s u items h = elim (Option-cases (os.parse u.body)) [
  | inl e ↦ absurd (ground (arith, e, h))
  | inr (value, e) ↦ elim (Option-cases (items_of value)) [
    | inl k ↦ absurd (ground (arith, e, k, h))
    | inr (upstream, k) ↦
        let same =
          filtered (eqb u.status 200) (any is_nullish upstream) (has_name_in s.allowed) upstream
            items u.status (os.utf8 u.body) (or_else u.content_type "application/json")
            (ground (arith, e, k, h)) in
        (upstream, ground (arith, e, k), exactly_allowed s.allowed upstream items same)
  ]
]
