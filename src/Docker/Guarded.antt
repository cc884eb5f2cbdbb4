-- ===== src/Docker/Guarded.antt =====
-- Scripts that ask only for what a rule lets through, whatever Docker answers.
use remote_ops_mcp.Prelude.{
  String, ◌≡◌, refl, Bool, true, false, List, ◌∷◌, Option, none, some, if◌then◌else◌,
}
use remote_ops_mcp.Docker.Json.{Made, made, failed}
use remote_ops_mcp.Docker.Requests.{
  Request, Reply, Answer, Outcome, answered, rejected, Script, reply, throws, ask, await, on_answer,
  with_some,
}
use remote_ops_mcp.Docker.Proxy.{catch_with, with_made}

-- The requests that were made, with their outcomes, the last one first.
abbrev pub History : Type 0
History = List (Request × Outcome)

abbrev pub Rule : Type 0
Rule = History → Request → Bool

-- Each request on each path through the script passes the rule, given the requests before it.
unfoldable pub IsGuarded : Rule → History → Script → Type 0
IsGuarded rule h (reply r) = Unit
IsGuarded rule h (throws message) = Unit
IsGuarded rule h (ask r next) =
    (rule h r ≡ true) × ((o : Outcome) → IsGuarded rule ((r, o) ∷ h) (next o))

module _ (rule : Rule) where
  pub IsGuarded-reply : (h : History) (r : Reply) → IsGuarded rule h (reply r)
  unfolding IsGuarded
  IsGuarded-reply h r = tt

  pub IsGuarded-throws : (h : History) (message : String) → IsGuarded rule h (throws message)
  unfolding IsGuarded
  IsGuarded-throws h message = tt

  pub IsGuarded-ask :
      (h : History) (r : Request) (next : Outcome → Script)
      → rule h r ≡ true
      → ((o : Outcome) → IsGuarded rule ((r, o) ∷ h) (next o))
      → IsGuarded rule h (ask r next)
  unfolding IsGuarded
  IsGuarded-ask h r next ok rest = (ok, rest)

  pub IsGuarded-await :
      (h : History) (r : Request) (next : Answer → Script)
      → rule h r ≡ true
      → ((a : Answer) → IsGuarded rule ((r, answered a) ∷ h) (next a))
      → IsGuarded rule h (await r next)
  unfolding IsGuarded
  IsGuarded-await h r next ok rest = (
    ok,
    λ o. elim o as (λ x. IsGuarded rule ((r, x) ∷ h) (on_answer next x)) [
      | answered a ↦ rest a
      | rejected e ↦ tt
    ],
  )

  pub IsGuarded-if :
      (h : History) (b : Bool) (x y : Script)
      → (b ≡ true → IsGuarded rule h x)
      → (b ≡ false → IsGuarded rule h y)
      → IsGuarded rule h (if b then x else y)
  IsGuarded-if h true x y f g = f refl
  IsGuarded-if h false x y f g = g refl

  pub IsGuarded-with_some :
      (h : History) {A : Type 0} (o : Option A) (otherwise : Script) (next : A → Script)
      → IsGuarded rule h otherwise
      → ((a : A) → o ≡ some a → IsGuarded rule h (next a))
      → IsGuarded rule h (with_some o otherwise next)
  IsGuarded-with_some h none otherwise next f g = f
  IsGuarded-with_some h (some a) otherwise next f g = g a refl

  pub IsGuarded-with_made :
      (h : History) {A : Type 0} (m : Made A) (otherwise : String → Script) (next : A → Script)
      → ((message : String) → IsGuarded rule h (otherwise message))
      → ((a : A) → m ≡ made a → IsGuarded rule h (next a))
      → IsGuarded rule h (with_made m otherwise next)
  IsGuarded-with_made h (failed message) otherwise next f g = f message
  IsGuarded-with_made h (made a) otherwise next f g = g a refl

  pub IsGuarded-catch_with :
      (h : History) (handler : String → Script) (script : Script)
      → ((k : History) (message : String) → IsGuarded rule k (handler message))
      → IsGuarded rule h script
      → IsGuarded rule h (catch_with handler script)
  unfolding catch_with IsGuarded
  IsGuarded-catch_with h handler (reply r) safe g = tt
  IsGuarded-catch_with h handler (throws message) safe g = safe h message
  IsGuarded-catch_with h handler (ask r next) safe g =
      (g.0, λ o. IsGuarded-catch_with ((r, o) ∷ h) handler (next o) safe (g.1 o))
