-- ===== src/Approvals/AgentTarget/Once.antt =====
-- A dynamic target is written only for a confirmed approval, and once.
use remote_ops_mcp.Prelude.{
  ℕ, ◌≤◌, String, ◌≡◌, ◌⊎◌, none, some, arith, eq_iff, trim, concat, Option-cases, inl, inr,
}
use remote_ops_mcp.Errors.{ok, Result-cases}
use remote_ops_mcp.Dict.{Dict, lookup, remove, lookup-prune, lookup-remove_self}
use remote_ops_mcp.Dict.Index.{IsIndex, IsIndex-key}
use remote_ops_mcp.Store.Model.{Process}
use remote_ops_mcp.Config.Target.{TargetConfig}
use remote_ops_mcp.Config.Registry.{Registry, upsert_dynamic_agent_target}
use remote_ops_mcp.Approvals.Utils.{Settings, require_approval_confirmation}
use remote_ops_mcp.Approvals.AgentTarget.{
  Pending, is_expired, purge, check_application, Access, apply_checked, apply_agent_target_approval,
}

lookup-purge :
    (id : String) (now : ℕ) (d : Dict Pending) (a : Pending)
    → lookup id (purge now d) ≡ some a
    → (lookup id d ≡ some a) × (now ≤ a.expires_at)
unfolding purge
lookup-purge id now d a e = ground (arith, e, lookup-prune (is_expired now) id d)

application_confirmed :
    (env : Settings) (store : Process) (a : Pending) (actor confirmation : String) (now : ℕ)
    → check_application env store a actor confirmation now ≡ ok tt
    → (a.actor ≡ actor) × (trim confirmation ≡ concat "APPROVE " a.id)
unfolding check_application require_approval_confirmation
application_confirmed env store a actor confirmation now e =
    ground (arith, e, eq_iff a.actor actor, eq_iff (trim confirmation) (concat "APPROVE " a.id))

apply_checked-registry :
    (x : Access) (a : Pending) (d : Dict Pending) (r : Registry)
    → (apply_checked x a d r).1 ≡ (upsert_dynamic_agent_target x.le x.schema a.target r).0
unfolding apply_checked
apply_checked-registry x a d r = ground arith

apply_checked-removes :
    (x : Access) (a : Pending) (d : Dict Pending) (r : Registry) (t : TargetConfig)
    → (apply_checked x a d r).2 ≡ ok t
    → (apply_checked x a d r).0 ≡ remove a.id d
unfolding apply_checked
apply_checked-removes x a d r t e = ground (arith, e)

-- Applying an approval leaves the registry as it is, unless the approval is there and has not
-- expired, belongs to the actor and comes with its exact confirmation; then the registry becomes
-- what writing the approved target makes of it.
pub registry_changes_only_if_confirmed :
    (x : Access) (env : Settings) (store : Process) (actor approval_id confirmation : String)
    (now : ℕ) (approvals : Dict Pending) (r : Registry)
    → let applied =
        apply_agent_target_approval x env store actor approval_id confirmation now approvals r in
      (applied.1 ≡ r)
      ⊎ ((a : Pending) × (lookup approval_id approvals ≡ some a)
          × (now ≤ a.expires_at)
          × (a.actor ≡ actor)
          × (trim confirmation ≡ concat "APPROVE " a.id)
          × (applied.1 ≡ (upsert_dynamic_agent_target x.le x.schema a.target r).0))
unfolding apply_agent_target_approval
registry_changes_only_if_confirmed x env store actor approval_id confirmation now approvals r =
    elim (Option-cases (lookup approval_id (purge now approvals))) [
      | inl absent ↦ inl (ground (arith, absent))
      | inr (a, found) ↦
          elim (Result-cases (check_application env store a actor confirmation now)) [
            | inr (e, bad) ↦ inl (ground (arith, found, bad))
            | inl (_, good) ↦
                let (there, live) = lookup-purge approval_id now approvals a found in
                let (same, exact) = application_confirmed env store a actor confirmation now good in
                inr (
                  a,
                  there,
                  live,
                  same,
                  exact,
                  ground (arith, found, good, apply_checked-registry x a (purge now approvals) r),
                )
          ]
    ]

-- Once an approval has been applied it is gone.
pub applied_approval_is_gone :
    (x : Access) (env : Settings) (store : Process) (actor approval_id confirmation : String)
    (now : ℕ) (approvals : Dict Pending) (r : Registry) (t : TargetConfig)
    → IsIndex (λ (a : Pending). a.id) approvals
    → (apply_agent_target_approval x env store actor approval_id confirmation now approvals r).2
      ≡ ok t
    → lookup approval_id
        (apply_agent_target_approval x env store actor approval_id confirmation now approvals r).0
      ≡ none
unfolding apply_agent_target_approval
applied_approval_is_gone x env store actor approval_id confirmation now approvals r t index e =
    elim (Option-cases (lookup approval_id (purge now approvals))) [
      | inl absent ↦ absurd (ground (arith, absent, e))
      | inr (a, found) ↦
          elim (Result-cases (check_application env store a actor confirmation now)) [
            | inr (code, bad) ↦ absurd (ground (arith, found, bad, e))
            | inl (_, good) ↦
                let (there, live) = lookup-purge approval_id now approvals a found in
                let key = IsIndex-key (λ (a : Pending). a.id) approvals approval_id a index there in
                ground (
                  arith,
                  found,
                  good,
                  e,
                  key,
                  apply_checked-removes x a (purge now approvals) r t,
                  lookup-remove_self approval_id (purge now approvals),
                )
          ]
    ]
