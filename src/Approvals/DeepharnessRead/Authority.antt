-- ===== src/Approvals/DeepharnessRead/Authority.antt =====
-- The approval of the read-only target gives the two containers and nothing else.
use mathlib.Core.Path.{subst}
use remote_ops_mcp.Prelude.{
  [], ◌∷◌, List, Bool, refl, ap, ◌∙◌, ◌&&◌, all, includes, ℕ, ◌≤◌, String, ◌≡◌, ◌⊎◌, true, none,
  some, arith, eq_iff, trim, concat, ltb, Option-cases, Bool-cases, inl, inr,
}
use remote_ops_mcp.Errors.{Result, ok, Result-cases, require, capability_denied, ◌>>◌}
use remote_ops_mcp.Dict.{Dict, lookup}
use remote_ops_mcp.Store.Model.{Process}
use remote_ops_mcp.Config.Target.{
  TargetConfig, agent, read_only, production, CapabilityProfile, Environment,
}
use remote_ops_mcp.Config.Baseline.{has_device, is_empty}
use remote_ops_mcp.Store.Model.{StoredDevice}
use remote_ops_mcp.Config.Registry.{Registry, get_target, upsert_dynamic_agent_target}
use remote_ops_mcp.Approvals.Utils.{Settings, require_live_device, require_approval_confirmation}
use remote_ops_mcp.Approvals.AgentTarget.{Access}
use remote_ops_mcp.Approvals.DeepharnessRead.{
  Pending, is_read_only, is_production, read_target, read_containers, check_baseline,
  has_no_authority, baseline, grant_read, check_read, apply_deepharness_docker_read,
}

-- The target as its checks leave it: an enabled read-only target in production, reached through the
-- agent on a live device; what it may change in Docker by exec or action, in files, by processes and by
-- root commands is nothing, and so are its semantic capabilities; it may read at most the two
-- containers.
pub record IsReader (env : Settings) (store : Process) (now : ℕ) (device : String)
    (t : TargetConfig) : Type 0 where
  pub by_agent : t.transport ≡ agent
  pub on_device : t.device_id ≡ some device
  pub live : (d : StoredDevice) × (require_live_device env device now store ≡ ok d)
  pub reads_only : t.capability_profile ≡ read_only
  pub is_enabled : t.enabled ≡ true
  pub in_production : t.environment ≡ production
  pub no_exec_containers : t.allowed_docker_exec_containers ≡ []
  pub no_exec_programs : t.allowed_docker_exec_programs ≡ []
  pub no_actions : t.allowed_docker_actions ≡ []
  pub no_writes : t.allowed_write_paths ≡ []
  pub no_programs : t.allowed_process_programs ≡ []
  pub no_admin_programs : t.allowed_admin_programs ≡ []
  pub no_semantics : t.allowed_semantic_capabilities ≡ []
  pub containers : all (λ c. includes c read_containers) t.allowed_docker_containers ≡ true

none_in : (xs : List String) → is_empty xs ≡ true → xs ≡ []
none_in [] e = refl
none_in (x ∷ xs) e = absurd (cc)

read_only_lem : (c : CapabilityProfile) → is_read_only c ≡ true → c ≡ read_only
read_only_lem c e = ground (arith, e)

production_lem : (e : Environment) → is_production e ≡ true → e ≡ production
production_lem e h = ground (arith, h)

has_device_lem :
    (t : TargetConfig) (d : String)
    → has_device t ≡ some d
    → (t.transport ≡ agent) × (t.device_id ≡ some d)
has_device_lem t d e = ground (arith, e)

has_no_authority_lem :
    (t : TargetConfig)
    → has_no_authority t ≡ true
    → (is_empty t.allowed_docker_exec_containers ≡ true)
      × (is_empty t.allowed_docker_exec_programs ≡ true)
      × (is_empty t.allowed_docker_actions ≡ true)
      × (is_empty t.allowed_write_paths ≡ true)
      × (is_empty t.allowed_process_programs ≡ true)
      × (is_empty t.allowed_admin_programs ≡ true)
      × (is_empty t.allowed_semantic_capabilities ≡ true)
unfolding has_no_authority
has_no_authority_lem t e = ground (arith, e)

passed :
    (a b c : Bool) (u t : TargetConfig) (d device : String)
    → (let good : Result (TargetConfig × String) = ok (u, d) in
        require a capability_denied
        >> (require b capability_denied >> (require c capability_denied >> good)))
      ≡ ok (t, device)
    → (u ≡ t) × (d ≡ device) × (a ≡ true) × (b ≡ true) × (c ≡ true)
passed a b c u t d device e = ground (arith, e)

-- What a target that passes the checks passed.
check_baseline_lem :
    (env : Settings) (store : Process) (now : ℕ) (u t : TargetConfig) (device : String)
    → check_baseline env store now u ≡ ok (t, device)
    → (u ≡ t)
      × (has_device u ≡ some device)
      × ((is_read_only u.capability_profile && (u.enabled && is_production u.environment)) ≡ true)
      × (has_no_authority u ≡ true)
      × (all (λ c. includes c read_containers) u.allowed_docker_containers ≡ true)
      × (d : StoredDevice) × (require_live_device env device now store ≡ ok d)
unfolding check_baseline
check_baseline_lem env store now u t device e = elim (Option-cases (has_device u)) [
  | inl k ↦ absurd (ground (arith, k, e))
  | inr (d, k) ↦ elim (Result-cases (require_live_device env d now store)) [
    | inr (code, bad) ↦ absurd (ground (arith, k, bad, e))
    | inl (live, good) ↦
        let (same, at_device, plain, none_else, few) =
          passed (is_read_only u.capability_profile && (u.enabled && is_production u.environment))
            (has_no_authority u) (all (λ c. includes c read_containers) u.allowed_docker_containers)
            u t d device (ground (arith, k, good, e)) in
        (
          same,
          k ∙ ap some at_device,
          plain,
          none_else,
          few,
          live,
          subst (λ x. require_live_device env x now store ≡ ok live) at_device good,
        )
  ]
]

three : (a b c : Bool) → (a && (b && c)) ≡ true → (a ≡ true) × (b ≡ true) × (c ≡ true)
three a b c h = ground (arith, h)

check_baseline-IsReader :
    (env : Settings) (store : Process) (now : ℕ) (u t : TargetConfig) (device : String)
    → check_baseline env store now u ≡ ok (t, device)
    → IsReader env store now device u
check_baseline-IsReader env store now u t device e =
    let (same, by, plain, none_else, few, d, live) =
      check_baseline_lem env store now u t device e in
    let (transport, at_device) = has_device_lem u device by in
    let (reads, on, where_) =
      three (is_read_only u.capability_profile) u.enabled (is_production u.environment) plain in
    let (a, b, c, w, p, r, s) = has_no_authority_lem u none_else in
    record {
      by_agent = transport;
      on_device = at_device;
      live = (d, live);
      reads_only = read_only_lem u.capability_profile reads;
      is_enabled = on;
      in_production = production_lem u.environment where_;
      no_exec_containers = none_in u.allowed_docker_exec_containers a;
      no_exec_programs = none_in u.allowed_docker_exec_programs b;
      no_actions = none_in u.allowed_docker_actions c;
      no_writes = none_in u.allowed_write_paths w;
      no_programs = none_in u.allowed_process_programs p;
      no_admin_programs = none_in u.allowed_admin_programs r;
      no_semantics = none_in u.allowed_semantic_capabilities s;
      containers = few;
    }

baseline_lem :
    (env : Settings) (store : Process) (r : Registry) (now : ℕ) (t : TargetConfig) (device : String)
    → baseline env store r now ≡ ok (t, device)
    → (get_target read_target r ≡ ok (some t)) × IsReader env store now device t
unfolding baseline
baseline_lem env store r now t device e = elim (Result-cases (get_target read_target r)) [
  | inr (code, bad) ↦ absurd (ground (arith, bad, e))
  | inl (none, good) ↦ absurd (ground (arith, good, e))
  | inl (some u, good) ↦
      let checked : check_baseline env store now u ≡ ok (t, device) = ground (arith, good, e) in
      let same = (check_baseline_lem env store now u t device checked).0 in
      (
        good ∙ ap (λ x. ok (some x)) same,
        subst (IsReader env store now device) same
            (check_baseline-IsReader env store now u t device checked),
      )
]

read_confirmed :
    (env : Settings) (store : Process) (r : Registry) (p : Pending) (actor id confirmation : String)
    (now : ℕ) (t : TargetConfig) (device : String)
    → check_read env store r p actor id confirmation now ≡ ok (t, device)
    → (actor ≡ p.actor)
      × (trim confirmation ≡ concat "APPROVE " id)
      × (device ≡ p.device_id)
      × (baseline env store r now ≡ ok (t, device))
unfolding check_read require_approval_confirmation
read_confirmed env store r p actor id confirmation now t device e =
    elim (Result-cases (baseline env store r now)) [
      | inr (code, bad) ↦ absurd (ground (arith, bad, e))
      | inl (u, good) ↦ ground (
        arith,
        good,
        e,
        eq_iff actor p.actor,
        eq_iff (trim confirmation) (concat "APPROVE " id),
        eq_iff u.1 p.device_id,
      )
    ]

grant_read-registry :
    (x : Access) (t : TargetConfig) (id : String) (d : Dict Pending) (r : Registry)
    → (grant_read x t id d r).1
      ≡ (upsert_dynamic_agent_target x.le x.schema
          (record t { allowed_docker_containers = read_containers })
          r).0
unfolding grant_read
grant_read-registry x t id d r = ground arith

-- Applying the approval leaves the registry as it is, unless the approval is there and has not
-- expired, belongs to the actor and comes with its exact confirmation, and the read-only target in
-- the registry is an enabled agent target in production on the device of the approval, which is live,
-- whose lists for exec, Docker actions, written paths, processes, root commands and semantic
-- capabilities are all empty, and which reads no other container than the two; then the registry
-- becomes what writing that target makes of it, with the two containers and otherwise as it was.
pub only_containers_change :
    (x : Access) (env : Settings) (store : Process) (actor id confirmation : String) (now : ℕ)
    (pending : Dict Pending) (r : Registry)
    → let applied = apply_deepharness_docker_read x env store actor id confirmation now pending r in
      (applied.1 ≡ r)
      ⊎ ((p : Pending) × (t : TargetConfig) × (lookup id pending ≡ some p)
          × (now ≤ p.expires)
          × (actor ≡ p.actor)
          × (trim confirmation ≡ concat "APPROVE " id)
          × (get_target read_target r ≡ ok (some t))
          × IsReader env store now p.device_id t
          × (applied.1
              ≡ (upsert_dynamic_agent_target x.le x.schema
                  (record t { allowed_docker_containers = read_containers })
                  r).0))
unfolding apply_deepharness_docker_read
only_containers_change x env store actor id confirmation now pending r =
    elim (Option-cases (lookup id pending)) [
      | inl absent ↦ inl (ground (arith, absent))
      | inr (p, found) ↦ elim (Bool-cases (ltb p.expires now)) [
        | inl old ↦ inl (ground (arith, found, old))
        | inr live ↦ elim (Result-cases (check_read env store r p actor id confirmation now)) [
          | inr (code, bad) ↦ inl (ground (arith, found, live, bad))
          | inl ((t, device), good) ↦
              let (own, exact, same, base) =
                read_confirmed env store r p actor id confirmation now t device good in
              let (there, harmless) = baseline_lem env store r now t device base in
              inr (
                p,
                t,
                found,
                ground (arith, live),
                own,
                exact,
                there,
                subst (λ x. IsReader env store now x t) same harmless,
                ground (arith, found, live, good, grant_read-registry x t id pending r),
              )
        ]
      ]
    ]
