-- ===== src/Approvals/ManagedAdmin/Once.antt =====
-- An approval is used once.
use remote_ops_mcp.Prelude.{
  ℕ, String, ◌≡◌, ◌≢◌, none, List, [], ◌∷◌, arith, eq_iff, Option-cases, inl, inr,
}
use remote_ops_mcp.Errors.{Result-cases, ok, err, invalid_argument}
use remote_ops_mcp.Dict.{Dict, lookup, lookup-insert, lookup-remove, lookup-prune}
use remote_ops_mcp.Dict.Index.{IsIndex}
use remote_ops_mcp.Approvals.Utils.{new_approval_id}
use remote_ops_mcp.Approvals.ManagedAdmin.{
  Pending, World, is_expired, purge, PrepareInput, checked_action, prepare_managed_admin_action,
  ConsumeInput, Signed, sign_checked, consume_managed_admin_approval, new_pending,
}
use remote_ops_mcp.Approvals.ManagedAdmin.Safety.{ticket_only_if_confirmed}

-- The calls of the module, each with what it reads and when.
pub data Call : Type 0 where
  prepares : World → PrepareInput → String → ℕ → Call
  consumes : World → ConsumeInput → String → ℕ → Call

pub step : Call → Dict Pending → Dict Pending
step (prepares w input hex now) d = (prepare_managed_admin_action w input hex now d).0
step (consumes w input nonce now) d = (consume_managed_admin_approval w input nonce now d).0

pub run : List Call → Dict Pending → Dict Pending
run [] d = d
run (c ∷ cs) d = run cs (step c d)

-- No preparation draws this id.
abbrev pub IsFresh : String → List Call → Type 0
IsFresh id [] = Unit
IsFresh id (prepares w input hex now ∷ cs) = (new_approval_id hex ≢ id) × IsFresh id cs
IsFresh id (consumes w input nonce now ∷ cs) = IsFresh id cs

purge_gone :
    (id : String) (now : ℕ) (d : Dict Pending) → lookup id d ≡ none → lookup id (purge now d) ≡ none
unfolding purge
purge_gone id now d h = ground (arith, lookup-prune (is_expired now) id d)

prepare_gone :
    (w : World) (input : PrepareInput) (hex : String) (now : ℕ) (id : String) (d : Dict Pending)
    → new_approval_id hex ≢ id
    → lookup id d ≡ none
    → lookup id (prepare_managed_admin_action w input hex now d).0 ≡ none
unfolding prepare_managed_admin_action
prepare_gone w input hex now id d fresh h = elim (Result-cases (checked_action w input now)) [
  | inr (c, bad) ↦ ground (arith, bad, purge_gone id now d h)
  | inl (a, good) ↦ ground (
    arith,
    good,
    purge_gone id now d h,
    lookup-insert (new_approval_id hex) id (new_pending (new_approval_id hex) input.actor now a)
        (purge now d),
    eq_iff (new_approval_id hex) id,
  )
]

consume_gone :
    (w : World) (input : ConsumeInput) (nonce : String) (now : ℕ) (id : String) (d : Dict Pending)
    → lookup id d ≡ none
    → lookup id (consume_managed_admin_approval w input nonce now d).0 ≡ none
unfolding consume_managed_admin_approval sign_checked
consume_gone w input nonce now id d h =
    elim (Option-cases (lookup input.approval_id (purge now d))) [
      | inl e ↦ ground (arith, e, purge_gone id now d h)
      | inr (a, e) ↦ ground (arith, e, purge_gone id now d h, lookup-remove a.id id (purge now d))
    ]

run_gone :
    (id : String) (cs : List Call) (d : Dict Pending)
    → IsFresh id cs
    → lookup id d ≡ none
    → lookup id (run cs d) ≡ none
unfolding run step
run_gone id [] d f h = h
run_gone id (prepares w input hex now ∷ cs) d f h =
    run_gone id cs _ f.1 (prepare_gone w input hex now id d f.0 h)
run_gone id (consumes w input nonce now ∷ cs) d f h =
    run_gone id cs _ f (consume_gone w input nonce now id d h)

refused_when_gone :
    (w : World) (input : ConsumeInput) (nonce : String) (now : ℕ) (d : Dict Pending)
    → lookup input.approval_id (purge now d) ≡ none
    → (consume_managed_admin_approval w input nonce now d).1 ≡ err invalid_argument
unfolding consume_managed_admin_approval
refused_when_gone w input nonce now d h = ground (arith, h)

-- An approval gives one ticket: after it has, and after any calls of which none draws the same id
-- anew, using it again is refused, whoever asks and whatever the state of the control plane.
pub approval_is_single_use :
    (w w' : World) (input again : ConsumeInput) (nonce nonce' : String) (now later : ℕ)
    (approvals : Dict Pending) (cs : List Call) (r : Signed)
    → IsIndex (λ (a : Pending). a.id) approvals
    → (consume_managed_admin_approval w input nonce now approvals).1 ≡ ok r
    → IsFresh input.approval_id cs
    → again.approval_id ≡ input.approval_id
    → (consume_managed_admin_approval w' again nonce' later
        (run cs (consume_managed_admin_approval w input nonce now approvals).0)).1
      ≡ err invalid_argument
approval_is_single_use w w' input again nonce nonce' now later approvals cs r v e fresh same =
    let gone = (ticket_only_if_confirmed w input nonce now approvals r v e).1 in
    let d = run cs (consume_managed_admin_approval w input nonce now approvals).0 in
    let still = purge_gone input.approval_id later d (run_gone input.approval_id cs _ fresh gone) in
    refused_when_gone w' again nonce' later d (rw same still)
