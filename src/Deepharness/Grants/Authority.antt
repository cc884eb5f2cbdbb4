-- ===== src/Deepharness/Grants/Authority.antt =====
-- The store as a map from identities to grants: what each operation does to it.
use remote_ops_mcp.Prelude.{
  ℕ, String, ◌≡◌, refl, sym, ap, ◌∙◌, Bool, true, false, not, ◌&&◌, Option, none, some, List, ◌==◌,
  leb, arith, length, if◌then◌else◌, eq_iff, eq_refl, Bool-cases, inl, inr, is_some,
}
use remote_ops_mcp.Dict.{Dict, lookup, insert, lookup-insert}
use remote_ops_mcp.Deepharness.Model.{
  Identity, Grant, State, Persisted, written, kept, replaced_and_failed, Process, Platform,
  max_grants, is_identity, identity_key, are_actions, Done, done, denied, write_failed, save,
  is_written,
}
use remote_ops_mcp.Deepharness.Grants.{
  usable, on_some, sort_actions, save_then, Issued, put_grant, revoke_grant, same_identity,
  current_grant, Instruction, Commit, with_authorized_lead_commit,
}
use remote_ops_mcp.Deepharness.Grants.Kept.{commit_keeps}

-- One operation that runs on the queue, with what the environment does in it.
pub data Call : Type 0 where
  put : Identity → Option (List String) → String → ℕ → Persisted → Call
  revoke : Identity → String → ℕ → Persisted → Call
  commit : Identity → Instruction → Commit → Call

unfoldable pub step : Platform → Call → Process → Process
unfolding put_grant revoke_grant with_authorized_lead_commit
step os (put i actions uuid now how) p = (put_grant os i actions uuid now how p).1
step os (revoke i uuid now how) p = (revoke_grant os i uuid now how p).1
step os (commit i x c) p = (with_authorized_lead_commit os i x c p).1

abbrev pub caller : Call → Identity
caller (put i actions uuid now how) = i
caller (revoke i uuid now how) = i
caller (commit i x c) = i

abbrev pub is_done : {A : Type 0} → Done A → Bool
is_done (done x) = true
is_done (denied code) = false
is_done write_failed = false

abbrev pub is_done_true : Done Bool → Bool
is_done_true (done b) = b
is_done_true (denied code) = false
is_done_true write_failed = false

abbrev pub issued : Identity → Option (List String) → String → ℕ → Option Grant
issued i none uuid now = none
issued i (some actions) uuid now = some (record {
  identity = i;
  actions = sort_actions actions;
  revision = uuid;
  updated_at = now;
  revoked_at = none;
})

-- The abstract operation on the grant of the identity `j`: a put that succeeds gives its caller the
-- new grant, a revocation that succeeds takes the grant of its caller, and a commit changes none.
abbrev pub grant_after : Platform → Call → Process → Identity → Option Grant → Option Grant
grant_after os (put i actions uuid now how) p j old =
    if is_done (put_grant os i actions uuid now how p).0 && same_identity i j
    then issued i actions uuid now
    else old
grant_after os (revoke i uuid now how) p j old =
    if is_done_true (revoke_grant os i uuid now how p).0 && same_identity i j then none else old
grant_after os (commit i x c) p j old = old

same_identity_refl : (i : Identity) → same_identity i i ≡ true
unfolding same_identity
same_identity_refl i = ground (
  arith,
  eq_refl i.actor,
  eq_refl i.client_id,
  eq_refl i.session_id,
  eq_refl i.workspace_id,
  eq_refl i.lead_session_id,
)

same_identity_lem : (i j : Identity) → same_identity i j ≡ true → i ≡ j
unfolding same_identity
same_identity_lem i j h =
    let a = (eq_iff i.actor j.actor).0 (ground (arith, h)) in
    let c = (eq_iff i.client_id j.client_id).0 (ground (arith, h)) in
    let s = (eq_iff i.session_id j.session_id).0 (ground (arith, h)) in
    let w = (eq_iff i.workspace_id j.workspace_id).0 (ground (arith, h)) in
    let l = (eq_iff i.lead_session_id j.lead_session_id).0 (ground (arith, h)) in
    λ t. record {
      actor = a t;
      client_id = c t;
      session_id = s t;
      workspace_id = w t;
      lead_session_id = l t;
    }

same_key :
    (os : Platform) (i j : Identity)
    → (identity_key os i ≡ identity_key os j → i ≡ j)
    → (identity_key os i == identity_key os j) ≡ same_identity i j
same_key os i j apart = elim (Bool-cases (same_identity i j)) [
  | inl e ↦
      (eq_iff (identity_key os i) (identity_key os j)).1
        (ap (identity_key os) (same_identity_lem i j e))
      ∙ sym e
  | inr e ↦ elim (Bool-cases (identity_key os i == identity_key os j)) [
    | inl k ↦
        let same = apart ((eq_iff (identity_key os i) (identity_key os j)).0 k) in
        absurd (cc (e, ap (same_identity i) same, same_identity_refl i))
    | inr k ↦ k ∙ sym e
  ]
]

usable_if :
    (j : Identity) (b : Bool) (x y : Option Grant)
    → usable j (if b then x else y) ≡ (if b then usable j x else usable j y)
usable_if j true x y = refl
usable_if j false x y = refl

-- Writing a grant under the key of its identity changes the grant of that identity alone.
current_after_insert :
    (os : Platform) (i j : Identity) (g : Grant) (grants : Dict Grant)
    → (identity_key os i ≡ identity_key os j → i ≡ j)
    → usable j (lookup (identity_key os j) (insert (identity_key os i) g grants)) ≡ (
        if same_identity i j
        then usable j (some g)
        else usable j (lookup (identity_key os j) grants))
current_after_insert os i j g grants apart =
    ap (usable j) (lookup-insert (identity_key os i) (identity_key os j) g grants)
    ∙ usable_if j (identity_key os i == identity_key os j) (some g)
        (lookup (identity_key os j) grants)
    ∙ ap (λ b. if b then usable j (some g) else usable j (lookup (identity_key os j) grants))
        (same_key os i j apart)

-- What a save of new grants leaves.
after_save :
    (next : State) (how : Persisted) (p : Process)
    → (save next how p).state ≡ (if is_written how then next else p.state)
unfolding save
after_save next written p = refl
after_save next kept p = refl
after_save next replaced_and_failed p = refl

-- The shape of a put, and of a revocation, with the tests as variables: `read` sees the new state only
-- where the operation succeeds.
put_shape :
    (faulted allowed full same : Bool) (how : Persisted) (p : Process) (next : State) (v : Issued)
    (code : String) (read : State → Option Grant) (new : Option Grant)
    → read next ≡ (if same then new else read p.state)
    → (let r : Done Issued × Process =
          if faulted
          then (denied "grant_store_unavailable", p)
          else if allowed
          then (if full then (denied "grant_store_full", p) else save_then next how v p)
          else (denied code, p) in
        read r.1.state ≡ (if is_done r.0 && same then new else read p.state))
unfolding save
put_shape true allowed full same how p next v code read new h = refl
put_shape false false full same how p next v code read new h = refl
put_shape false true true same how p next v code read new h = refl
put_shape false true false same written p next v code read new h = h
put_shape false true false same kept p next v code read new h = refl
put_shape false true false same replaced_and_failed p next v code read new h = refl

revoke_found :
    (revoked same : Bool) (how : Persisted) (p : Process) (next : State)
    (read : State → Option Grant)
    → read next ≡ (if same then none else read p.state)
    → (let r : Done Bool × Process =
          if revoked then (done false, p) else save_then next how true p in
        read r.1.state ≡ (if is_done_true r.0 && same then none else read p.state))
unfolding save
revoke_found true same how p next read h = refl
revoke_found false same written p next read h = h
revoke_found false same kept p next read h = refl
revoke_found false same replaced_and_failed p next read h = refl

denied_shape :
    (faulted same : Bool) (p : Process) (read : State → Option Grant)
    → (let r : Done Issued × Process =
          if faulted then (denied "grant_store_unavailable", p) else (denied "grant_denied", p) in
        read r.1.state ≡ (if is_done r.0 && same then none else read p.state))
denied_shape true same p read = refl
denied_shape false same p read = refl

twice_if :
    (b : Bool) (x y z : Option Grant)
    → (if b then (if b then x else z) else y) ≡ (if b then x else y)
twice_if true x y z = refl
twice_if false x y z = refl

revoke_shape :
    (faulted allowed same : Bool) (found : Option Grant) (how : Persisted) (p : Process)
    (next : Grant → State) (read : State → Option Grant)
    → ((g : Grant) → read (next g) ≡ (if same then none else read p.state))
    → (let r : Done Bool × Process =
          if faulted
          then (denied "grant_store_unavailable", p)
          else if allowed
          then on_some found
              (done false, p)
              (λ g. if is_some g.revoked_at then (done false, p) else save_then (next g) how true p)
          else (denied "grant_denied", p) in
        read r.1.state ≡ (if is_done_true r.0 && same then none else read p.state))
unfolding save
revoke_shape true allowed same found how p next read h = refl
revoke_shape false false same found how p next read h = refl
revoke_shape false true same none how p next read h = refl
revoke_shape false true same (some g) how p next read h =
    revoke_found (is_some g.revoked_at) same how p (next g) read (h g)

put_refines :
    (os : Platform) (i j : Identity) (actions : Option (List String)) (uuid : String) (now : ℕ)
    (how : Persisted) (p : Process)
    → (identity_key os i ≡ identity_key os j → i ≡ j)
    → current_grant os j (step os (put i actions uuid now how) p).state
      ≡ grant_after os (put i actions uuid now how) p j (current_grant os j p.state)
unfolding step put_grant current_grant usable
put_refines os i j none uuid now how p apart =
    denied_shape p.faulted (same_identity i j) p (current_grant os j)
put_refines os i j (some actions) uuid now how p apart =
    put_shape p.faulted (is_identity i && are_actions actions)
      (not (is_some (lookup (identity_key os i) p.state.grants))
        && leb max_grants (length p.state.grants))
      (same_identity i j) how p _ _ "grant_denied" (current_grant os j) _
      (current_after_insert os i j _ p.state.grants apart ∙ twice_if (same_identity i j) _ _ none)

revoke_refines :
    (os : Platform) (i j : Identity) (uuid : String) (now : ℕ) (how : Persisted) (p : Process)
    → (identity_key os i ≡ identity_key os j → i ≡ j)
    → current_grant os j (step os (revoke i uuid now how) p).state
      ≡ grant_after os (revoke i uuid now how) p j (current_grant os j p.state)
unfolding step revoke_grant current_grant usable
revoke_refines os i j uuid now how p apart =
    revoke_shape p.faulted (is_identity i) (same_identity i j)
      (lookup (identity_key os i) p.state.grants) how p _ (current_grant os j)
      λ g. current_after_insert os i j _ p.state.grants apart

commit_refines :
    (os : Platform) (j i : Identity) (x : Instruction) (c : Commit) (p : Process)
    → current_grant os j (step os (commit i x c) p).state ≡ current_grant os j p.state
unfolding step current_grant
commit_refines os j i x c p =
    ap (λ gs. usable j (lookup (identity_key os j) gs)) (commit_keeps os i x c p)

-- The store refines a map from identities to grants: whatever the state, the times, the identifiers and
-- the fate of the writes, after a call the current grant of an identity is the one that the map has
-- after that call; the hash of the caller and that of the identity are equal only if these are.
pub step_refines_map :
    (os : Platform) (call : Call) (p : Process) (j : Identity)
    → (identity_key os (caller call) ≡ identity_key os j → caller call ≡ j)
    → current_grant os j (step os call p).state
      ≡ grant_after os call p j (current_grant os j p.state)
step_refines_map os (put i actions uuid now how) p j apart =
    put_refines os i j actions uuid now how p apart
step_refines_map os (revoke i uuid now how) p j apart = revoke_refines os i j uuid now how p apart
step_refines_map os (commit i x c) p j apart = commit_refines os j i x c p
