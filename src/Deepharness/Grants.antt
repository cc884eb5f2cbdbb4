-- ===== src/Deepharness/Grants.antt =====
-- The operations of integrations/deepharness/persistent-grant-store.mjs. Those that write run one after
-- the other on a queue, so each is one function of the process; audit events are left out.
pub mod Authority
pub mod Deliveries
pub mod Shapes
pub mod Kept
pub mod Entries
pub mod Records
pub mod Saves
pub mod Settled
pub mod Submissions
pub mod Normal
use remote_ops_mcp.Prelude.{
  ℕ, ◌*◌, String, Bool, true, false, not, ◌&&◌, ◌||◌, Option, none, some, List, [], ◌∷◌, ◌==◌, ltb,
  leb, eqb, if◌then◌else◌, all, any, includes, filter, length, is_some,
}
use remote_ops_mcp.Dict.{Dict, lookup, insert, values}
use remote_ops_mcp.Docker.Paperclip.{is_guid}
use remote_ops_mcp.Deepharness.Model.{
  Identity, Grant, Status, pending, accepted, Delivery, State, Persisted, Process, Platform,
  max_grants, max_deliveries, actions_known, valid_id, is_hash, actor_of, is_identity, identity_key,
  delivery_key, are_actions, Done, done, denied, write_failed, save, is_written,
}

-- The two ways on from an optional value.
abbrev pub on_some : {A B : Type 0} → Option A → B → (A → B) → B
on_some none otherwise next = otherwise
on_some (some value) otherwise next = next value

-- [...actions].sort(), for actions that are known and different
unfoldable pub sort_actions : List String → List String
unfolding filter includes
sort_actions actions = filter (λ a. includes a actions) actions_known

-- Fails if a write has failed before; then nothing is done.
abbrev pub serialize : {A : Type 0} → (Process → Done A × Process) → Process → Done A × Process
serialize operation p = if p.faulted then (denied "grant_store_unavailable", p) else operation p

-- Saves, and returns the value if the file was written.
abbrev pub save_then : {A : Type 0} → State → Persisted → A → Process → Done A × Process
save_then next how value p = (if is_written how then done value else write_failed, save next how p)

pub record Issued : Type 0 where
  pub revision : String
  pub actions : List String

-- `actions` is `none` if it is no array of texts; `uuid` is crypto.randomUUID().
unfoldable pub put_grant :
    Platform
    → Identity
    → Option (List String)
    → String
    → ℕ
    → Persisted
    → Process
    → Done Issued × Process
unfolding is_identity are_actions identity_key lookup insert sort_actions save
put_grant os i none uuid now how = serialize λ p. (denied "grant_denied", p)
put_grant os i (some actions) uuid now how = serialize λ p.
    if is_identity i && are_actions actions
    then (if not (is_some (lookup (identity_key os i) p.state.grants))
          && leb max_grants (length p.state.grants)
        then (denied "grant_store_full", p)
        else save_then
            (record p.state {
              grants =
                  insert (identity_key os i)
                    (record {
                      identity = i;
                      actions = sort_actions actions;
                      revision = uuid;
                      updated_at = now;
                      revoked_at = none;
                    })
                    p.state.grants;
            })
            how (record { revision = uuid; actions = sort_actions actions }) p)
    else (denied "grant_denied", p)

unfoldable pub revoke_grant :
    Platform → Identity → String → ℕ → Persisted → Process → Done Bool × Process
unfolding is_identity identity_key lookup insert save
revoke_grant os i uuid now how = serialize λ p.
    if is_identity i
    then on_some (lookup (identity_key os i) p.state.grants) (done false, p)
        (λ g.
          if is_some g.revoked_at
          then (done false, p)
          else save_then
              (record p.state {
                grants =
                    insert (identity_key os i)
                      (record g { revision = uuid; updated_at = now; revoked_at = some now })
                      p.state.grants;
              })
              how true p)
    else (denied "grant_denied", p)

unfoldable pub same_identity : Identity → Identity → Bool
same_identity a b =
    (a.actor == b.actor && (a.client_id == b.client_id && a.session_id == b.session_id))
    && (a.workspace_id == b.workspace_id && a.lead_session_id == b.lead_session_id)

-- The grant that was found, if it is not revoked and its identity is the one that was asked for.
unfoldable pub usable : Identity → Option Grant → Option Grant
unfolding same_identity
usable i none = none
usable i (some g) =
    if not (is_some g.revoked_at) && same_identity g.identity i then some g else none

unfoldable pub current_grant : Platform → Identity → State → Option Grant
unfolding identity_key lookup usable
current_grant os i st = usable i (lookup (identity_key os i) st.grants)

unfoldable pub lookup_current_grant : Platform → Identity → Process → Done (Option Grant)
unfolding is_identity current_grant
lookup_current_grant os i p =
    if p.faulted
    then denied "grant_store_unavailable"
    else if is_identity i
    then done (current_grant os i p.state)
    else denied "grant_denied"

unfoldable pub is_listed : String → String → String → String → Grant → Bool
unfolding includes
is_listed actor client session workspace g =
    (not (is_some g.revoked_at) && (g.identity.actor == actor && g.identity.client_id == client))
    && (g.identity.session_id == session
        && (g.identity.workspace_id == workspace && includes "team.read" g.actions))

-- The grants for the action team.read; a store that has failed answers as well.
unfoldable pub list_current_lead_grants :
    String → String → String → String → String → Process → Done (List Grant)
unfolding valid_id actor_of filter is_listed
list_current_lead_grants actor client session workspace action p =
    if ((valid_id actor && valid_id client) && (valid_id session && valid_id workspace))
      && (actor == actor_of client session && action == "team.read")
    then done (filter (is_listed actor client session workspace) (values p.state.grants))
    else denied "grant_denied"

pub record Instruction : Type 0 where
  pub action : String
  pub revision : String
  pub idempotency_key : String
  pub payload_hash : String

pub record Receipt : Type 0 where
  pub grant_revision : String
  pub receipt_id : String
  pub duplicate : Bool

-- What `submit` ends with: it is acknowledged with `accepted: true`, acknowledged otherwise, or throws.
pub data Submitted : Type 0 where
  acknowledged not_accepted threw : Submitted

-- What the environment does in a commit: the identifier, the times and the writes.
pub record Commit : Type 0 where
  pub uuid_receipt : String
  pub created : ℕ
  pub first_write : Persisted
  pub submitted : Submitted
  pub accepted_at : ℕ
  pub second_write : Persisted

unfoldable pub is_instruction : Instruction → Bool
unfolding valid_id is_guid is_hash
is_instruction x =
    (x.action == "lead.instruct" && valid_id x.revision)
    && (is_guid x.idempotency_key && is_hash x.payload_hash)

-- May an instruction be committed under the grant?
unfoldable pub is_authorized : String → Grant → Bool
unfolding includes
is_authorized revision g =
    not (is_some g.revoked_at) && (includes "lead.instruct" g.actions && g.revision == revision)

abbrev pub is_accepted : Status → Bool
is_accepted pending = false
is_accepted accepted = true

abbrev pub on_submitted : {B : Type 0} → Submitted → B → B → B → B
on_submitted threw a b c = a
on_submitted not_accepted a b c = b
on_submitted acknowledged a b c = c

-- The end of a commit, once the delivery is in the state: `submit` is called, and the delivery is
-- accepted if it was acknowledged and the grant is still current.
unfoldable pub submit_delivery :
    Platform → Identity → String → Grant → Delivery → Commit → Process → Done Receipt × Process
unfolding identity_key lookup insert is_authorized save
submit_delivery os i key g d c p =
    on_submitted c.submitted (denied "submit_failed", p) (denied "dsh_prompt_not_accepted", p)
      (on_some (lookup (identity_key os i) p.state.grants) (denied "grant_denied", p)
        λ current.
          if is_authorized g.revision current
          then save_then
              (record p.state {
                deliveries =
                    insert key (record d { status = accepted; accepted_at = some c.accepted_at })
                      p.state.deliveries;
              })
              c.second_write
              (record { grant_revision = g.revision; receipt_id = d.receipt_id; duplicate = false })
              p
          else (denied "grant_denied", p))

abbrev pub new_delivery : Identity → Instruction → Grant → Commit → Delivery
new_delivery i x g c = record {
  identity = i;
  payload_hash = x.payload_hash;
  grant_revision = g.revision;
  status = pending;
  receipt_id = c.uuid_receipt;
  created_at = c.created;
  accepted_at = none;
}

-- A delivery that is new is saved as pending before it is submitted.
unfoldable pub start_delivery :
    Platform
    → Identity
    → Instruction
    → String
    → Grant
    → Commit
    → Process
    → (Bool × Done Receipt) × Process
unfolding insert save submit_delivery
start_delivery os i x key g c p =
    if leb max_deliveries (length p.state.deliveries)
    then ((false, denied "delivery_store_full"), p)
    else let d = new_delivery i x g c in
      let saved =
        save (record p.state { deliveries = insert key d p.state.deliveries }) c.first_write p in
      if is_written c.first_write
      then (let (r, q) = submit_delivery os i key g d c saved in ((true, r), q))
      else ((false, write_failed), saved)

-- A delivery that is there is a conflict, a duplicate, or tried again.
unfoldable pub continue_delivery :
    Platform
    → Identity
    → Instruction
    → String
    → Grant
    → Commit
    → Delivery
    → Process
    → (Bool × Done Receipt) × Process
unfolding submit_delivery
continue_delivery os i x key g c d p =
    if not (d.payload_hash == x.payload_hash) || not (d.grant_revision == g.revision)
    then ((false, denied "idempotency_conflict"), p)
    else if is_accepted d.status
    then (
      (
        false,
        done (record { grant_revision = g.revision; receipt_id = d.receipt_id; duplicate = true }),
      ),
      p,
    )
    else let (r, q) = submit_delivery os i key g d c p in ((true, r), q)

-- A commit, given the grant that was found.
unfoldable pub commit_under :
    Platform
    → Identity
    → Instruction
    → String
    → Commit
    → Process
    → Grant
    → (Bool × Done Receipt) × Process
unfolding lookup is_authorized start_delivery continue_delivery
commit_under os i x key c p g =
    if is_authorized x.revision g
    then (on_some (lookup key p.state.deliveries) (start_delivery os i x key g c p)
        λ d. continue_delivery os i x key g c d p)
    else ((false, denied "grant_denied"), p)

-- withAuthorizedLeadCommit; the Boolean says whether `submit` was called.
unfoldable pub with_authorized_lead_commit :
    Platform → Identity → Instruction → Commit → Process → (Bool × Done Receipt) × Process
unfolding is_identity is_instruction identity_key delivery_key lookup commit_under
with_authorized_lead_commit os i x c p =
    if p.faulted
    then ((false, denied "grant_store_unavailable"), p)
    else if is_identity i && is_instruction x
    then on_some (lookup (identity_key os i) p.state.grants) ((false, denied "grant_denied"), p)
        (commit_under os i x (delivery_key os i x.idempotency_key) c p)
    else ((false, denied "grant_denied"), p)
