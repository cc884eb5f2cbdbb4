-- ===== src/Tests/Instructions.antt =====
-- The store of DeepHarness grants at concrete data.
use remote_ops_mcp.Prelude.{
  includes, arith, String, ◌≡◌, refl, true, false, none, some, List, [], ◌∷◌,
}
use remote_ops_mcp.Dict.{lookup}
use remote_ops_mcp.Docker.Paperclip.{is_guid}
use remote_ops_mcp.Deepharness.Grants.Submissions.{IsOpen, IsOnRecord}
use remote_ops_mcp.Deepharness.Model.{
  delivery_key, Identity, Grant, State, written, Process, Platform, is_hash, is_normal, valid_id,
  is_identity, identity_key, done, holds, load_file,
}
use remote_ops_mcp.Deepharness.Grants.{
  current_grant, Instruction, Receipt, Commit, acknowledged, not_accepted,
  with_authorized_lead_commit,
}
use remote_ops_mcp.Deepharness.Grants.Authority.{Call, put, step, grant_after, step_refines_map}
use remote_ops_mcp.Deepharness.Grants.Deliveries.{submit_is_authorized, commit_again_is_duplicate}
use remote_ops_mcp.Deepharness.Grants.Normal.{is_plain, file_loads_again}
use remote_ops_mcp.Deepharness.Grants.Saves.{IsNormal}

abbrev digest : String
digest = "0123456789abcdef0123456789abcdef0123456789abcdef0123456789abcdef"

abbrev platform : Platform
platform = record { sha256_json = λ xs. digest; file_size = λ st. 1000 }

abbrev lead : Identity
lead = record {
  actor = "oauth:c1:s1";
  client_id = "c1";
  session_id = "s1";
  workspace_id = "w1";
  lead_session_id = "l1";
}

abbrev lead_grant : Grant
lead_grant = record {
  identity = lead;
  actions = "lead.instruct" ∷ [];
  revision = "r1";
  updated_at = 5;
  revoked_at = none;
}

abbrev store : State
store = record { grants = (digest, lead_grant) ∷ []; deliveries = [] }

abbrev process : Process
process = record { state = store; file = store; faulted = false }

abbrev put_again : Call
put_again = put lead (some ("team.read" ∷ "chat.read" ∷ [])) "r2" 9 written

refines_example :
    current_grant platform lead (step platform put_again process).state
    ≡ grant_after platform put_again process lead (current_grant platform lead store)
refines_example = step_refines_map platform put_again process lead λ same. refl

abbrev instruction : Instruction
instruction = record {
  action = "lead.instruct";
  revision = "r1";
  idempotency_key = "01234567-89ab-4cde-8f01-23456789abcd";
  payload_hash = digest;
}

abbrev attempt : Commit
attempt = record {
  uuid_receipt = "receipt_1";
  created = 10;
  first_write = written;
  submitted = acknowledged;
  accepted_at = 11;
  second_write = written;
}

submitted_once : (with_authorized_lead_commit platform lead instruction attempt process).0.0 ≡ true
unfolding with_authorized_lead_commit
submitted_once = refl

submit_example :
    let key = delivery_key platform lead instruction.idempotency_key in
    (process.faulted ≡ false)
    × (is_identity lead ≡ true)
    × ((instruction.action ≡ "lead.instruct")
        × (valid_id instruction.revision ≡ true)
        × (is_guid instruction.idempotency_key ≡ true)
        × (is_hash instruction.payload_hash ≡ true))
    × ((g : Grant) × (lookup (identity_key platform lead) store.grants ≡ some g)
        × (g.revoked_at ≡ none)
        × (includes "lead.instruct" g.actions ≡ true)
        × (g.revision ≡ instruction.revision))
    × IsOpen key instruction.payload_hash instruction.revision process
    × IsOnRecord key instruction.payload_hash instruction.revision
        (with_authorized_lead_commit platform lead instruction attempt process).1
submit_example = submit_is_authorized platform lead instruction attempt process submitted_once

abbrev receipt : Receipt
receipt = record { grant_revision = "r1"; receipt_id = "receipt_1"; duplicate = false }

committed :
    (with_authorized_lead_commit platform lead instruction attempt process).0.1 ≡ done receipt
unfolding with_authorized_lead_commit
committed = refl

abbrev retry : Commit
retry = record attempt { submitted = not_accepted }

duplicate_example :
    with_authorized_lead_commit platform lead instruction retry
      (with_authorized_lead_commit platform lead instruction attempt process).1
    ≡ (
      (false, done (record receipt { duplicate = true })),
      (with_authorized_lead_commit platform lead instruction attempt process).1,
    )
duplicate_example =
    commit_again_is_duplicate platform lead instruction attempt retry process receipt committed

digest_is_hash : (xs : List String) → is_hash (platform.sha256_json xs) ≡ true
unfolding is_hash
digest_is_hash xs = refl

process-IsNormal : IsNormal process
unfolding is_normal
process-IsNormal = (refl, refl)

plain_call : is_plain put_again ≡ true
unfolding valid_id
plain_call = refl

loads_again_example :
    IsNormal (step platform put_again process)
    × (load_file platform (holds (step platform put_again process).file) written
        ≡ some (record {
          state = (step platform put_again process).file;
          file = (step platform put_again process).file;
          faulted = false;
        }))
loads_again_example =
    file_loads_again platform digest_is_hash put_again process written plain_call process-IsNormal
      (ground arith)
