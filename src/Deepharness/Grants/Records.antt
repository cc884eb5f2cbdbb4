-- ===== src/Deepharness/Grants/Records.antt =====
-- The grants and deliveries that the calls write pass the tests of `normalize`.
use remote_ops_mcp.Prelude.{ℕ, String, ◌≡◌, Bool, true, ◌&&◌, some, ◌==◌, leb, arith}
use remote_ops_mcp.Deepharness.Model.{
  Identity, Grant, accepted, Delivery, max_safe_integer, valid_id, is_hash, is_identity, actor_of,
  are_actions, is_normal_grant, is_normal_delivery, is_safe_time,
}
use remote_ops_mcp.Docker.Paperclip.{is_guid}
use remote_ops_mcp.Deepharness.Grants.{new_delivery, is_instruction, Instruction, Commit}
use remote_ops_mcp.Deepharness.Grants.Entries.{six_parts, six_true, two_parts, last_true}

pub revised_is_normal :
    (key uuid : String) (now : ℕ) (g : Grant)
    → is_normal_grant key g ≡ true
    → (valid_id uuid && leb now max_safe_integer) ≡ true
    → is_normal_grant key (record g { revision = uuid; updated_at = now; revoked_at = some now })
      ≡ true
unfolding is_normal_grant
revised_is_normal key uuid now g h plain =
    let parts =
      six_parts (is_hash key) (is_identity g.identity) (are_actions g.actions) (valid_id g.revision)
        (leb g.updated_at max_safe_integer) (is_safe_time g.revoked_at) h in
    let (good_id, good_time) = two_parts (valid_id uuid) (leb now max_safe_integer) plain in
    six_true _ _ _ _ _ _ parts.0 parts.1 parts.2 good_id good_time good_time

delivery_tests :
    (a b c d e f p q r s key revision receipt created : Bool)
    → ((a && (b && c)) && ((d && e) && f)) ≡ true
    → ((p && q) && (r && s)) ≡ true
    → key ≡ true
    → revision ≡ true
    → receipt ≡ true
    → created ≡ true
    → ((key && (s && (revision && receipt)))
        && (((a && (b && c)) && (d && e)) && (created && true)))
      ≡ true
delivery_tests a b c d e f p q r s key revision receipt created h k l m n o =
    ground (arith, h, k, l, m, n, o)

pub new_is_normal :
    (key : String) (i : Identity) (x : Instruction) (g : Grant) (c : Commit)
    → is_hash key ≡ true
    → is_identity i ≡ true
    → is_instruction x ≡ true
    → valid_id g.revision ≡ true
    → valid_id c.uuid_receipt ≡ true
    → leb c.created max_safe_integer ≡ true
    → is_normal_delivery key (new_delivery i x g c) ≡ true
unfolding is_normal_delivery is_identity is_instruction
new_is_normal key i x g c h k l m n o =
    delivery_tests (valid_id i.actor) (valid_id i.client_id) (valid_id i.session_id)
      (valid_id i.workspace_id) (valid_id i.lead_session_id)
      (i.actor == actor_of i.client_id i.session_id) (x.action == "lead.instruct")
      (valid_id x.revision) (is_guid x.idempotency_key) (is_hash x.payload_hash) _ _ _ _ k l h m n o

pub accepted_is_normal :
    (key : String) (d : Delivery) (now : ℕ)
    → is_normal_delivery key d ≡ true
    → leb now max_safe_integer ≡ true
    → is_normal_delivery key (record d { status = accepted; accepted_at = some now }) ≡ true
unfolding is_normal_delivery
accepted_is_normal key d now h plain =
    last_true
      (is_hash key
        && (is_hash d.payload_hash && (valid_id d.grant_revision && valid_id d.receipt_id)))
      ((valid_id d.identity.actor
          && (valid_id d.identity.client_id && valid_id d.identity.session_id))
        && (valid_id d.identity.workspace_id && valid_id d.identity.lead_session_id))
      (leb d.created_at max_safe_integer) (is_safe_time d.accepted_at) _ h plain

pub revision_is_valid :
    (key : String) (g : Grant) → is_normal_grant key g ≡ true → valid_id g.revision ≡ true
unfolding is_normal_grant
revision_is_valid key g h =
    (six_parts (is_hash key) (is_identity g.identity) (are_actions g.actions) (valid_id g.revision)
      (leb g.updated_at max_safe_integer) (is_safe_time g.revoked_at) h).3
