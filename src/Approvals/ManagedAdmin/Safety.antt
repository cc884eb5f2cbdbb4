-- ===== src/Approvals/ManagedAdmin/Safety.antt =====
-- Who can turn an approval into a ticket, how often, and that the root broker takes the ticket.
use remote_ops_mcp.Prelude.{
  ℕ, ◌+◌, ◌≤◌, String, ◌≡◌, true, false, none, some, List, arith, eq_iff, ◌∙◌, Option-cases, inl,
  inr, includes, all, length, trim, concat,
}
use remote_ops_mcp.Errors.{Result-cases, ok}
use remote_ops_mcp.Dict.{Dict, lookup, prune, lookup-remove, lookup-prune}
use remote_ops_mcp.Dict.Index.{IsIndex, IsIndex-key}
use remote_ops_mcp.Privileged.Policy.{managed_admin_hard_deny, cwd_lexically_allowed}
use remote_ops_mcp.Privileged.Ticket.{
  Ticket, whole, is_program_name, is_plain_argument, is_timeout, is_nonce, is_lifetime,
  is_target_id, is_device_id, is_well_formed, sign_managed_admin_ticket,
}
use remote_ops_mcp.Config.Target.{TargetConfig}
use remote_ops_mcp.Approvals.Utils.{require_approval_confirmation}
use remote_ops_mcp.Approvals.ManagedAdmin.{
  Pending, World, ticket_ttl_ms, is_expired, purge, require_managed_admin_auth_secret,
  require_managed_admin_target, normalize_program, normalize_argv, items, normalize_cwd,
  normalize_timeout, require_device_capability, ConsumeInput, Signed, checked_ticket,
  check_consumer, sign_checked, consume_managed_admin_approval,
}

-- What a ticket's action was checked for, at the time of its use.
pub record IsPermitted (t : TargetConfig) (byte_length : String → ℕ) (x : Ticket) : Type 0 where
  pub program_name : is_program_name x.program ≡ true
  pub not_hard_denied : includes x.program managed_admin_hard_deny ≡ false
  pub program_allowed : includes x.program t.allowed_admin_programs ≡ true
  pub few_arguments : length x.argv ≤ 80
  pub plain_arguments : all (is_plain_argument byte_length) x.argv ≡ true
  pub cwd_allowed : cwd_lexically_allowed x.cwd t.allowed_admin_cwds ≡ true
  pub timeout : is_timeout x.timeout_ms ≡ true

program_inv :
    (t : TargetConfig) (program result : String)
    → normalize_program t program ≡ ok result
    → (result ≡ program)
      × (is_program_name program ≡ true)
      × (includes program managed_admin_hard_deny ≡ false)
      × (includes program t.allowed_admin_programs ≡ true)
unfolding normalize_program
program_inv t program result e = ground arith

argv_inv :
    (f : String → ℕ) (argv result : List String)
    → normalize_argv f (items argv) ≡ ok result
    → (result ≡ argv) × (length argv ≤ 80) × (all (is_plain_argument f) argv ≡ true)
unfolding normalize_argv
argv_inv f argv result e = ground arith

cwd_inv :
    (t : TargetConfig) (cwd result : String)
    → normalize_cwd t (some cwd) ≡ ok result
    → (result ≡ cwd) × (cwd_lexically_allowed cwd t.allowed_admin_cwds ≡ true)
unfolding normalize_cwd
cwd_inv t cwd result e = ground arith

timeout_inv :
    (n result : ℕ)
    → normalize_timeout (some (whole n)) ≡ ok result
    → (result ≡ n) × (is_timeout n ≡ true)
unfolding normalize_timeout
timeout_inv n result e = ground arith

pub ticket_inv :
    (w : World) (a : Pending) (nonce : String) (now : ℕ) (t : TargetConfig) (x : Ticket)
    (secret : String)
    → checked_ticket w a nonce now ≡ ok (t, x, secret)
    → IsPermitted t w.crypto.byte_length x
      × (x ≡ record {
        v = 1;
        target_id = a.action.target_id;
        device_id = a.action.device_id;
        program = a.action.program;
        argv = a.action.argv;
        cwd = a.action.cwd;
        timeout_ms = a.action.timeout_ms;
        nonce = nonce;
        issued_at = now;
        expires_at = now + ticket_ttl_ms;
      })
      × (require_managed_admin_auth_secret w.env ≡ ok secret)
      × (require_managed_admin_target w a.action.target_id ≡ ok (t, a.action.device_id))
      × (require_device_capability w a.action.device_id now ≡ ok tt)
unfolding checked_ticket
ticket_inv w a nonce now t x secret e0 =
    elim (Result-cases (require_managed_admin_target w a.action.target_id)) [
      | inr (c, bad) ↦ absurd (ground (arith, e0, bad))
      | inl (target, good) ↦ ground (
        arith,
        e0,
        good,
        eq_iff target.1 a.action.device_id,
        program_inv t a.action.program x.program,
        argv_inv w.crypto.byte_length a.action.argv x.argv,
        cwd_inv t a.action.cwd x.cwd,
        timeout_inv a.action.timeout_ms x.timeout_ms,
      )
    ]

consumer_inv :
    (a : Pending) (input : ConsumeInput)
    → check_consumer a input ≡ ok tt
    → (a.actor ≡ input.actor)
      × (a.action.target_id ≡ input.target_id)
      × (trim input.confirmation ≡ concat "APPROVE " a.id)
unfolding check_consumer require_approval_confirmation
consumer_inv a input e = ground (
  arith,
  eq_iff a.actor input.actor,
  eq_iff a.action.target_id input.target_id,
  eq_iff (trim input.confirmation) (concat "APPROVE " a.id),
)

-- A ticket that is permitted is well formed, if the ids and the nonce are.
pub ticket_well_formed :
    (t : TargetConfig) (f : String → ℕ) (x : Ticket)
    → IsPermitted t f x
    → x.v ≡ 1
    → is_target_id 63 x.target_id ≡ true
    → is_device_id x.device_id ≡ true
    → is_nonce x.nonce ≡ true
    → x.expires_at ≡ x.issued_at + ticket_ttl_ms
    → is_well_formed f x ≡ true
unfolding is_well_formed cwd_lexically_allowed is_lifetime
ticket_well_formed t f x p v good_target good_device good_nonce ttl = ground (arith, p.cwd_allowed)

-- The ticket that an approval stands for.
abbrev pub ticket_of : Pending → String → ℕ → Ticket
ticket_of a nonce now = record {
  v = 1;
  target_id = a.action.target_id;
  device_id = a.action.device_id;
  program = a.action.program;
  argv = a.action.argv;
  cwd = a.action.cwd;
  timeout_ms = a.action.timeout_ms;
  nonce = nonce;
  issued_at = now;
  expires_at = now + ticket_ttl_ms;
}

-- What a ticket that was handed out stands on.
pub record IsGranted (w : World) (input : ConsumeInput) (nonce : String) (now : ℕ) (a : Pending)
    (r : Signed) : Type 0 where
  pub in_time : now ≤ a.expires_at
  pub same_actor : a.actor ≡ input.actor
  pub same_target : a.action.target_id ≡ input.target_id
  pub confirmed : trim input.confirmation ≡ concat "APPROVE " a.id
  pub ticket : r.ticket ≡ ticket_of a nonce now
  pub permitted : IsPermitted r.target w.crypto.byte_length r.ticket
  pub target : require_managed_admin_target w input.target_id ≡ ok (r.target, a.action.device_id)
  pub device_live : require_device_capability w a.action.device_id now ≡ ok tt
  pub secret :
      (s : String) × (require_managed_admin_auth_secret w.env ≡ ok s)
      × (sign_managed_admin_ticket w.crypto r.ticket s ≡ some r.signature)

sign_inv :
    (w : World) (a : Pending) (t : TargetConfig) (x : Ticket) (secret : String) (d : Dict Pending)
    (r : Signed)
    → (sign_checked w a (t, x, secret) d).1 ≡ ok r
    → (r.target ≡ t)
      × (r.ticket ≡ x)
      × (sign_managed_admin_ticket w.crypto x secret ≡ some r.signature)
unfolding sign_checked
sign_inv w a t x secret d r e = ground arith

granted :
    (w : World) (input : ConsumeInput) (nonce : String) (now : ℕ) (approvals : Dict Pending)
    (r : Signed) (a : Pending) (t : TargetConfig) (x : Ticket) (secret : String)
    → check_consumer a input ≡ ok tt
    → checked_ticket w a nonce now ≡ ok (t, x, secret)
    → (sign_checked w a (t, x, secret) (purge now approvals)).1 ≡ ok r
    → lookup input.approval_id (purge now approvals) ≡ some a
    → (lookup input.approval_id approvals ≡ some a) × IsGranted w input nonce now a r
unfolding purge
granted w input nonce now approvals r a t x secret good checked signing there =
    let (permitted, ticket, secret_ok, target_ok, live) =
      ticket_inv w a nonce now t x secret checked in
    let (actor, target, confirmed) = consumer_inv a input good in
    let (same_t, same_x, signed) = sign_inv w a t x secret _ r signing in
    let before = lookup-prune (is_expired now) input.approval_id approvals in
    (
      ground (arith, there, before),
      record {
        in_time = ground (arith, there, before);
        same_actor = actor;
        same_target = target;
        confirmed = confirmed;
        ticket = same_x ∙ ticket;
        permitted = rw (same_t, same_x) permitted;
        target = rw (same_t, ← target) target_ok;
        device_live = live;
        secret = (secret, secret_ok, rw same_x signed);
      },
    )

gone_after :
    (w : World) (input : ConsumeInput) (nonce : String) (now : ℕ) (approvals : Dict Pending)
    (a : Pending) (c : TargetConfig × Ticket × String)
    → lookup input.approval_id (purge now approvals) ≡ some a
    → check_consumer a input ≡ ok tt
    → checked_ticket w a nonce now ≡ ok c
    → a.id ≡ input.approval_id
    → lookup input.approval_id (consume_managed_admin_approval w input nonce now approvals).0 ≡ none
unfolding consume_managed_admin_approval sign_checked
gone_after w input nonce now approvals a c there good checked same = ground (
  arith,
  there,
  good,
  checked,
  lookup-remove a.id input.approval_id (purge now approvals),
  eq_iff a.id input.approval_id,
)

-- A ticket is handed out only for an approval that is there and has not expired, to the actor that
-- prepared it, for its target, with the exact confirmation; the target, its device, the program, the
-- arguments, the directory and the time-out pass the checks anew; the ticket is that of the approved
-- action, signed with the configured secret; and the approval is gone afterwards.
pub ticket_only_if_confirmed :
    (w : World) (input : ConsumeInput) (nonce : String) (now : ℕ) (approvals : Dict Pending)
    (r : Signed)
    → IsIndex (λ (a : Pending). a.id) approvals
    → (consume_managed_admin_approval w input nonce now approvals).1 ≡ ok r
    → ((a : Pending) × (lookup input.approval_id approvals ≡ some a)
        × IsGranted w input nonce now a r)
      × (lookup input.approval_id (consume_managed_admin_approval w input nonce now approvals).0
          ≡ none)
unfolding consume_managed_admin_approval purge
ticket_only_if_confirmed w input nonce now approvals r v e =
    elim (Option-cases (lookup input.approval_id (prune (is_expired now) approvals))) [
      | inl gone ↦ absurd (ground (arith, e, gone))
      | inr (a, there) ↦ elim (Result-cases (check_consumer a input)) [
        | inr (c, bad) ↦ absurd (ground (arith, e, there, bad))
        | inl (u, good) ↦ elim (Result-cases (checked_ticket w a nonce now)) [
          | inr (c, bad) ↦ absurd (ground (arith, e, there, good, bad))
          | inl ((t, x, secret), checked) ↦
              let signing : (sign_checked w a (t, x, secret) (prune (is_expired now) approvals)).1
                  ≡ ok r =
                ground (arith, e, there, good, checked) in
              let (found, all_well) =
                granted w input nonce now approvals r a t x secret good checked signing there in
              (
                (a, found, all_well),
                gone_after w input nonce now approvals a (t, x, secret) there good checked
                    (IsIndex-key _ approvals input.approval_id a v found),
              )
        ]
      ]
    ]
