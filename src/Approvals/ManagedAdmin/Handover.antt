-- ===== src/Approvals/ManagedAdmin/Handover.antt =====
-- The ticket that an approval gives passes the broker's checks, and a confirmed approval gives one.
use remote_ops_mcp.Prelude.{
  ℕ, ◌+◌, ◌≤◌, String, ◌≡◌, refl, ◌∙◌, sym, true, false, Option, none, some, List, [], ◌∷◌, arith,
  eq_iff, eq_refl, Option-cases, Bool-cases, inl, inr, ltb, all, trim, concat, text_length,
}
use remote_ops_mcp.Errors.{Result-cases, Result, ok}
use remote_ops_mcp.Dict.{Dict, insert, prune, lookup-insert_self, lookup-prune}
use remote_ops_mcp.Dict.Index.{IsIndex}
use remote_ops_mcp.Privileged.Ticket.{
  Ticket, Crypto, NumberInput, whole, other, is_timeout, is_nonce, is_target_id, is_device_id,
  is_well_formed, sign_managed_admin_ticket, verify_managed_admin_ticket,
  normalize_managed_admin_ticket, to_raw, managed_admin_ticket_bytes, is_signature_text,
}
use remote_ops_mcp.Privileged.Broker as Broker
use remote_ops_mcp.Privileged.Broker.{handle, authorize, Outcome}
use remote_ops_mcp.Config.Target.{TargetConfig}
use remote_ops_mcp.Approvals.Utils.{
  approval_ttl_ms, new_approval_id, require_approval_confirmation, has_strong_auth,
}
use remote_ops_mcp.Approvals.ManagedAdmin.{
  Pending, World, is_expired, purge, require_managed_admin_auth_secret,
  require_managed_admin_target, require_device_capability, PrepareInput, ArgvInput, missing,
  no_array, items, normalize_program, normalize_argv, normalize_cwd, normalize_timeout,
  checked_action, prepare_managed_admin_action, ConsumeInput, Signed, checked_ticket,
  check_consumer, sign_checked, consume_managed_admin_approval, new_pending,
}
use remote_ops_mcp.Approvals.ManagedAdmin.Safety.{
  ticket_only_if_confirmed, ticket_well_formed, ticket_of, ticket_inv,
}

-- What the signatures have to do: verify, and look like one.
pub record IsSound (c : Crypto) : Type 0 where
  pub verifies :
      (secret bytes : String)
      → c.verify (c.public_key secret) bytes (c.sign (c.private_key secret) bytes) ≡ true
  pub text : (key bytes : String) → is_signature_text (c.sign key bytes) ≡ true

verified :
    (c : Crypto) (x : Ticket) (secret signature : String)
    → IsSound c
    → sign_managed_admin_ticket c x secret ≡ some signature
    → (normalize_managed_admin_ticket c.byte_length (to_raw x) ≡ some x)
      × (verify_managed_admin_ticket c x signature (c.public_key secret) ≡ true)
unfolding sign_managed_admin_ticket verify_managed_admin_ticket managed_admin_ticket_bytes
    normalize_managed_admin_ticket
verified c x secret signature sound e = elim (Bool-cases (is_well_formed c.byte_length x)) [
  | inr bad ↦ absurd (ground (arith, e, bad))
  | inl good ↦ ground (
    arith,
    e,
    good,
    sound.verifies secret (c.json x),
    sound.text (c.private_key secret) (c.json x),
  )
]

-- The ticket and the signature that a confirmed approval gives get past the form and the signature
-- checks of a broker that has the public key of the same secret: the broker's answer is that of its
-- checks of local authority and of the nonce.
pub broker_takes_ticket :
    (w : World) (input : ConsumeInput) (nonce : String) (now : ℕ) (approvals : Dict Pending)
    (r : Signed) (s : Broker.Settings) (secret : String) (t1 t2 : ℕ) (nonces : Dict ℕ)
    → IsIndex (λ (a : Pending). a.id) approvals
    → IsSound w.crypto
    → require_managed_admin_auth_secret w.env ≡ ok secret
    → s.public_key ≡ w.crypto.public_key secret
    → (consume_managed_admin_approval w input nonce now approvals).1 ≡ ok r
    → handle w.crypto s (to_raw r.ticket) r.signature t1 t2 nonces
      ≡ authorize s r.ticket t1 t2 nonces
unfolding handle
broker_takes_ticket w input nonce now approvals r s secret t1 t2 nonces v sound at_secret key e =
    let (a, found, g) = (ticket_only_if_confirmed w input nonce now approvals r v e).0 in
    let (used, is_secret, signed) = g.secret in
    let same : ◌≡◌ {A = Result String} (ok used) (ok secret) = sym is_secret ∙ at_secret in
    let same_secret : used ≡ secret = cc in
    let (good, verifies) =
      verified w.crypto r.ticket secret r.signature sound (rw same_secret at signed) in
    ground (arith, good, verifies, key)

-- What has been normalized is normalized as it is.
program_again :
    (t : TargetConfig) (x y : String) → normalize_program t x ≡ ok y → normalize_program t y ≡ ok y
unfolding normalize_program
program_again t x y e = ground arith

argv_again :
    (f : String → ℕ) (x : ArgvInput) (y : List String)
    → normalize_argv f x ≡ ok y
    → normalize_argv f (items y) ≡ ok y
unfolding normalize_argv all
argv_again f missing [] e = refl
argv_again f missing (y ∷ ys) e = absurd (cc)
argv_again f no_array y e = absurd (cc)
argv_again f (items xs) y e = ground arith

cwd_again :
    (t : TargetConfig) (x : Option String) (y : String)
    → normalize_cwd t x ≡ ok y
    → normalize_cwd t (some y) ≡ ok y
unfolding normalize_cwd
cwd_again t x y e = ground arith

timeout_again :
    (x : Option NumberInput) (y : ℕ)
    → normalize_timeout x ≡ ok y
    → normalize_timeout (some (whole y)) ≡ ok y
unfolding normalize_timeout is_timeout
timeout_again none y e = ground arith
timeout_again (some other) y e = absurd (cc)
timeout_again (some (whole n)) y e = ground arith

-- An action that was checked passes the checks again, in the same control plane, once it is
-- established that its device is still live and capable.
recheck :
    (w : World) (input : PrepareInput) (now later : ℕ) (a : Pending) (nonce : String)
    → checked_action w input now ≡ ok a.action
    → require_device_capability w a.action.device_id later ≡ ok tt
    → input.target_id ≡ a.action.target_id
    → (t : TargetConfig) × (secret : String) × (checked_ticket w a nonce later
        ≡ ok (t, ticket_of a nonce later, secret))
      × (require_managed_admin_auth_secret w.env ≡ ok secret)
unfolding checked_action checked_ticket
recheck w input now later a nonce e live same =
    elim (Result-cases (require_managed_admin_auth_secret w.env)) [
      | inr (c, bad) ↦ absurd (ground (arith, e, bad))
      | inl (secret, good) ↦ elim (Result-cases (require_managed_admin_target w input.target_id)) [
        | inr (c, bad) ↦ absurd (ground (arith, e, good, bad))
        | inl ((t, device), found) ↦ (
          t,
          secret,
          ground (
            arith,
            e,
            good,
            found,
            live,
            same,
            eq_refl device,
            program_again t input.program a.action.program,
            argv_again w.crypto.byte_length input.argv a.action.argv,
            cwd_again t input.cwd a.action.cwd,
            timeout_again input.timeout_ms a.action.timeout_ms,
          ),
          good,
        )
      ]
    ]

secret_long :
    (w : World) (secret : String)
    → require_managed_admin_auth_secret w.env ≡ ok secret
    → ltb (text_length secret) 32 ≡ false
unfolding require_managed_admin_auth_secret has_strong_auth
secret_long w secret e = elim (Option-cases w.env.auth_secret) [
  | inl none_set ↦ ground (arith, e, none_set)
  | inr (s, set) ↦ ground (arith, e, set)
]

signing_succeeds :
    (c : Crypto) (x : Ticket) (secret : String)
    → is_well_formed c.byte_length x ≡ true
    → ltb (text_length secret) 32 ≡ false
    → sign_managed_admin_ticket c x secret ≡ some (c.sign (c.private_key secret) (c.json x))
unfolding sign_managed_admin_ticket managed_admin_ticket_bytes normalize_managed_admin_ticket
signing_succeeds c x secret good long = ground (arith, good, long)

prepared_inv :
    (w : World) (input : PrepareInput) (hex : String) (now : ℕ) (d : Dict Pending) (a : Pending)
    → (prepare_managed_admin_action w input hex now d).1 ≡ ok a
    → (checked_action w input now ≡ ok a.action)
      × (a ≡ new_pending (new_approval_id hex) input.actor now a.action)
      × ((prepare_managed_admin_action w input hex now d).0 ≡ insert a.id a (purge now d))
unfolding prepare_managed_admin_action
prepared_inv w input hex now d a e = ground arith

-- A prepared action that its actor confirms in time is granted: while the control plane stays as it
-- is, the approval unexpired and the device live, the call gives a signed ticket with the prepared
-- program, arguments, directory and time-out. The registry holds the target under its own id, and the
-- ids and the nonce have the form that a ticket wants.
pub confirmed_action_is_granted :
    (w : World) (input : PrepareInput) (hex nonce confirmation : String) (now later : ℕ)
    (d : Dict Pending) (a : Pending)
    → (prepare_managed_admin_action w input hex now d).1 ≡ ok a
    → input.target_id ≡ a.action.target_id
    → later ≤ now + approval_ttl_ms
    → trim confirmation ≡ concat "APPROVE " a.id
    → require_device_capability w a.action.device_id later ≡ ok tt
    → is_target_id 63 a.action.target_id ≡ true
    → is_device_id a.action.device_id ≡ true
    → is_nonce nonce ≡ true
    → let answer : ConsumeInput = record {
      actor = input.actor;
      target_id = input.target_id;
      approval_id = a.id;
      confirmation = confirmation;
    } in
      (r : Signed) × ((consume_managed_admin_approval w answer nonce later
          (prepare_managed_admin_action w input hex now d).0).1
        ≡ ok r)
      × (r.ticket ≡ ticket_of a nonce later)
unfolding consume_managed_admin_approval check_consumer require_approval_confirmation purge
    sign_checked
confirmed_action_is_granted w input hex nonce confirmation now later d a e same in_time confirmed
      live good_target good_device good_nonce =
    let (checked, shape, stored) = prepared_inv w input hex now d a e in
    let (t, secret, again, at_secret) = recheck w input now later a nonce checked live same in
    let x = ticket_of a nonce later in
    let (permitted, _, _, _, _) = ticket_inv w a nonce later t x secret again in
    let well =
      ticket_well_formed t w.crypto.byte_length x permitted refl good_target good_device good_nonce
        refl in
    let signed = signing_succeeds w.crypto x secret well (secret_long w secret at_secret) in
    (
      record {
        approval_id = a.id;
        target = t;
        ticket = x;
        signature = w.crypto.sign (w.crypto.private_key secret) (w.crypto.json x);
      },
      ground (
        arith,
        stored,
        shape,
        lookup-prune (is_expired later) a.id (insert a.id a (prune (is_expired now) d)),
        lookup-insert_self a.id a (prune (is_expired now) d),
        again,
        signed,
        eq_refl input.actor,
        eq_refl a.action.target_id,
        same,
        eq_iff (trim confirmation) (concat "APPROVE " a.id),
      ),
      refl,
    )
