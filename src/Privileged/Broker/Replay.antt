-- ===== src/Privileged/Broker/Replay.antt =====
-- What the broker runs, and that it runs a ticket once.
use remote_ops_mcp.Prelude.{
  ℕ, ◌+◌, ◌≤◌, ◌<◌, String, ◌≡◌, ◌≢◌, true, false, Option, none, some, List, [], ◌∷◌, arith, eq_iff,
  eq_refl, Option-cases, inl, inr, ◌⊎◌, truthy, includes,
}
use remote_ops_mcp.Dict.{Dict, lookup, lookup-insert, lookup-prune}
use remote_ops_mcp.Privileged.Policy.{managed_admin_hard_deny}
use remote_ops_mcp.Privileged.Ticket.{
  Ticket, RawTicket, Crypto, normalize_managed_admin_ticket, verify_managed_admin_ticket,
}
use remote_ops_mcp.Privileged.Broker.{
  Settings, Outcome, executed, allowed, validate_local_authority, is_old_nonce, load_replay,
  consume_nonce, authorize, handle, clock_skew_ms, cwd_allowed,
}

-- A request: what came in, and the two times at which it is validated and consumed.
pub record Request : Type 0 where
  pub raw : RawTicket
  pub signature : String
  pub now : ℕ
  pub consumed_at : ℕ

abbrev pub serve_one : Crypto → Settings → Request → Dict ℕ → Dict ℕ × Outcome
serve_one c s r nonces = handle c s r.raw r.signature r.now r.consumed_at nonces

pub serve : Crypto → Settings → List Request → Dict ℕ → Dict ℕ
serve c s [] nonces = nonces
serve c s (r ∷ rs) nonces = serve c s rs (serve_one c s r nonces).0

-- The clock does not go back: times from `t` on, and the last of them.
abbrev pub Ordered : ℕ → List Request → Type 0
Ordered t [] = Unit
Ordered t (r ∷ rs) = (t ≤ r.now) × (r.now ≤ r.consumed_at) × Ordered r.consumed_at rs

abbrev pub end_of : ℕ → List Request → ℕ
end_of t [] = t
end_of t (r ∷ rs) = end_of r.consumed_at rs

-- The ticket's nonce is marked as used until the ticket has expired.
abbrev IsMarked : ℕ → Option ℕ → Type 0
IsMarked e none = ⊥
IsMarked e (some n) = (0 < n) × (e ≤ n)

abbrev IsSpent : Ticket → ℕ → Dict ℕ → Type 0
IsSpent t now nonces = IsMarked t.expires_at (lookup t.nonce nonces) ⊎ (t.expires_at < now)

-- What a validated ticket has passed.
pub record IsAuthorized (s : Settings) (t : Ticket) (now : ℕ) (cwd : String) : Type 0 where
  pub device : t.device_id ≡ s.expected_device
  pub not_from_future : t.issued_at ≤ now + clock_skew_ms
  pub not_expired : now ≤ t.expires_at
  pub not_hard_denied : includes t.program managed_admin_hard_deny ≡ false
  pub program_allowed : includes t.program s.programs ≡ true
  pub cwd_is_allowed : cwd_allowed s t.cwd ≡ some cwd

validate-IsAuthorized :
    (s : Settings) (t : Ticket) (now : ℕ) (cwd : String)
    → validate_local_authority s t now ≡ allowed cwd
    → IsAuthorized s t now cwd
unfolding validate_local_authority
validate-IsAuthorized s t now cwd e = elim (Option-cases (cwd_allowed s t.cwd)) [
  | inl no_dir ↦ absurd (ground (arith, no_dir))
  | inr (d, at_dir) ↦ ground (arith, at_dir, eq_iff t.device_id s.expected_device)
]

-- Authorizing a ticket runs that ticket, once it is validated and its nonce consumed.
authorize_runs :
    (s : Settings) (u t : Ticket) (now then_ : ℕ) (nonces : Dict ℕ) (cwd : String)
    → (authorize s u now then_ nonces).1 ≡ executed t cwd
    → (u ≡ t)
      × (validate_local_authority s t now ≡ allowed cwd)
      × (consume_nonce t then_ nonces ≡ some (authorize s u now then_ nonces).0)
unfolding authorize
authorize_runs s u t now then_ nonces cwd e = elim (Option-cases (consume_nonce u then_ nonces)) [
  | inl used ↦ absurd (ground (arith, used))
  | inr (d, used) ↦ ground (arith, used)
]

handle_runs :
    (c : Crypto) (s : Settings) (r : Request) (t : Ticket) (nonces : Dict ℕ) (cwd : String)
    → (serve_one c s r nonces).1 ≡ executed t cwd
    → (normalize_managed_admin_ticket c.byte_length r.raw ≡ some t)
      × (verify_managed_admin_ticket c t r.signature s.public_key ≡ true)
      × (validate_local_authority s t r.now ≡ allowed cwd)
      × (consume_nonce t r.consumed_at nonces ≡ some (serve_one c s r nonces).0)
unfolding handle
handle_runs c s r t nonces cwd e =
    elim (Option-cases (normalize_managed_admin_ticket c.byte_length r.raw)) [
      | inl bad ↦ absurd (ground (arith, bad))
      | inr (u, good) ↦ ground (arith, good, authorize_runs s u t r.now r.consumed_at nonces cwd)
    ]

-- The broker executes a ticket only if what came in is that ticket, well formed, with a signature
-- that verifies under the configured key, for this device, not from the future by more than the
-- clock skew, not expired, for a program that is allowed and not hard-denied, in an allowed
-- directory, and if its nonce was not marked as used.
pub executed_only_with_authority :
    (c : Crypto) (s : Settings) (r : Request) (t : Ticket) (nonces : Dict ℕ) (cwd : String)
    → (serve_one c s r nonces).1 ≡ executed t cwd
    → (normalize_managed_admin_ticket c.byte_length r.raw ≡ some t)
      × (verify_managed_admin_ticket c t r.signature s.public_key ≡ true)
      × IsAuthorized s t r.now cwd
      × (truthy (lookup t.nonce (load_replay r.consumed_at nonces)) ≡ false)
unfolding consume_nonce
executed_only_with_authority c s r t nonces cwd e =
    let (good, signed, valid, consumed) = handle_runs c s r t nonces cwd e in
    (good, signed, validate-IsAuthorized s t r.now cwd valid, ground (arith, consumed))

module _ (s : Settings) (t : Ticket) where
  -- Loading the replay file at a time forgets the mark only of an expired ticket.
  load_replay-IsSpent :
      (then_ : ℕ) (nonces : Dict ℕ)
      → IsMarked t.expires_at (lookup t.nonce nonces)
      → IsSpent t then_ (load_replay then_ nonces)
  unfolding load_replay
  load_replay-IsSpent then_ nonces h =
      ground (arith, lookup-prune (is_old_nonce then_) t.nonce nonces)

  consume_nonce-IsSpent :
      (u : Ticket) (then_ : ℕ) (nonces used : Dict ℕ)
      → IsSpent t then_ nonces
      → consume_nonce u then_ nonces ≡ some used
      → IsSpent t then_ used
  unfolding consume_nonce
  consume_nonce-IsSpent u then_ nonces used (inr over) e = inr over
  consume_nonce-IsSpent u then_ nonces used (inl mark) e = ground (
    arith,
    load_replay-IsSpent then_ nonces mark,
    lookup-insert u.nonce t.nonce u.expires_at (load_replay then_ nonces),
    eq_iff u.nonce t.nonce,
  )

  IsSpent-later :
      (now then_ : ℕ) (nonces : Dict ℕ)
      → now ≤ then_
      → IsSpent t now nonces
      → IsSpent t then_ nonces
  IsSpent-later now then_ nonces le (inl m) = inl m
  IsSpent-later now then_ nonces le (inr over) = inr (omega arith)

  authorize-IsSpent :
      (u : Ticket) (now then_ : ℕ) (nonces : Dict ℕ)
      → now ≤ then_
      → IsSpent t now nonces
      → IsSpent t then_ (authorize s u now then_ nonces).0
  unfolding authorize
  authorize-IsSpent u now then_ nonces le h =
      let l = IsSpent-later now then_ nonces le h in
      elim (Option-cases (consume_nonce u then_ nonces)) [
        | inl e ↦ ground (arith, l)
        | inr (used, e) ↦ ground (arith, l, consume_nonce-IsSpent u then_ nonces used l e)
      ]

  handle-IsSpent :
      (c : Crypto) (r : Request) (nonces : Dict ℕ)
      → r.now ≤ r.consumed_at
      → IsSpent t r.now nonces
      → IsSpent t r.consumed_at (serve_one c s r nonces).0
  unfolding handle
  handle-IsSpent c r nonces le h =
      let l = IsSpent-later r.now r.consumed_at nonces le h in
      elim (Option-cases (normalize_managed_admin_ticket c.byte_length r.raw)) [
        | inl e ↦ ground (arith, l, e)
        | inr (u, e) ↦ ground (arith, l, e, authorize-IsSpent u r.now r.consumed_at nonces le h)
      ]

  serve-IsSpent :
      (c : Crypto) (rs : List Request) (start : ℕ) (nonces : Dict ℕ)
      → Ordered start rs
      → IsSpent t start nonces
      → IsSpent t (end_of start rs) (serve c s rs nonces)
  unfolding serve
  serve-IsSpent c [] start nonces o h = h
  serve-IsSpent c (r ∷ rs) start nonces o h =
      serve-IsSpent c rs r.consumed_at (serve_one c s r nonces).0 o.2
        (handle-IsSpent c r nonces o.1 (IsSpent-later start r.now nonces o.0 h))

  -- A ticket that is spent is not executed.
  spent_is_refused :
      (c : Crypto) (r : Request) (nonces : Dict ℕ) (cwd : String)
      → r.consumed_at ≤ r.now + 60_000
      → IsSpent t r.now nonces
      → (serve_one c s r nonces).1 ≢ executed t cwd
  unfolding consume_nonce load_replay
  spent_is_refused c r nonces cwd le (inr over) e =
      let (good, signed, valid, consumed) = handle_runs c s r t nonces cwd e in
      omega (arith, (validate-IsAuthorized s t r.now cwd valid).not_expired)
  spent_is_refused c r nonces cwd le (inl mark) e =
      let (good, signed, valid, consumed) = handle_runs c s r t nonces cwd e in
      ground (
        arith,
        consumed,
        (validate-IsAuthorized s t r.now cwd valid).not_expired,
        lookup-prune (is_old_nonce r.consumed_at) t.nonce nonces,
      )

  executed-IsSpent :
      (c : Crypto) (r : Request) (nonces : Dict ℕ) (cwd : String)
      → (serve_one c s r nonces).1 ≡ executed t cwd
      → 0 < t.expires_at
      → IsSpent t r.consumed_at (serve_one c s r nonces).0
  unfolding consume_nonce
  executed-IsSpent c r nonces cwd e pos =
      let (good, signed, valid, consumed) = handle_runs c s r t nonces cwd e in
      ground (
        arith,
        consumed,
        lookup-insert t.nonce t.nonce t.expires_at (load_replay r.consumed_at nonces),
        eq_refl t.nonce,
      )

-- The broker executes a ticket at most once: after it has executed one, whatever requests come next,
-- while the clock does not go back, no request makes it execute the same ticket in any directory. The
-- last request is consumed within a minute of its validation, and the ticket's expiry is not 0.
pub ticket_runs_once :
    (c : Crypto) (s : Settings) (t : Ticket) (first again : Request) (rs : List Request)
    (nonces : Dict ℕ) (cwd other_cwd : String)
    → (serve_one c s first nonces).1 ≡ executed t cwd
    → 0 < t.expires_at
    → Ordered first.consumed_at rs
    → end_of first.consumed_at rs ≤ again.now
    → again.consumed_at ≤ again.now + 60_000
    → (serve_one c s again (serve c s rs (serve_one c s first nonces).0)).1 ≢ executed t other_cwd
ticket_runs_once c s t first again rs nonces cwd other_cwd ran pos ordered after le =
    spent_is_refused s t c again _ other_cwd le (
      IsSpent-later s t (end_of first.consumed_at rs) again.now _ after (
        serve-IsSpent s t c rs first.consumed_at _ ordered
          (executed-IsSpent s t c first nonces cwd ran pos)))
