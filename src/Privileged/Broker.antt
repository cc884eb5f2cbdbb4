-- ===== src/Privileged/Broker.antt =====
-- src/privileged/managed-admin-broker.ts: one request at a time, from the parsed line to the reply.
-- The process that it runs, the file system and the socket are outside; `realpath` is an argument.
pub mod Replay
pub mod Output
use remote_ops_mcp.Prelude.{
  ℕ, ◌+◌, ◌-◌, ◌≤◌, String, Bool, true, false, ◌&&◌, Option, none, some, List, [], ◌∷◌, ◌++◌, ◌==◌,
  leb, ltb, if◌then◌else◌, any, includes, length, take, strip_slashes, truthy, map, starts_with,
  concat,
}
use remote_ops_mcp.Dict.{Dict, lookup, insert, prune}
use remote_ops_mcp.Privileged.Policy.{managed_admin_hard_deny, is_below}
use remote_ops_mcp.Privileged.Ticket.{
  Ticket, RawTicket, Crypto, normalize_managed_admin_ticket, verify_managed_admin_ticket,
}

abbrev pub clock_skew_ms : ℕ
clock_skew_ms = 30_000

pub record Settings : Type 0 where
  pub roots : List String
  pub programs : List String
  pub expected_device : String
  pub public_key : String
  -- fs.realpathSync; `none`: it throws
  pub realpath : String → Option String

pub data Denial : Type 0 where
  invalid_ticket invalid_signature wrong_device ticket_from_future ticket_expired : Denial
  program_hard_denied program_not_allowed cwd_not_allowed ticket_replayed : Denial

-- The reply: a denial, or the run of the program in a directory.
pub data Outcome : Type 0 where
  denied : Denial → Outcome
  executed : Ticket → String → Outcome

unfoldable pub add_root : Option String → Option (List String) → Option (List String)
unfolding strip_slashes
add_root (some real) (some reals) = some (strip_slashes real ∷ reals)
add_root _ _ = none

-- The real paths of all roots; one that has none makes the whole request fail.
unfoldable pub real_roots : Settings → List String → Option (List String)
unfolding add_root
real_roots s [] = some []
real_roots s (root ∷ rest) = add_root (s.realpath root) (real_roots s rest)

unfoldable pub cwd_allowed : Settings → String → Option String
unfolding real_roots any is_below
cwd_allowed s cwd = elim (s.realpath cwd) [
  | none ↦ none
  | some path ↦ elim (real_roots s s.roots) [
    | none ↦ none
    | some reals ↦
        if any (λ root. is_below (strip_slashes path) root) reals
        then some (strip_slashes path)
        else none
  ]
]

-- The directory, or why not.
pub data Checked : Type 0 where
  allowed : String → Checked
  refused : Denial → Checked

unfoldable pub validate_local_authority : Settings → Ticket → ℕ → Checked
validate_local_authority s ticket now =
    if ticket.device_id == s.expected_device
    then (if ltb (now + clock_skew_ms) ticket.issued_at
        then refused ticket_from_future
        else if ltb ticket.expires_at now
        then refused ticket_expired
        else if includes ticket.program managed_admin_hard_deny
        then refused program_hard_denied
        else if includes ticket.program s.programs
        then (elim (cwd_allowed s ticket.cwd) [
          | none ↦ refused cwd_not_allowed
          | some d ↦ allowed d
        ])
        else refused program_not_allowed)
    else refused wrong_device

abbrev pub is_old_nonce : ℕ → String → ℕ → Bool
is_old_nonce now nonce expires = ltb expires (now - 60_000)

-- The used nonces, with the expiry of their tickets.
unfoldable pub load_replay : ℕ → Dict ℕ → Dict ℕ
unfolding prune
load_replay now nonces = prune (is_old_nonce now) nonces

-- `none`: the ticket has been used. Otherwise what the replay file holds then.
unfoldable pub consume_nonce : Ticket → ℕ → Dict ℕ → Option (Dict ℕ)
unfolding load_replay lookup insert
consume_nonce ticket now nonces =
    let state = load_replay now nonces in
    if truthy (lookup ticket.nonce state)
    then none
    else some (insert ticket.nonce ticket.expires_at state)

-- A signed ticket, validated at `now` and consumed at `then_`.
unfoldable pub authorize : Settings → Ticket → ℕ → ℕ → Dict ℕ → Dict ℕ × Outcome
authorize s ticket now then_ nonces = elim (validate_local_authority s ticket now) [
  | refused why ↦ (nonces, denied why)
  | allowed cwd ↦ elim (consume_nonce ticket then_ nonces) [
    | none ↦ (nonces, denied ticket_replayed)
    | some used ↦ (used, executed ticket cwd)
  ]
]

unfoldable pub handle : Crypto → Settings → RawTicket → String → ℕ → ℕ → Dict ℕ → Dict ℕ × Outcome
handle c s raw signature now then_ nonces =
    elim (normalize_managed_admin_ticket c.byte_length raw) [
      | none ↦ (nonces, denied invalid_ticket)
      | some ticket ↦
          if verify_managed_admin_ticket c ticket signature s.public_key
          then authorize s ticket now then_ nonces
          else (nonces, denied invalid_signature)
    ]

-- `append` of `execute`: a chunk of output, cut at the limit; the `Bool` tells that it was cut.
unfoldable pub append_output : ℕ → List ℕ → List ℕ → List ℕ × Bool
append_output max current chunk =
    if leb max (length current)
    then (current, true)
    else if ltb max (length current + length chunk)
    then (current ++ take (max - length current) chunk, true)
    else (current ++ chunk, false)
