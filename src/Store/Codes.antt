-- ===== src/Store/Codes.antt =====
-- An authorization code is good for one exchange.
use remote_ops_mcp.Prelude.{
  if◌then◌else◌, leb, ℕ, String, ◌≡◌, ◌≢◌, none, some, List, arith, eq_iff, Option-cases, inl, inr,
}
use remote_ops_mcp.Dict.{
  lookup, insert, lookup-insert, lookup-remove, lookup-remove_self, lookup-prune,
  lookup-insert_self,
}
use remote_ops_mcp.Store.Model.{StoredAuthCode, Process, persist}
use remote_ops_mcp.Store.Clients.{
  prune_pending_clients, register_client, touch_client, revoke_client, revoke_all_clients,
  put_auth_code,
}
use remote_ops_mcp.Store.Sessions.{
  consume_auth_code, create_session, rotate_refresh_token, touch_session, revoke_session,
  revoke_all_sessions, touch_client_of,
}
use remote_ops_mcp.Store.Targets.{set_target_enabled, record_tool_result, record_target_probe}
use remote_ops_mcp.Store.Pairings.{create_pairing, approve_pairing_by_code, claim_pairing}
use remote_ops_mcp.Store.Devices.{touch_device_heartbeat, revoke_device}
use remote_ops_mcp.Store.Purge.{purge_state, is_old_code}
use remote_ops_mcp.Store.Calls.{
  Setup, Call, registers, touches_client, revokes_client, revokes_clients, revokes_sessions, purges,
  puts_code, consumes_code, creates_session, rotates, touches_session, revokes_session, controls,
  records, probes, starts_pairing, approves, claims, heartbeats, revokes_device, step, run, AllMay,
  run_keeps,
}

-- Any call, but storing a code with this hash.
abbrev pub MayPut : (String → String) → String → ℕ → Call → Type 0
MayPut sha256 hash now (puts_code raw c) = sha256 raw ≢ hash
MayPut sha256 hash now _ = Unit

-- The calls of the other parts leave the codes alone.
touch_client_of-codes :
    (j : String) (now : ℕ) (p : Process) → (touch_client_of j now p).auth_codes ≡ p.auth_codes
unfolding touch_client_of
touch_client_of-codes j now p = ground arith

touch_session-codes :
    (j : String) (now : ℕ) (p : Process) → (touch_session j now p).auth_codes ≡ p.auth_codes
unfolding touch_session persist
touch_session-codes j now p = elim (Option-cases (lookup j p.sessions)) [
  | inl e ↦ ground arith
  | inr (x, e) ↦ ground (
    arith,
    touch_client_of-codes x.client_id now (record p {
      state = record p.state { sessions = insert j (record x { last_seen_at = now }) p.sessions };
      last_session_touch = insert j now p.last_session_touch;
    }),
  )
]

module _ (s : Setup) (hash : String) where
  abbrev IsGone : Process → Type 0
  IsGone p = lookup hash p.auth_codes ≡ none

  step-IsGone :
      (now : ℕ) (c : Call) (p : Process)
      → MayPut s.os.sha256 hash now c
      → IsGone p
      → IsGone (step s now c p)
  unfolding step persist
  step-IsGone now (registers c) p m h = unfold register_client prune_pending_clients in ground arith
  step-IsGone now (touches_client j) p m h = unfold touch_client in ground arith
  step-IsGone now (revokes_client j) p m h = unfold revoke_client in ground arith
  step-IsGone now revokes_clients p m h = unfold revoke_all_clients in h
  step-IsGone now revokes_sessions p m h = unfold revoke_all_sessions in h
  step-IsGone now purges p m h =
      unfold purge_state in ground (arith, lookup-prune (is_old_code now) hash p.auth_codes)
  step-IsGone now (puts_code raw c) p m h =
      unfold put_auth_code in
      ground (
        arith,
        lookup-insert (s.os.sha256 raw) hash (record c { code_hash = s.os.sha256 raw })
            p.auth_codes,
        eq_iff (s.os.sha256 raw) hash,
      )
  step-IsGone now (consumes_code raw) p m h =
      unfold consume_auth_code in ground (arith, lookup-remove (s.os.sha256 raw) hash p.auth_codes)
  step-IsGone now (creates_session x) p m h = unfold create_session in h
  step-IsGone now (rotates j raw r a) p m h = unfold rotate_refresh_token in ground arith
  step-IsGone now (touches_session j) p m h = rw (touch_session-codes j now p) h
  step-IsGone now (revokes_session j) p m h = unfold revoke_session in ground arith
  step-IsGone now (controls t e r) p m h = unfold set_target_enabled in h
  step-IsGone now (records none tool r c) p m h = unfold record_tool_result in h
  step-IsGone now (records (some t) tool r c) p m h = unfold record_tool_result in ground arith
  step-IsGone now (probes t ok c) p m h = unfold record_target_probe in h
  step-IsGone now (starts_pairing r me) p m h = unfold create_pairing in ground arith
  step-IsGone now (approves code) p m h = unfold approve_pairing_by_code in ground arith
  step-IsGone now (claims j t f) p m h = unfold claim_pairing in ground arith
  step-IsGone now (heartbeats j v c) p m h = unfold touch_device_heartbeat in ground arith
  step-IsGone now (revokes_device j) p m h = unfold revoke_device in ground arith

consume_removes :
    (sha256 : String → String) (raw : String) (now : ℕ) (p : Process)
    → lookup (sha256 raw) (consume_auth_code sha256 raw now p).0.auth_codes ≡ none
unfolding consume_auth_code persist
consume_removes sha256 raw now p = ground (arith, lookup-remove_self (sha256 raw) p.auth_codes)

-- A code that was stored is found by a first use up to its expiry and by none later. Whatever the time of
-- that use, and so also if it came too late, after any calls that do not store a code with the same
-- hash every further use finds nothing, at whatever time.
pub code_is_single_use :
    (s : Setup) (raw : String) (code : StoredAuthCode) (now later : ℕ) (p : Process)
    (cs : List (ℕ × Call))
    → AllMay (MayPut s.os.sha256 (s.os.sha256 raw)) cs
    → let used = consume_auth_code s.os.sha256 raw now (put_auth_code s.os.sha256 raw code p) in
      (used.1 ≡ (
        if leb now code.expires_at
        then some (record code { code_hash = s.os.sha256 raw })
        else none))
      × ((consume_auth_code s.os.sha256 raw later (run s cs used.0)).1 ≡ none)
unfolding consume_auth_code put_auth_code persist
code_is_single_use s raw code now later p cs may =
    let hash = s.os.sha256 raw in
    let used = consume_auth_code s.os.sha256 raw now (put_auth_code s.os.sha256 raw code p) in
    let gone =
      run_keeps s (IsGone s hash) _ (step-IsGone s hash) cs used.0 may
        (consume_removes s.os.sha256 raw now (put_auth_code s.os.sha256 raw code p)) in
    (
      ground (arith, lookup-insert_self hash (record code { code_hash = hash }) p.auth_codes),
      ground (arith, gone),
    )
