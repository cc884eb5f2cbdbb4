-- ===== src/Agent/Gateway/Answers.antt =====
-- Requests are answered by their own device, at most once, and all of them when the device goes.
use remote_ops_mcp.Prelude.{
  ℕ, String, ◌≡◌, ◌≢◌, Bool, true, false, none, some, [], ◌∷◌, ◌==◌, arith, eq_iff, eq_refl, eqb,
  any, Option-cases, inl, inr, ap, ◌∙◌,
}
use remote_ops_mcp.Dict.{Dict, lookup, remove, prune, lookup-remove_self, lookup-prune}
use remote_ops_mcp.Store.Model.{StoredDevice}
use remote_ops_mcp.Store.Devices.{authenticate_device_token}
use remote_ops_mcp.Agent.Gateway.{
  LiveConnection, ExecResult, Reason, agent_disconnected, Effect, rejects, resolves, Gateway,
  Platform, is_of_device, reject_all, reject_pending_for_device, Message, invalid_json, unsupported,
  heartbeat, execute_result, mark_seen, settle, receive, message, drop_socket, closed,
}

mark_seen-pending :
    (device_id : String) (ws now : ℕ) (g : Gateway)
    → (mark_seen device_id ws now g).pending ≡ g.pending
unfolding mark_seen
mark_seen-pending device_id ws now g = ground arith

receive_resolves :
    (os : Platform) (device_id : String) (ws : ℕ) (m : Message) (now : ℕ) (g : Gateway)
    (id : String) (r : ExecResult)
    → (receive os device_id ws m now g).1 ≡ resolves id r ∷ []
    → (lookup id g.pending ≡ some device_id)
      × (lookup id (receive os device_id ws m now g).0.pending ≡ none)
unfolding receive settle
receive_resolves os device_id ws invalid_json now g id r e = absurd (cc)
receive_resolves os device_id ws unsupported now g id r e = absurd (cc)
receive_resolves os device_id ws (heartbeat version capabilities) now g id r e = absurd (cc)
receive_resolves os device_id ws (execute_result j none) now g id r e = absurd (ground (arith, e))
receive_resolves os device_id ws (execute_result j (some x)) now g id r e =
    elim (Option-cases (lookup j g.pending)) [
      | inl absent ↦ absurd (ground (arith, absent, e))
      | inr (d, found) ↦ ground (
        arith,
        e,
        found,
        mark_seen-pending device_id ws now (record g { pending = remove j g.pending }),
        lookup-remove_self j g.pending,
        eq_iff d device_id,
      )
    ]

-- A message resolves a request only if the token of its connection still authenticates and the
-- request is pending at that connection's device; then it is pending no more.
pub message_resolves_own_request :
    (os : Platform) (device_id token : String) (ws : ℕ) (m : Message) (now : ℕ) (g : Gateway)
    (id : String) (r : ExecResult)
    → (message os device_id token ws m now g).1 ≡ resolves id r ∷ []
    → ((d : StoredDevice) × (authenticate_device_token os.sha256 token g.store ≡ some d))
      × (lookup id g.pending ≡ some device_id)
      × (lookup id (message os device_id token ws m now g).0.pending ≡ none)
unfolding message
message_resolves_own_request os device_id token ws m now g id r e =
    elim (Option-cases (authenticate_device_token os.sha256 token g.store)) [
      | inl bad ↦ absurd (ground (arith, bad, e))
      | inr (d, good) ↦
          let (own, gone) =
            receive_resolves os device_id ws m now g id r (ground (arith, good, e)) in
          ((d, good), own, ground (arith, good, gone))
    ]

-- Does the effect answer the request?
abbrev pub answers : String → Effect → Bool
answers id (rejects j why) = j == id
answers id (resolves j r) = j == id
answers id _ = false

reject_all-answers :
    (device_id : String) (why : Reason) (id : String) (d : Dict String)
    → lookup id d ≡ some device_id
    → any (answers id) (reject_all device_id why d) ≡ true
unfolding any reject_all lookup
reject_all-answers device_id why id [] h = absurd (cc)
reject_all-answers device_id why id ((j, x) ∷ d) h =
    ground (arith, h, reject_all-answers device_id why id d, eq_refl device_id)

drop_socket-pending :
    (device_id : String) (ws : ℕ) (g : Gateway) → (drop_socket device_id ws g).pending ≡ g.pending
unfolding drop_socket
drop_socket-pending device_id ws g = ground arith

pending_after_close :
    (device_id : String) (ws : ℕ) (g : Gateway) (id : String)
    → lookup id (closed device_id ws g).0.pending
      ≡ lookup id (prune (is_of_device device_id) g.pending)
unfolding closed reject_pending_for_device
pending_after_close device_id ws g id =
    ap (λ d. lookup id (prune (is_of_device device_id) d)) (drop_socket-pending device_id ws g)

answered_by_close :
    (device_id : String) (ws : ℕ) (g : Gateway) (id : String)
    → lookup id g.pending ≡ some device_id
    → any (answers id) (closed device_id ws g).1 ≡ true
unfolding closed reject_pending_for_device
answered_by_close device_id ws g id h =
    reject_all-answers device_id agent_disconnected id (drop_socket device_id ws g).pending
      (ap (lookup id) (drop_socket-pending device_id ws g) ∙ h)

-- When a socket of a device closes, every request that is pending at the device is answered and none
-- stays pending; the requests that are pending at other devices stay so.
pub close_answers_requests :
    (device_id : String) (ws : ℕ) (g : Gateway) (id : String)
    → (lookup id g.pending ≡ some device_id → any (answers id) (closed device_id ws g).1 ≡ true)
      × (lookup id (closed device_id ws g).0.pending ≢ some device_id)
      × ((other : String)
          → other ≢ device_id
          → lookup id g.pending ≡ some other
          → lookup id (closed device_id ws g).0.pending ≡ some other)
close_answers_requests device_id ws g id =
    let after = pending_after_close device_id ws g id in
    let pruned = lookup-prune (is_of_device device_id) id g.pending in
    (
      answered_by_close device_id ws g id,
      λ e. ground (arith, after, pruned, e, eq_refl device_id),
      λ other apart h. ground (arith, after, pruned, h, apart, eq_iff other device_id),
    )

-- If a device has connected again, the close of its old socket keeps the new connection, and yet it
-- answers every request that is pending at the device, those that went to the new connection too.
pub late_close_answers_requests :
    (device_id : String) (ws : ℕ) (g : Gateway) (c : LiveConnection) (id : String)
    → lookup device_id g.live ≡ some c
    → eqb c.ws ws ≡ false
    → lookup id g.pending ≡ some device_id
    → ((closed device_id ws g).0.live ≡ g.live)
      × (any (answers id) (closed device_id ws g).1 ≡ true)
unfolding closed reject_pending_for_device drop_socket
late_close_answers_requests device_id ws g c id connected apart h =
    (ground (arith, connected, apart), answered_by_close device_id ws g id h)
