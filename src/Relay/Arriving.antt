-- ===== src/Relay/Arriving.antt =====
-- src/relay.rs: a body that one member puts arrives at the other, through `handle` alone.
use cbcl_pairing.Common.{
  ℕ, ◌+◌, ◌≤◌, ◌<◌, ◌≡◌, ◌≢◌, refl, Octets, octets_ordered, octets_beq_self, nat_ordered,
  pair_ordered, ==-iff, List, [], ◌∷◌, ◌++◌, some, true, false, is_some, length, lookup,
  lookup-insert, u64_mod, ok, arith,
}
use cbcl_pairing.Wire.{ClientMessage}
use cbcl_pairing.Limiter.{LimitDecision, Operation}
use cbcl_pairing.Limiter.Check.{check}
use cbcl_pairing.Mailbox.{
  Membership, MemberState, Mailbox, max_frame_body_bytes, max_frames_per_membership, peer,
}
use cbcl_pairing.Mailbox.Terminal.{member, is_terminal}
use cbcl_pairing.Mailbox.Queue.{queue}
use cbcl_pairing.Mailbox.Safety.PutAck.{member-IsMember}
use cbcl_pairing.Mailbox.Sending.{put-stored_put, stored_put, stored_put-queue, stored_put-other}
use cbcl_pairing.Observability.{RelayOutcome}
use cbcl_pairing.Relay.{ConnectionId, RelayEnv, RelayRandomness, RelayService, RoutedMessage}
use cbcl_pairing.Relay.Messages.{actor_outcome, operation, side_number}
use cbcl_pairing.Relay.Handling.{answered, dispatch, finish, handle, handle_checked, refresh_gauges}
use cbcl_pairing.Relay.Members.{command_of, mailbox_command, member_command}
use cbcl_pairing.Relay.Soundness.{IsSound}
use cbcl_pairing.Relay.Accounting.{total-remove}
use cbcl_pairing.Relay.Delivering.{after_command-put, put_answer, replaced, there_if}

module _ {S : Type 0} (env : RelayEnv S) where
  -- What `handle` leaves and answers, once the limiter has admitted the message.
  abbrev pub admitted : RelayService S → ConnectionId → Octets → ℕ → ClientMessage → RelayService S
  admitted s c address now m = record s {
    limiter = (check env.peers s.limiter (operation m) address now).0;
  }

  pub handle-admitted :
      (s t : RelayService S) (c : ConnectionId) (address : Octets) (now : ℕ) (r : RelayRandomness)
      (m : ClientMessage) (k : ℕ) (messages : List RoutedMessage)
      → (check env.peers s.limiter (operation m) address now).1 ≡ ok (LimitDecision.allowed k)
      → answered env (admitted s c address now m) c now r m ≡ (t, ok messages)
      → handle env s c address now r m ≡ finish t (operation m) (actor_outcome c messages) messages
  unfolding handle handle_checked
  handle-admitted s t c address now r m k messages e f = rw (e, handle_checked) (rw f refl)

  pub finish-same :
      (t : RelayService S) (o : Operation) (out : RelayOutcome) (messages : List RoutedMessage)
      → (finish t o out messages ≡ ((finish t o out messages).0, ok messages))
        × ((finish t o out messages).0.mailboxes ≡ t.mailboxes)
        × ((finish t o out messages).0.connections ≡ t.connections)
        × ((finish t o out messages).0.config ≡ t.config)
  unfolding finish refresh_gauges
  finish-same t o out messages = (refl, refl, refl, refl)

  -- The service after the put, before the gauges are set.
  abbrev pub put_on :
      RelayService S
      → ConnectionId
      → Octets
      → ℕ
      → Octets
      → Membership
      → Mailbox
      → MemberState
      → Octets
      → RelayService S
  put_on s c address now id sender m u body =
      replaced env (admitted s c address now (ClientMessage.put u.next_seq body)) id m
        (stored_put env.sha256 m sender u body)

  pub fits-queue :
      (s : RelayService S) (id : Octets) (m : Mailbox)
      → IsSound env.sha256 s
      → lookup id s.mailboxes ≡ some m
      → m.queue_bytes ≤ s.queue_bytes
  fits-queue s id m h e =
      ground (arith, total-remove id s.mailboxes h.accounted.distinct, h.accounted.exact, e)

  answered-put :
      (s : RelayService S) (c : ConnectionId) (now : ℕ) (r : RelayRandomness) (id : Octets)
      (sender : Membership) (m : Mailbox) (u : MemberState) (body : Octets)
      → (env.store.put s.store (stored_put env.sha256 m sender u body)).1 ≡ ok tt
      → IsSound env.sha256 s
      → lookup c s.connections
        ≡ some (record {
          bound = true;
          membership = some (record { mailbox_id = id; membership = sender });
        })
      → lookup id s.mailboxes ≡ some m
      → is_terminal m.status ≡ false
      → now < m.expires_at
      → member m sender ≡ some u
      → 0 < length body
      → length body ≤ max_frame_body_bytes
      → u.next_seq < max_frames_per_membership
      → s.queue_bytes + length body ≤ s.config.capacity.queue_bytes
      → s.config.capacity.queue_bytes < u64_mod
      → answered env s c now r (ClientMessage.put u.next_seq body) ≡ (
        replaced env s id m (stored_put env.sha256 m sender u body),
        ok (
            put_answer c
              (there_if
                (is_some (member m (peer sender)))
                (lookup (id, side_number (peer sender)) s.routes))
              u.next_seq
              body),
      )
  unfolding answered dispatch member_command command_of mailbox_command
  answered-put s c now r id sender m u body accepts h here e live early who pos bound room fits
        word =
      let v = h.accounted.valid id m e in
      rw
        (
          here,
          command_of,
          e,
          put-stored_put env.sha256 m sender u body now v live early who pos bound room
              (member-IsMember env.sha256 m sender u v who),
        )
        (after_command-put env s c id sender m (stored_put env.sha256 m sender u body)
          (is_some (member m (peer sender))) u.next_seq body e accepts (fits-queue s id m h e)
          (omega (arith, fits-queue s id m h e)) word)

-- The next body of a member of a live mailbox, with room for it in the queues, from a connection
-- that holds the membership, to a limiter that admits it and a store that accepts what it is given.
module _ {S : Type 0} (env : RelayEnv S) (s : RelayService S) (c : ConnectionId) (address : Octets)
    (now : ℕ) (r : RelayRandomness) (id : Octets) (sender : Membership) (m : Mailbox)
    (u : MemberState) (body : Octets) (k : ℕ)
    (accepts : (env.store.put s.store (stored_put env.sha256 m sender u body)).1 ≡ ok tt)
    (h : IsSound env.sha256 s)
    (here : lookup c s.connections
      ≡ some (record {
        bound = true;
        membership = some (record { mailbox_id = id; membership = sender });
      }))
    (e : lookup id s.mailboxes ≡ some m) (live : is_terminal m.status ≡ false)
    (early : now < m.expires_at) (who : member m sender ≡ some u) (pos : 0 < length body)
    (bound : length body ≤ max_frame_body_bytes) (room : u.next_seq < max_frames_per_membership)
    (fits : s.queue_bytes + length body ≤ s.config.capacity.queue_bytes)
    (word : s.config.capacity.queue_bytes < u64_mod)
    (allowed : (check env.peers s.limiter Operation.put address now).1
      ≡ ok (LimitDecision.allowed k)) where
  -- The answer: to the sender, and to the peer's connection, if the peer has joined and has one.
  abbrev pub answer : List RoutedMessage
  answer =
      put_answer c
        (there_if (is_some (member m (peer sender)))
          (lookup (id, side_number (peer sender)) s.routes))
        u.next_seq body

  -- What `handle` makes of it.
  pub handle-put :
      handle env s c address now r (ClientMessage.put u.next_seq body)
      ≡ finish
          (put_on env s c address now id sender m u body)
          Operation.put
          (actor_outcome c answer)
          answer
  unfolding operation
  handle-put =
      handle-admitted env s (put_on env s c address now id sender m u body) c address now r
        (ClientMessage.put u.next_seq body) k answer allowed
        (answered-put env (admitted env s c address now (ClientMessage.put u.next_seq body)) c now r
          id sender m u body accepts
          (record {
            routed = h.routed;
            accounted = h.accounted;
            bounded = h.bounded;
            budget = h.budget;
            named = h.named;
          })
          here e live early who pos bound room fits word)

  -- In a sound service (as every one is that the program can produce over a store that does not
  -- panic and starts from well-formed mailboxes), whose capacity for queued bytes is below
  -- 2^64: if a bound connection that is a member of a live mailbox puts its next body before
  -- the expiry, of a size in range and after fewer than 16 others, there is room for it in the
  -- queues, the limiter admits the put, and the store accepts the mailbox with the new body,
  -- then `handle` answers the sender that it is acknowledged and sends the frame to the peer's
  -- connection, if the peer has joined and has one, and says nothing else; the body goes to the
  -- end of the member's queue, and the other queue and every other mailbox stay as they were.
  pub put_routed :
      let (t, result) = handle env s c address now r (ClientMessage.put u.next_seq body) in
      (result ≡ ok answer)
      × (n : Mailbox) × (lookup id t.mailboxes ≡ some n)
      × (queue n sender ≡ queue m sender ++ ((u.next_seq, body) ∷ []))
      × (queue n (peer sender) ≡ queue m (peer sender))
      × ((j : Octets) → j ≢ id → lookup j t.mailboxes ≡ lookup j s.mailboxes)
  unfolding finish
  put_routed =
      let n = stored_put env.sha256 m sender u body in
      rw handle-put (
        refl,
        n,
        rw (lookup-insert id id n s.mailboxes) (ground (arith, octets_beq_self id)),
        stored_put-queue env.sha256 m sender u body who,
        stored_put-other env.sha256 m sender u body,
        λ j other. ground (arith, lookup-insert j id n s.mailboxes, ==-iff j id),
      )
