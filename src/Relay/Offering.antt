-- ===== src/Relay/Offering.antt =====
-- src/relay.rs: what a member has put is offered to the peer who opens the mailbox.
use cbcl_pairing.Common.{
  ℕ, ◌+◌, ◌≤◌, ◌<◌, ◌≡◌, refl, Octets, octets_ordered, octets_beq_self, nat_ordered, ◌∙◌, ap, List,
  [], ◌∷◌, ◌++◌, map, some, true, false, length, lookup, lookup-insert, u64_mod, ok, arith,
}
use cbcl_pairing.Wire.{ClientMessage, ServerMessage}
use cbcl_pairing.Limiter.{LimitDecision, Operation}
use cbcl_pairing.Limiter.Check.{check}
use cbcl_pairing.Mailbox.{
  Membership, MemberState, Mailbox, MailboxEffect, max_frame_body_bytes, max_frames_per_membership,
  peer,
}
use cbcl_pairing.Mailbox.Terminal.{member, is_terminal}
use cbcl_pairing.Mailbox.Queue.{queue, delivery, open_delivers}
use cbcl_pairing.Mailbox.Sending.{stored_put, stored_put-queue}
use cbcl_pairing.Relay.{ConnectionId, RelayEnv, RelayRandomness, RelayService, RoutedMessage}
use cbcl_pairing.Relay.Messages.{delivered_to, opened_membership, operation, route}
use cbcl_pairing.Relay.Attaching.{attach}
use cbcl_pairing.Relay.Claiming.{after_open, open_mailbox, opened_or_closed}
use cbcl_pairing.Relay.Handling.{answered, dispatch, finish, handle, is_bound}
use cbcl_pairing.Relay.Soundness.{IsSound, IsTotal, Keeps-IsSound}
use cbcl_pairing.Relay.Arriving.{fits-queue, handle-admitted, handle-put, admitted}
use cbcl_pairing.Relay.Serving.{handle-Keeps}
use cbcl_pairing.Relay.Delivering.{commit-replaced, replaced}

-- The body of a queue's entry, as it is sent to a connection.
abbrev pub framed : ConnectionId → ℕ × Octets → RoutedMessage
framed d (seq, body) = route d (ServerMessage.frame seq body)

delivered_to-delivery :
    (d : ConnectionId) (who : Membership) (q : List (ℕ × Octets))
    → delivered_to d (map (delivery who) q) ≡ map (framed d) q
unfolding delivered_to
delivered_to-delivery d who [] = refl
delivered_to-delivery d who ((seq, body) ∷ q) = ground (arith, delivered_to-delivery d who q)

module _ {S : Type 0} (env : RelayEnv S) where
  -- `open` in a service: the deliveries, in order.
  answered-open :
      (s : RelayService S) (d : ConnectionId) (now : ℕ) (r : RelayRandomness) (id token : Octets)
      (who : Membership) (m : Mailbox) (p : MemberState)
      → (env.store.put s.store m).1 ≡ ok tt
      → IsSound env.sha256 s
      → is_bound (lookup d s.connections) ≡ true
      → lookup id s.mailboxes ≡ some m
      → is_terminal m.status ≡ false
      → now < m.expires_at
      → member m who ≡ some p
      → env.sha256 token ≡ p.hash
      → s.config.capacity.queue_bytes < u64_mod
      → answered env s d now r (ClientMessage.open_member id token) ≡ (
        attach (replaced env s id m m) d (record { mailbox_id = id; membership = who }),
        ok (map (framed d) (queue m (peer who))),
      )
  unfolding answered dispatch open_mailbox after_open opened_or_closed opened_membership
      delivered_to
  answered-open s d now r id token who m p accepts h there e live early mine hash word =
      let v = h.accounted.valid id m e in
      let held = fits-queue env s id m h e in
      rw
        (
          there,
          e,
          open_mailbox,
          hash,
          open_delivers env.sha256 m who p now v live early mine,
          commit-replaced env s id m m
              (MailboxEffect.opened who m.expires_at ∷ map (delivery who) (queue m (peer who))) e
              accepts held (omega (arith, held, h.budget)),
          delivered_to-delivery d who (queue m (peer who)),
        )
        refl

  handle-open :
      (s : RelayService S) (d : ConnectionId) (address : Octets) (now : ℕ) (r : RelayRandomness)
      (id token : Octets) (who : Membership) (m : Mailbox) (p : MemberState) (k : ℕ)
      → (env.store.put s.store m).1 ≡ ok tt
      → IsSound env.sha256 s
      → is_bound (lookup d s.connections) ≡ true
      → lookup id s.mailboxes ≡ some m
      → is_terminal m.status ≡ false
      → now < m.expires_at
      → member m who ≡ some p
      → env.sha256 token ≡ p.hash
      → s.config.capacity.queue_bytes < u64_mod
      → (check env.peers s.limiter Operation.open_member address now).1
        ≡ ok (LimitDecision.allowed k)
      → (handle env s d address now r (ClientMessage.open_member id token)).1
        ≡ ok (map (framed d) (queue m (peer who)))
  unfolding operation finish
  handle-open s d address now r id token who m p k accepts h there e live early mine hash word
        allowed =
      let message = ClientMessage.open_member id token in
      rw
        (handle-admitted env s _ d address now r message k _ allowed (
          answered-open (admitted env s d address now message) d now r id token who m p accepts
            (record {
              routed = h.routed;
              accounted = h.accounted;
              bounded = h.bounded;
              budget = h.budget;
              named = h.named;
            })
            there e live early mine hash word))
        refl

-- The mailbox that a put leaves, as an opening reads it.
stored_put-same :
    (sha256 : Octets → Octets) (m : Mailbox) (sender : Membership) (u : MemberState) (body : Octets)
    → ((stored_put sha256 m sender u body).status ≡ m.status)
      × ((stored_put sha256 m sender u body).expires_at ≡ m.expires_at)
      × (member (stored_put sha256 m sender u body) (peer sender) ≡ member m (peer sender))
stored_put-same sha256 m Membership.allocator u body = (refl, refl, refl)
stored_put-same sha256 m Membership.claimant u body = (refl, refl, refl)

peer-peer : (who : Membership) → peer (peer who) ≡ who
peer-peer Membership.allocator = refl
peer-peer Membership.claimant = refl

-- The next body of a member of a live mailbox, as in `put_routed`, and then an opening of the
-- mailbox by a bound connection that has the peer's token.
module _ {S : Type 0} (env : RelayEnv S) (alive : IsTotal env.store) (s : RelayService S)
    (c : ConnectionId) (address : Octets) (now : ℕ) (r : RelayRandomness) (id : Octets)
    (sender : Membership) (m : Mailbox) (u : MemberState) (body : Octets) (k : ℕ)
    (accepts : (env.store.put s.store (stored_put env.sha256 m sender u body)).1 ≡ ok tt)
    (h : IsSound env.sha256 s)
    (here : lookup c s.connections
      ≡ some (record {
        bound = true;
        membership = some (record { mailbox_id = id; membership = sender });
      }))
    (e : lookup id s.mailboxes ≡ some m) (live : is_terminal m.status ≡ false)
    (early : now < m.expires_at) (who : member m sender ≡ some u) (pos : 0 < length body)
    (bound : length body ≤ max_frame_body_bytes) (room : u.next_seq < max_frames_per_membership)
    (fits : s.queue_bytes + length body ≤ s.config.capacity.queue_bytes)
    (word : s.config.capacity.queue_bytes < u64_mod)
    (allowed : (check env.peers s.limiter Operation.put address now).1
      ≡ ok (LimitDecision.allowed k))
    (p : MemberState) (d : ConnectionId) (origin : Octets) (later : ℕ) (dice : RelayRandomness)
    (token : Octets) (left : ℕ) where
  -- The service that the put leaves.
  abbrev pub after_put : RelayService S
  after_put = (handle env s c address now r (ClientMessage.put u.next_seq body)).0

  abbrev placed : Mailbox
  placed = stored_put env.sha256 m sender u body

  after_put-same :
      (lookup id after_put.mailboxes ≡ some placed)
      × (after_put.connections ≡ s.connections)
      × (after_put.config ≡ s.config)
  unfolding finish
  after_put-same =
      let same =
        handle-put env s c address now r id sender m u body k accepts h here e live early who pos
          bound room fits word allowed in
      (
        ap (λ step. lookup id step.0.mailboxes) same
            ∙ (rw (lookup-insert id id placed s.mailboxes) (ground (arith, octets_beq_self id))),
        ap (λ step. step.0.connections) same,
        ap (λ step. step.0.config) same,
      )

  -- In a sound service (as every one is that the program can produce over a store that does not
  -- panic and starts from well-formed mailboxes), whose capacity for queued bytes is below
  -- 2^64: if a bound connection that is a member of a live mailbox puts its next body before
  -- the expiry, of a size in range and after fewer than 16 others, there is room for it in the
  -- queues, the limiter admits the put, and the store accepts the mailbox with the new body;
  -- and if the peer had joined before, the store does not panic, and the very next call is the
  -- opening of the mailbox by a bound connection with the peer's token, before the expiry,
  -- admitted by the limiter, and the store accepts the same mailbox again: then that call is
  -- answered with exactly the unacknowledged bodies of the member, in order, and the new one
  -- last.
  pub put_reaches :
      (env.store.put after_put.store (stored_put env.sha256 m sender u body)).1 ≡ ok tt
      → member m (peer sender) ≡ some p
      → is_bound (lookup d s.connections) ≡ true
      → later < m.expires_at
      → env.sha256 token ≡ p.hash
      → (check env.peers after_put.limiter Operation.open_member origin later).1
        ≡ ok (LimitDecision.allowed left)
      → (handle env after_put d origin later dice (ClientMessage.open_member id token)).1
        ≡ ok (map (framed d) (queue m sender ++ ((u.next_seq, body) ∷ [])))
  put_reaches again joined there soon hash passes =
      let (found, same_connections, same_config) = after_put-same in
      let (status, expiry, other) = stored_put-same env.sha256 m sender u body in
      handle-open env after_put d origin later dice id token (peer sender) placed p left again
        (Keeps-IsSound env.sha256 _
          (handle-Keeps env alive s c address now r (ClientMessage.put u.next_seq body) h))
        (rw same_connections there) found (rw status live) (rw expiry soon) (other ∙ joined) hash
        (rw same_config word) passes
      ∙ ap (λ q. ok (map (framed d) q))
          (rw (peer-peer sender) (stored_put-queue env.sha256 m sender u body who))
