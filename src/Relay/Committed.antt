-- ===== src/Relay/Committed.antt =====
-- src/relay.rs: what a command does after the mailbox answers keeps the service sound.
use cbcl_pairing.Common.{
  ℕ, arith, Octets, octets_ordered, nat_ordered, true, false, ok, err, panic, ◌≡◌, refl, List,
  Option, none, some, Bool, ltb, if◌then◌else◌, lookup,
}
use cbcl_pairing.Wire.{CloseReason, ServerMessage}
use cbcl_pairing.Mailbox.{Membership, Mailbox, MailboxTransition}
use cbcl_pairing.Mailbox.Terminal.{Attempt}
use cbcl_pairing.Relay.{ConnectionId, RelayEnv, RelayService, RoutedMessage}
use cbcl_pairing.Relay.Attaching.{and_then}
use cbcl_pairing.Relay.Committing.{bytes_of, commit, projected_queue_bytes}
use cbcl_pairing.Relay.Allocating.{Reply, refuse}
use cbcl_pairing.Relay.Claiming.{
  after_claim, after_claim_v2, after_open, claimed_or_closed, claimed_v2_or_refused, closed_for,
  joined, opened_or_closed,
}
use cbcl_pairing.Relay.Members.{MailboxCommandKind, after_command}
use cbcl_pairing.Relay.Soundness.{IsSound, IsTotal, Keeps, and_then-Keeps, attach-IsSound}
use cbcl_pairing.Relay.Keeping.{Affords, Calms, Follows, calm-Affords, commit-Keeps}

module _ {S : Type 0} (env : RelayEnv S) (alive : IsTotal env.store) where
  abbrev Sound : RelayService S → Type 0
  Sound = IsSound env.sha256

  abbrev KeepsAll : Reply S → Type 0
  KeepsAll = Keeps env.sha256

  pub if-Keeps :
      (b : Bool) (x y : Reply S) → KeepsAll x → KeepsAll y → KeepsAll (if b then x else y)
  if-Keeps true x y h g = h
  if-Keeps false x y h g = g

  pub if_not-Keeps :
      (b : Bool) (x y : Reply S)
      → KeepsAll x
      → (b ≡ false → KeepsAll y)
      → KeepsAll (if b then x else y)
  if_not-Keeps true x y h g = h
  if_not-Keeps false x y h g = g refl

  closed_for-Keeps :
      (s : RelayService S) (c : ConnectionId) (id : Octets) (o : Option CloseReason)
      → Sound s
      → KeepsAll (closed_for s c id o)
  unfolding closed_for
  closed_for-Keeps s c id none h = h
  closed_for-Keeps s c id (some reason) h = h

  joined-Keeps :
      (s : RelayService S) (c : ConnectionId) (id : Octets) (message : ServerMessage)
      → Sound s
      → KeepsAll (joined s c id message)
  unfolding joined
  joined-Keeps s c id message h = attach-IsSound env.sha256 s c _ h

  claimed_or_closed-Keeps :
      (s : RelayService S) (c : ConnectionId) (id token : Octets) (o : Option ℕ)
      (reason : Option CloseReason)
      → Sound s
      → KeepsAll (claimed_or_closed s c id token o reason)
  unfolding claimed_or_closed
  claimed_or_closed-Keeps s c id token none reason h = closed_for-Keeps s c id reason h
  claimed_or_closed-Keeps s c id token (some at) reason h =
      joined-Keeps s c id (ServerMessage.claimed id token at) h

  claimed_v2_or_refused-Keeps :
      (s : RelayService S) (c : ConnectionId) (id token : Octets) (o : Option ℕ)
      → Sound s
      → KeepsAll (claimed_v2_or_refused s c id token o)
  unfolding claimed_v2_or_refused
  claimed_v2_or_refused-Keeps s c id token none h = h
  claimed_v2_or_refused-Keeps s c id token (some at) h =
      joined-Keeps s c id (ServerMessage.claimed_v2 id token at) h

  opened_or_closed-Keeps :
      (s : RelayService S) (c : ConnectionId) (id : Octets) (sent : List RoutedMessage)
      (o : Option Membership) (reason : Option CloseReason)
      → Sound s
      → KeepsAll (opened_or_closed s c id sent o reason)
  unfolding opened_or_closed
  opened_or_closed-Keeps s c id sent none reason h = closed_for-Keeps s c id reason h
  opened_or_closed-Keeps s c id sent (some member) reason h = attach-IsSound env.sha256 s c _ h

  -- A step that commits a transition of a mailbox, and then keeps the service sound.
  committed-Keeps :
      (s : RelayService S) (id : Octets) (m : Mailbox) (t : MailboxTransition)
      (f : RelayService S → Unit {0} → Reply S)
      → Sound s
      → lookup id s.mailboxes ≡ some m
      → Follows env.sha256 m (ok t)
      → Affords s m.queue_bytes (bytes_of t.state)
      → ((s' : RelayService S) → Sound s' → KeepsAll (f s' tt))
      → KeepsAll (and_then (commit env s id t) f)
  committed-Keeps s id m t f h e n fits g =
      and_then-Keeps env.sha256 (commit env s id t) f
        (commit-Keeps env.sha256 env s id m t alive h e n fits) (λ s' u h'. g s' h')

  pub after_claim-Keeps :
      (s : RelayService S) (c : ConnectionId) (id token : Octets) (m : Mailbox) (a : Attempt)
      → Sound s
      → lookup id s.mailboxes ≡ some m
      → Follows env.sha256 m a
      → Calms m a
      → KeepsAll (after_claim env s c id token a)
  unfolding after_claim
  after_claim-Keeps s c id token m (ok t) h e n q =
      committed-Keeps s id m t _ h e n (calm-Affords env.sha256 s id m _ h e q)
        (λ s' h'. claimed_or_closed-Keeps s' c id token _ _ h')
  after_claim-Keeps s c id token m (err x) h e n q = h
  after_claim-Keeps s c id token m panic h e n q = n

  pub after_claim_v2-Keeps :
      (s : RelayService S) (c : ConnectionId) (id token : Octets) (m : Mailbox) (a : Attempt)
      → Sound s
      → lookup id s.mailboxes ≡ some m
      → Follows env.sha256 m a
      → Calms m a
      → KeepsAll (after_claim_v2 env s c id token a)
  unfolding after_claim_v2
  after_claim_v2-Keeps s c id token m (ok t) h e n q =
      committed-Keeps s id m t _ h e n (calm-Affords env.sha256 s id m _ h e q)
        (λ s' h'. claimed_v2_or_refused-Keeps s' c id token _ h')
  after_claim_v2-Keeps s c id token m (err x) h e n q = h
  after_claim_v2-Keeps s c id token m panic h e n q = n

  pub after_open-Keeps :
      (s : RelayService S) (c : ConnectionId) (id : Octets) (m : Mailbox) (a : Attempt)
      → Sound s
      → lookup id s.mailboxes ≡ some m
      → Follows env.sha256 m a
      → Calms m a
      → KeepsAll (after_open env s c id a)
  unfolding after_open
  after_open-Keeps s c id m (ok t) h e n q =
      committed-Keeps s id m t _ h e n (calm-Affords env.sha256 s id m _ h e q)
        (λ s' h'. opened_or_closed-Keeps s' c id _ _ _ h')
  after_open-Keeps s c id m (err x) h e n q = h
  after_open-Keeps s c id m panic h e n q = n

  projected-Affords :
      (s : RelayService S) (id : Octets) (m : Mailbox) (t : MailboxTransition)
      → lookup id s.mailboxes ≡ some m
      → ltb s.config.capacity.queue_bytes (projected_queue_bytes s id t) ≡ false
      → Affords s m.queue_bytes (bytes_of t.state)
  unfolding projected_queue_bytes
  projected-Affords s id m t e room = ground (arith, e, room)

  pub after_command-Keeps :
      (s : RelayService S) (c : ConnectionId) (id : Octets) (kind : MailboxCommandKind)
      (m : Mailbox) (a : Attempt)
      → Sound s
      → lookup id s.mailboxes ≡ some m
      → Follows env.sha256 m a
      → KeepsAll (after_command env s c id kind a)
  unfolding after_command
  after_command-Keeps s c id kind m (ok t) h e n =
      if_not-Keeps (ltb s.config.capacity.queue_bytes (projected_queue_bytes s id t))
        (refuse s c 503) _ h
        (λ room. committed-Keeps s id m t _ h e n (projected-Affords s id m t e room) (λ s' h'. h'))
  after_command-Keeps s c id kind m (err x) h e n = h
  after_command-Keeps s c id kind m panic h e n = n
