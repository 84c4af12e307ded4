-- ===== src/Relay/Serving.antt =====
-- src/relay.rs: `handle` keeps the service sound.
use cbcl_pairing.Common.{
  ℕ, Octets, octets_ordered, nat_ordered, pair_ordered, ◌≡◌, refl, sym, ◌∙◌, ◌≢◌, List, [], ◌∷◌,
  true, not, lookup, insert, lookup-insert, ==-iff, ok, err, panic, arith,
}
use cbcl_pairing.Wire.{ClientMessage, ServerMessage}
use cbcl_pairing.Limiter.{LimitDecision, operation_ordered, Operation}
use cbcl_pairing.Observability.{RelayOutcome}
use cbcl_pairing.Limiter.Admit.{Answer}
use cbcl_pairing.Limiter.Check.{check}
use cbcl_pairing.Relay.{ConnectionId, RelayEnv, RelayRandomness, RelayService, RoutedMessage}
use cbcl_pairing.Relay.Messages.{route, actor_outcome, operation}
use cbcl_pairing.Relay.Attaching.{or_default}
use cbcl_pairing.Relay.Allocating.{Reply, refuse}
use cbcl_pairing.Relay.Handling.{
  answered, bind, dispatch, finish, handle, handle_checked, is_bound, refresh_gauges,
}
use cbcl_pairing.Relay.Routing.{key_of}
use cbcl_pairing.Relay.Members.{MailboxCommandKind}
use cbcl_pairing.Relay.Soundness.{IsSound, IsTotal, Keeps, and_then-Keeps}
use cbcl_pairing.Relay.Committed.{if-Keeps}
use cbcl_pairing.Relay.Preserving.{
  claim-Keeps, claim_v2-Keeps, member_command-Keeps, open_mailbox-Keeps,
}
use cbcl_pairing.Relay.Enrolling.{allocate-Keeps, allocate_v2-Keeps}
use cbcl_pairing.Limiter.Answering.{check-IsAlive}

module _ {S : Type 0} (env : RelayEnv S) (alive : IsTotal env.store) where
  abbrev Sound : RelayService S → Type 0
  Sound = IsSound env.sha256

  abbrev KeepsAll : Reply S → Type 0
  KeepsAll = Keeps env.sha256

  key_of-bind :
      (s : RelayService S) (c d : ConnectionId)
      → key_of d
          (insert c (record (or_default (lookup c s.connections)) { bound = true }) s.connections)
        ≡ key_of d s.connections
  key_of-bind s c d =
      let binding = record (or_default (lookup c s.connections)) { bound = true } in
      ground (arith, lookup-insert d c binding s.connections, ==-iff d c)

  bind-Keeps : (s : RelayService S) (c : ConnectionId) → Sound s → KeepsAll (bind s c)
  unfolding bind
  bind-Keeps s c h = record {
    routed = record {
      forth = λ k d found. key_of-bind s c d ∙ h.routed.forth k d found;
      back = λ k d found. h.routed.back k d (sym (key_of-bind s c d) ∙ found);
    };
    accounted = h.accounted;
    bounded = h.bounded;
    budget = h.budget;
    named = h.named;
  }

  dispatch-Keeps :
      (s : RelayService S) (c : ConnectionId) (now : ℕ) (r : RelayRandomness) (m : ClientMessage)
      → m ≢ ClientMessage.bind
      → Sound s
      → KeepsAll (dispatch env s c now r m)
  unfolding dispatch
  dispatch-Keeps s c now r ClientMessage.bind n h = elim (n refl) [ ]
  dispatch-Keeps s c now r (ClientMessage.allocate mode ttl) n h =
      allocate-Keeps env alive s c now r mode ttl h
  dispatch-Keeps s c now r (ClientMessage.claim locator) n h =
      claim-Keeps env alive s c now r.membership_token locator h
  dispatch-Keeps s c now r (ClientMessage.allocate_v2 id commitment ttl) n h =
      allocate_v2-Keeps env alive s c now r.membership_token id commitment ttl h
  dispatch-Keeps s c now r (ClientMessage.claim_v2 id token) n h =
      claim_v2-Keeps env alive s c now r.membership_token id token h
  dispatch-Keeps s c now r (ClientMessage.open_member id token) n h =
      open_mailbox-Keeps env alive s c now id token h
  dispatch-Keeps s c now r (ClientMessage.put seq body) n h =
      member_command-Keeps env alive s c now (MailboxCommandKind.put_frame seq body) h
  dispatch-Keeps s c now r (ClientMessage.ack seq) n h =
      member_command-Keeps env alive s c now (MailboxCommandKind.ack_frame seq) h
  dispatch-Keeps s c now r ClientMessage.close n h =
      member_command-Keeps env alive s c now MailboxCommandKind.close_mailbox h
  dispatch-Keeps s c now r ClientMessage.ping n h = h

  answered-Keeps :
      (s : RelayService S) (c : ConnectionId) (now : ℕ) (r : RelayRandomness) (m : ClientMessage)
      → Sound s
      → KeepsAll (answered env s c now r m)
  unfolding answered
  answered-Keeps s c now r ClientMessage.bind h = bind-Keeps s c h
  answered-Keeps s c now r m h =
      if-Keeps env alive (not (is_bound (lookup c s.connections))) (refuse s c 400) _ h
        (dispatch-Keeps s c now r m (ground arith) h)

  finish-Keeps :
      (s : RelayService S) (o : Operation) (outcome : RelayOutcome) (sent : List RoutedMessage)
      → Sound s
      → KeepsAll (finish s o outcome sent)
  unfolding finish refresh_gauges
  finish-Keeps s o outcome sent h = record {
    routed = h.routed;
    accounted = h.accounted;
    bounded = h.bounded;
    budget = h.budget;
    named = h.named;
  }

  handle_checked-Keeps :
      (s : RelayService S) (c : ConnectionId) (now : ℕ) (r : RelayRandomness) (m : ClientMessage)
      (answer : Answer)
      → Sound s
      → answer ≢ panic
      → KeepsAll (handle_checked env s c now r m answer)
  unfolding handle_checked
  handle_checked-Keeps s c now r m (ok (LimitDecision.allowed remaining)) h n =
      and_then-Keeps env.sha256 (answered env s c now r m)
        (λ s' sent. finish s' (operation m) (actor_outcome c sent) sent)
        (answered-Keeps s c now r m h)
        (λ s' sent h'. finish-Keeps s' (operation m) (actor_outcome c sent) sent h')
  handle_checked-Keeps s c now r m (ok (LimitDecision.cooldown retry_at)) h n =
      finish-Keeps s (operation m) RelayOutcome.rate_limited
        (route c (ServerMessage.error 429) ∷ []) h
  handle_checked-Keeps s c now r m (err x) h n = h
  handle_checked-Keeps s c now r m panic h n = n refl

  pub handle-Keeps :
      (s : RelayService S) (c : ConnectionId) (address : Octets) (now : ℕ) (r : RelayRandomness)
      (m : ClientMessage)
      → Sound s
      → KeepsAll (handle env s c address now r m)
  unfolding handle
  handle-Keeps s c address now r m h =
      let (checked, answer) = check env.peers s.limiter (operation m) address now in
      handle_checked-Keeps (record s { limiter = checked }) c now r m answer
        (record {
          routed = h.routed;
          accounted = h.accounted;
          bounded = h.bounded;
          budget = h.budget;
          named = h.named;
        })
        (check-IsAlive env.peers s.limiter (operation m) address now)
