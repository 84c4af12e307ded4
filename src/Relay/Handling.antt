-- ===== src/Relay/Handling.antt =====
-- src/relay.rs: `handle`, `finish` and `refresh_gauges`.
use cbcl_pairing.Common.{
  ℕ, nat_ordered, Octets, List, [], ◌∷◌, Option, none, some, Bool, false, true, not, if◌then◌else◌,
  length, lookup, insert, ok, err, panic,
}
use cbcl_pairing.Wire.{ClientMessage, ServerMessage}
use cbcl_pairing.Limiter.{LimitDecision, Operation}
use cbcl_pairing.Limiter.Admit.{Answer}
use cbcl_pairing.Limiter.Check.{check}
use cbcl_pairing.Observability.{RelayOutcome, record_operation, set_gauges}
use cbcl_pairing.Relay.{
  ConnectionId, ConnectionState, RelayEnv, RelayError, RelayRandomness, RelayService, RoutedMessage,
}
use cbcl_pairing.Relay.Messages.{actor_outcome, operation, route}
use cbcl_pairing.Relay.Attaching.{and_then, or_default}
use cbcl_pairing.Relay.Allocating.{Reply, reply, refuse, allocate, allocate_v2}
use cbcl_pairing.Relay.Claiming.{claim, claim_v2, open_mailbox}
use cbcl_pairing.Relay.Members.{MailboxCommandKind, member_command}

abbrev pub is_bound : Option ConnectionState → Bool
is_bound none = false
is_bound (some state) = state.bound

module _ {S : Type 0} where
  unfoldable pub refresh_gauges : RelayService S → RelayService S
  refresh_gauges s = record s {
    observability = set_gauges s.observability (record {
      open_mailboxes = length s.mailboxes;
      queue_bytes = s.queue_bytes;
      limiter_entries = length s.limiter.entries;
      limiter_clock_reversals = s.limiter.clock_reversals;
    });
  }

  unfoldable pub finish : RelayService S → Operation → RelayOutcome → List RoutedMessage → Reply S
  unfolding refresh_gauges
  finish s operation outcome messages =
      let (counted, event) = record_operation s.observability operation outcome in
      (refresh_gauges (record s { observability = counted; last_log = some event }), ok messages)

  unfoldable pub bind : RelayService S → ConnectionId → Reply S
  bind s connection =
      reply
        (record s {
          connections =
              insert connection
                (record (or_default (lookup connection s.connections)) { bound = true })
                s.connections;
        })
        connection ServerMessage.welcome

  -- The `match message` of `handle`. `bind` is handled before it.
  unfoldable pub dispatch :
      RelayEnv S → RelayService S → ConnectionId → ℕ → RelayRandomness → ClientMessage → Reply S
  dispatch env s connection now r ClientMessage.bind = (s, panic)
  dispatch env s connection now r (ClientMessage.allocate locator_mode ttl) =
      allocate env s connection now r locator_mode ttl
  dispatch env s connection now r (ClientMessage.claim locator) =
      claim env s connection now r.membership_token locator
  dispatch env s connection now r (ClientMessage.allocate_v2 id commitment ttl) =
      allocate_v2 env s connection now r.membership_token id commitment ttl
  dispatch env s connection now r (ClientMessage.claim_v2 id token) =
      claim_v2 env s connection now r.membership_token id token
  dispatch env s connection now r (ClientMessage.open_member id token) =
      open_mailbox env s connection now id token
  dispatch env s connection now r (ClientMessage.put seq body) =
      member_command env s connection now (MailboxCommandKind.put_frame seq body)
  dispatch env s connection now r (ClientMessage.ack peer_seq) =
      member_command env s connection now (MailboxCommandKind.ack_frame peer_seq)
  dispatch env s connection now r ClientMessage.close =
      member_command env s connection now MailboxCommandKind.close_mailbox
  dispatch env s connection now r ClientMessage.ping = reply s connection ServerMessage.pong

  unfoldable pub answered :
      RelayEnv S → RelayService S → ConnectionId → ℕ → RelayRandomness → ClientMessage → Reply S
  unfolding bind dispatch
  answered env s connection now r ClientMessage.bind = bind s connection
  answered env s connection now r message =
      if not (is_bound (lookup connection s.connections))
      then refuse s connection 400
      else dispatch env s connection now r message

  unfoldable pub handle_checked :
      RelayEnv S
      → RelayService S
      → ConnectionId
      → ℕ
      → RelayRandomness
      → ClientMessage
      → Answer
      → Reply S
  unfolding answered finish
  handle_checked env s connection now r message (ok (LimitDecision.allowed remaining)) =
      and_then (answered env s connection now r message)
        (λ s' messages. finish s' (operation message) (actor_outcome connection messages) messages)
  handle_checked env s connection now r message (ok (LimitDecision.cooldown retry_at)) =
      finish s (operation message) RelayOutcome.rate_limited
        (route connection (ServerMessage.error 429) ∷ [])
  handle_checked env s connection now r message (err e) = (s, err RelayError.limiter)
  handle_checked env s connection now r message panic = (s, panic)

  unfoldable pub handle :
      RelayEnv S
      → RelayService S
      → ConnectionId
      → Octets
      → ℕ
      → RelayRandomness
      → ClientMessage
      → Reply S
  unfolding handle_checked
  handle env s connection address now r message =
      let (checked, answer) = check env.peers s.limiter (operation message) address now in
      handle_checked env (record s { limiter = checked }) connection now r message answer
