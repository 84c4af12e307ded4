-- ===== src/Relay/Messages.antt =====
-- src/relay.rs: what is said to the connections, and how an outcome is told from it.
use cbcl_pairing.Common.{
  ℕ, Octets, octets_ordered, ◌==◌, nat_beq, List, [], ◌∷◌, find, any, Option, none, some, Bool,
  true, false, ◌&&◌, if◌then◌else◌,
}
use cbcl_pairing.Wire.{CloseReason, ClientMessage, ServerMessage}
use cbcl_pairing.Limiter.{Operation}
use cbcl_pairing.Mailbox.{Membership, MailboxEffect, MailboxError, wire_code}
use cbcl_pairing.Observability.{RelayOutcome}
use cbcl_pairing.Relay.{ConnectionId, RoutedMessage, SessionMembership, RouteKey}

unfoldable pub operation : ClientMessage → Operation
operation ClientMessage.bind = Operation.bind
operation (ClientMessage.allocate mode ttl) = Operation.allocate
operation (ClientMessage.claim locator) = Operation.claim
operation (ClientMessage.allocate_v2 id commitment ttl) = Operation.allocate
operation (ClientMessage.claim_v2 id token) = Operation.claim
operation (ClientMessage.open_member id token) = Operation.open_member
operation (ClientMessage.put seq body) = Operation.put
operation (ClientMessage.ack peer_seq) = Operation.ack
operation ClientMessage.close = Operation.close
operation ClientMessage.ping = Operation.ping

abbrev pub token_hash : (Octets → Octets) → Octets → Octets
token_hash sha256 token = sha256 token

abbrev pub side_number : Membership → ℕ
side_number Membership.allocator = 0
side_number Membership.claimant = 1

abbrev pub route_key : SessionMembership → RouteKey
route_key m = (m.mailbox_id, side_number m.membership)

abbrev pub route : ConnectionId → ServerMessage → RoutedMessage
route connection message = record { connection = connection; message = message }

unfoldable pub mailbox_error : MailboxError → ServerMessage
unfolding wire_code
mailbox_error (MailboxError.closed reason) = ServerMessage.closed reason
mailbox_error e = ServerMessage.error (wire_code e)

-- The outcome of the message that goes back to the acting connection.
abbrev pub error_outcome : ℕ → RelayOutcome
error_outcome code =
    if nat_beq code 404
    then RelayOutcome.not_found
    else if nat_beq code 409
    then RelayOutcome.conflict
    else if nat_beq code 413
    then RelayOutcome.too_large
    else if nat_beq code 429
    then RelayOutcome.rate_limited
    else if nat_beq code 503
    then RelayOutcome.unavailable
    else RelayOutcome.invalid

abbrev pub message_outcome : Option RoutedMessage → RelayOutcome
message_outcome none = RelayOutcome.success
message_outcome (some m) = elim m.message [
  | ServerMessage.error code ↦ error_outcome code
  | ServerMessage.closed CloseReason.closed ↦ RelayOutcome.closed
  | ServerMessage.closed CloseReason.crowded ↦ RelayOutcome.crowded
  | ServerMessage.closed CloseReason.expired ↦ RelayOutcome.expired
  | ServerMessage.closed CloseReason.conflict ↦ RelayOutcome.conflict
  | _ ↦ RelayOutcome.success
]

unfoldable pub actor_outcome : ConnectionId → List RoutedMessage → RelayOutcome
actor_outcome connection messages =
    message_outcome (find (λ m. nat_beq m.connection connection) messages)

-- `==` of messages, derived.
abbrev pub reason_number : CloseReason → ℕ
reason_number CloseReason.closed = 0
reason_number CloseReason.crowded = 1
reason_number CloseReason.expired = 2
reason_number CloseReason.conflict = 3

abbrev pub same_nameplate : Option ℕ → Option ℕ → Bool
same_nameplate none none = true
same_nameplate (some m) (some n) = nat_beq m n
same_nameplate _ _ = false

unfoldable pub same_message : ServerMessage → ServerMessage → Bool
same_message ServerMessage.welcome ServerMessage.welcome = true
same_message (ServerMessage.allocated i t p e) (ServerMessage.allocated j u q f) =
    i == j && (t == u && (same_nameplate p q && nat_beq e f))
same_message (ServerMessage.claimed i t e) (ServerMessage.claimed j u f) =
    i == j && (t == u && nat_beq e f)
same_message (ServerMessage.allocated_v2 i t e) (ServerMessage.allocated_v2 j u f) =
    i == j && (t == u && nat_beq e f)
same_message (ServerMessage.claimed_v2 i t e) (ServerMessage.claimed_v2 j u f) =
    i == j && (t == u && nat_beq e f)
same_message (ServerMessage.frame s b) (ServerMessage.frame r c) = nat_beq s r && b == c
same_message (ServerMessage.acknowledged s) (ServerMessage.acknowledged r) = nat_beq s r
same_message (ServerMessage.closed p) (ServerMessage.closed q) =
    nat_beq (reason_number p) (reason_number q)
same_message (ServerMessage.error m) (ServerMessage.error n) = nat_beq m n
same_message ServerMessage.pong ServerMessage.pong = true
same_message _ _ = false

abbrev pub same_routed : RoutedMessage → RoutedMessage → Bool
same_routed m n = nat_beq m.connection n.connection && same_message m.message n.message

-- The loop of `deduplicate_routes`, with what it has kept so far.
abbrev pub appended : List RoutedMessage → RoutedMessage → List RoutedMessage
appended [] m = m ∷ []
appended (n ∷ ns) m = n ∷ appended ns m

unfoldable pub deduplicate_onto : List RoutedMessage → List RoutedMessage → List RoutedMessage
deduplicate_onto result [] = result
deduplicate_onto result (m ∷ ms) =
    deduplicate_onto (if any (λ n. same_routed n m) result then result else appended result m) ms

unfoldable pub deduplicate_routes : List RoutedMessage → List RoutedMessage
unfolding deduplicate_onto
deduplicate_routes messages = deduplicate_onto [] messages

-- `effects.iter().find_map`, for the effects that the commands look for.
unfoldable pub claimed_expiry : List MailboxEffect → Option ℕ
claimed_expiry [] = none
claimed_expiry (MailboxEffect.claimed m expires_at ∷ es) = some expires_at
claimed_expiry (e ∷ es) = claimed_expiry es

unfoldable pub terminal_reason : List MailboxEffect → Option CloseReason
terminal_reason [] = none
terminal_reason (MailboxEffect.terminal reason ∷ es) = some reason
terminal_reason (e ∷ es) = terminal_reason es

unfoldable pub opened_membership : List MailboxEffect → Option Membership
opened_membership [] = none
opened_membership (MailboxEffect.opened m expires_at ∷ es) = some m
opened_membership (e ∷ es) = opened_membership es

-- The deliveries of an `open`, to the connection that opened.
unfoldable pub delivered_to : ConnectionId → List MailboxEffect → List RoutedMessage
delivered_to connection [] = []
delivered_to connection (MailboxEffect.deliver recipient peer_seq body ∷ es) =
    route connection (ServerMessage.frame peer_seq body) ∷ delivered_to connection es
delivered_to connection (e ∷ es) = delivered_to connection es

-- Is there a `Stored` effect for this sequence number?
unfoldable pub stored_at : ℕ → List MailboxEffect → Bool
stored_at seq [] = false
stored_at seq (MailboxEffect.stored sender stored replay ∷ es) =
    if nat_beq stored seq then true else stored_at seq es
stored_at seq (e ∷ es) = stored_at seq es
