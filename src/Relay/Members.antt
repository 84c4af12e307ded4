-- ===== src/Relay/Members.antt =====
-- src/relay.rs: `member_command`, which applies `put`, `ack` and `close` of a member.
use cbcl_pairing.Common.{
  ℕ, Octets, octets_ordered, nat_ordered, pair_ordered, List, [], ◌∷◌, ◌++◌, Option, none, some,
  ltb, if◌then◌else◌, lookup, ok, err, panic,
}
use cbcl_pairing.Wire.{ServerMessage}
use cbcl_pairing.Mailbox.{Membership, MailboxCommand, MailboxEffect}
use cbcl_pairing.Mailbox.Terminal.{Attempt}
use cbcl_pairing.Mailbox.Step.{transition}
use cbcl_pairing.Relay.{ConnectionId, RelayEnv, RelayService, RoutedMessage, SessionMembership}
use cbcl_pairing.Relay.Messages.{mailbox_error, route, side_number, stored_at, deduplicate_routes}
use cbcl_pairing.Relay.Attaching.{and_then, membership_of, terminal_routes}
use cbcl_pairing.Relay.Committing.{commit, projected_queue_bytes}
use cbcl_pairing.Relay.Allocating.{Reply, reply, refuse}

pub data MailboxCommandKind : Type 0 where
  put_frame : (seq : ℕ) (body : Octets) → MailboxCommandKind
  ack_frame : (peer_seq : ℕ) → MailboxCommandKind
  close_mailbox : MailboxCommandKind

unfoldable pub mailbox_command : Membership → MailboxCommandKind → MailboxCommand
mailbox_command sender (MailboxCommandKind.put_frame seq body) = MailboxCommand.put sender seq body
mailbox_command sender (MailboxCommandKind.ack_frame peer_seq) = MailboxCommand.ack sender peer_seq
mailbox_command sender MailboxCommandKind.close_mailbox = MailboxCommand.close sender

-- A `put` that was stored is acknowledged to its sender; an `ack` is confirmed by silence.
unfoldable pub acknowledgements :
    ConnectionId → MailboxCommandKind → List MailboxEffect → List RoutedMessage
acknowledgements connection (MailboxCommandKind.put_frame seq body) effects =
    if stored_at seq effects then route connection (ServerMessage.acknowledged seq) ∷ [] else []
acknowledgements connection _ effects = []

-- To the connection that is there for the recipient, if there is one.
abbrev pub frame_to : Option ConnectionId → ℕ → Octets → List RoutedMessage
frame_to none peer_seq body = []
frame_to (some connection) peer_seq body = route connection (ServerMessage.frame peer_seq body) ∷ []

module _ {S : Type 0} where
  unfoldable pub effect_routes : RelayService S → Octets → List MailboxEffect → List RoutedMessage
  effect_routes s id [] = []
  effect_routes s id (MailboxEffect.deliver recipient peer_seq body ∷ es) =
      frame_to (lookup (id, side_number recipient) s.routes) peer_seq body ++ effect_routes s id es
  effect_routes s id (MailboxEffect.terminal reason ∷ es) =
      terminal_routes s id reason ++ effect_routes s id es
  effect_routes s id (e ∷ es) = effect_routes s id es

  unfoldable pub after_command :
      RelayEnv S → RelayService S → ConnectionId → Octets → MailboxCommandKind → Attempt → Reply S
  unfolding effect_routes
  after_command env s connection id kind (ok t) =
      if ltb s.config.capacity.queue_bytes (projected_queue_bytes s id t)
      then refuse s connection 503
      else and_then (commit env s id t) (λ s' u. (
        s',
        ok (
            deduplicate_routes
              (acknowledgements connection kind t.effects ++ effect_routes s id t.effects)),
      ))
  after_command env s connection id kind (err e) = reply s connection (mailbox_error e)
  after_command env s connection id kind panic = (s, panic)

  unfoldable pub command_of :
      RelayEnv S
      → RelayService S
      → ConnectionId
      → ℕ
      → MailboxCommandKind
      → Option SessionMembership
      → Reply S
  unfolding after_command
  command_of env s connection now kind none = refuse s connection 404
  command_of env s connection now kind (some session) =
      elim (lookup session.mailbox_id s.mailboxes) [
        | none ↦ refuse s connection 404
        | some m ↦
            after_command env s connection session.mailbox_id kind
              (transition env.sha256 m now (mailbox_command session.membership kind))
      ]

  unfoldable pub member_command :
      RelayEnv S → RelayService S → ConnectionId → ℕ → MailboxCommandKind → Reply S
  unfolding command_of
  member_command env s connection now kind =
      command_of env s connection now kind (membership_of (lookup connection s.connections))
