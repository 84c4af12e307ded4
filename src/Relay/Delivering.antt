-- ===== src/Relay/Delivering.antt =====
-- src/relay.rs: a body that one member puts reaches the other, through `handle` alone.
use cbcl_pairing.Common.{
  ℕ, ◌+◌, ◌-◌, ◌≤◌, ◌<◌, ◌≡◌, refl, Octets, octets_ordered, nat_ordered, pair_ordered, List, [],
  ◌∷◌, ◌++◌, Option, none, some, Bool, true, false, if◌then◌else◌, checked_sub-of_le,
  checked_add-of_lt, Outcome, lookup, insert, u64_mod, ok, arith,
}
use cbcl_pairing.Wire.{ServerMessage}
use cbcl_pairing.Mailbox.{Membership, Mailbox, MailboxEffect, peer}
use cbcl_pairing.Mailbox.Terminal.{keeps}
use cbcl_pairing.Storage.{StoreError}
use cbcl_pairing.Relay.{ConnectionId, RelayEnv, RelayService, RoutedMessage}
use cbcl_pairing.Relay.Messages.{route, side_number, stored_at, deduplicate_routes, same_message}
use cbcl_pairing.Relay.Removing.{mailbox_hashes, insert_hashes}
use cbcl_pairing.Relay.Committing.{after_stored, commit, projected_queue_bytes, store_mailbox}
use cbcl_pairing.Relay.Members.{
  MailboxCommandKind, acknowledgements, after_command, effect_routes, frame_to,
}

-- A service that holds `n` in place of `m`.
abbrev pub replaced :
    {S : Type 0} → RelayEnv S → RelayService S → Octets → Mailbox → Mailbox → RelayService S
replaced env s id m n = record s {
  store = (env.store.put s.store n).0;
  queue_bytes = s.queue_bytes - m.queue_bytes + n.queue_bytes;
  membership_hashes = insert_hashes (mailbox_hashes n) s.membership_hashes;
  mailboxes = insert id n s.mailboxes;
}

-- What a stored body is answered with: to its sender, and to the peer's connection, if any.
abbrev pub put_answer : ConnectionId → Option ConnectionId → ℕ → Octets → List RoutedMessage
put_answer c d seq body = route c (ServerMessage.acknowledged seq) ∷ frame_to d seq body

abbrev pub offered_if : Bool → Membership → ℕ → Octets → List MailboxEffect
offered_if joined recipient seq body =
    if joined then MailboxEffect.deliver recipient seq body ∷ [] else []

-- The connection of the peer, where the peer has joined.
abbrev pub there_if : Bool → Option ConnectionId → Option ConnectionId
there_if joined d = if joined then d else none

put_answer-deduplicate :
    (c : ConnectionId) (d : Option ConnectionId) (seq : ℕ) (body : Octets)
    → deduplicate_routes (put_answer c d seq body) ≡ put_answer c d seq body
unfolding deduplicate_routes same_message
put_answer-deduplicate c none seq body = refl
put_answer-deduplicate c (some d) seq body = ground arith

module _ {S : Type 0} (env : RelayEnv S) where
  after_stored-replaced :
      (s : RelayService S) (id : Octets) (m n : Mailbox) (answer : Outcome StoreError (Unit {0}))
      → lookup id s.mailboxes ≡ some m
      → answer ≡ ok tt
      → m.queue_bytes ≤ s.queue_bytes
      → s.queue_bytes - m.queue_bytes + n.queue_bytes < u64_mod
      → after_stored s id n answer ≡ (
        record s {
          queue_bytes = s.queue_bytes - m.queue_bytes + n.queue_bytes;
          membership_hashes = insert_hashes (mailbox_hashes n) s.membership_hashes;
          mailboxes = insert id n s.mailboxes;
        },
        ok tt,
      )
  unfolding after_stored
  after_stored-replaced s id m n answer e kept there fits =
      rw (kept, after_stored)
        (rw
          (
            e,
            checked_sub-of_le s.queue_bytes m.queue_bytes there,
            checked_add-of_lt (s.queue_bytes - m.queue_bytes) n.queue_bytes fits,
          )
          refl)

  pub commit-replaced :
      (s : RelayService S) (id : Octets) (m n : Mailbox) (effects : List MailboxEffect)
      → lookup id s.mailboxes ≡ some m
      → (env.store.put s.store n).1 ≡ ok tt
      → m.queue_bytes ≤ s.queue_bytes
      → s.queue_bytes - m.queue_bytes + n.queue_bytes < u64_mod
      → commit env s id (keeps n effects) ≡ (replaced env s id m n, ok tt)
  unfolding commit store_mailbox
  commit-replaced s id m n effects e kept there fits =
      after_stored-replaced (record s { store = (env.store.put s.store n).0 }) id m n
        (env.store.put s.store n).1 e kept there fits

  put_routes :
      (s : RelayService S) (c : ConnectionId) (id : Octets) (sender : Membership) (joined : Bool)
      (seq : ℕ) (body : Octets)
      → acknowledgements c
            (MailboxCommandKind.put_frame seq body)
            (MailboxEffect.stored sender seq false ∷ offered_if joined (peer sender) seq body)
          ++ effect_routes s id
              (MailboxEffect.stored sender seq false ∷ offered_if joined (peer sender) seq body)
        ≡ put_answer c (there_if joined (lookup (id, side_number (peer sender)) s.routes)) seq body
  unfolding acknowledgements effect_routes stored_at
  put_routes s c id sender true seq body = ground arith
  put_routes s c id sender false seq body = ground arith

  pub after_command-put :
      (s : RelayService S) (c : ConnectionId) (id : Octets) (sender : Membership) (m n : Mailbox)
      (joined : Bool) (seq : ℕ) (body : Octets)
      → lookup id s.mailboxes ≡ some m
      → (env.store.put s.store n).1 ≡ ok tt
      → m.queue_bytes ≤ s.queue_bytes
      → s.queue_bytes - m.queue_bytes + n.queue_bytes ≤ s.config.capacity.queue_bytes
      → s.config.capacity.queue_bytes < u64_mod
      → after_command env s c id (MailboxCommandKind.put_frame seq body) (
          ok (
            keeps n
              (MailboxEffect.stored sender seq false ∷ offered_if joined (peer sender) seq body)))
        ≡ (
          replaced env s id m n,
          ok (
              put_answer c
                (there_if joined (lookup (id, side_number (peer sender)) s.routes))
                seq
                body),
        )
  unfolding after_command projected_queue_bytes
  after_command-put s c id sender m n joined seq body e kept there fits word =
      rw
        (
          e,
          commit-replaced s id m n
              (MailboxEffect.stored sender seq false ∷ offered_if joined (peer sender) seq body) e
              kept there (omega arith),
          put_routes s c id sender joined seq body,
          put_answer-deduplicate c
              (there_if joined (lookup (id, side_number (peer sender)) s.routes)) seq body,
        )
        (ground arith)
