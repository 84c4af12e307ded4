-- ===== src/Relay/Committing.antt =====
-- src/relay.rs: `commit`, and the accounts that go with it.
use cbcl_pairing.Common.{
  ℕ, ◌-◌, Octets, octets_ordered, Option, none, some, lookup, insert, checked_add, checked_sub,
  saturating_add, is_some, if◌then◌else◌, Outcome, ok, err, panic,
}
use cbcl_pairing.Mailbox.{Mailbox, MailboxTransition}
use cbcl_pairing.Storage.{StoreError}
use cbcl_pairing.Relay.{RelayEnv, RelayError, RelayService}
use cbcl_pairing.Relay.Attaching.{Step}
use cbcl_pairing.Relay.Removing.{mailbox_hashes, insert_hashes, remove_mailbox}

-- `map_or(0, Mailbox::queue_bytes)`
abbrev pub bytes_of : Option Mailbox → ℕ
bytes_of none = 0
bytes_of (some m) = m.queue_bytes

-- `checked_sub(previous).and_then(|value| value.checked_add(..))`
abbrev pub exchanged : Option ℕ → ℕ → Option ℕ
exchanged none new = none
exchanged (some left) new = checked_add left new

module _ {S : Type 0} where
  unfoldable pub account_stored : RelayService S → Octets → Mailbox → Option ℕ → Step S (Unit {0})
  account_stored s id m none = (s, err RelayError.invalid_configuration)
  account_stored s id m (some bytes) = (
    record s {
      queue_bytes = bytes;
      membership_hashes = insert_hashes (mailbox_hashes m) s.membership_hashes;
      mailboxes = insert id m s.mailboxes;
    },
    ok tt,
  )

  unfoldable pub after_stored :
      RelayService S → Octets → Mailbox → Outcome StoreError (Unit {0}) → Step S (Unit {0})
  unfolding account_stored
  after_stored s id m (ok u) =
      account_stored s id m
        (exchanged (checked_sub s.queue_bytes (bytes_of (lookup id s.mailboxes))) m.queue_bytes)
  after_stored s id m (err e) = (s, err RelayError.storage)
  after_stored s id m panic = (s, panic)

  unfoldable pub store_mailbox : RelayEnv S → RelayService S → Octets → Mailbox → Step S (Unit {0})
  unfolding after_stored
  store_mailbox env s id m =
      let (kept, answer) = env.store.put s.store m in
      after_stored (record s { store = kept }) id m answer

  unfoldable pub commit :
      RelayEnv S → RelayService S → Octets → MailboxTransition → Step S (Unit {0})
  unfolding store_mailbox
  commit env s id t = elim t.state [
    | some m ↦ store_mailbox env s id m
    | none ↦ if is_some (lookup id s.mailboxes) then remove_mailbox env s id else (s, ok tt)
  ]

  unfoldable pub projected_queue_bytes : RelayService S → Octets → MailboxTransition → ℕ
  projected_queue_bytes s replaced t =
      saturating_add (s.queue_bytes - bytes_of (lookup replaced s.mailboxes)) (bytes_of t.state)
