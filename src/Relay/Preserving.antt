-- ===== src/Relay/Preserving.antt =====
-- src/relay.rs: the commands keep the service sound.
use cbcl_pairing.Common.{
  ℕ, Octets, octets_ordered, nat_ordered, inl, inr, Option, none, some, Option-cases, lookup,
}
use cbcl_pairing.Wire.{ClaimToken, Locator}
use cbcl_pairing.Mailbox.{MailboxCommand}
use cbcl_pairing.Relay.{ConnectionId, RelayEnv, RelayService, SessionMembership}
use cbcl_pairing.Relay.Messages.{token_hash}
use cbcl_pairing.Relay.Attaching.{membership_of}
use cbcl_pairing.Relay.Allocating.{Reply, refuse, has_membership, token_hash_exists}
use cbcl_pairing.Relay.Claiming.{claim, claim_resolved, claim_v2, open_mailbox, resolve}
use cbcl_pairing.Relay.Members.{MailboxCommandKind, command_of, mailbox_command, member_command}
use cbcl_pairing.Relay.Soundness.{IsSound, IsTotal, Keeps}
use cbcl_pairing.Relay.Committed.{
  after_claim-Keeps, after_claim_v2-Keeps, after_command-Keeps, after_open-Keeps, if-Keeps,
}
use cbcl_pairing.Relay.Keeping.{transition-Calms, transition-Follows}

module _ {S : Type 0} (env : RelayEnv S) (alive : IsTotal env.store) where
  abbrev Sound : RelayService S → Type 0
  Sound = IsSound env.sha256

  abbrev KeepsAll : Reply S → Type 0
  KeepsAll = Keeps env.sha256

  claim_resolved-Keeps :
      (s : RelayService S) (c : ConnectionId) (now : ℕ) (token : Octets) (o : Option Octets)
      → Sound s
      → KeepsAll (claim_resolved env s c now token o)
  unfolding claim_resolved
  claim_resolved-Keeps s c now token none h = h
  claim_resolved-Keeps s c now token (some id) h =
      let hash = token_hash env.sha256 token in
      if-Keeps env alive (token_hash_exists s hash) (refuse s c 409) _ h
        (elim (Option-cases (lookup id s.mailboxes)) [
          | inl gone ↦ rw gone h
          | inr (m, e) ↦ rw e (
              after_claim-Keeps env alive s c id token m _ h e
                (transition-Follows env.sha256 m now (MailboxCommand.claim hash)
                  (h.accounted.valid id m e))
                (transition-Calms env.sha256 m now (MailboxCommand.claim hash) tt
                  (h.accounted.valid id m e)))
        ])

  pub claim-Keeps :
      (s : RelayService S) (c : ConnectionId) (now : ℕ) (token : Octets) (locator : Locator)
      → Sound s
      → KeepsAll (claim env s c now token locator)
  unfolding claim
  claim-Keeps s c now token locator h =
      if-Keeps env alive (has_membership s c) (refuse s c 409) _ h
        (claim_resolved-Keeps s c now token (resolve s locator) h)

  pub claim_v2-Keeps :
      (s : RelayService S) (c : ConnectionId) (now : ℕ) (token id : Octets) (claimed : ClaimToken)
      → Sound s
      → KeepsAll (claim_v2 env s c now token id claimed)
  unfolding claim_v2
  claim_v2-Keeps s c now token id claimed h =
      let hash = token_hash env.sha256 token in
      if-Keeps env alive (has_membership s c) (refuse s c 409) _ h (
        if-Keeps env alive (token_hash_exists s hash) (refuse s c 409) _ h
          (elim (Option-cases (lookup id s.mailboxes)) [
            | inl gone ↦ rw gone h
            | inr (m, e) ↦ rw e (
                after_claim_v2-Keeps env alive s c id token m _ h e
                  (transition-Follows env.sha256 m now (MailboxCommand.claim_v2 hash claimed)
                    (h.accounted.valid id m e))
                  (transition-Calms env.sha256 m now (MailboxCommand.claim_v2 hash claimed) tt
                    (h.accounted.valid id m e)))
          ]))

  pub open_mailbox-Keeps :
      (s : RelayService S) (c : ConnectionId) (now : ℕ) (id token : Octets)
      → Sound s
      → KeepsAll (open_mailbox env s c now id token)
  unfolding open_mailbox
  open_mailbox-Keeps s c now id token h = elim (Option-cases (lookup id s.mailboxes)) [
    | inl gone ↦ rw (gone, open_mailbox) h
    | inr (m, e) ↦
        rw (e, open_mailbox)
          (after_open-Keeps env alive s c id m _ h e
            (transition-Follows env.sha256 m now
              (MailboxCommand.open_member (token_hash env.sha256 token)) (h.accounted.valid id m e))
            (transition-Calms env.sha256 m now
              (MailboxCommand.open_member (token_hash env.sha256 token)) tt
              (h.accounted.valid id m e)))
  ]

  command_of-Keeps :
      (s : RelayService S) (c : ConnectionId) (now : ℕ) (kind : MailboxCommandKind)
      (o : Option SessionMembership)
      → Sound s
      → KeepsAll (command_of env s c now kind o)
  unfolding command_of
  command_of-Keeps s c now kind none h = h
  command_of-Keeps s c now kind (some session) h =
      elim (Option-cases (lookup session.mailbox_id s.mailboxes)) [
        | inl gone ↦ rw (gone, command_of) h
        | inr (m, e) ↦
            rw (e, command_of)
              (after_command-Keeps env alive s c session.mailbox_id kind m _ h e (
                transition-Follows env.sha256 m now (mailbox_command session.membership kind)
                  (h.accounted.valid session.mailbox_id m e)))
      ]

  pub member_command-Keeps :
      (s : RelayService S) (c : ConnectionId) (now : ℕ) (kind : MailboxCommandKind)
      → Sound s
      → KeepsAll (member_command env s c now kind)
  unfolding member_command
  member_command-Keeps s c now kind h =
      command_of-Keeps s c now kind (membership_of (lookup c s.connections)) h
