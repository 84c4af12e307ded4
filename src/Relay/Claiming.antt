-- ===== src/Relay/Claiming.antt =====
-- src/relay.rs: `resolve`, `claim`, `claim_v2` and `open`.
use cbcl_pairing.Common.{
  ℕ, Octets, octets_ordered, nat_ordered, List, [], ◌∷◌, ◌++◌, Option, none, some, if◌then◌else◌,
  is_some, lookup, ok, err, panic,
}
use cbcl_pairing.Wire.{ClaimToken, CloseReason, Locator, ServerMessage}
use cbcl_pairing.Mailbox.{Membership, MailboxCommand}
use cbcl_pairing.Mailbox.Terminal.{Attempt}
use cbcl_pairing.Mailbox.Step.{transition}
use cbcl_pairing.Relay.{ConnectionId, RelayEnv, RelayService, RoutedMessage}
use cbcl_pairing.Relay.Messages.{
  mailbox_error, route, token_hash, claimed_expiry, opened_membership, terminal_reason,
  delivered_to, deduplicate_routes,
}
use cbcl_pairing.Relay.Attaching.{and_then, attach, terminal_routes}
use cbcl_pairing.Relay.Committing.{commit}
use cbcl_pairing.Relay.Allocating.{Reply, reply, refuse, has_membership, token_hash_exists}

module _ {S : Type 0} where
  unfoldable pub resolve : RelayService S → Locator → Option Octets
  resolve s (Locator.direct id) = if is_some (lookup id s.mailboxes) then some id else none
  resolve s (Locator.nameplate n) = lookup n s.nameplates

  -- The members and the actor hear of a terminal outcome.
  unfoldable pub closed_for : RelayService S → ConnectionId → Octets → Option CloseReason → Reply S
  closed_for s connection id none = refuse s connection 503
  closed_for s connection id (some reason) = (
    s,
    ok (
        deduplicate_routes
          (terminal_routes s id reason ++ (route connection (ServerMessage.closed reason) ∷ []))),
  )

  -- The connection joins as the claimant.
  unfoldable pub joined : RelayService S → ConnectionId → Octets → ServerMessage → Reply S
  joined s connection id message =
      reply (attach s connection (record { mailbox_id = id; membership = Membership.claimant }))
        connection message

  unfoldable pub claimed_or_closed :
      RelayService S → ConnectionId → Octets → Octets → Option ℕ → Option CloseReason → Reply S
  unfolding joined closed_for
  claimed_or_closed s connection id token (some expires_at) reason =
      joined s connection id (ServerMessage.claimed id token expires_at)
  claimed_or_closed s connection id token none reason = closed_for s connection id reason

  unfoldable pub after_claim :
      RelayEnv S → RelayService S → ConnectionId → Octets → Octets → Attempt → Reply S
  unfolding claimed_or_closed
  after_claim env s connection id token (ok t) = and_then (commit env s id t) (λ s' u.
      claimed_or_closed s' connection id token (claimed_expiry t.effects)
        (terminal_reason t.effects))
  after_claim env s connection id token (err e) = reply s connection (mailbox_error e)
  after_claim env s connection id token panic = (s, panic)

  unfoldable pub claim_resolved :
      RelayEnv S → RelayService S → ConnectionId → ℕ → Octets → Option Octets → Reply S
  unfolding after_claim
  claim_resolved env s connection now token none = refuse s connection 404
  claim_resolved env s connection now token (some id) =
      let hash = token_hash env.sha256 token in
      if token_hash_exists s hash then refuse s connection 409 else elim (lookup id s.mailboxes) [
        | none ↦ refuse s connection 404
        | some m ↦
            after_claim env s connection id token
              (transition env.sha256 m now (MailboxCommand.claim hash))
      ]

  unfoldable pub claim : RelayEnv S → RelayService S → ConnectionId → ℕ → Octets → Locator → Reply S
  unfolding claim_resolved resolve
  claim env s connection now token locator =
      if has_membership s connection
      then refuse s connection 409
      else claim_resolved env s connection now token (resolve s locator)

  unfoldable pub claimed_v2_or_refused :
      RelayService S → ConnectionId → Octets → Octets → Option ℕ → Reply S
  unfolding joined
  claimed_v2_or_refused s connection id token (some expires_at) =
      joined s connection id (ServerMessage.claimed_v2 id token expires_at)
  claimed_v2_or_refused s connection id token none = refuse s connection 503

  unfoldable pub after_claim_v2 :
      RelayEnv S → RelayService S → ConnectionId → Octets → Octets → Attempt → Reply S
  unfolding claimed_v2_or_refused
  after_claim_v2 env s connection id token (ok t) =
      and_then (commit env s id t)
        (λ s' u. claimed_v2_or_refused s' connection id token (claimed_expiry t.effects))
  after_claim_v2 env s connection id token (err e) = reply s connection (mailbox_error e)
  after_claim_v2 env s connection id token panic = (s, panic)

  unfoldable pub claim_v2 :
      RelayEnv S → RelayService S → ConnectionId → ℕ → Octets → Octets → ClaimToken → Reply S
  unfolding after_claim_v2
  claim_v2 env s connection now token id claim_token =
      let hash = token_hash env.sha256 token in
      if has_membership s connection
      then refuse s connection 409
      else if token_hash_exists s hash
      then refuse s connection 409
      else elim (lookup id s.mailboxes) [
        | none ↦ refuse s connection 404
        | some m ↦
            after_claim_v2 env s connection id token
              (transition env.sha256 m now (MailboxCommand.claim_v2 hash claim_token))
      ]

  unfoldable pub opened_or_closed :
      RelayService S
      → ConnectionId
      → Octets
      → List RoutedMessage
      → Option Membership
      → Option CloseReason
      → Reply S
  unfolding closed_for
  opened_or_closed s connection id deliveries (some member) reason =
      (attach s connection (record { mailbox_id = id; membership = member }), ok deliveries)
  opened_or_closed s connection id deliveries none reason = closed_for s connection id reason

  unfoldable pub after_open :
      RelayEnv S → RelayService S → ConnectionId → Octets → Attempt → Reply S
  unfolding opened_or_closed
  after_open env s connection id (ok t) = and_then (commit env s id t) (λ s' u.
      opened_or_closed s' connection id (delivered_to connection t.effects)
        (opened_membership t.effects) (terminal_reason t.effects))
  after_open env s connection id (err e) = reply s connection (mailbox_error e)
  after_open env s connection id panic = (s, panic)

  unfoldable pub open_mailbox :
      RelayEnv S → RelayService S → ConnectionId → ℕ → Octets → Octets → Reply S
  unfolding after_open
  open_mailbox env s connection now id token = elim (lookup id s.mailboxes) [
    | none ↦ refuse s connection 404
    | some m ↦
        after_open env s connection id
          (transition env.sha256 m now (MailboxCommand.open_member (token_hash env.sha256 token)))
  ]
