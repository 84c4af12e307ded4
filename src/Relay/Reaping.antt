-- ===== src/Relay/Reaping.antt =====
-- src/relay.rs: `sweep`, `emergency_close` and `disable_allocation`.
use cbcl_pairing.Common.{
  ℕ, zero, suc, Octets, octets_ordered, nat_ordered, List, [], ◌∷◌, ◌++◌, Option, none, some, false,
  ltb, length, if◌then◌else◌, lookup, ok, err, panic,
}
use cbcl_pairing.Wire.{CloseReason}
use cbcl_pairing.Limiter.Check.{sweep_if_due}
use cbcl_pairing.Mailbox.{Membership, Mailbox, MailboxCommand}
use cbcl_pairing.Mailbox.Terminal.{Attempt, is_terminal}
use cbcl_pairing.Mailbox.Step.{transition}
use cbcl_pairing.Relay.Nameplates.{sorted_keys}
use cbcl_pairing.Relay.{RelayEnv, RelayError, RelayService, RoutedMessage}
use cbcl_pairing.Relay.Messages.{deduplicate_routes}
use cbcl_pairing.Relay.Attaching.{and_then, terminal_routes}
use cbcl_pairing.Relay.Removing.{remove_mailbox}
use cbcl_pairing.Relay.Committing.{commit}
use cbcl_pairing.Relay.Allocating.{Reply}
use cbcl_pairing.Relay.Handling.{refresh_gauges}

-- The identifier of the first expiry, where it is due.
unfoldable pub first_due : ℕ → List (ℕ × Octets) → Option Octets
first_due now [] = none
first_due now ((expires_at, id) ∷ rest) = if ltb now expires_at then none else some id

module _ {S : Type 0} where
  -- The `while let` of `sweep`, with the messages so far. It is `none` where the fuel is not
  -- enough.
  unfoldable pub sweep_loop :
      RelayEnv S → ℕ → ℕ → RelayService S → List RoutedMessage → Option (Reply S)
  sweep_loop env now zero s messages = elim (first_due now s.expiries) [
    | none ↦ some (s, ok messages)
    | some id ↦ none
  ]
  sweep_loop env now (suc fuel) s messages = elim (first_due now s.expiries) [
    | none ↦ some (s, ok messages)
    | some id ↦
        let removed = remove_mailbox env s id in
        elim removed.1 [
          | ok u ↦
              sweep_loop env now fuel removed.0
                (messages ++ terminal_routes s id CloseReason.expired)
          | err e ↦ some (removed.0, err e)
          | panic ↦ some (removed.0, panic)
        ]
  ]

  abbrev pub refreshed : Reply S → Reply S
  refreshed step = and_then step (λ s messages. (refresh_gauges s, ok messages))

  -- Each pass removes the first expiry.
  unfoldable pub sweep : RelayEnv S → RelayService S → ℕ → Option (Reply S)
  unfolding sweep_loop
  sweep env s now =
      let swept = record s { limiter = (sweep_if_due s.limiter now).0 } in
      elim (sweep_loop env now (length s.expiries) swept []) [
        | none ↦ none
        | some step ↦ some (refreshed step)
      ]

  unfoldable pub disable_allocation : RelayService S → RelayService S
  disable_allocation s = record s { config = record s.config { allocation_enabled = false } }

  -- One live mailbox is closed for its allocator. A refusal of the transition is an error.
  unfoldable pub close_live :
      RelayEnv S → RelayService S → Octets → List RoutedMessage → Attempt → Reply S
  close_live env s id messages (ok t) =
      and_then (commit env s id t)
        (λ s' u. (s', ok (messages ++ terminal_routes s id CloseReason.closed)))
  close_live env s id messages (err e) = (s, err RelayError.invalid_configuration)
  close_live env s id messages panic = (s, panic)

  unfoldable pub close_found :
      RelayEnv S → RelayService S → ℕ → Octets → List RoutedMessage → Option Mailbox → Reply S
  unfolding close_live
  close_found env s now id messages none = (s, ok messages)
  close_found env s now id messages (some m) =
      if is_terminal m.status
      then (s, ok messages)
      else close_live env s id messages
          (transition env.sha256 m now (MailboxCommand.close Membership.allocator))

  unfoldable pub close_all :
      RelayEnv S → RelayService S → ℕ → List RoutedMessage → List Octets → Reply S
  unfolding close_found
  close_all env s now messages [] = (s, ok messages)
  close_all env s now messages (id ∷ ids) =
      and_then (close_found env s now id messages (lookup id s.mailboxes))
        (λ s' sent. close_all env s' now sent ids)

  unfoldable pub emergency_close : RelayEnv S → RelayService S → ℕ → Reply S
  unfolding disable_allocation close_all
  emergency_close env s now =
      let disabled = disable_allocation s in
      and_then (close_all env disabled now [] (sorted_keys disabled.mailboxes))
        (λ s' messages. (refresh_gauges s', ok (deduplicate_routes messages)))
