-- ===== src/Relay/Closing.antt =====
-- src/relay.rs: `sweep` and `emergency_close` keep the service sound.
use cbcl_pairing.Common.{
  ℕ, Octets, octets_ordered, nat_ordered, ◌≡◌, refl, List, [], ◌∷◌, ◌++◌, Option, none, some,
  length, lookup, ok, err, panic, arith,
}
use cbcl_pairing.Wire.{CloseReason}
use cbcl_pairing.Limiter.Check.{sweep_if_due}
use cbcl_pairing.Mailbox.{Membership, Mailbox, MailboxCommand}
use cbcl_pairing.Mailbox.Terminal.{Attempt, is_terminal}
use cbcl_pairing.Relay.{RelayEnv, RelayService, RoutedMessage}
use cbcl_pairing.Relay.Messages.{deduplicate_routes}
use cbcl_pairing.Relay.Attaching.{terminal_routes}
use cbcl_pairing.Relay.Allocating.{Reply}
use cbcl_pairing.Relay.Handling.{refresh_gauges}
use cbcl_pairing.Relay.Reaping.{
  close_all, close_found, close_live, disable_allocation, emergency_close, refreshed, sweep,
  sweep_loop,
}
use cbcl_pairing.Relay.Nameplates.{sorted_keys}
use cbcl_pairing.Relay.Committing.{commit}
use cbcl_pairing.Relay.Soundness.{IsSound, IsTotal, Keeps, and_then-Keeps}
use cbcl_pairing.Relay.Keeping.{
  Calms, Follows, calm-Affords, commit-Keeps, transition-Calms, transition-Follows,
}
use cbcl_pairing.Relay.Committed.{if-Keeps}
use cbcl_pairing.Relay.Sweeping.{Ends, sweep_loop-Ends}

module _ {S : Type 0} (env : RelayEnv S) (alive : IsTotal env.store) where
  abbrev Sound : RelayService S → Type 0
  Sound = IsSound env.sha256

  refresh_gauges-IsSound : (s : RelayService S) → Sound s → Sound (refresh_gauges s)
  unfolding refresh_gauges
  refresh_gauges-IsSound s h = record {
    routed = h.routed;
    accounted = h.accounted;
    bounded = h.bounded;
    budget = h.budget;
    named = h.named;
  }

  refreshed-Ends :
      (o : Option (Reply S))
      → Ends env alive o
      → Ends env alive (elim o [ none ↦ none | some step ↦ some (refreshed step) ])
  refreshed-Ends none h = h
  refreshed-Ends (some step) h =
      and_then-Keeps env.sha256 step (λ s messages. (refresh_gauges s, ok messages)) h
        (λ s messages g. refresh_gauges-IsSound s g)

  pub sweep-Ends : (s : RelayService S) (now : ℕ) → Sound s → Ends env alive (sweep env s now)
  unfolding sweep
  sweep-Ends s now h =
      let swept = record s { limiter = (sweep_if_due s.limiter now).0 } in
      refreshed-Ends (sweep_loop env now (length s.expiries) swept []) (
        sweep_loop-Ends env alive now (length s.expiries) swept []
          (record {
            routed = h.routed;
            accounted = h.accounted;
            bounded = h.bounded;
            budget = h.budget;
            named = h.named;
          })
          (omega arith))

  close_live-Keeps :
      (s : RelayService S) (id : Octets) (m : Mailbox) (sent : List RoutedMessage) (a : Attempt)
      → Sound s
      → lookup id s.mailboxes ≡ some m
      → Follows env.sha256 m a
      → Calms m a
      → Keeps env.sha256 (close_live env s id sent a)
  unfolding close_live
  close_live-Keeps s id m sent (ok t) h e n q =
      and_then-Keeps env.sha256 (commit env s id t)
        (λ s' u. (s', ok (sent ++ terminal_routes s id CloseReason.closed)))
        (commit-Keeps env.sha256 env s id m t alive h e n (calm-Affords env.sha256 s id m _ h e q))
        (λ s' u g. g)
  close_live-Keeps s id m sent (err x) h e n q = h
  close_live-Keeps s id m sent panic h e n q = n

  close_found-Keeps :
      (s : RelayService S) (now : ℕ) (id : Octets) (sent : List RoutedMessage) (o : Option Mailbox)
      → Sound s
      → lookup id s.mailboxes ≡ o
      → Keeps env.sha256 (close_found env s now id sent o)
  unfolding close_found
  close_found-Keeps s now id sent none h e = h
  close_found-Keeps s now id sent (some m) h e =
      if-Keeps env alive (is_terminal m.status) (s, ok sent) _ h
        (close_live-Keeps s id m sent _ h e
          (transition-Follows env.sha256 m now (MailboxCommand.close Membership.allocator)
            (h.accounted.valid id m e))
          (transition-Calms env.sha256 m now (MailboxCommand.close Membership.allocator) tt
            (h.accounted.valid id m e)))

  close_all-Keeps :
      (s : RelayService S) (now : ℕ) (sent : List RoutedMessage) (ids : List Octets)
      → Sound s
      → Keeps env.sha256 (close_all env s now sent ids)
  unfolding close_all
  close_all-Keeps s now sent [] h = h
  close_all-Keeps s now sent (id ∷ ids) h =
      and_then-Keeps env.sha256 (close_found env s now id sent (lookup id s.mailboxes))
        (λ s' sent'. close_all env s' now sent' ids)
        (close_found-Keeps s now id sent (lookup id s.mailboxes) h refl)
        (λ s' sent' g. close_all-Keeps s' now sent' ids g)

  pub emergency_close-Keeps :
      (s : RelayService S) (now : ℕ) → Sound s → Keeps env.sha256 (emergency_close env s now)
  unfolding emergency_close disable_allocation
  emergency_close-Keeps s now h =
      let disabled = disable_allocation s in
      and_then-Keeps env.sha256 (close_all env disabled now [] (sorted_keys disabled.mailboxes))
        (λ s' sent. (refresh_gauges s', ok (deduplicate_routes sent)))
        (close_all-Keeps disabled now [] (sorted_keys disabled.mailboxes) (record {
          routed = h.routed;
          accounted = h.accounted;
          bounded = h.bounded;
          budget = h.budget;
          named = h.named;
        }))
        (λ s' sent g. refresh_gauges-IsSound s' g)
