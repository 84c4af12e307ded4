-- ===== src/Relay/Reach.antt =====
-- src/relay.rs: the services that the program can produce.
use cbcl_pairing.Common.{
  ℕ, Octets, ◌≡◌, subst, ◌≢◌, List, Option, none, some, Outcome, ok, err, panic, Safe, arith,
}
use cbcl_pairing.Wire.{ClientMessage}
use cbcl_pairing.Relay.{
  ConnectionId, RelayConfig, RelayEnv, RelayError, RelayRandomness, RelayService, RoutedMessage,
}
use cbcl_pairing.Relay.Attaching.{disconnect}
use cbcl_pairing.Relay.Handling.{handle}
use cbcl_pairing.Relay.Reaping.{disable_allocation, emergency_close, sweep}
use cbcl_pairing.Relay.Starting.{with_store}
use cbcl_pairing.Relay.Allocating.{Reply}
use cbcl_pairing.Relay.Soundness.{IsSound, IsTotal, Keeps, disconnect-IsSound}
use cbcl_pairing.Relay.Serving.{handle-Keeps}
use cbcl_pairing.Relay.Sweeping.{Ends}
use cbcl_pairing.Relay.Closing.{emergency_close-Keeps, sweep-Ends}
use cbcl_pairing.Relay.Loading.{LoadsValid, with_store-IsSound}

-- The services that come of one that was started on `initial`, the state of the store.
module _ {S : Type 0} (env : RelayEnv S) (initial : S) where
  -- One step of the program on a service, whether it succeeds or fails.
  pub data Reachable : RelayService S → Type 0 where
    started :
        {s : RelayService S} (config : RelayConfig)
        → with_store env config initial ≡ ok s
        → Reachable s
    handled :
        {s t : RelayService S} {answer : Outcome RelayError (List RoutedMessage)} (c : ConnectionId)
        (address : Octets) (now : ℕ) (r : RelayRandomness) (m : ClientMessage)
        → Reachable s
        → handle env s c address now r m ≡ (t, answer)
        → Reachable t
    disconnected :
        {s : RelayService S} (c : ConnectionId) → Reachable s → Reachable (disconnect s c)
    disabled : {s : RelayService S} → Reachable s → Reachable (disable_allocation s)
    swept :
        {s t : RelayService S} {answer : Outcome RelayError (List RoutedMessage)} (now : ℕ)
        → Reachable s
        → sweep env s now ≡ some (t, answer)
        → Reachable t
    closed :
        {s t : RelayService S} {answer : Outcome RelayError (List RoutedMessage)} (now : ℕ)
        → Reachable s
        → emergency_close env s now ≡ (t, answer)
        → Reachable t

-- No panic.
abbrev pub IsAnswer : {A : Type 0} → Outcome RelayError A → Type 0
IsAnswer r = r ≢ panic

-- There is a result, and it is no panic.
abbrev pub IsDone : {S : Type 0} → Option (Reply S) → Type 0
IsDone none = ⊥
IsDone (some step) = IsAnswer step.1

module _ {S : Type 0} (env : RelayEnv S) (initial : S) (alive : IsTotal env.store)
    (loads : LoadsValid env initial) where
  kept-IsSound :
      (step : Reply S) (t : RelayService S) (answer : Outcome RelayError (List RoutedMessage))
      → Keeps env.sha256 step
      → step ≡ (t, answer)
      → IsSound env.sha256 t
  kept-IsSound (s, ok a) t answer h e = subst (λ x. IsSound env.sha256 x.0) e h
  kept-IsSound (s, err x) t answer h e = subst (λ x. IsSound env.sha256 x.0) e h
  kept-IsSound (s, panic) t answer h e = elim h [ ]

  ended-IsSound :
      (o : Option (Reply S)) (t : RelayService S) (answer : Outcome RelayError (List RoutedMessage))
      → Ends env alive o
      → o ≡ some (t, answer)
      → IsSound env.sha256 t
  ended-IsSound none t answer h e = elim h [ ]
  ended-IsSound (some step) t answer h e = kept-IsSound step t answer h (ground (arith, e))

  started-IsSound :
      (r : Outcome RelayError (RelayService S)) (s : RelayService S)
      → Safe (IsSound env.sha256) r
      → r ≡ ok s
      → IsSound env.sha256 s
  started-IsSound r s h e = subst (Safe (IsSound env.sha256)) e h

  -- If the store does not panic, and loads well-formed mailboxes from the state it starts in
  -- (as the empty store in memory does), then in every service that the program can produce, by
  -- any commands, disconnections, sweeps and closures, also those that fail: a connection is on
  -- the route of a membership exactly if that membership is its own; each mailbox is well
  -- formed and stands under its own identifier; the queue account is the total of their queues
  -- and within the capacity; the index of nameplates has exactly theirs; the index of expiries
  -- has exactly their expiries, in ascending order; and there are at most as many mailboxes as
  -- the capacity allows.
  pub Reachable-IsSound : {s : RelayService S} → Reachable env initial s → IsSound env.sha256 s
  unfolding disable_allocation
  Reachable-IsSound (started config e) =
      started-IsSound _ _ (with_store-IsSound env config initial loads) e
  Reachable-IsSound (handled c address now r m h e) =
      kept-IsSound _ _ _ (handle-Keeps env alive _ c address now r m (Reachable-IsSound h)) e
  Reachable-IsSound (disconnected c h) = disconnect-IsSound env.sha256 _ c (Reachable-IsSound h)
  Reachable-IsSound (disabled h) =
      let sound = Reachable-IsSound h in
      record {
        routed = sound.routed;
        accounted = sound.accounted;
        bounded = sound.bounded;
        budget = sound.budget;
        named = sound.named;
      }
  Reachable-IsSound (swept now h e) =
      ended-IsSound _ _ _ (sweep-Ends env alive _ now (Reachable-IsSound h)) e
  Reachable-IsSound (closed now h e) =
      kept-IsSound _ _ _ (emergency_close-Keeps env alive _ now (Reachable-IsSound h)) e

  Keeps-IsAnswer : (step : Reply S) → Keeps env.sha256 step → IsAnswer step.1
  Keeps-IsAnswer (s, ok a) h e = ground arith
  Keeps-IsAnswer (s, err x) h e = ground arith
  Keeps-IsAnswer (s, panic) h e = h

  Ends-IsDone : (o : Option (Reply S)) → Ends env alive o → IsDone o
  Ends-IsDone none h = h
  Ends-IsDone (some step) h = Keeps-IsAnswer step h

  -- If the store does not panic, and loads well-formed mailboxes from the state it starts in
  -- (as the empty store in memory does), then on every service that the program can produce:
  -- `handle` of any message does not panic, `sweep` ends after at most as many removals as
  -- there are expiries, without a panic, and `emergency_close` does not panic.
  pub service_answers :
      (s : RelayService S) (c : ConnectionId) (address : Octets) (now : ℕ) (r : RelayRandomness)
      (m : ClientMessage)
      → Reachable env initial s
      → IsAnswer (handle env s c address now r m).1
        × IsDone (sweep env s now)
        × IsAnswer (emergency_close env s now).1
  service_answers s c address now r m h =
      let sound = Reachable-IsSound h in
      (
        Keeps-IsAnswer _ (handle-Keeps env alive s c address now r m sound),
        Ends-IsDone _ (sweep-Ends env alive s now sound),
        Keeps-IsAnswer _ (emergency_close-Keeps env alive s now sound),
      )
