-- ===== src/Relay/Expiring.antt =====
-- src/relay.rs: what `sweep` takes out, and what it keeps.
use cbcl_pairing.Common.{
  ℕ, zero, suc, ◌≤◌, ◌<◌, Octets, octets_ordered, nat_ordered, pair_ordered, ◌≡◌, refl, ◌∙◌, ap,
  subst, true, List, [], ◌∷◌, ◌++◌, Option, none, some, Option-cases, inl, inr, if◌then◌else◌, leb,
  length, lookup, remove, has, lookup-remove, ==-iff, ok, err, panic, arith,
}
use cbcl_pairing.Wire.{CloseReason}
use cbcl_pairing.Limiter.Check.{sweep_if_due}
use cbcl_pairing.Mailbox.{Mailbox}
use cbcl_pairing.Relay.{RelayEnv, RelayService, RoutedMessage}
use cbcl_pairing.Relay.Attaching.{Step, terminal_routes}
use cbcl_pairing.Relay.Removing.{remove_mailbox}
use cbcl_pairing.Relay.Allocating.{Reply}
use cbcl_pairing.Relay.Handling.{refresh_gauges}
use cbcl_pairing.Relay.Reaping.{first_due, refreshed, sweep, sweep_loop}
use cbcl_pairing.Relay.Accounting.{Ascending, Mailboxes, NoneBefore}
use cbcl_pairing.Relay.Soundness.{IsSound, IsTotal, Keeps, remove_mailbox-Keeps}
use cbcl_pairing.Relay.Sweeping.{Removes, first_due-found, remove_mailbox-Removes}

-- The mailbox, unless it has expired.
abbrev pub unexpired : ℕ → Option Mailbox → Option Mailbox
unexpired now none = none
unexpired now (some m) = if leb m.expires_at now then none else some m

-- Exactly the expired mailboxes are gone.
abbrev pub Reaps : ℕ → Mailboxes → Mailboxes → Type 0
Reaps now before after = (id : Octets) → lookup id after ≡ unexpired now (lookup id before)

has-NoneBefore :
    (t at : ℕ) (id : Octets) (es : List (ℕ × Octets))
    → NoneBefore t es
    → has (at, id) es ≡ true
    → t ≤ at
unfolding has
has-NoneBefore t at id [] h found = ground arith
has-NoneBefore t at id ((u, j) ∷ es) (here, h) found =
    ground (arith, has-NoneBefore t at id es h, ==-iff {K = ℕ × Octets} (at, id) (u, j))

-- Nothing is due where the first expiry is not.
none_due :
    (now at : ℕ) (id : Octets) (es : List (ℕ × Octets))
    → first_due now es ≡ none
    → Ascending es
    → has (at, id) es ≡ true
    → now < at
unfolding first_due has
none_due now at id [] e h found = ground arith
none_due now at id ((u, j) ∷ es) e (here, h) found =
    ground (arith, has-NoneBefore u at id es here, ==-iff {K = ℕ × Octets} (at, id) (u, j))

module _ {S : Type 0} (env : RelayEnv S) (alive : IsTotal env.store) where
  abbrev Sound : RelayService S → Type 0
  Sound = IsSound env.sha256

  none_due-Reaps :
      (s : RelayService S) (now : ℕ)
      → Sound s
      → first_due now s.expiries ≡ none
      → Reaps now s.mailboxes s.mailboxes
  none_due-Reaps s now h e id = elim (Option-cases (lookup id s.mailboxes)) [
    | inl gone ↦ rw gone refl
    | inr (m, found) ↦
        let later =
          none_due now m.expires_at id s.expiries e h.accounted.ordered
            (h.accounted.indexed id m found) in
        ground (arith, found, later)
  ]

  -- A mailbox that has expired is removed: the unexpired ones are the same.
  removed-unexpired :
      (now : ℕ) (id j : Octets) (m : Mailbox) (ms : Mailboxes)
      → lookup id ms ≡ some m
      → m.expires_at ≤ now
      → unexpired now (lookup j (remove id ms)) ≡ unexpired now (lookup j ms)
  removed-unexpired now id j m ms found due =
      ground (arith, lookup-remove j id ms, ==-iff j id, found, due)

  -- If the sweep succeeds, exactly the expired of these mailboxes are gone.
  abbrev After : ℕ → Mailboxes → Option (Reply S) → Type 0
  After now ms none = Unit
  After now ms (some (t, ok sent)) = Reaps now ms t.mailboxes
  After now ms (some (t, err e)) = Unit
  After now ms (some (t, panic)) = Unit

  removed-After :
      (now : ℕ) (ms : Mailboxes) (removed : Step S (Unit {0}))
      (rest : RelayService S → Option (Reply S))
      → ((t : RelayService S) → removed ≡ (t, ok tt) → After now ms (rest t))
      → After now ms (elim removed.1 [
        | ok u ↦ rest removed.0
        | err e ↦ some (removed.0, err e)
        | panic ↦ some (removed.0, panic)
      ])
  removed-After now ms (t, ok u) rest f = f t refl
  removed-After now ms (t, err e) rest f = tt
  removed-After now ms (t, panic) rest f = tt

  After-same :
      (now : ℕ) (ms ns : Mailboxes) (o : Option (Reply S))
      → ((j : Octets) → unexpired now (lookup j ns) ≡ unexpired now (lookup j ms))
      → After now ns o
      → After now ms o
  After-same now ms ns none same h = tt
  After-same now ms ns (some (t, ok sent)) same h = λ j. h j ∙ same j
  After-same now ms ns (some (t, err e)) same h = tt
  After-same now ms ns (some (t, panic)) same h = tt

  removed-same :
      (s t : RelayService S) (id : Octets) (m : Mailbox) (step : Step S (Unit {0}))
      → step ≡ (t, ok tt)
      → Keeps env.sha256 step
      → Removes s id m step
      → Sound t × (t.mailboxes ≡ remove id s.mailboxes)
  removed-same s t id m (r, ok u) e h (a, b) =
      subst (λ x. Sound x × (x.mailboxes ≡ remove id s.mailboxes)) (ap (λ x. x.0) e) (h, a)
  removed-same s t id m (r, err x) e h a = ground arith
  removed-same s t id m (r, panic) e h a = ground arith

  sweep_loop-After :
      (now fuel : ℕ) (s : RelayService S) (sent : List RoutedMessage)
      → Sound s
      → After now s.mailboxes (sweep_loop env now fuel s sent)
  unfolding sweep_loop
  sweep_loop-After now zero s sent h = elim (Option-cases (first_due now s.expiries)) [
    | inl e ↦ rw (e, sweep_loop) (none_due-Reaps s now h e)
    | inr (id, due) ↦ rw (due, sweep_loop) tt
  ]
  sweep_loop-After now (suc fuel) s sent h = elim (Option-cases (first_due now s.expiries)) [
    | inl e ↦ rw (e, sweep_loop) (none_due-Reaps s now h e)
    | inr (id, due) ↦
        let (m, found, past, fewer) = first_due-found env alive s now id h due in
        rw (due, sweep_loop)
          (removed-After now s.mailboxes (remove_mailbox env s id)
            (λ t. sweep_loop env now fuel t (sent ++ terminal_routes s id CloseReason.expired))
            (λ t e.
              let (sound, gone) =
                removed-same s t id m (remove_mailbox env s id) e
                  (remove_mailbox-Keeps env.sha256 env s id alive h)
                  (remove_mailbox-Removes env s id m found) in
              After-same now s.mailboxes t.mailboxes _
                (λ j. rw gone (removed-unexpired now id j m s.mailboxes found past))
                (sweep_loop-After now fuel t _ sound)))
  ]

  refreshed-After :
      (now : ℕ) (ms : Mailboxes) (o : Option (Reply S))
      → After now ms o
      → After now ms (elim o [ none ↦ none | some step ↦ some (refreshed step) ])
  unfolding refresh_gauges
  refreshed-After now ms none h = tt
  refreshed-After now ms (some (t, ok sent)) h = h
  refreshed-After now ms (some (t, err e)) h = tt
  refreshed-After now ms (some (t, panic)) h = tt

  -- If the store does not panic: a `sweep` of a sound service (as every one is that the program
  -- can produce over a store that starts from well-formed mailboxes) that succeeds removes
  -- exactly the mailboxes whose expiry is not after the time of the sweep, and keeps every
  -- other mailbox as it was.
  pub sweep_reaps :
      (s t : RelayService S) (now : ℕ) (sent : List RoutedMessage) (id : Octets)
      → Sound s
      → sweep env s now ≡ some (t, ok sent)
      → lookup id t.mailboxes ≡ unexpired now (lookup id s.mailboxes)
  unfolding sweep
  sweep_reaps s t now sent id h e =
      let swept = record s { limiter = (sweep_if_due s.limiter now).0 } in
      subst (After now s.mailboxes) e
        (refreshed-After now s.mailboxes (sweep_loop env now (length s.expiries) swept []) (
          sweep_loop-After now (length s.expiries) swept [] (record {
            routed = h.routed;
            accounted = h.accounted;
            bounded = h.bounded;
            budget = h.budget;
            named = h.named;
          })))
        id
