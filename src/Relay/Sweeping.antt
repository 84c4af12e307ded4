-- ===== src/Relay/Sweeping.antt =====
-- src/relay.rs: `sweep` ends within its fuel, and it and `emergency_close` keep the service sound.
use cbcl_pairing.Common.{
  ℕ, zero, suc, ◌≤◌, ◌<◌, Octets, octets_ordered, nat_ordered, pair_ordered, ◌≡◌, refl, ap, subst,
  true, List, [], ◌∷◌, ◌++◌, Option, none, some, Option-cases, inl, inr, length, lookup, remove,
  has, set_remove, ==-iff, Outcome, ok, err, panic, arith,
}
use cbcl_pairing.Wire.{CloseReason}
use cbcl_pairing.Mailbox.{Membership, Mailbox}
use cbcl_pairing.Storage.{StoreError}
use cbcl_pairing.Relay.{RelayEnv, RelayService, RoutedMessage}
use cbcl_pairing.Relay.Attaching.{Step, terminal_routes}
use cbcl_pairing.Relay.Removing.{
  account_removed, after_store_removed, remove_mailbox, remove_mailbox_indexes, removed_from,
  unroute,
}
use cbcl_pairing.Relay.Allocating.{Reply}
use cbcl_pairing.Relay.Reaping.{first_due, sweep_loop}
use cbcl_pairing.Relay.Soundness.{
  IsSound, IsTotal, Keeps, remove_mailbox-Keeps, unroute-IsSameMailboxes,
}

-- Taking out the first element makes a set shorter.
set_remove-length-le : (k : ℕ × Octets) (s : List (ℕ × Octets)) → length (set_remove k s) ≤ length s
unfolding set_remove
set_remove-length-le k [] = ground arith
set_remove-length-le k (j ∷ s) = ground (arith, set_remove-length-le k s)

-- The first expiry, where it is due.
abbrev IsFirst : ℕ → ℕ → Octets → List (ℕ × Octets) → Type 0
IsFirst now at id es =
    (at ≤ now) × (has (at, id) es ≡ true) × (length (set_remove (at, id) es) < length es)

first_due-IsFirst :
    (now : ℕ) (id : Octets) (es : List (ℕ × Octets))
    → first_due now es ≡ some id
    → (at : ℕ) × IsFirst now at id es
unfolding first_due has set_remove
first_due-IsFirst now id [] e = ground arith
first_due-IsFirst now id ((at, j) ∷ es) e =
    let same : j ≡ id = ground arith in
    let key : ℕ × Octets = (at, id) in
    let found = ==-iff {K = ℕ × Octets} (at, id) (at, j) in
    let fewer = set_remove-length-le (at, id) es in
    (at, (ground arith, ground (arith, same, found), ground (arith, same, found, fewer)))

module _ {S : Type 0} where
  -- What a successful removal does to the mailboxes and to the index of their expiries.
  abbrev pub Removes : RelayService S → Octets → Mailbox → Step S (Unit {0}) → Type 0
  Removes s id m (t, ok u) =
      (t.mailboxes ≡ remove id s.mailboxes)
      × (t.expiries ≡ set_remove (m.expires_at, id) s.expiries)
  Removes s id m (t, err e) = Unit
  Removes s id m (t, panic) = Unit

  account_removed-Removes :
      (s t : RelayService S) (id : Octets) (m : Mailbox) (o : Option ℕ)
      → t.mailboxes ≡ remove id s.mailboxes
      → t.expiries ≡ set_remove (m.expires_at, id) s.expiries
      → Removes s id m (account_removed t id o)
  unfolding account_removed
  account_removed-Removes s t id m none a b = tt
  account_removed-Removes s t id m (some left) a b =
      let counted = record t { queue_bytes = left } in
      let first = unroute-IsSameMailboxes counted id Membership.allocator in
      let second =
        unroute-IsSameMailboxes (unroute counted id Membership.allocator) id Membership.claimant in
      (
        ground (arith, first.mailboxes, second.mailboxes, a),
        ground (arith, first.expiries, second.expiries, b),
      )

  after_store_removed-Removes :
      (s : RelayService S) (id : Octets) (m : Mailbox) (answer : Outcome StoreError (Unit {0}))
      → lookup id s.mailboxes ≡ some m
      → Removes s id m (after_store_removed s id answer)
  unfolding after_store_removed removed_from remove_mailbox_indexes
  after_store_removed-Removes s id m (ok u) e = rw e (account_removed-Removes s _ id m _ refl refl)
  after_store_removed-Removes s id m (err x) e = tt
  after_store_removed-Removes s id m panic e = tt

  pub remove_mailbox-Removes :
      (env : RelayEnv S) (s : RelayService S) (id : Octets) (m : Mailbox)
      → lookup id s.mailboxes ≡ some m
      → Removes s id m (remove_mailbox env s id)
  unfolding remove_mailbox
  remove_mailbox-Removes env s id m e =
      let (kept, answer) = env.store.remove s.store id in
      after_store_removed-Removes (record s { store = kept }) id m answer e

module _ {S : Type 0} (env : RelayEnv S) (alive : IsTotal env.store) where
  abbrev Sound : RelayService S → Type 0
  Sound = IsSound env.sha256

  -- There is a result, without a panic, that leaves a sound service.
  abbrev pub Ends : Option (Reply S) → Type 0
  Ends none = ⊥
  Ends (some step) = Keeps env.sha256 step

  -- The first expiry, where it is due, is that of a mailbox.
  pub first_due-found :
      (s : RelayService S) (now : ℕ) (id : Octets)
      → Sound s
      → first_due now s.expiries ≡ some id
      → (m : Mailbox) × (lookup id s.mailboxes ≡ some m)
        × (m.expires_at ≤ now)
        × (length (set_remove (m.expires_at, id) s.expiries) < length s.expiries)
  first_due-found s now id h e =
      let (at, (due, there, fewer)) = first_due-IsFirst now id s.expiries e in
      let known = h.accounted.scheduled at id there in
      elim (Option-cases (lookup id s.mailboxes)) [
        | inl gone ↦ ground (arith, known, gone)
        | inr (m, found) ↦
            let same : m.expires_at ≡ at = ground (arith, known, found) in
            (m, found, rw same due, rw same fewer)
      ]

  -- What follows a removal, by its result.
  removed-Ends :
      (removed : Step S (Unit {0})) (rest : RelayService S → Option (Reply S))
      → Keeps env.sha256 removed
      → ((t : RelayService S) → removed ≡ (t, ok tt) → Ends (rest t))
      → Ends (elim removed.1 [
        | ok u ↦ rest removed.0
        | err e ↦ some (removed.0, err e)
        | panic ↦ some (removed.0, panic)
      ])
  removed-Ends (t, ok u) rest h f = f t refl
  removed-Ends (t, err e) rest h f = h
  removed-Ends (t, panic) rest h f = h

  removed-fewer :
      (s t : RelayService S) (id : Octets) (m : Mailbox) (fuel : ℕ) (step : Step S (Unit {0}))
      → step ≡ (t, ok tt)
      → Keeps env.sha256 step
      → Removes s id m step
      → length (set_remove (m.expires_at, id) s.expiries) < length s.expiries
      → length s.expiries ≤ suc fuel
      → Sound t × (length t.expiries ≤ fuel)
  removed-fewer s t id m fuel (r, ok u) e h (a, b) f n =
      let shorter : length r.expiries ≤ fuel = rw b (omega (arith, f, n)) in
      subst (λ x. Sound x × (length x.expiries ≤ fuel)) (ap (λ x. x.0) e) (h, shorter)
  removed-fewer s t id m fuel (r, err x) e h a f n = ground arith
  removed-fewer s t id m fuel (r, panic) e h a f n = ground arith

  pub sweep_loop-Ends :
      (now fuel : ℕ) (s : RelayService S) (sent : List RoutedMessage)
      → Sound s
      → length s.expiries ≤ fuel
      → Ends (sweep_loop env now fuel s sent)
  unfolding sweep_loop
  sweep_loop-Ends now zero s sent h n = elim (Option-cases (first_due now s.expiries)) [
    | inl none_due ↦ rw (none_due, sweep_loop) h
    | inr (id, due) ↦
        let (m, found, past, fewer) = first_due-found s now id h due in
        rw (due, sweep_loop) (omega (arith, fewer, n))
  ]
  sweep_loop-Ends now (suc fuel) s sent h n = elim (Option-cases (first_due now s.expiries)) [
    | inl none_due ↦ rw (none_due, sweep_loop) h
    | inr (id, due) ↦
        let (m, found, past, fewer) = first_due-found s now id h due in
        rw (due, sweep_loop)
          (removed-Ends (remove_mailbox env s id)
            (λ t. sweep_loop env now fuel t (sent ++ terminal_routes s id CloseReason.expired))
            (remove_mailbox-Keeps env.sha256 env s id alive h)
            (λ t e.
              let (sound, enough) =
                removed-fewer s t id m fuel (remove_mailbox env s id) e
                  (remove_mailbox-Keeps env.sha256 env s id alive h)
                  (remove_mailbox-Removes env s id m found) fewer n in
              sweep_loop-Ends now fuel t _ sound enough))
  ]
