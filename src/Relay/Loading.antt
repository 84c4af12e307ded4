-- ===== src/Relay/Loading.antt =====
-- src/relay.rs: the service that `with_store` builds over what the store retains is sound.
use cbcl_pairing.Common.{
  ℕ, Octets, octets_ordered, nat_ordered, pair_ordered, ◌≡◌, refl, List, [], ◌∷◌, Option, none,
  some, Option-cases, Bool-cases, ltb, ◌||◌, ◌≢◌, inl, inr, length, lookup, has, checked_add,
  Outcome, ok, err, panic, Safe, arith,
}
use cbcl_pairing.Limiter.{Limiter, LimiterError}
use cbcl_pairing.Limiter.Check as LimiterCheck
use cbcl_pairing.Mailbox.{Mailbox, MembershipHash}
use cbcl_pairing.Mailbox.Invariant.{IsValid}
use cbcl_pairing.Storage.{StoreError}
use cbcl_pairing.Relay.{RelayConfig, RelayEnv, RelayError}
use cbcl_pairing.Relay.Handling.{refresh_gauges}
use cbcl_pairing.Relay.Starting.{
  Retained, add_nameplate, nothing_retained, over_limiter, over_loaded, over_retained, retain,
  retain_all, retain_counted, retain_hashed, retain_named, with_store, is_invalid,
}
use cbcl_pairing.Relay.Accounting.{IsAccounted, insert-IsAccounted}
use cbcl_pairing.Relay.Naming.{IsNamed, add-IsNamed}
use cbcl_pairing.Relay.Soundness.{IsSound}

module _ (sha256 : Octets → Octets) where
  abbrev IsRetained : Retained → Type 0
  IsRetained r =
      IsAccounted sha256 r.mailboxes r.expiries r.queue_bytes × IsNamed r.mailboxes r.nameplates

  abbrev pub AreValid : List Mailbox → Type 0
  AreValid [] = Unit
  AreValid (m ∷ ms) = IsValid sha256 m × AreValid ms

  retain_counted-IsRetained :
      (r : Retained) (m : Mailbox) (plates : List (ℕ × Octets)) (hashes : List MembershipHash)
      (o : Option ℕ)
      → IsRetained r
      → IsValid sha256 m
      → add_nameplate m.nameplate m.mailbox_id r.nameplates ≡ some plates
      → checked_add r.queue_bytes m.queue_bytes ≡ o
      → Safe IsRetained (retain_counted r m plates hashes o)
  unfolding retain_counted
  retain_counted-IsRetained r m plates hashes none h v p e = tt
  retain_counted-IsRetained r m plates hashes (some sum) h v p e =
      elim (Option-cases (lookup m.mailbox_id r.mailboxes)) [
        | inl new ↦
            rw (new, retain_counted)
              (
                insert-IsAccounted sha256 m.mailbox_id m sum h.0 new v refl (ground (arith, e)),
                add-IsNamed r.mailboxes r.nameplates m.mailbox_id m h.1 m.nameplate plates new refl
                    p,
              )
        | inr (old, there) ↦ rw (there, retain_counted) tt
      ]

  retain_hashed-IsRetained :
      (r : Retained) (m : Mailbox) (plates : List (ℕ × Octets)) (o : Option (List MembershipHash))
      → IsRetained r
      → IsValid sha256 m
      → add_nameplate m.nameplate m.mailbox_id r.nameplates ≡ some plates
      → Safe IsRetained (retain_hashed r m plates o)
  unfolding retain_hashed
  retain_hashed-IsRetained r m plates none h v p = tt
  retain_hashed-IsRetained r m plates (some hashes) h v p =
      retain_counted-IsRetained r m plates hashes _ h v p refl

  retain_named-IsRetained :
      (r : Retained) (m : Mailbox) (o : Option (List (ℕ × Octets)))
      → IsRetained r
      → IsValid sha256 m
      → add_nameplate m.nameplate m.mailbox_id r.nameplates ≡ o
      → Safe IsRetained (retain_named r m o)
  unfolding retain_named
  retain_named-IsRetained r m none h v p = tt
  retain_named-IsRetained r m (some plates) h v p = retain_hashed-IsRetained r m plates _ h v p

  retain-IsRetained :
      (r : Retained) (m : Mailbox) → IsRetained r → IsValid sha256 m → Safe IsRetained (retain r m)
  unfolding retain
  retain-IsRetained r m h v = retain_named-IsRetained r m _ h v refl

  retain_all-IsRetained :
      (r : Outcome RelayError Retained) (ms : List Mailbox)
      → Safe IsRetained r
      → AreValid ms
      → Safe IsRetained (retain_all r ms)
  unfolding retain_all
  retain_all-IsRetained r [] h v = h
  retain_all-IsRetained (ok r) (m ∷ ms) h (v, vs) =
      retain_all-IsRetained (retain r m) ms (retain-IsRetained r m h v) vs
  retain_all-IsRetained (err x) (m ∷ ms) h v = h
  retain_all-IsRetained panic (m ∷ ms) h v = h

module _ {S : Type 0} (env : RelayEnv S) where
  over_retained-IsSound :
      (config : RelayConfig) (limiter : Limiter) (store : S) (r : Outcome RelayError Retained)
      → Safe (IsRetained env.sha256) r
      → Safe (IsSound env.sha256) (over_retained config limiter store r)
  unfolding over_retained refresh_gauges lookup
  over_retained-IsSound config limiter store (ok r) h =
      elim (Bool-cases (
        ltb config.capacity.open_mailboxes (length r.mailboxes)
        || ltb config.capacity.queue_bytes r.queue_bytes)) [
          | inl full ↦ rw (full, over_retained) tt
          | inr roomy ↦
              rw (roomy, over_retained)
                (record {
                  routed = record {
                    forth = λ k c found. ground arith;
                    back = λ k c found. ground arith;
                  };
                  accounted = h.0;
                  bounded = ground (arith, roomy);
                  budget = ground (arith, roomy);
                  named = h.1;
                })
        ]
  over_retained-IsSound config limiter store (err x) h = h
  over_retained-IsSound config limiter store panic h = h

  over_loaded-IsSound :
      (config : RelayConfig) (limiter : Limiter) (store : S)
      (loaded : Outcome StoreError (List Mailbox))
      → Safe (AreValid env.sha256) loaded
      → Safe (IsSound env.sha256) (over_loaded config limiter store loaded)
  unfolding over_loaded lookup has
  over_loaded-IsSound config limiter store (ok ms) h =
      over_retained-IsSound config limiter store (retain_all (ok nothing_retained) ms) (
        retain_all-IsRetained env.sha256 (ok nothing_retained) ms
          (
            record {
              distinct = tt;
              valid = λ id m found. ground arith;
              filed = λ id m found. ground arith;
              exact = refl;
              scheduled = λ at id found. ground arith;
              indexed = λ id m found. ground arith;
              ordered = tt;
            },
            record { forth = λ n id found. ground arith; back = λ n id found. ground arith },
          )
          h)
  over_loaded-IsSound config limiter store (err x) h = h
  over_loaded-IsSound config limiter store panic h = h

  -- From this state the store loads well-formed mailboxes, or fails, and does not panic.
  abbrev pub LoadsValid : S → Type 0
  LoadsValid store = Safe (AreValid env.sha256) (env.store.load store).1

  over_limiter-IsSound :
      (config : RelayConfig) (store : S) (limiter : Outcome LimiterError Limiter)
      → LoadsValid store
      → limiter ≢ panic
      → Safe (IsSound env.sha256) (over_limiter env config store limiter)
  unfolding over_limiter
  over_limiter-IsSound config store (ok limiter) loads n =
      let (kept, loaded) = env.store.load store in
      over_loaded-IsSound config limiter kept loaded loads
  over_limiter-IsSound config store (err x) loads n = tt
  over_limiter-IsSound config store panic loads n = n refl

  pub with_store-IsSound :
      (config : RelayConfig) (store : S)
      → LoadsValid store
      → Safe (IsSound env.sha256) (with_store env config store)
  unfolding with_store LimiterCheck.new
  with_store-IsSound config store loads = elim (Bool-cases (is_invalid config)) [
    | inl wrong ↦ rw (wrong, with_store) tt
    | inr right ↦
        rw (right, with_store)
          (over_limiter-IsSound config store (LimiterCheck.new config.operator_key config.limiter)
            loads (λ e. ground (arith, e)))
  ]
