-- ===== src/Endpoint/Repeating.antt =====
-- src/endpoint.rs: `retry_pending` ends, and the controls that wait keep the invariant.
use cbcl_pairing.Common.{
  ℕ, zero, suc, ◌+◌, ◌≤◌, ◌<◌, ◌⊎◌, ◌≡◌, refl, sym, subst, inl, inr, List, [], ◌∷◌, ◌++◌, length,
  length-append, some, Bool, true, false, Bool-cases, ok, arith,
}
use cbcl_pairing.Endpoint.{
  EndpointEffect, EndpointEnv, EndpointReducer, PendingApplication, ReducerError,
  max_pending_controls,
}
use cbcl_pairing.Endpoint.Actions.{require}
use cbcl_pairing.Endpoint.Applying.{apply_application, performative}
use cbcl_pairing.Endpoint.Retrying.{
  Round, retry_pending, retry_round, retry_rounds, session_answered, submit,
}
use cbcl_pairing.Endpoint.Views.{
  Steps-alike, Steps-refl, Steps-before, grants, grants-append, silent,
}
use cbcl_pairing.Endpoint.Soundness.{
  IsEnded, IsLive, IsLive-IsOnce, IsSound, Runs, RunsTo, Steps, IsEnded-as,
}
use cbcl_pairing.Endpoint.Keeping.{
  Runs-after, Runs-ask, Runs-chain, Runs-fail_since, Runs-ok, Runs-require, Runs-since, Runs-still,
  Verdict-cases,
}
use cbcl_pairing.Endpoint.Paying.{apply_application-Runs}

abbrev progress_count : Bool → ℕ
progress_count true = 1
progress_count false = 0

-- How many controls a pass has kept or still has before it, one more if it has made progress.
abbrev pass_count : Round → List PendingApplication → ℕ
pass_count done rest = length done.next + length rest + progress_count done.progress

module _ {B S K P : Type 0} where
  -- During a pass, the endpoint ends only with progress.
  abbrev IsPassing : Round → EndpointReducer B S K P → Type 0
  IsPassing done s = IsLive s ⊎ (IsEnded s × (done.progress ≡ false → done.next ≡ []))

  IsPassing-IsSound : (done : Round) (s : EndpointReducer B S K P) → IsPassing done s → IsSound s
  IsPassing-IsSound done s (inl h) = inl h
  IsPassing-IsSound done s (inr h) = inr h.0

  begin_pass :
      (done : Round) (s : EndpointReducer B S K P) → done.next ≡ [] → IsSound s → IsPassing done s
  begin_pass done s e (inl h) = inl h
  begin_pass done s e (inr h) = inr (h, λ _. e)

  progressed :
      (done : Round) (s : EndpointReducer B S K P)
      → done.progress ≡ true
      → IsSound s
      → IsPassing done s
  progressed done s e (inl h) = inl h
  progressed done s e (inr h) = inr (h, λ f. absurd (ground (arith, e, f)))

  -- The list of the controls that wait is replaced.
  pub reserved-Steps :
      (l : List PendingApplication) (s : EndpointReducer B S K P)
      → Steps s (record s { pending_applications = l }) 0
  reserved-Steps l s = (Steps-alike _ _ refl refl refl)

  pub reserved-IsLive :
      (l : List PendingApplication) (s : EndpointReducer B S K P)
      → length l ≤ max_pending_controls
      → IsLive s
      → IsLive (record s { pending_applications = l })
  reserved-IsLive l s few h = record {
    live = h.live;
    used = h.used;
    awaited = h.awaited;
    few = few;
    counted = h.counted;
    verified = h.verified;
  }

  reserved-IsEnded :
      (l : List PendingApplication) (s : EndpointReducer B S K P)
      → l ≡ []
      → IsEnded s
      → IsEnded (record s { pending_applications = l })
  reserved-IsEnded l s e h = IsEnded-as l s.terminal_replay_frame_digest s e h

  emptied :
      (s : EndpointReducer B S K P) → IsSound s → IsSound (record s { pending_applications = [] })
  emptied s (inl h) = inl (reserved-IsLive [] s (omega arith) h)
  emptied s (inr h) = inr (reserved-IsEnded [] s refl h)

  few_waiting :
      (s : EndpointReducer B S K P)
      → IsSound s
      → length s.pending_applications ≤ max_pending_controls
  few_waiting s (inl h) = h.few
  few_waiting s (inr h) = rw h.erased.pending_applications (omega arith)

  module _ (env : EndpointEnv B S K P) where
    -- An endpoint that ended has no session.
    pub submit-Runs :
        (pending : PendingApplication) (s : EndpointReducer B S K P)
        → IsSound s
        → Runs IsLive silent s (submit env pending s)
    unfolding submit session_answered
    submit-Runs pending s h = Runs-ask pending.plaintext.body _ _ h λ body _.
        Runs-ask s.session _ _ h λ m e. elim h [
          | inl live ↦
              let t : EndpointReducer B S K P = record s {
                session =
                    some
                      (env.monitors.admit_session m (performative pending.decoded)
                        pending.plaintext.control body).0;
              } in
              Runs-after s t _ (Steps-refl _) (Runs-ok t live)
          | inr ended ↦ absurd (ground (arith, e, ended.erased.session))
        ]

    retry_round-Runs :
        (rest : List PendingApplication) (done : Round) (n : ℕ) (o s : EndpointReducer B S K P)
        → Steps o s (grants done.emitted)
        → IsPassing done s
        → pass_count done rest ≤ n
        → RunsTo
            (λ p t. IsPassing p t × (pass_count p [] ≤ n))
            (λ p. grants p.emitted)
            o
            (retry_round env rest done s)
    unfolding retry_round
    retry_round-Runs [] done n o s st h fits = record { ran = ((h, fits), st) }
    retry_round-Runs (pending ∷ rest) done n o s st h fits =
        Runs-chain (submit env pending s)
          (Runs-still _ st (submit-Runs pending s (IsPassing-IsSound done s h)))
          λ answer t ht st'.
            Runs-chain (require answer ReducerError.protocol t)
              (Runs-still _ st' (Runs-require answer ReducerError.protocol t ht))
              λ admission u hu su. elim (Verdict-cases admission.verdict) [
                | inl e ↦ simp e (
                    Runs-chain (apply_application env pending.decoded admission.content_hash u)
                      (Runs-since _ su
                        (apply_application-Runs env pending.decoded admission.content_hash u hu))
                      λ effects v hv sv.
                        let after : Round = record done {
                          emitted = done.emitted ++ effects;
                          progress = true;
                        } in
                        retry_round-Runs rest after n o v
                          (subst (Steps o v) (sym (grants-append done.emitted effects)) sv)
                          (progressed after v refl hv) (omega (arith, fits)))
                | inr (inl e) ↦ simp e (
                    retry_round-Runs rest (record done { next = done.next ++ (pending ∷ []) }) n o u
                      su (inl hu) (omega (arith, fits, length-append done.next (pending ∷ []))))
                | inr (inr e) ↦ simp e (
                    Runs-fail_since _ _ (record u { pending_applications = done.next })
                      (Steps-before su (reserved-Steps done.next u)) (IsLive-IsOnce u hu))
              ]

    -- The end of the loop.
    settled-Runs :
        (pass : Round) (o s : EndpointReducer B S K P)
        → Steps o s (grants pass.emitted)
        → IsPassing pass s
        → pass.progress ≡ false
        → length pass.next ≤ max_pending_controls
        → Runs IsSound grants o (record s { pending_applications = pass.next }, ok pass.emitted)
    settled-Runs pass o s st (inl h) e few = record {
      ran = (inl (reserved-IsLive pass.next s few h), Steps-before st (reserved-Steps pass.next s));
    }
    settled-Runs pass o s st (inr h) e few = record {
      ran = (
        inr (reserved-IsEnded pass.next s (h.1 e) h.0),
        Steps-before st (reserved-Steps pass.next s),
      );
    }

    retry_rounds-Runs :
        (fuel : ℕ) (emitted : List EndpointEffect) (remaining : List PendingApplication)
        (o s : EndpointReducer B S K P)
        → Steps o s (grants emitted)
        → IsSound s
        → length remaining < fuel
        → length remaining ≤ max_pending_controls
        → Runs IsSound grants o (retry_rounds env fuel emitted remaining s)
    unfolding retry_rounds
    retry_rounds-Runs zero emitted remaining o s st h enough few = absurd (omega arith)
    retry_rounds-Runs (suc fuel) emitted remaining o s st h enough few =
        let begun : Round = record { emitted = emitted; next = []; progress = false } in
        Runs-chain (retry_round env remaining begun s)
          (retry_round-Runs remaining begun (length remaining) o s st (begin_pass begun s refl h)
            (omega arith))
          λ pass t ht st'. elim (Bool-cases pass.progress) [
            | inl e ↦
                let fewer : suc (length pass.next) ≤ length remaining = ground (arith, ht.1, e) in
                simp e (
                  retry_rounds-Runs fuel pass.emitted pass.next o t st'
                    (IsPassing-IsSound pass t ht.0) (omega arith) (omega arith))
            | inr e ↦ simp e (settled-Runs pass o t st' ht.0 e (omega (arith, ht.1, few)))
          ]

    pub retry_pending-Runs :
        (s : EndpointReducer B S K P) → IsSound s → Runs IsSound grants s (retry_pending env s)
    unfolding retry_pending grants
    retry_pending-Runs s h =
        let waiting = s.pending_applications in
        let t : EndpointReducer B S K P = record s { pending_applications = [] } in
        retry_rounds-Runs (suc (length waiting)) [] waiting s t (reserved-Steps [] s) (emptied s h)
          (omega arith) (few_waiting s h)
