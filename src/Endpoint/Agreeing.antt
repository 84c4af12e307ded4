-- ===== src/Endpoint/Agreeing.antt =====
-- src/endpoint.rs: what the caller of a reducer saw agrees with the reducer.
use cbcl_pairing.Common.{
  ℕ, ◌+◌, ◌≤◌, ◌≡◌, inl, inr, subst, octets_ordered, List, ◌||◌, Bool, true, false, Outcome, ok,
  err, panic, arith,
}
use cbcl_pairing.Wire.{Decision, Side}
use cbcl_pairing.Endpoint.{EndpointEffect, EndpointReducer, ReducerError}
use cbcl_pairing.Endpoint.Applying.{same_decision}
use cbcl_pairing.Endpoint.Views.{HasConsent, grants, le_or_zero, silent}
use cbcl_pairing.Endpoint.Soundness.{IsLive, IsSound, Runs, Steps}
use cbcl_pairing.Endpoint.Deciding.{Decides}

-- The grants that a call released to its caller.
abbrev pub released : Outcome ReducerError (List EndpointEffect) → ℕ
released (ok effects) = grants effects
released (err e) = 0
released panic = 0

-- Whether a call of `decide` approved the intent.
abbrev pub approves : Decision → Outcome ReducerError (List EndpointEffect) → Bool
approves decision (ok effects) = same_decision decision Decision.approve
approves decision (err e) = false
approves decision panic = false

module _ {B S K P : Type 0} where
  -- What the caller saw agrees with the reducer.
  pub record Agrees (a : Bool) (n : ℕ) (s : EndpointReducer B S K P) : Type 0 where
    pub sound : IsSound s
    pub counted : n ≤ s.delivered_payloads
    pub consented : HasConsent s.side s.decision → a ≡ true
    pub gated : 1 ≤ n → (a ≡ true) × (s.side ≡ Side.claimant)

  Steps-Agrees :
      {a : Bool} {n m : ℕ} (k : ℕ) {s t : EndpointReducer B S K P}
      → Agrees a n s
      → IsSound t
      → Steps s t m
      → k ≤ m
      → Agrees a (n + k) t
  Steps-Agrees {n = n} k h sound st le = record {
    sound = sound;
    counted = omega (arith, h.counted, st.delivered);
    consented = λ c. h.consented (st.kept c);
    gated = λ q. elim (le_or_zero n) [
      | inl before ↦ ((h.gated before).0, ground (arith, st.side, (h.gated before).1))
      | inr e ↦
          let consent = st.gated (omega arith) in
          (h.consented consent, ground (arith, st.side, consent.0))
    ];
  }

  Steps-still :
      {a : Bool} {n m : ℕ} {s t : EndpointReducer B S K P}
      → Agrees a n s
      → IsSound t
      → Steps s t m
      → Agrees a n t
  Steps-still {n = n} h sound st =
      let moved = Steps-Agrees 0 h sound st (omega arith) in
      record {
        sound = sound;
        counted = omega (arith, moved.counted);
        consented = moved.consented;
        gated = λ q. moved.gated (omega (arith, q));
      }

  pub Runs-Agrees :
      {a : Bool} {n : ℕ} {s t : EndpointReducer B S K P}
      {answer : Outcome ReducerError (List EndpointEffect)}
      (r : EndpointReducer B S K P × Outcome ReducerError (List EndpointEffect))
      → Agrees a n s
      → Runs IsSound grants s r
      → r ≡ (t, answer)
      → Agrees a (n + released answer) t
  Runs-Agrees {a = a} {n = n} (u, ok effects) h k e =
      subst (λ x. Agrees a (n + released x.1) x.0) e
        (Steps-Agrees (grants effects) h k.ran.0 k.ran.1 (omega arith))
  Runs-Agrees {a = a} {n = n} (u, err x) h k e =
      subst (λ x. Agrees a (n + released x.1) x.0) e
        (Steps-Agrees 0 h k.ran.0 k.ran.1.1 (omega arith))
  Runs-Agrees (u, panic) h k e = elim k.ran [ ]

  pub silent-Agrees :
      {A : Type 0} {a : Bool} {n : ℕ} {s t : EndpointReducer B S K P}
      {answer : Outcome ReducerError A} (r : EndpointReducer B S K P × Outcome ReducerError A)
      → Agrees a n s
      → Runs IsLive silent s r
      → r ≡ (t, answer)
      → Agrees a n t
  silent-Agrees {a = a} {n = n} (u, ok effects) h k e =
      subst (λ x. Agrees a n x.0) e (Steps-still h (inl k.ran.0) k.ran.1)
  silent-Agrees {a = a} {n = n} (u, err x) h k e =
      subst (λ x. Agrees a n x.0) e (Steps-still h k.ran.0 k.ran.1.1)
  silent-Agrees (u, panic) h k e = elim k.ran [ ]

  pub Decides-Agrees :
      {a : Bool} {n : ℕ} (d : Decision) {s t : EndpointReducer B S K P}
      {answer : Outcome ReducerError (List EndpointEffect)}
      (r : EndpointReducer B S K P × Outcome ReducerError (List EndpointEffect))
      → Agrees a n s
      → Decides d s r
      → r ≡ (t, answer)
      → Agrees (a || approves d answer) (n + released answer) t
  Decides-Agrees {a = a} {n = n} d (u, ok effects) h k e =
      let turn = k.decided.1.1 in
      let quiet = k.decided.1.0 in
      subst (λ x. Agrees (a || approves d x.1) (n + released x.1) x.0) e
        (record {
          sound = k.decided.0;
          counted = omega (arith, h.counted, turn.delivered, quiet);
          consented = λ c. elim (turn.given c) [
            | inl before ↦ ground (arith, h.consented before)
            | inr approved ↦ ground (arith, approved)
          ];
          gated = λ q.
              let before = h.gated (omega (arith, q, quiet)) in
              (ground (arith, before.0), ground (arith, before.1, turn.side));
        })
  Decides-Agrees {a = a} {n = n} d (u, err x) h k e =
      let same = Steps-Agrees 0 h k.decided.0 k.decided.1.1 (omega arith) in
      subst (λ x. Agrees (a || approves d x.1) (n + released x.1) x.0) e
        (record {
          sound = same.sound;
          counted = same.counted;
          consented = λ c. ground (arith, same.consented c);
          gated = λ q. (ground (arith, (same.gated q).0), (same.gated q).1);
        })
  Decides-Agrees d (u, panic) h k e = elim k.decided [ ]
