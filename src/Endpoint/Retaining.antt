-- ===== src/Endpoint/Retaining.antt =====
-- src/endpoint.rs: the admission of a control of the session keeps the invariant.
use cbcl_pairing.Common.{
  refl, sym, subst, inl, inr, [], ◌∷◌, ◌++◌, length, length-append, Option, none, some, any,
  nat_beq, arith,
}
use cbcl_pairing.Wire.{SealedPlaintext}
use cbcl_pairing.Protocol.{Admission}
use cbcl_pairing.Endpoint.{
  DecodedApplication, EndpointEnv, EndpointReducer, PendingApplication, max_pending_controls,
}
use cbcl_pairing.Endpoint.Applying.{apply_application}
use cbcl_pairing.Endpoint.Retrying.{
  admit_application, application_admitted, application_retained, retry_pending, same_pending,
  submit,
}
use cbcl_pairing.Endpoint.Views.{grants, grants-append}
use cbcl_pairing.Endpoint.Soundness.{IsLive, IsLive-IsOnce, IsSound, Runs, Steps}
use cbcl_pairing.Endpoint.Keeping.{
  Runs-after, Runs-bind, Runs-chain, Runs-fail, Runs-if, Runs-quiet, Runs-since, Runs-IsSound,
  Verdict-cases,
}
use cbcl_pairing.Endpoint.Paying.{apply_application-Runs}
use cbcl_pairing.Endpoint.Repeating.{
  reserved-IsLive, reserved-Steps, retry_pending-Runs, submit-Runs,
}

module _ {B S K P : Type 0} (env : EndpointEnv B S K P) where
  application_retained-Runs :
      (pending : PendingApplication) (s : EndpointReducer B S K P)
      → IsLive s
      → Runs IsLive grants s (application_retained env pending s)
  unfolding application_retained grants
  application_retained-Runs pending s h =
      Runs-if (any (same_pending pending) s.pending_applications) (λ _. Runs-quiet [] s refl h)
        λ _.
          Runs-if (nat_beq (length s.pending_applications) max_pending_controls)
            (λ _. Runs-fail _ _ s (IsLive-IsOnce s h))
            λ room.
              let longer = s.pending_applications ++ (pending ∷ []) in
              Runs-after s _ _ (reserved-Steps longer s) (
                Runs-quiet [] _ refl (
                  reserved-IsLive longer s
                    (ground
                      (arith, h.few, room, length-append s.pending_applications (pending ∷ [])))
                    h))

  application_admitted-Runs :
      (pending : PendingApplication) (answer : Option Admission) (s : EndpointReducer B S K P)
      → IsLive s
      → Runs IsSound grants s (application_admitted env pending answer s)
  unfolding application_admitted
  application_admitted-Runs pending none s h = Runs-fail _ _ s (IsLive-IsOnce s h)
  application_admitted-Runs pending (some admission) s h = elim (Verdict-cases admission.verdict) [
    | inl e ↦ simp e (
        Runs-chain (apply_application env pending.decoded admission.content_hash s)
          (apply_application-Runs env pending.decoded admission.content_hash s h)
          λ applied t ht st.
            Runs-chain (retry_pending env t) (Runs-since _ st (retry_pending-Runs env t ht))
              λ retried u hu su. record {
                ran = (hu, subst (Steps s u) (sym (grants-append applied retried)) su);
              })
    | inr (inl e) ↦ simp e (Runs-IsSound s _ (application_retained-Runs pending s h))
    | inr (inr e) ↦ simp e (Runs-fail _ _ s (IsLive-IsOnce s h))
  ]

  pub admit_application-Runs :
      (plaintext : SealedPlaintext) (decoded : DecodedApplication) (s : EndpointReducer B S K P)
      → IsLive s
      → Runs IsSound grants s (admit_application env plaintext decoded s)
  unfolding admit_application
  admit_application-Runs plaintext decoded s h =
      Runs-bind (submit env _ s) (submit-Runs env _ s (inl h))
        λ answer t ht _. application_admitted-Runs _ answer t ht
