-- ===== src/Endpoint/Paying.antt =====
-- src/endpoint.rs: the payload of a valid control is delivered once, with consent.
use cbcl_pairing.Common.{
  suc, ◌≡◌, refl, subst, inl, Octets, octets_ordered, ◌==◌, [], Option, none, some, not, ◌||◌,
  arith,
}
use cbcl_pairing.Wire.{ApplicationPayload, Side}
use cbcl_pairing.Profile.{AuthorisedGrant, RecognisedPayload}
use cbcl_pairing.Endpoint.{DecodedApplication, EndpointEnv, EndpointReducer}
use cbcl_pairing.Endpoint.Finishing.{same_side}
use cbcl_pairing.Endpoint.Applying.{
  apply_application, apply_payload, is_approved, payload_authorized, payload_recognised,
}
use cbcl_pairing.Endpoint.Views.{Steps-alike, HasConsent, IsCounted, Steps-refl, grants}
use cbcl_pairing.Endpoint.Soundness.{IsLive, IsLive-IsOnce, IsSound, Runs}
use cbcl_pairing.Endpoint.Keeping.{
  Runs-after, Runs-fail, Runs-if, Runs-match, Runs-quiet, Runs-IsSound,
}
use cbcl_pairing.Endpoint.Applied.{apply_decision-Runs, apply_intent-Runs, same_side_eq}

module _ {B S K P : Type 0} (env : EndpointEnv B S K P) where
  payload_authorized-Runs :
      (hash : Octets) (r : P × Option AuthorisedGrant) (s : EndpointReducer B S K P)
      → HasConsent s.side s.decision
      → s.delivered_payloads ≡ 0
      → IsLive s
      → Runs IsLive grants s (payload_authorized env hash r s)
  unfolding payload_authorized grants
  payload_authorized-Runs hash (p, none) s c e h =
      let t : EndpointReducer B S K P = record s {
        profile = p;
        profile_verifications = suc s.profile_verifications;
      } in
      Runs-after s t _ (Steps-alike _ _ refl refl refl)
        (Runs-fail _ _ t (omega (arith, h.verified), omega (arith, h.verified)))
  payload_authorized-Runs hash (p, some grant) s c e h = record {
    ran = (
      record {
        live = h.live;
        used = h.used;
        awaited = h.awaited;
        few = h.few;
        counted = (omega arith, c);
        verified = omega (arith, h.verified);
      },
      record { side = refl; delivered = omega arith; gated = λ _. c; kept = λ x. x },
    );
  }

  payload_recognised-Runs :
      (hash : Octets) (o : Option RecognisedPayload) (s : EndpointReducer B S K P)
      → HasConsent s.side s.decision
      → s.delivered_payloads ≡ 0
      → IsLive s
      → Runs IsLive grants s (payload_recognised env hash o s)
  unfolding payload_recognised
  payload_recognised-Runs hash none s c e h = Runs-fail _ _ s (IsLive-IsOnce s h)
  payload_recognised-Runs hash (some recognised) s c e h =
      payload_authorized-Runs hash (env.profile.authorize_payload s.profile recognised) s c e h

  pub apply_payload-Runs :
      (value : ApplicationPayload) (hash : Octets) (s : EndpointReducer B S K P)
      → IsLive s
      → Runs IsLive grants s (apply_payload env value hash s)
  unfolding apply_payload grants
  apply_payload-Runs value hash s h =
      let failed = IsLive-IsOnce s h in
      Runs-if (not (same_side s.side Side.claimant)) (λ _. Runs-fail _ _ s failed)
        λ c.
          Runs-match s.intent (λ _. record { ran = (inl h, (0, Steps-refl _)) })
            λ expected _.
              Runs-if (not (value.intent_digest == expected.digest) || not (is_approved s.decision))
                (λ _. Runs-fail _ _ s failed)
                λ d.
                  Runs-match s.payload_control_hash
                    (λ e.
                      payload_recognised-Runs hash _ s (same_side_eq s.side _ c, ground (arith, d))
                        (subst (λ x. IsCounted x s.delivered_payloads s.side s.decision) e
                          h.counted)
                        h)
                    (λ existing _.
                      Runs-if (existing == hash) (λ _. Runs-quiet [] s refl h)
                        (λ _. Runs-fail _ _ s failed))

  pub apply_application-Runs :
      (value : DecodedApplication) (hash : Octets) (s : EndpointReducer B S K P)
      → IsLive s
      → Runs IsSound grants s (apply_application env value hash s)
  unfolding apply_application
  apply_application-Runs (DecodedApplication.intent value) hash s h =
      Runs-IsSound s _ (apply_intent-Runs env value hash s h)
  apply_application-Runs (DecodedApplication.decision value) hash s h =
      apply_decision-Runs env value hash s h
  apply_application-Runs (DecodedApplication.payload value) hash s h =
      Runs-IsSound s _ (apply_payload-Runs value hash s h)
