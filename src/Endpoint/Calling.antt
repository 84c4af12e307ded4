-- ===== src/Endpoint/Calling.antt =====
-- src/endpoint.rs: the operations that the application calls keep the invariant.
use cbcl_pairing.Common.{
  refl, inl, inr, Octets, octets_ordered, ◌==◌, [], ◌∷◌, Option, none, some, is_some, not, ◌||◌,
  true, ok,
}
use cbcl_pairing.Wire.{ApplicationPayload, CloseReason, Decision, PairingIntent, Side}
use cbcl_pairing.Profile.{ProfileIntent}
use cbcl_pairing.Protocol.{PairingRole, SessionPerformative}
use cbcl_pairing.Endpoint.{
  DecisionRecord, EndpointEffect, EndpointEnv, EndpointReducer, IntentRecord, TerminalReason,
}
use cbcl_pairing.Endpoint.Terminating.{
  admit_local_session, ensure_live, role_key_of, seal_control, terminate,
}
use cbcl_pairing.Endpoint.Finishing.{same_side}
use cbcl_pairing.Endpoint.Applying.{same_decision}
use cbcl_pairing.Endpoint.Sending.{
  approved_payload, cancel, close_reason, profile_answered, relay_closed, send_control, send_intent,
  send_payload,
}
use cbcl_pairing.Endpoint.Views.{Steps-alike, Steps-refl, grants, silent}
use cbcl_pairing.Endpoint.Soundness.{
  IsLive, IsLive-IsOnce, IsSound, Runs, terminate-IsEnded, terminate-Steps,
}
use cbcl_pairing.Endpoint.Keeping.{Runs-after, Runs-bind, Runs-fail, Runs-if, Runs-need, Runs-ok}
use cbcl_pairing.Endpoint.Opening.{admit_local_session-Runs, ensure_live-Runs, seal_control-Runs}

module _ {B S K P : Type 0} (env : EndpointEnv B S K P) where
  ended-Runs :
      (reason : TerminalReason) (s : EndpointReducer B S K P)
      → IsLive s
      → Runs IsSound grants s (terminate reason s, ok (EndpointEffect.close_mailbox ∷ []))
  unfolding grants
  ended-Runs reason s h = record {
    ran = (inr (terminate-IsEnded reason s (IsLive-IsOnce s h)), terminate-Steps reason s);
  }

  pub cancel-Runs : (s : EndpointReducer B S K P) → IsSound s → Runs IsSound grants s (cancel env s)
  unfolding cancel
  cancel-Runs s h =
      Runs-bind (ensure_live s) (ensure_live-Runs s h)
        λ _ t ht _. ended-Runs TerminalReason.cancelled t ht

  pub relay_closed-Runs :
      (reason : CloseReason) (s : EndpointReducer B S K P)
      → IsSound s
      → Runs IsSound grants s (relay_closed env reason s)
  unfolding relay_closed
  relay_closed-Runs reason s h =
      Runs-bind (ensure_live s) (ensure_live-Runs s h)
        λ _ t ht _. ended-Runs (close_reason reason) t ht

  pub send_control-Runs :
      (p : SessionPerformative) (peer : PairingRole) (body cause : Octets)
      (s : EndpointReducer B S K P)
      → IsLive s
      → Runs IsLive silent s (send_control env p peer body cause s)
  unfolding send_control
  send_control-Runs p peer body cause s h =
      Runs-need (role_key_of env.monitors.role_key s.bootstrap peer) _ _ h λ peer_key _.
        Runs-need s.ceremony_key _ _ h λ key _.
          Runs-need (env.monitors.build_session_control key p s.ceremony peer_key body cause) _ _ h
            λ control _.
              Runs-bind (admit_local_session env p control body s)
                (admit_local_session-Runs env p control body s h)
                λ hash t ht _.
                  Runs-bind (seal_control env control (some body) t)
                    (seal_control-Runs env control (some body) t ht) λ frame u hu _. Runs-ok u hu

  profile_answered-Runs :
      (r : P × Option ProfileIntent) (s : EndpointReducer B S K P)
      → IsLive s
      → Runs IsLive silent s (profile_answered env r s)
  unfolding profile_answered
  profile_answered-Runs (p, none) s h = record { ran = (inl h, (0, Steps-refl _)) }
  profile_answered-Runs (p, some value) s h =
      let t : EndpointReducer B S K P = record s { profile = p } in
      Runs-after s t _ (Steps-refl _) (Runs-ok t h)

  intent_kept-Runs :
      {A : Type 0} {a : A} (value : IntentRecord) (s : EndpointReducer B S K P)
      → IsLive s
      → Runs IsLive silent s (record s { intent = some value }, ok a)
  intent_kept-Runs value s h =
      let t : EndpointReducer B S K P = record s { intent = some value } in
      Runs-after s t _ (Steps-alike _ _ refl refl refl) (
        Runs-ok t (record {
          live = h.live;
          used = h.used;
          awaited = h.awaited;
          few = h.few;
          counted = h.counted;
          verified = h.verified;
        }))

  pub send_intent-Runs :
      (value : PairingIntent) (s : EndpointReducer B S K P)
      → IsSound s
      → Runs IsLive silent s (send_intent env value s)
  unfolding send_intent
  send_intent-Runs value s h = Runs-bind (ensure_live s) (ensure_live-Runs s h) λ _ t ht _.
      Runs-if (not (same_side t.side Side.allocator) || is_some t.intent)
        (λ _. record { ran = (inl ht, (0, Steps-refl _)) })
        λ _.
          Runs-if (not (value.application == t.application))
            (λ _. Runs-fail _ _ t (IsLive-IsOnce t ht))
            λ _.
              Runs-bind (profile_answered env (env.profile.recognise_intent t.profile value) t)
                (profile_answered-Runs _ t ht)
                λ binding u hu _. Runs-need (env.wire.encode_pairing_intent value) _ _ hu λ body _.
                  Runs-need u.session _ _ hu λ m _.
                    Runs-bind
                      (send_control env SessionPerformative.intent PairingRole.claimant body
                        (env.monitors.root_hash m) u)
                      (send_control-Runs _ _ _ _ u hu) λ sent v hv _. intent_kept-Runs _ v hv

  approved_payload-Runs :
      (payload : ApplicationPayload) (expected : IntentRecord) (known : DecisionRecord)
      (s : EndpointReducer B S K P)
      → IsLive s
      → Runs IsLive silent s (approved_payload env payload expected known s)
  unfolding approved_payload
  approved_payload-Runs payload expected known s h =
      Runs-if (not (same_decision known.decision Decision.approve))
        (λ _. record { ran = (inl h, (0, Steps-refl _)) })
        λ _.
          Runs-if (not (payload.intent_digest == expected.digest))
            (λ _. record { ran = (inl h, (0, Steps-refl _)) })
            λ _.
              Runs-if s.outbound_payload_sent (λ _. record { ran = (inl h, (0, Steps-refl _)) })
                λ _.
                  Runs-need
                    (env.profile.recognise_payload s.profile expected.profile_binding payload) _ _ h
                    λ _ _. Runs-need (env.wire.encode_application_payload payload) _ _ h λ body _.
                      Runs-bind
                        (send_control env SessionPerformative.payload PairingRole.claimant body
                          known.control_hash s)
                        (send_control-Runs _ _ _ _ s h)
                        λ sent t ht _.
                          let u : EndpointReducer B S K P = record t {
                            outbound_payload_sent = true;
                          } in
                          Runs-after t u _ (Steps-refl _) (Runs-ok u ht)

  pub send_payload-Runs :
      (payload : ApplicationPayload) (s : EndpointReducer B S K P)
      → IsSound s
      → Runs IsLive silent s (send_payload env payload s)
  unfolding send_payload
  send_payload-Runs payload s h = Runs-bind (ensure_live s) (ensure_live-Runs s h) λ _ t ht _.
      Runs-if (not (same_side t.side Side.allocator))
        (λ _. record { ran = (inl ht, (0, Steps-refl _)) })
        λ _. Runs-need t.intent _ _ ht λ expected _.
          Runs-need t.decision _ _ ht λ known _. approved_payload-Runs payload expected known t ht
