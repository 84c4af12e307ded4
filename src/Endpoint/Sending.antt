-- ===== src/Endpoint/Sending.antt =====
-- src/endpoint.rs: the operations that the application calls: the intent, the decision, the payload,
-- and the end of the attempt.
use cbcl_pairing.Common.{
  Octets, octets_ordered, ◌==◌, List, [], ◌∷◌, Option, none, some, is_some, true, not, ◌||◌, ◌&&◌,
  if◌then◌else◌, ok, err,
}
use cbcl_pairing.Wire.{ApplicationPayload, ChannelFrame, CloseReason, Decision, PairingIntent, Side}
use cbcl_pairing.Profile.{ProfileBinding, ProfileIntent}
use cbcl_pairing.Protocol.{PairingRole, SessionPerformative}
use cbcl_pairing.Endpoint.{
  DecisionRecord, EndpointEffect, EndpointEnv, EndpointReducer, IntentRecord, ReducerError,
  TerminalReason,
}
use cbcl_pairing.Endpoint.Actions.{Action, ◌>>=◌, ◌>>◌, modify, pure, require}
use cbcl_pairing.Endpoint.Terminating.{
  admit_local_session, ensure_live, fail, role_key, seal_control, terminate,
}
use cbcl_pairing.Endpoint.Finishing.{same_side}
use cbcl_pairing.Endpoint.Applying.{same_decision}
use cbcl_pairing.Endpoint.Receiving.{is_declined}

abbrev pub close_reason : CloseReason → TerminalReason
close_reason CloseReason.closed = TerminalReason.mailbox_closed
close_reason CloseReason.crowded = TerminalReason.mailbox_crowded
close_reason CloseReason.expired = TerminalReason.expired
close_reason CloseReason.conflict = TerminalReason.mailbox_conflict

abbrev pub decision_performative : Decision → SessionPerformative
decision_performative Decision.approve = SessionPerformative.approve
decision_performative Decision.decline = SessionPerformative.decline

module _ {B S K P : Type 0} (env : EndpointEnv B S K P) where
  unfoldable pub cancel : Action (EndpointReducer B S K P) (List EndpointEffect)
  unfolding terminate
  cancel = do
    ensure_live
    modify (terminate TerminalReason.cancelled)
    pure (EndpointEffect.close_mailbox ∷ [])

  unfoldable pub relay_closed : CloseReason → Action (EndpointReducer B S K P) (List EndpointEffect)
  unfolding terminate
  relay_closed reason = do
    ensure_live
    modify (terminate (close_reason reason))
    pure (EndpointEffect.close_mailbox ∷ [])

  -- Build a control of this endpoint for the peer, admit it, and seal it with its body: the content
  -- hash and the frame.
  unfoldable pub send_control :
      SessionPerformative
      → PairingRole
      → Octets
      → Octets
      → Action (EndpointReducer B S K P) (Octets × ChannelFrame)
  unfolding admit_local_session seal_control
  send_control performative peer body cause = do
    peer_key ← role_key env peer
    key ← λ s. require s.ceremony_key ReducerError.phase s
    control ← λ s.
        require (env.monitors.build_session_control key performative s.ceremony peer_key body cause)
          ReducerError.protocol s
    content_hash ← admit_local_session env performative control body
    frame ← seal_control env control (some body)
    pure (content_hash, frame)

  -- The profile after `recognise_intent`, with its answer.
  unfoldable pub profile_answered :
      P × Option ProfileIntent → Action (EndpointReducer B S K P) ProfileBinding
  profile_answered (profile, none) s = (record s { profile = profile }, err ReducerError.profile)
  profile_answered (profile, some value) s = (record s { profile = profile }, ok value.binding)

  unfoldable pub send_intent : PairingIntent → Action (EndpointReducer B S K P) ChannelFrame
  unfolding terminate profile_answered send_control
  send_intent value = do
    ensure_live
    λ s.
        if not (same_side s.side Side.allocator) || is_some s.intent
        then (s, err ReducerError.phase)
        else if not (value.application == s.application)
        then fail TerminalReason.intent_mismatch ReducerError.intent_digest s
        else (do
          binding ← λ s. profile_answered (env.profile.recognise_intent s.profile value) s
          body ← require (env.wire.encode_pairing_intent value) ReducerError.recognition
          session ← λ s. require s.session ReducerError.phase s
          sent ←
              send_control SessionPerformative.intent PairingRole.claimant body
                (env.monitors.root_hash session)
          modify λ s. record s {
            intent = some (record {
              digest = env.sha256 body;
              control_hash = sent.0;
              profile_binding = binding;
            });
          }
          pure sent.1)
            s

  -- The decision, once it was sent: a decline ends the endpoint.
  unfoldable pub decision_sent :
      Decision → Octets → ChannelFrame → Action (EndpointReducer B S K P) (List EndpointEffect)
  unfolding terminate
  decision_sent Decision.approve control_hash frame s = (
    record s {
      decision = some (record { decision = Decision.approve; control_hash = control_hash });
    },
    ok (EndpointEffect.send_frame frame ∷ []),
  )
  decision_sent Decision.decline control_hash frame s = (
    terminate TerminalReason.declined (record s {
      decision = some (record { decision = Decision.decline; control_hash = control_hash });
      local_decline_committed = true;
    }),
    ok (EndpointEffect.send_frame frame ∷ EndpointEffect.close_mailbox ∷ []),
  )

  -- The first decision, on the intent that is shown.
  unfoldable pub first_decision :
      Decision → IntentRecord → Action (EndpointReducer B S K P) (List EndpointEffect)
  unfolding send_control decision_sent
  first_decision decision expected = do
    body ←
        require
          (env.wire.encode_pairing_decision
            (record { intent_digest = expected.digest; decision = decision }))
          ReducerError.recognition
    sent ←
        send_control (decision_performative decision) PairingRole.allocator body
          expected.control_hash
    decision_sent decision sent.0 sent.1

  unfoldable pub decide_live : Decision → Action (EndpointReducer B S K P) (List EndpointEffect)
  unfolding terminate first_decision
  decide_live decision s =
      if not (same_side s.side Side.claimant)
      then (s, err ReducerError.phase)
      else elim s.decision [
        | some existing ↦
            if same_decision existing.decision decision
            then (s, ok [])
            else fail TerminalReason.decision_conflict ReducerError.decision_conflict s
        | none ↦ elim s.intent [
          | none ↦ (s, err ReducerError.phase)
          | some expected ↦ first_decision decision expected s
        ]
      ]

  unfoldable pub decide : Decision → Action (EndpointReducer B S K P) (List EndpointEffect)
  unfolding decide_live
  decide decision s = elim s.terminal [
    | some reason ↦
        if is_declined (some reason)
          && s.local_decline_committed
          && same_decision decision Decision.decline
        then (s, ok [])
        else (s, err ReducerError.terminal)
    | none ↦ (ensure_live >> decide_live decision) s
  ]

  unfoldable pub approved_payload :
      ApplicationPayload
      → IntentRecord
      → DecisionRecord
      → Action (EndpointReducer B S K P) ChannelFrame
  unfolding send_control
  approved_payload payload expected known s =
      if not (same_decision known.decision Decision.approve)
      then (s, err ReducerError.phase)
      else if not (payload.intent_digest == expected.digest)
      then (s, err ReducerError.intent_digest)
      else if s.outbound_payload_sent
      then (s, err ReducerError.phase)
      else (do
        recognised ← λ s.
            require (env.profile.recognise_payload s.profile expected.profile_binding payload)
              ReducerError.profile s
        body ← require (env.wire.encode_application_payload payload) ReducerError.recognition
        sent ← send_control SessionPerformative.payload PairingRole.claimant body known.control_hash
        modify λ s. record s { outbound_payload_sent = true }
        pure sent.1)
          s

  unfoldable pub send_payload : ApplicationPayload → Action (EndpointReducer B S K P) ChannelFrame
  unfolding approved_payload
  send_payload payload = do
    ensure_live
    λ s.
        if not (same_side s.side Side.allocator)
        then (s, err ReducerError.phase)
        else (do
          expected ← require s.intent ReducerError.phase
          known ← require s.decision ReducerError.phase
          approved_payload payload expected known)
            s
