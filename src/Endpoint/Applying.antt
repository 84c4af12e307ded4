-- ===== src/Endpoint/Applying.antt =====
-- src/endpoint.rs: what a valid control of the session does: the intent, the decision, the payload.
use cbcl_pairing.Common.{
  suc, Octets, octets_ordered, ◌==◌, List, [], ◌∷◌, Option, none, some, Bool, true, false, not,
  ◌||◌, ◌&&◌, if◌then◌else◌, ok, err,
}
use cbcl_pairing.Wire.{ApplicationPayload, Decision, PairingDecision, PairingIntent, Side}
use cbcl_pairing.Profile.{AuthorisedGrant, ProfileIntent, RecognisedPayload}
use cbcl_pairing.Protocol.{SessionPerformative}
use cbcl_pairing.Endpoint.{
  DecisionRecord, DecodedApplication, EndpointEffect, EndpointEnv, EndpointReducer, ReducerError,
  TerminalReason,
}
use cbcl_pairing.Endpoint.Actions.{Action}
use cbcl_pairing.Endpoint.Terminating.{fail, terminate}
use cbcl_pairing.Endpoint.Finishing.{same_side}

abbrev pub same_decision : Decision → Decision → Bool
same_decision Decision.approve Decision.approve = true
same_decision Decision.decline Decision.decline = true
same_decision _ _ = false

-- `performative`
abbrev pub performative : DecodedApplication → SessionPerformative
performative (DecodedApplication.intent value) = SessionPerformative.intent
performative (DecodedApplication.decision value) = elim value.decision [
  | Decision.approve ↦ SessionPerformative.approve
  | Decision.decline ↦ SessionPerformative.decline
]
performative (DecodedApplication.payload value) = SessionPerformative.payload

abbrev pub is_approved : Option DecisionRecord → Bool
is_approved none = false
is_approved (some known) = same_decision known.decision Decision.approve

module _ {B S K P : Type 0} (env : EndpointEnv B S K P) where
  unfoldable pub intent_recognised :
      Octets
      → Octets
      → P × Option ProfileIntent
      → Action (EndpointReducer B S K P) (List EndpointEffect)
  unfolding terminate
  intent_recognised digest control_hash (profile, none) s =
      fail TerminalReason.profile ReducerError.profile (record s { profile = profile })
  intent_recognised digest control_hash (profile, some value) s = elim s.intent [
    | some existing ↦
        if existing.digest == digest && existing.control_hash == control_hash
        then (record s { profile = profile }, ok [])
        else fail TerminalReason.intent_mismatch ReducerError.intent_digest
            (record s { profile = profile })
    | none ↦ (
      record s {
        profile = profile;
        intent = some (record {
          digest = digest;
          control_hash = control_hash;
          profile_binding = value.binding;
        });
      },
      ok (EndpointEffect.display_intent value.display ∷ []),
    )
  ]

  unfoldable pub apply_intent :
      PairingIntent → Octets → Action (EndpointReducer B S K P) (List EndpointEffect)
  unfolding terminate intent_recognised
  apply_intent value control_hash s =
      if not (same_side s.side Side.claimant) || not (value.application == s.application)
      then fail TerminalReason.intent_mismatch ReducerError.intent_digest s
      else elim (env.wire.encode_pairing_intent value) [
        | none ↦ (s, err ReducerError.recognition)
        | some encoded ↦
            intent_recognised (env.sha256 encoded) control_hash
              (env.profile.recognise_intent s.profile value) s
      ]

  unfoldable pub decision_recorded :
      Decision → Octets → Action (EndpointReducer B S K P) (List EndpointEffect)
  unfolding terminate
  decision_recorded Decision.approve control_hash s = (
    record s {
      decision = some (record { decision = Decision.approve; control_hash = control_hash });
    },
    ok [],
  )
  decision_recorded Decision.decline control_hash s = (
    terminate TerminalReason.declined (record s {
      decision = some (record { decision = Decision.decline; control_hash = control_hash });
    }),
    ok (EndpointEffect.close_mailbox ∷ []),
  )

  unfoldable pub apply_decision :
      PairingDecision → Octets → Action (EndpointReducer B S K P) (List EndpointEffect)
  unfolding terminate decision_recorded
  apply_decision value control_hash s =
      if not (same_side s.side Side.allocator)
      then fail TerminalReason.protocol_violation ReducerError.protocol s
      else elim s.intent [
        | none ↦ (s, err ReducerError.phase)
        | some expected ↦
            if not (value.intent_digest == expected.digest)
            then fail TerminalReason.intent_mismatch ReducerError.intent_digest s
            else elim s.decision [
              | some existing ↦
                  if same_decision existing.decision value.decision
                    && existing.control_hash == control_hash
                  then (s, ok [])
                  else fail TerminalReason.decision_conflict ReducerError.decision_conflict s
              | none ↦ decision_recorded value.decision control_hash s
            ]
      ]

  -- `authorize_payload` on what the profile recognised, counted before its answer.
  unfoldable pub payload_authorized :
      Octets → P × Option AuthorisedGrant → Action (EndpointReducer B S K P) (List EndpointEffect)
  unfolding terminate
  payload_authorized control_hash (profile, none) s =
      fail TerminalReason.profile ReducerError.profile
        (record s { profile = profile; profile_verifications = suc s.profile_verifications })
  payload_authorized control_hash (profile, some grant) s = (
    record s {
      profile = profile;
      profile_verifications = suc s.profile_verifications;
      payload_control_hash = some control_hash;
      delivered_payloads = suc s.delivered_payloads;
    },
    ok (EndpointEffect.deliver_grant grant ∷ []),
  )

  unfoldable pub payload_recognised :
      Octets → Option RecognisedPayload → Action (EndpointReducer B S K P) (List EndpointEffect)
  unfolding terminate payload_authorized
  payload_recognised control_hash none s = fail TerminalReason.profile ReducerError.profile s
  payload_recognised control_hash (some recognised) s =
      payload_authorized control_hash (env.profile.authorize_payload s.profile recognised) s

  unfoldable pub apply_payload :
      ApplicationPayload → Octets → Action (EndpointReducer B S K P) (List EndpointEffect)
  unfolding terminate payload_recognised
  apply_payload value control_hash s =
      if not (same_side s.side Side.claimant)
      then fail TerminalReason.protocol_violation ReducerError.protocol s
      else elim s.intent [
        | none ↦ (s, err ReducerError.phase)
        | some expected ↦
            if not (value.intent_digest == expected.digest) || not (is_approved s.decision)
            then fail TerminalReason.intent_mismatch ReducerError.intent_digest s
            else elim s.payload_control_hash [
              | some existing ↦
                  if existing == control_hash
                  then (s, ok [])
                  else fail TerminalReason.protocol_violation ReducerError.protocol s
              | none ↦
                  payload_recognised control_hash
                    (env.profile.recognise_payload s.profile expected.profile_binding value) s
            ]
      ]

  unfoldable pub apply_application :
      DecodedApplication → Octets → Action (EndpointReducer B S K P) (List EndpointEffect)
  unfolding apply_intent apply_decision apply_payload
  apply_application (DecodedApplication.intent value) control_hash s =
      apply_intent value control_hash s
  apply_application (DecodedApplication.decision value) control_hash s =
      apply_decision value control_hash s
  apply_application (DecodedApplication.payload value) control_hash s =
      apply_payload value control_hash s
