-- ===== src/Endpoint/Retrying.antt =====
-- src/endpoint.rs: controls of the session that wait for others, and their admission.
use cbcl_pairing.Common.{
  ℕ, zero, suc, nat_ordered, Octets, octets_ordered, ◌==◌, List, [], ◌∷◌, ◌++◌, length, nat_beq,
  any, Option, none, some, Bool, true, false, ◌&&◌, if◌then◌else◌, ok, panic,
}
use cbcl_pairing.Wire.{PairingIntent, SealedPlaintext}
use cbcl_pairing.Protocol.{Admission, ProtocolVerdict}
use cbcl_pairing.Endpoint.{
  DecodedApplication, EndpointEffect, EndpointEnv, EndpointReducer, PendingApplication,
  ReducerError, TerminalReason, max_pending_controls,
}
use cbcl_pairing.Endpoint.Actions.{Action, ◌>>=◌, pure, require}
use cbcl_pairing.Endpoint.Terminating.{fail, terminate}
use cbcl_pairing.Endpoint.Applying.{apply_application, performative, same_decision}

-- The derived tests of equality.
abbrev same_body : Option Octets → Option Octets → Bool
same_body none none = true
same_body (some a) (some b) = a == b
same_body _ _ = false

abbrev same_intent : PairingIntent → PairingIntent → Bool
same_intent a b =
    a.application == b.application
    && a.action == b.action
    && a.allocator_claim == b.allocator_claim
    && a.claimant_claim == b.claimant_claim
    && a.authority_summary == b.authority_summary
    && a.intent_nonce == b.intent_nonce

abbrev same_decoded : DecodedApplication → DecodedApplication → Bool
same_decoded (DecodedApplication.intent a) (DecodedApplication.intent b) = same_intent a b
same_decoded (DecodedApplication.decision a) (DecodedApplication.decision b) =
    a.intent_digest == b.intent_digest && same_decision a.decision b.decision
same_decoded (DecodedApplication.payload a) (DecodedApplication.payload b) =
    a.intent_digest == b.intent_digest && a.payload_type == b.payload_type && a.body == b.body
same_decoded _ _ = false

unfoldable pub same_pending : PendingApplication → PendingApplication → Bool
same_pending a b =
    a.plaintext.control == b.plaintext.control
    && same_body a.plaintext.body b.plaintext.body
    && same_decoded a.decoded b.decoded

-- One pass of the loop in `retry_pending`: what it emitted, what it keeps, and whether it made
-- progress.
pub record Round : Type 0 where
  pub emitted : List EndpointEffect
  pub next : List PendingApplication
  pub progress : Bool

module _ {B S K P : Type 0} (env : EndpointEnv B S K P) where
  -- The monitor after a control of the session, with its answer.
  unfoldable pub session_answered :
      S × Option Admission → Action (EndpointReducer B S K P) (Option Admission)
  session_answered (session, answer) s = (record s { session = some session }, ok answer)

  unfoldable pub submit : PendingApplication → Action (EndpointReducer B S K P) (Option Admission)
  unfolding session_answered
  submit pending = do
    body ← require pending.plaintext.body ReducerError.recognition
    session ← λ s. require s.session ReducerError.phase s
    session_answered (
        env.monitors.admit_session session (performative pending.decoded) pending.plaintext.control
          body)

  -- One pass over the controls that remain. It emitted and kept the two lists so far.
  unfoldable pub retry_round :
      List PendingApplication → Round → Action (EndpointReducer B S K P) Round
  unfolding submit apply_application terminate
  retry_round [] done s = (s, ok done)
  retry_round (pending ∷ rest) done s =
      (do
        answer ← submit pending
        admission ← require answer ReducerError.protocol
        elim admission.verdict [
          | ProtocolVerdict.unknown ↦
              retry_round rest (record done { next = done.next ++ (pending ∷ []) })
          | ProtocolVerdict.violation ↦ λ s.
              fail TerminalReason.protocol_violation ReducerError.protocol
                (record s { pending_applications = done.next })
          | ProtocolVerdict.valid ↦ do
            effects ← apply_application env pending.decoded admission.content_hash
            retry_round rest (record done { emitted = done.emitted ++ effects; progress = true })
        ])
        s

  -- The loop in `retry_pending`, on fuel for the passes. The lack of fuel is written `panic`: there
  -- is a theorem that one pass more than there are controls is enough.
  unfoldable pub retry_rounds :
      ℕ
      → List EndpointEffect
      → List PendingApplication
      → Action (EndpointReducer B S K P) (List EndpointEffect)
  unfolding retry_round
  retry_rounds zero emitted remaining s = (s, panic)
  retry_rounds (suc fuel) emitted remaining s =
      (do
        pass ← retry_round remaining (record { emitted = emitted; next = []; progress = false })
        elim pass.progress [
          | true ↦ retry_rounds fuel pass.emitted pass.next
          | false ↦ λ s. (record s { pending_applications = pass.next }, ok pass.emitted)
        ])
        s

  unfoldable pub retry_pending : Action (EndpointReducer B S K P) (List EndpointEffect)
  unfolding retry_rounds
  retry_pending s =
      retry_rounds (suc (length s.pending_applications)) [] s.pending_applications
        (record s { pending_applications = [] })

  unfoldable pub application_retained :
      PendingApplication → Action (EndpointReducer B S K P) (List EndpointEffect)
  unfolding terminate same_pending
  application_retained pending s =
      if any (same_pending pending) s.pending_applications
      then (s, ok [])
      else if nat_beq (length s.pending_applications) max_pending_controls
      then fail TerminalReason.protocol_violation ReducerError.protocol s
      else (record s { pending_applications = s.pending_applications ++ (pending ∷ []) }, ok [])

  unfoldable pub application_admitted :
      PendingApplication → Option Admission → Action (EndpointReducer B S K P) (List EndpointEffect)
  unfolding terminate application_retained apply_application retry_pending
  application_admitted pending none = fail TerminalReason.protocol_violation ReducerError.protocol
  application_admitted pending (some admission) = elim admission.verdict [
    | ProtocolVerdict.violation ↦ fail TerminalReason.protocol_violation ReducerError.protocol
    | ProtocolVerdict.unknown ↦ application_retained pending
    | ProtocolVerdict.valid ↦ do
      applied ← apply_application env pending.decoded admission.content_hash
      retried ← retry_pending
      pure (applied ++ retried)
  ]

  unfoldable pub admit_application :
      SealedPlaintext → DecodedApplication → Action (EndpointReducer B S K P) (List EndpointEffect)
  unfolding submit application_admitted
  admit_application plaintext decoded = do
    answer ← submit (record { plaintext = plaintext; decoded = decoded })
    application_admitted (record { plaintext = plaintext; decoded = decoded }) answer
