-- ===== src/Endpoint/Confirming.antt =====
-- src/endpoint.rs: the peer's Finished frame, and the session of the allocator.
use cbcl_pairing.Common.{
  Octets, List, [], ◌∷◌, none, some, is_some, is_none, ◌||◌, if◌then◌else◌, Outcome, ok, err, panic,
}
use cbcl_pairing.Wire.{ChannelFrame, Side}
use cbcl_pairing.Protocol.{Admission, PairingRole, ProtocolVerdict}
use cbcl_pairing.Channel.{ChannelError, SecureChannel}
use cbcl_pairing.Channel.Schedule.{confirm}
use cbcl_pairing.Endpoint.{
  EndpointEffect, EndpointEnv, EndpointReducer, ReducerError, TerminalReason,
}
use cbcl_pairing.Endpoint.Actions.{Action, ◌>>=◌, ◌>>◌, pure, require}
use cbcl_pairing.Endpoint.Invitations.{spend}
use cbcl_pairing.Endpoint.Terminating.{
  ensure_live, fail, role_key, seal_control, terminate, validate_expected_role_keys,
}
use cbcl_pairing.Endpoint.Finishing.{
  bootstrap_admitted, finished_performative, other_frame, same_side,
}

module _ {B S K P : Type 0} (env : EndpointEnv B S K P) where
  -- The session is kept once its opener is valid.
  unfoldable pub session_opened : S × Admission → Action (EndpointReducer B S K P) (Unit {0})
  unfolding terminate
  session_opened (session, admission) s = elim admission.verdict [
    | ProtocolVerdict.valid ↦ (record s { session = some session }, ok tt)
    | _ ↦ fail TerminalReason.protocol_violation ReducerError.protocol s
  ]

  unfoldable pub open_allocator_session : Action (EndpointReducer B S K P) (List EndpointEffect)
  unfolding session_opened seal_control
  open_allocator_session = do
    allocator ← role_key env PairingRole.allocator
    claimant ← role_key env PairingRole.claimant
    key ← λ s. require s.ceremony_key ReducerError.phase s
    opener ← λ s.
        require (env.monitors.build_session_opener key claimant s.ceremony) ReducerError.protocol s
    opened ← λ s.
        require
          (env.monitors.open_for_ceremony s.ceremony PairingRole.allocator allocator claimant
            opener)
          ReducerError.protocol s
    session_opened opened
    frame ← seal_control env opener none
    pure (EndpointEffect.send_frame frame ∷ [])

  -- The channel that `confirm` returns takes the place of the pending one.
  unfoldable pub confirmed :
      Outcome ChannelError SecureChannel → Action (EndpointReducer B S K P) (List EndpointEffect)
  unfolding terminate spend open_allocator_session
  confirmed (ok channel) s =
      let t : EndpointReducer B S K P = record s {
        pending_channel = none;
        channel = some channel;
        invitation = spend s.invitation;
      } in
      elim s.side [ Side.allocator ↦ open_allocator_session t | Side.claimant ↦ (t, ok []) ]
  confirmed (err e) s =
      fail TerminalReason.key_confirmation ReducerError.channel
        (record s { pending_channel = none })
  confirmed panic s = (record s { pending_channel = none }, panic)

  unfoldable pub finished_answered :
      ChannelFrame
      → Octets
      → ProtocolVerdict
      → Action (EndpointReducer B S K P) (List EndpointEffect)
  unfolding terminate confirmed
  finished_answered frame value ProtocolVerdict.unknown s =
      if other_frame s.pending_finished frame
      then fail TerminalReason.protocol_violation ReducerError.protocol s
      else (record s { pending_finished = some frame }, ok [])
  finished_answered frame value ProtocolVerdict.violation s =
      fail TerminalReason.protocol_violation ReducerError.protocol s
  finished_answered frame value ProtocolVerdict.valid s = elim s.pending_channel [
    | none ↦
        fail TerminalReason.protocol_violation ReducerError.phase
          (record s { pending_finished = none })
    | some pending ↦ confirmed (confirm pending value) (record s { pending_finished = none })
  ]

  -- The guards before the control is admitted.
  unfoldable pub finished_allowed : Side → Action (EndpointReducer B S K P) (Unit {0})
  unfolding terminate
  finished_allowed side s =
      if same_side side s.side
      then fail TerminalReason.protocol_violation ReducerError.wrong_side s
      else if is_none s.local_finished
      then fail TerminalReason.protocol_violation ReducerError.phase s
      else if is_none s.pending_channel || is_some s.channel
      then fail TerminalReason.protocol_violation ReducerError.phase s
      else (s, ok tt)

  unfoldable pub receive_finished :
      Side → Octets → Octets → Action (EndpointReducer B S K P) (List EndpointEffect)
  unfolding finished_allowed validate_expected_role_keys bootstrap_admitted finished_answered
  receive_finished side control value = do
    finished_allowed side
    validate_expected_role_keys env
    bootstrap ← λ s. require s.bootstrap ReducerError.phase s
    verdict ←
        bootstrap_admitted env
          (env.monitors.admit_bootstrap bootstrap (finished_performative side) control value)
    finished_answered (ChannelFrame.finished side control value) value verdict

  -- Only a Finished frame is ever retained, so that the source calls the rest unreachable.
  abbrev pub retried : ChannelFrame → Action (EndpointReducer B S K P) (List EndpointEffect)
  retried (ChannelFrame.finished side control value) s = receive_finished side control value s
  retried _ s = (s, panic)

  unfoldable pub retry_pending_finished : Action (EndpointReducer B S K P) (List EndpointEffect)
  unfolding receive_finished
  retry_pending_finished = do
    ensure_live
    λ s. elim s.pending_finished [ none ↦ (s, ok []) | some frame ↦ retried frame s ]
