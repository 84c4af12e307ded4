-- ===== src/Endpoint/Finishing.antt =====
-- src/endpoint.rs: `new`, and the operations up to the confirmed channel and the session of the
-- allocator.
use cbcl_pairing.Common.{
  nat_beq, Octets, octets_ordered, ◌==◌, [], ◌∷◌, Option, none, some, Bool, true, false, not, ◌||◌,
  ◌&&◌, if◌then◌else◌, Outcome, ok, err, panic,
}
use cbcl_pairing.Wire.{ChannelFrame, Invitation, Side}
use cbcl_pairing.Protocol.{Admission, BootstrapPerformative, ProtocolVerdict}
use cbcl_pairing.Channel.{PendingChannel}
use cbcl_pairing.Channel.Seal.{same_direction}
use cbcl_pairing.Endpoint.{
  EndpointEnv, EndpointReducer, InvitationRecord, ReducerError, TerminalReason,
}
use cbcl_pairing.Endpoint.Actions.{Action, ◌>>=◌, ◌>>◌, pure, require}
use cbcl_pairing.Endpoint.Invitations.{is_bound}
use cbcl_pairing.Endpoint.Terminating.{ensure_live, fail, terminate, validate_expected_role_keys}

-- The tests of `PartialEq`.
abbrev pub same_side : Side → Side → Bool
same_side Side.allocator Side.allocator = true
same_side Side.claimant Side.claimant = true
same_side _ _ = false

abbrev pub same_frame : ChannelFrame → ChannelFrame → Bool
same_frame (ChannelFrame.cpace s a b) (ChannelFrame.cpace t c d) = same_side s t && a == c && b == d
same_frame (ChannelFrame.finished s a b) (ChannelFrame.finished t c d) =
    same_side s t && a == c && b == d
same_frame (ChannelFrame.sealed d m a) (ChannelFrame.sealed e n b) =
    same_direction d e && nat_beq m n && a == b
same_frame _ _ = false

abbrev pub finished_performative : Side → BootstrapPerformative
finished_performative Side.allocator = BootstrapPerformative.finished_a
finished_performative Side.claimant = BootstrapPerformative.finished_b

-- A frame other than the one that is retained.
abbrev pub other_frame : Option ChannelFrame → ChannelFrame → Bool
other_frame none frame = false
other_frame (some pending) frame = not (same_frame pending frame)

module _ {B S K P : Type 0} (env : EndpointEnv B S K P) where
  abbrev pub fresh :
      Side
      → Octets
      → Invitation
      → InvitationRecord
      → K
      → B
      → PendingChannel
      → Octets
      → Octets
      → P
      → EndpointReducer B S K P
  fresh side invitation value invitation_record ceremony_key bootstrap pending allocator_hash
        claimant_hash profile =
      record {
        side = side;
        application = value.application;
        ceremony = env.monitors.ceremony_id invitation;
        expected_role_keys = (value.expected_allocator_key, value.expected_claimant_key);
        profile = profile;
        invitation = invitation_record;
        ceremony_key = some ceremony_key;
        bootstrap = some bootstrap;
        pending_channel = some pending;
        channel = none;
        session = none;
        allocator_cpace_hash = allocator_hash;
        claimant_cpace_hash = claimant_hash;
        local_finished = none;
        pending_finished = none;
        pending_applications = [];
        intent = none;
        decision = none;
        payload_control_hash = none;
        outbound_payload_sent = false;
        delivered_payloads = 0;
        profile_verifications = 0;
        terminal = none;
        local_decline_committed = false;
        terminal_replay_frame_digest = none;
      }

  -- Only the reducer of a success is returned.
  abbrev pub checked :
      EndpointReducer B S K P × Outcome ReducerError (Unit {0})
      → Outcome ReducerError (EndpointReducer B S K P)
  checked (s, ok done) = ok s
  checked (s, err e) = err e
  checked (s, panic) = panic

  unfoldable pub new :
      Side
      → Octets
      → InvitationRecord
      → K
      → B
      → PendingChannel
      → Octets
      → Octets
      → P
      → Outcome ReducerError (EndpointReducer B S K P)
  unfolding validate_expected_role_keys
  new side invitation invitation_record ceremony_key bootstrap pending allocator_hash claimant_hash
        profile =
      if not (is_bound invitation_record.status)
        || not (invitation_record.invitation_digest == env.sha256 invitation)
      then err ReducerError.invitation
      else elim (env.wire.decode_invitation invitation) [
        | none ↦ err ReducerError.recognition
        | some value ↦
            if not (env.profile.recognise_invitation profile value)
            then err ReducerError.profile
            else checked (
                validate_expected_role_keys env (
                  fresh side invitation value invitation_record ceremony_key bootstrap pending
                    allocator_hash claimant_hash profile))
      ]

  -- The monitor after a bootstrap control, with its answer: a refusal and a violation end the
  -- endpoint, any other verdict goes on.
  unfoldable pub bootstrap_admitted :
      B × Option Admission → Action (EndpointReducer B S K P) ProtocolVerdict
  unfolding terminate
  bootstrap_admitted (bootstrap, none) s =
      fail TerminalReason.protocol_violation ReducerError.protocol
        (record s { bootstrap = some bootstrap })
  bootstrap_admitted (bootstrap, some admission) s = elim admission.verdict [
    | ProtocolVerdict.violation ↦
        fail TerminalReason.protocol_violation ReducerError.protocol
          (record s { bootstrap = some bootstrap })
    | verdict ↦ (record s { bootstrap = some bootstrap }, ok verdict)
  ]

  unfoldable pub admit_bootstrap_control :
      BootstrapPerformative → Octets → Octets → Action (EndpointReducer B S K P) ProtocolVerdict
  unfolding bootstrap_admitted validate_expected_role_keys
  admit_bootstrap_control performative control body = do
    ensure_live
    bootstrap ← λ s. require s.bootstrap ReducerError.phase s
    verdict ← bootstrap_admitted (env.monitors.admit_bootstrap bootstrap performative control body)
    validate_expected_role_keys env
    pure verdict

  -- The Finished frame is kept once its control is valid.
  unfoldable pub finished_admitted :
      ChannelFrame → ProtocolVerdict → Action (EndpointReducer B S K P) (Option ChannelFrame)
  finished_admitted frame ProtocolVerdict.valid s =
      (record s { local_finished = some frame }, ok (some frame))
  finished_admitted frame _ s = (s, ok none)

  unfoldable pub build_finished : Action (EndpointReducer B S K P) (Option ChannelFrame)
  unfolding bootstrap_admitted finished_admitted
  build_finished = do
    pending ← λ s. require s.pending_channel ReducerError.phase s
    key ← λ s. require s.ceremony_key ReducerError.phase s
    control ← λ s.
        require
          (env.monitors.build_bootstrap_control key (finished_performative s.side) s.ceremony
            pending.local_finished (s.allocator_cpace_hash ∷ s.claimant_cpace_hash ∷ []))
          ReducerError.protocol s
    bootstrap ← λ s. require s.bootstrap ReducerError.phase s
    verdict ← λ s.
        bootstrap_admitted
          (env.monitors.admit_bootstrap bootstrap (finished_performative s.side) control
            pending.local_finished)
          s
    λ s. finished_admitted (ChannelFrame.finished s.side control pending.local_finished) verdict s

  unfoldable pub local_finished_frame : Action (EndpointReducer B S K P) (Option ChannelFrame)
  unfolding validate_expected_role_keys build_finished
  local_finished_frame = do
    ensure_live
    validate_expected_role_keys env
    λ s. elim s.local_finished [ none ↦ build_finished s | some frame ↦ (s, ok (some frame)) ]
