-- ===== src/Endpoint.antt =====
-- src/endpoint.rs: the state of one endpoint, its effects and its failures. The operations are in
-- the modules below.
pub mod Invitations
pub mod Actions
pub mod Terminating
pub mod Finishing
pub mod Confirming
pub mod Applying
pub mod Retrying
pub mod Receiving
pub mod Sending
pub mod Views
pub mod Soundness
pub mod Keeping
pub mod Opening
pub mod Establishing
pub mod Applied
pub mod Paying
pub mod Repeating
pub mod Retaining
pub mod Accepting
pub mod Calling
pub mod Deciding
pub mod Agreeing
pub mod Reach
pub mod Ended
pub mod Binding
pub mod Recording
pub mod Canonical
pub mod Standins
mod Examples
mod InvitationExamples
use cbcl_pairing.Common.{ℕ, Bool, Octets, List, Option}
use cbcl_pairing.Wire.{
  ApplicationPayload, ChannelFrame, Decision, PairingDecision, PairingIntent, SealedPlaintext, Side,
  WireCodec,
}
use cbcl_pairing.Profile.{ApplicationProfile, AuthorisedGrant, DisplayIntent, ProfileBinding}
use cbcl_pairing.Protocol.{Monitors}
use cbcl_pairing.Channel.{PendingChannel, SecureChannel}
use cbcl_pairing.Channel.Schedule.{Crypto}

abbrev pub max_pending_controls : ℕ
max_pending_controls = 16

pub data InvitationStatus : Type 0 where
  unused bound spent : InvitationStatus

pub data BindOutcome : Type 0 where
  bound resumed : BindOutcome

pub record InvitationRecord : Type 0 where
  pub invitation_digest : Octets
  pub status : InvitationStatus
  pub binding : Option Octets

pub data EndpointEffect : Type 0 where
  send_frame : ChannelFrame → EndpointEffect
  display_intent : DisplayIntent → EndpointEffect
  deliver_grant : AuthorisedGrant → EndpointEffect
  close_mailbox : EndpointEffect

pub data TerminalReason : Type 0 where
  cancelled expired mailbox_closed mailbox_crowded mailbox_conflict declined protocol_violation
        key_confirmation channel intent_mismatch profile decision_conflict invitation_mismatch
        malformed :
      TerminalReason

pub data ReducerError : Type 0 where
  invitation wrong_side protocol channel recognition phase intent_digest profile decision_conflict
        terminal :
      ReducerError

pub record IntentRecord : Type 0 where
  pub digest : Octets
  pub control_hash : Octets
  pub profile_binding : ProfileBinding

pub record DecisionRecord : Type 0 where
  pub decision : Decision
  pub control_hash : Octets

pub data DecodedApplication : Type 0 where
  intent : PairingIntent → DecodedApplication
  decision : PairingDecision → DecodedApplication
  payload : ApplicationPayload → DecodedApplication

pub record PendingApplication : Type 0 where
  pub plaintext : SealedPlaintext
  pub decoded : DecodedApplication

-- `B`, `S` and `K` are the monitors and the signing key of src/cbcl_protocol.rs, `P` the profile.
pub record EndpointReducer (B S K P : Type 0) : Type 0 where
  pub side : Side
  pub application : Octets
  pub ceremony : Octets
  pub expected_role_keys : Option Octets × Option Octets
  pub profile : P
  pub invitation : InvitationRecord
  pub ceremony_key : Option K
  pub bootstrap : Option B
  pub pending_channel : Option PendingChannel
  pub channel : Option SecureChannel
  pub session : Option S
  pub allocator_cpace_hash : Octets
  pub claimant_cpace_hash : Octets
  pub local_finished : Option ChannelFrame
  pub pending_finished : Option ChannelFrame
  pub pending_applications : List PendingApplication
  pub intent : Option IntentRecord
  pub decision : Option DecisionRecord
  pub payload_control_hash : Option Octets
  pub outbound_payload_sent : Bool
  pub delivered_payloads : ℕ
  pub profile_verifications : ℕ
  pub terminal : Option TerminalReason
  pub local_decline_committed : Bool
  pub terminal_replay_frame_digest : Option Octets

-- What the reducer calls: the monitors, the profile, the recognisers and encoders of src/wire.rs,
-- the primitives of the channel, and the hash `sha2::Sha256`.
pub record EndpointEnv (B S K P : Type 0) : Type 0 where
  pub monitors : Monitors B S K
  pub profile : ApplicationProfile P
  pub wire : WireCodec
  pub crypto : Crypto
  pub sha256 : Octets → Octets
