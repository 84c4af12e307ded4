-- ===== src/Mailbox.antt =====
-- src/mailbox.rs: the pure state of one two-membership mailbox, with its commands, effects and
-- errors. The operations are in the modules below.
pub mod Allocate
pub mod Bodies
pub mod Terminal
pub mod Claims
pub mod Frames
pub mod Step
pub mod Invariant
pub mod Drain
pub mod Safety
pub mod Reach
pub mod Identity
pub mod Spent
pub mod Admission
pub mod Queue
pub mod Sending
pub mod Acking
pub mod Snapshot
pub mod RoundTrip
mod Examples
use cbcl_pairing.Common.{ℕ, Bool, Octets, List, Option}
use cbcl_pairing.Wire.{ClaimToken, CloseReason}

abbrev pub default_ttl_seconds : ℕ
default_ttl_seconds = 600

abbrev pub min_ttl_seconds : ℕ
min_ttl_seconds = 60

abbrev pub max_ttl_seconds : ℕ
max_ttl_seconds = 86_400

abbrev pub v2_ttl_seconds : ℕ
v2_ttl_seconds = 900

abbrev pub max_frames_per_membership : ℕ
max_frames_per_membership = 16

abbrev pub max_frame_body_bytes : ℕ
max_frame_body_bytes = 69_632

-- The ceiling that `allocate` and `from_snapshot` put on a nameplate.
abbrev pub max_nameplate : ℕ
max_nameplate = 999_999_999

-- `MembershipHash([u8; 32])`.
abbrev pub MembershipHash : Type 0
MembershipHash = Octets

pub data Membership : Type 0 where
  allocator claimant : Membership

abbrev pub peer : Membership → Membership
peer allocator = claimant
peer claimant = allocator

pub record AllocationInput : Type 0 where
  pub mailbox_id : Octets
  pub nameplate : Option ℕ
  pub allocator_hash : MembershipHash
  pub now : ℕ
  pub ttl_seconds : Option ℕ

pub record V2AllocationInput : Type 0 where
  pub mailbox_id : Octets
  pub allocator_hash : MembershipHash
  pub claim_commitment : Octets
  pub now : ℕ
  pub ttl_seconds : Option ℕ

pub data MailboxCommand : Type 0 where
  claim : MembershipHash → MailboxCommand
  claim_v2 : MembershipHash → ClaimToken → MailboxCommand
  open_member : MembershipHash → MailboxCommand
  put : Membership → ℕ → Octets → MailboxCommand
  ack : Membership → ℕ → MailboxCommand
  close : Membership → MailboxCommand

pub data MailboxEffect : Type 0 where
  claimed : Membership → ℕ → MailboxEffect
  opened : Membership → ℕ → MailboxEffect
  stored : Membership → ℕ → (replay : Bool) → MailboxEffect
  deliver : Membership → ℕ → Octets → MailboxEffect
  body_deleted : Membership → ℕ → MailboxEffect
  terminal : CloseReason → MailboxEffect

pub data MailboxStatus : Type 0 where
  waiting : MailboxStatus
  paired : MailboxStatus
  terminal : CloseReason → MailboxStatus

pub data AdmissionSnapshot : Type 0 where
  v1 : AdmissionSnapshot
  v2_pending : Octets → AdmissionSnapshot
  v2_claimed : AdmissionSnapshot
  v2_closed : AdmissionSnapshot

pub record FrameRecord : Type 0 where
  pub seq : ℕ
  pub digest : Octets
  pub body_len : ℕ
  pub body : Option Octets

pub record MemberState : Type 0 where
  pub hash : MembershipHash
  pub next_seq : ℕ
  pub frames : List FrameRecord

pub record Mailbox : Type 0 where
  pub mailbox_id : Octets
  pub nameplate : Option ℕ
  pub expires_at : ℕ
  pub status : MailboxStatus
  pub admission : AdmissionSnapshot
  pub allocator : MemberState
  pub claimant : Option MemberState
  pub queue_bytes : ℕ

-- `state` is `none` once the original expiry has reaped the mailbox.
pub record MailboxTransition : Type 0 where
  pub state : Option Mailbox
  pub effects : List MailboxEffect

pub data MailboxError : Type 0 where
  lifetime_out_of_range : MailboxError
  expiry_overflow : MailboxError
  nameplate_out_of_range : MailboxError
  not_member : MailboxError
  closed : CloseReason → MailboxError
  sequence_gap : (expected got : ℕ) → MailboxError
  frame_limit : MailboxError
  body_size : MailboxError
  unknown_sequence : MailboxError
  membership_collision : MailboxError
  invalid_snapshot : MailboxError

unfoldable pub wire_code : MailboxError → ℕ
wire_code lifetime_out_of_range = 400
wire_code nameplate_out_of_range = 400
wire_code not_member = 404
wire_code (closed _) = 410
wire_code body_size = 413
wire_code expiry_overflow = 503
wire_code invalid_snapshot = 503
wire_code (sequence_gap _ _) = 409
wire_code frame_limit = 409
wire_code unknown_sequence = 409
wire_code membership_collision = 409
