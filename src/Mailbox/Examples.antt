-- ===== src/Mailbox/Examples.antt =====
-- The theorems on src/mailbox.rs at concrete mailboxes, with a stand-in for the hash.
use cbcl_pairing.Common.{
  ℕ, ◌+◌, ◌*◌, ◌≤◌, ◌≡◌, refl, Octets, octets_cmp, [], ◌∷◌, ◌++◌, none, some, false, arith, ok, err,
}
use cbcl_pairing.Wire.{CloseReason, claim_commitment}
use cbcl_pairing.Mailbox.{
  AllocationInput, Membership, FrameRecord, MemberState, Mailbox, MailboxCommand, MailboxEffect,
  MailboxError, MailboxStatus, MailboxTransition, AdmissionSnapshot, max_frames_per_membership,
  max_frame_body_bytes,
}
use cbcl_pairing.Mailbox.Allocate.{allocate}
use cbcl_pairing.Mailbox.Terminal.{keeps}
use cbcl_pairing.Mailbox.Claims.{claim_v2, joined}
use cbcl_pairing.Mailbox.Frames.{put, put_new}
use cbcl_pairing.Mailbox.Step.{dispatch, transition}
use cbcl_pairing.Mailbox.Invariant.{IsValid, queued}
use cbcl_pairing.Mailbox.Drain.{all_deletions, closed_as}
use cbcl_pairing.Mailbox.Safety.{IsSafe}
use cbcl_pairing.Mailbox.Safety.Step.{transition-IsSafe}
use cbcl_pairing.Mailbox.Reach.{Reachable, Reachable-IsValid, Reachable-queue_bytes}
use cbcl_pairing.Mailbox.Identity.{IsSame, transition-IsSame, transition-expired, close_is_final}
use cbcl_pairing.Mailbox.Admission.{claim_v2_iff, claim_v2_once, claim_crowds}
use cbcl_pairing.Mailbox.Spent.{Later}
use cbcl_pairing.Mailbox.Claims as MailboxClaims
use cbcl_pairing.Mailbox.Terminal.{terminate}
use cbcl_pairing.Mailbox.Bodies.{delete_bodies, take_bodies, take_claimant_bodies}
use cbcl_pairing.Mailbox.Queue.{queue, open_delivers}
use cbcl_pairing.Mailbox.Sending.{put_appends, stored_put}
use cbcl_pairing.Mailbox.Acking.{ack_removes}
use cbcl_pairing.Mailbox.Snapshot.{snapshot, from_snapshot}
use cbcl_pairing.Mailbox.RoundTrip.{from_snapshot-snapshot}

-- A stand-in for `sha2::Sha256`.
abbrev sum_hash : Octets → Octets
sum_hash b = b

abbrev frame : ℕ → Octets → FrameRecord
frame seq body = record { seq = seq; digest = body; body_len = 2; body = some body }

abbrev alice : MemberState
alice = record {
  hash = 1 ∷ [];
  next_seq = 2;
  frames = frame 0 (5 ∷ 6 ∷ []) ∷ frame 1 (7 ∷ 8 ∷ []) ∷ [];
}

abbrev bob : MemberState
bob = record { hash = 2 ∷ []; next_seq = 0; frames = [] }

-- A paired v1 mailbox with two bodies queued for the claimant.
abbrev paired : Mailbox
paired = record {
  mailbox_id = 9 ∷ [];
  nameplate = some 42;
  expires_at = 1000;
  status = MailboxStatus.paired;
  admission = AdmissionSnapshot.v1;
  allocator = alice;
  claimant = some bob;
  queue_bytes = 4;
}

paired-IsValid : IsValid sum_hash paired
paired-IsValid = ground arith

-- A v2 mailbox that waits for the token 3.
abbrev waiting_v2 : Mailbox
waiting_v2 = record {
  mailbox_id = 9 ∷ [];
  nameplate = none;
  expires_at = 1000;
  status = MailboxStatus.waiting;
  admission = AdmissionSnapshot.v2_pending (claim_commitment sum_hash (9 ∷ []) (3 ∷ []));
  allocator = record { hash = 1 ∷ []; next_seq = 0; frames = [] };
  claimant = none;
  queue_bytes = 0;
}

waiting_v2-IsValid : IsValid sum_hash waiting_v2
waiting_v2-IsValid = ground arith

abbrev input : AllocationInput
input = record {
  mailbox_id = 9 ∷ [];
  nameplate = some 42;
  allocator_hash = 1 ∷ [];
  now = 400;
  ttl_seconds = none;
}

abbrev allocated : Mailbox
allocated = record {
  mailbox_id = 9 ∷ [];
  nameplate = some 42;
  expires_at = 1000;
  status = MailboxStatus.waiting;
  admission = AdmissionSnapshot.v1;
  allocator = record { hash = 1 ∷ []; next_seq = 0; frames = [] };
  claimant = none;
  queue_bytes = 0;
}

abbrev with_body : Mailbox
with_body =
    stored_put sum_hash allocated Membership.allocator
      (record { hash = 1 ∷ []; next_seq = 0; frames = [] }) (5 ∷ 6 ∷ [])

with_body-Reachable : Reachable sum_hash with_body
unfolding allocate transition dispatch put put_new
with_body-Reachable =
    Reachable.stepped 500 (MailboxCommand.put Membership.allocator 0 (5 ∷ 6 ∷ []))
      (keeps with_body (MailboxEffect.stored Membership.allocator 0 false ∷ []))
      (Reachable.allocated input refl) refl refl

transition-IsSafe_example :
    IsSafe sum_hash (transition sum_hash paired 10 (MailboxCommand.ack Membership.claimant 1))
transition-IsSafe_example =
    transition-IsSafe sum_hash paired 10 (MailboxCommand.ack Membership.claimant 1) paired-IsValid

Reachable-IsValid_example : IsValid sum_hash with_body
Reachable-IsValid_example = Reachable-IsValid sum_hash with_body-Reachable

Reachable-queue_bytes_example :
    (with_body.queue_bytes ≡ queued with_body.allocator.frames + 0)
    × (with_body.queue_bytes ≤ 2 * max_frames_per_membership * max_frame_body_bytes)
Reachable-queue_bytes_example = Reachable-queue_bytes sum_hash with_body-Reachable

transition-IsSame_example : IsSame allocated with_body
unfolding transition dispatch put put_new
transition-IsSame_example =
    transition-IsSame sum_hash allocated with_body 500
      (MailboxCommand.put Membership.allocator 0 (5 ∷ 6 ∷ []))
      (keeps with_body (MailboxEffect.stored Membership.allocator 0 false ∷ [])) (ground arith) refl
      refl

transition-expired_example :
    transition sum_hash paired 1000 (MailboxCommand.open_member (2 ∷ []))
    ≡ ok (record {
      state = none;
      effects =
          MailboxEffect.body_deleted Membership.allocator 0
          ∷ MailboxEffect.body_deleted Membership.allocator 1
          ∷ MailboxEffect.terminal CloseReason.expired
          ∷ [];
    })
transition-expired_example =
    transition-expired sum_hash paired 1000 (MailboxCommand.open_member (2 ∷ [])) paired-IsValid
      (omega arith)

close_is_final_example :
    transition sum_hash
      (closed_as paired CloseReason.closed)
      20
      (MailboxCommand.open_member (2 ∷ []))
    ≡ err (MailboxError.closed CloseReason.closed)
close_is_final_example =
    (close_is_final sum_hash paired bob Membership.claimant 10 20
      (MailboxCommand.open_member (2 ∷ [])) paired-IsValid refl refl (omega arith) (omega arith)).1

claim_v2_iff_example :
    (t : MailboxTransition) × (transition sum_hash waiting_v2 10
        (MailboxCommand.claim_v2 (2 ∷ []) (3 ∷ []))
      ≡ ok t)
claim_v2_iff_example =
    (claim_v2_iff sum_hash waiting_v2 10 (2 ∷ []) (3 ∷ []) waiting_v2-IsValid (omega arith)).1
      (refl, λ e. cc)

-- The claim, and a close by the claimant after it.
claim_v2_once_example :
    let n = joined waiting_v2 (2 ∷ []) AdmissionSnapshot.v2_claimed in
    let o = closed_as n CloseReason.closed in
    (n.status ≡ MailboxStatus.paired)
    × (n.admission ≡ AdmissionSnapshot.v2_claimed)
    × (transition sum_hash o 20 (MailboxCommand.claim_v2 (4 ∷ []) (3 ∷ []))
        ≡ err (MailboxError.closed CloseReason.closed))
    × (transition sum_hash o 20 (MailboxCommand.claim (4 ∷ []))
        ≡ err (MailboxError.closed CloseReason.closed))
unfolding transition dispatch claim_v2 claim_commitment octets_cmp MailboxClaims.close terminate
    delete_bodies take_bodies take_claimant_bodies
claim_v2_once_example =
    let n = joined waiting_v2 (2 ∷ []) AdmissionSnapshot.v2_claimed in
    let o = closed_as n CloseReason.closed in
    claim_v2_once sum_hash waiting_v2 n o 10 20 (2 ∷ []) (4 ∷ []) (3 ∷ []) (3 ∷ [])
      (keeps n (MailboxEffect.claimed Membership.claimant 1000 ∷ [])) (omega arith) refl refl
      (Later.next 15 (MailboxCommand.close Membership.claimant)
        (keeps o (all_deletions n ++ (MailboxEffect.terminal CloseReason.closed ∷ []))) Later.same
        refl refl)
      (omega arith)

claim_crowds_example :
    transition sum_hash paired 10 (MailboxCommand.claim (3 ∷ []))
    ≡ ok (
        keeps
          (closed_as paired CloseReason.crowded)
          (all_deletions paired ++ (MailboxEffect.terminal CloseReason.crowded ∷ [])))
claim_crowds_example =
    claim_crowds sum_hash paired bob 10 (3 ∷ []) paired-IsValid (omega arith) refl refl refl
      (λ e. cc) (λ e. cc)

open_delivers_example :
    transition sum_hash paired 10 (MailboxCommand.open_member (2 ∷ []))
    ≡ ok (
        keeps paired (
          MailboxEffect.opened Membership.claimant 1000
          ∷ MailboxEffect.deliver Membership.claimant 0 (5 ∷ 6 ∷ [])
          ∷ MailboxEffect.deliver Membership.claimant 1 (7 ∷ 8 ∷ [])
          ∷ []))
open_delivers_example =
    open_delivers sum_hash paired Membership.claimant bob 10 paired-IsValid refl (omega arith) refl

put_appends_example :
    (n : Mailbox) × (transition sum_hash paired 10
        (MailboxCommand.put Membership.allocator 2 (4 ∷ []))
      ≡ ok (
          keeps n (
            MailboxEffect.stored Membership.allocator 2 false
            ∷ MailboxEffect.deliver Membership.claimant 2 (4 ∷ [])
            ∷ [])))
    × (queue n Membership.allocator ≡ (0, 5 ∷ 6 ∷ []) ∷ (1, 7 ∷ 8 ∷ []) ∷ (2, 4 ∷ []) ∷ [])
    × (queue n Membership.claimant ≡ [])
put_appends_example =
    put_appends sum_hash paired Membership.allocator alice (4 ∷ []) 10 paired-IsValid refl
      (omega arith) refl (omega arith) (omega arith) (omega arith)

ack_removes_example :
    (n : Mailbox) × (transition sum_hash paired 10 (MailboxCommand.ack Membership.claimant 0)
      ≡ ok (keeps n (MailboxEffect.body_deleted Membership.allocator 0 ∷ [])))
    × (queue n Membership.allocator ≡ (1, 7 ∷ 8 ∷ []) ∷ [])
    × (queue n Membership.claimant ≡ [])
ack_removes_example =
    ack_removes sum_hash paired Membership.claimant bob alice 0 10 paired-IsValid refl (omega arith)
      refl refl (omega arith)

from_snapshot-snapshot_example : from_snapshot sum_hash (snapshot paired) ≡ ok paired
from_snapshot-snapshot_example = from_snapshot-snapshot sum_hash paired paired-IsValid
