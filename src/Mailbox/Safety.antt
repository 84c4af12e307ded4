-- ===== src/Mailbox/Safety.antt =====
-- Every operation of src/mailbox.rs keeps the invariant, and none of its `expect` calls fails.
pub mod FrameLists
pub mod PutAck
pub mod Step
use cbcl_pairing.Common.{
  ℕ, suc, zero, ◌+◌, ◌-◌, ◌≤◌, ◌≡◌, refl, Octets, List, [], ◌∷◌, ◌++◌, map, Option, none, some,
  length, length-append, arith, ok, Outcome, Safe, if◌then◌else◌, octets_beq_iff, Bool-cases, inl,
  inr, Option-cases,
}
use cbcl_pairing.Wire.{CloseReason}
use cbcl_pairing.Mailbox.{
  Membership, FrameRecord, MemberState, Mailbox, MailboxTransition, MailboxError, MailboxStatus,
  AdmissionSnapshot, MailboxCommand, MembershipHash,
}
use cbcl_pairing.Mailbox.Terminal.{Attempt, is_v1, terminate, reap, keeps, member, set_member}
use cbcl_pairing.Mailbox.Claims.{claim, claim_v2, open_member, close}
use cbcl_pairing.Mailbox.Frames.{put, put_again, put_new, ack, take_body, acknowledged, pushed}
use cbcl_pairing.Mailbox.Step.{dispatch, transition}
use cbcl_pairing.Mailbox.Invariant.{
  IsOther, Phase, queued, queued_len, member_queued, queued-append, Numbered, IsFrame, IsMember,
  IsClaimant, IsValid,
}
use cbcl_pairing.Mailbox.Drain.{
  cleared, cleared_claimant, delete_bodies_lem, cleared_member, closed_as, terminate_lem, reap_lem,
}

length-cleared : (fs : List FrameRecord) → length (map cleared fs) ≡ length fs
length-cleared [] = refl
length-cleared (f ∷ fs) = omega (arith, length-cleared fs)

queued-cleared : (fs : List FrameRecord) → queued (map cleared fs) ≡ 0
queued-cleared [] = refl
queued-cleared (f ∷ fs) = omega (arith, queued-cleared fs)

member_queued-cleared : (c : Option MemberState) → member_queued (cleared_claimant c) ≡ 0
member_queued-cleared none = refl
member_queued-cleared (some s) = queued-cleared s.frames

cleared-IsOther :
    (h : MembershipHash) (c : Option MemberState) → IsOther h c → IsOther h (cleared_claimant c)
cleared-IsOther h none d = tt
cleared-IsOther h (some s) d = d

closed-Phase :
    (s : MailboxStatus) (a : AdmissionSnapshot) (c : Option MemberState) (n : Option ℕ)
    (r : CloseReason)
    → Phase s a c n
    → Phase
        (MailboxStatus.terminal r)
        (if is_v1 a then a else AdmissionSnapshot.v2_closed)
        (cleared_claimant c)
        n
closed-Phase s AdmissionSnapshot.v1 c n r p = tt
closed-Phase MailboxStatus.waiting (AdmissionSnapshot.v2_pending _) c n r p = p.1
closed-Phase MailboxStatus.paired AdmissionSnapshot.v2_claimed c n r p = p.1
closed-Phase (MailboxStatus.terminal _) AdmissionSnapshot.v2_closed c n r p = p
closed-Phase _ _ c n r p = absurd p

module _ (sha256 : Octets → Octets) where
  abbrev pub IsValidState : Option Mailbox → Type 0
  IsValidState none = Unit
  IsValidState (some m) = IsValid sha256 m

  abbrev pub IsSafe : Attempt → Type 0
  IsSafe = Safe (λ t. IsValidState t.state)

  cleared-Numbered :
      (i : ℕ) (fs : List FrameRecord) → Numbered sha256 i fs → Numbered sha256 i (map cleared fs)
  cleared-Numbered i [] h = tt
  cleared-Numbered i (f ∷ fs) h = (
    h.0,
    record { nonempty = h.1.nonempty; bounded = h.1.bounded; matches = tt },
    cleared-Numbered (suc i) fs h.2,
  )

  cleared-IsMember : (s : MemberState) → IsMember sha256 s → IsMember sha256 (cleared_member s)
  cleared-IsMember s v = record {
    numbered = cleared-Numbered 0 s.frames v.numbered;
    counted = omega (arith, v.counted, length-cleared s.frames);
    limited = omega (arith, v.limited, length-cleared s.frames);
  }

  cleared-IsClaimant :
      (c : Option MemberState) → IsClaimant sha256 c → IsClaimant sha256 (cleared_claimant c)
  cleared-IsClaimant none v = tt
  cleared-IsClaimant (some s) v = cleared-IsMember s v

  pub closed_as-IsValid :
      (m : Mailbox) (reason : CloseReason) → IsValid sha256 m → IsValid sha256 (closed_as m reason)
  closed_as-IsValid m reason v = record {
    allocator = cleared-IsMember m.allocator v.allocator;
    claimant = cleared-IsClaimant m.claimant v.claimant;
    accounted = omega (arith, queued-cleared m.allocator.frames, member_queued-cleared m.claimant);
    distinct = cleared-IsOther m.allocator.hash m.claimant v.distinct;
    phase = closed-Phase m.status m.admission m.claimant m.nameplate reason v.phase;
    drained = refl;
    expiry = v.expiry;
    nameplate = v.nameplate;
  }

  pub terminate-IsSafe :
      (m : Mailbox) (reason : CloseReason) → IsValid sha256 m → IsSafe (terminate m reason)
  terminate-IsSafe m reason v =
      rw (terminate_lem m reason v.accounted) (closed_as-IsValid m reason v)

  pub reap-IsSafe : (m : Mailbox) (now : ℕ) → IsValid sha256 m → IsSafe (reap m now)
  unfolding reap
  reap-IsSafe m now v = ground (arith, delete_bodies_lem m v.accounted)

  pub claim-IsSafe :
      (m : Mailbox) (hash : MembershipHash) → IsValid sha256 m → IsSafe (claim m hash)
  unfolding claim
  claim-IsSafe m hash v =
      ground (arith, terminate-IsSafe m CloseReason.crowded v, octets_beq_iff hash m.allocator.hash)

  pub claim_v2-IsSafe :
      (m : Mailbox) (hash : MembershipHash) (token : Octets)
      → IsValid sha256 m
      → IsSafe (claim_v2 sha256 m hash token)
  unfolding claim_v2
  claim_v2-IsSafe m hash token v = ground (arith, octets_beq_iff hash m.allocator.hash)

  pub open_member-IsSafe :
      (m : Mailbox) (hash : MembershipHash) → IsValid sha256 m → IsSafe (open_member m hash)
  unfolding open_member
  open_member-IsSafe m hash v = ground arith

  pub close-IsSafe : (m : Mailbox) (s : Membership) → IsValid sha256 m → IsSafe (close m s)
  unfolding close
  close-IsSafe m s v = ground (arith, terminate-IsSafe m CloseReason.closed v)
