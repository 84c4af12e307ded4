-- ===== src/Mailbox/Reach.antt =====
-- The mailboxes that src/mailbox.rs can produce: allocated by `allocate` or `allocate_v2`, then any
-- sequence of successful transitions at any times.
use cbcl_pairing.Common.{ℕ, ◌≡◌, Octets, some, arith, ◌+◌, ok, ◌≤◌, ◌*◌, Outcome}
use cbcl_pairing.Mailbox.{
  AllocationInput, V2AllocationInput, Mailbox, MailboxCommand, MailboxTransition, MailboxError,
  max_frame_body_bytes, max_frames_per_membership,
}
use cbcl_pairing.Mailbox.Allocate.{allocate, allocate_v2}
use cbcl_pairing.Mailbox.Step.{transition}
use cbcl_pairing.Mailbox.Invariant.{IsValid, queued, member_queued}
use cbcl_pairing.Mailbox.Safety.{IsSafe}
use cbcl_pairing.Mailbox.Safety.PutAck.{queue_bytes-le}
use cbcl_pairing.Mailbox.Safety.Step.{transition-IsSafe}

module _ (sha256 : Octets → Octets) where
  pub data Reachable : Mailbox → Type 0 where
    allocated : {m : Mailbox} (i : AllocationInput) → allocate i ≡ ok m → Reachable m
    allocated_v2 : {m : Mailbox} (i : V2AllocationInput) → allocate_v2 i ≡ ok m → Reachable m
    stepped :
        {m n : Mailbox} (now : ℕ) (c : MailboxCommand) (t : MailboxTransition)
        → Reachable m
        → transition sha256 m now c ≡ ok t
        → t.state ≡ some n
        → Reachable n

  pub allocate-IsValid : (i : AllocationInput) (m : Mailbox) → allocate i ≡ ok m → IsValid sha256 m
  unfolding allocate
  allocate-IsValid i m e = ground arith

  pub allocate_v2-IsValid :
      (i : V2AllocationInput) (m : Mailbox) → allocate_v2 i ≡ ok m → IsValid sha256 m
  unfolding allocate_v2
  allocate_v2-IsValid i m e = ground arith

  pub state-IsValid :
      {n : Mailbox} (r : Outcome MailboxError MailboxTransition) (t : MailboxTransition)
      → IsSafe sha256 r
      → r ≡ ok t
      → t.state ≡ some n
      → IsValid sha256 n
  state-IsValid r t s e f = ground arith

  -- Every mailbox that the program can produce (allocated, then any sequence of successful
  -- transitions at any times) is well formed.
  pub Reachable-IsValid : {m : Mailbox} → Reachable m → IsValid sha256 m
  Reachable-IsValid (allocated i e) = allocate-IsValid i _ e
  Reachable-IsValid (allocated_v2 i e) = allocate_v2-IsValid i _ e
  Reachable-IsValid (stepped now c t r e f) =
      state-IsValid _ t (transition-IsSafe sha256 _ now c (Reachable-IsValid r)) e f

  -- A mailbox that the program can produce accounts exactly for the bytes that it queues, and
  -- they are at most 16 frames of 69,632 bytes for each of its two memberships.
  pub Reachable-queue_bytes :
      {m : Mailbox}
      → Reachable m
      → (m.queue_bytes ≡ queued m.allocator.frames + member_queued m.claimant)
        × (m.queue_bytes ≤ 2 * max_frames_per_membership * max_frame_body_bytes)
  Reachable-queue_bytes r = let v = Reachable-IsValid r in (v.accounted, queue_bytes-le sha256 _ v)
