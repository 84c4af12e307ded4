-- ===== src/Mailbox/Queue.antt =====
-- A mailbox of src/mailbox.rs as two first-in first-out queues, one for each sender: `put` appends,
-- `ack` removes one entry, and `open` delivers all of them, in order.
use cbcl_pairing.Common.{
  ℕ, ◌<◌, ◌≡◌, refl, Octets, octets_beq_iff, octets_beq_self, List, [], ◌∷◌, ◌++◌, map, Option,
  none, some, false, arith, ok,
}
use cbcl_pairing.Mailbox.{
  Membership, FrameRecord, MemberState, Mailbox, MailboxCommand, MailboxEffect, peer,
}
use cbcl_pairing.Mailbox.Terminal.{keeps, member, is_terminal, membership_for_hash}
use cbcl_pairing.Mailbox.Claims.{open_member, deliveries, peer_deliveries}
use cbcl_pairing.Mailbox.Step.{dispatch, transition}
use cbcl_pairing.Mailbox.Invariant.{IsValid}

-- The unacknowledged bodies of a sender with their sequence numbers, oldest first.
abbrev pub entry : ℕ → Option Octets → List (ℕ × Octets)
entry seq none = []
entry seq (some body) = (seq, body) ∷ []

abbrev pub pending : List FrameRecord → List (ℕ × Octets)
pending [] = []
pending (f ∷ fs) = entry f.seq f.body ++ pending fs

abbrev pub pending_of : Option MemberState → List (ℕ × Octets)
pending_of none = []
pending_of (some s) = pending s.frames

-- The queue of what `sender` has sent.
abbrev pub queue : Mailbox → Membership → List (ℕ × Octets)
queue m sender = pending_of (member m sender)

abbrev pub delivery : Membership → ℕ × Octets → MailboxEffect
delivery recipient (seq, body) = MailboxEffect.deliver recipient seq body

deliveries-pending :
    (r : Membership) (fs : List FrameRecord) → deliveries r fs ≡ map (delivery r) (pending fs)
unfolding deliveries
deliveries-pending r [] = refl
deliveries-pending r (f ∷ fs) = ground (arith, deliveries-pending r fs)

peer_deliveries-pending :
    (r : Membership) (c : Option MemberState)
    → peer_deliveries r c ≡ map (delivery r) (pending_of c)
unfolding peer_deliveries
peer_deliveries-pending r none = refl
peer_deliveries-pending r (some s) = deliveries-pending r s.frames

pub pending-append : (fs gs : List FrameRecord) → pending (fs ++ gs) ≡ pending fs ++ pending gs
pending-append [] gs = refl
pending-append (f ∷ fs) gs = ground (arith, pending-append fs gs)

module _ (sha256 : Octets → Octets) where
  membership_for_own_hash :
      (m : Mailbox) (who : Membership) (s : MemberState)
      → IsValid sha256 m
      → member m who ≡ some s
      → membership_for_hash m s.hash ≡ some who
  unfolding membership_for_hash
  membership_for_own_hash m Membership.allocator s v e =
      ground (arith, octets_beq_self m.allocator.hash)
  membership_for_own_hash m Membership.claimant s v e =
      ground (arith, octets_beq_self s.hash, octets_beq_iff m.allocator.hash s.hash)

  -- A member of a live well-formed mailbox who opens it under its own hash is recognised,
  -- changes nothing, and is offered exactly the unacknowledged bodies of its peer, in order.
  pub open_delivers :
      (m : Mailbox) (who : Membership) (s : MemberState) (now : ℕ)
      → IsValid sha256 m
      → is_terminal m.status ≡ false
      → now < m.expires_at
      → member m who ≡ some s
      → transition sha256 m now (MailboxCommand.open_member s.hash)
        ≡ ok (
            keeps m
              (MailboxEffect.opened who m.expires_at ∷ map (delivery who) (queue m (peer who))))
  unfolding transition dispatch open_member
  open_delivers m who s now v live early e = ground (
    arith,
    membership_for_own_hash m who s v e,
    peer_deliveries-pending who (member m (peer who)),
  )
