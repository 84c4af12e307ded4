-- ===== src/Mailbox/Claims.antt =====
-- src/mailbox.rs: the commands `Claim`, `ClaimV2`, `Open` and `Close` of `transition`. The hash
-- `sha2::Sha256` is a parameter; `ct_eq` is equality of octets.
use cbcl_pairing.Common.{
  Octets, List, [], ◌∷◌, Option, none, some, ◌||◌, not, ◌==◌, octets_ordered, if◌then◌else◌,
  is_some, ok, err, ◌>>=◌, ok_or,
}
use cbcl_pairing.Wire.{CloseReason, ClaimToken, claim_commitment}
use cbcl_pairing.Mailbox.{
  Membership, FrameRecord, MemberState, Mailbox, MailboxEffect, MailboxError, MailboxStatus,
  AdmissionSnapshot, MembershipHash, peer,
}
use cbcl_pairing.Mailbox.Allocate.{new_member}
use cbcl_pairing.Mailbox.Terminal.{Attempt, keeps, member, membership_for_hash, is_v1, terminate}

-- The mailbox after its first accepted claim, and the transition to it.
abbrev pub joined : Mailbox → MembershipHash → AdmissionSnapshot → Mailbox
joined m hash admission = record m {
  claimant = some (new_member hash);
  status = MailboxStatus.paired;
  admission = admission;
}

abbrev pub join : Mailbox → MembershipHash → AdmissionSnapshot → Attempt
join m hash admission =
    ok (
      keeps (joined m hash admission) (MailboxEffect.claimed Membership.claimant m.expires_at ∷ []))

unfoldable pub claim : Mailbox → MembershipHash → Attempt
claim m hash =
    if not (is_v1 m.admission)
    then err MailboxError.not_member
    else if hash == m.allocator.hash
    then err MailboxError.membership_collision
    else elim m.claimant [
      | none ↦ join m hash m.admission
      | some c ↦
          if c.hash == hash
          then err MailboxError.membership_collision
          else terminate m CloseReason.crowded
    ]

-- The retained commitment of a mailbox that waits for its v2 claimant.
abbrev pub pending_commitment : AdmissionSnapshot → Option Octets
pending_commitment (AdmissionSnapshot.v2_pending expected) = some expected
pending_commitment _ = none

unfoldable pub claim_v2 : (Octets → Octets) → Mailbox → MembershipHash → ClaimToken → Attempt
claim_v2 sha256 m hash token = do
  expected ← ok_or (pending_commitment m.admission) MailboxError.not_member
  let presented = claim_commitment sha256 m.mailbox_id token
  if not (expected == presented)
      then err MailboxError.not_member
      else if hash == m.allocator.hash || is_some m.claimant
      then err MailboxError.membership_collision
      else join m hash AdmissionSnapshot.v2_claimed

-- A `Deliver` effect for each body that is still queued.
unfoldable pub deliveries : Membership → List FrameRecord → List MailboxEffect
deliveries recipient [] = []
deliveries recipient (f ∷ fs) = elim f.body [
  | none ↦ deliveries recipient fs
  | some body ↦ MailboxEffect.deliver recipient f.seq body ∷ deliveries recipient fs
]

-- None for a peer who has not joined.
unfoldable pub peer_deliveries : Membership → Option MemberState → List MailboxEffect
peer_deliveries recipient none = []
peer_deliveries recipient (some p) = deliveries recipient p.frames

unfoldable pub open_member : Mailbox → MembershipHash → Attempt
open_member m hash = do
  membership ← ok_or (membership_for_hash m hash) MailboxError.not_member
  ok (
      keeps m (
        MailboxEffect.opened membership m.expires_at
        ∷ peer_deliveries membership (member m (peer membership))))

unfoldable pub close : Mailbox → Membership → Attempt
close m sender = do
  _ ← ok_or (member m sender) MailboxError.not_member
  terminate m CloseReason.closed
