-- ===== src/Mailbox/Drain.antt =====
-- What `delete_bodies`, `terminate` and `reap` of src/mailbox.rs do to a well-formed mailbox.
use cbcl_pairing.Common.{
  ℕ, ◌+◌, ◌-◌, ◌≤◌, ◌≡◌, Octets, List, [], ◌∷◌, ◌++◌, map, Option, none, some, arith, ok, inl, inr,
  Option-cases, if◌then◌else◌,
}
use cbcl_pairing.Wire.{CloseReason}
use cbcl_pairing.Mailbox.{
  Membership, FrameRecord, MemberState, Mailbox, MailboxEffect, MailboxStatus, AdmissionSnapshot,
}
use cbcl_pairing.Mailbox.Terminal.{keeps, is_v1, terminate, is_terminal, reap}
use cbcl_pairing.Mailbox.Bodies.{take_bodies, take_claimant_bodies, delete_bodies}
use cbcl_pairing.Mailbox.Invariant.{queued, member_queued}

abbrev pub cleared : FrameRecord → FrameRecord
cleared f = record f { body = none }

abbrev pub cleared_member : MemberState → MemberState
cleared_member s = record s { frames = map cleared s.frames }

abbrev pub cleared_claimant : Option MemberState → Option MemberState
cleared_claimant none = none
cleared_claimant (some s) = some (cleared_member s)

-- One `BodyDeleted` for each queued body, in order.
abbrev pub deletion : Membership → ℕ → Option Octets → List MailboxEffect
deletion owner seq none = []
deletion owner seq (some b) = MailboxEffect.body_deleted owner seq ∷ []

abbrev pub deletions : Membership → List FrameRecord → List MailboxEffect
deletions owner [] = []
deletions owner (f ∷ fs) = deletion owner f.seq f.body ++ deletions owner fs

abbrev pub claimant_deletions : Option MemberState → List MailboxEffect
claimant_deletions none = []
claimant_deletions (some s) = deletions Membership.claimant s.frames

abbrev pub all_deletions : Mailbox → List MailboxEffect
all_deletions m = deletions Membership.allocator m.allocator.frames ++ claimant_deletions m.claimant

abbrev pub drained : Mailbox → Mailbox
drained m = record m {
  allocator = cleared_member m.allocator;
  claimant = cleared_claimant m.claimant;
  queue_bytes = 0;
}

take_bodies_lem :
    (owner : Membership) (fs : List FrameRecord) (q : ℕ)
    → queued fs ≤ q
    → take_bodies owner fs q ≡ ok (map cleared fs, q - queued fs, deletions owner fs)
unfolding take_bodies
take_bodies_lem owner [] q h = ground arith
take_bodies_lem owner (f ∷ fs) q h = elim (Option-cases f.body) [
  | inl e ↦ ground (arith, take_bodies_lem owner fs q)
  | inr (b, e) ↦ ground (arith, take_bodies_lem owner fs (q - f.body_len))
]

take_claimant_bodies_lem :
    (c : Option MemberState) (q : ℕ)
    → member_queued c ≤ q
    → take_claimant_bodies c q ≡ ok (cleared_claimant c, q - member_queued c, claimant_deletions c)
unfolding take_claimant_bodies
take_claimant_bodies_lem none q h = ground arith
take_claimant_bodies_lem (some s) q h =
    ground (arith, take_bodies_lem Membership.claimant s.frames q)

pub delete_bodies_lem :
    (m : Mailbox)
    → m.queue_bytes ≡ queued m.allocator.frames + member_queued m.claimant
    → delete_bodies m ≡ ok (drained m, all_deletions m)
unfolding delete_bodies
delete_bodies_lem m h = ground (
  arith,
  take_bodies_lem Membership.allocator m.allocator.frames m.queue_bytes,
  take_claimant_bodies_lem m.claimant (m.queue_bytes - queued m.allocator.frames),
)

-- The mailbox that `terminate` leaves.
abbrev pub closed_as : Mailbox → CloseReason → Mailbox
closed_as m reason = record (drained m) {
  status = MailboxStatus.terminal reason;
  admission = if is_v1 m.admission then m.admission else AdmissionSnapshot.v2_closed;
}

pub terminate_lem :
    (m : Mailbox) (reason : CloseReason)
    → m.queue_bytes ≡ queued m.allocator.frames + member_queued m.claimant
    → terminate m reason
      ≡ ok (keeps (closed_as m reason) (all_deletions m ++ (MailboxEffect.terminal reason ∷ [])))
unfolding terminate
terminate_lem m reason h = rw (delete_bodies_lem m h, terminate)

-- The `Terminal` effect of `reap`, which a mailbox that is terminal already does not repeat.
abbrev pub expiry_effect : MailboxStatus → List MailboxEffect
expiry_effect s = if is_terminal s then [] else MailboxEffect.terminal CloseReason.expired ∷ []

pub reap_lem :
    (m : Mailbox) (now : ℕ)
    → m.queue_bytes ≡ queued m.allocator.frames + member_queued m.claimant
    → m.expires_at ≤ now
    → reap m now ≡ ok (record { state = none; effects = all_deletions m ++ expiry_effect m.status })
unfolding reap
reap_lem m now h late = ground (arith, delete_bodies_lem m h)
