-- ===== src/Mailbox/Bodies.antt =====
-- src/mailbox.rs: the frames of a membership, and the deletion of queued bodies. `queue_bytes` is
-- threaded through; `expect` on an underflow is a panic.
use cbcl_pairing.Common.{
  ℕ, List, [], ◌∷◌, ◌++◌, Option, none, some, checked_sub, Outcome, ok, ◌>>=◌, expect,
}
use cbcl_pairing.Mailbox.{
  Membership, FrameRecord, MemberState, Mailbox, MailboxEffect, MailboxError, body_deleted,
}

-- The inner loop of `delete_bodies`, over one member's frames.
unfoldable pub take_bodies :
    Membership
    → List FrameRecord
    → ℕ
    → Outcome MailboxError (List FrameRecord × ℕ × List MailboxEffect)
take_bodies owner [] queue = ok ([], queue, [])
take_bodies owner (f ∷ fs) queue = elim f.body [
  | none ↦ do (fs', queue', effects) ← take_bodies owner fs queue; ok (f ∷ fs', queue', effects)
  | some body ↦ do
    less ← expect (checked_sub queue f.body_len)
    (fs', queue', effects) ← take_bodies owner fs less
    ok (record f { body = none } ∷ fs', queue', body_deleted owner f.seq ∷ effects)
]

-- One iteration of the outer loop; there is none for a claimant who has not joined.
unfoldable pub take_claimant_bodies :
    Option MemberState → ℕ → Outcome MailboxError (Option MemberState × ℕ × List MailboxEffect)
take_claimant_bodies none queue = ok (none, queue, [])
take_claimant_bodies (some m) queue = do
  (fs, queue', effects) ← take_bodies Membership.claimant m.frames queue
  ok (some (record m { frames = fs }), queue', effects)

unfoldable pub delete_bodies : Mailbox → Outcome MailboxError (Mailbox × List MailboxEffect)
unfolding take_claimant_bodies
delete_bodies m = do
  (fs, queue, effects) ← take_bodies Membership.allocator m.allocator.frames m.queue_bytes
  (c, queue', effects') ← take_claimant_bodies m.claimant queue
  ok (
    record m { allocator = record m.allocator { frames = fs }; claimant = c; queue_bytes = queue' },
    effects ++ effects',
  )
