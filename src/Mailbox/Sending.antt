-- ===== src/Mailbox/Sending.antt =====
-- `Put` of src/mailbox.rs: when a body is accepted, where it goes, and what a retry does.
use cbcl_pairing.Common.{
  ℕ, ◌+◌, ◌≤◌, ◌<◌, ◌≡◌, refl, Octets, nat_beq, ◌&&◌, ◌==◌, octets_ordered, [], ◌∷◌, ◌++◌, some,
  true, false, if◌then◌else◌, is_some, length, arith, ok,
}
use cbcl_pairing.Mailbox.{
  Membership, MemberState, Mailbox, MailboxCommand, MailboxEffect, max_frame_body_bytes,
  max_frames_per_membership, peer,
}
use cbcl_pairing.Mailbox.Terminal.{Attempt, keeps, member, set_member, is_terminal}
use cbcl_pairing.Mailbox.Frames.{put, put_new, stored_frame, pushed}
use cbcl_pairing.Mailbox.Step.{dispatch, transition}
use cbcl_pairing.Mailbox.Invariant.{IsMember, IsValid}
use cbcl_pairing.Mailbox.Safety.PutAck.{queue_bytes-le}
use cbcl_pairing.Mailbox.Safety.PutAck.{member-IsMember}
use cbcl_pairing.Mailbox.Drain.{all_deletions, closed_as}
use cbcl_pairing.Mailbox.Queue.{queue, pending-append}
use cbcl_pairing.Wire.{CloseReason}

module _ (sha256 : Octets → Octets) where
  -- The mailbox after `sender` has stored its next body.
  abbrev pub stored_put : Mailbox → Membership → MemberState → Octets → Mailbox
  stored_put m sender s body =
      record (set_member m sender (pushed s (stored_frame s.next_seq (sha256 body) body))) {
        queue_bytes = m.queue_bytes + length body;
      }

  pub put-stored_put :
      (m : Mailbox) (sender : Membership) (s : MemberState) (body : Octets) (now : ℕ)
      → IsValid sha256 m
      → is_terminal m.status ≡ false
      → now < m.expires_at
      → member m sender ≡ some s
      → 0 < length body
      → length body ≤ max_frame_body_bytes
      → s.next_seq < max_frames_per_membership
      → IsMember sha256 s
      → transition sha256 m now (MailboxCommand.put sender s.next_seq body)
        ≡ ok (
            keeps (stored_put m sender s body) (
              MailboxEffect.stored sender s.next_seq false
              ∷ (if is_some (member m (peer sender))
                  then MailboxEffect.deliver (peer sender) s.next_seq body ∷ []
                  else [])))
  unfolding transition dispatch put put_new
  put-stored_put m sender s [] now v live early e pos bound room w = absurd (omega arith)
  put-stored_put m sender s (b ∷ bs) now v live early e pos bound room w =
      ground (arith, queue_bytes-le sha256 m v)

  pub stored_put-queue :
      (m : Mailbox) (sender : Membership) (s : MemberState) (body : Octets)
      → member m sender ≡ some s
      → queue (stored_put m sender s body) sender ≡ queue m sender ++ ((s.next_seq, body) ∷ [])
  stored_put-queue m Membership.allocator s body e =
      ground (arith, pending-append s.frames (stored_frame s.next_seq (sha256 body) body ∷ []))
  stored_put-queue m Membership.claimant s body e =
      ground (arith, pending-append s.frames (stored_frame s.next_seq (sha256 body) body ∷ []))

  pub stored_put-other :
      (m : Mailbox) (sender : Membership) (s : MemberState) (body : Octets)
      → queue (stored_put m sender s body) (peer sender) ≡ queue m (peer sender)
  stored_put-other m Membership.allocator s body = refl
  stored_put-other m Membership.claimant s body = refl

  -- The next body of a member of a live well-formed mailbox, if its size is in range and fewer
  -- than 16 were sent, goes to the end of the member's queue, leaves the other queue as it was,
  -- and is offered at once exactly if the peer has joined.
  pub put_appends :
      (m : Mailbox) (sender : Membership) (s : MemberState) (body : Octets) (now : ℕ)
      → IsValid sha256 m
      → is_terminal m.status ≡ false
      → now < m.expires_at
      → member m sender ≡ some s
      → 0 < length body
      → length body ≤ max_frame_body_bytes
      → s.next_seq < max_frames_per_membership
      → (n : Mailbox) × (transition sha256 m now (MailboxCommand.put sender s.next_seq body)
          ≡ ok (
              keeps n (
                MailboxEffect.stored sender s.next_seq false
                ∷ (if is_some (member m (peer sender))
                    then MailboxEffect.deliver (peer sender) s.next_seq body ∷ []
                    else []))))
        × (queue n sender ≡ queue m sender ++ ((s.next_seq, body) ∷ []))
        × (queue n (peer sender) ≡ queue m (peer sender))
  put_appends m sender s body now v live early e pos bound room = (
    stored_put m sender s body,
    put-stored_put m sender s body now v live early e pos bound room
        (member-IsMember sha256 m sender s v e),
    stored_put-queue m sender s body e,
    stored_put-other m sender s body,
  )

  -- The answer to a second body under an accepted sequence number.
  abbrev pub retry : Mailbox → Membership → ℕ → Octets → Octets → Attempt
  retry n sender seq body body' =
      if nat_beq (length body) (length body') && sha256 body == sha256 body'
      then ok (keeps n (MailboxEffect.stored sender seq true ∷ []))
      else ok (
          keeps (closed_as n CloseReason.conflict)
            (all_deletions n ++ (MailboxEffect.terminal CloseReason.conflict ∷ [])))
