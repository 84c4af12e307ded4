-- ===== src/Mailbox/Acking.antt =====
-- `Ack` of src/mailbox.rs on the queue of the peer's bodies.
use cbcl_pairing.Common.{
  ℕ, suc, ◌+◌, ◌-◌, ◌≤◌, ◌<◌, ◌≡◌, ◌≢◌, refl, ◌∙◌, Octets, nat_beq, List, [], ◌∷◌, keep, any, not,
  Bool, none, some, true, false, is_some, length, arith, ok, Option-cases, inl, inr, Bool-cases,
}
use cbcl_pairing.Mailbox.{
  Membership, FrameRecord, MemberState, Mailbox, MailboxCommand, MailboxEffect, peer,
}
use cbcl_pairing.Mailbox.Terminal.{keeps, member, set_member, is_terminal}
use cbcl_pairing.Mailbox.Frames.{ack, acknowledged, take_body}
use cbcl_pairing.Mailbox.Step.{dispatch, transition}
use cbcl_pairing.Mailbox.Invariant.{queued, queued_len, Numbered, IsValid}
use cbcl_pairing.Mailbox.Safety.PutAck.{member-IsMember}
use cbcl_pairing.Mailbox.Queue.{queue, pending}

-- A queue without the entry `seq`, and whether it has one.
abbrev pub without : ℕ → List (ℕ × Octets) → List (ℕ × Octets)
without seq = keep (λ e. not (nat_beq e.0 seq))

abbrev pub has_entry : ℕ → List (ℕ × Octets) → Bool
has_entry seq = any (λ e. nat_beq e.0 seq)

module _ (sha256 : Octets → Octets) where
  pending-above :
      (seq i : ℕ) (fs : List FrameRecord)
      → Numbered sha256 i fs
      → seq < i
      → (without seq (pending fs) ≡ pending fs) × (has_entry seq (pending fs) ≡ false)
  pending-above seq i [] h lt = (refl, refl)
  pending-above seq i (f ∷ fs) h lt = elim (Option-cases f.body) [
    | inl e ↦ ground (arith, pending-above seq (suc i) fs h.2)
    | inr (b, e) ↦ ground (arith, pending-above seq (suc i) fs h.2)
  ]

  -- The frame found, and the frames left.
  record Found (seq : ℕ) (fs : List FrameRecord) (f : FrameRecord) (fs' : List FrameRecord)
      : Type 0 where
    left : pending fs' ≡ without seq (pending fs)
    was : is_some f.body ≡ has_entry seq (pending fs)
    fits : queued_len f.body f.body_len ≤ queued fs

  Found-here :
      (seq i : ℕ) (f : FrameRecord) (fs : List FrameRecord)
      → Numbered sha256 i (f ∷ fs)
      → f.seq ≡ seq
      → Found seq (f ∷ fs) f (record f { body = none } ∷ fs)
  Found-here seq i f fs h e = elim (Option-cases f.body) [
    | inl e' ↦ ground (arith, pending-above seq (suc i) fs h.2)
    | inr (b, e') ↦ ground (arith, pending-above seq (suc i) fs h.2)
  ]

  Found-there :
      (seq : ℕ) (f : FrameRecord) (fs : List FrameRecord) (g : FrameRecord) (gs : List FrameRecord)
      → f.seq ≢ seq
      → Found seq fs g gs
      → Found seq (f ∷ fs) g (f ∷ gs)
  Found-there seq f fs g gs ne found = elim (Option-cases f.body) [
    | inl e ↦ ground arith
    | inr (b, e) ↦ ground arith
  ]

  take_body-Found :
      (seq i : ℕ) (fs : List FrameRecord)
      → Numbered sha256 i fs
      → i ≤ seq
      → seq < i + length fs
      → (f : FrameRecord) × (fs' : List FrameRecord) × (take_body seq fs ≡ some (f, fs'))
        × Found seq fs f fs'
  unfolding take_body
  take_body-Found seq i [] h le lt = absurd (omega arith)
  take_body-Found seq i (f ∷ fs) h le lt = elim (Bool-cases (nat_beq f.seq seq)) [
    | inl hit ↦
        (f, record f { body = none } ∷ fs, ground arith, Found-here seq i f fs h (ground arith))
    | inr miss ↦
        let (g, gs, got, found) = take_body-Found seq (suc i) fs h.2 (ground arith) (omega arith) in
        (g, f ∷ gs, ground arith, Found-there seq f fs g gs (ground arith) found)
  ]

  -- The report of a deletion, if there was a body to delete.
  abbrev pub reported : Bool → Membership → ℕ → List MailboxEffect
  reported true owner seq = MailboxEffect.body_deleted owner seq ∷ []
  reported false owner seq = []

  abbrev acked : Mailbox → Membership → MemberState → FrameRecord → List FrameRecord → Mailbox
  acked m owner s f fs = record (set_member m owner (record s { frames = fs })) {
    queue_bytes = m.queue_bytes - queued_len f.body f.body_len;
  }

  acknowledged-acked :
      (m : Mailbox) (owner : Membership) (s : MemberState) (seq : ℕ) (f : FrameRecord)
      (fs : List FrameRecord)
      → queued_len f.body f.body_len ≤ m.queue_bytes
      → acknowledged (set_member m owner (record s { frames = fs })) m.queue_bytes owner seq f
        ≡ ok (keeps (acked m owner s f fs) (reported (is_some f.body) owner seq))
  unfolding acknowledged
  acknowledged-acked m Membership.allocator s seq f fs h = ground arith
  acknowledged-acked m Membership.claimant s seq f fs h = ground arith

  ack-acked :
      (m : Mailbox) (sender : Membership) (t s : MemberState) (seq now : ℕ) (f : FrameRecord)
      (fs : List FrameRecord)
      → is_terminal m.status ≡ false
      → now < m.expires_at
      → member m sender ≡ some t
      → member m (peer sender) ≡ some s
      → take_body seq s.frames ≡ some (f, fs)
      → queued_len f.body f.body_len ≤ m.queue_bytes
      → transition sha256 m now (MailboxCommand.ack sender seq)
        ≡ ok (keeps (acked m (peer sender) s f fs) (reported (is_some f.body) (peer sender) seq))
  unfolding transition dispatch ack
  ack-acked m sender t s seq now f fs live early here there got fits =
      let done = acknowledged-acked m (peer sender) s seq f fs fits in ground (arith, done)

  acked-queue :
      (m : Mailbox) (sender : Membership) (s : MemberState) (f : FrameRecord)
      (fs : List FrameRecord)
      → (queue (acked m (peer sender) s f fs) (peer sender) ≡ pending fs)
        × (queue (acked m (peer sender) s f fs) sender ≡ queue m sender)
  acked-queue m Membership.allocator s f fs = (refl, refl)
  acked-queue m Membership.claimant s f fs = (refl, refl)

  owner-queued :
      (m : Mailbox) (owner : Membership) (s : MemberState)
      → IsValid sha256 m
      → member m owner ≡ some s
      → queued s.frames ≤ m.queue_bytes
  owner-queued m Membership.allocator s v e = ground arith
  owner-queued m Membership.claimant s v e = ground arith

  -- A member of a live well-formed mailbox that acknowledges a sequence number which its peer
  -- has used removes that entry from the peer's queue and nothing else, and the deletion is
  -- reported if and only if the body was still there.
  pub ack_removes :
      (m : Mailbox) (sender : Membership) (t s : MemberState) (seq now : ℕ)
      → IsValid sha256 m
      → is_terminal m.status ≡ false
      → now < m.expires_at
      → member m sender ≡ some t
      → member m (peer sender) ≡ some s
      → seq < s.next_seq
      → (n : Mailbox) × (transition sha256 m now (MailboxCommand.ack sender seq)
          ≡ ok (keeps n (reported (has_entry seq (queue m (peer sender))) (peer sender) seq)))
        × (queue n (peer sender) ≡ without seq (queue m (peer sender)))
        × (queue n sender ≡ queue m sender)
  ack_removes m sender t s seq now v live early here there used =
      let w = member-IsMember sha256 m (peer sender) s v there in
      let (f, fs, got, found) =
        take_body-Found seq 0 s.frames w.numbered (omega arith) (omega (arith, w.counted)) in
      let fits = owner-queued m (peer sender) s v there in
      (
        acked m (peer sender) s f fs,
        rw (there, ← found.was)
            (ack-acked m sender t s seq now f fs live early here there got
              (omega (arith, found.fits))),
        rw there ((acked-queue m sender s f fs).0 ∙ found.left),
        (acked-queue m sender s f fs).1,
      )
