-- ===== src/Mailbox/Safety/PutAck.antt =====
-- `Put` and `Ack` of src/mailbox.rs keep the invariant. They run on a live mailbox.
use cbcl_pairing.Common.{
  ℕ, ◌*◌, ◌≤◌, ◌<◌, ◌≡◌, Octets, List, [], ◌∷◌, Option, none, some, false, length, arith,
  Option-cases, inl, inr,
}
use cbcl_pairing.Wire.{CloseReason}
use cbcl_pairing.Mailbox.{
  Membership, FrameRecord, MemberState, Mailbox, max_frame_body_bytes, max_frames_per_membership,
  peer,
}
use cbcl_pairing.Mailbox.Terminal.{member, set_member, is_terminal}
use cbcl_pairing.Mailbox.Frames.{
  put, put_again, put_new, ack, acknowledged, take_body, stored_frame,
}
use cbcl_pairing.Mailbox.Invariant.{member_queued, queued-append, IsMember, IsClaimant, IsValid}
use cbcl_pairing.Mailbox.Safety.{IsSafe, terminate-IsSafe}
use cbcl_pairing.Mailbox.Safety.FrameLists.{queued-le, pushed-IsMember, Took, take_body-Took}

module _ (sha256 : Octets → Octets) where
  member_queued-le :
      (c : Option MemberState)
      → IsClaimant sha256 c
      → member_queued c ≤ max_frames_per_membership * max_frame_body_bytes
  member_queued-le none v = omega arith
  member_queued-le (some s) v = omega (arith, queued-le sha256 0 s.frames v.numbered, v.limited)

  -- The queue never holds more than the two memberships' ceilings.
  pub queue_bytes-le :
      (m : Mailbox)
      → IsValid sha256 m
      → m.queue_bytes ≤ 2 * max_frames_per_membership * max_frame_body_bytes
  queue_bytes-le m v = omega (
    arith,
    v.accounted,
    member_queued-le (some m.allocator) v.allocator,
    member_queued-le m.claimant v.claimant,
  )

  pub put_again-IsSafe :
      (m : Mailbox) (sender : Membership) (s : MemberState) (seq n : ℕ) (digest : Octets)
      → IsValid sha256 m
      → IsSafe sha256 (put_again m sender s seq n digest)
  unfolding put_again
  put_again-IsSafe m sender s seq n digest v =
      ground (arith, terminate-IsSafe sha256 m CloseReason.conflict v)

  pub put_new-IsSafe :
      (m : Mailbox) (sender : Membership) (s : MemberState) (body : Octets)
      → IsValid sha256 m
      → is_terminal m.status ≡ false
      → member m sender ≡ some s
      → 0 < length body
      → length body ≤ max_frame_body_bytes
      → IsSafe sha256 (put_new m sender s s.next_seq (sha256 body) body)
  unfolding put_new
  put_new-IsSafe m Membership.allocator s body v live e pos bound = ground (
    arith,
    queue_bytes-le m v,
    pushed-IsMember sha256 m.allocator body v.allocator pos bound,
    queued-append m.allocator.frames (stored_frame m.allocator.next_seq (sha256 body) body ∷ []),
  )
  put_new-IsSafe m Membership.claimant s body v live e pos bound = ground (
    arith,
    queue_bytes-le m v,
    pushed-IsMember sha256 s body,
    queued-append s.frames (stored_frame s.next_seq (sha256 body) body ∷ []),
  )

  pub put-IsSafe :
      (m : Mailbox) (sender : Membership) (seq : ℕ) (body : Octets)
      → IsValid sha256 m
      → is_terminal m.status ≡ false
      → IsSafe sha256 (put sha256 m sender seq body)
  unfolding put
  put-IsSafe m sender seq [] v live = tt
  put-IsSafe m sender seq (b ∷ bs) v live = elim (Option-cases (member m sender)) [
    | inl e ↦ ground arith
    | inr (s, e) ↦ ground (
      arith,
      put_again-IsSafe m sender s seq (length (b ∷ bs)) (sha256 (b ∷ bs)) v,
      put_new-IsSafe m sender s (b ∷ bs) v live e,
    )
  ]

  acknowledged-IsSafe :
      (m : Mailbox) (owner : Membership) (s : MemberState) (seq : ℕ) (f : FrameRecord)
      (fs : List FrameRecord)
      → IsValid sha256 m
      → is_terminal m.status ≡ false
      → member m owner ≡ some s
      → Took sha256 0 s.frames f fs
      → IsSafe sha256
          (acknowledged (set_member m owner (record s { frames = fs })) m.queue_bytes owner seq f)
  unfolding acknowledged
  acknowledged-IsSafe m Membership.allocator s seq f fs v live e took = ground arith
  acknowledged-IsSafe m Membership.claimant s seq f fs v live e took = ground arith

  pub member-IsMember :
      (m : Mailbox) (owner : Membership) (s : MemberState)
      → IsValid sha256 m
      → member m owner ≡ some s
      → IsMember sha256 s
  member-IsMember m Membership.allocator s v e = ground arith
  member-IsMember m Membership.claimant s v e = ground arith

  take_body-IsSafe :
      (m : Mailbox) (sender : Membership) (seq : ℕ) (t s : MemberState)
      → IsValid sha256 m
      → is_terminal m.status ≡ false
      → member m sender ≡ some t
      → member m (peer sender) ≡ some s
      → IsSafe sha256 (ack m sender seq)
  unfolding ack
  take_body-IsSafe m sender seq t s v live here there =
      elim (Option-cases (take_body seq s.frames)) [
        | inl gone ↦ rw (here, there, gone, ack) tt
        | inr ((f, fs), got) ↦
            rw (here, there, got, ack)
              (acknowledged-IsSafe m (peer sender) s seq f fs v live there (
                take_body-Took sha256 seq 0 s.frames
                  (member-IsMember m (peer sender) s v there).numbered got))
      ]

  pub ack-IsSafe :
      (m : Mailbox) (sender : Membership) (seq : ℕ)
      → IsValid sha256 m
      → is_terminal m.status ≡ false
      → IsSafe sha256 (ack m sender seq)
  unfolding ack
  ack-IsSafe m sender seq v live = elim (Option-cases (member m sender)) [
    | inl e ↦ rw (e, ack) tt
    | inr (t, e) ↦ elim (Option-cases (member m (peer sender))) [
      | inl e' ↦ rw (e, e', ack) tt
      | inr (s, e') ↦ take_body-IsSafe m sender seq t s v live e e'
    ]
  ]
