-- ===== src/Mailbox/Safety/FrameLists.antt =====
-- The frame lists of src/mailbox.rs: appending a record, and taking a body out of one.
use cbcl_pairing.Common.{
  ℕ, suc, ◌+◌, ◌*◌, ◌≤◌, ◌<◌, ◌≡◌, Octets, List, [], ◌∷◌, ◌++◌, some, length, arith, length-append,
  inl, inr, Option-cases,
}
use cbcl_pairing.Mailbox.{FrameRecord, MemberState, max_frame_body_bytes, max_frames_per_membership}
use cbcl_pairing.Mailbox.Frames.{take_body, stored_frame, pushed}
use cbcl_pairing.Mailbox.Invariant.{queued, queued_len, Numbered, IsFrame, IsMember}

module _ (sha256 : Octets → Octets) where
  pub Numbered-append :
      (i : ℕ) (fs : List FrameRecord) (f : FrameRecord)
      → Numbered sha256 i fs
      → f.seq ≡ i + length fs
      → IsFrame sha256 f
      → Numbered sha256 i (fs ++ (f ∷ []))
  Numbered-append i [] f h e v = (omega arith, v, tt)
  Numbered-append i (x ∷ fs) f h e v = (h.0, h.1, Numbered-append (suc i) fs f h.2 (omega arith) v)

  -- At most the body ceiling for each frame.
  pub queued-le :
      (i : ℕ) (fs : List FrameRecord)
      → Numbered sha256 i fs
      → queued fs ≤ length fs * max_frame_body_bytes
  queued-le i [] h = omega arith
  queued-le i (f ∷ fs) h = elim (Option-cases f.body) [
    | inl e ↦ ground (arith, queued-le (suc i) fs h.2)
    | inr (b, e) ↦ ground (arith, queued-le (suc i) fs h.2, h.1.bounded)
  ]

  pub stored_frame-IsFrame :
      (seq : ℕ) (body : Octets)
      → 0 < length body
      → length body ≤ max_frame_body_bytes
      → IsFrame sha256 (stored_frame seq (sha256 body) body)
  stored_frame-IsFrame seq body pos bound = ground arith

  pub pushed-IsMember :
      (s : MemberState) (body : Octets)
      → IsMember sha256 s
      → 0 < length body
      → length body ≤ max_frame_body_bytes
      → length s.frames < max_frames_per_membership
      → IsMember sha256 (pushed s (stored_frame s.next_seq (sha256 body) body))
  pushed-IsMember s body v pos bound room =
      let f = stored_frame s.next_seq (sha256 body) body in
      let more = length-append s.frames (f ∷ []) in
      record {
        numbered =
            Numbered-append 0 s.frames f v.numbered (omega (arith, v.counted))
              (stored_frame-IsFrame s.next_seq body pos bound);
        counted = omega (arith, v.counted, more);
        limited = omega (arith, more);
      }

  -- What taking a body out leaves behind.
  pub record Took (i : ℕ) (fs : List FrameRecord) (f : FrameRecord) (fs' : List FrameRecord)
      : Type 0 where
    pub numbered : Numbered sha256 i fs'
    pub kept : length fs' ≡ length fs
    pub moved : queued fs ≡ queued_len f.body f.body_len + queued fs'

  pub take_body-Took :
      (seq i : ℕ) (fs : List FrameRecord) {f : FrameRecord} {fs' : List FrameRecord}
      → Numbered sha256 i fs
      → take_body seq fs ≡ some (f, fs')
      → Took i fs f fs'
  unfolding take_body
  take_body-Took seq i [] h e = ground arith
  take_body-Took seq i (x ∷ fs) {f} {fs'} h e = elim (Option-cases (take_body seq fs)) [
    | inl gone ↦ ground arith
    | inr ((g, gs), got) ↦ ground (arith, take_body-Took seq (suc i) fs h.2 got)
  ]
