-- ===== src/Mailbox/Frames.antt =====
-- src/mailbox.rs: the commands `Put` and `Ack` of `transition`. The hash `sha2::Sha256` is a
-- parameter.
use cbcl_pairing.Common.{
  ℕ, ◌+◌, ◌%◌, Octets, List, [], ◌∷◌, ◌++◌, Option, none, some, true, false, ◌||◌, ◌&&◌, ltb, leb,
  nat_beq, ◌==◌, octets_ordered, if◌then◌else◌, is_some, is_none, length, is_empty, find,
  checked_add, checked_sub, ok, err, ◌>>=◌, ok_or, expect, u8_mod,
}
use cbcl_pairing.Wire.{CloseReason}
use cbcl_pairing.Mailbox.{
  Membership, FrameRecord, MemberState, Mailbox, MailboxEffect, MailboxError, peer,
  max_frame_body_bytes, max_frames_per_membership,
}
use cbcl_pairing.Mailbox.Terminal.{Attempt, keeps, member, set_member, terminate}

-- A retry of an accepted sequence: the exact body is acknowledged again, any other closes.
unfoldable pub put_again : Mailbox → Membership → MemberState → ℕ → ℕ → Octets → Attempt
put_again m sender s seq body_len digest = do
  frame ← ok_or (find (λ f. nat_beq f.seq seq) s.frames) MailboxError.unknown_sequence
  if nat_beq frame.body_len body_len && frame.digest == digest
      then ok (keeps m (MailboxEffect.stored sender seq true ∷ []))
      else terminate m CloseReason.conflict

-- The record of a frame just stored, and its member afterwards. `next_seq` is a `u8`.
abbrev pub stored_frame : ℕ → Octets → Octets → FrameRecord
stored_frame seq digest body = record {
  seq = seq;
  digest = digest;
  body_len = length body;
  body = some body;
}

abbrev pub pushed : MemberState → FrameRecord → MemberState
pushed s f = record s { frames = s.frames ++ (f ∷ []); next_seq = (s.next_seq + 1) % u8_mod }

unfoldable pub put_new : Mailbox → Membership → MemberState → ℕ → Octets → Octets → Attempt
put_new m sender s seq digest body =
    if leb max_frames_per_membership seq || leb max_frames_per_membership (length s.frames)
    then err MailboxError.frame_limit
    else do
      queue ← expect (checked_add m.queue_bytes (length body))
      ok (
          keeps
            (record (set_member m sender (pushed s (stored_frame seq digest body))) {
              queue_bytes = queue;
            })
            (MailboxEffect.stored sender seq false
              ∷ (if is_some (member m (peer sender))
                  then MailboxEffect.deliver (peer sender) seq body ∷ []
                  else [])))

unfoldable pub put : (Octets → Octets) → Mailbox → Membership → ℕ → Octets → Attempt
put sha256 m sender seq body =
    if is_empty body || ltb max_frame_body_bytes (length body)
    then err MailboxError.body_size
    else do
      s ← ok_or (member m sender) MailboxError.not_member
      if ltb seq s.next_seq
          then put_again m sender s seq (length body) (sha256 body)
          else if ltb s.next_seq seq
          then err (MailboxError.sequence_gap s.next_seq seq)
          else put_new m sender s seq (sha256 body) body

-- `frames.iter_mut().find(...)` and `body.take()`: the frame found, and the frames without its body.
unfoldable pub take_body : ℕ → List FrameRecord → Option (FrameRecord × List FrameRecord)
take_body seq [] = none
take_body seq (f ∷ fs) =
    if nat_beq f.seq seq
    then some (f, record f { body = none } ∷ fs)
    else elim (take_body seq fs) [ none ↦ none | some (g, fs') ↦ some (g, f ∷ fs') ]

-- What follows the look-up in `Ack`: the accounting, if there was a body to remove.
unfoldable pub acknowledged : Mailbox → ℕ → Membership → ℕ → FrameRecord → Attempt
acknowledged next queue_bytes owner seq frame =
    if is_none frame.body then ok (keeps next []) else do
      queue ← expect (checked_sub queue_bytes frame.body_len)
      ok (keeps (record next { queue_bytes = queue }) (MailboxEffect.body_deleted owner seq ∷ []))

unfoldable pub ack : Mailbox → Membership → ℕ → Attempt
unfolding acknowledged
ack m sender peer_seq = do
  _ ← ok_or (member m sender) MailboxError.not_member
  s ← ok_or (member m (peer sender)) MailboxError.unknown_sequence
  (frame, frames) ← ok_or (take_body peer_seq s.frames) MailboxError.unknown_sequence
  acknowledged (set_member m (peer sender) (record s { frames = frames })) m.queue_bytes
      (peer sender) peer_seq frame
