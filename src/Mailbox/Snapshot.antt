-- ===== src/Mailbox/Snapshot.antt =====
-- src/mailbox.rs: `snapshot`, the inspectable state of a mailbox, and `from_snapshot`, which
-- rebuilds and validates it. The hash `sha2::Sha256` is a parameter. The standard library's
-- `sort_by_key` is a stable sort, written as insertion.
use cbcl_pairing.Common.{
  ℕ, suc, ◌+◌, ◌%◌, Octets, octets_ordered, ◌==◌, nat_beq, ltb, leb, List, [], ◌∷◌, ◌++◌, keep, any,
  map, length, Option, none, some, is_none, Bool, true, false, ◌&&◌, ◌||◌, not, if◌then◌else◌,
  Outcome, ok, err, ◌>>=◌, u64_mod,
}
use cbcl_pairing.Mailbox.{
  Membership, FrameRecord, MemberState, Mailbox, MailboxError, MailboxStatus, AdmissionSnapshot,
  MembershipHash, max_frames_per_membership, max_frame_body_bytes,
}
use cbcl_pairing.Mailbox.Allocate.{nameplate_too_large}
use cbcl_pairing.Mailbox.Invariant.{queued, member_queued}

pub record SequenceSnapshot : Type 0 where
  pub owner : Membership
  pub seq : ℕ
  pub body_digest : Octets
  pub body_len : ℕ
  pub body : Option Octets

pub record MailboxSnapshot : Type 0 where
  pub mailbox_id : Octets
  pub nameplate : Option ℕ
  pub expires_at : ℕ
  pub status : MailboxStatus
  pub admission : AdmissionSnapshot
  pub membership_hashes : List MembershipHash
  pub sequences : List SequenceSnapshot

abbrev pub sequence_of : Membership → FrameRecord → SequenceSnapshot
sequence_of owner f = record {
  owner = owner;
  seq = f.seq;
  body_digest = f.digest;
  body_len = f.body_len;
  body = f.body;
}

abbrev pub claimant_hashes : Option MemberState → List MembershipHash
claimant_hashes none = []
claimant_hashes (some c) = c.hash ∷ []

abbrev pub claimant_sequences : Option MemberState → List SequenceSnapshot
claimant_sequences none = []
claimant_sequences (some c) = map (sequence_of Membership.claimant) c.frames

unfoldable pub snapshot : Mailbox → MailboxSnapshot
snapshot m = record {
  mailbox_id = m.mailbox_id;
  nameplate = m.nameplate;
  expires_at = m.expires_at;
  status = m.status;
  admission = m.admission;
  membership_hashes = m.allocator.hash ∷ claimant_hashes m.claimant;
  sequences =
      map (sequence_of Membership.allocator) m.allocator.frames ++ claimant_sequences m.claimant;
}

-- `sequence.owner == owner`
abbrev pub same_owner : Membership → Membership → Bool
same_owner Membership.allocator Membership.allocator = true
same_owner Membership.claimant Membership.claimant = true
same_owner _ _ = false

-- `sequences.sort_by_key(|sequence| sequence.seq)`
unfoldable pub insert_sorted : SequenceSnapshot → List SequenceSnapshot → List SequenceSnapshot
insert_sorted x [] = x ∷ []
insert_sorted x (y ∷ ys) = if leb x.seq y.seq then x ∷ y ∷ ys else y ∷ insert_sorted x ys

unfoldable pub sort_by_seq : List SequenceSnapshot → List SequenceSnapshot
unfolding insert_sorted
sort_by_seq [] = []
sort_by_seq (x ∷ xs) = insert_sorted x (sort_by_seq xs)

-- Some sequence number is not its index, counted from `i`.
unfoldable pub misnumbered : ℕ → List SequenceSnapshot → Bool
misnumbered i [] = false
misnumbered i (x ∷ xs) = not (nat_beq x.seq i) || misnumbered (suc i) xs

-- A body that does not have the recorded length and digest.
abbrev pub wrong_body : (Octets → Octets) → SequenceSnapshot → Option Octets → Bool
wrong_body sha256 s none = false
wrong_body sha256 s (some body) =
    not (nat_beq (length body) s.body_len) || not (sha256 body == s.body_digest)

abbrev pub frame_of : SequenceSnapshot → FrameRecord
frame_of s = record { seq = s.seq; digest = s.body_digest; body_len = s.body_len; body = s.body }

-- The loop over the sequences of one member.
unfoldable pub frames_of :
    (Octets → Octets) → List SequenceSnapshot → Outcome MailboxError (List FrameRecord)
frames_of sha256 [] = ok []
frames_of sha256 (s ∷ ss) =
    let rest = frames_of sha256 ss in
    if nat_beq s.body_len 0 || ltb max_frame_body_bytes s.body_len
    then err MailboxError.invalid_snapshot
    else if wrong_body sha256 s s.body
    then err MailboxError.invalid_snapshot
    else do frames ← rest; ok (frame_of s ∷ frames)

-- The closure `member`.
unfoldable pub member_of :
    (Octets → Octets)
    → List SequenceSnapshot
    → Membership
    → MembershipHash
    → Outcome MailboxError MemberState
member_of sha256 all owner hash =
    let own = sort_by_seq (keep (λ s. same_owner s.owner owner) all) in
    if ltb max_frames_per_membership (length own) || misnumbered 0 own
    then err MailboxError.invalid_snapshot
    else do
      frames ← frames_of sha256 own
      if ltb 255 (length frames)
          then err MailboxError.invalid_snapshot
          else ok (record { hash = hash; next_seq = length frames; frames = frames })

abbrev pub claimant_of :
    (Octets → Octets)
    → List SequenceSnapshot
    → List MembershipHash
    → Outcome MailboxError (Option MemberState)
claimant_of sha256 all [] = ok none
claimant_of sha256 all (hash ∷ _) = do
  c ← member_of sha256 all Membership.claimant hash
  ok (some c)

-- The first `match`: how many hashes a status wants.
abbrev pub hashes_fit : MailboxStatus → ℕ → Bool
hashes_fit MailboxStatus.waiting n = nat_beq n 1
hashes_fit MailboxStatus.paired n = nat_beq n 2
hashes_fit (MailboxStatus.terminal _) n = true

-- The second `match`: which admission state goes with a status, nameplate and number of hashes.
abbrev pub admission_fits : AdmissionSnapshot → MailboxStatus → Option ℕ → ℕ → Bool
admission_fits AdmissionSnapshot.v1 status nameplate n = true
admission_fits (AdmissionSnapshot.v2_pending _) MailboxStatus.waiting nameplate n =
    is_none nameplate && nat_beq n 1
admission_fits AdmissionSnapshot.v2_claimed MailboxStatus.paired nameplate n =
    is_none nameplate && nat_beq n 2
admission_fits AdmissionSnapshot.v2_closed (MailboxStatus.terminal _) nameplate n =
    is_none nameplate
admission_fits _ _ nameplate n = false

-- What follows the checks of `from_snapshot`. `sum` on `u64` wraps.
unfoldable pub rebuild :
    (Octets → Octets)
    → MailboxSnapshot
    → MembershipHash
    → List MembershipHash
    → Outcome MailboxError Mailbox
rebuild sha256 s hash others = do
  a ← member_of sha256 s.sequences Membership.allocator hash
  c ← claimant_of sha256 s.sequences others
  if any (λ q. same_owner q.owner Membership.claimant) s.sequences && is_none c
      then err MailboxError.invalid_snapshot
      else ok (record {
        mailbox_id = s.mailbox_id;
        nameplate = s.nameplate;
        expires_at = s.expires_at;
        status = s.status;
        admission = s.admission;
        allocator = a;
        claimant = c;
        queue_bytes = (queued a.frames + member_queued c) % u64_mod;
      })

-- The checks, on the hashes taken apart; none is refused before `membership_hashes[0]`.
unfoldable pub check_hashes :
    (Octets → Octets) → MailboxSnapshot → List MembershipHash → Outcome MailboxError Mailbox
check_hashes sha256 s [] = err MailboxError.invalid_snapshot
check_hashes sha256 s (hash ∷ others) =
    if nameplate_too_large s.nameplate || ltb 2 (length (hash ∷ others))
    then err MailboxError.invalid_snapshot
    else if not (hashes_fit s.status (length (hash ∷ others)))
    then err MailboxError.invalid_snapshot
    else if not (admission_fits s.admission s.status s.nameplate (length (hash ∷ others)))
    then err MailboxError.invalid_snapshot
    else rebuild sha256 s hash others

unfoldable pub from_snapshot : (Octets → Octets) → MailboxSnapshot → Outcome MailboxError Mailbox
from_snapshot sha256 s = check_hashes sha256 s s.membership_hashes
