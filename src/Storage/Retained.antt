-- ===== src/Storage/Retained.antt =====
-- src/storage.rs: a mailbox survives its record.
use cbcl_pairing.Common.{
  ℕ, suc, ◌+◌, ◌≤◌, ◌≡◌, Octets, octets_ordered, octets_beq_self, List, [], ◌∷◌, ◌++◌, map, length,
  Option, none, some, ok, arith,
}
use cbcl_pairing.Cbor.{Codec, IsCodec}
use cbcl_pairing.Mailbox.{FrameRecord, MemberState, Mailbox, Membership, max_frames_per_membership}
use cbcl_pairing.Mailbox.Invariant.{IsValid, IsClaimant, Numbered, IsNameplate}
use cbcl_pairing.Mailbox.Snapshot.{
  SequenceSnapshot, snapshot, sequence_of, claimant_sequences, claimant_hashes,
}
use cbcl_pairing.Mailbox.RoundTrip.{from_snapshot-snapshot}
use cbcl_pairing.Storage.Record.{encode, record_value}
use cbcl_pairing.Storage.Decode.{decode}
use cbcl_pairing.Storage.RoundTrip.{
  IsCommitment, IsPlate, AreSequences, AreHashes, IsWide, sequence_values_lem,
  decode_value-record_value, sequence_list,
}

abbrev pub Digests : List FrameRecord → Type 0
Digests [] = Unit
Digests (f ∷ fs) = (length f.digest ≡ 32) × Digests fs

abbrev pub IsWideClaimant : Option MemberState → Type 0
IsWideClaimant none = Unit
IsWideClaimant (some c) = (length c.hash ≡ 32) × Digests c.frames

-- The identifier, the hashes, the digests and the commitment are of 32 octets, as their types in
-- the source say.
pub record HasWidths (m : Mailbox) : Type 0 where
  pub mailbox_id : length m.mailbox_id ≡ 32
  pub admission : IsCommitment m.admission
  pub hash : length m.allocator.hash ≡ 32
  pub digests : Digests m.allocator.frames
  pub claimant : IsWideClaimant m.claimant

module _ (sha256 : Octets → Octets) where
  Numbered-AreSequences :
      (o : Membership) (i : ℕ) (fs : List FrameRecord)
      → Numbered sha256 i fs
      → i + length fs ≤ max_frames_per_membership
      → Digests fs
      → AreSequences (map (sequence_of o) fs)
  Numbered-AreSequences o i [] n few d = tt
  Numbered-AreSequences o i (f ∷ fs) (here, frame, n) few (wide, d) = (
    record { seq = omega arith; digest = wide; size = let b = frame.bounded in omega arith },
    Numbered-AreSequences o (suc i) fs n (omega arith) d,
  )

  AreSequences-append :
      (ss : List SequenceSnapshot) (ts : List SequenceSnapshot)
      → AreSequences ss
      → AreSequences ts
      → AreSequences (ss ++ ts)
  AreSequences-append [] ts h k = k
  AreSequences-append (s ∷ ss) ts (here, h) k = (here, AreSequences-append ss ts h k)

  claimant-AreSequences :
      (c : Option MemberState)
      → IsClaimant sha256 c
      → IsWideClaimant c
      → AreSequences (claimant_sequences c) × AreHashes (claimant_hashes c)
  claimant-AreSequences none v w = (tt, tt)
  claimant-AreSequences (some c) v (hash, d) =
      let limited = v.limited in
      (Numbered-AreSequences Membership.claimant 0 c.frames v.numbered (omega arith) d, (hash, tt))

  IsNameplate-IsPlate : (n : Option ℕ) → IsNameplate n → IsPlate n
  IsNameplate-IsPlate none h = tt
  IsNameplate-IsPlate (some n) h = omega arith

  snapshot-IsWide : (m : Mailbox) → IsValid sha256 m → HasWidths m → IsWide (snapshot m)
  unfolding snapshot
  snapshot-IsWide m v w =
      let limited = v.allocator.limited in
      let few : 0 + length m.allocator.frames ≤ max_frames_per_membership = omega arith in
      let (sequences, hashes) = claimant-AreSequences m.claimant v.claimant w.claimant in
      record {
        mailbox_id = w.mailbox_id;
        nameplate = IsNameplate-IsPlate m.nameplate v.nameplate;
        expiry = v.expiry;
        admission = w.admission;
        hashes = (w.hash, hashes);
        sequences =
            AreSequences-append (map (sequence_of Membership.allocator) m.allocator.frames)
              (claimant_sequences m.claimant)
              (Numbered-AreSequences Membership.allocator 0 m.allocator.frames v.allocator.numbered
                few w.digests)
              sequences;
      }

  -- If the codec reads back what it wrote, and a well-formed mailbox whose identifier, hashes,
  -- digests and commitment have 32 octets was encoded to some bytes, then these bytes decode to
  -- that mailbox.
  pub decode-encode :
      (c : Codec) (m : Mailbox) (b : Octets)
      → IsCodec c
      → IsValid sha256 m
      → HasWidths m
      → encode c (snapshot m) ≡ ok b
      → decode c sha256 b ≡ ok m
  unfolding encode decode
  decode-encode c m b law v w h =
      let wide = snapshot-IsWide m v w in
      let s = snapshot m in
      let (back, plain) = decode_value-record_value sha256 s wide in
      let listed = sequence_values_lem s.sequences wide.sequences in
      let written : c.to_canonical_vec (record_value s (sequence_list s.sequences)) ≡ some b =
        ground arith in
      let read = law.reads (record_value s (sequence_list s.sequences)) b plain written in
      let same = from_snapshot-snapshot sha256 m v in ground (arith, octets_beq_self b)
