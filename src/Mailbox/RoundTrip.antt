-- ===== src/Mailbox/RoundTrip.antt =====
-- A snapshot of src/mailbox.rs loses nothing: `from_snapshot` rebuilds the mailbox that it was
-- taken of.
use mathlib.Core.List.{append-nil}
use cbcl_pairing.Common.{
  ℕ, suc, ◌≤◌, ◌≡◌, refl, ap, Octets, octets_beq_iff, List, [], ◌∷◌, ◌++◌, keep, keep-append, any,
  map, length, Option, none, some, true, false, is_none, arith, ok, Option-cases, inl, inr, ◌∙◌,
  ◌&&◌,
}
use cbcl_pairing.Mailbox.{
  Membership, FrameRecord, MemberState, Mailbox, MailboxStatus, AdmissionSnapshot, MembershipHash,
  peer,
}
use cbcl_pairing.Mailbox.Invariant.{Numbered, IsMember, IsClaimant, Phase, IsValid}
use cbcl_pairing.Mailbox.Safety.PutAck.{queue_bytes-le}
use cbcl_pairing.Mailbox.Snapshot.{
  SequenceSnapshot, snapshot, sequence_of, same_owner, claimant_sequences, claimant_hashes,
  insert_sorted, sort_by_seq, misnumbered, frames_of, member_of, claimant_of, hashes_fit,
  admission_fits, rebuild, check_hashes, from_snapshot,
}

abbrev owned : Membership → List FrameRecord → List SequenceSnapshot
owned o = map (sequence_of o)

keep-owned :
    (o : Membership) (fs : List FrameRecord)
    → keep (λ s. same_owner s.owner o) (owned o fs) ≡ owned o fs
keep-owned Membership.allocator [] = refl
keep-owned Membership.claimant [] = refl
keep-owned Membership.allocator (f ∷ fs) =
    ap (λ r. sequence_of Membership.allocator f ∷ r) (keep-owned Membership.allocator fs)
keep-owned Membership.claimant (f ∷ fs) =
    ap (λ r. sequence_of Membership.claimant f ∷ r) (keep-owned Membership.claimant fs)

keep-foreign :
    (o : Membership) (fs : List FrameRecord)
    → keep (λ s. same_owner s.owner o) (owned (peer o) fs) ≡ []
keep-foreign Membership.allocator [] = refl
keep-foreign Membership.claimant [] = refl
keep-foreign Membership.allocator (f ∷ fs) = keep-foreign Membership.allocator fs
keep-foreign Membership.claimant (f ∷ fs) = keep-foreign Membership.claimant fs

no_claimant :
    (fs : List FrameRecord)
    → any (λ q. same_owner q.owner Membership.claimant) (owned Membership.allocator fs ++ [])
      ≡ false
no_claimant [] = refl
no_claimant (f ∷ fs) = no_claimant fs

module _ (sha256 : Octets → Octets) where
  sort_by_seq-owned :
      (o : Membership) (i : ℕ) (fs : List FrameRecord)
      → Numbered sha256 i fs
      → sort_by_seq (owned o fs) ≡ owned o fs
  unfolding sort_by_seq insert_sorted
  sort_by_seq-owned o i [] h = refl
  sort_by_seq-owned o i (f ∷ []) h = refl
  sort_by_seq-owned o i (f ∷ g ∷ fs) h =
      rw (sort_by_seq-owned o (suc i) (g ∷ fs) h.2) (ground arith)

  misnumbered-owned :
      (o : Membership) (i : ℕ) (fs : List FrameRecord)
      → Numbered sha256 i fs
      → misnumbered i (owned o fs) ≡ false
  unfolding misnumbered
  misnumbered-owned o i [] h = refl
  misnumbered-owned o i (f ∷ fs) h = ground (arith, misnumbered-owned o (suc i) fs h.2)

  frames_of-owned :
      (o : Membership) (i : ℕ) (fs : List FrameRecord)
      → Numbered sha256 i fs
      → frames_of sha256 (owned o fs) ≡ ok fs
  unfolding frames_of
  frames_of-owned o i [] h = refl
  frames_of-owned o i (f ∷ fs) h = elim (Option-cases f.body) [
    | inl e ↦ ground (arith, frames_of-owned o (suc i) fs h.2)
    | inr (b, e) ↦
        ground (arith, frames_of-owned o (suc i) fs h.2, octets_beq_iff (sha256 b) f.digest)
  ]

  length-owned : (o : Membership) (fs : List FrameRecord) → length (owned o fs) ≡ length fs
  length-owned o [] = refl
  length-owned o (f ∷ fs) = ap suc (length-owned o fs)

  member_of-owned :
      (o : Membership) (s : MemberState) (all : List SequenceSnapshot)
      → IsMember sha256 s
      → keep (λ q. same_owner q.owner o) all ≡ owned o s.frames
      → member_of sha256 all o s.hash ≡ ok s
  unfolding member_of
  member_of-owned o s all v e =
      rw
        (
          e,
          sort_by_seq-owned o 0 s.frames v.numbered,
          misnumbered-owned o 0 s.frames v.numbered,
          frames_of-owned o 0 s.frames v.numbered,
          member_of,
        )
        (ground (arith, length-owned o s.frames))

  -- The sequences of each membership, found again in the snapshot.
  keep-allocator :
      (fs : List FrameRecord) (c : Option MemberState)
      → keep
          (λ q. same_owner q.owner Membership.allocator)
          (owned Membership.allocator fs ++ claimant_sequences c)
        ≡ owned Membership.allocator fs
  keep-allocator fs none =
      keep-append (λ q. same_owner q.owner Membership.allocator) (owned Membership.allocator fs) []
      ∙ rw (keep-owned Membership.allocator fs) (append-nil (owned Membership.allocator fs))
  keep-allocator fs (some c) =
      keep-append (λ q. same_owner q.owner Membership.allocator) (owned Membership.allocator fs)
        (owned Membership.claimant c.frames)
      ∙ rw (keep-owned Membership.allocator fs, keep-foreign Membership.allocator c.frames)
          (append-nil (owned Membership.allocator fs))

  keep-claimant :
      (fs : List FrameRecord) (c : MemberState)
      → keep
          (λ q. same_owner q.owner Membership.claimant)
          (owned Membership.allocator fs ++ owned Membership.claimant c.frames)
        ≡ owned Membership.claimant c.frames
  keep-claimant fs c =
      keep-append (λ q. same_owner q.owner Membership.claimant) (owned Membership.allocator fs)
        (owned Membership.claimant c.frames)
      ∙ rw (keep-owned Membership.claimant c.frames, keep-foreign Membership.claimant fs)

  claimant_of-snapshot :
      (a : MemberState) (c : Option MemberState)
      → IsClaimant sha256 c
      → claimant_of sha256
          (owned Membership.allocator a.frames ++ claimant_sequences c)
          (claimant_hashes c)
        ≡ ok c
  claimant_of-snapshot a none v = refl
  claimant_of-snapshot a (some c) v =
      rw (member_of-owned Membership.claimant c _ v (keep-claimant a.frames c))

  -- A claimant's sequences come with its hash.
  any_claimant :
      (fs : List FrameRecord) (c : Option MemberState)
      → (any
            (λ q. same_owner q.owner Membership.claimant)
            (owned Membership.allocator fs ++ claimant_sequences c)
          && is_none c)
        ≡ false
  any_claimant fs none = ground (arith, no_claimant fs)
  any_claimant fs (some c) = ground arith

  Phase-fits :
      (s : MailboxStatus) (a : AdmissionSnapshot) (c : Option MemberState) (n : Option ℕ)
      (h : MembershipHash)
      → Phase s a c n
      → (hashes_fit s (length (h ∷ claimant_hashes c)) ≡ true)
        × (admission_fits a s n (length (h ∷ claimant_hashes c)) ≡ true)
        × (length (h ∷ claimant_hashes c) ≤ 2)
  Phase-fits s a c n h p = ground arith

  rebuild-snapshot :
      (m : Mailbox)
      → IsValid sha256 m
      → rebuild sha256 (snapshot m) m.allocator.hash (claimant_hashes m.claimant) ≡ ok m
  unfolding rebuild snapshot
  rebuild-snapshot m v =
      rw
        (
          member_of-owned Membership.allocator m.allocator _ v.allocator
              (keep-allocator m.allocator.frames m.claimant),
          claimant_of-snapshot m.allocator m.claimant v.claimant,
          any_claimant m.allocator.frames m.claimant,
          rebuild,
        )
        (ground (arith, queue_bytes-le sha256 m v))

  -- `from_snapshot` accepts the snapshot of every well-formed mailbox, and rebuilds that
  -- mailbox.
  pub from_snapshot-snapshot :
      (m : Mailbox) → IsValid sha256 m → from_snapshot sha256 (snapshot m) ≡ ok m
  unfolding from_snapshot check_hashes snapshot
  from_snapshot-snapshot m v = ground (
    arith,
    rebuild-snapshot m v,
    Phase-fits m.status m.admission m.claimant m.nameplate m.allocator.hash v.phase,
  )
