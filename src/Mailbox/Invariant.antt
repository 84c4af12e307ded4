-- ===== src/Mailbox/Invariant.antt =====
-- The well-formedness of the state of src/mailbox.rs, relative to the hash.
use cbcl_pairing.Common.{
  ℕ, suc, ◌+◌, ◌≤◌, ◌<◌, ◌≡◌, ◌≢◌, Octets, List, [], ◌∷◌, ◌++◌, Option, none, some, true, is_none,
  is_some, length, arith, u64_mod,
}
use cbcl_pairing.Mailbox.{
  FrameRecord, MemberState, Mailbox, MailboxStatus, AdmissionSnapshot, max_frame_body_bytes,
  max_frames_per_membership, max_nameplate, MembershipHash,
}

-- The bytes of the bodies that are still queued.
abbrev pub queued_len : Option Octets → ℕ → ℕ
queued_len none n = 0
queued_len (some b) n = n

abbrev pub queued : List FrameRecord → ℕ
queued [] = 0
queued (f ∷ fs) = queued_len f.body f.body_len + queued fs

abbrev pub member_queued : Option MemberState → ℕ
member_queued none = 0
member_queued (some s) = queued s.frames

-- A nameplate is within the ceiling.
abbrev pub IsNameplate : Option ℕ → Type 0
IsNameplate none = Unit
IsNameplate (some n) = n ≤ max_nameplate

-- Which status goes with which admission state, claimant and nameplate.
abbrev pub Phase : MailboxStatus → AdmissionSnapshot → Option MemberState → Option ℕ → Type 0
Phase MailboxStatus.waiting AdmissionSnapshot.v1 c n = is_none c ≡ true
Phase MailboxStatus.waiting (AdmissionSnapshot.v2_pending _) c n =
    (is_none c ≡ true) × (is_none n ≡ true)
Phase MailboxStatus.paired AdmissionSnapshot.v1 c n = is_some c ≡ true
Phase MailboxStatus.paired AdmissionSnapshot.v2_claimed c n =
    (is_some c ≡ true) × (is_none n ≡ true)
Phase (MailboxStatus.terminal r) AdmissionSnapshot.v1 c n = Unit
Phase (MailboxStatus.terminal r) AdmissionSnapshot.v2_closed c n = is_none n ≡ true
Phase _ _ _ _ = ⊥

-- A terminal mailbox holds no body.
abbrev pub Drained : MailboxStatus → ℕ → Type 0
Drained (MailboxStatus.terminal r) q = q ≡ 0
Drained _ q = Unit

-- The claimant's hash is not the allocator's.
abbrev pub IsOther : MembershipHash → Option MemberState → Type 0
IsOther h none = Unit
IsOther h (some c) = c.hash ≢ h

module _ (sha256 : Octets → Octets) where
  -- A retained body has the recorded length and digest.
  abbrev pub Matches : Option Octets → ℕ → Octets → Type 0
  Matches none n d = Unit
  Matches (some b) n d = (length b ≡ n) × (sha256 b ≡ d)

  pub record IsFrame (f : FrameRecord) : Type 0 where
    pub nonempty : 0 < f.body_len
    pub bounded : f.body_len ≤ max_frame_body_bytes
    pub matches : Matches f.body f.body_len f.digest

  -- The sequence numbers count up from `i`.
  abbrev pub Numbered : ℕ → List FrameRecord → Type 0
  Numbered i [] = Unit
  Numbered i (f ∷ fs) = (f.seq ≡ i) × IsFrame f × Numbered (suc i) fs

  pub record IsMember (s : MemberState) : Type 0 where
    pub numbered : Numbered 0 s.frames
    pub counted : s.next_seq ≡ length s.frames
    pub limited : length s.frames ≤ max_frames_per_membership

  abbrev pub IsClaimant : Option MemberState → Type 0
  IsClaimant none = Unit
  IsClaimant (some s) = IsMember s

  pub record IsValid (m : Mailbox) : Type 0 where
    pub allocator : IsMember m.allocator
    pub claimant : IsClaimant m.claimant
    pub accounted : m.queue_bytes ≡ queued m.allocator.frames + member_queued m.claimant
    pub distinct : IsOther m.allocator.hash m.claimant
    pub phase : Phase m.status m.admission m.claimant m.nameplate
    pub drained : Drained m.status m.queue_bytes
    pub expiry : m.expires_at < u64_mod
    pub nameplate : IsNameplate m.nameplate

pub queued-append : (xs ys : List FrameRecord) → queued (xs ++ ys) ≡ queued xs + queued ys
queued-append [] ys = omega arith
queued-append (x ∷ xs) ys = omega (arith, queued-append xs ys)
