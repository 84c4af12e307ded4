-- ===== src/Mailbox/Admission.antt =====
-- Who is admitted as the claimant of a mailbox of src/mailbox.rs.
use cbcl_pairing.Common.{
  ℕ, ◌<◌, ◌≡◌, ◌≢◌, ◌↔◌, Octets, octets_beq_iff, octets_beq_self, ◌⊎◌, inl, inr, refl, [], ◌∷◌,
  ◌++◌, none, some, arith, ok, err,
}
use cbcl_pairing.Wire.{CloseReason, ClaimToken, claim_commitment}
use cbcl_pairing.Mailbox.{
  Membership, MemberState, Mailbox, MailboxCommand, MailboxEffect, MailboxStatus, MailboxTransition,
  AdmissionSnapshot, MembershipHash,
}
use cbcl_pairing.Mailbox.Terminal.{keeps}
use cbcl_pairing.Mailbox.Claims.{pending_commitment, joined, claim, claim_v2}
use cbcl_pairing.Mailbox.Step.{dispatch, transition}
use cbcl_pairing.Mailbox.Invariant.{IsValid}
use cbcl_pairing.Mailbox.Spent.{Later, Later-Spent, Spent-refused, refusal}
use cbcl_pairing.Mailbox.Drain.{all_deletions, closed_as, terminate_lem}

pending-cases :
    (a : AdmissionSnapshot)
    → (pending_commitment a ≡ none) ⊎ ((c : Octets) × (a ≡ AdmissionSnapshot.v2_pending c))
pending-cases AdmissionSnapshot.v1 = inl refl
pending-cases (AdmissionSnapshot.v2_pending c) = inr (c, refl)
pending-cases AdmissionSnapshot.v2_claimed = inl refl
pending-cases AdmissionSnapshot.v2_closed = inl refl

module _ (sha256 : Octets → Octets) where
  abbrev Opens : Mailbox → MembershipHash → ClaimToken → Type 0
  Opens m hash token =
      (m.admission ≡ AdmissionSnapshot.v2_pending (claim_commitment sha256 m.mailbox_id token))
      × (hash ≢ m.allocator.hash)

  abbrev Admits : Mailbox → ℕ → MembershipHash → ClaimToken → Type 0
  Admits m now hash token =
      (t : MailboxTransition) × (transition sha256 m now (MailboxCommand.claim_v2 hash token)
        ≡ ok t)

  claim_v2-Opens :
      (m : Mailbox) (now : ℕ) (hash : MembershipHash) (token : ClaimToken)
      → now < m.expires_at
      → Admits m now hash token
      → Opens m hash token
  unfolding transition dispatch claim_v2
  claim_v2-Opens m now hash token early (t, e) = elim (pending-cases m.admission) [
    | inl p ↦ ground arith
    | inr (c, p) ↦ ground (
      arith,
      octets_beq_iff c (claim_commitment sha256 m.mailbox_id token),
      octets_beq_iff hash m.allocator.hash,
    )
  ]

  claim_v2_accepts :
      (m : Mailbox) (now : ℕ) (hash : MembershipHash) (token : ClaimToken)
      → IsValid sha256 m
      → now < m.expires_at
      → Opens m hash token
      → Admits m now hash token
  unfolding transition dispatch claim_v2
  claim_v2_accepts m now hash token v early o = (
    keeps (joined m hash AdmissionSnapshot.v2_claimed)
        (MailboxEffect.claimed Membership.claimant m.expires_at ∷ []),
    ground (
      arith,
      octets_beq_self (claim_commitment sha256 m.mailbox_id token),
      octets_beq_iff hash m.allocator.hash,
    ),
  )

  -- A v2 claim on a live well-formed mailbox succeeds exactly when the mailbox waits for a
  -- claimant under the commitment of the presented token and the new hash is not the
  -- allocator's.
  pub claim_v2_iff :
      (m : Mailbox) (now : ℕ) (hash : MembershipHash) (token : ClaimToken)
      → IsValid sha256 m
      → now < m.expires_at
      → Admits m now hash token ↔ Opens m hash token
  unfolding transition dispatch claim_v2
  claim_v2_iff m now hash token v early =
      (claim_v2-Opens m now hash token early, claim_v2_accepts m now hash token v early)

  claim_v2-claimed :
      (m n : Mailbox) (now : ℕ) (hash : MembershipHash) (token : ClaimToken) (t : MailboxTransition)
      → now < m.expires_at
      → transition sha256 m now (MailboxCommand.claim_v2 hash token) ≡ ok t
      → t.state ≡ some n
      → (n.status ≡ MailboxStatus.paired) × (n.admission ≡ AdmissionSnapshot.v2_claimed)
  unfolding transition dispatch claim_v2
  claim_v2-claimed m n now hash token t early e f = ground arith

  -- A successful v2 claim pairs the mailbox and erases the commitment, and it is the last one:
  -- after any further successful transitions, at any times, and until the expiry, a claim, of
  -- either version and with any token, is refused as from no member, or as closed once the
  -- mailbox is.
  pub claim_v2_once :
      (m n o : Mailbox) (now later : ℕ) (hash hash' : MembershipHash) (token token' : ClaimToken)
      (t : MailboxTransition)
      → now < m.expires_at
      → transition sha256 m now (MailboxCommand.claim_v2 hash token) ≡ ok t
      → t.state ≡ some n
      → Later sha256 n o
      → later < o.expires_at
      → (n.status ≡ MailboxStatus.paired)
        × (n.admission ≡ AdmissionSnapshot.v2_claimed)
        × (transition sha256 o later (MailboxCommand.claim_v2 hash' token')
            ≡ err (refusal o.status))
        × (transition sha256 o later (MailboxCommand.claim hash') ≡ err (refusal o.status))
  claim_v2_once m n o now later hash hash' token token' t early e f l soon =
      let (paired, claimed) = claim_v2-claimed m n now hash token t early e f in
      let spent = Later-Spent l (rw (paired, claimed) refl) in
      let (second, first) = Spent-refused sha256 o later hash' token' spent soon in
      (paired, claimed, second, first)

  -- A third membership that claims a live paired v1 mailbox crowds it: the mailbox is closed
  -- for everybody, and every queued body is deleted.
  pub claim_crowds :
      (m : Mailbox) (c : MemberState) (now : ℕ) (hash : MembershipHash)
      → IsValid sha256 m
      → now < m.expires_at
      → m.status ≡ MailboxStatus.paired
      → m.admission ≡ AdmissionSnapshot.v1
      → m.claimant ≡ some c
      → hash ≢ m.allocator.hash
      → hash ≢ c.hash
      → transition sha256 m now (MailboxCommand.claim hash)
        ≡ ok (
            keeps
              (closed_as m CloseReason.crowded)
              (all_deletions m ++ (MailboxEffect.terminal CloseReason.crowded ∷ [])))
  unfolding transition dispatch claim
  claim_crowds m c now hash v early paired v1 e ne ne' = ground (
    arith,
    terminate_lem m CloseReason.crowded v.accounted,
    octets_beq_iff hash m.allocator.hash,
    octets_beq_iff c.hash hash,
  )
