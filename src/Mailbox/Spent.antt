-- ===== src/Mailbox/Spent.antt =====
-- src/mailbox.rs: a v2 mailbox that was claimed stays claimed.
use cbcl_pairing.Common.{ℕ, ◌<◌, ◌≡◌, Octets, Option, none, some, ok, err, Returns, arith}
use cbcl_pairing.Wire.{ClaimToken, CloseReason}
use cbcl_pairing.Mailbox.{
  AdmissionSnapshot, Mailbox, MailboxCommand, MailboxError, MailboxStatus, MailboxTransition,
  Membership, MembershipHash,
}
use cbcl_pairing.Mailbox.Terminal.{Attempt, reap, terminate}
use cbcl_pairing.Mailbox.Claims.{claim, claim_v2, close, open_member}
use cbcl_pairing.Mailbox.Frames.{ack, acknowledged, put, put_again, put_new}
use cbcl_pairing.Mailbox.Step.{dispatch, transition}

-- Claimed under its commitment, or terminal.
abbrev pub Spent : MailboxStatus → AdmissionSnapshot → Type 0
Spent MailboxStatus.waiting admission = ⊥
Spent MailboxStatus.paired admission = admission ≡ AdmissionSnapshot.v2_claimed
Spent (MailboxStatus.terminal reason) admission = Unit

abbrev SpentState : Option Mailbox → Type 0
SpentState none = Unit
SpentState (some m) = Spent m.status m.admission

-- What every claim of a spent mailbox is refused with.
abbrev pub refusal : MailboxStatus → MailboxError
refusal (MailboxStatus.terminal reason) = MailboxError.closed reason
refusal _ = MailboxError.not_member

-- The mailboxes that come of one by successful transitions, at any times.
pub data Later (sha256 : Octets → Octets) (m : Mailbox) : Mailbox → Type 0 where
  same : Later sha256 m m
  next :
      {n o : Mailbox} (now : ℕ) (c : MailboxCommand) (t : MailboxTransition)
      → Later sha256 m n
      → transition sha256 n now c ≡ ok t
      → t.state ≡ some o
      → Later sha256 m o

terminate-SpentState :
    (m : Mailbox) (r : CloseReason) → Returns (λ t. SpentState t.state) (terminate m r)
unfolding terminate
terminate-SpentState m r = ground arith

reap-SpentState :
    (m : Mailbox) (now : ℕ)
    → Spent m.status m.admission
    → Returns (λ t. SpentState t.state) (reap m now)
unfolding reap
reap-SpentState m now h = ground arith

dispatch-SpentState :
    (sha256 : Octets → Octets) (m : Mailbox) (c : MailboxCommand)
    → m.status ≡ MailboxStatus.paired
    → m.admission ≡ AdmissionSnapshot.v2_claimed
    → Returns (λ t. SpentState t.state) (dispatch sha256 m c)
unfolding dispatch claim claim_v2 open_member close put put_again put_new ack acknowledged
dispatch-SpentState sha256 m (MailboxCommand.claim hash) p a = ground arith
dispatch-SpentState sha256 m (MailboxCommand.claim_v2 hash token) p a = ground arith
dispatch-SpentState sha256 m (MailboxCommand.open_member hash) p a = ground arith
dispatch-SpentState sha256 m (MailboxCommand.put Membership.allocator seq body) p a =
    ground (arith, terminate-SpentState m CloseReason.conflict)
dispatch-SpentState sha256 m (MailboxCommand.put Membership.claimant seq body) p a =
    ground (arith, terminate-SpentState m CloseReason.conflict)
dispatch-SpentState sha256 m (MailboxCommand.ack Membership.allocator seq) p a = ground arith
dispatch-SpentState sha256 m (MailboxCommand.ack Membership.claimant seq) p a = ground arith
dispatch-SpentState sha256 m (MailboxCommand.close sender) p a =
    ground (arith, terminate-SpentState m CloseReason.closed)

transition-SpentState :
    (sha256 : Octets → Octets) (m : Mailbox) (now : ℕ) (c : MailboxCommand)
    → Spent m.status m.admission
    → Returns (λ t. SpentState t.state) (transition sha256 m now c)
unfolding transition
transition-SpentState sha256 m now c h =
    ground (arith, reap-SpentState m now h, dispatch-SpentState sha256 m c)

Returns-SpentState :
    {n : Mailbox} (a : Attempt) (t : MailboxTransition)
    → Returns (λ t. SpentState t.state) a
    → a ≡ ok t
    → t.state ≡ some n
    → Spent n.status n.admission
Returns-SpentState a t h e f = ground arith

pub Later-Spent :
    {sha256 : Octets → Octets} {m n : Mailbox}
    → Later sha256 m n
    → Spent m.status m.admission
    → Spent n.status n.admission
Later-Spent same h = h
Later-Spent {sha256} (next {n} now c t l e f) h =
    Returns-SpentState (transition sha256 n now c) t
      (transition-SpentState sha256 n now c (Later-Spent l h)) e f

pub Spent-refused :
    (sha256 : Octets → Octets) (m : Mailbox) (now : ℕ) (hash : MembershipHash) (token : ClaimToken)
    → Spent m.status m.admission
    → now < m.expires_at
    → (transition sha256 m now (MailboxCommand.claim_v2 hash token) ≡ err (refusal m.status))
      × (transition sha256 m now (MailboxCommand.claim hash) ≡ err (refusal m.status))
unfolding transition dispatch claim claim_v2
Spent-refused sha256 m now hash token h early = ground arith
