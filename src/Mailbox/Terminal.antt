-- ===== src/Mailbox/Terminal.antt =====
-- src/mailbox.rs: `member`, `terminate` and `reap`. A transition is an `Outcome`: `err` is an `Err`,
-- and `panic` an `expect` that fails.
use cbcl_pairing.Common.{
  ℕ, List, [], ◌∷◌, ◌++◌, Option, none, some, Bool, true, false, ltb, ◌==◌, octets_ordered,
  if◌then◌else◌, Outcome, ok, ◌>>=◌,
}
use cbcl_pairing.Wire.{CloseReason}
use cbcl_pairing.Mailbox.{
  Membership, MemberState, Mailbox, MailboxEffect, MailboxError, MailboxStatus, MailboxTransition,
  AdmissionSnapshot, MembershipHash,
}
use cbcl_pairing.Mailbox.Bodies.{delete_bodies}

abbrev pub Attempt : Type 0
Attempt = Outcome MailboxError MailboxTransition

-- The transition that keeps a live mailbox.
abbrev pub keeps : Mailbox → List MailboxEffect → MailboxTransition
keeps m effects = record { state = some m; effects = effects }

abbrev pub member : Mailbox → Membership → Option MemberState
member m Membership.allocator = some m.allocator
member m Membership.claimant = m.claimant

-- `*member_mut(membership)? = value`.
abbrev pub set_member : Mailbox → Membership → MemberState → Mailbox
set_member m Membership.allocator value = record m { allocator = value }
set_member m Membership.claimant value = record m { claimant = some value }

abbrev pub has_hash : Option MemberState → MembershipHash → Bool
has_hash none hash = false
has_hash (some c) hash = c.hash == hash

unfoldable pub membership_for_hash : Mailbox → MembershipHash → Option Membership
membership_for_hash m hash =
    if m.allocator.hash == hash
    then some Membership.allocator
    else if has_hash m.claimant hash
    then some Membership.claimant
    else none

-- `matches!(self.admission, AdmissionSnapshot::V1)`.
abbrev pub is_v1 : AdmissionSnapshot → Bool
is_v1 AdmissionSnapshot.v1 = true
is_v1 _ = false

unfoldable pub terminate : Mailbox → CloseReason → Attempt
terminate m reason = do
  (deleted, effects) ← delete_bodies m
  ok (
      keeps
        (record deleted {
          status = MailboxStatus.terminal reason;
          admission =
              if is_v1 deleted.admission then deleted.admission else AdmissionSnapshot.v2_closed;
        })
        (effects ++ (MailboxEffect.terminal reason ∷ [])))

abbrev pub is_terminal : MailboxStatus → Bool
is_terminal (MailboxStatus.terminal _) = true
is_terminal _ = false

unfoldable pub reap : Mailbox → ℕ → Attempt
reap m now = if ltb now m.expires_at then ok (keeps m []) else do
  (deleted, effects) ← delete_bodies m
  ok (record {
    state = none;
    effects =
        effects
        ++ (if is_terminal deleted.status
            then []
            else MailboxEffect.terminal CloseReason.expired ∷ []);
  })
