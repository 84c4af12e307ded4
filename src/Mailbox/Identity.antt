-- ===== src/Mailbox/Identity.antt =====
-- What no operation of src/mailbox.rs changes, and what expiry and closing do.
use cbcl_pairing.Common.{
  ℕ, ◌+◌, ◌≤◌, ◌<◌, ◌≡◌, Octets, [], ◌∷◌, ◌++◌, Option, none, some, false, arith, ok, err, Returns,
}
use cbcl_pairing.Wire.{CloseReason}
use cbcl_pairing.Mailbox.{
  Membership, MemberState, Mailbox, MailboxCommand, MailboxEffect, MailboxError, MailboxTransition,
}
use cbcl_pairing.Mailbox.Terminal.{Attempt, keeps, member, is_terminal, terminate, reap}
use cbcl_pairing.Mailbox.Claims.{claim, claim_v2, open_member, close}
use cbcl_pairing.Mailbox.Frames.{put, put_again, put_new, ack, acknowledged}
use cbcl_pairing.Mailbox.Step.{dispatch, transition}
use cbcl_pairing.Mailbox.Invariant.{IsValid, queued, member_queued}
use cbcl_pairing.Mailbox.Drain.{
  all_deletions, closed_as, terminate_lem, reap_lem, expiry_effect, delete_bodies_lem,
}

-- A mailbox with the identity of `m`.
pub record IsSame (m n : Mailbox) : Type 0 where
  pub mailbox_id : n.mailbox_id ≡ m.mailbox_id
  pub nameplate : n.nameplate ≡ m.nameplate
  pub expires_at : n.expires_at ≡ m.expires_at
  pub allocator : n.allocator.hash ≡ m.allocator.hash

abbrev SameState : Mailbox → Option Mailbox → Type 0
SameState m none = Unit
SameState m (some n) = IsSame m n

abbrev KeepsIdentity : Mailbox → Attempt → Type 0
KeepsIdentity m = Returns (λ t. SameState m t.state)

abbrev Accounted : Mailbox → Type 0
Accounted m = m.queue_bytes ≡ queued m.allocator.frames + member_queued m.claimant

terminate-keeps : (m : Mailbox) (r : CloseReason) → Accounted m → KeepsIdentity m (terminate m r)
terminate-keeps m r a = rw (terminate_lem m r a) (ground arith)

reap-keeps : (m : Mailbox) (now : ℕ) → Accounted m → KeepsIdentity m (reap m now)
unfolding reap
reap-keeps m now a = ground (arith, delete_bodies_lem m a)

put-keeps :
    (sha256 : Octets → Octets) (m : Mailbox) (sender : Membership) (seq : ℕ) (body : Octets)
    → Accounted m
    → KeepsIdentity m (put sha256 m sender seq body)
unfolding put put_again put_new
put-keeps sha256 m Membership.allocator seq body a =
    ground (arith, terminate-keeps m CloseReason.conflict a)
put-keeps sha256 m Membership.claimant seq body a =
    ground (arith, terminate-keeps m CloseReason.conflict a)

ack-keeps : (m : Mailbox) (sender : Membership) (seq : ℕ) → KeepsIdentity m (ack m sender seq)
unfolding ack acknowledged
ack-keeps m Membership.allocator seq = ground arith
ack-keeps m Membership.claimant seq = ground arith

dispatch-keeps :
    (sha256 : Octets → Octets) (m : Mailbox) (c : MailboxCommand)
    → Accounted m
    → KeepsIdentity m (dispatch sha256 m c)
unfolding dispatch claim claim_v2 open_member close
dispatch-keeps sha256 m (MailboxCommand.claim hash) a =
    ground (arith, terminate-keeps m CloseReason.crowded a)
dispatch-keeps sha256 m (MailboxCommand.claim_v2 hash token) a = ground arith
dispatch-keeps sha256 m (MailboxCommand.open_member hash) a = ground arith
dispatch-keeps sha256 m (MailboxCommand.put sender seq body) a =
    put-keeps sha256 m sender seq body a
dispatch-keeps sha256 m (MailboxCommand.ack sender seq) a = ack-keeps m sender seq
dispatch-keeps sha256 m (MailboxCommand.close sender) a =
    ground (arith, terminate-keeps m CloseReason.closed a)

-- A successful transition of a well-formed mailbox keeps its identifier, its nameplate, its
-- absolute expiry and its allocator's hash.
pub transition-IsSame :
    (sha256 : Octets → Octets) (m n : Mailbox) (now : ℕ) (c : MailboxCommand)
    (t : MailboxTransition)
    → IsValid sha256 m
    → transition sha256 m now c ≡ ok t
    → t.state ≡ some n
    → IsSame m n
unfolding transition
transition-IsSame sha256 m n now c t v e f =
    ground (arith, reap-keeps m now v.accounted, dispatch-keeps sha256 m c v.accounted)

-- At or after the expiry of a well-formed mailbox every command has one outcome: the mailbox is
-- gone, each queued body is reported deleted once, and `Expired` is reported unless the mailbox
-- was terminal before.
pub transition-expired :
    (sha256 : Octets → Octets) (m : Mailbox) (now : ℕ) (c : MailboxCommand)
    → IsValid sha256 m
    → m.expires_at ≤ now
    → transition sha256 m now c
      ≡ ok (record { state = none; effects = all_deletions m ++ expiry_effect m.status })
unfolding transition
transition-expired sha256 m now c v late = ground (arith, reap_lem m now v.accounted late)

-- A member's close of a live well-formed mailbox succeeds: it deletes every queued body,
-- reporting each, and from then on until the expiry every command is refused as closed.
pub close_is_final :
    (sha256 : Octets → Octets) (m : Mailbox) (s : MemberState) (sender : Membership) (now later : ℕ)
    (c : MailboxCommand)
    → IsValid sha256 m
    → is_terminal m.status ≡ false
    → member m sender ≡ some s
    → now < m.expires_at
    → later < m.expires_at
    → (transition sha256 m now (MailboxCommand.close sender)
        ≡ ok (
            keeps
              (closed_as m CloseReason.closed)
              (all_deletions m ++ (MailboxEffect.terminal CloseReason.closed ∷ []))))
      × (transition sha256 (closed_as m CloseReason.closed) later c
          ≡ err (MailboxError.closed CloseReason.closed))
unfolding transition dispatch close
close_is_final sha256 m s sender now later c v live e early early' =
    ground (arith, terminate_lem m CloseReason.closed v.accounted)
