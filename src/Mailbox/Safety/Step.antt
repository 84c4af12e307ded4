-- ===== src/Mailbox/Safety/Step.antt =====
-- `transition` of src/mailbox.rs is total on well-formed mailboxes: no panic, and the next state is
-- well formed.
use cbcl_pairing.Common.{ℕ, ◌≡◌, Octets, false, arith}
use cbcl_pairing.Mailbox.{Mailbox, MailboxCommand}
use cbcl_pairing.Mailbox.Terminal.{is_terminal}
use cbcl_pairing.Mailbox.Step.{dispatch, transition}
use cbcl_pairing.Mailbox.Invariant.{IsValid}
use cbcl_pairing.Mailbox.Safety.{
  IsSafe, reap-IsSafe, claim-IsSafe, claim_v2-IsSafe, open_member-IsSafe, close-IsSafe,
}
use cbcl_pairing.Mailbox.Safety.PutAck.{put-IsSafe, ack-IsSafe}

module _ (sha256 : Octets → Octets) where
  dispatch-IsSafe :
      (m : Mailbox) (c : MailboxCommand)
      → IsValid sha256 m
      → is_terminal m.status ≡ false
      → IsSafe sha256 (dispatch sha256 m c)
  unfolding dispatch
  dispatch-IsSafe m (MailboxCommand.claim hash) v live = claim-IsSafe sha256 m hash v
  dispatch-IsSafe m (MailboxCommand.claim_v2 hash token) v live =
      claim_v2-IsSafe sha256 m hash token v
  dispatch-IsSafe m (MailboxCommand.open_member hash) v live = open_member-IsSafe sha256 m hash v
  dispatch-IsSafe m (MailboxCommand.put sender seq body) v live =
      put-IsSafe sha256 m sender seq body v live
  dispatch-IsSafe m (MailboxCommand.ack sender seq) v live = ack-IsSafe sha256 m sender seq v live
  dispatch-IsSafe m (MailboxCommand.close sender) v live = close-IsSafe sha256 m sender v

  -- On a well-formed mailbox, at any time and for any command, `transition` does not panic, and
  -- the mailbox that it returns, if any, is well formed.
  pub transition-IsSafe :
      (m : Mailbox) (now : ℕ) (c : MailboxCommand)
      → IsValid sha256 m
      → IsSafe sha256 (transition sha256 m now c)
  unfolding transition
  transition-IsSafe m now c v = ground (arith, reap-IsSafe sha256 m now v, dispatch-IsSafe m c v)
