-- ===== src/Mailbox/Step.antt =====
-- src/mailbox.rs: `transition`, which applies one command at one time.
use cbcl_pairing.Common.{ℕ, Octets, leb, octets_ordered, if◌then◌else◌, err}
use cbcl_pairing.Mailbox.{Mailbox, MailboxCommand, MailboxError, MailboxStatus}
use cbcl_pairing.Mailbox.Terminal.{Attempt, reap}
use cbcl_pairing.Mailbox.Claims.{claim, claim_v2, open_member, close}
use cbcl_pairing.Mailbox.Frames.{put, ack}

-- The `match command` of `transition`, on a mailbox that is live.
unfoldable pub dispatch : (Octets → Octets) → Mailbox → MailboxCommand → Attempt
dispatch sha256 m (MailboxCommand.claim hash) = claim m hash
dispatch sha256 m (MailboxCommand.claim_v2 hash token) = claim_v2 sha256 m hash token
dispatch sha256 m (MailboxCommand.open_member hash) = open_member m hash
dispatch sha256 m (MailboxCommand.put sender seq body) = put sha256 m sender seq body
dispatch sha256 m (MailboxCommand.ack sender peer_seq) = ack m sender peer_seq
dispatch sha256 m (MailboxCommand.close sender) = close m sender

-- The early return for a terminal mailbox.
abbrev pub if_live : MailboxStatus → Attempt → Attempt
if_live (MailboxStatus.terminal reason) s = err (MailboxError.closed reason)
if_live _ s = s

unfoldable pub transition : (Octets → Octets) → Mailbox → ℕ → MailboxCommand → Attempt
transition sha256 m now command =
    if leb m.expires_at now then reap m now else if_live m.status (dispatch sha256 m command)
