-- ===== src/Mailbox/Allocate.antt =====
-- src/mailbox.rs: `Mailbox::allocate` and `Mailbox::allocate_v2`. Randomness and time are inputs.
use cbcl_pairing.Common.{
  ℕ, Octets, [], Bool, false, Option, none, some, ◌||◌, not, ltb, nat_beq, if◌then◌else◌,
  checked_add, Outcome, ok, err, ◌>>=◌, ok_or,
}
use cbcl_pairing.Mailbox.{
  AllocationInput, V2AllocationInput, Mailbox, MemberState, MailboxError, MailboxStatus,
  AdmissionSnapshot, MembershipHash, default_ttl_seconds, min_ttl_seconds, max_ttl_seconds,
  v2_ttl_seconds, max_nameplate,
}

-- `Option::unwrap_or`.
abbrev pub unwrap_or : Option ℕ → ℕ → ℕ
unwrap_or none d = d
unwrap_or (some n) d = n

-- A nameplate above the nine-digit ceiling.
abbrev pub nameplate_too_large : Option ℕ → Bool
nameplate_too_large none = false
nameplate_too_large (some n) = ltb max_nameplate n

-- A membership that has sent nothing.
abbrev pub new_member : MembershipHash → MemberState
new_member hash = record { hash = hash; next_seq = 0; frames = [] }

abbrev fresh : Octets → Option ℕ → ℕ → AdmissionSnapshot → MembershipHash → Mailbox
fresh mailbox_id nameplate expires_at admission hash = record {
  mailbox_id = mailbox_id;
  nameplate = nameplate;
  expires_at = expires_at;
  status = MailboxStatus.waiting;
  admission = admission;
  allocator = new_member hash;
  claimant = none;
  queue_bytes = 0;
}

unfoldable pub allocate : AllocationInput → Outcome MailboxError Mailbox
allocate input =
    let ttl = unwrap_or input.ttl_seconds default_ttl_seconds in
    if ltb ttl min_ttl_seconds || ltb max_ttl_seconds ttl
    then err MailboxError.lifetime_out_of_range
    else if nameplate_too_large input.nameplate
    then err MailboxError.nameplate_out_of_range
    else do
      expires_at ← ok_or (checked_add input.now ttl) MailboxError.expiry_overflow
      ok (
          fresh input.mailbox_id input.nameplate expires_at AdmissionSnapshot.v1
            input.allocator_hash)

unfoldable pub allocate_v2 : V2AllocationInput → Outcome MailboxError Mailbox
allocate_v2 input =
    if not (nat_beq (unwrap_or input.ttl_seconds v2_ttl_seconds) v2_ttl_seconds)
    then err MailboxError.lifetime_out_of_range
    else do
      expires_at ← ok_or (checked_add input.now v2_ttl_seconds) MailboxError.expiry_overflow
      ok (
          fresh input.mailbox_id none expires_at
            (AdmissionSnapshot.v2_pending input.claim_commitment) input.allocator_hash)
