-- ===== src/Storage/Record.antt =====
-- src/storage.rs: `encode` and `decode`, between a mailbox and its canonical record.
use cbcl_pairing.Common.{
  ℕ, ◌^◌, Octets, octets_ordered, nat_beq, ltb, List, [], ◌∷◌, length, Option, none, some,
  if◌then◌else◌, ascii, Outcome, ok, err, ◌>>=◌, ok_or, u64_mod,
}
use cbcl_pairing.Cbor.{Value, Values, nil, cons, values, Codec}
use cbcl_pairing.Wire.{CloseReason}
use cbcl_pairing.Mailbox.{Membership, MailboxStatus, AdmissionSnapshot, MembershipHash}
use cbcl_pairing.Mailbox.Snapshot.{SequenceSnapshot, MailboxSnapshot}
use cbcl_pairing.Storage.{StoreError}

abbrev pub store_domain_v1 : Octets
store_domain_v1 = ascii "cbcl-pairing-mailbox-store/v1"

abbrev pub store_domain_v2 : Octets
store_domain_v2 = ascii "cbcl-pairing-mailbox-store/v2"

abbrev pub Stored : Type 0 → Type 0
Stored A = Outcome StoreError A

abbrev pub membership_number : Membership → ℕ
membership_number Membership.allocator = 0
membership_number Membership.claimant = 1

abbrev pub close_number : CloseReason → ℕ
close_number CloseReason.closed = 0
close_number CloseReason.crowded = 1
close_number CloseReason.expired = 2
close_number CloseReason.conflict = 3

unfoldable pub close_reason : ℕ → Stored CloseReason
close_reason n =
    if nat_beq n 0
    then ok CloseReason.closed
    else if nat_beq n 1
    then ok CloseReason.crowded
    else if nat_beq n 2
    then ok CloseReason.expired
    else if nat_beq n 3
    then ok CloseReason.conflict
    else err StoreError.malformed

-- The status, the admission state, a nameplate and a body, as values.
abbrev pub status_value : MailboxStatus → Value
status_value MailboxStatus.waiting = Value.array (values (Value.integer 0 ∷ []))
status_value MailboxStatus.paired = Value.array (values (Value.integer 1 ∷ []))
status_value (MailboxStatus.terminal reason) =
    Value.array (values (Value.integer 2 ∷ Value.integer (close_number reason) ∷ []))

abbrev pub encode_admission : AdmissionSnapshot → Value
encode_admission AdmissionSnapshot.v1 = Value.array (values (Value.integer 0 ∷ []))
encode_admission (AdmissionSnapshot.v2_pending commitment) =
    Value.array (values (Value.integer 1 ∷ Value.bytes commitment ∷ []))
encode_admission AdmissionSnapshot.v2_claimed = Value.array (values (Value.integer 2 ∷ []))
encode_admission AdmissionSnapshot.v2_closed = Value.array (values (Value.integer 3 ∷ []))

abbrev pub nameplate_value : Option ℕ → Value
nameplate_value none = Value.null
nameplate_value (some n) = Value.integer n

abbrev pub body_value : Option Octets → Value
body_value none = Value.null
body_value (some body) = Value.bytes body

abbrev pub hash_values : List MembershipHash → Values
hash_values [] = nil
hash_values (hash ∷ hashes) = cons (Value.bytes hash) (hash_values hashes)

-- One sequence; a length that does not fit a `u64` is refused.
abbrev pub sequence_array : SequenceSnapshot → Value
sequence_array s = Value.array (
    values (
      Value.integer (membership_number s.owner)
      ∷ Value.integer s.seq
      ∷ Value.bytes s.body_digest
      ∷ Value.integer s.body_len
      ∷ body_value s.body
      ∷ []))

unfoldable pub sequence_value : SequenceSnapshot → Stored Value
sequence_value s =
    if ltb s.body_len u64_mod then ok (sequence_array s) else err StoreError.malformed

unfoldable pub sequence_values : List SequenceSnapshot → Stored Values
sequence_values [] = ok nil
sequence_values (s ∷ ss) = do v ← sequence_value s; vs ← sequence_values ss; ok (cons v vs)

-- The admission state stands at the end of a v2 record only.
abbrev pub domain_of : AdmissionSnapshot → Octets
domain_of AdmissionSnapshot.v1 = store_domain_v1
domain_of _ = store_domain_v2

abbrev pub admission_values : AdmissionSnapshot → Values
admission_values AdmissionSnapshot.v1 = nil
admission_values admission = cons (encode_admission admission) nil

abbrev pub record_value : MailboxSnapshot → Values → Value
record_value s sequences = Value.array (
    cons (Value.text (domain_of s.admission)) (
      cons (Value.bytes s.mailbox_id) (
        cons (nameplate_value s.nameplate) (
          cons (Value.integer s.expires_at) (
            cons (status_value s.status) (
              cons (Value.array (hash_values s.membership_hashes))
                (cons (Value.array sequences) (admission_values s.admission))))))))

unfoldable pub encode : Codec → MailboxSnapshot → Stored Octets
encode c s = do
  sequences ← sequence_values s.sequences
  ok_or (c.to_canonical_vec (record_value s sequences)) StoreError.malformed

-- `integer`, `fixed::<32>`, and an integer below a bound, `try_into`.
abbrev pub integer : Value → Stored ℕ
integer (Value.integer n) = if ltb n u64_mod then ok n else err StoreError.malformed
integer _ = err StoreError.malformed

abbrev pub fixed : Value → Stored Octets
fixed (Value.bytes b) = if nat_beq (length b) 32 then ok b else err StoreError.malformed
fixed _ = err StoreError.malformed

abbrev pub try_into : ℕ → ℕ → Stored ℕ
try_into bound n = if ltb n bound then ok n else err StoreError.malformed

abbrev pub decode_nameplate : Value → Stored (Option ℕ)
decode_nameplate Value.null = ok none
decode_nameplate v = do n ← integer v; p ← try_into (2 ^ 32) n; ok (some p)

abbrev pub decode_body : Value → Stored (Option Octets)
decode_body Value.null = ok none
decode_body (Value.bytes b) = ok (some b)
decode_body _ = err StoreError.malformed

abbrev pub decode_owner : ℕ → Stored Membership
decode_owner n =
    if nat_beq n 0
    then ok Membership.allocator
    else if nat_beq n 1
    then ok Membership.claimant
    else err StoreError.malformed

-- An admission state: first the kinds of one part, then that of two.
unfoldable pub lone_admission : ℕ → Stored AdmissionSnapshot
lone_admission kind =
    if nat_beq kind 0
    then ok AdmissionSnapshot.v1
    else if nat_beq kind 2
    then ok AdmissionSnapshot.v2_claimed
    else if nat_beq kind 3
    then ok AdmissionSnapshot.v2_closed
    else err StoreError.malformed

unfoldable pub decode_admission : Value → Stored AdmissionSnapshot
unfolding lone_admission
decode_admission (Value.array (cons kind nil)) = do n ← integer kind; lone_admission n
decode_admission (Value.array (cons kind (cons commitment nil))) = do
  n ← integer kind
  if nat_beq n 1
      then (do b ← fixed commitment; ok (AdmissionSnapshot.v2_pending b))
      else err StoreError.malformed
decode_admission _ = err StoreError.malformed

unfoldable pub decode_status : Value → Stored MailboxStatus
unfolding close_reason
decode_status (Value.array (cons kind nil)) = do
  n ← integer kind
  if nat_beq n 0
      then ok MailboxStatus.waiting
      else if nat_beq n 1
      then ok MailboxStatus.paired
      else err StoreError.malformed
decode_status (Value.array (cons kind (cons reason nil))) = do
  n ← integer kind
  if nat_beq n 2
      then (do m ← integer reason; r ← close_reason m; ok (MailboxStatus.terminal r))
      else err StoreError.malformed
decode_status _ = err StoreError.malformed
