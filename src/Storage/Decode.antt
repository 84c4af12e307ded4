-- ===== src/Storage/Decode.antt =====
-- src/storage.rs: `decode`, from a canonical record to a validated mailbox.
use cbcl_pairing.Common.{
  Octets, octets_ordered, ◌==◌, List, [], ◌∷◌, not, if◌then◌else◌, Bool, false, Outcome, ok, err,
  panic, ◌>>=◌, ok_or, u8_mod, u64_mod,
}
use cbcl_pairing.Cbor.{Value, Values, nil, cons, Codec}
use cbcl_pairing.Mailbox.{Mailbox, MailboxError, AdmissionSnapshot, MembershipHash}
use cbcl_pairing.Mailbox.Snapshot.{SequenceSnapshot, from_snapshot}
use cbcl_pairing.Storage.{StoreError}
use cbcl_pairing.Storage.Record.{
  Stored, integer, fixed, try_into, decode_nameplate, decode_body, decode_owner, decode_admission,
  decode_status, store_domain_v1, store_domain_v2,
}

unfoldable pub decode_sequence : Value → Stored SequenceSnapshot
decode_sequence
      (Value.array (cons owner (cons seq (cons digest (cons body_len (cons body nil)))))) =
    do
      o ← integer owner
      who ← decode_owner o
      q ← integer seq
      small ← try_into u8_mod q
      d ← fixed digest
      n ← integer body_len
      size ← try_into u64_mod n
      b ← decode_body body
      ok (record { owner = who; seq = small; body_digest = d; body_len = size; body = b })
decode_sequence _ = err StoreError.malformed

unfoldable pub decode_sequences : Values → Stored (List SequenceSnapshot)
decode_sequences nil = ok []
decode_sequences (cons v vs) = do s ← decode_sequence v; rest ← decode_sequences vs; ok (s ∷ rest)

unfoldable pub decode_hashes : Values → Stored (List MembershipHash)
decode_hashes nil = ok []
decode_hashes (cons v vs) = do h ← fixed v; rest ← decode_hashes vs; ok (h ∷ rest)

abbrev pub parts_of : Value → Stored Values
parts_of (Value.array vs) = ok vs
parts_of _ = err StoreError.malformed

-- `map_err(|_| StoreError::Malformed)`
abbrev pub as_stored : Outcome MailboxError Mailbox → Stored Mailbox
as_stored (ok m) = ok m
as_stored (err e) = err StoreError.malformed
as_stored panic = panic

-- The fields behind the domain, with the admission state.
unfoldable pub decode_fields :
    (Octets → Octets)
    → Value
    → Value
    → Value
    → Value
    → Value
    → Value
    → AdmissionSnapshot
    → Stored Mailbox
decode_fields sha256 mailbox_id nameplate expires_at status hashes sequences admission = do
  id ← fixed mailbox_id
  plate ← decode_nameplate nameplate
  st ← decode_status status
  hash_parts ← parts_of hashes
  hs ← decode_hashes hash_parts
  sequence_parts ← parts_of sequences
  ss ← decode_sequences sequence_parts
  expiry ← integer expires_at
  as_stored (
      from_snapshot sha256 (record {
        mailbox_id = id;
        nameplate = plate;
        expires_at = expiry;
        status = st;
        admission = admission;
        membership_hashes = hs;
        sequences = ss;
      }))

-- `domain.as_text() == Some(...)`
abbrev pub is_domain : Octets → Value → Bool
is_domain domain (Value.text t) = t == domain
is_domain domain _ = false

unfoldable pub decode_value : (Octets → Octets) → Value → Stored Mailbox
unfolding decode_fields
decode_value sha256
      (Value.array (
        cons domain
          (cons id (cons plate (cons expiry (cons status (cons hashes (cons sequences nil)))))))) =
    if is_domain store_domain_v1 domain
    then decode_fields sha256 id plate expiry status hashes sequences AdmissionSnapshot.v1
    else err StoreError.malformed
decode_value sha256
      (Value.array (
        cons domain (
          cons id (
            cons plate
              (cons expiry (cons status (cons hashes (cons sequences (cons admission nil))))))))) =
    if is_domain store_domain_v2 domain
    then (do
      a ← decode_admission admission
      decode_fields sha256 id plate expiry status hashes sequences a)
    else err StoreError.malformed
decode_value sha256 _ = err StoreError.malformed

-- Only the canonical encoding of a value is a record.
unfoldable pub decode : Codec → (Octets → Octets) → Octets → Stored Mailbox
unfolding decode_value
decode c sha256 input = do
  value ← ok_or (c.from_reader input) StoreError.malformed
  again ← ok_or (c.to_canonical_vec value) StoreError.malformed
  if not (again == input) then err StoreError.malformed else decode_value sha256 value
