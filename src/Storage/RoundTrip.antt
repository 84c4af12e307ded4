-- ===== src/Storage/RoundTrip.antt =====
-- src/storage.rs: `decode` reads back what `encode` wrote.
use cbcl_pairing.Common.{
  ℕ, ◌<◌, ◌^◌, ◌≡◌, refl, Octets, octets_ordered, octets_beq_self, List, [], ◌∷◌, length, Option,
  none, some, ok, u8_mod, u64_mod, arith, ◌∙◌,
}
use cbcl_pairing.Cbor.{Value, Values, nil, cons, IsPlain, ArePlain}
use cbcl_pairing.Mailbox.{Membership, MailboxStatus, AdmissionSnapshot, MembershipHash}
use cbcl_pairing.Mailbox.Snapshot.{SequenceSnapshot, MailboxSnapshot, from_snapshot}
use cbcl_pairing.Storage.Record.{
  domain_of, decode_nameplate, decode_owner, membership_number, decode_body, body_value,
  sequence_array, sequence_value, sequence_values, hash_values, status_value, encode_admission,
  nameplate_value, record_value, decode_admission, decode_status, store_domain_v1, store_domain_v2,
  admission_values,
}
use cbcl_pairing.Storage.Decode.{
  decode_sequence, decode_sequences, decode_hashes, decode_fields, decode_value, as_stored,
}

-- The widths that the types of the source fix.
pub record IsSequence (s : SequenceSnapshot) : Type 0 where
  pub seq : s.seq < u8_mod
  pub digest : length s.body_digest ≡ 32
  pub size : s.body_len < u64_mod

abbrev pub AreSequences : List SequenceSnapshot → Type 0
AreSequences [] = Unit
AreSequences (s ∷ ss) = IsSequence s × AreSequences ss

abbrev pub AreHashes : List MembershipHash → Type 0
AreHashes [] = Unit
AreHashes (h ∷ hs) = (length h ≡ 32) × AreHashes hs

abbrev pub IsCommitment : AdmissionSnapshot → Type 0
IsCommitment (AdmissionSnapshot.v2_pending c) = length c ≡ 32
IsCommitment _ = Unit

abbrev pub IsPlate : Option ℕ → Type 0
IsPlate none = Unit
IsPlate (some n) = n < 2 ^ 32

pub record IsWide (s : MailboxSnapshot) : Type 0 where
  pub mailbox_id : length s.mailbox_id ≡ 32
  pub nameplate : IsPlate s.nameplate
  pub expiry : s.expires_at < u64_mod
  pub admission : IsCommitment s.admission
  pub hashes : AreHashes s.membership_hashes
  pub sequences : AreSequences s.sequences

decode_owner_number :
    (o : Membership) → (decode_owner (membership_number o) ≡ ok o) × (membership_number o < 2)
decode_owner_number o = ground arith

decode_body_value :
    (b : Option Octets) → (decode_body (body_value b) ≡ ok b) × IsPlain (body_value b)
decode_body_value none = (refl, tt)
decode_body_value (some b) = (refl, tt)

decode_sequence_array :
    (s : SequenceSnapshot)
    → IsSequence s
    → (decode_sequence (sequence_array s) ≡ ok s) × IsPlain (sequence_array s)
unfolding decode_sequence
decode_sequence_array s w =
    let owner = decode_owner_number s.owner in
    let body = decode_body_value s.body in (ground arith, ground arith)

-- What `sequence_values` returns if the widths are right.
abbrev pub sequence_list : List SequenceSnapshot → Values
sequence_list [] = nil
sequence_list (s ∷ ss) = cons (sequence_array s) (sequence_list ss)

pub sequence_values_lem :
    (ss : List SequenceSnapshot) → AreSequences ss → sequence_values ss ≡ ok (sequence_list ss)
unfolding sequence_values sequence_value
sequence_values_lem [] w = refl
sequence_values_lem (s ∷ ss) (here, w) = ground (arith, sequence_values_lem ss)

decode_sequences-sequence_list :
    (ss : List SequenceSnapshot)
    → AreSequences ss
    → (decode_sequences (sequence_list ss) ≡ ok ss) × ArePlain (sequence_list ss)
unfolding decode_sequences
decode_sequences-sequence_list [] w = (refl, tt)
decode_sequences-sequence_list (s ∷ ss) (here, w) =
    let (first, plain) = decode_sequence_array s here in
    let (rest, plains) = decode_sequences-sequence_list ss w in (ground arith, (plain, plains))

decode_hashes-hash_values :
    (hs : List MembershipHash)
    → AreHashes hs
    → (decode_hashes (hash_values hs) ≡ ok hs) × ArePlain (hash_values hs)
unfolding decode_hashes
decode_hashes-hash_values [] w = (refl, tt)
decode_hashes-hash_values (h ∷ hs) w = ground (arith, decode_hashes-hash_values hs)

decode_status-status_value :
    (s : MailboxStatus) → (decode_status (status_value s) ≡ ok s) × IsPlain (status_value s)
unfolding decode_status
decode_status-status_value s = ground arith

decode_admission-encode_admission :
    (a : AdmissionSnapshot)
    → IsCommitment a
    → (decode_admission (encode_admission a) ≡ ok a) × IsPlain (encode_admission a)
unfolding decode_admission
decode_admission-encode_admission a w = ground arith

decode_nameplate_value :
    (n : Option ℕ)
    → IsPlate n
    → (decode_nameplate (nameplate_value n) ≡ ok n) × IsPlain (nameplate_value n)
decode_nameplate_value none w = (refl, tt)
decode_nameplate_value (some n) w = (ground arith, omega arith)

decode_fields_lem :
    (sha256 : Octets → Octets) (s : MailboxSnapshot)
    → IsWide s
    → decode_fields sha256
        (Value.bytes s.mailbox_id)
        (nameplate_value s.nameplate)
        (Value.integer s.expires_at)
        (status_value s.status)
        (Value.array (hash_values s.membership_hashes))
        (Value.array (sequence_list s.sequences))
        s.admission
      ≡ as_stored (from_snapshot sha256 s)
unfolding decode_fields
decode_fields_lem sha256 s w =
    let plate = decode_nameplate_value s.nameplate w.nameplate in
    let status = decode_status-status_value s.status in
    let hashes = decode_hashes-hash_values s.membership_hashes w.hashes in
    let sequences = decode_sequences-sequence_list s.sequences w.sequences in
    let id : length s.mailbox_id ≡ 32 = w.mailbox_id in
    let expiry : s.expires_at < u64_mod = w.expiry in ground arith

-- The domain and the number of parts fit the admission state.
decode_value_lem :
    (sha256 : Octets → Octets) (a : AdmissionSnapshot)
    (id plate expiry status hashes sequences : Value)
    → IsCommitment a
    → (decode_value sha256 (
          Value.array (
            cons (Value.text (domain_of a)) (
              cons id (
                cons plate (
                  cons expiry (cons status (cons hashes (cons sequences (admission_values a)))))))))
        ≡ decode_fields sha256 id plate expiry status hashes sequences a)
      × ArePlain (admission_values a)
unfolding decode_value
decode_value_lem sha256 AdmissionSnapshot.v1 id plate expiry status hashes sequences w =
    (ground (arith, octets_beq_self store_domain_v1), tt)
decode_value_lem sha256 (AdmissionSnapshot.v2_pending commitment) id plate expiry status hashes
      sequences w =
    let (back, plain) =
      decode_admission-encode_admission (AdmissionSnapshot.v2_pending commitment) w in
    (ground (arith, octets_beq_self store_domain_v2), (plain, tt))
decode_value_lem sha256 AdmissionSnapshot.v2_claimed id plate expiry status hashes sequences w =
    let (back, plain) = decode_admission-encode_admission AdmissionSnapshot.v2_claimed w in
    (ground (arith, octets_beq_self store_domain_v2), (plain, tt))
decode_value_lem sha256 AdmissionSnapshot.v2_closed id plate expiry status hashes sequences w =
    let (back, plain) = decode_admission-encode_admission AdmissionSnapshot.v2_closed w in
    (ground (arith, octets_beq_self store_domain_v2), (plain, tt))

pub decode_value-record_value :
    (sha256 : Octets → Octets) (s : MailboxSnapshot)
    → IsWide s
    → (decode_value sha256 (record_value s (sequence_list s.sequences))
        ≡ as_stored (from_snapshot sha256 s))
      × IsPlain (record_value s (sequence_list s.sequences))
decode_value-record_value sha256 s w =
    let (whole, last) =
      decode_value_lem sha256 s.admission (Value.bytes s.mailbox_id) (nameplate_value s.nameplate)
        (Value.integer s.expires_at) (status_value s.status)
        (Value.array (hash_values s.membership_hashes)) (Value.array (sequence_list s.sequences))
        w.admission in
    (
      whole ∙ decode_fields_lem sha256 s w,
      (
        tt,
        (
          tt,
          (
            (decode_nameplate_value s.nameplate w.nameplate).1,
            (
              w.expiry,
              (
                (decode_status-status_value s.status).1,
                (
                  (decode_hashes-hash_values s.membership_hashes w.hashes).1,
                  ((decode_sequences-sequence_list s.sequences w.sequences).1, last),
                ),
              ),
            ),
          ),
        ),
      ),
    )
