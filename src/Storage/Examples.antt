-- ===== src/Storage/Examples.antt =====
-- The theorems on src/storage.rs at a concrete mailbox, with stand-ins for the hash and the codec.
use cbcl_pairing.Common.{
  ℕ, zero, suc, ◌≡◌, refl, Octets, [], ◌∷◌, Option, none, some, ok, ascii, false, true, insert,
  octets_ordered, remove, arith, ap, sym,
}
use native.Mathlib.Decide.{ℕ_discrete}
use cbcl_pairing.Cbor.{Value, Codec, IsCodec}
use cbcl_pairing.Mailbox.{Mailbox, MailboxStatus, AdmissionSnapshot}
use cbcl_pairing.Mailbox.Invariant.{IsValid}
use cbcl_pairing.Mailbox.Snapshot.{snapshot}
use cbcl_pairing.Storage.Record.{encode, record_value, sequence_values, sequence_value}
use cbcl_pairing.Storage.Decode.{decode}
use cbcl_pairing.Storage.RoundTrip.{sequence_list}
use cbcl_pairing.Storage.Retained.{HasWidths, decode-encode}
use cbcl_pairing.Storage.Store.{memory_store, Retains, memory_store_refines}
use cbcl_pairing.Storage.Names.{temporary_name, record_name, is_store_temporary}
use cbcl_pairing.Storage.Temporary.{is_store_temporary-temporary_name}

abbrev filled : ℕ → ℕ → Octets
filled b zero = []
filled b (suc n) = b ∷ filled b n

-- A waiting v2 mailbox with one queued body.
abbrev waiting : Mailbox
waiting = record {
  mailbox_id = filled 9 32;
  nameplate = none;
  expires_at = 1000;
  status = MailboxStatus.waiting;
  admission = AdmissionSnapshot.v2_pending (filled 3 32);
  allocator = record {
    hash = filled 1 32;
    next_seq = 1;
    frames =
        record { seq = 0; digest = filled 5 32; body_len = 32; body = some (filled 5 32) } ∷ [];
  };
  claimant = none;
  queue_bytes = 32;
}

abbrev same : Octets → Octets
same b = b

waiting-IsValid : IsValid same waiting
waiting-IsValid = ground arith

waiting-HasWidths : HasWidths waiting
waiting-HasWidths = ground arith

abbrev its_record : Value
its_record = record_value (snapshot waiting) (sequence_list (snapshot waiting).sequences)

Value-discrete : Discrete Value
Value-discrete = hlevel ℕ_discrete

-- A codec that knows the one value.
abbrev written : {v w : Value} → Dec (v ≡ w) → Option Octets
written (yes p) = some (7 ∷ [])
written (no p) = none

abbrev one_record : Codec
one_record = record {
  to_canonical_vec = λ v. written (Value-discrete v its_record);
  from_reader = λ b. some its_record;
}

written-eq : {v w : Value} (d : Dec (v ≡ w)) (b : Octets) → written d ≡ some b → v ≡ w
written-eq (yes p) b h = p
written-eq (no p) b h = cc

written_same : {v : Value} (d : Dec (v ≡ v)) → written d ≡ some (7 ∷ [])
written_same (yes p) = refl
written_same (no p) = absurd (p refl)

one_record-IsCodec : IsCodec one_record
one_record-IsCodec = record {
  reads = λ v b plain h. ap some (sym (written-eq (Value-discrete v its_record) b h));
}

encode-waiting : encode one_record (snapshot waiting) ≡ ok (7 ∷ [])
unfolding encode sequence_values sequence_value snapshot
encode-waiting = rw (written_same (Value-discrete its_record its_record)) refl

decode-encode_example : decode one_record same (7 ∷ []) ≡ ok waiting
decode-encode_example =
    decode-encode same one_record waiting (7 ∷ []) one_record-IsCodec waiting-IsValid
      waiting-HasWidths encode-waiting

memory_store_refines_example :
    let store = memory_store one_record same in
    ((store.load []).1 ≡ ok [])
    × ((store.put [] waiting).1 ≡ ok tt)
    × Retains one_record same (store.put [] waiting).0 (insert (filled 9 32) waiting [])
    × Retains one_record same (store.remove [] (filled 9 32)).0 (remove (filled 9 32) [])
memory_store_refines_example =
    memory_store_refines one_record same [] [] waiting (filled 9 32) (7 ∷ []) one_record-IsCodec tt
      waiting-IsValid waiting-HasWidths encode-waiting

is_store_temporary-temporary_name_example :
    (is_store_temporary (temporary_name (filled 9 32) (ascii "4711")) ≡ true)
    × (is_store_temporary (record_name (filled 9 32)) ≡ false)
is_store_temporary-temporary_name_example =
    is_store_temporary-temporary_name (filled 9 32) (ascii "4711") refl (omega arith) refl refl
