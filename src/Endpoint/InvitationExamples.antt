-- ===== src/Endpoint/InvitationExamples.antt =====
-- The theorems on the invitation records of src/endpoint.rs at concrete records.
use cbcl_pairing.Common.{
  ℕ, zero, suc, ◌≡◌, refl, Octets, octets_ordered, [], ◌∷◌, Option, none, some, ok, err, ap, sym,
  arith,
}
use native.Mathlib.Decide.{ℕ_discrete}
use cbcl_pairing.Cbor.{Codec, IsCodec, Value, cons}
use cbcl_pairing.Endpoint.{BindOutcome, InvitationRecord, InvitationStatus, ReducerError}
use cbcl_pairing.Endpoint.Invitations.{
  attempt_binding, bind, bind_to, decode, encode, record_value, spend,
}
use cbcl_pairing.Endpoint.Binding.{bind_once}
use cbcl_pairing.Endpoint.Canonical.{decode_invitation_iff}
use cbcl_pairing.Endpoint.Recording.{IsRecord}

abbrev filled : ℕ → ℕ → Octets
filled b zero = []
filled b (suc n) = b ∷ filled b n

abbrev record_one : InvitationRecord
record_one = record {
  invitation_digest = filled 8 32;
  status = InvitationStatus.bound;
  binding = some (filled 2 32);
}

Value-discrete : Discrete Value
Value-discrete = hlevel ℕ_discrete

-- A codec that knows the value of the record.
abbrev written : {v w : Value} → Dec (v ≡ w) → Option Octets
written (yes p) = some (7 ∷ [])
written (no p) = none

abbrev one_value : Codec
one_value = record {
  to_canonical_vec = λ v. written (Value-discrete v (record_value record_one));
  from_reader = λ b. some (record_value record_one);
}

written_eq : {v w : Value} (d : Dec (v ≡ w)) (b : Octets) → written d ≡ some b → v ≡ w
written_eq (yes p) b h = p
written_eq (no p) b h = cc

written_same : {v : Value} (d : Dec (v ≡ v)) → written d ≡ some (7 ∷ [])
written_same (yes p) = refl
written_same (no p) = absurd (p refl)

one_value-IsCodec : IsCodec one_value
one_value-IsCodec = record {
  reads =
      λ v b plain h. ap some (sym (written_eq (Value-discrete v (record_value record_one)) b h));
}

encode-record_one : encode one_value record_one ≡ ok (7 ∷ [])
unfolding encode
encode-record_one =
    rw (written_same (Value-discrete (record_value record_one) (record_value record_one))) refl

record_one-IsRecord : IsRecord record_one
record_one-IsRecord = record { digest = refl; binding = refl; bound = refl }

decode_record_example : decode one_value (7 ∷ []) ≡ ok record_one
decode_record_example =
    (decode_invitation_iff one_value record_one (7 ∷ []) one_value-IsCodec).1
      (record_one-IsRecord, encode-record_one)

-- An encoder that keeps the mailbox of an attempt.
abbrev mailbox_of : Value → Option Octets
mailbox_of (Value.array (cons tag (cons digest (cons (Value.bytes mailbox) rest)))) = some mailbox
mailbox_of _ = none

abbrev attempts : Codec
attempts = record { to_canonical_vec = mailbox_of; from_reader = λ b. none }

abbrev unused_record : InvitationRecord
unused_record = record { invitation_digest = []; status = InvitationStatus.unused; binding = none }

abbrev taken : InvitationRecord
taken = (bind attempts (λ b. b) unused_record (1 ∷ []) [] []).0

bind_once_example :
    bind attempts (λ b. b) taken (2 ∷ []) [] [] ≡ (spend taken, err ReducerError.invitation)
unfolding bind bind_to attempt_binding
bind_once_example =
    ((bind_once attempts (λ b. b) unused_record taken BindOutcome.bound (1 ∷ []) [] [] (2 ∷ []) []
        [] (1 ∷ []) (2 ∷ []) refl refl refl).1
      (λ e. ground (arith, e))).0
