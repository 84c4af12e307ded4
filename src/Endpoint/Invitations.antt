-- ===== src/Endpoint/Invitations.antt =====
-- src/endpoint.rs: `InvitationRecord`, the durable record of the use of one invitation.
use cbcl_pairing.Common.{
  ℕ, Octets, octets_ordered, ◌==◌, [], ◌∷◌, Option, none, some, Bool, true, false, not, nat_beq,
  length, ltb, is_some, if◌then◌else◌, ascii, Outcome, ok, err, panic, ◌>>=◌, ok_or, u64_mod,
}
use cbcl_pairing.Cbor.{Value, nil, cons, values, Codec}
use cbcl_pairing.Endpoint.{BindOutcome, InvitationRecord, InvitationStatus, ReducerError}

unfoldable pub new : (Octets → Octets) → Octets → InvitationRecord
new sha256 invitation = record {
  invitation_digest = sha256 invitation;
  status = InvitationStatus.unused;
  binding = none;
}

unfoldable pub attempt_binding :
    Codec → (Octets → Octets) → Octets → Octets → Octets → Octets → Outcome ReducerError Octets
attempt_binding c sha256 invitation_digest mailbox_id peer_cpace_frame public_context = do
  encoded ←
      ok_or
        (c.to_canonical_vec (
          Value.array (
            values (
              Value.text (ascii "blind-pairing-attempt/v1")
              ∷ Value.bytes invitation_digest
              ∷ Value.bytes mailbox_id
              ∷ Value.bytes peer_cpace_frame
              ∷ Value.bytes public_context
              ∷ []))))
        ReducerError.recognition
  ok (sha256 encoded)

unfoldable pub spend : InvitationRecord → InvitationRecord
spend r = record r { status = InvitationStatus.spent; binding = none }

abbrev pub same_binding : Option Octets → Octets → Bool
same_binding none b = false
same_binding (some a) b = a == b

-- `bind`, once the binding of the attempt is computed.
unfoldable pub bind_to :
    InvitationRecord
    → InvitationStatus
    → Octets
    → InvitationRecord × Outcome ReducerError BindOutcome
unfolding spend
bind_to r InvitationStatus.unused b =
    (record r { status = InvitationStatus.bound; binding = some b }, ok BindOutcome.bound)
bind_to r InvitationStatus.bound b =
    if same_binding r.binding b
    then (r, ok BindOutcome.resumed)
    else (spend r, err ReducerError.invitation)
bind_to r InvitationStatus.spent b = (r, err ReducerError.invitation)

abbrev pub bind_result :
    InvitationRecord
    → Outcome ReducerError Octets
    → InvitationRecord × Outcome ReducerError BindOutcome
bind_result r (ok b) = bind_to r r.status b
bind_result r (err e) = (r, err e)
bind_result r panic = (r, panic)

unfoldable pub bind :
    Codec
    → (Octets → Octets)
    → InvitationRecord
    → Octets
    → Octets
    → Octets
    → InvitationRecord × Outcome ReducerError BindOutcome
unfolding bind_to
bind c sha256 r mailbox_id peer_cpace_frame public_context =
    bind_result r
      (attempt_binding c sha256 r.invitation_digest mailbox_id peer_cpace_frame public_context)

abbrev pub consume : InvitationRecord → InvitationRecord
consume r = spend r

abbrev pub status_number : InvitationStatus → ℕ
status_number InvitationStatus.unused = 0
status_number InvitationStatus.bound = 1
status_number InvitationStatus.spent = 2

abbrev pub binding_value : Option Octets → Value
binding_value none = Value.null
binding_value (some b) = Value.bytes b

abbrev pub record_value : InvitationRecord → Value
record_value r = Value.array (
    values (
      Value.integer 1
      ∷ Value.bytes r.invitation_digest
      ∷ Value.integer (status_number r.status)
      ∷ binding_value r.binding
      ∷ []))

unfoldable pub encode : Codec → InvitationRecord → Outcome ReducerError Octets
encode c r = ok_or (c.to_canonical_vec (record_value r)) ReducerError.recognition

abbrev pub integer_u64 : Value → Option ℕ
integer_u64 (Value.integer n) = if ltb n u64_mod then some n else none
integer_u64 _ = none

abbrev pub fixed_value : Value → Outcome ReducerError Octets
fixed_value (Value.bytes b) = if nat_beq (length b) 32 then ok b else err ReducerError.recognition
fixed_value _ = err ReducerError.recognition

unfoldable pub decode_status : Option ℕ → Outcome ReducerError InvitationStatus
decode_status none = err ReducerError.recognition
decode_status (some n) =
    if nat_beq n 0
    then ok InvitationStatus.unused
    else if nat_beq n 1
    then ok InvitationStatus.bound
    else if nat_beq n 2
    then ok InvitationStatus.spent
    else err ReducerError.recognition

unfoldable pub decode_binding : Value → Outcome ReducerError (Option Octets)
decode_binding Value.null = ok none
decode_binding v = do b ← fixed_value v; ok (some b)

abbrev pub is_bound : InvitationStatus → Bool
is_bound InvitationStatus.bound = true
is_bound _ = false

abbrev pub same_bool : Bool → Bool → Bool
same_bool true b = b
same_bool false b = not b

abbrev pub has_version : Option ℕ → Bool
has_version none = false
has_version (some n) = nat_beq n 1

unfoldable pub decode_value : Value → Outcome ReducerError InvitationRecord
unfolding decode_status decode_binding
decode_value (Value.array (cons version (cons digest (cons status (cons binding nil))))) =
    if not (has_version (integer_u64 version)) then err ReducerError.recognition else (do
      invitation_digest ← fixed_value digest
      st ← decode_status (integer_u64 status)
      b ← decode_binding binding
      if not (same_bool (is_bound st) (is_some b))
          then err ReducerError.recognition
          else ok (record { invitation_digest = invitation_digest; status = st; binding = b }))
decode_value _ = err ReducerError.recognition

-- Only the canonical encoding of a value is a record.
unfoldable pub decode : Codec → Octets → Outcome ReducerError InvitationRecord
unfolding decode_value
decode c input = do
  value ← ok_or (c.from_reader input) ReducerError.recognition
  again ← ok_or (c.to_canonical_vec value) ReducerError.recognition
  if not (again == input) then err ReducerError.recognition else decode_value value
