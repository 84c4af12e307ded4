-- ===== src/Endpoint/Canonical.antt =====
-- src/endpoint.rs: `decode` takes nothing but what `encode` writes of an invitation record.
use cbcl_pairing.Common.{
  ◌≡◌, ◌↔◌, refl, subst, Octets, octets_ordered, octets_beq_iff, ◌==◌, length, Bool-cases, inl, inr,
  Option, none, some, true, ok, arith,
}
use cbcl_pairing.Cbor.{Codec, IsCodec, Value, nil, cons}
use cbcl_pairing.Endpoint.{InvitationRecord, InvitationStatus}
use cbcl_pairing.Endpoint.Invitations.{
  binding_value, decode, decode_binding, decode_status, decode_value, encode, fixed_value,
  has_version, integer_u64, record_value, status_number,
}
use cbcl_pairing.Endpoint.Recording.{IsDigest, IsRecord, decode_invitation-encode}

version_lem : (v : Value) → has_version (integer_u64 v) ≡ true → v ≡ Value.integer 1
version_lem v h = ground arith

fixed_value_lem :
    (v : Value) (b : Octets) → fixed_value v ≡ ok b → (v ≡ Value.bytes b) × (length b ≡ 32)
fixed_value_lem v b h = ground arith

status_lem :
    (v : Value) (st : InvitationStatus)
    → decode_status (integer_u64 v) ≡ ok st
    → v ≡ Value.integer (status_number st)
unfolding decode_status
status_lem v st h = ground arith

binding_lem :
    (v : Value) (o : Option Octets) → decode_binding v ≡ ok o → (v ≡ binding_value o) × IsDigest o
unfolding decode_binding
binding_lem v o h = ground arith

fields_lem :
    (version digest status binding : Value) (r : InvitationRecord)
    → decode_value (Value.array (cons version (cons digest (cons status (cons binding nil)))))
      ≡ ok r
    → (Value.array (cons version (cons digest (cons status (cons binding nil)))) ≡ record_value r)
      × IsRecord r
unfolding decode_value
fields_lem version digest status binding r h =
    ground
      (arith, version_lem version, fixed_value_lem digest, status_lem status, binding_lem binding)

value_lem :
    (v : Value) (r : InvitationRecord) → decode_value v ≡ ok r → (v ≡ record_value r) × IsRecord r
unfolding decode_value
value_lem (Value.array (cons version (cons digest (cons status (cons binding nil))))) r h =
    fields_lem version digest status binding r h
value_lem (Value.array nil) r h = absurd (ground (arith, h))
value_lem (Value.array (cons a nil)) r h = absurd (ground (arith, h))
value_lem (Value.array (cons a (cons b nil))) r h = absurd (ground (arith, h))
value_lem (Value.array (cons a (cons b (cons c nil)))) r h = absurd (ground (arith, h))
value_lem (Value.array (cons a (cons b (cons c (cons d (cons e rest)))))) r h =
    absurd (ground (arith, h))
value_lem Value.null r h = absurd (ground (arith, h))
value_lem (Value.boolean b) r h = absurd (ground (arith, h))
value_lem (Value.integer n) r h = absurd (ground (arith, h))
value_lem (Value.negative n) r h = absurd (ground (arith, h))
value_lem (Value.bytes b) r h = absurd (ground (arith, h))
value_lem (Value.text b) r h = absurd (ground (arith, h))
value_lem (Value.mapping es) r h = absurd (ground (arith, h))
value_lem (Value.other b) r h = absurd (ground (arith, h))

-- The steps of `decode`, one by one.
again_lem :
    (c : Codec) (v : Value) (o : Option Octets) (r : InvitationRecord) (b : Octets)
    → c.to_canonical_vec v ≡ o
    → c.from_reader b ≡ some v
    → decode c b ≡ ok r
    → (c.to_canonical_vec v ≡ some b) × (decode_value v ≡ ok r)
unfolding decode
again_lem c v none r b e f h = absurd (ground (arith, e, f, h))
again_lem c v (some a) r b e f h = elim (Bool-cases (a == b)) [
  | inl same ↦ ground (arith, e, f, h, same, octets_beq_iff a b)
  | inr other ↦ absurd (ground (arith, e, f, h, other))
]

decoded_lem :
    (c : Codec) (o : Option Value) (r : InvitationRecord) (b : Octets)
    → c.from_reader b ≡ o
    → decode c b ≡ ok r
    → (v : Value) × ((c.to_canonical_vec v ≡ some b) × (decode_value v ≡ ok r))
unfolding decode
decoded_lem c none r b e h = absurd (ground (arith, e, h))
decoded_lem c (some v) r b e h = (v, again_lem c v (c.to_canonical_vec v) r b refl e h)

-- If the codec reads back what it wrote, then `decode` takes bytes as an invitation record
-- exactly if that record has digests of 32 octets, a binding exactly if it is bound, and `encode`
-- writes these very bytes of it.
pub decode_invitation_iff :
    (c : Codec) (r : InvitationRecord) (b : Octets)
    → IsCodec c
    → (decode c b ≡ ok r) ↔ (IsRecord r × (encode c r ≡ ok b))
unfolding encode
decode_invitation_iff c r b laws = (
  λ h.
      let (v, (written, fields)) = decoded_lem c (c.from_reader b) r b refl h in
      let known = value_lem v r fields in
      (known.1, rw (subst (λ x. c.to_canonical_vec x ≡ some b) known.0 written) refl),
  λ h. decode_invitation-encode c r b laws h.0 h.1,
)
