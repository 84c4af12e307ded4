-- ===== src/Endpoint/Recording.antt =====
-- src/endpoint.rs: `decode` reads back what `encode` wrote of an invitation record.
use cbcl_pairing.Common.{
  ◌≡◌, Octets, octets_ordered, octets_beq_self, length, is_some, Option, none, some, ok, arith, ◌<◌,
  u64_mod,
}
use cbcl_pairing.Cbor.{Codec, IsCodec, IsPlain}
use cbcl_pairing.Endpoint.{InvitationRecord, InvitationStatus}
use cbcl_pairing.Endpoint.Invitations.{
  binding_value, decode, decode_binding, decode_status, decode_value, encode, is_bound,
  record_value, status_number,
}

-- The digests have 32 octets, and there is a binding exactly in a bound record.
abbrev pub IsDigest : Option Octets → Type 0
IsDigest none = Unit
IsDigest (some b) = length b ≡ 32

pub record IsRecord (r : InvitationRecord) : Type 0 where
  pub digest : length r.invitation_digest ≡ 32
  pub binding : IsDigest r.binding
  pub bound : is_bound r.status ≡ is_some r.binding

decode_value_parts :
    (d : Octets) (st : InvitationStatus) (o : Option Octets)
    → length d ≡ 32
    → IsDigest o
    → is_bound st ≡ is_some o
    → decode_value (record_value (record { invitation_digest = d; status = st; binding = o }))
      ≡ ok (record { invitation_digest = d; status = st; binding = o })
unfolding decode_value decode_status decode_binding
decode_value_parts d InvitationStatus.unused none h k e = ground (arith, h)
decode_value_parts d InvitationStatus.unused (some b) h k e = absurd (ground (arith, e))
decode_value_parts d InvitationStatus.bound none h k e = absurd (ground (arith, e))
decode_value_parts d InvitationStatus.bound (some b) h k e = ground (arith, h, k)
decode_value_parts d InvitationStatus.spent none h k e = ground (arith, h)
decode_value_parts d InvitationStatus.spent (some b) h k e = absurd (ground (arith, e))

status_number_small : (st : InvitationStatus) → status_number st < u64_mod
status_number_small st = ground arith

binding_value-IsPlain : (o : Option Octets) → IsPlain (binding_value o)
binding_value-IsPlain none = tt
binding_value-IsPlain (some b) = tt

record_value-IsPlain : (r : InvitationRecord) → IsPlain (record_value r)
record_value-IsPlain r =
    (omega arith, (tt, (status_number_small r.status, (binding_value-IsPlain r.binding, tt))))

-- If the codec reads back what it wrote, and an invitation record has digests of 32 octets and a
-- binding exactly if it is bound, then `decode` reads the record back from what `encode` wrote of
-- it.
pub decode_invitation-encode :
    (c : Codec) (r : InvitationRecord) (b : Octets)
    → IsCodec c
    → IsRecord r
    → encode c r ≡ ok b
    → decode c b ≡ ok r
unfolding encode decode
decode_invitation-encode c r b laws h e =
    let written : c.to_canonical_vec (record_value r) ≡ some b = ground (arith, e) in
    let read = laws.reads (record_value r) b (record_value-IsPlain r) written in
    rw (read, written, octets_beq_self b)
      (decode_value_parts r.invitation_digest r.status r.binding h.digest h.binding h.bound)
