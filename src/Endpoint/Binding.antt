-- ===== src/Endpoint/Binding.antt =====
-- src/endpoint.rs: an invitation is bound to one attempt only.
use cbcl_pairing.Common.{
  ◌≡◌, refl, sym, subst, ◌∙◌, ◌≢◌, if◌then◌else◌, ok, Octets, octets_ordered, ◌==◌, octets_beq_iff,
  Option, none, some, false, Outcome, err, panic, arith,
}
use cbcl_pairing.Cbor.{Codec}
use cbcl_pairing.Endpoint.{BindOutcome, InvitationRecord, InvitationStatus, ReducerError}
use cbcl_pairing.Endpoint.Invitations.{attempt_binding, bind, bind_result, bind_to, spend}

-- The record is bound to the attempt `b`.
abbrev pub IsBoundTo : InvitationRecord → Octets → Type 0
IsBoundTo r b = (r.status ≡ InvitationStatus.bound) × (r.binding ≡ some b)

abbrev pub IsSpentRecord : InvitationRecord → Type 0
IsSpentRecord r = (r.status ≡ InvitationStatus.spent) × (r.binding ≡ none)

-- What a success of `bind` leaves.
abbrev IsTaken : InvitationRecord → InvitationRecord → Octets → Type 0
IsTaken r t b = IsBoundTo t b × (t.invitation_digest ≡ r.invitation_digest)

-- With the record's fields apart.
bind_to-IsTaken :
    (d : Octets) (st : InvitationStatus) (o : Option Octets) (b : Octets) (t : InvitationRecord)
    (out : BindOutcome)
    → bind_to (record { invitation_digest = d; status = st; binding = o }) st b ≡ (t, ok out)
    → IsTaken (record { invitation_digest = d; status = st; binding = o }) t b
unfolding bind_to spend
bind_to-IsTaken d InvitationStatus.unused o b t out h = ground (arith, h)
bind_to-IsTaken d InvitationStatus.bound none b t out h = absurd (ground (arith, h))
bind_to-IsTaken d InvitationStatus.bound (some a) b t out h = ground (arith, h, octets_beq_iff a b)
bind_to-IsTaken d InvitationStatus.spent o b t out h = absurd (ground (arith, h))

-- A bound record takes its own attempt and refuses any other.
bind_to_again :
    (d : Octets) (st : InvitationStatus) (o : Option Octets) (a b : Octets)
    → st ≡ InvitationStatus.bound
    → o ≡ some a
    → bind_to (record { invitation_digest = d; status = st; binding = o }) st b ≡ (
        if a == b
        then (record { invitation_digest = d; status = st; binding = o }, ok BindOutcome.resumed)
        else (
          record { invitation_digest = d; status = InvitationStatus.spent; binding = none },
          err ReducerError.invitation,
        ))
unfolding bind_to spend
bind_to_again d st o a b e f = ground (arith, e, f)

different : (a b : Octets) → a ≢ b → (a == b) ≡ false
different a b n = ground (arith, octets_beq_iff a b)

module _ (c : Codec) (sha256 : Octets → Octets) where
  result-IsTaken :
      (r t : InvitationRecord) (x : Outcome ReducerError Octets) (out : BindOutcome)
      → bind_result r x ≡ (t, ok out)
      → (b : Octets) × ((x ≡ ok b) × IsTaken r t b)
  result-IsTaken r t (ok b) out h =
      (b, (refl, bind_to-IsTaken r.invitation_digest r.status r.binding b t out h))
  result-IsTaken r t (err e) out h = absurd (ground (arith, h))
  result-IsTaken r t panic out h = absurd (ground (arith, h))

  bind_again :
      (t : InvitationRecord) (mailbox peer context a b : Octets)
      → IsBoundTo t a
      → attempt_binding c sha256 t.invitation_digest mailbox peer context ≡ ok b
      → bind c sha256 t mailbox peer context
        ≡ (if a == b then (t, ok BindOutcome.resumed) else (spend t, err ReducerError.invitation))
  unfolding bind spend
  bind_again t mailbox peer context a b h e =
      rw e (bind_to_again t.invitation_digest t.status t.binding a b h.0 h.1)

  spent_refuses :
      (t : InvitationRecord) (mailbox peer context a : Octets)
      → attempt_binding c sha256 t.invitation_digest mailbox peer context ≡ ok a
      → bind c sha256 (spend t) mailbox peer context ≡ (spend t, err ReducerError.invitation)
  unfolding bind spend bind_to
  spent_refuses t mailbox peer context a e = rw e refl

  -- If `bind` succeeds for an attempt whose binding is computed, then a call for a further
  -- attempt, with the record it left, resumes and changes nothing if both have the same
  -- binding. If their bindings differ, it fails and spends the record, which from then on
  -- refuses the first attempt too, unchanged.
  pub bind_once :
      (r t : InvitationRecord) (out : BindOutcome)
      (mailbox peer context mailbox' peer' context' : Octets) (a b : Octets)
      → bind c sha256 r mailbox peer context ≡ (t, ok out)
      → attempt_binding c sha256 r.invitation_digest mailbox peer context ≡ ok a
      → attempt_binding c sha256 r.invitation_digest mailbox' peer' context' ≡ ok b
      → (a ≡ b → bind c sha256 t mailbox' peer' context' ≡ (t, ok BindOutcome.resumed))
        × (a ≢ b
            → (bind c sha256 t mailbox' peer' context' ≡ (spend t, err ReducerError.invitation))
              × (bind c sha256 (spend t) mailbox peer context
                  ≡ (spend t, err ReducerError.invitation)))
  unfolding bind
  bind_once r t out mailbox peer context mailbox' peer' context' a b h ea eb =
      let (taken, (is, (bound, digest))) =
        result-IsTaken r t (attempt_binding c sha256 r.invitation_digest mailbox peer context) out
          h in
      let is_a : taken ≡ a = ground (arith, is, ea) in
      let held : IsBoundTo t a = (bound.0, ground (arith, bound.1, is_a)) in
      let again =
        bind_again t mailbox' peer' context' a b held (
          subst (λ d. attempt_binding c sha256 d mailbox' peer' context' ≡ ok b) (sym digest) eb) in
      (
        λ same. again ∙ rw ((octets_beq_iff a b).1 same) refl,
        λ other. (
          again ∙ rw (different a b other) refl,
          spent_refuses t mailbox peer context a
              (subst (λ d. attempt_binding c sha256 d mailbox peer context ≡ ok a) (sym digest) ea),
        ),
      )
