-- ===== src/Endpoint/Establishing.antt =====
-- src/endpoint.rs: the peer's Finished frame keeps the invariant.
use cbcl_pairing.Common.{
  ◌≢◌, inl, inr, refl, Octets, [], Option, none, some, is_none, is_some, ◌||◌, Outcome, ok, err,
  panic, arith,
}
use cbcl_pairing.Wire.{ChannelFrame, Side}
use cbcl_pairing.Protocol.{Admission, PairingRole, ProtocolVerdict}
use cbcl_pairing.Channel.{ChannelError, PendingChannel, SecureChannel}
use cbcl_pairing.Channel.Schedule.{confirm}
use cbcl_pairing.Endpoint.{EndpointEnv, EndpointReducer}
use cbcl_pairing.Endpoint.Invitations.{spend}
use cbcl_pairing.Endpoint.Terminating.{
  ensure_live, role_key_of, seal_control, validate_expected_role_keys,
}
use cbcl_pairing.Endpoint.Finishing.{
  bootstrap_admitted, finished_performative, other_frame, same_side,
}
use cbcl_pairing.Endpoint.Confirming.{
  confirmed, finished_allowed, finished_answered, open_allocator_session, receive_finished, retried,
  retry_pending_finished, session_opened,
}
use cbcl_pairing.Endpoint.Views.{Steps-alike, IsAwaited, Steps-refl, grants, silent}
use cbcl_pairing.Endpoint.Soundness.{IsLive, IsLive-IsOnce, IsSound, Runs, Steps}
use cbcl_pairing.Endpoint.Keeping.{
  Runs-after, Runs-bind, Runs-fail, Runs-if, Runs-match, Runs-need, Runs-ok, Runs-quiet,
  Verdict-cases,
}
use cbcl_pairing.Endpoint.Opening.{
  bootstrap_admitted-Runs, ensure_live-Runs, seal_control-Runs, validate-Runs,
}

confirm-answers : (p : PendingChannel) (value : Octets) → confirm p value ≢ panic
unfolding confirm
confirm-answers p value = ground arith

module _ {B S K P : Type 0} (env : EndpointEnv B S K P) where
  pub session_opened-Runs :
      (r : S × Admission) (s : EndpointReducer B S K P)
      → IsLive s
      → Runs IsLive silent s (session_opened env r s)
  unfolding session_opened
  session_opened-Runs (m, admission) s h = elim (Verdict-cases admission.verdict) [
    | inl e ↦
        let t : EndpointReducer B S K P = record s { session = some m } in
        simp e (Runs-after s t _ (Steps-refl _) (Runs-ok t h))
    | inr (inl e) ↦ simp e (Runs-fail _ _ s (IsLive-IsOnce s h))
    | inr (inr e) ↦ simp e (Runs-fail _ _ s (IsLive-IsOnce s h))
  ]

  open_allocator_session-Runs :
      (s : EndpointReducer B S K P) → IsLive s → Runs IsLive grants s (open_allocator_session env s)
  unfolding open_allocator_session grants
  open_allocator_session-Runs s h =
      Runs-need (role_key_of env.monitors.role_key s.bootstrap PairingRole.allocator) _ _ h λ a _.
        Runs-need (role_key_of env.monitors.role_key s.bootstrap PairingRole.claimant) _ _ h λ c _.
          Runs-need s.ceremony_key _ _ h λ key _.
            Runs-need (env.monitors.build_session_opener key c s.ceremony) _ _ h λ opener _.
              Runs-need (env.monitors.open_for_ceremony s.ceremony PairingRole.allocator a c opener)
                _ _ h
                λ opened _.
                  Runs-bind (session_opened env opened s) (session_opened-Runs opened s h)
                    λ _ t ht _.
                      Runs-bind (seal_control env opener none t)
                        (seal_control-Runs env opener none t ht)
                        λ frame u hu _. Runs-quiet _ u refl hu

  confirmed-Runs :
      (r : Outcome ChannelError SecureChannel) (s : EndpointReducer B S K P)
      → r ≢ panic
      → IsLive s
      → Runs IsLive grants s (confirmed env r s)
  unfolding confirmed spend grants
  confirmed-Runs (ok c) s n h =
      let t : EndpointReducer B S K P = record s {
        pending_channel = none;
        channel = some c;
        invitation = spend s.invitation;
      } in
      let live : IsLive t = record {
        live = h.live;
        used = (refl, refl);
        awaited = h.awaited;
        few = h.few;
        counted = h.counted;
        verified = h.verified;
      } in
      Runs-after s t _ (Steps-alike _ _ refl refl refl)
        (elim s.side
          as (λ x. Runs IsLive grants t (elim x [
            | Side.allocator ↦ open_allocator_session env t
            | Side.claimant ↦ (t, ok [])
          ])) [
            | Side.allocator ↦ open_allocator_session-Runs t live
            | Side.claimant ↦ Runs-quiet [] t refl live
          ])
  confirmed-Runs (err e) s n h =
      let t : EndpointReducer B S K P = record s { pending_channel = none } in
      Runs-after s t _ (Steps-refl _) (Runs-fail _ _ t (IsLive-IsOnce s h))
  confirmed-Runs panic s n h = absurd (ground (arith, n))

  -- The retained frame does not matter to the rest.
  pending-Runs :
      (o : Option ChannelFrame) (s : EndpointReducer B S K P)
      → IsAwaited o
      → IsLive s
      → IsLive (record s { pending_finished = o }) × Steps s (record s { pending_finished = o }) 0
  pending-Runs o s a h = (
    record {
      live = h.live;
      used = h.used;
      awaited = a;
      few = h.few;
      counted = h.counted;
      verified = h.verified;
    },
    (Steps-alike _ _ refl refl refl),
  )

  finished_answered-Runs :
      (side : Side) (control value : Octets) (verdict : ProtocolVerdict)
      (s : EndpointReducer B S K P)
      → IsLive s
      → Runs IsLive grants s
          (finished_answered env (ChannelFrame.finished side control value) value verdict s)
  unfolding finished_answered grants
  finished_answered-Runs side control value ProtocolVerdict.unknown s h =
      let kept = pending-Runs (some (ChannelFrame.finished side control value)) s tt h in
      Runs-if (other_frame s.pending_finished (ChannelFrame.finished side control value))
        (λ e. Runs-fail _ _ s (IsLive-IsOnce s h))
        (λ e. Runs-after s _ _ kept.1 (Runs-quiet [] _ refl kept.0))
  finished_answered-Runs side control value ProtocolVerdict.violation s h =
      Runs-fail _ _ s (IsLive-IsOnce s h)
  finished_answered-Runs side control value ProtocolVerdict.valid s h =
      let kept = pending-Runs none s tt h in
      Runs-match s.pending_channel
        (λ e.
          Runs-after s _ _ kept.1
            (Runs-fail _ _ (record s { pending_finished = none }) (IsLive-IsOnce s h)))
        (λ pending e.
          Runs-after s _ _ kept.1
            (confirmed-Runs (confirm pending value) _ (confirm-answers pending value) kept.0))

  finished_allowed-Runs :
      (side : Side) (s : EndpointReducer B S K P)
      → IsLive s
      → Runs IsLive silent s (finished_allowed env side s)
  unfolding finished_allowed
  finished_allowed-Runs side s h =
      let failed = IsLive-IsOnce s h in
      Runs-if (same_side side s.side) (λ _. Runs-fail _ _ s failed)
        λ _.
          Runs-if (is_none s.local_finished) (λ _. Runs-fail _ _ s failed)
            λ _.
              Runs-if (is_none s.pending_channel || is_some s.channel) (λ _. Runs-fail _ _ s failed)
                λ _. Runs-ok s h

  pub receive_finished-Runs :
      (side : Side) (control value : Octets) (s : EndpointReducer B S K P)
      → IsLive s
      → Runs IsLive grants s (receive_finished env side control value s)
  unfolding receive_finished
  receive_finished-Runs side control value s h =
      Runs-bind (finished_allowed env side s) (finished_allowed-Runs side s h) λ _ t ht _.
        Runs-bind (validate_expected_role_keys env t) (validate-Runs env t ht) λ _ u hu _.
          Runs-need u.bootstrap _ _ hu λ b _.
            Runs-bind
              (bootstrap_admitted env
                (env.monitors.admit_bootstrap b (finished_performative side) control value) u)
              (bootstrap_admitted-Runs env _ u hu)
              λ verdict v hv _. finished_answered-Runs side control value verdict v hv

  retried-Runs :
      (o : Option ChannelFrame) (s : EndpointReducer B S K P)
      → IsAwaited o
      → IsLive s
      → Runs IsLive grants s (elim o [ none ↦ (s, ok []) | some frame ↦ retried env frame s ])
  unfolding grants
  retried-Runs none s a h = Runs-quiet [] s refl h
  retried-Runs (some (ChannelFrame.finished side control value)) s a h =
      receive_finished-Runs side control value s h
  retried-Runs (some (ChannelFrame.cpace side b c)) s a h = elim a [ ]
  retried-Runs (some (ChannelFrame.sealed d n c)) s a h = elim a [ ]

  pub retry_pending_finished-Runs :
      (s : EndpointReducer B S K P)
      → IsSound s
      → Runs IsLive grants s (retry_pending_finished env s)
  unfolding retry_pending_finished
  retry_pending_finished-Runs s h =
      Runs-bind (ensure_live s) (ensure_live-Runs s h)
        λ _ t ht _. retried-Runs t.pending_finished t ht.awaited ht
