-- ===== src/Endpoint/Opening.antt =====
-- src/endpoint.rs: the operations up to the session keep the invariant.
use cbcl_pairing.Common.{
  refl, Octets, ◌≡◌, inl, inr, [], ◌∷◌, Option, none, some, is_some, ◌||◌, true, Outcome, ok, err,
  panic, arith,
}
use cbcl_pairing.Wire.{ChannelFrame}
use cbcl_pairing.Protocol.{
  Admission, BootstrapPerformative, PairingRole, ProtocolVerdict, SessionPerformative,
}
use cbcl_pairing.Channel.{ChannelError, SecureChannel}
use cbcl_pairing.Channel.Seal.{seal}
use cbcl_pairing.Channel.Results.{IsResult, seal-IsResult}
use cbcl_pairing.Endpoint.{EndpointEnv, EndpointReducer, InvitationRecord}
use cbcl_pairing.Endpoint.Terminating.{
  admit_local_session, ensure_live, has_wrong_key, role_key, seal_control, sealed_by,
  session_admitted, validate_expected_role_keys,
}
use cbcl_pairing.Endpoint.Finishing.{
  admit_bootstrap_control, bootstrap_admitted, build_finished, finished_admitted,
  finished_performative, local_finished_frame,
}
use cbcl_pairing.Endpoint.Views.{Steps-alike, IsSpentBy, Steps-refl, silent}
use cbcl_pairing.Endpoint.Soundness.{IsLive, IsLive-IsOnce, IsSound, Runs, Steps}
use cbcl_pairing.Endpoint.Keeping.{
  not_ended, Verdict-cases, Runs-ok, Runs-after, Runs-bind, Runs-fail, Runs-if, Runs-match,
  Runs-need, Runs-require,
}

-- One channel for another.
replaced-used :
    (old : Option SecureChannel) (c : SecureChannel) (r : InvitationRecord)
    → is_some old ≡ true
    → IsSpentBy old r
    → IsSpentBy (some c) r
replaced-used none c r e h = absurd (ground arith)
replaced-used (some old) c r e h = h

module _ {B S K P : Type 0} where
  pub replaced-IsLive :
      (c : SecureChannel) (s : EndpointReducer B S K P)
      → is_some s.channel ≡ true
      → IsLive s
      → IsLive (record s { channel = some c })
  replaced-IsLive c s e h = record {
    live = h.live;
    used = replaced-used s.channel c s.invitation e h.used;
    awaited = h.awaited;
    few = h.few;
    counted = h.counted;
    verified = h.verified;
  }

  pub replaced-Steps :
      (c : SecureChannel) (s : EndpointReducer B S K P) → Steps s (record s { channel = some c }) 0
  replaced-Steps c s = (Steps-alike _ _ refl refl refl)

  -- An endpoint that ended refuses.
  pub ensure_live-Runs :
      (s : EndpointReducer B S K P) → IsSound s → Runs IsLive silent s (ensure_live s)
  ensure_live-Runs s h =
      Runs-match s.terminal (λ e. Runs-ok s (not_ended s e h))
        (λ reason e. record { ran = (h, (0, Steps-refl _)) })

  module _ (env : EndpointEnv B S K P) where
    pub validate-Runs :
        (s : EndpointReducer B S K P)
        → IsLive s
        → Runs IsLive silent s (validate_expected_role_keys env s)
    unfolding validate_expected_role_keys
    validate-Runs s h =
        Runs-if
          (has_wrong_key env s s.expected_role_keys.0 PairingRole.allocator
            || has_wrong_key env s s.expected_role_keys.1 PairingRole.claimant)
          (λ e. Runs-fail _ _ s (IsLive-IsOnce s h)) (λ e. Runs-ok s h)

    pub role_key-Runs :
        (role : PairingRole) (s : EndpointReducer B S K P)
        → IsLive s
        → Runs IsLive silent s (role_key env role s)
    role_key-Runs role s h = Runs-require _ _ s h

    pub bootstrap_admitted-Runs :
        (r : B × Option Admission) (s : EndpointReducer B S K P)
        → IsLive s
        → Runs IsLive silent s (bootstrap_admitted env r s)
    unfolding bootstrap_admitted
    bootstrap_admitted-Runs (b, none) s h =
        Runs-after s (record s { bootstrap = some b }) _ (Steps-refl _)
          (Runs-fail _ _ _ (IsLive-IsOnce s h))
    bootstrap_admitted-Runs (b, some admission) s h =
        let t : EndpointReducer B S K P = record s { bootstrap = some b } in
        Runs-after s t _ (Steps-refl _) (elim (Verdict-cases admission.verdict) [
          | inl e ↦ simp e (Runs-ok t h)
          | inr (inl e) ↦ simp e (Runs-ok t h)
          | inr (inr e) ↦ simp e (Runs-fail _ _ t (IsLive-IsOnce s h))
        ])

    sealed_by-Runs :
        (r : SecureChannel × Outcome ChannelError ChannelFrame) (s : EndpointReducer B S K P)
        → IsResult r
        → is_some s.channel ≡ true
        → IsLive s
        → Runs IsLive silent s (sealed_by env r s)
    unfolding sealed_by
    sealed_by-Runs (c, ok frame) s d e h =
        let t : EndpointReducer B S K P = record s { channel = some c } in
        Runs-after s t _ (replaced-Steps c s) (Runs-ok t (replaced-IsLive c s e h))
    sealed_by-Runs (c, err x) s d e h =
        let t : EndpointReducer B S K P = record s { channel = some c } in
        Runs-after s t _ (replaced-Steps c s) (Runs-fail _ _ t (IsLive-IsOnce s h))
    sealed_by-Runs (c, panic) s d e h = elim d.answered [ ]

    pub seal_control-Runs :
        (control : Octets) (body : Option Octets) (s : EndpointReducer B S K P)
        → IsLive s
        → Runs IsLive silent s (seal_control env control body s)
    unfolding seal_control
    seal_control-Runs control body s h =
        Runs-need (env.wire.encode_sealed_plaintext (record { control = control; body = body })) _ _
          h
          λ plaintext _. Runs-need s.channel _ _ h λ c e.
            sealed_by-Runs (seal env.crypto c plaintext) s (seal-IsResult env.crypto c plaintext)
              (ground (arith, e)) h

    pub session_admitted-Runs :
        (r : S × Option Admission) (s : EndpointReducer B S K P)
        → IsLive s
        → Runs IsLive silent s (session_admitted env r s)
    unfolding session_admitted
    session_admitted-Runs (m, none) s h = record { ran = (inl h, (0, Steps-refl _)) }
    session_admitted-Runs (m, some admission) s h =
        let t : EndpointReducer B S K P = record s { session = some m } in
        Runs-after s t _ (Steps-refl _) (elim (Verdict-cases admission.verdict) [
          | inl e ↦ simp e (Runs-ok t h)
          | inr (inl e) ↦ simp e (Runs-fail _ _ t (IsLive-IsOnce s h))
          | inr (inr e) ↦ simp e (Runs-fail _ _ t (IsLive-IsOnce s h))
        ])

    pub admit_local_session-Runs :
        (p : SessionPerformative) (control body : Octets) (s : EndpointReducer B S K P)
        → IsLive s
        → Runs IsLive silent s (admit_local_session env p control body s)
    unfolding admit_local_session
    admit_local_session-Runs p control body s h =
        Runs-need s.session _ _ h
          λ m _. session_admitted-Runs (env.monitors.admit_session m p control body) s h

    pub admit_bootstrap_control-Runs :
        (p : BootstrapPerformative) (control body : Octets) (s : EndpointReducer B S K P)
        → IsSound s
        → Runs IsLive silent s (admit_bootstrap_control env p control body s)
    unfolding admit_bootstrap_control
    admit_bootstrap_control-Runs p control body s h =
        Runs-bind (ensure_live s) (ensure_live-Runs s h) λ _ t ht _.
          Runs-need t.bootstrap _ _ ht λ b _.
            Runs-bind (bootstrap_admitted env (env.monitors.admit_bootstrap b p control body) t)
              (bootstrap_admitted-Runs _ t ht)
              λ verdict u hu _.
                Runs-bind (validate_expected_role_keys env u) (validate-Runs u hu)
                  λ _ v hv _. Runs-ok v hv

    finished_admitted-Runs :
        (frame : ChannelFrame) (verdict : ProtocolVerdict) (s : EndpointReducer B S K P)
        → IsLive s
        → Runs IsLive silent s (finished_admitted env frame verdict s)
    unfolding finished_admitted
    finished_admitted-Runs frame ProtocolVerdict.valid s h =
        let t : EndpointReducer B S K P = record s { local_finished = some frame } in
        Runs-after s t _ (Steps-refl _) (Runs-ok t h)
    finished_admitted-Runs frame ProtocolVerdict.unknown s h = Runs-ok s h
    finished_admitted-Runs frame ProtocolVerdict.violation s h = Runs-ok s h

    build_finished-Runs :
        (s : EndpointReducer B S K P) → IsLive s → Runs IsLive silent s (build_finished env s)
    unfolding build_finished
    build_finished-Runs s h = Runs-need s.pending_channel _ _ h λ pending _.
        Runs-need s.ceremony_key _ _ h λ key _.
          Runs-need
            (env.monitors.build_bootstrap_control key (finished_performative s.side) s.ceremony
              pending.local_finished (s.allocator_cpace_hash ∷ s.claimant_cpace_hash ∷ []))
            _ _ h
            λ control _. Runs-need s.bootstrap _ _ h λ b _.
              Runs-bind
                (bootstrap_admitted env
                  (env.monitors.admit_bootstrap b (finished_performative s.side) control
                    pending.local_finished)
                  s)
                (bootstrap_admitted-Runs _ s h)
                λ verdict t ht _. finished_admitted-Runs _ verdict t ht

    pub local_finished_frame-Runs :
        (s : EndpointReducer B S K P)
        → IsSound s
        → Runs IsLive silent s (local_finished_frame env s)
    unfolding local_finished_frame
    local_finished_frame-Runs s h = Runs-bind (ensure_live s) (ensure_live-Runs s h) λ _ t ht _.
        Runs-bind (validate_expected_role_keys env t) (validate-Runs t ht) λ _ u hu _.
          Runs-match u.local_finished (λ _. build_finished-Runs u hu) (λ frame _. Runs-ok u hu)
