-- ===== src/Endpoint/Reach.antt =====
-- src/endpoint.rs: the reducers that the program can produce.
use cbcl_pairing.Common.{
  ℕ, ◌+◌, ◌≤◌, ◌≡◌, inl, refl, subst, Octets, octets_ordered, ◌==◌, List, Option, not, ◌||◌, Bool,
  true, false, Outcome, ok, err, panic, Returns, arith,
}
use cbcl_pairing.Wire.{
  ApplicationPayload, ChannelFrame, CloseReason, Decision, Invitation, PairingIntent, Side,
}
use cbcl_pairing.Protocol.{BootstrapPerformative, ProtocolVerdict}
use cbcl_pairing.Channel.{PendingChannel}
use cbcl_pairing.Endpoint.{
  EndpointEffect, EndpointEnv, EndpointReducer, InvitationRecord, ReducerError,
}
use cbcl_pairing.Endpoint.Invitations.{is_bound}
use cbcl_pairing.Endpoint.Terminating.{validate_expected_role_keys}
use cbcl_pairing.Endpoint.Finishing.{
  admit_bootstrap_control, checked, fresh, local_finished_frame, new,
}
use cbcl_pairing.Endpoint.Confirming.{retry_pending_finished}
use cbcl_pairing.Endpoint.Receiving.{receive_frame}
use cbcl_pairing.Endpoint.Sending.{cancel, decide, relay_closed, send_intent, send_payload}
use cbcl_pairing.Endpoint.Views.{silent}
use cbcl_pairing.Endpoint.Soundness.{IsLive, IsOnce, IsSound, IsSound-IsOnce, Runs}
use cbcl_pairing.Endpoint.Keeping.{holds-if, holds-match, Runs-IsSound}
use cbcl_pairing.Endpoint.Opening.{
  admit_bootstrap_control-Runs, local_finished_frame-Runs, validate-Runs,
}
use cbcl_pairing.Endpoint.Establishing.{retry_pending_finished-Runs}
use cbcl_pairing.Endpoint.Accepting.{receive_frame-Runs}
use cbcl_pairing.Endpoint.Calling.{
  cancel-Runs, relay_closed-Runs, send_intent-Runs, send_payload-Runs,
}
use cbcl_pairing.Endpoint.Deciding.{decide-Decides}
use cbcl_pairing.Endpoint.Agreeing.{
  Agrees, Decides-Agrees, Runs-Agrees, approves, released, silent-Agrees,
}

module _ {B S K P : Type 0} (env : EndpointEnv B S K P) where
  -- A reducer after any calls, whether they succeed or fail, with what its caller saw: whether it
  -- has approved, and how many grants were released to it.
  pub data Reachable : Bool → ℕ → EndpointReducer B S K P → Type 0 where
    created :
        {s : EndpointReducer B S K P} (side : Side) (invitation : Octets)
        (invitation_record : InvitationRecord) (key : K) (bootstrap : B) (pending : PendingChannel)
        (allocator_hash claimant_hash : Octets) (profile : P)
        → new env side invitation invitation_record key bootstrap pending allocator_hash
            claimant_hash profile
          ≡ ok s
        → Reachable false 0 s
    bootstrapped :
        {a : Bool} {n : ℕ} {s t : EndpointReducer B S K P}
        {answer : Outcome ReducerError ProtocolVerdict} (p : BootstrapPerformative)
        (control body : Octets)
        → Reachable a n s
        → admit_bootstrap_control env p control body s ≡ (t, answer)
        → Reachable a n t
    finished :
        {a : Bool} {n : ℕ} {s t : EndpointReducer B S K P}
        {answer : Outcome ReducerError (Option ChannelFrame)}
        → Reachable a n s
        → local_finished_frame env s ≡ (t, answer)
        → Reachable a n t
    received :
        {a : Bool} {n : ℕ} {s t : EndpointReducer B S K P}
        {answer : Outcome ReducerError (List EndpointEffect)} (frame : ChannelFrame)
        → Reachable a n s
        → receive_frame env frame s ≡ (t, answer)
        → Reachable a (n + released answer) t
    retried :
        {a : Bool} {n : ℕ} {s t : EndpointReducer B S K P}
        {answer : Outcome ReducerError (List EndpointEffect)}
        → Reachable a n s
        → retry_pending_finished env s ≡ (t, answer)
        → Reachable a (n + released answer) t
    intended :
        {a : Bool} {n : ℕ} {s t : EndpointReducer B S K P}
        {answer : Outcome ReducerError ChannelFrame} (value : PairingIntent)
        → Reachable a n s
        → send_intent env value s ≡ (t, answer)
        → Reachable a n t
    decided :
        {a : Bool} {n : ℕ} {s t : EndpointReducer B S K P}
        {answer : Outcome ReducerError (List EndpointEffect)} (decision : Decision)
        → Reachable a n s
        → decide env decision s ≡ (t, answer)
        → Reachable (a || approves decision answer) (n + released answer) t
    paid :
        {a : Bool} {n : ℕ} {s t : EndpointReducer B S K P}
        {answer : Outcome ReducerError ChannelFrame} (payload : ApplicationPayload)
        → Reachable a n s
        → send_payload env payload s ≡ (t, answer)
        → Reachable a n t
    cancelled :
        {a : Bool} {n : ℕ} {s t : EndpointReducer B S K P}
        {answer : Outcome ReducerError (List EndpointEffect)}
        → Reachable a n s
        → cancel env s ≡ (t, answer)
        → Reachable a (n + released answer) t
    closed :
        {a : Bool} {n : ℕ} {s t : EndpointReducer B S K P}
        {answer : Outcome ReducerError (List EndpointEffect)} (reason : CloseReason)
        → Reachable a n s
        → relay_closed env reason s ≡ (t, answer)
        → Reachable a (n + released answer) t

module _ {B S K P : Type 0} where
  module _ (env : EndpointEnv B S K P) where
    checked-Agrees :
        {s t : EndpointReducer B S K P}
        (r : EndpointReducer B S K P × Outcome ReducerError (Unit {0}))
        → Agrees false 0 s
        → Runs IsLive silent s r
        → checked env r ≡ ok t
        → Agrees false 0 t
    checked-Agrees (u, ok done) h k e =
        subst (Returns (Agrees false 0)) e (silent-Agrees (u, ok done) h k refl)
    checked-Agrees (u, err x) h k e = absurd (ground (arith, e))
    checked-Agrees (u, panic) h k e = absurd (ground (arith, e))

    fresh-IsLive :
        (side : Side) (invitation : Octets) (value : Invitation) (r : InvitationRecord) (key : K)
        (bootstrap : B) (pending : PendingChannel) (a c : Octets) (profile : P)
        → IsLive (fresh env side invitation value r key bootstrap pending a c profile)
    fresh-IsLive side invitation value r key bootstrap pending a c profile = record {
      live = refl;
      used = tt;
      awaited = tt;
      few = omega arith;
      counted = refl;
      verified = refl;
    }

    new-Agrees :
        (side : Side) (invitation : Octets) (r : InvitationRecord) (key : K) (bootstrap : B)
        (pending : PendingChannel) (a c : Octets) (profile : P) (t : EndpointReducer B S K P)
        → new env side invitation r key bootstrap pending a c profile ≡ ok t
        → Agrees false 0 t
    unfolding new
    new-Agrees side invitation r key bootstrap pending a c profile t =
        holds-if (λ x. x ≡ ok t → Agrees false 0 t)
          (not (is_bound r.status) || not (r.invitation_digest == env.sha256 invitation)) _ _
          (λ _ e. absurd (ground (arith, e)))
          λ _.
            holds-match (λ x. x ≡ ok t → Agrees false 0 t) (env.wire.decode_invitation invitation) _
              _ (λ _ e. absurd (ground (arith, e)))
              λ value _.
                holds-if (λ x. x ≡ ok t → Agrees false 0 t)
                  (not (env.profile.recognise_invitation profile value)) _ _
                  (λ _ e. absurd (ground (arith, e)))
                  λ _ e.
                    let s = fresh env side invitation value r key bootstrap pending a c profile in
                    let live =
                      fresh-IsLive side invitation value r key bootstrap pending a c profile in
                    checked-Agrees (validate_expected_role_keys env s)
                      (record {
                        sound = inl live;
                        counted = omega arith;
                        consented = λ consent. absurd (ground (arith, consent.1));
                        gated = λ q. absurd (omega arith);
                      })
                      (validate-Runs env s live) e

    Reachable-Agrees :
        {a : Bool} {n : ℕ} {s : EndpointReducer B S K P} → Reachable env a n s → Agrees a n s
    Reachable-Agrees (created side invitation r key bootstrap pending ah ch profile e) =
        new-Agrees side invitation r key bootstrap pending ah ch profile _ e
    Reachable-Agrees (bootstrapped p control body h e) =
        let known = Reachable-Agrees h in
        silent-Agrees _ known (admit_bootstrap_control-Runs env p control body _ known.sound) e
    Reachable-Agrees (finished h e) =
        let known = Reachable-Agrees h in
        silent-Agrees _ known (local_finished_frame-Runs env _ known.sound) e
    Reachable-Agrees (received frame h e) =
        let known = Reachable-Agrees h in
        Runs-Agrees _ known (receive_frame-Runs env frame _ known.sound) e
    Reachable-Agrees (retried h e) =
        let known = Reachable-Agrees h in
        Runs-Agrees _ known (Runs-IsSound _ _ (retry_pending_finished-Runs env _ known.sound)) e
    Reachable-Agrees (intended value h e) =
        let known = Reachable-Agrees h in
        silent-Agrees _ known (send_intent-Runs env value _ known.sound) e
    Reachable-Agrees (decided d h e) =
        let known = Reachable-Agrees h in
        Decides-Agrees d _ known (decide-Decides env d _ known.sound) e
    Reachable-Agrees (paid payload h e) =
        let known = Reachable-Agrees h in
        silent-Agrees _ known (send_payload-Runs env payload _ known.sound) e
    Reachable-Agrees (cancelled h e) =
        let known = Reachable-Agrees h in Runs-Agrees _ known (cancel-Runs env _ known.sound) e
    Reachable-Agrees (closed reason h e) =
        let known = Reachable-Agrees h in
        Runs-Agrees _ known (relay_closed-Runs env reason _ known.sound) e

    -- Every reducer that the program can produce is live or has ended. In a live one, a
    -- confirmed channel has spent the invitation, at most 16 controls wait, only a Finished
    -- frame is retained, and the grants delivered are as many as the verifications: none, or
    -- one whose control hash is kept, on a claimant that approved. In one that has ended, the
    -- invitation is spent, the keys, channels, monitors, retained frames and controls, the
    -- intent and the decision are erased, and the grants are at most the verifications and
    -- these at most one.
    pub reducer-IsSound :
        {a : Bool} {n : ℕ} {s : EndpointReducer B S K P} → Reachable env a n s → IsSound s
    reducer-IsSound h = (Reachable-Agrees h).sound

    pub Reachable-IsOnce :
        {a : Bool} {n : ℕ} {s : EndpointReducer B S K P}
        → Reachable env a n s
        → (n ≤ s.delivered_payloads) × IsOnce s
    Reachable-IsOnce h =
        let known = Reachable-Agrees h in (known.counted, IsSound-IsOnce _ known.sound)

    -- Whatever calls are made of a reducer, and whether they succeed or fail, at most one
    -- grant is released to the caller in all, and if one was, then the reducer is the
    -- claimant and a call `decide(Approve)` succeeded.
    pub grant_needs_approval :
        {a : Bool} {n : ℕ} {s : EndpointReducer B S K P}
        → Reachable env a n s
        → (n ≤ 1) × (1 ≤ n → (a ≡ true) × (s.side ≡ Side.claimant))
    grant_needs_approval {n = n} {s = s} h =
        let known = Reachable-Agrees h in
        let once = IsSound-IsOnce s known.sound in
        (omega (arith, known.counted, once.0, once.1), known.gated)
