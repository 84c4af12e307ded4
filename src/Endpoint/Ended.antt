-- ===== src/Endpoint/Ended.antt =====
-- src/endpoint.rs: a reducer that ended stays as it is, and what a call answers in general.
use cbcl_pairing.Common.{
  ℕ, ◌≡◌, ◌≢◌, ◌⊎◌, inl, inr, refl, ap, List, [], Option, some, ◌&&◌, Bool, true, Octets, Outcome,
  ok, err, panic, arith,
}
use cbcl_pairing.Wire.{ApplicationPayload, ChannelFrame, CloseReason, Decision, PairingIntent}
use cbcl_pairing.Protocol.{BootstrapPerformative}
use cbcl_pairing.Endpoint.{
  EndpointEffect, EndpointEnv, EndpointReducer, ReducerError, TerminalReason,
}
use cbcl_pairing.Endpoint.Actions.{Action, continue}
use cbcl_pairing.Endpoint.Terminating.{ensure_live}
use cbcl_pairing.Endpoint.Finishing.{admit_bootstrap_control, local_finished_frame}
use cbcl_pairing.Endpoint.Confirming.{retry_pending_finished}
use cbcl_pairing.Endpoint.Receiving.{channel_frame_digest, is_declined, receive_frame, same_digest}
use cbcl_pairing.Endpoint.Applying.{same_decision}
use cbcl_pairing.Endpoint.Retrying.{retry_pending}
use cbcl_pairing.Endpoint.Sending.{cancel, decide, relay_closed, send_intent, send_payload}
use cbcl_pairing.Endpoint.Soundness.{RunsTo}
use cbcl_pairing.Endpoint.Keeping.{holds-if, holds-match}
use cbcl_pairing.Endpoint.Opening.{admit_bootstrap_control-Runs, local_finished_frame-Runs}
use cbcl_pairing.Endpoint.Establishing.{retry_pending_finished-Runs}
use cbcl_pairing.Endpoint.Repeating.{retry_pending-Runs}
use cbcl_pairing.Endpoint.Accepting.{receive_frame-Runs}
use cbcl_pairing.Endpoint.Calling.{
  cancel-Runs, relay_closed-Runs, send_intent-Runs, send_payload-Runs,
}
use cbcl_pairing.Endpoint.Deciding.{Decides, decide-Decides}
use cbcl_pairing.Endpoint.Reach.{Reachable, reducer-IsSound}

declined_eq :
    (reason : TerminalReason) (b : Bool)
    → (is_declined (some reason) && b) ≡ true
    → reason ≡ TerminalReason.declined
declined_eq reason b h = ground arith

declined_both :
    (reason : TerminalReason) (b c : Bool)
    → (is_declined (some reason) && b && c) ≡ true
    → reason ≡ TerminalReason.declined
declined_both reason b c h = ground arith

same_reason :
    (a b : TerminalReason) (o : Option TerminalReason)
    → o ≡ some a
    → o ≡ some b
    → b ≡ TerminalReason.declined
    → a ≡ TerminalReason.declined
same_reason a b o e f h = ground (arith, e, f, h)

module _ {B S K P : Type 0} where
  -- The call fails, and nothing changes.
  abbrev pub IsRefused :
      {A : Type 0}
      → EndpointReducer B S K P
      → EndpointReducer B S K P × Outcome ReducerError A
      → Type 0
  IsRefused s r = r ≡ (s, err ReducerError.terminal)

  -- Or it repeats a decline, without an effect and without a change.
  abbrev pub IsRepeated :
      TerminalReason
      → EndpointReducer B S K P
      → EndpointReducer B S K P × Outcome ReducerError (List EndpointEffect)
      → Type 0
  IsRepeated reason s r = IsRefused s r ⊎ ((reason ≡ TerminalReason.declined) × (r ≡ (s, ok [])))

  continue-IsRefused :
      {A C : Type 0} {s : EndpointReducer B S K P}
      (r : EndpointReducer B S K P × Outcome ReducerError A)
      (k : A → Action (EndpointReducer B S K P) C)
      → IsRefused s r
      → IsRefused s (continue r k)
  continue-IsRefused r k h = ap (λ x. continue x k) h

  ensure_live-IsRefused :
      (reason : TerminalReason) (s : EndpointReducer B S K P)
      → s.terminal ≡ some reason
      → IsRefused s (ensure_live s)
  ensure_live-IsRefused reason s e =
      holds-match (λ x. IsRefused s x) s.terminal _ _ (λ n. absurd (ground (arith, e, n)))
        (λ _ _. refl)

  module _ (env : EndpointEnv B S K P) where
    -- Once a reducer has ended, every call leaves it as it is. A call of `receive_frame` or
    -- `decide` may succeed, with no effect, if the reason is a decline; every other call, and
    -- each of these two for any other reason, fails with `Terminal`.
    pub ended_refuses :
        (reason : TerminalReason) (s : EndpointReducer B S K P) (p : BootstrapPerformative)
        (control body : Octets) (frame : ChannelFrame) (value : PairingIntent) (decision : Decision)
        (payload : ApplicationPayload) (how : CloseReason)
        → s.terminal ≡ some reason
        → IsRefused s (admit_bootstrap_control env p control body s)
          × IsRefused s (local_finished_frame env s)
          × IsRefused s (retry_pending_finished env s)
          × IsRefused s (send_intent env value s)
          × IsRefused s (send_payload env payload s)
          × IsRefused s (cancel env s)
          × IsRefused s (relay_closed env how s)
          × IsRepeated reason s (receive_frame env frame s)
          × IsRepeated reason s (decide env decision s)
    unfolding admit_bootstrap_control local_finished_frame retry_pending_finished send_intent
        send_payload cancel relay_closed receive_frame decide
    ended_refuses reason s p control body frame value decision payload how e =
        let refused = ensure_live-IsRefused reason s e in
        (
          continue-IsRefused (ensure_live s) _ refused,
          continue-IsRefused (ensure_live s) _ refused,
          continue-IsRefused (ensure_live s) _ refused,
          continue-IsRefused (ensure_live s) _ refused,
          continue-IsRefused (ensure_live s) _ refused,
          continue-IsRefused (ensure_live s) _ refused,
          continue-IsRefused (ensure_live s) _ refused,
          holds-match (λ x. IsRepeated reason s x) s.terminal _ _
              (λ n. absurd (ground (arith, e, n)))
              (λ known f.
                holds-if (λ x. IsRepeated reason s x)
                  (is_declined (some known)
                    && same_digest s.terminal_replay_frame_digest (channel_frame_digest env frame))
                  _ _
                  (λ b. inr (same_reason reason known s.terminal e f (declined_eq known _ b), refl))
                  (λ _. inl refl)),
          holds-match (λ x. IsRepeated reason s x) s.terminal _ _
              (λ n. absurd (ground (arith, e, n)))
              (λ known f.
                holds-if (λ x. IsRepeated reason s x)
                  (is_declined (some known)
                    && s.local_decline_committed
                    && same_decision decision Decision.decline)
                  _ _
                  (λ b.
                    inr (same_reason reason known s.terminal e f (declined_both known _ _ b), refl))
                  (λ _. inl refl)),
        )

  -- No panic.
  abbrev pub IsAnswer : {A : Type 0} → EndpointReducer B S K P × Outcome ReducerError A → Type 0
  IsAnswer r = r.1 ≢ panic

  Runs-IsAnswer :
      {A : Type 0} {Q : A → EndpointReducer B S K P → Type 0} {f : A → ℕ}
      {s : EndpointReducer B S K P} (r : EndpointReducer B S K P × Outcome ReducerError A)
      → RunsTo Q f s r
      → IsAnswer r
  Runs-IsAnswer (t, ok a) h e = ground (arith, e)
  Runs-IsAnswer (t, err x) h e = ground (arith, e)
  Runs-IsAnswer (t, panic) h e = h.ran

  Decides-IsAnswer :
      {d : Decision} {s : EndpointReducer B S K P}
      (r : EndpointReducer B S K P × Outcome ReducerError (List EndpointEffect))
      → Decides d s r
      → IsAnswer r
  Decides-IsAnswer (t, ok a) h e = ground (arith, e)
  Decides-IsAnswer (t, err x) h e = ground (arith, e)
  Decides-IsAnswer (t, panic) h e = h.decided

  module _ (env : EndpointEnv B S K P) where
    -- On every reducer that the program can produce, every call returns a value or an error:
    -- no call panics, and in `retry_pending` one pass more than there are controls is enough.
    pub endpoint_answers :
        (approved : Bool) (granted : ℕ) (s : EndpointReducer B S K P) (p : BootstrapPerformative)
        (control body : Octets) (frame : ChannelFrame) (value : PairingIntent) (decision : Decision)
        (payload : ApplicationPayload) (how : CloseReason)
        → Reachable env approved granted s
        → IsAnswer (admit_bootstrap_control env p control body s)
          × IsAnswer (local_finished_frame env s)
          × IsAnswer (retry_pending_finished env s)
          × IsAnswer (send_intent env value s)
          × IsAnswer (send_payload env payload s)
          × IsAnswer (cancel env s)
          × IsAnswer (relay_closed env how s)
          × IsAnswer (receive_frame env frame s)
          × IsAnswer (decide env decision s)
          × IsAnswer (retry_pending env s)
    endpoint_answers approved granted s p control body frame value decision payload how h =
        let sound = reducer-IsSound env h in
        (
          Runs-IsAnswer _ (admit_bootstrap_control-Runs env p control body s sound),
          Runs-IsAnswer _ (local_finished_frame-Runs env s sound),
          Runs-IsAnswer _ (retry_pending_finished-Runs env s sound),
          Runs-IsAnswer _ (send_intent-Runs env value s sound),
          Runs-IsAnswer _ (send_payload-Runs env payload s sound),
          Runs-IsAnswer _ (cancel-Runs env s sound),
          Runs-IsAnswer _ (relay_closed-Runs env how s sound),
          Runs-IsAnswer _ (receive_frame-Runs env frame s sound),
          Decides-IsAnswer _ (decide-Decides env decision s sound),
          Runs-IsAnswer _ (retry_pending-Runs env s sound),
        )
