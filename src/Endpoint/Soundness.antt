-- ===== src/Endpoint/Soundness.antt =====
-- src/endpoint.rs: what holds of a reducer at all times, and how one action changes it.
use cbcl_pairing.Common.{
  ℕ, ◌≤◌, Octets, ◌≡◌, refl, subst, ◌⊎◌, inl, inr, List, [], Option, none, some, is_some,
  Option-cases, true, Outcome, ok, err, panic, arith,
}
use cbcl_pairing.Endpoint.{
  EndpointReducer, InvitationStatus, PendingApplication, ReducerError, TerminalReason,
}
use cbcl_pairing.Endpoint.Invitations.{spend}
use cbcl_pairing.Endpoint.Terminating.{terminate}
use cbcl_pairing.Endpoint.Views.{IsCounted, IsLiveAt, StepsAt, view}

module _ {B S K P : Type 0} where
  abbrev pub IsLive : EndpointReducer B S K P → Type 0
  IsLive s = IsLiveAt (view s)

  -- Nothing secret and nothing of the session is left.
  pub record IsErased (s : EndpointReducer B S K P) : Type 0 where
    pub status : s.invitation.status ≡ InvitationStatus.spent
    pub binding : s.invitation.binding ≡ none
    pub ceremony_key : s.ceremony_key ≡ none
    pub bootstrap : s.bootstrap ≡ none
    pub pending_channel : s.pending_channel ≡ none
    pub channel : s.channel ≡ none
    pub session : s.session ≡ none
    pub local_finished : s.local_finished ≡ none
    pub pending_finished : s.pending_finished ≡ none
    pub pending_applications : s.pending_applications ≡ []
    pub intent : s.intent ≡ none
    pub decision : s.decision ≡ none

  abbrev pub IsOnce : EndpointReducer B S K P → Type 0
  IsOnce s = (s.delivered_payloads ≤ s.profile_verifications) × (s.profile_verifications ≤ 1)

  pub record IsEnded (s : EndpointReducer B S K P) : Type 0 where
    pub ended : is_some s.terminal ≡ true
    pub erased : IsErased s
    pub once : IsOnce s

  abbrev pub IsSound : EndpointReducer B S K P → Type 0
  IsSound s = IsLive s ⊎ IsEnded s

  abbrev pub Steps : EndpointReducer B S K P → EndpointReducer B S K P → ℕ → Type 0
  Steps s t n = StepsAt (view s) (view t) n

  -- The state after an action that started in `s`: a success has the grants of its effects.
  abbrev pub Ran :
      {A : Type 0}
      → (A → EndpointReducer B S K P → Type 0)
      → (A → ℕ)
      → EndpointReducer B S K P
      → EndpointReducer B S K P × Outcome ReducerError A
      → Type 0
  Ran Q f s (t, ok a) = Q a t × Steps s t (f a)
  Ran Q f s (t, err e) = IsSound t × ((n : ℕ) × Steps s t n)
  Ran Q f s (t, panic) = ⊥

  pub record RunsTo {A : Type 0} (Q : A → EndpointReducer B S K P → Type 0) (f : A → ℕ)
      (s : EndpointReducer B S K P) (r : EndpointReducer B S K P × Outcome ReducerError A)
      : Type 0 where
    pub ran : Ran Q f s r

  abbrev pub Runs :
      {A : Type 0}
      → (EndpointReducer B S K P → Type 0)
      → (A → ℕ)
      → EndpointReducer B S K P
      → EndpointReducer B S K P × Outcome ReducerError A
      → Type 0
  Runs Q f s r = RunsTo (λ _ t. Q t) f s r

  pub IsLive-IsOnce : (s : EndpointReducer B S K P) → IsLive s → IsOnce s
  IsLive-IsOnce s h = elim (Option-cases s.payload_control_hash) [
    | inl e ↦
        let none_yet : s.delivered_payloads ≡ 0 =
          subst (λ x. IsCounted x s.delivered_payloads s.side s.decision) e h.counted in
        (omega (arith, h.verified), omega (arith, h.verified))
    | inr (hash, e) ↦
        let one : IsCounted (some hash) s.delivered_payloads s.side s.decision =
          subst (λ x. IsCounted x s.delivered_payloads s.side s.decision) e h.counted in
        (omega (arith, h.verified, one.0), omega (arith, h.verified, one.0))
  ]

  pub terminate-IsEnded :
      (reason : TerminalReason) (s : EndpointReducer B S K P)
      → IsOnce s
      → IsEnded (terminate reason s)
  unfolding terminate spend
  terminate-IsEnded reason s h = record {
    ended = refl;
    erased = record {
      status = refl;
      binding = refl;
      ceremony_key = refl;
      bootstrap = refl;
      pending_channel = refl;
      channel = refl;
      session = refl;
      local_finished = refl;
      pending_finished = refl;
      pending_applications = refl;
      intent = refl;
      decision = refl;
    };
    once = h;
  }

  pub terminate-Steps :
      (reason : TerminalReason) (s : EndpointReducer B S K P) → Steps s (terminate reason s) 0
  unfolding terminate
  terminate-Steps reason s = record {
    side = refl;
    delivered = omega arith;
    gated = λ h. absurd (omega arith);
    kept = λ h. absurd (ground (arith, h.1));
  }

  -- What may change after the end.
  pub IsEnded-as :
      (l : List PendingApplication) (d : Option Octets) (s : EndpointReducer B S K P)
      → l ≡ []
      → IsEnded s
      → IsEnded (record s { pending_applications = l; terminal_replay_frame_digest = d })
  IsEnded-as l d s e h =
      let was = h.erased in
      record {
        ended = h.ended;
        erased = record {
          status = was.status;
          binding = was.binding;
          ceremony_key = was.ceremony_key;
          bootstrap = was.bootstrap;
          pending_channel = was.pending_channel;
          channel = was.channel;
          session = was.session;
          local_finished = was.local_finished;
          pending_finished = was.pending_finished;
          pending_applications = e;
          intent = was.intent;
          decision = was.decision;
        };
        once = h.once;
      }

  pub IsSound-IsOnce : (s : EndpointReducer B S K P) → IsSound s → IsOnce s
  IsSound-IsOnce s (inl h) = IsLive-IsOnce s h
  IsSound-IsOnce s (inr h) = h.once
