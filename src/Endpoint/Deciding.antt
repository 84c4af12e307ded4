-- ===== src/Endpoint/Deciding.antt =====
-- src/endpoint.rs: `decide`, the only operation that gives consent.
use cbcl_pairing.Common.{
  ℕ, ◌≡◌, ◌⊎◌, inl, inr, refl, Octets, List, [], Option, none, some, not, ◌&&◌, true, Outcome, ok,
  err, panic, arith,
}
use cbcl_pairing.Wire.{ChannelFrame, Decision, PairingDecision, Side}
use cbcl_pairing.Protocol.{PairingRole}
use cbcl_pairing.Endpoint.{
  DecisionRecord, EndpointEffect, EndpointEnv, EndpointReducer, IntentRecord, ReducerError,
  TerminalReason,
}
use cbcl_pairing.Endpoint.Actions.{Action, continue, require}
use cbcl_pairing.Endpoint.Terminating.{ensure_live, fail, terminate}
use cbcl_pairing.Endpoint.Finishing.{same_side}
use cbcl_pairing.Endpoint.Applying.{same_decision}
use cbcl_pairing.Endpoint.Receiving.{is_declined}
use cbcl_pairing.Endpoint.Sending.{
  decide, decide_live, decision_performative, decision_sent, first_decision, send_control,
}
use cbcl_pairing.Endpoint.Views.{HasConsent, IsCounted, Steps-after, Steps-refl, grants, silent}
use cbcl_pairing.Endpoint.Soundness.{
  IsLive, IsLive-IsOnce, IsSound, Runs, Steps, terminate-IsEnded, terminate-Steps,
}
use cbcl_pairing.Endpoint.Keeping.{Runs-require, holds-if, holds-match}
use cbcl_pairing.Endpoint.Opening.{ensure_live-Runs}
use cbcl_pairing.Endpoint.Calling.{send_control-Runs}

-- Nothing was delivered without consent.
undecided_counts :
    (hash : Option Octets) (n : ℕ) (side : Side) (d e : Option DecisionRecord)
    → ¬ (HasConsent side d)
    → IsCounted hash n side d
    → IsCounted hash n side e
undecided_counts none n side d e a h = h
undecided_counts (some hash) n side d e a h = absurd (a h.1)

module _ {B S K P : Type 0} where
  -- From `s` to `t`, with a decision: nothing is delivered, and only an approval gives consent.
  pub record Turns (d : Decision) (s t : EndpointReducer B S K P) : Type 0 where
    pub side : t.side ≡ s.side
    pub delivered : t.delivered_payloads ≡ s.delivered_payloads
    pub given : HasConsent t.side t.decision → HasConsent s.side s.decision ⊎ (d ≡ Decision.approve)

  abbrev pub Decided :
      Decision
      → EndpointReducer B S K P
      → EndpointReducer B S K P × Outcome ReducerError (List EndpointEffect)
      → Type 0
  Decided d s (t, ok effects) = IsSound t × ((grants effects ≡ 0) × Turns d s t)
  Decided d s (t, err e) = IsSound t × ((n : ℕ) × Steps s t n)
  Decided d s (t, panic) = ⊥

  pub record Decides (d : Decision) (s : EndpointReducer B S K P)
      (r : EndpointReducer B S K P × Outcome ReducerError (List EndpointEffect)) : Type 0 where
    pub decided : Decided d s r

  Decides-after :
      (d : Decision) (s t : EndpointReducer B S K P)
      (r : EndpointReducer B S K P × Outcome ReducerError (List EndpointEffect))
      → Steps s t 0
      → Decides d t r
      → Decides d s r
  Decides-after d s t (u, ok a) h k =
      let last = k.decided.1.1 in
      record {
        decided = (
          k.decided.0,
          (
            k.decided.1.0,
            record {
              side = ground (arith, h.side, last.side);
              delivered = omega (arith, h.delivered, last.delivered);
              given = λ c. elim (last.given c) [ inl before ↦ inl (h.kept before) | inr e ↦ inr e ];
            },
          ),
        );
      }
  Decides-after d s t (u, err e) h k = record {
    decided = (k.decided.0, (k.decided.1.0, Steps-after h k.decided.1.1));
  }
  Decides-after d s t (u, panic) h k = record { decided = k.decided }

  Decides-bind :
      {A : Type 0} (d : Decision) (s : EndpointReducer B S K P)
      (r : EndpointReducer B S K P × Outcome ReducerError A)
      {k : A → Action (EndpointReducer B S K P) (List EndpointEffect)}
      → Runs IsLive silent s r
      → ((a : A) (t : EndpointReducer B S K P) → IsLive t → Steps s t 0 → Decides d t (k a t))
      → Decides d s (continue r k)
  Decides-bind d s (t, ok a) h g = Decides-after d s t _ h.ran.1 (g a t h.ran.0 h.ran.1)
  Decides-bind d s (t, err e) h g = record { decided = h.ran }
  Decides-bind d s (t, panic) h g = record { decided = h.ran }

  -- A call that changes nothing.
  Decides-still : (d : Decision) (s : EndpointReducer B S K P) → IsSound s → Decides d s (s, ok [])
  unfolding grants
  Decides-still d s h = record {
    decided = (h, (refl, record { side = refl; delivered = refl; given = λ c. inl c }));
  }

  Decides-raise :
      (d : Decision) (s : EndpointReducer B S K P) (e : ReducerError)
      → IsSound s
      → Decides d s (s, err e)
  Decides-raise d s e h = record { decided = (h, (0, Steps-refl _)) }

  Decides-fail :
      (d : Decision) (s : EndpointReducer B S K P) (reason : TerminalReason) (e : ReducerError)
      → IsLive s
      → Decides d s (fail reason e s)
  Decides-fail d s reason e h = record {
    decided = (inr (terminate-IsEnded reason s (IsLive-IsOnce s h)), (0, terminate-Steps reason s));
  }

  module _ (env : EndpointEnv B S K P) where
    decision_sent-Decides :
        (d : Decision) (hash : Octets) (frame : ChannelFrame) (s : EndpointReducer B S K P)
        → ¬ (HasConsent s.side s.decision)
        → IsLive s
        → Decides d s (decision_sent env d hash frame s)
    unfolding decision_sent grants terminate
    decision_sent-Decides Decision.approve hash frame s n h = record {
      decided = (
        inl (record {
          live = h.live;
          used = h.used;
          awaited = h.awaited;
          few = h.few;
          counted = undecided_counts s.payload_control_hash _ _ s.decision _ n h.counted;
          verified = h.verified;
        }),
        (refl, record { side = refl; delivered = refl; given = λ _. inr refl }),
      );
    }
    decision_sent-Decides Decision.decline hash frame s n h =
        let known : DecisionRecord = record { decision = Decision.decline; control_hash = hash } in
        let t : EndpointReducer B S K P = record s {
          decision = some known;
          local_decline_committed = true;
        } in
        record {
          decided = (
            inr (terminate-IsEnded TerminalReason.declined t (IsLive-IsOnce s h)),
            (
              refl,
              record { side = refl; delivered = refl; given = λ c. absurd (ground (arith, c.1)) },
            ),
          );
        }

    first_decision-Decides :
        (d : Decision) (expected : IntentRecord) (s : EndpointReducer B S K P)
        → s.decision ≡ none
        → IsLive s
        → Decides d s (first_decision env d expected s)
    unfolding first_decision
    first_decision-Decides d expected s e h =
        let decided : PairingDecision = record { intent_digest = expected.digest; decision = d } in
        Decides-bind d s
          (require (env.wire.encode_pairing_decision decided) ReducerError.recognition s)
          (Runs-require _ _ s h)
          λ body t ht st.
            Decides-bind d t
              (send_control env (decision_performative d) PairingRole.allocator body
                expected.control_hash t)
              (send_control-Runs env _ _ _ _ t ht)
              λ sent u hu su.
                decision_sent-Decides d sent.0 sent.1 u
                  (λ c. absurd (ground (arith, e, (st.kept (su.kept c)).1))) hu

    decide_live-Decides :
        (d : Decision) (s : EndpointReducer B S K P) → IsLive s → Decides d s (decide_live env d s)
    unfolding decide_live
    decide_live-Decides d s h =
        holds-if (Decides d s) (not (same_side s.side Side.claimant)) _ _
          (λ _. Decides-raise d s _ (inl h))
          λ _.
            holds-match (Decides d s) s.decision _ _
              (λ e.
                holds-match (Decides d s) s.intent _ _ (λ _. Decides-raise d s _ (inl h))
                  (λ expected _. first_decision-Decides d expected s e h))
              (λ existing _.
                holds-if (Decides d s) (same_decision existing.decision d) _ _
                  (λ _. Decides-still d s (inl h)) (λ _. Decides-fail d s _ _ h))

    pub decide-Decides :
        (d : Decision) (s : EndpointReducer B S K P) → IsSound s → Decides d s (decide env d s)
    unfolding decide
    decide-Decides d s h =
        holds-match (Decides d s) s.terminal _ _
          (λ _.
            Decides-bind d s (ensure_live s) (ensure_live-Runs s h)
              λ _ t ht _. decide_live-Decides d t ht)
          (λ reason _.
            holds-if (Decides d s)
              (is_declined (some reason)
                && s.local_decline_committed
                && same_decision d Decision.decline)
              _ _ (λ _. Decides-still d s h) (λ _. Decides-raise d s _ h))
