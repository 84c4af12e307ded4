-- ===== src/Endpoint/Applied.antt =====
-- src/endpoint.rs: the intent, the decision and the payload of a valid control keep the invariant.
use cbcl_pairing.Common.{
  ℕ, ◌≡◌, ◌≢◌, refl, inl, inr, Octets, octets_ordered, ◌==◌, [], Option, none, some, not, ◌||◌,
  ◌&&◌, false, arith,
}
use cbcl_pairing.Wire.{Decision, PairingDecision, PairingIntent, Side}
use cbcl_pairing.Profile.{ProfileIntent}
use cbcl_pairing.Endpoint.{DecisionRecord, EndpointEnv, EndpointReducer, TerminalReason}
use cbcl_pairing.Endpoint.Terminating.{terminate}
use cbcl_pairing.Endpoint.Finishing.{same_side}
use cbcl_pairing.Endpoint.Applying.{
  apply_decision, apply_intent, decision_recorded, intent_recognised, same_decision,
}
use cbcl_pairing.Endpoint.Views.{Steps-alike, IsCounted, Steps-refl, grants, view}
use cbcl_pairing.Endpoint.Soundness.{IsLive, IsLive-IsOnce, IsSound, Runs, Steps, terminate-IsEnded}
use cbcl_pairing.Endpoint.Keeping.{
  Runs-after, Runs-fail, Runs-if, Runs-match, Runs-quiet, Runs-IsSound,
}

pub same_side_eq : (a b : Side) → not (same_side a b) ≡ false → a ≡ b
same_side_eq Side.allocator Side.allocator h = refl
same_side_eq Side.claimant Side.claimant h = refl
same_side_eq Side.allocator Side.claimant h = absurd (ground arith)
same_side_eq Side.claimant Side.allocator h = absurd (ground arith)

allocator_refuses : (side : Side) → side ≡ Side.allocator → side ≢ Side.claimant
allocator_refuses Side.allocator e h = ground (arith, h)
allocator_refuses Side.claimant e h = ground (arith, e)

-- Nothing was delivered to an allocator.
allocator_counts :
    (hash : Option Octets) (n : ℕ) (side : Side) (d e : Option DecisionRecord)
    → side ≡ Side.allocator
    → IsCounted hash n side d
    → IsCounted hash n side e
allocator_counts none n side d e a h = h
allocator_counts (some hash) n side d e a h = absurd (allocator_refuses side a h.1.0)

module _ {B S K P : Type 0} (env : EndpointEnv B S K P) where
  intent_recognised-Runs :
      (digest hash : Octets) (r : P × Option ProfileIntent) (s : EndpointReducer B S K P)
      → IsLive s
      → Runs IsLive grants s (intent_recognised env digest hash r s)
  unfolding intent_recognised grants
  intent_recognised-Runs digest hash (p, none) s h =
      let t : EndpointReducer B S K P = record s { profile = p } in
      Runs-after s t _ (Steps-refl _) (Runs-fail _ _ t (IsLive-IsOnce s h))
  intent_recognised-Runs digest hash (p, some value) s h =
      let t : EndpointReducer B S K P = record s { profile = p } in
      let u : EndpointReducer B S K P = record t {
        intent =
            some (record { digest = digest; control_hash = hash; profile_binding = value.binding });
      } in
      Runs-after s t _ (Steps-refl _) (
        Runs-match t.intent
          (λ e. Runs-after t u _ (Steps-alike _ _ refl refl refl) (
            Runs-quiet _ u refl (record {
              live = h.live;
              used = h.used;
              awaited = h.awaited;
              few = h.few;
              counted = h.counted;
              verified = h.verified;
            })))
          (λ existing e.
            Runs-if (existing.digest == digest && existing.control_hash == hash)
              (λ _. Runs-quiet [] t refl h) (λ _. Runs-fail _ _ t (IsLive-IsOnce s h))))

  pub apply_intent-Runs :
      (value : PairingIntent) (hash : Octets) (s : EndpointReducer B S K P)
      → IsLive s
      → Runs IsLive grants s (apply_intent env value hash s)
  unfolding apply_intent
  apply_intent-Runs value hash s h =
      Runs-if (not (same_side s.side Side.claimant) || not (value.application == s.application))
        (λ _. Runs-fail _ _ s (IsLive-IsOnce s h))
        λ _.
          Runs-match (env.wire.encode_pairing_intent value)
            (λ _. record { ran = (inl h, (0, Steps-refl _)) })
            (λ encoded _. intent_recognised-Runs (env.sha256 encoded) hash _ s h)

  -- A decision of an allocator.
  decided-IsLive :
      (known : DecisionRecord) (s : EndpointReducer B S K P)
      → s.side ≡ Side.allocator
      → IsLive s
      → IsLive (record s { decision = some known })
  decided-IsLive known s a h = record {
    live = h.live;
    used = h.used;
    awaited = h.awaited;
    few = h.few;
    counted = allocator_counts s.payload_control_hash _ s.side _ _ a h.counted;
    verified = h.verified;
  }

  decided-Steps :
      (d : Option DecisionRecord) (s : EndpointReducer B S K P)
      → s.side ≡ Side.allocator
      → Steps s (record s { decision = d }) 0
  decided-Steps d s a =
      let same = Steps-refl (view s) in
      record {
        side = same.side;
        delivered = same.delivered;
        gated = same.gated;
        kept = λ c. absurd (allocator_refuses s.side a c.0);
      }

  decision_recorded-Runs :
      (d : Decision) (hash : Octets) (s : EndpointReducer B S K P)
      → s.side ≡ Side.allocator
      → IsLive s
      → Runs IsSound grants s (decision_recorded env d hash s)
  unfolding decision_recorded grants terminate
  decision_recorded-Runs Decision.approve hash s a h =
      let known : DecisionRecord = record { decision = Decision.approve; control_hash = hash } in
      Runs-IsSound s _ (
        Runs-after s (record s { decision = some known }) _ (decided-Steps (some known) s a)
          (Runs-quiet [] _ refl (decided-IsLive known s a h)))
  decision_recorded-Runs Decision.decline hash s a h =
      let known : DecisionRecord = record { decision = Decision.decline; control_hash = hash } in
      let same = Steps-refl (view s) in
      record {
        ran = (
          inr (
              terminate-IsEnded TerminalReason.declined (record s { decision = some known })
                (IsLive-IsOnce s h)),
          record {
            side = same.side;
            delivered = same.delivered;
            gated = same.gated;
            kept = λ c. absurd (allocator_refuses s.side a c.0);
          },
        );
      }

  pub apply_decision-Runs :
      (value : PairingDecision) (hash : Octets) (s : EndpointReducer B S K P)
      → IsLive s
      → Runs IsSound grants s (apply_decision env value hash s)
  unfolding apply_decision grants
  apply_decision-Runs value hash s h =
      let failed = IsLive-IsOnce s h in
      Runs-if (not (same_side s.side Side.allocator)) (λ _. Runs-fail _ _ s failed)
        λ a.
          Runs-match s.intent (λ _. record { ran = (inl h, (0, Steps-refl _)) })
            λ expected i.
              Runs-if (not (value.intent_digest == expected.digest)) (λ _. Runs-fail _ _ s failed)
                λ _.
                  Runs-match s.decision
                    (λ _. decision_recorded-Runs value.decision hash s (same_side_eq s.side _ a) h)
                    (λ existing _.
                      Runs-if
                        (same_decision existing.decision value.decision
                          && existing.control_hash == hash)
                        (λ _. Runs-IsSound s _ (Runs-quiet [] s refl h))
                        (λ _. Runs-fail _ _ s failed))
