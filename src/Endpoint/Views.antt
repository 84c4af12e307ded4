-- ===== src/Endpoint/Views.antt =====
-- src/endpoint.rs: the part of a reducer that its invariant is about, and how a step changes it.
use cbcl_pairing.Common.{
  ℕ, zero, suc, ◌+◌, ◌≤◌, Octets, ◌≡◌, refl, ◌⊎◌, inl, inr, List, [], ◌∷◌, ◌++◌, length, Option,
  none, some, true, arith,
}
use cbcl_pairing.Wire.{ChannelFrame, Side}
use cbcl_pairing.Channel.{SecureChannel}
use cbcl_pairing.Endpoint.{
  DecisionRecord, EndpointEffect, EndpointReducer, IntentRecord, InvitationRecord, InvitationStatus,
  PendingApplication, TerminalReason, max_pending_controls,
}
use cbcl_pairing.Endpoint.Applying.{is_approved}

-- How many grants the effects release.
unfoldable pub grants : List EndpointEffect → ℕ
grants [] = 0
grants (EndpointEffect.deliver_grant grant ∷ rest) = suc (grants rest)
grants (_ ∷ rest) = grants rest

pub grants-append : (xs ys : List EndpointEffect) → grants (xs ++ ys) ≡ grants xs + grants ys
unfolding grants
grants-append [] ys = omega arith
grants-append (EndpointEffect.deliver_grant grant ∷ xs) ys = omega (arith, grants-append xs ys)
grants-append (EndpointEffect.send_frame frame ∷ xs) ys = grants-append xs ys
grants-append (EndpointEffect.display_intent shown ∷ xs) ys = grants-append xs ys
grants-append (EndpointEffect.close_mailbox ∷ xs) ys = grants-append xs ys

-- A confirmed channel has spent the invitation.
abbrev pub IsSpentBy : Option SecureChannel → InvitationRecord → Type 0
IsSpentBy none r = Unit
IsSpentBy (some channel) r = (r.status ≡ InvitationStatus.spent) × (r.binding ≡ none)

-- An action that releases no grant.
abbrev pub silent : {A : Type 0} → A → ℕ
silent a = 0

pub le_or_zero : (n : ℕ) → (1 ≤ n) ⊎ (n ≡ 0)
le_or_zero zero = inr refl
le_or_zero (suc n) = inl (omega arith)

-- The part of the reducer that the invariant is about.
pub record View : Type 0 where
  pub side : Side
  pub invitation : InvitationRecord
  pub channel : Option SecureChannel
  pub pending_finished : Option ChannelFrame
  pub pending_applications : List PendingApplication
  pub intent : Option IntentRecord
  pub decision : Option DecisionRecord
  pub payload_control_hash : Option Octets
  pub delivered_payloads : ℕ
  pub profile_verifications : ℕ
  pub terminal : Option TerminalReason

abbrev pub view : {B S K P : Type 0} → EndpointReducer B S K P → View
view s = record {
  side = s.side;
  invitation = s.invitation;
  channel = s.channel;
  pending_finished = s.pending_finished;
  pending_applications = s.pending_applications;
  intent = s.intent;
  decision = s.decision;
  payload_control_hash = s.payload_control_hash;
  delivered_payloads = s.delivered_payloads;
  profile_verifications = s.profile_verifications;
  terminal = s.terminal;
}

-- The user of the claimant approved the intent.
abbrev pub HasConsent : Side → Option DecisionRecord → Type 0
HasConsent side decision = (side ≡ Side.claimant) × (is_approved decision ≡ true)

-- Only a Finished frame is retained.
abbrev pub IsAwaited : Option ChannelFrame → Type 0
IsAwaited none = Unit
IsAwaited (some (ChannelFrame.finished side control value)) = Unit
IsAwaited _ = ⊥

-- What was delivered of a live endpoint: the payload whose control hash is kept, with consent.
abbrev pub IsCounted : Option Octets → ℕ → Side → Option DecisionRecord → Type 0
IsCounted none delivered side decision = delivered ≡ 0
IsCounted (some hash) delivered side decision = (delivered ≡ 1) × HasConsent side decision

pub record IsLiveAt (s : View) : Type 0 where
  pub live : s.terminal ≡ none
  pub used : IsSpentBy s.channel s.invitation
  pub awaited : IsAwaited s.pending_finished
  pub few : length s.pending_applications ≤ max_pending_controls
  pub counted : IsCounted s.payload_control_hash s.delivered_payloads s.side s.decision
  pub verified : s.profile_verifications ≡ s.delivered_payloads

-- From `s` to `t`, with `n` grants: they are counted, consent came before them, and consent is
-- not given.
pub record StepsAt (s t : View) (n : ℕ) : Type 0 where
  pub side : t.side ≡ s.side
  pub delivered : t.delivered_payloads ≡ s.delivered_payloads + n
  pub gated : 1 ≤ n → HasConsent s.side s.decision
  pub kept : HasConsent t.side t.decision → HasConsent s.side s.decision

pub Steps-refl : (s : View) → StepsAt s s 0
Steps-refl s = record {
  side = refl;
  delivered = omega arith;
  gated = λ h. absurd (omega arith);
  kept = λ h. h;
}

pub Steps-trans : {s t u : View} {m n : ℕ} → StepsAt s t m → StepsAt t u n → StepsAt s u (m + n)
Steps-trans {m = m} {n = n} a b = record {
  side = ground (arith, a.side, b.side);
  delivered = omega (arith, a.delivered, b.delivered);
  gated = λ h. elim (le_or_zero m) [
    | inl positive ↦ a.gated positive
    | inr e ↦ a.kept (b.gated (omega arith))
  ];
  kept = λ h. a.kept (b.kept h);
}

-- A silent step before another.
pub Steps-after : {s t u : View} {n : ℕ} → StepsAt s t 0 → StepsAt t u n → StepsAt s u n
Steps-after a b = record {
  side = ground (arith, a.side, b.side);
  delivered = omega (arith, a.delivered, b.delivered);
  gated = λ h. a.kept (b.gated h);
  kept = λ h. a.kept (b.kept h);
}

-- A silent step behind another.
pub Steps-before : {s t u : View} {n : ℕ} → StepsAt s t n → StepsAt t u 0 → StepsAt s u n
Steps-before a b = record {
  side = ground (arith, a.side, b.side);
  delivered = omega (arith, a.delivered, b.delivered);
  gated = a.gated;
  kept = λ h. a.kept (b.kept h);
}

-- A step that changes neither the side nor the decision nor the count.
pub Steps-alike :
    (s t : View)
    → t.side ≡ s.side
    → t.decision ≡ s.decision
    → t.delivered_payloads ≡ s.delivered_payloads
    → StepsAt s t 0
Steps-alike s t side decision delivered = record {
  side = side;
  delivered = omega (arith, delivered);
  gated = λ h. absurd (omega arith);
  kept = λ h. ground (arith, side, decision, h.0, h.1);
}
