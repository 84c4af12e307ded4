-- ===== src/Endpoint/Keeping.antt =====
-- src/endpoint.rs: rules for what actions keep, one for each way to build an action.
use cbcl_pairing.Common.{
  ℕ, ◌+◌, ◌≡◌, refl, sym, subst, ◌⊎◌, inl, inr, List, Option, none, some, Bool, true, false,
  if◌then◌else◌, Outcome, ok, err, panic, arith,
}
use cbcl_pairing.Protocol.{ProtocolVerdict}
use cbcl_pairing.Endpoint.{EndpointEffect, EndpointReducer, ReducerError, TerminalReason}
use cbcl_pairing.Endpoint.Actions.{Action, continue, require}
use cbcl_pairing.Endpoint.Terminating.{fail}
use cbcl_pairing.Endpoint.Views.{
  grants, view, Steps-refl, Steps-after, Steps-before, Steps-trans, StepsAt, silent,
}
use cbcl_pairing.Endpoint.Soundness.{
  IsLive, IsOnce, IsSound, Runs, RunsTo, Steps, terminate-IsEnded, terminate-Steps,
}

pub Verdict-cases :
    (v : ProtocolVerdict)
    → (v ≡ ProtocolVerdict.valid) ⊎ (v ≡ ProtocolVerdict.unknown) ⊎ (v ≡ ProtocolVerdict.violation)
Verdict-cases ProtocolVerdict.valid = inl refl
Verdict-cases ProtocolVerdict.unknown = inr (inl refl)
Verdict-cases ProtocolVerdict.violation = inr (inr refl)

-- A predicate of an `if` and of a `match` on an option.
module _ {X : Type 0} (Q : X → Type 0) where
  pub holds-if :
      (b : Bool) (x y : X) → (b ≡ true → Q x) → (b ≡ false → Q y) → Q (if b then x else y)
  holds-if true x y h k = h refl
  holds-if false x y h k = k refl

  pub holds-match :
      {A : Type 0} (o : Option A) (x : X) (k : A → X)
      → (o ≡ none → Q x)
      → ((a : A) → o ≡ some a → Q (k a))
      → Q (elim o [ none ↦ x | some a ↦ k a ])
  holds-match none x k h g = h refl
  holds-match (some a) x k h g = g a refl

pub not_ended :
    {B S K P : Type 0} (s : EndpointReducer B S K P) → s.terminal ≡ none → IsSound s → IsLive s
not_ended s e (inl h) = h
not_ended s e (inr h) = absurd (ground (arith, e, h.ended))

module _ {B S K P : Type 0} where
  -- What came before.
  pub Runs-after :
      {A : Type 0} {Q : A → EndpointReducer B S K P → Type 0} {f : A → ℕ}
      (s t : EndpointReducer B S K P) (r : EndpointReducer B S K P × Outcome ReducerError A)
      → Steps s t 0
      → RunsTo Q f t r
      → RunsTo Q f s r
  Runs-after s t (u, ok a) h k = record { ran = (k.ran.0, Steps-after h k.ran.1) }
  Runs-after s t (u, err e) h k = record { ran = (k.ran.0, (k.ran.1.0, Steps-after h k.ran.1.1)) }
  Runs-after s t (u, panic) h k = record { ran = k.ran }

  pub Runs-bind :
      {A C : Type 0} {Q : C → EndpointReducer B S K P → Type 0} {f : C → ℕ}
      {s : EndpointReducer B S K P} (r : EndpointReducer B S K P × Outcome ReducerError A)
      {k : A → Action (EndpointReducer B S K P) C}
      → Runs IsLive silent s r
      → ((a : A) (t : EndpointReducer B S K P) → IsLive t → Steps s t 0 → RunsTo Q f t (k a t))
      → RunsTo Q f s (continue r k)
  Runs-bind {s = s} (t, ok a) h g = Runs-after s t _ h.ran.1 (g a t h.ran.0 h.ran.1)
  Runs-bind (t, err e) h g = record { ran = h.ran }
  Runs-bind (t, panic) h g = record { ran = h.ran }

  -- The same with an origin that lies further back, after steps that released `m` grants.
  pub Runs-chain :
      {A C : Type 0} {Q₁ : A → EndpointReducer B S K P → Type 0}
      {Q : C → EndpointReducer B S K P → Type 0} {g : A → ℕ} {f : C → ℕ}
      {s : EndpointReducer B S K P} (r : EndpointReducer B S K P × Outcome ReducerError A)
      {k : A → Action (EndpointReducer B S K P) C}
      → RunsTo Q₁ g s r
      → ((a : A) (t : EndpointReducer B S K P) → Q₁ a t → Steps s t (g a) → RunsTo Q f s (k a t))
      → RunsTo Q f s (continue r k)
  Runs-chain (t, ok a) h k = k a t h.ran.0 h.ran.1
  Runs-chain (t, err e) h k = record { ran = h.ran }
  Runs-chain (t, panic) h k = record { ran = h.ran }

  pub Runs-since :
      {A : Type 0} {Q : A → EndpointReducer B S K P → Type 0} {f : A → ℕ} {m : ℕ}
      {o s : EndpointReducer B S K P} (r : EndpointReducer B S K P × Outcome ReducerError A)
      → Steps o s m
      → RunsTo Q f s r
      → RunsTo Q (λ a. m + f a) o r
  Runs-since (t, ok a) h k = record { ran = (k.ran.0, Steps-trans h k.ran.1) }
  Runs-since (t, err e) h k = record { ran = (k.ran.0, (_, Steps-trans h k.ran.1.1)) }
  Runs-since (t, panic) h k = record { ran = k.ran }

  pub Runs-still :
      {A : Type 0} {Q : A → EndpointReducer B S K P → Type 0} {m : ℕ}
      {o s : EndpointReducer B S K P} (r : EndpointReducer B S K P × Outcome ReducerError A)
      → Steps o s m
      → RunsTo Q silent s r
      → RunsTo Q (λ a. m) o r
  Runs-still (t, ok a) h k = record { ran = (k.ran.0, Steps-before h k.ran.1) }
  Runs-still (t, err e) h k = record { ran = (k.ran.0, (_, Steps-trans h k.ran.1.1)) }
  Runs-still (t, panic) h k = record { ran = k.ran }

  -- `ok_or(..)?`
  pub Runs-ask :
      {A C : Type 0} {Q : C → EndpointReducer B S K P → Type 0} {f : C → ℕ}
      {s : EndpointReducer B S K P} (o : Option A) (e : ReducerError)
      (k : A → Action (EndpointReducer B S K P) C)
      → IsSound s
      → ((a : A) → o ≡ some a → RunsTo Q f s (k a s))
      → RunsTo Q f s (continue (require o e s) k)
  Runs-ask none e k h g = record { ran = (h, (0, Steps-refl _)) }
  Runs-ask (some a) e k h g = g a refl

  pub Runs-need :
      {A C : Type 0} {Q : C → EndpointReducer B S K P → Type 0} {f : C → ℕ}
      {s : EndpointReducer B S K P} (o : Option A) (e : ReducerError)
      (k : A → Action (EndpointReducer B S K P) C)
      → IsLive s
      → ((a : A) → o ≡ some a → RunsTo Q f s (k a s))
      → RunsTo Q f s (continue (require o e s) k)
  Runs-need o e k h g = Runs-ask o e k (inl h) g

  pub Runs-IsSound :
      {A : Type 0} {f : A → ℕ} (s : EndpointReducer B S K P)
      (r : EndpointReducer B S K P × Outcome ReducerError A)
      → Runs IsLive f s r
      → Runs IsSound f s r
  Runs-IsSound s (t, ok a) h = record { ran = (inl h.ran.0, h.ran.1) }
  Runs-IsSound s (t, err e) h = record { ran = h.ran }
  Runs-IsSound s (t, panic) h = record { ran = h.ran }

  pub Runs-require :
      {A : Type 0} (o : Option A) (e : ReducerError) (s : EndpointReducer B S K P)
      → IsLive s
      → Runs IsLive silent s (require o e s)
  Runs-require none e s h = record { ran = (inl h, (0, Steps-refl _)) }
  Runs-require (some a) e s h = record { ran = (h, Steps-refl _) }

  pub Runs-ok :
      {A : Type 0} {a : A} (s : EndpointReducer B S K P) → IsLive s → Runs IsLive silent s (s, ok a)
  Runs-ok s h = record { ran = (h, Steps-refl _) }

  pub Runs-quiet :
      (effects : List EndpointEffect) (s : EndpointReducer B S K P)
      → grants effects ≡ 0
      → IsLive s
      → Runs IsLive grants s (s, ok effects)
  Runs-quiet effects s e h = record {
    ran = (h, subst (StepsAt (view s) (view s)) (sym e) (Steps-refl (view s)));
  }

  pub Runs-fail :
      {A : Type 0} {Q : A → EndpointReducer B S K P → Type 0} {f : A → ℕ} (reason : TerminalReason)
      (e : ReducerError) (s : EndpointReducer B S K P)
      → IsOnce s
      → RunsTo Q f s (fail reason e s)
  Runs-fail reason e s h = record {
    ran = (inr (terminate-IsEnded reason s h), (0, terminate-Steps reason s));
  }

  pub Runs-fail_since :
      {A : Type 0} {Q : A → EndpointReducer B S K P → Type 0} {f : A → ℕ} {m : ℕ}
      {o : EndpointReducer B S K P} (reason : TerminalReason) (e : ReducerError)
      (s : EndpointReducer B S K P)
      → Steps o s m
      → IsOnce s
      → RunsTo Q f o (fail reason e s)
  Runs-fail_since reason e s st h = record {
    ran = (inr (terminate-IsEnded reason s h), (_, Steps-before st (terminate-Steps reason s)));
  }

  -- The `match` on an option and the `if`, with the equation.
  pub Runs-match :
      {A X : Type 0} {Q : A → EndpointReducer B S K P → Type 0} {f : A → ℕ}
      {s : EndpointReducer B S K P} (o : Option X)
      {x : EndpointReducer B S K P × Outcome ReducerError A}
      {k : X → EndpointReducer B S K P × Outcome ReducerError A}
      → (o ≡ none → RunsTo Q f s x)
      → ((v : X) → o ≡ some v → RunsTo Q f s (k v))
      → RunsTo Q f s (elim o [ none ↦ x | some v ↦ k v ])
  Runs-match none h g = h refl
  Runs-match (some v) h g = g v refl

  pub Runs-if :
      {A : Type 0} {Q : A → EndpointReducer B S K P → Type 0} {f : A → ℕ}
      {s : EndpointReducer B S K P} (b : Bool)
      {x y : EndpointReducer B S K P × Outcome ReducerError A}
      → (b ≡ true → RunsTo Q f s x)
      → (b ≡ false → RunsTo Q f s y)
      → RunsTo Q f s (if b then x else y)
  Runs-if true h k = h refl
  Runs-if false h k = k refl
