-- ===== src/Limiter/Bounded.antt =====
-- src/limiter.rs: the well-formed limiter, and that dropping, sweeping and evicting keep it so.
use cbcl_pairing.Common.{
  ℕ, ◌≡◌, ◌≤◌, nat_ordered, pair_ordered, octets_ordered, List, [], ◌∷◌, some, true, ==-iff, lookup,
  length, lookup-remove, length-remove-le, Option-cases, arith, inl, inr,
}
use cbcl_pairing.Limiter.{Entry, Dimension, Operation, operation_ordered, LimiterConfig, Limiter}
use cbcl_pairing.Limiter.Admit.{prune, prune_attempts}
use cbcl_pairing.Limiter.Check.{prune_all, pruned_entry, stale, drop_all, drop_dimension}
use cbcl_pairing.Limiter.Index.{Indexed, Indexed-remove, fits}
use cbcl_pairing.Limiter.Sweeping.{
  Distinct, lookup-prune_all, remove-Distinct, Fits, Fits-remove, Apart, stale-Apart,
}

-- No entry holds more attempts than the policy of its operation allows.
abbrev pub Within : LimiterConfig → List (Dimension × Entry) → Type 0
Within config es =
    (d : Dimension) (e : Entry)
    → lookup d es ≡ some e
    → length e.attempts ≤ (config.policies d.0).limit

-- What `new` accepts, as far as the bounds need it.
pub record IsUsable (config : LimiterConfig) : Type 0 where
  pub some_room : 1 ≤ config.entry_cap
  pub some_attempt : (o : Operation) → 1 ≤ (config.policies o).limit

-- Every entry has its place in the recency index, the index has nothing else, no dimension stands
-- twice, and the entries and their attempts are within the configured bounds.
pub record IsBounded (l : Limiter) : Type 0 where
  pub usable : IsUsable l.config
  pub indexed : Indexed l.entries l.recency
  pub distinct : Distinct l.entries
  pub within : Within l.config l.entries
  pub capped : length l.entries ≤ l.config.entry_cap

pub drop_dimension-IsBounded :
    (l : Limiter) (d : Dimension) (r : ℕ)
    → fits r (lookup d l.entries) ≡ true
    → IsBounded l
    → IsBounded (drop_dimension l d r)
unfolding drop_dimension
drop_dimension-IsBounded l d r there b = record {
  usable = b.usable;
  indexed = Indexed-remove l.entries l.recency d r there b.indexed;
  distinct = remove-Distinct d l.entries b.distinct;
  within = λ k e h. ground (arith, lookup-remove k d l.entries, b.within k e);
  capped = ground (arith, length-remove-le d l.entries, b.capped);
}

pub drop_all-IsBounded :
    (l : Limiter) (st : List (Dimension × ℕ))
    → Fits st l.entries
    → IsBounded l
    → IsBounded (drop_all l st)
unfolding drop_all drop_dimension
drop_all-IsBounded l [] h b = b
drop_all-IsBounded l ((d, r) ∷ rest) (here, h) b =
    drop_all-IsBounded (drop_dimension l d r) rest (Fits-remove d rest l.entries h)
      (drop_dimension-IsBounded l d r here b)

pub length-prune-le : (window now : ℕ) (ts : List ℕ) → length (prune window now ts) ≤ length ts
unfolding prune
length-prune-le window now [] = omega arith
length-prune-le window now (t ∷ ts) = ground (arith, length-prune-le window now ts)

pub length-pruned_entry-le :
    (config : LimiterConfig) (now : ℕ) (d : Dimension) (e : Entry)
    → length (pruned_entry config now d e).attempts ≤ length e.attempts
unfolding prune_attempts
length-pruned_entry-le config now d e = elim (Option-cases e.cooldown_until) [
  | inl h ↦ ground (arith, length-prune-le (config.policies d.0).window_seconds now e.attempts)
  | inr (r, h) ↦ ground arith
]

pub Fits-cons :
    (st : List (Dimension × ℕ)) (d : Dimension) (e : Entry) (es : List (Dimension × Entry))
    → Apart d st
    → Fits st es
    → Fits st ((d, e) ∷ es)
unfolding lookup
Fits-cons [] d e es apart h = h
Fits-cons ((k, r) ∷ rest) d e es (here, apart) (fit, h) =
    (ground arith, Fits-cons rest d e es apart h)

pub stale-Fits :
    (config : LimiterConfig) (now : ℕ) (es : List (Dimension × Entry))
    → Distinct es
    → Fits (stale config now es) (prune_all config now es)
unfolding stale prune_all lookup prune_attempts
stale-Fits config now [] h = h
stale-Fits config now ((d, e) ∷ rest) (new, h) =
    let later =
      Fits-cons (stale config now rest) d (pruned_entry config now d e) (prune_all config now rest)
        (stale-Apart config now d rest new) (stale-Fits config now rest h) in
    ground (arith, ==-iff d d)

pub prune_all-Indexed :
    (config : LimiterConfig) (now : ℕ) (es : List (Dimension × Entry)) (ps : List (ℕ × Dimension))
    → Indexed es ps
    → Indexed (prune_all config now es) ps
unfolding prune_attempts
prune_all-Indexed config now es ps h r k = ground (arith, lookup-prune_all config now k es, h r k)
