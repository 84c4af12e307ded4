-- ===== src/Limiter/Sweeping.antt =====
-- src/limiter.rs: `sweep_inner`. The dimensions it collects are dropped together with their places,
-- and the other entries keep theirs.
use cbcl_pairing.Common.{
  ℕ, ◌≡◌, nat_ordered, pair_ordered, octets_ordered, List, [], ◌∷◌, Option, none, some, true, false,
  ◌==◌, ==-iff, lookup, remove, length, lookup-remove, arith,
}
use cbcl_pairing.Limiter.{Entry, Dimension, operation_ordered, LimiterConfig}
use cbcl_pairing.Limiter.Check.{prune_all, pruned_entry, stale}
use cbcl_pairing.Limiter.Index.{fits}

-- No key stands twice.
abbrev pub Distinct : List (Dimension × Entry) → Type 0
Distinct [] = Unit
Distinct ((d, e) ∷ rest) = (lookup d rest ≡ none) × Distinct rest

abbrev pub pruned : LimiterConfig → ℕ → Dimension → Option Entry → Option Entry
pruned config now d none = none
pruned config now d (some e) = some (pruned_entry config now d e)

pub lookup-prune_all :
    (config : LimiterConfig) (now : ℕ) (d : Dimension) (es : List (Dimension × Entry))
    → lookup d (prune_all config now es) ≡ pruned config now d (lookup d es)
unfolding prune_all lookup
lookup-prune_all config now d [] = ground arith
lookup-prune_all config now d ((k, e) ∷ rest) =
    ground (arith, ==-iff d k, lookup-prune_all config now d rest)

pub length-prune_all :
    (config : LimiterConfig) (now : ℕ) (es : List (Dimension × Entry))
    → length (prune_all config now es) ≡ length es
unfolding prune_all
length-prune_all config now [] = ground arith
length-prune_all config now ((k, e) ∷ rest) = ground (arith, length-prune_all config now rest)

pub prune_all-Distinct :
    (config : LimiterConfig) (now : ℕ) (es : List (Dimension × Entry))
    → Distinct es
    → Distinct (prune_all config now es)
unfolding prune_all
prune_all-Distinct config now [] h = h
prune_all-Distinct config now ((k, e) ∷ rest) (new, h) =
    (rw (lookup-prune_all config now k rest, new), prune_all-Distinct config now rest h)

pub remove-Distinct :
    (d : Dimension) (es : List (Dimension × Entry)) → Distinct es → Distinct (remove d es)
unfolding remove
remove-Distinct d [] h = h
remove-Distinct d ((k, e) ∷ rest) (new, h) =
    ground (arith, remove-Distinct d rest h, lookup-remove k d rest)

-- Each dimension of the list is absent from the entries or has the place beside it.
abbrev pub Fits : List (Dimension × ℕ) → List (Dimension × Entry) → Type 0
Fits [] es = Unit
Fits ((d, r) ∷ rest) es = (fits r (lookup d es) ≡ true) × Fits rest es

pub Fits-remove :
    (d : Dimension) (st : List (Dimension × ℕ)) (es : List (Dimension × Entry))
    → Fits st es
    → Fits st (remove d es)
Fits-remove d [] es h = h
Fits-remove d ((k, r) ∷ rest) es (here, h) =
    (ground (arith, lookup-remove k d es), Fits-remove d rest es h)

-- The dimension is not in the list.
abbrev pub Apart : Dimension → List (Dimension × ℕ) → Type 0
Apart d [] = Unit
Apart d ((k, r) ∷ rest) = ((k == d) ≡ false) × Apart d rest

pub stale-Apart :
    (config : LimiterConfig) (now : ℕ) (d : Dimension) (es : List (Dimension × Entry))
    → lookup d es ≡ none
    → Apart d (stale config now es)
unfolding stale lookup
stale-Apart config now d [] h = tt
stale-Apart config now d ((k, e) ∷ rest) h =
    ground (arith, ==-iff d k, ==-iff k d, stale-Apart config now d rest)
