-- ===== src/Limiter/Keeping.antt =====
-- src/limiter.rs: `check`, `sweep` and `sweep_if_due` keep a limiter well formed, as long as the
-- next recency fits a `u64`.
use cbcl_pairing.Common.{
  ℕ, ◌≡◌, ◌≤◌, ◌<◌, ◌+◌, suc, nat_ordered, pair_ordered, octets_ordered, List, [], ◌∷◌, none, some,
  leb, ==-iff, lookup, insert, has, length, lookup-insert, lookup-remove, length-insert,
  length-remove-lt, length-append, Option-cases, Bool-cases, arith, inl, inr, u64_mod,
  checked_add-of_lt, refl,
}
use cbcl_pairing.Limiter.{Entry, Dimension, operation_ordered, Limiter, OperationPolicy}
use cbcl_pairing.Limiter.Admit.{prune, prune_attempts, count_attempt, start_cooldown, attempt}
use cbcl_pairing.Limiter.Check.{
  prune_all, stale, drop_dimension, sweep_inner, evict_first, admit, retry, forget, take_recency,
  check_known, check_new,
}
use cbcl_pairing.Limiter.Index.{Indexed, Indexed-insert, Indexed-move, place_eq}
use cbcl_pairing.Limiter.Sweeping.{Distinct, lookup-prune_all, length-prune_all, prune_all-Distinct}
use cbcl_pairing.Limiter.Bounded.{
  IsBounded, drop_dimension-IsBounded, drop_all-IsBounded, length-prune-le, length-pruned_entry-le,
  stale-Fits, prune_all-Indexed,
}

pub sweep_inner-IsBounded : (l : Limiter) (now : ℕ) → IsBounded l → IsBounded (sweep_inner l now).0
unfolding sweep_inner
sweep_inner-IsBounded l now b =
    drop_all-IsBounded (record l { entries = prune_all l.config now l.entries })
      (stale l.config now l.entries) (stale-Fits l.config now l.entries b.distinct)
      (record {
        usable = b.usable;
        indexed = prune_all-Indexed l.config now l.entries l.recency b.indexed;
        distinct = prune_all-Distinct l.config now l.entries b.distinct;
        within = λ d e h. elim (Option-cases (lookup d l.entries)) [
          | inl absent ↦ ground (arith, lookup-prune_all l.config now d l.entries)
          | inr (e₀, known) ↦ ground (
            arith,
            lookup-prune_all l.config now d l.entries,
            b.within d e₀,
            length-pruned_entry-le l.config now d e₀,
          )
        ];
        capped = rw (length-prune_all l.config now l.entries) b.capped;
      })

-- Without a place there is no entry.
pub no_place :
    (es : List (Dimension × Entry)) (ps : List (ℕ × Dimension)) {cap : ℕ}
    → ps ≡ []
    → 1 ≤ cap
    → Indexed es ps
    → suc (length es) ≤ cap
unfolding has lookup
no_place [] ps none_left some_room index = some_room
no_place ((d, e) ∷ rest) ps none_left some_room index =
    ground (arith, index e.recency d, ==-iff d d)

-- Where there is an entry, its place is in the index: eviction finds one.
pub head-placed :
    (l : Limiter) (r : ℕ) (d : Dimension) (rest : List (ℕ × Dimension))
    → l.recency ≡ (r, d) ∷ rest
    → IsBounded l
    → (e : Entry) × (lookup d l.entries ≡ some e) × (e.recency ≡ r)
unfolding has
head-placed l r d rest h b = elim (Option-cases (lookup d l.entries)) [
  | inl absent ↦ ground (arith, b.indexed r d, place_eq r r d d, ==-iff d d)
  | inr (e, known) ↦ (e, known, ground (arith, b.indexed r d, place_eq r r d d, ==-iff d d))
]

-- A full limiter has room for one more entry once the least recently used one is gone.
pub evict_first-room :
    (l : Limiter) (ps : List (ℕ × Dimension))
    → l.recency ≡ ps
    → IsBounded l
    → suc (length (evict_first l ps).entries) ≤ l.config.entry_cap
unfolding evict_first drop_dimension
evict_first-room l [] h b = no_place l.entries l.recency h b.usable.some_room b.indexed
evict_first-room l ((r, d) ∷ rest) h b =
    let (e, known, same) = head-placed l r d rest h b in
    ground (arith, length-remove-lt d l.entries, b.capped)

pub evict_first-IsBounded :
    (l : Limiter) (ps : List (ℕ × Dimension))
    → l.recency ≡ ps
    → IsBounded l
    → IsBounded (evict_first l ps)
unfolding evict_first drop_dimension
evict_first-IsBounded l [] h b = b
evict_first-IsBounded l ((r, d) ∷ rest) h b =
    let (e, known, same) = head-placed l r d rest h b in
    let dropped = drop_dimension-IsBounded l d r (ground arith) b in
    record {
      usable = dropped.usable;
      indexed = dropped.indexed;
      distinct = dropped.distinct;
      within = dropped.within;
      capped = dropped.capped;
    }

-- Eviction makes no dimension known, and leaves the configuration and the next recency alone.
pub evict_first-keeps :
    (l : Limiter) (ps : List (ℕ × Dimension)) (k : Dimension)
    → lookup k l.entries ≡ none
    → (lookup k (evict_first l ps).entries ≡ none)
      × ((evict_first l ps).config ≡ l.config)
      × ((evict_first l ps).next_recency ≡ l.next_recency)
unfolding evict_first drop_dimension
evict_first-keeps l [] k h = (h, refl, refl)
evict_first-keeps l ((r, d) ∷ rest) k h = (ground (arith, lookup-remove k d l.entries), refl, refl)

-- An attempt keeps the number of counted attempts within the limit, and the recency.
pub attempt-within :
    (policy : OperationPolicy) (now : ℕ) (e : Entry)
    → length e.attempts ≤ policy.limit
    → length (attempt policy now e).0.attempts ≤ policy.limit
unfolding attempt count_attempt start_cooldown prune_attempts prune
attempt-within policy now e h = elim (Option-cases e.cooldown_until) [
  | inl none_yet ↦ ground (
    arith,
    length-prune-le policy.window_seconds now e.attempts,
    length-append (prune policy.window_seconds now e.attempts) (now ∷ []),
  )
  | inr (retry_at, cooling) ↦ ground arith
]

pub attempt-recency :
    (policy : OperationPolicy) (now : ℕ) (e : Entry) → (attempt policy now e).0.recency ≡ e.recency
unfolding attempt count_attempt start_cooldown prune_attempts
attempt-recency policy now e = elim (Option-cases e.cooldown_until) [
  | inl none_yet ↦ ground arith
  | inr (retry_at, cooling) ↦ ground arith
]

-- The dimension becomes known, or stays it.
pub insert-Distinct :
    (d : Dimension) (e : Entry) (es : List (Dimension × Entry))
    → Distinct es
    → Distinct (insert d e es)
unfolding insert lookup
insert-Distinct d e [] h = (refl, h)
insert-Distinct d e ((k, e') ∷ rest) (new, h) =
    ground (arith, ==-iff d k, ==-iff k d, insert-Distinct d e rest h, lookup-insert k d e rest)

pub take_recency-fits :
    (l : Limiter)
    → l.next_recency + 1 < u64_mod
    → take_recency l ≡ some (record l { next_recency = l.next_recency + 1 }, l.next_recency)
unfolding take_recency
take_recency-fits l h = rw (checked_add-of_lt l.next_recency 1 h, take_recency) refl

pub admit-IsBounded :
    (l : Limiter) (d : Dimension) (now : ℕ)
    → lookup d l.entries ≡ none
    → suc (length l.entries) ≤ l.config.entry_cap
    → l.next_recency + 1 < u64_mod
    → IsBounded l
    → IsBounded (admit l d now (take_recency l)).0
unfolding admit
admit-IsBounded l d now new room word b = rw (take_recency-fits l word) (record {
  usable = b.usable;
  indexed = Indexed-insert l.entries l.recency d _ new b.indexed;
  distinct = insert-Distinct d _ l.entries b.distinct;
  within = λ k e h. ground (
    arith,
    lookup-insert k d
        (record { attempts = now ∷ []; cooldown_until = none; recency = l.next_recency }) l.entries,
    ==-iff k d,
    b.within k e,
    b.usable.some_attempt k.0,
  );
  capped =
      rw
        (
          length-insert d
              (record { attempts = now ∷ []; cooldown_until = none; recency = l.next_recency })
              l.entries,
          new,
        )
        room;
})

pub check_new-IsBounded :
    (l : Limiter) (d : Dimension) (now : ℕ)
    → lookup d l.entries ≡ none
    → l.next_recency + 1 < u64_mod
    → IsBounded l
    → IsBounded (check_new l d now).0
unfolding check_new
check_new-IsBounded l d now new word b =
    elim (Bool-cases (leb l.config.entry_cap (length l.entries))) [
      | inl full ↦
          let (absent, config, next) = evict_first-keeps l l.recency d new in
          rw full (
            admit-IsBounded (evict_first l l.recency) d now absent
              (ground (arith, evict_first-room l l.recency refl b)) (ground arith)
              (evict_first-IsBounded l l.recency refl b))
      | inr space ↦ rw space (admit-IsBounded l d now new (ground arith) word b)
    ]

pub check_known-IsBounded :
    (l : Limiter) (d : Dimension) (e : Entry) (now : ℕ)
    → lookup d l.entries ≡ some e
    → l.next_recency + 1 < u64_mod
    → IsBounded l
    → IsBounded (check_known l d e now).0
unfolding check_known retry
check_known-IsBounded l d e now known word b =
    let e₀ = record e { recency = l.next_recency } in
    let e' = (attempt (l.config.policies d.0) now e₀).0 in
    let same : (e'.recency ≡ l.next_recency) = attempt-recency (l.config.policies d.0) now e₀ in
    rw (take_recency-fits (forget l d e) word) (record {
      usable = b.usable;
      indexed = Indexed-move l.entries l.recency d e e' l.next_recency same known b.indexed;
      distinct = insert-Distinct d e' l.entries b.distinct;
      within = λ k e₂ h. ground (
        arith,
        lookup-insert k d e' l.entries,
        ==-iff k d,
        b.within k e₂,
        b.within d e known,
        attempt-within (l.config.policies d.0) now e₀,
      );
      capped = rw (length-insert d e' l.entries, known) b.capped;
    })
