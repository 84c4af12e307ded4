-- ===== src/Limiter/Index.antt =====
-- src/limiter.rs: the recency index beside the entries. The index holds the place of every entry
-- and nothing else.
use cbcl_pairing.Common.{
  ℕ, ◌≡◌, Ordered, nat_ordered, pair_ordered, List, Option, none, some, Bool, true, false, ◌&&◌,
  nat_beq, ◌==◌, ==-iff, lookup, insert, remove, has, set_insert, set_remove, lookup-insert,
  lookup-remove, has-set_insert, has-set_remove, arith,
}
use cbcl_pairing.Limiter.{Entry}

-- Is this the place of the entry, if there is one?
abbrev pub placed : ℕ → Option Entry → Bool
placed r none = false
placed r (some e) = nat_beq r e.recency

abbrev pub fits : ℕ → Option Entry → Bool
fits r none = true
fits r (some e) = nat_beq r e.recency

module _ {K : Type 0} ⦃o : Ordered K⦄ where
  abbrev pub Indexed : List (K × Entry) → List (ℕ × K) → Type 0
  Indexed entries places = (r : ℕ) (k : K) → has (r, k) places ≡ placed r (lookup k entries)

  pub place_eq : (r s : ℕ) (j k : K) → ◌==◌ {K = ℕ × K} (r, j) (s, k) ≡ (nat_beq r s && (j == k))
  place_eq r s j k = ground arith

  -- An entry that is absent, or whose place this is, goes together with its place.
  pub Indexed-remove :
      (es : List (K × Entry)) (ps : List (ℕ × K)) (d : K) (r : ℕ)
      → fits r (lookup d es) ≡ true
      → Indexed es ps
      → Indexed (remove d es) (set_remove (r, d) ps)
  Indexed-remove es ps d r there index s k = ground (
    arith,
    has-set_remove (s, k) (r, d) ps,
    place_eq s r k d,
    lookup-remove k d es,
    ==-iff k d,
    index s k,
    index s d,
  )

  pub Indexed-insert :
      (es : List (K × Entry)) (ps : List (ℕ × K)) (d : K) (e : Entry)
      → lookup d es ≡ none
      → Indexed es ps
      → Indexed (insert d e es) (set_insert (e.recency, d) ps)
  Indexed-insert es ps d e new index s k = ground (
    arith,
    has-set_insert (s, k) (e.recency, d) ps,
    place_eq s e.recency k d,
    lookup-insert k d e es,
    ==-iff k d,
    index s k,
    index s d,
  )

  -- A known entry is replaced, and moves to another place.
  pub Indexed-move :
      (es : List (K × Entry)) (ps : List (ℕ × K)) (d : K) (e e' : Entry) (r : ℕ)
      → e'.recency ≡ r
      → lookup d es ≡ some e
      → Indexed es ps
      → Indexed (insert d e' es) (set_insert (r, d) (set_remove (e.recency, d) ps))
  Indexed-move es ps d e e' r same known index s k = ground (
    arith,
    has-set_insert (s, k) (r, d) (set_remove (e.recency, d) ps),
    has-set_remove (s, k) (e.recency, d) ps,
    place_eq s r k d,
    place_eq s e.recency k d,
    lookup-insert k d e' es,
    ==-iff k d,
    index s k,
    index s d,
  )
