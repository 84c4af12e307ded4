-- ===== src/Relay/Accounting.antt =====
-- src/relay.rs: the map of the mailboxes with the total of their queues and the index of their
-- expiries.
use cbcl_pairing.Common.{
  ℕ, ◌+◌, ◌≤◌, Octets, octets_ordered, nat_ordered, pair_ordered, ◌≡◌, refl, List, [], ◌∷◌, Option,
  none, some, true, lookup, insert, remove, has, set_insert, set_remove, lookup-insert,
  lookup-remove, has-set_insert, has-set_remove, ==-iff, arith,
}
use cbcl_pairing.Mailbox.{Mailbox}
use cbcl_pairing.Mailbox.Invariant.{IsValid}
use cbcl_pairing.Relay.Committing.{bytes_of}

abbrev pub Mailboxes : Type 0
Mailboxes = List (Octets × Mailbox)

-- The bytes in the queues of all mailboxes.
abbrev pub total : Mailboxes → ℕ
total [] = 0
total ((id, m) ∷ rest) = m.queue_bytes + total rest

-- No identifier stands twice.
abbrev pub Distinct : Mailboxes → Type 0
Distinct [] = Unit
Distinct ((id, m) ∷ rest) = (lookup id rest ≡ none) × Distinct rest

remove-absent : (id : Octets) (ms : Mailboxes) → lookup id ms ≡ none → remove id ms ≡ ms
unfolding lookup remove
remove-absent id [] e = refl
remove-absent id ((k, m) ∷ rest) e = ground (arith, remove-absent id rest)

pub total-remove :
    (id : Octets) (ms : Mailboxes)
    → Distinct ms
    → total (remove id ms) + bytes_of (lookup id ms) ≡ total ms
unfolding lookup remove
total-remove id [] h = refl
total-remove id ((k, m) ∷ rest) (new, h) =
    ground (arith, total-remove id rest h, remove-absent id rest, ==-iff id k)

pub total-insert :
    (id : Octets) (m : Mailbox) (ms : Mailboxes)
    → total (insert id m ms) + bytes_of (lookup id ms) ≡ total ms + m.queue_bytes
unfolding lookup insert
total-insert id m [] = ground arith
total-insert id m ((k, n) ∷ rest) = ground (arith, total-insert id m rest)

pub remove-Distinct : (id : Octets) (ms : Mailboxes) → Distinct ms → Distinct (remove id ms)
unfolding remove
remove-Distinct id [] h = h
remove-Distinct id ((k, m) ∷ rest) (new, h) =
    ground (arith, remove-Distinct id rest h, lookup-remove k id rest)

pub insert-Distinct :
    (id : Octets) (m : Mailbox) (ms : Mailboxes) → Distinct ms → Distinct (insert id m ms)
unfolding insert lookup
insert-Distinct id m [] h = (refl, tt)
insert-Distinct id m ((k, n) ∷ rest) (new, h) =
    ground (arith, insert-Distinct id m rest h, lookup-insert k id m rest, ==-iff k id, ==-iff id k)

-- No expiry is earlier than `t`.
abbrev pub NoneBefore : ℕ → List (ℕ × Octets) → Type 0
NoneBefore t [] = Unit
NoneBefore t ((at, id) ∷ es) = (t ≤ at) × NoneBefore t es

-- The expiries in ascending order.
abbrev pub Ascending : List (ℕ × Octets) → Type 0
Ascending [] = Unit
Ascending ((at, id) ∷ es) = NoneBefore at es × Ascending es

NoneBefore-le : (t u : ℕ) (es : List (ℕ × Octets)) → t ≤ u → NoneBefore u es → NoneBefore t es
NoneBefore-le t u [] le h = tt
NoneBefore-le t u ((at, id) ∷ es) le (here, h) =
    (omega (arith, le, here), NoneBefore-le t u es le h)

set_insert-NoneBefore :
    (t at : ℕ) (id : Octets) (es : List (ℕ × Octets))
    → t ≤ at
    → NoneBefore t es
    → NoneBefore t (set_insert (at, id) es)
unfolding set_insert
set_insert-NoneBefore t at id [] le h = (le, tt)
set_insert-NoneBefore t at id ((u, j) ∷ es) le (here, h) =
    ground (arith, set_insert-NoneBefore t at id es le h)

set_insert-Ascending :
    (at : ℕ) (id : Octets) (es : List (ℕ × Octets))
    → Ascending es
    → Ascending (set_insert (at, id) es)
unfolding set_insert
set_insert-Ascending at id [] h = (tt, tt)
set_insert-Ascending at id ((u, j) ∷ es) (here, h) = ground (
  arith,
  set_insert-Ascending at id es h,
  set_insert-NoneBefore u at id es,
  NoneBefore-le at u es,
)

set_remove-NoneBefore :
    (t : ℕ) (k : ℕ × Octets) (es : List (ℕ × Octets))
    → NoneBefore t es
    → NoneBefore t (set_remove k es)
unfolding set_remove
set_remove-NoneBefore t k [] h = tt
set_remove-NoneBefore t k ((u, j) ∷ es) (here, h) = ground (arith, set_remove-NoneBefore t k es h)

set_remove-Ascending :
    (k : ℕ × Octets) (es : List (ℕ × Octets)) → Ascending es → Ascending (set_remove k es)
unfolding set_remove
set_remove-Ascending k [] h = tt
set_remove-Ascending k ((u, j) ∷ es) (here, h) =
    ground (arith, set_remove-Ascending k es h, set_remove-NoneBefore u k es)

abbrev pub expiry_of : Option Mailbox → Option ℕ
expiry_of none = none
expiry_of (some m) = some m.expires_at

module _ (sha256 : Octets → Octets) where
  -- The mailboxes are well formed, stand under their identifiers, and are accounted for; the
  -- index of the expiries names no other expiry, and names each.
  pub record IsAccounted (ms : Mailboxes) (expiries : List (ℕ × Octets)) (queue_bytes : ℕ)
      : Type 0 where
    pub distinct : Distinct ms
    pub valid : (id : Octets) (m : Mailbox) → lookup id ms ≡ some m → IsValid sha256 m
    pub filed : (id : Octets) (m : Mailbox) → lookup id ms ≡ some m → m.mailbox_id ≡ id
    pub exact : queue_bytes ≡ total ms
    pub scheduled :
        (at : ℕ) (id : Octets) → has (at, id) expiries ≡ true → expiry_of (lookup id ms) ≡ some at
    pub indexed :
        (id : Octets) (m : Mailbox) → lookup id ms ≡ some m → has (m.expires_at, id) expiries ≡ true
    pub ordered : Ascending expiries

  -- A mailbox is taken out, with its expiry and its bytes.
  pub remove-IsAccounted :
      {ms : Mailboxes} {es : List (ℕ × Octets)} {n : ℕ} (id : Octets) (m : Mailbox) (left : ℕ)
      → IsAccounted ms es n
      → lookup id ms ≡ some m
      → left + m.queue_bytes ≡ n
      → IsAccounted (remove id ms) (set_remove (m.expires_at, id) es) left
  remove-IsAccounted {ms = ms} {es = es} id m left h e sum = record {
    distinct = remove-Distinct id ms h.distinct;
    valid = λ j k found. ground (arith, h.valid j k, lookup-remove j id ms);
    filed = λ j k found. ground (arith, h.filed j k, lookup-remove j id ms);
    exact = ground (arith, h.exact, total-remove id ms h.distinct);
    scheduled = λ at j found. ground (
      arith,
      h.scheduled at j,
      lookup-remove j id ms,
      ==-iff j id,
      has-set_remove (at, j) (m.expires_at, id) es,
      ==-iff {K = ℕ × Octets} (at, j) (m.expires_at, id),
    );
    indexed = λ j k found. ground (
      arith,
      h.indexed j k,
      lookup-remove j id ms,
      ==-iff j id,
      has-set_remove (k.expires_at, j) (m.expires_at, id) es,
      ==-iff {K = ℕ × Octets} (k.expires_at, j) (m.expires_at, id),
    );
    ordered = set_remove-Ascending (m.expires_at, id) es h.ordered;
  }

  -- A mailbox is replaced by one with the same expiry.
  pub replace-IsAccounted :
      {ms : Mailboxes} {es : List (ℕ × Octets)} {n : ℕ} (id : Octets) (old new : Mailbox) (sum : ℕ)
      → IsAccounted ms es n
      → lookup id ms ≡ some old
      → IsValid sha256 new
      → new.mailbox_id ≡ id
      → new.expires_at ≡ old.expires_at
      → sum + old.queue_bytes ≡ n + new.queue_bytes
      → IsAccounted (insert id new ms) es sum
  replace-IsAccounted {ms = ms} {es = es} id old new sum h e v i x q = record {
    distinct = insert-Distinct id new ms h.distinct;
    valid = λ j k found. ground (arith, v, h.valid j k, lookup-insert j id new ms);
    filed = λ j k found. ground (arith, h.filed j k, lookup-insert j id new ms, ==-iff j id);
    exact = ground (arith, h.exact, total-insert id new ms);
    scheduled =
        λ at j found. ground (arith, h.scheduled at j, lookup-insert j id new ms, ==-iff j id);
    indexed = λ j k found.
        ground (arith, h.indexed j k, h.indexed id old e, lookup-insert j id new ms, ==-iff j id);
    ordered = h.ordered;
  }

  -- A new mailbox, with its expiry and its bytes.
  pub insert-IsAccounted :
      {ms : Mailboxes} {es : List (ℕ × Octets)} {n : ℕ} (id : Octets) (new : Mailbox) (sum : ℕ)
      → IsAccounted ms es n
      → lookup id ms ≡ none
      → IsValid sha256 new
      → new.mailbox_id ≡ id
      → sum ≡ n + new.queue_bytes
      → IsAccounted (insert id new ms) (set_insert (new.expires_at, id) es) sum
  insert-IsAccounted {ms = ms} {es = es} id new sum h e v i q = record {
    distinct = insert-Distinct id new ms h.distinct;
    valid = λ j k found. ground (arith, v, h.valid j k, lookup-insert j id new ms);
    filed = λ j k found. ground (arith, h.filed j k, lookup-insert j id new ms, ==-iff j id);
    exact = ground (arith, h.exact, total-insert id new ms);
    scheduled = λ at j found. ground (
      arith,
      h.scheduled at j,
      lookup-insert j id new ms,
      ==-iff j id,
      has-set_insert (at, j) (new.expires_at, id) es,
      ==-iff {K = ℕ × Octets} (at, j) (new.expires_at, id),
    );
    indexed = λ j k found. ground (
      arith,
      h.indexed j k,
      lookup-insert j id new ms,
      ==-iff j id,
      has-set_insert (k.expires_at, j) (new.expires_at, id) es,
      ==-iff {K = ℕ × Octets} (k.expires_at, j) (new.expires_at, id),
    );
    ordered = set_insert-Ascending new.expires_at id es h.ordered;
  }
