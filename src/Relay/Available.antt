-- ===== src/Relay/Available.antt =====
-- src/relay.rs: `first_available_nameplate`, by the nameplates that the mailboxes have.
use cbcl_pairing.Common.{
  ℕ, ◌≤◌, ◌<◌, ◌≡◌, ◌≢◌, Octets, octets_ordered, nat_ordered, List, Option, none, some,
  Option-cases, inl, inr, true, is_some, lookup, arith,
}
use cbcl_pairing.Mailbox.{Mailbox, max_nameplate}
use cbcl_pairing.Relay.{RelayEnv, RelayService}
use cbcl_pairing.Relay.Nameplates.{
  IsFirstOrFull, first_available_nameplate, first_available_nameplate_lem,
}
use cbcl_pairing.Relay.Naming.{IsNamed, nameplate_of}
use cbcl_pairing.Relay.Soundness.{IsTotal}
use cbcl_pairing.Relay.Loading.{LoadsValid}
use cbcl_pairing.Relay.Reach.{Reachable, Reachable-IsSound}

-- Some mailbox has the nameplate.
abbrev pub IsUsed : List (Octets × Mailbox) → ℕ → Type 0
IsUsed ms n = (id : Octets) × (nameplate_of (lookup id ms) ≡ some n)

-- The smallest nameplate that no mailbox has, or none where mailboxes have all of them.
abbrev pub IsFirstUnused : List (Octets × Mailbox) → Option ℕ → Type 0
IsFirstUnused ms (some n) =
    (1 ≤ n)
    × (n ≤ max_nameplate)
    × ((id : Octets) → nameplate_of (lookup id ms) ≢ some n)
    × ((k : ℕ) → 1 ≤ k → k < n → IsUsed ms k)
IsFirstUnused ms none = (k : ℕ) → 1 ≤ k → k ≤ max_nameplate → IsUsed ms k

module _ (ms : List (Octets × Mailbox)) (plates : List (ℕ × Octets)) (h : IsNamed ms plates) where
  holder : (k : ℕ) → is_some (lookup k plates) ≡ true → IsUsed ms k
  holder k there = elim (Option-cases (lookup k plates)) [
    | inl gone ↦ absurd (ground (arith, gone, there))
    | inr (id, e) ↦ (id, h.forth k id e)
  ]

  first-IsFirstUnused : (o : Option ℕ) → IsFirstOrFull plates o → IsFirstUnused ms o
  first-IsFirstUnused none all = λ k low high. holder k (all k low high)
  first-IsFirstUnused (some n) (low, high, free, used) =
      (low, high, λ id e. ground (arith, h.back n id e, free), λ k a b. holder k (used k a b))

-- If the store does not panic, and loads well-formed mailboxes from the state it starts in (as
-- the empty store in memory does), then in every service that the program can produce,
-- `first_available_nameplate` answers with the smallest number from 1 to 999,999,999 that no
-- mailbox has as its nameplate, and with none only where mailboxes have all of them.
pub first_available_nameplate-IsFirstUnused :
    {S : Type 0} (env : RelayEnv S) (initial : S) (s : RelayService S)
    → IsTotal env.store
    → LoadsValid env initial
    → Reachable env initial s
    → IsFirstUnused s.mailboxes (first_available_nameplate s)
first_available_nameplate-IsFirstUnused env initial s alive loads r =
    first-IsFirstUnused s.mailboxes s.nameplates (Reachable-IsSound env initial alive loads r).named
      (first_available_nameplate s) (first_available_nameplate_lem s)
