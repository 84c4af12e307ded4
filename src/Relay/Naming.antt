-- ===== src/Relay/Naming.antt =====
-- src/relay.rs: the index of nameplates mirrors the nameplates of the mailboxes.
use cbcl_pairing.Common.{
  ℕ, Octets, octets_ordered, nat_ordered, ◌≡◌, refl, subst, sym, List, Option, none, some, lookup,
  insert, remove, lookup-insert, lookup-remove, ==-iff, arith,
}
use cbcl_pairing.Mailbox.{Mailbox}
use cbcl_pairing.Relay.Removing.{free_nameplate}
use cbcl_pairing.Relay.Allocating.{insert_nameplate}
use cbcl_pairing.Relay.Starting.{add_nameplate}

abbrev pub nameplate_of : Option Mailbox → Option ℕ
nameplate_of none = none
nameplate_of (some m) = m.nameplate

-- A nameplate stands for an identifier exactly if the mailbox of the identifier has it.
pub record IsNamed (ms : List (Octets × Mailbox)) (plates : List (ℕ × Octets)) : Type 0 where
  pub forth :
      (n : ℕ) (id : Octets) → lookup n plates ≡ some id → nameplate_of (lookup id ms) ≡ some n
  pub back :
      (n : ℕ) (id : Octets) → nameplate_of (lookup id ms) ≡ some n → lookup n plates ≡ some id

abbrev pub IsFree : Option ℕ → List (ℕ × Octets) → Type 0
IsFree none plates = Unit
IsFree (some n) plates = lookup n plates ≡ none

add_nameplate-IsFree :
    (o : Option ℕ) (id : Octets) (plates added : List (ℕ × Octets))
    → add_nameplate o id plates ≡ some added
    → IsFree o plates × (added ≡ insert_nameplate o id plates)
unfolding add_nameplate
add_nameplate-IsFree none id plates added e = ground arith
add_nameplate-IsFree (some n) id plates added e = ground arith

module _ (ms : List (Octets × Mailbox)) (plates : List (ℕ × Octets)) (id : Octets) (m : Mailbox)
    (h : IsNamed ms plates) where
  pub replace-IsNamed :
      (new : Mailbox)
      → lookup id ms ≡ some m
      → new.nameplate ≡ m.nameplate
      → IsNamed (insert id new ms) plates
  replace-IsNamed new e same = record {
    forth = λ n j found. ground (arith, h.forth n j, lookup-insert j id new ms, ==-iff j id);
    back = λ n j found. ground (arith, h.back n j, lookup-insert j id new ms, ==-iff j id);
  }

  removed-IsNamed :
      (o : Option ℕ)
      → lookup id ms ≡ some m
      → m.nameplate ≡ o
      → IsNamed (remove id ms) (free_nameplate o plates)
  removed-IsNamed none e p = record {
    forth = λ n j found. ground (arith, h.forth n j, lookup-remove j id ms, ==-iff j id);
    back = λ n j found. ground (arith, h.back n j, lookup-remove j id ms, ==-iff j id);
  }
  removed-IsNamed (some k) e p = record {
    forth = λ n j found. ground (
      arith,
      h.forth n j,
      h.back k id,
      lookup-remove j id ms,
      lookup-remove n k plates,
      ==-iff j id,
      ==-iff n k,
    );
    back = λ n j found. ground (
      arith,
      h.back n j,
      h.back k id,
      lookup-remove j id ms,
      lookup-remove n k plates,
      ==-iff j id,
      ==-iff n k,
    );
  }

  pub remove-IsNamed :
      lookup id ms ≡ some m → IsNamed (remove id ms) (free_nameplate m.nameplate plates)
  remove-IsNamed e = removed-IsNamed m.nameplate e refl

  pub insert-IsNamed :
      (o : Option ℕ)
      → lookup id ms ≡ none
      → IsFree o plates
      → m.nameplate ≡ o
      → IsNamed (insert id m ms) (insert_nameplate o id plates)
  insert-IsNamed none e free p = record {
    forth = λ n j found. ground (arith, h.forth n j, lookup-insert j id m ms, ==-iff j id);
    back = λ n j found. ground (arith, h.back n j, lookup-insert j id m ms, ==-iff j id);
  }
  insert-IsNamed (some k) e free p = record {
    forth = λ n j found. ground (
      arith,
      h.forth n j,
      lookup-insert j id m ms,
      lookup-insert n k id plates,
      ==-iff j id,
      ==-iff n k,
    );
    back = λ n j found. ground (
      arith,
      h.back n j,
      lookup-insert j id m ms,
      lookup-insert n k id plates,
      ==-iff j id,
      ==-iff n k,
    );
  }

  pub add-IsNamed :
      (o : Option ℕ) (added : List (ℕ × Octets))
      → lookup id ms ≡ none
      → m.nameplate ≡ o
      → add_nameplate o id plates ≡ some added
      → IsNamed (insert id m ms) added
  add-IsNamed o added e p a =
      let (free, is) = add_nameplate-IsFree o id plates added a in
      subst (IsNamed (insert id m ms)) (sym is) (insert-IsNamed o e free p)
