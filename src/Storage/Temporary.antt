-- ===== src/Storage/Temporary.antt =====
-- src/storage.rs: which names `is_store_temporary` takes for those of temporary files.
use cbcl_pairing.Common.{
  ℕ, ◌*◌, ◌/◌, ◌%◌, ◌<◌, ◌≡◌, refl, Octets, octets_ordered, ◌==◌, octets_beq_iff, octets_beq_self,
  [], ◌∷◌, ◌++◌, length, length-append, true, false, is_empty, nat_beq, some, ascii, arith,
  Bool-cases, inl, inr, ap, ◌∙◌, sym,
}
use mathlib.Core.List.{append_assoc}
use cbcl_pairing.Storage.Names.{
  dot, hex_digit, lower_hex, record_name, temporary_name, all, strip_suffix, split_once,
  is_lower_hex, is_digit, is_store_temporary,
}

abbrev pub AreOctets : Octets → Type 0
AreOctets [] = Unit
AreOctets (b ∷ bytes) = (b < 256) × AreOctets bytes

hex_digit-is_lower_hex :
    (n : ℕ) → n < 16 → (is_lower_hex (hex_digit n) ≡ true) × (nat_beq (hex_digit n) dot ≡ false)
hex_digit-is_lower_hex n h = (ground arith, ground arith)

lower_hex-all :
    (b : Octets)
    → AreOctets b
    → (all is_lower_hex (lower_hex b) ≡ true) × (length (lower_hex b) ≡ 2 * length b)
unfolding lower_hex
lower_hex-all [] h = (refl, refl)
lower_hex-all (x ∷ b) (small, h) =
    let (hex, size) = lower_hex-all b h in
    let high = hex_digit-is_lower_hex (x / 16) (omega arith) in
    let low = hex_digit-is_lower_hex (x % 16) (omega arith) in (ground arith, omega arith)

-- A whole name is its own suffix only if nothing stands before it.
longer-ne : (x : ℕ) (xs suffix : Octets) → ((x ∷ (xs ++ suffix)) == suffix) ≡ false
longer-ne x xs suffix = elim (Bool-cases ((x ∷ (xs ++ suffix)) == suffix)) [
  | inl same ↦
      let e : length (x ∷ (xs ++ suffix)) ≡ length suffix =
        ap (λ z. length z) ((octets_beq_iff (x ∷ (xs ++ suffix)) suffix).0 same) in
      absurd (omega (arith, length-append xs suffix))
  | inr other ↦ other
]

strip_suffix-append :
    (xs : Octets) (s : ℕ) (suffix : Octets)
    → strip_suffix (s ∷ suffix) (xs ++ (s ∷ suffix)) ≡ some xs
unfolding strip_suffix
strip_suffix-append [] s suffix = rw (octets_beq_self (s ∷ suffix)) refl
strip_suffix-append (x ∷ xs) s suffix =
    rw (longer-ne x xs (s ∷ suffix), strip_suffix-append xs s suffix) refl

split_once-append :
    (xs rest : Octets)
    → all is_lower_hex xs ≡ true
    → split_once (xs ++ (dot ∷ rest)) ≡ some (xs, rest)
unfolding split_once
split_once-append [] rest h = refl
split_once-append (x ∷ xs) rest h = ground (arith, split_once-append xs rest)

stem_lem :
    (hex process_id : Octets)
    → strip_suffix (ascii ".tmp") (hex ++ (dot ∷ (process_id ++ ascii ".tmp")))
      ≡ some (hex ++ (dot ∷ process_id))
stem_lem hex process_id =
    ap (strip_suffix (ascii ".tmp")) (sym (append_assoc hex (dot ∷ process_id) (ascii ".tmp")))
    ∙ strip_suffix-append (hex ++ (dot ∷ process_id)) dot (ascii "tmp")

-- A name that starts with a hexadecimal digit is no temporary name.
undotted : (x : ℕ) (rest : Octets) → nat_beq x dot ≡ false → is_store_temporary (x ∷ rest) ≡ false
unfolding is_store_temporary
undotted x rest h = rw h refl

record_name-undotted :
    (mailbox_id : Octets)
    → length mailbox_id ≡ 32
    → AreOctets mailbox_id
    → is_store_temporary (record_name mailbox_id) ≡ false
unfolding record_name lower_hex
record_name-undotted [] size h = absurd (omega arith)
record_name-undotted (x ∷ b) size (small, h) =
    undotted (hex_digit (x / 16)) ((hex_digit (x % 16) ∷ lower_hex b) ++ ascii ".cbor")
      (hex_digit-is_lower_hex (x / 16) (omega arith)).1

-- For an identifier of 32 octets and a process identifier printed in decimal digits: the name of
-- the temporary file that `put` writes is recognised as temporary, and the name of the record is
-- not.
pub is_store_temporary-temporary_name :
    (mailbox_id process_id : Octets)
    → length mailbox_id ≡ 32
    → AreOctets mailbox_id
    → all is_digit process_id ≡ true
    → is_empty process_id ≡ false
    → (is_store_temporary (temporary_name mailbox_id process_id) ≡ true)
      × (is_store_temporary (record_name mailbox_id) ≡ false)
unfolding is_store_temporary temporary_name
is_store_temporary-temporary_name mailbox_id process_id size octets digits printed =
    let (hex, long) = lower_hex-all mailbox_id octets in
    (
      rw
          (
            stem_lem (lower_hex mailbox_id) process_id,
            split_once-append (lower_hex mailbox_id) process_id hex,
          )
          (ground arith),
      record_name-undotted mailbox_id size octets,
    )
