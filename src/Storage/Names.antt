-- ===== src/Storage/Names.antt =====
-- src/storage.rs: the names of the files of `FileMailboxStore`, as octets.
use cbcl_pairing.Common.{
  ℕ, ◌+◌, ◌/◌, ◌%◌, Octets, octets_ordered, ◌==◌, [], ◌∷◌, ◌++◌, length, Bool, true, false, ◌&&◌,
  not, is_empty, nat_beq, leb, ltb, Option, none, some, if◌then◌else◌, ascii, ◌||◌, ◌-◌,
}

abbrev pub dot : ℕ
dot = b'.'

-- `DIGITS[n]`
abbrev pub hex_digit : ℕ → ℕ
hex_digit n = if ltb n 10 then b'0' + n else b'a' + n - 10

unfoldable pub lower_hex : Octets → Octets
lower_hex [] = []
lower_hex (b ∷ bytes) = hex_digit (b / 16) ∷ hex_digit (b % 16) ∷ lower_hex bytes

-- The names of a record and of its temporary file; the process identifier is printed.
unfoldable pub record_name : Octets → Octets
record_name mailbox_id = lower_hex mailbox_id ++ ascii ".cbor"

unfoldable pub temporary_name : Octets → Octets → Octets
temporary_name mailbox_id process_id =
    dot ∷ (lower_hex mailbox_id ++ (dot ∷ (process_id ++ ascii ".tmp")))

abbrev pub all : (ℕ → Bool) → Octets → Bool
all p [] = true
all p (b ∷ bytes) = p b && all p bytes

-- `str::strip_prefix('.')`, `strip_suffix` and `split_once('.')`.
abbrev pub strip_dot : Octets → Option Octets
strip_dot [] = none
strip_dot (b ∷ bytes) = if nat_beq b dot then some bytes else none

abbrev pub consed : ℕ → Option Octets → Option Octets
consed b none = none
consed b (some bytes) = some (b ∷ bytes)

unfoldable pub strip_suffix : Octets → Octets → Option Octets
strip_suffix suffix [] = if is_empty suffix then some [] else none
strip_suffix suffix (b ∷ bytes) =
    let shorter = consed b (strip_suffix suffix bytes) in
    if (b ∷ bytes) == suffix then some [] else shorter

abbrev pub consed_first : ℕ → Option (Octets × Octets) → Option (Octets × Octets)
consed_first b none = none
consed_first b (some (before, after)) = some (b ∷ before, after)

unfoldable pub split_once : Octets → Option (Octets × Octets)
split_once [] = none
split_once (b ∷ bytes) =
    let later = consed_first b (split_once bytes) in
    if nat_beq b dot then some ([], bytes) else later

abbrev pub is_lower_hex : ℕ → Bool
is_lower_hex b = (leb b'0' b && leb b b'9') || (leb b'a' b && leb b b'f')

abbrev pub is_digit : ℕ → Bool
is_digit b = leb b'0' b && leb b b'9'

abbrev pub is_temporary_parts : Option (Octets × Octets) → Bool
is_temporary_parts none = false
is_temporary_parts (some (mailbox, process)) =
    nat_beq (length mailbox) 64
    && all is_lower_hex mailbox
    && not (is_empty process)
    && all is_digit process

abbrev pub is_temporary_body : Option Octets → Bool
is_temporary_body none = false
is_temporary_body (some body) = is_temporary_parts (split_once body)

abbrev pub is_temporary_stem : Option Octets → Bool
is_temporary_stem none = false
is_temporary_stem (some rest) = is_temporary_body (strip_suffix (ascii ".tmp") rest)

unfoldable pub is_store_temporary : Octets → Bool
is_store_temporary name = is_temporary_stem (strip_dot name)
