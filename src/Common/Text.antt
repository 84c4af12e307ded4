-- ===== src/Common/Text.antt =====
-- Byte-string literals.
use Prim.Native.Nat.{ℕ}
use Prim.Native.Char.{code}
use Prim.Native.String.{String}
use mathlib.Core.List.{List, [], ◌∷◌}

-- A Rust literal `b"..."` of ASCII characters, as octets.
abbrev pub ascii : String → List ℕ
ascii (String.◌∷◌ first rest) = code first ∷ ascii rest
ascii String.[] = []
