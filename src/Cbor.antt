-- ===== src/Cbor.antt =====
-- The values of `ciborium::Value`, and the interface of the third-party CBOR reader and writer that
-- src/storage.rs, src/endpoint.rs and src/channel.rs call.
use cbcl_pairing.Common.{ℕ, ◌<◌, ◌≡◌, Octets, List, [], ◌∷◌, Option, some, Bool, u64_mod}

-- `negative n` is -(n + 1); floats and tags are `other`.
mutual
  pub data Value : Type 0 where
    null : Value
    boolean : Bool → Value
    integer : ℕ → Value
    negative : ℕ → Value
    bytes : Octets → Value
    text : Octets → Value
    array : Values → Value
    mapping : Entries → Value
    other : Octets → Value

  pub data Values : Type 0 where
    nil : Values
    cons : Value → Values → Values

  pub data Entries : Type 0 where
    end : Entries
    entry : Value → Value → Entries → Entries

-- A vector of values.
abbrev pub values : List Value → Values
values [] = nil
values (v ∷ vs) = cons v (values vs)

-- A value with no map in it, so that the canonical encoding reorders nothing, with integers that
-- fit a `u64`.
abbrev mutual
  pub IsPlain : Value → Type 0
  IsPlain null = Unit
  IsPlain (boolean b) = Unit
  IsPlain (integer n) = n < u64_mod
  IsPlain (negative n) = ⊥
  IsPlain (bytes b) = Unit
  IsPlain (text b) = Unit
  IsPlain (array vs) = ArePlain vs
  IsPlain (mapping es) = ⊥
  IsPlain (other b) = ⊥

  pub ArePlain : Values → Type 0
  ArePlain nil = Unit
  ArePlain (cons v vs) = IsPlain v × ArePlain vs

-- `cbor2::to_canonical_vec` and `ciborium::de::from_reader`.
pub record Codec : Type 0 where
  pub to_canonical_vec : Value → Option Octets
  pub from_reader : Octets → Option Value

-- What is relied on of them: what was written is read back.
pub record IsCodec (c : Codec) : Type 0 where
  pub reads :
      (v : Value) (b : Octets)
      → IsPlain v
      → c.to_canonical_vec v ≡ some b
      → c.from_reader b ≡ some v
