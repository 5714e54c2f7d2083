-- ===== src/Runtime/Abi/Decoder.antt =====
-- A decoder for the encoding of types, the specification of the encoder.
use nexus_move.Prelude.{ℕ, zero, suc, ◌<◌, Option, none, some, [], ◌∷◌, ◌==◌, if◌then◌else◌, Bytes}
use nexus_move.Prelude.Word.{from_le_bytes}
use nexus_move.Runtime.Signature.{
  SignatureToken, bool, u8, u16, u32, u64, u128, u256, address, signer, vector, struct,
  struct_instantiation, reference, mutable_reference, type_parameter, function, Signature, end,
  token, len,
}

-- What the format allows: u16 indices, and at most 255 tokens where their number is one byte.
unfoldable mutual
  unfolding len

  pub IsEncodable : SignatureToken → Type 0
  IsEncodable (vector inner) = IsEncodable inner
  IsEncodable (struct idx) = idx < 65536
  IsEncodable (struct_instantiation idx type_args) =
      (idx < 65536) × (len type_args < 256) × AreEncodable type_args
  IsEncodable (reference inner) = IsEncodable inner
  IsEncodable (mutable_reference inner) = IsEncodable inner
  IsEncodable (type_parameter idx) = idx < 65536
  IsEncodable (function params ret abilities) =
      (len params < 256) × AreEncodable params × (len ret < 256) × AreEncodable ret
  IsEncodable _ = Unit

  pub AreEncodable : Signature → Type 0
  AreEncodable end = Unit
  AreEncodable (token t tokens) = IsEncodable t × AreEncodable tokens

-- How a tag goes on.
pub data Kind : Type 0 where
  leaf : SignatureToken → Kind
  nested : (SignatureToken → SignatureToken) → Kind
  indexed : (ℕ → SignatureToken) → Kind
  instantiation closure unknown : Kind

unfoldable pub kind_of : ℕ → Kind
kind_of tag =
    if tag == 1
    then leaf bool
    else if tag == 2
    then leaf u8
    else if tag == 3
    then leaf u16
    else if tag == 4
    then leaf u32
    else if tag == 5
    then leaf u64
    else if tag == 6
    then leaf u128
    else if tag == 7
    then leaf u256
    else if tag == 8
    then leaf address
    else if tag == 9
    then leaf signer
    else if tag == 10
    then nested vector
    else if tag == 11
    then indexed struct
    else if tag == 12
    then instantiation
    else if tag == 13
    then nested reference
    else if tag == 14
    then nested mutable_reference
    else if tag == 15
    then indexed type_parameter
    else if tag == 16
    then closure
    else unknown

abbrev pub Parsed : Type 0 → Type 0
Parsed A = Option (A × Bytes)

abbrev pub and_then : {A B : Type 0} → Parsed A → (A → Bytes → Parsed B) → Parsed B
and_then none k = none
and_then (some (a, rest)) k = k a rest

abbrev pub read_byte : Bytes → Parsed ℕ
read_byte [] = none
read_byte (b ∷ rest) = some (b, rest)

abbrev pub read_index : Bytes → Parsed ℕ
read_index (a ∷ b ∷ rest) = some (from_le_bytes (a ∷ b ∷ []), rest)
read_index _ = none

-- A decoder, on fuel.
unfoldable mutual
  unfolding kind_of

  pub decode_token : ℕ → Bytes → Parsed SignatureToken
  decode_token zero bytes = none
  decode_token (suc fuel) [] = none
  decode_token (suc fuel) (tag ∷ bytes) = elim (kind_of tag) [
    | leaf t ↦ some (t, bytes)
    | nested wrap ↦ and_then (decode_token fuel bytes) (λ t rest. some (wrap t, rest))
    | indexed wrap ↦ and_then (read_index bytes) (λ idx rest. some (wrap idx, rest))
    | instantiation ↦ and_then (read_index bytes) (λ idx rest. and_then (read_byte rest) (λ n rest'.
        and_then (decode_each fuel n rest')
          (λ args left. some (struct_instantiation idx args, left))))
    | closure ↦ and_then (read_byte bytes) (λ n rest.
        and_then (decode_each fuel n rest) (λ params rest'. and_then (read_byte rest') (λ m more.
          and_then (decode_each fuel m more) (λ ret left.
            and_then (read_byte left)
              (λ abilities final. some (function params ret abilities, final))))))
    | unknown ↦ none
  ]

  pub decode_each : ℕ → ℕ → Bytes → Parsed Signature
  decode_each zero n bytes = none
  decode_each (suc fuel) zero bytes = some (end, bytes)
  decode_each (suc fuel) (suc n) bytes =
      and_then (decode_token fuel bytes)
        (λ t rest. and_then (decode_each fuel n rest) (λ tokens left. some (token t tokens, left)))
