-- ===== src/Runtime/Signature.antt =====
-- crates/nexus-move-runtime/src/abi.rs: the types in a signature and their encoding.
use nexus_move.Prelude.{ℕ, suc, ◌%◌, ◌^◌, [], ◌∷◌, ◌++◌, Bytes}
use nexus_move.Prelude.Word.{to_le_bytes}

-- `SignatureToken` of the binary format. A struct handle and a type parameter are u16 indices, a
-- set of abilities is a byte.
mutual
  pub data SignatureToken : Type 0 where
    bool u8 u16 u32 u64 u128 u256 address signer : SignatureToken
    vector : SignatureToken → SignatureToken
    struct : ℕ → SignatureToken
    struct_instantiation : ℕ → Signature → SignatureToken
    reference : SignatureToken → SignatureToken
    mutable_reference : SignatureToken → SignatureToken
    type_parameter : ℕ → SignatureToken
    function : Signature → Signature → ℕ → SignatureToken

  pub data Signature : Type 0 where
    end : Signature
    token : SignatureToken → Signature → Signature

unfoldable pub len : Signature → ℕ
len end = 0
len (token t tokens) = suc (len tokens)

-- `encode_token`, as the bytes that it appends; `encode_each` is its loops over tokens, and
-- `signature_tokens_to_bytes`.
unfoldable mutual
  unfolding len

  pub encode_token : SignatureToken → Bytes
  encode_token bool = 0x01 ∷ []
  encode_token u8 = 0x02 ∷ []
  encode_token u16 = 0x03 ∷ []
  encode_token u32 = 0x04 ∷ []
  encode_token u64 = 0x05 ∷ []
  encode_token u128 = 0x06 ∷ []
  encode_token u256 = 0x07 ∷ []
  encode_token address = 0x08 ∷ []
  encode_token signer = 0x09 ∷ []
  encode_token (vector inner) = 0x0a ∷ encode_token inner
  encode_token (struct idx) = 0x0b ∷ to_le_bytes 2 idx
  encode_token (struct_instantiation idx type_args) =
      0x0c ∷ (to_le_bytes 2 idx ++ (len type_args % 2 ^ 8) ∷ encode_each type_args)
  encode_token (reference inner) = 0x0d ∷ encode_token inner
  encode_token (mutable_reference inner) = 0x0e ∷ encode_token inner
  encode_token (type_parameter idx) = 0x0f ∷ to_le_bytes 2 idx
  encode_token (function params ret abilities) =
      0x10
      ∷ (len params % 2 ^ 8)
      ∷ (encode_each params ++ (len ret % 2 ^ 8) ∷ (encode_each ret ++ abilities ∷ []))

  pub encode_each : Signature → Bytes
  encode_each end = []
  encode_each (token t tokens) = encode_token t ++ encode_each tokens
