-- ===== src/Runtime/Abi/Tokens.antt =====
-- The encoding of types: no two types, or lists of types, share an encoding.
use mathlib.Core.Path.{ap₂}
use nexus_move.Prelude.{
  ℕ, zero, suc, ◌+◌, ◌%◌, ◌<◌, ◌≤◌, ◌≡◌, ◌≢◌, refl, sym, ap, ◌∙◌, arith, some, [], ◌∷◌, ◌++◌, Bytes,
}
use nexus_move.Prelude.Word.{to_le_bytes, from_le_bytes-to_le_bytes}
use nexus_move.Runtime.Signature.{
  SignatureToken, bool, u8, u16, u32, u64, u128, u256, address, signer, vector, struct,
  struct_instantiation, reference, mutable_reference, type_parameter, function, Signature, end,
  token, len, encode_token, encode_each,
}
use nexus_move.Runtime.Abi.Decoder.{
  IsEncodable, AreEncodable, kind_of, Parsed, read_index, decode_token, decode_each,
}

-- Fuel that is enough.
unfoldable mutual
  weight : SignatureToken → ℕ
  weight (vector inner) = 1 + weight inner
  weight (struct_instantiation idx type_args) = 1 + weight_each type_args
  weight (reference inner) = 1 + weight inner
  weight (mutable_reference inner) = 1 + weight inner
  weight (function params ret abilities) = 1 + weight_each params + weight_each ret
  weight _ = 1

  weight_each : Signature → ℕ
  weight_each end = 1
  weight_each (token t tokens) = 1 + weight t + weight_each tokens

weight_positive : (t : SignatureToken) → 1 ≤ weight t
unfolding weight
weight_positive (vector inner) = omega arith
weight_positive (struct_instantiation idx type_args) = omega arith
weight_positive (reference inner) = omega arith
weight_positive (mutable_reference inner) = omega arith
weight_positive (function params ret abilities) = omega arith
weight_positive _ = omega arith

++-assoc : (xs ys zs : Bytes) → (xs ++ ys) ++ zs ≡ xs ++ (ys ++ zs)
++-assoc [] ys zs = refl
++-assoc (x ∷ xs) ys zs = ap (λ s. x ∷ s) (++-assoc xs ys zs)

read_index_lem :
    (idx : ℕ) (rest : Bytes)
    → idx < 65536
    → read_index (to_le_bytes 2 idx ++ rest) ≡ some (idx, rest)
unfolding to_le_bytes
read_index_lem idx rest h = ap (λ n. some (n, rest)) (from_le_bytes-to_le_bytes 2 idx h)

small_mod : (n : ℕ) → n < 256 → n % 256 ≡ n
small_mod n h = omega arith

mutual
  unfolding IsEncodable encode_token decode_token weight len kind_of

  decode_token-encode_token :
      (t : SignatureToken) (fuel : ℕ) (rest : Bytes)
      → IsEncodable t
      → weight t ≤ fuel
      → decode_token fuel (encode_token t ++ rest) ≡ some (t, rest)
  decode_token-encode_token t zero rest h enough = absurd (omega (arith, weight_positive t))
  decode_token-encode_token bool (suc fuel) rest h enough = refl
  decode_token-encode_token u8 (suc fuel) rest h enough = refl
  decode_token-encode_token u16 (suc fuel) rest h enough = refl
  decode_token-encode_token u32 (suc fuel) rest h enough = refl
  decode_token-encode_token u64 (suc fuel) rest h enough = refl
  decode_token-encode_token u128 (suc fuel) rest h enough = refl
  decode_token-encode_token u256 (suc fuel) rest h enough = refl
  decode_token-encode_token address (suc fuel) rest h enough = refl
  decode_token-encode_token signer (suc fuel) rest h enough = refl
  decode_token-encode_token (vector inner) (suc fuel) rest h enough =
      rw (decode_token-encode_token inner fuel rest h (omega arith)) refl
  decode_token-encode_token (struct idx) (suc fuel) rest h enough =
      rw (read_index_lem idx rest h) refl
  decode_token-encode_token (struct_instantiation idx type_args) (suc fuel) rest h enough =
      rw (++-assoc (to_le_bytes 2 idx) ((len type_args % 256) ∷ encode_each type_args) rest) (
        rw (read_index_lem idx ((len type_args % 256) ∷ (encode_each type_args ++ rest)) h.0) (
          rw (small_mod (len type_args) h.1)
            (rw (decode_each-encode_each type_args fuel rest h.2 (omega arith)) refl)))
  decode_token-encode_token (reference inner) (suc fuel) rest h enough =
      rw (decode_token-encode_token inner fuel rest h (omega arith)) refl
  decode_token-encode_token (mutable_reference inner) (suc fuel) rest h enough =
      rw (decode_token-encode_token inner fuel rest h (omega arith)) refl
  decode_token-encode_token (type_parameter idx) (suc fuel) rest h enough =
      rw (read_index_lem idx rest h) refl
  decode_token-encode_token (function params ret abilities) (suc fuel) rest h enough =
      rw
        (++-assoc (encode_each params) ((len ret % 256) ∷ (encode_each ret ++ abilities ∷ [])) rest)
        (rw (++-assoc (encode_each ret) (abilities ∷ []) rest) (
          rw (small_mod (len params) h.0) (
            rw (small_mod (len ret) h.2) (
              rw
                (decode_each-encode_each params fuel
                  (len ret ∷ (encode_each ret ++ abilities ∷ rest)) h.1 (omega arith))
                (rw (decode_each-encode_each ret fuel (abilities ∷ rest) h.3 (omega arith))
                  refl)))))

  decode_each-encode_each :
      (tokens : Signature) (fuel : ℕ) (rest : Bytes)
      → AreEncodable tokens
      → weight_each tokens ≤ fuel
      → decode_each fuel (len tokens) (encode_each tokens ++ rest) ≡ some (tokens, rest)
  decode_each-encode_each end zero rest h enough = absurd (omega arith)
  decode_each-encode_each end (suc fuel) rest h enough = refl
  decode_each-encode_each (token t tokens) zero rest h enough = absurd (omega arith)
  decode_each-encode_each (token t tokens) (suc fuel) rest h enough =
      rw (++-assoc (encode_token t) (encode_each tokens) rest) (
        rw (decode_token-encode_token t fuel (encode_each tokens ++ rest) h.0 (omega arith))
          (rw (decode_each-encode_each tokens fuel rest h.1 (omega arith)) refl))

parsed_injective :
    {A : Type 0} {a b : A} {r s : Bytes}
    → ◌≡◌ {A = Parsed A} (some (a, r)) (some (b, s))
    → (a ≡ b) × (r ≡ s)
parsed_injective h = (cc, cc)

-- No encoding of a type is the beginning of another's: where two texts that begin with encodings
-- are equal, the types are equal and so is what follows them. The types have indices within u16
-- and at most 255 types in a list, as the binary format has them.
pub encode_token_prefix_free :
    (t u : SignatureToken) (r s : Bytes)
    → IsEncodable t
    → IsEncodable u
    → encode_token t ++ r ≡ encode_token u ++ s
    → (t ≡ u) × (r ≡ s)
encode_token_prefix_free t u r s ht hu e =
    let fuel = weight t + weight u in
    parsed_injective (
      sym (decode_token-encode_token t fuel r ht (omega arith))
      ∙ ap (decode_token fuel) e
      ∙ decode_token-encode_token u fuel s hu (omega arith))

encode_token_nonempty : (t : SignatureToken) (r : Bytes) → encode_token t ++ r ≢ []
unfolding encode_token
encode_token_nonempty (vector inner) r e = cc
encode_token_nonempty (struct idx) r e = cc
encode_token_nonempty (struct_instantiation idx type_args) r e = cc
encode_token_nonempty (reference inner) r e = cc
encode_token_nonempty (mutable_reference inner) r e = cc
encode_token_nonempty (type_parameter idx) r e = cc
encode_token_nonempty (function params ret abilities) r e = cc
encode_token_nonempty bool r e = cc
encode_token_nonempty u8 r e = cc
encode_token_nonempty u16 r e = cc
encode_token_nonempty u32 r e = cc
encode_token_nonempty u64 r e = cc
encode_token_nonempty u128 r e = cc
encode_token_nonempty u256 r e = cc
encode_token_nonempty address r e = cc
encode_token_nonempty signer r e = cc

-- Parameter lists, or lists of results, with the same bytes are the same.
pub encode_each-injective :
    (ts us : Signature)
    → AreEncodable ts
    → AreEncodable us
    → encode_each ts ≡ encode_each us
    → ts ≡ us
unfolding IsEncodable encode_token
encode_each-injective end end ht hu e = refl
encode_each-injective end (token u us) ht hu e =
    absurd (encode_token_nonempty u (encode_each us) (sym e))
encode_each-injective (token t ts) end ht hu e = absurd (encode_token_nonempty t (encode_each ts) e)
encode_each-injective (token t ts) (token u us) ht hu e =
    let (same, rest) = encode_token_prefix_free t u (encode_each ts) (encode_each us) ht.0 hu.0 e in
    ap₂ token same (encode_each-injective ts us ht.1 hu.1 rest)
