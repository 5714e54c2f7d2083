-- ===== src/Types/Value.antt =====
-- The number that an accepted address literal denotes, read apart from the parser.
use nexus_move.Prelude.{
  ℕ, ap, ◌≤◌, ◌%◌, ◌==◌, ◌≢◌, zero, suc, ◌+◌, ◌-◌, ◌*◌, ◌≡◌, refl, ◌∙◌, [], ◌∷◌, ◌++◌, arith,
  length, replicate, length-append, length-replicate, All, Bytes, AreBytes, Result, ok, inl, inr,
  ltb, Bool-cases, >>=-eq-ok,
}
use mathlib.Core.Path.{subst}
use nexus_move.Types.{
  AddressParseError, AccountAddress, decode_hex, decode_hex_from, from_decoded, from_hex,
}
use nexus_move.Types.Digits.{
  IsHexDigit, IsHexDigit-cases, digit_value, digit_value-lt, decode_nibble_ok, decode_nibble_err,
}
use nexus_move.Types.RoundTrip.{IsAddress}

-- A byte string as a big-endian number, and a string of hexadecimal digits as one.
abbrev pub be_value : ℕ → Bytes → ℕ
be_value acc [] = acc
be_value acc (b ∷ bs) = be_value (acc * 256 + b) bs

abbrev pub hex_value : ℕ → Bytes → ℕ
hex_value acc [] = acc
hex_value acc (c ∷ cs) = hex_value (acc * 16 + digit_value c) cs

-- What the decoder's result says of its input.
pub record Decodes (acc : ℕ) (s d : Bytes) : Type 0 where
  pub digits : All IsHexDigit s
  pub bytes : AreBytes d
  pub twice : length s ≡ 2 * length d
  pub same_value : be_value acc d ≡ hex_value acc s

-- A decoded pair of characters: two digits, their byte, and the rest.
pub record Pair (index b c : ℕ) (s d : Bytes) : Type 0 where
  pub high : IsHexDigit b
  pub low : IsHexDigit c
  pub rest : Bytes
  pub decodes : decode_hex_from (index + 2) s ≡ ok rest
  pub joined : d ≡ (digit_value b * 16 + digit_value c) ∷ rest

Pair-of_ok :
    (index b c : ℕ) (s : Bytes) {d : Bytes}
    → decode_hex_from index (b ∷ c ∷ s) ≡ ok d
    → Pair index b c s d
unfolding decode_hex_from
Pair-of_ok index b c s h = elim (IsHexDigit-cases b) [
  | inr x ↦ cc (h, decode_nibble_err b index x)
  | inl hb ↦ elim (IsHexDigit-cases c) [
    | inr x ↦ cc (h, decode_nibble_ok b index hb, decode_nibble_err c (index + 1) x)
    | inl hc ↦
        let (e, p, q) =
          >>=-eq-ok (decode_hex_from (index + 2) s)
            (λ decoded. ok ((digit_value b * 16 + digit_value c) ∷ decoded))
            (rw (decode_nibble_ok b index hb, decode_nibble_ok c (index + 1) hc) at h) in
        record { high = hb; low = hc; rest = e; decodes = p; joined = cc }
  ]
]

ok_rest :
    {x y : ℕ} {d e : Bytes} → x ∷ d ≡ y ∷ e → ◌≡◌ {A = Result AddressParseError Bytes} (ok e) (ok d)
ok_rest h = cc

pub decode_hex_from-Decodes :
    (index acc : ℕ) (s : Bytes) (d : Bytes) → decode_hex_from index s ≡ ok d → Decodes acc s d
unfolding decode_hex_from
decode_hex_from-Decodes index acc [] [] h = record {
  digits = tt;
  bytes = tt;
  twice = refl;
  same_value = refl;
}
decode_hex_from-Decodes index acc [] (x ∷ d) h = cc
decode_hex_from-Decodes index acc (b ∷ []) d h = elim (IsHexDigit-cases b) [
  | inl hb ↦ cc (h, decode_nibble_ok b index hb)
  | inr x ↦ cc (h, decode_nibble_err b index x)
]
decode_hex_from-Decodes index acc (b ∷ c ∷ s) [] h = cc ((Pair-of_ok index b c s h).joined)
decode_hex_from-Decodes index acc (b ∷ c ∷ s) (x ∷ d) h =
    let p = Pair-of_ok index b c s h in
    let ih =
      decode_hex_from-Decodes (index + 2) (acc * 256 + x) s d (p.decodes ∙ ok_rest p.joined) in
    let x_eq : x ≡ digit_value b * 16 + digit_value c = cc p.joined in
    record {
      digits = (p.high, (p.low, ih.digits));
      bytes = (omega (arith, x_eq, digit_value-lt b p.high, digit_value-lt c p.low), ih.bytes);
      twice = omega (arith, ih.twice);
      same_value = ih.same_value ∙ ap (λ n. hex_value n s) (omega (arith, x_eq));
    }

be_value-zeros : (n : ℕ) (d : Bytes) → be_value 0 (replicate n 0 ++ d) ≡ be_value 0 d
be_value-zeros zero d = refl
be_value-zeros (suc n) d = be_value-zeros n d

AreBytes-zeros : (n : ℕ) (d : Bytes) → AreBytes d → AreBytes (replicate n 0 ++ d)
AreBytes-zeros zero d h = h
AreBytes-zeros (suc n) d h = (omega arith, AreBytes-zeros n d h)

-- A text that `from_hex` accepts: its digits, their number, and the padded bytes.
pub record Accepts (s : Bytes) (a : AccountAddress) : Type 0 where
  pub address : IsAddress a
  pub digits : All IsHexDigit s
  pub nonempty : s ≢ []
  pub fits : length s ≤ 64
  pub same_value : be_value 0 a ≡ hex_value 0 s

from_decoded-IsAddress :
    (d : Bytes) {a : AccountAddress}
    → AreBytes d
    → from_decoded d ≡ ok a
    → IsAddress a × (length d ≤ 32) × (be_value 0 a ≡ be_value 0 d)
unfolding from_decoded
from_decoded-IsAddress d {a} bytes h = elim (Bool-cases (ltb 32 (length d))) [
  | inl e ↦ cc (h, e)
  | inr e ↦
      let fits : length d ≤ 32 = ground arith in
      let padded : replicate (32 - length d) 0 ++ d ≡ a = ground arith in
      subst (λ a. IsAddress a × (length d ≤ 32) × (be_value 0 a ≡ be_value 0 d)) padded
        (
          record {
            size =
                length-append (replicate (32 - length d) 0) d
                ∙ omega (arith, length-replicate {A = ℕ} (32 - length d) 0);
            bytes = AreBytes-zeros (32 - length d) d bytes;
          },
          fits,
          be_value-zeros (32 - length d) d,
        )
]

Accepts-of_decoded :
    (s t d : Bytes) (a : AccountAddress)
    → s ≢ []
    → hex_value 0 t ≡ hex_value 0 s
    → (All IsHexDigit t → All IsHexDigit s)
    → length s ≤ length t
    → decode_hex t ≡ ok d
    → from_decoded d ≡ ok a
    → Accepts s a
unfolding decode_hex
Accepts-of_decoded s t d a ne same digits le p q =
    let dec = decode_hex_from-Decodes 0 0 t d p in
    let fin = from_decoded-IsAddress d dec.bytes q in
    record {
      address = fin.0;
      digits = digits dec.digits;
      nonempty = ne;
      fits = omega (arith, dec.twice, fin.1);
      same_value = fin.2 ∙ dec.same_value ∙ same;
    }

-- An accepted text is 1 to 64 hexadecimal digits, and the 32 bytes of the address are, as a
-- big-endian number, the number that the digits denote.
pub from_hex-Accepts : (s : Bytes) (a : AccountAddress) → from_hex s ≡ ok a → Accepts s a
unfolding from_hex
from_hex-Accepts [] a h = cc
from_hex-Accepts (c ∷ s) a h = elim (Bool-cases (length (c ∷ s) % 2 == 0)) [
  | inl e ↦
      let (d, p, q) = >>=-eq-ok (decode_hex (c ∷ s)) from_decoded (rw e at h) in
      Accepts-of_decoded (c ∷ s) (c ∷ s) d a (λ x. cc) refl (λ x. x) (omega arith) p q
  | inr e ↦
      let (d, p, q) = >>=-eq-ok (decode_hex (b'0' ∷ c ∷ s)) from_decoded (rw e at h) in
      Accepts-of_decoded (c ∷ s) (b'0' ∷ c ∷ s) d a (λ x. cc) refl (λ x. x.1) (omega arith) p q
]
