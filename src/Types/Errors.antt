-- ===== src/Types/Errors.antt =====
-- Every outcome of the address parser: what it accepts, and what each error reports.
use nexus_move.Prelude.{
  ℕ, suc, ◌+◌, ◌*◌, ◌<◌, ◌≤◌, ◌%◌, ◌≡◌, ◌≢◌, refl, inl, inr, ◌==◌, some, [], ◌∷◌, arith, length,
  take, get_elem?, All, All-get_elem?, Bytes, ok, err, panic, ltb, if◌then◌else◌, Bool-cases, ◌>>=◌,
}
use nexus_move.Types.{
  AccountAddress, AddressParseError, Parse, empty, invalid_hex, too_long, decode_hex,
  decode_hex_from, from_decoded, from_hex,
}
use nexus_move.Types.Digits.{IsHexDigit, IsHexDigit-cases, decode_nibble_ok, decode_nibble_err}
use nexus_move.Types.Value.{Accepts, from_hex-Accepts, Decodes, decode_hex_from-Decodes}

-- `e` names the first character of `s` that is no digit; positions count from `index`.
abbrev pub FirstBad : ℕ → Bytes → AddressParseError → Type 0
FirstBad index s (invalid_hex j b) =
    (k : ℕ) × (j ≡ index + k)
    × (get_elem? s k ≡ some b)
    × (¬ IsHexDigit b)
    × All IsHexDigit (take k s)
FirstBad index s _ = ⊥

abbrev Report : ℕ → Bytes → Parse Bytes → Type 0
Report index s (ok d) = Unit
Report index s (err e) = FirstBad index s e
Report index s panic = ⊥

Report-pair :
    (index b c v : ℕ) (s : Bytes)
    → IsHexDigit b
    → IsHexDigit c
    → (r : Parse Bytes) → Report (index + 2) s r
    → Report index (b ∷ c ∷ s) (r >>= λ d. ok (v ∷ d))
Report-pair index b c v s hb hc (ok d) h = tt
Report-pair index b c v s hb hc (err empty) h = h
Report-pair index b c v s hb hc (err (too_long n)) h = h
Report-pair index b c v s hb hc (err (invalid_hex j x)) (k, e, g, bad, all) =
    (suc (suc k), omega arith, g, bad, (hb, (hc, all)))
Report-pair index b c v s hb hc panic h = h

decode_hex_from-Report :
    (index : ℕ) (s : Bytes) → length s % 2 ≡ 0 → Report index s (decode_hex_from index s)
unfolding decode_hex_from
decode_hex_from-Report index [] h = tt
decode_hex_from-Report index (b ∷ []) h = absurd (omega arith)
decode_hex_from-Report index (b ∷ c ∷ s) h = elim (IsHexDigit-cases b) [
  | inr x ↦ rw (decode_nibble_err b index x) (0, omega arith, refl, x, tt)
  | inl hb ↦ elim (IsHexDigit-cases c) [
    | inr x ↦
        rw (decode_nibble_ok b index hb, decode_nibble_err c (index + 1) x)
          (1, omega arith, refl, x, (hb, tt))
    | inl hc ↦
        rw (decode_nibble_ok b index hb, decode_nibble_ok c (index + 1) hc)
          (Report-pair index b c _ s hb hc (decode_hex_from (index + 2) s)
            (decode_hex_from-Report (index + 2) s (omega arith)))
  ]
]

-- The text that the decoder reads: a text of odd length gets a leading zero.
abbrev pub normalized : Bytes → Bytes
normalized s = if length s % 2 == 0 then s else b'0' ∷ s

abbrev pub Describes : Bytes → Parse AccountAddress → Type 0
Describes s (ok a) = Accepts s a
Describes s (err empty) = s ≡ []
Describes s (err (invalid_hex j b)) = FirstBad 0 (normalized s) (invalid_hex j b)
Describes s (err (too_long n)) =
    (32 < n) × (2 * n ≡ length (normalized s)) × All IsHexDigit (normalized s)
Describes s panic = ⊥

abbrev Rejects : Bytes → Parse AccountAddress → Type 0
Rejects t (ok a) = Unit
Rejects t (err empty) = ⊥
Rejects t (err (invalid_hex j b)) = FirstBad 0 t (invalid_hex j b)
Rejects t (err (too_long n)) = (32 < n) × (2 * n ≡ length t) × All IsHexDigit t
Rejects t panic = ⊥

from_decoded-Rejects : (t d : Bytes) → Decodes 0 t d → Rejects t (from_decoded d)
unfolding from_decoded
from_decoded-Rejects t d h = elim (Bool-cases (ltb 32 (length d))) [
  | inl e ↦ rw e (ground arith, omega (arith, h.twice), h.digits)
  | inr e ↦ rw e tt
]

decoded-Rejects :
    (t : Bytes) (m : Parse Bytes) → decode_hex t ≡ m → Report 0 t m → Rejects t (m >>= from_decoded)
unfolding decode_hex
decoded-Rejects t (ok d) e h = from_decoded-Rejects t d (decode_hex_from-Decodes 0 0 t d e)
decoded-Rejects t (err empty) e h = absurd h
decoded-Rejects t (err (too_long n)) e h = absurd h
decoded-Rejects t (err (invalid_hex j b)) e h = h
decoded-Rejects t panic e h = h

length-normalized_even : (s : Bytes) → length (normalized s) % 2 ≡ 0
length-normalized_even s = elim (Bool-cases (length s % 2 == 0)) [
  | inl e ↦ rw e (ground arith)
  | inr e ↦ rw e (ground arith)
]

from_hex-Rejects : (c : ℕ) (s : Bytes) → Rejects (normalized (c ∷ s)) (from_hex (c ∷ s))
unfolding from_hex
from_hex-Rejects c s =
    let t = normalized (c ∷ s) in
    decoded-Rejects t (decode_hex t) refl
      (unfold decode_hex in decode_hex_from-Report 0 t (length-normalized_even (c ∷ s)))

Describes-of :
    (c : ℕ) (s : Bytes) (r : Parse AccountAddress)
    → from_hex (c ∷ s) ≡ r
    → Rejects (normalized (c ∷ s)) r
    → Describes (c ∷ s) r
Describes-of c s (ok a) e h = from_hex-Accepts (c ∷ s) a e
Describes-of c s (err empty) e h = absurd h
Describes-of c s (err (invalid_hex j b)) e h = h
Describes-of c s (err (too_long n)) e h = h
Describes-of c s panic e h = h

-- Every outcome of `from_hex`. It accepts 1 to 64 digits with the number that they denote; it
-- reports an empty text, the first character that is no digit with its position in the text
-- padded to even length, or the number of bytes of a text of digits that is too long; and it
-- never indexes past the end.
pub from_hex-Describes : (s : Bytes) → Describes s (from_hex s)
from_hex-Describes [] = unfold from_hex in refl
from_hex-Describes (c ∷ s) = Describes-of c s (from_hex (c ∷ s)) refl (from_hex-Rejects c s)

Accepts-of_Describes :
    (s : Bytes) (r : Parse AccountAddress)
    → All IsHexDigit (normalized s)
    → s ≢ []
    → length (normalized s) ≤ 64
    → from_hex s ≡ r
    → Describes s r
    → (a : AccountAddress) × (from_hex s ≡ ok a)
Accepts-of_Describes s (ok a) all ne fits e h = (a, e)
Accepts-of_Describes s (err empty) all ne fits e h = absurd (ne h)
Accepts-of_Describes s (err (invalid_hex j b)) all ne fits e h =
    absurd (h.3 (All-get_elem? IsHexDigit (normalized s) h.0 b all h.2))
Accepts-of_Describes s (err (too_long n)) all ne fits e h = absurd (omega (arith, h.0, h.1))
Accepts-of_Describes s panic all ne fits e h = absurd h

-- A text of 1 to 64 hexadecimal digits is accepted.
pub from_hex_total :
    (s : Bytes)
    → All IsHexDigit s
    → s ≢ []
    → length s ≤ 64
    → (a : AccountAddress) × (from_hex s ≡ ok a)
from_hex_total s all ne fits = elim (Bool-cases (length s % 2 == 0)) [
  | inl e ↦
      Accepts-of_Describes s (from_hex s) (rw e all) ne (rw e fits) refl (from_hex-Describes s)
  | inr e ↦
      Accepts-of_Describes s (from_hex s) (rw e (inl (omega arith, omega arith), all)) ne
        (rw e (ground arith)) refl (from_hex-Describes s)
]
