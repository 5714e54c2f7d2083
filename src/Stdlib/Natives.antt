-- ===== src/Stdlib/Natives.antt =====
-- The string natives: what they return, on every branch.
use nexus_move.Prelude.{
  ℕ, zero, suc, ◌+◌, ◌-◌, ◌<◌, ◌≤◌, ◌≡◌, ◌≢◌, ◌⊎◌, refl, sym, ap, ◌∙◌, arith, Option, none, some,
  [], ◌∷◌, ◌++◌, inl, inr, ltb, length, take, drop, Bytes, bytes_eq, bytes_eq_iff, Bool-cases, ok,
  err,
}
use nexus_move.Stdlib.{sub_string, position_from, index_of}

-- `r` stands in `s` at position `k`.
abbrev pub OccursAt : Bytes → Bytes → ℕ → Type 0
OccursAt r s k = take (length r) (drop k s) ≡ r

-- `r` stands nowhere before position `k`.
abbrev pub NowhereBefore : Bytes → Bytes → ℕ → Type 0
NowhereBefore r s k = (i : ℕ) → i < k → ¬ OccursAt r s i

Search : Bytes → Bytes → ℕ → Option ℕ → Type 0
Search r s start none = NowhereBefore r s (length s)
Search r s start (some at) =
    (k : ℕ) × (at ≡ start + k) × (k < length s) × OccursAt r s k × NowhereBefore r s k

nowhere_cons :
    (r : Bytes) (b : ℕ) (s : Bytes) (k : ℕ)
    → ¬ OccursAt r (b ∷ s) 0
    → NowhereBefore r s k
    → NowhereBefore r (b ∷ s) (suc k)
nowhere_cons r b s k here later zero h = here
nowhere_cons r b s k here later (suc i) h = later i (omega (arith, h))

Search-cons :
    (r : Bytes) (b : ℕ) (s : Bytes) (start : ℕ) (found : Option ℕ)
    → ¬ OccursAt r (b ∷ s) 0
    → Search r s (start + 1) found
    → Search r (b ∷ s) start found
unfolding Search
Search-cons r b s start none here h = nowhere_cons r b s (length s) here h
Search-cons r b s start (some at) here (k, e, below, occurs, before) =
    (suc k, omega (arith, e), omega (arith, below), occurs, nowhere_cons r b s k here before)

position_from-Search :
    (r s : Bytes) (start : ℕ) → r ≢ [] → Search r s start (position_from start r s)
unfolding Search position_from
position_from-Search r [] start ne = λ i h. absurd (omega (arith, h))
position_from-Search r (b ∷ s) start ne = elim (Bool-cases (bytes_eq (take (length r) (b ∷ s)) r)) [
  | inl e ↦
      rw e (0, omega arith, omega arith, (bytes_eq_iff _ _).0 e, λ i h. absurd (omega (arith, h)))
  | inr e ↦ rw e (
      Search-cons r b s start (position_from (start + 1) r s)
        (λ q. cc ((bytes_eq_iff (take (length r) (b ∷ s)) r).1 q, e))
        (position_from-Search r s (start + 1) ne))
]

index_of_nonempty :
    (s r : Bytes)
    → r ≢ []
    → index_of s r ≡ ok (elim (position_from 0 r s) [ none ↦ length s | some at ↦ at ])
unfolding index_of
index_of_nonempty s [] ne = absurd (ne refl)
index_of_nonempty s (b ∷ r) ne = refl

read-Search :
    (r s : Bytes) (found : Option ℕ)
    → Search r s 0 found
    → let k : ℕ = elim found [ none ↦ length s | some at ↦ at ] in
      ((k ≡ length s) ⊎ (OccursAt r s k × (k < length s))) × NowhereBefore r s k
unfolding Search
read-Search r s none h = (inl refl, h)
read-Search r s (some at) (k, e, below, occurs, before) =
    let same : at ≡ k = omega (arith, e) in rw same (inr (occurs, below), before)

-- The index of a text that is not empty is the first position where it stands, or the length of
-- the string where it stands nowhere.
pub index_of_lem :
    (s r : Bytes)
    → r ≢ []
    → (k : ℕ) × (index_of s r ≡ ok k)
      × ((k ≡ length s) ⊎ (OccursAt r s k × (k < length s)))
      × NowhereBefore r s k
index_of_lem s r ne =
    let (place, before) = read-Search r s (position_from 0 r s) (position_from-Search r s 0 ne) in
    (_, index_of_nonempty s r ne, place, before)

take_append_drop : (i : ℕ) (s : Bytes) → s ≡ take i s ++ drop i s
take_append_drop zero s = refl
take_append_drop (suc i) [] = refl
take_append_drop (suc i) (b ∷ s) = ap (λ t. b ∷ t) (take_append_drop i s)

length-take : (n : ℕ) (s : Bytes) → n ≤ length s → length (take n s) ≡ n
length-take zero s h = refl
length-take (suc n) [] h = absurd (omega (arith, h))
length-take (suc n) (b ∷ s) h = ap suc (length-take n s (omega (arith, h)))

length-drop : (i : ℕ) (s : Bytes) → length (drop i s) ≡ length s - i
length-drop zero s = omega arith
length-drop (suc i) [] = omega arith
length-drop (suc i) (b ∷ s) = omega (arith, length-drop i s)

drop_at : (s : Bytes) {m n : ℕ} → m ≡ n → drop m s ≡ drop n s
drop_at s e = ap (λ m. drop m s) e

drop-nil : (n : ℕ) → drop {A = ℕ} n [] ≡ []
drop-nil zero = refl
drop-nil (suc n) = refl

drop-drop : (i n : ℕ) (s : Bytes) → drop n (drop i s) ≡ drop (i + n) s
drop-drop zero n s = drop_at s {m = n} {n = 0 + n} (omega arith)
drop-drop (suc i) n [] = drop-nil n ∙ sym (drop-nil (suc i + n))
drop-drop (suc i) n (b ∷ s) =
    drop-drop i n s ∙ drop_at (b ∷ s) {m = suc (i + n)} {n = suc i + n} (omega arith)

part_length :
    (s : Bytes) (i j : ℕ) → i ≤ j → j ≤ length s → length (take (j - i) (drop i s)) ≡ j - i
part_length s i j h k = length-take (j - i) (drop i s) (omega (arith, length-drop i s))

parts : (s : Bytes) (i j : ℕ) → i ≤ j → s ≡ take i s ++ (take (j - i) (drop i s) ++ drop j s)
parts s i j h =
    take_append_drop i s
    ∙ ap (λ t. take i s ++ t)
        (take_append_drop (j - i) (drop i s)
          ∙ ap (λ t. take (j - i) (drop i s) ++ t)
              (drop-drop i (j - i) s ∙ drop_at s {m = i + (j - i)} {n = j} (omega (arith, h))))

-- A substring is returned exactly for bounds in order and within the string; it is then the part
-- between them. Other bounds abort with code 1.
pub sub_string_lem :
    (s : Bytes) (i j : ℕ)
    → ((i ≤ j)
        × (j ≤ length s)
        × ((t : Bytes) × (sub_string s i j ≡ ok t)
            × (length t ≡ j - i)
            × (s ≡ take i s ++ (t ++ drop j s))))
      ⊎ (((j < i) ⊎ (length s < j)) × (sub_string s i j ≡ err 1))
unfolding sub_string
sub_string_lem s i j = elim (Bool-cases (ltb j i)) [
  | inl e ↦ inr (inl (ground (arith, e)), rw e refl)
  | inr e ↦ elim (Bool-cases (ltb (length s) j)) [
    | inl f ↦ inr (inr (ground (arith, f)), rw e (rw f refl))
    | inr f ↦
        let ordered : i ≤ j = ground (arith, e) in
        let within : j ≤ length s = ground (arith, f) in
        inl (
          ordered,
          within,
          (
            take (j - i) (drop i s),
            rw e (rw f refl),
            part_length s i j ordered within,
            parts s i j ordered,
          ),
        )
  ]
]
