-- ===== src/Runtime/Backend/Names.antt =====
-- Names of functions, `module::function`.
use mathlib.Core.Path.{subst}
use nexus_move.Prelude.{
  ℕ, ◌≡◌, ◌⊎◌, refl, ap, arith, Bool, true, false, ◌&&◌, Option, none, some, [], ◌∷◌, ◌++◌, inl,
  inr, ◌==◌, if◌then◌else◌, Bytes, ascii, ok, err, Bool-cases,
}
use nexus_move.Runtime.Backend.{split_path, parse_function_name}

-- Two colons stand next to one another in the text.
abbrev pub has_colons : Bytes → Bool
has_colons [] = false
has_colons (a ∷ []) = false
has_colons (a ∷ b ∷ s) =
    let rest = has_colons (b ∷ s) in if (a == b':') && (b == b':') then true else rest

-- The module's name and the function's, as the first `::` of the text parts them: the module's
-- name and the colon after it hold no other `::`.
pub record IsSplit (s m f : Bytes) : Type 0 where
  pub joined : s ≡ m ++ b':' ∷ b':' ∷ f
  pub first : has_colons (m ++ b':' ∷ []) ≡ false

IsSplit-cons :
    (a b : ℕ) (s m f : Bytes)
    → (a == b':') && (b == b':') ≡ false
    → IsSplit (b ∷ s) m f
    → IsSplit (a ∷ b ∷ s) (a ∷ m) f
IsSplit-cons a b s [] f e h = record {
  joined = ap (λ t. a ∷ t) h.joined;
  first = ground (arith, head_of b b':' s (b':' ∷ f) h.joined);
}
  where
    head_of : (b c : ℕ) (s t : Bytes) → b ∷ s ≡ c ∷ t → b ≡ c
    head_of b c s t e = cc
IsSplit-cons a b s (c ∷ m) f e h = record {
  joined = ap (λ t. a ∷ t) h.joined;
  first = ground (arith, head_of b c s (m ++ b':' ∷ b':' ∷ f) h.joined, h.first);
}
  where
    head_of : (b c : ℕ) (s t : Bytes) → b ∷ s ≡ c ∷ t → b ≡ c
    head_of b c s t e = cc

IsSplit-rest :
    (a b : ℕ) (s m f : Bytes) (r : Option (Bytes × Bytes))
    → (a == b':') && (b == b':') ≡ false
    → ((m' f' : Bytes) → r ≡ some (m', f') → IsSplit (b ∷ s) m' f')
    → ◌≡◌ {A = Option (Bytes × Bytes)}
        (elim r [ none ↦ none | some p ↦ some (a ∷ p.0, p.1) ])
        (some (m, f))
    → IsSplit (a ∷ b ∷ s) m f
IsSplit-rest a b s m f none e ih h = cc
IsSplit-rest a b s m f (some p) e ih h =
    let from : a ∷ p.0 ≡ m = cc in
    let to : p.1 ≡ f = cc in
    subst (λ x. IsSplit (a ∷ b ∷ s) x f) from
      (subst (λ x. IsSplit (a ∷ b ∷ s) (a ∷ p.0) x) to
        (IsSplit-cons a b s p.0 p.1 e (ih p.0 p.1 refl)))

IsSplit-here :
    (a b : ℕ) (s m f : Bytes)
    → (a == b':') && (b == b':') ≡ true
    → ◌≡◌ {A = Option (Bytes × Bytes)} (some ([], s)) (some (m, f))
    → IsSplit (a ∷ b ∷ s) m f
IsSplit-here a b s m f e h =
    let left : a ≡ b':' = ground arith in
    let right : b ≡ b':' = ground arith in
    let from : [] ≡ m = cc in
    let to : s ≡ f = cc in
    subst (λ x. IsSplit (a ∷ b ∷ s) x f) from
      (subst (λ x. IsSplit (a ∷ b ∷ s) [] x) to
        (record { joined = cc (left, right); first = refl }))

split_path_ok : (s m f : Bytes) → split_path s ≡ some (m, f) → IsSplit s m f
unfolding split_path
split_path_ok [] m f h = cc
split_path_ok (a ∷ []) m f h = cc
split_path_ok (a ∷ b ∷ s) m f h = elim (Bool-cases ((a == b':') && (b == b':'))) [
  | inl e ↦ IsSplit-here a b s m f e (rw (split_path, e) at h)
  | inr e ↦
      IsSplit-rest a b s m f (split_path (b ∷ s)) e (λ m' f' q. split_path_ok (b ∷ s) m' f' q)
        (rw (split_path, e) at h)
]

none_rest :
    (a : ℕ) (r : Option (Bytes × Bytes))
    → ◌≡◌ {A = Option (Bytes × Bytes)} (elim r [ none ↦ none | some p ↦ some (a ∷ p.0, p.1) ]) none
    → r ≡ none
none_rest a none h = refl
none_rest a (some p) h = cc

split_path-none : (s : Bytes) → split_path s ≡ none → has_colons s ≡ false
unfolding split_path
split_path-none [] h = refl
split_path-none (a ∷ []) h = refl
split_path-none (a ∷ b ∷ s) h = elim (Bool-cases ((a == b':') && (b == b':'))) [
  | inl e ↦ cc (e, (rw (split_path, e) at h))
  | inr e ↦
      rw e (split_path-none (b ∷ s) (none_rest a (split_path (b ∷ s)) (rw (split_path, e) at h)))
]

abbrev pub bad_format : Bytes → Bytes
bad_format s = ascii "invalid function format '" ++ (s ++ ascii "', expected 'module::function'")

parse_split : (s : Bytes) (p : Bytes × Bytes) → split_path s ≡ some p → parse_function_name s ≡ ok p
unfolding parse_function_name
parse_split s p e = rw (parse_function_name, e) refl

parse_unsplit : (s : Bytes) → split_path s ≡ none → parse_function_name s ≡ err (bad_format s)
unfolding parse_function_name
parse_unsplit s e = rw (parse_function_name, e) refl

-- A function's name is parted at its first `::`; a name without one is an error. There is no other
-- outcome.
pub parse_function_name_outcomes :
    (s : Bytes)
    → ((m : Bytes) × (f : Bytes) × (parse_function_name s ≡ ok (m, f)) × IsSplit s m f)
      ⊎ ((parse_function_name s ≡ err (bad_format s)) × (has_colons s ≡ false))
parse_function_name_outcomes s = by_split (split_path s) refl
  where
    by_split :
        (r : Option (Bytes × Bytes))
        → split_path s ≡ r
        → ((m : Bytes) × (f : Bytes) × (parse_function_name s ≡ ok (m, f)) × IsSplit s m f)
          ⊎ ((parse_function_name s ≡ err (bad_format s)) × (has_colons s ≡ false))
    by_split none e = inr (parse_unsplit s e, split_path-none s e)
    by_split (some p) e = inl (p.0, p.1, parse_split s p e, split_path_ok s p.0 p.1 e)
