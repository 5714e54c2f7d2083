-- ===== src/Bytecode/Loops.antt =====
-- What the loops of `verify_publish_bundle`, crates/nexus-move-bytecode/src/lib.rs, push on the list
-- of errors.
use mathlib.Core.List.{Memᴰ}
use mathlib.Core.List.Memᴰ
use mathlib.Core.Path.{subst}
use nexus_move.Prelude.{
  ℕ, zero, suc, ◌+◌, ◌≡◌, ◌<◌, ◌↔◌, ◌⊎◌, refl, sym, ap, ◌∙◌, Bool, true, false, inl, inr, some,
  List, [], ◌∷◌, ◌++◌, ltb, arith, length, length-append, is_empty, take, take-append_length,
  get_elem?, Bytes, bytes_eq, bytes_eq_iff,
}
use nexus_move.Prelude.Enumerate.{enumerate, mem-enumerate_all}
use nexus_move.Bytecode.{
  VerificationError, empty_module, module_too_large, duplicate_module_bytes, push_if, module_errors,
  each_module_errors, duplicates_of, duplicate_errors,
}

pub mem-push_if :
    (c : Bool) (x e : VerificationError) → Memᴰ e (push_if c x) ↔ ((c ≡ true) × (e ≡ x))
mem-push_if true x e = (λ m. (refl, Memᴰ.eq_of_singleton m), λ h. Memᴰ.head h.1)
mem-push_if false x e = (λ m. absurd (Memᴰ.not-nil m), λ h. cc)

each_module_errors-enumerate :
    (limit index : ℕ) (modules : List Bytes)
    → each_module_errors limit index modules ≡ enumerate (module_errors limit) index modules
unfolding each_module_errors enumerate
each_module_errors-enumerate limit index [] = refl
each_module_errors-enumerate limit index (bytes ∷ modules) =
    ap (λ r. module_errors limit index bytes ++ r)
      (each_module_errors-enumerate limit (index + 1) modules)

abbrev pair_error : ℕ → Bytes → ℕ → Bytes → List VerificationError
pair_error second bytes first earlier =
    push_if (bytes_eq earlier bytes) (duplicate_module_bytes first second)

duplicates_of-enumerate :
    (first second : ℕ) (bytes : Bytes) (seen : List Bytes)
    → duplicates_of first second bytes seen ≡ enumerate (pair_error second bytes) first seen
unfolding duplicates_of enumerate
duplicates_of-enumerate first second bytes [] = refl
duplicates_of-enumerate first second bytes (earlier ∷ seen) =
    ap (λ r. pair_error second bytes first earlier ++ r)
      (duplicates_of-enumerate (first + 1) second bytes seen)

-- The errors of the pairs whose second module has index `second`.
abbrev pairs_at : List Bytes → ℕ → Bytes → List VerificationError
pairs_at modules second bytes = duplicates_of 0 second bytes (take second modules)

append_one :
    {A : Type 0} (xs : List A) (x : A) (ys : List A) → (xs ++ x ∷ []) ++ ys ≡ xs ++ (x ∷ ys)
append_one [] x ys = refl
append_one (z ∷ xs) x ys = ap (λ r. z ∷ r) (append_one xs x ys)

duplicate_errors-enumerate :
    (seen rest : List Bytes)
    → duplicate_errors seen rest ≡ enumerate (pairs_at (seen ++ rest)) (length seen) rest
unfolding duplicate_errors enumerate
duplicate_errors-enumerate seen [] = refl
duplicate_errors-enumerate seen (bytes ∷ rest) =
    let later : duplicate_errors (seen ++ bytes ∷ []) rest
        ≡ enumerate (pairs_at ((seen ++ bytes ∷ []) ++ rest)) (length (seen ++ bytes ∷ [])) rest =
      duplicate_errors-enumerate (seen ++ bytes ∷ []) rest in
    let tail : duplicate_errors (seen ++ bytes ∷ []) rest
        ≡ enumerate (pairs_at (seen ++ (bytes ∷ rest))) (length seen + 1) rest =
      later
      ∙ ap (λ l. enumerate (pairs_at l) (length (seen ++ bytes ∷ [])) rest)
          (append_one seen bytes rest)
      ∙ ap (λ n. enumerate (pairs_at (seen ++ (bytes ∷ rest))) n rest)
          (length-append seen (bytes ∷ [])) in
    ap (λ l. duplicates_of 0 (length seen) bytes l ++ duplicate_errors (seen ++ bytes ∷ []) rest)
      (sym (take-append_length seen (bytes ∷ rest)))
    ∙ ap (λ r. pairs_at (seen ++ (bytes ∷ rest)) (length seen) bytes ++ r) tail

take-get_elem? :
    (n i : ℕ) (xs : List Bytes) (x : Bytes)
    → (get_elem? (take n xs) i ≡ some x) ↔ ((i < n) × (get_elem? xs i ≡ some x))
take-get_elem? zero i xs x = (λ h. cc, λ h. ground arith)
take-get_elem? (suc n) i [] x = (λ h. cc, λ h. cc)
take-get_elem? (suc n) zero (y ∷ xs) x = (λ h. (omega arith, h), λ h. h.1)
take-get_elem? (suc n) (suc i) (y ∷ xs) x =
    let rest = take-get_elem? n i xs x in
    (λ h. (omega (arith, (rest.0 h).0), (rest.0 h).1), λ h. rest.1 (omega (arith, h.0), h.1))

mem-pairs_at :
    (modules : List Bytes) (second : ℕ) (bytes : Bytes) (e : VerificationError)
    → Memᴰ e (pairs_at modules second bytes) ↔ (
        (first : ℕ) × (first < second)
        × (get_elem? modules first ≡ some bytes)
        × (e ≡ duplicate_module_bytes first second))
mem-pairs_at modules second bytes e =
    let listed = duplicates_of-enumerate 0 second bytes (take second modules) in
    let found = mem-enumerate_all (pair_error second bytes) (take second modules) e in
    (
      λ m.
          let (first, earlier, at, pushed) = found.0 (subst (Memᴰ e) listed m) in
          let (same, is) = (mem-push_if _ _ e).0 pushed in
          let (before, at') = (take-get_elem? second first modules earlier).0 at in
          (first, before, at' ∙ ap some ((bytes_eq_iff earlier bytes).0 same), is),
      λ (first, before, at, is). subst (Memᴰ e) (sym listed) (
          found.1 (
            first,
            bytes,
            (take-get_elem? second first modules bytes).1 (before, at),
            (mem-push_if _ _ e).1 ((bytes_eq_iff bytes bytes).1 refl, is),
          )),
    )

pub mem-duplicate_errors :
    (modules : List Bytes) (e : VerificationError)
    → Memᴰ e (duplicate_errors [] modules) ↔ (
        (first : ℕ) × (second : ℕ) × (bytes : Bytes) × (first < second)
        × (get_elem? modules first ≡ some bytes)
        × (get_elem? modules second ≡ some bytes)
        × (e ≡ duplicate_module_bytes first second))
mem-duplicate_errors modules e =
    let listed = duplicate_errors-enumerate [] modules in
    let found = mem-enumerate_all (pairs_at modules) modules e in
    (
      λ m.
          let (second, bytes, at, pushed) = found.0 (subst (Memᴰ e) listed m) in
          let (first, before, at', is) = (mem-pairs_at modules second bytes e).0 pushed in
          (first, second, bytes, before, at', at, is),
      λ (first, second, bytes, before, at', at, is). subst (Memᴰ e) (sym listed) (
          found.1
            (second, bytes, at, (mem-pairs_at modules second bytes e).1 (first, before, at', is))),
    )

pub ltb_iff : (a b : ℕ) → (ltb a b ≡ true) ↔ (a < b)
ltb_iff a b = ground arith

pub is_empty_iff : {A : Type 0} (xs : List A) → (is_empty xs ≡ true) ↔ (xs ≡ [])
is_empty_iff [] = (λ h. refl, λ h. refl)
is_empty_iff (x ∷ xs) = (λ h. cc, λ h. cc)

mem-module_errors :
    (limit index : ℕ) (bytes : Bytes) (e : VerificationError)
    → Memᴰ e (module_errors limit index bytes) ↔ (
        ((bytes ≡ []) × (e ≡ empty_module index))
        ⊎ ((limit < length bytes) × (e ≡ module_too_large index limit (length bytes))))
unfolding module_errors
mem-module_errors limit index bytes e =
    let empty = mem-push_if (is_empty bytes) (empty_module index) e in
    let large =
      mem-push_if (ltb limit (length bytes)) (module_too_large index limit (length bytes)) e in
    (
      λ m. elim (Memᴰ.append_cases (push_if (is_empty bytes) (empty_module index)) m) [
        | inl h ↦ inl ((is_empty_iff bytes).0 (empty.0 h).0, (empty.0 h).1)
        | inr h ↦ inr ((ltb_iff limit (length bytes)).0 (large.0 h).0, (large.0 h).1)
      ],
      λ s. elim s [
        | inl h ↦ Memᴰ.append_left _ (empty.1 ((is_empty_iff bytes).1 h.0, h.1))
        | inr h ↦
            Memᴰ.append_right (push_if (is_empty bytes) (empty_module index))
              (large.1 ((ltb_iff limit (length bytes)).1 h.0, h.1))
      ],
    )

pub mem-each_module_errors :
    (limit : ℕ) (modules : List Bytes) (e : VerificationError)
    → Memᴰ e (each_module_errors limit 0 modules) ↔ (
        (index : ℕ) × (bytes : Bytes) × (get_elem? modules index ≡ some bytes)
        × (((bytes ≡ []) × (e ≡ empty_module index))
            ⊎ ((limit < length bytes) × (e ≡ module_too_large index limit (length bytes)))))
mem-each_module_errors limit modules e =
    let listed = each_module_errors-enumerate limit 0 modules in
    let found = mem-enumerate_all (module_errors limit) modules e in
    (
      λ m.
          let (index, bytes, at, pushed) = found.0 (subst (Memᴰ e) listed m) in
          (index, bytes, at, (mem-module_errors limit index bytes e).0 pushed),
      λ (index, bytes, at, is).
          subst (Memᴰ e) (sym listed)
            (found.1 (index, bytes, at, (mem-module_errors limit index bytes e).1 is)),
    )
