-- ===== src/Bytecode/Reports.antt =====
-- Which errors are reported of a bundle that does not pass.
use mathlib.Core.List.{Memᴰ}
use mathlib.Core.List.Memᴰ
use mathlib.Core.Path.{subst}
use nexus_move.Prelude.{
  ℕ, ◌≡◌, ◌<◌, ◌↔◌, ◌⊎◌, refl, sym, ap, ◌∙◌, inl, inr, some, List, [], ◌∷◌, ◌++◌, ltb, arith,
  length, is_empty, total_length, get_elem?, Bytes, Result, ok, err, if◌then◌else◌, Bool-cases,
}
use nexus_move.Bytecode.{
  StructuralLimits, BytecodePolicy, VerificationError, empty_module_set, empty_module,
  too_many_modules, module_too_large, total_size_too_large, duplicate_module_bytes, push_if,
  each_module_errors, duplicate_errors, bundle_errors, verify_publish_bundle,
}
use nexus_move.Bytecode.Loops.{
  mem-push_if, mem-each_module_errors, mem-duplicate_errors, ltb_iff, is_empty_iff,
}

-- What an error says of a bundle.
abbrev pub IsTrueOf : StructuralLimits → List Bytes → VerificationError → Type 0
IsTrueOf limits modules empty_module_set = modules ≡ []
IsTrueOf limits modules (empty_module index) = get_elem? modules index ≡ some []
IsTrueOf limits modules (too_many_modules limit got) =
    (limit ≡ limits.max_module_count) × (got ≡ length modules) × (limit < got)
IsTrueOf limits modules (module_too_large index limit got) =
    (limit ≡ limits.max_module_size)
    × (limit < got)
    × ((bytes : Bytes) × (get_elem? modules index ≡ some bytes) × (got ≡ length bytes))
IsTrueOf limits modules (total_size_too_large limit got) =
    (limit ≡ limits.max_total_size) × (got ≡ total_length modules) × (limit < got)
IsTrueOf limits modules (duplicate_module_bytes first second) =
    (first < second)
    × ((bytes : Bytes) × (get_elem? modules first ≡ some bytes)
        × (get_elem? modules second ≡ some bytes))

mem-append_five :
    {A : Type 0} (x : A) (a b c d e : List A)
    → Memᴰ x (a ++ (b ++ (c ++ (d ++ e))))
      ↔ (Memᴰ x a ⊎ (Memᴰ x b ⊎ (Memᴰ x c ⊎ (Memᴰ x d ⊎ Memᴰ x e))))
mem-append_five x a b c d e = (
  λ m. elim (Memᴰ.append_cases a m) [
    | inl h ↦ inl h
    | inr m₂ ↦ inr (elim (Memᴰ.append_cases b m₂) [
      | inl h ↦ inl h
      | inr m₃ ↦
          inr (elim (Memᴰ.append_cases c m₃) [
            | inl h ↦ inl h
            | inr m₄ ↦ inr (Memᴰ.append_cases d m₄)
          ])
    ])
  ],
  λ s. elim s [
    | inl h ↦ Memᴰ.append_left (b ++ (c ++ (d ++ e))) h
    | inr (inl h) ↦ Memᴰ.append_right a (Memᴰ.append_left (c ++ (d ++ e)) h)
    | inr (inr (inl h)) ↦ Memᴰ.append_right a (Memᴰ.append_right b (Memᴰ.append_left (d ++ e) h))
    | inr (inr (inr (inl h))) ↦
        Memᴰ.append_right a (Memᴰ.append_right b (Memᴰ.append_right c (Memᴰ.append_left e h)))
    | inr (inr (inr (inr h))) ↦
        Memᴰ.append_right a (Memᴰ.append_right b (Memᴰ.append_right c (Memᴰ.append_right d h)))
  ],
)

module _ (modules : List Bytes) (limits : StructuralLimits) where
  module_report :
      (index : ℕ) (bytes : Bytes) (e : VerificationError)
      → get_elem? modules index ≡ some bytes
      → ((bytes ≡ []) × (e ≡ empty_module index))
        ⊎ ((limits.max_module_size < length bytes)
            × (e ≡ module_too_large index limits.max_module_size (length bytes)))
      → IsTrueOf limits modules e
  module_report index bytes e at (inl (empty, is)) =
      subst (IsTrueOf limits modules) (sym is) (at ∙ ap some empty)
  module_report index bytes e at (inr (large, is)) =
      subst (IsTrueOf limits modules) (sym is) (refl, large, (bytes, at, refl))

  -- The five parts of the list of errors.
  mem-bundle_errors :
      (e : VerificationError)
      → Memᴰ e (bundle_errors modules limits) ↔ (
          Memᴰ e (push_if (is_empty modules) empty_module_set)
          ⊎ (Memᴰ e (
                push_if
                  (ltb limits.max_module_count (length modules))
                  (too_many_modules limits.max_module_count (length modules)))
              ⊎ (Memᴰ e (
                    push_if
                      (ltb limits.max_total_size (total_length modules))
                      (total_size_too_large limits.max_total_size (total_length modules)))
                  ⊎ (Memᴰ e (each_module_errors limits.max_module_size 0 modules)
                      ⊎ Memᴰ e (duplicate_errors [] modules)))))
  unfolding bundle_errors
  mem-bundle_errors e = mem-append_five e _ _ _ _ _

  limit_report :
      (limit got : ℕ) (x e : VerificationError)
      → (limit < got → IsTrueOf limits modules x)
      → Memᴰ e (push_if (ltb limit got) x)
      → IsTrueOf limits modules e
  limit_report limit got x e holds m =
      let (over, is) = (mem-push_if (ltb limit got) x e).0 m in
      subst (IsTrueOf limits modules) (sym is) (holds ((ltb_iff limit got).0 over))

  reported_true :
      (e : VerificationError) → Memᴰ e (bundle_errors modules limits) → IsTrueOf limits modules e
  reported_true e m = elim ((mem-bundle_errors e).0 m) [
    | inl h ↦
        let (c, is) = (mem-push_if (is_empty modules) empty_module_set e).0 h in
        subst (IsTrueOf limits modules) (sym is) ((is_empty_iff modules).0 c)
    | inr (inl h) ↦ limit_report _ _ _ e (λ over. (refl, refl, over)) h
    | inr (inr (inl h)) ↦ limit_report _ _ _ e (λ over. (refl, refl, over)) h
    | inr (inr (inr (inl h))) ↦
        let (index, bytes, at, is) =
          (mem-each_module_errors limits.max_module_size modules e).0 h in
        module_report index bytes e at is
    | inr (inr (inr (inr h))) ↦
        let (first, second, bytes, before, at, at', is) = (mem-duplicate_errors modules e).0 h in
        subst (IsTrueOf limits modules) (sym is) (before, (bytes, at, at'))
  ]

  true_reported :
      (e : VerificationError) → IsTrueOf limits modules e → Memᴰ e (bundle_errors modules limits)
  true_reported empty_module_set h =
      (mem-bundle_errors empty_module_set).1
        (inl ((mem-push_if _ _ _).1 ((is_empty_iff modules).1 h, refl)))
  true_reported (too_many_modules limit got) (is, is', over) =
      (mem-bundle_errors (too_many_modules limit got)).1
        (inr (inl ((mem-push_if _ _ _).1 ((ltb_iff _ _).1 (omega arith), cc (is, is')))))
  true_reported (total_size_too_large limit got) (is, is', over) =
      (mem-bundle_errors (total_size_too_large limit got)).1
        (inr (inr (inl ((mem-push_if _ _ _).1 ((ltb_iff _ _).1 (omega arith), cc (is, is'))))))
  true_reported (empty_module index) at = (mem-bundle_errors (empty_module index)).1 (
      inr (
        inr (
          inr (
            inl (
              (mem-each_module_errors limits.max_module_size modules (empty_module index)).1
                (index, [], at, inl (refl, refl)))))))
  true_reported (module_too_large index limit got) (is, over, (bytes, at, is')) =
      (mem-bundle_errors (module_too_large index limit got)).1 (
        inr (
          inr (
            inr (
              inl (
                (mem-each_module_errors limits.max_module_size modules
                    (module_too_large index limit got)).1
                  (index, bytes, at, inr (omega arith, cc (is, is'))))))))
  true_reported (duplicate_module_bytes first second) (before, (bytes, at, at')) =
      (mem-bundle_errors (duplicate_module_bytes first second)).1 (
        inr (
          inr (
            inr (
              inr (
                (mem-duplicate_errors modules (duplicate_module_bytes first second)).1
                  (first, second, bytes, before, at, at', refl))))))

verdict_err :
    (found errors : List VerificationError)
    → ◌≡◌ {A = Result (List VerificationError) (Unit {0})}
        (if is_empty found then ok tt else err found)
        (err errors)
    → found ≡ errors
verdict_err [] errors h = cc
verdict_err (e ∷ found) errors h = cc

passes_not :
    {errors : List VerificationError}
    → ◌≡◌ {A = Result (List VerificationError) (Unit {0})} (ok tt) (err errors)
    → ⊥
passes_not h = cc

-- The errors of a bundle that does not pass are exactly those that are true of it: there is no
-- module; a module has no bytes, at its index; there are more modules, or more bytes in all, than
-- the limit, with the limit and the number; a module has more bytes than its limit, at its index;
-- two modules are equal, at their indices, the first first.
pub verify_publish_bundle_reports :
    (modules : List Bytes) (policy : BytecodePolicy) (errors : List VerificationError)
    (e : VerificationError)
    → verify_publish_bundle modules policy ≡ err errors
    → Memᴰ e errors ↔ IsTrueOf policy.limits modules e
unfolding verify_publish_bundle
verify_publish_bundle_reports modules policy errors e h =
    elim (Bool-cases policy.structural_verifier_enabled) [
      | inl on ↦
          let same = verdict_err (bundle_errors modules policy.limits) errors (rw on at h) in
          (
            λ m. reported_true modules policy.limits e (subst (Memᴰ e) (sym same) m),
            λ t. subst (Memᴰ e) same (true_reported modules policy.limits e t),
          )
      | inr off ↦ absurd (passes_not (rw off at h))
    ]
