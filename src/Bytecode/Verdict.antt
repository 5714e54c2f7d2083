-- ===== src/Bytecode/Verdict.antt =====
-- When a bundle passes: the checks against a description of a well-formed bundle.
use nexus_move.Prelude.{
  ℕ, ◌+◌, ◌≤◌, ◌≡◌, ◌≢◌, ◌↔◌, refl, Bool, Result, true, false, inl, inr, List, [], ◌∷◌, ◌++◌, ltb,
  arith, length, is_empty, total_length, All, Bytes, bytes_eq, bytes_eq_iff, ok, err, if◌then◌else◌,
  Bool-cases,
}
use nexus_move.Bytecode.{
  StructuralLimits, BytecodePolicy, VerificationError, empty_module_set, too_many_modules,
  total_size_too_large, push_if, module_errors, each_module_errors, duplicates_of, duplicate_errors,
  bundle_errors, verify_publish_bundle,
}

-- A module that the limits allow.
abbrev pub IsAllowed : ℕ → Bytes → Type 0
IsAllowed limit bytes = (bytes ≢ []) × (length bytes ≤ limit)

-- No module is equal to one before it.
abbrev pub AllDistinct : List Bytes → Type 0
AllDistinct [] = Unit
AllDistinct (bytes ∷ rest) = All (λ other. bytes ≢ other) rest × AllDistinct rest

pub record IsWellFormed (limits : StructuralLimits) (modules : List Bytes) : Type 0 where
  pub nonempty : modules ≢ []
  pub count : length modules ≤ limits.max_module_count
  pub total : total_length modules ≤ limits.max_total_size
  pub each : All (IsAllowed limits.max_module_size) modules
  pub distinct : AllDistinct modules

append-eq-nil : {A : Type 0} (xs ys : List A) → (xs ++ ys ≡ []) ↔ ((xs ≡ []) × (ys ≡ []))
append-eq-nil [] ys = (λ h. (refl, h), λ h. h.1)
append-eq-nil (x ∷ xs) ys = (λ h. cc, λ h. cc)

module_errors_nil :
    (limit index : ℕ) (bytes : Bytes)
    → (module_errors limit index bytes ≡ []) ↔ IsAllowed limit bytes
unfolding module_errors
module_errors_nil limit index [] = (λ h. cc, λ h. absurd (h.0 refl))
module_errors_nil limit index (b ∷ bytes) = (λ h. ((λ e. cc), ground arith), λ h. ground arith)

each_module_errors_nil :
    (limit index : ℕ) (modules : List Bytes)
    → (each_module_errors limit index modules ≡ []) ↔ All (IsAllowed limit) modules
unfolding each_module_errors
each_module_errors_nil limit index [] = (λ h. tt, λ h. refl)
each_module_errors_nil limit index (bytes ∷ modules) =
    let split =
      append-eq-nil (module_errors limit index bytes)
        (each_module_errors limit (index + 1) modules) in
    let one = module_errors_nil limit index bytes in
    let rest = each_module_errors_nil limit (index + 1) modules in
    (λ h. (one.0 (split.0 h).0, rest.0 (split.0 h).1), λ h. split.1 (one.1 h.0, rest.1 h.1))

duplicates_of_nil :
    (first second : ℕ) (bytes : Bytes) (seen : List Bytes)
    → (duplicates_of first second bytes seen ≡ []) ↔ All (λ earlier. earlier ≢ bytes) seen
unfolding duplicates_of
duplicates_of_nil first second bytes [] = (λ h. tt, λ h. refl)
duplicates_of_nil first second bytes (earlier ∷ seen) =
    let rest = duplicates_of_nil (first + 1) second bytes seen in
    let same = bytes_eq_iff earlier bytes in
    elim (Bool-cases (bytes_eq earlier bytes)) [
      | inl e ↦ (λ h. cc (h, e), λ h. absurd (h.0 (same.0 e)))
      | inr e ↦ (λ h. ((λ q. cc (same.1 q, e)), rest.0 (rw e at h)), λ h. rw e (rest.1 h.1))
    ]

-- No module of `rest` is equal to one of `seen`, or to one before it.
abbrev Separated : List Bytes → List Bytes → Type 0
Separated seen rest = All (λ s. All (λ r. s ≢ r) rest) seen × AllDistinct rest

All-append_one :
    {A : Type 0} (P : A → Type 0) (xs : List A) (x : A) → All P (xs ++ x ∷ []) ↔ (All P xs × P x)
All-append_one P [] x = (λ h. (tt, h.0), λ h. (h.1, tt))
All-append_one P (y ∷ xs) x =
    let rest = All-append_one P xs x in
    (λ h. ((h.0, (rest.0 h.1).0), (rest.0 h.1).1), λ h. (h.0.0, rest.1 (h.0.1, h.1)))

All-zip :
    {A : Type 0} (P Q : A → Type 0) (xs : List A) → All (λ x. P x × Q x) xs ↔ (All P xs × All Q xs)
All-zip P Q [] = (λ h. (tt, tt), λ h. tt)
All-zip P Q (x ∷ xs) =
    let rest = All-zip P Q xs in
    (
      λ h. ((h.0.0, (rest.0 h.1).0), (h.0.1, (rest.0 h.1).1)),
      λ h. ((h.0.0, h.1.0), rest.1 (h.0.1, h.1.1)),
    )

All-unit : {A : Type 0} (xs : List A) → All {0, 0} (λ x. Unit) xs
All-unit [] = tt
All-unit (x ∷ xs) = (tt, All-unit xs)

duplicate_errors_nil :
    (seen rest : List Bytes) → (duplicate_errors seen rest ≡ []) ↔ Separated seen rest
unfolding duplicate_errors
duplicate_errors_nil seen [] = (λ h. (All-unit seen, tt), λ h. refl)
duplicate_errors_nil seen (bytes ∷ rest) =
    let split =
      append-eq-nil (duplicates_of 0 (length seen) bytes seen)
        (duplicate_errors (seen ++ bytes ∷ []) rest) in
    let here = duplicates_of_nil 0 (length seen) bytes seen in
    let later = duplicate_errors_nil (seen ++ bytes ∷ []) rest in
    let one = All-append_one (λ s. All (λ r. s ≢ r) rest) seen bytes in
    let zip = All-zip (λ s. s ≢ bytes) (λ s. All (λ r. s ≢ r) rest) seen in
    (
      λ h.
          let parts = split.0 h in
          let (old, distinct) = later.0 parts.1 in
          let (old', new) = one.0 old in (zip.1 (here.0 parts.0, old'), (new, distinct)),
      λ h. let (a, b) = zip.0 h.0 in split.1 (here.1 a, later.1 (one.1 (b, h.1.0), h.1.1)),
    )

five_nil :
    {A : Type 0} (a b c d e : List A)
    → (a ++ (b ++ (c ++ (d ++ e))) ≡ []) ↔ ((a ≡ []) × (b ≡ []) × (c ≡ []) × (d ≡ []) × (e ≡ []))
five_nil [] [] [] d e =
    let split = append-eq-nil d e in
    (λ h. (refl, refl, refl, (split.0 h).0, (split.0 h).1), λ h. split.1 (h.3, h.4))
five_nil (x ∷ a) b c d e = (λ h. cc, λ h. cc)
five_nil [] (x ∷ b) c d e = (λ h. cc, λ h. cc)
five_nil [] [] (x ∷ c) d e = (λ h. cc, λ h. cc)

push_if_nil : (c : Bool) (e : VerificationError) → (push_if c e ≡ []) ↔ (c ≡ false)
push_if_nil c e = ground arith

is_empty-false : (modules : List Bytes) → (is_empty modules ≡ false) ↔ (modules ≢ [])
is_empty-false [] = (λ h. cc, λ h. absurd (h refl))
is_empty-false (x ∷ modules) = (λ h e. cc, λ h. refl)

ltb-false : (a b : ℕ) → (ltb a b ≡ false) ↔ (b ≤ a)
ltb-false a b = ground arith

bundle_errors_nil :
    (modules : List Bytes) (limits : StructuralLimits)
    → (bundle_errors modules limits ≡ []) ↔ IsWellFormed limits modules
unfolding bundle_errors
bundle_errors_nil modules limits =
    let count = length modules in
    let total = total_length modules in
    let five =
      five_nil (push_if (is_empty modules) empty_module_set)
        (push_if (ltb limits.max_module_count count)
          (too_many_modules limits.max_module_count count))
        (push_if (ltb limits.max_total_size total)
          (total_size_too_large limits.max_total_size total))
        (each_module_errors limits.max_module_size 0 modules) (duplicate_errors [] modules) in
    let empty = is_empty-false modules in
    let each = each_module_errors_nil limits.max_module_size 0 modules in
    let distinct = duplicate_errors_nil [] modules in
    (
      λ h.
          let parts = five.0 h in
          record {
            nonempty = empty.0 ((push_if_nil _ _).0 parts.0);
            count = (ltb-false _ _).0 ((push_if_nil _ _).0 parts.1);
            total = (ltb-false _ _).0 ((push_if_nil _ _).0 parts.2);
            each = each.0 parts.3;
            distinct = (distinct.0 parts.4).1;
          },
      λ w. five.1 (
        (push_if_nil _ _).1 (empty.1 w.nonempty),
        (push_if_nil _ _).1 ((ltb-false _ _).1 w.count),
        (push_if_nil _ _).1 ((ltb-false _ _).1 w.total),
        each.1 w.each,
        distinct.1 (tt, w.distinct),
      ),
    )

verdict_ok :
    (errors : List VerificationError)
    → ◌≡◌ {A = Result (List VerificationError) (Unit {0})}
        (if is_empty errors then ok tt else err errors)
        (ok tt)
      ↔ (errors ≡ [])
verdict_ok [] = (λ h. refl, λ h. refl)
verdict_ok (e ∷ errors) = (λ h. cc, λ h. cc)

-- With the structural verifier on, a bundle passes exactly when it is well formed: one module at
-- least, no more modules and bytes than the limits, each module with bytes and within its own
-- limit, and no two modules equal.
pub verify_publish_bundle_iff :
    (modules : List Bytes) (policy : BytecodePolicy)
    → policy.structural_verifier_enabled ≡ true
    → (verify_publish_bundle modules policy ≡ ok tt) ↔ IsWellFormed policy.limits modules
unfolding verify_publish_bundle
verify_publish_bundle_iff modules policy h =
    let passes = verdict_ok (bundle_errors modules policy.limits) in
    let clean = bundle_errors_nil modules policy.limits in
    (λ e. clean.0 (passes.0 (rw h at e)), λ w. rw h (passes.1 (clean.1 w)))
