-- ===== src/Runtime/Backend/Dependencies.antt =====
-- The dependencies of a module that is published: `dependency_must_exist` and the loop over
-- `immediate_dependencies` of crates/nexus-move-runtime/src/vm_backend.rs.
use mathlib.Core.Logic.{⊎_map}
use nexus_move.Prelude.{
  ◌≡◌, ◌↔◌, ◌⊎◌, refl, Bool, true, false, not, ◌&&◌, List, [], ◌∷◌, inl, inr, if◌then◌else◌, All,
  Bytes, bytes_eq, bytes_eq_iff, bytes_ne, Bool-cases, Result, ok, err, panic, map_err, ◌>>=◌,
}
use nexus_move.Types.{AccountAddress}
use nexus_move.Stdlib.{framework_address_bytes}
use nexus_move.Runtime.Data.{VmError, VmResult}
use nexus_move.Runtime.Gas.{GasSchedule}
use nexus_move.Runtime.Backend.{MoveEnv, NexusMoveStorage, dependency_must_exist}
use nexus_move.Runtime.Backend.Publish.{check_dependencies}

true_ne_false : true ≡ false → ⊥
true_ne_false h = cc

dependency_may_miss :
    (a sender : AccountAddress)
    → (dependency_must_exist a sender ≡ false) ↔ ((a ≡ sender) ⊎ (a ≡ framework_address_bytes))
unfolding dependency_must_exist
dependency_may_miss a sender = elim (Bool-cases (bytes_eq a sender)) [
  | inl e ↦ (λ h. inl ((bytes_eq_iff a sender).0 e), λ h. rw e refl)
  | inr e ↦ elim (Bool-cases (bytes_eq a framework_address_bytes)) [
    | inl f ↦ (λ h. inr ((bytes_eq_iff a framework_address_bytes).0 f), λ h. rw (e, f) refl)
    | inr f ↦ (λ h. absurd (true_ne_false (rw (e, f) at h)), neither e f)
  ]
]
  where
    neither :
        bytes_eq a sender ≡ false
        → bytes_eq a framework_address_bytes ≡ false
        → (a ≡ sender) ⊎ (a ≡ framework_address_bytes)
        → (not (bytes_eq a sender) && not (bytes_eq a framework_address_bytes)) ≡ false
    neither e f (inl same) = absurd (bytes_ne a sender e same)
    neither e f (inr same) = absurd (bytes_ne a framework_address_bytes f same)

not_missing :
    (x : Bool) → ◌≡◌ {A = Result Bytes Bool} (ok false) (ok x) → (x ≡ true) ⊎ (true ≡ false) → ⊥
not_missing x is (inl e) = cc
not_missing x is (inr e) = cc

-- One turn of the loop over the dependencies, from its parts.
one_dependency :
    (f : Bytes → VmError) (r : Result Bytes Bool) (must : Bool) (e : VmError)
    (rest : VmResult (Unit {0}))
    → ((map_err f r >>= λ x. if not x && must then err e else rest) ≡ ok tt)
      ↔ ((x : Bool) × (r ≡ ok x) × ((x ≡ true) ⊎ (must ≡ false)) × (rest ≡ ok tt))
one_dependency f panic must e rest = (λ h. cc, λ h. cc)
one_dependency f (err s) must e rest = (λ h. cc, λ h. cc)
one_dependency f (ok true) must e rest = (λ h. (true, refl, inl refl, h), λ h. h.3)
one_dependency f (ok false) true e rest = (λ h. cc, λ h. absurd (not_missing h.0 h.1 h.2))
one_dependency f (ok false) false e rest = (λ h. (false, refl, inr refl, h), λ h. h.3)

module _ (env : MoveEnv) (schedule : GasSchedule) (storage : NexusMoveStorage)
    (sender : AccountAddress) where
  -- A dependency is there, or is the sender's own or the framework's.
  abbrev pub IsMet : AccountAddress × Bytes → Type 0
  IsMet dep =
      (present : Bool) × (env.check_module_exists storage dep.0 dep.1 ≡ ok present)
      × ((present ≡ true) ⊎ ((dep.0 ≡ sender) ⊎ (dep.0 ≡ framework_address_bytes)))

  pub check_dependencies_iff :
      (deps : List (AccountAddress × Bytes))
      → (check_dependencies env schedule storage sender deps ≡ ok tt) ↔ All IsMet deps
  unfolding check_dependencies
  check_dependencies_iff [] = (λ h. tt, λ h. refl)
  check_dependencies_iff (dep ∷ deps) =
      let rest = check_dependencies_iff deps in
      let one =
        one_dependency _ (env.check_module_exists storage dep.0 dep.1)
          (dependency_must_exist dep.0 sender) _
          (check_dependencies env schedule storage sender deps) in
      let may = dependency_may_miss dep.0 sender in
      (
        λ h.
            let (x, found, is, others) = one.0 h in
            ((x, found, ⊎_map (λ e. e) may.0 is), rest.0 others),
        λ h.
            let ((x, found, is), others) = h in
            one.1 (x, found, ⊎_map (λ e. e) may.1 is, rest.1 others),
      )
