-- ===== src/Bytecode.antt =====
-- crates/nexus-move-bytecode/src/lib.rs: the structural checks of a bundle of modules.
pub mod Verdict
pub mod Loops
pub mod Reports
mod Tests
use nexus_move.Prelude.{
  ℕ, zero, suc, ◌+◌, ◌*◌, Bool, true, false, List, [], ◌∷◌, ◌++◌, ltb, if◌then◌else◌, length,
  is_empty, total_length, Bytes, bytes_eq, Result, ok, err,
}

pub record StructuralLimits : Type 0 where
  pub max_module_count : ℕ
  pub max_module_size : ℕ
  pub max_total_size : ℕ

-- `StructuralLimits::default`
abbrev pub default_limits : StructuralLimits
default_limits = record {
  max_module_count = 64;
  max_module_size = 512 * 1024;
  max_total_size = 2 * 1024 * 1024;
}

pub record BytecodePolicy : Type 0 where
  pub structural_verifier_enabled : Bool
  pub semantic_verifier_enabled : Bool
  pub limits : StructuralLimits

-- `BytecodePolicy::bootstrap`
abbrev pub bootstrap_policy : BytecodePolicy
bootstrap_policy = record {
  structural_verifier_enabled = true;
  semantic_verifier_enabled = false;
  limits = default_limits;
}

pub data VerificationError : Type 0 where
  empty_module_set : VerificationError
  empty_module : ℕ → VerificationError
  too_many_modules : ℕ → ℕ → VerificationError
  module_too_large : ℕ → ℕ → ℕ → VerificationError
  total_size_too_large : ℕ → ℕ → VerificationError
  duplicate_module_bytes : ℕ → ℕ → VerificationError

-- `if c { errors.push(e) }`, as the errors that it adds
abbrev pub push_if : Bool → VerificationError → List VerificationError
push_if c e = if c then e ∷ [] else []

-- The body of the loop over `modules.iter().enumerate()`.
unfoldable pub module_errors : ℕ → ℕ → Bytes → List VerificationError
module_errors limit index bytes =
    push_if (is_empty bytes) (empty_module index)
    ++ push_if (ltb limit (length bytes)) (module_too_large index limit (length bytes))

unfoldable pub each_module_errors : ℕ → ℕ → List Bytes → List VerificationError
each_module_errors limit index [] = []
each_module_errors limit index (bytes ∷ modules) =
    module_errors limit index bytes ++ each_module_errors limit (index + 1) modules

-- The inner loop, `for first in 0..second`: `seen` holds `modules[first..second]`.
unfoldable pub duplicates_of : ℕ → ℕ → Bytes → List Bytes → List VerificationError
duplicates_of first second bytes [] = []
duplicates_of first second bytes (earlier ∷ seen) =
    push_if (bytes_eq earlier bytes) (duplicate_module_bytes first second)
    ++ duplicates_of (first + 1) second bytes seen

-- The outer loop, `for second in 0..modules.len()`: `seen` holds `modules[..second]`.
unfoldable pub duplicate_errors : List Bytes → List Bytes → List VerificationError
duplicate_errors seen [] = []
duplicate_errors seen (bytes ∷ rest) =
    duplicates_of 0 (length seen) bytes seen ++ duplicate_errors (seen ++ bytes ∷ []) rest

unfoldable pub bundle_errors : List Bytes → StructuralLimits → List VerificationError
unfolding module_errors each_module_errors duplicates_of duplicate_errors
bundle_errors modules limits =
    push_if (is_empty modules) empty_module_set
    ++ (push_if (ltb limits.max_module_count (length modules))
          (too_many_modules limits.max_module_count (length modules))
        ++ (push_if (ltb limits.max_total_size (total_length modules))
              (total_size_too_large limits.max_total_size (total_length modules))
            ++ (each_module_errors limits.max_module_size 0 modules
                ++ duplicate_errors [] modules)))

unfoldable pub verify_publish_bundle :
    List Bytes → BytecodePolicy → Result (List VerificationError) (Unit {0})
unfolding bundle_errors
verify_publish_bundle modules policy =
    if policy.structural_verifier_enabled
    then (let errors = bundle_errors modules policy.limits in
        if is_empty errors then ok tt else err errors)
    else ok tt
