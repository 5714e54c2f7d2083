-- ===== src/Bytecode/Tests.antt =====
-- The structural verifier on small bundles.
use mathlib.Core.List.{Memᴰ}
use nexus_move.Prelude.{◌≡◌, ◌↔◌, refl, List, [], ◌∷◌, Bytes, ok, err}
use nexus_move.Bytecode.{
  bootstrap_policy, default_limits, verify_publish_bundle, bundle_errors, empty_module,
  duplicate_module_bytes,
}
use nexus_move.Bytecode.Reports.{IsTrueOf, verify_publish_bundle_reports}
use nexus_move.Bytecode.Verdict.{IsWellFormed, verify_publish_bundle_iff}

abbrev bundle : List Bytes
bundle = (1 ∷ 2 ∷ []) ∷ (3 ∷ []) ∷ []

reports_in_order :
    verify_publish_bundle ([] ∷ (3 ∷ []) ∷ [] ∷ []) bootstrap_policy
    ≡ err (empty_module 0 ∷ empty_module 2 ∷ duplicate_module_bytes 0 2 ∷ [])
unfolding verify_publish_bundle bundle_errors
reports_in_order = refl

verify_publish_bundle_iff_example :
    (verify_publish_bundle bundle bootstrap_policy ≡ ok tt) ↔ IsWellFormed default_limits bundle
verify_publish_bundle_iff_example = verify_publish_bundle_iff bundle bootstrap_policy refl

verify_publish_bundle_reports_example :
    Memᴰ
      (duplicate_module_bytes 0 2)
      (empty_module 0 ∷ empty_module 2 ∷ duplicate_module_bytes 0 2 ∷ [])
    ↔ IsTrueOf default_limits ([] ∷ (3 ∷ []) ∷ [] ∷ []) (duplicate_module_bytes 0 2)
verify_publish_bundle_reports_example =
    verify_publish_bundle_reports ([] ∷ (3 ∷ []) ∷ [] ∷ []) bootstrap_policy
      (empty_module 0 ∷ empty_module 2 ∷ duplicate_module_bytes 0 2 ∷ [])
      (duplicate_module_bytes 0 2) reports_in_order
