-- ===== src/Runtime/Publisher/Laws.antt =====
-- The outcomes of a publication, and what the store holds after one.
use nexus_move.Prelude.{
  ℕ, ◌≤◌, ◌<◌, ◌≡◌, ◌≢◌, ◌⊎◌, refl, ◌∙◌, arith, false, none, List, [], inl, inr, Bool-cases,
  Option-cases, ◌==◌, Bytes, ascii, Result, ok, err, panic,
}
use nexus_move.Types.{AccountAddress, HashValue}
use nexus_move.Bytecode.{VerificationError, default_limits, bootstrap_policy, verify_publish_bundle}
use nexus_move.Bytecode.Verdict.{IsWellFormed, verify_publish_bundle_iff}
use nexus_move.Runtime.Changes.{Store, Reads}
use nexus_move.Runtime.Config.{VmConfig}
use nexus_move.Runtime.Data.{
  success, move_abort, out_of_gas, PublishOutcome, verification, VmResult, without_effects,
}
use nexus_move.Runtime.Publisher.{
  publish_writes, bundle_address, publish_at, publish_estimate, is_over_limit,
  publish_verified_modules,
}
use nexus_move.Runtime.State.{NexusStateView, is_some, has_module, module_code_key_bytes}

pub has_module-Reads :
    (view : NexusStateView) (st : Store) (a : AccountAddress)
    → Reads view st
    → has_module view a ≡ ok (is_some (st (a, module_code_key_bytes)))
unfolding has_module
has_module-Reads view st a reads = rw (reads a module_code_key_bytes)

pub verified_ok :
    (modules : List Bytes)
    → IsWellFormed default_limits modules
    → verify_publish_bundle modules bootstrap_policy ≡ ok tt
verified_ok modules w = (verify_publish_bundle_iff modules bootstrap_policy refl).1 w

verify_never_panics :
    (modules : List Bytes) → verify_publish_bundle modules bootstrap_policy ≢ panic
unfolding verify_publish_bundle
verify_never_panics modules h = ground arith

within_limit :
    (gas_limit estimated : ℕ)
    → is_over_limit gas_limit estimated ≡ false
    → (gas_limit ≡ 0) ⊎ (estimated < gas_limit)
within_limit gas_limit estimated h = elim (Bool-cases (gas_limit == 0)) [
  | inl e ↦ inl (ground arith)
  | inr e ↦ inr (ground arith)
]

module _ (blake3 : Bytes → HashValue) (view : NexusStateView) (st : Store) (reads : Reads view st)
    (sender : AccountAddress) (modules : List Bytes) (gas_limit : ℕ) (config : VmConfig) where
  abbrev pub address : AccountAddress
  address = bundle_address blake3 sender modules

  abbrev pub outcome : VmResult PublishOutcome
  outcome = publish_verified_modules blake3 view sender modules gas_limit config

  pub publish_well_formed :
      IsWellFormed default_limits modules
      → outcome
        ≡ ok (
            publish_at blake3 address sender modules gas_limit config
              (is_some (st (address, module_code_key_bytes))))
  unfolding publish_verified_modules
  publish_well_formed w = rw (verified_ok modules w, has_module-Reads view st address reads)

  -- What a publication returns, by its status.
  pub record Rejected : Type 0 where
    pub ill_formed : ¬ IsWellFormed default_limits modules
    pub errors : List VerificationError
    pub result : outcome ≡ err (verification errors)

  pub record AlreadyPublished : Type 0 where
    pub well_formed : IsWellFormed default_limits modules
    pub present : st (address, module_code_key_bytes) ≢ none
    pub result :
        outcome
        ≡ ok (record {
          vm_output =
              without_effects (move_abort (ascii "nexus::publish") 20) config.publish_base_gas;
          contract_address = address;
        })

  pub record OutOfGas : Type 0 where
    pub well_formed : IsWellFormed default_limits modules
    pub absent : st (address, module_code_key_bytes) ≡ none
    pub limited : gas_limit ≢ 0
    pub over : gas_limit ≤ publish_estimate config modules
    pub result :
        outcome
        ≡ ok (record {
          vm_output = without_effects out_of_gas gas_limit;
          contract_address = address;
        })

  pub record Published : Type 0 where
    pub well_formed : IsWellFormed default_limits modules
    pub absent : st (address, module_code_key_bytes) ≡ none
    pub paid : (gas_limit ≡ 0) ⊎ (publish_estimate config modules < gas_limit)
    pub result :
        outcome
        ≡ ok (record {
          vm_output = record {
            status = success;
            gas_used = publish_estimate config modules;
            state_changes = (publish_writes blake3 address sender modules).1;
            write_set = (publish_writes blake3 address sender modules).0;
            events = [];
            return_values = [];
          };
          contract_address = address;
        })

  publish_fresh :
      IsWellFormed default_limits modules
      → st (address, module_code_key_bytes) ≡ none
      → OutOfGas ⊎ Published
  publish_fresh w absent =
      elim (Bool-cases (is_over_limit gas_limit (publish_estimate config modules))) [
        | inl e ↦ inl (record {
          well_formed = w;
          absent = absent;
          limited = ground arith;
          over = ground arith;
          result = publish_well_formed w ∙ unfold publish_at in rw (absent, e);
        })
        | inr e ↦ inr (record {
          well_formed = w;
          absent = absent;
          paid = within_limit gas_limit (publish_estimate config modules) e;
          result = publish_well_formed w ∙ unfold publish_at in rw (absent, e);
        })
      ]

  publish_found : IsWellFormed default_limits modules → AlreadyPublished ⊎ (OutOfGas ⊎ Published)
  publish_found w = elim (Option-cases (st (address, module_code_key_bytes))) [
    | inl absent ↦ inr (publish_fresh w absent)
    | inr (code, found) ↦ inl (record {
      well_formed = w;
      present = λ e. cc (found, e);
      result = publish_well_formed w ∙ unfold publish_at in rw found;
    })
  ]

  publish_by_verdict :
      (r : Result (List VerificationError) (Unit {0}))
      → verify_publish_bundle modules bootstrap_policy ≡ r
      → Rejected ⊎ (AlreadyPublished ⊎ (OutOfGas ⊎ Published))
  unfolding publish_verified_modules
  publish_by_verdict (ok tt) e =
      inr (publish_found ((verify_publish_bundle_iff modules bootstrap_policy refl).0 e))
  publish_by_verdict (err errors) e =
      inl
        (record { ill_formed = λ w. cc (verified_ok modules w, e); errors = errors; result = rw e })
  publish_by_verdict panic e = absurd (verify_never_panics modules e)

  -- The four outcomes of a publication and when each is returned: a bundle that is not well formed
  -- is rejected with errors; one whose address has code already aborts with code 20; one whose
  -- estimate reaches a limit that is not zero runs out of gas; any other succeeds, with the
  -- estimate as its gas. Only the last one changes state.
  pub publish_outcomes : Rejected ⊎ (AlreadyPublished ⊎ (OutOfGas ⊎ Published))
  publish_outcomes = publish_by_verdict (verify_publish_bundle modules bootstrap_policy) refl
