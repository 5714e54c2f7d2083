-- ===== src/Runtime/Contract.antt =====
-- What a caller of the executor in crates/nexus-move-runtime/src/executor.rs may rely on, whichever
-- VM is behind it: the one that plans, or the one over the Move VM in vm_backend.rs.
use mathlib.Core.Path.{subst}
use nexus_move.Prelude.{
  >>=-eq-ok, ap, ◌∙◌, sym, min, ℕ, ◌≡◌, ◌⊎◌, refl, arith, Bool, true, false, List, [], inl, inr,
  Bytes, Bool-cases, ok, err, panic, map_err,
}
use nexus_move.Types.{AccountAddress, HashValue}
use nexus_move.Bytecode.{bootstrap_policy, verify_publish_bundle}
use nexus_move.Runtime.Config.{VmConfig, default_config}
use nexus_move.Runtime.Data.{
  FunctionCall, ModulePublish, ScriptExecution, VmOutput, VmResult, VmStatus, success,
  without_effects, verification, PublishOutcome, out_of_gas, unsupported_output,
}
use nexus_move.Runtime.Changes.{Agrees, Agrees-nil}
use nexus_move.Runtime.Gas.{GasSchedule}
use nexus_move.Runtime.Publisher.{
  publish_at, publish_writes, publish_estimate, is_over_limit, bundle_address,
  publish_verified_modules,
}
use nexus_move.Runtime.Publisher.Effects.{publish_writes-Agrees}
use nexus_move.Runtime.State.{NexusStateView, has_module}
use nexus_move.Runtime.Executor.{
  MoveExecutor, with_vm, new_executor, execute_function, publish_modules, execute_script,
  planning_execute_function, planning_execute_script, planning_publish_modules,
}
use nexus_move.Runtime.Backend.{MoveEnv}
use nexus_move.Runtime.Backend.Outcomes.{
  IsSound, GivesSound, call-GivesSound, run_script-GivesSound,
}
use nexus_move.Runtime.Backend.Published.{HasPublished, publish_modules_outcomes}
use nexus_move.Runtime.Backend.Publish
use nexus_move.Runtime.Backend.Publish.{rejection}
use nexus_move.Runtime.Backend.Upgrades.{ok_injective}
use nexus_move.Runtime.Backend.Vm.{real_move_vm}

-- The changes and the write set have the same effect, and there are no effects without success.
pub record IsConsistent (o : VmOutput) : Type 0 where
  pub agrees : Agrees o.write_set o.state_changes
  pub quiet :
      (o.status ≡ success)
      ⊎ ((o.state_changes ≡ []) × (o.write_set ≡ []) × (o.events ≡ []) × (o.return_values ≡ []))

abbrev pub GivesConsistent : VmResult VmOutput → Type 0
GivesConsistent (ok o) = IsConsistent o
GivesConsistent (err e) = Unit
GivesConsistent panic = Unit

-- The outputs of functions and scripts are sound, those of publications consistent.
pub record IsReliable (e : MoveExecutor) : Type 0 where
  pub functions :
      (state : NexusStateView) (request : FunctionCall)
      → GivesSound request.gas_limit (execute_function e state request)
  pub scripts :
      (state : NexusStateView) (request : ScriptExecution)
      → GivesSound request.gas_limit (execute_script e state request)
  pub publications :
      (state : NexusStateView) (request : ModulePublish)
      → GivesConsistent (publish_modules e state request)

without_effects-IsConsistent :
    (status : VmStatus) (gas : ℕ) → IsConsistent (without_effects status gas)
without_effects-IsConsistent status gas = record {
  agrees = Agrees-nil;
  quiet = inr (refl, refl, refl, refl);
}

outcomes-GivesConsistent :
    (r : VmResult VmOutput) → ((o : VmOutput) → r ≡ ok o → IsConsistent o) → GivesConsistent r
outcomes-GivesConsistent (ok o) h = h o refl
outcomes-GivesConsistent (err e) h = tt
outcomes-GivesConsistent panic h = tt

unsupported-IsSound : (gas_limit : ℕ) → IsSound gas_limit (unsupported_output (min gas_limit 1000))
unsupported-IsSound gas_limit = record {
  gas = omega arith;
  agrees = Agrees-nil;
  quiet = inr (refl, refl, refl, refl);
}

module _ (blake3 : Bytes → HashValue) where
  publish_at-IsConsistent :
      (address sender : AccountAddress) (modules : List Bytes) (gas_limit : ℕ) (config : VmConfig)
      (present : Bool)
      → IsConsistent (publish_at blake3 address sender modules gas_limit config present).vm_output
  unfolding publish_at publish_writes
  publish_at-IsConsistent address sender modules gas_limit config true =
      without_effects-IsConsistent _ _
  publish_at-IsConsistent address sender modules gas_limit config false =
      elim (Bool-cases (is_over_limit gas_limit (publish_estimate config modules))) [
        | inl e ↦ rw e (without_effects-IsConsistent out_of_gas gas_limit)
        | inr e ↦ rw e (record {
          agrees = publish_writes-Agrees blake3 address sender modules;
          quiet = inl refl;
        })
      ]

  planned-IsConsistent :
      (state : NexusStateView) (request : ModulePublish) (o : VmOutput)
      → planning_publish_modules blake3 state request ≡ ok o
      → IsConsistent o
  unfolding planning_publish_modules publish_verified_modules
  planned-IsConsistent state request o h =
      let verdict = map_err verification (verify_publish_bundle request.modules bootstrap_policy) in
      let address = bundle_address blake3 request.sender request.modules in
      let publication =
        publish_verified_modules blake3 state request.sender request.modules request.gas_limit
          default_config in
      let (_, _, h₁) = >>=-eq-ok verdict _ h in
      let (outcome, done, h₂) = >>=-eq-ok publication _ h₁ in
      let (_, _, h₃) = >>=-eq-ok verdict _ done in
      let (present, _, h₄) = >>=-eq-ok (has_module state address) _ h₃ in
      subst IsConsistent
        (ap (λ (x : PublishOutcome). x.vm_output) (ok_injective h₄) ∙ ok_injective h₂)
        (publish_at-IsConsistent address request.sender request.modules request.gas_limit
          default_config present)

  planning-IsReliable : (config : VmConfig) → IsReliable (new_executor blake3 config)
  unfolding execute_function execute_script publish_modules planning_execute_function
      planning_execute_script
  planning-IsReliable config = record {
    functions = λ state request. unsupported-IsSound request.gas_limit;
    scripts = λ state request. unsupported-IsSound request.gas_limit;
    publications = λ state request.
        outcomes-GivesConsistent (planning_publish_modules blake3 state request)
          (planned-IsConsistent state request);
  }

published-IsConsistent :
    (env : MoveEnv) (schedule : GasSchedule) (state : NexusStateView) (request : ModulePublish)
    (o : VmOutput)
    → HasPublished env schedule state request o ⊎ ((code : ℕ) × (o ≡ rejection env schedule code))
    → IsConsistent o
published-IsConsistent env schedule state request o (inl h) = record {
  agrees = h.agrees;
  quiet = inl h.status;
}
published-IsConsistent env schedule state request o (inr (code, e)) =
    subst IsConsistent (sym e) (without_effects-IsConsistent _ _)

real-IsReliable :
    (env : MoveEnv) (schedule : GasSchedule) (config : VmConfig)
    → IsReliable (with_vm (real_move_vm env schedule) config)
unfolding execute_function execute_script publish_modules
real-IsReliable env schedule config = record {
  functions = call-GivesSound env schedule;
  scripts = run_script-GivesSound env schedule;
  publications = λ state request.
      outcomes-GivesConsistent (Publish.publish_modules env schedule state request) (λ o h.
        published-IsConsistent env schedule state request o
          (publish_modules_outcomes env schedule state request o h));
}

-- The executor is reliable with either VM, whatever the Move VM behind the second one does.
-- Functions and scripts: an output has gas within the request's limit, its changes and its write
-- set have the same effect, and it has no changes, events or values unless it is a success. The
-- same holds of publications but for the gas, since a refusal costs a fixed amount.
pub executor-IsReliable :
    (blake3 : Bytes → HashValue) (env : MoveEnv) (schedule : GasSchedule) (config : VmConfig)
    → IsReliable (new_executor blake3 config)
      × IsReliable (with_vm (real_move_vm env schedule) config)
executor-IsReliable blake3 env schedule config =
    (planning-IsReliable blake3 config, real-IsReliable env schedule config)
