-- ===== src/Runtime/Executor/Laws.antt =====
-- The planning VM: what it does without executing anything.
use nexus_move.Prelude.{
  ℕ, ◌≤◌, ◌≡◌, refl, arith, List, [], Bytes, Result, ok, err, panic, map_err, ◌>>=◌, ◌>>◌,
}
use nexus_move.Types.{HashValue}
use nexus_move.Bytecode.{VerificationError, bootstrap_policy, verify_publish_bundle}
use nexus_move.Runtime.Config.{VmConfig, default_config}
use nexus_move.Runtime.Data.{
  FunctionCall, ModulePublish, ScriptExecution, PublishOutcome, VmOutput, VmResult, verification,
  unsupported,
}
use nexus_move.Runtime.Publisher.{publish_verified_modules}
use nexus_move.Runtime.State.{NexusStateView}
use nexus_move.Runtime.Executor.{
  MoveExecutor, new_executor, execute_function, publish_modules, execute_script,
  planning_execute_function, planning_execute_script, planning_publish_modules,
}

-- An output without an effect, within a gas limit.
pub record IsInert (o : VmOutput) (gas_limit : ℕ) : Type 0 where
  pub changes : o.state_changes ≡ []
  pub writes : o.write_set ≡ []
  pub events : o.events ≡ []
  pub values : o.return_values ≡ []
  pub gas : o.gas_used ≤ gas_limit

abbrev output_of : PublishOutcome → VmResult VmOutput
output_of outcome = ok outcome.vm_output

module _ (blake3 : Bytes → HashValue) (config : VmConfig) (state : NexusStateView) where
  abbrev pub executor : MoveExecutor
  executor = new_executor blake3 config

  -- The executor over the planning VM: functions and scripts have no effect, report that they are
  -- unsupported and stay within the gas limit.
  pub executor-IsInert :
      (call : FunctionCall) (script : ScriptExecution)
      → ((o : VmOutput) × (execute_function executor state call ≡ ok o)
          × (o.status ≡ unsupported)
          × IsInert o call.gas_limit)
        × ((o : VmOutput) × (execute_script executor state script ≡ ok o)
            × (o.status ≡ unsupported)
            × IsInert o script.gas_limit)
  unfolding execute_function execute_script planning_execute_function planning_execute_script
  executor-IsInert call script = (
    (
      _,
      refl,
      refl,
      record { changes = refl; writes = refl; events = refl; values = refl; gas = omega arith },
    ),
    (
      _,
      refl,
      refl,
      record { changes = refl; writes = refl; events = refl; values = refl; gas = omega arith },
    ),
  )

  publish_once :
      (request : ModulePublish)
      → planning_publish_modules blake3 state request ≡ (
          publish_verified_modules blake3 state request.sender request.modules request.gas_limit
            default_config
          >>= λ outcome. ok outcome.vm_output)
  unfolding planning_publish_modules publish_verified_modules
  publish_once request = by_verdict (verify_publish_bundle request.modules bootstrap_policy) _
    where
      by_verdict :
          (r : Result (List VerificationError) (Unit {0})) (k : VmResult PublishOutcome)
          → (map_err verification r >> (map_err verification r >> k >>= output_of))
            ≡ (map_err verification r >> k >>= output_of)
      by_verdict (ok t) k = refl
      by_verdict (err e) k = refl
      by_verdict panic k = refl

  -- The planning VM verifies a bundle twice, and publishes under the default configuration, not
  -- under that of the executor: its result is that of one publication with the defaults.
  pub executor_publishes :
      (request : ModulePublish)
      → publish_modules executor state request ≡ (
          publish_verified_modules blake3 state request.sender request.modules request.gas_limit
            default_config
          >>= λ outcome. ok outcome.vm_output)
  unfolding publish_modules
  executor_publishes request = publish_once request
