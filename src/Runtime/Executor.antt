-- ===== src/Runtime/Executor.antt =====
-- crates/nexus-move-runtime/src/executor.rs: the interface of a Move VM, the planning VM that
-- stands in for a real one, and the executor in front of it.
pub mod Laws
use nexus_move.Prelude.{ℕ, none, min, Bytes, Result, ok, map_err, ◌>>=◌, ◌>>◌}
use nexus_move.Types.{HashValue}
use nexus_move.Bytecode.{BytecodePolicy, bootstrap_policy, verify_publish_bundle}
use nexus_move.Runtime.Config.{VmConfig, default_config}
use nexus_move.Runtime.Data.{
  FunctionCall, ModulePublish, QueryRequest, QueryResult, ScriptExecution, VmError, verification,
  VmOutput, VmResult, unsupported_output,
}
use nexus_move.Runtime.Publisher.{publish_verified_modules}
use nexus_move.Runtime.State.{NexusStateView, has_module}

-- `trait MoveVm`
pub record MoveVm : Type 0 where
  pub execute_function : NexusStateView → FunctionCall → VmResult VmOutput
  pub publish_modules : NexusStateView → ModulePublish → VmResult VmOutput
  pub execute_script : NexusStateView → ScriptExecution → VmResult VmOutput
  pub query_view : NexusStateView → QueryRequest → VmResult QueryResult

unfoldable pub planning_execute_function : NexusStateView → FunctionCall → VmResult VmOutput
planning_execute_function state request = ok (unsupported_output (min request.gas_limit 1000))

unfoldable pub planning_execute_script : NexusStateView → ScriptExecution → VmResult VmOutput
planning_execute_script state request = ok (unsupported_output (min request.gas_limit 1000))

unfoldable pub planning_query_view : NexusStateView → QueryRequest → VmResult QueryResult
planning_query_view state request = do
  ignored ← has_module state request.contract
  ok (record {
    return_value = none;
    gas_used = min request.gas_budget 1000;
    gas_budget = request.gas_budget;
  })

module _ (blake3 : Bytes → HashValue) where
  unfoldable pub planning_publish_modules : NexusStateView → ModulePublish → VmResult VmOutput
  planning_publish_modules state request =
      map_err verification (verify_publish_bundle request.modules bootstrap_policy)
      >> (publish_verified_modules blake3 state request.sender request.modules request.gas_limit
            default_config
          >>= λ outcome. ok outcome.vm_output)

  -- `impl MoveVm for PlanningMoveVm`
  abbrev pub planning_vm : MoveVm
  planning_vm = record {
    execute_function = planning_execute_function;
    publish_modules = planning_publish_modules;
    execute_script = planning_execute_script;
    query_view = planning_query_view;
  }

pub record MoveExecutor : Type 0 where
  pub vm : MoveVm
  pub config : VmConfig
  pub bytecode_policy : BytecodePolicy

-- `MoveExecutor::with_vm`
abbrev pub with_vm : MoveVm → VmConfig → MoveExecutor
with_vm vm config = record { vm = vm; config = config; bytecode_policy = bootstrap_policy }

-- `MoveExecutor::new`
abbrev pub new_executor : (Bytes → HashValue) → VmConfig → MoveExecutor
new_executor blake3 config = with_vm (planning_vm blake3) config

unfoldable pub execute_function : MoveExecutor → NexusStateView → FunctionCall → VmResult VmOutput
execute_function e state request = e.vm.execute_function state request

unfoldable pub publish_modules : MoveExecutor → NexusStateView → ModulePublish → VmResult VmOutput
publish_modules e state request = e.vm.publish_modules state request

unfoldable pub execute_script : MoveExecutor → NexusStateView → ScriptExecution → VmResult VmOutput
execute_script e state request = e.vm.execute_script state request

unfoldable pub query_view : MoveExecutor → NexusStateView → QueryRequest → VmResult QueryResult
query_view e state request = e.vm.query_view state request
