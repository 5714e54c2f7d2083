-- ===== src/Runtime/Backend/Vm.antt =====
-- `RealMoveVm` of crates/nexus-move-runtime/src/vm_backend.rs as a VM of the executor.
use nexus_move.Runtime.Executor.{MoveVm}
use nexus_move.Runtime.Gas.{GasSchedule}
use nexus_move.Runtime.Backend.{MoveEnv}
use nexus_move.Runtime.Backend.Execute.{execute_function, execute_script, query_view}
use nexus_move.Runtime.Backend.Publish.{publish_modules}

-- `impl MoveVm for RealMoveVm`
abbrev pub real_move_vm : MoveEnv → GasSchedule → MoveVm
real_move_vm env schedule = record {
  execute_function = execute_function env schedule;
  publish_modules = publish_modules env schedule;
  execute_script = execute_script env schedule;
  query_view = query_view env schedule;
}
