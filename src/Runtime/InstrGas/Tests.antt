-- ===== src/Runtime/InstrGas/Tests.antt =====
-- The interpreter's meter on concrete runs.
use nexus_move.Prelude.{◌+◌, ◌≤◌, ◌≡◌, refl, arith, List, [], ◌∷◌, ok, err}
use nexus_move.Prelude.Word.{saturating_add, saturating_mul}
use nexus_move.Runtime.InstrGas.{
  with_limit, charge, charge_op, charge_frame_op, charge_host_op, GasOp, frame, host, simple_instr,
  call, ld_const, load_resource, out_of_gas,
}
use nexus_move.Runtime.InstrGas.Laws.{Keeps, charge_op-Keeps}
use nexus_move.Runtime.InstrGas.Progress.{count_instructions, run_ops, run_ops_bounded}

abbrev ops : List GasOp
ops = frame simple_instr ∷ frame call ∷ frame (ld_const 3) ∷ host (load_resource 4) ∷ []

runs : (run_ops (with_limit 100) ops).0 ≡ ok tt
unfolding run_ops charge_op charge_frame_op charge_host_op charge saturating_add saturating_mul
runs = refl

consumes : (run_ops (with_limit 100) ops).1.consumed ≡ 23
unfolding run_ops charge_op charge_frame_op charge_host_op charge saturating_add saturating_mul
consumes = refl

exhausts : (run_ops (with_limit 10) ops).0 ≡ err out_of_gas
unfolding run_ops charge_op charge_frame_op charge_host_op charge saturating_add saturating_mul
exhausts = refl

charge_op-Keeps_example : Keeps (with_limit 5) (charge_op (with_limit 5) (frame call))
charge_op-Keeps_example = charge_op-Keeps (with_limit 5) (omega arith) (omega arith) (frame call)

run_ops_bounded_example :
    (0 + count_instructions ops ≤ (run_ops (with_limit 100) ops).1.consumed)
    × ((run_ops (with_limit 100) ops).1.consumed ≤ 100)
run_ops_bounded_example =
    run_ops_bounded (with_limit 100) ops (omega arith) (omega arith) (omega arith) runs
