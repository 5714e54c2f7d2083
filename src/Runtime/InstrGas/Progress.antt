-- ===== src/Runtime/InstrGas/Progress.antt =====
-- Bounded execution: a run of the interpreter that is never refused has at most as many
-- instructions as the limit has units of gas.
use mathlib.Core.Path.{subst}
use nexus_move.Prelude.{sym, ℕ, ◌+◌, ◌≤◌, ◌<◌, ◌≡◌, arith, List, [], ◌∷◌, ok, err, panic}
use nexus_move.Prelude.Word.{u64_max, saturating_add, saturating_mul}
use nexus_move.Runtime.InstrGas.{
  NexusGasParameters, NexusGasMeter, Charged, charge, ld_const, ld_const_after_deserialization,
  load_resource, native_function, native_function_before_execution, dependency, heap_memory,
  FrameOp, ValueOp, GlobalOp, VecOp, HostOp, charge_frame_op, charge_value_op, charge_global_op,
  charge_vec_op, charge_host_op, GasOp, frame, value, global, vector, host, charge_op, pack,
  borrow_global, vec_pack,
}
use nexus_move.Runtime.InstrGas.Laws.{charge-Keeps, charge_op-Keeps}

-- The flat costs are not zero, as in the defaults.
pub record ArePositive (p : NexusGasParameters) : Type 0 where
  pub instruction : 0 < p.instruction_base
  pub call : 0 < p.call_base
  pub pack : 0 < p.pack_unpack_base
  pub global : 0 < p.global_op_base
  pub reference : 0 < p.ref_op_base
  pub vector : 0 < p.vec_op_base
  pub native : 0 < p.native_call_base

-- An operation with a flat cost counts for one; what is charged by size, or not at all, for none.
abbrev pub instructions : GasOp → ℕ
instructions (frame ld_const_after_deserialization) = 0
instructions (host (load_resource n)) = 0
instructions (host (dependency n)) = 0
instructions (host (heap_memory n)) = 0
instructions (host native_function_before_execution) = 0
instructions _ = 1

abbrev pub count_instructions : List GasOp → ℕ
count_instructions [] = 0
count_instructions (op ∷ ops) = instructions op + count_instructions ops

-- The interpreter's calls in order, up to the first refusal.
unfoldable pub run_ops : NexusGasMeter → List GasOp → Charged
run_ops m [] = (ok tt, m)
run_ops m (op ∷ ops) =
    let (r, m') = charge_op m op in
    let rest = run_ops m' ops in elim r [ ok _ ↦ rest | err e ↦ (err e, m') | panic ↦ (panic, m') ]

charge_advances :
    (m : NexusGasMeter) (amount : ℕ)
    → m.limit < u64_max
    → 0 < amount
    → (charge m amount).0 ≡ ok tt
    → m.consumed + 1 ≤ (charge m amount).1.consumed
unfolding charge saturating_add
charge_advances m amount word pos h = ground arith

module _ (m : NexusGasMeter) (p : ArePositive m.params) (word : m.limit < u64_max)
    (bound : m.consumed ≤ m.limit) where
  -- An accepted operation consumes at least its flat cost.
  abbrev Advances : ℕ → Charged → Type 0
  Advances n r = r.0 ≡ ok tt → m.consumed + n ≤ r.1.consumed

  frame-Advances : (op : FrameOp) → Advances (instructions (frame op)) (charge_frame_op m op)
  unfolding charge_frame_op saturating_add saturating_mul
  frame-Advances ld_const_after_deserialization h = omega arith
  frame-Advances (ld_const size) h = charge_advances m _ word (omega (arith, p.instruction)) h
  frame-Advances FrameOp.call h = charge_advances m _ word p.call h
  frame-Advances FrameOp.call_generic h = charge_advances m _ word p.call h
  frame-Advances _ h = charge_advances m _ word p.instruction h

  value-Advances : (op : ValueOp) → Advances 1 (charge_value_op m op)
  unfolding charge_value_op
  value-Advances pack h = charge_advances m _ word p.pack h
  value-Advances ValueOp.unpack h = charge_advances m _ word p.pack h
  value-Advances ValueOp.read_ref h = charge_advances m _ word p.reference h
  value-Advances ValueOp.write_ref h = charge_advances m _ word p.reference h
  value-Advances _ h = charge_advances m _ word p.instruction h

  global-Advances : (op : GlobalOp) → Advances 1 (charge_global_op m op)
  unfolding charge_global_op
  global-Advances borrow_global h = charge_advances m _ word p.global h
  global-Advances _ h = charge_advances m _ word p.global h

  vector-Advances : (op : VecOp) → Advances 1 (charge_vec_op m op)
  unfolding charge_vec_op
  vector-Advances vec_pack h = charge_advances m _ word p.vector h
  vector-Advances _ h = charge_advances m _ word p.vector h

  host-Advances : (op : HostOp) → Advances (instructions (host op)) (charge_host_op m op)
  unfolding charge_host_op saturating_add
  host-Advances (load_resource n) h = omega (arith, (charge-Keeps m (omega arith) bound _).grows)
  host-Advances (dependency n) h = omega (arith, (charge-Keeps m (omega arith) bound _).grows)
  host-Advances (heap_memory n) h = omega (arith, (charge-Keeps m (omega arith) bound _).grows)
  host-Advances native_function_before_execution h = omega arith
  host-Advances (native_function n) h = charge_advances m _ word (omega (arith, p.native)) h
  host-Advances _ h = charge_advances m _ word p.instruction h

  charge_op-Advances : (op : GasOp) → Advances (instructions op) (charge_op m op)
  unfolding charge_op
  charge_op-Advances (frame op) = frame-Advances op
  charge_op-Advances (value op) = value-Advances op
  charge_op-Advances (global op) = global-Advances op
  charge_op-Advances (vector op) = vector-Advances op
  charge_op-Advances (host op) = host-Advances op

run_ops-cons :
    (m : NexusGasMeter) (op : GasOp) (ops : List GasOp)
    → (run_ops m (op ∷ ops)).0 ≡ ok tt
    → ((charge_op m op).0 ≡ ok tt) × (run_ops m (op ∷ ops) ≡ run_ops (charge_op m op).1 ops)
unfolding run_ops
run_ops-cons m op ops h = ground arith

-- With a limit below the largest word and positive flat costs, a run that is never refused ends
-- within the limit, having consumed at least one unit for each instruction. So there are at most
-- as many instructions as units of gas left at the start.
pub run_ops_bounded :
    (m : NexusGasMeter) (ops : List GasOp)
    → ArePositive m.params
    → m.limit < u64_max
    → m.consumed ≤ m.limit
    → (run_ops m ops).0 ≡ ok tt
    → (m.consumed + count_instructions ops ≤ (run_ops m ops).1.consumed)
      × ((run_ops m ops).1.consumed ≤ m.limit)
unfolding run_ops
run_ops_bounded m [] p word b h = (omega arith, b)
run_ops_bounded m (op ∷ ops) p word b h =
    let (accepted, step) = run_ops-cons m op ops h in
    let keeps = charge_op-Keeps m (omega arith) b op in
    let m' = (charge_op m op).1 in
    let same : m'.limit ≡ m.limit = keeps.same_limit in
    let ih =
      run_ops_bounded m' ops (subst ArePositive (sym keeps.same_params) p) (omega (arith, same))
        (omega (arith, same, keeps.bounded)) (rw step at h) in
    let advance = charge_op-Advances m p word b op accepted in
    rw step (omega (arith, ih.0, advance), omega (arith, ih.1, same))
