-- ===== src/Runtime/InstrGas.antt =====
-- crates/nexus-move-runtime/src/move_gas_meter.rs: the meter of the Move interpreter. Each method
-- of the interpreter's `GasMeter` trait is a constructor, with the arguments that the method reads.
pub mod Laws
pub mod Progress
mod Tests
use nexus_move.Prelude.{ℕ, ltb, if◌then◌else◌, Result, ok, err}
use nexus_move.Prelude.Word.{saturating_add, saturating_mul, saturating_sub}

pub record NexusGasParameters : Type 0 where
  pub instruction_base : ℕ
  pub call_base : ℕ
  pub load_const_per_byte : ℕ
  pub load_resource_per_byte : ℕ
  pub pack_unpack_base : ℕ
  pub global_op_base : ℕ
  pub ref_op_base : ℕ
  pub vec_op_base : ℕ
  pub native_call_base : ℕ
  pub dependency_per_byte : ℕ

-- `NexusGasParameters::default`
abbrev pub default_parameters : NexusGasParameters
default_parameters = record {
  instruction_base = 1;
  call_base = 10;
  load_const_per_byte = 1;
  load_resource_per_byte = 2;
  pack_unpack_base = 3;
  global_op_base = 5;
  ref_op_base = 2;
  vec_op_base = 3;
  native_call_base = 10;
  dependency_per_byte = 1;
}

pub record NexusGasMeter : Type 0 where
  pub params : NexusGasParameters
  pub limit : ℕ
  pub consumed : ℕ

-- `NexusGasMeter::new` and `with_limit`
abbrev pub new_meter : ℕ → NexusGasParameters → NexusGasMeter
new_meter limit params = record { params = params; limit = limit; consumed = 0 }

abbrev pub with_limit : ℕ → NexusGasMeter
with_limit limit = new_meter limit default_parameters

unfoldable pub remaining : NexusGasMeter → ℕ
remaining m = saturating_sub m.limit m.consumed

-- The status code of a refused charge, `OUT_OF_GAS`.
pub data ChargeError : Type 0 where
  out_of_gas : ChargeError

abbrev pub Charged : Type 0
Charged = Result ChargeError (Unit {0}) × NexusGasMeter

unfoldable pub charge : NexusGasMeter → ℕ → Charged
charge m amount =
    let next = saturating_add m.consumed amount in
    if ltb m.limit next then (err out_of_gas, m) else (ok tt, record m { consumed = next })

-- Instructions on the frame: branches, calls, constants and locals.
pub data FrameOp : Type 0 where
  simple_instr br_true br_false branch pop call call_generic : FrameOp
  ld_const : ℕ → FrameOp
  ld_const_after_deserialization copy_loc move_loc store_loc : FrameOp

-- Instructions on values: structs, references and comparisons.
pub data ValueOp : Type 0 where
  pack unpack read_ref write_ref eq neq : ValueOp

-- Instructions on global storage.
pub data GlobalOp : Type 0 where
  borrow_global exists move_from move_to : GlobalOp

-- Instructions on vectors.
pub data VecOp : Type 0 where
  vec_pack vec_len vec_borrow vec_push_back vec_pop_back vec_unpack vec_swap : VecOp

-- Charges of the host: loading, natives, frames and memory.
pub data HostOp : Type 0 where
  load_resource native_function : ℕ → HostOp
  native_function_before_execution drop_frame create_ty : HostOp
  dependency heap_memory : ℕ → HostOp

unfoldable pub charge_frame_op : NexusGasMeter → FrameOp → Charged
charge_frame_op m (ld_const size) =
    charge m
      (saturating_add m.params.instruction_base (saturating_mul size m.params.load_const_per_byte))
charge_frame_op m ld_const_after_deserialization = (ok tt, m)
charge_frame_op m call = charge m m.params.call_base
charge_frame_op m call_generic = charge m m.params.call_base
charge_frame_op m simple_instr = charge m m.params.instruction_base
charge_frame_op m br_true = charge m m.params.instruction_base
charge_frame_op m br_false = charge m m.params.instruction_base
charge_frame_op m branch = charge m m.params.instruction_base
charge_frame_op m pop = charge m m.params.instruction_base
charge_frame_op m copy_loc = charge m m.params.instruction_base
charge_frame_op m move_loc = charge m m.params.instruction_base
charge_frame_op m store_loc = charge m m.params.instruction_base

unfoldable pub charge_value_op : NexusGasMeter → ValueOp → Charged
charge_value_op m pack = charge m m.params.pack_unpack_base
charge_value_op m unpack = charge m m.params.pack_unpack_base
charge_value_op m read_ref = charge m m.params.ref_op_base
charge_value_op m write_ref = charge m m.params.ref_op_base
charge_value_op m eq = charge m m.params.instruction_base
charge_value_op m neq = charge m m.params.instruction_base

unfoldable pub charge_global_op : NexusGasMeter → GlobalOp → Charged
charge_global_op m borrow_global = charge m m.params.global_op_base
charge_global_op m exists = charge m m.params.global_op_base
charge_global_op m move_from = charge m m.params.global_op_base
charge_global_op m move_to = charge m m.params.global_op_base

unfoldable pub charge_vec_op : NexusGasMeter → VecOp → Charged
charge_vec_op m vec_pack = charge m m.params.vec_op_base
charge_vec_op m vec_len = charge m m.params.vec_op_base
charge_vec_op m vec_borrow = charge m m.params.vec_op_base
charge_vec_op m vec_push_back = charge m m.params.vec_op_base
charge_vec_op m vec_pop_back = charge m m.params.vec_op_base
charge_vec_op m vec_unpack = charge m m.params.vec_op_base
charge_vec_op m vec_swap = charge m m.params.vec_op_base

unfoldable pub charge_host_op : NexusGasMeter → HostOp → Charged
charge_host_op m (load_resource bytes_loaded) =
    charge m (saturating_mul bytes_loaded m.params.load_resource_per_byte)
charge_host_op m (native_function amount) =
    charge m (saturating_add m.params.native_call_base amount)
charge_host_op m native_function_before_execution = (ok tt, m)
charge_host_op m drop_frame = charge m m.params.instruction_base
charge_host_op m create_ty = charge m m.params.instruction_base
charge_host_op m (dependency size) = charge m (saturating_mul size m.params.dependency_per_byte)
charge_host_op m (heap_memory amount) = charge m amount

-- One call of the interpreter on its meter.
pub data GasOp : Type 0 where
  frame : FrameOp → GasOp
  value : ValueOp → GasOp
  global : GlobalOp → GasOp
  vector : VecOp → GasOp
  host : HostOp → GasOp

unfoldable pub charge_op : NexusGasMeter → GasOp → Charged
charge_op m (frame op) = charge_frame_op m op
charge_op m (value op) = charge_value_op m op
charge_op m (global op) = charge_global_op m op
charge_op m (vector op) = charge_vec_op m op
charge_op m (host op) = charge_host_op m op
