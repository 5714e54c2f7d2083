-- ===== src/Runtime/InstrGas/Laws.antt =====
-- The interpreter's meter: every operation keeps the bound, and it meets the interface of a meter.
use nexus_move.Prelude.{ℕ, ◌+◌, ◌-◌, ◌≤◌, ◌<◌, ◌≡◌, refl, arith, ok, err, panic}
use nexus_move.Prelude.Word.{u64_max, saturating_add, saturating_sub}
use nexus_move.Runtime.InstrGas.{
  NexusGasMeter, remaining, ChargeError, out_of_gas, Charged, charge, FrameOp, ValueOp, GlobalOp,
  VecOp, HostOp, ld_const_after_deserialization, pack, borrow_global, vec_pack, charge_frame_op,
  charge_value_op, charge_global_op, charge_vec_op, charge_host_op, GasOp, frame, value, global,
  vector, host, charge_op,
}
use nexus_move.Runtime.Metering.{GasMeter}

-- What a call on the meter may do: the limit and the parameters stay, the bound holds, consumption
-- never falls, and a refusal changes nothing.
pub record Keeps (m : NexusGasMeter) (r : Charged) : Type 0 where
  pub same_limit : r.1.limit ≡ m.limit
  pub same_params : r.1.params ≡ m.params
  pub bounded : r.1.consumed ≤ m.limit
  pub grows : m.consumed ≤ r.1.consumed
  pub refusal : (e : ChargeError) → r.0 ≡ err e → r.1 ≡ m
  pub no_panic : ¬ (r.0 ≡ panic)

module _ (m : NexusGasMeter) (word : m.limit ≤ u64_max) (bound : m.consumed ≤ m.limit) where
  pub charge-Keeps : (amount : ℕ) → Keeps m (charge m amount)
  unfolding charge saturating_add
  charge-Keeps amount = record {
    same_limit = ground arith;
    same_params = ground arith;
    bounded = ground arith;
    grows = ground arith;
    refusal = λ e h. ground arith;
    no_panic = λ h. ground arith;
  }

  free-Keeps : Keeps m (ok tt, m)
  free-Keeps = record {
    same_limit = refl;
    same_params = refl;
    bounded = bound;
    grows = omega arith;
    refusal = λ e h. cc;
    no_panic = λ h. cc;
  }

  charge_frame_op-Keeps : (op : FrameOp) → Keeps m (charge_frame_op m op)
  unfolding charge_frame_op
  charge_frame_op-Keeps ld_const_after_deserialization = free-Keeps
  charge_frame_op-Keeps _ = charge-Keeps _

  charge_value_op-Keeps : (op : ValueOp) → Keeps m (charge_value_op m op)
  unfolding charge_value_op
  charge_value_op-Keeps pack = charge-Keeps _
  charge_value_op-Keeps _ = charge-Keeps _

  charge_global_op-Keeps : (op : GlobalOp) → Keeps m (charge_global_op m op)
  unfolding charge_global_op
  charge_global_op-Keeps borrow_global = charge-Keeps _
  charge_global_op-Keeps _ = charge-Keeps _

  charge_vec_op-Keeps : (op : VecOp) → Keeps m (charge_vec_op m op)
  unfolding charge_vec_op
  charge_vec_op-Keeps vec_pack = charge-Keeps _
  charge_vec_op-Keeps _ = charge-Keeps _

  charge_host_op-Keeps : (op : HostOp) → Keeps m (charge_host_op m op)
  unfolding charge_host_op
  charge_host_op-Keeps HostOp.native_function_before_execution = free-Keeps
  charge_host_op-Keeps _ = charge-Keeps _

  -- From a meter within its limit, every operation of the interpreter's trait keeps the limit, the
  -- parameters and the bound, never lowers what is consumed, and changes nothing when it refuses.
  pub charge_op-Keeps : (op : GasOp) → Keeps m (charge_op m op)
  unfolding charge_op
  charge_op-Keeps (frame op) = charge_frame_op-Keeps op
  charge_op-Keeps (value op) = charge_value_op-Keeps op
  charge_op-Keeps (global op) = charge_global_op-Keeps op
  charge_op-Keeps (vector op) = charge_vec_op-Keeps op
  charge_op-Keeps (host op) = charge_host_op-Keeps op

charge_fits :
    (m : NexusGasMeter) (amount : ℕ)
    → m.limit ≤ u64_max
    → m.consumed + amount ≤ m.limit
    → (charge m amount).0 ≡ ok tt
unfolding charge saturating_add
charge_fits m amount word h = ground arith

charge_exceeds :
    (m : NexusGasMeter) (amount : ℕ)
    → m.limit < u64_max
    → m.limit < m.consumed + amount
    → charge m amount ≡ (err out_of_gas, m)
unfolding charge saturating_add
charge_exceeds m amount word h = ground arith

consumed-charge :
    (m : NexusGasMeter) (amount : ℕ)
    → m.limit ≤ u64_max
    → m.consumed + amount ≤ m.limit
    → (charge m amount).1.consumed ≡ m.consumed + amount
unfolding charge saturating_add
consumed-charge m amount word h = ground arith

limit-charge : (m : NexusGasMeter) (amount : ℕ) → (charge m amount).1.limit ≡ m.limit
unfolding charge
limit-charge m amount = ground arith

charge_bounded :
    (m : NexusGasMeter) (amount : ℕ) → m.consumed ≤ m.limit → (charge m amount).1.consumed ≤ m.limit
unfolding charge saturating_add
charge_bounded m amount h = ground arith

remaining_lem : (m : NexusGasMeter) → remaining m ≡ m.limit - m.consumed
unfolding remaining saturating_sub
remaining_lem m = refl

pub nexus_meter : GasMeter NexusGasMeter ChargeError
nexus_meter = record {
  charge = charge;
  remaining = remaining;
  consumed = λ m. m.consumed;
  limit = λ m. m.limit;
  exhausted = λ m amount. out_of_gas;
  remaining_lem = remaining_lem;
  charge_fits = charge_fits;
  charge_exceeds = charge_exceeds;
  consumed-charge = consumed-charge;
  limit-charge = limit-charge;
  charge_bounded = charge_bounded;
}
