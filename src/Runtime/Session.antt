-- ===== src/Runtime/Session.antt =====
-- crates/nexus-move-runtime/src/session.rs: one session of execution, its gas and its writes.
pub mod Steps
pub mod Laws
mod Tests
use nexus_move.Prelude.{
  ℕ, Bool, true, false, Option, none, some, List, [], if◌then◌else◌, length, Bytes, Result, ok, err,
  panic, map_err,
}
use nexus_move.Prelude.Word.{saturating_add, saturating_mul}
use nexus_move.Types.{AccountAddress}
use nexus_move.Runtime.Data.{VmStatus, VmOutput, VmError, VmResult, without_effects}
use nexus_move.Runtime.Gas.{GasExhausted, GasSchedule, SimpleGasMeter, new_meter, charge}
use nexus_move.Runtime.Resources
use nexus_move.Runtime.Resources.{ResourceStore, new_store, into_changes}
use nexus_move.Runtime.State.{NexusStateView}

pub record MoveGasSummary : Type 0 where
  pub execution_gas : ℕ
  pub io_gas : ℕ
  pub storage_fee : ℕ

-- `MoveGasSummary::default`
abbrev pub empty_summary : MoveGasSummary
empty_summary = record { execution_gas = 0; io_gas = 0; storage_fee = 0 }

-- `MoveGasSummary::total`
unfoldable pub total : MoveGasSummary → ℕ
total s = saturating_add (saturating_add s.execution_gas s.io_gas) s.storage_fee

pub data SessionKind : Type 0 where
  publish execute read_only : SessionKind

abbrev pub is_read_only : SessionKind → Bool
is_read_only read_only = true
is_read_only publish = false
is_read_only execute = false

pub data WriteError : Type 0 where
  read_only_session out_of_gas : WriteError

pub record ExecuteSession : Type 0 where
  pub kind : SessionKind
  pub sender : AccountAddress
  pub meter : SimpleGasMeter
  pub schedule : GasSchedule
  pub resources : ResourceStore
  pub gas_summary : MoveGasSummary

-- `ExecuteSession::new`
unfoldable pub new_session :
    SessionKind → AccountAddress → ℕ → GasSchedule → NexusStateView → ExecuteSession
new_session kind sender gas_limit schedule view = record {
  kind = kind;
  sender = sender;
  meter = new_meter gas_limit;
  schedule = schedule;
  resources = new_store view;
  gas_summary = empty_summary;
}

abbrev pub Written : Type 0
Written = Result WriteError (Unit {0}) × ExecuteSession

-- `self.meter.charge(amount).map_err(|_| WriteError::OutOfGas)`, on the session
unfoldable pub charge_meter : ExecuteSession → ℕ → Written
charge_meter s amount =
    let (r, meter) = charge s.meter amount in
    (map_err (λ e. out_of_gas) r, record s { meter = meter })

-- The summary is raised first, whether or not the charge is accepted.
unfoldable pub charge_execution : ExecuteSession → ℕ → Written
unfolding charge_meter
charge_execution s amount =
    let g = s.gas_summary in
    charge_meter
      (record s {
        gas_summary = record g { execution_gas = saturating_add g.execution_gas amount };
      })
      amount

unfoldable pub charge_io : ExecuteSession → ℕ → Written
unfolding charge_meter
charge_io s amount =
    let g = s.gas_summary in
    charge_meter (record s { gas_summary = record g { io_gas = saturating_add g.io_gas amount } })
      amount

unfoldable pub charge_storage : ExecuteSession → ℕ → Written
unfolding charge_meter
charge_storage s amount =
    let g = s.gas_summary in
    charge_meter
      (record s { gas_summary = record g { storage_fee = saturating_add g.storage_fee amount } })
      amount

-- The cost of reading a value that may be missing.
abbrev pub read_cost : GasSchedule → Option Bytes → ℕ
read_cost schedule none = 0
read_cost schedule (some bytes) = saturating_mul (length bytes) schedule.read_per_byte

-- After the read: a charge whose refusal is dropped (`let _ = …`).
unfoldable pub charge_read :
    ExecuteSession → VmResult (Option Bytes) → VmResult (Option Bytes) × ExecuteSession
unfolding charge_io
charge_read s (ok value) = (ok value, (charge_io s (read_cost s.schedule value)).1)
charge_read s (err e) = (err e, s)
charge_read s panic = (panic, s)

unfoldable pub read_resource :
    ExecuteSession → AccountAddress → Bytes → VmResult (Option Bytes) × ExecuteSession
unfolding charge_read
read_resource s account type_tag = charge_read s (Resources.get s.resources account type_tag)

-- After the charge: the write, if it was accepted.
unfoldable pub write_charged : AccountAddress → Bytes → Bytes → Written → Written
write_charged account type_tag value (ok t, s) =
    (ok tt, record s { resources = Resources.set s.resources account type_tag value })
write_charged account type_tag value (err e, s) = (err e, s)
write_charged account type_tag value (panic, s) = (panic, s)

unfoldable pub write_resource : ExecuteSession → AccountAddress → Bytes → Bytes → Written
unfolding charge_storage write_charged
write_resource s account type_tag value =
    if is_read_only s.kind
    then (err read_only_session, s)
    else (let cost = saturating_mul (length value) s.schedule.write_per_byte in
        write_charged account type_tag value (charge_storage s cost))

-- `ExecuteSession::commit`
unfoldable pub commit : ExecuteSession → VmStatus → VmOutput
unfolding into_changes
commit s status =
    let (write_set, state_changes) = into_changes s.resources in
    record {
      status = status;
      gas_used = s.meter.consumed;
      state_changes = state_changes;
      write_set = write_set;
      events = [];
      return_values = [];
    }

-- `ExecuteSession::abort`
unfoldable pub abort : ExecuteSession → VmStatus → VmOutput
abort s status = without_effects status s.meter.consumed
