-- ===== src/Runtime/Gas.antt =====
-- crates/nexus-move-runtime/src/gas.rs: the meter, the schedule and the estimates.
pub mod Meter
pub mod Estimates
mod Tests
use nexus_move.Prelude.{
  ℕ, ◌+◌, ◌≤◌, ◌<◌, min, ◌≡◌, Bool, Option, none, some, List, [], ◌∷◌, ltb, if◌then◌else◌, length,
  Bytes, Result, ok, err,
}
use nexus_move.Prelude.Word.{saturating_add, saturating_mul, saturating_sub, u64_max}
use nexus_move.Runtime.Config.{VmConfig}
use nexus_move.Runtime.Data.{StateChange}

pub record GasExhausted : Type 0 where
  pub needed : ℕ
  pub available : ℕ

pub record SimpleGasMeter : Type 0 where
  pub limit : ℕ
  pub consumed : ℕ

-- `SimpleGasMeter::new`
abbrev pub new_meter : ℕ → SimpleGasMeter
new_meter limit = record { limit = limit; consumed = 0 }

unfoldable pub remaining : SimpleGasMeter → ℕ
remaining m = saturating_sub m.limit m.consumed

-- The meter comes back beside the result, as a call on `&mut self` leaves it.
unfoldable pub charge : SimpleGasMeter → ℕ → Result GasExhausted (Unit {0}) × SimpleGasMeter
unfolding remaining
charge m amount =
    let next = saturating_add m.consumed amount in
    if ltb m.limit next
    then (err (record { needed = amount; available = remaining m }), m)
    else (ok tt, record m { consumed = next })

pub record GasSchedule : Type 0 where
  pub transfer_base : ℕ
  pub call_base : ℕ
  pub publish_base : ℕ
  pub publish_per_byte : ℕ
  pub read_per_byte : ℕ
  pub write_per_byte : ℕ

-- `DEFAULT_TRANSFER_BASE`
abbrev pub default_transfer_base : ℕ
default_transfer_base = 1000

-- `GasSchedule::from_config`
abbrev pub from_config : VmConfig → GasSchedule
from_config config = record {
  transfer_base = default_transfer_base;
  call_base = config.call_base_gas;
  publish_base = config.publish_base_gas;
  publish_per_byte = config.publish_per_byte_gas;
  read_per_byte = config.read_per_byte_gas;
  write_per_byte = config.write_per_byte_gas;
}

unfoldable pub publish_gas_cost : GasSchedule → ℕ → ℕ
publish_gas_cost schedule total_bytes =
    saturating_add schedule.publish_base (saturating_mul total_bytes schedule.publish_per_byte)

unfoldable pub write_gas_cost : GasSchedule → ℕ → ℕ
write_gas_cost schedule size = saturating_mul size schedule.write_per_byte

unfoldable pub read_gas_cost : GasSchedule → ℕ → ℕ
read_gas_cost schedule size = saturating_mul size schedule.read_per_byte

-- The fold of `encoded_chunks_len`, from the running total.
unfoldable pub chunks_len_from : ℕ → List Bytes → ℕ
chunks_len_from total [] = total
chunks_len_from total (chunk ∷ chunks) =
    chunks_len_from (saturating_add total (length chunk)) chunks

unfoldable pub encoded_chunks_len : List Bytes → ℕ
unfolding chunks_len_from
encoded_chunks_len chunks = chunks_len_from 0 chunks

-- The bytes of an optional value.
abbrev pub value_len : Option Bytes → ℕ
value_len none = 0
value_len (some value) = length value

unfoldable pub change_bytes_from : ℕ → List StateChange → ℕ
change_bytes_from total [] = total
change_bytes_from total (change ∷ changes) =
    change_bytes_from
      (saturating_add (saturating_add total (length change.key)) (value_len change.value)) changes

unfoldable pub state_change_bytes : List StateChange → ℕ
unfolding change_bytes_from
state_change_bytes changes = change_bytes_from 0 changes

unfoldable pub clamp_gas_to_limit : ℕ → ℕ → ℕ
clamp_gas_to_limit estimated gas_limit = min estimated gas_limit

unfoldable pub estimate_call_gas : GasSchedule → List Bytes → List Bytes → List StateChange → ℕ
unfolding encoded_chunks_len read_gas_cost write_gas_cost state_change_bytes
estimate_call_gas schedule type_args args state_changes =
    let input_bytes = saturating_add (encoded_chunks_len type_args) (encoded_chunks_len args) in
    saturating_add (saturating_add schedule.call_base (read_gas_cost schedule input_bytes))
      (write_gas_cost schedule (state_change_bytes state_changes))

unfoldable pub estimate_publish_gas : GasSchedule → List Bytes → List StateChange → ℕ
unfolding encoded_chunks_len publish_gas_cost write_gas_cost state_change_bytes
estimate_publish_gas schedule modules state_changes =
    let module_bytes = encoded_chunks_len modules in
    saturating_add (publish_gas_cost schedule module_bytes)
      (write_gas_cost schedule (state_change_bytes state_changes))

unfoldable pub estimate_script_gas : GasSchedule → Bytes → List Bytes → List Bytes → ℕ
unfolding encoded_chunks_len read_gas_cost
estimate_script_gas schedule bytecode type_args args =
    let input_bytes =
      saturating_add (saturating_add (length bytecode) (encoded_chunks_len type_args))
        (encoded_chunks_len args) in
    saturating_add schedule.call_base (read_gas_cost schedule input_bytes)
