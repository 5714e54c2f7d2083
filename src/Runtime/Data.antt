-- ===== src/Runtime/Data.antt =====
-- crates/nexus-move-runtime/src/types.rs: requests, outputs and errors.
use nexus_move.Prelude.{ℕ, min, Option, List, [], Bytes, Result}
use nexus_move.Prelude.Map.{Map}
use nexus_move.Prelude.Orders.{bytes_order, pair_order}
use nexus_move.Types.{AccountAddress}
use nexus_move.Bytecode.{VerificationError}

pub data VmStatus : Type 0 where
  success : VmStatus
  move_abort : Bytes → ℕ → VmStatus
  out_of_gas : VmStatus
  unsupported : VmStatus

pub record StateChange : Type 0 where
  pub account : AccountAddress
  pub key : Bytes
  pub value : Option Bytes

-- `BTreeMap<(AccountAddress, Vec<u8>), Option<Vec<u8>>>`
abbrev pub WriteSet : Type 0
WriteSet = Map (AccountAddress × Bytes) (Option Bytes)

pub record ContractEvent : Type 0 where
  pub type_tag : Bytes
  pub guid : Bytes
  pub sequence_number : ℕ
  pub payload : Bytes

pub record VmOutput : Type 0 where
  pub status : VmStatus
  pub gas_used : ℕ
  pub state_changes : List StateChange
  pub write_set : WriteSet
  pub events : List ContractEvent
  pub return_values : List Bytes

-- An output with no effect, the shape of every rejection.
abbrev pub without_effects : VmStatus → ℕ → VmOutput
without_effects status gas_used = record {
  status = status;
  gas_used = gas_used;
  state_changes = [];
  write_set = [];
  events = [];
  return_values = [];
}

-- `VmOutput::unsupported`
abbrev pub unsupported_output : ℕ → VmOutput
unsupported_output gas_used = without_effects unsupported gas_used

-- `VmOutput::abort`
abbrev pub abort_output : Bytes → ℕ → ℕ → VmOutput
abort_output location base_gas gas_limit =
    without_effects (move_abort location 4001) (min base_gas gas_limit)

pub record PublishOutcome : Type 0 where
  pub vm_output : VmOutput
  pub contract_address : AccountAddress

pub data VmError : Type 0 where
  storage : Bytes → VmError
  verification : List VerificationError → VmError
  unsupported_operation : Bytes → VmError
  internal_error : Bytes → VmError

abbrev pub VmResult : Type 0 → Type 0
VmResult A = Result VmError A

pub record FunctionCall : Type 0 where
  pub sender : AccountAddress
  pub contract : AccountAddress
  pub function : Bytes
  pub type_args : List Bytes
  pub args : List Bytes
  pub gas_limit : ℕ

pub data UpgradePolicy : Type 0 where
  immutable compatible governance_only : UpgradePolicy

pub record ModulePublish : Type 0 where
  pub sender : AccountAddress
  pub modules : List Bytes
  pub gas_limit : ℕ
  pub upgrade_policy : Option UpgradePolicy

pub record ScriptExecution : Type 0 where
  pub sender : AccountAddress
  pub bytecode : Bytes
  pub type_args : List Bytes
  pub args : List Bytes
  pub gas_limit : ℕ

pub record QueryRequest : Type 0 where
  pub contract : AccountAddress
  pub function : Bytes
  pub type_args : List Bytes
  pub args : List Bytes
  pub gas_budget : ℕ

pub record QueryResult : Type 0 where
  pub return_value : Option Bytes
  pub gas_used : ℕ
  pub gas_budget : ℕ
