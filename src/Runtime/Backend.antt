-- ===== src/Runtime/Backend.antt =====
-- crates/nexus-move-runtime/src/vm_backend.rs: the backend over the Move VM. The VM, its loader and
-- its verifier, bcs and the framework's bytecode are the fields of `MoveEnv`.
pub mod Execute
pub mod Publish
pub mod Names
pub mod Effects
pub mod Outcomes
pub mod Vm
pub mod Upgrades
pub mod Published
pub mod Slots
pub mod Fetch
pub mod Dependencies
pub mod Success
pub mod Refused
pub mod Compatible
mod Tests
mod UpgradeTests
use nexus_move.Prelude.{
  ℕ, zero, suc, ◌+◌, Bool, true, false, not, ◌&&◌, Option, none, some, List, [], ◌∷◌, ◌++◌, ◌==◌,
  if◌then◌else◌, length, Bytes, bytes_eq, ascii, Result, ok, err, panic, map_err, ◌>>=◌,
}
use nexus_move.Prelude.Map
use nexus_move.Prelude.Orders.{bytes_order, pair_order}
use nexus_move.Types.{AccountAddress, HashValue}
use nexus_move.Package.{PackageMetadata}
use nexus_move.Stdlib
use nexus_move.Stdlib.{framework_address_bytes, get_framework_module}
use nexus_move.Runtime.Abi.{CompiledModule}
use nexus_move.Runtime.Data.{WriteSet, StateChange, VmError, VmResult, internal_error}
use nexus_move.Runtime.Gas.{GasSchedule}
use nexus_move.Runtime.InstrGas.{NexusGasMeter}
use nexus_move.Runtime.Publisher.{Writes}
use nexus_move.Runtime.State.{NexusStateView, get_module_by_name, get_resource}

-- An error of the VM, by what the backend reads of it.
pub record VmFault : Type 0 where
  pub location : Bytes
  pub major_status : ℕ
  pub status_text : Bytes
  pub text : Bytes

-- `move_core_types::effects::Op`
pub data Op : Type 0 where
  new : Bytes → Op
  modify : Bytes → Op
  delete : Op

-- `Option<Bytes>` with its size, as the VM's resolver returns it.
abbrev pub Sized : Type 0
Sized = Option Bytes × ℕ

-- The storage that the VM reads through: modules by name, resources by the bytes of their tag.
pub record NexusMoveStorage : Type 0 where
  pub fetch_module_bytes : AccountAddress → Bytes → Result VmFault (Option Bytes)
  pub get_resource_bytes : AccountAddress → Option Bytes → Result VmFault Sized

-- The code that is not the program's. `execute_loaded_function` returns, beside the result, what
-- the run leaves in the meter, the data cache and the event store.
pub record MoveEnv : Type 1 where
  pub TypeTag : Type 0
  pub StructTag : Type 0
  pub Loaded : Type 0
  pub Cache : Type 0
  pub blake3 : Bytes → HashValue
  pub embedded : Bytes → Bytes
  pub is_identifier : Bytes → Bool
  pub type_tag_from_bytes : Bytes → Result Bytes TypeTag
  pub struct_tag_to_bytes : StructTag → Option Bytes
  pub display_module_id : AccountAddress → Bytes → Bytes
  pub debug_error : VmError → Bytes
  pub deserialize : Bytes → Result Bytes CompiledModule
  pub verify_module : CompiledModule → ℕ → HashValue → Result Bytes (Unit {0})
  pub check_module_exists : NexusMoveStorage → AccountAddress → Bytes → Result Bytes Bool
  pub encode_metadata : PackageMetadata → Result Bytes Bytes
  pub decode_metadata : Bytes → Result Bytes PackageMetadata
  pub load_function :
      NexusMoveStorage → AccountAddress → Bytes → Bytes → List TypeTag → Result VmFault Loaded
  pub load_script : NexusMoveStorage → Bytes → List TypeTag → Result VmFault Loaded
  pub execute_loaded_function :
      Loaded
      → List Bytes
      → NexusGasMeter
      → NexusMoveStorage
      → Result VmFault (List Bytes) × NexusGasMeter × Cache × List Stdlib.ContractEvent
  pub into_effects :
      Cache → NexusMoveStorage → Result Bytes (List (AccountAddress × List (StructTag × Op)))

-- `function.splitn(2, "::")`: the text before the first `::` and the text after it.
unfoldable pub split_path : Bytes → Option (Bytes × Bytes)
split_path [] = none
split_path (a ∷ []) = none
split_path (a ∷ b ∷ s) =
    let rest = split_path (b ∷ s) in
    if (a == b':') && (b == b':')
    then some ([], s)
    else elim rest [ none ↦ none | some p ↦ some (a ∷ p.0, p.1) ]

unfoldable pub parse_function_name : Bytes → Result Bytes (Bytes × Bytes)
unfolding split_path
parse_function_name function = elim (split_path function) [
  | none ↦
      err
        (ascii "invalid function format '" ++ (function ++ ascii "', expected 'module::function'"))
  | some parts ↦ ok parts
]

unfoldable pub dependency_must_exist : AccountAddress → AccountAddress → Bool
dependency_must_exist dep_address move_sender =
    not (bytes_eq dep_address move_sender) && not (bytes_eq dep_address framework_address_bytes)

-- `PartialVMError::new(STORAGE_ERROR)` with a message
abbrev pub storage_fault : Bytes → VmFault
storage_fault text = record {
  location = ascii "UNDEFINED";
  major_status = 2008;
  status_text = ascii "STORAGE_ERROR";
  text = text;
}

-- A read of the state as the VM sees it: an error becomes STORAGE_ERROR.
abbrev pub state_read : {A : Type 0} → (VmError → Bytes) → VmResult A → Result VmFault A
state_read message (ok value) = ok value
state_read message (err e) = err (storage_fault (message e))
state_read message panic = panic

-- `Some(bytes)` with its length, or `None` with 0.
abbrev pub with_size : Option Bytes → Sized
with_size none = (none, 0)
with_size (some bytes) = (some bytes, length bytes)

module _ (env : MoveEnv) where
  -- `collect` into a `Result`.
  unfoldable pub deserialize_type_args : List Bytes → VmResult (List env.TypeTag)
  deserialize_type_args [] = ok []
  deserialize_type_args (bytes ∷ type_args) =
      let rest = deserialize_type_args type_args in
      map_err (λ e. internal_error (ascii "type arg deserialization failed: " ++ e))
        (env.type_tag_from_bytes bytes)
      >>= λ tag. rest >>= λ tags. ok (tag ∷ tags)

  -- The framework's module, or the chain's.
  abbrev pub or_chain :
      NexusStateView → AccountAddress → Bytes → Option Bytes → Result VmFault (Option Bytes)
  or_chain state address module_name (some bytes) = ok (some bytes)
  or_chain state address module_name none =
      state_read (λ e. ascii "state read failed: " ++ env.debug_error e)
        (get_module_by_name state address module_name)

  unfoldable pub fetch_module_bytes :
      NexusStateView → AccountAddress → Bytes → Result VmFault (Option Bytes)
  fetch_module_bytes state address module_name = or_chain state address module_name (
      if bytes_eq address framework_address_bytes
      then get_framework_module env.embedded module_name
      else none)

  -- The key is the encoding of the struct tag; without one the fault is INTERNAL_TYPE_ERROR, 2009.
  unfoldable pub get_resource_bytes :
      NexusStateView → AccountAddress → Option Bytes → Result VmFault Sized
  get_resource_bytes state address none = err (record {
    location = ascii "UNDEFINED";
    major_status = 2009;
    status_text = ascii "INTERNAL_TYPE_ERROR";
    text = ascii "failed to serialize struct tag";
  })
  get_resource_bytes state address (some key) =
      state_read (λ e. ascii "resource read failed: " ++ env.debug_error e)
        (get_resource state address key)
      >>= λ value. ok (with_size value)

  -- `NexusMoveStorage::new`
  abbrev pub new_storage : NexusStateView → NexusMoveStorage
  new_storage state = record {
    fetch_module_bytes = fetch_module_bytes state;
    get_resource_bytes = get_resource_bytes state;
  }

  -- `bcs::to_bytes(&struct_tag).unwrap_or_default()`
  abbrev pub tag_key : Option Bytes → Bytes
  tag_key none = []
  tag_key (some bytes) = bytes

  abbrev pub op_value : Op → Option Bytes
  op_value (new bytes) = some bytes
  op_value (modify bytes) = some bytes
  op_value delete = none

  -- One operation, pushed on the changes and inserted in the write set.
  abbrev pub record_op : Writes → AccountAddress → Bytes → Option Bytes → Writes
  record_op (write_set, state_changes) account key value = (
    Map.insert (account, key) value write_set,
    state_changes ++ record { account = account; key = key; value = value } ∷ [],
  )

  -- The inner loop, over the resources of one account.
  unfoldable pub account_to_nexus : AccountAddress → List (env.StructTag × Op) → Writes → Writes
  account_to_nexus address [] w = w
  account_to_nexus address ((struct_tag, op) ∷ resources) w =
      account_to_nexus address resources
        (record_op w address (tag_key (env.struct_tag_to_bytes struct_tag)) (op_value op))

  unfoldable pub accounts_to_nexus :
      List (AccountAddress × List (env.StructTag × Op)) → Writes → Writes
  unfolding account_to_nexus
  accounts_to_nexus [] w = w
  accounts_to_nexus ((address, resources) ∷ accounts) w =
      accounts_to_nexus accounts (account_to_nexus address resources w)

  unfoldable pub changeset_to_nexus : List (AccountAddress × List (env.StructTag × Op)) → Writes
  unfolding accounts_to_nexus
  changeset_to_nexus change_set = accounts_to_nexus change_set ([], [])
