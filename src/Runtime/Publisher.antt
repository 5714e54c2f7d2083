-- ===== src/Runtime/Publisher.antt =====
-- crates/nexus-move-runtime/src/publisher.rs: publication of a bundle of modules. BLAKE3 is a
-- foreign library: its hash function is a parameter, of which no property is used.
pub mod Laws
pub mod Effects
mod Tests
use nexus_move.Prelude.{
  ℕ, ◌^◌, ◌%◌, Bool, true, false, ◌&&◌, not, some, List, [], ◌∷◌, ◌++◌, ◌==◌, leb, if◌then◌else◌,
  length, total_length, Bytes, ascii, Result, ok, err, panic, map_err, ◌>>=◌, ◌>>◌,
}
use nexus_move.Prelude.Map
use nexus_move.Prelude.Orders.{bytes_order, pair_order}
use nexus_move.Prelude.Word.{saturating_add, saturating_mul, to_le_bytes}
use nexus_move.Types.{AccountAddress, HashValue}
use nexus_move.Bytecode.{bootstrap_policy, verify_publish_bundle}
use nexus_move.Runtime.Config.{VmConfig}
use nexus_move.Runtime.Data.{
  VmStatus, success, move_abort, out_of_gas, StateChange, WriteSet, VmOutput, without_effects,
  PublishOutcome, VmError, verification, VmResult,
}
use nexus_move.Runtime.State.{
  NexusStateView, has_module, module_code_key_bytes, module_code_hash_key, module_deployer_key,
  module_count_key,
}

abbrev pub contract_address_domain : Bytes
contract_address_domain = ascii "nexus::contract::address::v1"

-- The bytes of all modules in a row.
abbrev pub concat_modules : List Bytes → Bytes
concat_modules [] = []
concat_modules (bytes ∷ modules) = bytes ++ concat_modules modules

-- The two containers that `push_write` extends.
abbrev pub Writes : Type 0
Writes = WriteSet × List StateChange

unfoldable pub push_write : Writes → AccountAddress → Bytes → Bytes → Writes
push_write (write_set, state_changes) account key value = (
  Map.insert (account, key) (some value) write_set,
  state_changes ++ record { account = account; key = key; value = some value } ∷ [],
)

-- The gas of a publication.
unfoldable pub publish_estimate : VmConfig → List Bytes → ℕ
publish_estimate config modules =
    saturating_add config.publish_base_gas
      (saturating_mul (total_length modules) config.publish_per_byte_gas)

-- A limit of zero is no limit.
abbrev pub is_over_limit : ℕ → ℕ → Bool
is_over_limit gas_limit estimated = not (gas_limit == 0) && leb gas_limit estimated

module _ (blake3 : Bytes → HashValue) where
  unfoldable pub derive_contract_address : AccountAddress → HashValue → AccountAddress
  derive_contract_address deployer bytecode_hash =
      blake3 (contract_address_domain ++ (deployer ++ bytecode_hash))

  -- The four writes of a publication, in order.
  unfoldable pub publish_writes : AccountAddress → AccountAddress → List Bytes → Writes
  unfolding push_write
  publish_writes contract_address sender modules =
      let bytecode = concat_modules modules in
      let w1 = push_write ([], []) contract_address module_code_key_bytes bytecode in
      let w2 = push_write w1 contract_address module_code_hash_key (blake3 bytecode) in
      let w3 = push_write w2 contract_address module_deployer_key sender in
      push_write w3 contract_address module_count_key (to_le_bytes 4 (length modules % 2 ^ 32))

  -- The contract address of a bundle.
  unfoldable pub bundle_address : AccountAddress → List Bytes → AccountAddress
  unfolding derive_contract_address
  bundle_address sender modules = derive_contract_address sender (blake3 (concat_modules modules))

  -- The outcome at `contract_address`, once it is known whether it has a module.
  unfoldable pub publish_at :
      AccountAddress → AccountAddress → List Bytes → ℕ → VmConfig → Bool → PublishOutcome
  unfolding publish_writes publish_estimate
  publish_at contract_address sender modules gas_limit config present =
      let estimated = publish_estimate config modules in
      let (write_set, state_changes) = publish_writes contract_address sender modules in
      if present
      then record {
        vm_output =
            without_effects (move_abort (ascii "nexus::publish") 20) config.publish_base_gas;
        contract_address = contract_address;
      }
      else if is_over_limit gas_limit estimated
      then record {
        vm_output = without_effects out_of_gas gas_limit;
        contract_address = contract_address;
      }
      else record {
        vm_output = record {
          status = success;
          gas_used = estimated;
          state_changes = state_changes;
          write_set = write_set;
          events = [];
          return_values = [];
        };
        contract_address = contract_address;
      }

  unfoldable pub publish_verified_modules :
      NexusStateView → AccountAddress → List Bytes → ℕ → VmConfig → VmResult PublishOutcome
  unfolding bundle_address publish_at
  publish_verified_modules state sender modules gas_limit config =
      map_err verification (verify_publish_bundle modules bootstrap_policy)
      >> (has_module state (bundle_address sender modules) >>= λ present.
          ok (publish_at (bundle_address sender modules) sender modules gas_limit config present))
