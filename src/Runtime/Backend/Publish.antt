-- ===== src/Runtime/Backend/Publish.antt =====
-- Publishing compiled modules: `publish_modules` of crates/nexus-move-runtime/src/vm_backend.rs,
-- with the upgrade policy of what is already there.
use nexus_move.Prelude.{
  ℕ, Bool, true, false, not, ◌&&◌, Option, none, some, List, [], ◌∷◌, ◌++◌, if◌then◌else◌, length,
  replicate, Bytes, bytes_eq, ascii, Result, ok, err, map_err, ◌>>=◌, ◌>>◌,
}
use nexus_move.Types.{AccountAddress, HashValue}
use nexus_move.Package.{PackageMetadata, UpgradePolicy, immutable, compatible, governance_only}
use nexus_move.Runtime.Abi.{CompiledModule, compute_module_abi_hash, abi_is_compatible}
use nexus_move.Runtime.Data
use nexus_move.Runtime.Data.{
  ModulePublish, VmOutput, VmResult, WriteSet, StateChange, internal_error, success, move_abort,
  without_effects,
}
use nexus_move.Runtime.Gas.{GasSchedule, clamp_gas_to_limit, estimate_publish_gas}
use nexus_move.Runtime.Publisher.{Writes, push_write}
use nexus_move.Runtime.State.{
  NexusStateView, get_raw, has_module, module_code_key, module_code_key_bytes, module_code_hash_key,
  module_metadata_key,
}
use nexus_move.Runtime.Backend.{MoveEnv, NexusMoveStorage, new_storage, dependency_must_exist}

abbrev pub zero_hash : HashValue
zero_hash = replicate 32 0

-- The policy recorded for a new module.
abbrev pub requested_policy : Option Data.UpgradePolicy → UpgradePolicy
requested_policy (some Data.UpgradePolicy.compatible) = compatible
requested_policy (some Data.UpgradePolicy.governance_only) = governance_only
requested_policy _ = immutable

-- The metadata that was read, if there is any and it decodes.
abbrev pub decoded : (Bytes → Result Bytes PackageMetadata) → Option Bytes → Option PackageMetadata
decoded decode none = none
decoded decode (some bytes) = elim (decode bytes) [ ok m ↦ some m | _ ↦ none ]

abbrev pub policy_of : Option PackageMetadata → UpgradePolicy
policy_of none = immutable
policy_of (some m) = m.upgrade_policy

abbrev pub abi_hash_of : Option PackageMetadata → HashValue
abi_hash_of none = zero_hash
abi_hash_of (some m) = m.abi_hash

-- The code of the refusal by the policy of what is stored, if it refuses.
unfoldable pub refusal : Option PackageMetadata → HashValue → Option ℕ
refusal stored new_abi_hash = elim (policy_of stored) [
  | immutable ↦ some 20
  | governance_only ↦ some 21
  | compatible ↦
      if not (bytes_eq (abi_hash_of stored) zero_hash)
        && not (abi_is_compatible (abi_hash_of stored) new_abi_hash)
      then some 22
      else none
]

module _ (env : MoveEnv) (schedule : GasSchedule) where
  abbrev pub rejection : ℕ → VmOutput
  rejection code = without_effects (move_abort (ascii "nexus::publish") code) schedule.publish_base

  -- The check where a module already exists at the address.
  unfoldable pub upgrade_refusal : NexusStateView → CompiledModule → Bool → VmResult (Option ℕ)
  unfolding refusal
  upgrade_refusal state compiled false = ok none
  upgrade_refusal state compiled true =
      get_raw state compiled.self_address module_metadata_key >>= λ raw.
      ok (refusal (decoded env.decode_metadata raw) (compute_module_abi_hash env.blake3 compiled))

  -- The loop over `compiled.immediate_dependencies()`.
  unfoldable pub check_dependencies :
      NexusMoveStorage → AccountAddress → List (AccountAddress × Bytes) → VmResult (Unit {0})
  check_dependencies storage move_sender [] = ok tt
  check_dependencies storage move_sender ((address, name) ∷ deps) =
      let rest = check_dependencies storage move_sender deps in
      map_err (λ e. internal_error (ascii "dependency check failed: " ++ e))
        (env.check_module_exists storage address name)
      >>= λ dep_exists.
          if not dep_exists && dependency_must_exist address move_sender
          then err
              (internal_error (ascii "missing dependency: " ++ env.display_module_id address name))
          else rest

  unfoldable pub module_metadata : ModulePublish → CompiledModule → Bytes → PackageMetadata
  module_metadata request compiled module_bytes =
      let hash = env.blake3 module_bytes in
      record {
        name = compiled.self_name;
        package_hash = hash;
        named_addresses = (compiled.self_name, compiled.self_address) ∷ [];
        module_hashes = (compiled.self_name, hash) ∷ [];
        abi_hash = compute_module_abi_hash env.blake3 compiled;
        upgrade_policy = requested_policy request.upgrade_policy;
        deployer = request.sender;
        version = 1;
      }

  -- The four writes of one module. The source pushes the changes and inserts the same writes.
  unfoldable pub module_writes : CompiledModule → Bytes → Bytes → Writes → Writes
  unfolding push_write module_code_key
  module_writes compiled module_bytes metadata_bytes w =
      let a = compiled.self_address in
      let w1 = push_write w a (module_code_key compiled.self_name) module_bytes in
      let w2 = push_write w1 a module_code_key_bytes module_bytes in
      let w3 = push_write w2 a module_code_hash_key (env.blake3 module_bytes) in
      push_write w3 a module_metadata_key metadata_bytes

  abbrev pub verify_code : CompiledModule → Bytes → VmResult (Unit {0})
  verify_code compiled module_bytes =
      map_err (λ e. internal_error (ascii "bytecode verification failed: " ++ e))
        (env.verify_module compiled (length module_bytes) (env.blake3 module_bytes))

  abbrev pub encode_module_metadata : ModulePublish → CompiledModule → Bytes → VmResult Bytes
  encode_module_metadata request compiled module_bytes =
      map_err (λ e. internal_error (ascii "metadata encoding failed: " ++ e))
        (env.encode_metadata (module_metadata request compiled module_bytes))

  abbrev pub parse_module : Bytes → VmResult CompiledModule
  parse_module module_bytes =
      map_err (λ e. internal_error (ascii "module deserialization failed: " ++ e))
        (env.deserialize module_bytes)

  -- A module without a refusal: verified, its dependencies checked, written.
  unfoldable pub accept_module :
      NexusStateView → ModulePublish → CompiledModule → Bytes → Writes → VmResult Writes
  unfolding check_dependencies module_metadata module_writes
  accept_module state request compiled module_bytes w =
      verify_code compiled module_bytes
      >> (check_dependencies (new_storage env state) request.sender compiled.immediate_dependencies
          >> (encode_module_metadata request compiled module_bytes >>= λ metadata_bytes.
              ok (module_writes compiled module_bytes metadata_bytes w)))

  abbrev pub check_sender : AccountAddress → AccountAddress → VmResult (Unit {0})
  check_sender address sender =
      if bytes_eq address sender
      then ok tt
      else err (internal_error (ascii "module address does not match sender"))

  -- How the loop goes on after one module: the output of a refusal, or the writes so far.
  pub data Progress : Type 0 where
    refused : ℕ → Progress
    written : Writes → Progress

  abbrev pub unless_refused :
      NexusStateView
      → ModulePublish
      → CompiledModule
      → Bytes
      → Writes
      → Option ℕ
      → VmResult Progress
  unless_refused state request compiled module_bytes w (some n) = ok (refused n)
  unless_refused state request compiled module_bytes w none =
      accept_module state request compiled module_bytes w >>= λ w'. ok (written w')

  unfoldable pub publish_module :
      NexusStateView → ModulePublish → Bytes → Writes → VmResult Progress
  unfolding upgrade_refusal accept_module
  publish_module state request module_bytes w = do
    compiled ← parse_module module_bytes
    _ ← check_sender compiled.self_address request.sender
    exists ← has_module state compiled.self_address
    code ← upgrade_refusal state compiled exists
    unless_refused state request compiled module_bytes w code

  -- The loop over `request.modules`.
  unfoldable pub publish_each :
      NexusStateView → ModulePublish → List Bytes → Writes → VmResult Progress
  unfolding publish_module
  publish_each state request [] w = ok (written w)
  publish_each state request (module_bytes ∷ modules) w =
      publish_module state request module_bytes w >>= λ p. elim p [
        | refused n ↦ ok (refused n)
        | written w' ↦ publish_each state request modules w'
      ]

  unfoldable pub publish_output : ModulePublish → Progress → VmOutput
  publish_output request (refused n) = rejection n
  publish_output request (written (write_set, state_changes)) = record {
    status = success;
    gas_used =
        clamp_gas_to_limit (estimate_publish_gas schedule request.modules state_changes)
          request.gas_limit;
    state_changes = state_changes;
    write_set = write_set;
    events = [];
    return_values = [];
  }

  unfoldable pub publish_modules : NexusStateView → ModulePublish → VmResult VmOutput
  unfolding publish_each publish_output
  publish_modules state request =
      publish_each state request request.modules ([], []) >>= λ p. ok (publish_output request p)
