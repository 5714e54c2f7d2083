-- ===== src/Runtime/Backend/Tests.antt =====
-- A small Move VM: the bytes of a module are its name, and a call returns its arguments and writes
-- one resource.
use nexus_move.Prelude.{
  ℕ, ◌≡◌, ◌⊎◌, refl, true, false, none, some, List, [], ◌∷◌, replicate, Bytes, ascii, ok,
}
use nexus_move.Types.{AccountAddress}
use nexus_move.Package.{PackageMetadata, governance_only}
use nexus_move.Runtime.Abi.{CompiledModule, compute_module_abi_hash}
use nexus_move.Runtime.Signature.{end}
use nexus_move.Runtime.Changes.{Agrees, Store, apply_changes, Reads}
use nexus_move.Runtime.Config.{testing_config}
use nexus_move.Runtime.Data.{FunctionCall, ModulePublish, VmOutput, VmResult, success}
use nexus_move.Runtime.Gas.{GasSchedule, from_config}
use nexus_move.Runtime.State.{NexusStateView, has_module, contains}
use nexus_move.Runtime.Backend.{
  MoveEnv, Op, new, delete, parse_function_name, changeset_to_nexus, fetch_module_bytes,
}
use nexus_move.Runtime.Backend.Effects.{changeset_to_nexus-Agrees}
use nexus_move.Runtime.Backend.Fetch.{fetch_module_bytes-publish_modules}
use nexus_move.Runtime.Backend.Vm.{real_move_vm}
use nexus_move.Runtime.Contract.{IsReliable, executor-IsReliable}
use nexus_move.Runtime.Executor.{new_executor, with_vm}
use nexus_move.Runtime.Backend.Success.{IsPublishable, publish_modules_succeeds_iff}
use nexus_move.Runtime.Backend.Upgrades.{fresh}
use nexus_move.Runtime.Backend.Publish.{publish_modules, rejection, module_metadata}
use nexus_move.Runtime.Backend.Published.{HasPublished, publish_modules_outcomes}

abbrev pub alice : AccountAddress
alice = replicate 32 1

abbrev pub module_of : Bytes → CompiledModule
module_of name = record {
  self_address = alice;
  self_name = name;
  immediate_dependencies = [];
  function_defs = [];
  struct_defs = [];
  function_handle_at = λ i. record { name = i; parameters = 0; return_ = 0 };
  struct_handle_at = λ i. record { name = i; abilities = 0 };
  identifier_at = λ i. [];
  signature_at = λ i. end;
}

abbrev pub governed : PackageMetadata
governed = record {
  name = [];
  package_hash = [];
  named_addresses = [];
  module_hashes = [];
  abi_hash = [];
  upgrade_policy = governance_only;
  deployer = alice;
  version = 1;
}

abbrev pub small : MoveEnv
small = record {
  TypeTag = Bytes;
  StructTag = Bytes;
  Loaded = Bytes;
  Cache = List (AccountAddress × List (Bytes × Op));
  blake3 = λ s. s;
  embedded = λ name. name;
  is_identifier = λ name. true;
  type_tag_from_bytes = ok;
  struct_tag_to_bytes = some;
  display_module_id = λ a name. name;
  debug_error = λ e. [];
  deserialize = λ s. ok (module_of s);
  verify_module = λ c n h. ok tt;
  check_module_exists = λ storage a name. ok true;
  encode_metadata = λ m. ok m.name;
  decode_metadata = λ s. ok governed;
  load_function = λ storage a m f tags. ok f;
  load_script = λ storage s tags. ok s;
  execute_loaded_function =
      λ f args meter storage. (ok args, meter, (alice, (f, new (7 ∷ [])) ∷ []) ∷ [], []);
  into_effects = λ cache storage. ok cache;
}

abbrev pub schedule : GasSchedule
schedule = from_config testing_config

-- Every key has a value.
abbrev pub full_view : NexusStateView
full_view = record { get = λ a key. ok (some (1 ∷ [])) }

abbrev empty_view : NexusStateView
empty_view = record { get = λ a key. ok none }

abbrev call : FunctionCall
call = record {
  sender = alice;
  contract = alice;
  function = ascii "counter::increment";
  type_args = [];
  args = (5 ∷ []) ∷ [];
  gas_limit = 100;
}

abbrev pub request : ModulePublish
request = record {
  sender = alice;
  modules = ascii "counter" ∷ ascii "other" ∷ [];
  gas_limit = 100;
  upgrade_policy = none;
}

parses_name : parse_function_name (ascii "m::f::g") ≡ ok (ascii "m", ascii "f::g")
unfolding parse_function_name
parses_name = refl

abbrev effects : List (AccountAddress × List (Bytes × Op))
effects = (alice, (1 ∷ [], new (7 ∷ [])) ∷ (1 ∷ [], delete) ∷ []) ∷ []

changeset_to_nexus-Agrees_example :
    Agrees (changeset_to_nexus small effects).0 (changeset_to_nexus small effects).1
changeset_to_nexus-Agrees_example = changeset_to_nexus-Agrees small effects

abbrev output_or : VmOutput → VmResult VmOutput → VmOutput
output_or o (ok o') = o'
output_or o _ = o

abbrev published : VmOutput
published =
    output_or (rejection small schedule 0) (publish_modules small schedule empty_view request)

publishes : publish_modules small schedule empty_view request ≡ ok published
unfolding publish_modules has_module contains compute_module_abi_hash
publishes = refl

publish_modules_outcomes_example :
    HasPublished small schedule empty_view request published
    ⊎ ((code : ℕ) × (published ≡ rejection small schedule code))
publish_modules_outcomes_example =
    publish_modules_outcomes small schedule empty_view request published publishes

abbrev no_slots : Store
no_slots slot = none

abbrev published_view : NexusStateView
published_view = record {
  get = λ a key. ok (apply_changes published.state_changes no_slots (a, key));
}

succeeds : published.status ≡ success
unfolding publish_modules has_module contains compute_module_abi_hash
succeeds = refl

published_view-Reads : Reads published_view (apply_changes published.state_changes no_slots)
published_view-Reads a key = refl

fetch_module_bytes-publish_modules_example :
    fetch_module_bytes small published_view alice (ascii "counter") ≡ ok (some (ascii "counter"))
fetch_module_bytes-publish_modules_example =
    fetch_module_bytes-publish_modules small schedule empty_view request published no_slots
      published_view (ascii "counter") publishes succeeds published_view-Reads

module-IsPublishable : (name : Bytes) → IsPublishable small schedule empty_view request name
unfolding has_module contains module_metadata
module-IsPublishable name = record {
  compiled = module_of name;
  parsed = refl;
  owner = refl;
  present = false;
  found = refl;
  permitted = fresh refl;
  verified = refl;
  dependencies = tt;
  metadata = name;
  encoded = refl;
}

publish_modules_succeeds_iff_example :
    (o : VmOutput) × (publish_modules small schedule empty_view request ≡ ok o)
    × (o.status ≡ success)
publish_modules_succeeds_iff_example =
    (publish_modules_succeeds_iff small schedule empty_view request).1
      (module-IsPublishable (ascii "counter"), (module-IsPublishable (ascii "other"), tt))

executor-IsReliable_example :
    IsReliable (new_executor small.blake3 testing_config)
    × IsReliable (with_vm (real_move_vm small schedule) testing_config)
executor-IsReliable_example = executor-IsReliable small.blake3 small schedule testing_config
