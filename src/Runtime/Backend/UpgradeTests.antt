-- ===== src/Runtime/Backend/UpgradeTests.antt =====
-- Upgrades of a compatible module through the small Move VM of the other tests: one that keeps the
-- exports and one that does not.
use mathlib.Core.List.{Memᴰ}
use nexus_move.Prelude.{
  ℕ, zero, suc, inr, bytes_ne, bytes_eq, arith, ◌≡◌, ◌≢◌, refl, sym, true, false, none, some, [],
  ◌∷◌, Bytes, ascii, ok, if◌then◌else◌,
}
use nexus_move.Prelude.Sorting.{place}
use nexus_move.Prelude.Orders.{bytes_order, cmp_bytes}
use nexus_move.Prelude.Word.{to_le_bytes}
use nexus_move.Package.{PackageMetadata, compatible}
use nexus_move.Runtime.Signature.{u64, vector, struct, end, token, encode_token}
use nexus_move.Runtime.Abi.{
  CompiledModule, FunctionDefinition, StructDefinition, private, public, friend, declared,
  compute_module_abi_hash, function_entry, function_entries, struct_entry, struct_entries,
  abi_bytes, layout_bytes, field_bytes, with_length, length_bytes,
}
use nexus_move.Runtime.Abi.Decoder.{IsEncodable, AreEncodable}
use nexus_move.Runtime.Abi.Cancel.{IsFunctionEntry, IsStructEntry}
use nexus_move.Runtime.Abi.Injective.{AreEntries}
use nexus_move.Runtime.Data.{ModulePublish, VmOutput, success}
use nexus_move.Runtime.State.{get_raw, has_module, contains, module_metadata_key}
use nexus_move.Runtime.Backend.{MoveEnv}
use nexus_move.Runtime.Backend.Compatible.{
  HasRecorded, HaveSameExports, publish_modules-HaveSameExports,
}
use nexus_move.Runtime.Backend.Success.{IsPublishable, publish_modules_succeeds_iff}
use nexus_move.Runtime.Backend.Refused.{publish_modules_refused}
use nexus_move.Runtime.Backend.Upgrades.{upgrade}
use nexus_move.Runtime.Backend.Publish.{zero_hash, publish_modules, module_metadata, rejection}
use nexus_move.Runtime.Backend.Tests.{alice, governed, small, schedule, full_view}

abbrev names : ℕ → Bytes
names zero = ascii "get"
names (suc n) = ascii "set"

abbrev get_def : FunctionDefinition
get_def = record { handle = 0; visibility = public; is_entry = false }

abbrev set_def : FunctionDefinition
set_def = record { handle = 1; visibility = friend; is_entry = true }

abbrev helper_def : FunctionDefinition
helper_def = record { handle = 1; visibility = private; is_entry = false }

abbrev counter_def : StructDefinition
counter_def = record {
  handle = 0;
  field_information = declared (record { name = 0; signature = u64 } ∷ []);
}

-- A module with two exported functions, a private one and a struct.
abbrev counter : CompiledModule
counter = record {
  self_address = alice;
  self_name = ascii "counter";
  immediate_dependencies = [];
  function_defs = get_def ∷ helper_def ∷ set_def ∷ [];
  struct_defs = counter_def ∷ [];
  function_handle_at = λ i. record { name = i; parameters = 0; return_ = 0 };
  struct_handle_at = λ i. record { name = i; abilities = 8 };
  identifier_at = names;
  signature_at = λ i. token (vector u64) (token (struct 3) end);
}

-- The same exports in another order, without the private function.
abbrev rewritten : CompiledModule
rewritten = record counter { function_defs = set_def ∷ get_def ∷ [] }

-- Without `set`.
abbrev reduced : CompiledModule
reduced = record counter { function_defs = get_def ∷ [] }

abbrev parsed : Bytes → CompiledModule
parsed s = if bytes_eq s (ascii "reduced") then reduced else rewritten

-- A VM whose metadata is that of a compatible module with the interface of `counter`.
abbrev upgradable : PackageMetadata
upgradable = record governed {
  abi_hash = compute_module_abi_hash small.blake3 counter;
  upgrade_policy = compatible;
}

abbrev upgrading : MoveEnv
upgrading = record small { deserialize = λ s. ok (parsed s); decode_metadata = λ s. ok upgradable }

abbrev request : ModulePublish
request = record {
  sender = alice;
  modules = ascii "rewritten" ∷ [];
  gas_limit = 100;
  upgrade_policy = none;
}

abbrev reducing : ModulePublish
reducing = record request { modules = ascii "rewritten" ∷ ascii "reduced" ∷ [] }

same_hash :
    compute_module_abi_hash small.blake3 counter ≡ compute_module_abi_hash small.blake3 rewritten
unfolding compute_module_abi_hash function_entries struct_entries place cmp_bytes
same_hash = refl

rewritten-IsPublishable :
    (r : ModulePublish)
    → r.sender ≡ alice
    → IsPublishable upgrading schedule full_view r (ascii "rewritten")
unfolding has_module contains module_metadata get_raw
rewritten-IsPublishable r own = record {
  compiled = rewritten;
  parsed = refl;
  owner = sym own;
  present = true;
  found = refl;
  permitted = upgrade (some (1 ∷ [])) upgradable refl refl refl (inr same_hash);
  verified = refl;
  dependencies = tt;
  metadata = ascii "counter";
  encoded = refl;
}

upgraded :
    (o : VmOutput) × (publish_modules upgrading schedule full_view request ≡ ok o)
    × (o.status ≡ success)
upgraded =
    (publish_modules_succeeds_iff upgrading schedule full_view request).1
      (rewritten-IsPublishable request refl, tt)

counter-HasRecorded : HasRecorded upgrading full_view alice upgradable
unfolding has_module contains get_raw compute_module_abi_hash abi_bytes
counter-HasRecorded = record {
  present = refl;
  raw = some (1 ∷ []);
  stored = refl;
  is = refl;
  hashed = bytes_ne _ zero_hash refl;
}

get-IsFunctionEntry : IsFunctionEntry (function_entry counter get_def)
unfolding encode_token to_le_bytes
get-IsFunctionEntry = record {
  name = (omega arith, (omega arith, (omega arith, tt)));
  vis = omega arith;
  params = omega arith;
  ret = omega arith;
}

set-IsFunctionEntry : IsFunctionEntry (function_entry counter set_def)
unfolding encode_token to_le_bytes
set-IsFunctionEntry = record {
  name = (omega arith, (omega arith, (omega arith, tt)));
  vis = omega arith;
  params = omega arith;
  ret = omega arith;
}

counter-IsStructEntry : IsStructEntry (struct_entry counter counter_def)
unfolding struct_entry layout_bytes field_bytes with_length encode_token to_le_bytes
counter-IsStructEntry = record {
  name = (omega arith, (omega arith, (omega arith, tt)));
  abilities = omega arith;
  fields = omega arith;
}

counter-AreEntries :
    AreEntries
      (function_entries counter counter.function_defs)
      (struct_entries counter counter.struct_defs)
unfolding function_entries struct_entries
counter-AreEntries = record {
  functions_each = (get-IsFunctionEntry, (set-IsFunctionEntry, tt));
  functions_size = omega arith;
  structs_each = (counter-IsStructEntry, tt);
  structs_size = omega arith;
}

rewritten-AreEntries :
    AreEntries
      (function_entries rewritten rewritten.function_defs)
      (struct_entries rewritten rewritten.struct_defs)
unfolding function_entries struct_entries
rewritten-AreEntries = record {
  functions_each = (set-IsFunctionEntry, (get-IsFunctionEntry, tt));
  functions_size = omega arith;
  structs_each = (counter-IsStructEntry, tt);
  structs_size = omega arith;
}

types-AreEncodable : AreEncodable (token (vector u64) (token (struct 3) end))
unfolding IsEncodable
types-AreEncodable = (tt, (omega arith, tt))

both :
    AreEncodable (token (vector u64) (token (struct 3) end))
    × AreEncodable (token (vector u64) (token (struct 3) end))
both = (types-AreEncodable, types-AreEncodable)

publish_modules-HaveSameExports_example : HaveSameExports counter rewritten
publish_modules-HaveSameExports_example =
    publish_modules-HaveSameExports upgrading schedule full_view request upgraded.0 counter
      rewritten (ascii "rewritten") upgradable upgraded.1 upgraded.2 (Memᴰ.head refl) refl
      counter-HasRecorded refl counter-AreEntries rewritten-AreEntries (both, (both, (both, tt)))
      (both, (both, tt)) (λ e. e)

stored_metadata : get_raw full_view alice module_metadata_key ≡ ok (some (1 ∷ []))
unfolding get_raw
stored_metadata = refl

fewer_exports :
    compute_module_abi_hash small.blake3 counter ≢ compute_module_abi_hash small.blake3 reduced
unfolding compute_module_abi_hash function_entries struct_entries abi_bytes place cmp_bytes
    length_bytes to_le_bytes
fewer_exports = bytes_ne _ _ refl

publish_modules_refused_example :
    publish_modules upgrading schedule full_view reducing ≡ ok (rejection upgrading schedule 22)
publish_modules_refused_example =
    publish_modules_refused upgrading schedule full_view reducing (ascii "rewritten" ∷ []) []
      (ascii "reduced") reduced (some (1 ∷ [])) 22 refl (rewritten-IsPublishable reducing refl, tt)
      refl refl counter-HasRecorded.present stored_metadata
      (inr (inr (refl, counter-HasRecorded.hashed, fewer_exports, refl)))
