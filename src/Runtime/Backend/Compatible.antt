-- ===== src/Runtime/Backend/Compatible.antt =====
-- What an upgrade of a module published as compatible keeps: `publish_modules` of
-- crates/nexus-move-runtime/src/vm_backend.rs with the interface hashes of abi.rs.
use mathlib.Core.List.{Memᴰ}
use mathlib.Core.Option.{some-injective}
use mathlib.Core.Path.{subst}
use nexus_move.Prelude.{
  ◌≡◌, ◌≢◌, ◌⊎◌, inl, inr, sym, ap, ◌∙◌, Bool, true, false, Option, some, Bytes, ok,
}
use nexus_move.Types.{AccountAddress}
use nexus_move.Package.{PackageMetadata}
use nexus_move.Runtime.Abi.{
  CompiledModule, function_entries, struct_entries, compute_module_abi_hash,
}
use nexus_move.Runtime.Abi.Injective.{AreEntries, abi_bytes_of, compute_module_abi_hash_injective}
use nexus_move.Runtime.Abi.Interface.{
  All-Mem, HasEncodable, KeepsFunctions, KeepsStructs, functions_kept, structs_kept,
}
use nexus_move.Runtime.Data.{ModulePublish, VmOutput, VmResult, success}
use nexus_move.Runtime.Gas.{GasSchedule}
use nexus_move.Runtime.State.{NexusStateView, get_raw, has_module, module_metadata_key}
use nexus_move.Runtime.Backend.{MoveEnv}
use nexus_move.Runtime.Backend.Publish.{zero_hash, decoded, publish_modules}
use nexus_move.Runtime.Backend.Success.{IsPublishable, publish_modules_succeeds_iff}
use nexus_move.Runtime.Backend.Upgrades.{Permitted, fresh, upgrade, ok_injective}

-- Two modules with the same exported functions, by name, visibility, entry flag and types of
-- parameters and results, and the same structs, by name, abilities and text of the fields. A struct
-- in a type is its index in the module's table, and type parameters are not compared.
pub record HaveSameExports (old new : CompiledModule) : Type 0 where
  pub functions : KeepsFunctions old new
  pub no_other_function : KeepsFunctions new old
  pub structs : KeepsStructs old new
  pub no_other_struct : KeepsStructs new old

-- Metadata with an interface hash stands at an address with a module.
pub record HasRecorded (env : MoveEnv) (state : NexusStateView) (a : AccountAddress)
    (m : PackageMetadata) : Type 0 where
  pub present : has_module state a ≡ ok true
  pub raw : Option Bytes
  pub stored : get_raw state a module_metadata_key ≡ ok raw
  pub is : decoded env.decode_metadata raw ≡ some m
  pub hashed : m.abi_hash ≢ zero_hash

present_not_fresh : {r : VmResult Bool} → r ≡ ok true → r ≡ ok false → ⊥
present_not_fresh h k = cc (h, k)

recorded_hash :
    (env : MoveEnv) (state : NexusStateView) (c : CompiledModule) (m : PackageMetadata)
    → Permitted env state c
    → HasRecorded env state c.self_address m
    → m.abi_hash ≡ compute_module_abi_hash env.blake3 c
recorded_hash env state c m (fresh e) r = absurd (present_not_fresh r.present e)
recorded_hash env state c m (upgrade raw m' read found policy same) r =
    let again : raw ≡ r.raw = ok_injective (sym read ∙ r.stored) in
    let one : m' ≡ m =
      some-injective m' m (sym found ∙ ap (decoded env.decode_metadata) again ∙ r.is) in
    kept (
      subst (λ x. (x.abi_hash ≡ zero_hash) ⊎ (x.abi_hash ≡ compute_module_abi_hash env.blake3 c))
        one same)
  where
    kept :
        (m.abi_hash ≡ zero_hash) ⊎ (m.abi_hash ≡ compute_module_abi_hash env.blake3 c)
        → m.abi_hash ≡ compute_module_abi_hash env.blake3 c
    kept (inl e) = absurd (r.hashed e)
    kept (inr e) = e

module _ (env : MoveEnv) (schedule : GasSchedule) (state : NexusStateView)
    (request : ModulePublish) where
  -- What an upgrade keeps: where metadata with the interface hash of some old module stand at the
  -- sender's address, which has a module, and the publication succeeds, each exported function of
  -- the old module is one of each published module, with the same name, visibility, entry flag,
  -- parameters and results, and each struct one with the same name, abilities and text of its
  -- fields; and the published module has no others. A struct in a type is its index in the module's
  -- table of handles, so that another struct may stand at the index; a function's and a struct's
  -- type parameters are not compared. The hash function does not collide on the two modules, and
  -- the entries and types of both have sizes and names as the binary format has them.
  pub publish_modules-HaveSameExports :
      (o : VmOutput) (old new : CompiledModule) (b : Bytes) (m : PackageMetadata)
      → publish_modules env schedule state request ≡ ok o
      → o.status ≡ success
      → Memᴰ b request.modules
      → env.deserialize b ≡ ok new
      → HasRecorded env state request.sender m
      → m.abi_hash ≡ compute_module_abi_hash env.blake3 old
      → AreEntries (function_entries old old.function_defs) (struct_entries old old.struct_defs)
      → AreEntries (function_entries new new.function_defs) (struct_entries new new.struct_defs)
      → HasEncodable old
      → HasEncodable new
      → (env.blake3 (abi_bytes_of old) ≡ env.blake3 (abi_bytes_of new)
          → abi_bytes_of old ≡ abi_bytes_of new)
      → HaveSameExports old new
  publish_modules-HaveSameExports o old new b m h succeeded listed parsed recorded hash p q
        encodable encodable' apart =
      let all = (publish_modules_succeeds_iff env schedule state request).0 (o, h, succeeded) in
      let can = All-Mem (IsPublishable env schedule state request) b request.modules all listed in
      let same : can.compiled ≡ new = ok_injective (sym can.parsed ∙ parsed) in
      let owner : new.self_address ≡ request.sender =
        sym (ap (λ (c : CompiledModule). c.self_address) same) ∙ can.owner in
      let now : m.abi_hash ≡ compute_module_abi_hash env.blake3 new =
        recorded_hash env state new m (subst (Permitted env state) same can.permitted)
          (subst (λ a. HasRecorded env state a m) (sym owner) recorded) in
      let (functions, structs) =
        compute_module_abi_hash_injective env.blake3 old new p q apart (sym hash ∙ now) in
      record {
        functions = functions_kept old new encodable encodable' functions;
        no_other_function = functions_kept new old encodable' encodable (sym functions);
        structs = structs_kept old new structs;
        no_other_struct = structs_kept new old (sym structs);
      }
