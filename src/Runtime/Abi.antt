-- ===== src/Runtime/Abi.antt =====
-- crates/nexus-move-runtime/src/abi.rs: the hash of a module's public interface. The compiled
-- module is the binary format's: what the code reads of it is the record `CompiledModule`.
pub mod Decoder
pub mod Tokens
pub mod Order
pub mod Cancel
pub mod Injective
pub mod Interface
mod Tests
use nexus_move.Prelude.{
  ℕ, zero, suc, ◌+◌, ◌%◌, ◌^◌, Bool, true, false, List, [], ◌∷◌, ◌++◌, map, length, is_empty,
  replicate, if◌then◌else◌, Bytes, bytes_eq, ascii,
}
use nexus_move.Prelude.Orders.{bytes_order}
use nexus_move.Prelude.Sorting.{sort_by}
use nexus_move.Prelude.Word.{to_le_bytes}
use nexus_move.Runtime.Signature.{SignatureToken, Signature, encode_token, encode_each}
use nexus_move.Types.{AccountAddress, HashValue}

pub data Visibility : Type 0 where
  private public friend : Visibility

-- `visibility as u8`
abbrev pub visibility_byte : Visibility → ℕ
visibility_byte private = 0
visibility_byte public = 1
visibility_byte friend = 3

abbrev pub is_private : Visibility → Bool
is_private private = true
is_private public = false
is_private friend = false

pub record FunctionHandle : Type 0 where
  pub name : ℕ
  pub parameters : ℕ
  pub return_ : ℕ

pub record FunctionDefinition : Type 0 where
  pub handle : ℕ
  pub visibility : Visibility
  pub is_entry : Bool

pub record FieldDefinition : Type 0 where
  pub name : ℕ
  pub signature : SignatureToken

pub record VariantDefinition : Type 0 where
  pub name : ℕ
  pub fields : List FieldDefinition

pub data StructFieldInformation : Type 0 where
  native : StructFieldInformation
  declared : List FieldDefinition → StructFieldInformation
  declared_variants : List VariantDefinition → StructFieldInformation

pub record StructHandle : Type 0 where
  pub name : ℕ
  pub abilities : ℕ

pub record StructDefinition : Type 0 where
  pub handle : ℕ
  pub field_information : StructFieldInformation

-- What the code reads of a module, through the accessors of `ModuleAccess`.
pub record CompiledModule : Type 0 where
  pub self_address : AccountAddress
  pub self_name : Bytes
  pub immediate_dependencies : List (AccountAddress × Bytes)
  pub function_defs : List FunctionDefinition
  pub struct_defs : List StructDefinition
  pub function_handle_at : ℕ → FunctionHandle
  pub struct_handle_at : ℕ → StructHandle
  pub identifier_at : ℕ → Bytes
  pub signature_at : ℕ → Signature

-- `(x.len() as u32).to_le_bytes()`, and then `x`
unfoldable pub length_bytes : ℕ → Bytes
length_bytes n = to_le_bytes 4 (n % 2 ^ 32)

unfoldable pub with_length : Bytes → Bytes
unfolding length_bytes
with_length bytes = length_bytes (length bytes) ++ bytes

-- `(name, visibility, is_entry, param_bytes, ret_bytes)`
pub record FunctionEntry : Type 0 where
  pub name : Bytes
  pub vis : ℕ
  pub is_entry : Bool
  pub params : Bytes
  pub ret : Bytes

abbrev pub function_entry : CompiledModule → FunctionDefinition → FunctionEntry
function_entry module_ func_def =
    let func_handle = module_.function_handle_at func_def.handle in
    record {
      name = module_.identifier_at func_handle.name;
      vis = visibility_byte func_def.visibility;
      is_entry = func_def.is_entry;
      params = encode_each (module_.signature_at func_handle.parameters);
      ret = encode_each (module_.signature_at func_handle.return_);
    }

-- The loop over `module.function_defs()`.
unfoldable pub function_entries : CompiledModule → List FunctionDefinition → List FunctionEntry
function_entries module_ [] = []
function_entries module_ (func_def ∷ func_defs) =
    let rest = function_entries module_ func_defs in
    if is_private func_def.visibility then rest else function_entry module_ func_def ∷ rest

abbrev pub flag_byte : Bool → ℕ
flag_byte true = 1
flag_byte false = 0

unfoldable pub hash_functions : List FunctionEntry → Bytes
unfolding with_length
hash_functions [] = []
hash_functions (e ∷ entries) =
    e.name
    ++ e.vis
      ∷ flag_byte e.is_entry
      ∷ (with_length e.params ++ (with_length e.ret ++ hash_functions entries))

-- The name and the type of each field; `identifier_at` is the module's.
unfoldable pub field_bytes : (ℕ → Bytes) → List FieldDefinition → Bytes
unfolding with_length
field_bytes identifier_at [] = []
field_bytes identifier_at (field ∷ fields) =
    with_length (identifier_at field.name)
    ++ (with_length (encode_token field.signature) ++ field_bytes identifier_at fields)

unfoldable pub variant_bytes : (ℕ → Bytes) → List VariantDefinition → Bytes
unfolding with_length field_bytes
variant_bytes identifier_at [] = []
variant_bytes identifier_at (variant ∷ variants) =
    with_length (identifier_at variant.name)
    ++ (field_bytes identifier_at variant.fields ++ variant_bytes identifier_at variants)

unfoldable pub layout_bytes : (ℕ → Bytes) → StructFieldInformation → Bytes
unfolding field_bytes variant_bytes
layout_bytes identifier_at native = 0xff ∷ []
layout_bytes identifier_at (declared fields) = field_bytes identifier_at fields
layout_bytes identifier_at (declared_variants variants) =
    0xfe ∷ variant_bytes identifier_at variants

-- `(name, abilities, field_bytes)`
pub record StructEntry : Type 0 where
  pub name : Bytes
  pub abilities : ℕ
  pub fields : Bytes

unfoldable pub struct_entry : CompiledModule → StructDefinition → StructEntry
unfolding layout_bytes
struct_entry module_ struct_def =
    let struct_handle = module_.struct_handle_at struct_def.handle in
    record {
      name = module_.identifier_at struct_handle.name;
      abilities = struct_handle.abilities;
      fields = layout_bytes module_.identifier_at struct_def.field_information;
    }

-- The loop over `module.struct_defs()`.
unfoldable pub struct_entries : CompiledModule → List StructDefinition → List StructEntry
unfolding struct_entry
struct_entries module_ [] = []
struct_entries module_ (struct_def ∷ struct_defs) =
    struct_entry module_ struct_def ∷ struct_entries module_ struct_defs

unfoldable pub hash_structs : List StructEntry → Bytes
unfolding with_length
hash_structs [] = []
hash_structs (e ∷ entries) = e.name ++ e.abilities ∷ (with_length e.fields ++ hash_structs entries)

-- What the hasher is fed with.
unfoldable pub abi_bytes : List FunctionEntry → List StructEntry → Bytes
unfolding length_bytes sort_by hash_functions hash_structs
abi_bytes functions structs =
    ascii "functions:"
    ++ (length_bytes (length (sort_by (λ e. FunctionEntry.name e) functions))
        ++ (hash_functions (sort_by (λ e. FunctionEntry.name e) functions)
            ++ (ascii "structs:"
                ++ (length_bytes (length (sort_by (λ e. StructEntry.name e) structs))
                    ++ hash_structs (sort_by (λ e. StructEntry.name e) structs)))))

abbrev pub NamedHash : Type 0
NamedHash = Bytes × HashValue

unfoldable pub hash_modules : List NamedHash → Bytes
hash_modules [] = []
hash_modules ((name, hash) ∷ hashes) = name ++ (hash ++ hash_modules hashes)

module _ (blake3 : Bytes → HashValue) where
  unfoldable pub compute_module_abi_hash : CompiledModule → HashValue
  unfolding function_entries struct_entries abi_bytes
  compute_module_abi_hash module_ = blake3 (
      abi_bytes (function_entries module_ module_.function_defs)
        (struct_entries module_ module_.struct_defs))

  -- `modules.iter().map(…)`
  unfoldable pub module_hashes : List CompiledModule → List NamedHash
  unfolding compute_module_abi_hash
  module_hashes [] = []
  module_hashes (m ∷ modules) = (m.self_name, compute_module_abi_hash m) ∷ module_hashes modules

  unfoldable pub compute_package_abi_hash : List CompiledModule → HashValue
  unfolding module_hashes sort_by hash_modules length_bytes
  compute_package_abi_hash modules =
      if is_empty modules
      then replicate 32 0
      else (let hashes = sort_by (λ (p : NamedHash). p.0) (module_hashes modules) in
          blake3 (ascii "package_abi:" ++ (length_bytes (length hashes) ++ hash_modules hashes)))

unfoldable pub abi_is_compatible : HashValue → HashValue → Bool
abi_is_compatible old_hash new_hash = bytes_eq old_hash new_hash
