-- ===== src/Runtime/Abi/Injective.antt =====
-- What the hash of an interface is fed with determines the interface: `compute_module_abi_hash` of
-- crates/nexus-move-runtime/src/abi.rs.
use nexus_move.Prelude.{◌≡◌, ap, arith, List, [], ◌++◌, length, drop, All, Bytes}
use nexus_move.Prelude.Orders.{bytes_order}
use nexus_move.Prelude.Sorting.{sort_by, length-sort_by, sort_by-All}
use nexus_move.Types.{HashValue}
use nexus_move.Runtime.Abi.{
  CompiledModule, FunctionEntry, StructEntry, function_entries, struct_entries, abi_bytes,
  compute_module_abi_hash,
}
use nexus_move.Runtime.Abi.Cancel.{
  IsSize, IsFunctionEntry, IsStructEntry, length_bytes_cancel, functions_cancel, structs_cancel,
}

-- The entries of a module, as many as four bytes can count.
pub record AreEntries (functions : List FunctionEntry) (structs : List StructEntry) : Type 0 where
  pub functions_each : All IsFunctionEntry functions
  pub functions_size : IsSize (length functions)
  pub structs_each : All IsStructEntry structs
  pub structs_size : IsSize (length structs)

-- The entries as they are hashed, in the order of their names.
abbrev pub by_name : List FunctionEntry → List FunctionEntry
by_name functions = sort_by (λ e. FunctionEntry.name e) functions

abbrev pub structs_by_name : List StructEntry → List StructEntry
structs_by_name structs = sort_by (λ e. StructEntry.name e) structs

sorted_size :
    {A : Type 0} (key : A → Bytes) (xs : List A)
    → IsSize (length xs)
    → IsSize (length (sort_by key xs))
sorted_size key xs h = omega (arith, h, length-sort_by key xs)

-- What the hash of a module is fed with.
abbrev pub abi_bytes_of : CompiledModule → Bytes
abi_bytes_of m = abi_bytes (function_entries m m.function_defs) (struct_entries m m.struct_defs)

abi_bytes_injective :
    (fs gs : List FunctionEntry) (ss ts : List StructEntry)
    → AreEntries fs ss
    → AreEntries gs ts
    → abi_bytes fs ss ≡ abi_bytes gs ts
    → (by_name fs ≡ by_name gs) × (structs_by_name ss ≡ structs_by_name ts)
unfolding abi_bytes
abi_bytes_injective fs gs ss ts p q h =
    let (counts, h₁) =
      length_bytes_cancel (length (by_name fs)) (length (by_name gs)) _ _
        (sorted_size FunctionEntry.name fs p.functions_size)
        (sorted_size FunctionEntry.name gs q.functions_size) (ap (drop 10) h) in
    let (functions, h₂) =
      functions_cancel (by_name fs) (by_name gs) _ _
        (sort_by-All FunctionEntry.name IsFunctionEntry fs p.functions_each)
        (sort_by-All FunctionEntry.name IsFunctionEntry gs q.functions_each) counts h₁ in
    let (counts', h₃) =
      length_bytes_cancel (length (structs_by_name ss)) (length (structs_by_name ts)) _ _
        (sorted_size StructEntry.name ss p.structs_size)
        (sorted_size StructEntry.name ts q.structs_size) (ap (drop 8) h₂) in
    let (structs, _) =
      structs_cancel (structs_by_name ss) (structs_by_name ts) [] []
        (sort_by-All StructEntry.name IsStructEntry ss p.structs_each)
        (sort_by-All StructEntry.name IsStructEntry ts q.structs_each) counts'
        (ap (λ s. s ++ []) h₃) in
    (functions, structs)

-- Where two modules have the same hash, and the hash function does not collide on what the two
-- hashes are of, the modules have the same interface: the same exported functions, by name,
-- visibility, entry flag, encoded parameters and results, and the same structs, by name, abilities
-- and encoded fields. Names have bytes from 16 on, as identifiers do, visibilities and abilities
-- are below 16, and lengths fit in four bytes.
pub compute_module_abi_hash_injective :
    (blake3 : Bytes → HashValue) (m n : CompiledModule)
    → AreEntries (function_entries m m.function_defs) (struct_entries m m.struct_defs)
    → AreEntries (function_entries n n.function_defs) (struct_entries n n.struct_defs)
    → (blake3 (abi_bytes_of m) ≡ blake3 (abi_bytes_of n) → abi_bytes_of m ≡ abi_bytes_of n)
    → compute_module_abi_hash blake3 m ≡ compute_module_abi_hash blake3 n
    → (by_name (function_entries m m.function_defs) ≡ by_name (function_entries n n.function_defs))
      × (structs_by_name (struct_entries m m.struct_defs)
          ≡ structs_by_name (struct_entries n n.struct_defs))
unfolding compute_module_abi_hash
compute_module_abi_hash_injective blake3 m n p q no_collision h =
    abi_bytes_injective (function_entries m m.function_defs) (function_entries n n.function_defs)
      (struct_entries m m.struct_defs) (struct_entries n n.struct_defs) p q (no_collision h)
