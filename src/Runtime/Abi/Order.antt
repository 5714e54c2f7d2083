-- ===== src/Runtime/Abi/Order.antt =====
-- What the hash of an interface does not depend on: private functions, and every order.
use mathlib.Core.Path.{subst}
use mathlib.Core.List.{Permᴰ}
use nexus_move.Prelude.{
  ◌≡◌, refl, sym, ap, ◌∙◌, List, [], ◌∷◌, inl, inr, map, Bytes, Bool-cases, if◌then◌else◌, is_empty,
  All, ◌≢◌,
}
use nexus_move.Prelude.Orders.{bytes_order}
use nexus_move.Prelude.Sorting.{DistinctKeys, sort_by_rearranged}
use nexus_move.Types.{HashValue}
use nexus_move.Runtime.Abi.{
  CompiledModule, FunctionDefinition, FunctionEntry, StructDefinition, StructEntry, NamedHash,
  is_private, function_entry, function_entries, struct_entry, struct_entries, abi_bytes,
  compute_module_abi_hash, module_hashes, compute_package_abi_hash,
}

-- The public and friend functions.
abbrev pub exported : List FunctionDefinition → List FunctionDefinition
exported [] = []
exported (d ∷ defs) = if is_private d.visibility then exported defs else d ∷ exported defs

abbrev pub entry_name : FunctionEntry → Bytes
entry_name e = e.name

abbrev pub struct_name : StructEntry → Bytes
struct_name e = e.name

map_rearranged :
    {A B : Type 0} (f : A → B) {xs ys : List A} → Permᴰ xs ys → Permᴰ (map f xs) (map f ys)
map_rearranged f Permᴰ.nil = Permᴰ.nil
map_rearranged f (Permᴰ.cons e p) = Permᴰ.cons (ap f e) (map_rearranged f p)
map_rearranged f (Permᴰ.swap e e') = Permᴰ.swap (ap f e) (ap f e')
map_rearranged f (Permᴰ.trans p q) = Permᴰ.trans (map_rearranged f p) (map_rearranged f q)

function_entries-exported :
    (m : CompiledModule) (defs : List FunctionDefinition)
    → function_entries m defs ≡ map (function_entry m) (exported defs)
unfolding function_entries
function_entries-exported m [] = refl
function_entries-exported m (d ∷ defs) =
    let rest = function_entries-exported m defs in
    elim (Bool-cases (is_private d.visibility)) [
      | inl e ↦ rw e rest
      | inr e ↦ rw e (ap (λ es. function_entry m d ∷ es) rest)
    ]

struct_entries-map :
    (m : CompiledModule) (defs : List StructDefinition)
    → struct_entries m defs ≡ map (struct_entry m) defs
unfolding struct_entries
struct_entries-map m [] = refl
struct_entries-map m (d ∷ defs) = ap (λ es. struct_entry m d ∷ es) (struct_entries-map m defs)

abi_bytes_rearranged :
    {fs fs' : List FunctionEntry} {ss ss' : List StructEntry}
    → Permᴰ fs fs'
    → Permᴰ ss ss'
    → DistinctKeys entry_name fs
    → DistinctKeys struct_name ss
    → abi_bytes fs ss ≡ abi_bytes fs' ss'
unfolding abi_bytes
abi_bytes_rearranged p q d e =
    rw (sort_by_rearranged entry_name p d) (rw (sort_by_rearranged struct_name q e) refl)

is_empty_rearranged : {A : Type 0} {xs ys : List A} → Permᴰ xs ys → is_empty xs ≡ is_empty ys
is_empty_rearranged Permᴰ.nil = refl
is_empty_rearranged (Permᴰ.cons e p) = refl
is_empty_rearranged (Permᴰ.swap e f) = refl
is_empty_rearranged (Permᴰ.trans p q) = is_empty_rearranged p ∙ is_empty_rearranged q

subst2 : {A : Type 0} (P : A → A → Type 0) {a b c d : A} → a ≡ b → c ≡ d → P a c → P b d
subst2 P {b = b} {c = c} e f x = subst (P b) f (subst (λ y. P y c) e x)

module _ (blake3 : Bytes → HashValue) where
  -- A module's hash depends on its exported functions and its structs only, and not on their
  -- order: other definitions whose exported functions are a rearrangement of the module's, with
  -- any private functions among them, and a rearrangement of the structs, give the same hash. The
  -- exported functions have distinct names, and so have the structs.
  pub compute_module_abi_hash_rearranged :
      (m : CompiledModule) (defs : List FunctionDefinition) (structs : List StructDefinition)
      → Permᴰ (exported m.function_defs) (exported defs)
      → Permᴰ m.struct_defs structs
      → DistinctKeys entry_name (function_entries m m.function_defs)
      → DistinctKeys struct_name (struct_entries m m.struct_defs)
      → compute_module_abi_hash blake3 (record m { function_defs = defs; struct_defs = structs })
        ≡ compute_module_abi_hash blake3 m
  unfolding compute_module_abi_hash
  compute_module_abi_hash_rearranged m defs structs p q d e =
      let m' : CompiledModule = record m { function_defs = defs; struct_defs = structs } in
      let functions : Permᴰ (function_entries m m.function_defs) (function_entries m' defs) =
        subst2 Permᴰ (sym (function_entries-exported m m.function_defs))
          (sym (function_entries-exported m' defs)) (map_rearranged (function_entry m) p) in
      let types : Permᴰ (struct_entries m m.struct_defs) (struct_entries m' structs) =
        subst2 Permᴰ (sym (struct_entries-map m m.struct_defs))
          (sym (struct_entries-map m' structs))
          (unfold struct_entry in map_rearranged (struct_entry m) q) in
      ap blake3 (sym (abi_bytes_rearranged functions types d e))

  hash_one : CompiledModule → NamedHash
  hash_one m = (m.self_name, compute_module_abi_hash blake3 m)

  abbrev name_of : NamedHash → Bytes
  name_of p = p.0

  module_hashes_map :
      (modules : List CompiledModule) → module_hashes blake3 modules ≡ map hash_one modules
  unfolding module_hashes hash_one
  module_hashes_map [] = refl
  module_hashes_map (m ∷ modules) = ap (λ hs. hash_one m ∷ hs) (module_hashes_map modules)

  named_apart :
      (m : CompiledModule) (modules : List CompiledModule)
      → All (λ (n : CompiledModule). m.self_name ≢ n.self_name) modules
      → All (λ p. m.self_name ≢ name_of p) (module_hashes blake3 modules)
  unfolding module_hashes
  named_apart m [] a = tt
  named_apart m (n ∷ modules) a = (a.0, named_apart m modules a.1)

  named :
      (modules : List CompiledModule)
      → DistinctKeys (λ (m : CompiledModule). m.self_name) modules
      → DistinctKeys name_of (module_hashes blake3 modules)
  unfolding module_hashes
  named [] d = tt
  named (m ∷ modules) d = (named_apart m modules d.0, named modules d.1)

  -- A package's hash does not depend on the order of its modules, which have distinct names.
  pub compute_package_abi_hash_rearranged :
      (modules modules' : List CompiledModule)
      → Permᴰ modules modules'
      → DistinctKeys (λ (m : CompiledModule). m.self_name) modules
      → compute_package_abi_hash blake3 modules ≡ compute_package_abi_hash blake3 modules'
  unfolding compute_package_abi_hash
  compute_package_abi_hash_rearranged modules modules' p d =
      let hashes =
        subst2 Permᴰ (sym (module_hashes_map modules)) (sym (module_hashes_map modules'))
          (map_rearranged hash_one p) in
      rw (is_empty_rearranged p) (rw (sort_by_rearranged name_of hashes (named modules d)) refl)
