-- ===== src/Runtime/Abi/Interface.antt =====
-- What two modules with the same interface hash have in common, in terms of their definitions:
-- `compute_module_abi_hash` of crates/nexus-move-runtime/src/abi.rs.
use mathlib.Core.List.{Memᴰ}
use mathlib.Core.Path.{subst}
use nexus_move.Prelude.{◌≡◌, refl, sym, ap, false, List, [], ◌∷◌, All, Bytes, Bool-cases, inl, inr}
use nexus_move.Prelude.Lists.{All-map, All-map₂}
use nexus_move.Prelude.Orders.{bytes_order}
use nexus_move.Prelude.Sorting.{sort_by, sort_by-All, sort_by-All_inv}
use nexus_move.Runtime.Signature.{Signature}
use nexus_move.Runtime.Abi.{
  CompiledModule, FunctionDefinition, StructDefinition, Visibility, private, public, friend,
  FunctionEntry, StructEntry, visibility_byte, is_private, function_entry, function_entries,
  struct_entry, struct_entries, layout_bytes,
}
use nexus_move.Runtime.Abi.Decoder.{AreEncodable}
use nexus_move.Runtime.Abi.Tokens.{encode_each-injective}

abbrev pub function_name : CompiledModule → FunctionDefinition → Bytes
function_name m f = m.identifier_at (m.function_handle_at f.handle).name

abbrev pub parameters_of : CompiledModule → FunctionDefinition → Signature
parameters_of m f = m.signature_at (m.function_handle_at f.handle).parameters

abbrev pub results_of : CompiledModule → FunctionDefinition → Signature
results_of m f = m.signature_at (m.function_handle_at f.handle).return_

module _ (old new : CompiledModule) where
  -- Two functions with the same name, visibility, entry flag and types of parameters and results; a
  -- struct in a type is its index in the module's table of handles.
  pub record SameFunction (f g : FunctionDefinition) : Type 0 where
    pub name : function_name old f ≡ function_name new g
    pub visibility : f.visibility ≡ g.visibility
    pub entry : f.is_entry ≡ g.is_entry
    pub parameters : parameters_of old f ≡ parameters_of new g
    pub results : results_of old f ≡ results_of new g

  -- Two structs with the same name and abilities, and the same text for their fields.
  pub record SameStruct (s t : StructDefinition) : Type 0 where
    pub name :
        old.identifier_at (old.struct_handle_at s.handle).name
        ≡ new.identifier_at (new.struct_handle_at t.handle).name
    pub abilities :
        (old.struct_handle_at s.handle).abilities ≡ (new.struct_handle_at t.handle).abilities
    pub fields :
        layout_bytes old.identifier_at s.field_information
        ≡ layout_bytes new.identifier_at t.field_information

  -- Each exported function of the old module is one of the new module.
  abbrev pub KeepsFunctions : Type 0
  KeepsFunctions =
      All
        (λ (f : FunctionDefinition).
          is_private f.visibility ≡ false
          → (g : FunctionDefinition) × Memᴰ g new.function_defs × SameFunction f g)
        old.function_defs

  abbrev pub KeepsStructs : Type 0
  KeepsStructs =
      All
        (λ (s : StructDefinition). (t : StructDefinition) × Memᴰ t new.struct_defs × SameStruct s t)
        old.struct_defs

-- The types in the functions of a module can be encoded: indices are within u16, and lists have at
-- most 255 types.
abbrev pub HasEncodable : CompiledModule → Type 0
HasEncodable m =
    All
      (λ (f : FunctionDefinition). AreEncodable (parameters_of m f) × AreEncodable (results_of m f))
      m.function_defs

pub All-Mem : {A : Type 0} (P : A → Type 0) (x : A) (xs : List A) → All P xs → Memᴰ x xs → P x
All-Mem P x [] h m = elim m [ ]
All-Mem P x (y ∷ xs) h (Memᴰ.head e) = subst P (sym e) h.0
All-Mem P x (y ∷ xs) h (Memᴰ.tail m) = All-Mem P x xs h.1 m

All-self : {A : Type 0} (xs : List A) → All (λ x. Memᴰ x xs) xs
All-self [] = tt
All-self (x ∷ xs) = (Memᴰ.head refl, All-map (λ y m. Memᴰ.tail m) xs (All-self xs))

-- Lists that are sorted alike have the same elements.
sorted_alike :
    {A : Type 0} (key : A → Bytes) (xs ys : List A)
    → sort_by key xs ≡ sort_by key ys
    → All (λ x. Memᴰ x ys) xs
sorted_alike key xs ys same =
    sort_by-All_inv key (λ x. Memᴰ x ys) xs
      (subst (All (λ x. Memᴰ x ys)) (sym same) (sort_by-All key (λ x. Memᴰ x ys) ys (All-self ys)))

-- An entry is that of a function that is not private.
entry_of :
    (m : CompiledModule) (e : FunctionEntry) (defs : List FunctionDefinition)
    → Memᴰ e (function_entries m defs)
    → (g : FunctionDefinition) × Memᴰ g defs
      × (is_private g.visibility ≡ false)
      × (e ≡ function_entry m g)
unfolding function_entries
entry_of m e [] h = elim h [ ]
entry_of m e (def ∷ defs) h = elim (Bool-cases (is_private def.visibility)) [
  | inl p ↦
      let (g, listed, exported, same) = entry_of m e defs (rw p at h) in
      (g, Memᴰ.tail listed, exported, same)
  | inr p ↦ here p (λ listed. entry_of m e defs listed) (rw p at h)
]
  where
    here :
        is_private def.visibility ≡ false
        → (Memᴰ e (function_entries m defs)
            → (g : FunctionDefinition) × Memᴰ g defs
              × (is_private g.visibility ≡ false)
              × (e ≡ function_entry m g))
        → Memᴰ e (function_entry m def ∷ function_entries m defs)
        → (g : FunctionDefinition) × Memᴰ g (def ∷ defs)
          × (is_private g.visibility ≡ false)
          × (e ≡ function_entry m g)
    here p rest (Memᴰ.head same) = (def, Memᴰ.head refl, p, same)
    here p rest (Memᴰ.tail listed) =
        let (g, found, exported, same) = rest listed in (g, Memᴰ.tail found, exported, same)

entries_of :
    (Q : FunctionEntry → Type 0) (m : CompiledModule) (defs : List FunctionDefinition)
    → All Q (function_entries m defs)
    → All (λ f. is_private f.visibility ≡ false → Q (function_entry m f)) defs
unfolding function_entries
entries_of Q m [] h = tt
entries_of Q m (def ∷ defs) h = elim (Bool-cases (is_private def.visibility)) [
  | inl p ↦ ((λ e. cc (e, p)), entries_of Q m defs (rw p at h))
  | inr p ↦ let kept = rw p at h in ((λ _. kept.0), entries_of Q m defs kept.1)
]

visibility_byte-injective : (v w : Visibility) → visibility_byte v ≡ visibility_byte w → v ≡ w
visibility_byte-injective private private e = refl
visibility_byte-injective public public e = refl
visibility_byte-injective friend friend e = refl
visibility_byte-injective private public e = cc
visibility_byte-injective private friend e = cc
visibility_byte-injective public private e = cc
visibility_byte-injective public friend e = cc
visibility_byte-injective friend private e = cc
visibility_byte-injective friend public e = cc

struct_of :
    (m : CompiledModule) (e : StructEntry) (defs : List StructDefinition)
    → Memᴰ e (struct_entries m defs)
    → (t : StructDefinition) × Memᴰ t defs × (e ≡ struct_entry m t)
unfolding struct_entries
struct_of m e [] h = elim h [ ]
struct_of m e (def ∷ defs) (Memᴰ.head same) = (def, Memᴰ.head refl, same)
struct_of m e (def ∷ defs) (Memᴰ.tail listed) =
    let (t, found, same) = struct_of m e defs listed in (t, Memᴰ.tail found, same)

structs_of :
    (Q : StructEntry → Type 0) (m : CompiledModule) (defs : List StructDefinition)
    → All Q (struct_entries m defs)
    → All (λ s. Q (struct_entry m s)) defs
unfolding struct_entries
structs_of Q m [] h = tt
structs_of Q m (def ∷ defs) h = (h.0, structs_of Q m defs h.1)

module _ (old new : CompiledModule) where
  pub functions_kept :
      HasEncodable old
      → HasEncodable new
      → sort_by (λ e. FunctionEntry.name e) (function_entries old old.function_defs)
        ≡ sort_by (λ e. FunctionEntry.name e) (function_entries new new.function_defs)
      → KeepsFunctions old new
  functions_kept p q same =
      let entries =
        entries_of (λ e. Memᴰ e (function_entries new new.function_defs)) old old.function_defs
          (sorted_alike FunctionEntry.name (function_entries old old.function_defs)
            (function_entries new new.function_defs) same) in
      All-map₂
        (λ f (params, results) listed exported.
          let (g, found, _, e) =
            entry_of new (function_entry old f) new.function_defs (listed exported) in
          let (params', results') = All-Mem _ g new.function_defs q found in
          (
            g,
            found,
            record {
              name = ap (λ (x : FunctionEntry). x.name) e;
              visibility =
                  visibility_byte-injective f.visibility g.visibility
                    (ap (λ (x : FunctionEntry). x.vis) e);
              entry = ap (λ (x : FunctionEntry). x.is_entry) e;
              parameters =
                  encode_each-injective (parameters_of old f) (parameters_of new g) params params'
                    (ap (λ (x : FunctionEntry). x.params) e);
              results =
                  encode_each-injective (results_of old f) (results_of new g) results results'
                    (ap (λ (x : FunctionEntry). x.ret) e);
            },
          ))
        old.function_defs p entries

  pub structs_kept :
      sort_by (λ e. StructEntry.name e) (struct_entries old old.struct_defs)
        ≡ sort_by (λ e. StructEntry.name e) (struct_entries new new.struct_defs)
      → KeepsStructs old new
  unfolding struct_entry
  structs_kept same =
      All-map
        (λ s listed.
          let (t, found, e) = struct_of new (struct_entry old s) new.struct_defs listed in
          (
            t,
            found,
            record {
              name = ap (λ (x : StructEntry). x.name) e;
              abilities = ap (λ (x : StructEntry). x.abilities) e;
              fields = ap (λ (x : StructEntry). x.fields) e;
            },
          ))
        old.struct_defs
        (structs_of (λ e. Memᴰ e (struct_entries new new.struct_defs)) old old.struct_defs
          (sorted_alike StructEntry.name (struct_entries old old.struct_defs)
            (struct_entries new new.struct_defs) same))
