-- ===== src/Package/Native/Laws.antt =====
-- What the native backend makes of the compiler's units: `compile` in
-- crates/nexus-move-package/src/native_backend.rs.
use nexus_move.Prelude.{
  ◌≡◌, ◌⊎◌, refl, ap, true, false, List, [], ◌∷◌, ◌++◌, All, Bytes, ascii, Result, ok, err, panic,
  map_err, ◌>>=◌, Bool-cases, inl, inr,
}
use nexus_move.Prelude.Orders.{bytes_order}
use nexus_move.Package.{
  BuildPlan, BuildError, package_dir_missing, backend, CompiledModule, CompiledPackage, join,
}
use nexus_move.Package.Backends.{or_text}
use nexus_move.Package.Bootstrap.Laws.{IsWritable}
use nexus_move.Package.Merge.{merged_named_addresses}
use nexus_move.Package.Disk.{Disk, exists}
use nexus_move.Package.Native.Options.{IsAsked, compiler_options-IsAsked}
use nexus_move.Package.Native.{
  Compiler, CompilerOptions, CompiledUnit, module_unit, script_unit, NativeCompileBackend,
  collect_modules, compilation_failed, compiler_options, package_of, compile_sources,
  native_compile,
}

-- The modules are those of the units, in order and each serialized; scripts have none.
abbrev pub AreSerialized : List CompiledUnit → List CompiledModule → Type 0
AreSerialized [] modules = modules ≡ []
AreSerialized (script_unit ∷ units) modules = AreSerialized units modules
AreSerialized (module_unit name serialized ∷ units) modules =
    (bytes : Bytes) × (rest : List CompiledModule) × (serialized ≡ ok bytes)
    × (modules ≡ record { name = name; bytes = bytes } ∷ rest)
    × AreSerialized units rest

-- The first module that is not serialized decides the result.
abbrev pub StopsWith : {E A : Type 0} → (Bytes → E) → List CompiledUnit → Result E A → Type 0
StopsWith failed [] r = ⊥
StopsWith failed (script_unit ∷ units) r = StopsWith failed units r
StopsWith failed (module_unit name (ok bytes) ∷ units) r = StopsWith failed units r
StopsWith failed (module_unit name (err e) ∷ units) r =
    r ≡ err (failed (ascii "serialization failed: " ++ e))
StopsWith failed (module_unit name panic ∷ units) r = r ≡ panic

pub ok_injective : {E A : Type 0} {a b : A} → ◌≡◌ {A = Result E A} (ok a) (ok b) → a ≡ b
ok_injective h = cc

pub map_err_ok :
    {E F A : Type 0} (f : E → F) (r : Result E A) {a : A} → map_err f r ≡ ok a → r ≡ ok a
map_err_ok f panic h = cc
map_err_ok f (err e) h = cc
map_err_ok f (ok b) h = cc

-- What follows does not change where it stops.
stops_bind :
    {E A B : Type 0} (f : Bytes → E) (units : List CompiledUnit) (r : Result E A)
    (k : A → Result E B)
    → StopsWith f units r
    → StopsWith f units (r >>= k)
stops_bind f [] r k h = h
stops_bind f (script_unit ∷ units) r k h = stops_bind f units r k h
stops_bind f (module_unit name (ok bytes) ∷ units) r k h = stops_bind f units r k h
stops_bind f (module_unit name (err e) ∷ units) r k h = rw h refl
stops_bind f (module_unit name panic ∷ units) r k h = rw h refl

stops_backend :
    {A : Type 0} (units : List CompiledUnit) (r : Result Bytes A)
    → StopsWith (λ (e : Bytes). e) units r
    → StopsWith backend units (map_err backend r)
stops_backend [] r h = h
stops_backend (script_unit ∷ units) r h = stops_backend units r h
stops_backend (module_unit name (ok bytes) ∷ units) r h = stops_backend units r h
stops_backend (module_unit name (err e) ∷ units) r h = rw h refl
stops_backend (module_unit name panic ∷ units) r h = rw h refl

abbrev Collected : List CompiledUnit → Type 0
Collected units =
    ((modules : List CompiledModule) × (collect_modules units ≡ ok modules)
      × AreSerialized units modules)
    ⊎ StopsWith (λ (e : Bytes). e) units (collect_modules units)

-- What is collected behind a serialized module.
collected_next :
    (name bytes : Bytes) (units : List CompiledUnit) (r : Result Bytes (List CompiledModule))
    → ((modules : List CompiledModule) × (r ≡ ok modules) × AreSerialized units modules)
      ⊎ StopsWith (λ (e : Bytes). e) units r
    → ((modules : List CompiledModule) × ((r >>= λ modules.
            ok (record { name = name; bytes = bytes } ∷ modules))
          ≡ ok modules)
        × AreSerialized (module_unit name (ok bytes) ∷ units) modules)
      ⊎ StopsWith
          (λ (e : Bytes). e)
          units
          (r >>= λ modules. ok (record { name = name; bytes = bytes } ∷ modules))
collected_next name bytes units (ok found) (inl (modules, same, all)) = inl (
  record { name = name; bytes = bytes } ∷ modules,
  ap (λ (ms : List CompiledModule). ok (record { name = name; bytes = bytes } ∷ ms))
      (ok_injective same),
  (bytes, modules, refl, refl, all),
)
collected_next name bytes units (err e) (inl (modules, same, all)) = cc
collected_next name bytes units panic (inl (modules, same, all)) = cc
collected_next name bytes units r (inr stops) = inr (stops_bind (λ e. e) units r _ stops)

collected : (units : List CompiledUnit) → Collected units
unfolding collect_modules
collected [] = inl ([], refl, refl)
collected (script_unit ∷ units) = collected units
collected (module_unit name panic ∷ units) = inr refl
collected (module_unit name (err e) ∷ units) = inr refl
collected (module_unit name (ok bytes) ∷ units) =
    collected_next name bytes units (collect_modules units) (collected units)

module _ (b : NativeCompileBackend) (d : Disk) (plan : BuildPlan) where
  -- The package of a plan: its name, policy and named addresses are the plan's.
  pub record IsPackage (compiled : CompiledPackage) : Type 0 where
    pub name : compiled.package_name ≡ or_text (ascii "unknown") plan.move_toml.package_name
    pub policy : compiled.upgrade_policy ≡ plan.move_toml.upgrade_policy
    pub addresses : compiled.named_addresses ≡ merged_named_addresses plan

  -- What becomes of the compiler's answer.
  abbrev pub Becomes : Result Bytes (List CompiledUnit) → Result BuildError CompiledPackage → Type 0
  Becomes panic r = r ≡ panic
  Becomes (err e) r = r ≡ err (backend (ascii "compilation failed: " ++ e))
  Becomes (ok units) r =
      ((compiled : CompiledPackage) × (r ≡ ok compiled)
        × AreSerialized units compiled.modules
        × IsPackage compiled)
      ⊎ StopsWith backend units r

  becomes :
      (answer : Result Bytes (List CompiledUnit))
      → Becomes answer (
          map_err (λ e. backend (compilation_failed e)) answer >>= λ units.
          map_err backend (collect_modules units) >>= λ modules. ok (package_of plan modules))
  becomes panic = refl
  becomes (err e) = refl
  becomes (ok units) = elim (collected units) [
    | inl (modules, same, all) ↦ inl (
      package_of plan modules,
      rw same refl,
      all,
      record { name = refl; policy = refl; addresses = refl },
    )
    | inr stops ↦ inr (
        stops_bind backend units (map_err backend (collect_modules units)) _
          (stops_backend units (collect_modules units) stops))
  ]

  -- Every outcome of the backend, where the plan's named addresses can be written. Without the
  -- package's sources it is an error, and the disk is unchanged. Otherwise the disk and the result
  -- come from the compiler's answer to what the plan asks for: its failure is a failure, the first
  -- module that is not serialized is a failure, and otherwise the result is the package of its
  -- modules, without its scripts, with the plan's name, policy and named addresses. The plan asks
  -- for the package's sources, the dependencies that exist, the plan's attributes and `view`, and
  -- gives texts that are read as the plan's named addresses.
  pub native_compile_outcomes :
      (run_move_compiler : Compiler)
      → All IsWritable (merged_named_addresses plan)
      → let sources = join plan.options.package_dir (ascii "sources") in
        let r = native_compile run_move_compiler b d plan in
        ((exists d sources ≡ false) × (r ≡ (err (package_dir_missing sources), d)))
        ⊎ ((exists d sources ≡ true)
            × ((o : CompilerOptions) × IsAsked b d plan o
                × (r.1 ≡ (run_move_compiler d o).1)
                × Becomes (run_move_compiler d o).0 r.0))
  unfolding native_compile compile_sources
  native_compile_outcomes run_move_compiler w =
      elim (Bool-cases (exists d (join plan.options.package_dir (ascii "sources")))) [
        | inl e ↦ rw e (
            inr (
              refl,
              (
                compiler_options b d plan,
                compiler_options-IsAsked b d plan w,
                refl,
                becomes (run_move_compiler d (compiler_options b d plan)).0,
              ),
            ))
        | inr e ↦ rw e (inl (refl, refl))
      ]
