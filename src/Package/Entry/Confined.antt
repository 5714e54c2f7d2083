-- ===== src/Package/Entry/Confined.antt =====
-- The compiler's part in what a build changes: its interface files.
use mathlib.Core.Path.{subst}
use nexus_move.Prelude.{
  >>=-eq-ok, ◌≡◌, refl, sym, false, List, [], ◌∷◌, All, Bytes, ascii, Result, ok, map_err, ◌>>=◌,
  Bool-cases, inl, inr,
}
use nexus_move.Prelude.Map.{lookup}
use nexus_move.Prelude.Orders.{bytes_order}
use nexus_move.Package.{BuildPlan, BuildError, backend, CompiledModule, CompiledPackage, join}
use nexus_move.Package.Build.{
  Built, CompileBackend, orchestrate_build, finish_build, finish_build_ok,
}
use nexus_move.Package.Disk.{Disk, has_slash, is_above, exists}
use nexus_move.Package.Native.{
  Compiler, CompilerOptions, CompiledUnit, module_unit, script_unit, NativeCompileBackend,
  with_bytecode_deps, collect_modules, serialization_failed, compilation_failed, compiler_options,
  package_of, compile_sources, native_compile,
}
use nexus_move.Package.Native.Laws.{map_err_ok, ok_injective}
use nexus_move.Package.Entry.{BuildTools, compile_plan}
use nexus_move.Package.Entry.Artifacts.{IsFlat}

-- No module's name has a slash.
abbrev pub AreFlat : List CompiledUnit → Type 0
AreFlat [] = Unit
AreFlat (script_unit ∷ units) = AreFlat units
AreFlat (module_unit name serialized ∷ units) = (has_slash name ≡ false) × AreFlat units

-- The compiler writes its interface files below one directory (`build/mv_interfaces` of the working
-- directory, written as the disk's paths are) and changes no other file, and no module that it makes
-- has a slash in its name.
pub record IsConfined (run_move_compiler : Compiler) (interfaces : Bytes) : Type 0 where
  pub keeps :
      (d : Disk) (o : CompilerOptions) (q : Bytes)
      → is_above interfaces q ≡ false
      → lookup q (run_move_compiler d o).1.files ≡ lookup q d.files
  pub flat :
      (d : Disk) (o : CompilerOptions) (units : List CompiledUnit)
      → (run_move_compiler d o).0 ≡ ok units
      → AreFlat units

collect_modules-IsFlat :
    (units : List CompiledUnit) (modules : List CompiledModule)
    → AreFlat units
    → collect_modules units ≡ ok modules
    → All IsFlat modules
unfolding collect_modules
collect_modules-IsFlat [] modules f h = subst (All IsFlat) (ok_injective h) tt
collect_modules-IsFlat (script_unit ∷ units) modules f h = collect_modules-IsFlat units modules f h
collect_modules-IsFlat (module_unit name serialized ∷ units) modules f h =
    let (bytes, _, h₁) = >>=-eq-ok (map_err serialization_failed serialized) _ h in
    let (rest, others, h₂) = >>=-eq-ok (collect_modules units) _ h₁ in
    subst (All IsFlat) (ok_injective h₂) (f.0, collect_modules-IsFlat units rest f.1 others)

module _ (run_move_compiler : Compiler) (interfaces : Bytes)
    (confined : IsConfined run_move_compiler interfaces) (b : NativeCompileBackend) (d : Disk)
    (plan : BuildPlan) where
  sources-IsFlat :
      (compiled : CompiledPackage)
      → (compile_sources run_move_compiler b d plan).0 ≡ ok compiled
      → All IsFlat compiled.modules
  unfolding compile_sources
  sources-IsFlat compiled h =
      let run = (run_move_compiler d (compiler_options b d plan)).0 in
      let failed : Bytes → BuildError = λ e. backend (compilation_failed e) in
      let finish : List CompiledModule → Result BuildError CompiledPackage =
        λ modules. ok (package_of plan modules) in
      let (units, done, h₁) =
        >>=-eq-ok (map_err failed run) (λ units. map_err backend (collect_modules units) >>= finish)
          h in
      let (modules, gathered, h₂) = >>=-eq-ok (map_err backend (collect_modules units)) finish h₁ in
      subst (λ (c : CompiledPackage). All IsFlat c.modules) (ok_injective h₂)
        (collect_modules-IsFlat units modules
          (confined.flat d (compiler_options b d plan) units (map_err_ok failed run done))
          (map_err_ok backend (collect_modules units) gathered))

  pub native_compile-IsFlat :
      (compiled : CompiledPackage)
      → (native_compile run_move_compiler b d plan).0 ≡ ok compiled
      → All IsFlat compiled.modules
  unfolding native_compile
  native_compile-IsFlat compiled h =
      elim (Bool-cases (exists d (join plan.options.package_dir (ascii "sources")))) [
        | inl e ↦ sources-IsFlat compiled (rw e at h)
        | inr e ↦ cc (e, h)
      ]

  pub native_compile_frame :
      (q : Bytes)
      → is_above interfaces q ≡ false
      → lookup q (native_compile run_move_compiler b d plan).1.files ≡ lookup q d.files
  unfolding native_compile compile_sources
  native_compile_frame q out =
      elim (Bool-cases (exists d (join plan.options.package_dir (ascii "sources")))) [
        | inl e ↦ rw e (confined.keeps d (compiler_options b d plan) q out)
        | inr e ↦ rw e refl
      ]

module _ (tools : BuildTools) (interfaces : Bytes)
    (confined : IsConfined tools.run_move_compiler interfaces) (plan : BuildPlan) (dir : Bytes)
    (d : Disk) where
  pub compile_plan-IsFlat :
      (b : Built tools.blake3) → (compile_plan tools plan dir d).0 ≡ ok b → All IsFlat b.0.modules
  unfolding compile_plan orchestrate_build
  compile_plan-IsFlat b h =
      let backend = with_bytecode_deps (dir ∷ []) in
      let compile : CompileBackend = λ p. (native_compile tools.run_move_compiler backend d p).0 in
      let (compiled, done, finished) = >>=-eq-ok (compile plan) (finish_build tools.blake3) h in
      let (_, same) = finish_build_ok tools.blake3 compiled b finished in
      subst (λ (c : Built tools.blake3). All IsFlat c.0.modules) (sym same)
        (native_compile-IsFlat tools.run_move_compiler interfaces confined backend d plan compiled
          done)

  pub compile_plan_frame :
      (q : Bytes)
      → is_above interfaces q ≡ false
      → lookup q (compile_plan tools plan dir d).1.files ≡ lookup q d.files
  unfolding compile_plan
  compile_plan_frame q out =
      native_compile_frame tools.run_move_compiler interfaces confined
        (with_bytecode_deps (dir ∷ [])) d plan q out
