-- ===== src/Package/Entry/Success.antt =====
-- A build that succeeds: what it returns and what is on the disk.
use mathlib.Core.Path.{subst}
use nexus_move.Prelude.{
  ◌≡◌, ◌≢◌, refl, sym, ap, ◌∙◌, arith, false, Option, [], ◌∷◌, All, Bytes, ok, is_empty,
}
use nexus_move.Prelude.Outcome.{>>=-eq-ok}
use nexus_move.Types.{zero_address}
use nexus_move.Package.{BuildPlan, BuildError, for_package_dir}
use nexus_move.Package.Merge.{Assignments}
use nexus_move.Package.Build.{
  Built, CompileBackend, make_build_plan, build_package_metadata, build_artifact_manifest,
  orchestrate_build, finish_build, finish_build_ok,
}
use nexus_move.Package.Backends.{build_options}
use nexus_move.Package.Disk.{Disk, Fs, ◌>>=◌, ◌>>◌, return}
use nexus_move.Package.Disk.Laws.{bind_ok}
use nexus_move.Package.Native.{with_bytecode_deps, native_compile}
use nexus_move.Package.Entry.{
  BuildTools, BuildResult, framework_dir, compile_plan, write_artifacts, result_of, build_plan,
  read_manifest, plan_build, build_package,
}
use nexus_move.Package.Entry.Artifacts.{IsFlat, DistinctModules}
use nexus_move.Package.Entry.Written.{AreWritten, write_artifacts-AreWritten}

pub plan_layout :
    (package_dir contents : Bytes) (additional : Assignments) (d : Disk) (plan : BuildPlan)
    → (plan_build package_dir additional contents d).0 ≡ ok plan
    → plan.artifact_layout ≡ for_package_dir package_dir
unfolding plan_build make_build_plan build_options
plan_layout package_dir contents additional d plan h = ground arith

module _ (tools : BuildTools) (package_dir : Bytes) where
  -- The package has a module, its metadata are its own, and its files are on the disk: the
  -- bytecode of each module, the metadata and the manifest, as they are encoded.
  pub record IsComplete (r : BuildResult) (d : Disk) : Type 0 where
    pub nonempty : r.compiled.modules ≢ []
    pub metadata : r.metadata ≡ build_package_metadata tools.blake3 r.compiled zero_address
    pub written :
        AreWritten tools package_dir
          (r.compiled, r.metadata, build_artifact_manifest tools.blake3 r.compiled)
          d

  compiled_parts :
      (plan : BuildPlan) (fw_dir : Bytes) (d : Disk) (b : Built tools.blake3)
      → (compile_plan tools plan fw_dir d).0 ≡ ok b
      → (is_empty b.0.modules ≡ false)
        × (b ≡ (
          b.0,
          build_package_metadata tools.blake3 b.0 zero_address,
          build_artifact_manifest tools.blake3 b.0,
        ))
  unfolding compile_plan orchestrate_build
  compiled_parts plan fw_dir d b h =
      let backend = with_bytecode_deps (fw_dir ∷ []) in
      let compile : CompileBackend = λ p. (native_compile tools.run_move_compiler backend d p).0 in
      let (compiled, _, finished) = >>=-eq-ok (compile plan) (finish_build tools.blake3) h in
      let (some_module, same) = finish_build_ok tools.blake3 compiled b finished in
      subst
        (λ (c : Built tools.blake3).
          (is_empty c.0.modules ≡ false)
          × (c ≡ (
            c.0,
            build_package_metadata tools.blake3 c.0 zero_address,
            build_artifact_manifest tools.blake3 c.0,
          )))
        (sym same) (some_module, refl)

  artifacts-IsComplete :
      (b : Built tools.blake3) (d : Disk)
      → is_empty b.0.modules ≡ false
      → b ≡ (
        b.0,
        build_package_metadata tools.blake3 b.0 zero_address,
        build_artifact_manifest tools.blake3 b.0,
      )
      → All IsFlat b.0.modules
      → DistinctModules b.0.modules
      → (write_artifacts tools (for_package_dir package_dir) b d).0 ≡ ok tt
      → IsComplete
          (result_of tools (for_package_dir package_dir) b)
          (write_artifacts tools (for_package_dir package_dir) b d).1
  artifacts-IsComplete b d some_module same flat distinct h = record {
    nonempty = λ e. cc (e, some_module);
    metadata = ap (λ (c : Built tools.blake3). c.1) same;
    written =
        subst
          (λ c.
            AreWritten tools package_dir c
              (write_artifacts tools (for_package_dir package_dir) b d).1)
          (ap (λ (c : Built tools.blake3). (b.0, b.1, c.2)) same)
          (write_artifacts-AreWritten tools package_dir b d flat distinct h);
  }

  build_plan-IsComplete :
      (fw : Option Bytes) (plan : BuildPlan) (d : Disk) (r : BuildResult)
      → plan.artifact_layout ≡ for_package_dir package_dir
      → (build_plan tools fw plan d).0 ≡ ok r
      → All IsFlat r.compiled.modules
      → DistinctModules r.compiled.modules
      → IsComplete r (build_plan tools fw plan d).1
  unfolding build_plan
  build_plan-IsComplete fw plan d r at_package h flat distinct =
      let layout = plan.artifact_layout in
      let finish : Built tools.blake3 → Fs BuildError BuildResult =
        λ built. write_artifacts tools layout built >> return (ok (result_of tools layout built)) in
      let framework = framework_dir tools fw layout in
      let (fw_dir, _, h₁, same₁) =
        bind_ok framework (λ dir. compile_plan tools plan dir >>= finish) d h in
      let d₁ : Disk = (framework d).1 in
      let (b, compiled, h₂, same₂) = bind_ok (compile_plan tools plan fw_dir) finish d₁ h₁ in
      let d₂ : Disk = (compile_plan tools plan fw_dir d₁).1 in
      let (_, done, h₃, same₃) =
        bind_ok (write_artifacts tools layout b) (λ _. return (ok (result_of tools layout b))) d₂
          h₂ in
      let result : result_of tools layout b ≡ r = cc h₃ in
      let (some_module, parts) = compiled_parts plan fw_dir d₁ b compiled in
      let complete : IsComplete (result_of tools layout b) (write_artifacts tools layout b d₂).1 =
        subst
          (λ l.
            (write_artifacts tools l b d₂).0 ≡ ok tt
            → IsComplete (result_of tools l b) (write_artifacts tools l b d₂).1)
          (sym at_package)
          (artifacts-IsComplete b d₂ some_module parts
            (subst (λ (s : BuildResult). All IsFlat s.compiled.modules) (sym result) flat)
            (subst (λ (s : BuildResult). DistinctModules s.compiled.modules) (sym result) distinct))
          done in
      subst (IsComplete r) (sym (ap (λ s. s.1) (same₁ ∙ (same₂ ∙ same₃))))
        (subst (λ s. IsComplete s (write_artifacts tools layout b d₂).1) result complete)

  -- A build that succeeds, of modules with different names without slashes, returns a package with a module and
  -- its metadata, and leaves the artifacts on the disk: each module's bytecode, the encoded
  -- metadata and the encoded manifest.
  pub build_package-IsComplete :
      (additional : Assignments) (fw : Option Bytes) (d : Disk) (r : BuildResult)
      → (build_package tools package_dir additional fw d).0 ≡ ok r
      → All IsFlat r.compiled.modules
      → DistinctModules r.compiled.modules
      → IsComplete r (build_package tools package_dir additional fw d).1
  unfolding build_package
  build_package-IsComplete additional fw d r h flat distinct =
      let planning : Bytes → Fs BuildError BuildResult =
        λ contents. plan_build package_dir additional contents >>= build_plan tools fw in
      let (contents, _, h₁, same₁) = bind_ok (read_manifest package_dir) planning d h in
      let d₁ : Disk = (read_manifest package_dir d).1 in
      let (plan, planned, h₂, same₂) =
        bind_ok (plan_build package_dir additional contents) (build_plan tools fw) d₁ h₁ in
      subst (IsComplete r) (sym (ap (λ s. s.1) (same₁ ∙ same₂))) (
        build_plan-IsComplete fw plan _ r
          (plan_layout package_dir contents additional d₁ plan planned) h₂ flat distinct)
