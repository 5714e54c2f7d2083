-- ===== src/Package/Entry/Frame.antt =====
-- What a build leaves alone, whatever its outcome.
use mathlib.Core.Path.{subst}
use nexus_move.Prelude.{
  ◌≡◌, ◌≢◌, ◌++◌, List, [], ◌∷◌, All, true, refl, sym, ap, ◌∙◌, false, Option, none, some, Bytes,
  ascii, ok,
}
use nexus_move.Prelude.Lists.{All-map}
use nexus_move.Prelude.Map.{lookup}
use nexus_move.Prelude.Orders.{bytes_order}
use nexus_move.Stdlib.{framework_table, framework_names}
use nexus_move.Package.{
  CompiledModule, BuildPlan, BuildError, BuildArtifactLayout, for_package_dir, join,
}
use nexus_move.Package.Merge.{Assignments}
use nexus_move.Package.Build.{Built}
use nexus_move.Package.Disk.{Disk, Fs, ◌>>=◌, ◌>>◌, return, is_above, failing_as, create_dir_all}
use nexus_move.Package.Disk.Laws.{
  IsOpenEnded, IsRelative, join-IsOpenEnded, and_then_rule, bind_rule, is_above-join,
  create_dir_all-files,
}
use nexus_move.Package.Framework.{mv_name, write_embedded_framework}
use nexus_move.Package.Framework.Written.{
  all_relative, framework_relative, left_of_and, right_of_and, write_embedded_framework_ne,
}
use nexus_move.Package.Entry.{
  BuildTools, BuildResult, framework_dir, compile_plan, write_bytecode, write_encoded,
  write_artifacts, metadata_path, manifest_path, creation_failed, unencoded_metadata,
  unwritten_metadata, unencoded_manifest, unwritten_manifest, result_of, build_plan, read_manifest,
  plan_build, build_package,
}
use nexus_move.Package.Entry.Artifacts.{
  IsFlat, mv_name-IsRelative, write_bytecode_ne, write_encoded_ne,
}
use nexus_move.Package.Entry.Written.{join-bytecode}
use nexus_move.Package.Entry.Confined.{IsConfined, compile_plan-IsFlat, compile_plan_frame}
use nexus_move.Package.Entry.Success.{plan_layout}

-- The file at `q` is in both disks, with the same contents, or in neither.
abbrev Same : Bytes → Disk → Disk → Type 0
Same q d e = lookup q e.files ≡ lookup q d.files

below_ne :
    (dir name q : Bytes)
    → IsOpenEnded dir
    → IsRelative name
    → is_above dir q ≡ false
    → q ≢ join dir name
below_ne dir name q ended relative h e = cc (is_above-join dir name ended relative, h, e)

inner_ne :
    (dir name q : Bytes)
    → IsOpenEnded dir
    → IsRelative name
    → is_above dir q ≡ false
    → q ≢ join (join dir (ascii "bytecode")) name
inner_ne dir name q ended relative h e =
    below_ne dir (ascii "bytecode/" ++ name) q ended refl h
      (e ∙ join-bytecode dir name ended relative)

-- No name of the framework has a slash.
framework-IsRelative :
    (embedded : Bytes → Bytes) (names : List Bytes)
    → all_relative names ≡ true
    → All (λ (p : Bytes × Bytes). IsRelative (mv_name p.0)) (framework_table embedded names)
framework-IsRelative embedded [] h = tt
framework-IsRelative embedded (name ∷ names) h =
    (left_of_and _ _ h, framework-IsRelative embedded names (right_of_and _ _ h))

-- `q` is not in a directory that a build or its compiler writes to.
pub record IsOutside (layout : BuildArtifactLayout) (interfaces q : Bytes) : Type 0 where
  pub artifacts : is_above layout.artifact_dir q ≡ false
  pub framework : is_above (join layout.build_dir (ascii "framework")) q ≡ false
  pub compiler : is_above interfaces q ≡ false

module _ (tools : BuildTools) (package_dir interfaces q : Bytes)
    (confined : IsConfined tools.run_move_compiler interfaces)
    (out : IsOutside (for_package_dir package_dir) interfaces q) where
  abbrev layout : BuildArtifactLayout
  layout = for_package_dir package_dir

  ended : IsOpenEnded layout.artifact_dir
  ended = join-IsOpenEnded package_dir (ascii "nexus-artifact") refl refl

  framework_dir-Same : (fw : Option Bytes) (d : Disk) → Same q d (framework_dir tools fw layout d).1
  unfolding framework_dir
  framework_dir-Same (some dir) d = refl
  framework_dir-Same none d =
      let tmp = join layout.build_dir (ascii "framework") in
      let kept = write_embedded_framework_ne tools.embedded tmp q d (
        All-map
          (λ (p : Bytes × Bytes) relative.
            below_ne tmp (mv_name p.0) q
              (join-IsOpenEnded layout.build_dir (ascii "framework") refl refl) relative
              out.framework)
          (framework_table tools.embedded framework_names)
          (framework-IsRelative tools.embedded framework_names framework_relative)) in
      and_then_rule (Same q d) (write_embedded_framework tools.embedded tmp d).0
        (λ _. return (ok tmp)) (write_embedded_framework tools.embedded tmp d).1 kept (λ _. kept)

  write_artifacts-Same :
      (b : Built tools.blake3) (d : Disk)
      → All IsFlat b.0.modules
      → Same q d (write_artifacts tools layout b d).1
  unfolding write_artifacts
  write_artifacts-Same b d flat =
      let creating =
        failing_as (creation_failed layout.bytecode_dir) (create_dir_all layout.bytecode_dir) in
      let writing = write_bytecode layout.bytecode_dir b.0.modules in
      let metadata =
        write_encoded (metadata_path layout) (tools.encode_metadata b.1) unencoded_metadata
          unwritten_metadata in
      let manifest =
        write_encoded (manifest_path layout) (tools.encode_artifact_manifest_json b.2)
          unencoded_manifest unwritten_manifest in
      let d₁ : Disk = (creating d).1 in
      let d₂ : Disk = (writing d₁).1 in
      let d₃ : Disk = (metadata d₂).1 in
      let kept₁ : Same q d d₁ = ap (lookup q) (create_dir_all-files layout.bytecode_dir d) in
      let kept₂ : Same q d d₂ =
        write_bytecode_ne layout.bytecode_dir q b.0.modules d₁ (
          All-map
            (λ (m : CompiledModule) f.
              inner_ne layout.artifact_dir (mv_name m.name) q ended (mv_name-IsRelative m.name f)
                out.artifacts)
            b.0.modules flat)
        ∙ kept₁ in
      let kept₃ : Same q d d₃ =
        write_encoded_ne (metadata_path layout) q _ unencoded_metadata unwritten_metadata d₂
          (below_ne layout.artifact_dir (ascii "package-metadata.bcs") q ended refl out.artifacts)
        ∙ kept₂ in
      let kept₄ : Same q d (manifest d₃).1 =
        write_encoded_ne (manifest_path layout) q _ unencoded_manifest unwritten_manifest d₃
          (below_ne layout.artifact_dir (ascii "manifest.json") q ended refl out.artifacts)
        ∙ kept₃ in
      and_then_rule (Same q d) (creating d).0 (λ _. writing >> (metadata >> manifest)) d₁ kept₁
        (λ _.
          and_then_rule (Same q d) (writing d₁).0 (λ _. metadata >> manifest) d₂ kept₂
            (λ _. and_then_rule (Same q d) (metadata d₂).0 (λ _. manifest) d₃ kept₃ (λ _. kept₄)))

  build_plan-Same :
      (fw : Option Bytes) (plan : BuildPlan) (d : Disk)
      → plan.artifact_layout ≡ layout
      → Same q d (build_plan tools fw plan d).1
  unfolding build_plan
  build_plan-Same fw plan d at_package =
      let finish : BuildArtifactLayout → Built tools.blake3 → Fs BuildError BuildResult =
        λ l built. write_artifacts tools l built >> return (ok (result_of tools l built)) in
      let run : BuildArtifactLayout → Fs BuildError BuildResult =
        λ l. framework_dir tools fw l >>= λ dir. compile_plan tools plan dir >>= finish l in
      let d₁ : Disk = (framework_dir tools fw layout d).1 in
      let kept : Same q d d₁ = framework_dir-Same fw d in
      let finished : (e : Disk) (b : Built tools.blake3)
          → Same q d e
          → All IsFlat b.0.modules
          → Same q d (finish layout b e).1 =
        λ e b so_far flat.
          let written = write_artifacts-Same b e flat ∙ so_far in
          and_then_rule (Same q d) (write_artifacts tools layout b e).0
            (λ _. return (ok (result_of tools layout b))) (write_artifacts tools layout b e).1
            written (λ _. written) in
      subst (λ l. Same q d (run l d).1) (sym at_package)
        (and_then_rule (Same q d) (framework_dir tools fw layout d).0
          (λ dir. compile_plan tools plan dir >>= finish layout) d₁ kept
          (λ dir.
            let d₂ : Disk = (compile_plan tools plan dir d₁).1 in
            let kept₂ : Same q d d₂ =
              compile_plan_frame tools interfaces confined plan dir d₁ q out.compiler ∙ kept in
            bind_rule (Same q d) (compile_plan tools plan dir d₁).0 (finish layout) d₂ kept₂
              (λ b compiled.
                finished d₂ b kept₂
                  (compile_plan-IsFlat tools interfaces confined plan dir d₁ b compiled))))

  -- No build, successful or not, changes a file outside the package's artifact directory, the
  -- directory of the framework's copy and the directory of the compiler's interface files: where
  -- the compiler changes no file outside a directory, and gives modules without slashes in their
  -- names, the build changes none outside the three.
  pub build_package_frame :
      (additional : Assignments) (fw : Option Bytes) (d : Disk)
      → lookup q (build_package tools package_dir additional fw d).1.files ≡ lookup q d.files
  unfolding build_package read_manifest
  build_package_frame additional fw d =
      bind_rule (Same q d) (read_manifest package_dir d).0
        (λ contents. plan_build package_dir additional contents >>= build_plan tools fw) d refl
        (λ contents _.
          bind_rule (Same q d) (plan_build package_dir additional contents d).0
            (build_plan tools fw) d refl
            (λ plan planned.
              build_plan-Same fw plan d
                (plan_layout package_dir contents additional d plan planned)))
