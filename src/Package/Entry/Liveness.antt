-- ===== src/Package/Entry/Liveness.antt =====
-- A build whose inputs are in order succeeds.
use nexus_move.Prelude.{
  ◌≡◌, refl, ap, ◌∙◌, arith, Bool, true, false, ◌&&◌, not, Option, none, some, List, [], ◌∷◌, ◌++◌,
  All, Bytes, ascii, Result, ok, Bool-cases, inl, inr,
}
use nexus_move.Prelude.Map.{lookup}
use nexus_move.Prelude.Orders.{bytes_order}
use nexus_move.Prelude.Utf8.{is_utf8}
use nexus_move.Stdlib.{framework_table, framework_names}
use nexus_move.Package.{BuildPlan, BuildError, BuildArtifactLayout, for_package_dir, join, backend}
use nexus_move.Package.Merge.{Assignments}
use nexus_move.Package.Toml.{inspect_move_toml}
use nexus_move.Package.Build.{Built, make_build_plan}
use nexus_move.Package.Backends.{build_options}
use nexus_move.Package.Disk.{
  Disk, Fs, ◌>>=◌, ◌>>◌, return, failing_as, has_slash, create_dir_all, and_then, file_len,
  read_to_string,
}
use nexus_move.Package.Disk.Laws.{
  IsOpenEnded, join-IsOpenEnded, is_above_refl, is_above-join, bind_done,
}
use nexus_move.Package.Framework.{
  mv_name, mv_path, write_failed, needs_write, write_module, write_modules,
  write_embedded_framework,
}
use nexus_move.Package.Entry.{
  BuildTools, BuildResult, framework_dir, compile_plan, write_bytecode, write_encoded,
  write_artifacts, metadata_path, manifest_path, creation_failed, unencoded_metadata,
  unwritten_metadata, unencoded_manifest, unwritten_manifest, result_of, build_plan, read_manifest,
  plan_build, build_package,
}
use nexus_move.Package.Entry.Artifacts.{IsFlat, has_slash-mv_name}
use nexus_move.Package.Entry.Progress.{
  IsOpen, Succeeds, chain-Succeeds, write-Succeeds, write_bytecode-Succeeds, write_encoded-Succeeds,
  create_dir_all-Succeeds,
}

write_module-Succeeds :
    (dir name bytes : Bytes) (d : Disk)
    → IsOpenEnded dir
    → has_slash name ≡ false
    → IsOpen (dir ∷ []) d
    → Succeeds (IsOpen (dir ∷ [])) (write_module dir name bytes) d
unfolding write_module
write_module-Succeeds dir name bytes d ended flat open_ =
    elim (Bool-cases (needs_write (file_len d (mv_path dir name)) bytes)) [
      | inl e ↦ rw e (
          write-Succeeds (dir ∷ []) dir (mv_name name) bytes (write_failed (mv_path dir name)) d
            ended (has_slash-mv_name name flat) open_.there.0 open_)
      | inr e ↦ rw e (d, refl, open_)
    ]

abbrev all_flat : List Bytes → Bool
all_flat [] = true
all_flat (name ∷ names) = not (has_slash name) && all_flat names

framework_flat : all_flat framework_names ≡ true
framework_flat = refl

module _ (embedded : Bytes → Bytes) (dir : Bytes) (ended : IsOpenEnded dir) where
  write_modules-Succeeds :
      (names : List Bytes) (d : Disk)
      → all_flat names ≡ true
      → IsOpen (dir ∷ []) d
      → Succeeds (IsOpen (dir ∷ [])) (write_modules dir (framework_table embedded names)) d
  unfolding write_modules
  write_modules-Succeeds [] d flat open_ = (d, refl, open_)
  write_modules-Succeeds (name ∷ names) d flat open_ =
      chain-Succeeds (IsOpen (dir ∷ [])) (IsOpen (dir ∷ [])) (write_module dir name (embedded name))
        (write_modules dir (framework_table embedded names)) d
        (write_module-Succeeds dir name (embedded name) d ended (ground arith) open_)
        (λ e o. write_modules-Succeeds names e (ground arith) o)

  write_embedded_framework-Succeeds :
      (d : Disk)
      → ((path : Bytes) → d.refuse path ≡ none)
      → Succeeds (IsOpen (dir ∷ [])) (write_embedded_framework embedded dir) d
  unfolding write_embedded_framework
  write_embedded_framework-Succeeds d allowed =
      let f : Bytes → BuildError = λ e. backend (ascii "failed to create framework dir: " ++ e) in
      chain-Succeeds (IsOpen (dir ∷ [])) (IsOpen (dir ∷ [])) (failing_as f (create_dir_all dir))
        (write_modules dir (framework_table embedded framework_names)) d
        (create_dir_all-Succeeds dir (dir ∷ []) f d (is_above_refl dir, tt) allowed)
        (λ e o. write_modules-Succeeds framework_names e framework_flat o)

-- The plan of a build, from the text of its manifest.
abbrev pub planned : Bytes → Assignments → Bytes → BuildPlan
planned package_dir additional contents = record {
  options = build_options package_dir additional contents;
  move_toml = inspect_move_toml contents;
  artifact_layout = for_package_dir package_dir;
}

module _ (tools : BuildTools) (package_dir : Bytes) where
  abbrev layout : BuildArtifactLayout
  layout = for_package_dir package_dir

  -- A package that can be written: no module's name has a slash, and the encoders succeed.
  pub record CanBeWritten (b : Built tools.blake3) : Type 0 where
    pub flat : All IsFlat b.0.modules
    pub metadata : Bytes
    pub encodes_metadata : tools.encode_metadata b.1 ≡ ok metadata
    pub manifest : Bytes
    pub encodes_manifest : tools.encode_artifact_manifest_json b.2 ≡ ok manifest

  write_artifacts-Succeeds :
      (b : Built tools.blake3) (d : Disk)
      → CanBeWritten b
      → ((path : Bytes) → d.refuse path ≡ none)
      → Succeeds
          (IsOpen (layout.bytecode_dir ∷ layout.artifact_dir ∷ []))
          (write_artifacts tools layout b)
          d
  unfolding write_artifacts
  write_artifacts-Succeeds b d can allowed =
      let above : IsOpenEnded layout.artifact_dir =
        join-IsOpenEnded package_dir (ascii "nexus-artifact") refl refl in
      let inner : IsOpenEnded layout.bytecode_dir =
        join-IsOpenEnded layout.artifact_dir (ascii "bytecode") refl refl in
      let dirs : List Bytes = layout.bytecode_dir ∷ layout.artifact_dir ∷ [] in
      let f : Bytes → BuildError = creation_failed layout.bytecode_dir in
      let creating : Fs BuildError (Unit {0}) = failing_as f (create_dir_all layout.bytecode_dir) in
      let writing : Fs BuildError (Unit {0}) = write_bytecode layout.bytecode_dir b.0.modules in
      let metadata : Fs BuildError (Unit {0}) =
        write_encoded (metadata_path layout) (tools.encode_metadata b.1) unencoded_metadata
          unwritten_metadata in
      let manifest : Fs BuildError (Unit {0}) =
        write_encoded (manifest_path layout) (tools.encode_artifact_manifest_json b.2)
          unencoded_manifest unwritten_manifest in
      let P = IsOpen dirs in
      chain-Succeeds P P creating (writing >> (metadata >> manifest)) d
        (create_dir_all-Succeeds layout.bytecode_dir dirs f d
          (
            is_above_refl layout.bytecode_dir,
            (is_above-join layout.artifact_dir (ascii "bytecode") above refl, tt),
          )
          allowed)
        (λ d₁ o₁.
          chain-Succeeds P P writing (metadata >> manifest) d₁
            (write_bytecode-Succeeds layout.bytecode_dir (layout.artifact_dir ∷ []) b.0.modules d₁
              inner can.flat o₁)
            (λ d₂ o₂.
              chain-Succeeds P P metadata manifest d₂
                (write_encoded-Succeeds dirs layout.artifact_dir (ascii "package-metadata.bcs") _
                  unencoded_metadata unwritten_metadata d₂ above refl o₂.there.1.0
                  can.encodes_metadata o₂)
                (λ d₃ o₃.
                  write_encoded-Succeeds dirs layout.artifact_dir (ascii "manifest.json") _
                    unencoded_manifest unwritten_manifest d₃ above refl o₃.there.1.0
                    can.encodes_manifest o₃)))

  framework_dir-Succeeds :
      (fw : Option Bytes) (d : Disk)
      → ((path : Bytes) → d.refuse path ≡ none)
      → (dir : Bytes) × (e : Disk) × (framework_dir tools fw layout d ≡ (ok dir, e))
        × ((path : Bytes) → e.refuse path ≡ none)
  unfolding framework_dir
  framework_dir-Succeeds (some dir) d allowed = (dir, d, refl, allowed)
  framework_dir-Succeeds none d allowed =
      let tmp : Bytes = join layout.build_dir (ascii "framework") in
      let (e, done, o) =
        write_embedded_framework-Succeeds tools.embedded tmp
          (join-IsOpenEnded layout.build_dir (ascii "framework") refl refl) d allowed in
      (
        tmp,
        e,
        ap
            (λ (r : Result BuildError (Unit {0}) × Disk).
              and_then r.0 (λ _. return {A = Bytes} (ok tmp)) r.1)
            done,
        o.allowed,
      )

  -- The package and its manifest are there and can be read, nothing is refused, the compiler gives
  -- `b` on the disk with the framework and leaves the disk so that nothing is refused, and `b` can
  -- be written.
  pub record IsBuildable (additional : Assignments) (fw : Option Bytes) (d : Disk)
      (b : Built tools.blake3) : Type 0 where
    pub contents : Bytes
    pub has_manifest : lookup (join package_dir (ascii "Move.toml")) d.files ≡ some contents
    pub readable : d.unreadable (join package_dir (ascii "Move.toml")) ≡ none
    pub is_text : is_utf8 contents ≡ true
    pub there : d.is_dir package_dir ≡ true
    pub allowed : (path : Bytes) → d.refuse path ≡ none
    pub compiles :
        (dir : Bytes) (e : Disk)
        → framework_dir tools fw layout d ≡ (ok dir, e)
        → (compile_plan tools (planned package_dir additional contents) dir e).0 ≡ ok b
    pub leaves_open :
        (dir : Bytes) (e : Disk)
        → framework_dir tools fw layout d ≡ (ok dir, e)
        → (path : Bytes)
        → (compile_plan tools (planned package_dir additional contents) dir e).1.refuse path ≡ none
    pub writable : CanBeWritten b

  reads :
      (d : Disk) (contents : Bytes)
      → lookup (join package_dir (ascii "Move.toml")) d.files ≡ some contents
      → d.unreadable (join package_dir (ascii "Move.toml")) ≡ none
      → is_utf8 contents ≡ true
      → read_manifest package_dir d ≡ (ok contents, d)
  unfolding read_manifest read_to_string
  reads d contents found readable text =
      rw (readable, read_to_string) (rw (found, read_to_string) (rw text refl))

  plans :
      (additional : Assignments) (d : Disk) (contents : Bytes)
      → d.is_dir package_dir ≡ true
      → plan_build package_dir additional contents d
        ≡ (ok (planned package_dir additional contents), d)
  unfolding plan_build make_build_plan
  plans additional d contents there = rw there refl

  -- A package in order builds: the call returns the compiled package with its metadata.
  pub build_package_succeeds :
      (additional : Assignments) (fw : Option Bytes) (d : Disk) (b : Built tools.blake3)
      → IsBuildable additional fw d b
      → (build_package tools package_dir additional fw d).0 ≡ ok (result_of tools layout b)
  unfolding build_package build_plan
  build_package_succeeds additional fw d b can =
      let plan : BuildPlan = planned package_dir additional can.contents in
      let finish : Built tools.blake3 → Fs BuildError BuildResult =
        λ built. write_artifacts tools layout built >> return (ok (result_of tools layout built)) in
      let framework : Fs BuildError Bytes = framework_dir tools fw layout in
      let (dir, e, placed, allowed) = framework_dir-Succeeds fw d can.allowed in
      let after : Disk = (compile_plan tools plan dir e).1 in
      let compiled : compile_plan tools plan dir e ≡ (ok b, after) =
        ap (λ r. (r, after)) (can.compiles dir e placed) in
      let (f, written, _) =
        write_artifacts-Succeeds b after can.writable (can.leaves_open dir e placed) in
      ap (λ r. r.0)
        (bind_done (read_manifest package_dir)
            (λ contents. plan_build package_dir additional contents >>= build_plan tools fw) d
            (reads d can.contents can.has_manifest can.readable can.is_text)
          ∙ (bind_done (plan_build package_dir additional can.contents) (build_plan tools fw) d
                (plans additional d can.contents can.there)
              ∙ (bind_done framework (λ dir. compile_plan tools plan dir >>= finish) d placed
                  ∙ (bind_done (compile_plan tools plan dir) finish e compiled
                      ∙ bind_done (write_artifacts tools layout b)
                          (λ _. return (ok (result_of tools layout b))) after written))))
