-- ===== src/Package/Entry/Written.antt =====
-- `write_artifacts`: all files of a build are on the disk when it succeeds.
use mathlib.Core.Path.{subst}
use mathlib.Core.List.{append_assoc}
use nexus_move.Prelude.{
  ◌≡◌, ◌≢◌, refl, sym, ap, ◌∙◌, ◌∷◌, ◌++◌, false, All, Bytes, bytes_ne, ascii, ok,
}
use nexus_move.Prelude.Lists.{All-map₂}
use nexus_move.Prelude.Map.{lookup}
use nexus_move.Prelude.Orders.{bytes_order}
use nexus_move.Package.{BuildArtifactLayout, for_package_dir, join}
use nexus_move.Package.Build.{Built}
use nexus_move.Package.Disk.{Disk, has_slash, ◌>>◌, failing_as, create_dir_all}
use nexus_move.Package.Disk.Laws.{
  IsOpenEnded, IsRelative, join_relative, join-IsOpenEnded, bind_ok, join-injective,
}
use nexus_move.Package.Framework.{mv_path, mv_name}
use nexus_move.Package.Entry.{
  BuildTools, write_bytecode, write_encoded, write_artifacts, metadata_path, manifest_path,
  creation_failed, unencoded_metadata, unwritten_metadata, unencoded_manifest, unwritten_manifest,
}
use nexus_move.Package.Entry.Artifacts.{
  IsFlat, mv_name-IsRelative, DistinctModules, IsWritten, write_bytecode-IsWritten,
  write_encoded_ne, Holds, write_encoded-Holds,
}

-- A file of the bytecode's directory, from the artifact directory.
pub join-bytecode :
    (dir name : Bytes)
    → IsOpenEnded dir
    → IsRelative name
    → join (join dir (ascii "bytecode")) name ≡ join dir (ascii "bytecode/" ++ name)
join-bytecode dir name open_ relative =
    join_relative (join dir (ascii "bytecode")) name
      (join-IsOpenEnded dir (ascii "bytecode") refl refl) relative
    ∙ (ap (λ p. p ++ b'/' ∷ name) (join_relative dir (ascii "bytecode") open_ refl)
        ∙ (append_assoc dir (ascii "/bytecode") (b'/' ∷ name)
            ∙ sym (join_relative dir (ascii "bytecode/" ++ name) open_ refl)))

bytecode_ne :
    (dir name file : Bytes)
    → IsOpenEnded dir
    → IsRelative name
    → IsRelative file
    → ascii "bytecode/" ++ name ≢ file
    → join (join dir (ascii "bytecode")) name ≢ join dir file
bytecode_ne dir name file open_ relative flat ne e = ne (
    join-injective dir (ascii "bytecode/" ++ name) file refl flat
      (sym (join-bytecode dir name open_ relative) ∙ e))

metadata-ne-manifest :
    (d : Bytes) → join d (ascii "package-metadata.bcs") ≢ join d (ascii "manifest.json")
metadata-ne-manifest d e =
    bytes_ne (ascii "package-metadata.bcs") (ascii "manifest.json") refl
      (join-injective d (ascii "package-metadata.bcs") (ascii "manifest.json") refl refl e)

module _ (tools : BuildTools) (package_dir : Bytes) where
  abbrev layout : BuildArtifactLayout
  layout = for_package_dir package_dir

  artifact_dir-IsOpenEnded : IsOpenEnded layout.artifact_dir
  artifact_dir-IsOpenEnded = join-IsOpenEnded package_dir (ascii "nexus-artifact") refl refl

  -- The files of a build: each module's bytecode, the metadata and the manifest, encoded.
  pub record AreWritten (b : Built tools.blake3) (d : Disk) : Type 0 where
    pub modules : All (IsWritten layout.bytecode_dir d) b.0.modules
    pub metadata : Holds (metadata_path layout) (tools.encode_metadata b.1) d
    pub manifest : Holds (manifest_path layout) (tools.encode_artifact_manifest_json b.2) d

  pub write_artifacts-AreWritten :
      (b : Built tools.blake3) (d : Disk)
      → All IsFlat b.0.modules
      → DistinctModules b.0.modules
      → (write_artifacts tools layout b d).0 ≡ ok tt
      → AreWritten b (write_artifacts tools layout b d).1
  unfolding write_artifacts
  write_artifacts-AreWritten b d flat distinct h =
      let creating =
        failing_as (creation_failed layout.bytecode_dir) (create_dir_all layout.bytecode_dir) in
      let writing = write_bytecode layout.bytecode_dir b.0.modules in
      let metadata =
        write_encoded (metadata_path layout) (tools.encode_metadata b.1) unencoded_metadata
          unwritten_metadata in
      let manifest =
        write_encoded (manifest_path layout) (tools.encode_artifact_manifest_json b.2)
          unencoded_manifest unwritten_manifest in
      let (_, _, h₁, same₁) = bind_ok creating (λ _. writing >> (metadata >> manifest)) d h in
      let d₁ : Disk = (creating d).1 in
      let (_, done₂, h₂, same₂) = bind_ok writing (λ _. metadata >> manifest) d₁ h₁ in
      let d₂ : Disk = (writing d₁).1 in
      let (_, done₃, h₃, same₃) = bind_ok metadata (λ _. manifest) d₂ h₂ in
      let d₃ : Disk = (metadata d₂).1 in
      let d₄ : Disk = (manifest d₃).1 in
      let final : (write_artifacts tools layout b d).1 ≡ d₄ =
        ap (λ r. r.1) (same₁ ∙ (same₂ ∙ same₃)) in
      let after : (name : Bytes)
          → has_slash name ≡ false
          → lookup (mv_path layout.bytecode_dir name) d₄.files
            ≡ lookup (mv_path layout.bytecode_dir name) d₂.files =
        λ name f.
          write_encoded_ne (manifest_path layout) _ _ unencoded_manifest unwritten_manifest d₃ (
            bytecode_ne layout.artifact_dir (mv_name name) (ascii "manifest.json")
              artifact_dir-IsOpenEnded (mv_name-IsRelative name f) refl (bytes_ne _ _ refl))
          ∙ write_encoded_ne (metadata_path layout) _ _ unencoded_metadata unwritten_metadata d₂ (
              bytecode_ne layout.artifact_dir (mv_name name) (ascii "package-metadata.bcs")
                artifact_dir-IsOpenEnded (mv_name-IsRelative name f) refl (bytes_ne _ _ refl)) in
      let coded =
        write_encoded-Holds (metadata_path layout) _ unencoded_metadata unwritten_metadata d₂
          done₃ in
      subst (AreWritten b) (sym final) (record {
        modules =
            All-map₂ (λ m f w. after m.name f ∙ w) b.0.modules flat
              (write_bytecode-IsWritten layout.bytecode_dir b.0.modules d₁ flat distinct done₂);
        metadata = (
          coded.0,
          coded.1,
          write_encoded_ne (manifest_path layout) (metadata_path layout) _ unencoded_manifest
                unwritten_manifest d₃ (metadata-ne-manifest layout.artifact_dir)
              ∙ coded.2,
        );
        manifest =
            write_encoded-Holds (manifest_path layout) _ unencoded_manifest unwritten_manifest d₃
              h₃;
      })
