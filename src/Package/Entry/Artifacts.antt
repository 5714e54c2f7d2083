-- ===== src/Package/Entry/Artifacts.antt =====
-- The artifacts of a build on the disk.
use mathlib.Core.Path.{subst}
use nexus_move.Prelude.{
  ◌≡◌, ◌≢◌, refl, sym, ap, ◌∙◌, arith, false, some, List, [], ◌∷◌, All, Bytes, Result, ok,
}
use nexus_move.Prelude.Lists.{All-map₂}
use nexus_move.Prelude.Map.{lookup}
use nexus_move.Prelude.Orders.{bytes_order}
use nexus_move.Package.{CompiledModule}
use nexus_move.Package.Disk.{Disk, has_slash, fail_as, failing_as, write}
use nexus_move.Package.Disk.Laws.{
  IsRelative, flat-IsRelative, and_then_ok, and_then_rule, fail_as_ok, lookup-write,
  lookup-write_ne,
}
use nexus_move.Package.Framework.{mv_name, mv_path, write_failed}
use nexus_move.Package.Framework.Laws.{mv_path_ne}
use nexus_move.Package.Entry.{failed, write_bytecode, write_encoded}

abbrev pub IsFlat : CompiledModule → Type 0
IsFlat m = has_slash m.name ≡ false

pub has_slash-mv_name : (name : Bytes) → has_slash name ≡ false → has_slash (mv_name name) ≡ false
has_slash-mv_name [] h = refl
has_slash-mv_name (b ∷ name) h = ground (arith, has_slash-mv_name name)

pub mv_name-IsRelative : (name : Bytes) → has_slash name ≡ false → IsRelative (mv_name name)
mv_name-IsRelative name h = flat-IsRelative (mv_name name) (has_slash-mv_name name h)

-- No two modules of a package have the same name.
abbrev pub DistinctModules : List CompiledModule → Type 0
DistinctModules [] = Unit
DistinctModules (m ∷ modules) =
    All (λ (n : CompiledModule). m.name ≢ n.name) modules × DistinctModules modules

-- The module's bytecode is in its file.
abbrev pub IsWritten : Bytes → Disk → CompiledModule → Type 0
IsWritten dir d m = lookup (mv_path dir m.name) d.files ≡ some m.bytes

pub write_bytecode_ne :
    (dir q : Bytes) (modules : List CompiledModule) (d : Disk)
    → All (λ (m : CompiledModule). q ≢ mv_path dir m.name) modules
    → lookup q (write_bytecode dir modules d).1.files ≡ lookup q d.files
unfolding write_bytecode
write_bytecode_ne dir q [] d ne = refl
write_bytecode_ne dir q (m ∷ modules) d ne =
    let path = mv_path dir m.name in
    let step = failing_as (write_failed path) (write path m.bytes) d in
    let first = lookup-write_ne path q m.bytes d ne.0 in
    and_then_rule (λ e. lookup q e.files ≡ lookup q d.files) step.0
      (λ _. write_bytecode dir modules) step.1 first
      (λ _. write_bytecode_ne dir q modules step.1 ne.1 ∙ first)

pub write_bytecode-IsWritten :
    (dir : Bytes) (modules : List CompiledModule) (d : Disk)
    → All IsFlat modules
    → DistinctModules modules
    → (write_bytecode dir modules d).0 ≡ ok tt
    → All (IsWritten dir (write_bytecode dir modules d).1) modules
unfolding write_bytecode
write_bytecode-IsWritten dir [] d flat distinct h = tt
write_bytecode-IsWritten dir (m ∷ modules) d flat distinct h =
    let path = mv_path dir m.name in
    let step = failing_as (write_failed path) (write path m.bytes) d in
    let (_, done, same) = and_then_ok step.0 (λ _. write_bytecode dir modules) step.1 h in
    let stays = write_bytecode_ne dir path modules step.1 (
      All-map₂
        (λ n f ne.
          mv_path_ne dir m.name n.name
            (mv_name-IsRelative m.name flat.0, mv_name-IsRelative n.name f, ne))
        modules flat.1 distinct.0) in
    subst (λ (r : Disk). All (IsWritten dir r) (m ∷ modules)) (sym (ap (λ r. r.1) same))
      (
        stays ∙ lookup-write path m.bytes d (fail_as_ok _ _ done),
        write_bytecode-IsWritten dir modules step.1 flat.1 distinct.1
            (sym (ap (λ r. r.0) same) ∙ h),
      )

pub write_encoded_ne :
    (path q : Bytes) (encoded : Result Bytes Bytes) (what why : Bytes) (d : Disk)
    → q ≢ path
    → lookup q (write_encoded path encoded what why d).1.files ≡ lookup q d.files
unfolding write_encoded
write_encoded_ne path q encoded what why d ne =
    and_then_rule (λ e. lookup q e.files ≡ lookup q d.files) (fail_as (failed what) encoded)
      (λ bytes. failing_as (failed why) (write path bytes)) d refl
      (λ bytes. lookup-write_ne path q bytes d ne)

-- The file at `path` holds what was encoded.
abbrev pub Holds : Bytes → Result Bytes Bytes → Disk → Type 0
Holds path encoded d = (bytes : Bytes) × (encoded ≡ ok bytes) × (lookup path d.files ≡ some bytes)

pub write_encoded-Holds :
    (path : Bytes) (encoded : Result Bytes Bytes) (what why : Bytes) (d : Disk)
    → (write_encoded path encoded what why d).0 ≡ ok tt
    → Holds path encoded (write_encoded path encoded what why d).1
unfolding write_encoded
write_encoded-Holds path encoded what why d h =
    let write_it = λ (bytes : Bytes). failing_as (failed why) (write path bytes) in
    let (bytes, coded, same) = and_then_ok (fail_as (failed what) encoded) write_it d h in
    (
      bytes,
      fail_as_ok _ _ coded,
      ap (λ r. lookup path r.1.files) same
          ∙ lookup-write path bytes d (fail_as_ok _ _ (sym (ap (λ r. r.0) same) ∙ h)),
    )
