-- ===== src/Package/Framework.antt =====
-- `write_embedded_framework` of crates/nexus-move-package/src/build.rs: the framework's bytecode as
-- files, for the compiler.
pub mod Laws
pub mod Written
use nexus_move.Prelude.{
  ℕ, Bool, true, false, not, Option, none, some, List, [], ◌∷◌, ◌++◌, ◌==◌, if◌then◌else◌, length,
  Bytes, ascii, ok,
}
use nexus_move.Stdlib.{framework_table, framework_names}
use nexus_move.Package.{BuildError, backend, join}
use nexus_move.Package.Disk.{
  Disk, Fs, return, ◌>>=◌, ◌>>◌, failing_as, create_dir_all, write, file_len,
}

-- `format!("{name}.mv")`
abbrev pub mv_name : Bytes → Bytes
mv_name name = name ++ ascii ".mv"

abbrev pub mv_path : Bytes → Bytes → Bytes
mv_path dir name = join dir (mv_name name)

-- `format!("failed to write {}: {e}", path.display())`
abbrev pub write_failed : Bytes → Bytes → BuildError
write_failed path e = backend (ascii "failed to write " ++ (path ++ (ascii ": " ++ e)))

abbrev pub needs_write : Option ℕ → Bytes → Bool
needs_write none bytes = true
needs_write (some len) bytes = not (len == length bytes)

-- The body of the loop: a file of the same size stays.
unfoldable pub write_module : Bytes → Bytes → Bytes → Fs BuildError (Unit {0})
unfolding write
write_module dir name bytes d =
    let path = mv_path dir name in
    if needs_write (file_len d path) bytes
    then failing_as (write_failed path) (write path bytes) d
    else (ok tt, d)

-- The loop over `FRAMEWORK_MODULES`.
unfoldable pub write_modules : Bytes → List (Bytes × Bytes) → Fs BuildError (Unit {0})
unfolding write_module
write_modules dir [] = return (ok tt)
write_modules dir ((name, bytes) ∷ table) =
    let rest = write_modules dir table in write_module dir name bytes >> rest

module _ (embedded : Bytes → Bytes) where
  unfoldable pub write_embedded_framework : Bytes → Fs BuildError (Unit {0})
  unfolding write_modules create_dir_all
  write_embedded_framework dir =
      failing_as (λ e. backend (ascii "failed to create framework dir: " ++ e)) (create_dir_all dir)
      >> write_modules dir (framework_table embedded framework_names)
