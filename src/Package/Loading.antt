-- ===== src/Package/Loading.antt =====
-- The loading of bytecode in crates/nexus-move-package/src/precompiled_backend.rs: the order in which
-- the directory lists its entries does not matter.
use mathlib.Core.List.{Permᴰ}
use mathlib.Core.List.Permᴰ
use nexus_move.Prelude.{
  ◌≡◌, refl, sym, ap, ◌∙◌, List, [], ◌∷◌, Bytes, Result, ok, err, panic, map_err, ◌>>=◌,
}
use nexus_move.Prelude.Gather.{gather, gather_rearranged}
use nexus_move.Prelude.Orders.{bytes_order}
use nexus_move.Prelude.Sorting.{DistinctKeys, sort_by_rearranged}
use nexus_move.Package.{BuildError, backend, CompiledModule}
use nexus_move.Package.Backends.{DirEntry, FileSystem, load_entry, load_entries, load_dir}

abbrev pub name_of : CompiledModule → Bytes
name_of m = m.name

-- No two loaded modules have the same name.
abbrev pub HaveDistinctNames : List CompiledModule → Type 0
HaveDistinctNames modules = DistinctKeys name_of modules

entry_step : FileSystem → Result Bytes DirEntry → Result BuildError (List CompiledModule)
entry_step fs entry = map_err backend entry >>= load_entry fs

load_entries-gather :
    (fs : FileSystem) (entries : List (Result Bytes DirEntry))
    → load_entries fs entries ≡ gather (entry_step fs) entries
unfolding load_entries gather entry_step
load_entries-gather fs [] = refl
load_entries-gather fs (ok e ∷ entries) = rw (load_entries-gather fs entries) refl
load_entries-gather fs (err e ∷ entries) = refl
load_entries-gather fs (panic ∷ entries) = refl

load_entries_rearranged :
    (fs : FileSystem) {entries others : List (Result Bytes DirEntry)} (ms : List CompiledModule)
    → Permᴰ entries others
    → load_entries fs entries ≡ ok ms
    → (ns : List CompiledModule) × (load_entries fs others ≡ ok ns) × Permᴰ ms ns
load_entries_rearranged fs {entries} {others} ms p h =
    let (ns, k, q) =
      gather_rearranged (entry_step fs) (entry_step fs) ms (λ x ms e. (ms, e, Permᴰ.refl ms)) p
        (sym (load_entries-gather fs entries) ∙ h) in
    (ns, load_entries-gather fs others ∙ k, q)

module _ (fs : FileSystem) (dir : Bytes)
    (read_dir : Bytes → Result Bytes (List (Result Bytes DirEntry))) where
  -- Whatever the order in which the directory lists its entries, the modules are loaded in the same
  -- order, if all of them are read and their names differ.
  pub load_dir_rearranged :
      (entries others : List (Result Bytes DirEntry)) (ms : List CompiledModule)
      → fs.read_dir dir ≡ ok entries
      → read_dir dir ≡ ok others
      → Permᴰ entries others
      → load_entries fs entries ≡ ok ms
      → HaveDistinctNames ms
      → load_dir (record fs { read_dir = read_dir }) dir ≡ load_dir fs dir
  unfolding load_dir load_entries load_entry
  load_dir_rearranged entries others ms listed relisted p h distinct =
      let (ns, k, q) = load_entries_rearranged fs ms p h in
      rw (listed, relisted) (rw (h, k) (ap ok (sym (sort_by_rearranged name_of q distinct))))
