-- ===== src/Package/Bootstrap/Order.antt =====
-- The loading of the modules that the build command left: the order in which the directories list
-- their entries does not matter.
use mathlib.Core.List.{Permᴰ}
use mathlib.Core.List.Permᴰ
use nexus_move.Prelude.{
  ◌≡◌, refl, sym, ap, ◌∙◌, Bool, ◌&&◌, List, [], ◌∷◌, Bytes, ascii, Result, ok, err, panic, map_err,
  ◌>>=◌, >>=-eq-ok, Bool-cases, inl, inr,
}
use nexus_move.Prelude.Gather.{gather, Follows, gather_rearranged}
use nexus_move.Prelude.Orders.{bytes_order}
use nexus_move.Prelude.Sorting.{sort_by_rearranged}
use nexus_move.Package.{BuildError, backend, CompiledModule, join}
use nexus_move.Package.Bootstrap.{
  TreeEntry, Tree, load_file, load_files, load_package, load_packages, load_build_modules,
}
use nexus_move.Package.Loading.{name_of, HaveDistinctNames}

abbrev pub Listing : Type 0
Listing = Result Bytes (List (Result Bytes TreeEntry))

-- What the first reading lists the second lists too, in some order.
abbrev pub Relists : (Bytes → Listing) → (Bytes → Listing) → Type 0
Relists read_dir again =
    (dir : Bytes) (entries : List (Result Bytes TreeEntry))
    → read_dir dir ≡ ok entries
    → (others : List (Result Bytes TreeEntry)) × (again dir ≡ ok others) × Permᴰ entries others

map_err_ok : {E F A : Type 0} (f : E → F) (r : Result E A) {a : A} → map_err f r ≡ ok a → r ≡ ok a
map_err_ok f panic h = cc
map_err_ok f (err e) h = cc
map_err_ok f (ok b) h = cc

file_step : Tree → Result Bytes TreeEntry → Result BuildError (List CompiledModule)
file_step tree entry = map_err backend entry >>= load_file tree

package_step : Tree → Result Bytes TreeEntry → Result BuildError (List CompiledModule)
package_step tree entry = map_err backend entry >>= load_package tree

load_files-gather :
    (tree : Tree) (entries : List (Result Bytes TreeEntry))
    → load_files tree entries ≡ gather (file_step tree) entries
unfolding load_files gather file_step
load_files-gather tree [] = refl
load_files-gather tree (ok e ∷ entries) = rw (load_files-gather tree entries) refl
load_files-gather tree (err e ∷ entries) = refl
load_files-gather tree (panic ∷ entries) = refl

load_packages-gather :
    (tree : Tree) (entries : List (Result Bytes TreeEntry))
    → load_packages tree entries ≡ gather (package_step tree) entries
unfolding load_packages gather package_step
load_packages-gather tree [] = refl
load_packages-gather tree (ok e ∷ entries) = rw (load_packages-gather tree entries) refl
load_packages-gather tree (err e ∷ entries) = refl
load_packages-gather tree (panic ∷ entries) = refl

module _ (tree : Tree) (again : Bytes → Listing) (relists : Relists tree.read_dir again) where
  abbrev relisted : Tree
  relisted = record tree { read_dir = again }

  load_files_rearranged :
      {entries others : List (Result Bytes TreeEntry)} (ms : List CompiledModule)
      → Permᴰ entries others
      → load_files tree entries ≡ ok ms
      → (ns : List CompiledModule) × (load_files relisted others ≡ ok ns) × Permᴰ ms ns
  unfolding file_step load_file
  load_files_rearranged {entries} {others} ms p h =
      let (ns, k, q) =
        gather_rearranged (file_step tree) (file_step relisted) ms
          (λ x ms e. (ms, e, Permᴰ.refl ms)) p (sym (load_files-gather tree entries) ∙ h) in
      (ns, load_files-gather relisted others ∙ k, q)

  -- The modules of one package, once it is known to be a directory or not.
  package_rearranged :
      (entry : TreeEntry) (is_dir : Bool) (ms : List CompiledModule)
      → entry.is_dir ≡ ok is_dir
      → load_package tree entry ≡ ok ms
      → (ns : List CompiledModule) × (load_package relisted entry ≡ ok ns) × Permᴰ ms ns
  unfolding load_package
  package_rearranged entry is_dir ms typed h =
      let bytecode_dir = join entry.path (ascii "bytecode_modules") in
      elim (Bool-cases (is_dir && tree.exists bytecode_dir)) [
        | inl e ↦
            let loads = rw (typed, e) at h in
            let (entries, listed, k) =
              >>=-eq-ok (map_err backend (tree.read_dir bytecode_dir)) (load_files tree) loads in
            let (others, found, p) =
              relists bytecode_dir entries
                (map_err_ok backend (tree.read_dir bytecode_dir) listed) in
            let (ns, k', q) = load_files_rearranged ms p k in (ns, rw (typed, e) (rw found k'), q)
        | inr e ↦ (ms, rw (typed, e) (rw (typed, e) at h), Permᴰ.refl ms)
      ]

  package_typed :
      (entry : TreeEntry) (ms : List CompiledModule)
      → load_package tree entry ≡ ok ms
      → (is_dir : Bool) × (entry.is_dir ≡ ok is_dir)
  unfolding load_package
  package_typed entry ms h =
      let (is_dir, typed, _) = >>=-eq-ok (map_err backend entry.is_dir) _ h in
      (is_dir, map_err_ok backend entry.is_dir typed)

  load_package-Follows : Follows (package_step tree) (package_step relisted)
  unfolding package_step
  load_package-Follows (ok entry) ms h =
      let (is_dir, typed) = package_typed entry ms h in package_rearranged entry is_dir ms typed h
  load_package-Follows (err e) ms h = cc
  load_package-Follows panic ms h = cc

  load_packages_rearranged :
      {entries others : List (Result Bytes TreeEntry)} (ms : List CompiledModule)
      → Permᴰ entries others
      → load_packages tree entries ≡ ok ms
      → (ns : List CompiledModule) × (load_packages relisted others ≡ ok ns) × Permᴰ ms ns
  load_packages_rearranged {entries} {others} ms p h =
      let (ns, k, q) =
        gather_rearranged (package_step tree) (package_step relisted) ms load_package-Follows p
          (sym (load_packages-gather tree entries) ∙ h) in
      (ns, load_packages-gather relisted others ∙ k, q)

  -- Whatever the orders in which the build directory and the directories of bytecode list their
  -- entries, the modules are loaded in the same order, if all of them are read and their names
  -- differ.
  pub load_build_modules_rearranged :
      (build_dir : Bytes) (entries : List (Result Bytes TreeEntry)) (ms : List CompiledModule)
      → tree.read_dir build_dir ≡ ok entries
      → load_packages tree entries ≡ ok ms
      → HaveDistinctNames ms
      → load_build_modules (record tree { read_dir = again }) build_dir
        ≡ load_build_modules tree build_dir
  unfolding load_build_modules
  load_build_modules_rearranged build_dir entries ms listed h distinct =
      let (others, found, p) = relists build_dir entries listed in
      let (ns, k, q) = load_packages_rearranged ms p h in
      rw (listed, found) (rw (h, k) (ap ok (sym (sort_by_rearranged name_of q distinct))))
