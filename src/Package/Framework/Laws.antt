-- ===== src/Package/Framework/Laws.antt =====
-- What the written framework is on the disk.
use mathlib.Core.Path.{subst}
use mathlib.Core.List.{append_cancel_right}
use nexus_move.Prelude.{
  ◌≡◌, ◌≢◌, ◌⊎◌, refl, sym, ap, ◌∙◌, arith, false, Option, some, List, [], ◌∷◌, length, All, Bytes,
  ascii, ok, inl, inr, Bool-cases, Option-cases,
}
use nexus_move.Prelude.Lists.{All-map, All-map₂}
use nexus_move.Prelude.Map.{lookup}
use nexus_move.Prelude.Orders.{bytes_order}
use nexus_move.Package.Disk.{Disk, file_len}
use nexus_move.Package.Disk.Laws.{
  IsRelative, join-injective, and_then_ok, and_then_rule, fail_as_ok, lookup-write, lookup-write_ne,
}
use nexus_move.Package.Framework.{mv_name, mv_path, needs_write, write_module, write_modules}

-- Modules with different names that are no absolute paths.
abbrev pub Apart : Bytes → Bytes → Type 0
Apart a b = IsRelative (mv_name a) × IsRelative (mv_name b) × (a ≢ b)

pub mv_path_ne : (dir a b : Bytes) → Apart a b → mv_path dir a ≢ mv_path dir b
mv_path_ne dir a b (p, q, ne) e =
    ne (append_cancel_right a b (ascii ".mv") (join-injective dir (mv_name a) (mv_name b) p q e))

-- What stands at a module's path: a file of the module's size, which is the module or was there.
abbrev pub Stands : Bytes → Option Bytes → Option Bytes → Type 0
Stands bytes old new =
    (contents : Bytes) × (new ≡ some contents)
    × (length contents ≡ length bytes)
    × ((contents ≡ bytes) ⊎ (old ≡ some contents))

-- No two modules of a table have the same name, or an absolute path for one.
abbrev pub DistinctNames : List (Bytes × Bytes) → Type 0
DistinctNames [] = Unit
DistinctNames (p ∷ table) = All (λ (q : Bytes × Bytes). Apart p.0 q.0) table × DistinctNames table

same_size :
    (d : Disk) (path bytes : Bytes)
    → needs_write (file_len d path) bytes ≡ false
    → Stands bytes (lookup path d.files) (lookup path d.files)
same_size d path bytes h = elim (Option-cases (lookup path d.files)) [
  | inl e ↦ absurd (ground (arith, e))
  | inr (contents, e) ↦ (contents, e, ground (arith, e), inr e)
]

write_module-Stands :
    (dir name bytes : Bytes) (d : Disk)
    → (write_module dir name bytes d).0 ≡ ok tt
    → Stands bytes
        (lookup (mv_path dir name) d.files)
        (lookup (mv_path dir name) (write_module dir name bytes d).1.files)
unfolding write_module
write_module-Stands dir name bytes d h =
    let path = mv_path dir name in
    elim (Bool-cases (needs_write (file_len d path) bytes)) [
      | inl e ↦ rw e (bytes, lookup-write path bytes d (fail_as_ok _ _ (rw e at h)), refl, inl refl)
      | inr e ↦ rw e (same_size d path bytes e)
    ]

write_module_ne :
    (dir name bytes q : Bytes) (d : Disk)
    → q ≢ mv_path dir name
    → lookup q (write_module dir name bytes d).1.files ≡ lookup q d.files
unfolding write_module
write_module_ne dir name bytes q d ne =
    elim (Bool-cases (needs_write (file_len d (mv_path dir name)) bytes)) [
      | inl e ↦ rw e (lookup-write_ne (mv_path dir name) q bytes d ne)
      | inr e ↦ rw e refl
    ]

-- Only the modules' paths are written to.
pub write_modules_ne :
    (dir q : Bytes) (table : List (Bytes × Bytes)) (d : Disk)
    → All (λ (p : Bytes × Bytes). q ≢ mv_path dir p.0) table
    → lookup q (write_modules dir table d).1.files ≡ lookup q d.files
unfolding write_modules
write_modules_ne dir q [] d ne = refl
write_modules_ne dir q ((name, bytes) ∷ table) d ne =
    let step = write_module dir name bytes d in
    let first = write_module_ne dir name bytes q d ne.0 in
    and_then_rule (λ e. lookup q e.files ≡ lookup q d.files) step.0 (λ _. write_modules dir table)
      step.1 first (λ _. write_modules_ne dir q table step.1 ne.1 ∙ first)

abbrev pub Unchanged : Bytes → Disk → Disk → Bytes × Bytes → Type 0
Unchanged dir d e p = lookup (mv_path dir p.0) e.files ≡ lookup (mv_path dir p.0) d.files

abbrev pub WrittenFrom : Bytes → Disk → Disk → Bytes × Bytes → Type 0
WrittenFrom dir d e p =
    Stands p.1 (lookup (mv_path dir p.0) d.files) (lookup (mv_path dir p.0) e.files)

-- Writing a table, from a disk that is as `d` was where the table's modules go.
pub write_modules-Written :
    (dir : Bytes) (table : List (Bytes × Bytes)) (d e : Disk)
    → DistinctNames table
    → All (Unchanged dir d e) table
    → (write_modules dir table e).0 ≡ ok tt
    → All (WrittenFrom dir d (write_modules dir table e).1) table
unfolding write_modules
write_modules-Written dir [] d e distinct before h = tt
write_modules-Written dir ((name, bytes) ∷ table) d e distinct before h =
    let path = mv_path dir name in
    let step = write_module dir name bytes e in
    let (_, done, same) = and_then_ok step.0 (λ _. write_modules dir table) step.1 h in
    let stays : lookup path (write_modules dir table step.1).1.files ≡ lookup path step.1.files =
      write_modules_ne dir path table step.1
        (All-map (λ q apart. mv_path_ne dir name q.0 apart) table distinct.0) in
    let head : WrittenFrom dir d (write_modules dir table step.1).1 (name, bytes) =
      subst (λ new. Stands bytes (lookup path d.files) new) (sym stays)
        (subst (λ old. Stands bytes old (lookup path step.1.files)) before.0
          (write_module-Stands dir name bytes e done)) in
    let tail : All (Unchanged dir d step.1) table =
      All-map₂
        (λ q apart b.
          write_module_ne dir name bytes (mv_path dir q.0) e
            (λ k. mv_path_ne dir name q.0 apart (sym k))
          ∙ b)
        table distinct.0 before.1 in
    subst (λ (r : Disk). All (WrittenFrom dir d r) ((name, bytes) ∷ table))
      (sym (ap (λ r. r.1) same))
      (
        head,
        write_modules-Written dir table d step.1 distinct.1 tail (sym (ap (λ r. r.0) same) ∙ h),
      )
