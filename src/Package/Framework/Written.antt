-- ===== src/Package/Framework/Written.antt =====
-- The embedded framework on the disk: what a call leaves there, and what a second call does.
use mathlib.Core.Path.{subst}
use nexus_move.Prelude.{
  ◌≡◌, ◌≢◌, refl, sym, ap, ◌∙◌, arith, Bool, true, false, none, some, List, [], ◌∷◌, ◌++◌, length,
  All, Bytes, ascii, ok, not, ◌&&◌, bytes_eq, bytes_eq_iff, ◌||◌,
}
use nexus_move.Prelude.Lists.{All-map}
use nexus_move.Prelude.Map.{lookup}
use nexus_move.Prelude.Orders.{bytes_order}
use nexus_move.Stdlib.{framework_table, framework_names}
use nexus_move.Package.{BuildError, backend, is_absolute}
use nexus_move.Package.Disk.{Disk, Fs, and_then, create_dir_all, file_len, failing_as, is_above}
use nexus_move.Package.Disk.Laws.{
  and_then_ok, and_then_rule, create_dir_all-files, create_dir_all-refuse, create_dir_all_allowed,
  create_dir_all_ok, IsRelative, fail_as_ok, write-refuse,
}
use nexus_move.Package.Framework.{
  mv_name, mv_path, needs_write, write_module, write_modules, write_embedded_framework,
}
use nexus_move.Package.Framework.Laws.{
  Apart, DistinctNames, WrittenFrom, Unchanged, write_modules-Written, write_modules_ne,
}

-- The name is none of the names.
abbrev is_new : Bytes → List Bytes → Bool
is_new name [] = true
is_new name (other ∷ names) = not (bytes_eq name other) && is_new name names

abbrev all_distinct : List Bytes → Bool
all_distinct [] = true
all_distinct (name ∷ names) = is_new name names && all_distinct names

-- None of the names begins an absolute path.
abbrev pub all_relative : List Bytes → Bool
all_relative [] = true
all_relative (name ∷ names) = not (is_absolute (mv_name name)) && all_relative names

pub framework_relative : all_relative framework_names ≡ true
framework_relative = refl

framework_distinct : all_distinct framework_names ≡ true
framework_distinct = refl

pub left_of_and : (a b : Bool) → (not a && b) ≡ true → a ≡ false
left_of_and false b h = refl
left_of_and true b h = cc

pub right_of_and : (a b : Bool) → (a && b) ≡ true → b ≡ true
right_of_and true b h = h
right_of_and false b h = cc

module _ (embedded : Bytes → Bytes) where
  is_new-ne :
      (name : Bytes) (names : List Bytes)
      → IsRelative (mv_name name)
      → all_relative names ≡ true
      → is_new name names ≡ true
      → All (λ (q : Bytes × Bytes). Apart name q.0) (framework_table embedded names)
  is_new-ne name [] p r h = tt
  is_new-ne name (other ∷ names) p r h = (
    (p, left_of_and _ _ r, (λ e. ground (arith, (bytes_eq_iff name other).1 e))),
    is_new-ne name names p (right_of_and _ _ r) (ground arith),
  )

  table_distinct :
      (names : List Bytes)
      → all_relative names ≡ true
      → all_distinct names ≡ true
      → DistinctNames (framework_table embedded names)
  table_distinct [] r h = tt
  table_distinct (name ∷ names) r h = (
    is_new-ne name names (left_of_and _ _ r) (right_of_and _ _ r) (ground arith),
    table_distinct names (right_of_and _ _ r) (ground arith),
  )

-- A step that leaves the files alone is no change.
All-Unchanged :
    (dir : Bytes) (table : List (Bytes × Bytes)) (d e : Disk)
    → e.files ≡ d.files
    → All (Unchanged dir d e) table
All-Unchanged dir [] d e h = tt
All-Unchanged dir (p ∷ table) d e h =
    (ap (lookup (mv_path dir p.0)) h, All-Unchanged dir table d e h)

-- No call, successful or not, touches another file than the modules'.
pub write_embedded_framework_ne :
    (embedded : Bytes → Bytes) (dir q : Bytes) (d : Disk)
    → All (λ (p : Bytes × Bytes). q ≢ mv_path dir p.0) (framework_table embedded framework_names)
    → lookup q (write_embedded_framework embedded dir d).1.files ≡ lookup q d.files
unfolding write_embedded_framework
write_embedded_framework_ne embedded dir q d ne =
    let table = framework_table embedded framework_names in
    let made =
      failing_as (λ e. backend (ascii "failed to create framework dir: " ++ e)) (create_dir_all dir)
        d in
    let kept : made.1.files ≡ d.files = create_dir_all-files dir d in
    and_then_rule (λ r. lookup q r.files ≡ lookup q d.files) made.0 (λ _. write_modules dir table)
      made.1 (ap (lookup q) kept) (λ _. write_modules_ne dir q table made.1 ne ∙ ap (lookup q) kept)

-- After a successful call each module of the framework has a file of its size, which is the module
-- or stood there before with that size; and no path but the modules' has changed.
pub write_embedded_framework_lem :
    (embedded : Bytes → Bytes) (dir : Bytes) (d : Disk)
    → (write_embedded_framework embedded dir d).0 ≡ ok tt
    → let e = (write_embedded_framework embedded dir d).1 in
      All (WrittenFrom dir d e) (framework_table embedded framework_names)
      × ((q : Bytes)
          → All
              (λ (p : Bytes × Bytes). q ≢ mv_path dir p.0)
              (framework_table embedded framework_names)
          → lookup q e.files ≡ lookup q d.files)
unfolding write_embedded_framework
write_embedded_framework_lem embedded dir d h =
    let table = framework_table embedded framework_names in
    let made =
      failing_as (λ e. backend (ascii "failed to create framework dir: " ++ e)) (create_dir_all dir)
        d in
    let (_, done, same) = and_then_ok made.0 (λ _. write_modules dir table) made.1 h in
    let kept : made.1.files ≡ d.files = create_dir_all-files dir d in
    (
      subst (λ (r : Disk). All (WrittenFrom dir d r) table) (sym (ap (λ r. r.1) same))
          (write_modules-Written dir table d made.1
            (table_distinct embedded framework_names framework_relative framework_distinct)
            (All-Unchanged dir table d made.1 kept) (sym (ap (λ r. r.0) same) ∙ h)),
      λ q. write_embedded_framework_ne embedded dir q d,
    )

-- A file of the size is there.
abbrev HasSize : Bytes → Disk → Bytes × Bytes → Type 0
HasSize dir d p =
    (contents : Bytes) × (lookup (mv_path dir p.0) d.files ≡ some contents)
    × (length contents ≡ length p.1)

-- Where every module has a file of its size, nothing is written.
nothing_to_write :
    (dir : Bytes) (table : List (Bytes × Bytes)) (d : Disk)
    → All (HasSize dir d) table
    → write_modules dir table d ≡ (ok tt, d)
unfolding write_modules write_module
nothing_to_write dir [] d h = refl
nothing_to_write dir ((name, bytes) ∷ table) d h =
    let sized : needs_write (file_len d (mv_path dir name)) bytes ≡ false =
      rw (h.0.1, needs_write) (ground (arith, h.0.2)) in
    rw sized (nothing_to_write dir table d h.1)

write_module-refuse :
    (dir name bytes : Bytes) (d : Disk) → (write_module dir name bytes d).1.refuse ≡ d.refuse
unfolding write_module
write_module-refuse dir name bytes d = ground (arith, write-refuse (mv_path dir name) bytes d)

write_modules-refuse :
    (dir : Bytes) (table : List (Bytes × Bytes)) (d : Disk)
    → (write_modules dir table d).1.refuse ≡ d.refuse
unfolding write_modules
write_modules-refuse dir [] d = refl
write_modules-refuse dir ((name, bytes) ∷ table) d =
    let step = write_module dir name bytes d in
    let first = write_module-refuse dir name bytes d in
    and_then_rule (λ e. e.refuse ≡ d.refuse) step.0 (λ _. write_modules dir table) step.1 first
      (λ _. write_modules-refuse dir table step.1 ∙ first)

-- The directory, then the table.
abbrev creating : Bytes → Fs BuildError (Unit {0})
creating dir =
    failing_as (λ e. backend (ascii "failed to create framework dir: " ++ e)) (create_dir_all dir)

abbrev creating_and_writing : Bytes → List (Bytes × Bytes) → Fs BuildError (Unit {0})
creating_and_writing dir table d =
    let made = creating dir d in and_then made.0 (λ _. write_modules dir table) made.1

allowed_again :
    (dir : Bytes) (table : List (Bytes × Bytes)) (d : Disk)
    → (creating_and_writing dir table d).0 ≡ ok tt
    → (creating_and_writing dir table d).1.refuse dir ≡ none
allowed_again dir table d h =
    let made = creating dir d in
    let (_, done, _) = and_then_ok made.0 (λ _. write_modules dir table) made.1 h in
    and_then_rule (λ e. e.refuse dir ≡ none) made.0 (λ _. write_modules dir table) made.1
      (ap (λ r. r dir) (create_dir_all-refuse dir d)
        ∙ create_dir_all_allowed dir d (fail_as_ok _ _ done))
      (λ _.
        ap (λ r. r dir) (write_modules-refuse dir table made.1 ∙ create_dir_all-refuse dir d)
        ∙ create_dir_all_allowed dir d (fail_as_ok _ _ done))

writes_nothing :
    (dir : Bytes) (table : List (Bytes × Bytes)) (e : Disk)
    → e.refuse dir ≡ none
    → All (HasSize dir e) table
    → creating_and_writing dir table e
      ≡ (ok tt, record e { is_dir = λ q. e.is_dir q || is_above q dir })
writes_nothing dir table e allowed sized =
    rw (create_dir_all_ok dir e allowed) (nothing_to_write dir table _ sized)

-- A second call succeeds and leaves every file as the first left it.
pub write_embedded_framework_again :
    (embedded : Bytes → Bytes) (dir : Bytes) (d : Disk)
    → (write_embedded_framework embedded dir d).0 ≡ ok tt
    → let e = (write_embedded_framework embedded dir d).1 in
      ((write_embedded_framework embedded dir e).0 ≡ ok tt)
      × ((write_embedded_framework embedded dir e).1.files ≡ e.files)
unfolding write_embedded_framework
write_embedded_framework_again embedded dir d h =
    let table = framework_table embedded framework_names in
    let e = (write_embedded_framework embedded dir d).1 in
    let again = writes_nothing dir table e (allowed_again dir table d h) (
      All-map {P = WrittenFrom dir d e} {Q = HasSize dir e} (λ p s. (s.0, s.1, s.2)) table
        (write_embedded_framework_lem embedded dir d h).0) in
    (ap (λ r. r.0) again, ap (λ r. r.1.files) again)
