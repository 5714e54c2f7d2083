-- ===== src/Package/Bootstrap/Tests.antt =====
-- The command line, the loading of bytecode and the native backend on concrete data.
use mathlib.Core.Path.{subst}
use mathlib.Core.List.{Permᴰ}
use mathlib.Core.List.Permᴰ
use nexus_move.Prelude.{
  ◌≡◌, ◌⊎◌, err, refl, arith, true, false, none, some, List, [], ◌∷◌, ◌++◌, replicate, Bytes,
  bytes_eq, bytes_ne, ascii, Result, ok, if◌then◌else◌, Bool-cases, inl, inr,
}
use nexus_move.Prelude.Orders.{bytes_order}
use nexus_move.Types.{AccountAddress}
use nexus_move.Package.{
  BuildOptions, BuildPlan, package_dir_missing, immutable, bootstrap_options, for_package_dir, join,
  parse_named_address_assignments,
}
use nexus_move.Package.Backends.{DirEntry, FileSystem, load_entries, load_dir}
use nexus_move.Package.Merge.{merged_named_addresses}
use nexus_move.Package.Disk.{Disk, exists}
use nexus_move.Package.Native.{
  Compiler, CompilerOptions, module_unit, script_unit, with_bytecode_deps, native_compile,
}
use nexus_move.Package.Native.Options.{IsAsked}
use nexus_move.Package.Native.Laws.{Becomes, native_compile_outcomes}
use nexus_move.Package.Loading.{load_dir_rearranged}
use nexus_move.Package.Bootstrap.{TreeEntry, Tree, build_command, load_packages, load_build_modules}
use nexus_move.Package.Bootstrap.Laws.{IsWritable, split_commas, build_command_read}
use nexus_move.Package.Bootstrap.Order.{Listing, load_build_modules_rearranged}

abbrev cafe : AccountAddress
cafe = replicate 30 0 ++ 0xca ∷ 0xfe ∷ []

abbrev options : BuildOptions
options = record (bootstrap_options (ascii "p")) {
  named_addresses =
      record { name = ascii "owner"; address = cafe }
      ∷ record { name = ascii "guest"; address = cafe }
      ∷ [];
}

owner-IsWritable : IsWritable (record { name = ascii "owner"; address = cafe })
owner-IsWritable = record {
  plain = omega arith;
  solid = (refl, (refl, (refl, (refl, (refl, tt)))));
  no_comma = omega arith;
  address = record { size = refl; bytes = omega arith };
}

guest-IsWritable : IsWritable (record { name = ascii "guest"; address = cafe })
guest-IsWritable = record {
  plain = omega arith;
  solid = (refl, (refl, (refl, (refl, (refl, tt)))));
  no_comma = omega arith;
  address = record { size = refl; bytes = omega arith };
}

build_command_read_example :
    (front : List Bytes) × (csv : Bytes) × ((build_command (ascii "m") options).args
      ≡ front ++ (ascii "--named-addresses" ∷ csv ∷ []))
    × (parse_named_address_assignments (split_commas csv) ≡ ok options.named_addresses)
build_command_read_example =
    build_command_read (ascii "m") options (λ e. cc) (owner-IsWritable, (guest-IsWritable, tt))

abbrev mv : Bytes → DirEntry
mv stem = record { path = join (ascii "d") stem; stem = some stem; extension = some (ascii "mv") }

abbrev listed : List (Result Bytes DirEntry)
listed = ok (mv (ascii "b")) ∷ ok (mv (ascii "a")) ∷ []

abbrev relisted : List (Result Bytes DirEntry)
relisted = ok (mv (ascii "a")) ∷ ok (mv (ascii "b")) ∷ []

abbrev directory : FileSystem
directory = record { exists = λ p. true; read_dir = λ p. ok listed; read = λ p. ok p }

load_dir_rearranged_example :
    load_dir (record directory { read_dir = λ p. ok relisted }) (ascii "d")
    ≡ load_dir directory (ascii "d")
unfolding load_entries
load_dir_rearranged_example =
    load_dir_rearranged directory (ascii "d") (λ p. ok relisted) listed relisted _ refl refl
      (Permᴰ.swap refl refl) refl ((bytes_ne _ _ refl, tt), (tt, tt))

abbrev bytecode_file : Bytes → TreeEntry
bytecode_file stem = record {
  path = stem;
  is_dir = ok false;
  extension = some (ascii "mv");
  stem = some stem;
  is_file = true;
}

abbrev package_entry : TreeEntry
package_entry = record {
  path = ascii "build/counter";
  is_dir = ok true;
  extension = none;
  stem = none;
  is_file = false;
}

abbrev files : List (Result Bytes TreeEntry)
files = ok (bytecode_file (ascii "b")) ∷ ok (bytecode_file (ascii "a")) ∷ []

abbrev files_again : List (Result Bytes TreeEntry)
files_again = ok (bytecode_file (ascii "a")) ∷ ok (bytecode_file (ascii "b")) ∷ []

abbrev reading : List (Result Bytes TreeEntry) → Bytes → Listing
reading inner dir = if bytes_eq dir (ascii "build") then ok (ok package_entry ∷ []) else ok inner

abbrev built : Tree
built = record { exists = λ p. true; read_dir = reading files; read = λ p. ok p }

ok_injective : {E A : Type 0} {a b : A} → ◌≡◌ {A = Result E A} (ok a) (ok b) → a ≡ b
ok_injective h = cc

relists :
    (dir : Bytes) (entries : List (Result Bytes TreeEntry))
    → reading files dir ≡ ok entries
    → (others : List (Result Bytes TreeEntry)) × (reading files_again dir ≡ ok others)
      × Permᴰ entries others
relists dir entries e = elim (Bool-cases (bytes_eq dir (ascii "build"))) [
  | inl t ↦ (entries, rw t (rw t at e), Permᴰ.refl entries)
  | inr f ↦ (
    files_again,
    rw f refl,
    subst (λ l. Permᴰ l files_again) (ok_injective (rw f at e)) (Permᴰ.swap refl refl),
  )
]

load_build_modules_rearranged_example :
    load_build_modules (record built { read_dir = reading files_again }) (ascii "build")
    ≡ load_build_modules built (ascii "build")
unfolding load_packages
load_build_modules_rearranged_example =
    load_build_modules_rearranged built (reading files_again) relists (ascii "build") _ _ refl refl
      ((bytes_ne _ _ refl, tt), (tt, tt))

abbrev plan : BuildPlan
plan = record {
  options = options;
  move_toml = record { package_name = none; upgrade_policy = immutable; named_addresses = [] };
  artifact_layout = for_package_dir (ascii "p");
}

abbrev disk : Disk
disk = record { files = []; is_dir = λ q. true; refuse = λ q. none; unreadable = λ q. none }

abbrev compiler : Compiler
compiler d o = (ok (script_unit ∷ module_unit (ascii "a") (ok (1 ∷ [])) ∷ []), d)

native_compile_outcomes_example :
    let backend = with_bytecode_deps (ascii "f" ∷ []) in
    let r = native_compile compiler backend disk plan in
    ((exists disk (ascii "p/sources") ≡ false)
      × (r ≡ (err (package_dir_missing (ascii "p/sources")), disk)))
    ⊎ ((exists disk (ascii "p/sources") ≡ true)
        × ((o : CompilerOptions) × IsAsked backend disk plan o
            × (r.1 ≡ (compiler disk o).1)
            × Becomes backend disk plan (compiler disk o).0 r.0))
unfolding merged_named_addresses
native_compile_outcomes_example =
    native_compile_outcomes (with_bytecode_deps (ascii "f" ∷ [])) disk plan compiler
      (owner-IsWritable, (guest-IsWritable, tt))
