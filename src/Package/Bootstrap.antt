-- ===== src/Package/Bootstrap.antt =====
-- crates/nexus-move-package/src/bootstrap_backend.rs: the backend that starts the workspace's own
-- build command and loads the modules that it leaves. The run of the command is a parameter.
pub mod Laws
pub mod Order
mod Tests
use nexus_move.Prelude.{
  Bool, true, false, not, ◌&&◌, Option, none, some, List, [], ◌∷◌, ◌++◌, map, if◌then◌else◌,
  is_empty, Bytes, ascii, ◌==◌, Result, ok, err, map_err, ◌>>=◌,
}
use nexus_move.Prelude.Orders.{bytes_order}
use nexus_move.Prelude.Sorting.{sort_by}
use nexus_move.Types.{display_address}
use nexus_move.Package.{
  NamedAddressAssignment, BuildOptions, BuildPlan, BuildError, backend, no_modules_produced,
  CompiledModule, CompiledPackage, join, trim,
}
use nexus_move.Package.Merge.{Assignments, merged_named_addresses}
use nexus_move.Package.Backends.{or_text, is_mv}

-- `std::process::Command`
pub record Command : Type 0 where
  pub program : Bytes
  pub args : List Bytes

-- `format!("{}={}", entry.name, entry.address)`
abbrev pub assignment_text : NamedAddressAssignment → Bytes
assignment_text entry = entry.name ++ b'=' ∷ display_address entry.address

-- `.join(",")`
unfoldable pub join_commas : List Bytes → Bytes
join_commas [] = []
join_commas (s ∷ []) = s
join_commas (s ∷ t ∷ rest) = s ++ b',' ∷ join_commas (t ∷ rest)

abbrev pub csv_of : Assignments → Bytes
csv_of entries = join_commas (map assignment_text entries)

abbrev pub skip_args : Bool → List Bytes
skip_args true = ascii "--skip-fetch" ∷ []
skip_args false = []

abbrev pub address_args : Assignments → List Bytes
address_args [] = []
address_args (entry ∷ entries) = ascii "--named-addresses" ∷ csv_of (entry ∷ entries) ∷ []

unfoldable pub build_command : Bytes → BuildOptions → Command
unfolding join_commas
build_command manifest_path options = record {
  program = ascii "cargo";
  args =
      (ascii "run"
        ∷ ascii "--manifest-path"
        ∷ manifest_path
        ∷ ascii "--bin"
        ∷ ascii "nexus-wallet"
        ∷ ascii "--"
        ∷ ascii "move"
        ∷ ascii "build"
        ∷ ascii "--package-dir"
        ∷ options.package_dir
        ∷ [])
      ++ (skip_args options.skip_fetch_latest_git_deps ++ address_args options.named_addresses);
}

-- An entry of a directory, by what the loader asks of it.
pub record TreeEntry : Type 0 where
  pub path : Bytes
  pub is_dir : Result Bytes Bool
  pub extension : Option Bytes
  pub stem : Option Bytes
  pub is_file : Bool

pub record Tree : Type 0 where
  pub exists : Bytes → Bool
  pub read_dir : Bytes → Result Bytes (List (Result Bytes TreeEntry))
  pub read : Bytes → Result Bytes Bytes

-- `std::process::Output`
pub record Output : Type 0 where
  pub success : Bool
  pub stdout : Bytes
  pub stderr : Bytes

module _ (tree : Tree) where
  -- A bytecode file of a package.
  unfoldable pub load_file : TreeEntry → Result BuildError (List CompiledModule)
  load_file entry =
      if is_mv entry.extension && entry.is_file
      then (map_err backend (tree.read entry.path) >>= λ bytes.
          ok (record { name = or_text [] entry.stem; bytes = bytes } ∷ []))
      else ok []

  -- The inner loop.
  unfoldable pub load_files :
      List (Result Bytes TreeEntry) → Result BuildError (List CompiledModule)
  unfolding load_file
  load_files [] = ok []
  load_files (entry ∷ entries) =
      let rest = load_files entries in
      map_err backend entry >>= λ e.
      load_file e >>= λ modules. rest >>= λ others. ok (modules ++ others)

  -- The modules of one entry of the build directory: none, unless it is a directory with bytecode.
  unfoldable pub load_package : TreeEntry → Result BuildError (List CompiledModule)
  unfolding load_files
  load_package entry = map_err backend entry.is_dir >>= λ is_dir.
      let bytecode_dir = join entry.path (ascii "bytecode_modules") in
      if is_dir && tree.exists bytecode_dir
      then (map_err backend (tree.read_dir bytecode_dir) >>= load_files)
      else ok []

  -- The outer loop.
  unfoldable pub load_packages :
      List (Result Bytes TreeEntry) → Result BuildError (List CompiledModule)
  unfolding load_package
  load_packages [] = ok []
  load_packages (entry ∷ entries) =
      let rest = load_packages entries in
      map_err backend entry >>= λ e.
      load_package e >>= λ modules. rest >>= λ others. ok (modules ++ others)

  unfoldable pub load_build_modules : Bytes → Result BuildError (List CompiledModule)
  unfolding load_packages sort_by
  load_build_modules build_dir =
      map_err backend (tree.read_dir build_dir) >>= load_packages >>= λ modules.
      ok (sort_by (λ (m : CompiledModule). m.name) modules)

-- The message of a failed command.
abbrev pub message_of : Output → Bytes
message_of output =
    let stderr = trim output.stderr in if is_empty stderr then trim output.stdout else stderr

-- What stands after the last slash of the second text, or the first where it has none.
unfoldable pub last_part : Bytes → Bytes → Bytes
last_part part [] = part
last_part part (b ∷ s) = last_part (if b == b'/' then s else part) s

-- `path.file_name()`, of a path that ends in a name
unfoldable pub package_name_from_path : Bytes → Bytes
unfolding last_part
package_name_from_path path = last_part path path

module _ (run : Command → Result Bytes (Output × Tree)) where
  abbrev pub name_or_path : BuildPlan → Bytes
  name_or_path plan =
      or_text (package_name_from_path plan.artifact_layout.package_dir) plan.move_toml.package_name

  -- The package of the modules that a successful command left.
  unfoldable pub load_output : BuildPlan → Output × Tree → Result BuildError CompiledPackage
  unfolding load_build_modules package_name_from_path
  load_output plan (output, tree) =
      if not output.success
      then err (backend (message_of output))
      else (load_build_modules tree plan.artifact_layout.build_dir >>= λ modules.
          if is_empty modules
          then err no_modules_produced
          else ok (record {
            package_name = name_or_path plan;
            upgrade_policy = plan.move_toml.upgrade_policy;
            named_addresses = merged_named_addresses plan;
            modules = modules;
          }))

  -- `MovePackageBackend::compile`
  unfoldable pub bootstrap_compile : Bytes → BuildPlan → Result BuildError CompiledPackage
  unfolding load_output build_command
  bootstrap_compile manifest_path plan =
      map_err backend (run (build_command manifest_path plan.options)) >>= load_output plan
