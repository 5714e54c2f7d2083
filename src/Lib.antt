-- ===== src/Lib.antt =====
-- nexus-move: a library and command chain that verifies, publishes and runs Move packages on the
-- Nexus chain. This library models its Rust crates and proves what makes them correct.
--
-- The parts, and the files that model them (paths are from the repository's root):
--
--   Types, Types/*       crates/nexus-move-types/src/lib.rs. An address is its list of 32 bytes, a
--                        text the list of its bytes. `from_hex_literal`, `from_hex`,
--                        `decode_hex` and `decode_nibble` are functions of the same names; the
--                        loop of `decode_hex` is structural recursion on the bytes left, with the
--                        index of the loop as an argument, and an index out of range is the result
--                        `panic`.
--   Bytecode, Bytecode/* crates/nexus-move-bytecode/src/lib.rs. `verify_publish_bundle` with the
--                        errors in the order in which the source pushes them.
--   Runtime/Config, Data crates/nexus-move-runtime/src/config.rs and types.rs.
--   Runtime/Gas          gas.rs of the same crate: `SimpleGasMeter`, the schedule, the estimates.
--                        Runtime/Metering is the trait `GasMeter` as an interface of operations
--                        and laws, with what follows from the laws alone.
--   Runtime/InstrGas     move_gas_meter.rs: the meter that the Move VM calls for each instruction.
--                        Each method of the VM's trait is a constructor that holds the sizes by
--                        which it charges.
--   Runtime/State        state.rs: typed reads of the chain's state. The store behind the trait
--                        `StateReader` is a function. Runtime/Changes is that store with the
--                        changes of an output applied to it.
--   Runtime/Resources    resources.rs: the overlay of a session, a sorted association list
--                        (Prelude/Map) for the source's BTreeMap.
--   Runtime/Session      session.rs: a session, passed from call to call as a value; a call
--                        returns its result and the next session. Session/Steps is the relation
--                        of the states that calls can reach.
--   Runtime/Publisher    publisher.rs: the publication of a bundle.
--   Runtime/Executor     executor.rs: the trait `MoveVm` as a record of functions, the VM that
--                        plans only, the executor.
--   Runtime/Signature    abi.rs: the encoding of types.
--   Runtime/Abi          abi.rs: the hash of a module's interface. The binary format's module is a
--                        record of what the code reads of it.
--   Runtime/Backend      vm_backend.rs: the VM over the Move VM. Backend has the storage bridge
--                        and the conversion of effects, Backend/Execute runs functions, scripts
--                        and views, Backend/Publish publishes modules under upgrade policies;
--                        Backend/Vm is the VM that the executor takes, and Runtime/Contract what
--                        a caller may rely on with either VM.
--   Stdlib, Stdlib/*     crates/nexus-move-stdlib/src/lib.rs: the framework's tables, what the
--                        natives compute, the event store. Stdlib/Table is the table of the
--                        natives as the VM calls them, on a list of type arguments and one of
--                        values (Stdlib/Values); an argument that is missing or of another
--                        kind is a result of its own, as `pop_arg!` makes it.
--   Package, Package/*   crates/nexus-move-package/src/lib.rs: named addresses, the manifest
--                        reader (Package/Toml), the merge of addresses, metadata and the artifact
--                        manifest (Package/Build, Package/Consistent); Package/Backends and
--                        Package/Loading are the backends of precompiled_backend.rs and
--                        verified_backend.rs.
--   Package/Disk         what build.rs uses of the file system: a state with the files, the
--                        directories and what the operating system refuses, passed from call to
--                        call by a do block. A path is its text, joined as the standard
--                        library joins texts.
--   Package/Framework    build.rs: the writing of the framework's copy.
--   Package/Entry        build.rs: `build_package`, from the manifest to the artifacts.
--   Package/Native       native_backend.rs: the backend over the vendored compiler, which takes the
--                        disk and the options, and gives units and the disk that it leaves.
--   Package/Bootstrap    bootstrap_backend.rs: the backend that starts the build command.
--
-- How they interact: the executor calls a VM; the planning VM calls the verifier of bundles and
-- the publisher, which reads the state through a view and returns a write set and the same writes
-- as changes. A session reads the state through a resource store and charges a meter by the
-- schedule of a configuration. The VM over the Move VM lends it a storage, which serves the
-- framework's modules from the standard library's table and the others from the state, and turns
-- what a run leaves into changes and a write set. A build plans from the manifest, writes the
-- framework's copy, runs the compiler behind `CompileBackend` and writes the artifacts.
--
-- Conventions: integers are natural numbers. The arithmetic of the source on u64 is saturating,
-- and saturates at 2 ^ 64 - 1 here (Prelude/Word); `as u32` and `as u8` are `%`. `Result` has `ok`,
-- `err` and `panic` (Prelude/Outcome). There is no fuel: every loop of the source is over a list
-- or a text and is structural recursion, so all functions are total.
--
-- Parameters: the hash function blake3, the store, the compiler, the encoders of
-- metadata and manifest, the run of the build command, the SHA hashes and the rest of what a
-- native asks of the VM, the refusals of the operating system, and the Move VM with bcs, its loader
-- and its verifier (the record `MoveEnv`) are arguments of what uses
-- them. Of the hash function two theorems assume that it does not collide on the two texts they
-- name; of the compiler one assumes that it writes below one directory and gives names without
-- slashes. The others assume nothing of them.
--
-- Not modelled: serialization by serde and JSON, the Display of errors and the Debug of nested
-- ones; the gas that the VM's own tables charge for a native; a write of a file that
-- fails half way; that two texts of a path (with `.`, `..` or links, or relative and absolute)
-- are one file; white space that is not ASCII in the manifest.
-- The vendored Move crates, the Move sources, the scripts and the examples are not the Rust code of
-- this repository's crates; runtime/src/lib.rs and upstream.rs are re-exports.
pub mod Prelude
pub mod Types
pub mod Bytecode
pub mod Stdlib
pub mod Package
pub mod Runtime
