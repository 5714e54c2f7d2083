-- ===== src/Stdlib.antt =====
-- crates/nexus-move-stdlib/src/lib.rs: the embedded framework, what the string natives compute, the
-- event store.
-- A native is modelled on the arguments that it pops, in the order of the Move signature.
pub mod Natives
pub mod Boundaries
pub mod Values
pub mod Table
mod Tests
use nexus_move.Prelude.{
  ℕ, zero, suc, ◌+◌, ◌-◌, Bool, true, false, ◌||◌, Option, none, some, List, [], ◌∷◌, ◌++◌, ◌==◌,
  ltb, leb, if◌then◌else◌, length, is_empty, take, drop, replicate, Bytes, bytes_eq, ascii, Result,
  ok, err, get_elem?, not,
}
use nexus_move.Prelude.Utf8.{is_utf8, is_continuation}

pub record StdlibModule : Type 0 where
  pub name : Bytes
  pub relative_path : Bytes

abbrev pub framework_source : Bytes → StdlibModule
framework_source name = record {
  name = name;
  relative_path = ascii "framework/" ++ (name ++ ascii ".move");
}

-- `BOOTSTRAP_MODULES` and `FRAMEWORK_MODULES` have the same names in the same order.
abbrev pub framework_names : List Bytes
framework_names =
    ascii "ascii"
    ∷ ascii "bcs"
    ∷ ascii "bit_vector"
    ∷ ascii "error"
    ∷ ascii "event"
    ∷ ascii "fixed_point32"
    ∷ ascii "guid"
    ∷ ascii "hash"
    ∷ ascii "option"
    ∷ ascii "signer"
    ∷ ascii "string"
    ∷ ascii "type_name"
    ∷ ascii "vector"
    ∷ []

abbrev pub sources_of : List Bytes → List StdlibModule
sources_of [] = []
sources_of (name ∷ names) = framework_source name ∷ sources_of names

abbrev pub bootstrap_modules : List StdlibModule
bootstrap_modules = sources_of framework_names

abbrev pub bootstrap_natives : List Bytes
bootstrap_natives =
    ascii "0x1::signer::borrow_address"
    ∷ ascii "0x1::bcs::to_bytes"
    ∷ ascii "0x1::hash::sha2_256"
    ∷ ascii "0x1::hash::sha3_256"
    ∷ ascii "0x1::type_name::get"
    ∷ ascii "0x1::string::internal_check_utf8"
    ∷ ascii "0x1::string::internal_sub_string"
    ∷ ascii "0x1::string::internal_index_of"
    ∷ ascii "0x1::string::internal_is_char_boundary"
    ∷ ascii "0x1::event::write_to_event_store"
    ∷ []

pub record StdlibSnapshot : Type 0 where
  pub source : Bytes
  pub includes_precompiled_modules : Bool
  pub native_functions : List Bytes
  pub modules : List StdlibModule

-- `StdlibSnapshot::bootstrap`
abbrev pub bootstrap_snapshot : StdlibSnapshot
bootstrap_snapshot = record {
  source = ascii "stdlib/";
  includes_precompiled_modules = true;
  native_functions = bootstrap_natives;
  modules = bootstrap_modules;
}

-- The framework address, 1.
abbrev pub framework_address_bytes : Bytes
framework_address_bytes = replicate 31 0 ++ 1 ∷ []

-- `FRAMEWORK_MODULES` with the bytecode of each module, which the build embeds from a file.
module _ (embedded : Bytes → Bytes) where
  abbrev pub framework_table : List Bytes → List (Bytes × Bytes)
  framework_table [] = []
  framework_table (name ∷ names) = (name, embedded name) ∷ framework_table names

  -- `.iter().find(|(name, _)| *name == module_name).map(|(_, bytes)| *bytes)`
  unfoldable pub find_module : Bytes → List (Bytes × Bytes) → Option Bytes
  find_module module_name [] = none
  find_module module_name ((name, bytes) ∷ table) =
      let rest = find_module module_name table in
      if bytes_eq name module_name then some bytes else rest

  unfoldable pub get_framework_module : Bytes → Option Bytes
  unfolding find_module
  get_framework_module module_name = find_module module_name (framework_table framework_names)

  abbrev pub framework_module_count : ℕ
  framework_module_count = length (framework_table framework_names)

-- `NativeResult`: values, or an abort with a code.
abbrev pub Native : Type 0 → Type 0
Native A = Result ℕ A

-- `string::internal_sub_string`
unfoldable pub sub_string : Bytes → ℕ → ℕ → Native Bytes
sub_string bytes i j =
    if ltb j i
    then err 1
    else if ltb (length bytes) j
    then err 1
    else ok (take (j - i) (drop i bytes))

-- `windows(r.len()).position(|w| w == r)`, from position `at`, on the bytes that are left. There
-- is no window in fewer bytes than `r` has.
unfoldable pub position_from : ℕ → Bytes → Bytes → Option ℕ
position_from at r [] = none
position_from at r (b ∷ s) =
    let rest = position_from (at + 1) r s in
    if bytes_eq (take (length r) (b ∷ s)) r then some at else rest

-- `string::internal_index_of`
unfoldable pub index_of : Bytes → Bytes → Native ℕ
unfolding position_from
index_of s r =
    if is_empty r then ok 0 else ok (elim (position_from 0 r s) [ none ↦ length s | some at ↦ at ])

-- `string::internal_check_utf8`
unfoldable pub check_utf8 : Bytes → Native Bool
unfolding is_utf8
check_utf8 s = ok (is_utf8 s)

-- `str::is_char_boundary`: the start, the end, and before each byte that is no continuation byte.
unfoldable pub is_boundary : Bytes → ℕ → Bool
is_boundary s i =
    if i == 0
    then true
    else elim (get_elem? s i) [ none ↦ i == length s | some b ↦ not (is_continuation b) ]

-- `string::internal_is_char_boundary`
unfoldable pub is_char_boundary : Bytes → ℕ → Native Bool
unfolding is_utf8 is_boundary
is_char_boundary s i = ok (if is_utf8 s then is_boundary s i else false)

-- `ContractEvent` of the event store
pub record ContractEvent : Type 0 where
  pub type_tag : Bytes
  pub guid : Bytes
  pub sequence_number : ℕ
  pub payload : Bytes

pub record NexusEventStore : Type 0 where
  pub events : List ContractEvent

-- `NexusEventStore::new`
abbrev pub new_event_store : NexusEventStore
new_event_store = record { events = [] }

unfoldable pub push : NexusEventStore → ContractEvent → NexusEventStore
push store event = record { events = store.events ++ event ∷ [] }

abbrev pub drain : NexusEventStore → List ContractEvent
drain store = store.events

-- `event::write_to_event_store`, once the VM has named the type and encoded the message.
unfoldable pub write_to_event_store :
    Bytes → Bytes → ℕ → Option Bytes → NexusEventStore → NexusEventStore
unfolding push
write_to_event_store type_tag guid count serialized store = push store (record {
  type_tag = type_tag;
  guid = guid;
  sequence_number = count;
  payload = elim serialized [ none ↦ [] | some bytes ↦ bytes ];
})
