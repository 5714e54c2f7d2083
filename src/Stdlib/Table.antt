-- ===== src/Stdlib/Table.antt =====
-- The module `natives` of crates/nexus-move-stdlib/src/lib.rs: the table that the Move VM calls by
-- name, and each native on the VM's values. What the VM's context does (layouts, type tags,
-- serialization, reading a reference) and the hash functions are the fields of NativeContext.
pub mod Typing
pub mod Context
pub mod Signatures
mod Tests
use nexus_move.Prelude.{
  ℕ, ◌++◌, Bool, Option, none, some, List, [], ◌∷◌, if◌then◌else◌, ltb, Bytes, ascii, Result, ok,
  err, panic, ◌>>=◌, ◌⊎◌, inl, inr,
}
use nexus_move.Stdlib.{
  Native, check_utf8, is_char_boundary, sub_string, index_of, NexusEventStore, write_to_event_store,
  framework_address_bytes,
}
use nexus_move.Stdlib.Values.{
  Value, u64, bool, vector_u8, address, signer, struct_, reference, in_vm, NativeResult, success,
  abort, Fallible, pop_back, cast_u64, cast_bytes, cast_reference, cast_vector_ref, cast_signer_ref,
  pop_arg,
}

-- A call of the context fails with a status code of the VM, or returns.
pub record NativeContext : Type 1 where
  pub Ty : Type 0
  pub Layout : Type 0
  pub type_to_type_layout : Ty → ℕ ⊎ Layout
  pub type_to_type_tag : Ty → ℕ ⊎ Bytes
  pub serialize : Value → Layout → ℕ ⊎ Option Bytes
  pub read_ref : Value → ℕ ⊎ Value
  pub sha2_256 : Bytes → Bytes
  pub sha3_256 : Bytes → Bytes

-- An error of the context, passed on by `?`
abbrev pub from_vm : {A : Type 0} → ℕ ⊎ A → Fallible A
from_vm (inl code) = err (in_vm code)
from_vm (inr a) = ok a

abbrev pub one_value : Value → Fallible NativeResult
one_value v = ok (success (v ∷ []))

-- The result of a native on its arguments, as the VM takes it.
abbrev pub as_result : {A : Type 0} → (A → Value) → Native A → Fallible NativeResult
as_result wrap panic = panic
as_result wrap (err code) = ok (abort code)
as_result wrap (ok a) = one_value (wrap a)

abbrev pub nfe_bcs_serialization_failure : ℕ
nfe_bcs_serialization_failure = 0x1c5

unfoldable pub native_borrow_address : List Value → Fallible NativeResult
unfolding pop_arg
native_borrow_address arguments =
    pop_arg cast_signer_ref arguments >>= λ p. one_value (reference (address p.0))

unfoldable pub native_check_utf8 : List Value → Fallible NativeResult
unfolding pop_arg check_utf8
native_check_utf8 args = pop_arg cast_vector_ref args >>= λ p. as_result bool (check_utf8 p.0)

unfoldable pub native_is_char_boundary : List Value → Fallible NativeResult
unfolding pop_arg is_char_boundary
native_is_char_boundary args = pop_arg cast_u64 args >>= λ i.
    pop_arg cast_vector_ref i.1 >>= λ s. as_result bool (is_char_boundary s.0 i.0)

unfoldable pub native_sub_string : List Value → Fallible NativeResult
unfolding pop_arg sub_string
native_sub_string args = pop_arg cast_u64 args >>= λ j. pop_arg cast_u64 j.1 >>= λ i.
    if ltb j.0 i.0
    then ok (abort 1)
    else (pop_arg cast_vector_ref i.1 >>= λ s. as_result vector_u8 (sub_string s.0 i.0 j.0))

unfoldable pub native_index_of : List Value → Fallible NativeResult
unfolding pop_arg index_of
native_index_of args = pop_arg cast_vector_ref args >>= λ r.
    pop_arg cast_vector_ref r.1 >>= λ s. as_result u64 (index_of s.0 r.0)

module _ (c : NativeContext) where
  open c use {Ty, Layout, type_to_type_layout, type_to_type_tag, serialize, read_ref}

  -- What `to_bytes` does once it has the argument and its layout.
  abbrev pub serialized_value : Option Bytes → Fallible NativeResult
  serialized_value none = ok (abort nfe_bcs_serialization_failure)
  serialized_value (some bytes) = one_value (vector_u8 bytes)

  abbrev pub to_bytes_of : Value → ℕ ⊎ Layout → Fallible NativeResult
  to_bytes_of v (inl code) = ok (abort nfe_bcs_serialization_failure)
  to_bytes_of v (inr layout) =
      from_vm (read_ref v) >>= λ val. from_vm (serialize val layout) >>= serialized_value

  -- `.unwrap()` of the last type argument
  abbrev pub last_type : Option (Ty × List Ty) → Fallible Ty
  last_type none = panic
  last_type (some p) = ok p.0

  -- `&ty_args[0]`
  abbrev pub first_type : List Ty → Fallible Ty
  first_type [] = panic
  first_type (ty ∷ ty_args) = ok ty

  unfoldable pub native_to_bytes : List Ty → List Value → Fallible NativeResult
  unfolding pop_arg
  native_to_bytes ty_args args = pop_arg cast_reference args >>= λ v.
      last_type (pop_back ty_args) >>= λ ty. to_bytes_of v.0 (type_to_type_layout ty)

  unfoldable pub native_sha2_256 : List Value → Fallible NativeResult
  unfolding pop_arg
  native_sha2_256 arguments =
      pop_arg cast_bytes arguments >>= λ s. one_value (vector_u8 (c.sha2_256 s.0))

  unfoldable pub native_sha3_256 : List Value → Fallible NativeResult
  unfolding pop_arg
  native_sha3_256 arguments =
      pop_arg cast_bytes arguments >>= λ s. one_value (vector_u8 (c.sha3_256 s.0))

  unfoldable pub native_type_name_get : List Ty → Fallible NativeResult
  native_type_name_get ty_args = first_type ty_args >>= λ ty.
      from_vm (type_to_type_tag ty) >>= λ type_name.
      one_value (struct_ (struct_ (vector_u8 type_name)))

  abbrev pub last_value : Option (Value × List Value) → Fallible (Value × List Value)
  last_value none = panic
  last_value (some p) = ok p

  -- The event that the native records, from what it pops.
  unfoldable pub event_parts : List Ty → List Value → Fallible (Bytes × Bytes × ℕ × Option Bytes)
  unfolding pop_arg
  event_parts ty_args arguments = last_value (pop_back arguments) >>= λ msg.
      pop_arg cast_u64 msg.1 >>= λ count. pop_arg cast_bytes count.1 >>= λ guid.
      first_type ty_args >>= λ ty. from_vm (type_to_type_tag ty) >>= λ type_tag.
      from_vm (type_to_type_layout ty) >>= λ layout.
      from_vm (serialize msg.0 layout) >>= λ payload. ok (type_tag, guid.0, count.0, payload)

  abbrev pub record_event :
      Fallible (Bytes × Bytes × ℕ × Option Bytes)
      → NexusEventStore
      → Fallible NativeResult × NexusEventStore
  record_event panic store = (panic, store)
  record_event (err fault) store = (err fault, store)
  record_event (ok (type_tag, guid, count, payload)) store =
      (ok (success []), write_to_event_store type_tag guid count payload store)

  unfoldable pub native_write_to_event_store :
      List Ty → List Value → NexusEventStore → Fallible NativeResult × NexusEventStore
  unfolding event_parts
  native_write_to_event_store ty_args arguments store =
      record_event (event_parts ty_args arguments) store

  abbrev pub NativeFunction : Type 0
  NativeFunction = List Ty → List Value → NexusEventStore → Fallible NativeResult × NexusEventStore

  -- A native that leaves the store alone.
  abbrev pub pure : (List Ty → List Value → Fallible NativeResult) → NativeFunction
  pure f ty_args args store = (f ty_args args, store)

  -- An entry of the table: the address, the module, the function.
  pub record NativeEntry : Type 0 where
    pub at : Bytes
    pub module_ : Bytes
    pub name : Bytes
    pub function : NativeFunction

  abbrev pub framework_native : Bytes → Bytes → NativeFunction → NativeEntry
  framework_native module_ name function = record {
    at = framework_address_bytes;
    module_ = module_;
    name = name;
    function = function;
  }

  abbrev pub native_functions : List NativeEntry
  native_functions =
      framework_native (ascii "signer") (ascii "borrow_address") (pure λ _. native_borrow_address)
      ∷ framework_native (ascii "bcs") (ascii "to_bytes") (pure native_to_bytes)
      ∷ framework_native (ascii "hash") (ascii "sha2_256") (pure λ _. native_sha2_256)
      ∷ framework_native (ascii "hash") (ascii "sha3_256") (pure λ _. native_sha3_256)
      ∷ framework_native (ascii "type_name") (ascii "get") (pure λ ty _. native_type_name_get ty)
      ∷ framework_native (ascii "string") (ascii "internal_check_utf8")
          (pure λ _. native_check_utf8)
      ∷ framework_native (ascii "string") (ascii "internal_sub_string")
          (pure λ _. native_sub_string)
      ∷ framework_native (ascii "string") (ascii "internal_index_of") (pure λ _. native_index_of)
      ∷ framework_native (ascii "string") (ascii "internal_is_char_boundary")
          (pure λ _. native_is_char_boundary)
      ∷ framework_native (ascii "event") (ascii "write_to_event_store") native_write_to_event_store
      ∷ []
