-- ===== src/Stdlib/Table/Tests.antt =====
-- The table of natives on a small context.
use nexus_move.Prelude.{ℕ, ◌≡◌, refl, inr, some, List, [], ◌∷◌, ascii, ok, get_elem?}
use nexus_move.Stdlib.{new_event_store, bootstrap_natives}
use nexus_move.Stdlib.Table.{NativeContext, NativeEntry, native_sub_string, pure, framework_native}
use nexus_move.Stdlib.Values.{Value, u64, vector_u8, reference, success}
use nexus_move.Stdlib.Table.Typing.{IsTyped, bytes}
use nexus_move.Stdlib.Table.Signatures.{full_name, native_functions-IsTyped}

abbrev context : NativeContext
context = record {
  Ty = ℕ;
  Layout = ℕ;
  type_to_type_layout = λ t. inr t;
  type_to_type_tag = λ t. inr (ascii "0x1::m::T");
  serialize = λ v l. inr (some (l ∷ []));
  read_ref = λ v. inr v;
  sha2_256 = λ s. s;
  sha3_256 = λ s. s;
}

abbrev arguments : List Value
arguments = reference (vector_u8 (ascii "hello")) ∷ u64 1 ∷ u64 3 ∷ []

runs_sub_string : native_sub_string arguments ≡ ok (success (vector_u8 (ascii "el") ∷ []))
unfolding native_sub_string
runs_sub_string = refl

abbrev entry : NativeEntry context
entry =
    framework_native context (ascii "string") (ascii "internal_sub_string")
      (pure context λ _. native_sub_string)

native_functions-IsTyped_example :
    (get_elem? bootstrap_natives 6 ≡ some (full_name context entry))
    × IsTyped (bytes ∷ []) (native_sub_string arguments)
native_functions-IsTyped_example =
    native_functions-IsTyped context 6 _ entry [] arguments new_event_store refl refl refl
      ((_, refl), ((_, refl), ((_, refl), tt)))
