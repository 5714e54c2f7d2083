-- ===== src/Runtime/Abi/Tests.antt =====
-- The interface of a small module, with the identity for the hash function.
use mathlib.Core.List.Permᴰ
use nexus_move.Prelude.{
  ℕ, zero, suc, ◌≡◌, refl, true, false, arith, [], ◌∷◌, Bytes, ascii, bytes_ne,
}
use nexus_move.Prelude.Word.{to_le_bytes}
use nexus_move.Types.{HashValue}
use nexus_move.Runtime.Abi.{
  CompiledModule, FunctionDefinition, StructDefinition, private, public, friend, declared,
  function_entry, function_entries, struct_entry, struct_entries, layout_bytes, field_bytes,
  with_length, compute_module_abi_hash,
}
use nexus_move.Runtime.Signature.{
  SignatureToken, u64, vector, struct, function, Signature, end, token, encode_token, encode_each,
}
use nexus_move.Runtime.Abi.Decoder.{IsEncodable}
use nexus_move.Runtime.Abi.Tokens.{encode_token_prefix_free}
use nexus_move.Runtime.Abi.Cancel.{IsFunctionEntry, IsStructEntry}
use nexus_move.Runtime.Abi.Injective.{
  AreEntries, by_name, structs_by_name, compute_module_abi_hash_injective,
}
use nexus_move.Runtime.Abi.Order.{compute_module_abi_hash_rearranged}

abbrev identity : Bytes → HashValue
identity s = s

abbrev params : Signature
params = token (vector u64) (token (struct 3) end)

encodes_params : encode_each params ≡ 10 ∷ 5 ∷ 11 ∷ 3 ∷ 0 ∷ []
unfolding encode_token to_le_bytes
encodes_params = refl

abbrev callback : SignatureToken
callback = function params end 4

abbrev tail : Bytes
tail = 1 ∷ []

encode_token_prefix_free_example : (callback ≡ callback) × (tail ≡ tail)
unfolding IsEncodable
encode_token_prefix_free_example =
    encode_token_prefix_free callback callback tail tail
      (omega arith, (tt, (omega arith, tt)), omega arith, tt)
      (omega arith, (tt, (omega arith, tt)), omega arith, tt) refl

abbrev names : ℕ → Bytes
names zero = ascii "a"
names (suc n) = ascii "b"

abbrev get_def : FunctionDefinition
get_def = record { handle = 0; visibility = public; is_entry = false }

abbrev set_def : FunctionDefinition
set_def = record { handle = 1; visibility = friend; is_entry = true }

abbrev helper_def : FunctionDefinition
helper_def = record { handle = 1; visibility = private; is_entry = false }

abbrev counter_def : StructDefinition
counter_def = record {
  handle = 0;
  field_information = declared (record { name = 0; signature = u64 } ∷ []);
}

abbrev counter : CompiledModule
counter = record {
  self_address = [];
  self_name = ascii "counter";
  immediate_dependencies = [];
  function_defs = get_def ∷ helper_def ∷ set_def ∷ [];
  struct_defs = counter_def ∷ [];
  function_handle_at = λ i. record { name = i; parameters = 0; return_ = 0 };
  struct_handle_at = λ i. record { name = i; abilities = 8 };
  identifier_at = names;
  signature_at = λ i. params;
}

compute_module_abi_hash_rearranged_example :
    compute_module_abi_hash identity (record counter { function_defs = set_def ∷ get_def ∷ [] })
    ≡ compute_module_abi_hash identity counter
unfolding function_entries struct_entries
compute_module_abi_hash_rearranged_example =
    compute_module_abi_hash_rearranged identity counter (set_def ∷ get_def ∷ []) (counter_def ∷ [])
      (Permᴰ.swap refl refl) (Permᴰ.refl (counter_def ∷ []))
      ((bytes_ne (names 0) (names 1) refl, tt), (tt, tt)) (tt, tt)

abbrev reordered : CompiledModule
reordered = record counter { function_defs = set_def ∷ get_def ∷ [] }

get-IsFunctionEntry : IsFunctionEntry (function_entry counter get_def)
unfolding encode_token to_le_bytes
get-IsFunctionEntry = record {
  name = (omega arith, tt);
  vis = omega arith;
  params = omega arith;
  ret = omega arith;
}

set-IsFunctionEntry : IsFunctionEntry (function_entry counter set_def)
unfolding encode_token to_le_bytes
set-IsFunctionEntry = record {
  name = (omega arith, tt);
  vis = omega arith;
  params = omega arith;
  ret = omega arith;
}

counter-IsStructEntry : IsStructEntry (struct_entry counter counter_def)
unfolding struct_entry layout_bytes field_bytes with_length encode_token to_le_bytes
counter-IsStructEntry = record {
  name = (omega arith, tt);
  abilities = omega arith;
  fields = omega arith;
}

counter-AreEntries :
    AreEntries
      (function_entries counter counter.function_defs)
      (struct_entries counter counter.struct_defs)
unfolding function_entries struct_entries
counter-AreEntries = record {
  functions_each = (get-IsFunctionEntry, (set-IsFunctionEntry, tt));
  functions_size = omega arith;
  structs_each = (counter-IsStructEntry, tt);
  structs_size = omega arith;
}

reordered-AreEntries :
    AreEntries
      (function_entries reordered reordered.function_defs)
      (struct_entries reordered reordered.struct_defs)
unfolding function_entries struct_entries
reordered-AreEntries = record {
  functions_each = (set-IsFunctionEntry, (get-IsFunctionEntry, tt));
  functions_size = omega arith;
  structs_each = (counter-IsStructEntry, tt);
  structs_size = omega arith;
}

compute_module_abi_hash_injective_example :
    (by_name (function_entries reordered reordered.function_defs)
      ≡ by_name (function_entries counter counter.function_defs))
    × (structs_by_name (struct_entries reordered reordered.struct_defs)
        ≡ structs_by_name (struct_entries counter counter.struct_defs))
compute_module_abi_hash_injective_example =
    compute_module_abi_hash_injective identity reordered counter reordered-AreEntries
      counter-AreEntries (λ e. e) compute_module_abi_hash_rearranged_example
