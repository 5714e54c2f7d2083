-- ===== src/Runtime/Gas/Estimates.antt =====
-- The saturating estimates against exact arithmetic that is cut off once, at the end.
use nexus_move.Prelude.{
  ℕ, ◌+◌, ◌*◌, ◌≡◌, ap, ◌∙◌, arith, List, [], ◌∷◌, length, total_length, Bytes,
}
use nexus_move.Prelude.Word.{
  saturate, saturating_add, saturation, saturating_add-eq-saturate, saturate-add_left,
}
use nexus_move.Runtime.Data.{StateChange}
use nexus_move.Runtime.Gas.{
  GasSchedule, chunks_len_from, encoded_chunks_len, value_len, change_bytes_from,
  state_change_bytes, estimate_call_gas, estimate_publish_gas, estimate_script_gas,
}

-- The bytes that a list of changes writes.
abbrev pub changed_bytes : List StateChange → ℕ
changed_bytes [] = 0
changed_bytes (change ∷ changes) =
    length change.key + value_len change.value + changed_bytes changes

add_saturated : (total n : ℕ) → saturating_add (saturate total) n ≡ saturate (total + n)
add_saturated total n = saturating_add-eq-saturate (saturate total) n ∙ saturate-add_left total n

chunks_len_from-eq-saturate :
    (total : ℕ) (chunks : List Bytes)
    → chunks_len_from (saturate total) chunks ≡ saturate (total + total_length chunks)
unfolding chunks_len_from
chunks_len_from-eq-saturate total [] = ap saturate (omega arith)
chunks_len_from-eq-saturate total (chunk ∷ chunks) =
    ap (λ t. chunks_len_from t chunks) (add_saturated total (length chunk))
    ∙ chunks_len_from-eq-saturate (total + length chunk) chunks
    ∙ ap saturate (omega arith)

encoded_chunks_len-eq-saturate :
    (chunks : List Bytes) → encoded_chunks_len chunks ≡ saturate (total_length chunks)
unfolding encoded_chunks_len saturate
encoded_chunks_len-eq-saturate chunks =
    chunks_len_from-eq-saturate 0 chunks ∙ ap saturate (omega arith)

change_bytes_from-eq-saturate :
    (total : ℕ) (changes : List StateChange)
    → change_bytes_from (saturate total) changes ≡ saturate (total + changed_bytes changes)
unfolding change_bytes_from
change_bytes_from-eq-saturate total [] = ap saturate (omega arith)
change_bytes_from-eq-saturate total (c ∷ changes) =
    let n = length c.key in
    let v = value_len c.value in
    ap (λ t. change_bytes_from (saturating_add t v) changes) (add_saturated total n)
    ∙ ap (λ t. change_bytes_from t changes) (add_saturated (total + n) v)
    ∙ change_bytes_from-eq-saturate (total + n + v) changes
    ∙ ap saturate (omega arith)

state_change_bytes-eq-saturate :
    (changes : List StateChange) → state_change_bytes changes ≡ saturate (changed_bytes changes)
unfolding state_change_bytes saturate
state_change_bytes-eq-saturate changes =
    change_bytes_from-eq-saturate 0 changes ∙ ap saturate (omega arith)

ruleset exact = (saturation, encoded_chunks_len-eq-saturate, state_change_bytes-eq-saturate)

module _ (s : GasSchedule) where
  -- The estimate of a call is its base cost, the argument bytes at the read price and the written
  -- bytes at the write price, computed exactly and cut off at the largest word.
  pub estimate_call_gas-eq-saturate :
      (type_args args : List Bytes) (changes : List StateChange)
      → estimate_call_gas s type_args args changes
        ≡ saturate (
            s.call_base
            + (total_length type_args + total_length args) * s.read_per_byte
            + changed_bytes changes * s.write_per_byte)
  unfolding estimate_call_gas
  estimate_call_gas-eq-saturate type_args args changes = simp exact

  -- The estimate of a publication is its base cost, the module bytes at the price of a published
  -- byte and the written bytes at the write price, computed exactly and cut off at the largest word.
  pub estimate_publish_gas-eq-saturate :
      (modules : List Bytes) (changes : List StateChange)
      → estimate_publish_gas s modules changes
        ≡ saturate (
            s.publish_base
            + total_length modules * s.publish_per_byte
            + changed_bytes changes * s.write_per_byte)
  unfolding estimate_publish_gas
  estimate_publish_gas-eq-saturate modules changes = simp exact

  pub estimate_script_gas-eq-saturate :
      (bytecode : Bytes) (type_args args : List Bytes)
      → estimate_script_gas s bytecode type_args args
        ≡ saturate (
            s.call_base
            + (length bytecode + total_length type_args + total_length args) * s.read_per_byte)
  unfolding estimate_script_gas
  estimate_script_gas-eq-saturate bytecode type_args args = simp exact
