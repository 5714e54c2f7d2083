-- ===== src/Stdlib/Values.antt =====
-- The arguments and results of a native in crates/nexus-move-stdlib/src/lib.rs: the VM's values, and
-- `pop_arg!`.
use nexus_move.Prelude.{ℕ, Bool, Option, none, some, List, [], ◌∷◌, Bytes, Result, ok, err, ◌>>=◌}

-- Values of the Move VM, as far as the natives look into them.
pub data Value : Type 0 where
  u64 : ℕ → Value
  bool : Bool → Value
  vector_u8 : Bytes → Value
  address : Bytes → Value
  signer : Bytes → Value
  -- a struct with one field
  struct_ : Value → Value
  reference : Value → Value
  other : ℕ → Value

-- `PartialVMError`, by its cause
pub data NativeFault : Type 0 where
  no_argument : NativeFault
  wrong_type : NativeFault
  in_vm : ℕ → NativeFault

pub data NativeResult : Type 0 where
  success : List Value → NativeResult
  abort : ℕ → NativeResult

abbrev pub Fallible : Type 0 → Type 0
Fallible A = Result NativeFault A

-- `pop_back` of the arguments
unfoldable pub pop_back {ℓ} : {A : Type ℓ} → List A → Option (A × List A)
pop_back [] = none
pop_back (x ∷ xs) =
    let rest = pop_back xs in elim rest [ none ↦ some (x, []) | some p ↦ some (p.0, x ∷ p.1) ]

abbrev pub cast_u64 : Value → Fallible ℕ
cast_u64 (u64 n) = ok n
cast_u64 _ = err wrong_type

abbrev pub cast_bytes : Value → Fallible Bytes
cast_bytes (vector_u8 s) = ok s
cast_bytes _ = err wrong_type

abbrev pub cast_reference : Value → Fallible Value
cast_reference (reference v) = ok v
cast_reference _ = err wrong_type

-- A `VectorRef` and its `as_bytes_ref`
abbrev pub cast_vector_ref : Value → Fallible Bytes
cast_vector_ref (reference (vector_u8 s)) = ok s
cast_vector_ref _ = err wrong_type

abbrev pub cast_signer_ref : Value → Fallible Bytes
cast_signer_ref (reference (signer a)) = ok a
cast_signer_ref _ = err wrong_type

-- `pop_arg!`
unfoldable pub pop_arg :
    {A : Type 0} → (Value → Fallible A) → List Value → Fallible (A × List Value)
unfolding pop_back
pop_arg cast arguments = elim (pop_back arguments) [
  | none ↦ err no_argument
  | some p ↦ cast p.0 >>= λ a. ok (a, p.1)
]
