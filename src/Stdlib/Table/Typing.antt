-- ===== src/Stdlib/Table/Typing.antt =====
-- The natives are typed as the Move sources of the framework declare them.
use nexus_move.Prelude.{
  ℕ, ◌≡◌, inl, inr, refl, Bool, true, false, List, [], ◌∷◌, ltb, length, if◌then◌else◌, Bytes, ok,
  err, panic, Bool-cases, is_empty,
}
use nexus_move.Stdlib.{sub_string, index_of}
use nexus_move.Stdlib.Table.{
  native_borrow_address, native_check_utf8, native_is_char_boundary, native_sub_string,
  native_index_of, as_result,
}
use nexus_move.Stdlib.Values.{
  Value, u64, bool, vector_u8, address, signer, struct_, reference, in_vm, NativeResult, success,
  abort, Fallible,
}

-- Types of the Move language in the signatures of the natives.
pub data Kind : Type 0 where
  number boolean bytes text_ref signer_ref address_ref any_ref any type_name : Kind

abbrev pub HasKind : Kind → Value → Type 0
HasKind number v = (n : ℕ) × (v ≡ u64 n)
HasKind boolean v = (b : Bool) × (v ≡ bool b)
HasKind bytes v = (s : Bytes) × (v ≡ vector_u8 s)
HasKind text_ref v = (s : Bytes) × (v ≡ reference (vector_u8 s))
HasKind signer_ref v = (a : Bytes) × (v ≡ reference (signer a))
HasKind address_ref v = (a : Bytes) × (v ≡ reference (address a))
HasKind any_ref v = (w : Value) × (v ≡ reference w)
HasKind any v = Unit {0}
HasKind type_name v = (s : Bytes) × (v ≡ struct_ (struct_ (vector_u8 s)))

abbrev pub HaveKinds : List Kind → List Value → Type 0
HaveKinds [] [] = Unit
HaveKinds (k ∷ kinds) (v ∷ values) = HasKind k v × HaveKinds kinds values
HaveKinds _ _ = ⊥

-- A native returns values of the declared types or aborts; its only errors are the VM's.
abbrev pub IsTyped : List Kind → Fallible NativeResult → Type 0
IsTyped results panic = ⊥
IsTyped results (err (in_vm code)) = Unit
IsTyped results (err fault) = ⊥
IsTyped results (ok (abort code)) = Unit
IsTyped results (ok (success values)) = HaveKinds results values

pub borrow_address-IsTyped :
    (args : List Value)
    → HaveKinds (signer_ref ∷ []) args
    → IsTyped (address_ref ∷ []) (native_borrow_address args)
unfolding native_borrow_address
borrow_address-IsTyped (v ∷ []) ((a, e), _) = rw e ((a, refl), tt)
borrow_address-IsTyped [] h = absurd h
borrow_address-IsTyped (v ∷ w ∷ args) h = absurd h.1

pub check_utf8-IsTyped :
    (args : List Value)
    → HaveKinds (text_ref ∷ []) args
    → IsTyped (boolean ∷ []) (native_check_utf8 args)
unfolding native_check_utf8
check_utf8-IsTyped (v ∷ []) ((s, e), _) = rw e ((_, refl), tt)
check_utf8-IsTyped [] h = absurd h
check_utf8-IsTyped (v ∷ w ∷ args) h = absurd h.1

pub is_char_boundary-IsTyped :
    (args : List Value)
    → HaveKinds (text_ref ∷ number ∷ []) args
    → IsTyped (boolean ∷ []) (native_is_char_boundary args)
unfolding native_is_char_boundary
is_char_boundary-IsTyped (v ∷ w ∷ []) ((s, e), ((i, k), _)) = rw (e, k) ((_, refl), tt)
is_char_boundary-IsTyped [] h = absurd h
is_char_boundary-IsTyped (v ∷ []) h = absurd h.1
is_char_boundary-IsTyped (v ∷ w ∷ x ∷ args) h = absurd h.1.1

sub_string_result :
    (s : Bytes) (i j : ℕ) → IsTyped (bytes ∷ []) (as_result vector_u8 (sub_string s i j))
unfolding sub_string
sub_string_result s i j = elim (Bool-cases (ltb j i)) [
  | inl e ↦ rw e tt
  | inr e ↦ elim (Bool-cases (ltb (length s) j)) [
    | inl f ↦ rw (e, f) tt
    | inr f ↦ rw (e, f) ((_, refl), tt)
  ]
]

guarded-IsTyped :
    (results : List Kind) (b : Bool) (r : Fallible NativeResult)
    → IsTyped results r
    → IsTyped results (if b then ok (abort 1) else r)
guarded-IsTyped results true r h = tt
guarded-IsTyped results false r h = h

pub sub_string-IsTyped :
    (args : List Value)
    → HaveKinds (text_ref ∷ number ∷ number ∷ []) args
    → IsTyped (bytes ∷ []) (native_sub_string args)
unfolding native_sub_string
sub_string-IsTyped (v ∷ w ∷ x ∷ []) ((s, e), ((i, k), ((j, l), _))) =
    rw (e, k, l) (guarded-IsTyped (bytes ∷ []) (ltb j i) _ (sub_string_result s i j))
sub_string-IsTyped [] h = absurd h
sub_string-IsTyped (v ∷ []) h = absurd h.1
sub_string-IsTyped (v ∷ w ∷ []) h = absurd h.1.1
sub_string-IsTyped (v ∷ w ∷ x ∷ y ∷ args) h = absurd h.1.1.1

index_of_result : (s r : Bytes) → IsTyped (number ∷ []) (as_result u64 (index_of s r))
unfolding index_of
index_of_result s r = elim (Bool-cases (is_empty r)) [
  | inl e ↦ rw e ((_, refl), tt)
  | inr e ↦ rw e ((_, refl), tt)
]

pub index_of-IsTyped :
    (args : List Value)
    → HaveKinds (text_ref ∷ text_ref ∷ []) args
    → IsTyped (number ∷ []) (native_index_of args)
unfolding native_index_of
index_of-IsTyped (v ∷ w ∷ []) ((s, e), ((r, k), _)) = rw (e, k) (index_of_result s r)
index_of-IsTyped [] h = absurd h
index_of-IsTyped (v ∷ []) h = absurd h.1
index_of-IsTyped (v ∷ w ∷ x ∷ args) h = absurd h.1.1
