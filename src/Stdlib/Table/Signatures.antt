-- ===== src/Stdlib/Table/Signatures.antt =====
-- Every native of the table has the signature that the Move sources of the framework declare.
use mathlib.Core.Path.{subst}
use mathlib.Core.Option.{some-injective}
use nexus_move.Prelude.{
  zero, suc, ap, get_elem?, ℕ, ◌≡◌, refl, arith, some, List, [], ◌∷◌, ◌++◌, map, length, Bytes,
  ascii,
}
use nexus_move.Stdlib.{NexusEventStore, bootstrap_natives}
use nexus_move.Stdlib.Table.{
  NativeContext, native_to_bytes, native_type_name_get, native_write_to_event_store, NativeEntry,
  native_functions,
}
use nexus_move.Stdlib.Values.{Value}
use nexus_move.Stdlib.Table.Typing.{
  Kind, number, boolean, bytes, text_ref, signer_ref, address_ref, any_ref, any, type_name,
  HaveKinds, IsTyped, borrow_address-IsTyped, check_utf8-IsTyped, is_char_boundary-IsTyped,
  sub_string-IsTyped, index_of-IsTyped,
}
use nexus_move.Stdlib.Table.Context.{
  sha2-IsTyped, sha3-IsTyped, to_bytes-IsTyped, type_name-IsTyped, event-IsTyped,
}

-- The number of type parameters, the parameters and the results, as the Move sources declare them.
abbrev pub NativeSignature : Type 0
NativeSignature = record { types : ℕ; params : List Kind; results : List Kind }

abbrev signature : ℕ → List Kind → List Kind → NativeSignature
signature types params results = record { types = types; params = params; results = results }

abbrev pub declared : List NativeSignature
declared =
    signature 0 (signer_ref ∷ []) (address_ref ∷ [])
    ∷ signature 1 (any_ref ∷ []) (bytes ∷ [])
    ∷ signature 0 (bytes ∷ []) (bytes ∷ [])
    ∷ signature 0 (bytes ∷ []) (bytes ∷ [])
    ∷ signature 1 [] (type_name ∷ [])
    ∷ signature 0 (text_ref ∷ []) (boolean ∷ [])
    ∷ signature 0 (text_ref ∷ number ∷ number ∷ []) (bytes ∷ [])
    ∷ signature 0 (text_ref ∷ text_ref ∷ []) (number ∷ [])
    ∷ signature 0 (text_ref ∷ number ∷ []) (boolean ∷ [])
    ∷ signature 1 (bytes ∷ number ∷ any ∷ []) []
    ∷ []

module _ (c : NativeContext) where
  abbrev pub HasSignature : NativeSignature → NativeEntry c → Type 0
  HasSignature s entry =
      (ty_args : List c.Ty) (args : List Value) (store : NexusEventStore)
      → length ty_args ≡ s.types
      → HaveKinds s.params args
      → IsTyped s.results (entry.function ty_args args store).0

  abbrev pub HaveSignatures : List NativeSignature → List (NativeEntry c) → Type 0
  HaveSignatures [] [] = Unit
  HaveSignatures (s ∷ signatures) (entry ∷ entries) =
      HasSignature s entry × HaveSignatures signatures entries
  HaveSignatures _ _ = ⊥

  -- A native with one type parameter is given one type.
  one_type :
      (P : List c.Ty → Type 0)
      → ((ty : c.Ty) → P (ty ∷ []))
      → (ty_args : List c.Ty) → length ty_args ≡ 1
      → P ty_args
  one_type P h [] e = absurd (omega (arith, e))
  one_type P h (ty ∷ []) e = h ty
  one_type P h (ty ∷ ty' ∷ ty_args) e = absurd (omega (arith, e))

  -- `0x1::module::name`
  abbrev pub full_name : NativeEntry c → Bytes
  full_name entry = ascii "0x1::" ++ (entry.module_ ++ (ascii "::" ++ entry.name))

  all_signatures : HaveSignatures declared (native_functions c)
  all_signatures = (
    (λ _ args _ _ h. borrow_address-IsTyped args h),
    (
      (λ tys args _ e h.
          one_type (λ t. IsTyped (bytes ∷ []) (native_to_bytes c t args))
            (λ ty. to_bytes-IsTyped c ty args h) tys e),
      (
        (λ _ args _ _ h. sha2-IsTyped c args h),
        (
          (λ _ args _ _ h. sha3-IsTyped c args h),
          (
            (λ tys _ _ e _.
                one_type (λ t. IsTyped (type_name ∷ []) (native_type_name_get c t))
                  (type_name-IsTyped c) tys e),
            (
              (λ _ args _ _ h. check_utf8-IsTyped args h),
              (
                (λ _ args _ _ h. sub_string-IsTyped args h),
                (
                  (λ _ args _ _ h. index_of-IsTyped args h),
                  (
                    (λ _ args _ _ h. is_char_boundary-IsTyped args h),
                    (
                      (λ tys args store e h.
                          one_type (λ t. IsTyped [] (native_write_to_event_store c t args store).0)
                            (λ ty. event-IsTyped c ty args store h) tys e),
                      tt,
                    ),
                  ),
                ),
              ),
            ),
          ),
        ),
      ),
    ),
  )

  signature_at :
      (signatures : List NativeSignature) (entries : List (NativeEntry c)) (i : ℕ)
      (s : NativeSignature) (entry : NativeEntry c)
      → HaveSignatures signatures entries
      → get_elem? signatures i ≡ some s
      → get_elem? entries i ≡ some entry
      → HasSignature s entry
  signature_at [] [] i s entry h e k = cc
  signature_at [] (first ∷ entries) i s entry h e k = absurd h
  signature_at (t ∷ signatures) [] i s entry h e k = absurd h
  signature_at (t ∷ signatures) (first ∷ entries) zero s entry h e k =
      subst (λ u. HasSignature u entry) (some-injective _ _ e)
        (subst (λ f. HasSignature t f) (some-injective _ _ k) h.0)
  signature_at (t ∷ signatures) (first ∷ entries) (suc i) s entry h e k =
      signature_at signatures entries i s entry h.1 e k

  names_listed : map full_name (native_functions c) ≡ bootstrap_natives
  names_listed = refl

  get_elem?-map :
      (entries : List (NativeEntry c)) (i : ℕ) {entry : NativeEntry c}
      → get_elem? entries i ≡ some entry
      → get_elem? (map full_name entries) i ≡ some (full_name entry)
  get_elem?-map [] i e = cc
  get_elem?-map (f ∷ entries) zero e = ap (λ f. some (full_name f)) (some-injective _ _ e)
  get_elem?-map (f ∷ entries) (suc i) e = get_elem?-map entries i e

  -- Each native of the table stands at its place in the library's list of natives, and has the
  -- signature that the Move sources declare at that place: given as many types and arguments of
  -- those kinds, it returns values of the declared kinds or aborts, or fails with an error of the
  -- VM's own. It does not panic, miss an argument or find one of another type.
  pub native_functions-IsTyped :
      (i : ℕ) (s : NativeSignature) (entry : NativeEntry c) (ty_args : List c.Ty)
      (args : List Value) (store : NexusEventStore)
      → get_elem? declared i ≡ some s
      → get_elem? (native_functions c) i ≡ some entry
      → length ty_args ≡ s.types
      → HaveKinds s.params args
      → (get_elem? bootstrap_natives i ≡ some (full_name entry))
        × IsTyped s.results (entry.function ty_args args store).0
  native_functions-IsTyped i s entry ty_args args store e k types kinds = (
    subst (λ names. get_elem? names i ≡ some (full_name entry)) names_listed
        (get_elem?-map (native_functions c) i k),
    signature_at declared (native_functions c) i s entry all_signatures e k ty_args args store types
        kinds,
  )
