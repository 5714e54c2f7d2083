-- ===== src/Stdlib/Table/Context.antt =====
-- The natives that ask the VM's context, or hash, are typed as the Move sources of the framework
-- declare them.
use nexus_move.Prelude.{ℕ, ◌⊎◌, inl, inr, refl, Option, none, some, List, [], ◌∷◌, Bytes, ok, ◌>>=◌}
use nexus_move.Stdlib.{NexusEventStore}
use nexus_move.Stdlib.Table.{
  NativeContext, native_to_bytes, native_sha2_256, native_sha3_256, native_type_name_get,
  native_write_to_event_store, from_vm, serialized_value, to_bytes_of, record_event,
}
use nexus_move.Stdlib.Values.{Value, Fallible, NativeResult}
use nexus_move.Stdlib.Table.Typing.{
  Kind, number, bytes, any_ref, any, type_name, HaveKinds, IsTyped,
}

module _ (c : NativeContext) where
  open c use {Ty, Layout, type_to_type_layout, type_to_type_tag, serialize, read_ref}

  -- A call of the context that fails is an error of the VM.
  from_vm-IsTyped :
      {A : Type 0} (results : List Kind) (r : ℕ ⊎ A) (k : A → Fallible NativeResult)
      → ((a : A) → IsTyped results (k a))
      → IsTyped results (from_vm r >>= k)
  from_vm-IsTyped results (inl code) k h = tt
  from_vm-IsTyped results (inr a) k h = h a

  pub sha2-IsTyped :
      (args : List Value)
      → HaveKinds (bytes ∷ []) args
      → IsTyped (bytes ∷ []) (native_sha2_256 c args)
  unfolding native_sha2_256
  sha2-IsTyped (v ∷ []) ((s, e), _) = rw e ((_, refl), tt)
  sha2-IsTyped [] h = absurd h
  sha2-IsTyped (v ∷ w ∷ args) h = absurd h.1

  pub sha3-IsTyped :
      (args : List Value)
      → HaveKinds (bytes ∷ []) args
      → IsTyped (bytes ∷ []) (native_sha3_256 c args)
  unfolding native_sha3_256
  sha3-IsTyped (v ∷ []) ((s, e), _) = rw e ((_, refl), tt)
  sha3-IsTyped [] h = absurd h
  sha3-IsTyped (v ∷ w ∷ args) h = absurd h.1

  serialized-IsTyped : (o : Option Bytes) → IsTyped (bytes ∷ []) (serialized_value c o)
  serialized-IsTyped none = tt
  serialized-IsTyped (some s) = ((s, refl), tt)

  to_bytes_of-IsTyped : (v : Value) (r : ℕ ⊎ Layout) → IsTyped (bytes ∷ []) (to_bytes_of c v r)
  to_bytes_of-IsTyped v (inl code) = tt
  to_bytes_of-IsTyped v (inr layout) =
      from_vm-IsTyped (bytes ∷ []) (read_ref v) _
        (λ val. from_vm-IsTyped (bytes ∷ []) (serialize val layout) _ serialized-IsTyped)

  pub to_bytes-IsTyped :
      (ty : Ty) (args : List Value)
      → HaveKinds (any_ref ∷ []) args
      → IsTyped (bytes ∷ []) (native_to_bytes c (ty ∷ []) args)
  unfolding native_to_bytes
  to_bytes-IsTyped ty (v ∷ []) ((w, e), _) = rw e (to_bytes_of-IsTyped w (type_to_type_layout ty))
  to_bytes-IsTyped ty [] h = absurd h
  to_bytes-IsTyped ty (v ∷ w ∷ args) h = absurd h.1

  pub type_name-IsTyped : (ty : Ty) → IsTyped (type_name ∷ []) (native_type_name_get c (ty ∷ []))
  unfolding native_type_name_get
  type_name-IsTyped ty =
      from_vm-IsTyped (type_name ∷ []) (type_to_type_tag ty) _ (λ s. ((s, refl), tt))

  recorded-IsTyped :
      (tag guid : Bytes) (count : ℕ) (payload : ℕ ⊎ Option Bytes) (store : NexusEventStore)
      → IsTyped [] (record_event c (from_vm payload >>= λ p. ok (tag, guid, count, p)) store).0
  recorded-IsTyped tag guid count (inl code) store = tt
  recorded-IsTyped tag guid count (inr p) store = tt

  event_of-IsTyped :
      (tag : ℕ ⊎ Bytes) (layout : ℕ ⊎ Layout) (guid : Bytes) (count : ℕ) (msg : Value)
      (store : NexusEventStore)
      → IsTyped []
          (record_event c
            (from_vm tag >>= λ t.
              from_vm layout >>= λ l. from_vm (serialize msg l) >>= λ p. ok (t, guid, count, p))
            store).0
  event_of-IsTyped (inl code) layout guid count msg store = tt
  event_of-IsTyped (inr t) (inl code) guid count msg store = tt
  event_of-IsTyped (inr t) (inr l) guid count msg store =
      recorded-IsTyped t guid count (serialize msg l) store

  pub event-IsTyped :
      (ty : Ty) (args : List Value) (store : NexusEventStore)
      → HaveKinds (bytes ∷ number ∷ any ∷ []) args
      → IsTyped [] (native_write_to_event_store c (ty ∷ []) args store).0
  unfolding native_write_to_event_store
  event-IsTyped ty (v ∷ w ∷ x ∷ []) store ((s, e), ((n, k), _)) =
      rw (e, k) (event_of-IsTyped (type_to_type_tag ty) (type_to_type_layout ty) s n x store)
  event-IsTyped ty [] store h = absurd h
  event-IsTyped ty (v ∷ []) store h = absurd h.1
  event-IsTyped ty (v ∷ w ∷ []) store h = absurd h.1.1
  event-IsTyped ty (v ∷ w ∷ x ∷ y ∷ args) store h = absurd h.1.1.1
