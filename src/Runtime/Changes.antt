-- ===== src/Runtime/Changes.antt =====
-- The store behind a view, as a node keeps it: a value, or none, at each account and key. The
-- state changes of an output are applied in order, a change without a value being a deletion.
use Prim.Native.Nat.{Ordering}
use nexus_move.Prelude.{
  ◌≡◌, ◌≢◌, refl, sym, ap, ◌∙◌, inl, inr, arith, Option, none, some, List, [], ◌∷◌, ◌++◌, Bytes, ok,
}
use nexus_move.Prelude.Map
use nexus_move.Prelude.Map.{KeyOrder, cmp_refl, key_cases}
use nexus_move.Prelude.Orders.{bytes_order, pair_order}
use nexus_move.Types.{AccountAddress}
use nexus_move.Runtime.Data.{StateChange, WriteSet}
use nexus_move.Runtime.State.{NexusStateView}

abbrev pub Slot : Type 0
Slot = AccountAddress × Bytes

abbrev pub Store : Type 0
Store = Slot → Option Bytes

abbrev pub slots : KeyOrder Slot
slots = pair_order

unfoldable pub write : Slot → Option Bytes → Store → Store
write k v st i = elim (slots.cmp i k) [ Ordering.eq ↦ v | _ ↦ st i ]

unfoldable pub apply_changes : List StateChange → Store → Store
unfolding write
apply_changes [] st = st
apply_changes (c ∷ changes) st = apply_changes changes (write (c.account, c.key) c.value st)

-- What a slot holds after an entry of a write set, if there is one.
abbrev pub or_stored : Option (Option Bytes) → Option Bytes → Option Bytes
or_stored (some entry) stored = entry
or_stored none stored = stored

-- An output's two descriptions of its effect agree: the changes, applied in order, leave at each
-- slot what the write set has for it.
abbrev pub Agrees : WriteSet → List StateChange → Type 0
Agrees write_set state_changes =
    (st : Store) (k : Slot)
    → apply_changes state_changes st k ≡ or_stored (Map.lookup k write_set) (st k)

-- The view reads this store.
abbrev pub Reads : NexusStateView → Store → Type 0
Reads view st = (a : AccountAddress) (key : Bytes) → view.get a key ≡ ok (st (a, key))

pub write_self : (k : Slot) (v : Option Bytes) (st : Store) → write k v st k ≡ v
unfolding write
write_self k v st = ground (arith, cmp_refl k)

pub write_ne : (k i : Slot) (v : Option Bytes) (st : Store) → i ≢ k → write k v st i ≡ st i
unfolding write
write_ne k i v st h = ground (arith, slots.cmp_eq i k)

pub apply_changes-append :
    (xs ys : List StateChange) (st : Store)
    → apply_changes (xs ++ ys) st ≡ apply_changes ys (apply_changes xs st)
unfolding apply_changes
apply_changes-append [] ys st = refl
apply_changes-append (c ∷ xs) ys st = apply_changes-append xs ys _

pub Agrees-nil : Agrees [] []
unfolding apply_changes Map.lookup
Agrees-nil st k = refl

-- One more write, recorded in both, keeps them in agreement.
pub Agrees-push :
    (w : WriteSet) (changes : List StateChange) (a : AccountAddress) (key : Bytes)
    (v : Option Bytes)
    → Agrees w changes
    → Agrees
        (Map.insert (a, key) v w)
        (changes ++ record { account = a; key = key; value = v } ∷ [])
unfolding apply_changes
Agrees-push w changes a key v h st k = elim (key_cases k (a, key)) [
  | inl e ↦ rw e (
      ap (λ (f : Store). f (a, key)) (apply_changes-append changes _ st)
      ∙ write_self (a, key) v (apply_changes changes st)
      ∙ sym (ap (λ r. or_stored r (st (a, key))) (Map.lookup-insert_self (a, key) v w)))
  | inr ne ↦
      ap (λ (f : Store). f k) (apply_changes-append changes _ st)
      ∙ write_ne (a, key) k v (apply_changes changes st) ne
      ∙ h st k
      ∙ sym (ap (λ r. or_stored r (st k)) (Map.lookup-insert_ne (a, key) k v w ne))
]
