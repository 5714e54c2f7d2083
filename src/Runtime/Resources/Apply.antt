-- ===== src/Runtime/Resources/Apply.antt =====
-- Committing an overlay: the changes applied to the store give what the overlay showed.
use mathlib.Core.Path.{ap₂}
use nexus_move.Prelude.{◌≡◌, refl, sym, ap, ◌∙◌, Option, none, some, [], ◌∷◌, inl, inr, Bytes, ok}
use nexus_move.Prelude.Map
use nexus_move.Prelude.Map.{
  Above, IsSorted, insert-IsSorted, lookup-Above, key_cases, lookup-cons_self, lookup-cons_ne,
  cmp_refl, KeyOrder,
}
use nexus_move.Prelude.Orders.{bytes_order, pair_order}
use nexus_move.Types.{AccountAddress}
use nexus_move.Runtime.Data.{WriteSet, VmResult}
use nexus_move.Runtime.Changes.{
  Store, write, apply_changes, or_stored, Agrees, Reads, write_self, write_ne,
}
use nexus_move.Runtime.State.{NexusStateView, get_resource}
use nexus_move.Runtime.Resources.{
  ResourceStore, or_state, resource_key, get, set, remove, overlay_changes, into_changes,
}

-- The changes of an overlay in key order agree with it as a write set.
pub apply_changes-overlay : (m : WriteSet) → IsSorted m → Agrees m (overlay_changes m)
unfolding apply_changes overlay_changes
apply_changes-overlay [] s st k = unfold Map.lookup in refl
apply_changes-overlay (((a, key), v) ∷ m) s st k = elim (key_cases k (a, key)) [
  | inl e ↦ rw e (
      apply_changes-overlay m s.1 (write (a, key) v st) (a, key)
      ∙ ap₂ or_stored (lookup-Above (a, key) m s.0) (write_self (a, key) v st)
      ∙ sym (ap (λ r. or_stored r (st (a, key))) (lookup-cons_self (a, key) v m)))
  | inr ne ↦
      apply_changes-overlay m s.1 (write (a, key) v st) k
      ∙ ap (or_stored (Map.lookup k m)) (write_ne (a, key) k v st ne)
      ∙ sym (ap (λ r. or_stored r (st k)) (lookup-cons_ne k (a, key) v m ne))
]

read_through :
    (view : NexusStateView) (st : Store) (a : AccountAddress) (key : Bytes)
    (entry : Option (Option Bytes))
    → Reads view st
    → ◌≡◌ {A = VmResult (Option Bytes)}
        (or_state view a key entry)
        (ok (or_stored entry (st (a, key))))
unfolding get_resource
read_through view st a key (some v) reads = refl
read_through view st a key none reads = reads a key

pub set-IsSorted :
    (store : ResourceStore) (a : AccountAddress) (t v : Bytes)
    → IsSorted store.overlay
    → IsSorted (set store a t v).overlay
unfolding set
set-IsSorted store a t v h = insert-IsSorted _ _ _ h

pub remove-IsSorted :
    (store : ResourceStore) (a : AccountAddress) (t : Bytes)
    → IsSorted store.overlay
    → IsSorted (remove store a t).overlay
unfolding remove
remove-IsSorted store a t h = insert-IsSorted _ _ _ h

-- Reads through the overlay are reads of the store after the changes have been applied to it, for
-- every resource, written, deleted or untouched.
pub get-into_changes :
    (store : ResourceStore) (st : Store) (a : AccountAddress) (t : Bytes)
    → Reads store.view st
    → IsSorted store.overlay
    → get store a t ≡ ok (apply_changes (into_changes store).1 st (a, resource_key t))
unfolding get into_changes
get-into_changes store st a t reads sorted =
    read_through store.view st a (resource_key t) (Map.lookup (a, resource_key t) store.overlay)
      reads
    ∙ ap ok (sym (apply_changes-overlay store.overlay sorted st (a, resource_key t)))
