-- ===== src/Runtime/Resources/Laws.antt =====
-- A client of a resource store reads what it wrote last, and everything else from the state.
use nexus_move.Prelude.{
  ◌≡◌, ◌≢◌, refl, sym, ap, ◌∙◌, arith, Option, none, some, Bytes, ok, drop, Bool, true, ◌&&◌, inl,
  inr, bytes_eq, bytes_eq_iff, Bool-cases, if◌then◌else◌, ◌↔◌,
}
use nexus_move.Prelude.Map
use nexus_move.Prelude.Map.{IsSorted, lookup-insert_self, lookup-insert_ne, insert-IsSorted}
use nexus_move.Prelude.Orders.{bytes_order, pair_order}
use nexus_move.Types.{AccountAddress}
use nexus_move.Runtime.Resources.{ResourceStore, resource_key, get, set, remove}

-- Distinct resources have distinct keys.
pub resource_key-injective : (s t : Bytes) → resource_key s ≡ resource_key t → s ≡ t
unfolding resource_key
resource_key-injective s t h = ap (drop 10) h

abbrev SameResource : AccountAddress → Bytes → AccountAddress → Bytes → Type 0
SameResource a s b t = (a ≡ b) × (s ≡ t)

key_ne :
    (a : AccountAddress) (s : Bytes) (b : AccountAddress) (t : Bytes)
    → ¬ SameResource a s b t
    → ◌≢◌ {A = AccountAddress × Bytes} (b, resource_key t) (a, resource_key s)
key_ne a s b t h e = h (
  ap (λ (p : AccountAddress × Bytes). p.0) (sym e),
  resource_key-injective s t (ap (λ (p : AccountAddress × Bytes). p.1) (sym e)),
)

abbrev pub same_resource : AccountAddress → Bytes → AccountAddress → Bytes → Bool
same_resource a s b t = bytes_eq a b && bytes_eq s t

same_resource_iff :
    (a : AccountAddress) (s : Bytes) (b : AccountAddress) (t : Bytes)
    → (same_resource a s b t ≡ true) ↔ SameResource a s b t
same_resource_iff a s b t = ground (arith, bytes_eq_iff a b, bytes_eq_iff s t)

module _ (store : ResourceStore) (a : AccountAddress) (s : Bytes) (entry : Option Bytes) where
  overlaid :
      (b : AccountAddress) (t : Bytes)
      → get
          (record {
            view = store.view;
            overlay = Map.insert (a, resource_key s) entry store.overlay;
          })
          b
          t
        ≡ (if same_resource a s b t then ok entry else get store b t)
  unfolding get
  overlaid b t = elim (Bool-cases (same_resource a s b t)) [
    | inl e ↦
        let same = (same_resource_iff a s b t).0 e in
        rw e (
          rw (sym same.0) (
            rw (sym same.1) (rw (lookup-insert_self (a, resource_key s) entry store.overlay) refl)))
    | inr e ↦ rw e (
        rw
          (lookup-insert_ne (a, resource_key s) (b, resource_key t) entry store.overlay
            (key_ne a s b t (λ h. cc ((same_resource_iff a s b t).1 h, e))))
          refl)
  ]

module _ (store : ResourceStore) (a : AccountAddress) (s : Bytes) where
  -- After a write a read of the same resource gives the value written, and a read of any other
  -- resource what it gave before.
  pub get-set :
      (v : Bytes) (b : AccountAddress) (t : Bytes)
      → get (set store a s v) b t ≡ (if same_resource a s b t then ok (some v) else get store b t)
  unfolding set
  get-set v b t = overlaid store a s (some v) b t

  -- After a removal a read of the same resource finds nothing, whatever the state has for it, and
  -- a read of any other resource gives what it gave before.
  pub get-remove :
      (b : AccountAddress) (t : Bytes)
      → get (remove store a s) b t ≡ (if same_resource a s b t then ok none else get store b t)
  unfolding remove
  get-remove b t = overlaid store a s none b t

  pub get-set_self : (v : Bytes) → get (set store a s v) a s ≡ ok (some v)
  get-set_self v = get-set v a s ∙ rw ((same_resource_iff a s a s).1 (refl, refl)) refl
