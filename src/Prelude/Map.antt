-- ===== src/Prelude/Map.antt =====
-- `BTreeMap<K, V>` of the Rust standard library: the entries in key order, over any ordered key.
use Prim.Native.Nat.{Ordering}
use mathlib.Core.Path.{◌≡◌, refl}
use mathlib.Core.Logic.{◌↔◌, ◌≢◌, ◌⊎◌, inl, inr}
use mathlib.Core.Option.{Option, none, some}
use mathlib.Core.List.{List, [], ◌∷◌}
use native.Mathlib.Omega.{arith}

-- `Ord` of the keys, with the laws that a map relies on.
pub record KeyOrder {ℓ} (K : Type ℓ) : Type ℓ where
  pub cmp : K → K → Ordering
  pub cmp_eq : (a b : K) → (cmp a b ≡ Ordering.eq) ↔ (a ≡ b)
  pub cmp_gt : (a b : K) → cmp a b ≡ Ordering.gt → cmp b a ≡ Ordering.lt
  pub cmp_trans :
      (a b c : K) → cmp a b ≡ Ordering.lt → cmp b c ≡ Ordering.lt → cmp a c ≡ Ordering.lt

Ordering-cases : (c : Ordering) → (c ≡ Ordering.eq) ⊎ (c ≢ Ordering.eq)
Ordering-cases Ordering.eq = inl refl
Ordering-cases Ordering.lt = inr (λ e. cc)
Ordering-cases Ordering.gt = inr (λ e. cc)

pub cmp_refl {ℓ} : {K : Type ℓ} ⦃o : KeyOrder K⦄ (k : K) → o.cmp k k ≡ Ordering.eq
cmp_refl ⦃o⦄ k = (o.cmp_eq k k).1 refl

pub cmp_lt {ℓ} :
    {K : Type ℓ} ⦃o : KeyOrder K⦄ (a b : K) → o.cmp a b ≡ Ordering.lt → o.cmp b a ≡ Ordering.gt
cmp_lt ⦃o⦄ a b h = ground (arith, o.cmp_trans a b a h, cmp_refl a, o.cmp_eq b a, o.cmp_eq a b)

abbrev pub Map {ℓ κ} : Type ℓ → Type κ → Type (ℓ ⊔ κ)
Map K V = List (K × V)

module _ {ℓ κ} {K : Type ℓ} {V : Type κ} ⦃o : KeyOrder K⦄ where
  -- `map.get(&k)`
  unfoldable pub lookup : K → Map K V → Option V
  lookup k [] = none
  lookup k ((j, w) ∷ m) = elim (o.cmp k j) [ Ordering.eq ↦ some w | _ ↦ lookup k m ]

  -- `map.insert(k, v)`
  unfoldable pub insert : K → V → Map K V → Map K V
  insert k v [] = (k, v) ∷ []
  insert k v ((j, w) ∷ m) = elim (o.cmp k j) [
    | Ordering.lt ↦ (k, v) ∷ (j, w) ∷ m
    | Ordering.eq ↦ (k, v) ∷ m
    | Ordering.gt ↦ (j, w) ∷ insert k v m
  ]

  -- Every key of `m` is above `k`.
  abbrev pub Above : K → Map K V → Type ℓ
  Above k [] = Unit
  Above k ((j, w) ∷ m) = (o.cmp k j ≡ Ordering.lt) × Above k m

  abbrev pub IsSorted : Map K V → Type ℓ
  IsSorted [] = Unit
  IsSorted ((j, w) ∷ m) = Above j m × IsSorted m

  pub lookup-insert_self : (k : K) (v : V) (m : Map K V) → lookup k (insert k v m) ≡ some v
  unfolding lookup insert
  lookup-insert_self k v [] = ground (arith, cmp_refl k)
  lookup-insert_self k v ((j, w) ∷ m) = ground (arith, cmp_refl k, lookup-insert_self k v m)

  pub lookup-insert_ne :
      (k i : K) (v : V) (m : Map K V) → i ≢ k → lookup i (insert k v m) ≡ lookup i m
  unfolding lookup insert
  lookup-insert_ne k i v [] h = ground (arith, o.cmp_eq i k)
  lookup-insert_ne k i v ((j, w) ∷ m) h =
      ground (arith, o.cmp_eq i k, o.cmp_eq k j, lookup-insert_ne k i v m h)

  Above-insert :
      (i k : K) (v : V) (m : Map K V) → o.cmp i k ≡ Ordering.lt → Above i m → Above i (insert k v m)
  unfolding insert
  Above-insert i k v [] h a = (h, tt)
  Above-insert i k v ((j, w) ∷ m) h a = ground (arith, Above-insert i k v m h a.1)

  Above-trans : (i k : K) (m : Map K V) → o.cmp i k ≡ Ordering.lt → Above k m → Above i m
  Above-trans i k [] h a = tt
  Above-trans i k ((j, w) ∷ m) h a = (o.cmp_trans i k j h a.0, Above-trans i k m h a.1)

  -- Insertion keeps the keys in order and without repetition.
  pub insert-IsSorted : (k : K) (v : V) (m : Map K V) → IsSorted m → IsSorted (insert k v m)
  unfolding insert
  insert-IsSorted k v [] s = (tt, tt)
  insert-IsSorted k v ((j, w) ∷ m) s = grind (
    arith,
    insert-IsSorted k v m s.1,
    Above-insert j k v m,
    Above-trans k j m,
    o.cmp_gt k j,
    o.cmp_eq k j,
  )

module _ {ℓ κ} {K : Type ℓ} {V : Type κ} ⦃o : KeyOrder K⦄ where
  -- A key below all of a map's is not in it.
  pub lookup-Above : (k : K) (m : Map K V) → Above k m → lookup k m ≡ none
  unfolding lookup
  lookup-Above k [] a = refl
  lookup-Above k ((j, w) ∷ m) a = ground (arith, lookup-Above k m a.1)

pub key_cases {ℓ} : {K : Type ℓ} ⦃o : KeyOrder K⦄ (a b : K) → (a ≡ b) ⊎ (a ≢ b)
key_cases ⦃o⦄ a b = elim (Ordering-cases (o.cmp a b)) [
  | inl e ↦ inl ((o.cmp_eq a b).0 e)
  | inr h ↦ inr (λ e. h ((o.cmp_eq a b).1 e))
]

module _ {ℓ κ} {K : Type ℓ} {V : Type κ} ⦃o : KeyOrder K⦄ where
  pub lookup-cons_self : (k : K) (w : V) (m : Map K V) → lookup k ((k, w) ∷ m) ≡ some w
  unfolding lookup
  lookup-cons_self k w m = ground (arith, cmp_refl k)

  pub lookup-cons_ne : (i j : K) (w : V) (m : Map K V) → i ≢ j → lookup i ((j, w) ∷ m) ≡ lookup i m
  unfolding lookup
  lookup-cons_ne i j w m h = ground (arith, o.cmp_eq i j)
