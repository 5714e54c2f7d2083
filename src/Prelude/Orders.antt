-- ===== src/Prelude/Orders.antt =====
-- Orders of map keys: byte strings and pairs, compared lexicographically as Rust derives `Ord`.
use Prim.Native.Nat.{compare, Ordering}
use mathlib.Core.Path.{◌≡◌, refl}
use mathlib.Core.Logic.{◌↔◌}
use mathlib.Core.List.{[], ◌∷◌}
use native.Mathlib.Omega.{arith}
use nexus_move.Prelude.ByteString.{Bytes}
use nexus_move.Prelude.Map.{KeyOrder}

-- The second comparison counts only where the first is a tie.
abbrev pub then_with : Ordering → Ordering → Ordering
then_with Ordering.eq d = d
then_with c d = c

unfoldable pub cmp_bytes : Bytes → Bytes → Ordering
cmp_bytes [] [] = Ordering.eq
cmp_bytes [] (b ∷ t) = Ordering.lt
cmp_bytes (a ∷ s) [] = Ordering.gt
cmp_bytes (a ∷ s) (b ∷ t) = then_with (compare a b) (cmp_bytes s t)

pub cmp_bytes_eq : (s t : Bytes) → (cmp_bytes s t ≡ Ordering.eq) ↔ (s ≡ t)
unfolding cmp_bytes
cmp_bytes_eq [] [] = ground arith
cmp_bytes_eq [] (b ∷ t) = ground arith
cmp_bytes_eq (a ∷ s) [] = ground arith
cmp_bytes_eq (a ∷ s) (b ∷ t) = ground (arith, cmp_bytes_eq s t)

pub cmp_bytes_gt : (s t : Bytes) → cmp_bytes s t ≡ Ordering.gt → cmp_bytes t s ≡ Ordering.lt
unfolding cmp_bytes
cmp_bytes_gt [] [] h = cc
cmp_bytes_gt [] (b ∷ t) h = cc
cmp_bytes_gt (a ∷ s) [] h = refl
cmp_bytes_gt (a ∷ s) (b ∷ t) h = ground (arith, cmp_bytes_gt s t)

pub cmp_bytes_trans :
    (s t u : Bytes)
    → cmp_bytes s t ≡ Ordering.lt
    → cmp_bytes t u ≡ Ordering.lt
    → cmp_bytes s u ≡ Ordering.lt
unfolding cmp_bytes
cmp_bytes_trans [] [] u h k = cc
cmp_bytes_trans [] (b ∷ t) [] h k = cc
cmp_bytes_trans [] (b ∷ t) (c ∷ u) h k = refl
cmp_bytes_trans (a ∷ s) [] u h k = cc
cmp_bytes_trans (a ∷ s) (b ∷ t) [] h k = cc
cmp_bytes_trans (a ∷ s) (b ∷ t) (c ∷ u) h k = ground (arith, cmp_bytes_trans s t u)

instance abbrev pub bytes_order : KeyOrder Bytes
bytes_order = record {
  cmp = cmp_bytes;
  cmp_eq = cmp_bytes_eq;
  cmp_gt = cmp_bytes_gt;
  cmp_trans = cmp_bytes_trans;
}

module _ {ℓ κ} {A : Type ℓ} {B : Type κ} ⦃o : KeyOrder A⦄ ⦃p : KeyOrder B⦄ where
  abbrev pub cmp_pair : A × B → A × B → Ordering
  cmp_pair (a, b) (c, d) = then_with (o.cmp a c) (p.cmp b d)

  pub cmp_pair_eq : (x y : A × B) → (cmp_pair x y ≡ Ordering.eq) ↔ (x ≡ y)
  cmp_pair_eq (a, b) (c, d) = ground (arith, o.cmp_eq a c, p.cmp_eq b d)

  pub cmp_pair_gt : (x y : A × B) → cmp_pair x y ≡ Ordering.gt → cmp_pair y x ≡ Ordering.lt
  cmp_pair_gt (a, b) (c, d) h =
      ground (arith, o.cmp_gt a c, p.cmp_gt b d, o.cmp_eq a c, o.cmp_eq c a)

  pub cmp_pair_trans :
      (x y z : A × B)
      → cmp_pair x y ≡ Ordering.lt
      → cmp_pair y z ≡ Ordering.lt
      → cmp_pair x z ≡ Ordering.lt
  cmp_pair_trans (a, b) (c, d) (e, f) h k =
      ground (arith, o.cmp_trans a c e, p.cmp_trans b d f, o.cmp_eq a c, o.cmp_eq c e, o.cmp_eq a e)

  instance abbrev pub pair_order : KeyOrder (A × B)
  pair_order = record {
    cmp = cmp_pair;
    cmp_eq = cmp_pair_eq;
    cmp_gt = cmp_pair_gt;
    cmp_trans = cmp_pair_trans;
  }
