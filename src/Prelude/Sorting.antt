-- ===== src/Prelude/Sorting.antt =====
-- `slice::sort_by` of the Rust standard library on a key: stable, here by insertion.
use Prim.Native.Nat.{Ordering, ◌+◌}
use mathlib.Core.Path.{◌≡◌, refl, sym, ap₂, subst, ◌∙◌}
use mathlib.Core.Logic.{◌≢◌}
use mathlib.Core.List.{Permᴰ, List, [], ◌∷◌}
use native.Mathlib.Omega.{arith}
use nexus_move.Prelude.Lists.{All, length}
use nexus_move.Prelude.Map.{KeyOrder, cmp_lt}

module _ {ℓ κ} {A : Type ℓ} {K : Type κ} ⦃o : KeyOrder K⦄ (key : A → K) where
  -- An element goes before those with an equal key, which stood behind it.
  unfoldable pub place : A → List A → List A
  place x [] = x ∷ []
  place x (y ∷ ys) = elim (o.cmp (key x) (key y)) [ Ordering.gt ↦ y ∷ place x ys | _ ↦ x ∷ y ∷ ys ]

  unfoldable pub sort_by : List A → List A
  sort_by [] = []
  sort_by (x ∷ xs) = place x (sort_by xs)

  -- Elements with distinct keys can be placed in either order.
  pub place-place :
      (x y : A) (zs : List A) → key x ≢ key y → place x (place y zs) ≡ place y (place x zs)
  unfolding place
  place-place x y [] ne =
      ground (arith, o.cmp_eq (key x) (key y), o.cmp_gt (key x) (key y), cmp_lt (key x) (key y))
  place-place x y (z ∷ zs) ne = ground (
    arith,
    o.cmp_eq (key x) (key y),
    o.cmp_gt (key x) (key y),
    cmp_lt (key x) (key y),
    o.cmp_trans (key x) (key y) (key z),
    o.cmp_trans (key y) (key x) (key z),
    o.cmp_trans (key z) (key x) (key y),
    o.cmp_trans (key z) (key y) (key x),
    o.cmp_gt (key x) (key z),
    o.cmp_gt (key y) (key z),
    o.cmp_eq (key x) (key z),
    o.cmp_eq (key y) (key z),
    cmp_lt (key x) (key z),
    cmp_lt (key y) (key z),
    place-place x y zs ne,
  )

  -- No two elements have the same key.
  abbrev pub DistinctKeys : List A → Type κ
  DistinctKeys [] = Unit
  DistinctKeys (x ∷ xs) = All (λ y. key x ≢ key y) xs × DistinctKeys xs

  All-rearranged : (P : A → Type κ) {xs ys : List A} → Permᴰ xs ys → All P xs → All P ys
  All-rearranged P Permᴰ.nil a = a
  All-rearranged P (Permᴰ.cons e p) a = (subst P e a.0, All-rearranged P p a.1)
  All-rearranged P (Permᴰ.swap e f) a = (subst P f a.1.0, (subst P e a.0, a.1.1))
  All-rearranged P (Permᴰ.trans p q) a = All-rearranged P q (All-rearranged P p a)

  DistinctKeys_rearranged : {xs ys : List A} → Permᴰ xs ys → DistinctKeys xs → DistinctKeys ys
  DistinctKeys_rearranged Permᴰ.nil d = d
  DistinctKeys_rearranged (Permᴰ.cons {b = b} {l₁ = l} e p) d = (
    All-rearranged (λ y. key b ≢ key y) p (subst (λ x. All (λ y. key x ≢ key y) l) e d.0),
    DistinctKeys_rearranged p d.1,
  )
  DistinctKeys_rearranged (Permᴰ.swap {b = b} {b' = b'} {l = l} e f) d =
      subst (λ x. DistinctKeys (x ∷ b' ∷ l)) f
        (subst (λ x. DistinctKeys (b ∷ x ∷ l)) e (((λ q. d.0.0 (sym q)), d.1.0), (d.0.1, d.1.1)))
  DistinctKeys_rearranged (Permᴰ.trans p q) d =
      DistinctKeys_rearranged q (DistinctKeys_rearranged p d)

  -- The order of elements with distinct keys does not matter.
  pub sort_by_rearranged :
      {xs ys : List A} → Permᴰ xs ys → DistinctKeys xs → sort_by xs ≡ sort_by ys
  unfolding sort_by
  sort_by_rearranged Permᴰ.nil d = refl
  sort_by_rearranged (Permᴰ.cons e p) d = ap₂ place e (sort_by_rearranged p d.1)
  sort_by_rearranged (Permᴰ.swap {a = a} {b = b} {l = l} e f) d =
      place-place a b (sort_by l) d.0.0 ∙ ap₂ (λ x y. place x (place y (sort_by l))) f e
  sort_by_rearranged (Permᴰ.trans p q) d =
      sort_by_rearranged p d ∙ sort_by_rearranged q (DistinctKeys_rearranged p d)

  length-place : (x : A) (ys : List A) → length (place x ys) ≡ length ys + 1
  unfolding place
  length-place x [] = refl
  length-place x (y ∷ ys) = ground (arith, length-place x ys)

  pub length-sort_by : (xs : List A) → length (sort_by xs) ≡ length xs
  unfolding sort_by
  length-sort_by [] = refl
  length-sort_by (x ∷ xs) = omega (arith, length-place x (sort_by xs), length-sort_by xs)

  place-All : (P : A → Type 0) (x : A) (ys : List A) → P x → All P ys → All P (place x ys)
  unfolding place
  place-All P x [] p q = (p, tt)
  place-All P x (y ∷ ys) p q =
      elim (o.cmp (key x) (key y))
        as (λ c. All P (elim c [ Ordering.gt ↦ y ∷ place x ys | _ ↦ x ∷ y ∷ ys ])) [
          | Ordering.gt ↦ (q.0, place-All P x ys p q.1)
          | Ordering.lt ↦ (p, q)
          | Ordering.eq ↦ (p, q)
        ]

  -- What is true of each element is true of each once they are sorted.
  pub sort_by-All : (P : A → Type 0) (xs : List A) → All P xs → All P (sort_by xs)
  unfolding sort_by
  sort_by-All P [] p = tt
  sort_by-All P (x ∷ xs) p = place-All P x (sort_by xs) p.0 (sort_by-All P xs p.1)

  from_place :
      (P : A → Type 0) (x y : A) (ys placed : List A)
      → (All P placed → P x × All P ys)
      → (c : Ordering) → All P (elim c [ Ordering.gt ↦ y ∷ placed | _ ↦ x ∷ y ∷ ys ])
      → P x × All P (y ∷ ys)
  from_place P x y ys placed rest Ordering.gt h = ((rest h.1).0, (h.0, (rest h.1).1))
  from_place P x y ys placed rest Ordering.lt h = (h.0, h.1)
  from_place P x y ys placed rest Ordering.eq h = (h.0, h.1)

  place-All_inv : (P : A → Type 0) (x : A) (ys : List A) → All P (place x ys) → P x × All P ys
  unfolding place
  place-All_inv P x [] h = h
  place-All_inv P x (y ∷ ys) h =
      from_place P x y ys (place x ys) (λ k. place-All_inv P x ys k) (o.cmp (key x) (key y)) h

  -- What is true of each once they are sorted is true of each element.
  pub sort_by-All_inv : (P : A → Type 0) (xs : List A) → All P (sort_by xs) → All P xs
  unfolding sort_by
  sort_by-All_inv P [] h = h
  sort_by-All_inv P (x ∷ xs) h =
      let (first, rest) = place-All_inv P x (sort_by xs) h in (first, sort_by-All_inv P xs rest)
