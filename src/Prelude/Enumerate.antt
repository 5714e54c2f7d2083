-- ===== src/Prelude/Enumerate.antt =====
-- Loops that push what they find at each index of a list: `iter().enumerate()` and ranges of
-- indices.
use Prim.Native.Nat.{ℕ, zero, suc, ◌+◌}
use mathlib.Core.Path.{◌≡◌, refl, sym, subst}
use mathlib.Core.Logic.{◌↔◌, inl, inr}
use mathlib.Core.Option.{some, some-injective}
use mathlib.Core.List.{List, [], ◌∷◌, ◌++◌}
use mathlib.Core.List.{Memᴰ}
use mathlib.Core.List.Memᴰ
use native.Mathlib.Omega.{arith}
use nexus_move.Prelude.Lists.{get_elem?}

module _ {ℓ κ} {A : Type ℓ} {B : Type κ} (f : ℕ → A → List B) where
  -- What is pushed for the elements, the first of which has index `i`, in order.
  unfoldable pub enumerate : ℕ → List A → List B
  enumerate i [] = []
  enumerate i (x ∷ xs) = f i x ++ enumerate (i + 1) xs

  -- An element with its index, for which something was pushed.
  abbrev pub Pushes : ℕ → List A → B → Type (ℓ ⊔ κ)
  Pushes i xs b = (j : ℕ) × (x : A) × (get_elem? xs j ≡ some x) × Memᴰ b (f (i + j) x)

  mem_pushed : (i : ℕ) (xs : List A) (b : B) → Memᴰ b (enumerate i xs) → Pushes i xs b
  unfolding enumerate
  mem_pushed i [] b m = absurd (Memᴰ.not-nil m)
  mem_pushed i (x ∷ xs) b m = elim (Memᴰ.append_cases (f i x) m) [
    | inl here ↦ (0, x, refl, subst (λ k. Memᴰ b (f k x)) (omega arith) here)
    | inr later ↦
        let (j, y, at, pushed) = mem_pushed (i + 1) xs b later in
        (suc j, y, at, subst (λ k. Memᴰ b (f k y)) (omega arith) pushed)
  ]

  pushed_mem :
      (i : ℕ) (xs : List A) (b : B) (j : ℕ) (x : A)
      → get_elem? xs j ≡ some x
      → Memᴰ b (f (i + j) x)
      → Memᴰ b (enumerate i xs)
  unfolding enumerate
  pushed_mem i [] b j x at m = cc
  pushed_mem i (y ∷ xs) b zero x at m = Memᴰ.append_left (enumerate (i + 1) xs) (
      subst (λ z. Memᴰ b (f i z)) (sym (some-injective y x at))
        (subst (λ k. Memᴰ b (f k x)) (omega arith) m))
  pushed_mem i (y ∷ xs) b (suc j) x at m =
      Memᴰ.append_right (f i y)
        (pushed_mem (i + 1) xs b j x at (subst (λ k. Memᴰ b (f k x)) (omega arith) m))

  pub mem-enumerate : (i : ℕ) (xs : List A) (b : B) → Memᴰ b (enumerate i xs) ↔ Pushes i xs b
  mem-enumerate i xs b = (mem_pushed i xs b, λ p. pushed_mem i xs b p.0 p.1 p.2 p.3)

  -- Something is pushed for an element of the list, at its index.
  pub mem-enumerate_all :
      (xs : List A) (b : B)
      → Memᴰ b (enumerate 0 xs) ↔ ((j : ℕ) × (x : A) × (get_elem? xs j ≡ some x) × Memᴰ b (f j x))
  mem-enumerate_all xs b = (
    λ m.
        let (j, x, at, pushed) = (mem-enumerate 0 xs b).0 m in
        (j, x, at, subst (λ k. Memᴰ b (f k x)) (omega arith) pushed),
    λ p. (mem-enumerate 0 xs b).1 (p.0, p.1, p.2, subst (λ k. Memᴰ b (f k p.1)) (omega arith) p.3),
  )
