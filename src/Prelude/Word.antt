-- ===== src/Prelude/Word.antt =====
-- u64 arithmetic of the Rust core library: the saturating operations, and the little-endian bytes.
use Prim.Native.Nat.{ℕ, zero, suc, ◌+◌, ◌-◌, ◌*◌, ◌/◌, ◌%◌, ◌^◌, ◌≤◌, ◌<◌, min}
use mathlib.Core.Path.{◌≡◌, refl}
use mathlib.Core.List.{List, [], ◌∷◌}
use native.Mathlib.Nat.{pow-suc}
use native.Mathlib.Omega.{arith}
use nexus_move.Prelude.Lists.{length}

-- `u64::MAX`
abbrev pub u64_max : ℕ
u64_max = 2 ^ 64 - 1

unfoldable pub saturating_add : ℕ → ℕ → ℕ
saturating_add a b = min (a + b) u64_max

unfoldable pub saturating_mul : ℕ → ℕ → ℕ
saturating_mul a b = min (a * b) u64_max

-- Subtraction on ℕ stops at 0, as `saturating_sub` does.
unfoldable pub saturating_sub : ℕ → ℕ → ℕ
saturating_sub a b = a - b

-- `to_le_bytes` of a word of `n` bytes.
unfoldable pub to_le_bytes : ℕ → ℕ → List ℕ
to_le_bytes zero x = []
to_le_bytes (suc n) x = (x % 256) ∷ to_le_bytes n (x / 256)

unfoldable pub from_le_bytes : List ℕ → ℕ
from_le_bytes [] = 0
from_le_bytes (b ∷ bs) = b + 256 * from_le_bytes bs

pub length-to_le_bytes : (n x : ℕ) → length (to_le_bytes n x) ≡ n
unfolding to_le_bytes
length-to_le_bytes zero x = refl
length-to_le_bytes (suc n) x = omega (arith, length-to_le_bytes n (x / 256))

-- The value that a u64 computation stops at.
unfoldable pub saturate : ℕ → ℕ
saturate n = min n u64_max

pub saturate_id : (n : ℕ) → n ≤ u64_max → saturate n ≡ n
unfolding saturate
saturate_id n h = omega arith

pub saturating_add-eq-saturate : (a b : ℕ) → saturating_add a b ≡ saturate (a + b)
unfolding saturating_add saturate
saturating_add-eq-saturate a b = refl

pub saturating_mul-eq-saturate : (a b : ℕ) → saturating_mul a b ≡ saturate (a * b)
unfolding saturating_mul saturate
saturating_mul-eq-saturate a b = refl

-- Stopping early and stopping at the end give the same sum.
pub saturate-add_left : (a b : ℕ) → saturate (saturate a + b) ≡ saturate (a + b)
unfolding saturate
saturate-add_left a b = omega arith

pub saturate-add_right : (a b : ℕ) → saturate (a + saturate b) ≡ saturate (a + b)
unfolding saturate
saturate-add_right a b = omega arith

pub saturate-mul_left : (a b : ℕ) → saturate (saturate a * b) ≡ saturate (a * b)
unfolding saturate
saturate-mul_left a zero = omega arith
saturate-mul_left a (suc b) = grind arith

pub ruleset saturation = (
  saturating_add-eq-saturate, saturating_mul-eq-saturate, saturate-add_left, saturate-add_right,
  saturate-mul_left,
)

-- The bytes of a word that fits give it back.
pub from_le_bytes-to_le_bytes : (n x : ℕ) → x < 256 ^ n → from_le_bytes (to_le_bytes n x) ≡ x
unfolding to_le_bytes from_le_bytes
from_le_bytes-to_le_bytes zero x h = omega arith
from_le_bytes-to_le_bytes (suc n) x h =
    let small : x / 256 < 256 ^ n = omega (arith, pow-suc 256 n) in
    omega (arith, from_le_bytes-to_le_bytes n (x / 256) small)
