-- ===== src/Prelude/ByteString.antt =====
-- Byte strings, and Rust's order on them (lexicographic, as `Ord` of `[u8]` and of `[u8; 32]`).
use Prim.Native.Char.{code}
use Prim.Native.Nat.{ℕ, ◌<◌}
use Prim.Native.String.{String}
use mathlib.Core.Path.{◌≡◌, refl}
use mathlib.Core.Logic.{◌↔◌, ◌≢◌}
use mathlib.Core.Bool.{Bool, true, false, ◌&&◌}
use mathlib.Core.List.{List, [], ◌∷◌}
use native.Mathlib.Omega.{arith}
use nexus_move.Prelude.Lists.{All}
use nexus_move.Prelude.Tests.{◌==◌}

-- `Vec<u8>`, `&[u8]`; a `String` is the list of its UTF-8 bytes.
abbrev pub Bytes : Type 0
Bytes = List ℕ

-- `==` on byte strings
abbrev pub bytes_eq : Bytes → Bytes → Bool
bytes_eq [] [] = true
bytes_eq (a ∷ s) (b ∷ t) = (a == b) && bytes_eq s t
bytes_eq _ _ = false

pub bytes_eq_iff : (s t : Bytes) → (bytes_eq s t ≡ true) ↔ (s ≡ t)
bytes_eq_iff [] [] = ground arith
bytes_eq_iff [] (b ∷ t) = ground arith
bytes_eq_iff (a ∷ s) [] = ground arith
bytes_eq_iff (a ∷ s) (b ∷ t) = ground (arith, bytes_eq_iff s t)

pub bytes_eq_refl : (s : Bytes) → bytes_eq s s ≡ true
bytes_eq_refl s = (bytes_eq_iff s s).1 refl

pub bytes_ne : (s t : Bytes) → bytes_eq s t ≡ false → s ≢ t
bytes_ne s t h e = cc ((bytes_eq_iff s t).1 e, h)

-- A string literal: the program's are ASCII, so their bytes are their code points.
abbrev pub ascii : String → Bytes
ascii String.[] = []
ascii (String.◌∷◌ c s) = code c ∷ ascii s

-- Every element is a byte.
abbrev pub AreBytes : Bytes → Type 0
AreBytes s = All (λ b. b < 256) s
