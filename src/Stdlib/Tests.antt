-- ===== src/Stdlib/Tests.antt =====
-- The framework's table and the string natives on concrete texts.
use nexus_move.Prelude.{
  ℕ, ◌<◌, ◌≤◌, ◌≡◌, ◌⊎◌, refl, true, false, none, some, ◌∷◌, [], ◌↔◌, length, ascii, ok,
}
use nexus_move.Stdlib.{
  framework_names, get_framework_module, index_of, bootstrap_natives, is_char_boundary,
}
use nexus_move.Prelude.Utf8.{is_utf8}
use nexus_move.Stdlib.Boundaries.{is_char_boundary_iff}
use nexus_move.Stdlib.Natives.{OccursAt, NowhereBefore, index_of_lem}

counts_modules : length framework_names ≡ 13
counts_modules = refl

counts_natives : length bootstrap_natives ≡ 10
counts_natives = refl

finds_vector : get_framework_module (λ name. name) (ascii "vector") ≡ some (ascii "vector")
unfolding get_framework_module
finds_vector = refl

finds_nothing : get_framework_module (λ name. name) (ascii "nonexistent") ≡ none
unfolding get_framework_module
finds_nothing = refl

finds_index : index_of (ascii "hello") (ascii "lo") ≡ ok 3
unfolding index_of
finds_index = refl

index_of_lem_example :
    (k : ℕ) × (index_of (ascii "hello") (ascii "lo") ≡ ok k)
    × ((k ≡ 5) ⊎ (OccursAt (ascii "lo") (ascii "hello") k × (k < 5)))
    × NowhereBefore (ascii "lo") (ascii "hello") k
index_of_lem_example = index_of_lem (ascii "hello") (ascii "lo") (λ e. cc)

-- The two bytes of an accented letter, and one of them alone.
accepts_letter : is_utf8 (0xc3 ∷ 0xa9 ∷ []) ≡ true
unfolding is_utf8
accepts_letter = refl

refuses_half : is_utf8 (0xc3 ∷ []) ≡ false
unfolding is_utf8
refuses_half = refl

-- A surrogate and a form longer than needed.
refuses_surrogate : is_utf8 (0xed ∷ 0xa0 ∷ 0x80 ∷ []) ≡ false
unfolding is_utf8
refuses_surrogate = refl

refuses_long_form : is_utf8 (0xc0 ∷ 0x80 ∷ []) ≡ false
unfolding is_utf8
refuses_long_form = refl

is_char_boundary_iff_example : (is_char_boundary (0xc3 ∷ 0xa9 ∷ []) 1 ≡ ok true) ↔ (
    (is_utf8 (0xc3 ∷ 0xa9 ∷ []) ≡ true)
    × (1 ≤ 2)
    × (is_utf8 (0xc3 ∷ []) ≡ true)
    × (is_utf8 (0xa9 ∷ []) ≡ true))
is_char_boundary_iff_example = is_char_boundary_iff (0xc3 ∷ 0xa9 ∷ []) 1
