-- ===== src/Prelude/Utf8.antt =====
-- UTF-8, as `str::from_utf8` of the Rust standard library checks it: an automaton over the bytes.
use mathlib.Core.Bool.{Bool, true, false, ◌&&◌}
use mathlib.Core.Option.{Option, none, some}
use mathlib.Core.List.{[], ◌∷◌}
use Prim.Native.Nat.{ℕ}
use nexus_move.Prelude.Tests.{leb, ltb, ◌==◌, if◌then◌else◌}
use nexus_move.Prelude.ByteString.{Bytes}

-- What may follow: a new character, or so many continuation bytes. After 0xE0, 0xED, 0xF0 and 0xF4
-- the first of them has a range of its own: no longer form than needed, no surrogate, nothing above
-- 0x10FFFF.
pub data Utf8State : Type 0 where
  ready one two three after_e0 after_ed after_f0 after_f4 : Utf8State

abbrev pub between : ℕ → ℕ → ℕ → Bool
between lo hi b = leb lo b && leb b hi

abbrev pub is_continuation : ℕ → Bool
is_continuation b = between 0x80 0xbf b

unfoldable pub utf8_step : Utf8State → ℕ → Option Utf8State
utf8_step ready b =
    if ltb b 0x80
    then some ready
    else if between 0xc2 0xdf b
    then some one
    else if b == 0xe0
    then some after_e0
    else if b == 0xed
    then some after_ed
    else if between 0xe1 0xef b
    then some two
    else if b == 0xf0
    then some after_f0
    else if b == 0xf4
    then some after_f4
    else if between 0xf1 0xf3 b
    then some three
    else none
utf8_step one b = if is_continuation b then some ready else none
utf8_step two b = if is_continuation b then some one else none
utf8_step three b = if is_continuation b then some two else none
utf8_step after_e0 b = if between 0xa0 0xbf b then some one else none
utf8_step after_ed b = if between 0x80 0x9f b then some one else none
utf8_step after_f0 b = if between 0x90 0xbf b then some two else none
utf8_step after_f4 b = if between 0x80 0x8f b then some two else none

unfoldable pub utf8_run : Utf8State → Bytes → Option Utf8State
utf8_run state [] = some state
utf8_run state (b ∷ s) = elim (utf8_step state b) [ none ↦ none | some next ↦ utf8_run next s ]

abbrev pub is_ready : Option Utf8State → Bool
is_ready (some ready) = true
is_ready _ = false

-- `str::from_utf8(s).is_ok()`
unfoldable pub is_utf8 : Bytes → Bool
unfolding utf8_run utf8_step
is_utf8 s = is_ready (utf8_run ready s)
