-- ===== src/Package/Disk.antt =====
-- The file system that a build changes: what crates/nexus-move-package/src/build.rs uses of
-- `std::fs` and `std::path`. A path is its text, and two texts of one file (with `.`, `..` or links, or
-- relative and absolute) are two paths.
pub mod Laws
use nexus_move.Prelude.{
  ℕ, Bool, true, false, not, ◌||◌, ◌&&◌, Option, none, some, List, [], ◌∷◌, ◌++◌, ◌==◌,
  if◌then◌else◌, length, Bytes, bytes_eq, ascii, Result, ok, err, panic,
}
use nexus_move.Prelude.Map.{Map, lookup, insert}
use nexus_move.Prelude.Orders.{bytes_order}
use nexus_move.Prelude.Utf8.{is_utf8}

-- The files with their contents, the directories, and why the operating system refuses to make or
-- write, or to read, what stands at a path (permissions, a file in the way, a full disk), if it
-- does. A refused call changes nothing.
pub record Disk : Type 0 where
  pub files : Map Bytes Bytes
  pub is_dir : Bytes → Bool
  pub refuse : Bytes → Option Bytes
  pub unreadable : Bytes → Option Bytes

-- A computation that can fail, on a disk that keeps what was done before the failure.
abbrev pub Fs {ℓ} : Type ℓ → Type 0 → Type ℓ
Fs E A = Disk → Result E A × Disk

module _ {ℓ} {E : Type ℓ} where
  abbrev pub return : {A : Type 0} → Result E A → Fs E A
  return r d = (r, d)

  abbrev pub and_then : {A B : Type 0} → Result E A → (A → Fs E B) → Fs E B
  and_then panic k d = (panic, d)
  and_then (err failure) k d = (err failure, d)
  and_then (ok value) k d = k value d

  -- The operator `?`
  infixl 5 ◌>>=◌ ◌>>◌
  abbrev pub ◌>>=◌ : {A B : Type 0} → Fs E A → (A → Fs E B) → Fs E B
  ◌>>=◌ step k d = let r = step d in and_then r.0 k r.1

  abbrev pub ◌>>◌ : {B : Type 0} → Fs E (Unit {0}) → Fs E B → Fs E B
  step >> rest = step >>= λ _. rest

-- `map_err`
abbrev pub fail_as : {E F A : Type 0} → (E → F) → Result E A → Result F A
fail_as f panic = panic
fail_as f (err failure) = err (f failure)
fail_as f (ok value) = ok value

abbrev pub failing_as : {E F A : Type 0} → (E → F) → Fs E A → Fs F A
failing_as f step d = let r = step d in (fail_as f r.0, r.1)

abbrev pub has_slash : Bytes → Bool
has_slash [] = false
has_slash (b ∷ s) = (b == b'/') || has_slash s

-- `Path::parent`, of a path with a slash: what stands before the last one
unfoldable pub parent : Bytes → Bytes
parent [] = []
parent (b ∷ s) = let rest = parent s in if has_slash s then b ∷ rest else []

-- The first path is the second, or one of the directories in which that stands.
unfoldable pub is_above : Bytes → Bytes → Bool
is_above [] [] = true
is_above [] (b ∷ s) = b == b'/'
is_above (a ∷ path) [] = false
is_above (a ∷ path) (b ∷ s) = (a == b) && is_above path s

-- `fs::create_dir_all`
unfoldable pub create_dir_all : Bytes → Fs Bytes (Unit {0})
unfolding is_above
create_dir_all path d = elim (d.refuse path) [
  | some e ↦ (err e, d)
  | none ↦ (ok tt, record d { is_dir = λ q. d.is_dir q || is_above q path })
]

abbrev pub not_found : Bytes
not_found = ascii "No such file or directory (os error 2)"

-- `fs::write`
unfoldable pub write : Bytes → Bytes → Fs Bytes (Unit {0})
unfolding parent
write path contents d = elim (d.refuse path) [
  | some e ↦ (err e, d)
  | none ↦
      if d.is_dir (parent path)
      then (ok tt, record d { files = insert path contents d.files })
      else (err not_found, d)
]

-- The text that a file holds, if that is UTF-8.
abbrev pub text_of : Bytes → Result Bytes Bytes
text_of contents =
    if is_utf8 contents then ok contents else err (ascii "stream did not contain valid UTF-8")

-- `fs::read_to_string`
unfoldable pub read_to_string : Disk → Bytes → Result Bytes Bytes
unfolding is_utf8
read_to_string d path = elim (d.unreadable path) [
  | some e ↦ err e
  | none ↦ elim (lookup path d.files) [ none ↦ err not_found | some contents ↦ text_of contents ]
]

-- `fs::metadata(path)`, of which only the length is read; directories have no length here.
abbrev pub file_len : Disk → Bytes → Option ℕ
file_len d path = elim (lookup path d.files) [
  | none ↦ none
  | some contents ↦ some (length contents)
]

abbrev pub is_some {ℓ} : {A : Type ℓ} → Option A → Bool
is_some none = false
is_some (some a) = true

-- `Path::exists`
abbrev pub exists : Disk → Bytes → Bool
exists d path = d.is_dir path || is_some (lookup path d.files)
