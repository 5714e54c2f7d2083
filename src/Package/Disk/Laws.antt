-- ===== src/Package/Disk/Laws.antt =====
-- What the operations on the disk do: paths, and which files they leave alone.
use nexus_move.Prelude.{
  ◌≡◌, ◌≢◌, refl, arith, true, false, ◌||◌, none, some, [], ◌∷◌, Bytes, Result, ok, err, panic,
  Option-cases, inl, inr, ap, sym, ◌∙◌, ◌++◌, Bool-cases,
}
use nexus_move.Prelude.Map.{lookup, insert, lookup-insert_self, lookup-insert_ne}
use nexus_move.Prelude.Orders.{bytes_order}
use nexus_move.Package.{join, is_absolute, needs_separator}
use nexus_move.Package.Disk.{
  Disk, Fs, ◌>>=◌, and_then, fail_as, has_slash, parent, is_above, create_dir_all, write,
}

-- A path to which `join` adds a separator, as it does to every path that ends in a name.
abbrev pub IsOpenEnded : Bytes → Type 0
IsOpenEnded path = needs_separator path ≡ true

abbrev pub IsRelative : Bytes → Type 0
IsRelative name = is_absolute name ≡ false

pub join_relative :
    (path name : Bytes) → IsOpenEnded path → IsRelative name → join path name ≡ path ++ b'/' ∷ name
join_relative path name open_ relative = rw relative (rw open_ refl)

append-IsOpenEnded : (path name : Bytes) → IsOpenEnded name → IsOpenEnded (path ++ name)
append-IsOpenEnded [] name h = h
append-IsOpenEnded (b ∷ []) [] h = cc
append-IsOpenEnded (b ∷ []) (c ∷ name) h = h
append-IsOpenEnded (b ∷ c ∷ path) name h = append-IsOpenEnded (c ∷ path) name h

slash-IsOpenEnded : (name : Bytes) → IsOpenEnded name → IsOpenEnded (b'/' ∷ name)
slash-IsOpenEnded [] h = cc
slash-IsOpenEnded (b ∷ name) h = h

-- Where a path ends in a name, it takes a separator.
pub join-IsOpenEnded :
    (path name : Bytes) → IsRelative name → IsOpenEnded name → IsOpenEnded (join path name)
join-IsOpenEnded path name relative h = elim (Bool-cases (needs_separator path)) [
  | inl e ↦ rw relative (rw e (append-IsOpenEnded path (b'/' ∷ name) (slash-IsOpenEnded name h)))
  | inr e ↦ rw relative (rw e (append-IsOpenEnded path name h))
]

has_slash-between : (path name : Bytes) → has_slash (path ++ b'/' ∷ name) ≡ true
has_slash-between [] name = refl
has_slash-between (b ∷ path) name = ground (arith, has_slash-between path name)

parent-between : (path name : Bytes) → has_slash name ≡ false → parent (path ++ b'/' ∷ name) ≡ path
unfolding parent
parent-between [] name h = ground arith
parent-between (b ∷ path) name h =
    ground (arith, has_slash-between path name, parent-between path name)

-- A name without a slash is not absolute.
pub flat-IsRelative : (name : Bytes) → has_slash name ≡ false → IsRelative name
flat-IsRelative [] h = refl
flat-IsRelative (b ∷ name) h = ground (arith, h)

pub parent-join :
    (path name : Bytes) → IsOpenEnded path → has_slash name ≡ false → parent (join path name) ≡ path
parent-join path name open_ h =
    ap parent (join_relative path name open_ (flat-IsRelative name h)) ∙ parent-between path name h

pub is_above_refl : (path : Bytes) → is_above path path ≡ true
unfolding is_above
is_above_refl [] = refl
is_above_refl (b ∷ path) = ground (arith, is_above_refl path)

is_above-between : (path name : Bytes) → is_above path (path ++ b'/' ∷ name) ≡ true
unfolding is_above
is_above-between [] name = refl
is_above-between (b ∷ path) name = ground (arith, is_above-between path name)

pub is_above-join :
    (path name : Bytes) → IsOpenEnded path → IsRelative name → is_above path (join path name) ≡ true
is_above-join path name open_ relative =
    ap (is_above path) (join_relative path name open_ relative) ∙ is_above-between path name

append-injective : (path a b : Bytes) → path ++ a ≡ path ++ b → a ≡ b
append-injective [] a b e = e
append-injective (c ∷ path) a b e = append-injective path a b (cc)

-- Relative names in one directory are the names of different files, whatever its path.
pub join-injective :
    (path a b : Bytes) → IsRelative a → IsRelative b → join path a ≡ join path b → a ≡ b
join-injective path a b p q e = elim (Bool-cases (needs_separator path)) [
  | inl o ↦ tail_eq (append-injective path (b'/' ∷ a) (b'/' ∷ b) (rw o at (rw q at (rw p at e))))
  | inr o ↦ append-injective path a b (rw o at (rw q at (rw p at e)))
]
  where
    tail_eq : b'/' ∷ a ≡ b'/' ∷ b → a ≡ b
    tail_eq h = cc

pub create_dir_all-files : (path : Bytes) (d : Disk) → (create_dir_all path d).1.files ≡ d.files
unfolding create_dir_all
create_dir_all-files path d = ground arith

pub create_dir_all-refuse : (path : Bytes) (d : Disk) → (create_dir_all path d).1.refuse ≡ d.refuse
unfolding create_dir_all
create_dir_all-refuse path d = ground arith

pub create_dir_all_ok :
    (path : Bytes) (d : Disk)
    → d.refuse path ≡ none
    → create_dir_all path d ≡ (ok tt, record d { is_dir = λ q. d.is_dir q || is_above q path })
unfolding create_dir_all
create_dir_all_ok path d h = rw (create_dir_all, h) refl

pub write_ok :
    (path contents : Bytes) (d : Disk)
    → d.refuse path ≡ none
    → d.is_dir (parent path) ≡ true
    → write path contents d ≡ (ok tt, record d { files = insert path contents d.files })
unfolding write
write_ok path contents d h k = rw (write, h) (rw k refl)

-- A write that succeeds is read back.
pub lookup-write :
    (path contents : Bytes) (d : Disk)
    → (write path contents d).0 ≡ ok tt
    → lookup path (write path contents d).1.files ≡ some contents
unfolding write
lookup-write path contents d h = ground (arith, lookup-insert_self path contents d.files)

-- No write, successful or not, touches another file.
pub lookup-write_ne :
    (path q contents : Bytes) (d : Disk)
    → q ≢ path
    → lookup q (write path contents d).1.files ≡ lookup q d.files
unfolding write
lookup-write_ne path q contents d ne = ground (arith, lookup-insert_ne path q contents d.files ne)

-- A chain of steps that succeeds is a step that succeeds and the rest from the disk it leaves.
pub and_then_ok {ℓ} :
    {E : Type ℓ} {A B : Type 0} (r : Result E A) (k : A → Fs E B) (d : Disk) {b : B}
    → (and_then r k d).0 ≡ ok b
    → (a : A) × (r ≡ ok a) × (and_then r k d ≡ k a d)
and_then_ok panic k d h = cc
and_then_ok (err failure) k d h = cc
and_then_ok (ok value) k d h = (value, refl, refl)

-- What a chain of steps leaves is what its first step leaves, or what the rest leaves after it.
pub and_then_rule {ℓ κ} :
    {E : Type ℓ} {A B : Type 0} (P : Disk → Type κ) (r : Result E A) (k : A → Fs E B) (d : Disk)
    → P d
    → ((a : A) → P (k a d).1)
    → P (and_then r k d).1
and_then_rule P panic k d h rest = h
and_then_rule P (err failure) k d h rest = h
and_then_rule P (ok value) k d h rest = rest value

pub fail_as_ok :
    {E F A : Type 0} (f : E → F) (r : Result E A) {a : A} → fail_as f r ≡ ok a → r ≡ ok a
fail_as_ok f panic h = cc
fail_as_ok f (err failure) h = cc
fail_as_ok f (ok value) h = cc

pub create_dir_all_allowed :
    (path : Bytes) (d : Disk) → (create_dir_all path d).0 ≡ ok tt → d.refuse path ≡ none
unfolding create_dir_all
create_dir_all_allowed path d h = elim (Option-cases (d.refuse path)) [
  | inl e ↦ e
  | inr (failure, e) ↦ absurd (ground (arith, e))
]

pub write-refuse : (path contents : Bytes) (d : Disk) → (write path contents d).1.refuse ≡ d.refuse
unfolding write
write-refuse path contents d = ground arith

-- The same rule where the rest is known to follow a success.
pub bind_rule {ℓ κ} :
    {E : Type ℓ} {A B : Type 0} (P : Disk → Type κ) (r : Result E A) (k : A → Fs E B) (d : Disk)
    → P d
    → ((a : A) → r ≡ ok a → P (k a d).1)
    → P (and_then r k d).1
bind_rule P panic k d h rest = h
bind_rule P (err failure) k d h rest = h
bind_rule P (ok value) k d h rest = rest value refl

-- A chain that succeeds, in its parts.
pub bind_ok {ℓ} :
    {E : Type ℓ} {A B : Type 0} (first : Fs E A) (rest : A → Fs E B) (d : Disk) {b : B}
    → ((first >>= rest) d).0 ≡ ok b
    → (a : A) × ((first d).0 ≡ ok a)
      × ((rest a (first d).1).0 ≡ ok b)
      × ((first >>= rest) d ≡ rest a (first d).1)
bind_ok first rest d h =
    let (a, done, same) = and_then_ok (first d).0 rest (first d).1 h in
    (a, done, sym (ap (λ r. r.0) same) ∙ h, same)

-- After a step that is known to succeed comes the rest.
pub bind_done {ℓ} :
    {E : Type ℓ} {A B : Type 0} (first : Fs E A) (rest : A → Fs E B) (d : Disk) {a : A} {e : Disk}
    → first d ≡ (ok a, e)
    → (first >>= rest) d ≡ rest a e
bind_done first rest d done = ap (λ r. and_then r.0 rest r.1) done
