-- ===== src/Package/Toml/Printing.antt =====
-- A manifest that is written with a name and addresses is read back.
use nexus_move.Prelude.{
  ℕ, ◌≡◌, ◌≢◌, refl, sym, ap, ◌∙◌, arith, Bool, true, false, not, ◌||◌, some, [], ◌∷◌, ◌++◌, ◌==◌,
  is_empty, All, Bytes, ascii,
}
use nexus_move.Package.{is_space, trim_start, trim_end, trim, trim_quotes, split_once}
use nexus_move.Package.Names.{split_once_lem}
use nexus_move.Package.Toml.{before, lines, last_is, content}

-- A byte that stands for itself in a name.
abbrev pub is_plain : ℕ → Bool
is_plain b = not (is_space b || (b == b'#') || (b == b'=') || (b == b'"') || (b == b'['))

abbrev pub IsPlain : Bytes → Type 0
IsPlain s = (s ≢ []) × All (λ b. is_plain b ≡ true) s

-- `key = "value"`
abbrev pub print_entry : Bytes → Bytes → Bytes
print_entry key value = key ++ (ascii " = \"" ++ (value ++ b'"' ∷ []))

All-append : (P : ℕ → Type 0) (s t : Bytes) → All P s → All P t → All P (s ++ t)
All-append P [] t a b = b
All-append P (x ∷ s) t a b = (a.0, All-append P s t a.1 b)

All-weaken : {P Q : ℕ → Type 0} (f : (b : ℕ) → P b → Q b) (s : Bytes) → All P s → All Q s
All-weaken f [] a = tt
All-weaken f (x ∷ s) a = (f x a.0, All-weaken f s a.1)

pub lines-line : (l s : Bytes) → All (λ b. b ≢ b'\n') l → lines (l ++ b'\n' ∷ s) ≡ l ∷ lines s
unfolding lines
lines-line [] s a = refl
lines-line (b ∷ l) s a = rw (lines-line l s a.1) (ground (arith, a.0))

before-All : (c : ℕ) (s : Bytes) → All (λ b. b ≢ c) s → before c s ≡ s
unfolding before
before-All c [] a = refl
before-All c (b ∷ s) a = rw (before-All c s a.1) (ground (arith, a.0))

append_nonempty : (s : Bytes) (c : ℕ) → is_empty (s ++ c ∷ []) ≡ false
append_nonempty [] c = refl
append_nonempty (b ∷ s) c = refl

module _ (skip : ℕ → Bool) where
  trim_end_kept : (s : Bytes) (c : ℕ) → skip c ≡ false → trim_end skip (s ++ c ∷ []) ≡ s ++ c ∷ []
  unfolding trim_end
  trim_end_kept [] c h = ground (arith, h)
  trim_end_kept (b ∷ s) c h = rw (trim_end_kept s c h) (ground (arith, append_nonempty s c))

  trim_end_dropped :
      (s : Bytes) (c : ℕ)
      → skip c ≡ true
      → All (λ b. skip b ≡ false) s
      → trim_end skip (s ++ c ∷ []) ≡ s
  unfolding trim_end
  trim_end_dropped [] c h a = ground (arith, h)
  trim_end_dropped (b ∷ s) c h a = rw (trim_end_dropped s c h a.1) (rw a.0 refl)

  trim_start_kept : (b : ℕ) (s : Bytes) → skip b ≡ false → trim_start skip (b ∷ s) ≡ b ∷ s
  unfolding trim_start
  trim_start_kept b s h = rw h refl

++-assoc : (xs ys zs : Bytes) → (xs ++ ys) ++ zs ≡ xs ++ (ys ++ zs)
++-assoc [] ys zs = refl
++-assoc (x ∷ xs) ys zs = ap (λ s. x ∷ s) (++-assoc xs ys zs)

last_is-append : (c d : ℕ) (s : Bytes) → last_is c (s ++ d ∷ []) ≡ (d == c)
last_is-append c d [] = refl
last_is-append c d (a ∷ []) = refl
last_is-append c d (a ∷ b ∷ s) = last_is-append c d (b ∷ s)

-- A byte that stands for itself between quotes.
abbrev pub is_quotable : ℕ → Bool
is_quotable b = not ((b == b'\n') || (b == b'#') || (b == b'"'))

abbrev pub IsValue : Bytes → Type 0
IsValue s = (s ≢ []) × All (λ b. is_quotable b ≡ true) s

module _ (key value : Bytes) (plain : IsPlain key) (quotable : IsValue value) where
  equals : Bytes
  equals = ascii " = \""

  entry_All :
      (P : ℕ → Type 0)
      → ((b : ℕ) → is_plain b ≡ true → P b)
      → ((b : ℕ) → is_quotable b ≡ true → P b)
      → All P (ascii " = \"")
      → P b'"'
      → All P (print_entry key value)
  entry_All P f g middle quote =
      All-append P key (ascii " = \"" ++ (value ++ b'"' ∷ [])) (All-weaken f key plain.1) (
        All-append P (ascii " = \"") (value ++ b'"' ∷ []) middle
          (All-append P value (b'"' ∷ []) (All-weaken g value quotable.1) (quote, tt)))

  pub entry_one_line : All (λ b. b ≢ b'\n') (print_entry key value)
  entry_one_line =
      entry_All (λ b. b ≢ b'\n') (λ b h. ground arith) (λ b h. ground arith) (omega arith)
        (omega arith)

  entry_no_comment : before b'#' (print_entry key value) ≡ print_entry key value
  entry_no_comment = before-All b'#' (print_entry key value) (
      entry_All (λ b. b ≢ b'#') (λ b h. ground arith) (λ b h. ground arith) (omega arith)
        (omega arith))

  pub entry_parts :
      split_once b'=' (print_entry key value)
      ≡ some (key ++ b' ' ∷ [], b' ' ∷ b'"' ∷ (value ++ b'"' ∷ []))
  entry_parts =
      ap (split_once b'=')
        (sym (++-assoc key (b' ' ∷ []) (b'=' ∷ b' ' ∷ b'"' ∷ (value ++ b'"' ∷ []))))
      ∙ split_once_lem b'=' (key ++ b' ' ∷ []) (b' ' ∷ b'"' ∷ (value ++ b'"' ∷ [])) (
          All-append (λ b. b ≢ b'=') key (b' ' ∷ []) (All-weaken (λ b h. ground arith) key plain.1)
            (omega arith))

  pub trim_value : trim (b' ' ∷ b'"' ∷ (value ++ b'"' ∷ [])) ≡ b'"' ∷ (value ++ b'"' ∷ [])
  unfolding trim trim_start
  trim_value = trim_end_kept is_space (b'"' ∷ value) b'"' refl

pub trim_key : (key : Bytes) → IsPlain key → trim (key ++ b' ' ∷ []) ≡ key
unfolding trim
trim_key [] plain = absurd (plain.0 refl)
trim_key (b ∷ key) plain =
    rw (trim_start_kept is_space b (key ++ b' ' ∷ []) (ground (arith, plain.1.0))) (
      trim_end_dropped is_space (b ∷ key) b' ' refl
        (All-weaken (λ c h. ground arith) (b ∷ key) plain.1))

pub unquote : (value : Bytes) → IsValue value → trim_quotes (b'"' ∷ (value ++ b'"' ∷ [])) ≡ value
unfolding trim_quotes trim_start
unquote [] h = absurd (h.0 refl)
unquote (c ∷ value) h =
    rw (trim_start_kept (λ b. b == b'"') c (value ++ b'"' ∷ []) (ground (arith, h.1.0))) (
      trim_end_dropped (λ b. b == b'"') (c ∷ value) b'"' refl
        (All-weaken (λ d k. ground arith) (c ∷ value) h.1))

trim_line : (key value : Bytes) → IsPlain key → trim (print_entry key value) ≡ print_entry key value
unfolding trim
trim_line [] value plain = absurd (plain.0 refl)
trim_line (b ∷ key) value plain =
    rw (trim_start_kept is_space b (print_entry key value) (ground (arith, plain.1.0))) (
      ap (trim_end is_space) (sym whole)
      ∙ trim_end_kept is_space ((b ∷ key) ++ (ascii " = \"" ++ value)) b'"' refl
      ∙ whole)
  where
    whole : ((b ∷ key) ++ (ascii " = \"" ++ value)) ++ b'"' ∷ [] ≡ print_entry (b ∷ key) value
    whole =
        ++-assoc (b ∷ key) (ascii " = \"" ++ value) (b'"' ∷ [])
        ∙ ap (λ t. (b ∷ key) ++ t) (++-assoc (ascii " = \"") value (b'"' ∷ []))

pub content_entry :
    (key value : Bytes)
    → IsPlain key
    → IsValue value
    → content (print_entry key value) ≡ print_entry key value
unfolding content
content_entry key value plain quotable =
    ap trim (entry_no_comment key value plain quotable) ∙ trim_line key value plain
