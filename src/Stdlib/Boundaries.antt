-- ===== src/Stdlib/Boundaries.antt =====
-- The natives on UTF-8: where the boundaries of characters are.
use nexus_move.Prelude.{
  ℕ, zero, suc, ◌≤◌, ◌≡◌, ◌≢◌, ◌↔◌, ◌⊎◌, refl, sym, ap, ◌∙◌, arith, Bool, true, false, none, some,
  [], ◌∷◌, length, take, drop, get_elem?, Bytes, Bool-cases, Option-cases, ok, inl, inr, ◌==◌, not,
}
use nexus_move.Prelude.Utf8.{
  Utf8State, ready, one, two, three, after_e0, after_ed, after_f0, after_f4, is_continuation,
  utf8_step, utf8_run, is_ready, is_utf8,
}
use nexus_move.Stdlib.{is_boundary, is_char_boundary}

-- Only a continuation byte can come inside a character.
step_inside :
    (state : Utf8State) (b : ℕ) {next : Utf8State}
    → state ≢ ready
    → utf8_step state b ≡ some next
    → is_continuation b ≡ true
unfolding utf8_step
step_inside ready b ne h = absurd (ne refl)
step_inside one b ne h = ground arith
step_inside two b ne h = ground arith
step_inside three b ne h = ground arith
step_inside after_e0 b ne h = ground arith
step_inside after_ed b ne h = ground arith
step_inside after_f0 b ne h = ground arith
step_inside after_f4 b ne h = ground arith

-- No continuation byte begins a character.
step_ready : (b : ℕ) {next : Utf8State} → utf8_step ready b ≡ some next → is_continuation b ≡ false
unfolding utf8_step
step_ready b h = ground arith

abbrev Accepts : Utf8State → Bytes → Type 0
Accepts state s = is_ready (utf8_run state s) ≡ true

-- A text is accepted by its first byte and the rest.
Accepts-cons :
    (state : Utf8State) (b : ℕ) (s : Bytes)
    → Accepts state (b ∷ s)
    → (next : Utf8State) × (utf8_step state b ≡ some next) × Accepts next s
unfolding utf8_run
Accepts-cons state b s h = elim (Option-cases (utf8_step state b)) [
  | inl e ↦ absurd (ground (arith, e))
  | inr (next, e) ↦ (next, e, ground (arith, e))
]

cons_accepts :
    (state next : Utf8State) (b : ℕ) (s : Bytes)
    → utf8_step state b ≡ some next
    → is_ready (utf8_run state (b ∷ s)) ≡ is_ready (utf8_run next s)
unfolding utf8_run
cons_accepts state next b s e = rw (e, utf8_run) refl

state_cases : (state : Utf8State) → (state ≡ ready) ⊎ (state ≢ ready)
state_cases ready = inl refl
state_cases one = inr (λ e. cc)
state_cases two = inr (λ e. cc)
state_cases three = inr (λ e. cc)
state_cases after_e0 = inr (λ e. cc)
state_cases after_ed = inr (λ e. cc)
state_cases after_f0 = inr (λ e. cc)
state_cases after_f4 = inr (λ e. cc)

not_ready : (state : Utf8State) → state ≢ ready → is_ready (some state) ≡ false
not_ready ready ne = absurd (ne refl)
not_ready one ne = refl
not_ready two ne = refl
not_ready three ne = refl
not_ready after_e0 ne = refl
not_ready after_ed ne = refl
not_ready after_f0 ne = refl
not_ready after_f4 ne = refl

-- What `is_boundary` says away from the start.
abbrev boundary_inside : Bytes → ℕ → Bool
boundary_inside s i = elim (get_elem? s i) [
  | none ↦ i == length s
  | some b ↦ not (is_continuation b)
]

-- A text is accepted from a state that is ready exactly if it does not go on with a continuation.
first_byte :
    (state : Utf8State) (b : ℕ) {next : Utf8State}
    → utf8_step state b ≡ some next
    → not (is_continuation b) ≡ is_ready (some state)
first_byte state b e = elim (state_cases state) [
  | inl q ↦ rw q (rw (step_ready b (rw q at e)) refl)
  | inr q ↦ rw (step_inside state b q e) (rw (not_ready state q) refl)
]

-- From any state: a position is a boundary exactly where the bytes before it end a character.
boundary_inside-eq :
    (state : Utf8State) (s : Bytes) (i : ℕ)
    → Accepts state s
    → i ≤ length s
    → boundary_inside s i ≡ is_ready (utf8_run state (take i s))
unfolding utf8_run
boundary_inside-eq state [] zero a h = sym a
boundary_inside-eq state [] (suc i) a h = absurd (omega (arith, h))
boundary_inside-eq state (b ∷ s) zero a h =
    let (next, e, rest) = Accepts-cons state b s a in first_byte state b e
boundary_inside-eq state (b ∷ s) (suc i) a h =
    let (next, e, rest) = Accepts-cons state b s a in
    ground (arith, boundary_inside-eq next s i rest, cons_accepts state next b (take i s) e)

-- What is left after accepted bytes is accepted from the state that they lead to.
drop_accepted :
    (state : Utf8State) (s : Bytes) (i : ℕ)
    → Accepts state s
    → is_ready (utf8_run state (take i s)) ≡ true
    → Accepts ready (drop i s)
unfolding utf8_run
drop_accepted ready s zero a h = a
drop_accepted one s zero a h = cc
drop_accepted two s zero a h = cc
drop_accepted three s zero a h = cc
drop_accepted after_e0 s zero a h = cc
drop_accepted after_ed s zero a h = cc
drop_accepted after_f0 s zero a h = cc
drop_accepted after_f4 s zero a h = cc
drop_accepted state [] (suc i) a h = refl
drop_accepted state (b ∷ s) (suc i) a h =
    let (next, e, rest) = Accepts-cons state b s a in
    drop_accepted next s i rest (sym (cons_accepts state next b (take i s) e) ∙ h)

away_from_start : (s : Bytes) (i : ℕ) → is_boundary s (suc i) ≡ boundary_inside s (suc i)
unfolding is_boundary
away_from_start s i = ground arith

boundary_eq :
    (s : Bytes) (i : ℕ) → is_utf8 s ≡ true → i ≤ length s → is_boundary s i ≡ is_utf8 (take i s)
unfolding is_boundary is_utf8
boundary_eq s zero v h = refl
boundary_eq s (suc i) v h = away_from_start s i ∙ boundary_inside-eq ready s (suc i) v h

inside_within : (s : Bytes) (i : ℕ) → boundary_inside s i ≡ true → i ≤ length s
inside_within [] i h = ground arith
inside_within (b ∷ s) zero h = omega arith
inside_within (b ∷ s) (suc i) h = ground (arith, inside_within s i)

boundary_within : (s : Bytes) (i : ℕ) → is_boundary s i ≡ true → i ≤ length s
boundary_within s zero h = omega arith
boundary_within s (suc i) h = inside_within s (suc i) (sym (away_from_start s i) ∙ h)

boundary_parts :
    (s : Bytes) (i : ℕ)
    → is_utf8 s ≡ true
    → is_boundary s i ≡ true
    → (is_utf8 s ≡ true)
      × (i ≤ length s)
      × (is_utf8 (take i s) ≡ true)
      × (is_utf8 (drop i s) ≡ true)
boundary_parts s i v h =
    let within = boundary_within s i h in
    let before = sym (boundary_eq s i v within) ∙ h in
    (v, within, before, unfold is_utf8 in drop_accepted ready s i v before)

-- A position is a boundary of characters exactly if the string is valid UTF-8 and the position
-- parts it into two strings that are valid UTF-8.
pub is_char_boundary_iff :
    (s : Bytes) (i : ℕ)
    → (is_char_boundary s i ≡ ok true) ↔ (
        (is_utf8 s ≡ true)
        × (i ≤ length s)
        × (is_utf8 (take i s) ≡ true)
        × (is_utf8 (drop i s) ≡ true))
unfolding is_char_boundary
is_char_boundary_iff s i = elim (Bool-cases (is_utf8 s)) [
  | inl v ↦ (
    λ h. boundary_parts s i v (ground (arith, v)),
    λ p. rw v (ap ok (boundary_eq s i v p.1 ∙ p.2)),
  )
  | inr v ↦ (λ h. cc (v, h), λ p. cc (v, p.0))
]
