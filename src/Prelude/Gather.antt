-- ===== src/Prelude/Gather.antt =====
-- Loops that gather the results of a fallible step over a list, whatever the list's order.
use mathlib.Core.Path.{◌≡◌, refl, ap, subst, ◌∙◌}
use mathlib.Core.List.{Permᴰ, List, [], ◌∷◌, ◌++◌, append_assoc}
use mathlib.Core.List.Permᴰ
use nexus_move.Prelude.Outcome.{Result, ok, ◌>>=◌, >>=-eq-ok}

ok_injective :
    {E M : Type 0} {xs ys : List M} → ◌≡◌ {A = Result E (List M)} (ok xs) (ok ys) → xs ≡ ys
ok_injective h = cc

permuted_to : {M : Type 0} {ms ns ms' : List M} → Permᴰ ms ns → ms ≡ ms' → Permᴰ ms' ns
permuted_to {ns} p e = subst (λ l. Permᴰ l ns) e p

swapped : {M : Type 0} (a b l : List M) → Permᴰ (a ++ (b ++ l)) (b ++ (a ++ l))
swapped a b l =
    subst (λ s. Permᴰ s (b ++ (a ++ l))) (append_assoc a b l)
      (subst (λ s. Permᴰ ((a ++ b) ++ l) s) (append_assoc b a l)
        (Permᴰ.append_right l (Permᴰ.append_comm a b)))

both : {M : Type 0} {a b c d : List M} → Permᴰ a b → Permᴰ c d → Permᴰ (a ++ c) (b ++ d)
both {b} {c} p q = Permᴰ.trans (Permᴰ.append_right c p) (Permᴰ.append_left b q)

module _ {E A M : Type 0} where
  -- `for x in xs { all.extend(step(x)?) }`
  unfoldable pub gather : (A → Result E (List M)) → List A → Result E (List M)
  gather step [] = ok []
  gather step (x ∷ xs) =
      let rest = gather step xs in step x >>= λ some_. rest >>= λ others. ok (some_ ++ others)

  gather_parts :
      (step : A → Result E (List M)) (x : A) (xs : List A) (all : List M)
      → gather step (x ∷ xs) ≡ ok all
      → (first : List M) × (others : List M) × (step x ≡ ok first)
        × (gather step xs ≡ ok others)
        × (first ++ others ≡ all)
  unfolding gather
  gather_parts step x xs all h =
      let (first, done, h₁) = >>=-eq-ok (step x) _ h in
      let (others, rest, h₂) = >>=-eq-ok (gather step xs) _ h₁ in
      (first, others, done, rest, ok_injective h₂)

  gather_from :
      (step : A → Result E (List M)) (x : A) (xs : List A) (first others : List M)
      → step x ≡ ok first
      → gather step xs ≡ ok others
      → gather step (x ∷ xs) ≡ ok (first ++ others)
  unfolding gather
  gather_from step x xs first others h k = rw h (rw k refl)

  -- The step `g` gives what `f` gives, in some order.
  abbrev pub Follows : (A → Result E (List M)) → (A → Result E (List M)) → Type 0
  Follows f g = (x : A) (ms : List M) → f x ≡ ok ms → (ns : List M) × (g x ≡ ok ns) × Permᴰ ms ns

  gather_same :
      (f g : A → Result E (List M)) (xs : List A) (ms : List M)
      → Follows f g
      → gather f xs ≡ ok ms
      → (ns : List M) × (gather g xs ≡ ok ns) × Permᴰ ms ns
  unfolding gather
  gather_same f g [] ms follows h = ([], refl, permuted_to Permᴰ.nil (ok_injective h))
  gather_same f g (x ∷ xs) ms follows h =
      let (first, others, done, rest, same) = gather_parts f x xs ms h in
      let (first', done', p) = follows x first done in
      let (others', rest', q) = gather_same f g xs others follows rest in
      (
        first' ++ others',
        gather_from g x xs first' others' done' rest',
        permuted_to (both p q) same,
      )

  gather_swapped :
      (f : A → Result E (List M)) (x y : A) (xs : List A) (ms : List M)
      → gather f (x ∷ y ∷ xs) ≡ ok ms
      → (ns : List M) × (gather f (y ∷ x ∷ xs) ≡ ok ns) × Permᴰ ms ns
  gather_swapped f x y xs ms h =
      let (first, others, done, rest, same) = gather_parts f x (y ∷ xs) ms h in
      let (second, last, done', rest', same') = gather_parts f y xs others rest in
      (
        second ++ (first ++ last),
        gather_from f y (x ∷ xs) second (first ++ last) done'
            (gather_from f x xs first last done rest'),
        permuted_to (swapped first second last) (ap (λ l. first ++ l) same' ∙ same),
      )

  gather_permuted :
      (f : A → Result E (List M)) {xs ys : List A} (p : Permᴰ xs ys) (ms : List M)
      → gather f xs ≡ ok ms
      → (ns : List M) × (gather f ys ≡ ok ns) × Permᴰ ms ns
  gather_permuted f Permᴰ.nil ms h = (ms, h, Permᴰ.refl ms)
  gather_permuted f (Permᴰ.cons {a = a} {b = b} {l₁ = l₁} {l₂ = l₂} e p) ms h =
      let (first, others, done, rest, same) = gather_parts f a l₁ ms h in
      let (others', rest', q) = gather_permuted f p others rest in
      (
        first ++ others',
        gather_from f b l₂ first others' (subst (λ x. f x ≡ ok first) e done) rest',
        permuted_to (both (Permᴰ.refl first) q) same,
      )
  gather_permuted f (Permᴰ.swap {a = a} {b = b} {a' = a'} {b' = b'} {l = l} e k) ms h =
      subst (λ x. (ns : List M) × (gather f (x ∷ b' ∷ l) ≡ ok ns) × Permᴰ ms ns) k
        (subst (λ x. (ns : List M) × (gather f (b ∷ x ∷ l) ≡ ok ns) × Permᴰ ms ns) e
          (gather_swapped f a b l ms h))
  gather_permuted f (Permᴰ.trans p q) ms h =
      let (ns, k, r) = gather_permuted f p ms h in
      let (os, k', r') = gather_permuted f q ns k in (os, k', Permᴰ.trans r r')

  -- Another order of the list, and a step that follows, gather the same in another order.
  pub gather_rearranged :
      (f g : A → Result E (List M)) {xs ys : List A} (ms : List M)
      → Follows f g
      → Permᴰ xs ys
      → gather f xs ≡ ok ms
      → (ns : List M) × (gather g ys ≡ ok ns) × Permᴰ ms ns
  gather_rearranged f g {ys} ms follows p h =
      let (ns, k, q) = gather_permuted f p ms h in
      let (os, k', q') = gather_same f g ys ns follows k in (os, k', Permᴰ.trans q q')
