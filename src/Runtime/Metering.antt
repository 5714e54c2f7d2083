-- ===== src/Runtime/Metering.antt =====
-- What the two gas meters of the runtime share: gas.rs and move_gas_meter.rs both charge against
-- a limit, with their own errors. A client takes the interface.
use nexus_move.Prelude.{
  ℕ, ◌+◌, ◌-◌, ◌≤◌, ◌<◌, ◌≡◌, refl, ap, ◌∙◌, ◌⊎◌, List, [], ◌∷◌, arith, Result, ok, err, panic, inl,
  inr, leb, ◌++◌, Bool-cases,
}
use nexus_move.Prelude.Word.{u64_max}

-- `trait GasMeter`, with the laws that every use of a meter relies on. `M` is the meter's state
-- and `E` its error.
pub record GasMeter (M E : Type 0) : Type 0 where
  pub charge : M → ℕ → Result E (Unit {0}) × M
  pub remaining : M → ℕ
  pub consumed : M → ℕ
  pub limit : M → ℕ
  pub exhausted : M → ℕ → E
  pub remaining_lem : (m : M) → remaining m ≡ limit m - consumed m
  pub charge_fits :
      (m : M) (amount : ℕ)
      → limit m ≤ u64_max
      → consumed m + amount ≤ limit m
      → (charge m amount).0 ≡ ok tt
  pub charge_exceeds :
      (m : M) (amount : ℕ)
      → limit m < u64_max
      → limit m < consumed m + amount
      → charge m amount ≡ (err (exhausted m amount), m)
  pub consumed-charge :
      (m : M) (amount : ℕ)
      → limit m ≤ u64_max
      → consumed m + amount ≤ limit m
      → consumed (charge m amount).1 ≡ consumed m + amount
  pub limit-charge : (m : M) (amount : ℕ) → limit (charge m amount).1 ≡ limit m
  pub charge_bounded :
      (m : M) (amount : ℕ) → consumed m ≤ limit m → consumed (charge m amount).1 ≤ limit m

abbrev pub sum : List ℕ → ℕ
sum [] = 0
sum (x ∷ xs) = x + sum xs

module _ {M E : Type 0} (g : GasMeter M E) where
  open g use {charge, consumed, limit, exhausted}

  -- Charges in a row, up to the first refusal.
  pub charge_all : M → List ℕ → Result E (Unit {0}) × M
  charge_all m [] = (ok tt, m)
  charge_all m (amount ∷ amounts) =
      let (r, m') = charge m amount in
      let rest = charge_all m' amounts in
      elim r [ ok _ ↦ rest | err e ↦ (err e, m') | panic ↦ (panic, m') ]

  charge_all-cons :
      (m : M) (x : ℕ) (xs : List ℕ)
      → (charge m x).0 ≡ ok tt
      → charge_all m (x ∷ xs) ≡ charge_all (charge m x).1 xs
  unfolding charge_all
  charge_all-cons m x xs h = rw (h, charge_all)

  charge_all-cons_err :
      (m : M) (x : ℕ) (xs : List ℕ)
      → charge m x ≡ (err (exhausted m x), m)
      → charge_all m (x ∷ xs) ≡ (err (exhausted m x), m)
  unfolding charge_all
  charge_all-cons_err m x xs h =
      rw (ap (λ t. t.0) h, charge_all) (ap (λ t. (err (exhausted m x), t.1)) h)

  charge_all_fits :
      (m : M) (amounts : List ℕ)
      → limit m ≤ u64_max
      → consumed m + sum amounts ≤ limit m
      → ((charge_all m amounts).0 ≡ ok tt)
        × (consumed (charge_all m amounts).1 ≡ consumed m + sum amounts)
  unfolding charge_all
  charge_all_fits m [] word h = (refl, omega arith)
  charge_all_fits m (x ∷ xs) word h =
      let m' = (charge m x).1 in
      let c : consumed m' ≡ consumed m + x = g.consumed-charge m x word (omega arith) in
      let ih =
        charge_all_fits m' xs (omega (arith, g.limit-charge m x))
          (omega (arith, c, g.limit-charge m x)) in
      rw (charge_all-cons m x xs (g.charge_fits m x word (omega arith)))
        (ih.0, omega (arith, ih.1, c))

  -- The charges before the first that does not fit, that charge, and the meter they leave.
  pub record StopsAt (m : M) (amounts : List ℕ) : Type 0 where
    pub before : List ℕ
    pub refused : ℕ
    pub after : List ℕ
    pub meter : M
    pub split : amounts ≡ before ++ refused ∷ after
    pub fits : consumed m + sum before ≤ limit m
    pub exceeds : limit m < consumed m + sum before + refused
    pub left : consumed meter ≡ consumed m + sum before
    pub stopped : charge_all m amounts ≡ (err (exhausted meter refused), meter)

  charge_all-StopsAt :
      (m : M) (amounts : List ℕ)
      → limit m < u64_max
      → consumed m ≤ limit m
      → limit m < consumed m + sum amounts
      → StopsAt m amounts
  unfolding charge_all
  charge_all-StopsAt m [] word b h = absurd (omega arith)
  charge_all-StopsAt m (x ∷ xs) word b h = elim (Bool-cases (leb (consumed m + x) (limit m))) [
    | inl e ↦
        let m' = (charge m x).1 in
        let fits : consumed m + x ≤ limit m = ground arith in
        let c : consumed m' ≡ consumed m + x = g.consumed-charge m x (omega arith) fits in
        let l : limit m' ≡ limit m = g.limit-charge m x in
        let ih =
          charge_all-StopsAt m' xs (omega (arith, l)) (omega (arith, c, l)) (omega (arith, c, l)) in
        record {
          before = x ∷ ih.before;
          refused = ih.refused;
          after = ih.after;
          meter = ih.meter;
          split = ap (λ t. x ∷ t) ih.split;
          fits = omega (arith, ih.fits, c, l);
          exceeds = omega (arith, ih.exceeds, c, l);
          left = omega (arith, ih.left, c);
          stopped = charge_all-cons m x xs (g.charge_fits m x (omega arith) fits) ∙ ih.stopped;
        }
    | inr e ↦
        let big : limit m < consumed m + x = ground arith in
        record {
          before = [];
          refused = x;
          after = xs;
          meter = m;
          split = refl;
          fits = omega arith;
          exceeds = omega arith;
          left = omega arith;
          stopped = charge_all-cons_err m x xs (g.charge_exceeds m x word big);
        }
  ]

  -- A row of charges on a meter whose limit is below the largest word succeeds when the sum fits,
  -- and then exactly the sum is consumed; else it stops at the first charge that does not fit,
  -- with the meter at the sum of the charges before it.
  pub charge_all_exact :
      (m : M) (amounts : List ℕ)
      → limit m < u64_max
      → consumed m ≤ limit m
      → ((consumed m + sum amounts ≤ limit m)
          × ((charge_all m amounts).0 ≡ ok tt)
          × (consumed (charge_all m amounts).1 ≡ consumed m + sum amounts))
        ⊎ StopsAt m amounts
  charge_all_exact m amounts word b = elim (Bool-cases (leb (consumed m + sum amounts) (limit m))) [
    | inl e ↦
        let fits : consumed m + sum amounts ≤ limit m = ground arith in
        inl (
          fits,
          (charge_all_fits m amounts (omega arith) fits).0,
          (charge_all_fits m amounts (omega arith) fits).1,
        )
    | inr e ↦ inr (charge_all-StopsAt m amounts word b (ground arith))
  ]
