-- ===== src/Runtime/Gas/Meter.antt =====
-- `SimpleGasMeter` keeps its bound, and meets the interface of a meter.
use nexus_move.Prelude.{ℕ, ◌+◌, ◌-◌, ◌≤◌, ◌<◌, ◌≡◌, refl, arith, ok, err}
use nexus_move.Prelude.Word.{u64_max, saturating_add, saturating_sub}
use nexus_move.Runtime.Gas.{GasExhausted, SimpleGasMeter, remaining, charge}
use nexus_move.Runtime.Metering.{GasMeter}

-- The bound of a meter between calls.
pub record IsBounded (m : SimpleGasMeter) : Type 0 where
  pub within : m.consumed ≤ m.limit
  pub word : m.limit ≤ u64_max

-- A charge, accepted or refused, keeps the bound and the limit; an accepted one never lowers what
-- is consumed, and a refused one leaves the meter as it was.
pub charge-IsBounded :
    (m : SimpleGasMeter) (amount : ℕ)
    → IsBounded m
    → IsBounded (charge m amount).1
      × ((charge m amount).1.limit ≡ m.limit)
      × (m.consumed ≤ (charge m amount).1.consumed)
unfolding charge saturating_add
charge-IsBounded m amount h = ground arith

abbrev pub exhausted : SimpleGasMeter → ℕ → GasExhausted
exhausted m amount = record { needed = amount; available = remaining m }

pub remaining_lem : (m : SimpleGasMeter) → remaining m ≡ m.limit - m.consumed
unfolding remaining saturating_sub
remaining_lem m = refl

module _ (m : SimpleGasMeter) (amount : ℕ) where
  pub charge_fits : m.limit ≤ u64_max → m.consumed + amount ≤ m.limit → (charge m amount).0 ≡ ok tt
  unfolding charge saturating_add
  charge_fits word h = ground arith

  pub charge_exceeds :
      m.limit < u64_max
      → m.limit < m.consumed + amount
      → charge m amount ≡ (err (exhausted m amount), m)
  unfolding charge saturating_add
  charge_exceeds word h = ground arith

  pub consumed-charge :
      m.limit ≤ u64_max
      → m.consumed + amount ≤ m.limit
      → (charge m amount).1.consumed ≡ m.consumed + amount
  unfolding charge saturating_add
  consumed-charge word h = ground arith

  pub limit-charge : (charge m amount).1.limit ≡ m.limit
  unfolding charge
  limit-charge = ground arith

  pub charge_bounded : m.consumed ≤ m.limit → (charge m amount).1.consumed ≤ m.limit
  unfolding charge saturating_add
  charge_bounded h = ground arith

-- With the largest limit no charge is refused, however much has been consumed: the saturated sum
-- is never above the limit.
pub charge_unlimited :
    (m : SimpleGasMeter) (amount : ℕ) → m.limit ≡ u64_max → (charge m amount).0 ≡ ok tt
unfolding charge saturating_add
charge_unlimited m amount h = ground arith

unfoldable pub simple_meter : GasMeter SimpleGasMeter GasExhausted
simple_meter = record {
  charge = charge;
  remaining = remaining;
  consumed = λ m. m.consumed;
  limit = λ m. m.limit;
  exhausted = exhausted;
  remaining_lem = remaining_lem;
  charge_fits = charge_fits;
  charge_exceeds = charge_exceeds;
  consumed-charge = consumed-charge;
  limit-charge = limit-charge;
  charge_bounded = charge_bounded;
}
