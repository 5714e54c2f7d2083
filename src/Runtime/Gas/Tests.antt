-- ===== src/Runtime/Gas/Tests.antt =====
-- The simple meter on concrete values.
use nexus_move.Prelude.{◌≡◌, refl, err}
use nexus_move.Prelude.Word.{saturating_add, saturating_sub}
use nexus_move.Runtime.Gas.{SimpleGasMeter, charge}

abbrev meter : SimpleGasMeter
meter = record { limit = 100; consumed = 90 }

refuses : charge meter 11 ≡ (err (record { needed = 11; available = 10 }), meter)
unfolding charge saturating_add saturating_sub
refuses = refl
