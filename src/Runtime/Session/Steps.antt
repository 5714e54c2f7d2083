-- ===== src/Runtime/Session/Steps.antt =====
-- The life of a session as a step relation: the calls that a client can make on it, in any order,
-- with any arguments and whatever they return.
use nexus_move.Prelude.{
  ℕ, ◌≤◌, ◌≡◌, refl, ◌∙◌, arith, Option, inl, inr, length, Bool-cases, Bytes, Result, ok, err,
  panic,
}
use nexus_move.Prelude.Map.{IsSorted}
use nexus_move.Prelude.Orders.{bytes_order, pair_order}
use nexus_move.Prelude.Word.{u64_max, saturating_add, saturating_mul}
use nexus_move.Types.{AccountAddress}
use nexus_move.Runtime.Data.{VmResult}
use nexus_move.Runtime.Gas.{GasSchedule, charge}
use nexus_move.Runtime.Gas.Meter.{IsBounded}
use nexus_move.Runtime.Resources
use nexus_move.Runtime.Resources.Apply.{set-IsSorted}
use nexus_move.Runtime.State.{NexusStateView}
use nexus_move.Runtime.Session.{
  ExecuteSession, SessionKind, total, new_session, charge_execution, charge_io, charge_storage,
  charge_read, read_resource, write_charged, write_resource, is_read_only, WriteError,
}

pub data Step : ExecuteSession → ExecuteSession → Type 0 where
  execution : (s : ExecuteSession) (amount : ℕ) → Step s (charge_execution s amount).1
  io : (s : ExecuteSession) (amount : ℕ) → Step s (charge_io s amount).1
  storage : (s : ExecuteSession) (amount : ℕ) → Step s (charge_storage s amount).1
  read : (s : ExecuteSession) (a : AccountAddress) (t : Bytes) → Step s (read_resource s a t).1
  write :
      (s : ExecuteSession) (a : AccountAddress) (t v : Bytes) → Step s (write_resource s a t v).1

pub data Reach (s : ExecuteSession) : ExecuteSession → Type 0 where
  here : Reach s s
  next : {t u : ExecuteSession} → Reach s t → Step t u → Reach s u

-- What holds between the calls: the meter is within its limit, the overlay is in order, and the
-- summary accounts for all that the meter has consumed.
pub record IsValid (s : ExecuteSession) : Type 0 where
  pub meter : IsBounded s.meter
  pub sorted : IsSorted s.resources.overlay
  pub accounted : s.meter.consumed ≤ total s.gas_summary

-- What no call changes.
pub record Fixed (s t : ExecuteSession) : Type 0 where
  pub kind : t.kind ≡ s.kind
  pub limit : t.meter.limit ≡ s.meter.limit
  pub view : t.resources.view ≡ s.resources.view
  pub schedule : t.schedule ≡ s.schedule
  pub sender : t.sender ≡ s.sender
  pub monotone : s.meter.consumed ≤ t.meter.consumed

abbrev Preserves : ExecuteSession → ExecuteSession → Type 0
Preserves s t = IsValid t × Fixed s t

execution_step :
    (s : ExecuteSession) (amount : ℕ) → IsValid s → Preserves s (charge_execution s amount).1
unfolding charge_execution total charge saturating_add
execution_step s amount h = (
  record {
    meter = record { within = ground arith; word = ground arith };
    sorted = h.sorted;
    accounted = ground arith;
  },
  record {
    kind = refl;
    limit = ground arith;
    view = refl;
    schedule = refl;
    sender = refl;
    monotone = ground arith;
  },
)

io_step : (s : ExecuteSession) (amount : ℕ) → IsValid s → Preserves s (charge_io s amount).1
unfolding charge_io total charge saturating_add
io_step s amount h = (
  record {
    meter = record { within = ground arith; word = ground arith };
    sorted = h.sorted;
    accounted = ground arith;
  },
  record {
    kind = refl;
    limit = ground arith;
    view = refl;
    schedule = refl;
    sender = refl;
    monotone = ground arith;
  },
)

storage_step :
    (s : ExecuteSession) (amount : ℕ) → IsValid s → Preserves s (charge_storage s amount).1
unfolding charge_storage total charge saturating_add
storage_step s amount h = (
  record {
    meter = record { within = ground arith; word = ground arith };
    sorted = h.sorted;
    accounted = ground arith;
  },
  record {
    kind = refl;
    limit = ground arith;
    view = refl;
    schedule = refl;
    sender = refl;
    monotone = ground arith;
  },
)

Preserves-refl : (s : ExecuteSession) → IsValid s → Preserves s s
Preserves-refl s h = (
  h,
  record {
    kind = refl;
    limit = refl;
    view = refl;
    schedule = refl;
    sender = refl;
    monotone = omega arith;
  },
)

read_step :
    (s : ExecuteSession) (r : VmResult (Option Bytes)) → IsValid s → Preserves s (charge_read s r).1
unfolding charge_read
read_step s (ok value) h = io_step s _ h
read_step s (err e) h = Preserves-refl s h
read_step s panic h = Preserves-refl s h

written_step :
    (s t : ExecuteSession) (a : AccountAddress) (key v : Bytes) (r : Result WriteError (Unit {0}))
    → Preserves s t
    → Preserves s (write_charged a key v (r, t)).1
unfolding write_charged
written_step s t a key v (ok x) (valid, fixed) = (
  record {
    meter = valid.meter;
    sorted = set-IsSorted t.resources a key v valid.sorted;
    accounted = valid.accounted;
  },
  record {
    kind = fixed.kind;
    limit = fixed.limit;
    view = unfold Resources.set in fixed.view;
    schedule = fixed.schedule;
    sender = fixed.sender;
    monotone = fixed.monotone;
  },
)
written_step s t a key v (err e) p = p
written_step s t a key v panic p = p

write_step :
    (s : ExecuteSession) (a : AccountAddress) (t v : Bytes)
    → IsValid s
    → Preserves s (write_resource s a t v).1
unfolding write_resource
write_step s a t v h = elim (Bool-cases (is_read_only s.kind)) [
  | inl e ↦ rw e (Preserves-refl s h)
  | inr e ↦ rw e (
      let cost = saturating_mul (length v) s.schedule.write_per_byte in
      written_step s (charge_storage s cost).1 a t v (charge_storage s cost).0
        (storage_step s cost h))
]

pub Step-Preserves : {s t : ExecuteSession} → Step s t → IsValid s → IsValid t × Fixed s t
Step-Preserves (execution s amount) h = execution_step s amount h
Step-Preserves (io s amount) h = io_step s amount h
Step-Preserves (storage s amount) h = storage_step s amount h
Step-Preserves (read s a t) h =
    unfold read_resource in read_step s (Resources.get s.resources a t) h
Step-Preserves (write s a t v) h = write_step s a t v h

-- Every session that calls lead to from a valid one is valid, keeps its kind, sender, limit,
-- schedule and state, and has consumed no less: the meter stays within its limit, the overlay in
-- key order, and the summary's total at or above what the meter consumed.
pub Reach-IsValid : {s t : ExecuteSession} → Reach s t → IsValid s → IsValid t × Fixed s t
Reach-IsValid {s} here h = Preserves-refl s h
Reach-IsValid (next r step) h =
    let (valid, fixed) = Reach-IsValid r h in
    let (valid', fixed') = Step-Preserves step valid in
    (
      valid',
      record {
        kind = fixed'.kind ∙ fixed.kind;
        limit = fixed'.limit ∙ fixed.limit;
        view = fixed'.view ∙ fixed.view;
        schedule = fixed'.schedule ∙ fixed.schedule;
        sender = fixed'.sender ∙ fixed.sender;
        monotone = omega (arith, fixed.monotone, fixed'.monotone);
      },
    )

pub new_session-IsValid :
    (kind : SessionKind) (sender : AccountAddress) (gas_limit : ℕ) (schedule : GasSchedule)
    (view : NexusStateView)
    → gas_limit ≤ u64_max
    → IsValid (new_session kind sender gas_limit schedule view)
unfolding new_session
new_session-IsValid kind sender gas_limit schedule view h = record {
  meter = record { within = omega arith; word = h };
  sorted = tt;
  accounted = omega arith;
}
