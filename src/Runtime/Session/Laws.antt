-- ===== src/Runtime/Session/Laws.antt =====
-- What the calls of a session do, and what its commit and its abort give the store.
use mathlib.Core.Path.{subst}
use nexus_move.Prelude.{
  ℕ, ◌+◌, ◌≤◌, ◌<◌, ◌≡◌, refl, sym, ap, ◌∙◌, arith, Option, none, some, [], length, true, false,
  Bytes, ok, err, panic,
}
use nexus_move.Prelude.Orders.{bytes_order, pair_order}
use nexus_move.Prelude.Word.{u64_max, saturating_add, saturating_mul}
use nexus_move.Types.{AccountAddress}
use nexus_move.Runtime.Changes.{Store, apply_changes, Reads}
use nexus_move.Runtime.Data.{VmStatus, VmResult}
use nexus_move.Runtime.Gas.{GasSchedule, charge}
use nexus_move.Runtime.Resources
use nexus_move.Runtime.Resources.{ResourceStore, resource_key, into_changes, overlay_changes}
use nexus_move.Runtime.Resources.Apply.{get-into_changes}
use nexus_move.Runtime.Resources.Laws.{get-set_self}
use nexus_move.Runtime.State.{NexusStateView}
use nexus_move.Runtime.Session.{
  ExecuteSession, SessionKind, read_only, read_only_session, out_of_gas, new_session,
  charge_execution, charge_io, charge_storage, charge_read, read_resource, write_resource,
  is_read_only, commit, abort,
}
use nexus_move.Runtime.Session.Steps.{
  Step, execution, io, storage, read, write, Reach, here, next, Reach-IsValid, new_session-IsValid,
}

same_resources_read :
    (s : ExecuteSession) (r : VmResult (Option Bytes))
    → ((charge_read s r).1.kind ≡ s.kind) × ((charge_read s r).1.resources ≡ s.resources)
unfolding charge_read
same_resources_read s (ok value) = (refl, refl)
same_resources_read s (err e) = (refl, refl)
same_resources_read s panic = (refl, refl)

pub write_resource_read_only :
    (s : ExecuteSession) (a : AccountAddress) (t v : Bytes)
    → is_read_only s.kind ≡ true
    → write_resource s a t v ≡ (err read_only_session, s)
unfolding write_resource
write_resource_read_only s a t v h = rw h

read_only_step :
    {s t : ExecuteSession}
    → Step s t
    → s.kind ≡ read_only
    → (t.kind ≡ read_only) × (t.resources ≡ s.resources)
unfolding charge_execution charge_io charge_storage
read_only_step (execution s amount) h = (h, refl)
read_only_step (io s amount) h = (h, refl)
read_only_step (storage s amount) h = (h, refl)
read_only_step (read s a t) h =
    unfold read_resource in
    (let same = same_resources_read s (Resources.get s.resources a t) in (same.0 ∙ h, same.1))
read_only_step (write s a t v) h =
    rw (write_resource_read_only s a t v (ap is_read_only h)) (h, refl)

read_only-Reach :
    {s t : ExecuteSession}
    → Reach s t
    → s.kind ≡ read_only
    → (t.kind ≡ read_only) × (t.resources ≡ s.resources)
read_only-Reach here h = (h, refl)
read_only-Reach (next r step) h =
    let (kind, same) = read_only-Reach r h in
    let (kind', same') = read_only_step step kind in (kind', same' ∙ same)

-- Whatever calls a read-only session receives, its commit has no writes and no changes.
pub read_only_commit :
    (sender : AccountAddress) (gas_limit : ℕ) (schedule : GasSchedule) (view : NexusStateView)
    (status : VmStatus) {t : ExecuteSession}
    → Reach (new_session read_only sender gas_limit schedule view) t
    → ((commit t status).write_set ≡ []) × ((commit t status).state_changes ≡ [])
unfolding commit new_session
read_only_commit sender gas_limit schedule view status r =
    let same = (read_only-Reach r refl).1 in
    (
      ap (λ (x : ResourceStore). x.overlay) same,
      ap (λ (x : ResourceStore). overlay_changes x.overlay) same,
    )

module _ (s : ExecuteSession) (a : AccountAddress) (t v : Bytes) where
  abbrev cost : ℕ
  cost = saturating_mul (length v) s.schedule.write_per_byte

  -- A write that can be paid succeeds, is read back, and consumes its cost.
  pub write_resource_fits :
      is_read_only s.kind ≡ false
      → s.meter.limit ≤ u64_max
      → s.meter.consumed + cost ≤ s.meter.limit
      → let (r, s') = write_resource s a t v in
        (r ≡ ok tt)
        × (s'.meter.consumed ≡ s.meter.consumed + cost)
        × (Resources.get s'.resources a t ≡ ok (some v))
  unfolding write_resource charge saturating_add
  write_resource_fits k word fits = ground (arith, get-set_self s.resources a t v)

  -- A write that cannot be paid is refused; the meter and the resources stay as they were.
  pub write_resource_exceeds :
      is_read_only s.kind ≡ false
      → s.meter.limit < u64_max
      → s.meter.limit < s.meter.consumed + cost
      → let (r, s') = write_resource s a t v in
        (r ≡ err out_of_gas) × (s'.meter ≡ s.meter) × (s'.resources ≡ s.resources)
  unfolding write_resource charge saturating_add
  write_resource_exceeds k word exceeds = ground arith

charge_read_refused :
    (s : ExecuteSession) (r : VmResult (Option Bytes)) (value : Bytes)
    → r ≡ ok (some value)
    → s.meter.limit < u64_max
    → s.meter.limit < s.meter.consumed + saturating_mul (length value) s.schedule.read_per_byte
    → ((charge_read s r).0 ≡ ok (some value)) × ((charge_read s r).1.meter ≡ s.meter)
unfolding charge_read charge saturating_add
charge_read_refused s (ok (some w)) value e word h = ground arith
charge_read_refused s (ok none) value e word h = cc
charge_read_refused s (err x) value e word h = cc
charge_read_refused s panic value e word h = cc

-- A read whose cost exceeds the limit returns the value all the same, and is not paid for: the
-- meter stays as it was.
pub read_resource_unpaid :
    (s : ExecuteSession) (a : AccountAddress) (t value : Bytes)
    → Resources.get s.resources a t ≡ ok (some value)
    → s.meter.limit < u64_max
    → s.meter.limit < s.meter.consumed + saturating_mul (length value) s.schedule.read_per_byte
    → ((read_resource s a t).0 ≡ ok (some value)) × ((read_resource s a t).1.meter ≡ s.meter)
unfolding read_resource
read_resource_unpaid s a t value e word h =
    charge_read_refused s (Resources.get s.resources a t) value e word h

module _ (kind : SessionKind) (sender : AccountAddress) (gas_limit : ℕ) (schedule : GasSchedule)
    (view : NexusStateView) (status : VmStatus) (word : gas_limit ≤ u64_max) where
  -- After any calls, a commit reports gas within the limit, and its changes, applied to the store
  -- that the session reads, make every resource what the session read for it; an abort reports the
  -- same gas and leaves the store as it is.
  pub commit_or_abort :
      (st : Store) (t : ExecuteSession)
      → Reads view st
      → Reach (new_session kind sender gas_limit schedule view) t
      → ((commit t status).gas_used ≤ gas_limit)
        × ((a : AccountAddress) (tag : Bytes)
            → Resources.get t.resources a tag
              ≡ ok (apply_changes (commit t status).state_changes st (a, resource_key tag)))
        × ((abort t status).gas_used ≡ (commit t status).gas_used)
        × (apply_changes (abort t status).state_changes st ≡ st)
  unfolding commit abort new_session apply_changes
  commit_or_abort st t reads r =
      let start = new_session-IsValid kind sender gas_limit schedule view word in
      let (valid, fixed) = Reach-IsValid r start in
      (
        omega (arith, valid.meter.within, fixed.limit),
        λ a tag.
            get-into_changes t.resources st a tag (subst (λ w. Reads w st) (sym fixed.view) reads)
              valid.sorted,
        refl,
        refl,
      )
