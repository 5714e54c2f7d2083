-- ===== src/Runtime/Backend/Published.antt =====
-- The outcomes of a publication through the Move VM: whose slots it writes, which modules it
-- replaces, and when it is refused.
use mathlib.Core.Path.{subst}
use nexus_move.Prelude.{
  ℕ, ◌≤◌, ◌≡◌, ◌⊎◌, refl, sym, ap, ◌∙◌, arith, List, [], ◌∷◌, inl, inr, All, Bytes, bytes_eq_iff,
  ok, >>=-eq-ok,
}
use nexus_move.Types.{AccountAddress}
use nexus_move.Runtime.Changes.{Agrees, Agrees-nil}
use nexus_move.Runtime.Data.{ModulePublish, VmOutput, success}
use nexus_move.Runtime.Gas.{GasSchedule, clamp_gas_to_limit}
use nexus_move.Runtime.Publisher.{Writes}
use nexus_move.Runtime.State.{NexusStateView}
use nexus_move.Runtime.Backend.{MoveEnv}
use nexus_move.Runtime.Backend.Publish.{
  rejection, check_sender, Progress, refused, written, publish_module, publish_each, publish_output,
  publish_modules,
}
use nexus_move.Runtime.Backend.Upgrades.{
  AllAt, AreWrites, module_writes-AreWrites, ok_injective, written_injective, Accepted,
  publish_module_written,
}

module _ (env : MoveEnv) (schedule : GasSchedule) (state : NexusStateView)
    (request : ModulePublish) where
  pub each_written :
      (b : Bytes) (bs : List Bytes) (w w' : Writes) (p : Progress env schedule)
      → elim p [
        | refused n ↦ ok (refused n)
        | written x ↦ publish_each env schedule state request bs x
      ]
        ≡ ok (written w')
      → (x : Writes) × (p ≡ written x)
        × (publish_each env schedule state request bs x ≡ ok (written w'))
  each_written b bs w w' (refused n) h = cc
  each_written b bs w w' (written x) h = (x, refl, h)

  publish_each_written :
      (bs : List Bytes) (w w' : Writes)
      → publish_each env schedule state request bs w ≡ ok (written w')
      → AreWrites request.sender w
      → AreWrites request.sender w' × All (λ b. Accepted env schedule state request.sender b) bs
  unfolding publish_each
  publish_each_written [] w w' h a =
      (subst (AreWrites request.sender) (written_injective env schedule state request w w' h) a, tt)
  publish_each_written (b ∷ bs) w w' h a =
      let (p, first, rest) = >>=-eq-ok (publish_module env schedule state request b w) _ h in
      let (x, same, others) = each_written b bs w w' p rest in
      let (accepted, metadata, wrote) =
        publish_module_written env schedule state request b w x (first ∙ ap ok same) in
      let kept : AreWrites request.sender x =
        subst (λ s. AreWrites s x) accepted.owner
          (subst (AreWrites accepted.compiled.self_address) wrote (
            module_writes-AreWrites env schedule accepted.compiled b metadata w
              (subst (λ s. AreWrites s w) (sym accepted.owner) a))) in
      let (final, all) = publish_each_written bs x w' others kept in (final, (accepted, all))

  -- A publication that succeeds.
  pub record HasPublished (o : VmOutput) : Type 0 where
    pub status : o.status ≡ success
    pub agrees : Agrees o.write_set o.state_changes
    pub at : AllAt request.sender o.state_changes
    pub gas : o.gas_used ≤ request.gas_limit
    pub accepted : All (λ b. Accepted env schedule state request.sender b) request.modules

  start-AreWrites : AreWrites request.sender ([], [])
  start-AreWrites = record { agrees = Agrees-nil; at = tt }

  output_of :
      (p : Progress env schedule)
      → publish_each env schedule state request request.modules ([], []) ≡ ok p
      → HasPublished (publish_output env schedule request p)
        ⊎ ((code : ℕ) × (publish_output env schedule request p ≡ rejection env schedule code))
  unfolding publish_output clamp_gas_to_limit
  output_of (refused n) h = inr (n, refl)
  output_of (written w) h =
      let (kept, all) = publish_each_written request.modules ([], []) w h start-AreWrites in
      inl (record {
        status = refl;
        agrees = kept.agrees;
        at = kept.at;
        gas = omega arith;
        accepted = all;
      })

  -- Every output of a publication through the Move VM. Either it succeeded: then it writes slots
  -- of the sender's account only, its changes and its write set agree, its gas is within the
  -- limit, and each module parsed, belongs to the sender, and either nothing was at the sender's
  -- address or what is there was published as compatible, with the same interface or none on
  -- record. Or it is a refusal, without effects.
  pub publish_modules_outcomes :
      (o : VmOutput)
      → publish_modules env schedule state request ≡ ok o
      → HasPublished o ⊎ ((code : ℕ) × (o ≡ rejection env schedule code))
  unfolding publish_modules
  publish_modules_outcomes o h =
      let (p, looped, same) =
        >>=-eq-ok (publish_each env schedule state request request.modules ([], [])) _ h in
      subst (λ x. HasPublished x ⊎ ((code : ℕ) × (x ≡ rejection env schedule code)))
        (ok_injective same) (output_of p looped)

  pub check_sender_same : (a b : AccountAddress) → a ≡ b → check_sender env schedule a b ≡ ok tt
  check_sender_same a b e = rw ((bytes_eq_iff a b).1 e) refl
