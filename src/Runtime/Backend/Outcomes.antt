-- ===== src/Runtime/Backend/Outcomes.antt =====
-- The outputs of functions and scripts, whatever the Move VM does.
use nexus_move.Prelude.{
  ℕ, ◌≤◌, ◌≡◌, ◌⊎◌, refl, arith, List, [], inl, inr, Bytes, Bool-cases, Result, ok, err, panic,
  ◌>>=◌,
}
use nexus_move.Types.{AccountAddress}
use nexus_move.Runtime.Changes.{Agrees, Agrees-nil}
use nexus_move.Runtime.Data.{
  FunctionCall, ScriptExecution, VmOutput, VmResult, VmStatus, success, without_effects,
  abort_output,
}
use nexus_move.Runtime.Gas.{GasSchedule, clamp_gas_to_limit, estimate_call_gas}
use nexus_move.Runtime.State.{NexusStateView}
use nexus_move.Runtime.Backend.{MoveEnv, VmFault, Op, parse_function_name, deserialize_type_args}
use nexus_move.Runtime.Backend.Effects.{changeset_to_nexus-Agrees}
use nexus_move.Runtime.Backend.Execute.{
  Run, effects_output, extract_effects, signed_run, call_estimate, script_estimate, returned_output,
  aborted_output, run_output, execute_loaded, execute_named, execute_function, script_loaded,
  execute_script,
}

-- Gas within the limit, changes and write set in agreement, and no effects without success.
pub record IsSound (gas_limit : ℕ) (o : VmOutput) : Type 0 where
  pub gas : o.gas_used ≤ gas_limit
  pub agrees : Agrees o.write_set o.state_changes
  pub quiet :
      (o.status ≡ success)
      ⊎ ((o.state_changes ≡ []) × (o.write_set ≡ []) × (o.events ≡ []) × (o.return_values ≡ []))

-- Every output of a result is sound.
abbrev pub GivesSound : ℕ → VmResult VmOutput → Type 0
GivesSound gas_limit (ok o) = IsSound gas_limit o
GivesSound gas_limit (err e) = Unit
GivesSound gas_limit panic = Unit

without_effects-IsSound :
    (status : VmStatus) (gas gas_limit : ℕ)
    → gas ≤ gas_limit
    → IsSound gas_limit (without_effects status gas)
without_effects-IsSound status gas gas_limit h = record {
  gas = h;
  agrees = Agrees-nil;
  quiet = inr (refl, refl, refl, refl);
}

clamp_within : (n gas_limit : ℕ) → clamp_gas_to_limit n gas_limit ≤ gas_limit
unfolding clamp_gas_to_limit
clamp_within n gas_limit = omega arith

abort-IsSound :
    (location : Bytes) (base gas_limit : ℕ)
    → IsSound gas_limit (abort_output location base gas_limit)
abort-IsSound location base gas_limit = without_effects-IsSound _ _ _ (omega arith)

GivesSound-bind :
    {A : Type 0} (gas_limit : ℕ) (r : VmResult A) (k : A → VmResult VmOutput)
    → ((a : A) → GivesSound gas_limit (k a))
    → GivesSound gas_limit (r >>= k)
GivesSound-bind gas_limit (ok a) k h = h a
GivesSound-bind gas_limit (err e) k h = tt
GivesSound-bind gas_limit panic k h = tt

module _ (env : MoveEnv) (schedule : GasSchedule) where
  effects-IsSound :
      (estimate : VmOutput → ℕ) (gas_limit : ℕ) (run : Run env schedule) (values : List Bytes)
      (change_set : List (AccountAddress × List (env.StructTag × Op)))
      → IsSound gas_limit (effects_output env schedule estimate gas_limit run values change_set)
  unfolding effects_output
  effects-IsSound estimate gas_limit run values change_set = record {
    gas = clamp_within _ gas_limit;
    agrees = changeset_to_nexus-Agrees env change_set;
    quiet = inl refl;
  }

  run-GivesSound :
      (estimate : VmOutput → ℕ) (failed gas_limit : ℕ) (state : NexusStateView)
      (run : Run env schedule)
      → GivesSound gas_limit (run_output env schedule estimate failed gas_limit state run)
  unfolding run_output returned_output aborted_output
  run-GivesSound estimate failed gas_limit state run = by_result run.0 refl
    where
      by_result :
          (r : Result VmFault (List Bytes))
          → run.0 ≡ r
          → GivesSound gas_limit (run_output env schedule estimate failed gas_limit state run)
      by_result (ok values) e =
          rw (run_output, e)
            (GivesSound-bind gas_limit (extract_effects env schedule state run)
              (λ change_set.
                ok (effects_output env schedule estimate gas_limit run values change_set))
              (effects-IsSound estimate gas_limit run values))
      by_result (err fault) e =
          rw (run_output, e) (without_effects-IsSound _ _ _ (clamp_within _ gas_limit))
      by_result panic e = rw (run_output, e) tt

  loaded-GivesSound :
      (state : NexusStateView) (request : FunctionCall) (module_name : Bytes)
      (r : Result VmFault env.Loaded)
      → GivesSound request.gas_limit (execute_loaded env schedule state request module_name r)
  unfolding execute_loaded
  loaded-GivesSound state request module_name (ok f) =
      run-GivesSound (call_estimate env schedule request)
        (estimate_call_gas schedule request.type_args request.args []) request.gas_limit state
        (signed_run env schedule state request.gas_limit request.sender request.args f)
  loaded-GivesSound state request module_name (err e) = abort-IsSound _ _ request.gas_limit
  loaded-GivesSound state request module_name panic = tt

  named-GivesSound :
      (state : NexusStateView) (request : FunctionCall) (m f : Bytes)
      → GivesSound request.gas_limit (execute_named env schedule state request m f)
  unfolding execute_named
  named-GivesSound state request m f = elim (Bool-cases (env.is_identifier m)) [
    | inl e ↦ elim (Bool-cases (env.is_identifier f)) [
      | inl e' ↦ rw e (
          rw e' (
            GivesSound-bind request.gas_limit (deserialize_type_args env request.type_args) _
              (λ ty_args. loaded-GivesSound state request m _)))
      | inr e' ↦ rw e (rw e' (abort-IsSound _ _ request.gas_limit))
    ]
    | inr e ↦ rw e (abort-IsSound _ _ request.gas_limit)
  ]

  function-GivesSound :
      (state : NexusStateView) (request : FunctionCall) (r : Result Bytes (Bytes × Bytes))
      → parse_function_name request.function ≡ r
      → GivesSound request.gas_limit (execute_function env schedule state request)
  unfolding execute_function
  function-GivesSound state request (ok names) e =
      rw (execute_function, e) (named-GivesSound state request names.0 names.1)
  function-GivesSound state request (err msg) e =
      rw (execute_function, e) (abort-IsSound _ _ request.gas_limit)
  function-GivesSound state request panic e = rw (execute_function, e) tt

  script-GivesSound :
      (state : NexusStateView) (request : ScriptExecution) (r : Result VmFault env.Loaded)
      → GivesSound request.gas_limit (script_loaded env schedule state request r)
  unfolding script_loaded
  script-GivesSound state request (ok f) =
      run-GivesSound (λ output. script_estimate env schedule request)
        (script_estimate env schedule request) request.gas_limit state
        (signed_run env schedule state request.gas_limit request.sender request.args f)
  script-GivesSound state request (err e) =
      without_effects-IsSound _ _ _ (clamp_within _ request.gas_limit)
  script-GivesSound state request panic = tt

  pub call-GivesSound :
      (state : NexusStateView) (call : FunctionCall)
      → GivesSound call.gas_limit (execute_function env schedule state call)
  call-GivesSound state call =
      function-GivesSound state call (parse_function_name call.function) refl

  pub run_script-GivesSound :
      (state : NexusStateView) (script : ScriptExecution)
      → GivesSound script.gas_limit (execute_script env schedule state script)
  unfolding execute_script
  run_script-GivesSound state script =
      GivesSound-bind script.gas_limit (deserialize_type_args env script.type_args) _
        (λ ty_args. script-GivesSound state script _)

  -- Whatever the Move VM does, every output of a function or of a script reports gas within the
  -- request's limit, has changes and a write set with the same effect, and has no effects, events
  -- or values unless the run succeeded.
  pub execute-GivesSound :
      (state : NexusStateView) (call : FunctionCall) (script : ScriptExecution)
      → GivesSound call.gas_limit (execute_function env schedule state call)
        × GivesSound script.gas_limit (execute_script env schedule state script)
  execute-GivesSound state call script =
      (call-GivesSound state call, run_script-GivesSound state script)
