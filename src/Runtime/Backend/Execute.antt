-- ===== src/Runtime/Backend/Execute.antt =====
-- Running functions, scripts and views: `execute_function`, `execute_script` and `query_view` of
-- crates/nexus-move-runtime/src/vm_backend.rs.
use nexus_move.Prelude.{
  ℕ, Option, none, some, List, [], ◌∷◌, ◌++◌, if◌then◌else◌, max, Bytes, ascii, Result, ok, err,
  panic, map_err, ◌>>=◌,
}
use nexus_move.Stdlib
use nexus_move.Types.{AccountAddress}
use nexus_move.Runtime.Data.{
  ContractEvent, FunctionCall, ScriptExecution, QueryRequest, QueryResult, VmOutput, VmResult,
  internal_error, success, move_abort, abort_output, without_effects,
}
use nexus_move.Runtime.Gas.{GasSchedule, clamp_gas_to_limit, estimate_call_gas, estimate_script_gas}
use nexus_move.Runtime.InstrGas.{NexusGasMeter, with_limit}
use nexus_move.Runtime.State.{NexusStateView}
use nexus_move.Runtime.Backend.{
  MoveEnv, VmFault, Op, parse_function_name, deserialize_type_args, new_storage, changeset_to_nexus,
}

-- Variant 0, then the sender's address: the signer that comes before the arguments.
unfoldable pub signer_argument : AccountAddress → Bytes
signer_argument sender = 0 ∷ sender

abbrev pub to_event : Stdlib.ContractEvent → ContractEvent
to_event e = record {
  type_tag = e.type_tag;
  guid = e.guid;
  sequence_number = e.sequence_number;
  payload = e.payload;
}

abbrev pub to_events : List Stdlib.ContractEvent → List ContractEvent
to_events [] = []
to_events (e ∷ events) = to_event e ∷ to_events events

-- The first of the return values.
abbrev pub first : List Bytes → Option Bytes
first [] = none
first (v ∷ values) = some v

module _ (env : MoveEnv) (schedule : GasSchedule) where
  abbrev pub Run : Type 0
  Run = Result VmFault (List Bytes) × NexusGasMeter × env.Cache × List Stdlib.ContractEvent

  -- The output of a run with its effects: changes, events, values and gas.
  unfoldable pub effects_output :
      (VmOutput → ℕ)
      → ℕ
      → Run
      → List Bytes
      → List (AccountAddress × List (env.StructTag × Op))
      → VmOutput
  unfolding changeset_to_nexus
  effects_output estimate gas_limit run values change_set =
      let (write_set, state_changes) = changeset_to_nexus env change_set in
      let output : VmOutput = record {
        status = success;
        gas_used = 0;
        state_changes = state_changes;
        write_set = write_set;
        events = to_events run.3;
        return_values = values;
      } in
      record output {
        gas_used = clamp_gas_to_limit (max run.1.consumed (estimate output)) gas_limit;
      }

  -- After a run that returned: the effects are extracted from the data cache.
  abbrev pub extract_effects :
      NexusStateView → Run → VmResult (List (AccountAddress × List (env.StructTag × Op)))
  extract_effects state run =
      map_err (λ e. internal_error (ascii "effects extraction failed: " ++ e))
        (env.into_effects run.2 (new_storage env state))

  unfoldable pub returned_output :
      (VmOutput → ℕ) → ℕ → NexusStateView → Run → List Bytes → VmResult VmOutput
  unfolding effects_output
  returned_output estimate gas_limit state run values = extract_effects state run >>= λ change_set.
      ok (effects_output estimate gas_limit run values change_set)

  -- After a run that failed: an abort with the gas.
  unfoldable pub aborted_output : ℕ → ℕ → NexusGasMeter → VmFault → VmOutput
  aborted_output estimate gas_limit meter fault =
      without_effects (move_abort fault.location fault.major_status)
        (clamp_gas_to_limit (max meter.consumed estimate) gas_limit)

  unfoldable pub run_output : (VmOutput → ℕ) → ℕ → ℕ → NexusStateView → Run → VmResult VmOutput
  unfolding returned_output aborted_output
  run_output estimate failed_estimate gas_limit state run = elim run.0 [
    | ok values ↦ returned_output estimate gas_limit state run values
    | err fault ↦ ok (aborted_output failed_estimate gas_limit run.1 fault)
    | panic ↦ panic
  ]

  abbrev pub call_run : NexusStateView → ℕ → List Bytes → env.Loaded → Run
  call_run state gas_limit full_args loaded_fn =
      env.execute_loaded_function loaded_fn full_args (with_limit gas_limit) (new_storage env state)

  -- A run with the signer before the arguments.
  unfoldable pub signed_run : NexusStateView → ℕ → AccountAddress → List Bytes → env.Loaded → Run
  unfolding signer_argument
  signed_run state gas_limit sender args loaded_fn =
      call_run state gas_limit (signer_argument sender ∷ args) loaded_fn

  abbrev pub call_estimate : FunctionCall → VmOutput → ℕ
  call_estimate request output =
      estimate_call_gas schedule request.type_args request.args output.state_changes

  -- `execute_function` with the names parsed and the type arguments read.
  unfoldable pub execute_loaded :
      NexusStateView → FunctionCall → Bytes → Result VmFault env.Loaded → VmResult VmOutput
  unfolding run_output signed_run
  execute_loaded state request module_name (ok loaded_fn) =
      run_output (call_estimate request)
        (estimate_call_gas schedule request.type_args request.args []) request.gas_limit state
        (signed_run state request.gas_limit request.sender request.args loaded_fn)
  execute_loaded state request module_name (err e) = ok (
      abort_output (env.display_module_id request.contract module_name) schedule.call_base
        request.gas_limit)
  execute_loaded state request module_name panic = panic

  unfoldable pub execute_named : NexusStateView → FunctionCall → Bytes → Bytes → VmResult VmOutput
  unfolding execute_loaded
  execute_named state request module_name fn_name =
      let bad_name = ok (
        abort_output (module_name ++ (ascii "::" ++ fn_name)) schedule.call_base
          request.gas_limit) in
      if env.is_identifier module_name
      then if env.is_identifier fn_name
        then (deserialize_type_args env request.type_args >>= λ ty_args.
            execute_loaded state request module_name (
              env.load_function (new_storage env state) request.contract module_name fn_name
                ty_args))
        else bad_name
      else bad_name

  unfoldable pub execute_function : NexusStateView → FunctionCall → VmResult VmOutput
  unfolding execute_named
  execute_function state request = elim (parse_function_name request.function) [
    | ok names ↦ execute_named state request names.0 names.1
    | err msg ↦ ok (abort_output msg schedule.call_base request.gas_limit)
    | panic ↦ panic
  ]

  abbrev pub script_estimate : ScriptExecution → ℕ
  script_estimate request =
      estimate_script_gas schedule request.bytecode request.type_args request.args

  unfoldable pub script_loaded :
      NexusStateView → ScriptExecution → Result VmFault env.Loaded → VmResult VmOutput
  unfolding run_output signed_run
  script_loaded state request (ok loaded_fn) =
      run_output (λ output. script_estimate request) (script_estimate request) request.gas_limit
        state (signed_run state request.gas_limit request.sender request.args loaded_fn)
  script_loaded state request (err vm_err) = ok (
      without_effects (move_abort vm_err.location vm_err.major_status)
        (clamp_gas_to_limit schedule.call_base request.gas_limit))
  script_loaded state request panic = panic

  unfoldable pub execute_script : NexusStateView → ScriptExecution → VmResult VmOutput
  unfolding script_loaded
  execute_script state request = deserialize_type_args env request.type_args >>= λ ty_args.
      script_loaded state request (env.load_script (new_storage env state) request.bytecode ty_args)

  -- The result of a view's run.
  unfoldable pub view_result : QueryRequest → Run → VmResult QueryResult
  view_result request run = elim run.0 [
    | ok values ↦ ok (record {
      return_value = first values;
      gas_used = run.1.consumed;
      gas_budget = request.gas_budget;
    })
    | err vm_err ↦ err (
        internal_error (
          ascii "query execution failed: "
          ++ (vm_err.status_text ++ (ascii " at " ++ vm_err.location))))
    | panic ↦ panic
  ]

  abbrev pub check_name : Bytes → Bytes → VmResult (Unit {0})
  check_name what name =
      if env.is_identifier name then ok tt else err (internal_error (what ++ name))

  unfoldable pub query_view : NexusStateView → QueryRequest → VmResult QueryResult
  unfolding view_result
  query_view state request = do
    names ← map_err internal_error (parse_function_name request.function)
    _ ← check_name (ascii "invalid module name: ") names.0
    _ ← check_name (ascii "invalid function name: ") names.1
    ty_args ← deserialize_type_args env request.type_args
    loaded_fn ←
        map_err (λ (e : VmFault). internal_error (ascii "load_function failed: " ++ e.text))
          (env.load_function (new_storage env state) request.contract names.0 names.1 ty_args)
    view_result request (call_run state request.gas_budget request.args loaded_fn)
