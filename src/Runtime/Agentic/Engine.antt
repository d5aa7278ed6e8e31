-- ===== src/Runtime/Agentic/Engine.antt =====
-- `AgentRuntimeEngine.run` and `_execute` (src/genesis/runtime/agentic/engine.py).
pub mod Authority
pub mod Outcome
pub mod Bounds
use genesis_ai.Prelude.{
  List, Option, Result, String, [], err, false, is_empty, ltb, map_err, nat_eq, none, ok, raise_if,
  some, str_len, string_eq, true, ℕ, ◌+◌, ◌==◌, ◌>>=◌, ◌>>◌, ◌∷◌,
}
use genesis_ai.Platform.{to_text}
use genesis_ai.Contracts.{Json, Fields}
use genesis_ai.Contracts.Catalog.{CanonicalContractCatalog, CatalogError}
use genesis_ai.Contracts.Catalog
use genesis_ai.Agents.{AgentDefinition}
use genesis_ai.ModelGateway.{ModelRequest, ModelResponse, classification_of}
use genesis_ai.Runtime.Limits.{ExecutionBudget}
use genesis_ai.Runtime.Context.Models.{DataClassification}
use genesis_ai.Runtime.Context.Manager.{error_text}
use genesis_ai.Runtime.Agentic.{
  ToolCallIntent, ExecutionPlan, RuntimeAuthorization, RuntimeFailure, FailureState, Raised,
  blocked, Ports, Libraries, item, as_dict, exception,
}
use genesis_ai.Runtime.Agentic.Actions.{Session, Action, pure, call, read, and_then, append_result}
use genesis_ai.Runtime.Agentic.Checks.{
  validate_authorization, enforce_plan_limits, validate_json_schema, requested_tool_ids,
  authorize_tool, check_tool_result, check_cost, parse_output,
}
use genesis_ai.Runtime.Agentic.Payloads.{
  RunIdentity, run_identity, success_result, failure_result, tool_request, with_tool_results,
}

abbrev pub agent_run_request_schema : String
agent_run_request_schema = "https://schemas.alos.dev/v1/agent/agent-run-request.schema.json"

abbrev pub agent_run_result_schema : String
agent_run_result_schema = "https://schemas.alos.dev/v1/agent/agent-run-result.schema.json"

-- What `run` raises: `RuntimeRequestRejected`, an exception of the catalog, or any other.
pub data RunError : Type 0 where
  request_rejected : String → RunError
  catalog_error : CatalogError → RunError
  other_error : RunError

abbrev required_value : {A : Type 0} → Option A → Result Raised A
required_value none = err exception
required_value (some a) = ok a

abbrev classification_of_json : Json → Option DataClassification
classification_of_json (Json.str s) = classification_of s
classification_of_json value = none

-- The `ModelRequest` of a run, with the constraints that pydantic checks.
unfoldable pub model_request :
    Libraries
    → AgentDefinition
    → (request context : Fields) (correlation_id : String) → List Fields
    → (maximum_tokens : ℕ) → ExecutionBudget
    → Result Raised ModelRequest
model_request libraries definition request context correlation_id messages maximum_tokens budget =
    do
      run_id ← item "run_id" request
      raw_classification ← item "data_classification" context
      classification ← required_value (classification_of_json raw_classification)
      raise_if (ltb (str_len (to_text libraries.platform run_id)) 3) exception
      raise_if (ltb (str_len correlation_id) 3) exception
      raise_if (definition.model_policy_ref == "") exception
      raise_if (definition.purpose == "") exception
      raise_if (is_empty messages) exception
      raise_if (ltb maximum_tokens 1) exception
      ok (record {
        run_id = to_text libraries.platform run_id;
        correlation_id = correlation_id;
        policy_ref = definition.model_policy_ref;
        purpose = definition.purpose;
        data_classification = classification;
        prompt_id = none;
        prompt_version = none;
        messages = messages;
        requested_max_tokens = maximum_tokens;
        budget = budget;
      })

-- `max_tokens is required for model access.`
abbrev pub required_tokens : Option ℕ → Result Raised ℕ
required_tokens none = err (blocked "BUDGET_REQUIRED" "max_tokens is required for model access.")
required_tokens (some n) = ok n

-- The failure that an exception is reported as.
abbrev pub failure_of : Raised → RuntimeFailure
failure_of (Raised.failure f) = f
failure_of Raised.timeout_error = record {
  code = "RUNTIME_TIMEOUT";
  message = "Agent runtime exceeded the authorized execution timeout.";
  retryable = true;
  output_state = FailureState.blocked_state;
}
failure_of Raised.exception = record {
  code = "RUNTIME_EXECUTION_FAILED";
  message = "Agent runtime failed safely.";
  retryable = false;
  output_state = FailureState.needs_review;
}

module _ {World : Type 0} (ports : Ports World) (libraries : Libraries)
    (contracts : CanonicalContractCatalog) (definition : AgentDefinition) (request : Fields)
    (authorization : RuntimeAuthorization) where
  infixl 5 ◌⨾◌
  abbrev ◌⨾◌ {ℓ κ} :
      {A : Type ℓ} {B : Type κ} → Action World A → (A → Action World B) → Action World B
  m ⨾ k = and_then m k

  -- The body of the loop over the planned calls.
  unfoldable pub call_tool :
      (requested : List String) (correlation_id : String) (index : ℕ)
      → ToolCallIntent
      → Action World (Unit {0})
  call_tool requested correlation_id index intent =
      pure (authorize_tool requested definition authorization intent) ⨾ λ _.
      pure (item "run_id" request) ⨾ λ run_id.
      pure (item "execution_context" request) ⨾ λ execution_context.
      read ports.now ⨾ λ requested_at.
      call (
        ports.execute_tool
          (tool_request libraries run_id execution_context intent index requested_at)
          correlation_id)
      ⨾ λ tool_result.
          append_result tool_result ⨾ λ _. pure (check_tool_result libraries tool_result)

  unfoldable pub call_tools :
      (requested : List String) (correlation_id : String) (index : ℕ)
      → List ToolCallIntent
      → Action World (Unit {0})
  call_tools requested correlation_id index [] = pure (ok tt)
  call_tools requested correlation_id index (intent ∷ intents) =
      call_tool requested correlation_id index intent ⨾ λ _.
      call_tools requested correlation_id (index + 1) intents

  abbrev pub current_results : Action World (List Fields)
  current_results s = (ok s.tool_results, s)

  -- Lines 155 to 188: the model is asked, and its output checked.
  unfoldable pub reason :
      ExecutionBudget
      → ExecutionPlan
      → (context : Fields) (correlation_id : String) → Action World (Json × ModelResponse)
  reason budget plan context correlation_id = current_results ⨾ λ tool_results.
      pure (required_tokens budget.max_tokens) ⨾ λ maximum_tokens.
      pure (
        model_request libraries definition request context correlation_id
          (with_tool_results libraries.platform plan.messages tool_results) maximum_tokens budget)
      ⨾ λ model_call. call (ports.complete model_call) ⨾ λ response.
          pure (check_cost budget response) ⨾ λ _.
          pure (parse_output libraries response) ⨾ λ output.
          pure
            (validate_json_schema libraries definition.output_schema output "OUTPUT_SCHEMA_INVALID")
          ⨾ λ _. pure (ok (output, response))

  -- Lines 189 to 197.
  unfoldable pub complete_run :
      (started started_clock : ℕ) → Json → ModelResponse → Action World Fields
  complete_run started started_clock output response = pure (run_identity request) ⨾ λ id.
      read ports.monotonic ⨾ λ clock. current_results ⨾ λ tool_results.
      read ports.now ⨾ λ completed. pure (
        map_err (λ _. exception)
          (Catalog.validate contracts agent_run_result_schema (
            success_result libraries.platform id output response tool_results
              (libraries.milliseconds started_clock clock) started completed)))

  -- `_execute`
  unfoldable pub execute : ExecutionBudget → (started started_clock : ℕ) → Action World Fields
  execute budget started started_clock = pure (item "input" request) ⨾ λ input.
      pure (validate_json_schema libraries definition.input_schema input "INPUT_SCHEMA_INVALID")
      ⨾ λ _. call (ports.plan definition request) ⨾ λ plan.
          pure (enforce_plan_limits plan.tool_calls budget) ⨾ λ _.
          pure (requested_tool_ids request) ⨾ λ requested.
          pure (item "execution_context" request) ⨾ λ raw_context.
          pure (as_dict raw_context) ⨾ λ context.
          pure (item "correlation_id" context) ⨾ λ raw_correlation_id.
          call_tools requested (to_text libraries.platform raw_correlation_id) 1 plan.tool_calls
          ⨾ λ _.
              reason budget plan context (to_text libraries.platform raw_correlation_id) ⨾ λ answer.
              complete_run started started_clock answer.0 answer.1

  -- The statements under `try`. `asyncio.timeout` is in the replies of the ports.
  unfoldable pub attempt : (started started_clock : ℕ) → Action World Fields
  attempt started started_clock =
      pure (validate_authorization libraries definition request authorization) ⨾ λ budget.
      execute budget started started_clock

  -- `_failure_result`, validated: outside the `try`.
  unfoldable pub report :
      Result Raised RunIdentity
      → RuntimeFailure
      → (started : ℕ) → Session World
      → Result RunError Fields × World
  report (err e) failed started s = (err other_error, s.world)
  report (ok id) failed started s =
      let (completed, after) = ports.now s.world in
      (
        map_err catalog_error (
            Catalog.validate contracts agent_run_result_schema
              (failure_result libraries.platform id failed s.tool_results started completed)),
        after,
      )

  unfoldable pub settle :
      (started : ℕ) → Result Raised Fields → Session World → Result RunError Fields × World
  settle started (ok result) s = (ok result, s.world)
  settle started (err raised) s = report (run_identity request) (failure_of raised) started s

  -- What `run` does once the request is validated.
  unfoldable pub run_validated : World → Result RunError Fields × World
  run_validated world =
      let (started, w) = ports.now world in
      let (started_clock, w') = ports.monotonic w in
      let (outcome, s) = attempt started started_clock (record { world = w'; tool_results = [] }) in
      settle started outcome s

-- Only a `ContractValidationError` is turned into a rejection.
abbrev pub rejection : CatalogError → RunError
rejection (CatalogError.schema_not_available schema_id) =
    catalog_error (CatalogError.schema_not_available schema_id)
rejection (CatalogError.contract_validation_error schema_id path reason) =
    request_rejected (error_text (CatalogError.contract_validation_error schema_id path reason))

module _ {World : Type 0} (ports : Ports World) (libraries : Libraries)
    (contracts : CanonicalContractCatalog) (definition : AgentDefinition)
    (authorization : RuntimeAuthorization) where
  abbrev pub run_accepted : Result CatalogError Fields → World → Result RunError Fields × World
  run_accepted (err e) world = (err (rejection e), world)
  run_accepted (ok request) world =
      run_validated ports libraries contracts definition request authorization world

  -- `run`
  unfoldable pub run : (request_payload : Fields) → World → Result RunError Fields × World
  run request_payload world =
      run_accepted (Catalog.validate contracts agent_run_request_schema request_payload) world
