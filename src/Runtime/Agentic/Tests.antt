-- ===== src/Runtime/Agentic/Tests.antt =====
-- Runs of the engine and of the model gateway, and each theorem about them at a concrete input.
use genesis_ai.Prelude.{
  All, List, Option, Result, String, [], contains, err, if◌then◌else◌, length, nat_eq, none, ok,
  refl, some, string_eq, true, ℕ, ◌+◌, ◌==◌, ◌∷◌, ◌≡◌, ◌≤◌, ◌⊎◌,
}
use genesis_ai.Platform.{Platform}
use genesis_ai.Contracts.{Json, str, texts, obj, int, Fields, end, field, get_field}
use genesis_ai.Contracts.Catalog
use genesis_ai.Contracts.Catalog.{CanonicalContractCatalog, Conforms}
use genesis_ai.Agents.{AgentDefinition}
use genesis_ai.ModelGateway.{
  ModelRequest, ModelResponse, StaticModelPolicy, StaticModelRouter, Adapter, GatewayError,
  complete, call_adapter, create_policy,
}
use genesis_ai.ModelGateway.Governed.{IsGoverned, complete-IsGoverned}
use genesis_ai.Runtime.Limits.{ExecutionBudget, model_validate}
use genesis_ai.Runtime.Context.Models.{DataClassification}
use genesis_ai.Runtime.Agentic.{
  ToolCallIntent, LifecycleState, RuntimeAuthorization, Raised, Ports, Libraries,
}
use genesis_ai.Runtime.Agentic.Actions.{and_then, append_result}
use genesis_ai.Runtime.Agentic.Checks.{
  validate_authorization, enforce_plan_limits, validate_json_schema, authorize_tool,
  check_tool_result, check_cost, parse_output,
}
use genesis_ai.Runtime.Agentic.Payloads.{
  RunIdentity, run_identity, success_result, failure_result, tool_request, with_tool_results,
}
use genesis_ai.Runtime.Agentic.Engine.{
  agent_run_request_schema, agent_run_result_schema, RunError, model_request, call_tool, call_tools,
  reason, complete_run, execute, attempt, report, settle, run_validated, run,
}
use genesis_ai.Runtime.Agentic.Engine.Authority.{run-keeps}
use genesis_ai.Runtime.Agentic.Engine.Outcome.{IsReportedBy, IsRefused, run-IsReported, run-ends}
use genesis_ai.Runtime.Agentic.Engine.Bounds.{attempt-le-max_tool_calls}

abbrev platform : Platform
platform = record {
  dumps = λ _. "{}";
  sha256_hex = λ text. text;
  utc_text = λ _. "2026-01-01T00:00:00Z";
  datetime_text = λ _. "2026-01-01T00:00:00Z";
  other_text = λ _. "";
}

abbrev contracts : CanonicalContractCatalog
contracts = record {
  documents = (agent_run_request_schema, Json.null) ∷ (agent_run_result_schema, Json.null) ∷ [];
  iter_errors = λ _ _. [];
  decimal = λ _. "1";
}

abbrev budget : ExecutionBudget
budget = record {
  max_tokens = some 1000;
  max_cost = some 5;
  max_steps = some 2;
  max_tool_calls = some 1;
  max_children = none;
  max_depth = none;
  timeout_seconds = some 30;
  concurrency_limit = none;
}

abbrev libraries : Libraries
libraries = record {
  platform = platform;
  decimal = λ _. "1";
  schema_errors = λ _ _. [];
  loads = λ text. if text == "" then none else some (str text);
  read_budget = λ _. some budget;
  milliseconds = λ a b. 0;
}

abbrev definition : AgentDefinition
definition = record {
  agent_id = "agent_1";
  agent_version = "1.0.0";
  name = "Lister";
  purpose = "List tasks";
  capability_ids = "task_listing" ∷ [];
  skill_ids = [];
  allowed_tool_ids = "task.list" ∷ "task.read" ∷ [];
  permission_refs = [];
  scope_refs = "division_a" ∷ [];
  model_policy_ref = "standard";
  input_schema = end;
  output_schema = end;
}

abbrev authorization : RuntimeAuthorization
authorization = record {
  run_id = "run_1";
  registry_digest = "";
  lifecycle_state = LifecycleState.active;
  allowed_tool_ids = "task.list" ∷ [];
}

abbrev request : Fields
request = field "run_id" (str "run_1") (
    field "root_run_id" (str "run_1") (
      field "agent_id" (str "agent_1") (
        field "agent_version" (str "1.0.0") (
          field "capability_id" (str "task_listing") (
            field "input" (obj end) (
              field "requested_tool_ids" (texts ("task.list" ∷ [])) (
                field "execution_context"
                  (obj (
                    field "correlation_id" (str "corr_1") (
                      field "data_classification" (str "INTERNAL")
                        (field "execution_budget" (obj (field "max_tokens" (int 1000) end)) end))))
                  end)))))))

abbrev response : ModelResponse
response = record {
  content = "done";
  route_id = "route_1";
  provider_request_id = none;
  input_tokens = 10;
  output_tokens = 2;
  cost = some 3;
}

-- The world is the list of the payloads of the tool calls.
abbrev ports_with : List ToolCallIntent → Result Raised ModelResponse → Ports (List Fields)
ports_with calls reply = record {
  plan = λ _ _ w.
      (ok (record { messages = field "role" (str "user") end ∷ []; tool_calls = calls }), w);
  execute_tool = λ payload correlation_id w. (ok (field "status" (str "SUCCESS") end), payload ∷ w);
  complete = λ model_call w. (reply, w);
  now = λ w. (0, w);
  monotonic = λ w. (0, w);
}

abbrev list_tasks : ToolCallIntent
list_tasks = record { tool_id = "task.list"; arguments = end }

abbrev read_task : ToolCallIntent
read_task = record { tool_id = "task.read"; arguments = end }

abbrev ports : Ports (List Fields)
ports = ports_with (list_tasks ∷ []) (ok response)

-- The `status` in the result of a run, and how many tools were called.
abbrev observe : Result RunError Fields × List Fields → Option Json × ℕ
observe (ok out, w) = (get_field "status" out, length w)
observe (err e, w) = (none, length w)

run_with : List ToolCallIntent → Result Raised ModelResponse → Option Json × ℕ
unfolding run run_validated attempt execute call_tools call_tool reason complete_run settle report
    and_then append_result validate_authorization validate_json_schema enforce_plan_limits
    authorize_tool tool_request check_tool_result with_tool_results model_request check_cost
    parse_output run_identity success_result failure_result Catalog.validate model_validate
run_with calls reply =
    observe (run (ports_with calls reply) libraries contracts definition authorization request [])

completes : run_with (list_tasks ∷ []) (ok response) ≡ (some (str "COMPLETED"), 1)
unfolding run_with
completes = refl

-- A tool that the request does not name is not called, and the run fails.
fails_closed : run_with (read_task ∷ []) (ok response) ≡ (some (str "FAILED"), 0)
unfolding run_with
fails_closed = refl

-- A timeout of the model leaves the results of the tools.
times_out : run_with (list_tasks ∷ []) (err Raised.timeout_error) ≡ (some (str "FAILED"), 1)
unfolding run_with
times_out = refl

-- The payloads name tools of the definition.
abbrev IsDefined : List Fields → Type 0
IsDefined w =
    All
      (λ payload.
        (tool_id : String) × (get_field "tool_id" payload ≡ some (str tool_id))
        × (contains definition.allowed_tool_ids tool_id ≡ true))
      w

run-keeps_example : IsDefined (run ports libraries contracts definition authorization request []).1
run-keeps_example =
    run-keeps ports libraries contracts definition request authorization IsDefined (λ w i. i)
      (λ m w i. i) (λ w i. i) (λ w i. i)
      (λ requested asked payload correlation_id w c i. ((c.tool_id, c.named, c.in_definition), i))
      [] tt

returned :
    (out : Fields) × ((run ports libraries contracts definition authorization request []).0
      ≡ ok out)
unfolding run run_validated attempt execute call_tools call_tool reason complete_run settle report
    and_then append_result validate_authorization validate_json_schema enforce_plan_limits
    authorize_tool tool_request check_tool_result with_tool_results model_request check_cost
    parse_output run_identity success_result failure_result Catalog.validate model_validate
returned = (_, refl)

run-IsReported_example :
    Conforms contracts agent_run_request_schema request
    × IsReportedBy libraries contracts definition returned.0
run-IsReported_example =
    run-IsReported ports libraries contracts definition request authorization [] returned.0
      returned.1

abbrev identity : RunIdentity
identity = record {
  run_id = str "run_1";
  root_run_id = str "run_1";
  parent_run_id = none;
  correlation_id = str "corr_1";
  agent_id = str "agent_1";
  agent_version = str "1.0.0";
  capability_id = str "task_listing";
}

identified : run_identity request ≡ ok identity
unfolding run_identity
identified = refl

run-ends_example :
    ((out : Fields) × ((run
          (ports_with (list_tasks ∷ []) (err Raised.exception))
          libraries
          contracts
          definition
          authorization
          request
          []).0
        ≡ ok out))
    ⊎ IsRefused
        (ports_with (list_tasks ∷ []) (err Raised.exception))
        libraries
        contracts
        definition
        request
        authorization
        identity
        (run
          (ports_with (list_tasks ∷ []) (err Raised.exception))
          libraries
          contracts
          definition
          authorization
          request
          []).0
run-ends_example =
    run-ends (ports_with (list_tasks ∷ []) (err Raised.exception)) libraries contracts definition
      request authorization identity []
      (record { schema = Json.null; known = refl; no_error = refl }) identified

authorised : validate_authorization libraries definition request authorization ≡ ok budget
unfolding validate_authorization model_validate
authorised = refl

attempt-le-max_tool_calls_example :
    length
      (attempt ports libraries contracts definition request authorization 0 0
        (record { world = []; tool_results = [] })).1.tool_results
    ≤ 1
attempt-le-max_tool_calls_example =
    attempt-le-max_tool_calls ports libraries contracts definition request authorization budget 1 0
      0 [] authorised refl

abbrev policy : StaticModelPolicy
policy = record {
  allowed = "standard" ∷ [];
  maximum_data_classification = DataClassification.internal;
}

policy_created : create_policy ("standard" ∷ []) "INTERNAL" ≡ ok policy
unfolding create_policy
policy_created = refl

abbrev adapter : Adapter ℕ String
adapter _ _ w = (ok response, w + 1)

abbrev router : StaticModelRouter ℕ String
router = record { routes = ("route_1", adapter) ∷ []; policy_routes = ("standard", "route_1") ∷ [] }

abbrev model_call : ModelRequest
model_call = record {
  run_id = "run_1";
  correlation_id = "corr_1";
  policy_ref = "standard";
  purpose = "List tasks";
  data_classification = DataClassification.internal;
  prompt_id = none;
  prompt_version = none;
  messages = field "role" (str "user") end ∷ [];
  requested_max_tokens = 1000;
  budget = budget;
}

complete-IsGoverned_example :
    ((found : String × Adapter ℕ String) × IsGoverned policy router model_call found
      × (complete policy router model_call 0 ≡ call_adapter model_call (ok found) 0))
    ⊎ (((found : String × Adapter ℕ String) → ¬ IsGoverned policy router model_call found)
        × ((e : GatewayError String) × (complete policy router model_call 0 ≡ (err e, 0))))
complete-IsGoverned_example = complete-IsGoverned policy router model_call 0
