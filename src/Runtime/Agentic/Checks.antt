-- ===== src/Runtime/Agentic/Checks.antt =====
-- The checks of `AgentRuntimeEngine` (src/genesis/runtime/agentic/engine.py): each only computes.
use genesis_ai.Prelude.{
  Bool, List, Option, Result, String, [], any, contains, err, false, if◌then◌else◌, is_empty,
  length, ltb, map_err, nat_eq, none, not, ok, raise_if, some, string_eq, true, ℕ, ◌+◌, ◌>>=◌, ◌>>◌,
  ◌∷◌,
}
use genesis_ai.Platform.{to_text}
use genesis_ai.Contracts.{Json, Items, Fields, get_field, end}
use genesis_ai.Agents.{AgentDefinition}
use genesis_ai.ModelGateway.{ModelResponse}
use genesis_ai.Runtime.Limits
use genesis_ai.Runtime.Limits.{ExecutionBudget}
use genesis_ai.Runtime.Agentic.{
  FailureState, ToolCallIntent, LifecycleState, RuntimeAuthorization, Raised, blocked, Libraries,
  item, as_dict, truthy, is_text, exception, failure,
}

abbrev pub lifecycle_value : LifecycleState → String
lifecycle_value LifecycleState.active = "ACTIVE"
lifecycle_value LifecycleState.test_authorized = "TEST_AUTHORIZED"

-- `value in texts`, for a value of JSON.
abbrev pub text_in : Json → List String → Bool
text_in value texts = any (λ t. is_text t value) texts

-- `ExecutionBudget.model_validate(raw_budget)`, where the budget is a dict.
abbrev pub budget_of : Libraries → Option Json → Result Raised ExecutionBudget
budget_of libraries (some (Json.obj raw)) = elim (libraries.read_budget raw) [
  | none ↦ err exception
  | some budget ↦ map_err (λ _. exception) (Limits.model_validate budget)
]
budget_of libraries _ =
    err (blocked "BUDGET_REQUIRED" "ExecutionContext must carry an execution budget.")

unfoldable pub validate_authorization :
    Libraries → AgentDefinition → Fields → RuntimeAuthorization → Result Raised ExecutionBudget
validate_authorization libraries definition request authorization = do
  run_id ← item "run_id" request
  raise_if (not (is_text authorization.run_id run_id))
      (blocked "RUN_AUTHORIZATION_MISMATCH" "Run authorization does not match run_id.")
  raise_if
      (not (
        contains ("ACTIVE" ∷ "TEST_AUTHORIZED" ∷ [])
          (lifecycle_value authorization.lifecycle_state)))
      (blocked "AGENT_LIFECYCLE_DENIED" "Backend did not authorize Agent lifecycle.")
  agent_id ← item "agent_id" request
  same_agent definition agent_id request
  capability_id ← item "capability_id" request
  raise_if (not (text_in capability_id definition.capability_ids))
      (blocked "CAPABILITY_MISMATCH" "Capability is not present in Agent definition.")
  raw_context ← item "execution_context" request
  context ← as_dict raw_context
  budget_of libraries (get_field "execution_budget" context)
  where
    mismatch : Raised
    mismatch = blocked "AGENT_VERSION_MISMATCH" "Agent definition does not match request."

    -- The version is only read when the id agrees.
    same_agent : AgentDefinition → Json → Fields → Result Raised (Unit {0})
    same_agent definition agent_id request = do
      raise_if (not (is_text definition.agent_id agent_id)) mismatch
      version ← item "agent_version" request
      raise_if (not (is_text definition.agent_version version)) mismatch

abbrev pub above : ℕ → Option ℕ → Bool
above n none = false
above n (some maximum) = ltb maximum n

unfoldable pub enforce_plan_limits :
    List ToolCallIntent → ExecutionBudget → Result Raised (Unit {0})
enforce_plan_limits tool_calls budget = do
  raise_if (above (length tool_calls + 1) budget.max_steps)
      (blocked "BUDGET_STEPS_EXCEEDED" "Execution plan exceeds max_steps.")
  raise_if (above (length tool_calls) budget.max_tool_calls)
      (blocked "BUDGET_TOOL_CALLS_EXCEEDED" "Execution plan exceeds max_tool_calls.")

unfoldable pub validate_json_schema : Libraries → Fields → Json → String → Result Raised (Unit {0})
validate_json_schema libraries schema payload code =
    raise_if (not (is_empty (libraries.schema_errors schema payload)))
      (blocked code "Runtime payload does not satisfy the Agent schema.")

-- `frozenset(values)`, of which only the texts are asked for: a list or a dict in it has no hash.
abbrev pub text_members : Items → Result Raised (List String)
text_members Items.nil = ok []
text_members (Items.cons (Json.str s) xs) = do ts ← text_members xs; ok (s ∷ ts)
text_members (Items.cons (Json.arr ys) xs) = err exception
text_members (Items.cons (Json.obj fs) xs) = err exception
text_members (Items.cons value xs) = text_members xs

-- The characters of a text, and the keys of a dict, are what iterating over it yields.
abbrev characters : String → List String
characters String.[] = []
characters (String.◌∷◌ c s) = String.◌∷◌ c "" ∷ characters s

abbrev field_keys : Fields → List String
field_keys Fields.end = []
field_keys (Fields.field key value fs) = key ∷ field_keys fs

-- `frozenset(request.get("requested_tool_ids", []))`
abbrev pub members_of : Option Json → Result Raised (List String)
members_of none = ok []
members_of (some (Json.arr xs)) = text_members xs
members_of (some (Json.str s)) = ok (characters s)
members_of (some (Json.obj fs)) = ok (field_keys fs)
members_of (some value) = err exception

abbrev pub requested_tool_ids : Fields → Result Raised (List String)
requested_tool_ids request = members_of (get_field "requested_tool_ids" request)

-- The three tests of an intent.
unfoldable pub authorize_tool :
    List String → AgentDefinition → RuntimeAuthorization → ToolCallIntent → Result Raised (Unit {0})
authorize_tool requested definition authorization intent = do
  raise_if (not (contains requested intent.tool_id))
      (blocked "TOOL_NOT_REQUESTED" "Planned tool is outside AgentRunRequest tool intent.")
  raise_if (not (contains definition.allowed_tool_ids intent.tool_id))
      (blocked "TOOL_NOT_DEFINED" "Planned tool is outside the Agent definition allowlist.")
  raise_if (not (contains authorization.allowed_tool_ids intent.tool_id)) (
      blocked "TOOL_NOT_AUTHORIZED"
        "Backend execution authorization does not allow the planned tool.")

-- `error.get(...)` of the tool's `error`, `{}` if it has none.
abbrev pub tool_error : Option Json → Result Raised Fields
tool_error none = ok end
tool_error (some value) = as_dict value

abbrev pub code_or : Libraries → String → Option Json → String
code_or libraries default none = default
code_or libraries default (some value) = to_text libraries.platform value

abbrev pub flag_or : Bool → Option Json → Bool
flag_or default none = default
flag_or default (some value) = truthy value

-- A value that has no hash cannot be looked for in a set.
abbrev pub hashable : Json → Bool
hashable (Json.arr xs) = false
hashable (Json.obj fs) = false
hashable value = true

unfoldable pub check_tool_result : Libraries → Fields → Result Raised (Unit {0})
check_tool_result libraries tool_result = do
  status ← item "status" tool_result
  raise_if (not (hashable status)) exception
  if text_in status ("SUCCESS" ∷ "COMPLETED" ∷ []) then ok tt else unsuccessful
  where
    unsuccessful : Result Raised (Unit {0})
    unsuccessful = do
      error ← tool_error (get_field "error" tool_result)
      err (
          failure (record {
            code = code_or libraries "TOOL_EXECUTION_BLOCKED" (get_field "code" error);
            message = "Backend ToolExecutor did not return a successful result.";
            retryable = flag_or false (get_field "retryable" error);
            output_state = FailureState.blocked_state;
          }))

-- `max_cost` is tested only if the response has a cost.
abbrev pub over_cost : Option ℕ → Option ℕ → Bool
over_cost (some maximum) (some cost) = ltb maximum cost
over_cost _ _ = false

unfoldable pub check_cost : ExecutionBudget → ModelResponse → Result Raised (Unit {0})
check_cost budget response =
    raise_if (over_cost budget.max_cost response.cost)
      (blocked "BUDGET_COST_EXCEEDED" "Model response exceeded the authorized cost budget.")

unfoldable pub parse_output : Libraries → ModelResponse → Result Raised Json
parse_output libraries response = elim (libraries.loads response.content) [
  | none ↦ err (
      failure (record {
        code = "MODEL_OUTPUT_INVALID_JSON";
        message = "Model output is not valid JSON.";
        retryable = false;
        output_state = FailureState.needs_review;
      }))
  | some output ↦ ok output
]
