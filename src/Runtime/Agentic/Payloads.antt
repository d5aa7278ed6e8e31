-- ===== src/Runtime/Agentic/Payloads.antt =====
-- The payloads that `AgentRuntimeEngine` writes (src/genesis/runtime/agentic/engine.py): the request
-- of a tool call, and the two results of a run.
use genesis_ai.Prelude.{
  List, Option, Result, String, [], if◌then◌else◌, is_empty, nat_eq, none, ok, some, str_take,
  string_eq, ℕ, ◌++◌, ◌>>=◌, ◌∷◌, ◌⧺◌,
}
use genesis_ai.Platform.{Platform, to_text}
use genesis_ai.Contracts.{
  Json, Fields, get_field, str, int, bool, float, obj, arr, nil, end, field, items, optional_field,
}
use genesis_ai.ModelGateway.{ModelResponse}
use genesis_ai.Runtime.Agentic.{
  ToolCallIntent, RuntimeFailure, failure_state_value, Raised, Libraries, item, as_dict, truthy,
}

-- The fields of a request that both results repeat.
pub record RunIdentity : Type 0 where
  pub run_id : Json
  pub root_run_id : Json
  pub parent_run_id : Option Json
  pub correlation_id : Json
  pub agent_id : Json
  pub agent_version : Json
  pub capability_id : Json

-- A `parent_run_id` is repeated if it is truthy.
abbrev pub parent_of : Option Json → Option Json
parent_of none = none
parent_of (some value) = if truthy value then some value else none

unfoldable pub run_identity : Fields → Result Raised RunIdentity
run_identity request = do
  raw_context ← item "execution_context" request
  run_id ← item "run_id" request
  root_run_id ← item "root_run_id" request
  context ← as_dict raw_context
  correlation_id ← item "correlation_id" context
  agent_id ← item "agent_id" request
  agent_version ← item "agent_version" request
  capability_id ← item "capability_id" request
  ok (record {
    run_id = run_id;
    root_run_id = root_run_id;
    parent_run_id = parent_of (get_field "parent_run_id" request);
    correlation_id = correlation_id;
    agent_id = agent_id;
    agent_version = agent_version;
    capability_id = capability_id;
  })

abbrev as_is : Json → Json
as_is v = v

-- The fields that both results begin with.
abbrev identity_fields : RunIdentity → Fields → Fields
identity_fields id rest = field "run_id" id.run_id (
    field "root_run_id" id.root_run_id (
      optional_field "parent_run_id" as_is id.parent_run_id (
        field "correlation_id" id.correlation_id (
          field "agent_id" id.agent_id (
            field "agent_version" id.agent_version
              (field "capability_id" id.capability_id rest))))))

abbrev results_json : List Fields → Json
results_json results = arr (items obj results)

unfoldable pub success_result :
    Platform
    → RunIdentity
    → (output : Json) → ModelResponse
    → (tool_results : List Fields) (latency started completed : ℕ) → Fields
success_result platform id output response tool_results latency started completed =
    identity_fields id (
      field "status" (str "COMPLETED") (
        field "output_state" (str "AI_INFERRED") (
          field "output" output (
            field "usage"
              (obj (
                field "provider" (str response.route_id) (
                  field "model" (str response.route_id) (
                    field "input_tokens" (int response.input_tokens) (
                      field "output_tokens" (int response.output_tokens) (
                        field "latency_milliseconds" (int latency)
                          (optional_field "estimated_cost" float response.cost end)))))))
              (field "tool_results" (results_json tool_results) (
                field "evidence_refs" (arr nil) (
                  field "started_at" (str (platform.utc_text started))
                    (field "completed_at" (str (platform.utc_text completed)) end))))))))

unfoldable pub failure_result :
    Platform
    → RunIdentity
    → RuntimeFailure
    → (tool_results : List Fields) (started completed : ℕ) → Fields
failure_result platform id failed tool_results started completed = identity_fields id (
    field "status" (str "FAILED") (
      field "output_state" (str (failure_state_value failed.output_state)) (
        field "tool_results" (results_json tool_results) (
          field "evidence_refs" (arr nil) (
            field "error"
              (obj (
                field "code" (str failed.code) (
                  field "message" (str failed.message) (
                    field "correlation_id" id.correlation_id
                      (field "retryable" (bool failed.retryable) end)))))
              (field "started_at" (str (platform.utc_text started))
                (field "completed_at" (str (platform.utc_text completed)) end)))))))

-- `_tool_request`: the digest is of the text `run_id:index:tool_id`.
unfoldable pub tool_request :
    Libraries
    → (run_id execution_context : Json) → ToolCallIntent
    → (index requested_at : ℕ) → Fields
tool_request libraries run_id execution_context intent index requested_at =
    field "tool_call_id" (str ("toolcall_" ⧺ str_take 20 (platform.sha256_hex seed))) (
      field "run_id" run_id (
        field "tool_id" (str intent.tool_id) (
          field "execution_context" execution_context (
            field "arguments" (obj intent.arguments)
              (field "requested_at" (str (platform.utc_text requested_at)) end)))))
  where
    platform : Platform
    platform = libraries.platform

    seed : String
    seed = to_text platform run_id ⧺ ":" ⧺ libraries.decimal index ⧺ ":" ⧺ intent.tool_id

-- The message that carries the results of the tools to the model.
unfoldable pub with_tool_results : Platform → List Fields → List Fields → List Fields
with_tool_results platform messages tool_results =
    if is_empty tool_results
    then messages
    else messages
      ++ (field "role" (str "user") (
          field "content"
            (str (
              platform.dumps (obj (field "governed_tool_results" (results_json tool_results) end))))
            end))
        ∷ []
