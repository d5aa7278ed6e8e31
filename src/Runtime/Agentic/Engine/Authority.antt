-- ===== src/Runtime/Agentic/Engine/Authority.antt =====
-- What a run does to the world, it does through calls that were authorised.
use genesis_ai.Prelude.{
  List, Result, String, [], contains, err, nat_eq, ok, refl, some, string_eq, true, ℕ, ◌+◌, ◌∷◌,
  ◌≡◌, arith,
}
use genesis_ai.Contracts.{Json, str, Fields, get_field}
use genesis_ai.Contracts.Catalog.{validate-eq-ok_iff, CanonicalContractCatalog, CatalogError}
use genesis_ai.Agents.{AgentDefinition}
use genesis_ai.ModelGateway.{ModelRequest, ModelResponse}
use genesis_ai.Runtime.Limits.{ExecutionBudget}
use genesis_ai.Runtime.Agentic.{
  ToolCallIntent, ExecutionPlan, RuntimeAuthorization, RuntimeFailure, Raised, Ports, Libraries,
  item, as_dict,
}
use genesis_ai.Runtime.Agentic.Actions.{
  Session, call, read, append_result, Keeps, pure-Keeps, and_then-Keeps,
}
use genesis_ai.Runtime.Agentic.Checks.{
  validate_authorization, enforce_plan_limits, requested_tool_ids, authorize_tool, check_cost,
  parse_output,
}
use genesis_ai.Runtime.Agentic.Payloads.{RunIdentity, run_identity, tool_request}
use genesis_ai.Runtime.Agentic.Engine.{
  agent_run_request_schema, required_tokens, failure_of, call_tool, call_tools, current_results,
  reason, complete_run, execute, attempt, report, settle, run_validated, run_accepted, run,
}

-- The payload of a tool call names a tool that the request asks for, that the definition lists and that
-- Backend allows.
pub record IsAuthorisedCall (definition : AgentDefinition) (authorization : RuntimeAuthorization)
    (requested : List String) (payload : Fields) : Type 0 where
  pub tool_id : String
  pub named : get_field "tool_id" payload ≡ some (str tool_id)
  pub in_request : contains requested tool_id ≡ true
  pub in_definition : contains definition.allowed_tool_ids tool_id ≡ true
  pub in_authorization : contains authorization.allowed_tool_ids tool_id ≡ true

authorize_tool-IsAuthorisedCall :
    (libraries : Libraries) (definition : AgentDefinition) (authorization : RuntimeAuthorization)
    (requested : List String) (intent : ToolCallIntent) (run_id context : Json) (index at_ : ℕ)
    → authorize_tool requested definition authorization intent ≡ ok tt
    → IsAuthorisedCall definition authorization requested
        (tool_request libraries run_id context intent index at_)
unfolding authorize_tool tool_request
authorize_tool-IsAuthorisedCall libraries definition authorization requested intent run_id context
      index at_ h =
    record {
      tool_id = intent.tool_id;
      named = refl;
      in_request = ground arith;
      in_definition = ground arith;
      in_authorization = ground arith;
    }

module _ {World : Type 0} (ports : Ports World) (libraries : Libraries)
    (contracts : CanonicalContractCatalog) (definition : AgentDefinition) (request : Fields)
    (authorization : RuntimeAuthorization) (I : World → Type 0)
    (plan_keeps : (w : World) → I w → I (ports.plan definition request w).1)
    (complete_keeps : (m : ModelRequest) (w : World) → I w → I (ports.complete m w).1)
    (now_keeps : (w : World) → I w → I (ports.now w).1)
    (monotonic_keeps : (w : World) → I w → I (ports.monotonic w).1)
    (tool_keeps : (requested : List String)
      → requested_tool_ids request ≡ ok requested
      → (payload : Fields) (correlation_id : String) (w : World)
      → IsAuthorisedCall definition authorization requested payload
      → I w
      → I (ports.execute_tool payload correlation_id w).1) where
  abbrev J : Session World → Type 0
  J s = I s.world

  call_tool-Keeps :
      (requested : List String) (correlation_id : String) (index : ℕ) (intent : ToolCallIntent)
      → requested_tool_ids request ≡ ok requested
      → Keeps J (
          call_tool ports libraries contracts definition request authorization requested
            correlation_id index intent)
  unfolding call_tool append_result
  call_tool-Keeps requested correlation_id index intent asked =
      pure-Keeps J (authorize_tool requested definition authorization intent) _ (λ u allowed.
        pure-Keeps J (item "run_id" request) _ (λ run_id e.
          pure-Keeps J (item "execution_context" request) _ (λ context e'.
            and_then-Keeps J (read ports.now) _ (λ s i. now_keeps s.world i)
              (λ at_.
                and_then-Keeps J
                  (call (
                    ports.execute_tool (tool_request libraries run_id context intent index at_)
                      correlation_id))
                  _
                  (λ s i.
                    tool_keeps requested asked _ correlation_id s.world
                      (authorize_tool-IsAuthorisedCall libraries definition authorization requested
                        intent run_id context index at_ allowed)
                      i)
                  (λ tool_result.
                    and_then-Keeps J (append_result tool_result) _ (λ s i. i) (λ u s i. i))))))

  call_tools-Keeps :
      (requested : List String) (correlation_id : String) (index : ℕ)
      (intents : List ToolCallIntent)
      → requested_tool_ids request ≡ ok requested
      → Keeps J (
          call_tools ports libraries contracts definition request authorization requested
            correlation_id index intents)
  unfolding call_tools
  call_tools-Keeps requested correlation_id index [] asked = λ s i. i
  call_tools-Keeps requested correlation_id index (intent ∷ intents) asked =
      and_then-Keeps J _ _ (call_tool-Keeps requested correlation_id index intent asked)
        (λ u. call_tools-Keeps requested correlation_id (index + 1) intents asked)

  reason-Keeps :
      (budget : ExecutionBudget) (plan : ExecutionPlan) (context : Fields) (correlation_id : String)
      → Keeps J (
          reason ports libraries contracts definition request authorization budget plan context
            correlation_id)
  unfolding reason
  reason-Keeps budget plan context correlation_id =
      and_then-Keeps J (current_results ports libraries contracts definition request authorization)
        _ (λ s i. i)
        (λ results. pure-Keeps J (required_tokens budget.max_tokens) _ (λ tokens e.
          pure-Keeps J _ _ (λ model_call e'.
            and_then-Keeps J (call (ports.complete model_call)) _
              (λ s i. complete_keeps model_call s.world i)
              (λ response. pure-Keeps J (check_cost budget response) _ (λ u e''.
                pure-Keeps J (parse_output libraries response) _
                  (λ output e3. pure-Keeps J _ _ (λ u' e4 s i. i)))))))

  complete_run-Keeps :
      (started started_clock : ℕ) (output : Json) (response : ModelResponse)
      → Keeps J (
          complete_run ports libraries contracts definition request authorization started
            started_clock output response)
  unfolding complete_run
  complete_run-Keeps started started_clock output response =
      pure-Keeps J (run_identity request) _ (λ id e.
        and_then-Keeps J (read ports.monotonic) _ (λ s i. monotonic_keeps s.world i)
          (λ clock.
            and_then-Keeps J
              (current_results ports libraries contracts definition request authorization) _
              (λ s i. i)
              (λ results.
                and_then-Keeps J (read ports.now) _ (λ s i. now_keeps s.world i)
                  (λ completed s i. i))))

  execute-Keeps :
      (budget : ExecutionBudget) (started started_clock : ℕ)
      → Keeps J (
          execute ports libraries contracts definition request authorization budget started
            started_clock)
  unfolding execute
  execute-Keeps budget started started_clock = pure-Keeps J (item "input" request) _ (λ input e.
      pure-Keeps J _ _ (λ u e1.
        and_then-Keeps J (call (ports.plan definition request)) _ (λ s i. plan_keeps s.world i)
          (λ plan. pure-Keeps J (enforce_plan_limits plan.tool_calls budget) _ (λ u' e2.
            pure-Keeps J (requested_tool_ids request) _ (λ requested asked.
              pure-Keeps J (item "execution_context" request) _ (λ raw e3.
                pure-Keeps J (as_dict raw) _ (λ context e4.
                  pure-Keeps J (item "correlation_id" context) _ (λ correlation e5.
                    and_then-Keeps J _ _ (call_tools-Keeps requested _ 1 plan.tool_calls asked)
                      (λ u''. and_then-Keeps J _ _ (reason-Keeps budget plan context _) (λ answer.
                        complete_run-Keeps started started_clock answer.0 answer.1))))))))))

  report-keeps :
      (failed : RuntimeFailure) (started : ℕ) (s : Session World) (id : Result Raised RunIdentity)
      → I s.world
      → I (report ports libraries contracts definition request authorization id failed started s).1
  unfolding report
  report-keeps failed started s (err e) i = i
  report-keeps failed started s (ok id) i = now_keeps s.world i

  settle-keeps :
      (started : ℕ) (outcome : Result Raised Fields) (s : Session World)
      → I s.world
      → I (settle ports libraries contracts definition request authorization started outcome s).1
  unfolding settle
  settle-keeps started (ok result) s i = i
  settle-keeps started (err raised) s i =
      report-keeps (failure_of raised) started s (run_identity request) i

  run_validated-keeps :
      (w : World)
      → I w
      → I (run_validated ports libraries contracts definition request authorization w).1
  unfolding run_validated attempt
  run_validated-keeps w i =
      let started = (ports.now w).0 in
      let clock = (ports.monotonic (ports.now w).1).0 in
      settle-keeps started _ _ (
        pure-Keeps J (validate_authorization libraries definition request authorization) _
          (λ budget e. execute-Keeps budget started clock)
          (record { world = (ports.monotonic (ports.now w).1).1; tool_results = [] })
          (monotonic_keeps (ports.now w).1 (now_keeps w i)))

  run_accepted-keeps :
      (validated : Result CatalogError Fields) (w : World)
      → ((out : Fields) → validated ≡ ok out → out ≡ request)
      → I w
      → I (run_accepted ports libraries contracts definition authorization validated w).1
  run_accepted-keeps (err e) w same i = i
  run_accepted-keeps (ok out) w same i = rw (same out refl) (run_validated-keeps w i)

  -- A predicate on the world that holds before a run holds after it, if the planner, the model and
  -- the clock keep it, and if a tool call keeps it for each payload that names a tool which the
  -- request asks for, the definition lists and Backend allows.
  pub run-keeps :
      (w : World) → I w → I (run ports libraries contracts definition authorization request w).1
  unfolding run
  run-keeps w i =
      run_accepted-keeps _ w
        (λ out e. ((validate-eq-ok_iff contracts agent_run_request_schema request out).0 e).1) i
