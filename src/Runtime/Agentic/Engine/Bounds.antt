-- ===== src/Runtime/Agentic/Engine/Bounds.antt =====
-- A run calls no more tools than its budget allows.
use genesis_ai.Prelude.{
  >>-eq-ok, List, Result, String, [], ap, err, false, length, nat_eq, ok, raise_if, raise_if-eq-ok,
  refl, some, string_eq, sym, ℕ, ◌++◌, ◌+◌, ◌<◌, ◌∙◌, ◌∷◌, ◌≡◌, ◌≤◌, arith,
}
use genesis_ai.Contracts.{Json, Fields}
use genesis_ai.Contracts.Catalog.{CanonicalContractCatalog}
use genesis_ai.Agents.{AgentDefinition}
use genesis_ai.ModelGateway.{ModelResponse}
use genesis_ai.Runtime.Limits.{ExecutionBudget}
use genesis_ai.Runtime.Agentic.{
  ToolCallIntent, ExecutionPlan, RuntimeAuthorization, Raised, blocked, Ports, Libraries, item,
  as_dict,
}
use genesis_ai.Runtime.Agentic.Actions.{
  Session, Action, pure, call, read, continue, and_then, append_result,
}
use genesis_ai.Runtime.Agentic.Checks.{
  validate_authorization, above, enforce_plan_limits, requested_tool_ids, authorize_tool,
  check_cost, parse_output,
}
use genesis_ai.Runtime.Agentic.Payloads.{run_identity, tool_request}
use genesis_ai.Runtime.Agentic.Engine.{
  required_tokens, call_tool, call_tools, current_results, reason, complete_run, execute, attempt,
}

-- An action appends at most `n` results of tools, whether it returns or raises.
abbrev Grows {ℓ} : {World : Type 0} {A : Type ℓ} → ℕ → Action World A → Type 0
Grows {World} n m = (s : Session World) → length (m s).1.tool_results ≤ length s.tool_results + n

-- An action that leaves the results alone.
abbrev IsSilent {ℓ} : {World : Type 0} {A : Type ℓ} → Action World A → Type 0
IsSilent {World} m = (s : Session World) → (m s).1.tool_results ≡ s.tool_results

length-append_one : (xs : List Fields) (x : Fields) → length (xs ++ x ∷ []) ≡ length xs + 1
length-append_one [] x = refl
length-append_one (y ∷ xs) x = ground (arith, length-append_one xs x)

module _ {ℓ κ} {World : Type 0} {A : Type ℓ} {B : Type κ} (n : ℕ) where
  continue-Grows :
      (r : Result Raised A) (k : A → Action World B)
      → ((a : A) → r ≡ ok a → Grows n (k a))
      → Grows n (continue r k)
  continue-Grows (err e) k h s = omega arith
  continue-Grows (ok a) k h s = h a refl s

  pure-Grows :
      (r : Result Raised A) (k : A → Action World B)
      → ((a : A) → r ≡ ok a → Grows n (k a))
      → Grows n (and_then (pure r) k)
  unfolding and_then
  pure-Grows r k h s = continue-Grows r k h s

  silent-Grows :
      (m : Action World A) (k : A → Action World B)
      → IsSilent m
      → ((a : A) → Grows n (k a))
      → Grows n (and_then m k)
  unfolding and_then
  silent-Grows m k quiet h s =
      let grown = continue-Grows (m s).0 k (λ a e. h a) (m s).1 in
      let same = ap length (quiet s) in omega arith

  and_then-Grows :
      (a : ℕ) (m : Action World A) (k : A → Action World B)
      → Grows a m
      → ((x : A) → Grows n (k x))
      → Grows (a + n) (and_then m k)
  unfolding and_then
  and_then-Grows a m k g h s =
      let first = g s in let rest = continue-Grows (m s).0 k (λ x e. h x) (m s).1 in omega arith

append_result-Grows :
    {World : Type 0} (result : Fields) → Grows {World = World} 1 (append_result result)
unfolding append_result
append_result-Grows result s = ground (arith, length-append_one s.tool_results result)

module _ {World : Type 0} (ports : Ports World) (libraries : Libraries)
    (contracts : CanonicalContractCatalog) (definition : AgentDefinition) (request : Fields)
    (authorization : RuntimeAuthorization) where
  call_tool-Grows :
      (requested : List String) (correlation_id : String) (index : ℕ) (intent : ToolCallIntent)
      → Grows 1 (
          call_tool ports libraries contracts definition request authorization requested
            correlation_id index intent)
  unfolding call_tool
  call_tool-Grows requested correlation_id index intent =
      pure-Grows 1 (authorize_tool requested definition authorization intent) _ (λ u e.
        pure-Grows 1 (item "run_id" request) _ (λ run_id e1.
          pure-Grows 1 (item "execution_context" request) _ (λ context e2.
            silent-Grows 1 (read ports.now) _ (λ s. refl)
              (λ at_.
                silent-Grows 1
                  (call (
                    ports.execute_tool (tool_request libraries run_id context intent index at_)
                      correlation_id))
                  _ (λ s. refl)
                  (λ tool_result.
                    and_then-Grows 0 1 (append_result tool_result) _
                      (append_result-Grows tool_result) (λ u' s. omega arith))))))

  call_tools-Grows :
      (requested : List String) (correlation_id : String) (index : ℕ)
      (intents : List ToolCallIntent)
      → Grows (length intents) (
          call_tools ports libraries contracts definition request authorization requested
            correlation_id index intents)
  unfolding call_tools
  call_tools-Grows requested correlation_id index [] s = omega arith
  call_tools-Grows requested correlation_id index (intent ∷ intents) s =
      let grown =
        and_then-Grows (length intents) 1
          (call_tool ports libraries contracts definition request authorization requested
            correlation_id index intent)
          (λ u.
            call_tools ports libraries contracts definition request authorization requested
              correlation_id (index + 1) intents)
          (call_tool-Grows requested correlation_id index intent)
          (λ u. call_tools-Grows requested correlation_id (index + 1) intents) s in
      ground arith

  reason-Grows :
      (budget : ExecutionBudget) (plan : ExecutionPlan) (context : Fields) (correlation_id : String)
      → Grows 0 (
          reason ports libraries contracts definition request authorization budget plan context
            correlation_id)
  unfolding reason
  reason-Grows budget plan context correlation_id =
      silent-Grows 0 (current_results ports libraries contracts definition request authorization) _
        (λ s. refl)
        (λ results. pure-Grows 0 (required_tokens budget.max_tokens) _ (λ tokens e1.
          pure-Grows 0 _ _ (λ model_call e2.
            silent-Grows 0 (call (ports.complete model_call)) _ (λ s. refl)
              (λ response. pure-Grows 0 (check_cost budget response) _ (λ u e3.
                pure-Grows 0 (parse_output libraries response) _
                  (λ output e4. pure-Grows 0 _ _ (λ u' e5 s. omega arith)))))))

  complete_run-Grows :
      (started started_clock : ℕ) (output : Json) (response : ModelResponse)
      → Grows 0 (
          complete_run ports libraries contracts definition request authorization started
            started_clock output response)
  unfolding complete_run
  complete_run-Grows started started_clock output response =
      pure-Grows 0 (run_identity request) _ (λ id e.
        silent-Grows 0 (read ports.monotonic) _ (λ s. refl)
          (λ clock.
            silent-Grows 0
              (current_results ports libraries contracts definition request authorization) _
              (λ s. refl)
              (λ results.
                silent-Grows 0 (read ports.now) _ (λ s. refl) (λ completed s. omega arith))))

  -- What the limits of the plan leave.
  abbrev IsCovered : ExecutionBudget → ℕ → Type 0
  IsCovered budget n =
      (intents : List ToolCallIntent)
      → enforce_plan_limits intents budget ≡ ok tt
      → length intents ≤ n

  run_tools-Grows :
      (n : ℕ) (budget : ExecutionBudget) (plan : ExecutionPlan) (requested : List String)
      (correlation_id : String) (rest : Action World Fields)
      → length plan.tool_calls ≤ n
      → Grows 0 rest
      → Grows n (
          and_then
            (call_tools ports libraries contracts definition request authorization requested
              correlation_id 1 plan.tool_calls)
            (λ u. rest))
  run_tools-Grows n budget plan requested correlation_id rest bound g s =
      let grown =
        and_then-Grows 0 (length plan.tool_calls)
          (call_tools ports libraries contracts definition request authorization requested
            correlation_id 1 plan.tool_calls)
          (λ u. rest) (call_tools-Grows requested correlation_id 1 plan.tool_calls) (λ u. g) s in
      omega arith

  execute-Grows :
      (n : ℕ) (budget : ExecutionBudget) (started started_clock : ℕ)
      → IsCovered budget n
      → Grows n (
          execute ports libraries contracts definition request authorization budget started
            started_clock)
  unfolding execute
  execute-Grows n budget started started_clock covered =
      pure-Grows n (item "input" request) _ (λ input e. pure-Grows n _ _ (λ u e1.
        silent-Grows n (call (ports.plan definition request)) _ (λ s. refl)
          (λ plan. pure-Grows n (enforce_plan_limits plan.tool_calls budget) _ (λ u' e2.
            pure-Grows n (requested_tool_ids request) _ (λ requested e3.
              pure-Grows n (item "execution_context" request) _ (λ raw e4.
                pure-Grows n (as_dict raw) _ (λ context e5.
                  pure-Grows n (item "correlation_id" context) _ (λ correlation e6.
                    run_tools-Grows n budget plan requested _ _ (covered plan.tool_calls e2) (
                      and_then-Grows 0 0 _ _ (reason-Grows budget plan context _) (λ answer.
                        complete_run-Grows started started_clock answer.0 answer.1))))))))))

  tool_calls-IsCovered :
      (budget : ExecutionBudget) (n : ℕ) → budget.max_tool_calls ≡ some n → IsCovered budget n
  unfolding enforce_plan_limits
  tool_calls-IsCovered budget n e intents h =
      let (u, second) =
        >>-eq-ok
          (raise_if (above (length intents + 1) budget.max_steps)
            (blocked "BUDGET_STEPS_EXCEEDED" "Execution plan exceeds max_steps."))
          _ h in
      let not_above = raise_if-eq-ok _ _ second in
      let limit : above (length intents) (some n) ≡ false =
        sym (ap (above (length intents)) e) ∙ not_above in
      ground arith

  steps-IsCovered :
      (budget : ExecutionBudget) (n : ℕ) → budget.max_steps ≡ some (n + 1) → IsCovered budget n
  unfolding enforce_plan_limits
  steps-IsCovered budget n e intents h =
      let (first, u) =
        >>-eq-ok
          (raise_if (above (length intents + 1) budget.max_steps)
            (blocked "BUDGET_STEPS_EXCEEDED" "Execution plan exceeds max_steps."))
          _ h in
      let not_above = raise_if-eq-ok _ _ first in
      let limit : above (length intents + 1) (some (n + 1)) ≡ false =
        sym (ap (above (length intents + 1)) e) ∙ not_above in
      ground arith

  attempt-Grows :
      (n : ℕ) (budget : ExecutionBudget) (started started_clock : ℕ)
      → validate_authorization libraries definition request authorization ≡ ok budget
      → IsCovered budget n
      → Grows n
          (attempt ports libraries contracts definition request authorization started started_clock)
  unfolding attempt and_then
  attempt-Grows n budget started started_clock e covered s =
      rw e (execute-Grows n budget started started_clock covered s)

  -- A run that is authorised with a budget has no more results of tools than the budget's
  -- `max_tool_calls`, however it ends.
  pub attempt-le-max_tool_calls :
      (budget : ExecutionBudget) (n started started_clock : ℕ) (world : World)
      → validate_authorization libraries definition request authorization ≡ ok budget
      → budget.max_tool_calls ≡ some n
      → length
          (attempt ports libraries contracts definition request authorization started started_clock
            (record { world = world; tool_results = [] })).1.tool_results
        ≤ n
  attempt-le-max_tool_calls budget n started started_clock world e limit =
      let bound =
        attempt-Grows n budget started started_clock e (tool_calls-IsCovered budget n limit)
          (record { world = world; tool_results = [] }) in
      omega arith

  -- A run that is authorised with a budget has fewer results of tools than the budget's
  -- `max_steps`, however it ends.
  pub attempt-lt-max_steps :
      (budget : ExecutionBudget) (n started started_clock : ℕ) (world : World)
      → validate_authorization libraries definition request authorization ≡ ok budget
      → budget.max_steps ≡ some (n + 1)
      → length
          (attempt ports libraries contracts definition request authorization started started_clock
            (record { world = world; tool_results = [] })).1.tool_results
        < n + 1
  attempt-lt-max_steps budget n started started_clock world e limit =
      let bound =
        attempt-Grows n budget started started_clock e (steps-IsCovered budget n limit)
          (record { world = world; tool_results = [] }) in
      omega arith
