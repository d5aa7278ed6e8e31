-- ===== src/Runtime/Agentic/Engine/Outcome.antt =====
-- What a run returns.
use genesis_ai.Prelude.{
  List, Option-cases, Result, Result-cases, String, ap, err, inl, inr, is_empty, map_err-eq-ok,
  nat_eq, ok, refl, some, string_eq, true, ℕ, ◌≡◌, ◌⊎◌, arith,
}
use genesis_ai.Contracts.{Json, str, Fields, get_field}
use genesis_ai.Contracts.Catalog.{
  CatalogError, CanonicalContractCatalog, CatalogError, Conforms, validate-eq-ok_iff,
}
use genesis_ai.Contracts.Catalog
use genesis_ai.Platform.{Platform}
use genesis_ai.Agents.{AgentDefinition}
use genesis_ai.ModelGateway.{ModelResponse}
use genesis_ai.Runtime.Limits.{ExecutionBudget}
use genesis_ai.Runtime.Agentic.{
  ExecutionPlan, RuntimeAuthorization, RuntimeFailure, Raised, Ports, Libraries,
}
use genesis_ai.Runtime.Agentic.Actions.{
  Session, Returns, then-Returns, and_then-Returns, pure-Returns,
}
use genesis_ai.Runtime.Agentic.Checks.{validate_json_schema}
use genesis_ai.Runtime.Agentic.Payloads.{RunIdentity, run_identity, success_result, failure_result}
use genesis_ai.Runtime.Agentic.Engine.{
  agent_run_request_schema, agent_run_result_schema, failure_of, reason, complete_run, execute,
  attempt, report, settle, run_validated, run_accepted, run, catalog_error, RunError,
}

-- A completed result carries an output in which the validator finds no error by the output schema of the
-- definition.
abbrev pub IsCompleted : Libraries → AgentDefinition → Fields → Type 0
IsCompleted libraries definition out =
    (get_field "status" out ≡ some (str "COMPLETED"))
    × ((output : Json) × (get_field "output" out ≡ some output)
        × (is_empty (libraries.schema_errors definition.output_schema output) ≡ true))

abbrev pub IsFailed : Fields → Type 0
IsFailed out = get_field "status" out ≡ some (str "FAILED")

-- A result that the catalog has accepted, completed or failed.
abbrev pub IsReportedBy : Libraries → CanonicalContractCatalog → AgentDefinition → Fields → Type 0
IsReportedBy libraries contracts definition out =
    Conforms contracts agent_run_result_schema out
    × (IsCompleted libraries definition out ⊎ IsFailed out)

success_result-fields :
    (platform : Platform) (id : RunIdentity) (output : Json) (response : ModelResponse)
    (results : List Fields) (latency started completed : ℕ)
    → (get_field "status"
          (success_result platform id output response results latency started completed)
        ≡ some (str "COMPLETED"))
      × (get_field "output"
            (success_result platform id output response results latency started completed)
          ≡ some output)
unfolding success_result
success_result-fields platform id output response results latency started completed =
    elim (Option-cases id.parent_run_id) [
      | inl e ↦ rw e (refl, refl)
      | inr (p, e) ↦ rw e (refl, refl)
    ]

failure_result-IsFailed :
    (platform : Platform) (id : RunIdentity) (failed : RuntimeFailure) (results : List Fields)
    (started completed : ℕ)
    → IsFailed (failure_result platform id failed results started completed)
unfolding failure_result
failure_result-IsFailed platform id failed results started completed =
    elim (Option-cases id.parent_run_id) [ inl e ↦ rw e refl | inr (p, e) ↦ rw e refl ]

module _ {World : Type 0} (ports : Ports World) (libraries : Libraries)
    (contracts : CanonicalContractCatalog) (definition : AgentDefinition) (request : Fields)
    (authorization : RuntimeAuthorization) where
  abbrev IsReported : Fields → Type 0
  IsReported = IsReportedBy libraries contracts definition

  validated :
      (payload out : Fields)
      → Catalog.validate contracts agent_run_result_schema payload ≡ ok out
      → Conforms contracts agent_run_result_schema out × (out ≡ payload)
  validated payload out h =
      let (c, same) = (validate-eq-ok_iff contracts agent_run_result_schema payload out).0 h in
      (rw same c, same)

  reason-Returns :
      (budget : ExecutionBudget) (plan : ExecutionPlan) (context : Fields) (correlation_id : String)
      → Returns
          (λ answer. is_empty (libraries.schema_errors definition.output_schema answer.0) ≡ true)
          (reason ports libraries contracts definition request authorization budget plan context
            correlation_id)
  unfolding reason validate_json_schema
  reason-Returns budget plan context correlation_id = then-Returns P _ _ (λ results.
      then-Returns P _ _ (λ tokens. then-Returns P _ _ (λ model_call.
        then-Returns P _ _ (λ response. then-Returns P _ _ (λ u.
          then-Returns P _ _
            (λ output. pure-Returns P _ _ (λ u' clean s answer e. ground arith)))))))
    where
      P : Json × ModelResponse → Type 0
      P answer = is_empty (libraries.schema_errors definition.output_schema answer.0) ≡ true

  complete_run-Returns :
      (started started_clock : ℕ) (output : Json) (response : ModelResponse)
      → is_empty (libraries.schema_errors definition.output_schema output) ≡ true
      → Returns IsReported (
          complete_run ports libraries contracts definition request authorization started
            started_clock output response)
  unfolding complete_run
  complete_run-Returns started started_clock output response clean =
      then-Returns IsReported _ _ (λ id. then-Returns IsReported _ _ (λ clock.
        then-Returns IsReported _ _ (λ results. then-Returns IsReported _ _ (λ completed s out e.
          let result =
            success_result libraries.platform id output response results
              (libraries.milliseconds started_clock clock) started completed in
          let (c, same) =
            validated result out
              (map_err-eq-ok _ (Catalog.validate contracts agent_run_result_schema result) e) in
          let (status, written) =
            success_result-fields libraries.platform id output response results
              (libraries.milliseconds started_clock clock) started completed in
          (c, inl (rw same status, (output, rw same written, clean)))))))

  execute-Returns :
      (budget : ExecutionBudget) (started started_clock : ℕ)
      → Returns IsReported (
          execute ports libraries contracts definition request authorization budget started
            started_clock)
  unfolding execute
  execute-Returns budget started started_clock = then-Returns IsReported _ _ (λ input.
      then-Returns IsReported _ _ (λ u. then-Returns IsReported _ _ (λ plan.
        then-Returns IsReported _ _ (λ u'. then-Returns IsReported _ _ (λ requested.
          then-Returns IsReported _ _ (λ raw. then-Returns IsReported _ _ (λ context.
            then-Returns IsReported _ _ (λ correlation. then-Returns IsReported _ _ (λ u''.
              and_then-Returns IsReported
                (λ answer.
                  is_empty (libraries.schema_errors definition.output_schema answer.0) ≡ true)
                _ _ (reason-Returns budget plan context _)
                (λ answer clean.
                  complete_run-Returns started started_clock answer.0 answer.1 clean))))))))))

  attempt-Returns :
      (started started_clock : ℕ)
      → Returns IsReported
          (attempt ports libraries contracts definition request authorization started started_clock)
  unfolding attempt
  attempt-Returns started started_clock =
      then-Returns IsReported _ _ (λ budget. execute-Returns budget started started_clock)

  report-IsReported :
      (failed : RuntimeFailure) (started : ℕ) (s : Session World) (id : Result Raised RunIdentity)
      (out : Fields)
      → (report ports libraries contracts definition request authorization id failed started s).0
        ≡ ok out
      → IsReported out
  unfolding report
  report-IsReported failed started s (err e) out h = absurd (cc)
  report-IsReported failed started s (ok id) out h =
      let (c, same) = validated _ out (
        map_err-eq-ok catalog_error
          (Catalog.validate contracts agent_run_result_schema (
            failure_result libraries.platform id failed s.tool_results started
              (ports.now s.world).0))
          h) in
      (
        c,
        inr (
            rw same
              (failure_result-IsFailed libraries.platform id failed s.tool_results started _)),
      )

  settle-IsReported :
      (started : ℕ) (outcome : Result Raised Fields) (s : Session World) (out : Fields)
      → ((a : Fields) → outcome ≡ ok a → IsReported a)
      → (settle ports libraries contracts definition request authorization started outcome s).0
        ≡ ok out
      → IsReported out
  unfolding settle
  settle-IsReported started (ok result) s out reported h = reported out (cc)
  settle-IsReported started (err raised) s out reported h =
      report-IsReported (failure_of raised) started s (run_identity request) out h

  run_validated-IsReported :
      (w : World) (out : Fields)
      → (run_validated ports libraries contracts definition request authorization w).0 ≡ ok out
      → IsReported out
  unfolding run_validated
  run_validated-IsReported w out h =
      settle-IsReported (ports.now w).0 _ _ out
        (λ a e. attempt-Returns (ports.now w).0 (ports.monotonic (ports.now w).1).0 _ a e) h

  run_accepted-IsReported :
      (checked : Result CatalogError Fields) (w : World) (out : Fields)
      → ((accepted : Fields) → checked ≡ ok accepted → accepted ≡ request)
      → (run_accepted ports libraries contracts definition authorization checked w).0 ≡ ok out
      → (checked ≡ ok request) × IsReported out
  run_accepted-IsReported (err e) w out same h = absurd (cc)
  run_accepted-IsReported (ok accepted) w out same h =
      (ap ok (same accepted refl), run_validated-IsReported w out (rw (← same accepted refl) h))

  -- A run returns only for a request that conforms to its contract, and then a result that conforms to
  -- the contract of results: a completed one, whose output has no error by the output schema of the
  -- definition, or a failed one.
  pub run-IsReported :
      (w : World) (out : Fields)
      → (run ports libraries contracts definition authorization request w).0 ≡ ok out
      → Conforms contracts agent_run_request_schema request
        × IsReportedBy libraries contracts definition out
  unfolding run
  run-IsReported w out h =
      let accepts = validate-eq-ok_iff contracts agent_run_request_schema request in
      let (checked, reported) =
        run_accepted-IsReported (Catalog.validate contracts agent_run_request_schema request) w out
          (λ accepted e. ((accepts accepted).0 e).1) h in
      (((accepts request).0 checked).0, reported)

  -- The catalog refuses a failed result of the request, and the run raises what the catalog raises.
  abbrev pub IsRefused : RunIdentity → Result RunError Fields → Type 0
  IsRefused id answer =
      (failed : RuntimeFailure) × (results : List Fields) × (started : ℕ) × (completed : ℕ)
      × (error : CatalogError) × (Catalog.validate contracts agent_run_result_schema
            (failure_result libraries.platform id failed results started completed)
          ≡ err error)
      × (answer ≡ err (catalog_error error))

  settle-ends :
      (id : RunIdentity) (started : ℕ) (outcome : Result Raised Fields) (s : Session World)
      → run_identity request ≡ ok id
      → ((out : Fields) × ((settle ports libraries contracts definition request authorization
              started outcome s).0
            ≡ ok out))
        ⊎ IsRefused id
            (settle ports libraries contracts definition request authorization started outcome s).0
  unfolding settle report
  settle-ends id started (ok result) s e = inl (result, refl)
  settle-ends id started (err raised) s e =
      let completed = (ports.now s.world).0 in
      let result =
        failure_result libraries.platform id (failure_of raised) s.tool_results started completed in
      elim (Result-cases (Catalog.validate contracts agent_run_result_schema result)) [
        | inl (out, valid) ↦ inl (out, rw (e, valid) refl)
        | inr (error, refused) ↦ inr (
          failure_of raised,
          s.tool_results,
          started,
          completed,
          error,
          refused,
          rw (e, refused) refl,
        )
      ]

  run_validated-ends :
      (id : RunIdentity) (w : World)
      → run_identity request ≡ ok id
      → ((out : Fields) × ((run_validated ports libraries contracts definition request authorization
              w).0
            ≡ ok out))
        ⊎ IsRefused id
            (run_validated ports libraries contracts definition request authorization w).0
  unfolding run_validated
  run_validated-ends id w e = settle-ends id (ports.now w).0 _ _ e

  -- A run of a request that conforms and has the fields that identify it returns a result, whatever the
  -- planner, the tools and the model raise, unless the catalog refuses a failed result that has the
  -- identity of the request; then the run raises the error of the catalog.
  pub run-ends :
      (id : RunIdentity) (w : World)
      → Conforms contracts agent_run_request_schema request
      → run_identity request ≡ ok id
      → ((out : Fields) × ((run ports libraries contracts definition authorization request w).0
            ≡ ok out))
        ⊎ IsRefused id (run ports libraries contracts definition authorization request w).0
  unfolding run
  run-ends id w valid e =
      let checked =
        (validate-eq-ok_iff contracts agent_run_request_schema request request).1 (valid, refl) in
      rw checked (run_validated-ends id w e)
