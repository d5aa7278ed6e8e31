-- ===== src/Research/Engine.antt =====
-- src/genesis/research/engine/service.py: `ResearchEngine.research`. What it awaits, and the clock, are
-- ports that change a `World`.
mod Models
unfoldable pub use Models.*
pub mod Writing
pub mod Grounding
pub mod Bundle
pub mod Citations
pub mod Tokens
mod Tests
use genesis_ai.Prelude.{
  Bool, List, Option, Result, String, [], assign, err, false, for_each, if◌then◌else◌, is_empty,
  ltb, map_err, nat_eq, none, not, ok, raise_if, some, str_len, string_eq, true, ℕ, ◌-◌, ◌>>=◌,
  ◌>>◌, ◌||◌, ◌∷◌, ◌⧺◌, arith,
}
use genesis_ai.Contracts.{Json, null, str, obj, Items, nil, cons, Fields, end, field, get_field}
use genesis_ai.Contracts.Catalog.{CanonicalContractCatalog, validate}
use genesis_ai.Platform.{to_text}
use genesis_ai.ModelGateway.{ModelRequest, ModelResponse, classification_of}
use genesis_ai.Runtime.Context.Models.{DataClassification}
use genesis_ai.Research.Engine.Models.{exception, output_invalid, contract}
use genesis_ai.Research.Engine.Models.{
  ResearchError, Libraries, json_equal, Retrieve, Ports, and_then, call, item, as_mapping,
  or_invalid, or_exception, iterated, retrieve_request,
}
use genesis_ai.Research.Engine.Writing.{
  research_template, token_limit, token_budget, for_all, finding_fields, recommendation_fields,
  Answer, result_fields,
}

abbrev pub classified : Json → Result ResearchError DataClassification
classified (str s) = found (classification_of s)
  where
    found : Option DataClassification → Result ResearchError DataClassification
    found none = err exception
    found (some c) = ok c
classified value = err exception

-- `ModelRequest(...)`, with the constraints that pydantic checks.
unfoldable pub request_for :
    (run_id correlation_id prompt : String)
    → Json
    → (max_tokens : ℕ) → Result ResearchError ModelRequest
request_for run_id correlation_id prompt named max_tokens = classified named >>= λ classification.
    if ltb (str_len run_id) 3 || ltb (str_len correlation_id) 3
    then err exception
    else ok (record {
      run_id = run_id;
      correlation_id = correlation_id;
      policy_ref = "policy.evidence-bound-research.v1";
      purpose = "evidence-bound-research";
      data_classification = classification;
      prompt_id = some "genesis.research.evidence-bound";
      prompt_version = some "1.0.0";
      messages = field "role" (str "user") (field "content" (str prompt) end) ∷ [];
      requested_max_tokens = max_tokens;
      budget = token_budget max_tokens;
    })

-- The request and its execution context.
pub record Opened : Type 0 where
  pub request : Fields
  pub execution_context : Fields

-- The bundle of the context, and its evidence by id.
pub record Grounds : Type 0 where
  pub context : Fields
  pub evidence : List (String × Json)

abbrev pub identity_fields : List String
identity_fields =
    "tenant_id" ∷ "organization_id" ∷ "workspace_id" ∷ "actor_id" ∷ "correlation_id" ∷ []

module _ (libraries : Libraries) (contracts : CanonicalContractCatalog) where
  abbrev pub checked : (schema_id : String) → Fields → Result ResearchError Fields
  checked schema_id payload = map_err contract (validate contracts schema_id payload)

  -- Lines 96 to 98.
  unfoldable pub open_request : Fields → Result ResearchError Opened
  open_request payload = do
    request ← checked "https://schemas.alos.dev/v1/research/research-request.schema.json" payload
    value ← item "execution_context" request
    execution_context ← as_mapping value
    ok (record { request = request; execution_context = execution_context })

  -- The body of the loop of `_validate_context_identity`.
  abbrev pub check_identity :
      (context execution_context : Fields) → String → Result ResearchError (Unit {0})
  check_identity context execution_context name = item name context >>= λ mine.
      item name execution_context >>= λ issued.
      raise_if (not (json_equal libraries mine issued))
        (output_invalid ("ContextBundle " ⧺ name ⧺ " does not match execution context"))

  -- `{str(ref["evidence_id"]): ref for ref in refs}`
  abbrev pub index_evidence :
      Items → List (String × Json) → Result ResearchError (List (String × Json))
  index_evidence nil evidence = ok evidence
  index_evidence (cons ref refs) evidence = as_mapping ref >>= λ fields.
      item "evidence_id" fields >>= λ evidence_id.
      index_evidence refs (assign (to_text libraries.platform evidence_id) ref evidence)

  -- Lines 110 to 120, for the context bundle that is given or retrieved.
  unfoldable pub ground_evidence :
      (execution_context : Fields) → Json → Result ResearchError Grounds
  ground_evidence execution_context bundle = do
    fields ← or_invalid "context_bundle must be an object" (as_mapping bundle)
    context ← checked "https://schemas.alos.dev/v1/context/context-bundle.schema.json" fields
    for_each (check_identity context execution_context) identity_fields
    refs ← iterated (get_field "evidence_refs" context)
    evidence ← index_evidence refs []
    raise_if (is_empty evidence)
        (output_invalid "Research requires at least one canonical evidence reference")
    ok (record { context = context; evidence = evidence })

  -- The `ModelRequest` of lines 128 to 145.
  unfoldable pub model_request : Opened → Grounds → Result ResearchError ModelRequest
  model_request opened grounds = do
    question ← item "question" opened.request
    prompt ← or_exception (
        libraries.format_map research_template (
          ("question", to_text libraries.platform question)
          ∷ ("context_bundle", libraries.platform.dumps (obj grounds.context))
          ∷ []))
    run_id ← item "run_id" opened.request
    correlation_id ← item "correlation_id" opened.request
    named ← item "data_classification" opened.execution_context
    max_tokens ← token_limit (get_field "execution_budget" opened.execution_context)
    request_for (to_text libraries.platform run_id) (to_text libraries.platform correlation_id)
        prompt named max_tokens

  -- Lines 147 to 154.
  unfoldable pub read_answer : Grounds → ModelResponse → Result ResearchError Answer
  read_answer grounds response = do
    draft ←
        or_invalid "ModelGateway returned an invalid research draft"
          (libraries.read_draft response.content)
    findings ← for_all (finding_fields grounds.evidence) draft.findings
    recommendations ← for_all (recommendation_fields grounds.evidence) draft.recommendations
    ok (record { draft = draft; findings = findings; recommendations = recommendations })

  -- Lines 155 to 179, with the time at which the clock is read.
  unfoldable pub write_result : Opened → Grounds → Answer → (now : ℕ) → Result ResearchError Fields
  write_result opened grounds answer now = do
    payload ←
        result_fields libraries opened.request opened.execution_context grounds.evidence answer now
    checked "https://schemas.alos.dev/v1/research/research-result.schema.json" payload

module _ {World : Type 0} (libraries : Libraries) (contracts : CanonicalContractCatalog)
    (ports : Ports World) where
  abbrev pub retrieved :
      Option (Retrieve World) → Opened → World → Result ResearchError Json × World
  retrieved none opened w = (
    err (output_invalid "ResearchRequest requires context_bundle or a Backend context provider"),
    w,
  )
  retrieved (some retrieve) opened w = call retrieve (retrieve_request libraries opened.request) w

  -- Lines 99 to 109: a bundle that is missing or null is asked of the provider.
  unfoldable pub context_of : Opened → World → Result ResearchError Json × World
  context_of opened w =
      if is_given (get_field "context_bundle" opened.request)
      then (item "context_bundle" opened.request, w)
      else retrieved ports.retrieve opened w
    where
      is_given : Option Json → Bool
      is_given none = false
      is_given (some null) = false
      is_given (some bundle) = true

  -- Lines 146 to 179, for the response of the model. The clock, which the source reads last, is read
  -- before the fields of the request that may be missing.
  unfoldable pub finish :
      Opened
      → Grounds
      → Result ResearchError ModelResponse
      → World
      → Result ResearchError Fields × World
  finish opened grounds response =
      and_then (response >>= read_answer libraries contracts grounds) (λ answer w.
        let (now, after) = ports.now w in
        (write_result libraries contracts opened grounds answer now, after))

  -- Lines 121 to 179.
  unfoldable pub ask_model : Opened → Grounds → World → Result ResearchError Fields × World
  ask_model opened grounds =
      and_then (model_request libraries contracts opened grounds) (λ request w.
        let (response, after) = ports.complete request w in finish opened grounds response after)

  unfoldable pub research : Fields → World → Result ResearchError Fields × World
  research payload = and_then (open_request libraries contracts payload) (λ opened w.
      let (bundle, after) = context_of opened w in
      and_then (bundle >>= ground_evidence libraries contracts opened.execution_context)
        (ask_model opened) after)
