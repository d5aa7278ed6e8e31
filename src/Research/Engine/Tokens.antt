-- ===== src/Research/Engine/Tokens.antt =====
-- What `ResearchEngine.research` (src/genesis/research/engine/service.py) asks of the model.
use genesis_ai.Prelude.{
  >>=-eq-ok, Bool-cases, Option, Result, Result-cases, String, [], ap, err, inl, inr, ltb, nat_eq,
  none, ok, refl, some, str_len, string_eq, sym, ℕ, ◌>>=◌, ◌||◌, ◌∙◌, ◌∷◌, ◌≡◌, ◌≤◌, arith,
}
use genesis_ai.Platform.{to_text}
use genesis_ai.Contracts.{Json, int, obj, Fields, get_field}
use genesis_ai.Contracts.Catalog.{CanonicalContractCatalog}
use genesis_ai.ModelGateway.{ModelRequest, ModelResponse}
use genesis_ai.Research.Engine.Models.{
  ResearchError, Libraries, RetrieveRequest, Retrieve, Ports, and_then, call, item, or_exception,
  retrieve_request,
}
use genesis_ai.Research.Engine.Models.{
  ResearchError, Libraries, RetrieveRequest, Retrieve, Ports, and_then, call, item, or_exception,
  retrieve_request,
}
use genesis_ai.Research.Engine.Writing.{research_template, token_limit, token_budget}
use genesis_ai.Research.Engine.{
  classified, request_for, Opened, Grounds, open_request, ground_evidence, model_request,
  read_answer, retrieved, context_of, finish, ask_model, research,
}

-- A request for at most 2000 tokens, within the token limit of the execution context, and with no
-- more tokens in its budget than it asks for.
pub record IsFrugal (execution_context : Fields) (request : ModelRequest) : Type 0 where
  pub positive : 1 ≤ request.requested_max_tokens
  pub capped : request.requested_max_tokens ≤ 2000
  pub within :
      (budget : Fields) (n : ℕ)
      → get_field "execution_budget" execution_context ≡ some (obj budget)
      → get_field "max_tokens" budget ≡ some (int n)
      → request.requested_max_tokens ≤ n
  pub budgeted : request.budget ≡ token_budget request.requested_max_tokens

token_limit-bounds :
    (budget : Option Json) (m : ℕ) → token_limit budget ≡ ok m → (1 ≤ m) × (m ≤ 2000)
unfolding token_limit
token_limit-bounds budget m h = ground arith

token_limit-within :
    (budget : Fields) (m n : ℕ)
    → token_limit (some (obj budget)) ≡ ok m
    → get_field "max_tokens" budget ≡ some (int n)
    → m ≤ n
unfolding token_limit
token_limit-within budget m n h e = let k = rw e at h in ground arith

limited-IsFrugal :
    (execution_context : Fields) (tokens : ℕ) (request : ModelRequest)
    → token_limit (get_field "execution_budget" execution_context) ≡ ok tokens
    → request.requested_max_tokens ≡ tokens
    → request.budget ≡ token_budget tokens
    → IsFrugal execution_context request
limited-IsFrugal execution_context tokens request limit asked budgeted =
    let bounds = token_limit-bounds (get_field "execution_budget" execution_context) tokens limit in
    record {
      positive = rw asked bounds.0;
      capped = rw asked bounds.1;
      within = λ budget n e k.
          rw asked (token_limit-within budget tokens n (ap token_limit (sym e) ∙ limit) k);
      budgeted = budgeted ∙ ap token_budget (sym asked);
    }

request_for-tokens :
    (run_id correlation_id prompt : String) (named : Json) (tokens : ℕ) (request : ModelRequest)
    → request_for run_id correlation_id prompt named tokens ≡ ok request
    → (request.requested_max_tokens ≡ tokens) × (request.budget ≡ token_budget tokens)
unfolding request_for
request_for-tokens run_id correlation_id prompt named tokens request h =
    let (classification, e, k) = >>=-eq-ok (classified named) _ h in
    elim (Bool-cases (ltb (str_len run_id) 3 || ltb (str_len correlation_id) 3)) [
      | inl short ↦ let impossible = rw short at k in absurd (cc)
      | inr long ↦ let made = rw long at k in (cc, cc)
    ]

module _ (libraries : Libraries) (contracts : CanonicalContractCatalog) where
  model_request-IsFrugal :
      (opened : Opened) (g : Grounds) (request : ModelRequest)
      → model_request libraries contracts opened g ≡ ok request
      → IsFrugal opened.execution_context request
  unfolding model_request
  model_request-IsFrugal opened g request h =
      let (question, e1, h1) = >>=-eq-ok (item "question" opened.request) _ h in
      let (prompt, e2, h2) =
        >>=-eq-ok
          (or_exception (
            libraries.format_map research_template (
              ("question", to_text libraries.platform question)
              ∷ ("context_bundle", libraries.platform.dumps (obj g.context))
              ∷ [])))
          _ h1 in
      let (run_id, e3, h3) = >>=-eq-ok (item "run_id" opened.request) _ h2 in
      let (correlation_id, e4, h4) = >>=-eq-ok (item "correlation_id" opened.request) _ h3 in
      let (named, e5, h5) = >>=-eq-ok (item "data_classification" opened.execution_context) _ h4 in
      let (tokens, e6, h6) =
        >>=-eq-ok (token_limit (get_field "execution_budget" opened.execution_context)) _ h5 in
      let asked =
        request_for-tokens (to_text libraries.platform run_id)
          (to_text libraries.platform correlation_id) prompt named tokens request h6 in
      limited-IsFrugal opened.execution_context tokens request e6 asked.0 asked.1

module _ {World : Type 0} (libraries : Libraries) (contracts : CanonicalContractCatalog)
    (ports : Ports World) (I : World → Type 0) where
  module _ (execution_context : Fields)
      (complete_keeps : (request : ModelRequest) (w : World)
        → IsFrugal execution_context request
        → I w
        → I (ports.complete request w).1)
      (now_keeps : (w : World) → I w → I (ports.now w).1) where
    finish-keeps :
        (opened : Opened) (g : Grounds) (response : Result ResearchError ModelResponse) (w : World)
        → I w
        → I (finish libraries contracts ports opened g response w).1
    unfolding finish
    finish-keeps opened g response w i =
        elim (Result-cases (response >>= read_answer libraries contracts g)) [
          | inl (answer, e) ↦ rw e (now_keeps w i)
          | inr (raised, e) ↦ rw e i
        ]

    ask_model-keeps :
        (opened : Opened) (g : Grounds) (w : World)
        → opened.execution_context ≡ execution_context
        → I w
        → I (ask_model libraries contracts ports opened g w).1
    unfolding ask_model
    ask_model-keeps opened g w same i =
        elim (Result-cases (model_request libraries contracts opened g)) [
          | inl (request, e) ↦ rw e (
              finish-keeps opened g (ports.complete request w).0 (ports.complete request w).1 (
                complete_keeps request w
                  (rw same at (model_request-IsFrugal libraries contracts opened g request e)) i))
          | inr (raised, e) ↦ rw e i
        ]

  module _ (opened : Opened)
      (complete_keeps : (request : ModelRequest) (w : World)
        → IsFrugal opened.execution_context request
        → I w
        → I (ports.complete request w).1)
      (now_keeps : (w : World) → I w → I (ports.now w).1) where
    grounded-keeps :
        (bundle : Result ResearchError Json) (w : World)
        → I w
        → I
            (and_then
              (bundle >>= ground_evidence libraries contracts opened.execution_context)
              (ask_model libraries contracts ports opened)
              w).1
    grounded-keeps bundle w i =
        elim (Result-cases
          (bundle >>= ground_evidence libraries contracts opened.execution_context)) [
            | inl (g, e) ↦ rw e (
                ask_model-keeps opened.execution_context complete_keeps now_keeps opened g w refl i)
            | inr (raised, e) ↦ rw e i
          ]

  module _
      (retrieve_keeps : (retrieve : Retrieve World)
        → ports.retrieve ≡ some retrieve
        → (query : RetrieveRequest) (w : World) → I w
        → I (retrieve query w).1) where
    call-keeps :
        (retrieve : Retrieve World)
        → ports.retrieve ≡ some retrieve
        → (query : Result ResearchError RetrieveRequest) (w : World) → I w
        → I (call retrieve query w).1
    call-keeps retrieve e (ok query) w i = retrieve_keeps retrieve e query w i
    call-keeps retrieve e (err raised) w i = i

    retrieved-keeps :
        (provider : Option (Retrieve World))
        → ports.retrieve ≡ provider
        → (opened : Opened) (w : World) → I w
        → I (retrieved libraries contracts ports provider opened w).1
    retrieved-keeps none e opened w i = i
    retrieved-keeps (some retrieve) e opened w i =
        call-keeps retrieve e (retrieve_request libraries opened.request) w i

    context_of-keeps :
        (opened : Opened) (w : World) → I w → I (context_of libraries contracts ports opened w).1
    unfolding context_of
    context_of-keeps opened w i = ground (arith, retrieved-keeps ports.retrieve refl opened w i)

  -- A predicate on the world that holds before a run of the engine holds after it, if the clock and
  -- the provider of the context keep it, and if the model keeps it for each request for at least one
  -- and at most 2000 tokens that lies within the token limit of the execution context.
  pub research-keeps :
      (payload : Fields)
      → ((opened : Opened)
          → open_request libraries contracts payload ≡ ok opened
          → (request : ModelRequest) (w : World) → IsFrugal opened.execution_context request
          → I w
          → I (ports.complete request w).1)
      → ((retrieve : Retrieve World)
          → ports.retrieve ≡ some retrieve
          → (query : RetrieveRequest) (w : World) → I w
          → I (retrieve query w).1)
      → ((w : World) → I w → I (ports.now w).1)
      → (w : World) → I w
      → I (research libraries contracts ports payload w).1
  unfolding research
  research-keeps payload complete_keeps retrieve_keeps now_keeps w i =
      elim (Result-cases (open_request libraries contracts payload)) [
        | inr (raised, e) ↦ rw e i
        | inl (opened, e) ↦ rw e (
            grounded-keeps opened (complete_keeps opened e) now_keeps
              (context_of libraries contracts ports opened w).0
              (context_of libraries contracts ports opened w).1
              (context_of-keeps retrieve_keeps opened w i))
      ]
