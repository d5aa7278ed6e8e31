-- ===== src/Research/Engine/Writing.antt =====
-- What `ResearchEngine` (src/genesis/research/engine/service.py) sends to the model and writes.
use genesis_ai.Prelude.{
  List, Option, Result, String, [], err, false, filter, filter_map, if◌then◌else◌, is_empty,
  is_some, join, lookup, ltb, map, nat_eq, none, not, ok, some, sort, str_leb, str_take, string_eq,
  true, ℕ, ◌>>=◌, ◌∷◌, ◌⧺◌,
}
use genesis_ai.Contracts.{
  Json, bool, int, negative, str, arr, obj, Fields, end, field, get_field, items, texts,
  optional_field,
}
use genesis_ai.Platform.{Platform, to_text}
use genesis_ai.Runtime.Limits.{ExecutionBudget}
use genesis_ai.Research.Engine.Models.{
  exception, output_invalid, ResearchError, FindingDraft, RecommendationDraft, ResearchDraft,
  Libraries, item,
}

abbrev pub research_template : String
research_template =
    "Analyze only the supplied ContextBundle. Return JSON with findings, recommendations, and limitations. Every finding must cite one or more evidence_ids from the bundle. Recommendations are backlog candidates only and never approvals or executable commands. Question: {question}\nContextBundle: {context_bundle}"

-- `min(2_000, value)` of an `int`, of which a bool is one; a number below one is refused as a budget.
abbrev bounded : ℕ → Result ResearchError ℕ
bounded n = if ltb n 1 then err exception else ok (if ltb 2000 n then 2000 else n)

abbrev int_limit : Option Json → Result ResearchError ℕ
int_limit (some (int n)) = bounded n
int_limit (some (negative n)) = err exception
int_limit (some (bool true)) = bounded 1
int_limit (some (bool false)) = bounded 0
int_limit _ = ok 2000

-- Lines 122 to 127, and the constraint of `ExecutionBudget`.
unfoldable pub token_limit : Option Json → Result ResearchError ℕ
token_limit (some (obj budget)) = int_limit (get_field "max_tokens" budget)
token_limit _ = ok 2000

-- `ExecutionBudget(max_tokens=max_tokens, max_steps=1)`
abbrev pub token_budget : ℕ → ExecutionBudget
token_budget max_tokens = record {
  max_tokens = some max_tokens;
  max_cost = none;
  max_steps = some 1;
  max_tool_calls = none;
  max_children = none;
  max_depth = none;
  timeout_seconds = none;
  concurrency_limit = none;
}

-- `[f(x) for x in xs]`
abbrev pub for_all {ℓ κ} :
    {A : Type ℓ} {B : Type κ}
    → (A → Result ResearchError B)
    → List A
    → Result ResearchError (List B)
for_all f [] = ok []
for_all f (x ∷ xs) = f x >>= λ y. for_all f xs >>= λ ys. ok (y ∷ ys)

abbrev pub unknown_ids : (evidence_ids : List String) → List (String × Json) → List String
unknown_ids evidence_ids evidence = filter (λ id. not (is_some (lookup id evidence))) evidence_ids

-- `[evidence_by_id[evidence_id] for evidence_id in evidence_ids]`
abbrev pub refs_of : List String → List (String × Json) → List Json
refs_of evidence_ids evidence = filter_map (λ id. lookup id evidence) evidence_ids

-- `_references`: after the check, every id has its reference.
unfoldable pub references :
    (evidence_ids : List String) → List (String × Json) → Result ResearchError (List Json)
references evidence_ids evidence =
    let unknown = unknown_ids evidence_ids evidence in
    if not (is_empty unknown)
    then err (
        output_invalid
          ("Research draft cites unknown evidence: " ⧺ join ", " (sort str_leb unknown)))
    else ok (refs_of evidence_ids evidence)

abbrev values : List Json → Json
values refs = arr (items (λ value. value) refs)

-- `_finding`
unfoldable pub finding_fields : List (String × Json) → FindingDraft → Result ResearchError Fields
finding_fields evidence draft = references draft.evidence_ids evidence >>= λ refs. ok (
    field "finding_id" (str draft.finding_id) (
      field "finding_type" (str draft.finding_type) (
        field "statement" (str draft.statement) (
          field "confidence" (Json.float draft.confidence) (
            field "output_state" (str "AI_INFERRED") (
              field "evidence_refs" (values refs) (
                field "limitations" (texts draft.limitations) (
                  optional_field "domain" str draft.domain (
                    optional_field "title" str draft.title
                      (optional_field "severity" str draft.severity end))))))))))

-- `_recommendation`
unfoldable pub recommendation_fields :
    List (String × Json) → RecommendationDraft → Result ResearchError Fields
recommendation_fields evidence draft = references draft.evidence_ids evidence >>= λ refs. ok (
    field "recommendation_id" (str draft.recommendation_id) (
      field "summary" (str draft.summary) (
        field "recommended_action" (str draft.recommended_action) (
          field "confidence" (Json.float draft.confidence) (
            field "author_type" (str "AI") (
              field "finding_ids" (texts draft.finding_ids) (
                field "evidence_refs" (values refs) (
                  field "limitations" (texts draft.limitations)
                    (field "backlog_candidate" (bool draft.backlog_candidate) end)))))))))

pub record Answer : Type 0 where
  pub draft : ResearchDraft
  pub findings : List Fields
  pub recommendations : List Fields

-- `_identifier`
abbrev pub identifier : Platform → (prefix seed : String) → String
identifier platform prefix seed = prefix ⧺ "_" ⧺ str_take 24 (platform.sha256_hex seed)

-- The payload of lines 155 to 178.
unfoldable pub result_fields :
    Libraries
    → (request execution_context : Fields) → List (String × Json)
    → Answer
    → (now : ℕ) → Result ResearchError Fields
result_fields libraries request execution_context evidence answer now = do
  research_id ← item "research_id" request
  run_id ← item "run_id" request
  tenant_id ← item "tenant_id" execution_context
  organization_id ← item "organization_id" execution_context
  workspace_id ← item "workspace_id" execution_context
  correlation_id ← item "correlation_id" request
  let seed =
      to_text libraries.platform research_id ⧺ ":" ⧺ to_text libraries.platform correlation_id
  let refs = values (map (λ (entry : String × Json). entry.1) evidence)
  ok (
      field "research_id" research_id (
        field "run_id" run_id (
          field "tenant_id" tenant_id (
            field "organization_id" organization_id (
              field "workspace_id" workspace_id (
                field "correlation_id" correlation_id (
                  field "output_state" (str "NEEDS_REVIEW") (
                    field "findings" (arr (items obj answer.findings)) (
                      field "recommendations" (arr (items obj answer.recommendations)) (
                        field "evidence_bundle"
                          (obj (
                            field "bundle_id" (str (identifier libraries.platform "bundle" seed)) (
                              field "tenant_id" tenant_id (
                                field "organization_id" organization_id (
                                  field "workspace_id" workspace_id (
                                    field "run_id" run_id (
                                      field "correlation_id" correlation_id
                                        (field "evidence_refs" refs end))))))))
                          (field "limitations" (texts answer.draft.limitations) (
                            field "completed_at" (str (libraries.platform.utc_text now))
                              end))))))))))))
