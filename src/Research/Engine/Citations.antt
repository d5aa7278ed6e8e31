-- ===== src/Research/Engine/Citations.antt =====
-- What the findings and recommendations of `ResearchEngine.research`
-- (src/genesis/research/engine/service.py) cite.
use mathlib.Core.Path.{subst}
use genesis_ai.Prelude.{
  Pairwise, Pairwise-map, >>=-eq-ok, List, Result, String, ap, err, map_err-eq-ok, nat_eq, ok, refl,
  some, string_eq, sym, ℕ, ◌>>=◌, ◌∙◌, ◌≡◌,
}
use genesis_ai.Contracts.{Json, str, arr, obj, Items, Fields, get_field, items}
use genesis_ai.Contracts.Catalog.{CanonicalContractCatalog, Conforms, validate-eq-ok_iff}
use genesis_ai.ModelGateway.{ModelRequest, ModelResponse}
use genesis_ai.Research.Engine.Models.{
  ResearchError, FindingDraft, RecommendationDraft, ResearchDraft, Libraries, Ports, and_then, item,
  or_invalid,
}
use genesis_ai.Research.Engine.Writing.{
  for_all, finding_fields, recommendation_fields, Answer, result_fields,
}
use genesis_ai.Research.Engine.{
  Opened, Grounds, open_request, ground_evidence, model_request, read_answer, write_result,
  context_of, finish, ask_model, research, contract,
}
use genesis_ai.Research.Engine.Bundle.{
  or_invalid-eq-ok, IsGround, AreGrounds, ground_evidence-AreGrounds,
}
use genesis_ai.Research.Engine.Grounding.{
  IsReference, CitesAs, for_all-Pairwise, finding_fields-CitesAs, recommendation_fields-CitesAs,
  ok_field,
}

pub and_then-eq-ok :
    {World A B : Type 0} (m : Result ResearchError A)
    (next : A → World → Result ResearchError B × World) (w : World) {b : B}
    → (and_then m next w).0 ≡ ok b
    → (a : A) × (m ≡ ok a) × ((next a w).0 ≡ ok b)
and_then-eq-ok (err e) next w h = absurd (cc)
and_then-eq-ok (ok a) next w h = (a, refl, h)

module _ (libraries : Libraries) where
  -- A written finding has the statement of a drafted one, and for each id that the draft cites, in
  -- order, a reference of the bundle that has the id. Likewise for a recommendation.
  abbrev pub WritesFinding : Items → FindingDraft → Fields → Type 0
  WritesFinding refs draft written =
      (get_field "statement" written ≡ some (str draft.statement))
      × CitesAs (IsReference libraries refs) draft.evidence_ids written

  abbrev pub WritesRecommendation : Items → RecommendationDraft → Fields → Type 0
  WritesRecommendation refs draft written =
      (get_field "summary" written ≡ some (str draft.summary))
      × CitesAs (IsReference libraries refs) draft.evidence_ids written

  abbrev pub Writes : Items → ResearchDraft → Fields → Type 0
  Writes refs draft out =
      ((findings : List Fields) × (get_field "findings" out ≡ some (arr (items obj findings)))
        × Pairwise (WritesFinding refs) draft.findings findings)
      × ((recommendations : List Fields) × (get_field "recommendations" out
            ≡ some (arr (items obj recommendations)))
          × Pairwise (WritesRecommendation refs) draft.recommendations recommendations)

  module _ (contracts : CanonicalContractCatalog) where
    -- What a run that ends in `out` has gone through: the request that it opened, the bundle that it
    -- was given or retrieved, and the answer of the model that it read.
    pub record IsGrounded {World : Type 0} (ports : Ports World) (payload : Fields) (w : World)
        (out : Fields) : Type 0 where
      pub opened : Opened
      pub opens : open_request libraries contracts payload ≡ ok opened
      pub bundle : Json
      pub supplied : (context_of libraries contracts ports opened w).0 ≡ ok bundle
      pub ground : IsGround libraries contracts opened.execution_context bundle
      pub sent : ModelRequest
      pub response : ModelResponse
      pub answered :
          (ports.complete sent (context_of libraries contracts ports opened w).1).0 ≡ ok response
      pub draft : ResearchDraft
      pub read : libraries.read_draft response.content ≡ ok draft
      pub writes : Writes ground.refs draft out
      pub accepted :
          Conforms contracts "https://schemas.alos.dev/v1/research/research-result.schema.json" out

    -- The answer that is read has what is written, draft by draft.
    record IsAnswer (refs : Items) (response : ModelResponse) (answer : Answer) : Type 0 where
      read : libraries.read_draft response.content ≡ ok answer.draft
      findings : Pairwise (WritesFinding refs) answer.draft.findings answer.findings
      recommendations :
          Pairwise (WritesRecommendation refs) answer.draft.recommendations answer.recommendations

    read_answer-IsAnswer :
        (execution_context : Fields) (bundle : Json) (g : Grounds)
        (facts : AreGrounds libraries contracts execution_context bundle g)
        (response : ModelResponse) (answer : Answer)
        → read_answer libraries contracts g response ≡ ok answer
        → IsAnswer facts.ground.refs response answer
    unfolding read_answer
    read_answer-IsAnswer execution_context bundle g facts response answer h =
        let (draft, e1, h1) =
          >>=-eq-ok
            (or_invalid "ModelGateway returned an invalid research draft"
              (libraries.read_draft response.content))
            _ h in
        let (findings, e2, h2) =
          >>=-eq-ok (for_all (finding_fields g.evidence) draft.findings) _ h1 in
        let (recommendations, e3, h3) =
          >>=-eq-ok (for_all (recommendation_fields g.evidence) draft.recommendations) _ h2 in
        let made : Answer = record {
          draft = draft;
          findings = findings;
          recommendations = recommendations;
        } in
        let built : IsAnswer facts.ground.refs response made = record {
          read = or_invalid-eq-ok "ModelGateway returned an invalid research draft" _ draft e1;
          findings =
              for_all-Pairwise (WritesFinding facts.ground.refs) (finding_fields g.evidence)
                (λ f written e.
                  let (text, (refs, field_refs, found)) =
                    finding_fields-CitesAs g.evidence f written e in
                  (text, (refs, field_refs, Pairwise-map f.evidence_ids refs facts.named found)))
                draft.findings findings e2;
          recommendations =
              for_all-Pairwise (WritesRecommendation facts.ground.refs)
                (recommendation_fields g.evidence)
                (λ r written e.
                  let (text, (refs, field_refs, found)) =
                    recommendation_fields-CitesAs g.evidence r written e in
                  (text, (refs, field_refs, Pairwise-map r.evidence_ids refs facts.named found)))
                draft.recommendations recommendations e3;
        } in
        let equal : made ≡ answer = cc in subst (IsAnswer facts.ground.refs response) equal built

    result_fields-written :
        (request execution_context : Fields) (evidence : List (String × Json)) (answer : Answer)
        (now : ℕ) (out : Fields)
        → result_fields libraries request execution_context evidence answer now ≡ ok out
        → (get_field "findings" out ≡ some (arr (items obj answer.findings)))
          × (get_field "recommendations" out ≡ some (arr (items obj answer.recommendations)))
    unfolding result_fields
    result_fields-written request execution_context evidence answer now out h =
        let (research_id, e1, h1) = >>=-eq-ok (item "research_id" request) _ h in
        let (run_id, e2, h2) = >>=-eq-ok (item "run_id" request) _ h1 in
        let (tenant_id, e3, h3) = >>=-eq-ok (item "tenant_id" execution_context) _ h2 in
        let (organization_id, e4, h4) = >>=-eq-ok (item "organization_id" execution_context) _ h3 in
        let (workspace_id, e5, h5) = >>=-eq-ok (item "workspace_id" execution_context) _ h4 in
        let (correlation_id, e6, h6) = >>=-eq-ok (item "correlation_id" request) _ h5 in
        (
          ap (λ (r : Result ResearchError Fields). ok_field "findings" r) (sym h6),
          ap (λ (r : Result ResearchError Fields). ok_field "recommendations" r) (sym h6),
        )

    finish-Writes :
        {World : Type 0} (ports : Ports World) (opened : Opened) (bundle : Json) (g : Grounds)
        (answered : Result ResearchError ModelResponse) (w : World) (out : Fields)
        (facts : AreGrounds libraries contracts opened.execution_context bundle g)
        → (finish libraries contracts ports opened g answered w).0 ≡ ok out
        → (response : ModelResponse) × (draft : ResearchDraft) × (answered ≡ ok response)
          × (libraries.read_draft response.content ≡ ok draft)
          × Writes facts.ground.refs draft out
          × Conforms contracts "https://schemas.alos.dev/v1/research/research-result.schema.json"
              out
    unfolding finish write_result
    finish-Writes ports opened bundle g answered w out facts h =
        let (answer, e1, h1) =
          and_then-eq-ok (answered >>= read_answer libraries contracts g) _ w h in
        let (response, e2, e3) = >>=-eq-ok answered _ e1 in
        let is = read_answer-IsAnswer opened.execution_context bundle g facts response answer e3 in
        let now = (ports.now w).0 in
        let (payload, e4, h4) =
          >>=-eq-ok
            (result_fields libraries opened.request opened.execution_context g.evidence answer now)
            _ h1 in
        let (accepted, same) =
          (validate-eq-ok_iff contracts
              "https://schemas.alos.dev/v1/research/research-result.schema.json" payload out).0
            (map_err-eq-ok contract _ h4) in
        let (found, recommended) =
          result_fields-written opened.request opened.execution_context g.evidence answer now out
            (e4 ∙ ap ok (sym same)) in
        (
          response,
          answer.draft,
          e2,
          is.read,
          (
            (answer.findings, found, is.findings),
            (answer.recommendations, recommended, is.recommendations),
          ),
          rw same accepted,
        )

    -- A result of the engine conforms to its contract, and is written for the bundle that the request
    -- gives or the provider supplies, which has the tenant, organization, workspace, actor and
    -- correlation of the execution context and at least one reference. Its findings and recommendations
    -- are those of the draft that the model has answered with, in order, and each has one reference of
    -- the bundle for each id that the draft cites, with that id. This holds whatever the provider of the
    -- context and the model answer.
    pub research-IsGrounded :
        {World : Type 0} (ports : Ports World) (payload : Fields) (w : World) (out : Fields)
        → (research libraries contracts ports payload w).0 ≡ ok out
        → IsGrounded ports payload w out
    unfolding research ask_model
    research-IsGrounded ports payload w out h =
        let (opened, e1, h1) = and_then-eq-ok (open_request libraries contracts payload) _ w h in
        let (bundle, after) = context_of libraries contracts ports opened w in
        let (g, e2, h2) =
          and_then-eq-ok (bundle >>= ground_evidence libraries contracts opened.execution_context) _
            after h1 in
        let (value, e3, e4) = >>=-eq-ok bundle _ e2 in
        let facts =
          ground_evidence-AreGrounds libraries contracts opened.execution_context value g e4 in
        let (request, e5, h5) =
          and_then-eq-ok (model_request libraries contracts opened g) _ after h2 in
        let (response, draft, e6, read, writes, accepted) =
          finish-Writes ports opened value g (ports.complete request after).0
            (ports.complete request after).1 out facts h5 in
        record {
          opened = opened;
          opens = e1;
          bundle = value;
          supplied = e3;
          ground = facts.ground;
          sent = request;
          response = response;
          answered = e6;
          draft = draft;
          read = read;
          writes = writes;
          accepted = accepted;
        }
