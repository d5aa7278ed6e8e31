-- ===== src/Research/Decision.antt =====
-- src/genesis/research/decision.py: whether the evidence at hand is enough, or Backend is asked to
-- retrieve more. A cost is the bit pattern of a non-negative float.
mod Models
unfoldable pub use Models.*
pub mod Scope
pub mod Rules
pub mod Outcome
pub mod Refinement
use genesis_ai.Prelude.{
  ◌>>=◌, Bool, List, Option, Result, String, [], contains, false, filter, for_each, if◌then◌else◌,
  is_empty, is_subset, join, ltb, map, map_err, nat_eq, none, not, ok, raise_if, some, sort,
  str_leb, string_eq, true, ◌&&◌, ◌++◌, ◌+◌, ◌-◌, ◌>>◌, ◌∷◌, ◌⧺◌, arith,
}
use genesis_ai.Contracts.{Json, Fields, end, field, null, str, texts, obj}
use genesis_ai.Contracts.Catalog.{CanonicalContractCatalog, validate}
use genesis_ai.Runtime.Context.Models.{DataClassification, classification_rank}
use genesis_ai.Research.Domains.{domain_value, domain_profile}
use genesis_ai.Research.Sources.{is_current, is_reliable}

abbrev pub scope_denied : ResearchDecisionRequest → ResearchDecisionFailure
scope_denied request = record {
  code = "RESEARCH_EVIDENCE_SCOPE_DENIED";
  message = "Evidence is outside the Backend-authorized research scope.";
  correlation_id = request.correlation_id;
}

abbrev pub classification_denied : ResearchDecisionRequest → ResearchDecisionFailure
classification_denied request = record {
  code = "RESEARCH_EVIDENCE_CLASSIFICATION_DENIED";
  message = "Evidence classification exceeds the authorized research context.";
  correlation_id = request.correlation_id;
}

abbrev pub contract_invalid : ResearchDecisionRequest → ResearchDecisionFailure
contract_invalid request = record {
  code = "RESEARCH_DECISION_CONTRACT_INVALID";
  message = "Research decision does not satisfy the canonical contract.";
  correlation_id = request.correlation_id;
}

-- The body of the loop of `_validate_evidence_scope`.
abbrev pub check_evidence :
    ResearchDecisionRequest → EvidenceCandidate → Result ResearchDecisionFailure (Unit {0})
check_evidence request item =
    raise_if (not (is_subset item.scope_refs request.authorized_scope_refs)) (scope_denied request)
    >> raise_if
        (ltb (classification_rank request.data_classification)
          (classification_rank item.data_classification))
        (classification_denied request)

unfoldable pub validate_evidence_scope :
    ResearchDecisionRequest → Result ResearchDecisionFailure (Unit {0})
validate_evidence_scope request = for_each (check_evidence request) request.evidence

abbrev is_restricted : DataClassification → Bool
is_restricted DataClassification.restricted = true
is_restricted _ = false

unfoldable pub external_denial : ResearchDecisionRequest → Option String
external_denial request =
    let external = request.external in
    if not external.enabled
    then some "External research is disabled by the Backend boundary."
    else if is_restricted request.data_classification
    then some "Restricted context cannot be sent to external retrieval."
    else if not (contains request.allowed_tool_ids external.tool_id)
    then some "The external retrieval tool is not in the Backend allowlist."
    else if not (contains request.authorized_permission_refs external.permission_ref)
    then some "The actor lacks the Backend-authorized external research permission."
    else if ltb request.maximum_external_cost external.estimated_cost
    then some "External retrieval exceeds the authorized cost budget."
    else none

-- The payload of `_result`.
unfoldable pub canonical_decision :
    ResearchDecisionRequest
    → ResearchDecisionKind
    → (evidence_ids reasons : List String) → Option BackendRetrievalProposal
    → Fields
canonical_decision request decision evidence_ids reasons retrieval =
    field "correlation_id" (str request.correlation_id) (
      field "decision" (str (decision_value decision)) (
        field "domain" (str (domain_value request.domain)) (
          field "selected_evidence_ids" (texts evidence_ids) (
            field "reasons" (texts reasons) (
              field "retrieval" (retrieval_json retrieval)
                (field "external_content_trust" (str "UNTRUSTED") end))))))
  where
    retrieval_json : Option BackendRetrievalProposal → Json
    retrieval_json none = null
    retrieval_json (some proposal) = obj (proposal_fields proposal)

module _ (contracts : CanonicalContractCatalog) (request : ResearchDecisionRequest) where
  -- `_result`
  unfoldable pub result :
      ResearchDecisionKind
      → (evidence_ids reasons : List String) → Option BackendRetrievalProposal
      → Result ResearchDecisionFailure ResearchDecision
  result decision evidence_ids reasons retrieval = do
    validated ←
        map_err (λ _. contract_invalid request)
          (validate contracts "https://schemas.alos.dev/v1/research/research-decision.schema.json"
            (canonical_decision request decision evidence_ids reasons retrieval))
    ok (record {
      correlation_id = request.correlation_id;
      decision = decision;
      domain_profile = domain_profile request.domain;
      selected_evidence_ids = evidence_ids;
      reasons = reasons;
      authorized_scope_refs = request.authorized_scope_refs;
      authorized_permission_refs = request.authorized_permission_refs;
      allowed_tool_ids = request.allowed_tool_ids;
      retrieval = retrieval;
      canonical_research_decision = validated;
    })

-- `current`
abbrev pub is_usable : EvidenceCandidate → Bool
is_usable item = item.available && is_current item.freshness && is_reliable item.reliability

abbrev pub current_evidence : ResearchDecisionRequest → List EvidenceCandidate
current_evidence request = filter is_usable request.evidence

-- `internal`, or `memory`
abbrev pub of_channel : ResearchChannel → ResearchDecisionRequest → List EvidenceCandidate
of_channel channel request =
    filter (λ item. channel_beq item.channel channel) (current_evidence request)

abbrev evidence_ids : List EvidenceCandidate → List String
evidence_ids items = map (λ item. item.evidence_id) items

-- Lines 167 to 174.
unfoldable pub exclusion_reasons : ResearchDecisionRequest → List String
exclusion_reasons request =
    let stale =
      sort str_leb
        (evidence_ids (filter (λ item. not (is_current item.freshness)) request.evidence)) in
    "No current authorized internal evidence or sufficient memory is available."
    ∷ (if is_empty stale
        then []
        else ("Stale or unknown evidence was excluded: " ⧺ join ", " stale) ∷ [])

module _ (contracts : CanonicalContractCatalog) (request : ResearchDecisionRequest) where
  -- Lines 175 to 193.
  unfoldable pub ask_external : Option String → Result ResearchDecisionFailure ResearchDecision
  ask_external none =
      result contracts request ResearchDecisionKind.request_external_research []
        (exclusion_reasons request
          ++ ("External evidence retrieval is required and authorized via Backend." ∷ []))
        (some (retrieval_proposal request.external.tool_id))
  ask_external (some denial) =
      result contracts request ResearchDecisionKind.insufficient_evidence []
        (exclusion_reasons request ++ (denial ∷ [])) none

  -- Lines 129 to 193.
  unfoldable pub choose : Result ResearchDecisionFailure ResearchDecision
  choose =
      let internal = of_channel ResearchChannel.internal_source request in
      let memory = of_channel ResearchChannel.memory request in
      if not request.information_complete
      then result contracts request ResearchDecisionKind.needs_information []
          ("The task is missing information required to define the evidence need." ∷ []) none
      else if not (is_empty internal)
      then result contracts request ResearchDecisionKind.use_internal_source (evidence_ids internal)
          ("Current authorized internal evidence satisfies the evidence need." ∷ []) none
      else if not (is_empty memory) && is_modest request.risk
      then result contracts request ResearchDecisionKind.use_memory (evidence_ids memory)
          ("Current authorized memory satisfies the bounded evidence need." ∷ []) none
      else ask_external (external_denial request)

  unfoldable pub decide : Result ResearchDecisionFailure ResearchDecision
  decide = validate_evidence_scope request >> choose
