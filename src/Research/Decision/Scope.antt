-- ===== src/Research/Decision/Scope.antt =====
-- What the scope check of src/genesis/research/decision.py admits, evidence and retrieval.
use genesis_ai.Prelude.{
  All, All-map, All→for_each, Subset, Subset→is_subset, contains, for_each→All, is_subset→Subset,
  nat_eq, none, ok, string_eq, true, ◌<◌, ◌↔◌, ◌≡◌, ◌≤◌, arith,
}
use genesis_ai.Runtime.Context.Models.{classification_rank}
use genesis_ai.Research.Decision.Models.{EvidenceCandidate, ResearchDecisionRequest}
use genesis_ai.Research.Decision.{check_evidence, validate_evidence_scope, external_denial}

-- A piece of evidence lies in the scopes, and below the classification, of the request.
pub record IsAuthorized (request : ResearchDecisionRequest) (item : EvidenceCandidate)
    : Type 0 where
  pub within : Subset item.scope_refs request.authorized_scope_refs
  pub not_above :
      classification_rank item.data_classification ≤ classification_rank request.data_classification

check_evidence→IsAuthorized :
    (request : ResearchDecisionRequest) (item : EvidenceCandidate)
    → check_evidence request item ≡ ok tt
    → IsAuthorized request item
check_evidence→IsAuthorized request item h = record {
  within = is_subset→Subset item.scope_refs request.authorized_scope_refs (ground arith);
  not_above = ground arith;
}

IsAuthorized→check_evidence :
    (request : ResearchDecisionRequest) (item : EvidenceCandidate)
    → IsAuthorized request item
    → check_evidence request item ≡ ok tt
IsAuthorized→check_evidence request item a =
    let n = a.not_above in
    ground (arith, Subset→is_subset item.scope_refs request.authorized_scope_refs a.within)

-- The check passes exactly when every piece of evidence is authorised.
pub validate_evidence_scope_iff :
    (request : ResearchDecisionRequest)
    → (validate_evidence_scope request ≡ ok tt) ↔ All (IsAuthorized request) request.evidence
unfolding validate_evidence_scope
validate_evidence_scope_iff request = (
  λ h.
      All-map request.evidence (check_evidence→IsAuthorized request)
        (for_each→All (check_evidence request) request.evidence h),
  λ h.
      All→for_each (check_evidence request) request.evidence
        (All-map request.evidence (IsAuthorized→check_evidence request) h),
)

-- What Backend must grant before external research is asked for.
pub record IsAdmitted (request : ResearchDecisionRequest) : Type 0 where
  pub enabled : request.external.enabled ≡ true
  pub not_restricted : classification_rank request.data_classification < 3
  pub tool_allowed : contains request.allowed_tool_ids request.external.tool_id ≡ true
  pub permitted : contains request.authorized_permission_refs request.external.permission_ref ≡ true
  pub affordable : request.external.estimated_cost ≤ request.maximum_external_cost

external_denial→IsAdmitted :
    (request : ResearchDecisionRequest) → external_denial request ≡ none → IsAdmitted request
unfolding external_denial
external_denial→IsAdmitted request h = record {
  enabled = ground arith;
  not_restricted = ground arith;
  tool_allowed = ground arith;
  permitted = ground arith;
  affordable = ground arith;
}

-- Nothing is denied exactly when everything is granted.
pub external_denial_iff :
    (request : ResearchDecisionRequest) → (external_denial request ≡ none) ↔ IsAdmitted request
unfolding external_denial
external_denial_iff request = (
  external_denial→IsAdmitted request,
  λ a.
      let enabled = a.enabled in
      let below = a.not_restricted in
      let tool = a.tool_allowed in
      let permitted = a.permitted in let cost = a.affordable in ground arith,
)
