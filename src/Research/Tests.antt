-- ===== src/Research/Tests.antt =====
-- Decisions at concrete requests, and each theorem about them.
use genesis_ai.Prelude.{
  ◌⊎◌, All, In, List, [], err, nat_eq, ok, refl, some, string_eq, true, ◌↔◌, ◌∷◌, ◌≡◌,
}
use genesis_ai.Contracts.{null}
use genesis_ai.Contracts.Catalog.{CanonicalContractCatalog, validate}
use genesis_ai.Runtime.Context.Models.{DataClassification}
use genesis_ai.Research.Domains.{ResearchDomain}
use genesis_ai.Research.Sources.{SourceReliability, FreshnessStatus}
use genesis_ai.Research.Decision.{
  ResearchChannel, ResearchDecisionKind, ResearchRisk, EvidenceCandidate, ResearchDecisionRequest,
  BackendRetrievalProposal, retrieval_proposal, ResearchDecision,
}
use genesis_ai.Research.Decision.{
  classification_denied, validate_evidence_scope, external_denial, result, ask_external, choose,
  decide,
}
use genesis_ai.Research.Decision.Scope.{IsAuthorized, validate_evidence_scope_iff, IsAdmitted}
use genesis_ai.Research.Decision.Rules.{Calls}
use genesis_ai.Research.Decision.Refinement.{
  IsListed, decide-IsAdmitted, decide-selected_iff, decide-Calls_iff, decide-ends, IsRefused,
}

-- A contract that accepts every payload.
abbrev catalog : CanonicalContractCatalog
catalog = record {
  documents = ("https://schemas.alos.dev/v1/research/research-decision.schema.json", null) ∷ [];
  iter_errors = λ schema payload. [];
  decimal = λ n. "0";
}

abbrev report : EvidenceCandidate
report = record {
  evidence_id = "report-1";
  channel = ResearchChannel.internal_source;
  freshness = FreshnessStatus.current;
  reliability = SourceReliability.high;
  available = true;
  scope_refs = "project.a" ∷ [];
  data_classification = DataClassification.internal;
}

abbrev old_report : EvidenceCandidate
old_report = record report { evidence_id = "report-0"; freshness = FreshnessStatus.stale }

abbrev secret : EvidenceCandidate
secret = record report { data_classification = DataClassification.restricted }

abbrev with_evidence : List EvidenceCandidate → ResearchDecisionRequest
with_evidence evidence = record {
  correlation_id = "run-1";
  domain = ResearchDomain.technology;
  question = "Which database?";
  risk = ResearchRisk.low;
  data_classification = DataClassification.confidential;
  authorized_scope_refs = "project.a" ∷ [];
  authorized_permission_refs = "research.external.read" ∷ [];
  allowed_tool_ids = "research.external.retrieve" ∷ [];
  evidence = evidence;
  information_complete = true;
  external = record {
    enabled = true;
    tool_id = "research.external.retrieve";
    permission_ref = "research.external.read";
    estimated_cost = 1;
  };
  maximum_external_cost = 1;
}

abbrev answered : ResearchDecisionRequest
answered = with_evidence (old_report ∷ report ∷ [])

abbrev unanswered : ResearchDecisionRequest
unanswered = with_evidence (old_report ∷ [])

decides : (d : ResearchDecision) × (decide catalog answered ≡ ok d)
unfolding decide choose result validate_evidence_scope validate
decides = (_, refl)

asks_backend : (d : ResearchDecision) × (decide catalog unanswered ≡ ok d)
unfolding decide choose ask_external external_denial result validate_evidence_scope validate
asks_backend = (_, refl)

rests_on_report : decides.0.selected_evidence_ids ≡ "report-1" ∷ []
unfolding decides
rests_on_report = refl

proposes : (p : BackendRetrievalProposal) × (asks_backend.0.retrieval ≡ some p)
unfolding asks_backend
proposes = (_, refl)

refuses_secret :
    decide catalog (with_evidence (secret ∷ []))
    ≡ err (classification_denied (with_evidence (secret ∷ [])))
unfolding decide validate_evidence_scope
refuses_secret = refl

authorized : All (IsAuthorized answered) answered.evidence
unfolding validate_evidence_scope
authorized = (validate_evidence_scope_iff answered).0 refl

decide-Calls_iff_example :
    (decides.0.decision ≡ ResearchDecisionKind.use_internal_source)
    ↔ Calls answered ResearchDecisionKind.use_internal_source
decide-Calls_iff_example =
    decide-Calls_iff catalog answered decides.0 decides.1 ResearchDecisionKind.use_internal_source

decide-selected_iff_example :
    In "report-1" decides.0.selected_evidence_ids ↔ IsListed answered decides.0.decision "report-1"
decide-selected_iff_example = decide-selected_iff catalog answered decides.0 decides.1 "report-1"

decide-IsAdmitted_example :
    IsAdmitted unanswered
    × (proposes.0 ≡ retrieval_proposal "research.external.retrieve")
    × (asks_backend.0.selected_evidence_ids ≡ [])
decide-IsAdmitted_example =
    decide-IsAdmitted catalog unanswered asks_backend.0 proposes.0 asks_backend.1 proposes.1

decide-ends_example :
    ((d : ResearchDecision) × (decide catalog answered ≡ ok d)) ⊎ IsRefused catalog answered
decide-ends_example = decide-ends catalog answered authorized
