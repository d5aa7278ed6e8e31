-- ===== src/Research/Decision/Models.antt =====
-- The models of src/genesis/research/decision.py.
use genesis_ai.Prelude.{Bool, List, Option, String, false, nat_eq, string_eq, true, ℕ}
use genesis_ai.Contracts.{Fields, end, field, str, bool}
use genesis_ai.Runtime.Context.Models.{DataClassification}
use genesis_ai.Research.Domains.{ResearchDomain, ResearchDomainProfile}
use genesis_ai.Research.Sources.{SourceReliability, FreshnessStatus}

pub data ResearchChannel : Type 0 where
  internal_source memory : ResearchChannel

-- `is`, between two channels
abbrev pub channel_beq : ResearchChannel → ResearchChannel → Bool
channel_beq ResearchChannel.internal_source ResearchChannel.internal_source = true
channel_beq ResearchChannel.memory ResearchChannel.memory = true
channel_beq _ _ = false

pub data ResearchDecisionKind : Type 0 where
  use_internal_source use_memory request_external_research insufficient_evidence needs_information :
      ResearchDecisionKind

abbrev pub decision_value : ResearchDecisionKind → String
decision_value ResearchDecisionKind.use_internal_source = "USE_INTERNAL_SOURCE"
decision_value ResearchDecisionKind.use_memory = "USE_MEMORY"
decision_value ResearchDecisionKind.request_external_research = "REQUEST_EXTERNAL_RESEARCH"
decision_value ResearchDecisionKind.insufficient_evidence = "INSUFFICIENT_EVIDENCE"
decision_value ResearchDecisionKind.needs_information = "NEEDS_INFORMATION"

pub data ResearchRisk : Type 0 where
  low medium high critical : ResearchRisk

-- `risk in {LOW, MEDIUM}`
abbrev pub is_modest : ResearchRisk → Bool
is_modest ResearchRisk.low = true
is_modest ResearchRisk.medium = true
is_modest _ = false

pub record EvidenceCandidate : Type 0 where
  pub evidence_id : String
  pub channel : ResearchChannel
  pub freshness : FreshnessStatus
  pub reliability : SourceReliability
  pub available : Bool
  pub scope_refs : List String
  pub data_classification : DataClassification

pub record ExternalResearchBoundary : Type 0 where
  pub enabled : Bool
  pub tool_id : String
  pub permission_ref : String
  pub estimated_cost : ℕ

pub record ResearchDecisionRequest : Type 0 where
  pub correlation_id : String
  pub domain : ResearchDomain
  pub question : String
  pub risk : ResearchRisk
  pub data_classification : DataClassification
  pub authorized_scope_refs : List String
  pub authorized_permission_refs : List String
  pub allowed_tool_ids : List String
  pub evidence : List EvidenceCandidate
  pub information_complete : Bool
  pub external : ExternalResearchBoundary
  pub maximum_external_cost : ℕ

pub record BackendRetrievalProposal : Type 0 where
  pub boundary : String
  pub tool_id : String
  pub instruction_authority : Bool
  pub permission_expansion : Bool
  pub scope_expansion : Bool

-- `BackendRetrievalProposal(tool_id=tool_id)`
abbrev pub retrieval_proposal : String → BackendRetrievalProposal
retrieval_proposal tool_id = record {
  boundary = "BACKEND_TOOL_EXECUTOR";
  tool_id = tool_id;
  instruction_authority = false;
  permission_expansion = false;
  scope_expansion = false;
}

-- `proposal.model_dump(mode="json")`
abbrev pub proposal_fields : BackendRetrievalProposal → Fields
proposal_fields proposal = field "boundary" (str proposal.boundary) (
    field "tool_id" (str proposal.tool_id) (
      field "instruction_authority" (bool proposal.instruction_authority) (
        field "permission_expansion" (bool proposal.permission_expansion)
          (field "scope_expansion" (bool proposal.scope_expansion) end))))

pub record ResearchDecision : Type 0 where
  pub correlation_id : String
  pub decision : ResearchDecisionKind
  pub domain_profile : ResearchDomainProfile
  pub selected_evidence_ids : List String
  pub reasons : List String
  pub authorized_scope_refs : List String
  pub authorized_permission_refs : List String
  pub allowed_tool_ids : List String
  pub retrieval : Option BackendRetrievalProposal
  pub canonical_research_decision : Fields

-- `as_canonical`
abbrev pub as_canonical : ResearchDecision → Fields
as_canonical self = self.canonical_research_decision

pub record ResearchDecisionFailure : Type 0 where
  pub code : String
  pub message : String
  pub correlation_id : String

-- `as_dict`
unfoldable pub failure_fields : ResearchDecisionFailure → Fields
failure_fields self = field "code" (str self.code) (
    field "message" (str self.message)
      (field "correlation_id" (str self.correlation_id) (field "retryable" (bool false) end)))
