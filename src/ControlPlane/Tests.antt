-- ===== src/ControlPlane/Tests.antt =====
-- Analyses of two concrete requests, and each theorem about them.
use genesis_ai.Prelude.{List, [], contains, nat_eq, none, ok, refl, some, string_eq, ◌↔◌, ◌∷◌, ◌≡◌}
use genesis_ai.Contracts.{null}
use genesis_ai.Contracts.Catalog.{CanonicalContractCatalog, validate}
use genesis_ai.Runtime.Context.Models.{DataClassification}
use genesis_ai.Runtime.Context.Goal.{normalized_goal}
use genesis_ai.Capabilities.Resolution.{item_ids, evidence_requirements, test_requirements, resolve}
use genesis_ai.Capabilities.Decision.{IsSatisfied}
use genesis_ai.ControlPlane.Factory.Authority.{
  AsksOnly, needed_ids, analyze-operations_iff, analyze-AsksOnly,
}
use genesis_ai.ControlPlane.Factory.Prompts.{render, version_prompt}
use genesis_ai.ControlPlane.Factory.Drafts.{
  is_version, read_text, read_some, read_any, read_literal, read_risk, read_object, model_validate,
}
use genesis_ai.ControlPlane.Factory.RoundTrip.{IsValid, model_validate-draft_fields_iff}
use genesis_ai.Capabilities.Words.{includes, ends_with, strip, tokens}
use genesis_ai.Capabilities.Decision.{IsSatisfied}
use genesis_ai.ControlPlane.Factory.Reuse.{analyze-references}
use genesis_ai.Capabilities.{
  CapabilityType, RiskLevel, Availability, ConfigurationStatus, CapabilityCatalogItem,
  classify_type, risk, candidates, understand, score, ranked, resolved_items,
}
use genesis_ai.ControlPlane.Factory.Models.{
  RegistryOperation, to_resolver_requirement, FactoryAnalysisRequest, AgentDraft,
  FactoryAnalysisResult, draft_fields,
}
use genesis_ai.ControlPlane.Factory.Payloads.{Builtins}
use genesis_ai.ControlPlane.Factory.{
  validated_result, agent_draft, optional_draft, reuse_result, draft_result, analyze,
}

abbrev contracts : CanonicalContractCatalog
contracts = record {
  documents =
      ("https://schemas.alos.dev/v1/factory/factory-analysis-request.schema.json", null)
      ∷ ("https://schemas.alos.dev/v1/factory/factory-analysis-result.schema.json", null)
      ∷ ("https://schemas.alos.dev/v1/capability/capability-draft.schema.json", null)
      ∷ ("https://schemas.alos.dev/v1/agent/agent-definition.schema.json", null)
      ∷ ("https://schemas.alos.dev/v1/agent/agent-draft.schema.json", null)
      ∷ [];
  iter_errors = λ schema payload. [];
  decimal = λ n. "0";
}

abbrev builtins : Builtins
builtins = record {
  casefold = λ text. text;
  title = λ text. text;
  decimal = λ n. "0";
  sha256_hex = λ text. "0123456789abcdef0123";
  format_map = λ template values. ok template;
}

abbrev listing : CapabilityCatalogItem
listing = record {
  capability_id = "task.list";
  version = "1.0.0";
  name = "list";
  purpose = "list";
  capability_type = CapabilityType.skill;
  risk_level = RiskLevel.low;
  availability = Availability.available;
  configuration_status = ConfigurationStatus.configured;
  backing_tool_ids = "tasks.query" ∷ [];
  permission_refs = "tasks.read" ∷ [];
  scope_refs = [];
  keywords = [];
}

abbrev reading : CapabilityCatalogItem
reading = record listing { capability_id = "task.read" }

abbrev with_catalog : List CapabilityCatalogItem → FactoryAnalysisRequest
with_catalog catalog = record {
  requirement = record {
    execution_context = record {
      tenant_id = "tenant";
      organization_id = "org";
      workspace_id = "workspace";
      actor_id = "actor";
      authority_context = record { role = "lead"; role_refs = []; authority_level = none };
      permission_refs = [];
      scope_refs = "project.a" ∷ [];
      data_classification = DataClassification.internal;
      correlation_id = "run-1";
      execution_budget = none;
    };
    requirement_id = none;
    statement = "an agent for each task";
    preferred_capability_type = none;
  };
  capability_catalog = catalog;
}

abbrev new_agent : FactoryAnalysisRequest
new_agent = with_catalog (listing ∷ [])

abbrev known : FactoryAnalysisRequest
known = with_catalog (listing ∷ reading ∷ [])

drafts : (r : FactoryAnalysisResult) × (analyze builtins contracts new_agent ≡ ok r)
unfolding analyze validate resolve strip to_resolver_requirement understand candidates includes
    normalized_goal resolved_items ranked score tokens validated_result draft_result optional_draft
    agent_draft version_prompt render model_validate draft_fields read_text read_some read_any
    read_literal read_risk read_object is_version classify_type reuse_result risk ends_with
    evidence_requirements test_requirements
drafts = (_, refl)

reuses : (r : FactoryAnalysisResult) × (analyze builtins contracts known ≡ ok r)
unfolding analyze validate resolve strip to_resolver_requirement understand candidates includes
    normalized_goal resolved_items ranked score tokens validated_result reuse_result
reuses = (_, refl)

proposes : (a : AgentDraft) × (drafts.0.agent_draft ≡ some a)
unfolding drafts
proposes = (_, refl)

asks_for_nothing : reuses.0.handoff.requested_operations ≡ []
unfolding reuses
asks_for_nothing = refl

asks_for_tools : proposes.0.tool_ids ≡ "tasks.query" ∷ []
unfolding drafts proposes
asks_for_tools = refl

analyze-operations_iff_example :
    (reuses.0.handoff.requested_operations ≡ [])
    ↔ IsSatisfied (needed_ids builtins contracts known) (listing ∷ reading ∷ [])
analyze-operations_iff_example = analyze-operations_iff builtins contracts known reuses.0 reuses.1

analyze-AsksOnly_example :
    AsksOnly
      (to_resolver_requirement new_agent.requirement)
      (needed_ids builtins contracts new_agent)
      (listing ∷ [])
      proposes.0
    × (drafts.0.handoff.requested_operations
        ≡ RegistryOperation.register_capability_draft ∷ RegistryOperation.register_agent_draft
          ∷ RegistryOperation.start_governance ∷ [])
analyze-AsksOnly_example =
    analyze-AsksOnly builtins contracts new_agent drafts.0 proposes.0 drafts.1 proposes.1

analyze-references_example :
    contains (item_ids reuses.0.existing_capability_refs) "task.read"
    ≡ contains (needed_ids builtins contracts known) "task.read"
analyze-references_example =
    analyze-references builtins contracts known reuses.0 reuses.1 asks_for_nothing "task.read"

model_validate-draft_fields_iff_example :
    (model_validate (draft_fields proposes.0) ≡ ok proposes.0)
    ↔ (IsValid proposes.0 × (proposes.0 ≡ proposes.0))
model_validate-draft_fields_iff_example = model_validate-draft_fields_iff proposes.0 proposes.0
