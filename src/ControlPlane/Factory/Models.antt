-- ===== src/ControlPlane/Factory/Models.antt =====
-- src/genesis/control_plane/factory/models.py. `execution_budget` is a JSON object that is carried.
use genesis_ai.Prelude.{List, Option, String, false, map, nat_eq, none, some, string_eq}
use genesis_ai.Contracts.{
  Json, null, bool, str, arr, obj, Fields, end, field, items, texts, optional_field,
}
use genesis_ai.Runtime.Context.Models.{
  DataClassification, classification_value, AuthorityLevel, authority_level_value,
}
use genesis_ai.Capabilities.{
  CapabilityType, type_value, RiskLevel, Requirement, CapabilityCatalogItem, CapabilityResolution,
}
use genesis_ai.Capabilities.Payloads.{risk_value, item_json, resolution_json}

pub record AuthorityContext : Type 0 where
  pub role : String
  pub role_refs : List String
  pub authority_level : Option AuthorityLevel

pub record FactoryExecutionContext : Type 0 where
  pub tenant_id : String
  pub organization_id : String
  pub workspace_id : String
  pub actor_id : String
  pub authority_context : AuthorityContext
  pub permission_refs : List String
  pub scope_refs : List String
  pub data_classification : DataClassification
  pub correlation_id : String
  pub execution_budget : Option Fields

pub record FactoryRequirement : Type 0 where
  pub execution_context : FactoryExecutionContext
  pub requirement_id : Option String
  pub statement : String
  pub preferred_capability_type : Option CapabilityType

unfoldable pub to_resolver_requirement : FactoryRequirement → Requirement
to_resolver_requirement self =
    let context = self.execution_context in
    record {
      tenant_id = context.tenant_id;
      organization_id = context.organization_id;
      workspace_id = context.workspace_id;
      actor_id = context.actor_id;
      correlation_id = context.correlation_id;
      requirement_id = self.requirement_id;
      statement = self.statement;
      scope_refs = context.scope_refs;
      permission_refs = context.permission_refs;
      data_classification = context.data_classification;
      preferred_capability_type = self.preferred_capability_type;
    }

pub record FactoryAnalysisRequest : Type 0 where
  pub requirement : FactoryRequirement
  pub capability_catalog : List CapabilityCatalogItem

abbrev authority_fields : AuthorityContext → Fields
authority_fields self = field "role" (str self.role) (
    field "role_refs" (texts self.role_refs) (
      optional_field "authority_level" (λ l. str (authority_level_value l)) self.authority_level
        end))

abbrev context_fields : FactoryExecutionContext → Fields
context_fields self = field "tenant_id" (str self.tenant_id) (
    field "organization_id" (str self.organization_id) (
      field "workspace_id" (str self.workspace_id) (
        field "actor_id" (str self.actor_id) (
          field "authority_context" (obj (authority_fields self.authority_context)) (
            field "permission_refs" (texts self.permission_refs) (
              field "scope_refs" (texts self.scope_refs) (
                field "data_classification" (str (classification_value self.data_classification)) (
                  field "correlation_id" (str self.correlation_id)
                    (optional_field "execution_budget" obj self.execution_budget end)))))))))

-- `request.model_dump(mode="json", exclude_none=True)`
unfoldable pub request_fields : FactoryAnalysisRequest → Fields
request_fields self =
    field "requirement"
      (obj (
        field "execution_context" (obj (context_fields self.requirement.execution_context)) (
          optional_field "requirement_id" str self.requirement.requirement_id (
            field "statement" (str self.requirement.statement) (
              optional_field "preferred_capability_type" (λ t. str (type_value t))
                self.requirement.preferred_capability_type end)))))
      (field "capability_catalog" (arr (items item_json self.capability_catalog)) end)

-- `capability_type` is `Literal[AGENT]` and `lifecycle_state` `Literal["DRAFT"]`.
pub record AgentDraft : Type 0 where
  pub draft_id : String
  pub tenant_id : String
  pub organization_id : String
  pub workspace_id : String
  pub correlation_id : String
  pub agent_id : String
  pub version : String
  pub purpose : String
  pub scope_refs : List String
  pub tool_ids : List String
  pub permission_refs : List String
  pub prohibited_actions : List String
  pub risk_level : RiskLevel
  pub evidence_requirements : List String
  pub test_requirements : List String
  pub agent_definition : Fields

pub data RegistryOperation : Type 0 where
  register_capability_draft register_agent_draft start_governance : RegistryOperation

abbrev pub operation_value : RegistryOperation → String
operation_value RegistryOperation.register_capability_draft = "REGISTER_CAPABILITY_DRAFT"
operation_value RegistryOperation.register_agent_draft = "REGISTER_AGENT_DRAFT"
operation_value RegistryOperation.start_governance = "START_GOVERNANCE"

-- The other fields are literals: the service, the transport, and that no state is changed.
pub record RegistryHandoff : Type 0 where
  pub requested_operations : List RegistryOperation

pub record FactoryAnalysisResult : Type 0 where
  pub correlation_id : String
  pub resolution : CapabilityResolution
  pub existing_capability_refs : List CapabilityCatalogItem
  pub capability_draft : Option Fields
  pub agent_draft : Option AgentDraft
  pub missing_dependencies : List String
  pub handoff : RegistryHandoff

-- `draft.model_dump(mode="json")`
unfoldable pub draft_fields : AgentDraft → Fields
draft_fields self = field "draft_id" (str self.draft_id) (
    field "tenant_id" (str self.tenant_id) (
      field "organization_id" (str self.organization_id) (
        field "workspace_id" (str self.workspace_id) (
          field "correlation_id" (str self.correlation_id) (
            field "agent_id" (str self.agent_id) (
              field "version" (str self.version) (
                field "purpose" (str self.purpose) (
                  field "capability_type" (str "AGENT") (
                    field "scope_refs" (texts self.scope_refs) (
                      field "tool_ids" (texts self.tool_ids) (
                        field "permission_refs" (texts self.permission_refs) (
                          field "prohibited_actions" (texts self.prohibited_actions) (
                            field "risk_level" (str (risk_value self.risk_level)) (
                              field "evidence_requirements" (texts self.evidence_requirements) (
                                field "test_requirements" (texts self.test_requirements) (
                                  field "lifecycle_state" (str "DRAFT") (
                                    field "agent_definition" (obj self.agent_definition)
                                      end)))))))))))))))))

abbrev handoff_fields : RegistryHandoff → Fields
handoff_fields self = field "target_service" (str "alos-backend") (
    field "transport" (str "typed_internal_api") (
      field "requested_operations" (texts (map operation_value self.requested_operations))
        (field "authoritative_state_changed" (bool false) end)))

abbrev nullable {ℓ} : {A : Type ℓ} → (A → Fields) → Option A → Json
nullable f none = null
nullable f (some a) = obj (f a)

-- `result.model_dump(mode="json")`
unfoldable pub result_fields : FactoryAnalysisResult → Fields
result_fields self = field "correlation_id" (str self.correlation_id) (
    field "resolution" (resolution_json self.resolution) (
      field "existing_capability_refs" (arr (items item_json self.existing_capability_refs)) (
        field "capability_draft" (nullable (λ fields. fields) self.capability_draft) (
          field "agent_draft" (nullable draft_fields self.agent_draft) (
            field "missing_dependencies" (texts self.missing_dependencies)
              (field "handoff" (obj (handoff_fields self.handoff)) end))))))
