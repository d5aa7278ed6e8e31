-- ===== src/Capabilities/Payloads.antt =====
-- The `model_dump(mode="json")` of the models of src/genesis/capabilities/resolver/models.py.
use genesis_ai.Prelude.{
  Bool, Option, String, [], false, if◌then◌else◌, nat_eq, none, some, string_eq, true,
}
use genesis_ai.Contracts.{Json, null, bool, str, arr, obj, Fields, end, field, items, texts}
use genesis_ai.Capabilities.{
  type_value, RiskLevel, Availability, ConfigurationStatus, ResolutionDecision, ActivationReadiness,
  CapabilityCatalogItem, RequirementUnderstanding, CapabilityResolution,
}

abbrev pub risk_value : RiskLevel → String
risk_value RiskLevel.low = "LOW"
risk_value RiskLevel.medium = "MEDIUM"
risk_value RiskLevel.high = "HIGH"
risk_value RiskLevel.critical = "CRITICAL"

abbrev availability_value : Availability → String
availability_value Availability.available = "AVAILABLE"
availability_value Availability.unavailable = "UNAVAILABLE"
availability_value Availability.degraded = "DEGRADED"

abbrev configuration_value : ConfigurationStatus → String
configuration_value ConfigurationStatus.configured = "CONFIGURED"
configuration_value ConfigurationStatus.needs_configuration = "NEEDS_CONFIGURATION"
configuration_value ConfigurationStatus.not_applicable = "NOT_APPLICABLE"

abbrev resolution_value : ResolutionDecision → String
resolution_value ResolutionDecision.reuse = "REUSE"
resolution_value ResolutionDecision.create = "CREATE"

abbrev readiness_value : ActivationReadiness → String
readiness_value ActivationReadiness.ready_for_reuse = "READY_FOR_REUSE"
readiness_value ActivationReadiness.ready_for_draft = "READY_FOR_DRAFT"
readiness_value ActivationReadiness.needs_configuration = "NEEDS_CONFIGURATION"

unfoldable pub item_json : CapabilityCatalogItem → Json
item_json item = obj (
    field "capability_id" (str item.capability_id) (
      field "version" (str item.version) (
        field "name" (str item.name) (
          field "purpose" (str item.purpose) (
            field "capability_type" (str (type_value item.capability_type)) (
              field "risk_level" (str (risk_value item.risk_level)) (
                field "availability" (str (availability_value item.availability)) (
                  field "configuration_status" (str (configuration_value item.configuration_status))
                    (field "backing_tool_ids" (texts item.backing_tool_ids) (
                      field "permission_refs" (texts item.permission_refs) (
                        field "scope_refs" (texts item.scope_refs)
                          (field "keywords" (texts item.keywords) end))))))))))))

abbrev pub is_null : Json → Bool
is_null null = true
is_null _ = false

-- `{key: value for key, value in serialized.items() if value is not None}`
abbrev pub omit_null : Fields → Fields
omit_null end = end
omit_null (field k v fs) = let rest = omit_null fs in if is_null v then rest else field k v rest

abbrev nullable : Option String → Json
nullable none = null
nullable (some s) = str s

-- `handler(self)`: the fields in order, with their defaults where `understand` sets none.
unfoldable pub serialized : RequirementUnderstanding → Fields
serialized self = field "requirement_id" (nullable self.requirement_id) (
    field "objective" null (
      field "trigger" null (
        field "capability_need" (texts []) (
          field "data_need" (texts []) (
            field "source_semantics" (texts []) (
              field "ambiguity" (str "NONE") (
                field "normalized_intent" (str self.normalized_intent) (
                  field "domains" (texts self.domains) (
                    field "candidate_capability_ids" (texts self.candidate_capability_ids) (
                      field "recommended_type" (str (type_value self.recommended_type)) (
                        field "risk_level" (str (risk_value self.risk_level)) (
                          field "requires_agent" (bool self.requires_agent)
                            (field "rationale" (texts self.rationale) end)))))))))))))

-- `_omit_undetermined`
unfoldable pub omit_undetermined : RequirementUnderstanding → Fields
omit_undetermined self = omit_null (serialized self)

unfoldable pub resolution_json : CapabilityResolution → Json
resolution_json self = obj (
    field "understanding" (obj (omit_undetermined self.understanding)) (
      field "decision" (str (resolution_value self.decision)) (
        field "reason" (str self.reason) (
          field "purpose" (str self.purpose) (
            field "scope_refs" (texts self.scope_refs) (
              field "resolved" (arr (items item_json self.resolved)) (
                field "missing_capability_ids" (texts self.missing_capability_ids) (
                  field "required_tool_ids" (texts self.required_tool_ids) (
                    field "required_permission_refs" (texts self.required_permission_refs) (
                      field "evidence_requirements" (texts self.evidence_requirements) (
                        field "test_requirements" (texts self.test_requirements) (
                          field "activation_readiness"
                            (str (readiness_value self.activation_readiness))
                            (field "human_gate_required" (bool self.human_gate_required)
                              end)))))))))))))
