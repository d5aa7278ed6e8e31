-- ===== src/ControlPlane/Factory/Payloads.antt =====
-- What `CapabilityFactory` (src/genesis/control_plane/factory/service.py) writes of a draft.
use genesis_ai.Prelude.{
  Bool, List, Result, String, [], false, if◌then◌else◌, join, leb, nat_eq, str_take, string_eq,
  take, true, ℕ, ◌&&◌, ◌==◌, ◌||◌, ◌∷◌, ◌⧺◌,
}
use genesis_ai.Contracts.{Json, bool, int, str, arr, obj, nil, Fields, end, field, texts}
use genesis_ai.Capabilities.{type_value, RiskLevel, Requirement, CapabilityResolution}
use genesis_ai.Capabilities.Words.{strip}
use genesis_ai.Capabilities.Payloads.{risk_value}
use genesis_ai.ControlPlane.Factory.Models.{AgentDraft}
use Prim.Native.Char.{code}

-- What the factory uses of Python: `str.casefold`, `str.title`, `str` of a number,
-- `hashlib.sha256(text.encode("utf-8")).hexdigest()` and `str.format_map`, which returns the text or
-- the name of a missing value.
pub record Builtins : Type 0 where
  pub casefold : String → String
  pub title : String → String
  pub decimal : ℕ → String
  pub sha256_hex : String → String
  pub format_map : String → List (String × String) → Result String String

abbrev pub prohibited_actions : List String
prohibited_actions =
    "Access a business database directly." ∷ "Execute business tools outside Backend ToolExecutor."
    ∷ "Approve or release its own proposal." ∷ "Change Backend-supplied scope or permissions."
    ∷ "Mutate the authoritative Agent or Capability Registry." ∷ []

-- `[A-Za-z0-9]`
abbrev is_alphanumeric : ℕ → Bool
is_alphanumeric c = (leb 65 c && leb c 90) || (leb 97 c && leb c 122) || (leb 48 c && leb c 57)

abbrev flush : String → List String → List String
flush word rest = if word == "" then rest else word ∷ rest

words_from : String → String → List String
words_from word String.[] = flush word []
words_from word (String.◌∷◌ c s) =
    let fresh = words_from "" s in
    let longer = words_from (word ⧺ String.◌∷◌ c "") s in
    if is_alphanumeric (code c) then longer else flush word fresh

-- `_name`
unfoldable pub draft_name : Builtins → (statement suffix : String) → String
unfolding words_from
draft_name builtins statement suffix =
    let title = builtins.title (strip (join " " (take 7 (words_from "" statement)))) in
    str_take 200 ((if title == "" then "Genesis" else title) ⧺ " " ⧺ suffix)

-- The payload of lines 87 to 113.
unfoldable pub capability_payload :
    Builtins → Requirement → CapabilityResolution → (capability_id : String) → Fields
capability_payload builtins requirement resolution capability_id =
    field "tenant_id" (str requirement.tenant_id) (
      field "organization_id" (str requirement.organization_id) (
        field "workspace_id" (str requirement.workspace_id) (
          field "correlation_id" (str requirement.correlation_id) (
            field "capability_id" (str capability_id) (
              field "version" (str "0.1.0") (
                field "name" (str (draft_name builtins requirement.statement "Capability")) (
                  field "purpose" (str (strip requirement.statement)) (
                    field "owner" (str requirement.actor_id) (
                      field "capability_type"
                        (str (type_value resolution.understanding.recommended_type))
                        (field "output_state" (str "DRAFT") (
                          field "lifecycle_state" (str "DRAFT") (
                            field "scope_refs" (texts resolution.scope_refs) (
                              field "tool_ids" (texts resolution.required_tool_ids) (
                                field "permission_refs" (texts resolution.required_permission_refs)
                                  (limits_of resolution)))))))))))))))
  where
    limits_of : CapabilityResolution → Fields
    limits_of resolution = field "prohibited_actions" (texts prohibited_actions) (
        field "risk_level" (str (risk_value resolution.understanding.risk_level)) (
          field "evidence_requirements" (texts resolution.evidence_requirements) (
            field "test_requirements" (texts resolution.test_requirements) (
              field "constraints"
                (texts (
                  "Backend registry and governance approval are required before activation."
                  ∷ "Business tools may execute only through Backend ToolExecutor."
                  ∷ "Permissions and scopes are proposals, never grants." ∷ []))
                (field "human_gate_required" (bool true) end)))))

-- `{"type": kind}`
abbrev typed : String → Json
typed kind = obj (field "type" (str kind) end)

abbrev object_schema : Fields → List String → Json
object_schema properties required = obj (
    field "type" (str "object") (
      field "additionalProperties" (bool false)
        (field "properties" (obj properties) (field "required" (texts required) end))))

abbrev input_schema : Json
input_schema =
    object_schema (field "workspace_id" (typed "string") (field "request" (typed "string") end))
      ("workspace_id" ∷ "request" ∷ [])

abbrev output_schema : Json
output_schema =
    object_schema
      (field "summary" (typed "string")
        (field "findings" (typed "array") (field "evidence_refs" (typed "array") end)))
      ("summary" ∷ "findings" ∷ "evidence_refs" ∷ [])

abbrev model_policy : RiskLevel → String
model_policy RiskLevel.high = "model-policy.critical-v1"
model_policy RiskLevel.critical = "model-policy.critical-v1"
model_policy _ = "model-policy.standard-v1"

abbrev budget_payload : Fields
budget_payload = field "max_tokens" (int 4000) (
    field "max_steps" (int 8) (
      field "max_tool_calls" (int 12) (
        field "max_children" (int 4) (
          field "max_depth" (int 2)
            (field "timeout_seconds" (int 120) (field "concurrency_limit" (int 2) end))))))

abbrev delegation_payload : Fields
delegation_payload = field "enabled" (bool false) (
    field "max_depth" (int 0) (
      field "max_children" (int 0) (
        field "scope_inheritance_required" (bool true)
          (field "permission_inheritance_required" (bool true) end))))

-- The payload of lines 159 to 225.
unfoldable pub definition_payload :
    Builtins
    → Requirement
    → CapabilityResolution
    → (capability_id agent_id prompt : String) → Fields
definition_payload builtins requirement resolution capability_id agent_id prompt =
    field "tenant_id" (str requirement.tenant_id) (
      field "organization_id" (str requirement.organization_id) (
        field "workspace_id" (str requirement.workspace_id) (
          field "correlation_id" (str requirement.correlation_id) (
            field "agent_id" (str agent_id) (
              field "agent_version" (str "0.1.0") (
                field "owner_actor_id" (str requirement.actor_id) (
                  field "name" (str (draft_name builtins requirement.statement "Agent")) (
                    field "purpose" (str (strip requirement.statement)) (
                      field "risk_level" (str (risk_value resolution.understanding.risk_level)) (
                        field "capability_ids" (texts (capability_id ∷ [])) (
                          field "skill_refs" (arr nil) (
                            field "model_policy_ref"
                              (str (model_policy resolution.understanding.risk_level))
                              (field "input_schema" input_schema (
                                field "output_schema" output_schema
                                  (granted resolution prompt)))))))))))))))
  where
    granted : CapabilityResolution → String → Fields
    granted resolution prompt = field "tool_ids" (texts resolution.required_tool_ids) (
        field "permission_refs" (texts resolution.required_permission_refs) (
          field "scope_refs" (texts resolution.scope_refs) (
            field "evidence_requirements" (texts resolution.evidence_requirements) (
              field "restrictions"
                (texts (
                  "No direct database access." ∷ "No direct provider access outside ModelGateway."
                  ∷ "No business tool execution outside Backend ToolExecutor."
                  ∷ "No self-approval or release authority." ∷ []))
                (field "approval_required" (bool true) (
                  field "execution_budget" (obj budget_payload) (
                    field "prompt_template" (str prompt) (
                      field "output_state" (str "DRAFT")
                        (field "delegation_policy" (obj delegation_payload) end)))))))))

-- The payload of lines 229 to 248, which has the fields of `AgentDraft` in their order.
abbrev pub proposed_draft :
    Requirement
    → CapabilityResolution
    → (digest agent_id : String) → (definition : Fields) → AgentDraft
proposed_draft requirement resolution digest agent_id definition = record {
  draft_id = "draft_" ⧺ digest;
  tenant_id = requirement.tenant_id;
  organization_id = requirement.organization_id;
  workspace_id = requirement.workspace_id;
  correlation_id = requirement.correlation_id;
  agent_id = agent_id;
  version = "0.1.0";
  purpose = strip requirement.statement;
  scope_refs = resolution.scope_refs;
  tool_ids = resolution.required_tool_ids;
  permission_refs = resolution.required_permission_refs;
  prohibited_actions = prohibited_actions;
  risk_level = resolution.understanding.risk_level;
  evidence_requirements = resolution.evidence_requirements;
  test_requirements = resolution.test_requirements;
  agent_definition = definition;
}
