-- ===== src/Skills/Evaluator.antt =====
-- src/genesis/skills/evaluator/service.py. A result cites evidence by an object or by its id.
use genesis_ai.Prelude.{
  Bool, List, Option, Result, String, [], all, err, false, filter, if◌then◌else◌, is_empty, join,
  map, nat_eq, none, not, ok, some, sorted_difference, string_eq, true, ◌!=◌, ◌&&◌, ◌||◌, ◌∷◌, ◌⧺◌,
}
use genesis_ai.Contracts.{Fields, Json, get_field}
use genesis_ai.Contracts.Catalog.{CanonicalContractCatalog, CatalogError, validate}
use genesis_ai.Runtime.Context.Manager.{error_text}
use genesis_ai.Platform.{Platform, to_text}
use genesis_ai.Skills.{
  SkillDefinition, SkillDescriptor, SkillSelectionStatus, SkillCandidateOutcome,
}

pub data EvaluationOutcome : Type 0 where
  pass fail : EvaluationOutcome

pub record EvaluationCheck : Type 0 where
  pub check_id : String
  pub outcome : EvaluationOutcome
  pub reason : String

pub record SkillEvaluation : Type 0 where
  pub passed : Bool
  pub checks : List EvaluationCheck
  pub declared_criteria : List String

-- `_check`
abbrev pub check : String → Bool → String → EvaluationCheck
check check_id passed reason = record {
  check_id = check_id;
  outcome = if passed then EvaluationOutcome.pass else EvaluationOutcome.fail;
  reason = reason;
}

abbrev pub is_pass : EvaluationOutcome → Bool
is_pass EvaluationOutcome.pass = true
is_pass EvaluationOutcome.fail = false

abbrev evaluation : List EvaluationCheck → List String → SkillEvaluation
evaluation checks criteria = record {
  passed = all (λ item. is_pass item.outcome) checks;
  checks = checks;
  declared_criteria = criteria;
}

abbrev is_selected : SkillSelectionStatus → Bool
is_selected SkillSelectionStatus.selected = true
is_selected _ = false

abbrev criteria_of : Option SkillDescriptor → List String
criteria_of none = []
criteria_of (some descriptor) = descriptor.specification.evaluation

unfoldable pub evaluate_applicability :
    SkillCandidateOutcome
    → (execution_context_present context_prerequisites_satisfied : Bool) → SkillEvaluation
evaluate_applicability outcome execution_context_present context_prerequisites_satisfied =
    let selected = is_selected outcome.status in
    evaluation
      (check "skill.authorized_and_relevant" selected outcome.reason
        ∷ check "skill.required_tools_authorized" (selected || is_empty outcome.missing_tool_ids) (
            if is_empty outcome.missing_tool_ids
            then "Required tools are within the effective allowlist."
            else "Missing required tools: " ⧺ join ", " outcome.missing_tool_ids ⧺ ".")
        ∷ check "skill.execution_context_present" execution_context_present
            "A validated Backend-issued execution context is required."
        ∷ check "skill.context_prerequisites" context_prerequisites_satisfied
            "Required narrowed context prerequisites must be present."
        ∷ [])
      (criteria_of outcome.descriptor)

pub data EvidenceRef : Type 0 where
  mapping : Fields → EvidenceRef
  id : String → EvidenceRef

-- The keyword arguments of `evaluate_result`.
pub record ResultRequest : Type 0 where
  pub output : Fields
  pub evidence_refs : List EvidenceRef
  pub supplied_evidence_ids : List String
  pub used_tool_ids : List String
  pub authorized_tool_ids : List String
  pub limitations : List String

abbrev output_check : Result CatalogError Fields → EvaluationCheck
output_check (ok output) =
    check "skill.output_contract" true "Output satisfies its canonical schema."
output_check (err raised) =
    check "skill.output_contract" false ("Output contract failed: " ⧺ error_text raised)

module _ (platform : Platform) where
  -- `item if isinstance(item, str) else str(item.get("evidence_id", ""))`
  abbrev pub cited_id : EvidenceRef → String
  cited_id (id s) = s
  cited_id (mapping fields) = text_of (get_field "evidence_id" fields)
    where
      text_of : Option Json → String
      text_of none = ""
      text_of (some value) = to_text platform value

  -- `cited`
  abbrev pub cited : List EvidenceRef → List String
  cited refs = filter (λ s. s != "") (map cited_id refs)

  module _ (contracts : CanonicalContractCatalog) (specification : SkillDefinition)
      (request : ResultRequest) where
    abbrev pub evidence_present : Bool
    evidence_present =
        is_empty specification.evidence_requirements || not (is_empty (cited request.evidence_refs))

    abbrev pub unknown_evidence : List String
    unknown_evidence = sorted_difference (cited request.evidence_refs) request.supplied_evidence_ids

    abbrev pub unsupported_tools : List String
    unsupported_tools = sorted_difference request.used_tool_ids request.authorized_tool_ids

    abbrev pub requirements_met : Bool
    requirements_met = evidence_present && is_empty unknown_evidence && is_empty unsupported_tools

    unfoldable pub evaluate_result : SkillEvaluation
    evaluate_result =
        evaluation
          (output_check (validate contracts specification.output_schema_ref request.output)
            ∷ check "skill.required_evidence_present" evidence_present (
                if evidence_present
                then "Required evidence references are present."
                else "The result omits evidence required by the skill.")
            ∷ check "skill.evidence_refs_authorized" (is_empty unknown_evidence) (
                if is_empty unknown_evidence
                then "All cited evidence came from the supplied authorized evidence set."
                else "Unknown evidence references: " ⧺ join ", " unknown_evidence ⧺ ".")
            ∷ check "skill.tool_usage_authorized" (is_empty unsupported_tools) (
                if is_empty unsupported_tools
                then "All reported tool usage is within the effective allowlist."
                else "Unsupported tool usage: " ⧺ join ", " unsupported_tools ⧺ ".")
            ∷ check "skill.failure_or_limitations_explicit"
                (requirements_met || not (is_empty request.limitations))
                (if requirements_met
                  then "No unmet platform requirement requires a limitation."
                  else "Unmet requirements must produce an explicit limitation or failure state.")
            ∷ [])
          specification.evaluation
