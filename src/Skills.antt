-- ===== src/Skills.antt =====
-- src/genesis/skills: loader/models.py and the outcomes of selection/service.py; the services are in the
-- modules below. A package path is a text.
pub mod Selection
pub mod Eligibility
pub mod Evaluator
pub mod Soundness
pub mod Authorization
pub mod Loading
pub mod Confinement
mod Tests
use genesis_ai.Contracts.{Fields, end, field, str, bool, optional_field}
use genesis_ai.Prelude.{false, List, Option, String, if◌then◌else◌, nat_eq, string_eq, ℕ, arith}

pub record SkillDefinition : Type 0 where
  pub skill_id : String
  pub skill_version : String
  pub name : String
  pub description : String
  pub purpose : String
  pub when_to_use : List String
  pub input_schema_ref : String
  pub output_schema_ref : String
  pub procedure : List String
  pub required_tool_ids : List String
  pub permission_refs : List String
  pub scope_refs : List String
  pub evidence_requirements : List String
  pub restrictions : List String
  pub failure_modes : List String
  pub escalation : List String
  pub evaluation : List String

pub record SkillReference : Type 0 where
  pub skill_id : String
  pub skill_version : String

pub record SkillDescriptor : Type 0 where
  pub specification : SkillDefinition
  pub package_path : String

abbrev pub reference : SkillDescriptor → SkillReference
reference self = record {
  skill_id = self.specification.skill_id;
  skill_version = self.specification.skill_version;
}

pub record SkillDataFile : Type 0 where
  pub relative_path : String
  pub content : String

pub record LoadedSkill : Type 0 where
  pub specification : SkillDefinition
  pub instructions : String
  pub package_path : String
  pub data_files : List SkillDataFile

pub data SkillFailureCode : Type 0 where
  invalid_manifest missing_package missing_instructions unauthorized version_mismatch
        no_relevant_skill required_tool_unavailable load_limit_exceeded :
      SkillFailureCode

abbrev failure_value : SkillFailureCode → String
failure_value SkillFailureCode.invalid_manifest = "INVALID_MANIFEST"
failure_value SkillFailureCode.missing_package = "MISSING_PACKAGE"
failure_value SkillFailureCode.missing_instructions = "MISSING_INSTRUCTIONS"
failure_value SkillFailureCode.unauthorized = "UNAUTHORIZED"
failure_value SkillFailureCode.version_mismatch = "VERSION_MISMATCH"
failure_value SkillFailureCode.no_relevant_skill = "NO_RELEVANT_SKILL"
failure_value SkillFailureCode.required_tool_unavailable = "REQUIRED_TOOL_UNAVAILABLE"
failure_value SkillFailureCode.load_limit_exceeded = "LOAD_LIMIT_EXCEEDED"

pub record SkillPackageError : Type 0 where
  pub code : SkillFailureCode
  pub message : String
  pub skill_id : Option String

-- `SkillPackageError.as_dict`
unfoldable pub error_fields : SkillPackageError → Fields
error_fields self = field "code" (str (failure_value self.code)) (
    field "message" (str self.message)
      (field "retryable" (bool false) (optional_field "skill_id" str self.skill_id end)))

pub data SkillSelectionStatus : Type 0 where
  selected unauthorized version_mismatch missing_package not_relevant required_tool_unavailable
        required_permission_unavailable required_scope_unavailable :
      SkillSelectionStatus

abbrev pub status_value : SkillSelectionStatus → String
status_value SkillSelectionStatus.selected = "SELECTED"
status_value SkillSelectionStatus.unauthorized = "UNAUTHORIZED"
status_value SkillSelectionStatus.version_mismatch = "VERSION_MISMATCH"
status_value SkillSelectionStatus.missing_package = "MISSING_PACKAGE"
status_value SkillSelectionStatus.not_relevant = "NOT_RELEVANT"
status_value SkillSelectionStatus.required_tool_unavailable = "REQUIRED_TOOL_UNAVAILABLE"
status_value SkillSelectionStatus.required_permission_unavailable =
    "REQUIRED_PERMISSION_UNAVAILABLE"
status_value SkillSelectionStatus.required_scope_unavailable = "REQUIRED_SCOPE_UNAVAILABLE"

pub record SkillCandidateOutcome : Type 0 where
  pub reference : SkillReference
  pub status : SkillSelectionStatus
  pub relevance_score : ℕ
  pub reason : String
  pub missing_tool_ids : List String
  pub descriptor : Option SkillDescriptor

pub record SkillSelection : Type 0 where
  pub selected : List SkillCandidateOutcome
  pub unavailable : List SkillCandidateOutcome
  pub effective_tool_ids : List String
