-- ===== src/Skills/Loading.antt =====
-- src/genesis/skills/progressive_loading/service.py and src/genesis/skills/runtime/service.py. What
-- `FileSystemSkillLoader` reads is given: the descriptors it discovers, and a load that may fail.
use genesis_ai.Prelude.{
  List, Option, Result, String, [], err, if◌then◌else◌, is_empty, length, ltb, map_err, nat_eq,
  none, ok, some, string_eq, ℕ, ◌>>=◌, ◌∷◌,
}
use genesis_ai.Skills.{
  SkillDescriptor, LoadedSkill, SkillFailureCode, SkillPackageError, SkillSelectionStatus,
  SkillCandidateOutcome, SkillSelection,
}
use genesis_ai.Skills.Selection.{SelectRequest, outcome, select}
use genesis_ai.Skills.Authorization.{reference_eq, SkillAuthorizationSnapshot}

abbrev pub Load : Type 0
Load = SkillDescriptor → Result SkillPackageError LoadedSkill

abbrev not_selected : SkillCandidateOutcome → SkillPackageError
not_selected outcome = record {
  code = SkillFailureCode.unauthorized;
  message = "Only explicitly selected skill descriptors may load instructions.";
  skill_id = some outcome.reference.skill_id;
}

abbrev too_many : SkillPackageError
too_many = record {
  code = SkillFailureCode.load_limit_exceeded;
  message = "Selected skill count exceeds the progressive loading bound.";
  skill_id = none;
}

-- `ProgressiveSkillLoader.__init__`, which keeps the bound.
unfoldable pub create_loader : (maximum_loaded : ℕ) → Result String ℕ
create_loader maximum_loaded =
    if ltb maximum_loaded 1 then err "maximum_loaded must be at least one" else ok maximum_loaded

-- The body of the loop.
abbrev pub load_outcome :
    Load
    → SkillCandidateOutcome
    → SkillSelectionStatus
    → Option SkillDescriptor
    → Result SkillPackageError LoadedSkill
load_outcome load outcome SkillSelectionStatus.selected (some descriptor) = load descriptor
load_outcome load outcome _ _ = err (not_selected outcome)

abbrev pub load_all :
    Load → List SkillCandidateOutcome → Result SkillPackageError (List LoadedSkill)
load_all load [] = ok []
load_all load (outcome ∷ rest) =
    load_outcome load outcome outcome.status outcome.descriptor >>= λ skill.
    load_all load rest >>= λ skills. ok (skill ∷ skills)

unfoldable pub load_selected :
    Load
    → (maximum_loaded : ℕ) → List SkillCandidateOutcome
    → Result SkillPackageError (List LoadedSkill)
load_selected load maximum_loaded selected =
    if ltb maximum_loaded (length selected) then err too_many else load_all load selected

pub data SkillRuntimeStatus : Type 0 where
  ready blocked : SkillRuntimeStatus

pub record SkillRuntimeContext : Type 0 where
  pub status : SkillRuntimeStatus
  pub selection : SkillSelection
  pub loaded_skills : List LoadedSkill

-- `select` raises a ValueError.
pub data RuntimeError : Type 0 where
  value_error : String → RuntimeError
  package_error : SkillPackageError → RuntimeError

-- The arguments of `prepare`.
pub record PrepareRequest : Type 0 where
  pub authorization : SkillAuthorizationSnapshot
  pub goal : String
  pub capability_context : List String
  pub maximum_selected : ℕ

-- The call of `select`.
abbrev pub select_request : PrepareRequest → SelectRequest
select_request request = record {
  authorized_refs = request.authorization.authorized_skill_refs;
  goal = request.goal;
  backend_allowed_tool_ids = request.authorization.allowed_tool_ids;
  backend_permission_refs = request.authorization.permission_refs;
  backend_scope_refs = request.authorization.scope_refs;
  agent_allowed_tool_ids = none;
  capability_context = request.capability_context;
  maximum_selected = request.maximum_selected;
}

module _ (lower : String → String) (load : Load) (maximum_loaded : ℕ)
    (discovered : Result SkillPackageError (List SkillDescriptor)) where
  unfoldable pub prepare : PrepareRequest → Result RuntimeError SkillRuntimeContext
  prepare request = do
    descriptors ← map_err package_error discovered
    selection ← map_err value_error (select lower descriptors (select_request request))
    loaded ← map_err package_error (load_selected load maximum_loaded selection.selected)
    ok (record {
      status = if is_empty loaded then SkillRuntimeStatus.blocked else SkillRuntimeStatus.ready;
      selection = selection;
      loaded_skills = loaded;
    })
