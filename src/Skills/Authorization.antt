-- ===== src/Skills/Authorization.antt =====
-- src/genesis/skills/authorization.py: the snapshot of what Backend and the agent both grant.
use genesis_ai.Prelude.{
  ==_iff, ==_refl, Bool, Eq, List, String, contains, filter, from_keys, if◌then◌else◌, nat_eq, sort,
  sorted_intersection, str_leb, string_eq, true, ◌&&◌, ◌==◌, ◌↔◌, ◌≡◌, arith,
}
use genesis_ai.Runtime.Context.Models.{ExecutionContextView}
use genesis_ai.Skills.{SkillReference}

abbrev pub reference_beq : SkillReference → SkillReference → Bool
reference_beq a b = a.skill_id == b.skill_id && a.skill_version == b.skill_version

pub reference_beq_iff : (a b : SkillReference) → (reference_beq a b ≡ true) ↔ (a ≡ b)
reference_beq_iff a b = (
  λ h.
      let same_id = (==_iff a.skill_id b.skill_id).0 (ground arith) in
      let same_version = (==_iff a.skill_version b.skill_version).0 (ground arith) in cc,
  λ e. rw e (ground (arith, ==_refl b.skill_id, ==_refl b.skill_version)),
)

instance abbrev pub reference_eq : Eq SkillReference
reference_eq = record { equal = reference_beq; equal_iff = reference_beq_iff }

-- The order of the keys `(skill_id, skill_version)`.
abbrev pub reference_leb : SkillReference → SkillReference → Bool
reference_leb a b =
    if a.skill_id == b.skill_id
    then str_leb a.skill_version b.skill_version
    else str_leb a.skill_id b.skill_id

pub record SkillAuthorizationSnapshot : Type 0 where
  pub tenant_id : String
  pub organization_id : String
  pub workspace_id : String
  pub correlation_id : String
  pub authorized_skill_refs : List SkillReference
  pub permission_refs : List String
  pub scope_refs : List String
  pub allowed_tool_ids : List String

-- The keyword arguments of `from_backend`.
pub record AgentGrants : Type 0 where
  pub authorized_skill_refs : List SkillReference
  pub agent_skill_refs : List SkillReference
  pub agent_permission_refs : List String
  pub agent_scope_refs : List String
  pub agent_allowed_tool_ids : List String

-- The values of the dictionary are its keys.
unfoldable pub from_backend : ExecutionContextView → AgentGrants → SkillAuthorizationSnapshot
from_backend context grants = record {
  tenant_id = context.tenant_id;
  organization_id = context.organization_id;
  workspace_id = context.workspace_id;
  correlation_id = context.correlation_id;
  authorized_skill_refs =
      sort reference_leb
        (filter (contains grants.agent_skill_refs) (from_keys grants.authorized_skill_refs));
  permission_refs = sorted_intersection context.permission_refs grants.agent_permission_refs;
  scope_refs = sorted_intersection context.scope_refs grants.agent_scope_refs;
  allowed_tool_ids = sorted_intersection context.allowed_tool_ids grants.agent_allowed_tool_ids;
}
