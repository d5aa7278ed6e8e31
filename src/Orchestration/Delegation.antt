-- ===== src/Orchestration/Delegation.antt =====
-- src/genesis/orchestration/delegation: models.py and guard.py. A frozenset is a list that is only
-- asked for its members. `DelegationDenied` carries its message alone.
pub mod Inheritance
pub mod Chains
mod Tests
use genesis_ai.Prelude.{
  ℕ, ◌+◌, Bool, not, ◌||◌, List, String, Result, ok, ltb, leb, ◌==◌, ◌!=◌, nat_eq, string_eq,
  contains, is_subset, raise_if, ◌>>=◌, ◌>>◌,
}
use genesis_ai.Runtime.Limits
use genesis_ai.Runtime.Limits.{ExecutionBudget}

pub record AuthorityEnvelope : Type 0 where
  pub tenant_id : String
  pub workspace_id : String
  pub permission_refs : List String
  pub scope_refs : List String
  pub allowed_tool_ids : List String

pub record DelegationPolicy : Type 0 where
  pub max_depth : ℕ
  pub max_children : ℕ
  pub timeout_seconds : ℕ

pub record ParentRunState : Type 0 where
  pub run_id : String
  pub root_run_id : String
  pub agent_id : String
  pub depth : ℕ
  pub child_count : ℕ
  pub authority : AuthorityEnvelope
  pub budget : ExecutionBudget

-- The field `task` is opaque to the guard and is left out.
pub record DelegationRequest : Type 0 where
  pub run_id : String
  pub root_run_id : String
  pub parent_run_id : String
  pub child_agent_id : String
  pub depth : ℕ
  pub ancestry_agent_ids : List String
  pub authority : AuthorityEnvelope
  pub budget : ExecutionBudget
  pub timeout_seconds : ℕ

unfoldable pub validate :
    ParentRunState → DelegationRequest → DelegationPolicy → Result String (Unit {0})
validate parent child policy = do
  raise_if (child.root_run_id != parent.root_run_id || child.parent_run_id != parent.run_id)
      "Delegation lineage does not match the parent run"
  raise_if (child.depth != (parent.depth + 1) || ltb policy.max_depth child.depth)
      "Delegation exceeds max_depth or has invalid depth"
  raise_if (leb policy.max_children parent.child_count) "Delegation exceeds max_children"
  raise_if (contains child.ancestry_agent_ids child.child_agent_id) "Delegation cycle detected"
  raise_if (ltb policy.timeout_seconds child.timeout_seconds)
      "Child timeout exceeds delegation policy"
  raise_if (child.authority.tenant_id != parent.authority.tenant_id)
      "Child tenant cannot differ from parent"
  raise_if (child.authority.workspace_id != parent.authority.workspace_id)
      "Child workspace cannot differ from parent"
  raise_if (not (is_subset child.authority.permission_refs parent.authority.permission_refs))
      "Child permissions cannot exceed parent permissions"
  raise_if (not (is_subset child.authority.scope_refs parent.authority.scope_refs))
      "Child scopes cannot exceed parent scopes"
  raise_if (not (is_subset child.authority.allowed_tool_ids parent.authority.allowed_tool_ids))
      "Child tools cannot exceed parent tool restrictions"
  raise_if (not (Limits.contains parent.budget child.budget))
      "Child execution budget cannot exceed parent budget"
