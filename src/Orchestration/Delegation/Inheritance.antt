-- ===== src/Orchestration/Delegation/Inheritance.antt =====
-- What a delegation that the guard accepts inherits from its parent.
use genesis_ai.Prelude.{
  ◌+◌, ◌≤◌, ◌<◌, ◌≡◌, ◌↔◌, true, false, ok, arith, ==_iff, contains, Subset, is_subset→Subset,
  Subset→is_subset, nat_eq, string_eq,
}
use genesis_ai.Runtime.Limits
use genesis_ai.Orchestration.Delegation.{
  AuthorityEnvelope, DelegationPolicy, ParentRunState, DelegationRequest, validate,
}

-- The authority of a child lies within that of its parent.
pub record IsNarrower (parent child : AuthorityEnvelope) : Type 0 where
  pub tenant : child.tenant_id ≡ parent.tenant_id
  pub workspace : child.workspace_id ≡ parent.workspace_id
  pub permissions : Subset child.permission_refs parent.permission_refs
  pub scopes : Subset child.scope_refs parent.scope_refs
  pub tools : Subset child.allowed_tool_ids parent.allowed_tool_ids

-- What the policy and the lineage ask of a request, beside its authority and its budget.
pub record IsPlaced (parent : ParentRunState) (child : DelegationRequest)
    (policy : DelegationPolicy) : Type 0 where
  pub root : child.root_run_id ≡ parent.root_run_id
  pub lineage : child.parent_run_id ≡ parent.run_id
  pub next_depth : child.depth ≡ parent.depth + 1
  pub depth_within : child.depth ≤ policy.max_depth
  pub room : parent.child_count < policy.max_children
  pub not_ancestor : contains child.ancestry_agent_ids child.child_agent_id ≡ false
  pub timeout_within : child.timeout_seconds ≤ policy.timeout_seconds

pub record IsAllowed (parent : ParentRunState) (child : DelegationRequest)
    (policy : DelegationPolicy) : Type 0 where
  pub placed : IsPlaced parent child policy
  pub narrower : IsNarrower parent.authority child.authority
  pub budget_within : Limits.contains parent.budget child.budget ≡ true

module _ (parent : ParentRunState) (child : DelegationRequest) (policy : DelegationPolicy) where
  validate-IsPlaced : validate parent child policy ≡ ok tt → IsPlaced parent child policy
  unfolding validate
  validate-IsPlaced h =
      ground (
        arith,
        ==_iff child.root_run_id parent.root_run_id,
        ==_iff child.parent_run_id parent.run_id,
      )

  validate-IsNarrower :
      validate parent child policy ≡ ok tt → IsNarrower parent.authority child.authority
  unfolding validate
  validate-IsNarrower h = record {
    tenant = ground (arith, ==_iff child.authority.tenant_id parent.authority.tenant_id);
    workspace = ground (arith, ==_iff child.authority.workspace_id parent.authority.workspace_id);
    permissions =
        is_subset→Subset child.authority.permission_refs parent.authority.permission_refs
          (ground arith);
    scopes = is_subset→Subset child.authority.scope_refs parent.authority.scope_refs (ground arith);
    tools =
        is_subset→Subset child.authority.allowed_tool_ids parent.authority.allowed_tool_ids
          (ground arith);
  }

  validate→IsAllowed : validate parent child policy ≡ ok tt → IsAllowed parent child policy
  unfolding validate
  validate→IsAllowed h = record {
    placed = validate-IsPlaced h;
    narrower = validate-IsNarrower h;
    budget_within = ground arith;
  }

  IsAllowed→validate : IsAllowed parent child policy → validate parent child policy ≡ ok tt
  unfolding validate
  IsAllowed→validate a =
      let p = a.placed in
      let n = a.narrower in
      ground (
        arith,
        ==_iff child.root_run_id parent.root_run_id,
        ==_iff child.parent_run_id parent.run_id,
        ==_iff child.authority.tenant_id parent.authority.tenant_id,
        ==_iff child.authority.workspace_id parent.authority.workspace_id,
        Subset→is_subset child.authority.permission_refs parent.authority.permission_refs
            n.permissions,
        Subset→is_subset child.authority.scope_refs parent.authority.scope_refs n.scopes,
        Subset→is_subset child.authority.allowed_tool_ids parent.authority.allowed_tool_ids n.tools,
      )

  -- The guard accepts a request exactly when its lineage, depth, child count, ancestry and timeout
  -- fit the parent and the policy, and its authority and budget lie within the parent's.
  pub validate_iff : (validate parent child policy ≡ ok tt) ↔ IsAllowed parent child policy
  validate_iff = (validate→IsAllowed, IsAllowed→validate)
