-- ===== src/Orchestration/Delegation/Tests.antt =====
-- Runs of the guard, and each theorem about delegation at a concrete input.
use genesis_ai.Prelude.{◌+◌, ◌≤◌, ◌≡◌, refl, ◌↔◌, false, none, some, [], ◌∷◌, ok, err, arith}
use genesis_ai.Runtime.Limits
use genesis_ai.Runtime.Limits.Order.{Within}
use genesis_ai.Runtime.Limits.{ExecutionBudget, model_validate}
use genesis_ai.Orchestration.Delegation.{
  AuthorityEnvelope, DelegationPolicy, ParentRunState, DelegationRequest, validate,
}
use genesis_ai.Orchestration.Delegation.Inheritance.{IsNarrower, IsAllowed, validate_iff}
use genesis_ai.Orchestration.Delegation.Chains.{
  Chain, here, spawn, steps, Chain-IsNarrower, Chain-budget, Chain-depth,
  validate-ok_of_undeclared_cycle,
}

abbrev no_limit : ExecutionBudget
no_limit = record {
  max_tokens = none;
  max_cost = none;
  max_steps = none;
  max_tool_calls = none;
  max_children = none;
  max_depth = none;
  timeout_seconds = none;
  concurrency_limit = none;
}

abbrev wide : ExecutionBudget
wide = record no_limit { max_tokens = some 1000; max_steps = some 8 }

abbrev tight : ExecutionBudget
tight = record no_limit { max_tokens = some 500; max_steps = some 8; max_depth = some 1 }

budget_none : model_validate no_limit ≡ err "At least one execution budget limit is required"
unfolding model_validate
budget_none = refl

budget_wide : model_validate wide ≡ ok wide
unfolding model_validate
budget_wide = refl

budget_zero_steps :
    model_validate (record wide { max_steps = some 0 })
    ≡ err "Input should be greater than or equal to 1"
unfolding model_validate
budget_zero_steps = refl

missing_limit : Limits.contains tight wide ≡ false
unfolding Limits.contains
missing_limit = refl

abbrev authority : AuthorityEnvelope
authority = record {
  tenant_id = "tenant_1";
  workspace_id = "workspace_1";
  permission_refs = "read" ∷ "write" ∷ [];
  scope_refs = "division_a" ∷ [];
  allowed_tool_ids = "task.list" ∷ "task.read" ∷ [];
}

abbrev parent : ParentRunState
parent = record {
  run_id = "run_1";
  root_run_id = "run_0";
  agent_id = "planner";
  depth = 0;
  child_count = 0;
  authority = authority;
  budget = wide;
}

abbrev policy : DelegationPolicy
policy = record { max_depth = 2; max_children = 3; timeout_seconds = 60 }

abbrev request : DelegationRequest
request = record {
  run_id = "run_2";
  root_run_id = "run_0";
  parent_run_id = "run_1";
  child_agent_id = "reader";
  depth = 1;
  ancestry_agent_ids = "planner" ∷ [];
  authority = record authority { permission_refs = "read" ∷ [] };
  budget = tight;
  timeout_seconds = 30;
}

abbrev child : ParentRunState
child = record {
  run_id = "run_2";
  root_run_id = "run_0";
  agent_id = "reader";
  depth = 1;
  child_count = 0;
  authority = record authority { permission_refs = "read" ∷ [] };
  budget = tight;
}

accepted : validate parent request policy ≡ ok tt
unfolding validate Limits.contains
accepted = refl

denied_cycle :
    validate parent (record request { child_agent_id = "planner" }) policy
    ≡ err "Delegation cycle detected"
unfolding validate Limits.contains
denied_cycle = refl

denied_permission :
    validate parent
      (record request { authority = record authority { permission_refs = "admin" ∷ [] } })
      policy
    ≡ err "Child permissions cannot exceed parent permissions"
unfolding validate Limits.contains
denied_permission = refl

validate_iff_example : (validate parent request policy ≡ ok tt) ↔ IsAllowed parent request policy
validate_iff_example = validate_iff parent request policy

abbrev one_step : Chain policy parent child
one_step = spawn here (record {
  request = request;
  accepted = accepted;
  run = refl;
  root = refl;
  agent = refl;
  depth = refl;
  authority = refl;
  budget = refl;
})

Chain-IsNarrower_example : IsNarrower parent.authority child.authority
Chain-IsNarrower_example = Chain-IsNarrower policy parent child one_step

Chain-budget_example : Within parent.budget child.budget
Chain-budget_example = Chain-budget policy parent child one_step

Chain-depth_example :
    (child.root_run_id ≡ parent.root_run_id)
    × (child.depth ≡ parent.depth + steps one_step)
    × (parent.depth + steps one_step ≤ policy.max_depth)
Chain-depth_example = Chain-depth policy parent child one_step (omega arith)

validate-ok_of_undeclared_cycle_example :
    validate parent (record request { child_agent_id = "planner"; ancestry_agent_ids = [] }) policy
    ≡ ok tt
validate-ok_of_undeclared_cycle_example =
    validate-ok_of_undeclared_cycle parent request policy accepted
