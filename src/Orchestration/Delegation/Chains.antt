-- ===== src/Orchestration/Delegation/Chains.antt =====
-- Chains of accepted delegations, from a root run down to any of its descendants.
use genesis_ai.Prelude.{ℕ, suc, ◌+◌, ◌≤◌, ◌≡◌, refl, ◌∙◌, true, [], ok, arith, string_eq}
use genesis_ai.Runtime.Limits
use genesis_ai.Runtime.Limits.Order.{Within, Within-refl, Within-trans, contains_iff}
use genesis_ai.Orchestration.Delegation.{
  AuthorityEnvelope, DelegationPolicy, ParentRunState, DelegationRequest, validate,
}
use genesis_ai.Orchestration.Delegation.Inheritance.{IsNarrower, IsAllowed, validate_iff}

-- `child` runs under a request of `parent` that the guard has accepted. Its own count of children
-- is not fixed by the request.
pub record Spawned (policy : DelegationPolicy) (parent child : ParentRunState) : Type 0 where
  pub request : DelegationRequest
  pub accepted : validate parent request policy ≡ ok tt
  pub run : child.run_id ≡ request.run_id
  pub root : child.root_run_id ≡ request.root_run_id
  pub agent : child.agent_id ≡ request.child_agent_id
  pub depth : child.depth ≡ request.depth
  pub authority : child.authority ≡ request.authority
  pub budget : child.budget ≡ request.budget

pub data Chain (policy : DelegationPolicy) (first : ParentRunState) : ParentRunState → Type 0 where
  here : Chain policy first first
  spawn :
      {parent child : ParentRunState}
      → Chain policy first parent
      → Spawned policy parent child
      → Chain policy first child

abbrev pub steps :
    {policy : DelegationPolicy} {first last : ParentRunState} → Chain policy first last → ℕ
steps here = 0
steps (spawn chain s) = suc (steps chain)

IsNarrower-refl : (a : AuthorityEnvelope) → IsNarrower a a
IsNarrower-refl a = record {
  tenant = refl;
  workspace = refl;
  permissions = λ x h. h;
  scopes = λ x h. h;
  tools = λ x h. h;
}

IsNarrower-trans : (a b c : AuthorityEnvelope) → IsNarrower a b → IsNarrower b c → IsNarrower a c
IsNarrower-trans a b c f g = record {
  tenant = g.tenant ∙ f.tenant;
  workspace = g.workspace ∙ f.workspace;
  permissions = λ x h. f.permissions x (g.permissions x h);
  scopes = λ x h. f.scopes x (g.scopes x h);
  tools = λ x h. f.tools x (g.tools x h);
}

module _ {policy : DelegationPolicy} where
  Spawned-IsAllowed :
      {parent child : ParentRunState}
      → (s : Spawned policy parent child) → IsAllowed parent s.request policy
  Spawned-IsAllowed {parent} s = (validate_iff parent s.request policy).0 s.accepted

  Spawned-IsNarrower :
      {parent child : ParentRunState}
      → Spawned policy parent child
      → IsNarrower parent.authority child.authority
  Spawned-IsNarrower s = rw s.authority (Spawned-IsAllowed s).narrower

  Spawned-budget :
      {parent child : ParentRunState}
      → Spawned policy parent child
      → Limits.contains parent.budget child.budget ≡ true
  Spawned-budget s = rw s.budget (Spawned-IsAllowed s).budget_within

-- However long a chain of accepted delegations is, the last run keeps the tenant and workspace of
-- the first, and its permissions, scopes and tools are all among those of the first.
pub Chain-IsNarrower :
    (policy : DelegationPolicy) (first last : ParentRunState)
    → Chain policy first last
    → IsNarrower first.authority last.authority
Chain-IsNarrower policy first last here = IsNarrower-refl first.authority
Chain-IsNarrower policy first last (spawn {parent = p} chain s) =
    IsNarrower-trans first.authority p.authority last.authority
      (Chain-IsNarrower policy first p chain) (Spawned-IsNarrower s)

-- Each limit that the budget of the first run of a chain sets is set in the budget of the last, to a
-- value that is not above it.
pub Chain-budget :
    (policy : DelegationPolicy) (first last : ParentRunState)
    → Chain policy first last
    → Within first.budget last.budget
Chain-budget policy first last here = Within-refl first.budget
Chain-budget policy first last (spawn {parent = p} chain s) =
    Within-trans first.budget p.budget last.budget (Chain-budget policy first p chain)
      ((contains_iff p.budget _).0 (Spawned-budget s))

-- All runs of a chain share the root run, each step is one level deeper, and a chain that starts
-- within `max_depth` has at most the remaining number of levels.
pub Chain-depth :
    (policy : DelegationPolicy) (first last : ParentRunState) (chain : Chain policy first last)
    → first.depth ≤ policy.max_depth
    → (last.root_run_id ≡ first.root_run_id)
      × (last.depth ≡ first.depth + steps chain)
      × (first.depth + steps chain ≤ policy.max_depth)
Chain-depth policy first last here h = (refl, omega arith, omega arith)
Chain-depth policy first last (spawn {parent = p} chain s) h =
    let (same, deeper, within) = Chain-depth policy first p chain h in
    let placed = (Spawned-IsAllowed s).placed in
    let depth = s.depth in
    let next = placed.next_depth in
    let bound = placed.depth_within in (s.root ∙ placed.root ∙ same, omega arith, omega arith)

-- If a request is accepted, then so is the same request with the agent of its parent as the child
-- and with no declared ancestors.
pub validate-ok_of_undeclared_cycle :
    (parent : ParentRunState) (child : DelegationRequest) (policy : DelegationPolicy)
    → validate parent child policy ≡ ok tt
    → validate parent
        (record child { child_agent_id = parent.agent_id; ancestry_agent_ids = [] })
        policy
      ≡ ok tt
validate-ok_of_undeclared_cycle parent child policy h =
    let a = (validate_iff parent child policy).0 h in
    let p = a.placed in
    (validate_iff parent _ policy).1 (record {
      placed = record {
        root = p.root;
        lineage = p.lineage;
        next_depth = p.next_depth;
        depth_within = p.depth_within;
        room = p.room;
        not_ancestor = refl;
        timeout_within = p.timeout_within;
      };
      narrower = a.narrower;
      budget_within = a.budget_within;
    })
