-- ===== src/Runtime/Limits/Order.antt =====
-- Containment of budgets is a preorder, limit by limit.
use genesis_ai.Prelude.{ℕ, ◌≤◌, ◌≡◌, refl, ◌↔◌, true, Option, none, some, arith}
use genesis_ai.Runtime.Limits.{ExecutionBudget, field_contains, contains}

-- A limit of the parent is also a limit of the child, and the child's is not above it.
abbrev pub Bounds : Option ℕ → Option ℕ → Type 0
Bounds parent child = (m : ℕ) → parent ≡ some m → (n : ℕ) × (child ≡ some n) × (n ≤ m)

pub record Within (parent child : ExecutionBudget) : Type 0 where
  pub tokens : Bounds parent.max_tokens child.max_tokens
  pub cost : Bounds parent.max_cost child.max_cost
  pub steps : Bounds parent.max_steps child.max_steps
  pub tool_calls : Bounds parent.max_tool_calls child.max_tool_calls
  pub children : Bounds parent.max_children child.max_children
  pub depth : Bounds parent.max_depth child.max_depth
  pub timeout : Bounds parent.timeout_seconds child.timeout_seconds
  pub concurrency : Bounds parent.concurrency_limit child.concurrency_limit

field_contains→Bounds : (p c : Option ℕ) → field_contains p c ≡ true → Bounds p c
field_contains→Bounds none c h m e = cc
field_contains→Bounds (some p) none h m e = cc
field_contains→Bounds (some p) (some c) h m e = (c, refl, ground arith)

Bounds→field_contains : (p c : Option ℕ) → Bounds p c → field_contains p c ≡ true
Bounds→field_contains none c h = refl
Bounds→field_contains (some p) none h = let (n, e, le) = h p refl in cc
Bounds→field_contains (some p) (some c) h = let (n, e, le) = h p refl in ground arith

contains→Within : (p c : ExecutionBudget) → contains p c ≡ true → Within p c
unfolding contains
contains→Within p c h = record {
  tokens = field_contains→Bounds p.max_tokens c.max_tokens (ground arith);
  cost = field_contains→Bounds p.max_cost c.max_cost (ground arith);
  steps = field_contains→Bounds p.max_steps c.max_steps (ground arith);
  tool_calls = field_contains→Bounds p.max_tool_calls c.max_tool_calls (ground arith);
  children = field_contains→Bounds p.max_children c.max_children (ground arith);
  depth = field_contains→Bounds p.max_depth c.max_depth (ground arith);
  timeout = field_contains→Bounds p.timeout_seconds c.timeout_seconds (ground arith);
  concurrency = field_contains→Bounds p.concurrency_limit c.concurrency_limit (ground arith);
}

Within→contains : (p c : ExecutionBudget) → Within p c → contains p c ≡ true
unfolding contains
Within→contains p c w = rw (
  Bounds→field_contains p.max_tokens c.max_tokens w.tokens,
  Bounds→field_contains p.max_cost c.max_cost w.cost,
  Bounds→field_contains p.max_steps c.max_steps w.steps,
  Bounds→field_contains p.max_tool_calls c.max_tool_calls w.tool_calls,
  Bounds→field_contains p.max_children c.max_children w.children,
  Bounds→field_contains p.max_depth c.max_depth w.depth,
  Bounds→field_contains p.timeout_seconds c.timeout_seconds w.timeout,
  Bounds→field_contains p.concurrency_limit c.concurrency_limit w.concurrency,
)

-- A budget contains another exactly when each limit that it sets is set in the other, to a value
-- that is not above it.
pub contains_iff :
    (parent child : ExecutionBudget) → (contains parent child ≡ true) ↔ Within parent child
contains_iff p c = (contains→Within p c, Within→contains p c)

field_contains_trans :
    (a b c : Option ℕ)
    → field_contains a b ≡ true
    → field_contains b c ≡ true
    → field_contains a c ≡ true
field_contains_trans a b c h k = ground arith

contains_refl : (b : ExecutionBudget) → contains b b ≡ true
unfolding contains
contains_refl b = ground arith

Bounds_trans : (a b c : Option ℕ) → Bounds a b → Bounds b c → Bounds a c
Bounds_trans a b c f g m e =
    let (n, e', le) = f m e in let (k, e'', le') = g n e' in (k, e'', omega arith)

pub Within-trans : (a b c : ExecutionBudget) → Within a b → Within b c → Within a c
Within-trans a b c f g = record {
  tokens = Bounds_trans a.max_tokens b.max_tokens c.max_tokens f.tokens g.tokens;
  cost = Bounds_trans a.max_cost b.max_cost c.max_cost f.cost g.cost;
  steps = Bounds_trans a.max_steps b.max_steps c.max_steps f.steps g.steps;
  tool_calls =
      Bounds_trans a.max_tool_calls b.max_tool_calls c.max_tool_calls f.tool_calls g.tool_calls;
  children = Bounds_trans a.max_children b.max_children c.max_children f.children g.children;
  depth = Bounds_trans a.max_depth b.max_depth c.max_depth f.depth g.depth;
  timeout = Bounds_trans a.timeout_seconds b.timeout_seconds c.timeout_seconds f.timeout g.timeout;
  concurrency =
      Bounds_trans a.concurrency_limit b.concurrency_limit c.concurrency_limit f.concurrency
        g.concurrency;
}

pub Within-refl : (b : ExecutionBudget) → Within b b
Within-refl b = contains→Within b b (contains_refl b)

-- Containment passes down a chain of budgets.
contains_trans :
    (a b c : ExecutionBudget) → contains a b ≡ true → contains b c ≡ true → contains a c ≡ true
contains_trans a b c h k =
    Within→contains a c (Within-trans a b c (contains→Within a b h) (contains→Within b c k))
