-- ===== src/Runtime/Limits.antt =====
-- src/genesis/runtime/limits/models.py: the budget of an execution.
--
-- `max_cost` is a `float` that is only compared, and `ge=0` refuses NaN. Such floats are ordered as
-- their bit patterns are, so the number here is the bit pattern of the cost.
pub mod Order
use genesis_ai.Prelude.{
  ℕ, Bool, true, false, ◌&&◌, Option, none, some, List, [], ◌∷◌, String, Result, ok, err, leb, ltb,
  all, is_none, if◌then◌else◌,
}

pub record ExecutionBudget : Type 0 where
  pub max_tokens : Option ℕ
  pub max_cost : Option ℕ
  pub max_steps : Option ℕ
  pub max_tool_calls : Option ℕ
  pub max_children : Option ℕ
  pub max_depth : Option ℕ
  pub timeout_seconds : Option ℕ
  pub concurrency_limit : Option ℕ

-- `self.model_dump().values()`: the fields in the order of their declaration.
abbrev pub limits : ExecutionBudget → List (Option ℕ)
limits b =
    b.max_tokens ∷ b.max_cost ∷ b.max_steps ∷ b.max_tool_calls ∷ b.max_children ∷ b.max_depth
    ∷ b.timeout_seconds ∷ b.concurrency_limit ∷ []

-- `Field(default=None, ge=minimum)`
abbrev pub field_ge : ℕ → Option ℕ → Bool
field_ge minimum none = true
field_ge minimum (some value) = leb minimum value

pub require_at_least_one_limit : ExecutionBudget → Result String ExecutionBudget
require_at_least_one_limit self =
    if all is_none (limits self)
    then err "At least one execution budget limit is required"
    else ok self

-- What pydantic runs to build the model: the constraints of the fields, then the validator.
unfoldable pub model_validate : ExecutionBudget → Result String ExecutionBudget
unfolding require_at_least_one_limit
model_validate b =
    if field_ge 1 b.max_tokens
      && field_ge 1 b.max_steps
      && field_ge 1 b.timeout_seconds
      && field_ge 1 b.concurrency_limit
    then require_at_least_one_limit b
    else err "Input should be greater than or equal to 1"

-- The test of one field: `parent is not None and (child is None or child > parent)`, negated.
abbrev pub field_contains : Option ℕ → Option ℕ → Bool
field_contains none child = true
field_contains (some parent) none = false
field_contains (some parent) (some child) = leb child parent

-- The loop over `model_fields`.
contains_fields : List (Option ℕ) → List (Option ℕ) → Bool
contains_fields (p ∷ ps) (c ∷ cs) = field_contains p c && contains_fields ps cs
contains_fields _ _ = true

unfoldable pub contains : ExecutionBudget → ExecutionBudget → Bool
unfolding contains_fields
contains self child = contains_fields (limits self) (limits child)
