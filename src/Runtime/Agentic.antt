-- ===== src/Runtime/Agentic.antt =====
-- src/genesis/runtime/agentic: models.py, planner.py and the engine of engine.py, with what the engine
-- reaches through its ports.
pub mod Actions
pub mod Checks
pub mod Payloads
pub mod Engine
mod Tests
use genesis_ai.Prelude.{
  Bool, List, Option, Result, String, [], err, false, if◌then◌else◌, nat_beq, nat_eq, none, not, ok,
  some, string_eq, true, ℕ, ◌!=◌, ◌==◌, ◌>>=◌, ◌>>◌, ◌||◌, ◌∷◌, arith,
}
use genesis_ai.Contracts.{Items, Json, str, bool, int, Fields, end, field, get_field}
use genesis_ai.Contracts.Catalog.{SchemaError}
use genesis_ai.Platform.{Platform}
use genesis_ai.Agents.{AgentDefinition}
use genesis_ai.ModelGateway.{ModelRequest, ModelResponse}
use genesis_ai.Runtime.Limits.{ExecutionBudget}

pub record ToolCallIntent : Type 0 where
  pub tool_id : String
  pub arguments : Fields

pub record ExecutionPlan : Type 0 where
  pub messages : List Fields
  pub tool_calls : List ToolCallIntent

pub data LifecycleState : Type 0 where
  active test_authorized : LifecycleState

pub record RuntimeAuthorization : Type 0 where
  pub run_id : String
  pub registry_digest : String
  pub lifecycle_state : LifecycleState
  pub allowed_tool_ids : List String

-- `Literal["BLOCKED", "NEEDS_REVIEW"]`
pub data FailureState : Type 0 where
  blocked_state needs_review : FailureState

abbrev pub failure_state_value : FailureState → String
failure_state_value blocked_state = "BLOCKED"
failure_state_value needs_review = "NEEDS_REVIEW"

pub record RuntimeFailure : Type 0 where
  pub code : String
  pub message : String
  pub retryable : Bool
  pub output_state : FailureState

-- The exceptions that `run` tells apart.
pub data Raised : Type 0 where
  failure : RuntimeFailure → Raised
  timeout_error : Raised
  exception : Raised

-- A failure with the default keywords.
abbrev pub blocked : String → String → Raised
blocked code message =
    failure
      (record { code = code; message = message; retryable = false; output_state = blocked_state })

-- What the engine awaits, and the clock. Each changes a `World`; an awaited call may raise, and raises
-- `timeout_error` when `asyncio.timeout` ends it.
pub record Ports (World : Type 0) : Type 0 where
  pub plan : AgentDefinition → Fields → World → Result Raised ExecutionPlan × World
  pub execute_tool : Fields → (correlation_id : String) → World → Result Raised Fields × World
  pub complete : ModelRequest → World → Result Raised ModelResponse × World
  -- `datetime.now(UTC)` and `monotonic()`
  pub now : World → ℕ × World
  pub monotonic : World → ℕ × World

-- What the engine uses of libraries: the validator of JSON Schema, `json.loads`, pydantic's reading of
-- a dict as an `ExecutionBudget` before its constraints, and `max(0, int((b - a) * 1000))` on floats.
pub record Libraries : Type 0 where
  pub platform : Platform
  pub decimal : ℕ → String
  pub schema_errors : Fields → Json → List SchemaError
  pub loads : String → Option Json
  pub read_budget : Fields → Option ExecutionBudget
  pub milliseconds : ℕ → ℕ → ℕ

-- `payload[key]`
abbrev pub item : String → Fields → Result Raised Json
item key payload = or_exception (get_field key payload)
  where
    or_exception : Option Json → Result Raised Json
    or_exception none = err exception
    or_exception (some value) = ok value

-- A value that is used as a dict.
abbrev pub as_dict : Json → Result Raised Fields
as_dict (Json.obj fields) = ok fields
as_dict value = err exception

-- `bool(value)`: a float is false when it is 0.0 or -0.0.
abbrev pub truthy : Json → Bool
truthy Json.null = false
truthy (Json.bool b) = b
truthy (Json.int n) = not (nat_beq n 0)
truthy (Json.negative n) = true
truthy (Json.float n) = not (nat_beq n 0 || nat_beq n 0x8000000000000000)
truthy (Json.str s) = s != ""
truthy (Json.arr Items.nil) = false
truthy (Json.arr (Items.cons x xs)) = true
truthy (Json.obj Fields.end) = false
truthy (Json.obj (Fields.field k v fs)) = true

-- `text == value`
abbrev pub is_text : String → Json → Bool
is_text s (Json.str t) = s == t
is_text s value = false

-- `SinglePassPlanner.plan`
unfoldable pub single_pass_plan : Platform → AgentDefinition → Fields → Result Raised ExecutionPlan
single_pass_plan platform definition request = do
  input ← item "input" request
  ok (record {
    messages =
        field "role" (str "system") (field "content" (str definition.purpose) end)
        ∷ field "role" (str "user") (field "content" (str (platform.dumps input)) end)
        ∷ [];
    tool_calls = [];
  })
