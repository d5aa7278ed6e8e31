-- ===== src/ModelGateway.antt =====
-- src/genesis/model_gateway: types.py, policy/static.py, budget/guard.py, routing/static.py and
-- service.py. What an adapter of a provider does is a function of the request and of a `World`.
pub mod Governed
use mathlib.Core.Option
use genesis_ai.Prelude.{
  Bool, List, Option, Result, String, [], contains, err, false, if◌then◌else◌, lookup, ltb, map_err,
  nat_eq, none, not, ok, raise_if, some, string_eq, ℕ, ◌==◌, ◌>>◌, ◌∷◌, ◌⧺◌,
}
use genesis_ai.Contracts.{Fields}
use genesis_ai.Runtime.Limits.{ExecutionBudget}
use genesis_ai.Runtime.Context.Models.{
  DataClassification, classification_rank, classification_value,
}

pub record ModelRequest : Type 0 where
  pub run_id : String
  pub correlation_id : String
  pub policy_ref : String
  pub purpose : String
  pub data_classification : DataClassification
  pub prompt_id : Option String
  pub prompt_version : Option String
  pub messages : List Fields
  pub requested_max_tokens : ℕ
  pub budget : ExecutionBudget

pub record ModelResponse : Type 0 where
  pub content : String
  pub route_id : String
  pub provider_request_id : Option String
  pub input_tokens : ℕ
  pub output_tokens : ℕ
  pub cost : Option ℕ

pub data GatewayError (E : Type 0) : Type 0 where
  model_access_denied : String → GatewayError E
  budget_exceeded : String → GatewayError E
  model_route_unavailable : String → GatewayError E
  provider_error : E → GatewayError E

pub record StaticModelPolicy : Type 0 where
  pub allowed : List String
  pub maximum_data_classification : DataClassification

-- The keys of `_CLASSIFICATION_RANK`.
abbrev pub classification_of : String → Option DataClassification
classification_of text = lookup text (
    ("PUBLIC", DataClassification.public)
    ∷ ("INTERNAL", DataClassification.internal)
    ∷ ("CONFIDENTIAL", DataClassification.confidential)
    ∷ ("RESTRICTED", DataClassification.restricted)
    ∷ [])

-- `StaticModelPolicy.__init__`
unfoldable pub create_policy : List String → String → Result String StaticModelPolicy
create_policy allowed_policy_refs maximum = elim (classification_of maximum) [
  | none ↦ err "Unknown maximum data classification"
  | some rank ↦ ok (record { allowed = allowed_policy_refs; maximum_data_classification = rank })
]

unfoldable pub authorize :
    {E : Type 0} → StaticModelPolicy → ModelRequest → Result (GatewayError E) (Unit {0})
authorize self request = do
  raise_if (not (contains self.allowed request.policy_ref))
      (model_access_denied ("Model policy is not allowed: " ⧺ request.policy_ref))
  raise_if
      (ltb (classification_rank self.maximum_data_classification)
        (classification_rank request.data_classification))
      (model_access_denied (
        "Model policy does not allow data classification: "
        ⧺ classification_value request.data_classification))

abbrev pub exceeds : ℕ → Option ℕ → Bool
exceeds n none = false
exceeds n (some maximum) = ltb maximum n

-- `ExecutionBudgetGuard.validate`
unfoldable pub validate : {E : Type 0} → ModelRequest → Result (GatewayError E) (Unit {0})
validate request =
    raise_if (exceeds request.requested_max_tokens request.budget.max_tokens)
      (budget_exceeded "Requested tokens exceed the execution budget")

-- `ModelProviderAdapter.complete`
abbrev pub Adapter : Type 0 → Type 0 → Type 0
Adapter World E = ModelRequest → String → World → Result E ModelResponse × World

pub record StaticModelRouter (World E : Type 0) : Type 0 where
  pub routes : List (String × Adapter World E)
  pub policy_routes : List (String × String)

module _ {World E : Type 0} where
  -- A route id that is not set, and the empty one, have no adapter.
  abbrev pub adapter_of :
      List (String × Adapter World E) → Option String → Option (String × Adapter World E)
  adapter_of routes none = none
  adapter_of routes (some route_id) =
      if route_id == ""
      then none
      else Option.map (λ adapter. (route_id, adapter)) (lookup route_id routes)

  abbrev pub or_unavailable :
      String
      → Option (String × Adapter World E)
      → Result (GatewayError E) (String × Adapter World E)
  or_unavailable policy_ref none =
      err (model_route_unavailable ("No model route for policy " ⧺ policy_ref))
  or_unavailable policy_ref (some found) = ok found

  unfoldable pub route :
      StaticModelRouter World E → ModelRequest → Result (GatewayError E) (String × Adapter World E)
  route self request =
      or_unavailable request.policy_ref
        (adapter_of self.routes (lookup request.policy_ref self.policy_routes))

  -- The checks of `GovernedModelGateway.complete`, in order.
  unfoldable pub admit :
      StaticModelPolicy
      → StaticModelRouter World E
      → ModelRequest
      → Result (GatewayError E) (String × Adapter World E)
  admit policy router request = do authorize policy request; validate request; route router request

  abbrev pub call_adapter :
      ModelRequest
      → Result (GatewayError E) (String × Adapter World E)
      → World
      → Result (GatewayError E) ModelResponse × World
  call_adapter request (err e) world = (err e, world)
  call_adapter request (ok (route_id, adapter)) world =
      let (reply, after) = adapter request route_id world in (map_err provider_error reply, after)

  -- `GovernedModelGateway.complete`
  unfoldable pub complete :
      StaticModelPolicy
      → StaticModelRouter World E
      → ModelRequest
      → World
      → Result (GatewayError E) ModelResponse × World
  complete policy router request world = call_adapter request (admit policy router request) world
