-- ===== src/Research/Engine/Models.antt =====
-- The drafts of src/genesis/research/engine/service.py, its errors and its ports.
use genesis_ai.Prelude.{
  Bool, List, Option, Result, String, err, if◌then◌else◌, nat_eq, none, ok, some, string_eq, ℕ,
  ◌==◌, ◌>>=◌,
}
use genesis_ai.Contracts.{Json, str, arr, obj, Items, nil, Fields, end, get_field}
use genesis_ai.Contracts.Catalog.{CatalogError}
use genesis_ai.Platform.{Platform, to_text}
use genesis_ai.ModelGateway.{ModelRequest, ModelResponse}

-- `exception` is any exception but the two that the engine raises itself.
pub data ResearchError : Type 0 where
  contract : CatalogError → ResearchError
  output_invalid : String → ResearchError
  exception : ResearchError

-- A confidence is the bit pattern of a float.
pub record FindingDraft : Type 0 where
  pub finding_id : String
  pub finding_type : String
  pub domain : Option String
  pub title : Option String
  pub statement : String
  pub severity : Option String
  pub confidence : ℕ
  pub evidence_ids : List String
  pub limitations : List String

pub record RecommendationDraft : Type 0 where
  pub recommendation_id : String
  pub summary : String
  pub recommended_action : String
  pub confidence : ℕ
  pub finding_ids : List String
  pub evidence_ids : List String
  pub limitations : List String
  pub backlog_candidate : Bool

pub record ResearchDraft : Type 0 where
  pub findings : List FindingDraft
  pub recommendations : List RecommendationDraft
  pub limitations : List String

-- What the engine uses of libraries: `==` of two values that are not both texts, `str.format_map`, and
-- pydantic's reading of JSON as a `_ResearchDraft`.
pub record Libraries : Type 0 where
  pub platform : Platform
  pub other_equal : Json → Json → Bool
  pub format_map : String → List (String × String) → Result String String
  pub read_draft : String → Result String ResearchDraft

abbrev pub json_equal : Libraries → Json → Json → Bool
json_equal libraries (str a) (str b) = a == b
json_equal libraries a b = libraries.other_equal a b

-- The arguments of `retrieve`: the run, the query and the execution context.
pub record RetrieveRequest : Type 0 where
  pub run_id : String
  pub query : String
  pub execution_context : Json

abbrev pub Retrieve : Type 0 → Type 0
Retrieve World = RetrieveRequest → World → Result ResearchError Json × World

pub record Ports (World : Type 0) : Type 0 where
  pub retrieve : Option (Retrieve World)
  pub complete : ModelRequest → World → Result ResearchError ModelResponse × World
  -- `datetime.now(UTC)`
  pub now : World → ℕ × World

-- A step on the world, after a computation that may raise.
abbrev pub and_then :
    {World A : Type 0} {B : Type 0}
    → Result ResearchError A
    → (A → World → Result ResearchError B × World)
    → World
    → Result ResearchError B × World
and_then (err e) next w = (err e, w)
and_then (ok a) next w = next a w

-- A call whose arguments may raise.
abbrev pub call :
    {World : Type 0}
    → Retrieve World
    → Result ResearchError RetrieveRequest
    → World
    → Result ResearchError Json × World
call retrieve (err e) w = (err e, w)
call retrieve (ok request) w = retrieve request w

-- `payload[key]`
abbrev pub item : String → Fields → Result ResearchError Json
item key payload = found (get_field key payload)
  where
    found : Option Json → Result ResearchError Json
    found none = err exception
    found (some value) = ok value

-- A value that is used as a mapping.
abbrev pub as_mapping : Json → Result ResearchError Fields
as_mapping (obj fields) = ok fields
as_mapping value = err exception

-- `raise ResearchOutputInvalid(text)` where a computation fails
abbrev pub or_invalid {ℓ κ} :
    {E : Type ℓ} {A : Type κ} → String → Result E A → Result ResearchError A
or_invalid text (ok a) = ok a
or_invalid text (err e) = err (output_invalid text)

abbrev pub or_exception {ℓ κ} : {E : Type ℓ} {A : Type κ} → Result E A → Result ResearchError A
or_exception (ok a) = ok a
or_exception (err e) = err exception

-- `for ref in context.get("evidence_refs", [])`: the parts of a text or of a mapping are texts, which
-- have no fields.
abbrev pub iterated : Option Json → Result ResearchError Items
iterated none = ok nil
iterated (some (arr refs)) = ok refs
iterated (some (str s)) = if s == "" then ok nil else err exception
iterated (some (obj end)) = ok nil
iterated (some _) = err exception

-- `retrieve(run_id=..., query=..., execution_context=...)`
abbrev pub retrieve_request : Libraries → Fields → Result ResearchError RetrieveRequest
retrieve_request libraries request = item "run_id" request >>= λ run_id.
    item "question" request >>= λ question.
    item "execution_context" request >>= λ execution_context. ok (record {
      run_id = to_text libraries.platform run_id;
      query = to_text libraries.platform question;
      execution_context = execution_context;
    })
