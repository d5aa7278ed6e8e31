-- ===== src/ControlPlane/Factory/Drafts.antt =====
-- `AgentDraft.model_validate` (src/genesis/control_plane/factory/models.py): reads a draft from the
-- fields of a payload, with the constraints of the model. An error names a field that is refused.
use genesis_ai.Prelude.{
  Bool, List, Option, Result, String, [], all, codes, err, false, if◌then◌else◌, is_empty,
  is_subset, leb, length, nat_beq, nat_eq, none, not, ok, raise_if, some, str_len, string_eq, ℕ,
  ◌&&◌, ◌==◌, ◌>>=◌, ◌∷◌,
}
use genesis_ai.Contracts.{Json, str, arr, obj, Items, nil, cons, Fields, end, field, get_field}
use genesis_ai.Capabilities.{RiskLevel}
use genesis_ai.ControlPlane.Factory.Models.{AgentDraft}

-- The parts of a text between its dots.
abbrev add_code : ℕ → List (List ℕ) → List (List ℕ)
add_code c [] = (c ∷ []) ∷ []
add_code c (part ∷ parts) = (c ∷ part) ∷ parts

abbrev split_dots : List ℕ → List (List ℕ)
split_dots [] = [] ∷ []
split_dots (c ∷ s) =
    let parts = split_dots s in if nat_beq c 46 then [] ∷ parts else add_code c parts

abbrev is_digit : ℕ → Bool
is_digit c = leb 48 c && leb c 57

-- `0|[1-9][0-9]*`
abbrev is_numeral : List ℕ → Bool
is_numeral [] = false
is_numeral (c ∷ []) = is_digit c
is_numeral (c ∷ d ∷ s) = leb 49 c && leb c 57 && all is_digit (d ∷ s)

-- Three numerals with dots between them.
unfoldable pub is_version : String → Bool
is_version version =
    let parts = split_dots (codes version) in nat_beq (length parts) 3 && all is_numeral parts

-- `str = Field(min_length=minimum)`
unfoldable pub read_text : ℕ → String → Option Json → Result String String
read_text minimum key (some (str s)) = if leb minimum (str_len s) then ok s else err key
read_text minimum key _ = err key

abbrev pub read_items : String → Items → Result String (List String)
read_items key nil = ok []
read_items key (cons (str s) rest) = read_items key rest >>= λ xs. ok (s ∷ xs)
read_items key (cons _ rest) = err key

-- `tuple[str, ...] = Field(min_length=1)`
unfoldable pub read_some : String → Option Json → Result String (List String)
read_some key (some (arr xs)) =
    read_items key xs >>= λ texts. if is_empty texts then err key else ok texts
read_some key _ = err key

-- `tuple[str, ...] = ()`
unfoldable pub read_any : String → Option Json → Result String (List String)
read_any key none = ok []
read_any key (some (arr xs)) = read_items key xs
read_any key _ = err key

-- `Literal[value] = value`
unfoldable pub read_literal : String → String → Option Json → Result String (Unit {0})
read_literal key value none = ok tt
read_literal key value (some (str s)) = raise_if (not (s == value)) key
read_literal key value _ = err key

unfoldable pub read_risk : Option Json → Result String RiskLevel
read_risk (some (str s)) =
    if s == "LOW"
    then ok RiskLevel.low
    else if s == "MEDIUM"
    then ok RiskLevel.medium
    else if s == "HIGH"
    then ok RiskLevel.high
    else if s == "CRITICAL"
    then ok RiskLevel.critical
    else err "risk_level"
read_risk _ = err "risk_level"

unfoldable pub read_object : String → Option Json → Result String Fields
read_object key (some (obj fs)) = ok fs
read_object key _ = err key

abbrev names : Fields → List String
names end = []
names (field k v fs) = k ∷ names fs

abbrev draft_names : List String
draft_names =
    "draft_id" ∷ "tenant_id" ∷ "organization_id" ∷ "workspace_id" ∷ "correlation_id" ∷ "agent_id"
    ∷ "version" ∷ "purpose" ∷ "capability_type" ∷ "scope_refs" ∷ "tool_ids" ∷ "permission_refs"
    ∷ "prohibited_actions" ∷ "risk_level" ∷ "evidence_requirements" ∷ "test_requirements"
    ∷ "lifecycle_state" ∷ "agent_definition" ∷ []

abbrev pub checked_version : String → Result String String
checked_version version = if is_version version then ok version else err "version"

-- `AgentDraft.model_validate(payload)`
unfoldable pub model_validate : Fields → Result String AgentDraft
model_validate payload = do
  draft_id ← read_text 3 "draft_id" (get_field "draft_id" payload)
  tenant_id ← read_text 3 "tenant_id" (get_field "tenant_id" payload)
  organization_id ← read_text 3 "organization_id" (get_field "organization_id" payload)
  workspace_id ← read_text 3 "workspace_id" (get_field "workspace_id" payload)
  correlation_id ← read_text 3 "correlation_id" (get_field "correlation_id" payload)
  agent_id ← read_text 3 "agent_id" (get_field "agent_id" payload)
  text ← read_text 0 "version" (get_field "version" payload)
  version ← checked_version text
  purpose ← read_text 1 "purpose" (get_field "purpose" payload)
  kind ← read_literal "capability_type" "AGENT" (get_field "capability_type" payload)
  scope_refs ← read_some "scope_refs" (get_field "scope_refs" payload)
  tool_ids ← read_any "tool_ids" (get_field "tool_ids" payload)
  permission_refs ← read_any "permission_refs" (get_field "permission_refs" payload)
  prohibited ← read_some "prohibited_actions" (get_field "prohibited_actions" payload)
  risk_level ← read_risk (get_field "risk_level" payload)
  evidence ← read_some "evidence_requirements" (get_field "evidence_requirements" payload)
  tests ← read_some "test_requirements" (get_field "test_requirements" payload)
  state ← read_literal "lifecycle_state" "DRAFT" (get_field "lifecycle_state" payload)
  definition ← read_object "agent_definition" (get_field "agent_definition" payload)
  extra ← raise_if (not (is_subset (names payload) draft_names)) "extra"
  ok (record {
    draft_id = draft_id;
    tenant_id = tenant_id;
    organization_id = organization_id;
    workspace_id = workspace_id;
    correlation_id = correlation_id;
    agent_id = agent_id;
    version = version;
    purpose = purpose;
    scope_refs = scope_refs;
    tool_ids = tool_ids;
    permission_refs = permission_refs;
    prohibited_actions = prohibited;
    risk_level = risk_level;
    evidence_requirements = evidence;
    test_requirements = tests;
    agent_definition = definition;
  })
