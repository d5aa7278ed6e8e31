-- ===== src/Runtime/Context/Models.antt =====
-- src/genesis/runtime/context/models.py. A datetime is its number of microseconds: it is only
-- carried. A `Literal` of texts is a data type with the texts as `value`.
mod Enums
unfoldable pub use Enums.*
use genesis_ai.Prelude.{
  ℕ, ◌&&◌, ◌||◌, not, Bool, true, false, Option, none, some, List, [], ◌∷◌, ◌++◌, String, Result,
  ok, err, ◌>>◌, leb, is_empty, is_none, str_len, from_keys, if◌then◌else◌, raise_if, string_eq,
}
use genesis_ai.Contracts.{Json, str, bool, Fields, end, field}
use genesis_ai.Runtime.Limits.{ExecutionBudget}

pub record AuthorityContext : Type 0 where
  pub role : String
  pub role_refs : List String
  pub authority_level : AuthorityLevel

pub record ExecutionContextView : Type 0 where
  pub tenant_id : String
  pub organization_id : String
  pub workspace_id : String
  pub actor_id : String
  pub authority_context : AuthorityContext
  pub permission_refs : List String
  pub allowed_tool_ids : List String
  pub scope_refs : List String
  pub data_classification : DataClassification
  pub correlation_id : String
  pub execution_budget : ExecutionBudget

pub record BackendContextAuthorization : Type 0 where
  pub tenant_id : String
  pub organization_id : String
  pub workspace_id : String
  pub actor_id : String
  pub allowed_role_refs : List String
  pub allowed_authority_levels : List AuthorityLevel
  pub allowed_scope_refs : List String
  pub allowed_permission_refs : List String
  pub allowed_tool_ids : List String
  pub allowed_classifications : List DataClassification

pub record ContextScope : Type 0 where
  pub division_refs : List String
  pub project_refs : List String

pub require_business_scope : ContextScope → Result String ContextScope
require_business_scope self =
    if is_empty self.division_refs && is_empty self.project_refs
    then err "division_refs or project_refs is required"
    else ok self

abbrev pub all_refs : ContextScope → List String
all_refs self = from_keys (self.division_refs ++ self.project_refs)

pub record EvidenceReference : Type 0 where
  pub tenant_id : String
  pub organization_id : String
  pub workspace_id : String
  pub run_id : String
  pub correlation_id : String
  pub scope_refs : List String
  pub evidence_id : String
  pub source_id : String
  pub uri : String
  pub captured_at : ℕ
  pub retrieved_at : ℕ
  pub content_hash : String
  pub source_version : String
  pub anchor : String
  pub excerpt : String
  pub data_classification : DataClassification
  pub source_type : SourceType
  pub freshness : Freshness
  pub reliability : Reliability
  pub content_trust : ContextTrust
  pub validation_status : ValidationStatus
  pub metadata : Fields

pub enforce_external_source_semantics : EvidenceReference → Result String EvidenceReference
enforce_external_source_semantics self =
    if is_external_type self.source_type && not (is_untrusted self.content_trust)
    then err "EXTERNAL evidence must be UNTRUSTED"
    else ok self

pub record ContextSegment : Type 0 where
  pub segment_id : String
  pub key : String
  pub content : String
  pub priority : ContextPriority
  pub source : ContextSource
  pub trust : ContextTrust
  pub freshness : Freshness
  pub data_classification : DataClassification
  pub scope_refs : List String
  pub permission_refs : List String
  pub tool_ids : List String
  pub evidence : Option EvidenceReference
  pub memory_ref : Option String

pub enforce_source_semantics : ContextSegment → Result String ContextSegment
enforce_source_semantics self = do
  raise_if (is_external self.source && not (is_untrusted self.trust))
      "EXTERNAL context must be UNTRUSTED"
  raise_if (is_authoritative_evidence self.priority && is_none self.evidence)
      "authoritative evidence requires EvidenceReference"
  raise_if (is_memory self.source && is_none self.memory_ref) "MEMORY context requires memory_ref"
  ok self

-- `Field(min_length=least, max_length=most)`
abbrev pub length_within : ℕ → ℕ → String → Bool
length_within least most s = leb least (str_len s) && leb (str_len s) most

abbrev memory_ref_within : Option String → Bool
memory_ref_within none = true
memory_ref_within (some ref) = length_within 3 128 ref

-- What pydantic runs to build a segment: the constraints of the fields, then the validator.
unfoldable pub validated_segment : ContextSegment → Result String ContextSegment
unfolding enforce_source_semantics
validated_segment self =
    if length_within 3 128 self.segment_id
      && length_within 1 128 self.key
      && length_within 1 200_000 self.content
      && not (is_empty self.scope_refs)
      && memory_ref_within self.memory_ref
    then enforce_source_semantics self
    else err "ContextSegment"

abbrev pub size_characters : ContextSegment → ℕ
size_characters self = str_len self.content

abbrev pub required : ContextSegment → Bool
required self =
    leb (priority_value self.priority) (priority_value ContextPriority.authoritative_evidence)

pub record ContextSelectionMetadata : Type 0 where
  pub maximum_characters : ℕ
  pub selected_characters : ℕ
  pub selected_segment_ids : List String
  pub dropped_segment_ids : List String
  pub reason_by_segment : List (String × String)

pub record ContextSelection : Type 0 where
  pub selected : List ContextSegment
  pub dropped : List ContextSegment
  pub metadata : ContextSelectionMetadata

pub record RuntimeContextBundle : Type 0 where
  pub context_id : String
  pub goal : String
  pub actor_id : String
  pub tenant_id : String
  pub organization_id : String
  pub workspace_id : String
  pub authority_context : AuthorityContext
  pub scope : ContextScope
  pub capability_id : String
  pub allowed_tool_ids : List String
  pub execution_budget : ExecutionBudget
  pub memory_refs : List String
  pub evidence_refs : List EvidenceReference
  pub correlation_id : String
  pub selected_segments : List ContextSegment
  pub selection : ContextSelectionMetadata
  pub canonical_context_bundle : Fields

pub record ContextFailure : Type 0 where
  pub code : String
  pub message : String
  pub correlation_id : String
  pub details : Fields

unfoldable pub as_dict : ContextFailure → Fields
as_dict self = field "code" (str self.code) (
    field "message" (str self.message) (
      field "correlation_id" (str self.correlation_id)
        (field "retryable" (bool false) (field "details" (Json.obj self.details) end))))
