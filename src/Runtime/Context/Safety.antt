-- ===== src/Runtime/Context/Safety.antt =====
-- src/genesis/runtime/context/safety.py: `ContextSafetyGuard`. A check returns nothing or raises a
-- `ContextFailure`.
pub mod Boundary
pub mod Segments
use genesis_ai.Prelude.{
  ◌>>◌, Bool, List, Option, Result, String, [], contains, filter, for_each, from_keys,
  if◌then◌else◌, is_empty, ltb, map, nat_eq, none, not, ok, raise_if, some, sort, sorted_difference,
  str_leb, string_eq, ◌!=◌, ◌&&◌, ◌-◌, ◌||◌, ◌∷◌, ◌⧺◌, arith,
}
use genesis_ai.Contracts.{str, texts, Fields, end, field}
use genesis_ai.Runtime.Context.Models.{
  BackendContextAuthorization, ContextFailure, ContextSegment, EvidenceReference,
  ExecutionContextView, classification_rank, source_type_value, required, source_value, is_current,
  trust_value, is_external, freshness_value, validation_status_value, classification_eq,
  authority_level_eq,
}
use genesis_ai.Runtime.Context.Injection.{contains_injection}

-- The kinds that the callers of `_require_subset` name.
pub data Kind : Type 0 where
  scope permission tool role evidence_scope : Kind

abbrev pub kind_name : Kind → String
kind_name scope = "scope"
kind_name permission = "permission"
kind_name tool = "tool"
kind_name role = "role"
kind_name evidence_scope = "evidence_scope"

-- `kind.upper()`
abbrev pub kind_upper : Kind → String
kind_upper scope = "SCOPE"
kind_upper permission = "PERMISSION"
kind_upper tool = "TOOL"
kind_upper role = "ROLE"
kind_upper evidence_scope = "EVIDENCE_SCOPE"

abbrev failure : String → String → String → Fields → ContextFailure
failure code message correlation_id details = record {
  code = code;
  message = message;
  correlation_id = correlation_id;
  details = details;
}

unfoldable pub require_subset :
    Kind
    → (requested authorized : List String) (correlation_id : String)
    → Result ContextFailure (Unit {0})
require_subset kind requested authorized correlation_id =
    let excess = sorted_difference requested authorized in
    raise_if (not (is_empty excess)) (
      failure ("CONTEXT_" ⧺ kind_upper kind ⧺ "_ESCALATION")
        ("Context attempted to expand Backend-authorized " ⧺ kind_name kind ⧺ ".") correlation_id
        (field ("unauthorized_" ⧺ kind_name kind ⧺ "_refs") (texts excess) end))

-- The names of the identity fields that differ.
identity_mismatches : ExecutionContextView → BackendContextAuthorization → List String
identity_mismatches context boundary = sort str_leb (
    map (λ (k : String × Bool). k.0)
      (filter (λ (k : String × Bool). k.1)
        (("tenant_id", context.tenant_id != boundary.tenant_id)
          ∷ ("organization_id", context.organization_id != boundary.organization_id)
          ∷ ("workspace_id", context.workspace_id != boundary.workspace_id)
          ∷ ("actor_id", context.actor_id != boundary.actor_id)
          ∷ [])))

abbrev pub roles : ExecutionContextView → List String
roles context = from_keys (context.authority_context.role ∷ context.authority_context.role_refs)

unfoldable pub validate_execution_context :
    ExecutionContextView → BackendContextAuthorization → Result ContextFailure (Unit {0})
unfolding identity_mismatches
validate_execution_context context boundary = do
  raise_if (not (is_empty (identity_mismatches context boundary))) (
      failure "CONTEXT_IDENTITY_MISMATCH"
        "ExecutionContext identity is outside the Backend authorization boundary."
        context.correlation_id (field "fields" (texts (identity_mismatches context boundary)) end))
  raise_if (is_empty context.scope_refs) (
      failure "CONTEXT_SCOPE_REQUIRED" "ExecutionContext requires at least one authorized scope."
        context.correlation_id end)
  require_subset scope context.scope_refs boundary.allowed_scope_refs context.correlation_id
  require_subset permission context.permission_refs boundary.allowed_permission_refs
      context.correlation_id
  require_subset tool context.allowed_tool_ids boundary.allowed_tool_ids context.correlation_id
  require_subset role (roles context) boundary.allowed_role_refs context.correlation_id
  raise_if
      (not (contains boundary.allowed_authority_levels context.authority_context.authority_level))
      (failure "CONTEXT_AUTHORITY_DENIED"
        "ExecutionContext authority level is not authorized by Backend." context.correlation_id end)
  raise_if (not (contains boundary.allowed_classifications context.data_classification)) (
      failure "CONTEXT_CLASSIFICATION_DENIED"
        "ExecutionContext classification is not authorized by Backend." context.correlation_id end)

-- A failure that names the segment.
abbrev segment_failure : String → String → ExecutionContextView → ContextSegment → ContextFailure
segment_failure code message context item =
    failure code message context.correlation_id (field "segment_id" (str item.segment_id) end)

-- The part of the loop body under `if evidence is not None`.
unfoldable pub validate_evidence :
    ExecutionContextView → ContextSegment → EvidenceReference → Result ContextFailure (Unit {0})
validate_evidence context item evidence = do
  raise_if
      (evidence.tenant_id != context.tenant_id
        || evidence.organization_id != context.organization_id
        || evidence.workspace_id != context.workspace_id)
      (segment_failure "CONTEXT_EVIDENCE_SCOPE_MISMATCH"
        "Evidence identity does not match ExecutionContext." context item)
  require_subset evidence_scope evidence.scope_refs item.scope_refs context.correlation_id
  raise_if (evidence.correlation_id != context.correlation_id) (
      segment_failure "CONTEXT_EVIDENCE_CORRELATION_MISMATCH"
        "Evidence correlation does not match ExecutionContext." context item)
  raise_if (evidence.data_classification != item.data_classification) (
      segment_failure "CONTEXT_EVIDENCE_CLASSIFICATION_MISMATCH"
        "Evidence and context segment classification do not match." context item)
  raise_if (source_type_value evidence.source_type != source_value item.source) (
      segment_failure "CONTEXT_EVIDENCE_SOURCE_MISMATCH"
        "Evidence source semantics do not match the context segment." context item)
  raise_if (trust_value evidence.content_trust != trust_value item.trust) (
      segment_failure "CONTEXT_EVIDENCE_TRUST_MISMATCH"
        "Evidence trust semantics do not match the context segment." context item)
  raise_if (freshness_value evidence.freshness != freshness_value item.freshness) (
      segment_failure "CONTEXT_EVIDENCE_FRESHNESS_MISMATCH"
        "Evidence freshness does not match the context segment." context item)
  raise_if (validation_status_value evidence.validation_status != "VALID") (
      segment_failure "CONTEXT_EVIDENCE_INVALID"
        "Context evidence must be validated by the governed boundary." context item)

unfoldable pub validate_optional_evidence :
    ExecutionContextView
    → ContextSegment
    → Option EvidenceReference
    → Result ContextFailure (Unit {0})
unfolding validate_evidence
validate_optional_evidence context item none = ok tt
validate_optional_evidence context item (some evidence) = validate_evidence context item evidence

-- The body of the loop of `validate_segments`.
unfoldable pub validate_segment :
    ExecutionContextView
    → BackendContextAuthorization
    → (active_scope_refs : List String) → ContextSegment
    → Result ContextFailure (Unit {0})
validate_segment context boundary active_scope_refs item = do
  require_subset scope item.scope_refs active_scope_refs context.correlation_id
  require_subset permission item.permission_refs context.permission_refs context.correlation_id
  require_subset tool item.tool_ids boundary.allowed_tool_ids context.correlation_id
  raise_if
      (not (contains boundary.allowed_classifications item.data_classification)
        || ltb (classification_rank context.data_classification)
            (classification_rank item.data_classification))
      (segment_failure "CONTEXT_CLASSIFICATION_DENIED"
        "Context segment classification exceeds the authorized execution context." context item)
  validate_optional_evidence context item item.evidence
  raise_if (required item && not (is_current item.freshness)) (
      segment_failure "CONTEXT_EVIDENCE_STALE"
        "Required business context or authoritative evidence is not current." context item)
  raise_if (is_external item.source && contains_injection item.content) (
      segment_failure "EXTERNAL_CONTEXT_INSTRUCTION_INJECTION"
        "External content attempted to act as an instruction and was rejected." context item)

unfoldable pub validate_segments :
    List ContextSegment
    → ExecutionContextView
    → BackendContextAuthorization
    → (active_scope_refs : List String) → Result ContextFailure (Unit {0})
unfolding validate_segment
validate_segments segments context boundary active_scope_refs =
    for_each (validate_segment context boundary active_scope_refs) segments
