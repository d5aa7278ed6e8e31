-- ===== src/Runtime/Context/Safety/Segments.antt =====
-- What holds of every segment that the guard lets into a context.
use mathlib.Core.Option.{some-injective}
use genesis_ai.Prelude.{
  ==_iff, All, All-map, List, Option, String, Subset, contains, false, for_each→All, nat_eq, none,
  ok, some, string_eq, true, ◌≡◌, ◌≤◌, arith, refl, ◌↔◌, All→for_each, ap,
}
use genesis_ai.Runtime.Context.Models.{
  trust_value-injective, freshness_value-injective, validation_status_value-valid,
  BackendContextAuthorization, ExecutionContextView, ContextSegment, EvidenceReference,
  classification_rank, source_value, source_type_value, ValidationStatus, Freshness, required,
  is_external, classification_eq, trust_value, freshness_value, validation_status_value,
}
use genesis_ai.Runtime.Context.Injection.{contains_injection}
use genesis_ai.Runtime.Context.Safety.{
  Kind, validate_evidence, validate_segment, validate_optional_evidence, validate_segments,
}
use genesis_ai.Runtime.Context.Safety.Boundary.{require_subset→Subset, Subset→require_subset}

-- Evidence of the same tenant, run and meaning as the segment that carries it.
pub record IsBound (context : ExecutionContextView) (item : ContextSegment)
    (evidence : EvidenceReference) : Type 0 where
  pub tenant : evidence.tenant_id ≡ context.tenant_id
  pub organization : evidence.organization_id ≡ context.organization_id
  pub workspace : evidence.workspace_id ≡ context.workspace_id
  pub correlation : evidence.correlation_id ≡ context.correlation_id
  pub scopes : Subset evidence.scope_refs item.scope_refs
  pub classification : evidence.data_classification ≡ item.data_classification
  pub source : source_type_value evidence.source_type ≡ source_value item.source
  pub trust : evidence.content_trust ≡ item.trust
  pub freshness : evidence.freshness ≡ item.freshness
  pub valid : evidence.validation_status ≡ ValidationStatus.valid

-- A segment that may enter the context of a run.
pub record IsAdmissible (context : ExecutionContextView) (boundary : BackendContextAuthorization)
    (active_scope_refs : List String) (item : ContextSegment) : Type 0 where
  pub scopes : Subset item.scope_refs active_scope_refs
  pub permissions : Subset item.permission_refs context.permission_refs
  pub tools : Subset item.tool_ids boundary.allowed_tool_ids
  pub classification_allowed :
      contains boundary.allowed_classifications item.data_classification ≡ true
  pub classification_within :
      classification_rank item.data_classification ≤ classification_rank context.data_classification
  pub evidence_bound :
      (evidence : EvidenceReference) → item.evidence ≡ some evidence → IsBound context item evidence
  pub not_stale : required item ≡ true → item.freshness ≡ Freshness.current
  pub no_instruction : is_external item.source ≡ true → contains_injection item.content ≡ false

module _ (context : ExecutionContextView) (item : ContextSegment)
    (evidence : EvidenceReference) where
  validate_evidence-IsBound :
      validate_evidence context item evidence ≡ ok tt → IsBound context item evidence
  unfolding validate_evidence
  validate_evidence-IsBound h = record {
    tenant = ground (arith, ==_iff evidence.tenant_id context.tenant_id);
    organization = ground (arith, ==_iff evidence.organization_id context.organization_id);
    workspace = ground (arith, ==_iff evidence.workspace_id context.workspace_id);
    correlation = ground (arith, ==_iff evidence.correlation_id context.correlation_id);
    scopes =
        require_subset→Subset Kind.evidence_scope evidence.scope_refs item.scope_refs
          context.correlation_id (ground arith);
    classification =
        (==_iff evidence.data_classification item.data_classification).0 (ground arith);
    source =
        ground (arith, ==_iff (source_type_value evidence.source_type) (source_value item.source));
    trust = trust_value-injective evidence.content_trust item.trust (ground arith);
    freshness = freshness_value-injective evidence.freshness item.freshness (ground arith);
    valid = validation_status_value-valid evidence.validation_status (ground arith);
  }

IsBound-validate_evidence :
    (context : ExecutionContextView) (item : ContextSegment) (evidence : EvidenceReference)
    → IsBound context item evidence
    → validate_evidence context item evidence ≡ ok tt
unfolding validate_evidence
IsBound-validate_evidence context item evidence b = ground (
  arith,
  ==_iff evidence.tenant_id context.tenant_id,
  ==_iff evidence.organization_id context.organization_id,
  ==_iff evidence.workspace_id context.workspace_id,
  ==_iff evidence.correlation_id context.correlation_id,
  ==_iff evidence.data_classification item.data_classification,
  ==_iff (source_type_value evidence.source_type) (source_value item.source),
  ==_iff (trust_value evidence.content_trust) (trust_value item.trust),
  ap trust_value b.trust,
  ==_iff (freshness_value evidence.freshness) (freshness_value item.freshness),
  ap freshness_value b.freshness,
  ==_iff (validation_status_value evidence.validation_status) "VALID",
  ap validation_status_value b.valid,
  b.tenant,
  b.organization,
  b.workspace,
  b.correlation,
  b.classification,
  b.source,
  b.valid,
  Subset→require_subset Kind.evidence_scope evidence.scope_refs item.scope_refs
      context.correlation_id b.scopes,
)

optional_evidence-IsBound :
    (context : ExecutionContextView) (item : ContextSegment) (found : Option EvidenceReference)
    → validate_optional_evidence context item found ≡ ok tt
    → (evidence : EvidenceReference) → found ≡ some evidence
    → IsBound context item evidence
unfolding validate_optional_evidence
optional_evidence-IsBound context item none h evidence e = absurd (cc)
optional_evidence-IsBound context item (some evidence') h evidence e =
    rw (← some-injective evidence' evidence e) (validate_evidence-IsBound context item evidence' h)

IsBound-optional_evidence :
    (context : ExecutionContextView) (item : ContextSegment) (found : Option EvidenceReference)
    → ((evidence : EvidenceReference) → found ≡ some evidence → IsBound context item evidence)
    → validate_optional_evidence context item found ≡ ok tt
unfolding validate_optional_evidence
IsBound-optional_evidence context item none h = refl
IsBound-optional_evidence context item (some evidence) h =
    IsBound-validate_evidence context item evidence (h evidence refl)

module _ (context : ExecutionContextView) (boundary : BackendContextAuthorization)
    (active_scope_refs : List String) where
  validate_segment-IsAdmissible :
      (item : ContextSegment)
      → validate_segment context boundary active_scope_refs item ≡ ok tt
      → IsAdmissible context boundary active_scope_refs item
  unfolding validate_segment
  validate_segment-IsAdmissible item h = record {
    scopes =
        require_subset→Subset Kind.scope item.scope_refs active_scope_refs context.correlation_id
          (ground arith);
    permissions =
        require_subset→Subset Kind.permission item.permission_refs context.permission_refs
          context.correlation_id (ground arith);
    tools =
        require_subset→Subset Kind.tool item.tool_ids boundary.allowed_tool_ids
          context.correlation_id (ground arith);
    classification_allowed = ground arith;
    classification_within = ground arith;
    evidence_bound = optional_evidence-IsBound context item item.evidence (ground arith);
    not_stale = λ e. ground arith;
    no_instruction = λ e. ground arith;
  }

  IsAdmissible-validate_segment :
      (item : ContextSegment)
      → IsAdmissible context boundary active_scope_refs item
      → validate_segment context boundary active_scope_refs item ≡ ok tt
  unfolding validate_segment
  IsAdmissible-validate_segment item a = ground (
    arith,
    Subset→require_subset Kind.scope item.scope_refs active_scope_refs context.correlation_id
        a.scopes,
    Subset→require_subset Kind.permission item.permission_refs context.permission_refs
        context.correlation_id a.permissions,
    Subset→require_subset Kind.tool item.tool_ids boundary.allowed_tool_ids context.correlation_id
        a.tools,
    a.classification_allowed,
    a.classification_within,
    IsBound-optional_evidence context item item.evidence a.evidence_bound,
    a.not_stale,
    a.no_instruction,
  )

  -- Segments pass the guard exactly when each lies within the active scopes, the permissions of the
  -- context and the tools of the boundary, is not classified above the context, carries only valid
  -- evidence of the same tenant, correlation, classification, source, trust and freshness, is
  -- current where it is required, and, if external, holds no injected instruction.
  pub validate_segments_iff :
      (segments : List ContextSegment)
      → (validate_segments segments context boundary active_scope_refs ≡ ok tt)
        ↔ All (IsAdmissible context boundary active_scope_refs) segments
  unfolding validate_segments
  validate_segments_iff segments = (
    λ h.
        All-map segments validate_segment-IsAdmissible
          (for_each→All (validate_segment context boundary active_scope_refs) segments h),
    λ h.
        All→for_each (validate_segment context boundary active_scope_refs) segments
          (All-map segments IsAdmissible-validate_segment h),
  )
