-- ===== src/Runtime/Context/Manager/Canonical.antt =====
-- The payloads that src/genesis/runtime/context/manager.py writes: the canonical ContextBundle and
-- the text that its identifier digests.
use mathlib.Core.Option
use genesis_ai.Prelude.{
  List, Option, String, false, filter_map, nat_eq, str_take, string_eq, ℕ, ◌⧺◌,
}
use genesis_ai.Platform.{Platform}
use genesis_ai.Contracts.{
  Json, str, int, float, bool, texts, arr, obj, Fields, end, field, items, optional_field,
}
use genesis_ai.Runtime.Limits.{ExecutionBudget}
use genesis_ai.Runtime.Context.Models.{
  ContextScope, ContextSegment, EvidenceReference, ExecutionContextView, classification_value,
  source_type_value, freshness_value, reliability_value, trust_value, validation_status_value,
}

-- `execution_budget.model_dump(exclude_none=True)`
pub budget_json : ExecutionBudget → Json
budget_json b = obj (
    optional_field "max_tokens" int b.max_tokens (
      optional_field "max_cost" float b.max_cost (
        optional_field "max_steps" int b.max_steps (
          optional_field "max_tool_calls" int b.max_tool_calls (
            optional_field "max_children" int b.max_children (
              optional_field "max_depth" int b.max_depth (
                optional_field "timeout_seconds" int b.timeout_seconds
                  (optional_field "concurrency_limit" int b.concurrency_limit end))))))))

-- `evidence.model_dump(mode="json", exclude_none=True)`
pub evidence_json : Platform → EvidenceReference → Json
evidence_json platform e = obj (
    field "tenant_id" (str e.tenant_id) (
      field "organization_id" (str e.organization_id) (
        field "workspace_id" (str e.workspace_id) (
          field "run_id" (str e.run_id) (
            field "correlation_id" (str e.correlation_id) (
              field "scope_refs" (texts e.scope_refs) (
                field "evidence_id" (str e.evidence_id) (
                  field "source_id" (str e.source_id) (
                    field "uri" (str e.uri) (
                      field "captured_at" (str (platform.datetime_text e.captured_at)) (
                        field "retrieved_at" (str (platform.datetime_text e.retrieved_at)) (
                          field "content_hash" (str e.content_hash) (
                            field "source_version" (str e.source_version) (
                              field "anchor" (str e.anchor)
                                (field "excerpt" (str e.excerpt) (evidence_tail e))))))))))))))))
  where
    evidence_tail : EvidenceReference → Fields
    evidence_tail e =
        field "data_classification" (str (classification_value e.data_classification)) (
          field "source_type" (str (source_type_value e.source_type)) (
            field "freshness" (str (freshness_value e.freshness)) (
              field "reliability" (str (reliability_value e.reliability)) (
                field "content_trust" (str (trust_value e.content_trust)) (
                  field "instruction_authority" (bool false) (
                    field "validation_status" (str (validation_status_value e.validation_status))
                      (field "metadata" (obj e.metadata) end)))))))

item_json : ContextSegment → EvidenceReference → Json
item_json item e = obj (
    field "key" (str item.key) (
      field "value" (str item.content) (
        field "source_id" (str e.source_id) (
          field "evidence_id" (str e.evidence_id) (
            field "source_version" (str e.source_version) (
              field "content_hash" (str e.content_hash) (
                field "anchor" (str e.anchor) (
                  field "data_classification" (str (classification_value e.data_classification)) (
                    field "source_type" (str (source_type_value e.source_type)) (
                      field "freshness" (str (freshness_value e.freshness)) (
                        field "reliability" (str (reliability_value e.reliability)) (
                          field "content_trust" (str (trust_value e.content_trust))
                            (field "instruction_authority" (bool false) end)))))))))))))

-- The selected segments that carry evidence, each with its evidence.
abbrev pub evidenced : List ContextSegment → List (ContextSegment × EvidenceReference)
evidenced selected = filter_map with_evidence selected
  where
    with_evidence : ContextSegment → Option (ContextSegment × EvidenceReference)
    with_evidence item = Option.map (λ e. (item, e)) item.evidence

pub canonical_bundle :
    Platform
    → ExecutionContextView
    → (goal : String) (scope_refs : List String) (capability_id : String)
    → (tool_ids memory_refs : List String) (timestamp : ℕ) → (selected : List ContextSegment)
    → (context_id : String) → Fields
unfolding item_json
canonical_bundle platform context goal scope_refs capability_id tool_ids memory_refs timestamp
      selected context_id =
    field "context_id" (str context_id) (
      field "tenant_id" (str context.tenant_id) (
        field "organization_id" (str context.organization_id) (
          field "workspace_id" (str context.workspace_id) (
            field "actor_id" (str context.actor_id) (
              field "correlation_id" (str context.correlation_id) (
                field "goal" (str goal) (
                  field "capability_id" (str capability_id) (
                    field "allowed_tool_ids" (texts tool_ids) (
                      field "execution_budget" (budget_json context.execution_budget) (
                        field "memory_refs" (texts memory_refs) (
                          field "scope_refs" (texts scope_refs) (
                            field "created_at" (str (platform.utc_text timestamp)) (
                              field "items"
                                (arr (
                                  items
                                    (λ (p : ContextSegment × EvidenceReference). item_json p.0 p.1)
                                    (evidenced selected)))
                                (field "evidence_refs"
                                  (arr (
                                    items
                                      (λ (p : ContextSegment × EvidenceReference).
                                        evidence_json platform p.1)
                                      (evidenced selected)))
                                  end))))))))))))))

-- `_context_id`
pub context_id :
    Platform
    → ExecutionContextView
    → (goal : String) → ContextScope
    → (capability_id : String) (tool_ids selected_segment_ids : List String) → String
context_id platform context goal scope capability_id tool_ids selected_segment_ids =
    "context_" ⧺ str_take 24 (platform.sha256_hex (platform.dumps payload))
  where
    payload : Json
    payload = obj (
        field "tenant_id" (str context.tenant_id) (
          field "organization_id" (str context.organization_id) (
            field "workspace_id" (str context.workspace_id) (
              field "actor_id" (str context.actor_id) (
                field "correlation_id" (str context.correlation_id) (
                  field "goal" (str goal) (
                    field "scope"
                      (obj (
                        field "division_refs" (texts scope.division_refs)
                          (field "project_refs" (texts scope.project_refs) end)))
                      (field "capability_id" (str capability_id) (
                        field "tool_ids" (texts tool_ids)
                          (field "selected_segment_ids" (texts selected_segment_ids) end))))))))))
