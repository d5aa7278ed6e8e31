-- ===== src/Capabilities/Tests.antt =====
-- Runs of the resolver, and the theorem about it at a concrete input.
use genesis_ai.Prelude.{
  List, [], contains, nat_eq, none, not, ok, refl, string_eq, true, ◌&&◌, ◌↔◌, ◌∷◌, ◌≡◌,
}
use genesis_ai.Runtime.Context.Models.{DataClassification}
use genesis_ai.Runtime.Context.Goal.{normalized_goal}
use genesis_ai.Capabilities.Words.{includes, tokens, strip, ends_with}
use genesis_ai.Capabilities.{
  CapabilityType, RiskLevel, Availability, ConfigurationStatus, ResolutionDecision, Requirement,
  CapabilityCatalogItem, CapabilityResolution, candidates, understand, score, ranked,
  resolved_items,
}
use genesis_ai.Capabilities.Resolution.{item_ids, decision, resolve}
use genesis_ai.Capabilities.Decision.{
  IsSatisfied, contains-missing_capability_ids, resolve-reuse_iff,
}

abbrev requirement : Requirement
requirement = record {
  tenant_id = "tenant_1";
  organization_id = "org_1";
  workspace_id = "workspace_1";
  actor_id = "actor_1";
  correlation_id = "corr_1";
  requirement_id = none;
  statement = "  show every late tugas ";
  scope_refs = "division_a" ∷ [];
  permission_refs = [];
  data_classification = DataClassification.internal;
  preferred_capability_type = none;
}

abbrev list_item : CapabilityCatalogItem
list_item = record {
  capability_id = "task.list";
  version = "1.0.0";
  name = "List";
  purpose = "Lists";
  capability_type = CapabilityType.skill;
  risk_level = RiskLevel.low;
  availability = Availability.available;
  configuration_status = ConfigurationStatus.configured;
  backing_tool_ids = "task.list" ∷ [];
  permission_refs = "read" ∷ [];
  scope_refs = [];
  keywords = [];
}

abbrev read_item : CapabilityCatalogItem
read_item = record list_item { capability_id = "task.read" }

abbrev catalog : List CapabilityCatalogItem
catalog = read_item ∷ list_item ∷ []

finds_word : includes "gas" "late tugas" ≡ true
unfolding includes
finds_word = refl

ends : ends_with ".list" "task.list" ≡ true
unfolding ends_with
ends = refl

splits_tokens : tokens "a new_one, 22 for x9z" ≡ "new_one" ∷ "for" ∷ "x9z" ∷ []
unfolding tokens
splits_tokens = refl

strips : strip "  two words " ≡ "two words"
unfolding strip
strips = refl

resolves : (r : CapabilityResolution) × (resolve (λ s. s) (λ n. "2") requirement catalog ≡ ok r)
unfolding resolve strip
resolves = (_, refl)

resolve-reuse_iff_example :
    (resolves.0.decision ≡ ResolutionDecision.reuse)
    ↔ IsSatisfied (understand (λ s. s) (λ n. "2") requirement).candidate_capability_ids catalog
resolve-reuse_iff_example =
    resolve-reuse_iff (λ s. s) (λ n. "2") requirement catalog resolves.0 resolves.1

reuses : decision (λ s. s) (λ n. "2") requirement catalog ≡ ResolutionDecision.reuse
unfolding understand candidates includes normalized_goal resolved_items ranked score tokens
reuses = refl

creates : decision (λ s. s) (λ n. "2") requirement (list_item ∷ []) ≡ ResolutionDecision.create
unfolding understand candidates includes normalized_goal resolved_items ranked score tokens
creates = refl

contains-missing_capability_ids_example : contains resolves.0.missing_capability_ids "task.read" ≡ (
    contains (understand (λ s. s) (λ n. "2") requirement).candidate_capability_ids "task.read"
    && not (contains (item_ids catalog) "task.read"))
contains-missing_capability_ids_example =
    contains-missing_capability_ids (λ s. s) (λ n. "2") requirement catalog resolves.0 "task.read"
      resolves.1
