-- ===== src/Capabilities.antt =====
-- src/genesis/capabilities/resolver: models.py and service.py, and the type of a capability. `casefold`
-- is `str.casefold` and `decimal` is `str` of a number.
pub mod Words
pub mod Resolution
pub mod Payloads
pub mod Decision
mod Tests
use mathlib.Core.Option
use genesis_ai.Prelude.{
  Bool, List, Option, String, [], any, contains, false, filter, flat_map, from_keys, if◌then◌else◌,
  is_empty, join, length, ltb, map, nat_beq, nat_eq, not, sort, str_leb, string_eq, sum_by, true, ℕ,
  ◌&&◌, ◌+◌, ◌-◌, ◌||◌, ◌∷◌, ◌⧺◌, arith,
}
use genesis_ai.Capabilities.Words.{includes, normalized, ends_with}
use genesis_ai.Runtime.Context.Models.{DataClassification}

pub data CapabilityType : Type 0 where
  agent skill workflow rule validator report human_task schedule event_handler connector_requirement
        tool_requirement composite :
      CapabilityType

abbrev pub type_value : CapabilityType → String
type_value CapabilityType.agent = "AGENT"
type_value CapabilityType.skill = "SKILL"
type_value CapabilityType.workflow = "WORKFLOW"
type_value CapabilityType.rule = "RULE"
type_value CapabilityType.validator = "VALIDATOR"
type_value CapabilityType.report = "REPORT"
type_value CapabilityType.human_task = "HUMAN_TASK"
type_value CapabilityType.schedule = "SCHEDULE"
type_value CapabilityType.event_handler = "EVENT_HANDLER"
type_value CapabilityType.connector_requirement = "CONNECTOR_REQUIREMENT"
type_value CapabilityType.tool_requirement = "TOOL_REQUIREMENT"
type_value CapabilityType.composite = "COMPOSITE"

pub data RiskLevel : Type 0 where
  low medium high critical : RiskLevel

pub data Availability : Type 0 where
  available unavailable degraded : Availability

pub data ConfigurationStatus : Type 0 where
  configured needs_configuration not_applicable : ConfigurationStatus

pub data ResolutionDecision : Type 0 where
  reuse create : ResolutionDecision

pub data ActivationReadiness : Type 0 where
  ready_for_reuse ready_for_draft needs_configuration : ActivationReadiness

pub record Requirement : Type 0 where
  pub tenant_id : String
  pub organization_id : String
  pub workspace_id : String
  pub actor_id : String
  pub correlation_id : String
  pub requirement_id : Option String
  pub statement : String
  pub scope_refs : List String
  pub permission_refs : List String
  pub data_classification : DataClassification
  pub preferred_capability_type : Option CapabilityType

pub record CapabilityCatalogItem : Type 0 where
  pub capability_id : String
  pub version : String
  pub name : String
  pub purpose : String
  pub capability_type : CapabilityType
  pub risk_level : RiskLevel
  pub availability : Availability
  pub configuration_status : ConfigurationStatus
  pub backing_tool_ids : List String
  pub permission_refs : List String
  pub scope_refs : List String
  pub keywords : List String

-- The fields that `understand` sets; the others keep their defaults.
pub record RequirementUnderstanding : Type 0 where
  pub requirement_id : Option String
  pub normalized_intent : String
  pub domains : List String
  pub candidate_capability_ids : List String
  pub recommended_type : CapabilityType
  pub risk_level : RiskLevel
  pub requires_agent : Bool
  pub rationale : List String

pub record CapabilityResolution : Type 0 where
  pub understanding : RequirementUnderstanding
  pub decision : ResolutionDecision
  pub reason : String
  pub purpose : String
  pub scope_refs : List String
  pub resolved : List CapabilityCatalogItem
  pub missing_capability_ids : List String
  pub required_tool_ids : List String
  pub required_permission_refs : List String
  pub evidence_requirements : List String
  pub test_requirements : List String
  pub activation_readiness : ActivationReadiness
  pub human_gate_required : Bool

abbrev pub capability_hints : List (List String × List String)
capability_hints =
    ("task" ∷ "tugas" ∷ "overdue" ∷ "terlambat" ∷ [], "task.list" ∷ "task.read" ∷ [])
    ∷ ("finding" ∷ "temuan" ∷ "risk" ∷ "risiko" ∷ "gap" ∷ [], "finding.create" ∷ [])
    ∷ (
      "document" ∷ "dokumen" ∷ "contract" ∷ "kontrak" ∷ "policy" ∷ [],
      "document.search" ∷ "document.read" ∷ [],
    )
    ∷ ("compare" ∷ "banding" ∷ "conflict" ∷ "konflik" ∷ [], "document.compare" ∷ [])
    ∷ ("project" ∷ "proyek" ∷ [], "project.list" ∷ "project.read" ∷ [])
    ∷ ("report" ∷ "laporan" ∷ "brief" ∷ [], "report.generate" ∷ [])
    ∷ ("approval" ∷ "persetujuan" ∷ [], "approval.request" ∷ [])
    ∷ []

abbrev pub domain_hints : List (String × List String)
domain_hints =
    ("finance", "finance" ∷ "keuangan" ∷ "budget" ∷ "biaya" ∷ [])
    ∷ ("property", "property" ∷ "properti" ∷ "tenant" ∷ "lease" ∷ [])
    ∷ ("hr", "hr" ∷ "sdm" ∷ "employee" ∷ "karyawan" ∷ [])
    ∷ ("legal", "legal" ∷ "hukum" ∷ "contract" ∷ "kontrak" ∷ [])
    ∷ ("technology", "technology" ∷ "teknologi" ∷ "software" ∷ "system" ∷ "sistem" ∷ [])
    ∷ ("sales", "sales" ∷ "marketing" ∷ "penjualan" ∷ "pemasaran" ∷ [])
    ∷ []

-- `any(word in statement for word in words)`
abbrev pub mentions : String → List String → Bool
mentions statement words = any (λ word. includes word statement) words

unfoldable pub classify_type : (statement : String) (candidate_count : ℕ) → CapabilityType
classify_type statement candidate_count =
    if mentions statement ("agent" ∷ "assistant" ∷ "koordinator" ∷ [])
    then CapabilityType.agent
    else if mentions statement ("human task" ∷ "tugas manusia" ∷ "manual review" ∷ [])
    then CapabilityType.human_task
    else if mentions statement ("rule" ∷ "aturan" ∷ "policy" ∷ "kebijakan" ∷ [])
    then CapabilityType.rule
    else if mentions statement ("workflow" ∷ "alur" ∷ "proses" ∷ [])
    then CapabilityType.workflow
    else if mentions statement ("validate" ∷ "validasi" ∷ "checker" ∷ [])
    then CapabilityType.validator
    else if mentions statement ("schedule" ∷ "jadwal" ∷ "monitor" ∷ [])
    then CapabilityType.schedule
    else if mentions statement ("report" ∷ "laporan" ∷ "brief" ∷ [])
    then CapabilityType.report
    else if ltb 3 candidate_count
    then CapabilityType.composite
    else CapabilityType.skill

abbrev reads_only : String → Bool
reads_only key = any (λ ending. ends_with ending key) (".read" ∷ ".list" ∷ ".search" ∷ [])

unfoldable pub risk : String → List String → RiskLevel
risk statement capabilities =
    if mentions statement ("payment" ∷ "pembayaran" ∷ "release" ∷ "approve" ∷ [])
    then RiskLevel.high
    else if any (λ key. not (reads_only key)) capabilities
    then RiskLevel.medium
    else RiskLevel.low

-- The capability ids that the words of a statement hint at, in order and with repetitions.
unfoldable pub candidates : String → List String
candidates statement =
    let hinted =
      flat_map
        (λ (hint : List String × List String). if mentions statement hint.0 then hint.1 else [])
        capability_hints in
    if is_empty hinted then "global.search" ∷ "organization.context.read" ∷ [] else hinted

unfoldable pub domains : String → List String
domains statement =
    let hinted =
      map (λ (d : String × List String). d.0)
        (filter (λ (d : String × List String). mentions statement d.1) domain_hints) in
    if is_empty hinted then "general" ∷ [] else hinted

abbrev is_agent_type : CapabilityType → Bool
is_agent_type CapabilityType.agent = true
is_agent_type CapabilityType.composite = true
is_agent_type _ = false

module _ (casefold : String → String) (decimal : ℕ → String) where
  unfoldable pub understand : Requirement → RequirementUnderstanding
  understand requirement =
      let intent = normalized (casefold requirement.statement) in
      let ids = candidates intent in
      let count = length (from_keys ids) in
      let recommended =
        Option.get_or requirement.preferred_capability_type (classify_type intent count) in
      record {
        requirement_id = requirement.requirement_id;
        normalized_intent = intent;
        domains = domains intent;
        candidate_capability_ids = from_keys ids;
        recommended_type = recommended;
        risk_level = risk intent ids;
        requires_agent = is_agent_type recommended;
        rationale =
            ("Matched " ⧺ decimal count ⧺ " capability intent(s).")
            ∷ ("Classified delivery as " ⧺ type_value recommended ⧺ ".")
            ∷ (if is_agent_type recommended
                then []
                else "Capability-first policy does not require an Agent runtime." ∷ []);
      }

  abbrev pub searchable : CapabilityCatalogItem → String
  searchable item =
      casefold (join " " (item.capability_id ∷ item.name ∷ item.purpose ∷ item.keywords))

  abbrev pub is_requested : List String → CapabilityCatalogItem → Bool
  is_requested requested item = contains requested item.capability_id

  unfoldable pub score : (requested terms : List String) → CapabilityCatalogItem → ℕ
  score requested terms item =
      sum_by (λ term. if includes term (searchable item) then 1 else 0) terms
      + (if is_requested requested item then 100 else 0)

  -- The order of the keys `(-score, capability_id)`.
  abbrev pub ranks_before : ℕ × CapabilityCatalogItem → ℕ × CapabilityCatalogItem → Bool
  ranks_before a b = ltb b.0 a.0 || (nat_beq a.0 b.0 && str_leb a.1.capability_id b.1.capability_id)

  unfoldable pub ranked :
      (requested terms : List String)
      → List CapabilityCatalogItem
      → List (ℕ × CapabilityCatalogItem)
  ranked requested terms catalog =
      filter (λ (p : ℕ × CapabilityCatalogItem). not (nat_beq p.0 0))
        (map (λ item. (score requested terms item, item)) catalog)

  unfoldable pub resolved_items :
      (requested terms : List String) → List CapabilityCatalogItem → List CapabilityCatalogItem
  resolved_items requested terms catalog = filter (is_requested requested) (
      map (λ (p : ℕ × CapabilityCatalogItem). p.1)
        (sort ranks_before (ranked requested terms catalog)))
