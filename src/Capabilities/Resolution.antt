-- ===== src/Capabilities/Resolution.antt =====
-- `CapabilityResolver.resolve` (src/genesis/capabilities/resolver/service.py).
use genesis_ai.Prelude.{
  Bool, List, Result, String, [], any, err, false, flat_map, from_keys, if◌then◌else◌, is_empty,
  join, map, nat_eq, not, ok, sorted_difference, string_eq, true, ℕ, ◌&&◌, ◌++◌, ◌==◌, ◌||◌, ◌∷◌,
  ◌⧺◌,
}
use genesis_ai.Capabilities.Words.{tokens, strip}
use genesis_ai.Capabilities.{
  RiskLevel, Availability, ConfigurationStatus, ResolutionDecision, ActivationReadiness,
  Requirement, CapabilityCatalogItem, RequirementUnderstanding, CapabilityResolution, mentions,
  understand, resolved_items,
}

abbrev pub is_ready : CapabilityCatalogItem → Bool
is_ready item = is_available item.availability && is_set_up item.configuration_status
  where
    is_available : Availability → Bool
    is_available Availability.available = true
    is_available _ = false

    is_set_up : ConfigurationStatus → Bool
    is_set_up ConfigurationStatus.configured = true
    is_set_up ConfigurationStatus.not_applicable = true
    is_set_up _ = false

abbrev pub item_ids : List CapabilityCatalogItem → List String
item_ids items = map (λ item. item.capability_id) items

unfoldable pub decision_reason :
    ResolutionDecision → List CapabilityCatalogItem → List String → Bool → String
decision_reason ResolutionDecision.reuse resolved missing unavailable =
    "Authoritative Backend catalog satisfies the requirement: "
    ⧺ join ", " (item_ids resolved)
    ⧺ "."
decision_reason ResolutionDecision.create resolved missing unavailable =
    if unavailable
    then "A matching Backend catalog capability is unavailable or not configured."
    else "Backend catalog does not contain all required capabilities: " ⧺ join ", " missing

module _ (casefold : String → String) where
  unfoldable pub evidence_requirements : String → List String
  evidence_requirements statement =
      "Cite every material conclusion to an immutable source or ToolResult."
      ∷ "Preserve source_id, version, and retrieval timestamp in evidence lineage."
      ∷ "Mark unsupported business truth as requiring human review."
      ∷ (if mentions (casefold statement) ("document" ∷ "dokumen" ∷ "contract" ∷ [])
          then "Bind document conclusions to source version and SHA-256." ∷ []
          else [])

abbrev above_low : RiskLevel → Bool
above_low RiskLevel.low = false
above_low _ = true

abbrev at_least_high : RiskLevel → Bool
at_least_high RiskLevel.high = true
at_least_high RiskLevel.critical = true
at_least_high _ = false

unfoldable pub test_requirements : RiskLevel → (uses_tools : Bool) → List String
test_requirements risk_level uses_tools =
    ("Positive test: valid authorized input produces schema-valid output."
      ∷ "Negative test: invalid or unauthorized context fails closed."
      ∷ "Contract test: output validates against alos-contracts." ∷ [])
    ++ ((if uses_tools || above_low risk_level
          then "Security test: scope and permission escalation is denied."
            ∷ "Recovery test: Backend or tool failure remains bounded and structured." ∷ []
          else [])
        ++ (if at_least_high risk_level
            then "Regression test: approved baseline behavior remains stable." ∷ []
            else []))

-- Lines 72 to 77.
abbrev pub missing_ids : (requested : List String) → List CapabilityCatalogItem → List String
missing_ids requested resolved = sorted_difference requested (item_ids resolved)

abbrev pub some_unavailable : List CapabilityCatalogItem → Bool
some_unavailable resolved = any (λ item. not (is_ready item)) resolved

module _ (casefold : String → String) (decimal : ℕ → String) (requirement : Requirement)
    (catalog : List CapabilityCatalogItem) where
  abbrev pub understanding : RequirementUnderstanding
  understanding = understand casefold decimal requirement

  abbrev pub requested : List String
  requested = understanding.candidate_capability_ids

  abbrev pub resolved : List CapabilityCatalogItem
  resolved =
      resolved_items casefold decimal requested (from_keys (tokens understanding.normalized_intent))
        catalog

  abbrev pub is_gap : Bool
  is_gap = not (is_empty (missing_ids requested resolved)) || some_unavailable resolved

  abbrev pub decision : ResolutionDecision
  decision = if is_gap then ResolutionDecision.create else ResolutionDecision.reuse

  -- A statement of spaces has no purpose, and the model of the resolution refuses it.
  unfoldable pub resolve : Result String CapabilityResolution
  resolve =
      let tools = from_keys (flat_map (λ item. item.backing_tool_ids) resolved) in
      if strip requirement.statement == ""
      then err "CapabilityResolution.purpose"
      else ok (record {
        understanding = understanding;
        decision = decision;
        reason =
            decision_reason decision resolved (missing_ids requested resolved)
              (some_unavailable resolved);
        purpose = strip requirement.statement;
        scope_refs = requirement.scope_refs;
        resolved = resolved;
        missing_capability_ids = missing_ids requested resolved;
        required_tool_ids = tools;
        required_permission_refs = from_keys (flat_map (λ item. item.permission_refs) resolved);
        evidence_requirements = evidence_requirements casefold requirement.statement;
        test_requirements = test_requirements understanding.risk_level (not (is_empty tools));
        activation_readiness =
            if is_gap
            then ActivationReadiness.needs_configuration
            else ActivationReadiness.ready_for_reuse;
        human_gate_required = true;
      })
