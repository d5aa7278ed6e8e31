-- ===== src/Research/Decision/Rules.antt =====
-- The rules by which src/genesis/research/decision.py decides, as predicates on the request, and that
-- the code decides by them.
use genesis_ai.Prelude.{
  In, In-filter, In-of_is_empty-false, false, filter-In, if◌then◌else◌, is_empty,
  is_empty-false_of_In, is_none, nat_eq, not, string_eq, true, ◌&&◌, ◌↔◌, ◌≡◌, arith,
}
use genesis_ai.Research.Sources.{is_current, is_reliable}
use genesis_ai.Research.Decision.Models.{
  ResearchChannel, channel_beq, ResearchDecisionKind, is_modest, EvidenceCandidate,
  ResearchDecisionRequest,
}
use genesis_ai.Research.Decision.{external_denial, is_usable, current_evidence, of_channel}
use genesis_ai.Research.Decision.Scope.{IsAdmitted, external_denial_iff}

-- A piece of evidence that a decision may rest on.
pub record IsSuitable (channel : ResearchChannel) (item : EvidenceCandidate) : Type 0 where
  pub there : item.available ≡ true
  pub fresh : is_current item.freshness ≡ true
  pub reliable : is_reliable item.reliability ≡ true
  pub on_channel : channel_beq item.channel channel ≡ true

abbrev pub HasEvidence : ResearchChannel → ResearchDecisionRequest → Type 0
HasEvidence channel request =
    (item : EvidenceCandidate) × In item request.evidence × IsSuitable channel item

abbrev pub MemorySuffices : ResearchDecisionRequest → Type 0
MemorySuffices request =
    HasEvidence ResearchChannel.memory request × (is_modest request.risk ≡ true)

-- When a request calls for a decision: internal evidence comes before memory, memory before external
-- research, and external research is asked for only where Backend admits it.
abbrev pub Calls : ResearchDecisionRequest → ResearchDecisionKind → Type 0
Calls request ResearchDecisionKind.needs_information = request.information_complete ≡ false
Calls request ResearchDecisionKind.use_internal_source =
    (request.information_complete ≡ true) × HasEvidence ResearchChannel.internal_source request
Calls request ResearchDecisionKind.use_memory =
    (request.information_complete ≡ true)
    × (¬ HasEvidence ResearchChannel.internal_source request)
    × MemorySuffices request
Calls request ResearchDecisionKind.request_external_research =
    (request.information_complete ≡ true)
    × (¬ HasEvidence ResearchChannel.internal_source request)
    × (¬ MemorySuffices request)
    × IsAdmitted request
Calls request ResearchDecisionKind.insufficient_evidence =
    (request.information_complete ≡ true)
    × (¬ HasEvidence ResearchChannel.internal_source request)
    × (¬ MemorySuffices request)
    × (¬ IsAdmitted request)

usable-IsSuitable_iff :
    (channel : ResearchChannel) (item : EvidenceCandidate)
    → ((is_usable item ≡ true) × (channel_beq item.channel channel ≡ true))
      ↔ IsSuitable channel item
usable-IsSuitable_iff channel item = (
  λ (u, c). record {
    there = ground arith;
    fresh = ground arith;
    reliable = ground arith;
    on_channel = c;
  },
  λ s. (
    let there = s.there in let fresh = s.fresh in let reliable = s.reliable in ground arith,
    s.on_channel,
  ),
)

module _ (channel : ResearchChannel) (request : ResearchDecisionRequest) where
  pub In-of_channel_iff :
      (item : EvidenceCandidate)
      → In item (of_channel channel request) ↔ (In item request.evidence × IsSuitable channel item)
  In-of_channel_iff item = (
    λ m.
        let (k, c) =
          In-filter (λ i. channel_beq i.channel channel) item (current_evidence request) m in
        let (n, u) = In-filter is_usable item request.evidence k in
        (n, (usable-IsSuitable_iff channel item).0 (u, c)),
    λ (m, s).
        let (u, c) = (usable-IsSuitable_iff channel item).1 s in
        filter-In (λ i. channel_beq i.channel channel) item (current_evidence request)
          (filter-In is_usable item request.evidence m u) c,
  )

  pub found→HasEvidence :
      is_empty (of_channel channel request) ≡ false → HasEvidence channel request
  found→HasEvidence h =
      let (item, m) = In-of_is_empty-false (of_channel channel request) h in
      let (k, s) = (In-of_channel_iff item).0 m in (item, k, s)

  pub HasEvidence→found :
      HasEvidence channel request → is_empty (of_channel channel request) ≡ false
  HasEvidence→found (item, m, s) =
      is_empty-false_of_In item (of_channel channel request) ((In-of_channel_iff item).1 (m, s))

  pub empty→none_suitable :
      is_empty (of_channel channel request) ≡ true → ¬ HasEvidence channel request
  empty→none_suitable h found = let same = HasEvidence→found found in ground arith

-- The decision that the code comes to, as a function of the request.
abbrev pub called : ResearchDecisionRequest → ResearchDecisionKind
called request =
    if not request.information_complete
    then ResearchDecisionKind.needs_information
    else if not (is_empty (of_channel ResearchChannel.internal_source request))
    then ResearchDecisionKind.use_internal_source
    else if not (is_empty (of_channel ResearchChannel.memory request)) && is_modest request.risk
    then ResearchDecisionKind.use_memory
    else if is_none (external_denial request)
    then ResearchDecisionKind.request_external_research
    else ResearchDecisionKind.insufficient_evidence

module _ (request : ResearchDecisionRequest) where
  -- A request calls for one decision at most.
  pub Calls→called : (k : ResearchDecisionKind) → Calls request k → called request ≡ k
  Calls→called ResearchDecisionKind.needs_information h = ground arith
  Calls→called ResearchDecisionKind.use_internal_source (complete, found) =
      ground (arith, HasEvidence→found ResearchChannel.internal_source request found)
  Calls→called ResearchDecisionKind.use_memory (complete, none_internal, (found, modest)) = ground (
    arith,
    found→HasEvidence ResearchChannel.internal_source request,
    HasEvidence→found ResearchChannel.memory request found,
  )
  Calls→called ResearchDecisionKind.request_external_research
        (complete, none_internal, insufficient, admitted) =
      let allowed = (external_denial_iff request).1 admitted in
      ground (
        arith,
        found→HasEvidence ResearchChannel.internal_source request,
        found→HasEvidence ResearchChannel.memory request,
      )
  Calls→called ResearchDecisionKind.insufficient_evidence
        (complete, none_internal, insufficient, denied) =
      ground (
        arith,
        found→HasEvidence ResearchChannel.internal_source request,
        found→HasEvidence ResearchChannel.memory request,
        (external_denial_iff request).0,
      )
