-- ===== src/Research/Decision/Refinement.antt =====
-- `ExternalResearchDecider.decide` (src/genesis/research/decision.py) against the rules.
use genesis_ai.Prelude.{
  err, ◌⊎◌, >>-eq-ok, All, All-In, Bool, In, In-map_iff, List, Option, Result-cases, String, [], ap,
  false, inl, inr, nat_eq, ok, refl, some, string_eq, sym, true, ◌↔◌, ◌∙◌, ◌≡◌,
}
use genesis_ai.Contracts.Catalog.{CanonicalContractCatalog, CatalogError, validate}
use genesis_ai.Research.Decision.Models.{
  ResearchChannel, ResearchDecisionKind, EvidenceCandidate, ResearchDecisionRequest,
  BackendRetrievalProposal, retrieval_proposal, ResearchDecision,
}
use genesis_ai.Research.Decision.{
  contract_invalid, canonical_decision, result, of_channel, decide, evidence_ids,
}
use genesis_ai.Research.Decision.Scope.{IsAuthorized, validate_evidence_scope_iff, IsAdmitted}
use genesis_ai.Research.Decision.Rules.{IsSuitable, Calls, In-of_channel_iff, Calls→called}
use genesis_ai.Research.Decision.Outcome.{
  ids_of, retrieval_of, Choice, choice, IsResult, result-IsResult,
}

-- The decision that rests on the evidence of a channel.
abbrev pub rests_on : ResearchChannel → ResearchDecisionKind
rests_on ResearchChannel.internal_source = ResearchDecisionKind.use_internal_source
rests_on ResearchChannel.memory = ResearchDecisionKind.use_memory

-- An id of a piece of evidence that the request may rest on, on the channel of the decision.
abbrev pub IsListed : ResearchDecisionRequest → ResearchDecisionKind → String → Type 0
IsListed request kind id =
    (channel : ResearchChannel) × (kind ≡ rests_on channel)
    × (item : EvidenceCandidate) × In item request.evidence
    × IsSuitable channel item
    × IsAuthorized request item
    × (item.evidence_id ≡ id)

In-evidence_ids :
    (channel : ResearchChannel) (request : ResearchDecisionRequest) (id : String)
    → All (IsAuthorized request) request.evidence
    → In id (evidence_ids (of_channel channel request)) ↔ IsListed request (rests_on channel) id
In-evidence_ids channel request id authorized = (
  λ m.
      let (item, k, e) = (In-map_iff (λ i. i.evidence_id) id (of_channel channel request)).0 m in
      let (n, s) = (In-of_channel_iff channel request item).0 k in
      (
        channel,
        refl,
        item,
        n,
        s,
        All-In (IsAuthorized request) request.evidence item authorized n,
        e,
      ),
  λ (c, same, item, n, s, a, e).
      (In-map_iff (λ i. i.evidence_id) id (of_channel channel request)).1
        (item, (In-of_channel_iff channel request item).1 (n, moved channel c same item s), e),
)
  where
    moved :
        (channel c : ResearchChannel)
        → rests_on channel ≡ rests_on c
        → (item : EvidenceCandidate) → IsSuitable c item
        → IsSuitable channel item
    moved ResearchChannel.internal_source ResearchChannel.internal_source same item s = s
    moved ResearchChannel.memory ResearchChannel.memory same item s = s
    moved ResearchChannel.internal_source ResearchChannel.memory same item s = absurd (cc)
    moved ResearchChannel.memory ResearchChannel.internal_source same item s = absurd (cc)

abbrev rests : ResearchDecisionKind → Bool
rests ResearchDecisionKind.use_internal_source = true
rests ResearchDecisionKind.use_memory = true
rests _ = false

rests-rests_on : (channel : ResearchChannel) → rests (rests_on channel) ≡ true
rests-rests_on ResearchChannel.internal_source = refl
rests-rests_on ResearchChannel.memory = refl

none-IsListed :
    (request : ResearchDecisionRequest) (kind : ResearchDecisionKind) (id : String)
    → rests kind ≡ false
    → ¬ IsListed request kind id
none-IsListed request kind id h (channel, same, item, m, s, a, e) =
    let both = ap rests same ∙ rests-rests_on channel in cc

In-ids_of_iff :
    (request : ResearchDecisionRequest) (kind : ResearchDecisionKind) (id : String)
    → All (IsAuthorized request) request.evidence
    → In id (ids_of request kind) ↔ IsListed request kind id
In-ids_of_iff request ResearchDecisionKind.use_internal_source id a =
    In-evidence_ids ResearchChannel.internal_source request id a
In-ids_of_iff request ResearchDecisionKind.use_memory id a =
    In-evidence_ids ResearchChannel.memory request id a
In-ids_of_iff request ResearchDecisionKind.request_external_research id a =
    (λ m. absurd m, none-IsListed request ResearchDecisionKind.request_external_research id refl)
In-ids_of_iff request ResearchDecisionKind.insufficient_evidence id a =
    (λ m. absurd m, none-IsListed request ResearchDecisionKind.insufficient_evidence id refl)
In-ids_of_iff request ResearchDecisionKind.needs_information id a =
    (λ m. absurd m, none-IsListed request ResearchDecisionKind.needs_information id refl)

module _ (contracts : CanonicalContractCatalog) (request : ResearchDecisionRequest) where
  decided :
      {d : ResearchDecision}
      → decide contracts request ≡ ok d
      → All (IsAuthorized request) request.evidence
        × ((c : Choice contracts request) × IsResult contracts request c.kind c.reasons d)
  unfolding decide
  decided {d} h =
      let (scope, chosen) = >>-eq-ok _ _ h in
      let c = choice contracts request in
      (
        (validate_evidence_scope_iff request).0 scope,
        (c, result-IsResult contracts request c.kind c.reasons d (sym c.same ∙ chosen)),
      )

  -- The decision that is returned is the one that the rules call for, and the rules call for no
  -- other.
  pub decide-Calls_iff :
      (d : ResearchDecision)
      → decide contracts request ≡ ok d
      → (k : ResearchDecisionKind) → (d.decision ≡ k) ↔ Calls request k
  decide-Calls_iff d h k =
      let (a, (c, r)) = decided h in
      (
        λ e. rw (sym (sym r.decided ∙ e)) c.calls,
        λ called_for.
            r.decided
            ∙ sym (Calls→called request c.kind c.calls)
            ∙ Calls→called request k called_for,
      )

  -- The selected ids are those of the evidence of the decision's channel that is available, current,
  -- reliable, and within the scopes and the classification of the request.
  pub decide-selected_iff :
      (d : ResearchDecision)
      → decide contracts request ≡ ok d
      → (id : String) → In id d.selected_evidence_ids ↔ IsListed request d.decision id
  decide-selected_iff d h id =
      let (a, (c, r)) = decided h in
      let i = In-ids_of_iff request c.kind id a in
      (λ m. rw r.decided (i.0 (rw r.listed at m)), λ l. rw r.listed (i.1 (rw r.decided at l)))

  -- A decision that asks for retrieval selects no evidence; Backend admits the retrieval by the tool
  -- of the request, which grants no authority, permission or scope.
  pub decide-IsAdmitted :
      (d : ResearchDecision) (p : BackendRetrievalProposal)
      → decide contracts request ≡ ok d
      → d.retrieval ≡ some p
      → IsAdmitted request
        × (p ≡ retrieval_proposal request.external.tool_id)
        × (d.selected_evidence_ids ≡ [])
  decide-IsAdmitted d p h e =
      let (a, (c, r)) = decided h in
      let (admitted, same, nothing) = admits c.kind c.calls (sym r.proposed ∙ e) in
      (admitted, same, r.listed ∙ nothing)
    where
      admits :
          (k : ResearchDecisionKind)
          → Calls request k
          → retrieval_of request k ≡ some p
          → IsAdmitted request
            × (p ≡ retrieval_proposal request.external.tool_id)
            × (ids_of request k ≡ [])
      admits ResearchDecisionKind.request_external_research (complete, n, m, admitted) same =
          (admitted, cc, refl)
      admits ResearchDecisionKind.use_internal_source calls same = absurd (cc)
      admits ResearchDecisionKind.use_memory calls same = absurd (cc)
      admits ResearchDecisionKind.insufficient_evidence calls same = absurd (cc)
      admits ResearchDecisionKind.needs_information calls same = absurd (cc)

  -- The contract of decisions refuses what is written for the decision that the rules call for.
  abbrev pub IsRefused : Type 0
  IsRefused =
      (kind : ResearchDecisionKind) × (reasons : List String) × (error : CatalogError) × Calls
        request kind
      × (validate contracts "https://schemas.alos.dev/v1/research/research-decision.schema.json" (
            canonical_decision request kind (ids_of request kind) reasons
              (retrieval_of request kind))
          ≡ err error)
      × (decide contracts request ≡ err (contract_invalid request))

  result-ends :
      (kind : ResearchDecisionKind) (ids reasons : List String)
      (retrieval : Option BackendRetrievalProposal)
      → ((d : ResearchDecision) × (result contracts request kind ids reasons retrieval ≡ ok d))
        ⊎ ((error : CatalogError) × (validate contracts
                "https://schemas.alos.dev/v1/research/research-decision.schema.json"
                (canonical_decision request kind ids reasons retrieval)
              ≡ err error)
            × (result contracts request kind ids reasons retrieval
                ≡ err (contract_invalid request)))
  unfolding result
  result-ends kind ids reasons retrieval =
      elim (Result-cases (
        validate contracts "https://schemas.alos.dev/v1/research/research-decision.schema.json"
          (canonical_decision request kind ids reasons retrieval))) [
            | inl (payload, e) ↦
                elim (Result-cases (result contracts request kind ids reasons retrieval)) [
                  | inl decided ↦ inl decided
                  | inr (raised, k) ↦ let impossible = rw e at k in absurd (cc)
                ]
            | inr (error, e) ↦ inr (error, e, rw e refl)
          ]

  -- A request whose evidence is authorised is decided, unless the contract of decisions refuses what
  -- is written for a decision that the rules call for; then the decider raises that the decision does
  -- not satisfy its contract.
  pub decide-ends :
      All (IsAuthorized request) request.evidence
      → ((d : ResearchDecision) × (decide contracts request ≡ ok d)) ⊎ IsRefused
  unfolding decide
  decide-ends a =
      let c = choice contracts request in
      let scope = (validate_evidence_scope_iff request).1 a in
      elim (result-ends c.kind (ids_of request c.kind) c.reasons (retrieval_of request c.kind)) [
        | inl (d, e) ↦ inl (d, rw scope (c.same ∙ e))
        | inr (error, refused, e) ↦
            inr (c.kind, c.reasons, error, c.calls, refused, rw scope (c.same ∙ e))
      ]
