-- ===== src/Research/Decision/Outcome.antt =====
-- What `ExternalResearchDecider.decide` (src/genesis/research/decision.py) returns.
use genesis_ai.Prelude.{
  >>=-eq-ok, Bool-cases, List, Option, String, [], false, inl, inr, is_empty, map_err-eq-ok, nat_eq,
  none, not, ok, refl, some, string_eq, true, ◌&&◌, ◌++◌, ◌∷◌, ◌≡◌, arith,
}
use genesis_ai.Contracts.Catalog.{CanonicalContractCatalog, Conforms, validate-eq-ok_iff}
use genesis_ai.Research.Decision.Models.{
  ResearchChannel, ResearchDecisionKind, is_modest, ResearchDecisionRequest,
  BackendRetrievalProposal, retrieval_proposal, ResearchDecision, as_canonical,
}
use genesis_ai.Research.Decision.{
  external_denial, canonical_decision, result, of_channel, exclusion_reasons, ask_external, choose,
  evidence_ids,
}
use genesis_ai.Research.Decision.Scope.{external_denial_iff}
use genesis_ai.Research.Decision.Rules.{
  HasEvidence, MemorySuffices, Calls, found→HasEvidence, empty→none_suitable, HasEvidence→found,
}

-- The ids and the retrieval that go with a decision.
abbrev pub ids_of : ResearchDecisionRequest → ResearchDecisionKind → List String
ids_of request ResearchDecisionKind.use_internal_source =
    evidence_ids (of_channel ResearchChannel.internal_source request)
ids_of request ResearchDecisionKind.use_memory =
    evidence_ids (of_channel ResearchChannel.memory request)
ids_of request _ = []

abbrev pub retrieval_of :
    ResearchDecisionRequest → ResearchDecisionKind → Option BackendRetrievalProposal
retrieval_of request ResearchDecisionKind.request_external_research =
    some (retrieval_proposal request.external.tool_id)
retrieval_of request _ = none

module _ (contracts : CanonicalContractCatalog) (request : ResearchDecisionRequest) where
  -- The run of `choose` ends in `result`, for a decision that the request calls for.
  pub record Choice : Type 0 where
    pub kind : ResearchDecisionKind
    pub reasons : List String
    pub calls : Calls request kind
    pub same :
        choose contracts request
        ≡ result contracts request kind (ids_of request kind) reasons (retrieval_of request kind)

  module _ (complete : request.information_complete ≡ true)
      (no_internal : is_empty (of_channel ResearchChannel.internal_source request) ≡ true)
      (no_memory : (not (is_empty (of_channel ResearchChannel.memory request))
          && is_modest request.risk)
        ≡ false) where
    none_internal : ¬ HasEvidence ResearchChannel.internal_source request
    none_internal = empty→none_suitable ResearchChannel.internal_source request no_internal

    insufficient : ¬ MemorySuffices request
    insufficient (found, modest) =
        ground (arith, HasEvidence→found ResearchChannel.memory request found)

    refuses : (denial : Option String) → external_denial request ≡ denial → Choice
    unfolding choose ask_external
    refuses none e = record {
      kind = ResearchDecisionKind.request_external_research;
      reasons =
          exclusion_reasons request
          ++ ("External evidence retrieval is required and authorized via Backend." ∷ []);
      calls = (complete, none_internal, insufficient, (external_denial_iff request).0 e);
      same = rw (e, complete, no_internal, no_memory) refl;
    }
    refuses (some denial) e = record {
      kind = ResearchDecisionKind.insufficient_evidence;
      reasons = exclusion_reasons request ++ (denial ∷ []);
      calls = (
        complete,
        none_internal,
        insufficient,
        λ a. let granted = (external_denial_iff request).1 a in cc,
      );
      same = rw (e, complete, no_internal, no_memory) refl;
    }

  asks : request.information_complete ≡ false → Choice
  unfolding choose
  asks incomplete = record {
    kind = ResearchDecisionKind.needs_information;
    reasons = "The task is missing information required to define the evidence need." ∷ [];
    calls = incomplete;
    same = rw incomplete refl;
  }

  uses_internal :
      request.information_complete ≡ true
      → is_empty (of_channel ResearchChannel.internal_source request) ≡ false
      → Choice
  unfolding choose
  uses_internal complete found = record {
    kind = ResearchDecisionKind.use_internal_source;
    reasons = "Current authorized internal evidence satisfies the evidence need." ∷ [];
    calls = (complete, found→HasEvidence ResearchChannel.internal_source request found);
    same = rw (complete, found) refl;
  }

  uses_memory :
      request.information_complete ≡ true
      → is_empty (of_channel ResearchChannel.internal_source request) ≡ true
      → (not (is_empty (of_channel ResearchChannel.memory request)) && is_modest request.risk)
        ≡ true
      → Choice
  unfolding choose
  uses_memory complete no_internal suffices = record {
    kind = ResearchDecisionKind.use_memory;
    reasons = "Current authorized memory satisfies the bounded evidence need." ∷ [];
    calls = (
      complete,
      empty→none_suitable ResearchChannel.internal_source request no_internal,
      (found→HasEvidence ResearchChannel.memory request (ground arith), ground arith),
    );
    same = rw (complete, no_internal, suffices) refl;
  }

  pub choice : Choice
  choice = elim (Bool-cases request.information_complete) [
    | inr incomplete ↦ asks incomplete
    | inl complete ↦
        elim (Bool-cases (is_empty (of_channel ResearchChannel.internal_source request))) [
          | inr found ↦ uses_internal complete found
          | inl no_internal ↦
              elim (Bool-cases (
                not (is_empty (of_channel ResearchChannel.memory request))
                && is_modest request.risk)) [
                  | inl suffices ↦ uses_memory complete no_internal suffices
                  | inr no_memory ↦
                      refuses complete no_internal no_memory (external_denial request) refl
                ]
        ]
  ]

  -- The fields of what `result` returns.
  pub record IsResult (kind : ResearchDecisionKind) (reasons : List String) (d : ResearchDecision)
      : Type 0 where
    pub decided : d.decision ≡ kind
    pub listed : d.selected_evidence_ids ≡ ids_of request kind
    pub proposed : d.retrieval ≡ retrieval_of request kind
    pub sent :
        Conforms contracts "https://schemas.alos.dev/v1/research/research-decision.schema.json"
          (as_canonical d)
    pub written :
        as_canonical d
        ≡ canonical_decision request d.decision d.selected_evidence_ids d.reasons d.retrieval

  pub result-IsResult :
      (kind : ResearchDecisionKind) (reasons : List String) (d : ResearchDecision)
      → result contracts request kind (ids_of request kind) reasons (retrieval_of request kind)
        ≡ ok d
      → IsResult kind reasons d
  unfolding result
  result-IsResult kind reasons d h =
      let (validated, checked, made) = >>=-eq-ok _ _ h in
      let (conforms, same) = (validate-eq-ok_iff contracts _ _ _).0 (map_err-eq-ok _ _ checked) in
      let carried : as_canonical d
          ≡ canonical_decision request kind (ids_of request kind) reasons
              (retrieval_of request kind) =
        cc in
      record { decided = cc; listed = cc; proposed = cc; sent = rw carried conforms; written = cc }
