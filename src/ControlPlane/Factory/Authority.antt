-- ===== src/ControlPlane/Factory/Authority.antt =====
-- What a result of `CapabilityFactory.analyze` (src/genesis/control_plane/factory/service.py) asks
-- for, against the catalog and the context that Backend has issued.
use genesis_ai.Prelude.{
  >>=-eq-ok, Bool, List, Result-cases, String, [], any, ap, contains, contains-append,
  contains-from_keys, flat_map, from_keys, inl, inr, map_err-eq-ok, nat_eq, none, ok, refl, some,
  string_eq, ℕ, ◌&&◌, ◌||◌, ◌↔◌, ◌∙◌, ◌∷◌, ◌≡◌, arith,
}
use genesis_ai.Contracts.Catalog.{CanonicalContractCatalog, Conforms}
use genesis_ai.Capabilities.{
  ResolutionDecision, Requirement, CapabilityCatalogItem, CapabilityResolution, understand,
}
use genesis_ai.Capabilities.Resolution.{resolve}
use genesis_ai.Capabilities.Decision.{
  IsSatisfied, needed, intent_terms, found, resolve-reuse_iff, any-resolved_items,
}
use genesis_ai.ControlPlane.Factory.Models.{
  to_resolver_requirement, FactoryAnalysisRequest, request_fields, AgentDraft,
  FactoryAnalysisResult, result_fields, RegistryOperation,
}
use genesis_ai.ControlPlane.Factory.RoundTrip.{IsValid}
use genesis_ai.ControlPlane.Factory.Payloads.{Builtins}
use genesis_ai.ControlPlane.Factory.{
  checked, agent_draft, optional_draft, reuse_result, analyze, value_error,
}
use genesis_ai.ControlPlane.Factory.Proposals.{Shape, agent_draft-IsValid, after→Shape}

contains-flat_map {ℓ} :
    {A : Type ℓ} (f : A → List String) (xs : List A) (a : String)
    → contains (flat_map f xs) a ≡ any (λ x. contains (f x) a) xs
contains-flat_map f [] a = refl
contains-flat_map f (x ∷ xs) a =
    contains-append (f x) (flat_map f xs) a
    ∙ ap (λ b. contains (f x) a || b) (contains-flat_map f xs a)

-- Some item of the catalog that is needed has the id among its refs.
abbrev pub some_needed :
    (needed : List String)
    → (CapabilityCatalogItem → List String)
    → List CapabilityCatalogItem
    → String
    → Bool
some_needed needed refs catalog a =
    any (λ item. contains needed item.capability_id && contains (refs item) a) catalog

module _ (casefold : String → String) (decimal : ℕ → String) (requirement : Requirement)
    (catalog : List CapabilityCatalogItem) where
  contains-refs :
      (refs : CapabilityCatalogItem → List String) (a : String)
      → contains (from_keys (flat_map refs (found casefold decimal requirement catalog))) a
        ≡ some_needed (needed casefold decimal requirement catalog) refs catalog a
  contains-refs refs a =
      contains-from_keys (flat_map refs (found casefold decimal requirement catalog)) a
      ∙ contains-flat_map refs (found casefold decimal requirement catalog) a
      ∙ any-resolved_items casefold decimal (needed casefold decimal requirement catalog)
          (intent_terms casefold decimal requirement catalog) (λ item. contains (refs item) a)
          catalog

  -- The parts of a resolution that drafts take over.
  pub resolve-parts :
      (r : CapabilityResolution)
      → resolve casefold decimal requirement catalog ≡ ok r
      → (r.scope_refs ≡ requirement.scope_refs)
        × (r.resolved ≡ found casefold decimal requirement catalog)
        × (r.understanding ≡ understand casefold decimal requirement)
        × (r.required_tool_ids
            ≡ from_keys (
                flat_map
                  (λ item. item.backing_tool_ids)
                  (found casefold decimal requirement catalog)))
        × (r.required_permission_refs
            ≡ from_keys (
                flat_map
                  (λ item. item.permission_refs)
                  (found casefold decimal requirement catalog)))
  unfolding resolve
  resolve-parts r h = ground arith

-- What an agent draft asks for.
pub record AsksOnly (requirement : Requirement) (needed : List String)
    (catalog : List CapabilityCatalogItem) (a : AgentDraft) : Type 0 where
  pub valid : IsValid a
  pub tenant : a.tenant_id ≡ requirement.tenant_id
  pub organization : a.organization_id ≡ requirement.organization_id
  pub workspace : a.workspace_id ≡ requirement.workspace_id
  pub scopes : a.scope_refs ≡ requirement.scope_refs
  pub tools :
      (t : String)
      → contains a.tool_ids t ≡ some_needed needed (λ item. item.backing_tool_ids) catalog t
  pub permissions :
      (p : String)
      → contains a.permission_refs p ≡ some_needed needed (λ item. item.permission_refs) catalog p

module _ (builtins : Builtins) (contracts : CanonicalContractCatalog)
    (request : FactoryAnalysisRequest) where
  abbrev pub requirement_of : Requirement
  requirement_of = to_resolver_requirement request.requirement

  abbrev pub needed_ids : List String
  needed_ids = needed builtins.casefold builtins.decimal requirement_of request.capability_catalog

  pub analyzed :
      (r : FactoryAnalysisResult)
      → analyze builtins contracts request ≡ ok r
      → (resolution : CapabilityResolution) × (resolve builtins.casefold builtins.decimal
            requirement_of request.capability_catalog
          ≡ ok resolution)
        × Shape builtins contracts requirement_of resolution resolution.decision r
        × Conforms contracts
            "https://schemas.alos.dev/v1/factory/factory-analysis-result.schema.json"
            (result_fields r)
  unfolding analyze
  analyzed r h =
      let (payload, e1, h1) =
        >>=-eq-ok
          (checked builtins contracts
            "https://schemas.alos.dev/v1/factory/factory-analysis-request.schema.json"
            (request_fields request))
          _ h in
      let (resolution, e2, h2) = >>=-eq-ok _ _ h1 in
      let (shape, conforms) =
        after→Shape builtins contracts requirement_of resolution resolution.decision r h2 in
      (resolution, map_err-eq-ok value_error _ e2, shape, conforms)

  pub Shape-operations_iff :
      (resolution : CapabilityResolution) (d : ResolutionDecision) (r : FactoryAnalysisResult)
      → Shape builtins contracts requirement_of resolution d r
      → (r.handoff.requested_operations ≡ []) ↔ (d ≡ ResolutionDecision.reuse)
  unfolding reuse_result
  Shape-operations_iff resolution ResolutionDecision.reuse r shape =
      (λ e. refl, λ e. ap (λ (x : FactoryAnalysisResult). x.handoff.requested_operations) shape)
  Shape-operations_iff resolution ResolutionDecision.create r (none, same, accepted, drafts) =
      (λ e. absurd (cc), λ e. absurd (cc))
  Shape-operations_iff resolution ResolutionDecision.create r (some a, same, accepted, drafts) =
      (λ e. absurd (cc), λ e. absurd (cc))

  -- An analysis asks Backend for no operation exactly when the catalog has every capability that the
  -- statement hints at, and every item of the catalog that is hinted at is available and set up.
  pub analyze-operations_iff :
      (r : FactoryAnalysisResult)
      → analyze builtins contracts request ≡ ok r
      → (r.handoff.requested_operations ≡ []) ↔ IsSatisfied needed_ids request.capability_catalog
  analyze-operations_iff r h =
      let (resolution, resolves, shape, conforms) = analyzed r h in
      let (to, from) = Shape-operations_iff resolution resolution.decision r shape in
      let (satisfied, reuses) =
        resolve-reuse_iff builtins.casefold builtins.decimal requirement_of
          request.capability_catalog resolution resolves in
      (λ e. satisfied (to e), λ s. from (reuses s))

  optional_draft-some :
      (resolution : CapabilityResolution) (capability_id digest : String) (a : AgentDraft)
      → optional_draft builtins contracts requirement_of capability_id resolution digest
        ≡ ok (some a)
      → agent_draft builtins contracts requirement_of capability_id resolution digest ≡ ok a
  unfolding optional_draft
  optional_draft-some resolution capability_id digest a h =
      elim (Result-cases
        (agent_draft builtins contracts requirement_of capability_id resolution digest)) [
          | inl (b, e) ↦ e ∙ ground arith
          | inr (b, e) ↦ ground arith
        ]

  agent_draft-AsksOnly :
      (resolution : CapabilityResolution) (capability_id digest : String) (a : AgentDraft)
      → resolve builtins.casefold builtins.decimal requirement_of request.capability_catalog
        ≡ ok resolution
      → agent_draft builtins contracts requirement_of capability_id resolution digest ≡ ok a
      → AsksOnly requirement_of needed_ids request.capability_catalog a
  agent_draft-AsksOnly resolution capability_id digest a resolves h =
      let (definition, valid, same) =
        agent_draft-IsValid builtins contracts requirement_of capability_id resolution digest a h in
      let (scopes, items, understood, tools, permissions) =
        resolve-parts builtins.casefold builtins.decimal requirement_of request.capability_catalog
          resolution resolves in
      record {
        valid = valid;
        tenant = cc;
        organization = cc;
        workspace = cc;
        scopes = cc;
        tools = λ t.
            ap (λ (b : AgentDraft). contains b.tool_ids t) same
            ∙ ap (λ ids. contains ids t) tools
            ∙ contains-refs builtins.casefold builtins.decimal requirement_of
                request.capability_catalog (λ item. item.backing_tool_ids) t;
        permissions = λ p.
            ap (λ (b : AgentDraft). contains b.permission_refs p) same
            ∙ ap (λ ids. contains ids p) permissions
            ∙ contains-refs builtins.casefold builtins.decimal requirement_of
                request.capability_catalog (λ item. item.permission_refs) p;
      }

  Shape-AsksOnly :
      (resolution : CapabilityResolution) (d : ResolutionDecision) (r : FactoryAnalysisResult)
      (a : AgentDraft)
      → resolve builtins.casefold builtins.decimal requirement_of request.capability_catalog
        ≡ ok resolution
      → Shape builtins contracts requirement_of resolution d r
      → r.agent_draft ≡ some a
      → AsksOnly requirement_of needed_ids request.capability_catalog a
        × (r.handoff.requested_operations
            ≡ RegistryOperation.register_capability_draft ∷ RegistryOperation.register_agent_draft
              ∷ RegistryOperation.start_governance ∷ [])
  unfolding reuse_result
  Shape-AsksOnly resolution ResolutionDecision.reuse r a resolves shape e = absurd (cc)
  Shape-AsksOnly resolution ResolutionDecision.create r a resolves (agent, same, accepted, drafts)
        e =
      let mine : agent ≡ some a = cc in
      (
        agent_draft-AsksOnly resolution _ _ a resolves
            (optional_draft-some resolution _ _ a (drafts ∙ ap ok mine)),
        rw (same, mine) refl,
      )

  -- An agent draft satisfies the constraints of its fields, has the tenant, the organization, the
  -- workspace and the scopes of the requirement, and asks exactly for the tools and permissions of the
  -- items of the catalog that the statement hints at. It comes with the registration of both drafts
  -- and the start of governance.
  pub analyze-AsksOnly :
      (r : FactoryAnalysisResult) (a : AgentDraft)
      → analyze builtins contracts request ≡ ok r
      → r.agent_draft ≡ some a
      → AsksOnly requirement_of needed_ids request.capability_catalog a
        × (r.handoff.requested_operations
            ≡ RegistryOperation.register_capability_draft ∷ RegistryOperation.register_agent_draft
              ∷ RegistryOperation.start_governance ∷ [])
  analyze-AsksOnly r a h e =
      let (resolution, resolves, shape, conforms) = analyzed r h in
      Shape-AsksOnly resolution resolution.decision r a resolves shape e
