-- ===== src/ControlPlane/Factory/Reuse.antt =====
-- What a result of `CapabilityFactory.analyze` (src/genesis/control_plane/factory/service.py) refers to
-- when it reuses the catalog.
use mathlib.Core.Path.{subst}
use genesis_ai.Prelude.{
  Bool, String, [], any-cong, any-filter, ap, contains, filter, nat_eq, ok, string_eq, ◌&&◌, ◌==◌,
  ◌∙◌, ◌≡◌, arith,
}
use genesis_ai.Contracts.Catalog.{CanonicalContractCatalog}
use genesis_ai.Capabilities.{CapabilityCatalogItem, CapabilityResolution}
use genesis_ai.Capabilities.Resolution.{item_ids, resolve}
use genesis_ai.Capabilities.Decision.{
  contains-item_ids, IsSatisfied, intent_terms, found, needs-same, any-and, contains-resolved_items,
}
use genesis_ai.ControlPlane.Factory.Models.{FactoryAnalysisRequest, FactoryAnalysisResult}
use genesis_ai.ControlPlane.Factory.Payloads.{Builtins}
use genesis_ai.ControlPlane.Factory.{reuse_result, analyze}
use genesis_ai.ControlPlane.Factory.Proposals.{Shape}
use genesis_ai.ControlPlane.Factory.Authority.{
  requirement_of, needed_ids, analyzed, resolve-parts, Shape-operations_iff, analyze-operations_iff,
}

module _ (builtins : Builtins) (contracts : CanonicalContractCatalog)
    (request : FactoryAnalysisRequest) where
  contains-references :
      (resolution : CapabilityResolution) (id : String)
      → resolve builtins.casefold builtins.decimal
          (requirement_of builtins contracts request)
          request.capability_catalog
        ≡ ok resolution
      → IsSatisfied (needed_ids builtins contracts request) request.capability_catalog
      → contains
          (item_ids
            (reuse_result builtins contracts
              (requirement_of builtins contracts request)
              resolution).existing_capability_refs)
          id
        ≡ contains (needed_ids builtins contracts request) id
  unfolding reuse_result
  contains-references resolution id resolves satisfied =
      let (scopes, items, understood, tools, permissions) =
        resolve-parts builtins.casefold builtins.decimal (requirement_of builtins contracts request)
          request.capability_catalog resolution resolves in
      let terms =
        intent_terms builtins.casefold builtins.decimal (requirement_of builtins contracts request)
          request.capability_catalog in
      let wanted : CapabilityCatalogItem → Bool =
        λ item. contains (needed_ids builtins contracts request) item.capability_id in
      let this : CapabilityCatalogItem → Bool = λ item. item.capability_id == id in
      let mine =
        found builtins.casefold builtins.decimal (requirement_of builtins contracts request)
          request.capability_catalog in
      rw (understood, items)
        (contains-item_ids (filter wanted mine) id
          ∙ any-filter this wanted mine
          ∙ any-cong (λ item. wanted item && this item)
              (λ item. contains (needed_ids builtins contracts request) id && this item) mine
              (needs-same builtins.casefold builtins.decimal (needed_ids builtins contracts request)
                terms id)
          ∙ any-and builtins.casefold builtins.decimal (needed_ids builtins contracts request) terms
              (contains (needed_ids builtins contracts request) id) this mine
          ∙ ground (
            arith,
            contains-item_ids mine id,
            contains-resolved_items builtins.casefold builtins.decimal
                (needed_ids builtins contracts request) terms request.capability_catalog id,
            satisfied.covered id,
          ))

  -- An analysis that asks for no operation refers to exactly the capabilities that the statement hints
  -- at.
  pub analyze-references :
      (r : FactoryAnalysisResult)
      → analyze builtins contracts request ≡ ok r
      → r.handoff.requested_operations ≡ []
      → (id : String)
      → contains (item_ids r.existing_capability_refs) id
        ≡ contains (needed_ids builtins contracts request) id
  analyze-references r h e id =
      let (resolution, resolves, shape, conforms) = analyzed builtins contracts request r h in
      let reuses =
        (Shape-operations_iff builtins contracts request resolution resolution.decision r shape).0
          e in
      let same : r
          ≡ reuse_result builtins contracts (requirement_of builtins contracts request) resolution =
        subst
          (λ d. Shape builtins contracts (requirement_of builtins contracts request) resolution d r)
          reuses shape in
      ap (λ (x : FactoryAnalysisResult). contains (item_ids x.existing_capability_refs) id) same
      ∙ contains-references resolution id resolves
          ((analyze-operations_iff builtins contracts request r h).0 e)
