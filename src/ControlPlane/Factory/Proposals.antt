-- ===== src/ControlPlane/Factory/Proposals.antt =====
-- What `CapabilityFactory.analyze` (src/genesis/control_plane/factory/service.py) proposes.
use genesis_ai.Prelude.{
  >>=-eq-ok, Option, String, [], ap, map_err, map_err-eq-ok, nat_eq, ok, str_take, string_eq, ◌∙◌,
  ◌∷◌, ◌≡◌, ◌⧺◌,
}
use genesis_ai.Capabilities.Words.{strip}
use genesis_ai.Contracts.{Fields}
use genesis_ai.Contracts.Catalog.{CanonicalContractCatalog, Conforms, validate-eq-ok_iff}
use genesis_ai.Capabilities.{ResolutionDecision, Requirement, CapabilityResolution}
use genesis_ai.ControlPlane.Factory.Prompts.{render}
use genesis_ai.ControlPlane.Factory.Models.{
  AgentDraft, FactoryAnalysisResult, draft_fields, result_fields,
}
use genesis_ai.ControlPlane.Factory.Payloads.{
  Builtins, capability_payload, definition_payload, proposed_draft,
}
use genesis_ai.ControlPlane.Factory.RoundTrip.{IsValid, model_validate-draft_fields_iff}
use genesis_ai.ControlPlane.Factory.{
  agent_prompt, checked, validated_result, agent_draft, optional_draft, reuse_result, create_result,
  draft_result, after_resolution, contract, value_error, model_validate,
}

module _ (builtins : Builtins) (contracts : CanonicalContractCatalog) where
  pub checked→Conforms :
      (schema_id : String) (payload out : Fields)
      → checked builtins contracts schema_id payload ≡ ok out
      → Conforms contracts schema_id payload × (out ≡ payload)
  checked→Conforms schema_id payload out h =
      (validate-eq-ok_iff contracts schema_id payload out).0 (map_err-eq-ok contract _ h)

  validated_result-eq-ok :
      (result r : FactoryAnalysisResult)
      → validated_result builtins contracts result ≡ ok r
      → Conforms contracts "https://schemas.alos.dev/v1/factory/factory-analysis-result.schema.json"
          (result_fields result)
        × (r ≡ result)
  unfolding validated_result
  validated_result-eq-ok result r h =
      let (payload, e, k) = >>=-eq-ok _ _ h in
      ((checked→Conforms _ (result_fields result) payload e).0, cc)

  pub agent_draft-IsValid :
      (requirement : Requirement) (capability_id : String) (resolution : CapabilityResolution)
      (digest : String) (a : AgentDraft)
      → agent_draft builtins contracts requirement capability_id resolution digest ≡ ok a
      → (definition : Fields) × IsValid a
        × (a ≡ proposed_draft requirement resolution digest ("agent_" ⧺ digest) definition)
  unfolding agent_draft
  agent_draft-IsValid requirement capability_id resolution digest a h =
      let (template, e1, h1) = >>=-eq-ok (map_err value_error (agent_prompt builtins)) _ h in
      let (prompt, e2, h2) =
        >>=-eq-ok
          (map_err value_error
            (render builtins.format_map template (("objective", strip requirement.statement) ∷ [])))
          _ h1 in
      let (definition, e3, h3) =
        >>=-eq-ok
          (checked builtins contracts
            "https://schemas.alos.dev/v1/agent/agent-definition.schema.json"
            (definition_payload builtins requirement resolution capability_id ("agent_" ⧺ digest)
              prompt))
          _ h2 in
      let proposed = proposed_draft requirement resolution digest ("agent_" ⧺ digest) definition in
      let (payload, e4, h4) =
        >>=-eq-ok
          (checked builtins contracts "https://schemas.alos.dev/v1/agent/agent-draft.schema.json"
            (draft_fields proposed))
          _ h3 in
      let (conforms, same) = checked→Conforms _ (draft_fields proposed) payload e4 in
      let (valid, equal) =
        (model_validate-draft_fields_iff proposed a).0
          (rw same at (map_err-eq-ok value_error (model_validate payload) h4)) in
      (definition, rw equal valid, equal)

  -- The capability draft that goes with a resolution.
  abbrev pub drafted : Requirement → CapabilityResolution → Fields
  drafted requirement resolution =
      capability_payload builtins requirement resolution
        ("capability_" ⧺ str_take 16 (builtins.sha256_hex requirement.statement))

  -- What a result says, by the decision that it rests on.
  abbrev pub Shape :
      Requirement → CapabilityResolution → ResolutionDecision → FactoryAnalysisResult → Type 0
  Shape requirement resolution ResolutionDecision.reuse r =
      r ≡ reuse_result builtins contracts requirement resolution
  Shape requirement resolution ResolutionDecision.create r =
      (agent : Option AgentDraft) × (r
        ≡ create_result builtins contracts requirement resolution (drafted requirement resolution)
            agent)
      × Conforms contracts "https://schemas.alos.dev/v1/capability/capability-draft.schema.json"
          (drafted requirement resolution)
      × (optional_draft builtins contracts requirement
            ("capability_" ⧺ str_take 16 (builtins.sha256_hex requirement.statement)) resolution
            (str_take 16 (builtins.sha256_hex requirement.statement))
          ≡ ok agent)

  pub after→Shape :
      (requirement : Requirement) (resolution : CapabilityResolution) (d : ResolutionDecision)
      (r : FactoryAnalysisResult)
      → after_resolution builtins contracts requirement resolution d ≡ ok r
      → Shape requirement resolution d r
        × Conforms contracts
            "https://schemas.alos.dev/v1/factory/factory-analysis-result.schema.json"
            (result_fields r)
  unfolding draft_result
  after→Shape requirement resolution ResolutionDecision.reuse r h =
      let (conforms, same) =
        validated_result-eq-ok (reuse_result builtins contracts requirement resolution) r h in
      (same, rw same conforms)
  after→Shape requirement resolution ResolutionDecision.create r h =
      let (capability, e1, h1) = >>=-eq-ok _ _ h in
      let (agent, e2, h2) = >>=-eq-ok _ _ h1 in
      let (accepted, written) = checked→Conforms _ (drafted requirement resolution) capability e1 in
      let (conforms, same) =
        validated_result-eq-ok
          (create_result builtins contracts requirement resolution capability agent) r h2 in
      (
        (
          agent,
          same ∙ ap (λ c. create_result builtins contracts requirement resolution c agent) written,
          accepted,
          e2,
        ),
        rw same conforms,
      )
