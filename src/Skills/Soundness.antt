-- ===== src/Skills/Soundness.antt =====
-- Which results `SkillEvaluator` (src/genesis/skills/evaluator/service.py) passes.
use genesis_ai.Prelude.{
  List, Result, String, Subset, Subset→is_subset, err, false, is_empty, is_empty-sorted_difference,
  is_subset→Subset, nat_eq, ok, refl, sorted_difference, string_eq, sym, true, ◌↔◌, ◌∙◌, ◌≡◌, ◌⊎◌,
  arith,
}
use genesis_ai.Contracts.{Fields}
use genesis_ai.Contracts.Catalog.{
  CanonicalContractCatalog, CatalogError, Conforms, validate, validate-eq-ok_iff,
}
use genesis_ai.Platform.{Platform}
use genesis_ai.Skills.{SkillDefinition}
use genesis_ai.Skills.Evaluator.{ResultRequest, cited, evaluate_result}

-- What a result must have to pass.
pub record IsSound (platform : Platform) (contracts : CanonicalContractCatalog)
    (specification : SkillDefinition) (request : ResultRequest) : Type 0 where
  pub accepted : Conforms contracts specification.output_schema_ref request.output
  pub evidence :
      (is_empty specification.evidence_requirements ≡ true)
      ⊎ (is_empty (cited platform request.evidence_refs) ≡ false)
  pub supplied : Subset (cited platform request.evidence_refs) request.supplied_evidence_ids
  pub allowed : Subset request.used_tool_ids request.authorized_tool_ids

sorted_difference→Subset :
    (xs ys : List String) → is_empty (sorted_difference xs ys) ≡ true → Subset xs ys
sorted_difference→Subset xs ys h =
    is_subset→Subset xs ys (sym (is_empty-sorted_difference xs ys) ∙ h)

Subset→sorted_difference :
    (xs ys : List String) → Subset xs ys → is_empty (sorted_difference xs ys) ≡ true
Subset→sorted_difference xs ys s = is_empty-sorted_difference xs ys ∙ Subset→is_subset xs ys s

module _ (platform : Platform) (contracts : CanonicalContractCatalog)
    (specification : SkillDefinition) (request : ResultRequest) where
  abbrev outcome : Result CatalogError Fields
  outcome = validate contracts specification.output_schema_ref request.output

  passed→IsSound :
      (out : Result CatalogError Fields)
      → outcome ≡ out
      → (evaluate_result platform contracts specification request).passed ≡ true
      → IsSound platform contracts specification request
  unfolding evaluate_result
  passed→IsSound (err raised) e h = let k = rw e at h in absurd (ground arith)
  passed→IsSound (ok out) e h =
      let k = rw e at h in
      record {
        accepted =
            ((validate-eq-ok_iff contracts specification.output_schema_ref request.output out).0
              e).0;
        evidence = ground arith;
        supplied =
            sorted_difference→Subset (cited platform request.evidence_refs)
              request.supplied_evidence_ids (ground arith);
        allowed =
            sorted_difference→Subset request.used_tool_ids request.authorized_tool_ids
              (ground arith);
      }

  IsSound→passed :
      IsSound platform contracts specification request
      → (evaluate_result platform contracts specification request).passed ≡ true
  unfolding evaluate_result
  IsSound→passed s =
      let accepted =
        (validate-eq-ok_iff contracts specification.output_schema_ref request.output
            request.output).1
          (s.accepted, refl) in
      let known =
        Subset→sorted_difference (cited platform request.evidence_refs)
          request.supplied_evidence_ids s.supplied in
      let allowed =
        Subset→sorted_difference request.used_tool_ids request.authorized_tool_ids s.allowed in
      let present = s.evidence in rw accepted (ground arith)

  -- A result passes exactly when the catalog has the schema of the skill, its output conforms to it, it
  -- cites evidence where the skill requires any, it cites only evidence that was supplied, and it used
  -- only tools that are authorised.
  pub evaluate_result-IsSound_iff :
      ((evaluate_result platform contracts specification request).passed ≡ true)
      ↔ IsSound platform contracts specification request
  evaluate_result-IsSound_iff = (passed→IsSound outcome refl, IsSound→passed)
