-- ===== src/Research/Engine/Bundle.antt =====
-- The bundle that `ResearchEngine.research` (src/genesis/research/engine/service.py) rests on.
use mathlib.Core.Path.{subst}
use genesis_ai.Prelude.{
  ◌≢◌, >>-eq-ok, >>=-eq-ok, All, All-map, Result, String, [], ap, err, for_each, for_each→All, inl,
  inr, is_empty, lookup, map_err-eq-ok, nat_eq, ok, raise_if, raise_if-eq-ok, some, string_eq, sym,
  true, ◌∙◌, ◌≡◌, arith,
}
use genesis_ai.Contracts.{Json, obj, Items, nil, Fields, get_field}
use genesis_ai.Contracts.Catalog.{CanonicalContractCatalog, Conforms, validate-eq-ok_iff}
use genesis_ai.Research.Engine.Models.{
  Libraries, json_equal, item, as_mapping, or_invalid, iterated,
}
use genesis_ai.Research.Engine.{
  Grounds, identity_fields, checked, check_identity, index_evidence, ground_evidence,
  output_invalid, contract,
}
use genesis_ai.Research.Engine.Grounding.{
  IsReference, index_evidence-IsReference, index_evidence-some, item-eq-ok, as_mapping-eq-ok,
}

pub or_invalid-eq-ok :
    {E A : Type 0} (text : String) (m : Result E A) (a : A) → or_invalid text m ≡ ok a → m ≡ ok a
or_invalid-eq-ok text (ok b) a h = cc
or_invalid-eq-ok text (err e) a h = absurd (cc)

module _ (libraries : Libraries) where
  -- A field has the same value in the bundle and in the execution context.
  abbrev pub Agrees : Fields → Fields → String → Type 0
  Agrees context execution_context name =
      (mine : Json) × (issued : Json) × (get_field name context ≡ some mine)
      × (get_field name execution_context ≡ some issued)
      × (json_equal libraries mine issued ≡ true)

  -- The bundle, of the request or of the provider, has the identity of the execution context and
  -- at least one reference.
  pub record IsGround (contracts : CanonicalContractCatalog) (execution_context : Fields)
      (bundle : Json) : Type 0 where
    pub context : Fields
    pub same : bundle ≡ obj context
    pub conforms :
        Conforms contracts "https://schemas.alos.dev/v1/context/context-bundle.schema.json" context
    pub refs : Items
    pub listed : iterated (get_field "evidence_refs" context) ≡ ok refs
    pub there : refs ≢ nil
    pub agrees : All (Agrees context execution_context) identity_fields

  module _ (contracts : CanonicalContractCatalog) where
    check_identity-Agrees :
        (context execution_context : Fields) (name : String)
        → check_identity libraries contracts context execution_context name ≡ ok tt
        → Agrees context execution_context name
    check_identity-Agrees context execution_context name h =
        let (mine, e1, h1) = >>=-eq-ok (item name context) _ h in
        let (issued, e2, h2) = >>=-eq-ok (item name execution_context) _ h1 in
        (
          mine,
          issued,
          item-eq-ok libraries name context mine e1,
          item-eq-ok libraries name execution_context issued e2,
          ground arith,
        )

    -- What the grounds of a run have of the bundle.
    pub record AreGrounds (execution_context : Fields) (bundle : Json) (g : Grounds) : Type 0 where
      pub ground : IsGround contracts execution_context bundle
      pub named :
          (id : String) (ref : Json)
          → lookup id g.evidence ≡ some ref
          → IsReference libraries ground.refs id ref

    pub ground_evidence-AreGrounds :
        (execution_context : Fields) (bundle : Json) (g : Grounds)
        → ground_evidence libraries contracts execution_context bundle ≡ ok g
        → AreGrounds execution_context bundle g
    unfolding ground_evidence
    ground_evidence-AreGrounds execution_context bundle g h =
        let schema : String = "https://schemas.alos.dev/v1/context/context-bundle.schema.json" in
        let (fields, e1, h1) =
          >>=-eq-ok (or_invalid "context_bundle must be an object" (as_mapping bundle)) _ h in
        let (context, e2, h2) = >>=-eq-ok (checked libraries contracts schema fields) _ h1 in
        let (same, h3) =
          >>-eq-ok
            (for_each (check_identity libraries contracts context execution_context)
              identity_fields)
            _ h2 in
        let (refs, e4, h4) = >>=-eq-ok (iterated (get_field "evidence_refs" context)) _ h3 in
        let (evidence, e5, h5) = >>=-eq-ok (index_evidence libraries contracts refs []) _ h4 in
        let (some_there, h6) =
          >>-eq-ok
            (raise_if (is_empty evidence)
              (output_invalid "Research requires at least one canonical evidence reference"))
            _ h5 in
        let (valid, kept) =
          (validate-eq-ok_iff contracts schema fields context).0 (map_err-eq-ok contract _ e2) in
        let mapping =
          as_mapping-eq-ok libraries bundle fields
            (or_invalid-eq-ok "context_bundle must be an object" (as_mapping bundle) fields e1) in
        let made : Grounds = record { context = context; evidence = evidence } in
        let built : AreGrounds execution_context bundle made = record {
          ground = record {
            context = context;
            same = mapping ∙ ap obj (sym kept);
            conforms = rw kept valid;
            refs = refs;
            listed = e4;
            there =
                index_evidence-some libraries contracts refs evidence e5
                  (raise_if-eq-ok _ _ some_there);
            agrees = All-map identity_fields (check_identity-Agrees context execution_context) (
                for_each→All (check_identity libraries contracts context execution_context)
                  identity_fields same);
          };
          named = λ id ref k.
              elim (index_evidence-IsReference libraries contracts refs [] evidence id ref e5 k) [
                | inl none_yet ↦ absurd (cc)
                | inr found ↦ found
              ];
        } in
        let equal : made ≡ g = cc in subst (AreGrounds execution_context bundle) equal built
