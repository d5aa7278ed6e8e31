-- ===== src/Research/Engine/Grounding.antt =====
-- What a result of `ResearchEngine.research` (src/genesis/research/engine/service.py) rests on.
use mathlib.Core.Path.{subst}
use genesis_ai.Prelude.{
  Option, Pairwise, none, err, false, sym, ap, ◌≢◌, ==_iff, >>=-eq-ok, Bool-cases, List,
  Option-cases, Result, String, [], assign, inl, inr, is_empty, lookup, lookup-assign, nat_eq, ok,
  some, string_eq, true, ◌==◌, ◌∙◌, ◌∷◌, ◌≡◌, ◌⊎◌, arith,
}
use genesis_ai.Contracts.{Json, str, arr, obj, Items, nil, cons, Fields, get_field, items}
use genesis_ai.Contracts.Catalog.{CanonicalContractCatalog}
use genesis_ai.Platform.{to_text}
use genesis_ai.Research.Engine.Models.{
  ResearchError, FindingDraft, RecommendationDraft, Libraries, item, as_mapping,
}
use genesis_ai.Research.Engine.Writing.{
  for_all, unknown_ids, refs_of, references, finding_fields, recommendation_fields,
}
use genesis_ai.Research.Engine.{index_evidence}

module _ (libraries : Libraries) where
  -- A value is a mapping with the id.
  abbrev pub Identifies : String → Json → Type 0
  Identifies id ref =
      (fields : Fields) × (value : Json) × (ref ≡ obj fields)
      × (get_field "evidence_id" fields ≡ some value)
      × (to_text libraries.platform value ≡ id)

  -- A value is among the references of a bundle and has the id.
  abbrev pub IsReference : Items → String → Json → Type 0
  IsReference nil id ref = ⊥
  IsReference (cons r refs) id ref = ((r ≡ ref) × Identifies id ref) ⊎ IsReference refs id ref

  pub item-eq-ok :
      (key : String) (payload : Fields) (value : Json)
      → item key payload ≡ ok value
      → get_field key payload ≡ some value
  item-eq-ok key payload value h = elim (Option-cases (get_field key payload)) [
    | inl e ↦ let k = rw e at h in absurd (cc)
    | inr (v, e) ↦ let k = rw e at h in e ∙ cc
  ]

  pub as_mapping-eq-ok :
      (value : Json) (fields : Fields) → as_mapping value ≡ ok fields → value ≡ obj fields
  as_mapping-eq-ok (obj fs) fields h = cc
  as_mapping-eq-ok (str s) fields h = absurd (cc)
  as_mapping-eq-ok (arr xs) fields h = absurd (cc)
  as_mapping-eq-ok Json.null fields h = absurd (cc)
  as_mapping-eq-ok (Json.bool b) fields h = absurd (cc)
  as_mapping-eq-ok (Json.int n) fields h = absurd (cc)
  as_mapping-eq-ok (Json.negative n) fields h = absurd (cc)
  as_mapping-eq-ok (Json.float n) fields h = absurd (cc)

  module _ (contracts : CanonicalContractCatalog) where
    pub index_evidence-IsReference :
        (refs : Items) (evidence out : List (String × Json)) (id : String) (ref : Json)
        → index_evidence libraries contracts refs evidence ≡ ok out
        → lookup id out ≡ some ref
        → (lookup id evidence ≡ some ref) ⊎ IsReference refs id ref
    index_evidence-IsReference nil evidence out id ref h k = inl (cc)
    index_evidence-IsReference (cons r refs) evidence out id ref h k =
        let (fields, e1, h1) = >>=-eq-ok (as_mapping r) _ h in
        let (value, e2, h2) = >>=-eq-ok (item "evidence_id" fields) _ h1 in
        let name = to_text libraries.platform value in
        let added = lookup-assign name id r evidence in
        elim (index_evidence-IsReference refs (assign name r evidence) out id ref h2 k) [
          | inr rest ↦ inr (inr rest)
          | inl before ↦ elim (Bool-cases (name == id)) [
            | inl same ↦
                let mine : r ≡ ref = ground (arith, added) in
                inr (
                  inl (
                    mine,
                    (
                      fields,
                      value,
                      sym mine ∙ as_mapping-eq-ok r fields e1,
                      item-eq-ok "evidence_id" fields value e2,
                      (==_iff name id).0 same,
                    ),
                  ))
            | inr other ↦ inl (ground (arith, added))
          ]
        ]

    pub index_evidence-some :
        (refs : Items) (evidence : List (String × Json))
        → index_evidence libraries contracts refs [] ≡ ok evidence
        → is_empty evidence ≡ false
        → refs ≢ nil
    index_evidence-some nil evidence h k e = cc
    index_evidence-some (cons r refs) evidence h k e = cc

abbrev pub ok_field : String → Result ResearchError Fields → Option Json
ok_field key (ok fields) = get_field key fields
ok_field key (err e) = none

known-of_is_empty :
    (ids : List String) (evidence : List (String × Json))
    → is_empty (unknown_ids ids evidence) ≡ true
    → Pairwise (λ id ref. lookup id evidence ≡ some ref) ids (refs_of ids evidence)
known-of_is_empty [] evidence h = tt
known-of_is_empty (id ∷ ids) evidence h = elim (Option-cases (lookup id evidence)) [
  | inl e ↦ absurd (ground arith)
  | inr (ref, e) ↦
      let found : refs_of (id ∷ ids) evidence ≡ ref ∷ refs_of ids evidence =
        ap
          (λ (o : Option Json). elim o as (λ x. List Json) [
            | none ↦ refs_of ids evidence
            | some r ↦ r ∷ refs_of ids evidence
          ])
          e in
      subst (λ refs. Pairwise (λ i r. lookup i evidence ≡ some r) (id ∷ ids) refs) (sym found)
        (e, known-of_is_empty ids evidence (ground arith))
]

references-known :
    (ids : List String) (evidence : List (String × Json)) (refs : List Json)
    → references ids evidence ≡ ok refs
    → Pairwise (λ id ref. lookup id evidence ≡ some ref) ids refs
unfolding references
references-known ids evidence refs h = elim (Bool-cases (is_empty (unknown_ids ids evidence))) [
  | inl e ↦
      let same : refs_of ids evidence ≡ refs = ground arith in
      rw (← same) (known-of_is_empty ids evidence e)
  | inr e ↦ absurd (ground arith)
]

pub for_all-Pairwise {ℓ} :
    {A : Type ℓ} {B : Type 0} (P : A → B → Type 0) (f : A → Result ResearchError B)
    → ((x : A) (y : B) → f x ≡ ok y → P x y)
    → (xs : List A) (ys : List B) → for_all f xs ≡ ok ys
    → Pairwise P xs ys
for_all-Pairwise P f g [] [] h = tt
for_all-Pairwise P f g [] (y ∷ ys) h = absurd (cc)
for_all-Pairwise P f g (x ∷ xs) ys h =
    let (y, e, h1) = >>=-eq-ok (f x) _ h in
    let (rest, e2, h2) = >>=-eq-ok (for_all f xs) _ h1 in
    let same : y ∷ rest ≡ ys = cc in rw (← same) (g x y e, for_all-Pairwise P f g xs rest e2)

-- The references that a finding or a recommendation is written with: one for each id of the draft.
abbrev pub CitesAs : (String → Json → Type 0) → List String → Fields → Type 0
CitesAs P evidence_ids written =
    (refs : List Json) × (get_field "evidence_refs" written ≡ some (arr (items (λ v. v) refs)))
    × Pairwise P evidence_ids refs

pub finding_fields-CitesAs :
    (evidence : List (String × Json)) (draft : FindingDraft) (fields : Fields)
    → finding_fields evidence draft ≡ ok fields
    → (get_field "statement" fields ≡ some (str draft.statement))
      × CitesAs (λ id ref. lookup id evidence ≡ some ref) draft.evidence_ids fields
unfolding finding_fields
finding_fields-CitesAs evidence draft fields h =
    let (refs, e, k) = >>=-eq-ok (references draft.evidence_ids evidence) _ h in
    (
      ap (λ (r : Result ResearchError Fields). ok_field "statement" r) (sym k),
      (
        refs,
        ap (λ (r : Result ResearchError Fields). ok_field "evidence_refs" r) (sym k),
        references-known draft.evidence_ids evidence refs e,
      ),
    )

pub recommendation_fields-CitesAs :
    (evidence : List (String × Json)) (draft : RecommendationDraft) (fields : Fields)
    → recommendation_fields evidence draft ≡ ok fields
    → (get_field "summary" fields ≡ some (str draft.summary))
      × CitesAs (λ id ref. lookup id evidence ≡ some ref) draft.evidence_ids fields
unfolding recommendation_fields
recommendation_fields-CitesAs evidence draft fields h =
    let (refs, e, k) = >>=-eq-ok (references draft.evidence_ids evidence) _ h in
    (
      ap (λ (r : Result ResearchError Fields). ok_field "summary" r) (sym k),
      (
        refs,
        ap (λ (r : Result ResearchError Fields). ok_field "evidence_refs" r) (sym k),
        references-known draft.evidence_ids evidence refs e,
      ),
    )
