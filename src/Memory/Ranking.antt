-- ===== src/Memory/Ranking.antt =====
-- What `EvidenceAwareRanker.rank` (src/genesis/memory/ranking/service.py) keeps of a bundle.
use genesis_ai.Prelude.{
  In, Option-cases, ◌↔◌, ◌⊎◌, sym, ==_iff, >>-eq-ok, >>=-eq-ok, All, Bool-cases, IsSorted,
  IsTotalOrder, List, Option, Perm, String, ap, false, if◌then◌else◌, inl, inr, leb, ltb, nat_eq,
  none, ok, raise_if, raise_if-eq-ok, refl, some, sort, sort-IsSorted, sort-perm, string_eq, take,
  true, ℕ, ◌==◌, ◌||◌, ◌∙◌, ◌≡◌, ◌≤◌, arith,
}
use genesis_ai.Contracts.{
  Json, arr, obj, Items, Fields, end, field, items, get_field, nil, cons, str,
}
use genesis_ai.Platform.{Platform}
use genesis_ai.Memory.{
  set_field, mappings, item_list, ref_list, mapping_of, terms, score, ranks_before, evidence_ids,
  is_cited, keep_ref, filtered_refs, selection, rank, value_error,
}

get_field-set_field :
    (k j : String) (v : Json) (fs : Fields)
    → get_field j (set_field k v fs) ≡ (if k == j then some v else get_field j fs)
get_field-set_field k j v end = refl
get_field-set_field k j v (field i w fs) =
    ground (arith, ==_iff k j, ==_iff i k, ==_iff i j, get_field-set_field k j v fs)

get_field-updated :
    (bundle : Fields) (first kept : Json) (key : String)
    → get_field key (set_field "evidence_refs" kept (set_field "items" first bundle)) ≡ (
        if "evidence_refs" == key
        then some kept
        else if "items" == key
        then some first
        else get_field key bundle)
get_field-updated bundle first kept key =
    get_field-set_field "evidence_refs" key kept (set_field "items" first bundle)
    ∙ ap (λ rest. if "evidence_refs" == key then some kept else rest)
        (get_field-set_field "items" key first bundle)

ranks_before-IsTotalOrder :
    (platform : Platform) (casefold : String → String) (words : List String)
    → IsTotalOrder (ranks_before platform casefold words)
ranks_before-IsTotalOrder platform casefold words = record {
  total = λ a b h. ground arith;
  trans = λ a b c h k. ground arith;
}

-- A mapping is among the references of a bundle.
abbrev pub Lists : Items → Fields → Type 0
Lists nil ref = ⊥
Lists (cons value rest) ref = (value ≡ obj ref) ⊎ Lists rest ref

mapping_of-eq-some :
    (value : Json) (fields : Fields) → mapping_of value ≡ some fields → value ≡ obj fields
mapping_of-eq-some (obj fs) fields h = cc
mapping_of-eq-some (arr xs) fields h = absurd (cc)
mapping_of-eq-some (str s) fields h = absurd (cc)
mapping_of-eq-some Json.null fields h = absurd (cc)
mapping_of-eq-some (Json.bool b) fields h = absurd (cc)
mapping_of-eq-some (Json.int n) fields h = absurd (cc)
mapping_of-eq-some (Json.negative n) fields h = absurd (cc)
mapping_of-eq-some (Json.float n) fields h = absurd (cc)

-- What a ranked bundle has of the bundle that it is made from.
pub record IsRanked (platform : Platform) (casefold : String → String) (bundle : Fields)
    (query : String) (max_items : ℕ) (out : Fields) : Type 0 where
  -- the items of the bundle, and the same in another order
  pub found : List Fields
  pub listed :
      (values : Items) × (get_field "items" bundle ≡ some (arr values))
      × (mappings values ≡ ok found)
  pub ordered : List Fields
  pub same : Perm ordered found
  pub by_score :
      IsSorted
        (λ a b.
          leb
            (score platform casefold (terms platform casefold query) b)
            (score platform casefold (terms platform casefold query) a))
        ordered
  -- the references that are kept, each of a selected item
  pub ids : List String
  pub named : evidence_ids platform casefold (take max_items ordered) ≡ ok ids
  pub refs : List Fields
  pub cited : All (λ ref. is_cited platform casefold ids ref ≡ true) refs
  pub raw : Items
  pub given : ref_list (get_field "evidence_refs" bundle) ≡ ok raw
  pub complete :
      (ref : Fields) → In ref refs ↔ (Lists raw ref × (is_cited platform casefold ids ref ≡ true))
  pub bounded : (1 ≤ max_items) × (max_items ≤ 50)
  -- every field: these two, and the others as they were
  pub fields :
      (key : String)
      → get_field key out ≡ (
          if "evidence_refs" == key
          then some (arr (items obj refs))
          else if "items" == key
          then some (arr (items obj (take max_items ordered)))
          else get_field key bundle)

module _ (platform : Platform) (casefold : String → String) where
  keep_ref-cited :
      (ids : List String) (ref : Option Fields) (kept : List Fields)
      → All (λ r. is_cited platform casefold ids r ≡ true) kept
      → All (λ r. is_cited platform casefold ids r ≡ true) (keep_ref platform casefold ids ref kept)
  keep_ref-cited ids none kept h = h
  keep_ref-cited ids (some ref) kept h = elim (Bool-cases (is_cited platform casefold ids ref)) [
    | inl e ↦ rw e (e, h)
    | inr e ↦ rw e h
  ]

  filtered_refs-cited :
      (ids : List String) (refs : Items)
      → All
          (λ r. is_cited platform casefold ids r ≡ true)
          (filtered_refs platform casefold ids refs)
  filtered_refs-cited ids nil = tt
  filtered_refs-cited ids (cons value rest) =
      keep_ref-cited ids (mapping_of value) (filtered_refs platform casefold ids rest)
        (filtered_refs-cited ids rest)

  In-keep_ref_iff :
      (ids : List String) (value : Json) (kept : List Fields) (ref : Fields)
      → In ref (keep_ref platform casefold ids (mapping_of value) kept)
        ↔ (((value ≡ obj ref) × (is_cited platform casefold ids ref ≡ true)) ⊎ In ref kept)
  In-keep_ref_iff ids value kept ref = elim (Option-cases (mapping_of value)) [
    | inl e ↦ rw e (
      λ m. inr m,
      λ s. elim s [
        | inl (same, cited) ↦ let some_there = ap mapping_of same in absurd (cc)
        | inr m ↦ m
      ],
    )
    | inr (fields, e) ↦
        let shape = mapping_of-eq-some value fields e in
        elim (Bool-cases (is_cited platform casefold ids fields)) [
          | inl cited ↦
              rw (e, cited)
                (
                  λ m. elim m [
                    | inl same ↦ inl (shape ∙ ap obj same, rw (← same) cited)
                    | inr k ↦ inr k
                  ],
                  λ s. elim s [
                    | inl (same, c) ↦
                        let it : some fields ≡ some ref = sym e ∙ ap mapping_of same in inl (cc)
                    | inr k ↦ inr k
                  ],
                )
          | inr not_cited ↦
              rw (e, not_cited)
                (
                  λ m. inr m,
                  λ s. elim s [
                    | inl (same, c) ↦
                        let it : some fields ≡ some ref = sym e ∙ ap mapping_of same in
                        let equal : fields ≡ ref = cc in
                        let wrong = ap (λ f. is_cited platform casefold ids f) equal in absurd (cc)
                    | inr k ↦ k
                  ],
                )
        ]
  ]

  filtered_refs-In_iff :
      (ids : List String) (raw : Items) (ref : Fields)
      → In ref (filtered_refs platform casefold ids raw)
        ↔ (Lists raw ref × (is_cited platform casefold ids ref ≡ true))
  filtered_refs-In_iff ids nil ref = (λ m. absurd m, λ s. absurd s.0)
  filtered_refs-In_iff ids (cons value rest) ref =
      let step = In-keep_ref_iff ids value (filtered_refs platform casefold ids rest) ref in
      let after = filtered_refs-In_iff ids rest ref in
      (
        λ m. elim (step.0 m) [
          | inl (same, cited) ↦ (inl same, cited)
          | inr k ↦ let (there, cited) = after.0 k in (inr there, cited)
        ],
        λ s. elim s.0 [
          | inl same ↦ step.1 (inl (same, s.1))
          | inr there ↦ step.1 (inr (after.1 (there, s.1)))
        ],
      )

  item_list-eq-ok :
      (value : Option Json) (values : Items)
      → item_list value ≡ ok values
      → value ≡ some (arr values)
  item_list-eq-ok (some (arr xs)) values h = cc
  item_list-eq-ok none values h = absurd (cc)
  item_list-eq-ok (some Json.null) values h = absurd (cc)
  item_list-eq-ok (some (Json.bool b)) values h = absurd (cc)
  item_list-eq-ok (some (Json.int n)) values h = absurd (cc)
  item_list-eq-ok (some (Json.negative n)) values h = absurd (cc)
  item_list-eq-ok (some (Json.float n)) values h = absurd (cc)
  item_list-eq-ok (some (str s)) values h = absurd (cc)
  item_list-eq-ok (some (obj fs)) values h = absurd (cc)

  -- What holds of the parts that the steps of `rank` find.
  of_parts :
      (bundle : Fields) (query : String) (max_items : ℕ) (out : Fields) (values : Items)
      (found : List Fields) (ids : List String) (refs : Items)
      → (ltb max_items 1 || ltb 50 max_items) ≡ false
      → get_field "items" bundle ≡ some (arr values)
      → mappings values ≡ ok found
      → evidence_ids platform casefold (selection platform casefold query max_items found) ≡ ok ids
      → ref_list (get_field "evidence_refs" bundle) ≡ ok refs
      → out
        ≡ set_field "evidence_refs" (arr (items obj (filtered_refs platform casefold ids refs))) (
            set_field "items"
              (arr (items obj (selection platform casefold query max_items found)))
              bundle)
      → IsRanked platform casefold bundle query max_items out
  of_parts bundle query max_items out values found ids refs limit e2 e3 e4 e5 e6 =
      let first = arr (items obj (selection platform casefold query max_items found)) in
      let kept = arr (items obj (filtered_refs platform casefold ids refs)) in
      record {
        found = found;
        listed = (values, e2, e3);
        ordered = sort (ranks_before platform casefold (terms platform casefold query)) found;
        same = sort-perm (ranks_before platform casefold (terms platform casefold query)) found;
        by_score =
            sort-IsSorted (ranks_before platform casefold (terms platform casefold query))
              (ranks_before-IsTotalOrder platform casefold (terms platform casefold query)) found;
        ids = ids;
        named = e4;
        refs = filtered_refs platform casefold ids refs;
        cited = filtered_refs-cited ids refs;
        raw = refs;
        given = e5;
        complete = filtered_refs-In_iff ids refs;
        bounded = ground arith;
        fields = λ key. ap (get_field key) e6 ∙ get_field-updated bundle first kept key;
      }

  -- A ranked bundle has the items of the bundle in the order of their scores, as many of the first as
  -- were asked for, which is a number from 1 to 50; the references that it keeps are exactly those of the
  -- bundle that refer to its items, and every other field is that of the bundle.
  pub rank-IsRanked :
      (bundle : Fields) (query : String) (max_items : ℕ) (out : Fields)
      → rank platform casefold bundle query max_items ≡ ok out
      → IsRanked platform casefold bundle query max_items out
  unfolding rank
  rank-IsRanked bundle query max_items out h =
      let (limit, h1) =
        >>-eq-ok
          (raise_if (ltb max_items 1 || ltb 50 max_items)
            (value_error "max_items must be between 1 and 50"))
          _ h in
      let (values, e2, h2) = >>=-eq-ok (item_list (get_field "items" bundle)) _ h1 in
      let (found, e3, h3) = >>=-eq-ok (mappings values) _ h2 in
      let (ids, e4, h4) =
        >>=-eq-ok
          (evidence_ids platform casefold (selection platform casefold query max_items found)) _
          h3 in
      let (refs, e5, h5) = >>=-eq-ok (ref_list (get_field "evidence_refs" bundle)) _ h4 in
      of_parts bundle query max_items out values found ids refs
        (raise_if-eq-ok (ltb max_items 1 || ltb 50 max_items) _ limit)
        (item_list-eq-ok (get_field "items" bundle) values e2) e3 e4 e5 (cc)
