-- ===== src/Capabilities/Decision.antt =====
-- What a resolution decides: reuse, exactly when the catalog of Backend has every capability that is
-- needed, ready for use.
use genesis_ai.Capabilities.Words.{tokens}
use genesis_ai.Prelude.{
  ==_iff, All, Bool, Bool-cases, List, String, Subset, Subset→is_subset, [], any, any-cong,
  any-filter, any-map, any-sort, ap, contains, contains-filter, contains-from_keys, contains-sort,
  difference, false, filter, from_keys, inl, inr, is_empty, is_empty-sorted_difference, is_subset,
  is_subset→Subset, map, nat_beq, nat_eq, not, ok, refl, str_leb, string_eq, sym, true, ℕ, ◌&&◌,
  ◌==◌, ◌↔◌, ◌∙◌, ◌∷◌, ◌≡◌, arith,
}
use genesis_ai.Capabilities.{
  ResolutionDecision, Requirement, CapabilityCatalogItem, CapabilityResolution, understand, score,
  ranks_before, ranked, resolved_items,
}
use genesis_ai.Capabilities.Resolution.{
  is_ready, item_ids, missing_ids, some_unavailable, resolved, is_gap, decision, resolve,
}

pub contains-item_ids :
    (items : List CapabilityCatalogItem) (a : String)
    → contains (item_ids items) a ≡ any (λ item. item.capability_id == a) items
contains-item_ids [] a = refl
contains-item_ids (x ∷ items) a = ground (arith, contains-item_ids items a)

module _ (casefold : String → String) (decimal : ℕ → String) (needed terms : List String) where
  abbrev needs : CapabilityCatalogItem → Bool
  needs item = contains needed item.capability_id

  score-positive :
      (item : CapabilityCatalogItem)
      → needs item ≡ true
      → nat_beq (score casefold decimal needed terms item) 0 ≡ false
  unfolding score
  score-positive item h = ground arith

  pub any-resolved_items :
      (p : CapabilityCatalogItem → Bool) (catalog : List CapabilityCatalogItem)
      → any p (resolved_items casefold decimal needed terms catalog)
        ≡ any (λ item. needs item && p item) catalog
  unfolding resolved_items ranked
  any-resolved_items p catalog =
      let scored : List (ℕ × CapabilityCatalogItem) =
        map (λ item. (score casefold decimal needed terms item, item)) catalog in
      let counts : ℕ × CapabilityCatalogItem → Bool = λ s. not (nat_beq s.0 0) in
      let wanted : ℕ × CapabilityCatalogItem → Bool = λ s. needs s.1 && p s.1 in
      any-filter p needs _
      ∙ any-map (λ item. needs item && p item) (λ (s : ℕ × CapabilityCatalogItem). s.1) _
      ∙ any-sort wanted (ranks_before casefold decimal) (filter counts scored)
      ∙ any-filter wanted counts scored
      ∙ any-map {B = ℕ × CapabilityCatalogItem} (λ s. counts s && wanted s)
          (λ item. (score casefold decimal needed terms item, item)) catalog
      ∙ any-cong (λ x. not (nat_beq (score casefold decimal needed terms x) 0) && (needs x && p x))
          (λ x. needs x && p x) catalog (λ item. ground (arith, score-positive item))

  pub any-and :
      (b : Bool) (p : CapabilityCatalogItem → Bool) (items : List CapabilityCatalogItem)
      → any (λ item. b && p item) items ≡ (b && any p items)
  any-and b p [] = ground arith
  any-and b p (x ∷ items) = ground (arith, any-and b p items)

  pub needs-same :
      (a : String) (item : CapabilityCatalogItem)
      → (needs item && (item.capability_id == a)) ≡ (contains needed a && (item.capability_id == a))
  needs-same a item = elim (Bool-cases (item.capability_id == a)) [
    | inl same ↦ rw ((==_iff item.capability_id a).0 same) refl
    | inr other ↦ ground arith
  ]

  -- The ids that are resolved are those that are needed and in the catalog.
  pub contains-resolved_items :
      (catalog : List CapabilityCatalogItem) (a : String)
      → contains (item_ids (resolved_items casefold decimal needed terms catalog)) a
        ≡ (contains needed a && contains (item_ids catalog) a)
  contains-resolved_items catalog a =
      contains-item_ids (resolved_items casefold decimal needed terms catalog) a
      ∙ any-resolved_items (λ item. item.capability_id == a) catalog
      ∙ any-cong _ _ catalog (needs-same a)
      ∙ any-and (contains needed a) (λ item. item.capability_id == a) catalog
      ∙ ap (λ b. contains needed a && b) (sym (contains-item_ids catalog a))

-- The catalog has every capability that is needed, and each item of it that is needed is available and
-- set up.
pub record IsSatisfied (needed : List String) (catalog : List CapabilityCatalogItem) : Type 0 where
  pub covered : Subset needed (item_ids catalog)
  pub ready : All (λ item. contains needed item.capability_id ≡ true → is_ready item ≡ true) catalog

none_unready→All :
    (needed : List String) (catalog : List CapabilityCatalogItem)
    → any (λ item. contains needed item.capability_id && not (is_ready item)) catalog ≡ false
    → All (λ item. contains needed item.capability_id ≡ true → is_ready item ≡ true) catalog
none_unready→All needed [] h = tt
none_unready→All needed (x ∷ catalog) h =
    (λ e. ground arith, none_unready→All needed catalog (ground arith))

All→none_unready :
    (needed : List String) (catalog : List CapabilityCatalogItem)
    → All (λ item. contains needed item.capability_id ≡ true → is_ready item ≡ true) catalog
    → any (λ item. contains needed item.capability_id && not (is_ready item)) catalog ≡ false
All→none_unready needed [] h = refl
All→none_unready needed (x ∷ catalog) (first, rest) =
    ground (arith, first, All→none_unready needed catalog rest)

module _ (casefold : String → String) (decimal : ℕ → String) (requirement : Requirement)
    (catalog : List CapabilityCatalogItem) where
  abbrev pub needed : List String
  needed = (understand casefold decimal requirement).candidate_capability_ids

  abbrev pub intent_terms : List String
  intent_terms = from_keys (tokens (understand casefold decimal requirement).normalized_intent)

  abbrev pub found : List CapabilityCatalogItem
  found = resolved casefold decimal requirement catalog

  is_gap→IsSatisfied :
      is_gap casefold decimal requirement catalog ≡ false → IsSatisfied needed catalog
  is_gap→IsSatisfied h =
      let covered : is_subset needed (item_ids found) ≡ true =
        sym (is_empty-sorted_difference needed (item_ids found)) ∙ ground arith in
      let clean : some_unavailable found ≡ false = ground arith in
      record {
        covered = λ a m. ground (
          arith,
          is_subset→Subset needed (item_ids found) covered a m,
          contains-resolved_items casefold decimal needed intent_terms catalog a,
        );
        ready = none_unready→All needed catalog (
            sym (
              any-resolved_items casefold decimal needed intent_terms (λ item. not (is_ready item))
                catalog)
            ∙ clean);
      }

  IsSatisfied→is_gap :
      IsSatisfied needed catalog → is_gap casefold decimal requirement catalog ≡ false
  IsSatisfied→is_gap s =
      let covered : is_empty (missing_ids needed found) ≡ true =
        is_empty-sorted_difference needed (item_ids found)
        ∙ Subset→is_subset needed (item_ids found) (λ a m.
          contains-resolved_items casefold decimal needed intent_terms catalog a
          ∙ ground (arith, s.covered a m)) in
      let clean : some_unavailable found ≡ false =
        any-resolved_items casefold decimal needed intent_terms (λ item. not (is_ready item))
          catalog
        ∙ All→none_unready needed catalog s.ready in
      ground arith

  resolve-decision :
      (r : CapabilityResolution)
      → resolve casefold decimal requirement catalog ≡ ok r
      → r.decision ≡ decision casefold decimal requirement catalog
  unfolding resolve
  resolve-decision r h = ground arith

  -- A resolution reuses what is there exactly when the catalog has every capability that the statement
  -- hints at, and every item of the catalog that is hinted at is available and set up.
  pub resolve-reuse_iff :
      (r : CapabilityResolution)
      → resolve casefold decimal requirement catalog ≡ ok r
      → (r.decision ≡ ResolutionDecision.reuse) ↔ IsSatisfied needed catalog
  resolve-reuse_iff r h =
      let same = resolve-decision r h in
      (λ e. is_gap→IsSatisfied (ground arith), λ s. let gap = IsSatisfied→is_gap s in ground arith)

  resolve-missing :
      (r : CapabilityResolution)
      → resolve casefold decimal requirement catalog ≡ ok r
      → r.missing_capability_ids ≡ missing_ids needed found
  unfolding resolve
  resolve-missing r h = ground arith

  -- The missing ids of a resolution are the ids that the statement hints at and the catalog does not
  -- have.
  pub contains-missing_capability_ids :
      (r : CapabilityResolution) (a : String)
      → resolve casefold decimal requirement catalog ≡ ok r
      → contains r.missing_capability_ids a
        ≡ (contains needed a && not (contains (item_ids catalog) a))
  contains-missing_capability_ids r a h =
      ap (λ ids. contains ids a) (resolve-missing r h)
      ∙ contains-sort str_leb (from_keys (difference needed (item_ids found))) a
      ∙ contains-from_keys (difference needed (item_ids found)) a
      ∙ contains-filter (λ x. not (contains (item_ids found) x)) needed a
      ∙ ground (arith, contains-resolved_items casefold decimal needed intent_terms catalog a)
