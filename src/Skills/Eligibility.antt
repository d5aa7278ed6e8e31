-- ===== src/Skills/Eligibility.antt =====
-- What a selected skill has: the authority of Backend for itself and for all that it requires.
use genesis_ai.Prelude.{
  All, All-sort, All-take, Bool-cases, List, String, Subset, [], ap, drop, false, filter, inl, inr,
  is_empty, is_empty-sorted_difference, is_subset→Subset, length, length-append, length-filter-not,
  length-map, length-sort, length-take-drop, length-take-le, map, nat_beq, nat_eq, not, ok, some,
  sort, sorted_difference, string_eq, sym, take, true, ◌++◌, ◌+◌, ◌∙◌, ◌∷◌, ◌≡◌, ◌≤◌, arith,
}
use genesis_ai.Skills.{SkillDescriptor, reference, SkillCandidateOutcome, SkillSelection}
use genesis_ai.Skills.Selection.{
  SelectRequest, is_key, effective_tools, is_selected, undiscovered, matches, relevance, assess,
  ranks_before, lists_before, outranked, outcomes, eligible, undiscovered_refs, select,
}

-- A descriptor whose reference is authorised, that shares a term with the goal, and whose tools,
-- permissions and scopes are all granted.
pub record IsGranted (lower : String → String) (request : SelectRequest)
    (descriptor : SkillDescriptor) : Type 0 where
  pub authorised : is_key (reference descriptor) request.authorized_refs ≡ true
  pub relevant : is_empty (matches lower request descriptor) ≡ false
  pub tools : Subset descriptor.specification.required_tool_ids (effective_tools request)
  pub permissions : Subset descriptor.specification.permission_refs request.backend_permission_refs
  pub scopes : Subset descriptor.specification.scope_refs request.backend_scope_refs

abbrev pub IsEligible : (String → String) → SelectRequest → SkillCandidateOutcome → Type 0
IsEligible lower request o =
    (d : SkillDescriptor) × (o.descriptor ≡ some d) × IsGranted lower request d

difference→Subset : (xs ys : List String) → is_empty (sorted_difference xs ys) ≡ true → Subset xs ys
difference→Subset xs ys h = is_subset→Subset xs ys (sym (is_empty-sorted_difference xs ys) ∙ h)

module _ (lower : String → String) (request : SelectRequest) where
  relevance-positive :
      (d : SkillDescriptor)
      → nat_beq (relevance lower request d).0 0 ≡ false
      → is_empty (matches lower request d) ≡ false
  unfolding relevance
  relevance-positive d h = ground arith

  -- A descriptor that is assessed as selected is granted all that it asks for.
  assess-IsEligible :
      (d : SkillDescriptor)
      → is_selected (assess lower request d).status ≡ true
      → IsEligible lower request (assess lower request d)
  unfolding assess
  assess-IsEligible d h = (
    d,
    ground arith,
    record {
      authorised = ground arith;
      relevant = relevance-positive d (ground arith);
      tools =
          difference→Subset d.specification.required_tool_ids (effective_tools request)
            (ground arith);
      permissions =
          difference→Subset d.specification.permission_refs request.backend_permission_refs
            (ground arith);
      scopes =
          difference→Subset d.specification.scope_refs request.backend_scope_refs (ground arith);
    },
  )

  filter-IsEligible :
      (ds : List SkillDescriptor)
      → All
          (IsEligible lower request)
          (filter (λ o. is_selected o.status) (map (assess lower request) ds))
  filter-IsEligible [] = tt
  filter-IsEligible (d ∷ ds) = elim (Bool-cases (is_selected (assess lower request d).status)) [
    | inl e ↦ rw e (assess-IsEligible d e, filter-IsEligible ds)
    | inr e ↦ rw e (filter-IsEligible ds)
  ]

-- At most as many skills are selected as were asked for, and each is authorised by Backend, relevant to
-- the goal, and granted every tool, permission and scope that it requires.
pub select-IsEligible :
    (lower : String → String) (descriptors : List SkillDescriptor) (request : SelectRequest)
    (s : SkillSelection)
    → select lower descriptors request ≡ ok s
    → (length s.selected ≤ request.maximum_selected) × All (IsEligible lower request) s.selected
unfolding select
select-IsEligible lower descriptors request s h =
    let same : s.selected ≡ take request.maximum_selected (eligible lower descriptors request) =
      ground arith in
    rw same (
      length-take-le request.maximum_selected (eligible lower descriptors request),
      All-take (IsEligible lower request) request.maximum_selected
          (eligible lower descriptors request)
          (All-sort (IsEligible lower request) ranks_before
            (filter (λ o. is_selected o.status) (outcomes lower descriptors request))
            (filter-IsEligible lower request descriptors)),
    )

-- As many outcomes are reported, selected or unavailable, as there are descriptors and authorised
-- references that no descriptor has.
select-length :
    (lower : String → String) (descriptors : List SkillDescriptor) (request : SelectRequest)
    (s : SkillSelection)
    → select lower descriptors request ≡ ok s
    → length s.selected + length s.unavailable
      ≡ length descriptors + length (undiscovered_refs lower descriptors request)
unfolding select
select-length lower descriptors request s h =
    let found = eligible lower descriptors request in
    let all_outcomes = outcomes lower descriptors request in
    let refs = undiscovered_refs lower descriptors request in
    let n = request.maximum_selected in
    let others = filter (λ o. not (is_selected o.status)) all_outcomes in
    let rest = map (undiscovered descriptors) refs ++ map outranked (drop n found) in
    let selected_same : s.selected ≡ take n found = ground arith in
    let unavailable_same : s.unavailable ≡ sort lists_before (others ++ rest) = ground arith in
    let e1 = ap length selected_same in
    let e2 = ap length unavailable_same ∙ length-sort lists_before (others ++ rest) in
    let e3 = length-append others rest in
    let e4 = length-append (map (undiscovered descriptors) refs) (map outranked (drop n found)) in
    let e5 = length-map (undiscovered descriptors) refs in
    let e6 = length-map outranked (drop n found) in
    let e7 = length-take-drop n found in
    let e8 = length-sort ranks_before (filter (λ o. is_selected o.status) all_outcomes) in
    let e9 = length-filter-not (λ o. is_selected o.status) all_outcomes in
    let e10 = length-map (assess lower request) descriptors in omega arith
