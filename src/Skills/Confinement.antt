-- ===== src/Skills/Confinement.antt =====
-- What a prepared skill (src/genesis/skills/runtime/service.py) is confined to: what the context of
-- Backend and the agent both grant (src/genesis/skills/authorization.py).
use genesis_ai.Prelude.{
  >>=-eq-ok, All, All-map, List, Option, Result, String, Subset, [], contains, contains-filter,
  contains-from_keys, contains-sort, filter, from_keys, intersection, length, map_err,
  map_err-eq-ok, nat_eq, none, ok, refl, some, sorted_intersection, str_leb, string_eq, sym, true,
  ℕ, ◌&&◌, ◌∙◌, ◌∷◌, ◌≡◌, ◌≤◌, arith,
}
use genesis_ai.Runtime.Context.Models.{ExecutionContextView}
use genesis_ai.Skills.{
  SkillReference, SkillDescriptor, reference, LoadedSkill, SkillPackageError, SkillSelectionStatus,
  SkillCandidateOutcome,
}
use genesis_ai.Skills.Selection.{is_key, eligible, select}
use genesis_ai.Skills.Eligibility.{IsGranted, select-IsEligible}
use genesis_ai.Skills.Authorization.{reference_eq, reference_leb, AgentGrants, from_backend}
use genesis_ai.Skills.Loading.{
  Load, load_outcome, load_all, load_selected, SkillRuntimeContext, PrepareRequest, select_request,
  prepare, package_error, value_error,
}

-- A skill that both Backend and the agent name, and whose requirements both grant.
pub record IsConfined (context : ExecutionContextView) (grants : AgentGrants)
    (descriptor : SkillDescriptor) : Type 0 where
  pub authorized : contains grants.authorized_skill_refs (reference descriptor) ≡ true
  pub of_agent : contains grants.agent_skill_refs (reference descriptor) ≡ true
  pub tools : Subset descriptor.specification.required_tool_ids context.allowed_tool_ids
  pub agent_tools : Subset descriptor.specification.required_tool_ids grants.agent_allowed_tool_ids
  pub permissions : Subset descriptor.specification.permission_refs context.permission_refs
  pub agent_permissions :
      Subset descriptor.specification.permission_refs grants.agent_permission_refs
  pub scopes : Subset descriptor.specification.scope_refs context.scope_refs
  pub agent_scopes : Subset descriptor.specification.scope_refs grants.agent_scope_refs

-- The skills are what the load returns for the descriptors of the outcomes, one by one.
abbrev pub LoadedFrom : Load → List SkillCandidateOutcome → List LoadedSkill → Type 0
LoadedFrom load [] [] = Unit
LoadedFrom load [] (s ∷ ss) = ⊥
LoadedFrom load (o ∷ os) [] = ⊥
LoadedFrom load (o ∷ os) (s ∷ ss) =
    ((d : SkillDescriptor) × (o.status ≡ SkillSelectionStatus.selected)
      × (o.descriptor ≡ some d)
      × (load d ≡ ok s))
    × LoadedFrom load os ss

contains-sorted_intersection :
    (xs ys : List String) (a : String)
    → contains (sorted_intersection xs ys) a ≡ (contains xs a && contains ys a)
contains-sorted_intersection xs ys a =
    contains-sort str_leb (from_keys (intersection xs ys)) a
    ∙ contains-from_keys (intersection xs ys) a
    ∙ contains-filter (contains ys) xs a

Subset-sorted_intersection :
    (zs xs ys : List String) → Subset zs (sorted_intersection xs ys) → Subset zs xs × Subset zs ys
Subset-sorted_intersection zs xs ys s = (
  λ a m. ground (arith, s a m, contains-sorted_intersection xs ys a),
  λ a m. ground (arith, s a m, contains-sorted_intersection xs ys a),
)

is_key-contains :
    (key : SkillReference) (refs : List SkillReference) → is_key key refs ≡ contains refs key
is_key-contains key [] = refl
is_key-contains key (r ∷ refs) = ground (arith, is_key-contains key refs)

load_outcome-loads :
    (load : Load) (o : SkillCandidateOutcome) (status : SkillSelectionStatus)
    (descriptor : Option SkillDescriptor) (s : LoadedSkill)
    → load_outcome load o status descriptor ≡ ok s
    → (d : SkillDescriptor) × (status ≡ SkillSelectionStatus.selected)
      × (descriptor ≡ some d)
      × (load d ≡ ok s)
load_outcome-loads load o SkillSelectionStatus.selected (some d) s h = (d, refl, refl, h)
load_outcome-loads load o SkillSelectionStatus.selected none s h = absurd (cc)
load_outcome-loads load o SkillSelectionStatus.unauthorized descriptor s h = absurd (cc)
load_outcome-loads load o SkillSelectionStatus.version_mismatch descriptor s h = absurd (cc)
load_outcome-loads load o SkillSelectionStatus.missing_package descriptor s h = absurd (cc)
load_outcome-loads load o SkillSelectionStatus.not_relevant descriptor s h = absurd (cc)
load_outcome-loads load o SkillSelectionStatus.required_tool_unavailable descriptor s h =
    absurd (cc)
load_outcome-loads load o SkillSelectionStatus.required_permission_unavailable descriptor s h =
    absurd (cc)
load_outcome-loads load o SkillSelectionStatus.required_scope_unavailable descriptor s h =
    absurd (cc)

load_all-LoadedFrom :
    (load : Load) (os : List SkillCandidateOutcome) (ss : List LoadedSkill)
    → load_all load os ≡ ok ss
    → LoadedFrom load os ss
load_all-LoadedFrom load [] [] h = tt
load_all-LoadedFrom load [] (s ∷ ss) h = absurd (cc)
load_all-LoadedFrom load (o ∷ os) ss h =
    let (skill, e, h1) = >>=-eq-ok (load_outcome load o o.status o.descriptor) _ h in
    let (skills, k, h2) = >>=-eq-ok (load_all load os) _ h1 in
    let same : skill ∷ skills ≡ ss = cc in
    rw (sym same) (
      load_outcome-loads load o o.status o.descriptor skill e,
      load_all-LoadedFrom load os skills k,
    )

module _ (lower : String → String) (context : ExecutionContextView) (grants : AgentGrants)
    (goal : String) (capability_context : List String) (maximum_selected : ℕ) where
  abbrev pub prepare_request : PrepareRequest
  prepare_request = record {
    authorization = from_backend context grants;
    goal = goal;
    capability_context = capability_context;
    maximum_selected = maximum_selected;
  }

  IsEligible→IsConfined :
      (d : SkillDescriptor)
      → IsGranted lower (select_request prepare_request) d
      → IsConfined context grants d
  unfolding from_backend
  IsEligible→IsConfined d g =
      let both =
        sym (
          contains-sort reference_leb
            (filter (contains grants.agent_skill_refs) (from_keys grants.authorized_skill_refs))
            (reference d)
          ∙ contains-filter (contains grants.agent_skill_refs)
              (from_keys grants.authorized_skill_refs) (reference d))
        ∙ sym (is_key-contains (reference d) (from_backend context grants).authorized_skill_refs)
        ∙ g.authorised in
      let first = contains-from_keys grants.authorized_skill_refs (reference d) in
      let (tools, agent_tools) =
        Subset-sorted_intersection d.specification.required_tool_ids context.allowed_tool_ids
          grants.agent_allowed_tool_ids g.tools in
      let (permissions, agent_permissions) =
        Subset-sorted_intersection d.specification.permission_refs context.permission_refs
          grants.agent_permission_refs g.permissions in
      let (scopes, agent_scopes) =
        Subset-sorted_intersection d.specification.scope_refs context.scope_refs
          grants.agent_scope_refs g.scopes in
      record {
        authorized = ground arith;
        of_agent = ground arith;
        tools = tools;
        agent_tools = agent_tools;
        permissions = permissions;
        agent_permissions = agent_permissions;
        scopes = scopes;
        agent_scopes = agent_scopes;
      }

  -- The loaded skills are those of the selected outcomes, no more than either bound; each selected
  -- skill is one that Backend and the agent both name, and both the context of Backend and the agent
  -- grant every tool, permission and scope that it requires.
  pub prepare-IsConfined :
      (load : Load) (maximum_loaded : ℕ)
      (discovered : Result SkillPackageError (List SkillDescriptor)) (c : SkillRuntimeContext)
      → prepare lower load maximum_loaded discovered prepare_request ≡ ok c
      → LoadedFrom load c.selection.selected c.loaded_skills
        × (length c.selection.selected ≤ maximum_loaded)
        × (length c.selection.selected ≤ maximum_selected)
        × All
            (λ o. (d : SkillDescriptor) × (o.descriptor ≡ some d) × IsConfined context grants d)
            c.selection.selected
  unfolding prepare load_selected
  prepare-IsConfined load maximum_loaded discovered c h =
      let (descriptors, e1, h1) = >>=-eq-ok (map_err package_error discovered) _ h in
      let (selection, e2, h2) =
        >>=-eq-ok (map_err value_error (select lower descriptors (select_request prepare_request)))
          _ h1 in
      let (loaded, e3, h3) =
        >>=-eq-ok (map_err package_error (load_selected load maximum_loaded selection.selected)) _
          h2 in
      let chosen : c.selection ≡ selection = cc in
      let kept : c.loaded_skills ≡ loaded = cc in
      let run =
        map_err-eq-ok package_error (load_selected load maximum_loaded selection.selected) e3 in
      let (bounded, eligible) =
        select-IsEligible lower descriptors (select_request prepare_request) selection
          (map_err-eq-ok value_error _ e2) in
      rw (chosen, kept)
        (
          load_all-LoadedFrom load selection.selected loaded (ground arith),
          ground arith,
          bounded,
          All-map selection.selected (λ o (d, e, g). (d, e, IsEligible→IsConfined d g)) eligible,
        )
