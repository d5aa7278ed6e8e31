-- ===== src/Runtime/Context/Manager/Authority.antt =====
-- What holds of a context bundle that `build` returns.
use genesis_ai.Runtime.Context.Safety.Boundary.{
  validate_execution_context_iff, require_subset→Subset,
}
use genesis_ai.Runtime.Context.Safety.Segments.{IsAdmissible, validate_segments_iff}
use genesis_ai.Runtime.Context.Budgeting.Selection.{select-All, select-mem_required}
use genesis_ai.Runtime.Context.Budgeting.Bounds.{select-le-maximum}
use mathlib.Core.List.{Mem, mem-cons_self, mem-cons_of_mem, mem-append_left}
use genesis_ai.Prelude.{
  >>-eq-ok, >>=-eq-ok, All, All-append, All-map, In, List, Result, String, Subset, [], false, inl,
  inr, map_err, map_err-eq-ok, nat_eq, ok, refl, string_eq, sum_by, sym, true, ℕ, ◌++◌, ◌==◌, ◌∙◌,
  ◌∷◌, ◌≡◌, ◌≤◌, ◌⊎◌, arith,
}
use genesis_ai.Platform.{Platform}
use genesis_ai.Contracts.{Fields}
use genesis_ai.Contracts.Catalog.{CanonicalContractCatalog}
use genesis_ai.Runtime.Context.Models.{
  BackendContextAuthorization, ContextSegment, ContextSelection, ExecutionContextView,
  RuntimeContextBundle, all_refs, size_characters, required, validated_segment,
}
use genesis_ai.Runtime.Context.Budgeting.{select}
use genesis_ai.Runtime.Context.Manager.{
  build_each, validation_error, goal, tools, accepted_context, selected_context, validated_bundle,
  finish, assemble, build_within, BuildRequest, build, check_request, execution_context,
  required_segments, runtime_bundle, failed, BackendContextAuthorization,
  validate_execution_context, all_refs, require_subset, Kind, system_segments, validate_segments,
  normalized_goal,
}

module _ (platform : Platform) (contracts : CanonicalContractCatalog)
    (view : Fields → Result String ExecutionContextView) (now : ℕ) (request : BuildRequest) where
  abbrev wanted : String
  wanted = goal platform contracts view now request

  abbrev wanted_tools : List String
  wanted_tools = tools platform contracts view now request

  -- The intermediate values of a run of `build` that returns.
  record Built (bundle : RuntimeContextBundle) : Type 0 where
    context : ExecutionContextView
    accepted : execution_context contracts view request.execution_context ≡ ok context
    checked : check_request request context wanted wanted_tools ≡ ok tt
    system : List ContextSegment
    system_built : required_segments platform context wanted ≡ ok system
    selection : ContextSelection
    selected :
        select (system ++ request.segments) request.maximum_characters context.correlation_id
        ≡ ok selection
    canonical : Fields
    returned :
        runtime_bundle platform request context wanted wanted_tools selection canonical ≡ ok bundle

  build-Built :
      (bundle : RuntimeContextBundle)
      → build platform contracts view now request ≡ ok bundle
      → Built bundle
  unfolding build build_within assemble finish accepted_context selected_context
  build-Built bundle h =
      let (context, c, h1) =
        >>=-eq-ok (accepted_context platform contracts view now request)
          (build_within platform contracts view now request) h in
      let (checked, h2) = >>-eq-ok (check_request request context wanted wanted_tools) _ h1 in
      let (system, s, h3) =
        >>=-eq-ok (required_segments platform context wanted)
          (assemble platform contracts view now request context) h2 in
      let (selection, sel, h4) =
        >>=-eq-ok (selected_context platform contracts view now request context system)
          (finish platform contracts view now request context) h3 in
      let (canonical, can, h5) =
        >>=-eq-ok (validated_bundle platform contracts view now request context selection)
          (runtime_bundle platform request context wanted wanted_tools selection) h4 in
      record {
        context = context;
        accepted = map_err-eq-ok _ (execution_context contracts view request.execution_context) c;
        checked = checked;
        system = system;
        system_built = s;
        selection = selection;
        selected =
            map_err-eq-ok failed
              (select (system ++ request.segments) request.maximum_characters
                context.correlation_id)
              sel;
        canonical = canonical;
        returned = h5;
      }

  check-parts :
      (context : ExecutionContextView)
      → check_request request context wanted wanted_tools ≡ ok tt
      → (validate_execution_context context request.authorization ≡ ok tt)
        × ((wanted == "") ≡ false)
        × (require_subset Kind.scope
              (all_refs request.scope)
              context.scope_refs
              context.correlation_id
            ≡ ok tt)
        × (require_subset Kind.tool wanted_tools context.allowed_tool_ids context.correlation_id
            ≡ ok tt)
        × (validate_segments request.segments context request.authorization (all_refs request.scope)
            ≡ ok tt)
  unfolding check_request
  check-parts context h = ground arith

runtime_bundle_fields :
    (platform : Platform) (request : BuildRequest) (context : ExecutionContextView)
    (user_goal : String) (tools : List String) (selection : ContextSelection) (canonical : Fields)
    (bundle : RuntimeContextBundle)
    → runtime_bundle platform request context user_goal tools selection canonical ≡ ok bundle
    → (bundle.tenant_id ≡ context.tenant_id)
      × (bundle.organization_id ≡ context.organization_id)
      × (bundle.workspace_id ≡ context.workspace_id)
      × (bundle.actor_id ≡ context.actor_id)
      × (bundle.scope ≡ request.scope)
      × (bundle.allowed_tool_ids ≡ tools)
      × (bundle.goal ≡ user_goal)
      × (bundle.selected_segments ≡ selection.selected)
      × (bundle.correlation_id ≡ context.correlation_id)
unfolding runtime_bundle
runtime_bundle_fields platform request context user_goal tools selection canonical bundle h =
    ground arith

-- The identity of the bundle is the boundary's, and its scopes and tools are among the allowed ones.
pub record IsAuthorised (boundary : BackendContextAuthorization) (bundle : RuntimeContextBundle)
    : Type 0 where
  pub tenant : bundle.tenant_id ≡ boundary.tenant_id
  pub organization : bundle.organization_id ≡ boundary.organization_id
  pub workspace : bundle.workspace_id ≡ boundary.workspace_id
  pub actor : bundle.actor_id ≡ boundary.actor_id
  pub scopes : Subset (all_refs bundle.scope) boundary.allowed_scope_refs
  pub tools_allowed : Subset bundle.allowed_tool_ids boundary.allowed_tool_ids
  pub some_goal : (bundle.goal == "") ≡ false

validated_segment-eq-ok : (x y : ContextSegment) → validated_segment x ≡ ok y → y ≡ x
unfolding validated_segment
validated_segment-eq-ok x y h = ground arith

build_each-eq-ok : (xs ys : List ContextSegment) → build_each xs ≡ ok ys → ys ≡ xs
build_each-eq-ok [] ys h = cc
build_each-eq-ok (x ∷ xs) ys h =
    let (y, first, h1) = >>=-eq-ok (map_err validation_error (validated_segment x)) _ h in
    let (zs, rest, h2) = >>=-eq-ok (build_each xs) (λ zs. ok (y ∷ zs)) h1 in
    let same = build_each-eq-ok xs zs rest in
    let here =
      validated_segment-eq-ok x y (map_err-eq-ok validation_error (validated_segment x) first) in
    cc

required_segments-eq-ok :
    (platform : Platform) (context : ExecutionContextView) (user_goal : String)
    (system : List ContextSegment)
    → required_segments platform context user_goal ≡ ok system
    → system ≡ system_segments platform context user_goal
unfolding required_segments
required_segments-eq-ok platform context user_goal system h = build_each-eq-ok _ system h

-- What `build` promises of each segment of a bundle: it is one of the three that `build` adds, or it
-- has passed the guard.
abbrev pub IsTrusted :
    Platform → BuildRequest → ExecutionContextView → String → ContextSegment → Type 0
IsTrusted platform request context user_goal item =
    In item (system_segments platform context user_goal)
    ⊎ IsAdmissible context request.authorization (all_refs request.scope) item

In→Mem : (item : ContextSegment) (xs : List ContextSegment) → In item xs → Mem item xs
In→Mem item [] m = absurd m
In→Mem item (x ∷ xs) (inl e) = rw e mem-cons_self
In→Mem item (x ∷ xs) (inr m) = mem-cons_of_mem x (In→Mem item xs m)

system_segments-required :
    (platform : Platform) (context : ExecutionContextView) (user_goal : String)
    (item : ContextSegment)
    → In item (system_segments platform context user_goal)
    → required item ≡ true
system_segments-required platform context user_goal item (inl e) = rw (sym e) refl
system_segments-required platform context user_goal item (inr (inl e)) = rw (sym e) refl
system_segments-required platform context user_goal item (inr (inr (inl e))) = rw (sym e) refl
system_segments-required platform context user_goal item (inr (inr (inr none_left))) =
    absurd none_left

system_segments-IsTrusted :
    (platform : Platform) (request : BuildRequest) (context : ExecutionContextView)
    (user_goal : String)
    → All
        (IsTrusted platform request context user_goal)
        (system_segments platform context user_goal)
system_segments-IsTrusted platform request context user_goal =
    (inl (inl refl), (inl (inr (inl refl)), (inl (inr (inr (inl refl))), tt)))

module _ (platform : Platform) (contracts : CanonicalContractCatalog)
    (view : Fields → Result String ExecutionContextView) (now : ℕ) (request : BuildRequest)
    (bundle : RuntimeContextBundle) where
  -- A bundle that is built carries the identity that Backend issued and a goal, and names no scope
  -- and no tool outside what Backend allowed.
  pub build-IsAuthorised :
      build platform contracts view now request ≡ ok bundle
      → IsAuthorised request.authorization bundle
  build-IsAuthorised h =
      let b = build-Built platform contracts view now request bundle h in
      let c = b.context in
      let (identity, some_goal, scope_ok, tool_ok, _) =
        check-parts platform contracts view now request c b.checked in
      let w = (validate_execution_context_iff c request.authorization).0 identity in
      let (tenant, organization, workspace, actor, scope, tool_ids, goal', _, _) =
        runtime_bundle_fields platform request c _ _ b.selection b.canonical bundle b.returned in
      record {
        tenant = tenant ∙ w.tenant;
        organization = organization ∙ w.organization;
        workspace = workspace ∙ w.workspace;
        actor = actor ∙ w.actor;
        scopes = rw scope (λ a m. w.scopes a (
            require_subset→Subset Kind.scope (all_refs request.scope) c.scope_refs c.correlation_id
              scope_ok a m));
        tools_allowed = rw tool_ids (λ a m. w.tools a (
            require_subset→Subset Kind.tool (wanted_tools platform contracts view now request)
              c.allowed_tool_ids c.correlation_id tool_ok a m));
        some_goal = rw goal' some_goal;
      }

  -- The segments of a bundle that is built fit the character budget together; all three system
  -- segments of the accepted execution context are among them; and every one is a system segment
  -- or satisfies what the guard demands of a segment.
  pub build-selected_segments :
      build platform contracts view now request ≡ ok bundle
      → (context : ExecutionContextView) × (execution_context contracts view
            request.execution_context
          ≡ ok context)
        × (sum_by size_characters bundle.selected_segments ≤ request.maximum_characters)
        × ((item : ContextSegment)
            → In item (system_segments platform context (normalized_goal request.goal))
            → Mem item bundle.selected_segments)
        × All
            (IsTrusted platform request context (normalized_goal request.goal))
            bundle.selected_segments
  build-selected_segments h =
      let b = build-Built platform contracts view now request bundle h in
      let c = b.context in
      let (_, _, _, _, segments_ok) = check-parts platform contracts view now request c b.checked in
      let (_, _, _, _, _, _, _, same, _) =
        runtime_bundle_fields platform request c _ _ b.selection b.canonical bundle b.returned in
      let all = b.system ++ request.segments in
      let system_same =
        required_segments-eq-ok platform c (normalized_goal request.goal) b.system b.system_built in
      let admitted =
        (validate_segments_iff c request.authorization (all_refs request.scope) request.segments).0
          segments_ok in
      (
        c,
        b.accepted,
        rw same (
            (select-le-maximum all request.maximum_characters c.correlation_id b.selection
              b.selected).1),
        λ item m. rw same (
            select-mem_required all request.maximum_characters c.correlation_id b.selection item
              b.selected
              (mem-append_left request.segments (In→Mem item b.system (rw system_same m)))
              (system_segments-required platform c (normalized_goal request.goal) item m)),
        rw same (
            select-All all request.maximum_characters c.correlation_id b.selection
              (IsTrusted platform request c (normalized_goal request.goal)) b.selected
              (All-append (IsTrusted platform request c (normalized_goal request.goal)) b.system
                request.segments
                (rw system_same
                  (system_segments-IsTrusted platform request c (normalized_goal request.goal)))
                (All-map request.segments (λ x a. inr a) admitted))),
      )
