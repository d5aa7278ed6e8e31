-- ===== src/Runtime/Context/Safety/Boundary.antt =====
-- An execution context that the guard accepts lies within the boundary that Backend issued.
use genesis_ai.Prelude.{
  ==_iff, List, String, Subset, Subset→is_subset, contains, contains-from_keys, false, is_empty,
  is_empty-sorted_difference, is_subset→Subset, nat_eq, ok, string_eq, true, ◌↔◌, ◌∷◌, ◌≡◌, arith,
}
use genesis_ai.Runtime.Context.Models.{
  BackendContextAuthorization, ExecutionContextView, authority_level_eq, classification_eq,
}
use genesis_ai.Runtime.Context.Safety.{
  Kind, require_subset, identity_mismatches, validate_execution_context, roles,
}

pub require_subset→Subset :
    (kind : Kind) (requested authorized : List String) (correlation_id : String)
    → require_subset kind requested authorized correlation_id ≡ ok tt
    → Subset requested authorized
unfolding require_subset
require_subset→Subset kind requested authorized correlation_id h =
    is_subset→Subset requested authorized
      (ground (arith, is_empty-sorted_difference requested authorized))

pub Subset→require_subset :
    (kind : Kind) (requested authorized : List String) (correlation_id : String)
    → Subset requested authorized
    → require_subset kind requested authorized correlation_id ≡ ok tt
unfolding require_subset
Subset→require_subset kind requested authorized correlation_id h = ground (
  arith,
  is_empty-sorted_difference requested authorized,
  Subset→is_subset requested authorized h,
)

-- The context names the identity of the boundary and asks for nothing beyond it.
pub record IsWithin (context : ExecutionContextView) (boundary : BackendContextAuthorization)
    : Type 0 where
  pub tenant : context.tenant_id ≡ boundary.tenant_id
  pub organization : context.organization_id ≡ boundary.organization_id
  pub workspace : context.workspace_id ≡ boundary.workspace_id
  pub actor : context.actor_id ≡ boundary.actor_id
  pub some_scope : is_empty context.scope_refs ≡ false
  pub scopes : Subset context.scope_refs boundary.allowed_scope_refs
  pub permissions : Subset context.permission_refs boundary.allowed_permission_refs
  pub tools : Subset context.allowed_tool_ids boundary.allowed_tool_ids
  pub role_refs :
      Subset
        (context.authority_context.role ∷ context.authority_context.role_refs)
        boundary.allowed_role_refs
  pub level :
      contains boundary.allowed_authority_levels context.authority_context.authority_level ≡ true
  pub classification : contains boundary.allowed_classifications context.data_classification ≡ true

module _ (context : ExecutionContextView) (boundary : BackendContextAuthorization) where
  abbrev SameIdentity : Type 0
  SameIdentity =
      (context.tenant_id ≡ boundary.tenant_id)
      × (context.organization_id ≡ boundary.organization_id)
      × (context.workspace_id ≡ boundary.workspace_id)
      × (context.actor_id ≡ boundary.actor_id)

  no_mismatch_iff : (is_empty (identity_mismatches context boundary) ≡ true) ↔ SameIdentity
  unfolding identity_mismatches
  no_mismatch_iff = ground (
    arith,
    ==_iff context.tenant_id boundary.tenant_id,
    ==_iff context.organization_id boundary.organization_id,
    ==_iff context.workspace_id boundary.workspace_id,
    ==_iff context.actor_id boundary.actor_id,
  )

  validate→IsWithin :
      validate_execution_context context boundary ≡ ok tt → IsWithin context boundary
  unfolding validate_execution_context
  validate→IsWithin h =
      let (tenant, organization, workspace, actor) = no_mismatch_iff.0 (ground arith) in
      let id = context.correlation_id in
      record {
        tenant = tenant;
        organization = organization;
        workspace = workspace;
        actor = actor;
        some_scope = ground arith;
        scopes =
            require_subset→Subset Kind.scope context.scope_refs boundary.allowed_scope_refs id
              (ground arith);
        permissions =
            require_subset→Subset Kind.permission context.permission_refs
              boundary.allowed_permission_refs id (ground arith);
        tools =
            require_subset→Subset Kind.tool context.allowed_tool_ids boundary.allowed_tool_ids id
              (ground arith);
        role_refs = λ a m.
            require_subset→Subset Kind.role (roles context) boundary.allowed_role_refs id
              (ground arith) a (rw (contains-from_keys _ a) m);
        level = ground arith;
        classification = ground arith;
      }

  IsWithin→validate :
      IsWithin context boundary → validate_execution_context context boundary ≡ ok tt
  unfolding validate_execution_context
  IsWithin→validate w =
      let id = context.correlation_id in
      ground (
        arith,
        no_mismatch_iff.1 (w.tenant, w.organization, w.workspace, w.actor),
        w.some_scope,
        w.level,
        w.classification,
        Subset→require_subset Kind.scope context.scope_refs boundary.allowed_scope_refs id w.scopes,
        Subset→require_subset Kind.permission context.permission_refs
            boundary.allowed_permission_refs id w.permissions,
        Subset→require_subset Kind.tool context.allowed_tool_ids boundary.allowed_tool_ids id
            w.tools,
        Subset→require_subset Kind.role (roles context) boundary.allowed_role_refs id
            (λ a m. w.role_refs a (rw (contains-from_keys _ a) at m)),
      )

  -- The guard accepts an execution context exactly when it carries the identity of the boundary and
  -- its scopes (at least one), permissions, tools, roles, authority level and classification are all
  -- among those that the boundary allows.
  pub validate_execution_context_iff :
      (validate_execution_context context boundary ≡ ok tt) ↔ IsWithin context boundary
  validate_execution_context_iff = (validate→IsWithin, IsWithin→validate)
