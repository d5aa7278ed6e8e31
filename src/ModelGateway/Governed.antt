-- ===== src/ModelGateway/Governed.antt =====
-- A provider is only called for a request that policy, budget and routing allow.
use mathlib.Core.Option.{some-injective}
use genesis_ai.Prelude.{
  >>-eq-ok, Bool-cases, List, Option, Option-cases, Result-cases, String, contains, err, false, inl,
  inr, lookup, ltb, nat_eq, none, ok, refl, some, string_eq, sym, true, ℕ, ◌==◌, ◌∙◌, ◌≡◌, ◌≤◌, ◌⊎◌,
  arith,
}
use genesis_ai.Runtime.Context.Models.{classification_rank}
use genesis_ai.ModelGateway.{
  ModelRequest, GatewayError, StaticModelPolicy, authorize, exceeds, validate, Adapter,
  StaticModelRouter, adapter_of, or_unavailable, route, admit, call_adapter, complete,
}

pub record IsGoverned {World E : Type 0} (policy : StaticModelPolicy)
    (router : StaticModelRouter World E) (request : ModelRequest) (found : String × Adapter World E)
    : Type 0 where
  pub allowed : contains policy.allowed request.policy_ref ≡ true
  pub classification :
      classification_rank request.data_classification
      ≤ classification_rank policy.maximum_data_classification
  pub tokens :
      (maximum : ℕ)
      → request.budget.max_tokens ≡ some maximum
      → request.requested_max_tokens ≤ maximum
  pub policy_route : lookup request.policy_ref router.policy_routes ≡ some found.0
  pub route_named : (found.0 == "") ≡ false
  pub adapter : lookup found.0 router.routes ≡ some found.1

exceeds-eq-false :
    (n : ℕ) (limit : Option ℕ)
    → exceeds n limit ≡ false
    → (maximum : ℕ) → limit ≡ some maximum
    → n ≤ maximum
exceeds-eq-false n none h maximum e = absurd (cc)
exceeds-eq-false n (some m) h maximum e = ground (arith, some-injective m maximum e)

exceeds_of_le :
    (n : ℕ) (limit : Option ℕ)
    → ((maximum : ℕ) → limit ≡ some maximum → n ≤ maximum)
    → exceeds n limit ≡ false
exceeds_of_le n none h = refl
exceeds_of_le n (some m) h = ground (arith, h m refl)

module _ {World E : Type 0} where
  adapter_of-eq-some :
      (routes : List (String × Adapter World E)) (named : Option String)
      (found : String × Adapter World E)
      → adapter_of routes named ≡ some found
      → (named ≡ some found.0) × ((found.0 == "") ≡ false) × (lookup found.0 routes ≡ some found.1)
  adapter_of-eq-some routes none found h = absurd (cc)
  adapter_of-eq-some routes (some route_id) found h = elim (Bool-cases (route_id == "")) [
    | inl e ↦ absurd (cc)
    | inr e ↦ elim (Option-cases (lookup route_id routes)) [
      | inl missing ↦ absurd (cc)
      | inr (adapter, there) ↦
          let same : (route_id, adapter) ≡ found = some-injective _ _ (rw (e, there) at h) in
          rw (← same) (refl, e, there)
    ]
  ]

  of_adapter-eq-some :
      (routes : List (String × Adapter World E)) (route_id : String) (adapter : Adapter World E)
      → (route_id == "") ≡ false
      → lookup route_id routes ≡ some adapter
      → adapter_of routes (some route_id) ≡ some (route_id, adapter)
  of_adapter-eq-some routes route_id adapter e there = rw (e, there) refl

  or_unavailable-eq-ok :
      (policy_ref : String) (o : Option (String × Adapter World E))
      (found : String × Adapter World E)
      → or_unavailable policy_ref o ≡ ok found
      → o ≡ some found
  or_unavailable-eq-ok policy_ref none found h = cc
  or_unavailable-eq-ok policy_ref (some other) found h = cc

  route-eq-ok :
      (router : StaticModelRouter World E) (request : ModelRequest)
      (found : String × Adapter World E)
      → route router request ≡ ok found
      → adapter_of router.routes (lookup request.policy_ref router.policy_routes) ≡ some found
  unfolding route
  route-eq-ok router request found h = or_unavailable-eq-ok request.policy_ref _ found h

module _ {World E : Type 0} (policy : StaticModelPolicy) (router : StaticModelRouter World E)
    (request : ModelRequest) where
  admit→IsGoverned :
      (found : String × Adapter World E)
      → admit policy router request ≡ ok found
      → IsGoverned policy router request found
  unfolding admit authorize validate
  admit→IsGoverned found h =
      let (authorised, h1) = >>-eq-ok (authorize policy request) _ h in
      let (within, h2) = >>-eq-ok (validate request) (route router request) h1 in
      let (named, some_id, there) =
        adapter_of-eq-some router.routes (lookup request.policy_ref router.policy_routes) found
          (route-eq-ok router request found h2) in
      record {
        allowed = ground arith;
        classification = ground arith;
        tokens =
            exceeds-eq-false request.requested_max_tokens request.budget.max_tokens (ground arith);
        policy_route = named;
        route_named = some_id;
        adapter = there;
      }

  IsGoverned→admit :
      (found : String × Adapter World E)
      → IsGoverned policy router request found
      → admit policy router request ≡ ok found
  unfolding admit authorize validate route
  IsGoverned→admit found g =
      let within = exceeds_of_le request.requested_max_tokens request.budget.max_tokens g.tokens in
      let below : ltb (classification_rank policy.maximum_data_classification)
            (classification_rank request.data_classification)
          ≡ false =
        ground (arith, g.classification) in
      rw
        (
          g.allowed,
          below,
          within,
          route,
          g.policy_route,
          of_adapter-eq-some router.routes found.0 found.1 g.route_named g.adapter,
        )
        refl

  -- The adapter of a provider runs only for a request whose policy is allowed, whose data is not
  -- classified above the policy, whose tokens are within the budget and whose policy has a route; the
  -- reply is then the adapter's. Any other request is refused, and nothing happens.
  pub complete-IsGoverned :
      (world : World)
      → ((found : String × Adapter World E) × IsGoverned policy router request found
          × (complete policy router request world ≡ call_adapter request (ok found) world))
        ⊎ (((found : String × Adapter World E) → ¬ IsGoverned policy router request found)
            × ((e : GatewayError E) × (complete policy router request world ≡ (err e, world))))
  unfolding complete
  complete-IsGoverned world = elim (Result-cases (admit policy router request)) [
    | inl (found, e) ↦ inl (found, admit→IsGoverned found e, rw e refl)
    | inr (raised, e) ↦ inr (λ found g. cc (sym e ∙ IsGoverned→admit found g), (raised, rw e refl))
  ]
