-- ===== src/Prelude/Dicts.antt =====
-- Python dictionaries as association lists in insertion order.
use mathlib.Core.Path.{◌≡◌, refl}
use mathlib.Core.Option.{Option, none, some}
use mathlib.Core.List.{List, [], ◌∷◌, map}
use native.Mathlib.Omega.{arith}
use genesis_ai.Prelude.Tests.{Eq, ◌==◌, if◌then◌else◌, is_some}
use genesis_ai.Prelude.Sets.{contains}

module _ {ℓ κ} {K : Type ℓ} {V : Type κ} ⦃e : Eq K⦄ where
  -- `d.get(key)`
  abbrev pub lookup : K → List (K × V) → Option V
  lookup k [] = none
  lookup k ((j, v) ∷ d) = let rest = lookup k d in if j == k then some v else rest

  -- `d[key] = value`: in place where the key is there, at the end where it is new
  abbrev pub assign : K → V → List (K × V) → List (K × V)
  assign k v [] = (k, v) ∷ []
  assign k v ((j, w) ∷ d) = let rest = assign k v d in if j == k then (j, v) ∷ d else (j, w) ∷ rest

  abbrev pub keys : List (K × V) → List K
  keys d = map (λ b. b.0) d

  pub lookup-assign :
      (k j : K) (v : V) (d : List (K × V))
      → lookup j (assign k v d) ≡ (if k == j then some v else lookup j d)
  lookup-assign k j v [] = refl
  lookup-assign k j v ((i, w) ∷ d) =
      ground (arith, e.equal_iff k j, e.equal_iff i k, e.equal_iff i j, lookup-assign k j v d)

  pub contains-keys : (k : K) (d : List (K × V)) → contains (keys d) k ≡ is_some (lookup k d)
  contains-keys k [] = refl
  contains-keys k ((j, v) ∷ d) = ground (arith, contains-keys k d)
