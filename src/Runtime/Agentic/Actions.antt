-- ===== src/Runtime/Agentic/Actions.antt =====
-- Statements of a run in order: what they return or raise, the results of tools that they append to
-- the shared list, and the world that they change.
use genesis_ai.Prelude.{List, Result, [], err, nat_eq, ok, refl, string_eq, ◌++◌, ◌∷◌, ◌≡◌}
use genesis_ai.Contracts.{Fields}
use genesis_ai.Runtime.Agentic.{Raised}

pub record Session (World : Type 0) : Type 0 where
  pub world : World
  pub tool_results : List Fields

abbrev pub Action {ℓ} : Type 0 → Type ℓ → Type ℓ
Action World A = Session World → Result Raised A × Session World

module _ {ℓ} {World : Type 0} {A : Type ℓ} where
  -- A step that only computes.
  abbrev pub pure : Result Raised A → Action World A
  pure r s = (r, s)

  -- A call of a port.
  abbrev pub call : (World → Result Raised A × World) → Action World A
  call f s = let (r, w) = f s.world in (r, record s { world = w })

  abbrev pub read : (World → A × World) → Action World A
  read f s = let (a, w) = f s.world in (ok a, record s { world = w })

module _ {ℓ κ} {World : Type 0} {A : Type ℓ} {B : Type κ} where
  abbrev pub continue : Result Raised A → (A → Action World B) → Action World B
  continue (err e) k s = (err e, s)
  continue (ok a) k s = k a s

  unfoldable pub and_then : Action World A → (A → Action World B) → Action World B
  and_then m k s = let (r, s') = m s in continue r k s'

unfoldable pub append_result : {World : Type 0} → Fields → Action World (Unit {0})
append_result result s = (ok tt, record s { tool_results = s.tool_results ++ result ∷ [] })

-- What holds before an action also holds after it, whether it returns or raises.
abbrev pub Keeps {ℓ} :
    {World : Type 0} {A : Type ℓ} → (Session World → Type 0) → Action World A → Type 0
Keeps {World} I m = (s : Session World) → I s → I (m s).1

module _ {ℓ κ} {World : Type 0} {A : Type ℓ} {B : Type κ} (I : Session World → Type 0) where
  continue-Keeps :
      (r : Result Raised A) (k : A → Action World B)
      → ((a : A) → r ≡ ok a → Keeps I (k a))
      → Keeps I (continue r k)
  continue-Keeps (err e) k h s i = i
  continue-Keeps (ok a) k h s i = h a refl s i

  pub and_then-Keeps :
      (m : Action World A) (k : A → Action World B)
      → Keeps I m
      → ((a : A) → Keeps I (k a))
      → Keeps I (and_then m k)
  unfolding and_then
  and_then-Keeps m k h g s i = continue-Keeps (m s).0 k (λ a e. g a) (m s).1 (h s i)

  -- What a computation has checked may be used in what follows it.
  pub pure-Keeps :
      (r : Result Raised A) (k : A → Action World B)
      → ((a : A) → r ≡ ok a → Keeps I (k a))
      → Keeps I (and_then (pure r) k)
  unfolding and_then
  pure-Keeps r k h s i = continue-Keeps r k h s i

-- What an action returns, if it returns.
abbrev pub Returns {ℓ κ} :
    {World : Type 0} {A : Type ℓ} → (A → Type κ) → Action World A → Type (ℓ ⊔ κ)
Returns {World} {A} P m = (s : Session World) (a : A) → (m s).0 ≡ ok a → P a

module _ {ℓ κ μ} {World : Type 0} {A : Type ℓ} {B : Type κ} (P : B → Type μ) where
  continue-Returns :
      (r : Result Raised A) (k : A → Action World B)
      → ((a : A) → r ≡ ok a → Returns P (k a))
      → Returns P (continue r k)
  continue-Returns (err e) k h s b e' = cc
  continue-Returns (ok a) k h s b e' = h a refl s b e'

  pub and_then-Returns {ν} :
      (Q : A → Type ν) (m : Action World A) (k : A → Action World B)
      → Returns Q m
      → ((a : A) → Q a → Returns P (k a))
      → Returns P (and_then m k)
  unfolding and_then
  and_then-Returns Q m k h g s b e = continue-Returns (m s).0 k (λ a e'. g a (h s a e')) (m s).1 b e

  -- What the first action returns does not matter.
  pub then-Returns :
      (m : Action World A) (k : A → Action World B)
      → ((a : A) → Returns P (k a))
      → Returns P (and_then m k)
  then-Returns m k g = and_then-Returns (λ a. Unit {0}) m k (λ s a e. tt) (λ a u. g a)

  pub pure-Returns :
      (r : Result Raised A) (k : A → Action World B)
      → ((a : A) → r ≡ ok a → Returns P (k a))
      → Returns P (and_then (pure r) k)
  pure-Returns r k g = and_then-Returns (λ a. r ≡ ok a) (pure r) k (λ s a e. e) g
