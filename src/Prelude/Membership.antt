-- ===== src/Prelude/Membership.antt =====
-- `In` of the lists that comprehensions and loops give.
use mathlib.Core.Path.{◌≡◌, refl, sym, ap, ◌∙◌}
use mathlib.Core.Logic.{◌↔◌, inl, inr}
use mathlib.Core.Bool.{Bool, true, false}
use mathlib.Core.List.{List, [], ◌∷◌, map}
use genesis_ai.Prelude.Tests.{Bool-cases}
use genesis_ai.Prelude.Lists.{In, All, filter, is_empty, is_empty-false_of_In, In-of_is_empty-false}

module _ {A : Type 0} where
  pub In-filter : (p : A → Bool) (a : A) (xs : List A) → In a (filter p xs) → In a xs × (p a ≡ true)
  In-filter p a [] h = absurd h
  In-filter p a (x ∷ xs) h = elim (Bool-cases (p x)) [
    | inl kept ↦ elim (rw kept at h) [
      | inl e ↦ (inl e, rw (sym e) kept)
      | inr m ↦ let (k, q) = In-filter p a xs m in (inr k, q)
    ]
    | inr dropped ↦ let (k, q) = In-filter p a xs (rw dropped at h) in (inr k, q)
  ]

  pub filter-In : (p : A → Bool) (a : A) (xs : List A) → In a xs → p a ≡ true → In a (filter p xs)
  filter-In p a [] h q = absurd h
  filter-In p a (x ∷ xs) (inl e) q = rw (ap p e ∙ q) (inl e)
  filter-In p a (x ∷ xs) (inr m) q = elim (Bool-cases (p x)) [
    | inl kept ↦ rw kept (inr (filter-In p a xs m q))
    | inr dropped ↦ rw dropped (filter-In p a xs m q)
  ]

  -- Something is left of a list exactly when a member satisfies the test.
  pub filter-some_iff :
      (p : A → Bool) (xs : List A)
      → (is_empty (filter p xs) ≡ false) ↔ ((a : A) × In a xs × (p a ≡ true))
  filter-some_iff p xs = (
    λ h.
        let (a, m) = In-of_is_empty-false (filter p xs) h in
        let (k, q) = In-filter p a xs m in (a, k, q),
    λ (a, m, q). is_empty-false_of_In a (filter p xs) (filter-In p a xs m q),
  )

  pub All-In {ℓ} : (P : A → Type ℓ) (xs : List A) (a : A) → All P xs → In a xs → P a
  All-In P [] a h m = absurd m
  All-In P (x ∷ xs) a (h, hs) (inl e) = rw (sym e) h
  All-In P (x ∷ xs) a (h, hs) (inr m) = All-In P xs a hs m

module _ {A B : Type 0} where
  pub In-map_iff :
      (f : A → B) (b : B) (xs : List A) → In b (map f xs) ↔ ((a : A) × In a xs × (f a ≡ b))
  In-map_iff f b xs = (to xs, from xs)
    where
      to : (xs : List A) → In b (map f xs) → (a : A) × In a xs × (f a ≡ b)
      to [] h = absurd h
      to (x ∷ xs) (inl e) = (x, inl refl, e)
      to (x ∷ xs) (inr m) = let (a, k, e) = to xs m in (a, inr k, e)

      from : (xs : List A) → (a : A) × In a xs × (f a ≡ b) → In b (map f xs)
      from [] (a, m, e) = absurd m
      from (x ∷ xs) (a, inl k, e) = inl (ap f k ∙ e)
      from (x ∷ xs) (a, inr k, e) = inr (from xs (a, k, e))
