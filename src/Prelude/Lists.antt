-- ===== src/Prelude/Lists.antt =====
-- Python lists and tuples: lengths, comprehensions, sums and quantified properties.
use Prim.Native.Nat.{ℕ, zero, suc, ◌+◌, ◌≤◌}
use mathlib.Core.Path.{◌≡◌, refl}
use mathlib.Core.Bool.{Bool, true, false, ◌&&◌, ◌||◌}
use mathlib.Core.Option.{Option, none, some}
use mathlib.Core.List.{List, [], ◌∷◌, ◌++◌}
use mathlib.Core.Logic.{◌⊎◌, inl, inr}
use native.Mathlib.Omega.{arith}
use genesis_ai.Prelude.Tests.{if◌then◌else◌}
use genesis_ai.Prelude.Results.{Result, ok, for_each, >>-eq-ok}

module _ {ℓ} {A : Type ℓ} where
  abbrev pub length : List A → ℕ
  length [] = 0
  length (x ∷ xs) = suc (length xs)

  -- The truth value of a list, negated.
  abbrev pub is_empty : List A → Bool
  is_empty [] = true
  is_empty (x ∷ xs) = false

  abbrev pub take : ℕ → List A → List A
  take zero xs = []
  take (suc n) [] = []
  take (suc n) (x ∷ xs) = x ∷ take n xs

  abbrev pub drop : ℕ → List A → List A
  drop zero xs = xs
  drop (suc n) [] = []
  drop (suc n) (x ∷ xs) = drop n xs

  pub take-append-drop : (n : ℕ) (xs : List A) → take n xs ++ drop n xs ≡ xs
  take-append-drop zero xs = refl
  take-append-drop (suc n) [] = refl
  take-append-drop (suc n) (x ∷ xs) = rw (take-append-drop n xs)

  pub length-take-le : (n : ℕ) (xs : List A) → length (take n xs) ≤ n
  length-take-le zero xs = omega arith
  length-take-le (suc n) [] = omega arith
  length-take-le (suc n) (x ∷ xs) = omega (arith, length-take-le n xs)

  -- `[x for x in xs if p(x)]`
  abbrev pub filter : (A → Bool) → List A → List A
  filter p [] = []
  filter p (x ∷ xs) = let rest = filter p xs in if p x then x ∷ rest else rest

  abbrev pub all : (A → Bool) → List A → Bool
  all p [] = true
  all p (x ∷ xs) = p x && all p xs

  abbrev pub any : (A → Bool) → List A → Bool
  any p [] = false
  any p (x ∷ xs) = p x || any p xs

  abbrev pub sum_by : (A → ℕ) → List A → ℕ
  sum_by f [] = 0
  sum_by f (x ∷ xs) = f x + sum_by f xs

  pub sum_by-append : (f : A → ℕ) (xs ys : List A) → sum_by f (xs ++ ys) ≡ sum_by f xs + sum_by f ys
  sum_by-append f [] ys = omega arith
  sum_by-append f (x ∷ xs) ys = omega (arith, sum_by-append f xs ys)

  pub sum_by-filter :
      (f : A → ℕ) (p : A → Bool) (xs : List A)
      → sum_by f (filter p xs) ≡ sum_by (λ x. if p x then f x else 0) xs
  sum_by-filter f p [] = refl
  sum_by-filter f p (x ∷ xs) = ground (arith, sum_by-filter f p xs)

  -- `[y for x in xs for y in f(x)]`
  abbrev pub flat_map {κ} : {B : Type κ} → (A → List B) → List A → List B
  flat_map f [] = []
  flat_map f (x ∷ xs) = f x ++ flat_map f xs

  -- `[f(x) for x in xs if f(x) is not None]`
  abbrev pub filter_map {κ} : {B : Type κ} → (A → Option B) → List A → List B
  filter_map f [] = []
  filter_map f (x ∷ xs) =
      let rest = filter_map f xs in elim (f x) [ none ↦ rest | some y ↦ y ∷ rest ]

module _ {ℓ κ} {A : Type ℓ} where
  abbrev pub All : (A → Type κ) → List A → Type κ
  All P [] = Unit
  All P (x ∷ xs) = P x × All P xs

-- Two lists have the same length, and their elements are related one by one.
module _ {ℓ κ} {A : Type ℓ} {B : Type κ} where
  abbrev pub Pairwise : (A → B → Type 0) → List A → List B → Type 0
  Pairwise P [] [] = Unit
  Pairwise P (x ∷ xs) (y ∷ ys) = P x y × Pairwise P xs ys
  Pairwise P _ _ = ⊥

  pub Pairwise-map :
      {P Q : A → B → Type 0} (xs : List A) (ys : List B)
      → ((x : A) (y : B) → P x y → Q x y)
      → Pairwise P xs ys
      → Pairwise Q xs ys
  Pairwise-map [] [] f h = tt
  Pairwise-map (x ∷ xs) (y ∷ ys) f h = (f x y h.0, Pairwise-map xs ys f h.1)
  Pairwise-map [] (y ∷ ys) f h = absurd h
  Pairwise-map (x ∷ xs) [] f h = absurd h

module _ {ℓ κ} {A : Type ℓ} (P : A → Type κ) where
  pub All-append : (xs ys : List A) → All P xs → All P ys → All P (xs ++ ys)
  All-append [] ys hx hy = hy
  All-append (x ∷ xs) ys hx hy = (hx.0, All-append xs ys hx.1 hy)

  pub All-append_left : (xs ys : List A) → All P (xs ++ ys) → All P xs
  All-append_left [] ys h = tt
  All-append_left (x ∷ xs) ys h = (h.0, All-append_left xs ys h.1)

  pub All-append_right : (xs ys : List A) → All P (xs ++ ys) → All P ys
  All-append_right [] ys h = h
  All-append_right (x ∷ xs) ys h = All-append_right xs ys h.1

  pub All-of : (xs : List A) → ((x : A) → P x) → All P xs
  All-of [] h = tt
  All-of (x ∷ xs) h = (h x, All-of xs h)

module _ {ℓ κ μ} {A : Type ℓ} {P : A → Type κ} {Q : A → Type μ} where
  pub All-map : (xs : List A) → ((x : A) → P x → Q x) → All P xs → All Q xs
  All-map [] f h = tt
  All-map (x ∷ xs) f h = (f x h.0, All-map xs f h.1)

module _ {ℓ} {A : Type ℓ} where
  pub filter-All : (p : A → Bool) (xs : List A) → All (λ x. p x ≡ true) (filter p xs)
  filter-All p [] = tt
  filter-All p (x ∷ xs) = ground (arith, filter-All p xs)

  pub all→All : (p : A → Bool) (xs : List A) → all p xs ≡ true → All (λ x. p x ≡ true) xs
  all→All p [] h = tt
  all→All p (x ∷ xs) h = ground (arith, all→All p xs)

  pub All→all : (p : A → Bool) (xs : List A) → All (λ x. p x ≡ true) xs → all p xs ≡ true
  All→all p [] h = refl
  All→all p (x ∷ xs) (h, hs) = ground (arith, All→all p xs)

module _ {ℓ κ} {E : Type ℓ} {A : Type κ} where
  -- A checking loop that raises nothing has accepted every element.
  pub for_each→All :
      (f : A → Result E (Unit {0})) (xs : List A)
      → for_each f xs ≡ ok tt
      → All (λ x. f x ≡ ok tt) xs
  for_each→All f [] h = tt
  for_each→All f (x ∷ xs) h =
      let (first, rest) = >>-eq-ok (f x) (for_each f xs) h in (first, for_each→All f xs rest)

  pub All→for_each :
      (f : A → Result E (Unit {0})) (xs : List A)
      → All (λ x. f x ≡ ok tt) xs
      → for_each f xs ≡ ok tt
  All→for_each f [] h = refl
  All→for_each f (x ∷ xs) (h, hs) = rw h (All→for_each f xs hs)

-- `a in xs`, with the place where it stands.
module _ {A : Type 0} where
  abbrev pub In : A → List A → Type 0
  In a [] = ⊥
  In a (x ∷ xs) = (x ≡ a) ⊎ In a xs

  pub In-append_left : (a : A) (xs ys : List A) → In a xs → In a (xs ++ ys)
  In-append_left a [] ys h = absurd h
  In-append_left a (x ∷ xs) ys (inl e) = inl e
  In-append_left a (x ∷ xs) ys (inr h) = inr (In-append_left a xs ys h)

  pub In-append_right : (a : A) (xs ys : List A) → In a ys → In a (xs ++ ys)
  In-append_right a [] ys h = h
  In-append_right a (x ∷ xs) ys h = inr (In-append_right a xs ys h)

  pub In-append : (a : A) (xs ys : List A) → In a (xs ++ ys) → In a xs ⊎ In a ys
  In-append a [] ys h = inr h
  In-append a (x ∷ xs) ys (inl e) = inl (inl e)
  In-append a (x ∷ xs) ys (inr h) = elim (In-append a xs ys h) [
    | inl k ↦ inl (inr k)
    | inr k ↦ inr k
  ]

  pub is_empty-false_of_In : (a : A) (xs : List A) → In a xs → is_empty xs ≡ false
  is_empty-false_of_In a [] h = absurd h
  is_empty-false_of_In a (x ∷ xs) h = refl

  pub In-of_is_empty-false : (xs : List A) → is_empty xs ≡ false → (a : A) × In a xs
  In-of_is_empty-false [] h = absurd (cc)
  In-of_is_empty-false (x ∷ xs) h = (x, inl refl)

module _ {A B : Type 0} where
  pub In-flat_map :
      (f : A → List B) (b : B) (xs : List A) → In b (flat_map f xs) → (a : A) × In a xs × In b (f a)
  In-flat_map f b [] h = absurd h
  In-flat_map f b (x ∷ xs) h = elim (In-append b (f x) (flat_map f xs) h) [
    | inl k ↦ (x, inl refl, k)
    | inr k ↦ let (a, m, n) = In-flat_map f b xs k in (a, inr m, n)
  ]

  pub flat_map-In :
      (f : A → List B) (b : B) (a : A) (xs : List A) → In a xs → In b (f a) → In b (flat_map f xs)
  flat_map-In f b a [] h k = absurd h
  flat_map-In f b a (x ∷ xs) (inl e) k = In-append_left b (f x) (flat_map f xs) (rw e k)
  flat_map-In f b a (x ∷ xs) (inr h) k =
      In-append_right b (f x) (flat_map f xs) (flat_map-In f b a xs h k)
