-- ===== src/Prelude/Sorting.antt =====
-- `sorted(xs, key=...)` by an order on the keys: a stable sort.
use Prim.Native.Nat.{ℕ, ◌+◌}
use mathlib.Core.Path.{◌≡◌, refl}
use mathlib.Core.Logic.{inl, inr}
use mathlib.Core.Bool.{Bool, true, false}
use mathlib.Core.List.{List, [], ◌∷◌, Perm}
use mathlib.Core.List.Perm
use native.Mathlib.Omega.{arith}
use genesis_ai.Prelude.Tests.{Eq, if◌then◌else◌, Bool-cases}
use genesis_ai.Prelude.Lists.{is_empty, sum_by, All, All-map}
use genesis_ai.Prelude.Sets.{contains}

module _ {ℓ} {A : Type ℓ} where
  -- Puts `x` before the first element that it does not exceed.
  abbrev pub insert_sorted : (A → A → Bool) → A → List A → List A
  insert_sorted le x [] = x ∷ []
  insert_sorted le x (y ∷ ys) =
      let rest = insert_sorted le x ys in if le x y then x ∷ y ∷ ys else y ∷ rest

  abbrev pub sort : (A → A → Bool) → List A → List A
  sort le [] = []
  sort le (x ∷ xs) = insert_sorted le x (sort le xs)

  abbrev pub IsSorted : (A → A → Bool) → List A → Type ℓ
  IsSorted le [] = Unit
  IsSorted le (x ∷ xs) = All (λ y. le x y ≡ true) xs × IsSorted le xs

  pub insert_sorted-perm :
      (le : A → A → Bool) (x : A) (ys : List A) → Perm (insert_sorted le x ys) (x ∷ ys)
  insert_sorted-perm le x [] = Perm.refl (x ∷ [])
  insert_sorted-perm le x (y ∷ ys) = elim (Bool-cases (le x y)) [
    | inl h ↦ rw h (Perm.refl _)
    | inr h ↦ rw h (Perm.trans (Perm.cons y (insert_sorted-perm le x ys)) (Perm.swap x y ys))
  ]

  pub sort-perm : (le : A → A → Bool) (xs : List A) → Perm (sort le xs) xs
  sort-perm le [] = Perm.refl []
  sort-perm le (x ∷ xs) =
      Perm.trans (insert_sorted-perm le x (sort le xs)) (Perm.cons x (sort-perm le xs))

  insert_sorted-sum_by :
      (le : A → A → Bool) (f : A → ℕ) (x : A) (ys : List A)
      → sum_by f (insert_sorted le x ys) ≡ f x + sum_by f ys
  insert_sorted-sum_by le f x [] = refl
  insert_sorted-sum_by le f x (y ∷ ys) = ground (arith, insert_sorted-sum_by le f x ys)

  pub sum_by-sort :
      (le : A → A → Bool) (f : A → ℕ) (xs : List A) → sum_by f (sort le xs) ≡ sum_by f xs
  sum_by-sort le f [] = refl
  sum_by-sort le f (x ∷ xs) =
      omega (arith, insert_sorted-sum_by le f x (sort le xs), sum_by-sort le f xs)

  insert_sorted-All {κ} :
      (P : A → Type κ) (le : A → A → Bool) (x : A) (ys : List A)
      → P x
      → All P ys
      → All P (insert_sorted le x ys)
  insert_sorted-All P le x [] p h = (p, tt)
  insert_sorted-All P le x (y ∷ ys) p h = elim (Bool-cases (le x y)) [
    | inl e ↦ rw e (p, h)
    | inr e ↦ rw e (h.0, insert_sorted-All P le x ys p h.1)
  ]

  pub All-sort {κ} :
      (P : A → Type κ) (le : A → A → Bool) (xs : List A) → All P xs → All P (sort le xs)
  All-sort P le [] h = tt
  All-sort P le (x ∷ xs) h = insert_sorted-All P le x (sort le xs) h.0 (All-sort P le xs h.1)

  is_empty-insert_sorted :
      (le : A → A → Bool) (x : A) (ys : List A) → is_empty (insert_sorted le x ys) ≡ false
  is_empty-insert_sorted le x [] = refl
  is_empty-insert_sorted le x (y ∷ ys) = ground arith

  pub is_empty-sort : (le : A → A → Bool) (xs : List A) → is_empty (sort le xs) ≡ is_empty xs
  is_empty-sort le [] = refl
  is_empty-sort le (x ∷ xs) = is_empty-insert_sorted le x (sort le xs)

-- What the keys of a sort satisfy: Python's `<=` on them is a total preorder.
pub record IsTotalOrder {ℓ} {A : Type ℓ} (le : A → A → Bool) : Type ℓ where
  pub total : (a b : A) → le a b ≡ false → le b a ≡ true
  pub trans : (a b c : A) → le a b ≡ true → le b c ≡ true → le a c ≡ true

module _ {ℓ} {A : Type ℓ} (le : A → A → Bool) (order : IsTotalOrder le) where
  insert_sorted-IsSorted :
      (x : A) (ys : List A) → IsSorted le ys → IsSorted le (insert_sorted le x ys)
  insert_sorted-IsSorted x [] h = (tt, tt)
  insert_sorted-IsSorted x (y ∷ ys) (h, hs) = elim (Bool-cases (le x y)) [
    | inl e ↦ rw e ((e, All-map ys (λ z q. order.trans x y z e q) h), (h, hs))
    | inr e ↦
        rw e (insert_sorted-All _ le x ys (order.total x y e) h, insert_sorted-IsSorted x ys hs)
  ]

  pub sort-IsSorted : (xs : List A) → IsSorted le (sort le xs)
  sort-IsSorted [] = tt
  sort-IsSorted (x ∷ xs) = insert_sorted-IsSorted x (sort le xs) (sort-IsSorted xs)

module _ {ℓ} {A : Type ℓ} ⦃e : Eq A⦄ where
  contains-insert_sorted :
      (le : A → A → Bool) (x : A) (ys : List A) (a : A)
      → contains (insert_sorted le x ys) a ≡ contains (x ∷ ys) a
  contains-insert_sorted le x [] a = refl
  contains-insert_sorted le x (y ∷ ys) a = ground (arith, contains-insert_sorted le x ys a)

  pub contains-sort :
      (le : A → A → Bool) (xs : List A) (a : A) → contains (sort le xs) a ≡ contains xs a
  contains-sort le [] a = refl
  contains-sort le (x ∷ xs) a =
      ground (arith, contains-insert_sorted le x (sort le xs) a, contains-sort le xs a)
