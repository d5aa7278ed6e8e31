-- ===== src/Prelude/Sets.antt =====
-- Python sets and `dict.fromkeys`, as lists with a membership test.
use mathlib.Core.Path.{◌≡◌, refl}
use mathlib.Core.Logic.{inl, inr}
use mathlib.Core.Bool.{Bool, true, false, not, ◌&&◌, ◌||◌}
use mathlib.Core.List.{List, [], ◌∷◌, ◌++◌}
use native.Mathlib.Omega.{arith}
use genesis_ai.Prelude.Tests.{Eq, ◌==◌, ◌!=◌, Bool-cases}
use genesis_ai.Prelude.Lists.{is_empty, filter, all}

module _ {ℓ} {A : Type ℓ} ⦃e : Eq A⦄ where
  -- `a in xs`
  abbrev pub contains : List A → A → Bool
  contains [] a = false
  contains (x ∷ xs) a = x == a || contains xs a

  -- `set(xs).issubset(ys)`
  abbrev pub is_subset : List A → List A → Bool
  is_subset xs ys = all (contains ys) xs

  -- `set(xs) - set(ys)`, before it is sorted
  abbrev pub difference : List A → List A → List A
  difference xs ys = filter (λ x. not (contains ys x)) xs

  -- `set(xs) & set(ys)`
  abbrev pub intersection : List A → List A → List A
  intersection xs ys = filter (contains ys) xs

  -- `dict.fromkeys(xs)`: each key once, where it stands first
  abbrev pub from_keys : List A → List A
  from_keys [] = []
  from_keys (x ∷ xs) = x ∷ filter (λ y. y != x) (from_keys xs)

  abbrev pub Subset : List A → List A → Type ℓ
  Subset xs ys = (a : A) → contains xs a ≡ true → contains ys a ≡ true

  pub ==_refl : (a : A) → (a == a) ≡ true
  ==_refl a = (e.equal_iff a a).1 refl

  pub Subset-trans : (xs ys zs : List A) → Subset xs ys → Subset ys zs → Subset xs zs
  Subset-trans xs ys zs f g a h = g a (f a h)

  pub contains-cast : (xs : List A) (a b : A) → (a == b) ≡ true → contains xs a ≡ contains xs b
  contains-cast xs a b h = rw ((e.equal_iff a b).0 h)

  pub contains-filter :
      (p : A → Bool) (xs : List A) (a : A) → contains (filter p xs) a ≡ (contains xs a && p a)
  contains-filter p [] a = refl
  contains-filter p (x ∷ xs) a = elim (Bool-cases (x == a)) [
    | inl same ↦ rw ((e.equal_iff x a).0 same) (ground (arith, contains-filter p xs a, ==_refl a))
    | inr other ↦ ground (arith, contains-filter p xs a)
  ]

  pub contains-append :
      (xs ys : List A) (a : A) → contains (xs ++ ys) a ≡ (contains xs a || contains ys a)
  contains-append [] ys a = refl
  contains-append (x ∷ xs) ys a = ground (arith, contains-append xs ys a)

  pub contains-from_keys : (xs : List A) (a : A) → contains (from_keys xs) a ≡ contains xs a
  contains-from_keys [] a = refl
  contains-from_keys (x ∷ xs) a = elim (Bool-cases (x == a)) [
    | inl same ↦ ground arith
    | inr other ↦ ground (
      arith,
      contains-filter (λ y. y != x) (from_keys xs) a,
      contains-from_keys xs a,
      e.equal_iff x a,
      e.equal_iff a x,
    )
  ]

  pub is_subset→Subset : (xs ys : List A) → is_subset xs ys ≡ true → Subset xs ys
  is_subset→Subset [] ys h a m = cc
  is_subset→Subset (x ∷ xs) ys h a m =
      ground (arith, is_subset→Subset xs ys (ground arith) a, e.equal_iff x a)

  pub Subset→is_subset : (xs ys : List A) → Subset xs ys → is_subset xs ys ≡ true
  Subset→is_subset [] ys h = refl
  Subset→is_subset (x ∷ xs) ys h =
      ground (arith, h x, ==_refl x, Subset→is_subset xs ys (λ a m. h a (ground arith)))

  -- `set(xs).difference(ys)` is empty exactly when `xs` is contained in `ys`.
  pub is_empty-difference : (xs ys : List A) → is_empty (difference xs ys) ≡ is_subset xs ys
  is_empty-difference [] ys = refl
  is_empty-difference (x ∷ xs) ys = ground (arith, is_empty-difference xs ys)

  pub is_empty-from_keys : (xs : List A) → is_empty (from_keys xs) ≡ is_empty xs
  is_empty-from_keys [] = refl
  is_empty-from_keys (x ∷ xs) = refl
