-- ===== src/Prelude/Counting.antt =====
-- How the list functions act on the number of elements and on tests of the elements.
use Prim.Native.Nat.{ℕ, zero, suc, ◌+◌}
use mathlib.Core.Path.{◌≡◌, refl, sym, ap, ◌∙◌}
use mathlib.Core.Bool.{Bool, not, ◌&&◌, ◌||◌}
use mathlib.Core.List.{List, [], ◌∷◌, ◌++◌, map}
use native.Mathlib.Omega.{arith}
use genesis_ai.Prelude.Lists.{All, any, drop, filter, length, take, take-append-drop}
use genesis_ai.Prelude.Sorting.{insert_sorted, sort}

module _ {ℓ κ} {A : Type ℓ} (P : A → Type κ) where
  pub All-take : (n : ℕ) (xs : List A) → All P xs → All P (take n xs)
  All-take zero xs h = tt
  All-take (suc n) [] h = tt
  All-take (suc n) (x ∷ xs) (p, h) = (p, All-take n xs h)

module _ {ℓ} {A : Type ℓ} where
  pub length-append : (xs ys : List A) → length (xs ++ ys) ≡ length xs + length ys
  length-append [] ys = omega arith
  length-append (x ∷ xs) ys = ground (arith, length-append xs ys)

  pub length-insert_sorted :
      (le : A → A → Bool) (x : A) (xs : List A) → length (insert_sorted le x xs) ≡ length xs + 1
  length-insert_sorted le x [] = refl
  length-insert_sorted le x (y ∷ ys) = ground (arith, length-insert_sorted le x ys)

  pub length-sort : (le : A → A → Bool) (xs : List A) → length (sort le xs) ≡ length xs
  length-sort le [] = refl
  length-sort le (x ∷ xs) =
      ground (arith, length-insert_sorted le x (sort le xs), length-sort le xs)

  pub length-filter-not :
      (p : A → Bool) (xs : List A)
      → length (filter p xs) + length (filter (λ x. not (p x)) xs) ≡ length xs
  length-filter-not p [] = refl
  length-filter-not p (x ∷ xs) = ground (arith, length-filter-not p xs)

  pub length-take-drop : (n : ℕ) (xs : List A) → length (take n xs) + length (drop n xs) ≡ length xs
  length-take-drop n xs =
      sym (length-append (take n xs) (drop n xs)) ∙ ap length (take-append-drop n xs)

pub length-map {ℓ κ} :
    {A : Type ℓ} {B : Type κ} (f : A → B) (xs : List A) → length (map f xs) ≡ length xs
length-map f [] = refl
length-map f (x ∷ xs) = ground (arith, length-map f xs)

module _ {ℓ} {A : Type ℓ} (p : A → Bool) where
  pub any-filter : (q : A → Bool) (xs : List A) → any p (filter q xs) ≡ any (λ x. q x && p x) xs
  any-filter q [] = refl
  any-filter q (x ∷ xs) = ground (arith, any-filter q xs)

  pub any-insert_sorted :
      (le : A → A → Bool) (x : A) (xs : List A) → any p (insert_sorted le x xs) ≡ (p x || any p xs)
  any-insert_sorted le x [] = refl
  any-insert_sorted le x (y ∷ ys) = ground (arith, any-insert_sorted le x ys)

  pub any-sort : (le : A → A → Bool) (xs : List A) → any p (sort le xs) ≡ any p xs
  any-sort le [] = refl
  any-sort le (x ∷ xs) = ground (arith, any-insert_sorted le x (sort le xs), any-sort le xs)

pub any-map {ℓ κ} :
    {A : Type ℓ} {B : Type κ} (p : B → Bool) (f : A → B) (xs : List A)
    → any p (map f xs) ≡ any (λ x. p (f x)) xs
any-map p f [] = refl
any-map p f (x ∷ xs) = ground (arith, any-map p f xs)

pub any-cong {ℓ} :
    {A : Type ℓ} (p q : A → Bool) (xs : List A) → ((x : A) → p x ≡ q x) → any p xs ≡ any q xs
any-cong p q [] h = refl
any-cong p q (x ∷ xs) h = ground (arith, h x, any-cong p q xs h)
