-- ===== src/Prelude/Strings.antt =====
-- Python's `str`: a sequence of code points, walked by clauses where the source walks it.
use Prim.Native.Nat.{ℕ, zero, suc}
use Prim.Native.Char.{code}
use Prim.Native.String
use Prim.Native.String.{String}
use mathlib.Core.Path.{◌≡◌, refl, ◌∙◌}
use mathlib.Core.Bool.{Bool, true, false}
use mathlib.Core.List.{List, [], ◌∷◌}
use native.Mathlib.Omega.{arith}
use genesis_ai.Prelude.Tests.{ltb, if◌then◌else◌, nat_eq, string_eq}
use genesis_ai.Prelude.Lists.{is_empty}
use genesis_ai.Prelude.Sorting.{sort, IsTotalOrder, is_empty-sort}
use genesis_ai.Prelude.Sets.{
  from_keys, difference, intersection, is_subset, is_empty-from_keys, is_empty-difference,
}

infixr 65 ◌⧺◌
-- Concatenation of texts.
abbrev pub ◌⧺◌ : String → String → String
s ⧺ t = String.◌++◌ s t

abbrev pub codes : String → List ℕ
codes String.[] = []
codes (String.◌∷◌ c s) = code c ∷ codes s

-- `s <= t`: by code points
abbrev pub str_leb : String → String → Bool
str_leb String.[] t = true
str_leb (String.◌∷◌ c s) String.[] = false
str_leb (String.◌∷◌ c s) (String.◌∷◌ d t) =
    if ltb (code c) (code d) then true else if ltb (code d) (code c) then false else str_leb s t

-- `len(s)`
abbrev pub str_len : String → ℕ
str_len String.[] = 0
str_len (String.◌∷◌ c s) = suc (str_len s)

-- `s[:n]`
abbrev pub str_take : ℕ → String → String
str_take zero s = ""
str_take (suc n) String.[] = ""
str_take (suc n) (String.◌∷◌ c s) = String.◌∷◌ c (str_take n s)

-- `sep.join(parts)`
abbrev pub join : String → List String → String
join sep [] = ""
join sep (x ∷ []) = x
join sep (x ∷ y ∷ ys) = x ⧺ sep ⧺ join sep (y ∷ ys)

str_leb_total : (s t : String) → str_leb s t ≡ false → str_leb t s ≡ true
str_leb_total String.[] t h = cc
str_leb_total (String.◌∷◌ c s) String.[] h = refl
str_leb_total (String.◌∷◌ c s) (String.◌∷◌ d t) h = ground (arith, str_leb_total s t)

str_leb_trans : (s t u : String) → str_leb s t ≡ true → str_leb t u ≡ true → str_leb s u ≡ true
str_leb_trans String.[] t u h k = refl
str_leb_trans (String.◌∷◌ c s) String.[] u h k = cc
str_leb_trans (String.◌∷◌ c s) (String.◌∷◌ d t) String.[] h k = cc
str_leb_trans (String.◌∷◌ c s) (String.◌∷◌ d t) (String.◌∷◌ b u) h k =
    ground (arith, str_leb_trans s t u)

pub str_leb-IsTotalOrder : IsTotalOrder str_leb
str_leb-IsTotalOrder = record { total = str_leb_total; trans = str_leb_trans }

-- `sorted(set(xs))`
abbrev pub sorted_set : List String → List String
sorted_set xs = sort str_leb (from_keys xs)

-- `sorted(set(xs) - set(ys))`
abbrev pub sorted_difference : List String → List String → List String
sorted_difference xs ys = sorted_set (difference xs ys)

-- `sorted(set(xs) & set(ys))`
abbrev pub sorted_intersection : List String → List String → List String
sorted_intersection xs ys = sorted_set (intersection xs ys)

-- Nothing is left of a set exactly when it is a subset.
pub is_empty-sorted_difference :
    (xs ys : List String) → is_empty (sorted_difference xs ys) ≡ is_subset xs ys
is_empty-sorted_difference xs ys =
    is_empty-sort str_leb (from_keys (difference xs ys))
    ∙ is_empty-from_keys (difference xs ys)
    ∙ is_empty-difference xs ys
