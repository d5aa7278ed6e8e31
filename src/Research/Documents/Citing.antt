-- ===== src/Research/Documents/Citing.antt =====
-- The citations of an answer, `_CITATION.findall` of
-- src/genesis/research/engine/document_intelligence.py.
use Prim.Native.Nat.{◌*◌}
use genesis_ai.Prelude.{
  List, Option, Result, String, [], codes, if◌then◌else◌, length, nat_beq, nat_eq, none, some,
  string_eq, suc, zero, ℕ, ◌+◌, ◌-◌, ◌∷◌,
}

-- What the module uses of Python: `str.casefold`, `str.splitlines`, `str` of a number, the hash,
-- `str.format_map`, and the value of a character that `\d` matches.
pub record Builtins : Type 0 where
  pub casefold : String → String
  pub splitlines : String → List String
  pub decimal : ℕ → String
  pub sha256_hex : String → String
  pub format_map : String → List (String × String) → Result String String
  pub digit : ℕ → Option ℕ

-- What is left of a text behind a prefix.
abbrev behind : List ℕ → List ℕ → Option (List ℕ)
behind [] s = some s
behind (p ∷ ps) [] = none
behind (p ∷ ps) (c ∷ s) = let rest = behind ps s in if nat_beq p c then rest else none

module _ (builtins : Builtins) where
  -- `\d*` behind a number that has been read: its value, and the rest.
  more_digits : ℕ → List ℕ → ℕ × List ℕ
  more_digits value [] = (value, [])
  more_digits value (c ∷ s) =
      let read : ℕ → ℕ × List ℕ = λ d. more_digits (value * 10 + d) s in
      next (builtins.digit c) read
    where
      next : Option ℕ → (ℕ → ℕ × List ℕ) → ℕ × List ℕ
      next none read = (value, c ∷ s)
      next (some d) read = read d

  -- `\d+`
  abbrev number : List ℕ → Option (ℕ × List ℕ)
  number [] = none
  number (c ∷ s) = first (builtins.digit c)
    where
      first : Option ℕ → Option (ℕ × List ℕ)
      first none = none
      first (some d) = some (more_digits d s)

  -- `-L(\d+)\]` behind the first number.
  abbrev citation_end : ℕ × List ℕ → Option ((ℕ × ℕ) × List ℕ)
  citation_end (first, s) = dash (behind (codes "-L") s)
    where
      close : ℕ → Option (List ℕ) → Option ((ℕ × ℕ) × List ℕ)
      close second none = none
      close second (some rest) = some ((first, second), rest)

      bracket : Option (ℕ × List ℕ) → Option ((ℕ × ℕ) × List ℕ)
      bracket none = none
      bracket (some (second, rest)) = close second (behind (codes "]") rest)

      dash : Option (List ℕ) → Option ((ℕ × ℕ) × List ℕ)
      dash none = none
      dash (some rest) = bracket (number rest)

  -- `_CITATION` at the start of a text: the two numbers, and the rest.
  abbrev citation_at : List ℕ → Option ((ℕ × ℕ) × List ℕ)
  citation_at s = opened (behind (codes "[Sumber L") s)
    where
      numbered : Option (ℕ × List ℕ) → Option ((ℕ × ℕ) × List ℕ)
      numbered none = none
      numbered (some found) = citation_end found

      opened : Option (List ℕ) → Option ((ℕ × ℕ) × List ℕ)
      opened none = none
      opened (some rest) = numbered (number rest)

  -- The citations from left to right, behind the characters of the last one.
  scan : (skip : ℕ) → List ℕ → List (ℕ × ℕ)
  scan skip [] = []
  scan (suc skip) (c ∷ s) = scan skip s
  scan zero (c ∷ s) =
      let next : ℕ → List (ℕ × ℕ) = λ n. scan n s in found (citation_at (c ∷ s)) next
    where
      found : Option ((ℕ × ℕ) × List ℕ) → (ℕ → List (ℕ × ℕ)) → List (ℕ × ℕ)
      found none next = next 0
      found (some (citation, rest)) next = citation ∷ next (length s - length rest)

  -- `_CITATION.findall(answer)`, with the numbers that its groups stand for (`int`
  -- reads at most 4300 digits and raises a ValueError on more, which is left out).
  unfoldable pub citations : String → List (ℕ × ℕ)
  unfolding scan more_digits
  citations answer = scan 0 (codes answer)
