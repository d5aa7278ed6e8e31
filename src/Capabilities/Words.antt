-- ===== src/Capabilities/Words.antt =====
-- The methods of `str` that src/genesis/capabilities/resolver/service.py uses.
use genesis_ai.Prelude.{
  Bool, List, String, [], codes, false, if◌then◌else◌, is_empty, leb, length, ltb, nat_beq, nat_eq,
  str_len, string_eq, true, ℕ, ◌&&◌, ◌==◌, ◌||◌, ◌∷◌, ◌⧺◌,
}
use Prim.Native.Char.{code}
use genesis_ai.Runtime.Context.Injection.{is_space}
use genesis_ai.Runtime.Context.Goal.{normalized_goal}

-- `" ".join(text.split())`
abbrev pub normalized : String → String
normalized text = normalized_goal text

starts_with : List ℕ → List ℕ → Bool
starts_with [] s = true
starts_with (w ∷ ws) [] = false
starts_with (w ∷ ws) (c ∷ s) = let rest = starts_with ws s in if nat_beq w c then rest else false

within : List ℕ → List ℕ → Bool
unfolding starts_with
within w [] = starts_with w []
within w (c ∷ s) = let rest = within w s in if starts_with w (c ∷ s) then true else rest

-- `word in text`
unfoldable pub includes : String → String → Bool
unfolding within
includes word text = within (codes word) (codes text)

has_end : List ℕ → List ℕ → Bool
unfolding starts_with
has_end w [] = is_empty w
has_end w (c ∷ s) =
    let rest = has_end w s in
    if starts_with w (c ∷ s) && nat_beq (length w) (length (c ∷ s)) then true else rest

-- `text.endswith(ending)`
unfoldable pub ends_with : String → String → Bool
unfolding has_end
ends_with ending text = has_end (codes ending) (codes text)

lstrip : String → String
lstrip String.[] = ""
lstrip (String.◌∷◌ c s) = let rest = lstrip s in if is_space (code c) then rest else String.◌∷◌ c s

rstrip : String → String
rstrip String.[] = ""
rstrip (String.◌∷◌ c s) =
    let rest = rstrip s in if rest == "" && is_space (code c) then "" else String.◌∷◌ c rest

-- `text.strip()`
unfoldable pub strip : String → String
unfolding lstrip rstrip
strip text = lstrip (rstrip text)

-- `[a-z0-9_]`
abbrev is_word : ℕ → Bool
is_word c = (leb b'a' c && leb c b'z') || (leb b'0' c && leb c b'9') || nat_beq c b'_'

abbrev long_enough : String → List String → List String
long_enough word rest = if ltb 2 (str_len word) then word ∷ rest else rest

-- The runs of word characters that are longer than two; `word` is the one that is read.
tokens_from : String → String → List String
tokens_from word String.[] = long_enough word []
tokens_from word (String.◌∷◌ c s) =
    let fresh = tokens_from "" s in
    let longer = tokens_from (word ⧺ String.◌∷◌ c "") s in
    if is_word (code c) then longer else long_enough word fresh

-- `_tokens`
unfoldable pub tokens : String → List String
unfolding tokens_from
tokens text = tokens_from "" text
