-- ===== src/Runtime/Context/Injection.antt =====
-- The regular expressions `_INJECTION_PATTERNS` of src/genesis/runtime/context/safety.py, compiled
-- with `re.IGNORECASE`, and `pattern.search`. A text is the list of its code points.
pub mod Matching
pub mod Sentences
pub mod Instructions
use genesis_ai.Prelude.{
  ℕ, ◌+◌, Bool, true, false, not, ◌&&◌, ◌||◌, Option, none, some, List, [], ◌∷◌, ◌++◌, String, ltb,
  leb, nat_beq, if◌then◌else◌, is_empty, any, codes, contains, nat_eq, flat_map,
}

-- The constructs that the patterns use: a literal word, `\s+`, `(p)?`, `p|q` and `pq`.
pub data Pattern : Type 0 where
  word : List ℕ → Pattern
  spaces : Pattern
  optional : Pattern → Pattern
  either : Pattern → Pattern → Pattern
  then_ : Pattern → Pattern → Pattern

-- The lower-case letter that a code point equals under `re.IGNORECASE`: besides A to Z, the letters
-- İ and ı are i, ſ is s, and the sign K is k.
abbrev pub ignore_case : ℕ → ℕ
ignore_case c =
    if leb b'A' c && leb c b'Z'
    then c + 32
    else if nat_beq c 0x130 || nat_beq c 0x131
    then b'i'
    else if nat_beq c 0x17f
    then b's'
    else if nat_beq c 0x212a
    then b'k'
    else c

-- `\s`: the code points for which `str.isspace` holds.
abbrev pub is_space : ℕ → Bool
is_space c =
    (leb 9 c && leb c 13)
    || (leb 28 c && leb c 32)
    || nat_beq c 0x85
    || nat_beq c 0xa0
    || nat_beq c 0x1680
    || (leb 0x2000 c && leb c 0x200a)
    || nat_beq c 0x2028
    || nat_beq c 0x2029
    || nat_beq c 0x202f
    || nat_beq c 0x205f
    || nat_beq c 0x3000

-- What is left of a text that begins with the word, in any case of its letters.
pub strip_word : List ℕ → List ℕ → Option (List ℕ)
strip_word [] s = some s
strip_word (w ∷ ws) [] = none
strip_word (w ∷ ws) (c ∷ s) =
    let rest = strip_word ws s in if nat_beq (ignore_case c) w then rest else none

-- What is left behind one or more spaces, for each number of them.
pub strip_spaces : List ℕ → List (List ℕ)
strip_spaces [] = []
strip_spaces (c ∷ s) = let rest = strip_spaces s in if is_space c then s ∷ rest else []

abbrev to_list : Option (List ℕ) → List (List ℕ)
to_list none = []
to_list (some s) = s ∷ []

-- What may be left of a text behind a match at its start.
pub match : Pattern → List ℕ → List (List ℕ)
match (word w) s = to_list (strip_word w s)
match spaces s = strip_spaces s
match (optional p) s = match p s ++ s ∷ []
match (either p q) s = match p s ++ match q s
match (then_ p q) s = flat_map (match q) (match p s)

-- `pattern.search(s)`: a match at some position.
unfoldable pub search_text : Pattern → List ℕ → Bool
unfolding match strip_word strip_spaces
search_text p [] = not (is_empty (match p []))
search_text p (c ∷ s) = not (is_empty (match p (c ∷ s))) || search_text p s

abbrev literal : String → Pattern
literal s = word (codes s)

infixr 40 ◌⨟◌
abbrev ◌⨟◌ : Pattern → Pattern → Pattern
p ⨟ q = then_ p q

abbrev any_word : String → List String → Pattern
any_word w [] = literal w
any_word w (v ∷ vs) = either (literal w) (any_word v vs)

pub injection_patterns : List Pattern
injection_patterns =
    (literal "ignore"
      ⨟ spaces
      ⨟ optional (literal "all" ⨟ spaces)
      ⨟ any_word "previous" ("prior" ∷ "system" ∷ [])
      ⨟ spaces
      ⨟ literal "instruction"
      ⨟ optional (literal "s"))
    ∷ (literal "override"
        ⨟ spaces
        ⨟ any_word "backend" ("system" ∷ "authority" ∷ "permission" ∷ "scope" ∷ []))
    ∷ (literal "grant"
        ⨟ spaces
        ⨟ optional (literal "me" ⨟ spaces)
        ⨟ any_word "permission" ("role" ∷ "access" ∷ []))
    ∷ (literal "reveal"
        ⨟ spaces
        ⨟ optional (literal "the" ⨟ spaces)
        ⨟ literal "system"
        ⨟ spaces
        ⨟ literal "prompt")
    ∷ (literal "execute"
        ⨟ spaces
        ⨟ optional (literal "this" ⨟ spaces)
        ⨟ any_word "command" ("tool" ∷ "instruction" ∷ []))
    ∷ []

-- `any(pattern.search(content) for pattern in _INJECTION_PATTERNS)`
unfoldable pub contains_injection : String → Bool
unfolding search_text injection_patterns
contains_injection content = any (λ p. search_text p (codes content)) injection_patterns
