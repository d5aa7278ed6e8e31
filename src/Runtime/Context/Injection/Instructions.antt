-- ===== src/Runtime/Context/Injection/Instructions.antt =====
-- What the patterns of src/genesis/runtime/context/safety.py find: the instructions, word by word.
use mathlib.Core.Path.{subst}
use genesis_ai.Prelude.{
  ℕ, ◌≡◌, ◌∙◌, ap, refl, sym, Bool, true, List, [], ◌∷◌, ◌++◌, flat_map, any, all, all→All, All,
  All-In, In, inl, inr, ◌↔◌, String, codes, leb, ◌&&◌, arith, Bool-cases, In-flat_map, flat_map-In,
}
use genesis_ai.Runtime.Context.Injection.{
  Pattern, ignore_case, search_text, injection_patterns, contains_injection,
}
use genesis_ai.Runtime.Context.Injection.Matching.{Equal, Occurs, search_text_iff}
use genesis_ai.Runtime.Context.Injection.Sentences.{
  Part, text, gap, SameLetter, SameWord, Reads, expand, Matches→Reads, Reads→Matches,
}

-- The words of a sentence, with a gap between two of them.
abbrev say : List String → List Part
say [] = []
say (w ∷ []) = text (codes w) ∷ []
say (w ∷ ws) = text (codes w) ∷ gap ∷ say ws

abbrev plural : List String → List Part
plural ws = say ws ++ (text (codes "s") ∷ [])

abbrev is_small : ℕ → Bool
is_small w = leb 97 w && leb w 122

-- The words are of small letters.
abbrev is_small_part : Part → Bool
is_small_part (text w) = all is_small w
is_small_part gap = true

abbrev Small : Part → Type 0
Small p = is_small_part p ≡ true

equal_letter_iff : (w c : ℕ) → is_small w ≡ true → (ignore_case c ≡ w) ↔ SameLetter w c
equal_letter_iff w c small = (λ h. ground arith, from)
  where
    from : SameLetter w c → ignore_case c ≡ w
    from (inl e) = ground arith
    from (inr (inl e)) = ground arith
    from (inr (inr (inl (e, inl k)))) = ground arith
    from (inr (inr (inl (e, inr k)))) = ground arith
    from (inr (inr (inr (inl (e, k))))) = ground arith
    from (inr (inr (inr (inr (e, k))))) = ground arith

Equal-SameWord : (w u : List ℕ) → All (λ c. is_small c ≡ true) w → Equal w u ↔ SameWord w u
Equal-SameWord [] [] a = (λ h. h, λ h. h)
Equal-SameWord [] (c ∷ u) a = (λ h. absurd h, λ h. absurd h)
Equal-SameWord (w ∷ ws) [] a = (λ h. absurd h, λ h. absurd h)
Equal-SameWord (w ∷ ws) (c ∷ u) (small, a) =
    let letter = equal_letter_iff w c small in
    let rest = Equal-SameWord ws u a in
    (λ (e, h). (letter.0 e, rest.0 h), λ (e, h). (letter.1 e, rest.1 h))

Reads-map :
    (E F : List ℕ → List ℕ → Type 0) (s : List Part) (u : List ℕ)
    → ((w v : List ℕ) → All (λ c. is_small c ≡ true) w → E w v → F w v)
    → All Small s
    → Reads E s u
    → Reads F s u
Reads-map E F [] u f a h = h
Reads-map E F (text w ∷ s) u f (small, a) (v, r, e, m, h) =
    (v, r, e, f w v (all→All is_small w small) m, Reads-map E F s r f a h)
Reads-map E F (gap ∷ s) u f (small, a) (v, r, e, m, h) = (v, r, e, m, Reads-map E F s r f a h)

-- The instructions that the guard knows.
pub instructions : List (List Part)
instructions =
    plural ("ignore" ∷ "all" ∷ "previous" ∷ "instruction" ∷ [])
    ∷ say ("ignore" ∷ "all" ∷ "previous" ∷ "instruction" ∷ [])
    ∷ plural ("ignore" ∷ "all" ∷ "prior" ∷ "instruction" ∷ [])
    ∷ say ("ignore" ∷ "all" ∷ "prior" ∷ "instruction" ∷ [])
    ∷ plural ("ignore" ∷ "all" ∷ "system" ∷ "instruction" ∷ [])
    ∷ say ("ignore" ∷ "all" ∷ "system" ∷ "instruction" ∷ [])
    ∷ plural ("ignore" ∷ "previous" ∷ "instruction" ∷ [])
    ∷ say ("ignore" ∷ "previous" ∷ "instruction" ∷ [])
    ∷ plural ("ignore" ∷ "prior" ∷ "instruction" ∷ [])
    ∷ say ("ignore" ∷ "prior" ∷ "instruction" ∷ [])
    ∷ plural ("ignore" ∷ "system" ∷ "instruction" ∷ [])
    ∷ say ("ignore" ∷ "system" ∷ "instruction" ∷ [])
    ∷ say ("override" ∷ "backend" ∷ [])
    ∷ say ("override" ∷ "system" ∷ [])
    ∷ say ("override" ∷ "authority" ∷ [])
    ∷ say ("override" ∷ "permission" ∷ [])
    ∷ say ("override" ∷ "scope" ∷ [])
    ∷ say ("grant" ∷ "me" ∷ "permission" ∷ [])
    ∷ say ("grant" ∷ "me" ∷ "role" ∷ [])
    ∷ say ("grant" ∷ "me" ∷ "access" ∷ [])
    ∷ say ("grant" ∷ "permission" ∷ [])
    ∷ say ("grant" ∷ "role" ∷ [])
    ∷ say ("grant" ∷ "access" ∷ [])
    ∷ say ("reveal" ∷ "the" ∷ "system" ∷ "prompt" ∷ [])
    ∷ say ("reveal" ∷ "system" ∷ "prompt" ∷ [])
    ∷ say ("execute" ∷ "this" ∷ "command" ∷ [])
    ∷ say ("execute" ∷ "this" ∷ "tool" ∷ [])
    ∷ say ("execute" ∷ "this" ∷ "instruction" ∷ [])
    ∷ say ("execute" ∷ "command" ∷ [])
    ∷ say ("execute" ∷ "tool" ∷ [])
    ∷ say ("execute" ∷ "instruction" ∷ [])
    ∷ []

expands : flat_map expand injection_patterns ≡ instructions
unfolding expand injection_patterns instructions
expands = refl

In-instructions_iff :
    (s : List Part)
    → In s instructions ↔ ((p : Pattern) × In p injection_patterns × In s (expand p))
In-instructions_iff s = (
  λ m. In-flat_map expand s injection_patterns (subst (λ l. In s l) (sym expands) m),
  λ (p, i, j). subst (λ l. In s l) expands (flat_map-In expand s p injection_patterns i j),
)

all_small : all (λ s. all is_small_part s) instructions ≡ true
unfolding instructions
all_small = refl

instructions-Small : (s : List Part) → In s instructions → All Small s
instructions-Small s m =
    let small =
      All-In (λ t. all is_small_part t ≡ true) instructions s
        (all→All (λ t. all is_small_part t) instructions all_small) m in
    all→All is_small_part s small

module _ {A : Type 0} (P : A → Bool) where
  any→In : (xs : List A) → any P xs ≡ true → (x : A) × In x xs × (P x ≡ true)
  any→In [] h = absurd (cc)
  any→In (x ∷ xs) h = elim (Bool-cases (P x)) [
    | inl e ↦ (x, inl refl, e)
    | inr e ↦ let (y, m, k) = any→In xs (ground arith) in (y, inr m, k)
  ]

  In→any : (xs : List A) → ((x : A) × In x xs × (P x ≡ true)) → any P xs ≡ true
  In→any [] (y, m, k) = absurd m
  In→any (x ∷ xs) (y, inl e, k) = let held : P x ≡ true = ap P e ∙ k in ground arith
  In→any (x ∷ xs) (y, inr m, k) = ground (arith, In→any xs (y, m, k))

-- An instruction that the guard knows is said in the text, from some position on.
abbrev pub SaysInstruction : List ℕ → Type 0
SaysInstruction content =
    (before : List ℕ) × (found : List ℕ) × (after : List ℕ) × (content ≡ before ++ (found ++ after))
    × (sentence : List Part) × In sentence instructions
    × Reads SameWord sentence found

search→SaysInstruction :
    (p : Pattern) (content : List ℕ)
    → In p injection_patterns
    → Occurs p content
    → SaysInstruction content
search→SaysInstruction p content i (before, found, after, e, m) =
    let (s, j, h) = Matches→Reads p found m in
    let known = (In-instructions_iff s).1 (p, i, j) in
    (
      before,
      found,
      after,
      e,
      s,
      known,
      Reads-map Equal SameWord s found (λ w v a. (Equal-SameWord w v a).0)
          (instructions-Small s known) h,
    )

-- The guard finds an injection in a text exactly when one of the instructions stands in it: its words
-- one behind the other with white space between them, in capital or small letters.
pub contains_injection_iff :
    (content : String) → (contains_injection content ≡ true) ↔ SaysInstruction (codes content)
unfolding contains_injection
contains_injection_iff content = (to, from)
  where
    finds : Pattern → Bool
    finds p = search_text p (codes content)

    to : any finds injection_patterns ≡ true → SaysInstruction (codes content)
    to h =
        let (p, i, k) = any→In finds injection_patterns h in
        search→SaysInstruction p (codes content) i ((search_text_iff p (codes content)).0 k)

    from : SaysInstruction (codes content) → any finds injection_patterns ≡ true
    from (before, found, after, e, s, i, h) =
        let (p, j, k) = (In-instructions_iff s).0 i in
        let equal =
          Reads-map SameWord Equal s found (λ w v a. (Equal-SameWord w v a).1)
            (instructions-Small s i) h in
        In→any finds injection_patterns (
          p,
          j,
          (search_text_iff p (codes content)).1
              (before, found, after, e, Reads→Matches p s found k equal),
        )
