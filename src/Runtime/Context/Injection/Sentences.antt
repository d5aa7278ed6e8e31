-- ===== src/Runtime/Context/Injection/Sentences.antt =====
-- The patterns of src/genesis/runtime/context/safety.py as the sentences that they stand for.
use mathlib.Core.Path.{subst}
use mathlib.Core.List.{append_assoc, append-nil}
use genesis_ai.Prelude.{
  ℕ, ◌+◌, ◌≡◌, ◌∙◌, ap, refl, sym, List, [], ◌∷◌, ◌++◌, map, flat_map, In, inl, inr, ◌⊎◌, In-append,
  In-append_left, In-append_right, In-flat_map, flat_map-In, In-map_iff,
}
use genesis_ai.Runtime.Context.Injection.{Pattern, word, spaces, optional, either, then_}
use genesis_ai.Runtime.Context.Injection.Matching.{Equal, Blank, Matches}

pub data Part : Type 0 where
  text : List ℕ → Part
  gap : Part

-- A character is a small letter, the capital of it, or one of the few letters that Unicode equates
-- with it.
abbrev pub SameLetter : ℕ → ℕ → Type 0
SameLetter w c =
    (c ≡ w)
    ⊎ (c + 32 ≡ w)
    ⊎ ((w ≡ b'i') × ((c ≡ 0x130) ⊎ (c ≡ 0x131)))
    ⊎ ((w ≡ b's') × (c ≡ 0x17f))
    ⊎ ((w ≡ b'k') × (c ≡ 0x212a))

abbrev pub SameWord : List ℕ → List ℕ → Type 0
SameWord [] [] = Unit
SameWord (w ∷ ws) (c ∷ s) = SameLetter w c × SameWord ws s
SameWord _ _ = ⊥

-- The parts of a sentence, one behind the other, where `E` relates a word to how it is written.
abbrev pub Reads : (List ℕ → List ℕ → Type 0) → List Part → List ℕ → Type 0
Reads E [] u = u ≡ []
Reads E (text w ∷ ps) u = (v : List ℕ) × (r : List ℕ) × (u ≡ v ++ r) × E w v × Reads E ps r
Reads E (gap ∷ ps) u = (v : List ℕ) × (r : List ℕ) × (u ≡ v ++ r) × Blank v × Reads E ps r

-- The sentences that a pattern stands for.
unfoldable pub expand : Pattern → List (List Part)
expand (word w) = (text w ∷ []) ∷ []
expand spaces = (gap ∷ []) ∷ []
expand (optional p) = expand p ++ [] ∷ []
expand (either p q) = expand p ++ expand q
expand (then_ p q) = flat_map (λ x. map (λ y. x ++ y) (expand q)) (expand p)

module _ (E : List ℕ → List ℕ → Type 0) where
  Reads-append :
      (xs ys : List Part) (v r : List ℕ) → Reads E xs v → Reads E ys r → Reads E (xs ++ ys) (v ++ r)
  Reads-append [] ys v r e k = rw e k
  Reads-append (text w ∷ xs) ys v r (a, b, e, m, h) k =
      (a, b ++ r, ap (λ x. x ++ r) e ∙ append_assoc a b r, m, Reads-append xs ys b r h k)
  Reads-append (gap ∷ xs) ys v r (a, b, e, m, h) k =
      (a, b ++ r, ap (λ x. x ++ r) e ∙ append_assoc a b r, m, Reads-append xs ys b r h k)

  Reads-split :
      (xs ys : List Part) (u : List ℕ)
      → Reads E (xs ++ ys) u
      → (v : List ℕ) × (r : List ℕ) × (u ≡ v ++ r) × Reads E xs v × Reads E ys r
  Reads-split [] ys u k = ([], u, refl, refl, k)
  Reads-split (text w ∷ xs) ys u (a, b, e, m, h) =
      let (v, r, e', h', k) = Reads-split xs ys b h in
      (a ++ v, r, e ∙ ap (λ x. a ++ x) e' ∙ sym (append_assoc a v r), (a, v, refl, m, h'), k)
  Reads-split (gap ∷ xs) ys u (a, b, e, m, h) =
      let (v, r, e', h', k) = Reads-split xs ys b h in
      (a ++ v, r, e ∙ ap (λ x. a ++ x) e' ∙ sym (append_assoc a v r), (a, v, refl, m, h'), k)

pub Matches→Reads :
    (p : Pattern) (u : List ℕ) → Matches p u → (s : List Part) × In s (expand p) × Reads Equal s u
unfolding expand
Matches→Reads (word w) u m = (text w ∷ [], inl refl, (u, [], sym (append-nil u), m, refl))
Matches→Reads spaces u m = (gap ∷ [], inl refl, (u, [], sym (append-nil u), m, refl))
Matches→Reads (optional p) u (inl m) =
    let (s, i, h) = Matches→Reads p u m in (s, In-append_left s (expand p) ([] ∷ []) i, h)
Matches→Reads (optional p) u (inr e) = ([], In-append_right [] (expand p) ([] ∷ []) (inl refl), e)
Matches→Reads (either p q) u (inl m) =
    let (s, i, h) = Matches→Reads p u m in (s, In-append_left s (expand p) (expand q) i, h)
Matches→Reads (either p q) u (inr m) =
    let (s, i, h) = Matches→Reads q u m in (s, In-append_right s (expand p) (expand q) i, h)
Matches→Reads (then_ p q) u (v, w, e, m, n) =
    let (s, i, h) = Matches→Reads p v m in
    let (t, j, k) = Matches→Reads q w n in
    (
      s ++ t,
      flat_map-In (λ x. map (λ y. x ++ y) (expand q)) (s ++ t) s (expand p) i
          ((In-map_iff (λ y. s ++ y) (s ++ t) (expand q)).1 (t, j, refl)),
      rw e (Reads-append Equal s t v w h k),
    )

pub Reads→Matches :
    (p : Pattern) (s : List Part) (u : List ℕ) → In s (expand p) → Reads Equal s u → Matches p u
unfolding expand
Reads→Matches (word w) s u (inl e) h =
    let (v, r, e', m, left) : Reads Equal (text w ∷ []) u =
      subst (λ t. Reads Equal t u) (sym e) h in
    rw (e', left, append-nil v) m
Reads→Matches (word w) s u (inr none) h = absurd none
Reads→Matches spaces s u (inl e) h =
    let (v, r, e', m, left) : Reads Equal (gap ∷ []) u = subst (λ t. Reads Equal t u) (sym e) h in
    rw (e', left, append-nil v) m
Reads→Matches spaces s u (inr none) h = absurd none
Reads→Matches (optional p) s u i h = elim (In-append s (expand p) ([] ∷ []) i) [
  | inl j ↦ inl (Reads→Matches p s u j h)
  | inr (inl e) ↦ inr (subst (λ t. Reads Equal t u) (sym e) h)
  | inr (inr none) ↦ absurd none
]
Reads→Matches (either p q) s u i h = elim (In-append s (expand p) (expand q) i) [
  | inl j ↦ inl (Reads→Matches p s u j h)
  | inr j ↦ inr (Reads→Matches q s u j h)
]
Reads→Matches (then_ p q) s u i h =
    let (x, j, k) = In-flat_map (λ x. map (λ y. x ++ y) (expand q)) s (expand p) i in
    let (y, l, same) = (In-map_iff (λ y. x ++ y) s (expand q)).0 k in
    let joined : Reads Equal (x ++ y) u = subst (λ t. Reads Equal t u) (sym same) h in
    let (v, r, e, first, second) = Reads-split Equal x y u joined in
    (v, r, e, Reads→Matches p x v j first, Reads→Matches q y r l second)
