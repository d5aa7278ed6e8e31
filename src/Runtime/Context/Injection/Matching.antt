-- ===== src/Runtime/Context/Injection/Matching.antt =====
-- The matcher decides the meaning of its patterns, stated as a relation.
use mathlib.Core.List.{append_assoc}
use genesis_ai.Prelude.{
  ℕ, ◌≡◌, refl, List, [], ◌∷◌, ◌++◌, is_empty, some, In, true, ◌⊎◌, inl, false, arith, Option-cases,
  Bool-cases, ◌↔◌, In-of_is_empty-false, is_empty-false_of_In, inr, In-append_left, In-append_right,
  In-append, In-flat_map, flat_map-In,
}
use genesis_ai.Runtime.Context.Injection.{
  Pattern, word, spaces, optional, either, then_, ignore_case, is_space, strip_word, strip_spaces,
  match, search_text,
}

abbrev pub Equal : List ℕ → List ℕ → Type 0
Equal [] [] = Unit
Equal (w ∷ ws) (c ∷ s) = (ignore_case c ≡ w) × Equal ws s
Equal _ _ = ⊥

abbrev pub Blank : List ℕ → Type 0
Blank [] = ⊥
Blank (c ∷ s) = (is_space c ≡ true) × ((s ≡ []) ⊎ Blank s)

-- The pattern matches the whole of the text.
abbrev pub Matches : Pattern → List ℕ → Type 0
Matches (word w) u = Equal w u
Matches spaces u = Blank u
Matches (optional p) u = Matches p u ⊎ (u ≡ [])
Matches (either p q) u = Matches p u ⊎ Matches q u
Matches (then_ p q) u = (v : List ℕ) × (w : List ℕ) × (u ≡ v ++ w) × Matches p v × Matches q w

strip_word_sound :
    (w s r : List ℕ) → strip_word w s ≡ some r → (u : List ℕ) × (s ≡ u ++ r) × Equal w u
unfolding strip_word
strip_word_sound [] s r h = ([], ground arith, tt)
strip_word_sound (w ∷ ws) [] r h = absurd (cc)
strip_word_sound (w ∷ ws) (c ∷ s) r h =
    let (u, e, m) = strip_word_sound ws s r (ground arith) in (c ∷ u, rw (← e), (ground arith, m))

strip_word_complete : (w u r : List ℕ) → Equal w u → strip_word w (u ++ r) ≡ some r
unfolding strip_word
strip_word_complete [] [] r h = refl
strip_word_complete [] (c ∷ u) r h = absurd h
strip_word_complete (w ∷ ws) [] r h = absurd h
strip_word_complete (w ∷ ws) (c ∷ u) r (e, h) = ground (arith, strip_word_complete ws u r h)

strip_spaces_sound : (s r : List ℕ) → In r (strip_spaces s) → (u : List ℕ) × (s ≡ u ++ r) × Blank u
unfolding strip_spaces
strip_spaces_sound [] r h = absurd h
strip_spaces_sound (c ∷ s) r h = elim (Bool-cases (is_space c)) [
  | inl e ↦ elim (rw e at h) [
    | inl same ↦ (c ∷ [], rw same, (e, inl refl))
    | inr k ↦ let (u, e', m) = strip_spaces_sound s r k in (c ∷ u, rw (← e'), (e, inr m))
  ]
  | inr e ↦ absurd (rw e at h)
]

strip_spaces_complete : (u r : List ℕ) → Blank u → In r (strip_spaces (u ++ r))
unfolding strip_spaces
strip_spaces_complete [] r h = absurd h
strip_spaces_complete (c ∷ []) r (e, h) = rw e (inl refl)
strip_spaces_complete (c ∷ d ∷ u) r (e, inl none_left) = absurd (cc)
strip_spaces_complete (c ∷ d ∷ u) r (e, inr h) = rw e (inr (strip_spaces_complete (d ∷ u) r h))

match_sound :
    (p : Pattern) (s r : List ℕ) → In r (match p s) → (u : List ℕ) × (s ≡ u ++ r) × Matches p u
unfolding match
match_sound (word w) s r h = elim (Option-cases (strip_word w s)) [
  | inl e ↦ absurd (rw e at h)
  | inr (t, e) ↦
      strip_word_sound w s r (elim (rw e at h) [ inl same ↦ cc | inr none_left ↦ absurd none_left ])
]
match_sound spaces s r h = strip_spaces_sound s r h
match_sound (optional p) s r h = elim (In-append r (match p s) (s ∷ []) h) [
  | inl k ↦ let (u, e, m) = match_sound p s r k in (u, e, inl m)
  | inr (inl e) ↦ ([], e, inr refl)
  | inr (inr k) ↦ absurd k
]
match_sound (either p q) s r h = elim (In-append r (match p s) (match q s) h) [
  | inl k ↦ let (u, e, m) = match_sound p s r k in (u, e, inl m)
  | inr k ↦ let (u, e, m) = match_sound q s r k in (u, e, inr m)
]
match_sound (then_ p q) s r h =
    let (t, first, second) = In-flat_map (match q) r (match p s) h in
    let (u, e, m) = match_sound p s t first in
    let (v, e', n) = match_sound q t r second in
    (u ++ v, cc (append_assoc u v r), (u, v, refl, m, n))

match_complete : (p : Pattern) (u r : List ℕ) → Matches p u → In r (match p (u ++ r))
unfolding match
match_complete (word w) u r h = rw (strip_word_complete w u r h) (inl refl)
match_complete spaces u r h = strip_spaces_complete u r h
match_complete (optional p) u r (inl h) =
    In-append_left r (match p (u ++ r)) ((u ++ r) ∷ []) (match_complete p u r h)
match_complete (optional p) u r (inr e) =
    In-append_right r (match p (u ++ r)) ((u ++ r) ∷ []) (inl (rw e refl))
match_complete (either p q) u r (inl h) =
    In-append_left r (match p (u ++ r)) (match q (u ++ r)) (match_complete p u r h)
match_complete (either p q) u r (inr h) =
    In-append_right r (match p (u ++ r)) (match q (u ++ r)) (match_complete q u r h)
match_complete (then_ p q) u r (v, w, e, h, k) =
    flat_map-In (match q) r (w ++ r) (match p (u ++ r))
      (rw (e, append_assoc v w r) (match_complete p v (w ++ r) h)) (match_complete q w r k)

-- The pattern matches somewhere in the text.
abbrev pub Occurs : Pattern → List ℕ → Type 0
Occurs p s =
    (before : List ℕ) × (found : List ℕ) × (after : List ℕ) × (s ≡ before ++ (found ++ after))
    × Matches p found

here : (p : Pattern) (s : List ℕ) → is_empty (match p s) ≡ false → Occurs p s
here p s h =
    let (r, m) = In-of_is_empty-false (match p s) h in
    let (u, e, k) = match_sound p s r m in ([], u, r, e, k)

search_sound : (p : Pattern) (s : List ℕ) → search_text p s ≡ true → Occurs p s
unfolding search_text
search_sound p [] h = here p [] (ground arith)
search_sound p (c ∷ s) h = elim (Bool-cases (is_empty (match p (c ∷ s)))) [
  | inl e ↦ let (u, v, w, at_, m) = search_sound p s (ground arith) in (c ∷ u, v, w, rw (← at_), m)
  | inr e ↦ here p (c ∷ s) e
]

found_here : (p : Pattern) (v w : List ℕ) → Matches p v → is_empty (match p (v ++ w)) ≡ false
found_here p v w m = is_empty-false_of_In w (match p (v ++ w)) (match_complete p v w m)

search_start : (p : Pattern) (s : List ℕ) → is_empty (match p s) ≡ false → search_text p s ≡ true
unfolding search_text
search_start p [] h = rw h
search_start p (c ∷ s) h = rw h

search_complete :
    (p : Pattern) (u v w : List ℕ) → Matches p v → search_text p (u ++ (v ++ w)) ≡ true
unfolding search_text
search_complete p [] v w m = search_start p (v ++ w) (found_here p v w m)
search_complete p (c ∷ u) v w m = ground (arith, search_complete p u v w m)

-- The search finds a pattern exactly when the text holds a piece, wherever it stands, that the
-- pattern matches.
pub search_text_iff : (p : Pattern) (s : List ℕ) → (search_text p s ≡ true) ↔ Occurs p s
search_text_iff p s = (search_sound p s, λ (u, v, w, e, m). rw e (search_complete p u v w m))
