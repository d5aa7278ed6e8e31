-- ===== src/Runtime/Context/Budgeting/Selection.antt =====
-- What the loop of `select` keeps of its input: every segment is selected or dropped, and only
-- segments that are not required are dropped.
use mathlib.Core.List.Perm
use mathlib.Core.Logic.Or
use mathlib.Core.HLevel.{⊥_prop}
use mathlib.Core.Bool.{false≢true}
use mathlib.Core.List.{Mem, Mem-prop, mem-append, mem-cons, not-mem-nil}
use mathlib.Core.List.{append_assoc, append-nil, perm_middle}
use genesis_ai.Prelude.{
  ℕ, ◌+◌, ◌≤◌, ◌<◌, ◌≡◌, false, List, [], ◌∷◌, ◌++◌, String, ok, arith, All, All-append, sum_by,
  sum_by-append, Perm, sort, sort-perm, Bool-cases, inl, inr, All-map, All-sort, true, sym, ◌∙◌, ap,
}
use genesis_ai.Runtime.Context.Models.{ContextSegment, ContextSelection, size_characters, required}
use genesis_ai.Runtime.Context.Budgeting.{
  State, start, consider, consider_all, selection, required_size, key_leb, select, fits,
}

-- The three outcomes of `select`, as facts about its input.
pub select-eq-ok :
    (segments : List ContextSegment) (maximum : ℕ) (correlation_id : String) (s : ContextSelection)
    → select segments maximum correlation_id ≡ ok s
    → (1 ≤ maximum)
      × (required_size (sort key_leb segments) ≤ maximum)
      × (s ≡ selection maximum (consider_all maximum start (sort key_leb segments)))
unfolding select
select-eq-ok segments maximum correlation_id s h = ground arith

module _ (maximum : ℕ) where
  consider-perm :
      (s : State) (item : ContextSegment) (rest : List ContextSegment)
      → Perm
          ((consider maximum s item).selected ++ ((consider maximum s item).dropped ++ rest))
          (s.selected ++ (s.dropped ++ item ∷ rest))
  unfolding consider
  consider-perm s item rest = elim (Bool-cases (fits maximum s item)) [
    | inl e ↦ rw e (
        rw (append_assoc s.selected (item ∷ []) (s.dropped ++ rest))
          (Perm.append_left s.selected (Perm.symm (perm_middle s.dropped rest))))
    | inr e ↦ rw e (rw (append_assoc s.dropped (item ∷ []) rest) (Perm.refl _))
  ]

  consider_all-perm :
      (s : State) (items : List ContextSegment)
      → Perm
          ((consider_all maximum s items).selected ++ (consider_all maximum s items).dropped)
          (s.selected ++ (s.dropped ++ items))
  unfolding consider_all
  consider_all-perm s [] = rw (append-nil s.dropped) (Perm.refl _)
  consider_all-perm s (item ∷ rest) =
      Perm.trans (consider_all-perm (consider maximum s item) rest) (consider-perm s item rest)

  consider-used :
      (s : State) (item : ContextSegment)
      → s.used ≡ sum_by size_characters s.selected
      → (consider maximum s item).used ≡ sum_by size_characters (consider maximum s item).selected
  unfolding consider
  consider-used s item h = ground (arith, sum_by-append size_characters s.selected (item ∷ []))

  pub consider_all-used :
      (s : State) (items : List ContextSegment)
      → s.used ≡ sum_by size_characters s.selected
      → (consider_all maximum s items).used
        ≡ sum_by size_characters (consider_all maximum s items).selected
  unfolding consider_all
  consider_all-used s [] h = h
  consider_all-used s (item ∷ rest) h =
      consider_all-used (consider maximum s item) rest (consider-used s item h)

  -- A segment that was dropped did not fit, and the budget only fills up.
  abbrev pub IsMaximal : State → Type 0
  IsMaximal s = All (λ d. (required d ≡ false) × (maximum < s.used + size_characters d)) s.dropped

  consider-IsMaximal :
      (s : State) (item : ContextSegment) → IsMaximal s → IsMaximal (consider maximum s item)
  unfolding consider
  consider-IsMaximal s item h = elim (Bool-cases (fits maximum s item)) [
    | inl e ↦ rw e (All-map s.dropped (λ d (optional, over). (optional, omega arith)) h)
    | inr e ↦ rw e (
        All-append (λ d. (required d ≡ false) × (maximum < s.used + size_characters d)) s.dropped
          (item ∷ []) h ((ground arith, ground arith), tt))
  ]

  consider_all-IsMaximal :
      (s : State) (items : List ContextSegment)
      → IsMaximal s
      → IsMaximal (consider_all maximum s items)
  unfolding consider_all
  consider_all-IsMaximal s [] h = h
  consider_all-IsMaximal s (item ∷ rest) h =
      consider_all-IsMaximal (consider maximum s item) rest (consider-IsMaximal s item h)

  module _ (P : ContextSegment → Type 0) where
    consider-All :
        (s : State) (item : ContextSegment)
        → All P s.selected
        → P item
        → All P (consider maximum s item).selected
    unfolding consider
    consider-All s item h p = elim (Bool-cases (fits maximum s item)) [
      | inl e ↦ rw e (All-append P s.selected (item ∷ []) h (p, tt))
      | inr e ↦ rw e h
    ]

    consider_all-All :
        (s : State) (items : List ContextSegment)
        → All P s.selected
        → All P items
        → All P (consider_all maximum s items).selected
    unfolding consider_all
    consider_all-All s [] h k = h
    consider_all-All s (item ∷ rest) h (p, k) =
        consider_all-All (consider maximum s item) rest (consider-All s item h p) k

module _ (segments : List ContextSegment) (maximum : ℕ) (correlation_id : String)
    (s : ContextSelection) where
  -- Every segment is either selected or dropped, none is lost, and none is added.
  pub select-perm :
      select segments maximum correlation_id ≡ ok s → Perm (s.selected ++ s.dropped) segments
  select-perm h =
      let (_, _, same) = select-eq-ok segments maximum correlation_id s h in
      rw same (
        Perm.trans (consider_all-perm maximum start (sort key_leb segments))
          (sort-perm key_leb segments))

  -- A dropped segment is never a required one, and it would take the selection over the budget: no
  -- dropped segment could still be added.
  pub select-IsMaximal :
      select segments maximum correlation_id ≡ ok s
      → All
          (λ d.
            (required d ≡ false) × (maximum < s.metadata.selected_characters + size_characters d))
          s.dropped
  select-IsMaximal h =
      let (_, _, same) = select-eq-ok segments maximum correlation_id s h in
      rw same (consider_all-IsMaximal maximum start (sort key_leb segments) tt)

  -- What holds of all segments holds of those that are selected.
  pub select-All :
      (P : ContextSegment → Type 0)
      → select segments maximum correlation_id ≡ ok s
      → All P segments
      → All P s.selected
  select-All P h k =
      let (_, _, same) = select-eq-ok segments maximum correlation_id s h in
      rw same (
        consider_all-All maximum P start (sort key_leb segments) tt (All-sort P key_leb segments k))

not_dropped :
    (item : ContextSegment) (dropped : List ContextSegment)
    → All (λ d. required d ≡ false) dropped
    → required item ≡ true
    → ¬ Mem item dropped
not_dropped item [] h r m = not-mem-nil m
not_dropped item (d ∷ dropped) (h, hs) r m =
    Or.elim ⊥_prop (mem-cons.0 m) (λ same. false≢true (sym h ∙ ap required (sym same) ∙ r))
      (not_dropped item dropped hs r)

-- Every required segment is selected.
pub select-mem_required :
    (segments : List ContextSegment) (maximum : ℕ) (correlation_id : String) (s : ContextSelection)
    (item : ContextSegment)
    → select segments maximum correlation_id ≡ ok s
    → Mem item segments
    → required item ≡ true
    → Mem item s.selected
select-mem_required segments maximum correlation_id s item h m r =
    let kept =
      All-map s.dropped (λ d k. k.0) (select-IsMaximal segments maximum correlation_id s h) in
    Or.elim Mem-prop
      (mem-append.0
        (Perm.subset (Perm.symm (select-perm segments maximum correlation_id s h)) item m))
      (λ in_selected. in_selected)
      (λ in_dropped. absurd (not_dropped item s.dropped kept r in_dropped))
