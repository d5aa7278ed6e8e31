-- ===== src/Runtime/Context/Budgeting/Bounds.antt =====
-- The selection stays within the budget. This rests on the order: the required segments come first,
-- so the loop meets no required segment once it has begun to fill the rest of the budget.
use genesis_ai.Prelude.{
  ℕ, ◌+◌, ◌≤◌, ◌≡◌, IsTotalOrder, List, IsSorted, String, arith, false, All, ok,
  str_leb-IsTotalOrder, sum_by, true, ◌∷◌, ◌↔◌, [], Bool-cases, sort, Bool, inl, sort-IsSorted, inr,
  refl, sum_by-filter, ◌∙◌, sum_by-sort, if◌then◌else◌, sym,
}
use genesis_ai.Runtime.Context.Models.{ContextSegment, ContextSelection, size_characters, required}
use genesis_ai.Runtime.Context.Budgeting.{
  State, start, consider, consider_all, required_size, key_leb, select, selection,
}
use genesis_ai.Runtime.Context.Budgeting.Selection.{select-eq-ok, consider_all-used}

key_leb-IsTotalOrder : IsTotalOrder key_leb
key_leb-IsTotalOrder = record {
  total = λ a b h. ground (arith, str_leb-IsTotalOrder.total a.segment_id b.segment_id);
  trans = λ a b c h k.
      ground (arith, str_leb-IsTotalOrder.trans a.segment_id b.segment_id c.segment_id);
}

-- Behind a segment that is not required, none is.
required_size-eq-zero :
    (item : ContextSegment) (rest : List ContextSegment)
    → required item ≡ false
    → All (λ y. key_leb item y ≡ true) rest
    → required_size rest ≡ 0
required_size-eq-zero item [] e h = refl
required_size-eq-zero item (y ∷ rest) e (h, hs) =
    ground (arith, required_size-eq-zero item rest e hs)

required_size-sort :
    (le : ContextSegment → ContextSegment → Bool) (xs : List ContextSegment)
    → required_size (sort le xs) ≡ required_size xs
required_size-sort le xs =
    sum_by-filter size_characters required (sort le xs)
    ∙ sum_by-sort le (λ x. if required x then size_characters x else 0) xs
    ∙ sym (sum_by-filter size_characters required xs)

consider-le :
    (maximum : ℕ) (s : State) (item : ContextSegment) (rest : List ContextSegment)
    → All (λ y. key_leb item y ≡ true) rest
    → s.used + required_size (item ∷ rest) ≤ maximum
    → (consider maximum s item).used + required_size rest ≤ maximum
unfolding consider
consider-le maximum s item rest first h = elim (Bool-cases (required item)) [
  | inl e ↦ ground arith
  | inr e ↦ ground (arith, required_size-eq-zero item rest e first)
]

consider_all-le :
    (maximum : ℕ) (s : State) (items : List ContextSegment)
    → IsSorted key_leb items
    → s.used + required_size items ≤ maximum
    → (consider_all maximum s items).used ≤ maximum
unfolding consider_all
consider_all-le maximum s [] sorted h = omega arith
consider_all-le maximum s (item ∷ rest) (first, sorted) h =
    consider_all-le maximum (consider maximum s item) rest sorted
      (consider-le maximum s item rest first h)

-- The characters of the selection are counted exactly, and never exceed the budget.
pub select-le-maximum :
    (segments : List ContextSegment) (maximum : ℕ) (correlation_id : String) (s : ContextSelection)
    → select segments maximum correlation_id ≡ ok s
    → (s.metadata.selected_characters ≡ sum_by size_characters s.selected)
      × (sum_by size_characters s.selected ≤ maximum)
select-le-maximum segments maximum correlation_id s h =
    let (_, fits_required, same) = select-eq-ok segments maximum correlation_id s h in
    let ordered = sort key_leb segments in
    let counted = consider_all-used maximum start ordered refl in
    let bounded =
      consider_all-le maximum start ordered (sort-IsSorted key_leb key_leb-IsTotalOrder segments)
        (omega arith) in
    rw same (counted, omega arith)

-- A selection is made exactly when the budget is positive and the required segments fit into it.
pub select_iff :
    (segments : List ContextSegment) (maximum : ℕ) (correlation_id : String)
    → ((s : ContextSelection) × (select segments maximum correlation_id ≡ ok s))
      ↔ ((1 ≤ maximum) × (required_size segments ≤ maximum))
unfolding select
select_iff segments maximum correlation_id = (
  λ (s, h).
      let (positive, within, _) = select-eq-ok segments maximum correlation_id s h in
      (positive, omega (arith, required_size-sort key_leb segments)),
  λ (positive, within). (
    selection maximum (consider_all maximum start (sort key_leb segments)),
    ground (arith, required_size-sort key_leb segments),
  ),
)
