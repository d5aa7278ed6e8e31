-- ===== src/Runtime/Context/Budgeting.antt =====
-- src/genesis/runtime/context/budgeting.py: `ContextBudgetManager.select`.
--
-- `maximum_characters` is a natural number: a negative one is refused as zero is.
pub mod Selection
pub mod Bounds
use genesis_ai.Prelude.{
  ℕ, ◌+◌, ◌||◌, ◌&&◌, Bool, true, false, List, [], ◌∷◌, ◌++◌, String, Result, ok, err, ltb, leb,
  nat_beq, if◌then◌else◌, filter, sum_by, map, sort, str_leb, assign, string_eq,
}
use genesis_ai.Contracts.{Json, int, Fields, end, field}
use genesis_ai.Runtime.Context.Models.{
  ContextFailure, ContextSegment, ContextSelection, priority_value, size_characters, required,
}

-- The order of the keys `(int(item.priority), item.segment_id)`.
abbrev pub key_leb : ContextSegment → ContextSegment → Bool
key_leb a b =
    ltb (priority_value a.priority) (priority_value b.priority)
    || (nat_beq (priority_value a.priority) (priority_value b.priority)
        && str_leb a.segment_id b.segment_id)

-- The variables of the loop.
pub record State : Type 0 where
  pub selected : List ContextSegment
  pub dropped : List ContextSegment
  pub reasons : List (String × String)
  pub used : ℕ

abbrev pub start : State
start = record { selected = []; dropped = []; reasons = []; used = 0 }

abbrev pub fits : ℕ → State → ContextSegment → Bool
fits maximum s item = required item || leb (s.used + size_characters item) maximum

-- The body of the loop.
pub consider : ℕ → State → ContextSegment → State
consider maximum s item =
    if fits maximum s item
    then record {
      selected = s.selected ++ item ∷ [];
      dropped = s.dropped;
      reasons = assign item.segment_id "SELECTED_BY_PRIORITY" s.reasons;
      used = s.used + size_characters item;
    }
    else record {
      selected = s.selected;
      dropped = s.dropped ++ item ∷ [];
      reasons = assign item.segment_id "DROPPED_CONTEXT_BUDGET" s.reasons;
      used = s.used;
    }

pub consider_all : ℕ → State → List ContextSegment → State
consider_all maximum s [] = s
consider_all maximum s (item ∷ rest) = consider_all maximum (consider maximum s item) rest

abbrev pub segment_ids : List ContextSegment → List String
segment_ids items = map (λ item. item.segment_id) items

abbrev pub required_size : List ContextSegment → ℕ
required_size items = sum_by size_characters (filter required items)

abbrev pub selection : ℕ → State → ContextSelection
selection maximum s = record {
  selected = s.selected;
  dropped = s.dropped;
  metadata = record {
    maximum_characters = maximum;
    selected_characters = s.used;
    selected_segment_ids = segment_ids s.selected;
    dropped_segment_ids = segment_ids s.dropped;
    reason_by_segment = s.reasons;
  };
}

unfoldable pub select :
    List ContextSegment
    → (maximum_characters : ℕ) (correlation_id : String) → Result ContextFailure ContextSelection
unfolding consider_all consider
select segments maximum_characters correlation_id =
    let ordered = sort key_leb segments in
    if ltb maximum_characters 1
    then err (record {
      code = "CONTEXT_BUDGET_INVALID";
      message = "Context character budget must be positive.";
      correlation_id = correlation_id;
      details = end;
    })
    else if ltb maximum_characters (required_size ordered)
    then err (record {
      code = "CONTEXT_BUDGET_REQUIRED_OVERFLOW";
      message = "Required authority, goal, business context, and evidence exceed the budget.";
      correlation_id = correlation_id;
      details =
          field "required_characters" (int (required_size ordered))
            (field "maximum_characters" (int maximum_characters) end);
    })
    else ok (selection maximum_characters (consider_all maximum_characters start ordered))
