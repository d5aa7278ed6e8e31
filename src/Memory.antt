-- ===== src/Memory.antt =====
-- src/genesis/memory/ranking/service.py: `EvidenceAwareRanker.rank`. A copy of a value is the value.
pub mod Ranking
mod Tests
use Prim.Native.Char.{code}
use Prim.Native.String
use genesis_ai.Prelude.{
  Bool, List, Option, Result, String, [], contains, err, from_keys, if◌then◌else◌, leb, ltb,
  nat_beq, nat_eq, none, ok, raise_if, some, sort, string_eq, sum_by, take, ℕ, ◌&&◌, ◌==◌, ◌>>=◌,
  ◌>>◌, ◌||◌, ◌∷◌, ◌⧺◌, arith,
}
use genesis_ai.Capabilities.Words.{includes}
use genesis_ai.Contracts.{
  Json, null, str, arr, obj, Items, nil, cons, Fields, end, field, items, get_field,
}
use genesis_ai.Platform.{Platform, to_text}

-- `key_error` and `type_error` are Python's own.
pub data RankError : Type 0 where
  value_error : String → RankError
  key_error type_error : RankError

-- `[a-z0-9_]`
abbrev is_word : ℕ → Bool
is_word c = (leb 97 c && leb c 122) || (leb 48 c && leb c 57) || nat_beq c 95

abbrev flush : String → List String → List String
flush word rest = if word == "" then rest else word ∷ rest

unfoldable words_from : String → String → List String
words_from word String.[] = flush word []
words_from word (String.◌∷◌ c s) =
    let fresh = words_from "" s in
    let longer = words_from (word ⧺ String.◌∷◌ c "") s in
    if is_word (code c) then longer else flush word fresh

-- `payload[key] = value`: in place where the key is there, at the end where it is new
abbrev pub set_field : String → Json → Fields → Fields
set_field k v end = field k v end
set_field k v (field j w fs) =
    let rest = set_field k v fs in if j == k then field j v fs else field j w rest

-- The loop over the items, of which each is a mapping.
abbrev pub mappings : Items → Result RankError (List Fields)
mappings nil = ok []
mappings (cons (obj fields) rest) = mappings rest >>= λ found. ok (fields ∷ found)
mappings (cons value rest) = err (value_error "ContextBundle item must be an object")

abbrev pub item_list : Option Json → Result RankError Items
item_list (some (arr values)) = ok values
item_list value = err (value_error "ContextBundle items must be an array")

-- `context_bundle.get("evidence_refs", [])`, iterated: the parts of a text or of a mapping are texts.
abbrev pub ref_list : Option Json → Result RankError Items
ref_list none = ok nil
ref_list (some (arr values)) = ok values
ref_list (some (str s)) = ok nil
ref_list (some (obj fields)) = ok nil
ref_list (some value) = err type_error

abbrev pub or_null : Option Json → Json
or_null none = null
or_null (some value) = value

-- `isinstance(value, Mapping)`
abbrev pub mapping_of : Json → Option Fields
mapping_of (obj fields) = some fields
mapping_of value = none

module _ (platform : Platform) (casefold : String → String) where
  -- `set(re.findall(r"[a-z0-9_]+", query.casefold()))`
  unfoldable pub terms : String → List String
  unfolding words_from
  terms query = from_keys (words_from "" (casefold query))

  -- `sum(term in searchable for term in terms)`
  unfoldable pub score : (terms : List String) → Fields → ℕ
  score terms fields =
      let searchable = casefold (platform.dumps (or_null (get_field "value" fields))) in
      sum_by (λ term. if includes term searchable then 1 else 0) terms

  -- The order of the keys `(-score, index)`: the sort is stable.
  abbrev pub ranks_before : (terms : List String) → Fields → Fields → Bool
  ranks_before terms a b = leb (score terms b) (score terms a)

  -- `{str(item["evidence_id"]) for item in selected}`
  abbrev pub evidence_ids : List Fields → Result RankError (List String)
  evidence_ids [] = ok []
  evidence_ids (fields ∷ rest) =
      named (get_field "evidence_id" fields) >>= λ id. evidence_ids rest >>= λ ids. ok (id ∷ ids)
    where
      named : Option Json → Result RankError String
      named none = err key_error
      named (some value) = ok (to_text platform value)

  -- `str(ref.get("evidence_id")) in selected_evidence`
  abbrev pub is_cited : (selected_evidence : List String) → Fields → Bool
  is_cited selected_evidence ref =
      contains selected_evidence (to_text platform (or_null (get_field "evidence_id" ref)))

  abbrev pub keep_ref :
      (selected_evidence : List String) → Option Fields → List Fields → List Fields
  keep_ref selected_evidence none kept = kept
  keep_ref selected_evidence (some ref) kept =
      if is_cited selected_evidence ref then ref ∷ kept else kept

  -- `filtered_refs`
  abbrev pub filtered_refs : (selected_evidence : List String) → Items → List Fields
  filtered_refs selected_evidence nil = []
  filtered_refs selected_evidence (cons value rest) =
      keep_ref selected_evidence (mapping_of value) (filtered_refs selected_evidence rest)

  -- Lines 35 and 36.
  abbrev pub selection : (query : String) → (max_items : ℕ) → List Fields → List Fields
  selection query max_items found = take max_items (sort (ranks_before (terms query)) found)

  unfoldable pub rank :
      (context_bundle : Fields) → (query : String) → (max_items : ℕ) → Result RankError Fields
  rank context_bundle query max_items = do
    raise_if (ltb max_items 1 || ltb 50 max_items)
        (value_error "max_items must be between 1 and 50")
    values ← item_list (get_field "items" context_bundle)
    found ← mappings values
    ids ← evidence_ids (selection query max_items found)
    refs ← ref_list (get_field "evidence_refs" context_bundle)
    ok (
        set_field "evidence_refs" (arr (items obj (filtered_refs ids refs)))
          (set_field "items" (arr (items obj (selection query max_items found))) context_bundle))
