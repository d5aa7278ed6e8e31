-- ===== src/Research/Comparison.antt =====
-- src/genesis/research/engine/comparison.py: what `DocumentComparisonIntelligence.compare` finds in
-- several documents. The two dictionaries of its loop and its findings do not read each other, so each
-- has a loop of its own here.
pub mod Reports
mod Tests
use Prim.Native.Char.{code}
use Prim.Native.String
use genesis_ai.Prelude.{
  Bool, List, Option, String, [], any, assign, contains, filter, flat_map, if◌then◌else◌, keys,
  length, lookup, ltb, map, nat_beq, none, not, some, sort, sorted_set, str_leb, string_eq, ℕ, ◌&&◌,
  ◌++◌, ◌!=◌, ◌∷◌, ◌⧺◌, true,
}

pub data ComparisonFindingKind : Type 0 where
  duplicate conflict missing_field outdated_reference : ComparisonFindingKind

pub record ComparableDocument : Type 0 where
  pub source_id : String
  pub source_version : String
  pub content_hash : String
  pub content : String

pub record ComparisonFinding : Type 0 where
  pub kind : ComparisonFindingKind
  pub source_ids : List String
  pub statement : String
  pub requires_human_decision : Bool

-- The methods of `str` that the code uses; `find_years` is `re.findall(r"\b(?:19|20)\d{2}\b", text)`
-- with each year read by `int`.
pub record TextMethods : Type 0 where
  pub casefold : String → String
  pub strip : String → String
  pub splitlines : String → List String
  pub find_years : String → List ℕ

-- `line.partition(":")`, none where there is no separator
abbrev pub partition : String → Option (String × String)
partition String.[] = none
partition (String.◌∷◌ c s) =
    let rest = partition s in if nat_beq (code c) 58 then some ("", s) else longer rest
  where
    longer : Option (String × String) → Option (String × String)
    longer none = none
    longer (some (key, value)) = some (String.◌∷◌ c "" ⧺ key, value)

abbrev pub or_empty {ℓ} : {A : Type ℓ} → Option (List A) → List A
or_empty none = []
or_empty (some values) = values

-- `d.get(key, [])`
abbrev pub get_list {ℓ} : {A : Type ℓ} → String → List (String × List A) → List A
get_list key d = or_empty (lookup key d)

-- `d.setdefault(key, []).append(value)`
abbrev pub push : String → String → List (String × List String) → List (String × List String)
push key value d = assign key (get_list key d ++ value ∷ []) d

abbrev pub finding : ComparisonFindingKind → List String → String → ComparisonFinding
finding kind source_ids statement = record {
  kind = kind;
  source_ids = source_ids;
  statement = statement;
  requires_human_decision = true;
}

-- `hashes`, after the documents
abbrev pub hashes_from :
    List (String × List String) → List ComparableDocument → List (String × List String)
hashes_from hashes [] = hashes
hashes_from hashes (document ∷ documents) =
    hashes_from (push document.content_hash document.source_id hashes) documents

-- The loop over `parsed.items()`, of one document.
abbrev pub add_values :
    String
    → List (String × List (String × List String))
    → List (String × String)
    → List (String × List (String × List String))
add_values source_id key_values [] = key_values
add_values source_id key_values ((key, value) ∷ parsed) =
    add_values source_id (assign key (push value source_id (get_list key key_values)) key_values)
      parsed

abbrev pub duplicate_finding : List String → ComparisonFinding
duplicate_finding source_ids =
    finding duplicate (sort str_leb source_ids) "Documents have identical immutable content hashes."

abbrev pub duplicate_of : String × List String → List ComparisonFinding
duplicate_of (hash, source_ids) =
    if ltb 1 (length source_ids) then duplicate_finding source_ids ∷ [] else []

abbrev pub duplicates : List (String × List String) → List ComparisonFinding
duplicates hashes = flat_map duplicate_of hashes

abbrev pub conflict_of : String × List (String × List String) → List ComparisonFinding
conflict_of (key, values) =
    if ltb 1 (length values)
    then finding conflict (sorted_set (flat_map (λ entry. entry.1) values))
        ("Documents contain conflicting values for field: " ⧺ key)
      ∷ []
    else []

abbrev pub conflicts : List (String × List (String × List String)) → List ComparisonFinding
conflicts key_values = flat_map conflict_of key_values

abbrev pub missing_finding : ComparableDocument → String → ComparisonFinding
missing_finding document required =
    finding missing_field (document.source_id ∷ []) ("Required field is missing: " ⧺ required)

abbrev pub outdated_finding : ComparableDocument → ComparisonFinding
outdated_finding document =
    finding outdated_reference (document.source_id ∷ [])
      "Document contains a reference older than the comparison year."

module _ (text : TextMethods) where
  -- `values` after one line
  abbrev pub add_line : List (String × String) → Option (String × String) → List (String × String)
  add_line values none = values
  add_line values (some (key, value)) =
      if (text.strip key != "") && (text.strip value != "")
      then assign (text.casefold (text.strip key)) (text.strip value) values
      else values

  abbrev pub add_lines : List (String × String) → List String → List (String × String)
  add_lines values [] = values
  add_lines values (line ∷ lines) = add_lines (add_line values (partition line)) lines

  -- `_key_values`
  abbrev pub parse : String → List (String × String)
  parse content = add_lines [] (text.splitlines content)

  abbrev pub missing_fields : List String → ComparableDocument → List ComparisonFinding
  missing_fields required_fields document = map (missing_finding document) (
      filter (λ required. not (contains (keys (parse document.content)) (text.casefold required)))
        required_fields)

  abbrev pub is_outdated : ℕ → ComparableDocument → Bool
  is_outdated current_year document =
      any (λ year. ltb year current_year) (text.find_years (text.casefold document.content))

  abbrev pub outdated : ℕ → ComparableDocument → List ComparisonFinding
  outdated current_year document =
      if is_outdated current_year document then outdated_finding document ∷ [] else []

  -- `key_values`, after the documents
  abbrev pub key_values_from :
      List (String × List (String × List String))
      → List ComparableDocument
      → List (String × List (String × List String))
  key_values_from key_values [] = key_values
  key_values_from key_values (document ∷ documents) =
      key_values_from (add_values document.source_id key_values (parse document.content)) documents

  -- Lines 53 to 70.
  abbrev pub document_findings : List String → ℕ → ComparableDocument → List ComparisonFinding
  document_findings required_fields current_year document =
      missing_fields required_fields document ++ outdated current_year document

  unfoldable pub compare :
      (documents : List ComparableDocument)
      → (required_fields : List String) → (current_year : ℕ) → List ComparisonFinding
  compare documents required_fields current_year =
      flat_map (document_findings required_fields current_year) documents
      ++ (duplicates (hashes_from [] documents) ++ conflicts (key_values_from [] documents))
