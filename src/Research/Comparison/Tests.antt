-- ===== src/Research/Comparison/Tests.antt =====
-- Runs of src/genesis/research/engine/comparison.py.
use genesis_ai.Prelude.{
  Perm, IsSorted, str_leb, true, List, String, [], refl, ◌≡◌, ◌∷◌, In, length, arith, ◌<◌,
}
use genesis_ai.Research.Comparison.{
  ComparisonFinding, ComparisonFindingKind, ComparableDocument, TextMethods, compare,
  missing_finding, duplicate_finding, outdated_finding, conflict, finding,
}
use genesis_ai.Research.Comparison.Reports.{compare-duplicate, sources_of}

abbrev text : TextMethods
text = record {
  casefold = λ s. s;
  strip = λ s. s;
  splitlines = λ s. s ∷ [];
  find_years = λ s. 2019 ∷ [];
}

abbrev document : String → String → String → ComparableDocument
document id hash content = record {
  source_id = id;
  source_version = "1";
  content_hash = hash;
  content = content;
}

abbrev documents : List ComparableDocument
documents = document "doc_b" "h" "fee:10" ∷ document "doc_a" "h" "fee:20" ∷ []

two_sources : 1 < length (sources_of "h" documents)
two_sources = omega arith

all_four_kinds :
    compare text documents ("fee" ∷ "owner" ∷ []) 2020
    ≡ missing_finding (document "doc_b" "h" "fee:10") "owner"
      ∷ outdated_finding (document "doc_b" "h" "fee:10")
      ∷ missing_finding (document "doc_a" "h" "fee:20") "owner"
      ∷ outdated_finding (document "doc_a" "h" "fee:20")
      ∷ duplicate_finding ("doc_a" ∷ "doc_b" ∷ [])
      ∷ finding conflict
          ("doc_a" ∷ "doc_b" ∷ [])
          "Documents contain conflicting values for field: fee"
      ∷ []
unfolding compare
all_four_kinds = refl

compare-duplicate_example :
    (f : ComparisonFinding) × In f (compare text documents ("fee" ∷ "owner" ∷ []) 2020)
    × (f.kind ≡ ComparisonFindingKind.duplicate)
    × Perm f.source_ids (sources_of "h" documents)
    × IsSorted str_leb f.source_ids
    × (f.requires_human_decision ≡ true)
compare-duplicate_example =
    compare-duplicate text documents ("fee" ∷ "owner" ∷ []) 2020 "h" two_sources
