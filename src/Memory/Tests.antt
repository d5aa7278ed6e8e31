-- ===== src/Memory/Tests.antt =====
-- Runs of src/genesis/memory/ranking/service.py.
use genesis_ai.Prelude.{String, ok, err, refl, ◌≡◌}
use genesis_ai.Contracts.{Json, str, arr, obj, nil, cons, Fields, end, field}
use genesis_ai.Platform.{Platform}
use genesis_ai.Capabilities.Words.{includes}
use genesis_ai.Memory.{rank, score, terms, words_from, value_error, key_error}
use genesis_ai.Memory.Ranking.{IsRanked, rank-IsRanked}

abbrev dump : Json → String
dump (str s) = s
dump value = ""

abbrev platform : Platform
platform = record {
  dumps = dump;
  sha256_hex = λ text. text;
  utc_text = λ time. "";
  datetime_text = λ time. "";
  other_text = λ value. "None";
}

abbrev item : String → String → Json
item id text = obj (field "evidence_id" (str id) (field "value" (str text) end))

abbrev ref : String → Json
ref id = obj (field "evidence_id" (str id) end)

abbrev bundle : Fields
bundle = field "scope" (str "org") (
    field "items" (arr (cons (item "a" "old plan") (cons (item "b" "new fee") nil)))
      (field "evidence_refs" (arr (cons (ref "a") (cons (ref "b") (cons (str "c") nil)))) end))

abbrev ranked_bundle : Fields
ranked_bundle = field "scope" (str "org") (
    field "items" (arr (cons (item "b" "new fee") nil))
      (field "evidence_refs" (arr (cons (ref "b") nil)) end))

the_better_item : rank platform (λ t. t) bundle "fee!" 1 ≡ ok ranked_bundle
unfolding rank score terms words_from includes
the_better_item = refl

too_many_asked :
    rank platform (λ t. t) bundle "fee" 51 ≡ err (value_error "max_items must be between 1 and 50")
unfolding rank
too_many_asked = refl

no_evidence_id :
    rank platform (λ t. t) (field "items" (arr (cons (obj end) nil)) end) "fee" 1 ≡ err key_error
unfolding rank score terms words_from includes
no_evidence_id = refl

rank-IsRanked_example : IsRanked platform (λ t. t) bundle "fee!" 1 ranked_bundle
rank-IsRanked_example =
    rank-IsRanked platform (λ t. t) bundle "fee!" 1 ranked_bundle the_better_item
