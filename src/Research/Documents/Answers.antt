-- ===== src/Research/Documents/Answers.antt =====
-- Which answers src/genesis/research/engine/document_intelligence.py accepts, and what a draft of it
-- has.
use genesis_ai.Prelude.{
  >>-eq-ok, >>=-eq-ok, All, All-map, All→for_each, Bool, List, Result, String, [], err, false,
  filter, for_each→All, is_empty, join, length, map_err, map_err-eq-ok, nat_eq, not, ok, raise_if,
  raise_if-eq-ok, refl, string_eq, true, ℕ, ◌↔◌, ◌∷◌, ◌≡◌, ◌≤◌, ◌⧺◌, arith,
}
use genesis_ai.Capabilities.Words.{includes}
use genesis_ai.ModelGateway.{ModelRequest, ModelResponse}
use genesis_ai.Research.Documents.{value_error, gateway_error}
use genesis_ai.Research.Documents.{
  DocumentAnalysisRequest, DocumentAnalysisDraft, Builtins, required_headings, citations,
  check_citation, missing_headings, validate_semantic_answer, source_lines, semantic_prompt,
  document_request, draft_of, sent, analyze,
}

-- The lines of a citation, the first and the last, lie within a source.
abbrev pub IsInside : (source_line_count : ℕ) → ℕ × ℕ → Type 0
IsInside source_line_count (start, stop) = (1 ≤ start) × (start ≤ stop) × (stop ≤ source_line_count)

-- An answer with every heading, and with citations that all lie within the source.
pub record IsAnswer (builtins : Builtins) (answer : String) (source_line_count : ℕ) : Type 0 where
  pub headings :
      All (λ heading. includes heading (builtins.casefold answer) ≡ true) required_headings
  pub cited : is_empty (citations builtins answer) ≡ false
  pub inside : All (IsInside source_line_count) (citations builtins answer)

none_left→All {ℓ} :
    {A : Type ℓ} (p : A → Bool) (xs : List A)
    → is_empty (filter (λ x. not (p x)) xs) ≡ true
    → All (λ x. p x ≡ true) xs
none_left→All p [] h = tt
none_left→All p (x ∷ xs) h = (ground arith, none_left→All p xs (ground arith))

All→none_left {ℓ} :
    {A : Type ℓ} (p : A → Bool) (xs : List A)
    → All (λ x. p x ≡ true) xs
    → is_empty (filter (λ x. not (p x)) xs) ≡ true
All→none_left p [] h = refl
All→none_left p (x ∷ xs) (h, hs) = ground (arith, All→none_left p xs hs)

module _ (builtins : Builtins) (source_line_count : ℕ) where
  check_citation→IsInside :
      (c : ℕ × ℕ)
      → check_citation builtins source_line_count c ≡ ok tt
      → IsInside source_line_count c
  check_citation→IsInside (start, stop) h = (ground arith, ground arith, ground arith)

  IsInside→check_citation :
      (c : ℕ × ℕ)
      → IsInside source_line_count c
      → check_citation builtins source_line_count c ≡ ok tt
  IsInside→check_citation (start, stop) (first, ordered, last) = ground arith

  validate_semantic_answer→IsAnswer :
      (answer : String)
      → validate_semantic_answer builtins answer source_line_count ≡ ok tt
      → IsAnswer builtins answer source_line_count
  unfolding validate_semantic_answer
  validate_semantic_answer→IsAnswer answer h =
      let (complete, h1) =
        >>-eq-ok
          (raise_if (not (is_empty (missing_headings builtins answer)))
            ("missing required headings: " ⧺ join ", " (missing_headings builtins answer)))
          _ h in
      let (there, h2) =
        >>-eq-ok
          (raise_if (is_empty (citations builtins answer))
            "at least one source-line citation is required")
          _ h1 in
      record {
        headings =
            none_left→All (λ heading. includes heading (builtins.casefold answer)) required_headings
              (ground arith);
        cited = raise_if-eq-ok _ _ there;
        inside = All-map (citations builtins answer) check_citation→IsInside (
            for_each→All (check_citation builtins source_line_count) (citations builtins answer)
              h2);
      }

  IsAnswer→validate_semantic_answer :
      (answer : String)
      → IsAnswer builtins answer source_line_count
      → validate_semantic_answer builtins answer source_line_count ≡ ok tt
  unfolding validate_semantic_answer
  IsAnswer→validate_semantic_answer answer a =
      let complete : is_empty (missing_headings builtins answer) ≡ true =
        All→none_left (λ heading. includes heading (builtins.casefold answer)) required_headings
          a.headings in
      rw (complete, a.cited)
        (All→for_each (check_citation builtins source_line_count) (citations builtins answer)
          (All-map (citations builtins answer) IsInside→check_citation a.inside))

  -- An answer is accepted exactly when it has every required heading and at least one citation, and
  -- every citation of it names a first line from one on and a last line that is not before it and
  -- not behind the end of the source.
  pub validate_semantic_answer_iff :
      (answer : String)
      → (validate_semantic_answer builtins answer source_line_count ≡ ok tt)
        ↔ IsAnswer builtins answer source_line_count
  validate_semantic_answer_iff answer =
      (validate_semantic_answer→IsAnswer answer, IsAnswer→validate_semantic_answer answer)

module _ {World E : Type 0} (builtins : Builtins)
    (complete : ModelRequest → World → Result E ModelResponse × World) where
  draft_of-IsAnswer :
      (request : DocumentAnalysisRequest) (response : ModelResponse) (d : DocumentAnalysisDraft)
      → draft_of builtins complete request response ≡ ok d
      → IsAnswer builtins d.answer (length (source_lines builtins complete request.source.content))
        × (d.content_sha256 ≡ request.source.content_sha256)
        × (d.source_version ≡ request.source.version)
  unfolding draft_of
  draft_of-IsAnswer request response d h =
      let (accepted, made) =
        >>-eq-ok
          (map_err (λ text. value_error text)
            (validate_semantic_answer builtins response.content
              (length (source_lines builtins complete request.source.content))))
          _ h in
      let same : d.answer ≡ response.content = cc in
      (
        rw same (
            (validate_semantic_answer_iff builtins
                (length (source_lines builtins complete request.source.content)) response.content).0
              (map_err-eq-ok _ _ accepted)),
        cc,
        cc,
      )

  sent-IsAnswer :
      (request : DocumentAnalysisRequest) (prompt : Result String String) (w : World)
      (d : DocumentAnalysisDraft)
      → (sent builtins complete request prompt w).0 ≡ ok d
      → IsAnswer builtins d.answer (length (source_lines builtins complete request.source.content))
        × (d.content_sha256 ≡ request.source.content_sha256)
        × (d.source_version ≡ request.source.version)
  sent-IsAnswer request (err raised) w d h = absurd (cc)
  sent-IsAnswer request (ok prompt) w d h =
      let (response, e, k) =
        >>=-eq-ok
          (map_err (λ raised. gateway_error raised)
            (complete (document_request builtins complete request prompt) w).0)
          _ h in
      draft_of-IsAnswer request response d k

  -- A draft of an analysis carries the digest and the version of its source, and an answer with every
  -- required heading and with citations that all lie within the lines of the source, whatever the
  -- model answers.
  pub analyze-IsAnswer :
      (request : DocumentAnalysisRequest) (w : World) (d : DocumentAnalysisDraft)
      → (analyze builtins complete request w).0 ≡ ok d
      → IsAnswer builtins d.answer (length (source_lines builtins complete request.source.content))
        × (d.content_sha256 ≡ request.source.content_sha256)
        × (d.source_version ≡ request.source.version)
  unfolding analyze
  analyze-IsAnswer request w d h =
      sent-IsAnswer request (semantic_prompt builtins complete request) w d h
