-- ===== src/Research/Documents/Tests.antt =====
-- Answers and a run of the analysis, and each theorem about them.
use genesis_ai.Prelude.{
  Result, String, [], err, if◌then◌else◌, leb, length, nat_eq, none, ok, refl, some, string_eq, suc,
  ℕ, ◌&&◌, ◌-◌, ◌↔◌, ◌∷◌, ◌≡◌, ◌⧺◌,
}
use genesis_ai.Capabilities.Words.{includes}
use genesis_ai.ModelGateway.{ModelRequest, ModelResponse}
use genesis_ai.Runtime.Context.Models.{DataClassification}
use genesis_ai.Research.Documents.{
  SourceStatus, DocumentAnalysisRequest, DocumentAnalysisDraft, Builtins, verify_content_digest,
  citations, validate_semantic_answer, source_lines, semantic_prompt, draft_of, analyze,
}
use genesis_ai.Research.Documents.Answers.{IsAnswer, validate_semantic_answer_iff, analyze-IsAnswer}

-- The digits 0 to 9, and a source of which each line is one.
abbrev builtins : Builtins
builtins = record {
  casefold = λ text. text;
  splitlines = λ text. text ∷ "second" ∷ [];
  decimal = λ n. "0";
  sha256_hex = λ text. "0";
  format_map = λ template values. ok template;
  digit = λ c. if leb 48 c && leb c 57 then some (c - 48) else none;
}

abbrev answer : String
answer =
    "jawaban ringkas [Sumber L1-L2] temuan dan kekurangan checklist perbaikan [Sumber L10-L2 batasan dan informasi yang belum tersedia sumber"

abbrev beyond : String
beyond = answer ⧺ "[Sumber L2-L12]"

finds : citations builtins beyond ≡ (1, 2) ∷ (2, 12) ∷ []
unfolding citations
finds = refl

rejects_beyond :
    validate_semantic_answer builtins beyond 2 ≡ err "citation is outside source bounds: L0-L0"
unfolding validate_semantic_answer citations includes
rejects_beyond = refl

validate_semantic_answer_iff_example :
    (validate_semantic_answer builtins answer 2 ≡ ok tt) ↔ IsAnswer builtins answer 2
validate_semantic_answer_iff_example = validate_semantic_answer_iff builtins 2 answer

abbrev request : DocumentAnalysisRequest
request = record {
  run_id = "run-1";
  correlation_id = "run-1";
  question = "What is missing?";
  source = record {
    source_id = "source-1";
    title = "Lease";
    version = "1";
    content_sha256 = "0";
    status = SourceStatus.active;
    data_classification = DataClassification.internal;
    content = "first";
  };
  policy_ref = "policy";
}

abbrev complete : ModelRequest → ℕ → Result String ModelResponse × ℕ
complete asked calls = (
  ok (record {
    content = answer;
    route_id = "route";
    provider_request_id = none;
    input_tokens = 1;
    output_tokens = 1;
    cost = none;
  }),
  suc calls,
)

analyzes : (d : DocumentAnalysisDraft) × ((analyze builtins complete request 0).0 ≡ ok d)
unfolding analyze semantic_prompt draft_of validate_semantic_answer citations includes
analyzes = (_, refl)

verifies : verify_content_digest builtins request.source ≡ ok request.source
unfolding verify_content_digest
verifies = refl

analyze-IsAnswer_example :
    IsAnswer builtins analyzes.0.answer (length (source_lines builtins complete "first"))
    × (analyzes.0.content_sha256 ≡ "0")
    × (analyzes.0.source_version ≡ "1")
analyze-IsAnswer_example = analyze-IsAnswer builtins complete request 0 analyzes.0 analyzes.1
