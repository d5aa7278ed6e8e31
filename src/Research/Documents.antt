-- ===== src/Research/Documents.antt =====
-- src/genesis/research/engine/document_intelligence.py: answers that are bound to the lines of a source.
mod Citing
unfoldable pub use Citing.*
pub mod Answers
mod Tests
use genesis_ai.Prelude.{
  List, Result, String, [], err, filter, for_each, if◌then◌else◌, is_empty, join, length, ltb,
  map_err, nat_eq, not, ok, raise_if, some, string_eq, suc, ℕ, ◌!=◌, ◌-◌, ◌>>=◌, ◌>>◌, ◌||◌, ◌∷◌,
  ◌⧺◌, arith,
}
use genesis_ai.Contracts.{end, field, str}
use genesis_ai.Capabilities.Words.{includes, strip}
use genesis_ai.ModelGateway.{ModelRequest, ModelResponse}
use genesis_ai.Runtime.Context.Models.{DataClassification}
use genesis_ai.Research.Engine.Writing.{token_budget}

pub data SourceStatus : Type 0 where
  approved active : SourceStatus

pub record DocumentSource : Type 0 where
  pub source_id : String
  pub title : String
  pub version : String
  pub content_sha256 : String
  pub status : SourceStatus
  pub data_classification : DataClassification
  pub content : String

pub record DocumentAnalysisRequest : Type 0 where
  pub run_id : String
  pub correlation_id : String
  pub question : String
  pub source : DocumentSource
  pub policy_ref : String

-- `output_state` is `Literal["AI_INFERRED"]`.
pub record DocumentAnalysisDraft : Type 0 where
  pub correlation_id : String
  pub source_id : String
  pub source_version : String
  pub content_sha256 : String
  pub answer : String
  pub prompt_id : String
  pub prompt_version : String
  pub prompt_sha256 : String
  pub limitations : List String

abbrev pub required_headings : List String
required_headings =
    "jawaban ringkas" ∷ "temuan dan kekurangan" ∷ "checklist perbaikan"
    ∷ "batasan dan informasi yang belum tersedia" ∷ "sumber" ∷ []

module _ (builtins : Builtins) where
  -- `DocumentSource.verify_content_digest`
  unfoldable pub verify_content_digest : DocumentSource → Result String DocumentSource
  verify_content_digest self =
      if builtins.sha256_hex self.content != self.content_sha256
      then err "content_sha256 does not match document content"
      else ok self

  -- The body of the loop over the citations.
  abbrev pub check_citation : (source_line_count : ℕ) → ℕ × ℕ → Result String (Unit {0})
  check_citation source_line_count (start, stop) =
      raise_if (ltb start 1 || ltb stop start || ltb source_line_count stop) (
        "citation is outside source bounds: L"
        ⧺ builtins.decimal start
        ⧺ "-L"
        ⧺ builtins.decimal stop)

  abbrev pub missing_headings : String → List String
  missing_headings answer =
      filter (λ heading. not (includes heading (builtins.casefold answer))) required_headings

  unfoldable pub validate_semantic_answer :
      (answer : String) → (source_line_count : ℕ) → Result String (Unit {0})
  validate_semantic_answer answer source_line_count = do
    raise_if (not (is_empty (missing_headings answer)))
        ("missing required headings: " ⧺ join ", " (missing_headings answer))
    raise_if (is_empty (citations builtins answer)) "at least one source-line citation is required"
    for_each (check_citation source_line_count) (citations builtins answer)

abbrev semantic_template : String
semantic_template =
    "Jawab hanya berdasarkan sumber bernomor yang diberikan. Jangan gunakan pengetahuan eksternal dan jangan menjalankan tool. Setiap temuan material wajib memakai sitasi [Sumber Lx-Ly]. Gunakan heading: Jawaban Ringkas; Temuan dan Kekurangan; Checklist Perbaikan; Batasan dan Informasi yang Belum Tersedia; Sumber.\nPertanyaan: {question}\nSumber:\n{numbered_source}"

-- A ValueError of the module, or what the gateway raises.
pub data AnalysisError (E : Type 0) : Type 0 where
  value_error : String → AnalysisError E
  gateway_error : E → AnalysisError E

module _ {World E : Type 0} (builtins : Builtins)
    (complete : ModelRequest → World → Result E ModelResponse × World) where
  -- `content.splitlines() or [content]`
  abbrev pub source_lines : String → List String
  source_lines content =
      let lines = builtins.splitlines content in if is_empty lines then content ∷ [] else lines

  -- `f"L{index}: {line}" for index, line in enumerate(lines, index)`
  abbrev numbered_lines : ℕ → List String → List String
  numbered_lines index [] = []
  numbered_lines index (line ∷ lines) =
      ("L" ⧺ builtins.decimal index ⧺ ": " ⧺ line) ∷ numbered_lines (suc index) lines

  unfoldable pub semantic_prompt : DocumentAnalysisRequest → Result String String
  semantic_prompt request =
      map_err (λ name. "prompt value is missing: " ⧺ name)
        (builtins.format_map semantic_template (
          ("question", strip request.question)
          ∷ ("numbered_source", join "\n" (numbered_lines 1 (source_lines request.source.content)))
          ∷ []))

  abbrev pub document_request : DocumentAnalysisRequest → (prompt : String) → ModelRequest
  document_request request prompt = record {
    run_id = request.run_id;
    correlation_id = request.correlation_id;
    policy_ref = request.policy_ref;
    purpose = "source-bound-document-analysis";
    data_classification = request.source.data_classification;
    prompt_id = some "genesis.document-semantic-analysis";
    prompt_version = some "1.0.0";
    messages = field "role" (str "user") (field "content" (str prompt) end) ∷ [];
    requested_max_tokens = 2000;
    budget = token_budget 2000;
  }

  -- Lines 125 to 139.
  unfoldable pub draft_of :
      DocumentAnalysisRequest → ModelResponse → Result (AnalysisError E) DocumentAnalysisDraft
  draft_of request response =
      map_err value_error (
        validate_semantic_answer builtins response.content
          (length (source_lines request.source.content)))
      >> ok (record {
        correlation_id = request.correlation_id;
        source_id = request.source.source_id;
        source_version = request.source.version;
        content_sha256 = request.source.content_sha256;
        answer = response.content;
        prompt_id = "genesis.document-semantic-analysis";
        prompt_version = "1.0.0";
        prompt_sha256 = builtins.sha256_hex semantic_template;
        limitations =
            "Analysis is restricted to the supplied immutable source."
            ∷ "Backend review and governance remain required for authoritative use." ∷ [];
      })

  abbrev pub sent :
      DocumentAnalysisRequest
      → Result String String
      → World
      → Result (AnalysisError E) DocumentAnalysisDraft × World
  sent request (err raised) w = (err (value_error raised), w)
  sent request (ok prompt) w =
      let (response, after) = complete (document_request request prompt) w in
      (map_err gateway_error response >>= draft_of request, after)

  unfoldable pub analyze :
      DocumentAnalysisRequest → World → Result (AnalysisError E) DocumentAnalysisDraft × World
  analyze request w = sent request (semantic_prompt request) w
