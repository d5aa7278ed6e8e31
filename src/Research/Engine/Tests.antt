-- ===== src/Research/Engine/Tests.antt =====
-- A run of the engine, and each theorem about it. The world is the list of the requests that the model
-- has been sent.
use genesis_ai.Prelude.{
  All, List, String, [], err, false, if◌then◌else◌, nat_eq, none, ok, refl, some, string_eq, ◌==◌,
  ◌∷◌, ◌≡◌, ◌≤◌,
}
use genesis_ai.Contracts.{null, int, str, arr, obj, nil, cons, Fields, end, field, get_field}
use genesis_ai.Contracts.Catalog.{CanonicalContractCatalog, validate}
use genesis_ai.ModelGateway.{ModelRequest}
use genesis_ai.Research.Engine.Models.{FindingDraft, ResearchDraft, Libraries, Ports}
use genesis_ai.Research.Engine.Writing.{
  token_limit, references, finding_fields, recommendation_fields, result_fields,
}
use genesis_ai.Research.Engine.{
  request_for, open_request, ground_evidence, model_request, read_answer, write_result, context_of,
  finish, ask_model, research, output_invalid,
}
use genesis_ai.Research.Engine.Citations.{IsGrounded, research-IsGrounded}
use genesis_ai.Research.Engine.Tokens.{research-keeps}

abbrev contracts : CanonicalContractCatalog
contracts = record {
  documents =
      ("https://schemas.alos.dev/v1/research/research-request.schema.json", null)
      ∷ ("https://schemas.alos.dev/v1/context/context-bundle.schema.json", null)
      ∷ ("https://schemas.alos.dev/v1/research/research-result.schema.json", null)
      ∷ [];
  iter_errors = λ schema payload. [];
  decimal = λ n. "0";
}

abbrev finding : FindingDraft
finding = record {
  finding_id = "finding-1";
  finding_type = "RESEARCH";
  domain = none;
  title = none;
  statement = "The lease ends.";
  severity = none;
  confidence = 0;
  evidence_ids = "e-1" ∷ [];
  limitations = [];
}

abbrev draft : ResearchDraft
draft = record { findings = finding ∷ []; recommendations = []; limitations = [] }

abbrev invented : ResearchDraft
invented = record draft { findings = record finding { evidence_ids = "e-9" ∷ [] } ∷ [] }

-- A model that is asked for the text "invented" cites what it was not given.
abbrev libraries : Libraries
libraries = record {
  platform = record {
    dumps = λ value. "{}";
    sha256_hex = λ text. "0123456789abcdef0123456789abcdef";
    utc_text = λ time. "2026-01-01T00:00:00Z";
    datetime_text = λ time. "";
    other_text = λ value. "";
  };
  other_equal = λ a b. false;
  format_map = λ template values. ok template;
  read_draft = λ text. ok (if text == "invented" then invented else draft);
}

abbrev answering : String → Ports (List ModelRequest)
answering text = record {
  retrieve = none;
  complete = λ request sent. (
    ok (record {
      content = text;
      route_id = "route";
      provider_request_id = none;
      input_tokens = 1;
      output_tokens = 1;
      cost = none;
    }),
    request ∷ sent,
  );
  now = λ sent. (0, sent);
}

abbrev identity : Fields → Fields
identity rest = field "tenant_id" (str "tenant") (
    field "organization_id" (str "org") (
      field "workspace_id" (str "workspace")
        (field "actor_id" (str "actor") (field "correlation_id" (str "run-1") rest))))

abbrev payload : Fields
payload =
    field "execution_context"
      (obj (
        identity (
          field "data_classification" (str "INTERNAL")
            (field "execution_budget" (obj (field "max_tokens" (int 500) end)) end))))
      (field "context_bundle"
        (obj (
          identity (
            field "evidence_refs" (arr (cons (obj (field "evidence_id" (str "e-1") end)) nil))
              end)))
        (field "run_id" (str "run-1") (
          field "question" (str "When does the lease end?")
            (field "correlation_id" (str "run-1") (field "research_id" (str "research-1") end)))))

run : (out : Fields) × ((research libraries contracts (answering "draft") payload []).0 ≡ ok out)
unfolding research open_request context_of ground_evidence ask_model model_request request_for
    token_limit finish read_answer write_result finding_fields recommendation_fields references
    result_fields validate
run = (_, refl)

refuses_invented :
    (research libraries contracts (answering "invented") payload []).0
    ≡ err (output_invalid "Research draft cites unknown evidence: e-9")
unfolding research open_request context_of ground_evidence ask_model model_request request_for
    token_limit finish read_answer write_result finding_fields recommendation_fields references
    result_fields validate
refuses_invented = refl

needs_review : get_field "output_state" run.0 ≡ some (str "NEEDS_REVIEW")
unfolding run
needs_review = refl

research-IsGrounded_example : IsGrounded libraries contracts (answering "draft") payload [] run.0
research-IsGrounded_example =
    research-IsGrounded libraries contracts (answering "draft") payload [] run.0 run.1

-- Every request that has been sent is for at most 2000 tokens.
abbrev AreCapped : List ModelRequest → Type 0
AreCapped sent = All (λ r. r.requested_max_tokens ≤ 2000) sent

research-keeps_example : AreCapped (research libraries contracts (answering "draft") payload []).1
research-keeps_example =
    research-keeps libraries contracts (answering "draft") AreCapped payload
      (λ opened e request sent frugal capped. (frugal.capped, capped))
      (λ retrieve e query sent capped. absurd (cc)) (λ sent capped. capped) [] tt
