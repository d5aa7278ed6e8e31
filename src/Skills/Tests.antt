-- ===== src/Skills/Tests.antt =====
-- A run of the selector, and each theorem about it at a concrete input.
use genesis_ai.Prelude.{
  All, List, [], false, length, map, nat_eq, none, ok, refl, some, string_eq, true, ◌↔◌, ◌∷◌, ◌≡◌,
  ◌≤◌,
}
use genesis_ai.Contracts.{null, str, end, field}
use genesis_ai.Contracts.Catalog.{CanonicalContractCatalog, validate}
use genesis_ai.Platform.{Platform}
use genesis_ai.Runtime.Context.Models.{ExecutionContextView, AuthorityLevel, DataClassification}
use genesis_ai.Skills.Evaluator.{ResultRequest, evaluate_result, mapping, id}
use genesis_ai.Skills.Soundness.{IsSound, evaluate_result-IsSound_iff}
use genesis_ai.Skills.Authorization.{AgentGrants, from_backend}
use genesis_ai.Skills.Loading.{Load, load_selected, SkillRuntimeContext, prepare}
use genesis_ai.Skills.Confinement.{IsConfined, LoadedFrom, prepare_request, prepare-IsConfined}
use genesis_ai.Skills.{
  SkillDescriptor, reference, SkillSelectionStatus, SkillCandidateOutcome, SkillSelection,
}
use genesis_ai.Skills.Selection.{SelectRequest, find_tokens, matches, relevance, assess, select}
use genesis_ai.Skills.Eligibility.{IsEligible, select-IsEligible}

abbrev skill : SkillDescriptor
skill = record {
  specification = record {
    skill_id = "market.scan";
    skill_version = "1.0.0";
    name = "scan";
    description = "reads";
    purpose = "";
    when_to_use = [];
    input_schema_ref = "";
    output_schema_ref = "";
    procedure = [];
    required_tool_ids = "web.read" ∷ [];
    permission_refs = "read" ∷ [];
    scope_refs = [];
    evidence_requirements = [];
    restrictions = [];
    failure_modes = [];
    escalation = [];
    evaluation = [];
  };
  package_path = "skills/market";
}

abbrev stranger : SkillDescriptor
stranger = record skill { specification = record skill.specification { skill_id = "other.scan" } }

abbrev request : SelectRequest
request = record {
  authorized_refs = reference skill ∷ [];
  goal = "scan it";
  backend_allowed_tool_ids = "web.read" ∷ "web.write" ∷ [];
  backend_permission_refs = "read" ∷ [];
  backend_scope_refs = [];
  agent_allowed_tool_ids = some ("web.read" ∷ []);
  capability_context = [];
  maximum_selected = 1;
}

selects : (s : SkillSelection) × (select (λ t. t) (stranger ∷ skill ∷ []) request ≡ ok s)
unfolding select
selects = (_, refl)

abbrev statuses : List SkillCandidateOutcome → List SkillSelectionStatus
statuses os = map (λ o. o.status) os

one_selected : statuses selects.0.selected ≡ SkillSelectionStatus.selected ∷ []
unfolding selects assess relevance matches find_tokens
one_selected = refl

one_refused : statuses selects.0.unavailable ≡ SkillSelectionStatus.unauthorized ∷ []
unfolding selects assess relevance matches find_tokens
one_refused = refl

select-IsEligible_example :
    (length selects.0.selected ≤ 1) × All (IsEligible (λ t. t) request) selects.0.selected
select-IsEligible_example =
    select-IsEligible (λ t. t) (stranger ∷ skill ∷ []) request selects.0 selects.1

abbrev backend : ExecutionContextView
backend = record {
  tenant_id = "tenant";
  organization_id = "org";
  workspace_id = "workspace";
  actor_id = "actor";
  authority_context = record {
    role = "lead";
    role_refs = [];
    authority_level = AuthorityLevel.operator;
  };
  permission_refs = "read" ∷ "write" ∷ [];
  allowed_tool_ids = "web.read" ∷ "web.write" ∷ [];
  scope_refs = [];
  data_classification = DataClassification.internal;
  correlation_id = "run-1";
  execution_budget = record {
    max_tokens = some 1;
    max_cost = none;
    max_steps = none;
    max_tool_calls = none;
    max_children = none;
    max_depth = none;
    timeout_seconds = none;
    concurrency_limit = none;
  };
}

abbrev grants : AgentGrants
grants = record {
  authorized_skill_refs = reference skill ∷ reference skill ∷ [];
  agent_skill_refs = reference skill ∷ [];
  agent_permission_refs = "read" ∷ [];
  agent_scope_refs = [];
  agent_allowed_tool_ids = "web.read" ∷ [];
}

abbrev load : Load
load descriptor = ok (record {
  specification = descriptor.specification;
  instructions = "read";
  package_path = descriptor.package_path;
  data_files = [];
})

prepares :
    (c : SkillRuntimeContext) × (prepare
        (λ t. t)
        load
        4
        (ok (stranger ∷ skill ∷ []))
        (prepare_request (λ t. t) backend grants "scan it" [] 1)
      ≡ ok c)
unfolding prepare load_selected select from_backend assess relevance matches find_tokens
prepares = (_, refl)

one_loaded : map (λ s. s.package_path) prepares.0.loaded_skills ≡ "skills/market" ∷ []
unfolding prepares
one_loaded = refl

prepare-IsConfined_example :
    LoadedFrom load prepares.0.selection.selected prepares.0.loaded_skills
    × (length prepares.0.selection.selected ≤ 4)
    × (length prepares.0.selection.selected ≤ 1)
    × All
        (λ o. (d : SkillDescriptor) × (o.descriptor ≡ some d) × IsConfined backend grants d)
        prepares.0.selection.selected
prepare-IsConfined_example =
    prepare-IsConfined (λ t. t) backend grants "scan it" [] 1 load 4 (ok (stranger ∷ skill ∷ []))
      prepares.0 prepares.1

abbrev platform : Platform
platform = record {
  dumps = λ value. "{}";
  sha256_hex = λ text. "0";
  utc_text = λ time. "";
  datetime_text = λ time. "";
  other_text = λ value. "";
}

abbrev contracts : CanonicalContractCatalog
contracts = record {
  documents = ("", null) ∷ [];
  iter_errors = λ schema payload. [];
  decimal = λ n. "0";
}

abbrev honest : ResultRequest
honest = record {
  output = end;
  evidence_refs = mapping (field "evidence_id" (str "e-1") end) ∷ id "e-2" ∷ [];
  supplied_evidence_ids = "e-1" ∷ "e-2" ∷ "e-3" ∷ [];
  used_tool_ids = "web.read" ∷ [];
  authorized_tool_ids = "web.read" ∷ [];
  limitations = [];
}

passes_honest : (evaluate_result platform contracts skill.specification honest).passed ≡ true
unfolding evaluate_result validate
passes_honest = refl

fails_invented :
    (evaluate_result platform contracts skill.specification
      (record honest { supplied_evidence_ids = "e-1" ∷ [] })).passed
    ≡ false
unfolding evaluate_result validate
fails_invented = refl

evaluate_result-IsSound_iff_example :
    ((evaluate_result platform contracts skill.specification honest).passed ≡ true)
    ↔ IsSound platform contracts skill.specification honest
evaluate_result-IsSound_iff_example =
    evaluate_result-IsSound_iff platform contracts skill.specification honest
