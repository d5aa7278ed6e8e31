-- ===== src/ControlPlane.antt =====
-- src/genesis/control_plane: the assessment of drafts (service.py) and the factory that drafts
-- capabilities and agents.
pub mod Factory
mod Tests
use genesis_ai.Prelude.{
  Bool, List, String, [], false, if◌then◌else◌, is_empty, nat_eq, not, string_eq, true, ◌++◌, ◌+◌,
  ◌∷◌, arith,
}
use genesis_ai.Agents.{AgentDraft, DraftStatus}

pub record WorkforceAssessment : Type 0 where
  pub draft_id : String
  pub ready_for_backend_review : Bool
  pub findings : List String

abbrev is_submitted : DraftStatus → Bool
is_submitted DraftStatus.submitted_for_review = true
is_submitted DraftStatus.draft = false

unfoldable pub assess_agent_draft : AgentDraft → WorkforceAssessment
assess_agent_draft draft =
    let findings =
      (if is_empty draft.definition.scope_refs
        then "Agent definition requires at least one scope" ∷ []
        else [])
      ++ (if not (is_submitted draft.status)
          then "Agent draft has not been submitted for review" ∷ []
          else []) in
    record {
      draft_id = draft.draft_id;
      ready_for_backend_review = is_empty findings;
      findings = findings;
    }
