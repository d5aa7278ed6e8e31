-- ===== src/Agents.antt =====
-- src/genesis/agents/definitions/models.py. A validated definition is given; the
-- constraints of its fields are not restated.
use genesis_ai.Prelude.{List, String, nat_eq, string_eq}
use genesis_ai.Contracts.{Fields}

pub record AgentDefinition : Type 0 where
  pub agent_id : String
  pub agent_version : String
  pub name : String
  pub purpose : String
  pub capability_ids : List String
  pub skill_ids : List String
  pub allowed_tool_ids : List String
  pub permission_refs : List String
  pub scope_refs : List String
  pub model_policy_ref : String
  pub input_schema : Fields
  pub output_schema : Fields

pub record AgentBlueprint : Type 0 where
  pub blueprint_id : String
  pub name : String
  pub purpose_template : String
  pub capability_ids : List String
  pub default_skill_ids : List String

pub data DraftStatus : Type 0 where
  draft submitted_for_review : DraftStatus

-- A definition that a run has proposed.
pub record AgentDraft : Type 0 where
  pub draft_id : String
  pub definition : AgentDefinition
  pub created_by_run_id : String
  pub status : DraftStatus
