-- ===== src/Skills/Selection.antt =====
-- `SkillSelector.select` (src/genesis/skills/selection/service.py). `lower` is `str.lower`.
use genesis_ai.Prelude.{
  Bool, List, Option, Result, String, [], any, drop, err, false, filter, if◌then◌else◌,
  intersection, is_empty, join, leb, length, ltb, map, nat_beq, nat_eq, none, not, ok, some, sort,
  sorted_difference, sorted_intersection, sorted_set, str_leb, string_eq, take, true, ℕ, ◌&&◌, ◌++◌,
  ◌==◌, ◌||◌, ◌∷◌, ◌⧺◌,
}
use Prim.Native.Char.{code}
use genesis_ai.Skills.{
  SkillReference, SkillDescriptor, reference, SkillSelectionStatus, status_value,
  SkillCandidateOutcome, SkillSelection,
}

-- The keyword arguments of `select`.
pub record SelectRequest : Type 0 where
  pub authorized_refs : List SkillReference
  pub goal : String
  pub backend_allowed_tool_ids : List String
  pub backend_permission_refs : List String
  pub backend_scope_refs : List String
  pub agent_allowed_tool_ids : Option (List String)
  pub capability_context : List String
  pub maximum_selected : ℕ

-- `[a-z0-9]`
abbrev is_token_character : ℕ → Bool
is_token_character c = (leb b'a' c && leb c b'z') || (leb b'0' c && leb c b'9')

abbrev flush : String → List String → List String
flush token rest = if token == "" then rest else token ∷ rest

tokens_from : String → String → List String
tokens_from token String.[] = flush token []
tokens_from token (String.◌∷◌ c s) =
    let fresh = tokens_from "" s in
    let longer = tokens_from (token ⧺ String.◌∷◌ c "") s in
    if is_token_character (code c) then longer else flush token fresh

-- `_TOKEN.findall(text)`
unfoldable pub find_tokens : String → List String
unfolding tokens_from
find_tokens text = tokens_from "" text

-- `(skill_id, skill_version)` is a key of the references.
abbrev pub is_key : SkillReference → List SkillReference → Bool
is_key key refs = any (λ r. r.skill_id == key.skill_id && r.skill_version == key.skill_version) refs

abbrev pub effective_tools : SelectRequest → List String
effective_tools request = limited_to request.agent_allowed_tool_ids
  where
    limited_to : Option (List String) → List String
    limited_to none = request.backend_allowed_tool_ids
    limited_to (some agent) = intersection request.backend_allowed_tool_ids agent

abbrev pub outcome :
    SkillReference
    → SkillSelectionStatus
    → ℕ
    → String
    → Option SkillDescriptor
    → SkillCandidateOutcome
outcome ref status score reason descriptor = record {
  reference = ref;
  status = status;
  relevance_score = score;
  reason = reason;
  missing_tool_ids = [];
  descriptor = descriptor;
}

abbrev pub is_selected : SkillSelectionStatus → Bool
is_selected SkillSelectionStatus.selected = true
is_selected _ = false

-- An authorized reference that no descriptor has.
unfoldable pub undiscovered : List SkillDescriptor → SkillReference → SkillCandidateOutcome
undiscovered descriptors ref =
    if any (λ d. d.specification.skill_id == ref.skill_id) descriptors
    then outcome ref SkillSelectionStatus.version_mismatch 0
        "Authorized skill version does not match any discovered package." none
    else outcome ref SkillSelectionStatus.missing_package 0
        "Authorized skill package is not available on this runtime." none

module _ (lower : String → String) (request : SelectRequest) where
  -- The terms that the goal and the metadata of a skill share.
  unfoldable pub matches : SkillDescriptor → List String
  matches descriptor =
      let s = descriptor.specification in
      sorted_intersection
        (find_tokens (lower (join " " (request.goal ∷ request.capability_context))))
        (find_tokens (lower (join " " (s.name ∷ s.description ∷ s.purpose ∷ s.when_to_use))))

  -- `_relevance`
  unfoldable pub relevance : SkillDescriptor → ℕ × String
  relevance descriptor =
      let terms = matches descriptor in
      if is_empty terms
      then (0, "No deterministic metadata term matched the goal.")
      else (length terms, "Matched authorized metadata terms: " ⧺ join ", " (take 8 terms) ⧺ ".")

  -- The body of the loop over the descriptors: an outcome that is selected goes to `eligible`, any
  -- other to `unavailable`.
  unfoldable pub assess : SkillDescriptor → SkillCandidateOutcome
  assess descriptor =
      let s = descriptor.specification in
      let ref = reference descriptor in
      let score = (relevance descriptor).0 in
      let missing = sorted_difference s.required_tool_ids (effective_tools request) in
      if not (is_key ref request.authorized_refs)
      then outcome ref SkillSelectionStatus.unauthorized 0
          "Filesystem discovery does not authorize this skill reference." none
      else if nat_beq score 0
      then outcome ref SkillSelectionStatus.not_relevant 0
          "Authorized skill metadata does not match the requested goal." (some descriptor)
      else if not (is_empty missing)
      then record (outcome ref SkillSelectionStatus.required_tool_unavailable score
          "A required tool is absent from the effective Backend/Agent allowlist."
          (some descriptor)) { missing_tool_ids = missing }
      else if not (is_empty (sorted_difference s.permission_refs request.backend_permission_refs))
      then outcome ref SkillSelectionStatus.required_permission_unavailable score
          "A permission prerequisite is absent from Backend authority." (some descriptor)
      else if not (is_empty (sorted_difference s.scope_refs request.backend_scope_refs))
      then outcome ref SkillSelectionStatus.required_scope_unavailable score
          "A scope prerequisite is absent from Backend authority." (some descriptor)
      else outcome ref SkillSelectionStatus.selected score (relevance descriptor).1
          (some descriptor)

-- The order of the keys `(-relevance_score, skill_id, skill_version)`.
abbrev pub ranks_before : SkillCandidateOutcome → SkillCandidateOutcome → Bool
ranks_before a b =
    ltb b.relevance_score a.relevance_score
    || (nat_beq a.relevance_score b.relevance_score
        && text_before a.reference.skill_id b.reference.skill_id
            (str_leb a.reference.skill_version b.reference.skill_version))
  where
    text_before : String → String → Bool → Bool
    text_before a b rest = if a == b then rest else str_leb a b

-- The order of the keys `(skill_id, skill_version, status.value)`.
abbrev pub lists_before : SkillCandidateOutcome → SkillCandidateOutcome → Bool
lists_before a b = text_before a.reference.skill_id b.reference.skill_id (
    text_before a.reference.skill_version b.reference.skill_version
      (str_leb (status_value a.status) (status_value b.status)))
  where
    text_before : String → String → Bool → Bool
    text_before a b rest = if a == b then rest else str_leb a b

-- An eligible skill behind the bound.
abbrev pub outranked : SkillCandidateOutcome → SkillCandidateOutcome
outranked item = record item {
  status = SkillSelectionStatus.not_relevant;
  reason = "A higher-ranked authorized skill filled the bounded selection.";
}

module _ (lower : String → String) (descriptors : List SkillDescriptor)
    (request : SelectRequest) where
  abbrev pub outcomes : List SkillCandidateOutcome
  outcomes = map (assess lower request) descriptors

  abbrev pub eligible : List SkillCandidateOutcome
  eligible = sort ranks_before (filter (λ o. is_selected o.status) outcomes)

  -- Lines 152 to 176.
  abbrev pub undiscovered_refs : List SkillReference
  undiscovered_refs =
      filter (λ ref. not (is_key ref (map reference descriptors))) request.authorized_refs

  unfoldable pub select : Result String SkillSelection
  select =
      if ltb request.maximum_selected 1
      then err "maximum_selected must be at least one"
      else ok (record {
        selected = take request.maximum_selected eligible;
        unavailable = sort lists_before (
            filter (λ o. not (is_selected o.status)) outcomes
            ++ (map (undiscovered descriptors) undiscovered_refs
                ++ map outranked (drop request.maximum_selected eligible)));
        effective_tool_ids = sorted_set (effective_tools request);
      })
