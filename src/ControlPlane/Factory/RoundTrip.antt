-- ===== src/ControlPlane/Factory/RoundTrip.antt =====
-- A draft is read back from what is written of it (src/genesis/control_plane/factory/models.py).
use genesis_ai.Prelude.{
  List, Result, String, [], ap, err, false, is_empty, nat_eq, ok, refl, some, str_len, string_eq,
  sym, true, ℕ, ◌>>=◌, ◌↔◌, ◌∷◌, ◌≡◌, ◌≤◌, arith,
}
use genesis_ai.Contracts.{str, items, texts}
use genesis_ai.Capabilities.{RiskLevel}
use genesis_ai.Capabilities.Payloads.{risk_value}
use genesis_ai.ControlPlane.Factory.Models.{AgentDraft, draft_fields}
use genesis_ai.ControlPlane.Factory.Drafts.{
  is_version, read_text, read_items, read_some, read_any, read_literal, read_risk, read_object,
  checked_version, model_validate,
}

read_items-texts : (key : String) (xs : List String) → read_items key (items str xs) ≡ ok xs
read_items-texts key [] = refl
read_items-texts key (x ∷ xs) = rw (read_items-texts key xs) refl

read_text-eq-ok :
    (minimum : ℕ) (key s : String)
    → minimum ≤ str_len s
    → read_text minimum key (some (str s)) ≡ ok s
unfolding read_text
read_text-eq-ok minimum key s h = ground arith

read_some-texts :
    (key : String) (xs : List String)
    → is_empty xs ≡ false
    → read_some key (some (texts xs)) ≡ ok xs
unfolding read_some
read_some-texts key xs h = rw (read_items-texts key xs) (rw h refl)

read_any-texts : (key : String) (xs : List String) → read_any key (some (texts xs)) ≡ ok xs
unfolding read_any
read_any-texts key xs = read_items-texts key xs

read_risk-value : (risk : RiskLevel) → read_risk (some (str (risk_value risk))) ≡ ok risk
unfolding read_risk
read_risk-value RiskLevel.low = refl
read_risk-value RiskLevel.medium = refl
read_risk-value RiskLevel.high = refl
read_risk-value RiskLevel.critical = refl

-- The constraints of the fields of a draft.
pub record IsValid (draft : AgentDraft) : Type 0 where
  pub draft_id : 3 ≤ str_len draft.draft_id
  pub tenant_id : 3 ≤ str_len draft.tenant_id
  pub organization_id : 3 ≤ str_len draft.organization_id
  pub workspace_id : 3 ≤ str_len draft.workspace_id
  pub correlation_id : 3 ≤ str_len draft.correlation_id
  pub agent_id : 3 ≤ str_len draft.agent_id
  pub version : is_version draft.version ≡ true
  pub purpose : 1 ≤ str_len draft.purpose
  pub scope_refs : is_empty draft.scope_refs ≡ false
  pub prohibited_actions : is_empty draft.prohibited_actions ≡ false
  pub evidence_requirements : is_empty draft.evidence_requirements ≡ false
  pub test_requirements : is_empty draft.test_requirements ≡ false

model_validate-draft_fields :
    (draft : AgentDraft) → IsValid draft → model_validate (draft_fields draft) ≡ ok draft
unfolding model_validate draft_fields read_literal read_object
model_validate-draft_fields draft v =
    rw
      (
        read_text-eq-ok 3 "draft_id" draft.draft_id v.draft_id,
        read_text-eq-ok 3 "tenant_id" draft.tenant_id v.tenant_id,
        read_text-eq-ok 3 "organization_id" draft.organization_id v.organization_id,
        read_text-eq-ok 3 "workspace_id" draft.workspace_id v.workspace_id,
        read_text-eq-ok 3 "correlation_id" draft.correlation_id v.correlation_id,
        read_text-eq-ok 3 "agent_id" draft.agent_id v.agent_id,
        read_text-eq-ok 0 "version" draft.version (omega arith),
        v.version,
        read_text-eq-ok 1 "purpose" draft.purpose v.purpose,
        read_some-texts "scope_refs" draft.scope_refs v.scope_refs,
        read_any-texts "tool_ids" draft.tool_ids,
        read_any-texts "permission_refs" draft.permission_refs,
        read_some-texts "prohibited_actions" draft.prohibited_actions v.prohibited_actions,
        read_risk-value draft.risk_level,
        read_some-texts "evidence_requirements" draft.evidence_requirements v.evidence_requirements,
        read_some-texts "test_requirements" draft.test_requirements v.test_requirements,
      )
      refl

-- A run that returns one value only.
abbrev IsOnly {ℓ} : {A : Type ℓ} → Result String A → A → Type ℓ
IsOnly {A = A} run value = (a : A) → run ≡ ok a → a ≡ value

IsOnly->>= {ℓ κ} :
    {A : Type ℓ} {B : Type κ} (run : Result String A) (value : A)
    → IsOnly run value
    → (next : A → Result String B) {out : B} → (run >>= next) ≡ ok out
    → (run ≡ ok value) × (next value ≡ ok out)
IsOnly->>= (err e) value only next h = absurd (cc)
IsOnly->>= (ok a) value only next h = let same = only a refl in (ap ok same, rw (sym same) h)

read_text-IsOnly : (minimum : ℕ) (key s : String) → IsOnly (read_text minimum key (some (str s))) s
unfolding read_text
read_text-IsOnly minimum key s a h = ground arith

read_some-IsOnly : (key : String) (xs : List String) → IsOnly (read_some key (some (texts xs))) xs
unfolding read_some
read_some-IsOnly key xs a h = let k = rw (read_items-texts key xs) at h in ground arith

read_text-eq-ok_le :
    (minimum : ℕ) (key s : String)
    → read_text minimum key (some (str s)) ≡ ok s
    → minimum ≤ str_len s
unfolding read_text
read_text-eq-ok_le minimum key s h = ground arith

read_some-eq-ok_some :
    (key : String) (xs : List String)
    → read_some key (some (texts xs)) ≡ ok xs
    → is_empty xs ≡ false
unfolding read_some
read_some-eq-ok_some key xs h = let k = rw (read_items-texts key xs) at h in ground arith

checked_version-IsOnly : (version : String) → IsOnly (checked_version version) version
checked_version-IsOnly version a h = ground arith

checked_version-is_version :
    (version : String) → checked_version version ≡ ok version → is_version version ≡ true
checked_version-is_version version h = ground arith

read_any-IsOnly : (key : String) (xs : List String) → IsOnly (read_any key (some (texts xs))) xs
unfolding read_any
read_any-IsOnly key xs a h = let k = rw (read_items-texts key xs) at h in cc

read_risk-IsOnly : (risk : RiskLevel) → IsOnly (read_risk (some (str (risk_value risk)))) risk
read_risk-IsOnly risk a h = let k = rw (read_risk-value risk) at h in cc

validated :
    (draft a : AgentDraft)
    → model_validate (draft_fields draft) ≡ ok a
    → IsValid draft × (a ≡ draft)
unfolding model_validate draft_fields read_literal read_object
validated draft a h0 =
    let (e1, h1) =
      IsOnly->>= _ draft.draft_id (read_text-IsOnly 3 "draft_id" draft.draft_id) _ h0 in
    let (e2, h2) =
      IsOnly->>= _ draft.tenant_id (read_text-IsOnly 3 "tenant_id" draft.tenant_id) _ h1 in
    let (e3, h3) =
      IsOnly->>= _ draft.organization_id
        (read_text-IsOnly 3 "organization_id" draft.organization_id) _ h2 in
    let (e4, h4) =
      IsOnly->>= _ draft.workspace_id (read_text-IsOnly 3 "workspace_id" draft.workspace_id) _ h3 in
    let (e5, h5) =
      IsOnly->>= _ draft.correlation_id (read_text-IsOnly 3 "correlation_id" draft.correlation_id) _
        h4 in
    let (e6, h6) =
      IsOnly->>= _ draft.agent_id (read_text-IsOnly 3 "agent_id" draft.agent_id) _ h5 in
    let (e7, h7) = IsOnly->>= _ draft.version (read_text-IsOnly 0 "version" draft.version) _ h6 in
    let (e8, h8) = IsOnly->>= _ draft.version (checked_version-IsOnly draft.version) _ h7 in
    let (e9, h9) = IsOnly->>= _ draft.purpose (read_text-IsOnly 1 "purpose" draft.purpose) _ h8 in
    let (e10, h10) =
      IsOnly->>= _ draft.scope_refs (read_some-IsOnly "scope_refs" draft.scope_refs) _ h9 in
    let (e11, h11) =
      IsOnly->>= _ draft.tool_ids (read_any-IsOnly "tool_ids" draft.tool_ids) _ h10 in
    let (e12, h12) =
      IsOnly->>= _ draft.permission_refs (read_any-IsOnly "permission_refs" draft.permission_refs) _
        h11 in
    let (e13, h13) =
      IsOnly->>= _ draft.prohibited_actions
        (read_some-IsOnly "prohibited_actions" draft.prohibited_actions) _ h12 in
    let (e14, h14) = IsOnly->>= _ draft.risk_level (read_risk-IsOnly draft.risk_level) _ h13 in
    let (e15, h15) =
      IsOnly->>= _ draft.evidence_requirements
        (read_some-IsOnly "evidence_requirements" draft.evidence_requirements) _ h14 in
    let (e16, h16) =
      IsOnly->>= _ draft.test_requirements
        (read_some-IsOnly "test_requirements" draft.test_requirements) _ h15 in
    (
      record {
        draft_id = read_text-eq-ok_le 3 "draft_id" draft.draft_id e1;
        tenant_id = read_text-eq-ok_le 3 "tenant_id" draft.tenant_id e2;
        organization_id = read_text-eq-ok_le 3 "organization_id" draft.organization_id e3;
        workspace_id = read_text-eq-ok_le 3 "workspace_id" draft.workspace_id e4;
        correlation_id = read_text-eq-ok_le 3 "correlation_id" draft.correlation_id e5;
        agent_id = read_text-eq-ok_le 3 "agent_id" draft.agent_id e6;
        version = checked_version-is_version draft.version e8;
        purpose = read_text-eq-ok_le 1 "purpose" draft.purpose e9;
        scope_refs = read_some-eq-ok_some "scope_refs" draft.scope_refs e10;
        prohibited_actions = read_some-eq-ok_some "prohibited_actions" draft.prohibited_actions e13;
        evidence_requirements =
            read_some-eq-ok_some "evidence_requirements" draft.evidence_requirements e15;
        test_requirements = read_some-eq-ok_some "test_requirements" draft.test_requirements e16;
      },
      cc,
    )

-- What is written of a draft is read back exactly when the draft satisfies the constraints of its
-- fields, and then as the same draft.
pub model_validate-draft_fields_iff :
    (draft a : AgentDraft)
    → (model_validate (draft_fields draft) ≡ ok a) ↔ (IsValid draft × (a ≡ draft))
model_validate-draft_fields_iff draft a =
    (validated draft a, λ (v, same). rw same (model_validate-draft_fields draft v))
