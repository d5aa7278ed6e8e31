-- ===== src/Runtime/Context/Models/Enums.antt =====
-- The enumerations of src/genesis/runtime/context/models.py, with the texts of their members.
use genesis_ai.Prelude.{
  ℕ, ◌≡◌, ◌↔◌, Bool, true, false, String, Eq, ◌==◌, string_eq, nat_beq, arith, refl,
}

pub data DataClassification : Type 0 where
  public internal confidential restricted : DataClassification

pub data ContextSource : Type 0 where
  system internal memory external : ContextSource

pub data ContextTrust : Type 0 where
  governed untrusted : ContextTrust

pub data Freshness : Type 0 where
  current stale unknown : Freshness

pub data ContextPriority : Type 0 where
  system_security_authority execution_context_scope user_goal required_business_context
        authoritative_evidence relevant_memory external_context supporting_context :
      ContextPriority

pub data AuthorityLevel : Type 0 where
  requester operator it_approver director_approver system : AuthorityLevel

pub data SourceType : Type 0 where
  internal external : SourceType

pub data Reliability : Type 0 where
  unverified low medium high : Reliability

pub data ValidationStatus : Type 0 where
  pending valid invalid waived : ValidationStatus

-- `_CLASSIFICATION_RANK`
abbrev pub classification_rank : DataClassification → ℕ
classification_rank DataClassification.public = 0
classification_rank DataClassification.internal = 1
classification_rank DataClassification.confidential = 2
classification_rank DataClassification.restricted = 3

abbrev pub classification_value : DataClassification → String
classification_value DataClassification.public = "PUBLIC"
classification_value DataClassification.internal = "INTERNAL"
classification_value DataClassification.confidential = "CONFIDENTIAL"
classification_value DataClassification.restricted = "RESTRICTED"

abbrev pub classification_beq : DataClassification → DataClassification → Bool
classification_beq a b = nat_beq (classification_rank a) (classification_rank b)

pub classification_beq_iff : (a b : DataClassification) → (classification_beq a b ≡ true) ↔ (a ≡ b)
classification_beq_iff a b = ground arith

instance abbrev pub classification_eq : Eq DataClassification
classification_eq = record { equal = classification_beq; equal_iff = classification_beq_iff }

abbrev pub source_value : ContextSource → String
source_value ContextSource.system = "SYSTEM"
source_value ContextSource.internal = "INTERNAL"
source_value ContextSource.memory = "MEMORY"
source_value ContextSource.external = "EXTERNAL"

abbrev pub source_type_value : SourceType → String
source_type_value SourceType.internal = "INTERNAL"
source_type_value SourceType.external = "EXTERNAL"

abbrev pub trust_value : ContextTrust → String
trust_value ContextTrust.governed = "GOVERNED"
trust_value ContextTrust.untrusted = "UNTRUSTED"

abbrev pub freshness_value : Freshness → String
freshness_value Freshness.current = "CURRENT"
freshness_value Freshness.stale = "STALE"
freshness_value Freshness.unknown = "UNKNOWN"

abbrev pub reliability_value : Reliability → String
reliability_value Reliability.unverified = "UNVERIFIED"
reliability_value Reliability.low = "LOW"
reliability_value Reliability.medium = "MEDIUM"
reliability_value Reliability.high = "HIGH"

abbrev pub validation_status_value : ValidationStatus → String
validation_status_value ValidationStatus.pending = "PENDING"
validation_status_value ValidationStatus.valid = "VALID"
validation_status_value ValidationStatus.invalid = "INVALID"
validation_status_value ValidationStatus.waived = "WAIVED"

-- The value of the `IntEnum`.
abbrev pub priority_value : ContextPriority → ℕ
priority_value ContextPriority.system_security_authority = 1
priority_value ContextPriority.execution_context_scope = 2
priority_value ContextPriority.user_goal = 3
priority_value ContextPriority.required_business_context = 4
priority_value ContextPriority.authoritative_evidence = 5
priority_value ContextPriority.relevant_memory = 6
priority_value ContextPriority.external_context = 7
priority_value ContextPriority.supporting_context = 8

abbrev pub authority_level_value : AuthorityLevel → String
authority_level_value AuthorityLevel.requester = "REQUESTER"
authority_level_value AuthorityLevel.operator = "OPERATOR"
authority_level_value AuthorityLevel.it_approver = "IT_APPROVER"
authority_level_value AuthorityLevel.director_approver = "DIRECTOR_APPROVER"
authority_level_value AuthorityLevel.system = "SYSTEM"

abbrev pub authority_level_number : AuthorityLevel → ℕ
authority_level_number AuthorityLevel.requester = 0
authority_level_number AuthorityLevel.operator = 1
authority_level_number AuthorityLevel.it_approver = 2
authority_level_number AuthorityLevel.director_approver = 3
authority_level_number AuthorityLevel.system = 4

abbrev pub authority_level_beq : AuthorityLevel → AuthorityLevel → Bool
authority_level_beq a b = nat_beq (authority_level_number a) (authority_level_number b)

pub authority_level_beq_iff : (a b : AuthorityLevel) → (authority_level_beq a b ≡ true) ↔ (a ≡ b)
authority_level_beq_iff a b = ground arith

instance abbrev pub authority_level_eq : Eq AuthorityLevel
authority_level_eq = record { equal = authority_level_beq; equal_iff = authority_level_beq_iff }

abbrev pub is_external : ContextSource → Bool
is_external ContextSource.external = true
is_external _ = false

abbrev pub is_memory : ContextSource → Bool
is_memory ContextSource.memory = true
is_memory _ = false

abbrev pub is_untrusted : ContextTrust → Bool
is_untrusted ContextTrust.untrusted = true
is_untrusted _ = false

abbrev pub is_current : Freshness → Bool
is_current Freshness.current = true
is_current _ = false

abbrev pub is_external_type : SourceType → Bool
is_external_type SourceType.external = true
is_external_type _ = false

abbrev pub is_valid : ValidationStatus → Bool
is_valid ValidationStatus.valid = true
is_valid _ = false

abbrev pub is_authoritative_evidence : ContextPriority → Bool
is_authoritative_evidence ContextPriority.authoritative_evidence = true
is_authoritative_evidence _ = false

pub trust_value-injective : (a b : ContextTrust) → (trust_value a == trust_value b) ≡ true → a ≡ b
trust_value-injective ContextTrust.governed ContextTrust.governed h = refl
trust_value-injective ContextTrust.untrusted ContextTrust.untrusted h = refl
trust_value-injective _ _ h = cc

pub freshness_value-injective :
    (a b : Freshness) → (freshness_value a == freshness_value b) ≡ true → a ≡ b
freshness_value-injective Freshness.current Freshness.current h = refl
freshness_value-injective Freshness.stale Freshness.stale h = refl
freshness_value-injective Freshness.unknown Freshness.unknown h = refl
freshness_value-injective _ _ h = cc

pub validation_status_value-valid :
    (s : ValidationStatus)
    → (validation_status_value s == "VALID") ≡ true
    → s ≡ ValidationStatus.valid
validation_status_value-valid ValidationStatus.valid h = refl
validation_status_value-valid _ h = cc
