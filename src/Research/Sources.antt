-- ===== src/Research/Sources.antt =====
-- src/genesis/research/sources/models.py. A datetime is its number of microseconds.
use genesis_ai.Prelude.{
  Bool, Option, Result, String, err, false, if◌then◌else◌, nat_eq, not, ok, string_eq, true, ℕ,
  ◌&&◌,
}

pub data SourceType : Type 0 where
  internal external : SourceType

pub data SourceReliability : Type 0 where
  unverified low medium high : SourceReliability

pub data FreshnessStatus : Type 0 where
  current stale unknown : FreshnessStatus

pub data ContentTrust : Type 0 where
  governed untrusted : ContentTrust

abbrev pub is_current : FreshnessStatus → Bool
is_current FreshnessStatus.current = true
is_current _ = false

-- `reliability not in {UNVERIFIED, LOW}`
abbrev pub is_reliable : SourceReliability → Bool
is_reliable SourceReliability.unverified = false
is_reliable SourceReliability.low = false
is_reliable _ = true

pub record SourceProvenance : Type 0 where
  pub source_id : String
  pub origin : String
  pub retrieved_at : ℕ
  pub source_version : Option String
  pub content_sha256 : Option String

-- `instruction_authority` is `Literal[False]`: it has no other value.
pub record ResearchSourceMetadata : Type 0 where
  pub source_type : SourceType
  pub provenance : SourceProvenance
  pub freshness : FreshnessStatus
  pub reliability : SourceReliability
  pub content_trust : ContentTrust
  pub evidence_ref : String

abbrev is_external : SourceType → Bool
is_external SourceType.external = true
is_external SourceType.internal = false

abbrev is_untrusted : ContentTrust → Bool
is_untrusted ContentTrust.untrusted = true
is_untrusted ContentTrust.governed = false

unfoldable pub external_content_is_untrusted :
    ResearchSourceMetadata → Result String ResearchSourceMetadata
external_content_is_untrusted self =
    if is_external self.source_type && not (is_untrusted self.content_trust)
    then err "EXTERNAL source content must be marked UNTRUSTED"
    else ok self
