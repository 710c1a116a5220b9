-- ===== src/Retrieval/Types.antt =====
-- The shared shapes of src/cf_knowledge_kiln/retrieval/types.py, and the warning variants of
-- src/cf_knowledge_kiln/retrieval/warning_variants.py with their projection to the wire shape.
-- A UUID is the number that it spells, so that the order of the strings is the order of the
-- numbers. A date is its proleptic ordinal. A message is the template and what is put into it.
use cf_knowledge_kiln.Base.{ℕ, Bool, true, false, Option, none, some, List}
use cf_knowledge_kiln.Base.Host.{Host}
use Prim.Native.String.{String}

pub data Status : Type 0 where
  active approved draft deprecated archived superseded : Status
  unlisted : String → Status

pub data WarningType : Type 0 where
  stale_source deprecated_source conflicting_sources weak_evidence prompt_injection_pattern
        sensitive_content query_normalized isolated_match answer_truncated :
      WarningType

pub data Severity : Type 0 where
  advisory warning blocking : Severity

pub data Action : Type 0 where
  inform prefer_other_sources request_human_review rewrite_query refuse_to_synthesize : Action

pub data Confidence : Type 0 where
  high medium low no_confidence : Confidence

-- `status in {"deprecated", "archived", "superseded"}`
abbrev pub is_retired : Status → Bool
is_retired deprecated = true
is_retired archived = true
is_retired superseded = true
is_retired _ = false

abbrev pub is_draft : Status → Bool
is_draft draft = true
is_draft _ = false

pub record Conflict : Type 0 where
  pub topic : List String
  pub source_ids : List ℕ

-- `_VariantBase`: the defaults of `severity` and `action`.
abbrev pub default_severity : Severity
default_severity = advisory

abbrev pub default_action : Action
default_action = inform

module _ (H : Host) where
  open H use {Num}

  -- The f-strings of the emitters.
  pub data Message : Type 0 where
    last_reviewed_older : Option ℕ → ℕ → Message
    document_status_is : Status → Message
    injection_phrase sensitive_pattern no_evidence : Message
    best_below : Num → Num → Message
    top_isolated : Num → Num → Num → Num → Message
    sources_address : ℕ → List String → Message
    phrases_stripped : List String → Message
    answer_cut : Message

  pub record Warning : Type 0 where
    pub type : WarningType
    pub message : Message
    pub source_id : Option ℕ
    pub severity : Severity
    pub action : Action

  -- The variants that the emitters construct, each with the two fields that it
  -- inherits from `_VariantBase`.
  pub data WarningVariant : Type 0 where
    stale : Severity → Action → Message → ℕ → ℕ → Option ℕ → WarningVariant
    retired : Severity → Action → Message → ℕ → Status → WarningVariant
    conflicting : Severity → Action → Message → List ℕ → List String → WarningVariant
    weak : Severity → Action → Message → Option Num → Num → WarningVariant
    isolated : Severity → Action → Message → Num → Num → Num → Num → ℕ → ℕ → WarningVariant
    injection : Severity → Action → Message → ℕ → ℕ → WarningVariant
    sensitive : Severity → Action → Message → ℕ → ℕ → WarningVariant
    normalized : Severity → Action → Message → List String → WarningVariant
    truncated : Severity → Action → Message → ℕ → WarningVariant

  abbrev flat : WarningType → Message → Option ℕ → Severity → Action → Warning
  flat t m i s a = record { type = t; message = m; source_id = i; severity = s; action = a }

  unfoldable pub downgrade_to_flat : WarningVariant → Warning
  downgrade_to_flat (stale s a m i _ _) = flat stale_source m (some i) s a
  downgrade_to_flat (retired s a m i _) = flat deprecated_source m (some i) s a
  downgrade_to_flat (conflicting s a m _ _) = flat conflicting_sources m none s a
  downgrade_to_flat (weak s a m _ _) = flat weak_evidence m none s a
  downgrade_to_flat (isolated s a m _ _ _ _ i _) = flat isolated_match m (some i) s a
  downgrade_to_flat (injection s a m i _) = flat prompt_injection_pattern m (some i) s a
  downgrade_to_flat (sensitive s a m i _) = flat sensitive_content m (some i) s a
  downgrade_to_flat (normalized s a m _) = flat query_normalized m none s a
  downgrade_to_flat (truncated s a m _) = flat answer_truncated m none s a
