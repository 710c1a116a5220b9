-- ===== src/Agent/ContextPack/Shapes.antt =====
-- The shapes of src/cf_knowledge_kiln/agent/serializers.py.
-- A text is a native string. The inline markers of an evidence chunk stand beside its text, in the
-- order in which they are written behind it.
use cf_knowledge_kiln.Base.{ℕ, Bool, Option, List}
use cf_knowledge_kiln.Base.Host.{Host}
use cf_knowledge_kiln.Retrieval.Ranking.Chunk.{RankedChunk}
use cf_knowledge_kiln.Retrieval.Types.{Status, WarningType, Confidence, Conflict, Message, Warning}
use Prim.Native.String.{String}

pub record DocumentRef : Type 0 where
  pub document_id : ℕ
  pub title : String
  pub repo : Option String
  pub path : Option String
  pub source_url : Option String
  pub commit_sha : Option String
  pub authority : Option String
  pub owner : Option String

pub data Relationship : Type 0 where
  supersedes superseded_by related_standard also_relevant : Relationship

pub record RelatedSource : Type 0 where
  pub title : String
  pub document_id : ℕ
  pub relationship : Relationship

pub record TokenBudget : Type 0 where
  pub requested : ℕ
  pub used_estimate : ℕ

-- The strings of `_review_reasons`.
pub data Reason : Type 0 where
  conflicts_detected : ℕ → Reason
  no_match all_retired all_drafts alarm_raised below_threshold : Reason
  uncited_chunks dropped_chunks : ℕ → Reason

module _ (H : Host) where
  open H use {Num}

  pub record SerializerInputs : Type 0 where
    pub chunks : List (RankedChunk H)
    pub warnings : List (Warning H)
    pub conflicts : List Conflict
    pub chunk_text : List (ℕ × String)
    pub document_refs : List (ℕ × DocumentRef)
    pub related_sources : List RelatedSource

  pub record EvidenceChunk : Type 0 where
    pub chunk_id : ℕ
    pub document_id : ℕ
    pub title : String
    pub repo : Option String
    pub path : Option String
    pub heading_path : Option (List String)
    pub source_url : Option String
    pub commit_sha : Option String
    pub status : Status
    pub authority : Option String
    pub owner : Option String
    pub last_reviewed : Option ℕ
    pub score : Num
    pub text : String
    pub markers : List (WarningType × Message H)

  pub record ContextPackResponse : Type 0 where
    pub context_pack_id : ℕ
    pub answerable : Bool
    pub confidence : Confidence
    pub evidence : List EvidenceChunk
    pub warnings : List (Warning H)
    pub conflicts : List Conflict
    pub related_sources : List RelatedSource
    pub token_budget : TokenBudget
    pub needs_review : Bool
    pub review_reasons : List Reason
    pub untrusted_content_notice : String
    pub untrusted_content_notice_id : String
    pub untrusted_content_notice_pinned_phrases : List String
