-- ===== src/Ingestion/News.antt =====
-- What adapters hand over (backend/src/marketmind/collection_types.py), and the news tables of
-- backend/src/marketmind/models.py.
use market_mind.Prelude.{ℕ, Bool, Option, List, Identity}
use Prim.Native.String.{String}

pub data BodyStatus : Type 0 where
  pending complete summary_only paywalled external_link unavailable : BodyStatus

pub record Article : Type 0 where
  pub source_item_id : Option String
  pub canonical_url : String
  pub original_url : String
  pub title : String
  pub summary : Option String
  pub body_text : Option String
  pub body_status : BodyStatus
  pub published_at : Option ℕ
  pub source_updated_at : Option ℕ
  pub source_time_text : Option String
  pub source_timezone : Option String
  pub author : Option String
  pub source_tags : List String
  pub importance : Option ℕ

-- `coverage_gap` is the JSON text of the adapter's gap.
pub record PageResult : Type 0 where
  pub articles : List Article
  pub next_url : Option String
  pub next_cursor : Option String
  pub exhausted : Bool
  pub coverage_gap : Option String
  pub raw_text : String
  pub response_status : ℕ
  pub content_type : String
  pub fetched_at : ℕ
  pub parser_version : String

pub record NewsItem : Type 0 where
  pub news_id : ℕ
  pub source_id : ℕ
  pub source_item_id : Option String
  pub canonical_url : String
  pub original_url : String
  pub current_revision_id : Option ℕ
  pub first_seen_at : ℕ
  pub last_seen_at : ℕ

-- The columns that a revision takes from its article are the fields of `content`; `content_hash`
-- is the number that the hexadecimal digest writes.
pub record NewsRevision : Type 0 where
  pub revision_id : ℕ
  pub news_id : ℕ
  pub content : Article
  pub content_hash : ℕ
  pub observed_at : ℕ

pub data ChangeType : Type 0 where
  created revised withdrawn : ChangeType

pub record NewsChange : Type 0 where
  pub source_id : ℕ
  pub news_id : ℕ
  pub revision_id : ℕ
  pub change_type : ChangeType

pub record NewsOccurrence : Type 0 where
  pub news_id : ℕ
  pub source_id : ℕ
  pub collector_id : ℕ
  pub run_id : ℕ
  pub discovered_url : String
  pub observed_at : ℕ

pub record RawDocument : Type 0 where
  pub task_id : ℕ
  pub url : String
  pub response_status : ℕ
  pub content_type : String
  pub content_text : String
  pub parser_version : String
  pub fetched_at : ℕ

pub record NewsStore : Type 0 where
  pub items : List NewsItem
  pub revisions : List NewsRevision
  pub changes : List NewsChange
  pub occurrences : List NewsOccurrence
  pub documents : List RawDocument

instance abbrev pub item_identity : Identity NewsItem
item_identity = record { id = λ r. r.news_id }

instance abbrev pub revision_identity : Identity NewsRevision
revision_identity = record { id = λ r. r.revision_id }
