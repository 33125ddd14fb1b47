-- ===== src/Ingestion/Articles.antt =====
-- One article of a page: which news item it is, and whether it makes a new revision. The loop of
-- `persist_page` in backend/src/marketmind/ingestion.py.
use market_mind.Prelude.{
  ℕ, ◌+◌, ◌==◌, max, Bool, true, false, not, ◌&&◌, Option, none, some, List, [], ◌∷◌, ◌++◌, map,
  if◌then◌else◌, is_some, any, head?, select, find, modify,
}
use market_mind.Ledger.{CrawlTask, Counts}
use market_mind.Runtime.{Uuid4}
use market_mind.Ingestion.News.{
  BodyStatus, Article, NewsItem, NewsRevision, ChangeType, NewsOccurrence, NewsStore, item_identity,
  revision_identity,
}
use Prim.Native.String.{String}
use text.Mathlib.Text.{◌==◌ as str_eq}

-- The number of the SHA-256 digest of an article's values, which are all but the identifier and
-- the two addresses, as JSON with sorted keys.
pub record Hasher : Type 0 where
  pub digest : Article → ℕ

abbrev pub is_complete : BodyStatus → Bool
is_complete BodyStatus.complete = true
is_complete _ = false

-- a value that is neither `None` nor empty
abbrev pub truthy : Option String → Bool
truthy none = false
truthy (some s) = not (str_eq s "")

abbrev pub same_text : Option String → Option String → Bool
same_text none none = true
same_text (some a) (some b) = str_eq a b
same_text _ _ = false

-- the item with the article's identifier, if the article has one
abbrev pub item_by_id : ℕ → Article → NewsStore → Option NewsItem
item_by_id source a news =
    if truthy a.source_item_id
    then head? (
        select (λ x. x.source_id == source && same_text x.source_item_id a.source_item_id)
          news.items)
    else none

abbrev pub item_by_url : ℕ → Article → NewsStore → Option NewsItem
item_by_url source a news =
    head? (select (λ x. x.source_id == source && str_eq x.canonical_url a.canonical_url) news.items)

-- What the two queries say: no item, one item, or two different ones.
pub data Match : Type 0 where
  unknown : Match
  known : NewsItem → Match
  conflict : Match

abbrev pub match_of : Option NewsItem → Option NewsItem → Match
match_of none none = unknown
match_of none (some u) = known u
match_of (some x) none = known x
match_of (some x) (some u) = if x.news_id == u.news_id then known x else conflict

abbrev pub new_item : ℕ → ℕ → ℕ → Article → NewsItem
new_item k source fetched_at a = record {
  news_id = k;
  source_id = source;
  source_item_id = a.source_item_id;
  canonical_url = a.canonical_url;
  original_url = a.original_url;
  current_revision_id = none;
  first_seen_at = fetched_at;
  last_seen_at = fetched_at;
}

-- an item that is seen again
abbrev pub touch_item : ℕ → Article → NewsItem → NewsItem
touch_item fetched_at a x = record x {
  source_item_id =
      if not (is_some x.source_item_id) && truthy a.source_item_id
      then a.source_item_id
      else x.source_item_id;
  last_seen_at = max x.last_seen_at fetched_at;
}

-- the fate of an article against the item's current revision
pub data Fate : Type 0 where
  access_limited duplicate fresh : Fate

abbrev pub fate_of : ℕ → Article → Option NewsRevision → Fate
fate_of hash a none = fresh
fate_of hash a (some r) =
    if is_complete r.content.body_status && not (is_complete a.body_status)
    then access_limited
    else if r.content_hash == hash
    then duplicate
    else fresh

abbrev pub count_fate : Fate → Bool → Counts → Counts
count_fate access_limited created c = record c { access_limited = c.access_limited + 1 }
count_fate duplicate created c = record c { duplicate = c.duplicate + 1 }
count_fate fresh true c = record c { created = c.created + 1 }
count_fate fresh false c = record c { revised = c.revised + 1 }

abbrev pub previous_revision : NewsItem → NewsStore → Option NewsRevision
previous_revision x news = elim x.current_revision_id [
  | none ↦ none
  | some k ↦ find k news.revisions
]

-- a new revision, which becomes the item's current one, and its change
abbrev pub revise : Uuid4 → Hasher → ℕ → ℕ → Bool → Article → NewsItem → NewsStore → NewsStore
revise uuid hasher source fetched_at created a x news =
    let k = uuid.draw (map (λ r. r.revision_id) news.revisions) in
    record news {
      revisions =
          news.revisions
          ++ (record {
            revision_id = k;
            news_id = x.news_id;
            content = a;
            content_hash = hasher.digest a;
            observed_at = fetched_at;
          }
              ∷ []);
      items = modify x.news_id (λ row. record row { current_revision_id = some k }) news.items;
      changes =
          news.changes
          ++ (record {
            source_id = source;
            news_id = x.news_id;
            revision_id = k;
            change_type = if created then ChangeType.created else ChangeType.revised;
          }
              ∷ []);
    }

abbrev pub settle_fate :
    Fate → Uuid4 → Hasher → ℕ → ℕ → Bool → Article → NewsItem → NewsStore → NewsStore
settle_fate fresh uuid hasher source fetched_at created a x news =
    revise uuid hasher source fetched_at created a x news
settle_fate _ uuid hasher source fetched_at created a x news = news

abbrev pub occurs_in : CrawlTask → ℕ → NewsOccurrence → Bool
occurs_in task k o =
    o.news_id == k && o.collector_id == task.collector_id && o.run_id == task.run_id

-- one occurrence of an item for each run
abbrev pub note_occurrence : CrawlTask → ℕ → Article → ℕ → NewsStore → NewsStore
note_occurrence task fetched_at a k news =
    if any (occurs_in task k) news.occurrences then news else record news {
      occurrences =
          news.occurrences
          ++ (record {
            news_id = k;
            source_id = task.source_id;
            collector_id = task.collector_id;
            run_id = task.run_id;
            discovered_url = a.original_url;
            observed_at = fetched_at;
          }
              ∷ []);
    }

-- the steps once the item is known
unfoldable pub ingest_item :
    Uuid4
    → Hasher
    → CrawlTask
    → ℕ
    → Bool
    → Article
    → NewsItem
    → Counts × NewsStore
    → Counts × NewsStore
ingest_item uuid hasher task fetched_at created a x (counts, news) =
    let fate = fate_of (hasher.digest a) a (previous_revision x news) in
    (
      count_fate fate created counts,
      note_occurrence task fetched_at a x.news_id
          (settle_fate fate uuid hasher task.source_id fetched_at created a x news),
    )

-- One article; `none` where its identifier and its address name different items.
unfoldable pub ingest_article :
    Uuid4 → Hasher → CrawlTask → ℕ → Article → Counts × NewsStore → Option (Counts × NewsStore)
unfolding ingest_item
ingest_article uuid hasher task fetched_at a (counts, news) =
    elim (match_of (item_by_id task.source_id a news) (item_by_url task.source_id a news)) [
      | conflict ↦ none
      | known x ↦ some (
          ingest_item uuid hasher task fetched_at false a (touch_item fetched_at a x)
            (counts, record news { items = modify x.news_id (touch_item fetched_at a) news.items }))
      | unknown ↦
          let x =
            new_item (uuid.draw (map (λ r. r.news_id) news.items)) task.source_id fetched_at a in
          some (
            ingest_item uuid hasher task fetched_at true a x
              (counts, record news { items = news.items ++ (x ∷ []) }))
    ]

unfoldable pub ingest_articles :
    Uuid4 → Hasher → CrawlTask → ℕ → List Article → Counts × NewsStore → Option (Counts × NewsStore)
ingest_articles uuid hasher task fetched_at [] state = some state
ingest_articles uuid hasher task fetched_at (a ∷ rest) state =
    elim (ingest_article uuid hasher task fetched_at a state) [
      | none ↦ none
      | some state' ↦ ingest_articles uuid hasher task fetched_at rest state'
    ]
