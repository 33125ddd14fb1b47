-- ===== src/Ingestion/Bodies.antt =====
-- A complete body is never lost: the choice of the current revision in `persist_page` of
-- backend/src/marketmind/ingestion.py.
pub mod Current
use market_mind.Prelude.{
  ℕ, ◌≤◌, ◌≡◌, refl, Bool, true, false, ◌&&◌, Option, none, some, ◌⊎◌, inl, inr, List, [], ◌∷◌,
  ◌++◌, arith, find, modify, find-modify, find-modify_same, find-append_old, find-append_new,
  rows_of_fresh, rows_of, rows_of-modify, count-append, ◌==◌, Bool-cases, Option-cases, subst, sym,
  ap, ◌∙◌, map, head?, select, head-AreHeld, select-AreHeld,
}
use market_mind.Ledger.{Counts, CrawlTask, Ledger}
use market_mind.Runtime.{Uuid4}
use market_mind.Ingestion.News.{
  Article, PageResult, NewsItem, NewsRevision, NewsStore, item_identity, revision_identity,
}
use market_mind.Ingestion.Articles.{
  Hasher, same_text, is_complete, Fate, fate_of, previous_revision, revise, settle_fate,
  note_occurrence, Match, match_of, item_by_id, item_by_url, touch_item, new_item, ingest_item,
  ingest_article, ingest_articles,
}
use market_mind.Ingestion.Page.{Lease, no_counts, persist_page}
use market_mind.Ingestion.Outcomes.{persist_page-IsAccepted}
use text.Mathlib.Text.{◌==◌ as str_eq}
use market_mind.Ingestion.Counting.{note_occurrence-same}
use market_mind.Ingestion.Bodies.Current.{
  HasBody, ingest_item-HasBody, touch-HasBody, append-HasBody, match_of-held,
}

-- Item identifiers are unique, and the current revision of the item has a complete body.
pub record KeepsBody (k : ℕ) (news : NewsStore) : Type 0 where
  pub unique_ids : (j : ℕ) → rows_of j news.items ≤ 1
  pub body : HasBody k news.items news.revisions

settle-ids :
    (f : Fate) (uuid : Uuid4) (hasher : Hasher) (source fetched_at : ℕ) (created : Bool)
    (a : Article) (x : NewsItem) (news : NewsStore) (j : ℕ)
    → rows_of j (settle_fate f uuid hasher source fetched_at created a x news).items
      ≡ rows_of j news.items
settle-ids Fate.access_limited uuid hasher source fetched_at created a x news j = refl
settle-ids Fate.duplicate uuid hasher source fetched_at created a x news j = refl
settle-ids Fate.fresh uuid hasher source fetched_at created a x news j =
    rows_of-modify j x.news_id _ news.items (λ y. refl)

ingest_item-KeepsBody :
    (uuid : Uuid4) (hasher : Hasher) (task : CrawlTask) (fetched_at : ℕ) (created : Bool)
    (a : Article) (x : NewsItem) (c : Counts) (news : NewsStore) (k : ℕ)
    → find x.news_id news.items ≡ some x
    → KeepsBody k news
    → KeepsBody k (ingest_item uuid hasher task fetched_at created a x (c, news)).1
unfolding ingest_item
ingest_item-KeepsBody uuid hasher task fetched_at created a x c news k at h =
    let f = fate_of (hasher.digest a) a (previous_revision x news) in
    let settled = settle_fate f uuid hasher task.source_id fetched_at created a x news in
    let (_, _, items, _) = note_occurrence-same task fetched_at a x.news_id settled in
    record {
      unique_ids = λ j. rw items (
          omega (
            arith,
            settle-ids f uuid hasher task.source_id fetched_at created a x news j,
            h.unique_ids j,
          ));
      body = ingest_item-HasBody uuid hasher task fetched_at created a x c news k at h.body;
    }

ingest_article-KeepsBody :
    (uuid : Uuid4) (hasher : Hasher) (task : CrawlTask) (fetched_at : ℕ) (a : Article)
    (c c' : Counts) (news news' : NewsStore) (k : ℕ)
    → ingest_article uuid hasher task fetched_at a (c, news) ≡ some (c', news')
    → KeepsBody k news
    → KeepsBody k news'
unfolding ingest_article
ingest_article-KeepsBody uuid hasher task fetched_at a c c' news news' k done h =
    go (match_of (item_by_id task.source_id a news) (item_by_url task.source_id a news)) refl done
  where
    to_goal :
        (r : Counts × NewsStore) → KeepsBody k r.1 → some r ≡ some (c', news') → KeepsBody k news'
    to_goal r kept e =
        let same : r ≡ (c', news') = cc in
        subst {A = Counts × NewsStore} (λ s. KeepsBody k s.1) same kept

    go :
        (m : Match)
        → match_of (item_by_id task.source_id a news) (item_by_url task.source_id a news) ≡ m
        → elim m [
          | Match.conflict ↦ none
          | Match.known x ↦ some (
              ingest_item uuid hasher task fetched_at false a
                (touch_item fetched_at a x)
                (c, record news { items = modify x.news_id (touch_item fetched_at a) news.items }))
          | Match.unknown ↦
              let x =
                new_item
                  (uuid.draw (map (λ r. r.news_id) news.items))
                  task.source_id
                  fetched_at
                  a in
              some (
                ingest_item uuid hasher task fetched_at true a x
                  (c, record news { items = news.items ++ (x ∷ []) }))
        ]
          ≡ some (c', news')
        → KeepsBody k news'
    go Match.conflict found e = cc
    go (Match.known x) found e =
        to_goal _
          (ingest_item-KeepsBody uuid hasher task fetched_at false a (touch_item fetched_at a x) c
            (record news { items = modify x.news_id (touch_item fetched_at a) news.items }) k
            (find-modify_same x.news_id (touch_item fetched_at a) news.items x (λ y. refl)
              (match_of-held task.source_id a news x h.unique_ids found))
            (record {
              unique_ids = λ j. omega (
                arith,
                rows_of-modify j x.news_id (touch_item fetched_at a) news.items (λ y. refl),
                h.unique_ids j,
              );
              body = touch-HasBody fetched_at a x.news_id news.items news.revisions k h.body;
            }))
          e
    go Match.unknown found e =
        let j = uuid.draw (map (λ r. r.news_id) news.items) in
        let x = new_item j task.source_id fetched_at a in
        let unused =
          rows_of_fresh j news.items (uuid.draw_fresh (map (λ r. r.news_id) news.items)) in
        to_goal _
          (ingest_item-KeepsBody uuid hasher task fetched_at true a x c
            (record news { items = news.items ++ (x ∷ []) }) k (find-append_new x news.items unused)
            (record {
              unique_ids = λ i. ground (
                arith,
                count-append (λ r. r.news_id == i) news.items (x ∷ []),
                unused,
                h.unique_ids i,
              );
              body = append-HasBody x news.items news.revisions k h.body;
            }))
          e

ingest_articles-KeepsBody :
    (uuid : Uuid4) (hasher : Hasher) (task : CrawlTask) (fetched_at : ℕ) (articles : List Article)
    (c c' : Counts) (news news' : NewsStore) (k : ℕ)
    → ingest_articles uuid hasher task fetched_at articles (c, news) ≡ some (c', news')
    → KeepsBody k news
    → KeepsBody k news'
unfolding ingest_articles
ingest_articles-KeepsBody uuid hasher task fetched_at [] c c' news news' k e h =
    let same : ◌≡◌ {A = Counts × NewsStore} (c, news) (c', news') = cc in
    subst {A = Counts × NewsStore} (λ s. KeepsBody k s.1) same h
ingest_articles-KeepsBody uuid hasher task fetched_at (a ∷ rest) c c' news news' k e h =
    elim (Option-cases (ingest_article uuid hasher task fetched_at a (c, news))) [
      | inl bad ↦ absurd (ground arith)
      | inr ((c1, news1), first) ↦
          ingest_articles-KeepsBody uuid hasher task fetched_at rest c1 c' news1 news' k
            (ground arith)
            (ingest_article-KeepsBody uuid hasher task fetched_at a c c1 news news1 k first h)
    ]

-- Where item identifiers are unique, a page that is stored keeps them so, and an item whose current
-- revision has a complete body still has one afterwards, whatever articles the page brings.
pub persist_page-KeepsBody :
    (uuid : Uuid4) (hasher : Hasher) (now : ℕ) (l : Lease) (page : PageResult) (db : Ledger)
    (news : NewsStore) (counts : Counts) (db' : Ledger) (news' : NewsStore) (k : ℕ)
    → persist_page uuid hasher now l page (db, news) ≡ some (counts, db', news')
    → KeepsBody k news
    → KeepsBody k news'
persist_page-KeepsBody uuid hasher now l page db news counts db' news' k e h =
    let a = persist_page-IsAccepted uuid hasher now l page db news counts db' news' e in
    let kept =
      ingest_articles-KeepsBody uuid hasher a.task page.fetched_at page.articles no_counts counts
        news a.stored k a.ingested h in
    subst (KeepsBody k) (sym a.documented)
      (record { unique_ids = kept.unique_ids; body = kept.body })
