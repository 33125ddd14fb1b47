-- ===== src/Ingestion/Counting.antt =====
-- The counts of a page against what is stored: the loop of `persist_page` in
-- backend/src/marketmind/ingestion.py.
use market_mind.Prelude.{
  ℕ, ◌+◌, ◌≡◌, refl, Bool, true, false, none, some, inl, inr, List, [], ◌∷◌, ◌++◌, arith, length,
  length-append, Option-cases, Bool-cases, any, length-modify, ap, subst, ◌∙◌, map, modify,
}
use market_mind.Ledger.{Counts, CrawlTask, Ledger}
use market_mind.Runtime.{Uuid4}
use market_mind.Ingestion.News.{Article, PageResult, NewsItem, NewsStore, item_identity}
use market_mind.Ingestion.Articles.{
  Hasher, Fate, count_fate, settle_fate, note_occurrence, occurs_in, ingest_item, touch_item,
  new_item, Match, match_of, item_by_id, item_by_url, ingest_article, ingest_articles,
}
use market_mind.Ingestion.Page.{Lease, no_counts, persist_page}
use market_mind.Ingestion.Outcomes.{persist_page-IsAccepted}

-- every article that is counted
abbrev pub counted : Counts → ℕ
counted c = c.created + c.revised + c.duplicate + c.access_limited

-- What the counts say of a state of the loop, against the state from which it started.
pub record Accounts (seen : ℕ) (c c' : Counts) (news news' : NewsStore) : Type 0 where
  pub all_counted : counted c' ≡ counted c + seen
  pub revisions_added :
      length news'.revisions + c.created + c.revised
      ≡ length news.revisions + c'.created + c'.revised
  pub changes_added :
      length news'.changes + c.created + c.revised ≡ length news.changes + c'.created + c'.revised
  pub items_added : length news'.items + c.created ≡ length news.items + c'.created
  pub documents_kept : news'.documents ≡ news.documents

pub note_occurrence-same :
    (task : CrawlTask) (fetched_at : ℕ) (a : Article) (k : ℕ) (news : NewsStore)
    → let news' = note_occurrence task fetched_at a k news in
      (news'.revisions ≡ news.revisions)
      × (news'.changes ≡ news.changes)
      × (news'.items ≡ news.items)
      × (news'.documents ≡ news.documents)
note_occurrence-same task fetched_at a k news =
    elim (Bool-cases (any (occurs_in task k) news.occurrences)) [
      | inl e ↦ ground arith
      | inr e ↦ ground arith
    ]

-- an item that is made for its article is counted as created, any other is not
settle-Accounts :
    (f : Fate) (created : Bool) (uuid : Uuid4) (hasher : Hasher) (source fetched_at : ℕ)
    (a : Article) (x : NewsItem) (c : Counts) (news : NewsStore)
    → let news' = settle_fate f uuid hasher source fetched_at created a x news in
      let c' = count_fate f created c in
      (counted c' ≡ counted c + 1)
      × (length news'.revisions + c.created + c.revised
          ≡ length news.revisions + c'.created + c'.revised)
      × (length news'.changes + c.created + c.revised
          ≡ length news.changes + c'.created + c'.revised)
      × (length news'.items ≡ length news.items)
      × (news'.documents ≡ news.documents)
settle-Accounts Fate.access_limited b uuid hasher source fetched_at a x c news =
    (omega arith, omega arith, omega arith, refl, refl)
settle-Accounts Fate.duplicate b uuid hasher source fetched_at a x c news =
    (omega arith, omega arith, omega arith, refl, refl)
settle-Accounts Fate.fresh true uuid hasher source fetched_at a x c news = (
  omega arith,
  omega (arith, length-append news.revisions),
  omega (arith, length-append news.changes),
  length-modify x.news_id _ news.items,
  refl,
)
settle-Accounts Fate.fresh false uuid hasher source fetched_at a x c news = (
  omega arith,
  omega (arith, length-append news.revisions),
  omega (arith, length-append news.changes),
  length-modify x.news_id _ news.items,
  refl,
)

item-Accounts :
    (f : Fate) (created : Bool) (uuid : Uuid4) (hasher : Hasher) (task : CrawlTask) (fetched_at : ℕ)
    (a : Article) (x : NewsItem) (c : Counts) (news news1 : NewsStore)
    → news1.revisions ≡ news.revisions
    → news1.changes ≡ news.changes
    → news1.documents ≡ news.documents
    → length news1.items + c.created ≡ length news.items + (count_fate f created c).created
    → Accounts 1 c (count_fate f created c) news (
        note_occurrence task fetched_at a x.news_id
          (settle_fate f uuid hasher task.source_id fetched_at created a x news1))
item-Accounts f created uuid hasher task fetched_at a x c news news1 same_revisions same_changes
      same_documents more =
    let settled = settle_fate f uuid hasher task.source_id fetched_at created a x news1 in
    let (n_revisions, n_changes, n_items, n_documents) =
      note_occurrence-same task fetched_at a x.news_id settled in
    let (all, r, ch, it, kept) =
      settle-Accounts f created uuid hasher task.source_id fetched_at a x c news1 in
    record {
      all_counted = all;
      revisions_added = rw n_revisions (omega (arith, r, ap length same_revisions));
      changes_added = rw n_changes (omega (arith, ch, ap length same_changes));
      items_added = rw n_items (omega (arith, it, more));
      documents_kept = n_documents ∙ kept ∙ same_documents;
    }

-- an article whose item is known creates none
count_fate-created : (f : Fate) (c : Counts) → (count_fate f false c).created ≡ c.created
count_fate-created Fate.access_limited c = refl
count_fate-created Fate.duplicate c = refl
count_fate-created Fate.fresh c = refl

-- One article is counted once, and what it adds to the tables is what its count says.
pub ingest_article-Accounts :
    (uuid : Uuid4) (hasher : Hasher) (task : CrawlTask) (fetched_at : ℕ) (a : Article)
    (c c' : Counts) (news news' : NewsStore)
    → ingest_article uuid hasher task fetched_at a (c, news) ≡ some (c', news')
    → Accounts 1 c c' news news'
unfolding ingest_article
ingest_article-Accounts uuid hasher task fetched_at a c c' news news' =
    go (match_of (item_by_id task.source_id a news) (item_by_url task.source_id a news))
  where
    Goal : Counts × NewsStore → Type 0
    Goal r = Accounts 1 c r.0 news r.1

    to_goal : (r : Counts × NewsStore) → Goal r → some r ≡ some (c', news') → Goal (c', news')
    to_goal r h e = let same : r ≡ (c', news') = cc in subst Goal same h

    go :
        (m : Match)
        → elim m [
          | Match.conflict ↦ none
          | Match.known x ↦ some (
              ingest_item uuid hasher task fetched_at false a
                (touch_item fetched_at a x)
                (c, record news { items = modify x.news_id (touch_item fetched_at a) news.items }))
          | Match.unknown ↦
              let x =
                new_item
                  (uuid.draw (map (λ r. r.news_id) news.items))
                  task.source_id
                  fetched_at
                  a in
              some (
                ingest_item uuid hasher task fetched_at true a x
                  (c, record news { items = news.items ++ (x ∷ []) }))
        ]
          ≡ some (c', news')
        → Accounts 1 c c' news news'
    go Match.conflict e = cc
    go (Match.known x) e =
        to_goal _
          (item-Accounts _ false uuid hasher task fetched_at a (touch_item fetched_at a x) c news _
            refl refl refl
            (omega (
              arith,
              count_fate-created _ c,
              length-modify x.news_id (touch_item fetched_at a) news.items,
            )))
          e
    go Match.unknown e =
        let x =
          new_item (uuid.draw (map (λ r. r.news_id) news.items)) task.source_id fetched_at a in
        to_goal _
          (item-Accounts Fate.fresh true uuid hasher task fetched_at a x c news
            (record news { items = news.items ++ (x ∷ []) }) refl refl refl
            (omega (arith, length-append news.items)))
          e

-- so are all articles of a page
pub ingest_articles-Accounts :
    (uuid : Uuid4) (hasher : Hasher) (task : CrawlTask) (fetched_at : ℕ) (articles : List Article)
    (c c' : Counts) (news news' : NewsStore)
    → ingest_articles uuid hasher task fetched_at articles (c, news) ≡ some (c', news')
    → Accounts (length articles) c c' news news'
unfolding ingest_articles
ingest_articles-Accounts uuid hasher task fetched_at [] c c' news news' e =
    let same : ◌≡◌ {A = Counts × NewsStore} (c, news) (c', news') = cc in
    subst {A = Counts × NewsStore} (λ r. Accounts 0 c r.0 news r.1) same
      (record {
        all_counted = omega arith;
        revisions_added = refl;
        changes_added = refl;
        items_added = refl;
        documents_kept = refl;
      })
ingest_articles-Accounts uuid hasher task fetched_at (a ∷ rest) c c' news news' e =
    elim (Option-cases (ingest_article uuid hasher task fetched_at a (c, news))) [
      | inl bad ↦ absurd (ground arith)
      | inr ((c1, news1), first) ↦
          let one = ingest_article-Accounts uuid hasher task fetched_at a c c1 news news1 first in
          let more =
            ingest_articles-Accounts uuid hasher task fetched_at rest c1 c' news1 news'
              (ground arith) in
          record {
            all_counted = omega (arith, one.all_counted, more.all_counted);
            revisions_added = omega (arith, one.revisions_added, more.revisions_added);
            changes_added = omega (arith, one.changes_added, more.changes_added);
            items_added = omega (arith, one.items_added, more.items_added);
            documents_kept = more.documents_kept ∙ one.documents_kept;
          }
    ]

-- The counts of a page that is stored account for all its articles, and they say how many items,
-- revisions and changes the tables have gained: a revision and a change for each article that is
-- created or revised, and an item for each that is created.
pub persist_page-Accounts :
    (uuid : Uuid4) (hasher : Hasher) (now : ℕ) (l : Lease) (page : PageResult) (db : Ledger)
    (news : NewsStore) (counts : Counts) (db' : Ledger) (news' : NewsStore)
    → persist_page uuid hasher now l page (db, news) ≡ some (counts, db', news')
    → (counted counts ≡ length page.articles)
      × (length news'.revisions ≡ length news.revisions + (counts.created + counts.revised))
      × (length news'.changes ≡ length news.changes + (counts.created + counts.revised))
      × (length news'.items ≡ length news.items + counts.created)
      × (length news'.documents ≡ length news.documents + 1)
persist_page-Accounts uuid hasher now l page db news counts db' news' e =
    let a = persist_page-IsAccepted uuid hasher now l page db news counts db' news' e in
    let all =
      ingest_articles-Accounts uuid hasher a.task page.fetched_at page.articles no_counts counts
        news a.stored a.ingested in
    rw a.documented (
      omega (arith, all.all_counted),
      omega (arith, all.revisions_added),
      omega (arith, all.changes_added),
      omega (arith, all.items_added),
      rw all.documents_kept (omega (arith, length-append news.documents)),
    )
