-- ===== src/Ingestion/Bodies/Current.antt =====
-- The current revision of an item, and the steps of `persist_page` in
-- backend/src/marketmind/ingestion.py that change it.
use market_mind.Prelude.{
  ℕ, ◌≤◌, ◌≡◌, refl, Bool, true, ◌&&◌, Option, none, some, ◌⊎◌, inl, inr, List, [], ◌∷◌, ◌++◌,
  arith, find, modify, find-modify, find-append_old, find-append_new, rows_of_fresh, rows_of, ◌==◌,
  Bool-cases, Option-cases, subst, sym, ap, ◌∙◌, map, head?, select, head-AreHeld, select-AreHeld,
}
use market_mind.Ledger.{Counts, CrawlTask}
use market_mind.Runtime.{Uuid4}
use market_mind.Ingestion.News.{
  Article, NewsItem, NewsRevision, NewsStore, item_identity, revision_identity,
}
use market_mind.Ingestion.Articles.{
  Hasher, same_text, is_complete, Fate, fate_of, previous_revision, revise, settle_fate,
  note_occurrence, Match, match_of, item_by_id, item_by_url, touch_item, ingest_item,
}
use text.Mathlib.Text.{◌==◌ as str_eq}
use market_mind.Ingestion.Counting.{note_occurrence-same}

abbrev pub revision_of : NewsItem → List NewsRevision → Option NewsRevision
revision_of x revisions = elim x.current_revision_id [ none ↦ none | some v ↦ find v revisions ]

-- The current revision of the item has a complete body.
pub record HasBody (k : ℕ) (items : List NewsItem) (revisions : List NewsRevision) : Type 0 where
  pub item : NewsItem
  pub revision : NewsRevision
  pub found : find k items ≡ some item
  pub current : revision_of item revisions ≡ some revision
  pub complete : is_complete revision.content.body_status ≡ true

revision_of-append :
    (x : NewsItem) (revisions more : List NewsRevision) (r : NewsRevision)
    → revision_of x revisions ≡ some r
    → revision_of x (revisions ++ more) ≡ some r
revision_of-append x revisions more r h = elim (Option-cases x.current_revision_id) [
  | inl e ↦ absurd (ground arith)
  | inr (v, e) ↦ rw e (find-append_old v revisions more r (ground arith))
]

-- an article that is stored over a complete body has one
fresh_complete :
    (hash : ℕ) (a : Article) (r : NewsRevision)
    → fate_of hash a (some r) ≡ Fate.fresh
    → is_complete r.content.body_status ≡ true
    → is_complete a.body_status ≡ true
fresh_complete hash a r e h = ground arith

revise-HasBody :
    (uuid : Uuid4) (hasher : Hasher) (source fetched_at : ℕ) (created : Bool) (a : Article)
    (x : NewsItem) (news : NewsStore) (k : ℕ)
    → find x.news_id news.items ≡ some x
    → fate_of (hasher.digest a) a (previous_revision x news) ≡ Fate.fresh
    → HasBody k news.items news.revisions
    → let news' = revise uuid hasher source fetched_at created a x news in
      HasBody k news'.items news'.revisions
revise-HasBody uuid hasher source fetched_at created a x news k at fresh h =
    let v = uuid.draw (map (λ r. r.revision_id) news.revisions) in
    let new : NewsRevision = record {
      revision_id = v;
      news_id = x.news_id;
      content = a;
      content_hash = hasher.digest a;
      observed_at = fetched_at;
    } in
    elim (Bool-cases (x.news_id == k)) [
      | inl same ↦
          let at_k : find k news.items ≡ some x = ground arith in
          let is_x : h.item ≡ x = ground (arith, h.found) in
          record {
            item = record x { current_revision_id = some v };
            revision = new;
            found =
                rw
                  (
                    find-modify k x.news_id (λ row. record row { current_revision_id = some v })
                        news.items (λ y. refl),
                    same,
                    at_k,
                  )
                  refl;
            current = find-append_new new news.revisions (
                rows_of_fresh v news.revisions
                  (uuid.draw_fresh (map (λ r. r.revision_id) news.revisions)));
            complete =
                fresh_complete (hasher.digest a) a h.revision
                  (subst (λ o. fate_of (hasher.digest a) a o ≡ Fate.fresh)
                    (ap (λ i. revision_of i news.revisions) (sym is_x) ∙ h.current) fresh)
                  h.complete;
          }
      | inr other ↦ record {
        item = h.item;
        revision = h.revision;
        found =
            rw
              (
                find-modify k x.news_id (λ row. record row { current_revision_id = some v })
                    news.items (λ y. refl),
                other,
              )
              h.found;
        current = revision_of-append h.item news.revisions (new ∷ []) h.revision h.current;
        complete = h.complete;
      }
    ]

settle-HasBody :
    (f : Fate) (uuid : Uuid4) (hasher : Hasher) (source fetched_at : ℕ) (created : Bool)
    (a : Article) (x : NewsItem) (news : NewsStore) (k : ℕ)
    → find x.news_id news.items ≡ some x
    → fate_of (hasher.digest a) a (previous_revision x news) ≡ f
    → HasBody k news.items news.revisions
    → let news' = settle_fate f uuid hasher source fetched_at created a x news in
      HasBody k news'.items news'.revisions
settle-HasBody Fate.access_limited uuid hasher source fetched_at created a x news k at e h = h
settle-HasBody Fate.duplicate uuid hasher source fetched_at created a x news k at e h = h
settle-HasBody Fate.fresh uuid hasher source fetched_at created a x news k at e h =
    revise-HasBody uuid hasher source fetched_at created a x news k at e h

pub ingest_item-HasBody :
    (uuid : Uuid4) (hasher : Hasher) (task : CrawlTask) (fetched_at : ℕ) (created : Bool)
    (a : Article) (x : NewsItem) (c : Counts) (news : NewsStore) (k : ℕ)
    → find x.news_id news.items ≡ some x
    → HasBody k news.items news.revisions
    → let r = ingest_item uuid hasher task fetched_at created a x (c, news) in
      HasBody k r.1.items r.1.revisions
unfolding ingest_item
ingest_item-HasBody uuid hasher task fetched_at created a x c news k at h =
    let f = fate_of (hasher.digest a) a (previous_revision x news) in
    let settled = settle_fate f uuid hasher task.source_id fetched_at created a x news in
    let (revisions, _, items, _) = note_occurrence-same task fetched_at a x.news_id settled in
    subst (λ i. HasBody k i (note_occurrence task fetched_at a x.news_id settled).revisions)
      (sym items)
      (subst (HasBody k settled.items) (sym revisions)
        (settle-HasBody f uuid hasher task.source_id fetched_at created a x news k at refl h))

-- an item that is seen again keeps its current revision
pub touch-HasBody :
    (fetched_at : ℕ) (a : Article) (j : ℕ) (items : List NewsItem) (revisions : List NewsRevision)
    (k : ℕ)
    → HasBody k items revisions
    → HasBody k (modify j (touch_item fetched_at a) items) revisions
touch-HasBody fetched_at a j items revisions k h = elim (Bool-cases (j == k)) [
  | inl same ↦ record {
    item = touch_item fetched_at a h.item;
    revision = h.revision;
    found = rw (find-modify k j (touch_item fetched_at a) items (λ y. refl), same, h.found) refl;
    current = h.current;
    complete = h.complete;
  }
  | inr other ↦ record {
    item = h.item;
    revision = h.revision;
    found = rw (find-modify k j (touch_item fetched_at a) items (λ y. refl), other) h.found;
    current = h.current;
    complete = h.complete;
  }
]

pub append-HasBody :
    (x : NewsItem) (items : List NewsItem) (revisions : List NewsRevision) (k : ℕ)
    → HasBody k items revisions
    → HasBody k (items ++ (x ∷ [])) revisions
append-HasBody x items revisions k h = record {
  item = h.item;
  revision = h.revision;
  found = find-append_old k items (x ∷ []) h.item h.found;
  current = h.current;
  complete = h.complete;
}

query-held :
    (p : NewsItem → Bool) (items : List NewsItem) (x : NewsItem)
    → ((k : ℕ) → rows_of k items ≤ 1)
    → head? (select p items) ≡ some x
    → find x.news_id items ≡ some x
query-held p items x unique h =
    head-AreHeld x items (select p items) h (select-AreHeld p items unique)

match_of-known :
    (o u : Option NewsItem) (x : NewsItem)
    → match_of o u ≡ Match.known x
    → (o ≡ some x) ⊎ (u ≡ some x)
match_of-known none none x e = cc
match_of-known none (some u) x e = inr (ground arith)
match_of-known (some o) none x e = inl (ground arith)
match_of-known (some o) (some u) x e = inl (ground arith)

item_by_id-held :
    (source : ℕ) (a : Article) (news : NewsStore) (x : NewsItem)
    → ((k : ℕ) → rows_of k news.items ≤ 1)
    → item_by_id source a news ≡ some x
    → find x.news_id news.items ≡ some x
item_by_id-held source a news x unique e =
    query-held (λ y. y.source_id == source && same_text y.source_item_id a.source_item_id)
      news.items x unique (ground arith)

-- the item that the two queries find is a row of the table
pub match_of-held :
    (source : ℕ) (a : Article) (news : NewsStore) (x : NewsItem)
    → ((k : ℕ) → rows_of k news.items ≤ 1)
    → match_of (item_by_id source a news) (item_by_url source a news) ≡ Match.known x
    → find x.news_id news.items ≡ some x
match_of-held source a news x unique e =
    elim (match_of-known (item_by_id source a news) (item_by_url source a news) x e) [
      | inl by_id ↦ item_by_id-held source a news x unique by_id
      | inr by_url ↦
          query-held (λ y. y.source_id == source && str_eq y.canonical_url a.canonical_url)
            news.items x unique by_url
    ]
