-- ===== src/Ingestion/Progress.antt =====
-- A page never leaves its run without a way on: the end of `persist_page` in
-- backend/src/marketmind/ingestion.py.
use market_mind.Prelude.{
  is_some, leb, not, ◌&&◌, ◌||◌, ℕ, ◌+◌, ◌≡◌, Bool, true, false, none, some, ◌⊎◌, List, [], ◌∷◌,
  ◌++◌, get_or, find,
}
use market_mind.Ledger.{
  RunStatus, TaskStatus, Counts, Ledger, CrawlRun, CrawlTask, run_identity, task_identity,
}
use market_mind.Ingestion.News.{PageResult}
use market_mind.Ingestion.Articles.{truthy, same_text}
use market_mind.Ingestion.Page.{is_realtime, add_counts}

-- the run still has pages to fetch: it runs, or it is paused at the end of a batch
abbrev pub is_unfinished : RunStatus → Bool
is_unfinished RunStatus.running = true
is_unfinished RunStatus.paused = true
is_unfinished _ = false

abbrev pub is_finished : RunStatus → Bool
is_finished RunStatus.succeeded = true
is_finished RunStatus.partial_failed = true
is_finished _ = false

-- The last task of the ledger is one for the page after the task's, of the same run, and it waits for a
-- worker; its cursor is the page's, and not the one that was just fetched.
pub record HasNextTask (page : PageResult) (t : CrawlTask) (db' : Ledger) : Type 0 where
  pub earlier : List CrawlTask
  pub task : CrawlTask
  pub last : db'.tasks ≡ earlier ++ (task ∷ [])
  pub same_run : task.run_id ≡ t.run_id
  pub same_source : task.source_id ≡ t.source_id
  pub waits : task.status ≡ TaskStatus.pending
  pub free : task.lease_owner ≡ none
  pub next_page : task.request_params.page ≡ some (get_or t.request_params.page 0 + 1)
  pub next_key : task.business_key ≡ get_or t.request_params.page 0 + 1
  pub next_cursor : task.request_params.cursor ≡ page.next_cursor
  pub moves : same_text page.next_cursor t.request_params.cursor ≡ false

-- What ends a run: a gap that the adapter reports, the last page, a cursor that is missing or does not move,
-- or the number of pages that a realtime run may fetch, which is one where none is set.
abbrev pub is_at_end : PageResult → CrawlTask → CrawlRun → Bool
is_at_end page t r =
    is_some page.coverage_gap
    || page.exhausted
    || not (truthy page.next_cursor)
    || same_text page.next_cursor t.request_params.cursor
    || (is_realtime r.run_type
        && leb (get_or r.config_snapshot.max_pages 1) (get_or t.request_params.page 0 + 1))

-- The run is at the page, with the counts added; it has ended, or its next page waits.
pub record HasWayOn (now : ℕ) (page : PageResult) (counts : Counts) (t : CrawlTask) (r : CrawlRun)
    (db' : Ledger) : Type 0 where
  pub after : CrawlRun
  pub found : find r.run_id db'.runs ≡ some after
  pub at_page : after.checkpoint.page ≡ some (get_or t.request_params.page 0 + 1)
  pub at_cursor : after.checkpoint.cursor ≡ page.next_cursor
  pub statistics : after.statistics ≡ add_counts r.statistics counts
  pub way_on :
      ((is_at_end page t r ≡ true)
        × (is_finished after.status ≡ true)
        × (after.finished_at ≡ some now))
      ⊎ ((is_at_end page t r ≡ false)
          × (is_unfinished after.status ≡ true)
          × HasNextTask page t db')
