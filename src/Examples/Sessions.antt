-- ===== src/Examples/Sessions.antt =====
-- A source that signs in by a QR code, and the login, the worker and the revocation of its session.
use market_mind.Prelude.{◌≤◌, ◌≡◌, refl, true, false, none, [], ◌∷◌, arith, ◌∷◌}
use market_mind.Ledger.{Source, run_identity}
use market_mind.Runtime.Lanes.Basic.{IsConsistent}
use market_mind.Replies.{Reply, answer}
use market_mind.Sessions.{
  SessionStore, LoginRequest, create_attempt, locked_state, replace_attempt, repeat_or_start,
  new_attempt, transact, publish_qr, revoke_session, pause_source_runs, release_source_runs,
  schedule,
}
use market_mind.Sessions.Commits.{IsSound, Moves, session_generation}
use market_mind.Sessions.Steps.{SessionReach, here, next, create, show, plan, SessionReach-Moves}
use market_mind.Sessions.Overtaken.{IsOvertaken, revoke_session-IsOvertaken}
use market_mind.Sessions.Workers.{pause_source_runs-IsRefused, pause_source_runs-IsConsistent}
use market_mind.Generations.Stale.{IsRefused}
use market_mind.Examples.Data.{sum_uuid, total, ledger, old_spider, plain_config, realtime_run}
use market_mind.Examples.Runtime.{ledger-IsConsistent}

abbrev jin10 : Source
jin10 = record {
  source_id = 2;
  code = "jin10";
  enabled = true;
  permission_config = plain_config;
  config_version = 1;
}

abbrev fresh_store : SessionStore
fresh_store = record {
  sessions = [];
  attempts = [];
  events = [];
  ledger = record ledger { sources = jin10 ∷ [] };
}

fresh_store-IsSound : IsSound fresh_store
fresh_store-IsSound = record {
  unique = λ k. omega arith;
  one_live = λ k. omega arith;
  current = λ k. refl;
}

abbrev request : LoginRequest
request = record {
  admin_id = 7;
  route = "/login";
  key = "first";
  body_hash = 11;
  has_fields = false;
}

abbrev stored : {E A : Type 0} → Reply E (A × SessionStore) → SessionStore
stored (answer (_, st)) = st
stored _ = fresh_store

-- a login is asked for, and the worker shows its QR code
abbrev asked_store : SessionStore
asked_store = stored (create_attempt sum_uuid true 1000 2 request fresh_store)

abbrev shown_store : SessionStore
shown_store = stored (transact (publish_qr 1 1 (5 ∷ []) 1020) 1020 2 asked_store)

asked : create_attempt sum_uuid true 1000 2 request fresh_store ≡ answer (1, asked_store)
unfolding create_attempt new_attempt repeat_or_start replace_attempt locked_state total
asked = refl

shown : transact (publish_qr 1 1 (5 ∷ []) 1020) 1020 2 asked_store ≡ answer (true, shown_store)
unfolding create_attempt new_attempt repeat_or_start replace_attempt locked_state total transact
    publish_qr
shown = refl

shown_reached : SessionReach sum_uuid fresh_store shown_store
shown_reached =
    next (next here (create true 1000 2 1 request asked_store asked))
      (show 1 1 (5 ∷ []) 1020 2 true shown_store shown)

SessionReach-Moves_example : Moves fresh_store shown_store
SessionReach-Moves_example =
    SessionReach-Moves sum_uuid fresh_store shown_store fresh_store-IsSound shown_reached

-- the session is revoked, and the worker looks for a job
abbrev value : {E : Type 0} → Reply E SessionStore → SessionStore
value (answer st) = st
value _ = fresh_store

abbrev revoked_store : SessionStore
revoked_store = value (revoke_session true 1030 7 2 shown_store)

revoked : revoke_session true 1030 7 2 shown_store ≡ answer revoked_store
unfolding create_attempt new_attempt repeat_or_start replace_attempt locked_state total transact
    publish_qr revoke_session
revoked = refl

abbrev planned_store : SessionStore
planned_store = stored (transact (schedule 1040) 1040 2 revoked_store)

planned : transact (schedule 1040) 1040 2 revoked_store ≡ answer (none, planned_store)
unfolding create_attempt new_attempt repeat_or_start replace_attempt locked_state total transact
    publish_qr revoke_session schedule
planned = refl

shown_generation : 1 ≤ session_generation 2 shown_store.sessions
unfolding create_attempt new_attempt repeat_or_start replace_attempt locked_state total transact
    publish_qr
shown_generation = omega arith

shown_store-IsSound : IsSound shown_store
shown_store-IsSound = SessionReach-Moves_example.sound

revoke_session-IsOvertaken_example : IsOvertaken 2 1 planned_store
revoke_session-IsOvertaken_example =
    revoke_session-IsOvertaken sum_uuid true 1030 7 2 1 shown_store revoked_store planned_store
      shown_store-IsSound revoked (next here (plan 1040 2 none planned_store planned))
      shown_generation

pause_source_runs-IsRefused_example : IsRefused old_spider (pause_source_runs 1 ledger)
pause_source_runs-IsRefused_example =
    pause_source_runs-IsRefused old_spider ledger realtime_run refl refl

pause_source_runs-IsConsistent_example :
    IsConsistent (pause_source_runs 1 ledger).runs
    × IsConsistent (release_source_runs 1 ledger).runs
pause_source_runs-IsConsistent_example = pause_source_runs-IsConsistent 1 ledger ledger-IsConsistent
