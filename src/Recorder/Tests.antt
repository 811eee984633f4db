-- ===== src/Recorder/Tests.antt =====
-- Runs of code/backend/recorder.py at concrete inputs, and the theorems applied there.
use grindstone.Prelude.{
  beq_refl, length, map, keep, ℕ, String, Option, if◌then◌else◌, ◌≡◌, refl, true, false, none, some,
  List, [], ◌∷◌, ◌==◌, nat_eq, string_eq, text_eq, text_beq, codes, Text,
}
use grindstone.Prelude.{lstrip, strip, upper, contains, ◌||◌, ◌&&◌, false}
use grindstone.Calendar.{trading_days, weekdays_from}
use grindstone.Coverage.{
  stored, gaps, candidates, passed_over, checked_after, mark, claim, may_claim_absent, upsert,
  state_of, feed_beq,
}
use grindstone.Onclick.{
  body, header, window, fetch_day, fetch_loop, final_answer, check_body, check_stripped, first_line,
}
use grindstone.Recorder.Chains.{
  Outside, Stores, both, onclick_feed, backfill_chains, settle_days, settle_day,
}
use grindstone.Recorder.Had.{is_had, is_listed}
use grindstone.Recorder.Settled.{days_of, had_needs_stores}
use grindstone.Recorder.Jobs.{validate_job, needs_tasty, Job}
use grindstone.Recorder.Runs.{
  is_due, Sources, collected, failed_with, finish, run_job, run_jobs, run_due_jobs,
}
use grindstone.Recorder.Prune.{
  Series, series_eq, series_beq, Recorded, Tables, bars_promises, chain_promises, news_days, prune,
}
use grindstone.Recorder.Kept.{is_kept, prune_exact}
use grindstone.Recorder.Passed.{has_turn, after_pass, run_due_jobs-exact}

abbrev job : ℕ → String → Option ℕ → Job
job id kind last = record {
  id = id;
  slot = record { user_id = 1; kind = kind; symbol = codes "SPY"; timeframe = "" };
  interval_seconds = 900;
  retention_days = 90;
  enabled = true;
  last_run_at = last;
  last_status = "never ran";
  last_rows = 0;
}

-- The chain comes back, the news do not.
abbrev sources : Sources
sources = record {
  has_creds = λ u. true;
  has_tasty = λ u. false;
  collect = λ j. if j.slot.kind == "chain" then collected 40 else failed_with "HTTP 503";
}

abbrev table : List Job
table = job 1 "chain" none ∷ job 2 "news" (some 100) ∷ job 3 "chain" (some 900) ∷ []

two_of_three_run : (run_due_jobs sources 1000 table).0 ≡ 2
unfolding run_due_jobs run_jobs is_due run_job finish
two_of_three_run = refl

no_tasty : validate_job "chain" (codes "/ES") "" 900 90 (some "future") false ≡ some needs_tasty
unfolding validate_job text_beq
no_tasty = refl

abbrev root : Text
root = codes "/ES"

abbrev empty : Text
empty = []

abbrev kind : String
kind = "chain"

run_due_jobs-exact_example :
    run_due_jobs sources 1000 table
    ≡ (length (keep (has_turn 1000) table), map (after_pass sources 1000) table)
run_due_jobs-exact_example = run_due_jobs-exact sources 1000 table refl

abbrev spy_bars : ℕ → Recorded Series
spy_bars ts = record { key = record { symbol = codes "SPY"; timeframe = "1Day" }; ts = ts }

abbrev keeps : ℕ → ℕ → Job
keeps id days = record (job id "bars" none) {
  slot = record { user_id = 1; kind = "bars"; symbol = codes "SPY"; timeframe = "1Day" };
  retention_days = days;
}

-- A job of a week and a job of a year on the same bars, and chains that no job is for.
abbrev tables : Tables
tables = record {
  bars = spy_bars 86400 ∷ spy_bars 34560000 ∷ [];
  chain = record { key = codes "USO"; ts = 1 } ∷ [];
  news = 1 ∷ [];
}

one_removed :
    (prune 43200000 (keeps 1 7 ∷ keeps 2 365 ∷ []) tables).0
    ≡ record { bars = 1; chain = 0; news = 1 }
unfolding prune bars_promises chain_promises news_days series_beq text_beq
one_removed = refl

prune_exact_example :
    ((prune 43200000 (keeps 1 7 ∷ keeps 2 365 ∷ []) tables).1.bars
      ≡ keep (λ r. is_kept 43200000 r (bars_promises (keeps 1 7 ∷ keeps 2 365 ∷ []))) tables.bars)
    × ((prune 43200000 (keeps 1 7 ∷ keeps 2 365 ∷ []) tables).1.chain
        ≡ keep
            (λ r. is_kept 43200000 r (chain_promises (keeps 1 7 ∷ keeps 2 365 ∷ [])))
            tables.chain)
prune_exact_example = prune_exact 43200000 (keeps 1 7 ∷ keeps 2 365 ∷ []) tables

-- The server sends a chain for every day, and both stores take it; a stop is asked for after one day.
abbrev outside : Outside
outside = record {
  serve = λ day attempt. body header;
  keeps = λ day b. both (day ∷ []) 2 2;
  message = λ f. "";
  now = λ day. 100;
  stops = λ day. false;
  wakes = λ day. true;
}

abbrev empty_stores : Stores
empty_stores = record { table = []; engine = []; archive = [] }

abbrev settled_stores : Stores
settled_stores = (backfill_chains outside (codes "SPY") none 738006 100 empty_stores).stores

newest_day_is_had : is_had settled_stores.table (stored (onclick_feed (codes "SPY"))) 738005 ≡ true
unfolding backfill_chains settle_days settle_day fetch_day fetch_loop final_answer check_body
    check_stripped first_line strip lstrip window gaps candidates passed_over trading_days
    weekdays_from checked_after mark claim may_claim_absent upsert state_of upper feed_beq text_beq
newest_day_is_had = refl

-- A server that sends another day's rows: the engine's store files them under their own day, and the day
-- that was asked for is settled for good with no row of it there.
abbrev another_day : Stores
another_day =
    (backfill_chains (record outside { keeps = λ day b. both (738000 ∷ []) 2 2 }) (codes "SPY") none
      738006 100 empty_stores).stores

misdated_is_had :
    (is_had another_day.table (stored (onclick_feed (codes "SPY"))) 738005 ≡ true)
    × (contains another_day.engine 738005 ≡ false)
unfolding backfill_chains settle_days settle_day fetch_day fetch_loop final_answer check_body
    check_stripped first_line strip lstrip window gaps candidates passed_over trading_days
    weekdays_from checked_after mark claim may_claim_absent upsert state_of upper feed_beq text_beq
misdated_is_had = (refl, refl)

had_needs_stores_example :
    ((is_had empty_stores.table (stored (onclick_feed (codes "SPY"))) 738005
        || is_listed (days_of none) 738005)
      || (contains settled_stores.engine 738005 && contains settled_stores.archive 738005))
    ≡ true
had_needs_stores_example =
    had_needs_stores outside (codes "SPY") (stored (onclick_feed (codes "SPY"))) 738005 none 100
      empty_stores (λ day b. rw (beq_refl day) refl) 738006 newest_day_is_had
