-- ===== src/Backfill/Tests.antt =====
-- Runs of code/backend/backfill.py at concrete inputs, and the theorems applied there.
use grindstone.Prelude.{
  ℕ, Bool, ltb, ◌+◌, ◌*◌, ◌≡◌, refl, true, false, ◌&&◌, not, some, List, [], ◌∷◌, any, every,
  length, contains, ◌==◌, nat_eq, string_eq, codes, upper, text_beq, arith,
}
use grindstone.Calendar.{trading_days}
use grindstone.Coverage.{
  failed, have, absent, authoritative, Feed, feed_eq, feed_beq, Table, has_older, state_of, gaps,
  mark, mark_days,
}
use grindstone.Coverage.Claims.{Decides}
use grindstone.Backfill.Plan.{Chunk, must_break, plan, plain_query}
use grindstone.Backfill.Work.{
  run_chunks, mark_each, Fetched, fetched, raised, Report, done_report, failed_report, record_fetch,
  run_one, RunReport, run,
}
use grindstone.Backfill.Runs.{plan_exact, is_compact_chunk, plan_compact}
use grindstone.Backfill.Effects.{day_outcome, run_one_exact}
use grindstone.Backfill.Evidence.{
  fetched_for, absent_needs_evidence, fetched_chunk_is_done, Worked, run_exact,
}

-- 2021-08-02, a Monday.
abbrev monday : ℕ
monday = 738004

abbrev noon : ℕ
noon = 86400 * 738104 + 43200

abbrev spy : Feed
spy = record { provider = "alpaca-iex"; kind = "bars"; symbol = codes "SPY"; timeframe = "1Day" }

abbrev two_days : Chunk
two_days = record { feed = spy; start = monday; last = monday + 1; days = 738004 ∷ 738005 ∷ [] }

-- The Monday comes back and the Tuesday does not.
abbrev serve_monday : ℕ → ℕ → Fetched
serve_monday start last = fetched (monday ∷ [])

abbrev outage : Chunk → ℕ → ℕ → Fetched
outage c start last = raised "timed out"

abbrev after_monday : Table
after_monday =
    record {
      feed = spy;
      period = monday;
      state = have;
      rows = 1;
      checked_at = noon;
      detail = "";
      attempts = 0;
    }
    ∷ record {
      feed = spy;
      period = 738005;
      state = absent;
      rows = 0;
      checked_at = noon;
      detail = "";
      attempts = 0;
    }
    ∷ []

makes_two_chunks : length (plan spy monday (monday + 40) 30 40 noon []) ≡ 2
unfolding plan gaps trading_days must_break
makes_two_chunks = refl

ran_monday :
    run_one two_days serve_monday (monday + 9) noon []
    ≡ some (done_report 1 [] (record { have = 1; absent = 1; unknown = 0 }), after_monday)
unfolding run_one record_fetch mark_days mark upper feed_beq text_beq
ran_monday = refl

plan_exact_example :
    any (λ c. contains c.days monday) (plan spy monday (monday + 40) 30 40 noon [])
    ≡ contains (gaps spy (plain_query monday (monday + 40) 5000) noon []) monday
unfolding plan gaps trading_days must_break
plan_exact_example = plan_exact spy monday (monday + 40) 30 40 noon [] monday (omega arith)

plan_compact_example :
    every (is_compact_chunk 30) (plan spy monday (monday + 40) 30 40 noon []) ≡ true
plan_compact_example = plan_compact spy monday (monday + 40) 30 40 noon [] (omega arith)

run_one_exact_example :
    (report : Report) × (u : Table) × (run_one two_days serve_monday (monday + 9) noon []
      ≡ some (report, u))
    × Decides spy (738004 ∷ 738005 ∷ []) (day_outcome two_days serve_monday (monday + 9) []) [] u
run_one_exact_example = run_one_exact two_days serve_monday (monday + 9) noon []

absent_needs_evidence_example :
    (rows : List ℕ) × (fetched_for two_days serve_monday (monday + 9) ≡ fetched rows)
    × (contains rows 738005 ≡ false)
    × (contains (authoritative "bars") "alpaca-iex" ≡ true)
    × ((length rows == 0 && not (has_older [] spy monday)) ≡ false)
unfolding state_of feed_beq text_beq upper
absent_needs_evidence_example =
    absent_needs_evidence two_days serve_monday (monday + 9) noon [] ran_monday 738005 refl refl

fetched_chunk_is_done_example :
    contains (gaps spy (plain_query monday (monday + 40) 5000) noon after_monday) 738005 ≡ false
fetched_chunk_is_done_example =
    fetched_chunk_is_done two_days serve_monday (monday + 9) noon [] ran_monday (monday ∷ []) 738005
      noon (plain_query monday (monday + 40) 5000) refl refl refl refl (omega arith)

abbrev twice : List Chunk
twice = two_days ∷ two_days ∷ []

abbrev stop_second : ℕ → Bool
stop_second i = i == 1

run_exact_example :
    (report : RunReport) × (u : Table) × (run outage stop_second (monday + 9) noon twice []
      ≡ some (report, u))
    × (report.planned ≡ 2)
    × (length report.results ≡ 1)
    × (report.stopped ≡ ltb (length report.results) report.planned)
    × Worked outage (monday + 9) noon (two_days ∷ []) [] report.results u
run_exact_example = run_exact outage stop_second (monday + 9) noon twice []

-- The second chunk is not reached, and the first one's two days failed.
abbrev after_outage : Table
after_outage =
    record {
      feed = spy;
      period = monday;
      state = failed;
      rows = 0;
      checked_at = noon;
      detail = "timed out";
      attempts = 1;
    }
    ∷ record {
      feed = spy;
      period = 738005;
      state = failed;
      rows = 0;
      checked_at = noon;
      detail = "timed out";
      attempts = 1;
    }
    ∷ []

stops_early :
    run outage stop_second (monday + 9) noon twice []
    ≡ some (
      record { planned = 2; stopped = true; results = failed_report "timed out" ∷ [] },
      after_outage,
    )
unfolding run run_chunks run_one record_fetch mark_each mark upper feed_beq text_beq
stops_early = refl
