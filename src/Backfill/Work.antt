-- ===== src/Backfill/Work.antt =====
-- `run_one` and `run` of code/backend/backfill.py. Each returns `none` if a call of `mark` raises.
use grindstone.Prelude.{
  ℕ, ◌+◌, String, Bool, true, false, ◌&&◌, not, Option, none, some, List, [], ◌∷◌, ltb, length,
  ◌==◌, nat_eq, string_eq, if◌then◌else◌,
}
use grindstone.Coverage.{
  State, failed, unknown, authoritative, Feed, Table, has_older, mark, Counts, no_counts, mark_days,
  missing_claim,
}
use grindstone.Onclick.{clamp, Note}
use grindstone.Backfill.Plan.{Chunk}

-- What `fetch` brings: the day of each row, or the text of the exception, cut to 200 characters.
pub data Fetched : Type 0 where
  fetched : List ℕ → Fetched
  raised : String → Fetched

-- The key "state" of the report.
pub data Outcome : Type 0 where
  skipped failed_fetch empty_window done : Outcome

pub record Report : Type 0 where
  pub rows : ℕ
  pub outcome : Outcome
  pub notes : List Note
  pub error : String
  pub counts : Counts

-- `for d in chunk.days: cov.mark(...)`
unfoldable pub mark_each : Feed → List ℕ → State → String → ℕ → Table → Option Table
mark_each f [] s detail now t = some t
mark_each f (d ∷ ds) s detail now t = elim (mark f d s 0 detail now t) [
  | none ↦ none
  | some u ↦ mark_each f ds s detail now u
]

abbrev pub with_report : Report → Option Table → Option (Report × Table)
with_report r none = none
with_report r (some t) = some (r, t)

-- The reports, for each way that `run_one` ends. The key "note" is the clamp's notes and the error.
abbrev pub failed_report : String → Report
failed_report message = record {
  rows = 0;
  outcome = failed_fetch;
  notes = [];
  error = message;
  counts = no_counts;
}

abbrev pub empty_report : Chunk → List Note → Report
empty_report c notes = record {
  rows = 0;
  outcome = empty_window;
  notes = notes;
  error = "";
  counts = record { have = 0; absent = 0; unknown = length c.days };
}

abbrev pub skipped_report : List Note → Report
skipped_report notes = record {
  rows = 0;
  outcome = skipped;
  notes = notes;
  error = "";
  counts = no_counts;
}

abbrev pub done_report : ℕ → List Note → Counts → Report
done_report n notes c = record { rows = n; outcome = done; notes = notes; error = ""; counts = c }

abbrev pub with_counts : ℕ → List Note → Option (Counts × Table) → Option (Report × Table)
with_counts n notes none = none
with_counts n notes (some (c, t)) = some (done_report n notes c, t)

-- The details of the two marks that are no claim about the market.
abbrev pub empty_detail : String
empty_detail =
    "whole window empty — the provider does not carry this period, which is not a claim about the market"

abbrev pub outside_detail : String
outside_detail = "outside the provider's window at execution time"

-- The part of `run_one` after the fetch.
unfoldable pub record_fetch : Chunk → List Note → Fetched → ℕ → Table → Option (Report × Table)
record_fetch c notes (raised message) now t =
    with_report (failed_report message) (mark_each c.feed c.days failed message now t)
record_fetch c notes (fetched rows) now t =
    if length rows == 0 && not (has_older t c.feed c.start)
    then with_report (empty_report c notes) (mark_each c.feed c.days unknown empty_detail now t)
    else with_counts (length rows) notes (
        mark_days c.feed rows (missing_claim (authoritative c.feed.kind) c.feed.provider) now c.days
          no_counts t)

-- The range that is asked for: the chunk's, clamped for OnclickMedia.
abbrev pub asked_range : Chunk → ℕ → ℕ × ℕ × List Note
asked_range c today =
    if c.feed.provider == "onclick" then clamp c.start c.last today else (c.start, c.last, [])

unfoldable pub run_one : Chunk → (ℕ → ℕ → Fetched) → ℕ → ℕ → Table → Option (Report × Table)
run_one c fetch today now t =
    let (start, last, notes) = asked_range c today in
    if c.feed.provider == "onclick" && ltb last start
    then with_report (skipped_report notes) (mark_each c.feed c.days unknown outside_detail now t)
    else record_fetch c notes (fetch start last) now t

pub record RunReport : Type 0 where
  pub planned : ℕ
  pub stopped : Bool
  pub results : List Report

-- The loop of `run` over the chunks that are left; `stops` tells what `should_stop` answers before
-- the i-th chunk, and each chunk has its own fetch.
unfoldable pub run_chunks :
    (Chunk → ℕ → ℕ → Fetched)
    → (ℕ → Bool)
    → ℕ
    → ℕ
    → ℕ
    → List Chunk
    → Table
    → Option (Bool × List Report × Table)
run_chunks fetch stops i today now [] t = some (false, [], t)
run_chunks fetch stops i today now (c ∷ cs) t = elim (stops i) [
  | true ↦ some (true, [], t)
  | false ↦ elim (run_one c (fetch c) today now t) [
    | none ↦ none
    | some (r, u) ↦ elim (run_chunks fetch stops (i + 1) today now cs u) [
      | none ↦ none
      | some (stopped, rs, v) ↦ some (stopped, r ∷ rs, v)
    ]
  ]
]

-- What `run` returns of the loop; "done" is the length of `results`.
abbrev pub run_report : ℕ → Option (Bool × List Report × Table) → Option (RunReport × Table)
run_report n none = none
run_report n (some (stopped, rs, t)) =
    some (record { planned = n; stopped = stopped; results = rs }, t)

unfoldable pub run :
    (Chunk → ℕ → ℕ → Fetched) → (ℕ → Bool) → ℕ → ℕ → List Chunk → Table → Option (RunReport × Table)
run fetch stops today now cs t = run_report (length cs) (run_chunks fetch stops 0 today now cs t)
