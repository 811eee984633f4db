-- ===== src/Recorder/Runs.antt =====
-- `run_due_jobs`, `is_due`, `_run_job` and `_finish` of code/backend/recorder.py.
use grindstone.Prelude.{
  ℕ, ◌+◌, String, Bool, true, false, ◌&&◌, not, none, some, List, [], ◌∷◌, leb, keep, ◌==◌,
  string_eq, nat_eq, codes, starts_with, if◌then◌else◌,
}
use grindstone.Recorder.Jobs.{Job, update_job}

unfoldable pub is_due : Job → ℕ → Bool
is_due j now = elim j.last_run_at [ none ↦ true | some t ↦ leb (t + j.interval_seconds) now ]

-- What a collector brings: the number of rows, or the text of the status for its exception, that is
-- the first 200 characters of a `BrokerError`, or "internal: " and the class of any other.
pub data Collected : Type 0 where
  collected : ℕ → Collected
  failed_with : String → Collected

-- What the recorder is given: whether a user's keys are at hand, for Alpaca and for TastyTrade, and
-- what the collector of a job brings.
pub record Sources : Type 0 where
  pub has_creds : ℕ → Bool
  pub has_tasty : ℕ → Bool
  pub collect : Job → Collected

unfoldable pub finish : Job → ℕ → ℕ → String → List Job → List Job
unfolding update_job
finish j now rows status jobs =
    update_job j.id
      (λ k. record k { last_run_at = some now; last_status = status; last_rows = rows }) jobs

abbrev pub finish_collected : Job → ℕ → Collected → List Job → List Job
finish_collected j now (collected rows) jobs = finish j now rows "ok" jobs
finish_collected j now (failed_with status) jobs = finish j now 0 status jobs

abbrev pub is_future_chain : Job → Bool
is_future_chain j = j.slot.kind == "chain" && starts_with j.slot.symbol (codes "/")

unfoldable pub run_job : Sources → Job → ℕ → List Job → List Job
run_job src j now jobs =
    if is_future_chain j
    then (if not (src.has_tasty j.slot.user_id)
        then finish j now 0 "locked — sign in to record (TastyTrade)" jobs
        else finish_collected j now (src.collect j) jobs)
    else if not (src.has_creds j.slot.user_id)
    then finish j now 0 "locked — sign in to record" jobs
    else finish_collected j now (src.collect j) jobs

-- The loop over the jobs that the query read before it, with the count of those that ran.
unfoldable pub run_jobs : Sources → ℕ → List Job → ℕ → List Job → ℕ × List Job
run_jobs src now [] ran jobs = (ran, jobs)
run_jobs src now (j ∷ read) ran jobs = elim (is_due j now) [
  | false ↦ run_jobs src now read ran jobs
  | true ↦ run_jobs src now read (ran + 1) (run_job src j now jobs)
]

unfoldable pub run_due_jobs : Sources → ℕ → List Job → ℕ × List Job
run_due_jobs src now jobs = run_jobs src now (keep (λ j. j.enabled) jobs) 0 jobs
