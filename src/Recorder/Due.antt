-- ===== src/Recorder/Due.antt =====
-- A pass of the recorder over the due jobs (code/backend/recorder.py).
use grindstone.Prelude.{
  ℕ, ◌+◌, ◌≤◌, String, ◌≡◌, refl, ap, ◌∙◌, Bool, true, false, ◌&&◌, ◌||◌, text_eq, not, Option,
  none, List, [], ◌∷◌, arith, leb, any, every, Bool-cases, keep, Text, ◌==◌, nat_eq, string_eq, inl,
  inr,
}
use grindstone.Recorder.Jobs.{
  validate_job, min_interval, forever_days, is_class, is_bars_or_chain, Job,
}
use grindstone.Recorder.Runs.{
  is_due, finish, Collected, collected, failed_with, finish_collected, is_future_chain, run_job,
  run_jobs, run_due_jobs, Sources,
}

-- What `validate_job` accepts has a known kind, a symbol if it is bars or a chain, is of no index or
-- coin then, is no futures bars, is a futures chain only with a TastyTrade account, and has an
-- interval of a minute at least and a retention of a day to a hundred years.
pub validate_job-none :
    (kind : String) (symbol : Text) (timeframe : String) (interval retention : ℕ)
    (asset_class : Option String) (has_tasty : Bool)
    → validate_job kind symbol timeframe interval retention asset_class has_tasty ≡ none
    → ((is_bars_or_chain kind || kind == "news") ≡ true)
      × ((is_bars_or_chain kind
            && (symbol == [] || (is_class asset_class "index" || is_class asset_class "crypto")))
          ≡ false)
      × ((is_class asset_class "future" && (kind == "bars" || (kind == "chain" && not has_tasty)))
          ≡ false)
      × (min_interval ≤ interval)
      × (1 ≤ retention)
      × (retention ≤ forever_days)
unfolding validate_job
validate_job-none kind symbol timeframe interval retention asset_class has_tasty h =
    ground (arith, h)

abbrev late_or_off : ℕ → Job → Bool
late_or_off now j = not (j.enabled && is_due j now)

-- A job that is due is among those that are left to run.
abbrev is_covered : ℕ → List Job → Job → Bool
is_covered now left j = late_or_off now j || any (λ r. is_due r now && r.id == j.id) left

abbrev pub has_interval : Job → Bool
has_interval j = leb 1 j.interval_seconds

covered-finish :
    (now rows : ℕ) (status : String) (r : Job) (left jobs : List Job)
    → every has_interval jobs ≡ true
    → every (is_covered now (r ∷ left)) jobs ≡ true
    → every (is_covered now left) (finish r now rows status jobs) ≡ true
unfolding finish is_due
covered-finish now rows status r left [] pos h = refl
covered-finish now rows status r left (j ∷ jobs) pos h = elim (Bool-cases (j.id == r.id)) [
  | inl same ↦ rw same (ground (arith, covered-finish now rows status r left jobs))
  | inr other ↦ rw other (ground (arith, other, covered-finish now rows status r left jobs))
]

interval-finish :
    (now rows : ℕ) (status : String) (r : Job) (jobs : List Job)
    → every has_interval jobs ≡ true
    → every has_interval (finish r now rows status jobs) ≡ true
unfolding finish
interval-finish now rows status r [] pos = refl
interval-finish now rows status r (j ∷ jobs) pos = elim (Bool-cases (j.id == r.id)) [
  | inl same ↦ rw same (ground (arith, interval-finish now rows status r jobs))
  | inr other ↦ rw other (ground (arith, interval-finish now rows status r jobs))
]

finish_collected-finish :
    (j : Job) (now : ℕ) (c : Collected) (jobs : List Job)
    → (rows : ℕ) × (status : String) × (finish_collected j now c jobs
        ≡ finish j now rows status jobs)
finish_collected-finish j now (collected rows) jobs = (rows, "ok", refl)
finish_collected-finish j now (failed_with status) jobs = (0, status, refl)

-- However a run of a job ends, it is written down with the time.
run_job-finish :
    (src : Sources) (j : Job) (now : ℕ) (jobs : List Job)
    → (rows : ℕ) × (status : String) × (run_job src j now jobs ≡ finish j now rows status jobs)
unfolding run_job
run_job-finish src j now jobs =
    let ends = finish_collected-finish j now (src.collect j) jobs in
    elim (Bool-cases (is_future_chain j)) [
      | inl future ↦ elim (Bool-cases (src.has_tasty j.slot.user_id)) [
        | inl open_vault ↦ rw (future, open_vault) ends
        | inr locked ↦ rw (future, locked) (0, _, refl)
      ]
      | inr other ↦ elim (Bool-cases (src.has_creds j.slot.user_id)) [
        | inl open_vault ↦ rw (other, open_vault) ends
        | inr locked ↦ rw (other, locked) (0, _, refl)
      ]
    ]

skip_idle :
    (now : ℕ) (r : Job) (left jobs : List Job)
    → is_due r now ≡ false
    → every (is_covered now (r ∷ left)) jobs ≡ true
    → every (is_covered now left) jobs ≡ true
skip_idle now r left [] idle h = refl
skip_idle now r left (j ∷ jobs) idle h = ground (arith, idle, skip_idle now r left jobs idle)

run_jobs-clears :
    (src : Sources) (now ran : ℕ) (left jobs : List Job)
    → every has_interval jobs ≡ true
    → every (is_covered now left) jobs ≡ true
    → every (is_covered now []) (run_jobs src now left ran jobs).1 ≡ true
unfolding run_jobs
run_jobs-clears src now ran [] jobs pos h = h
run_jobs-clears src now ran (j ∷ left) jobs pos h = elim (Bool-cases (is_due j now)) [
  | inl due ↦
      let (rows, status, ends) = run_job-finish src j now jobs in
      rw (due, run_jobs, ends)
        (run_jobs-clears src now (ran + 1) left (finish j now rows status jobs)
          (interval-finish now rows status j jobs pos)
          (covered-finish now rows status j left jobs pos h))
  | inr idle ↦
      rw (idle, run_jobs)
        (run_jobs-clears src now ran left jobs pos (skip_idle now j left jobs idle h))
]

weaken_covered :
    (now : ℕ) (r j : Job) (left : List Job)
    → is_covered now left j ≡ true
    → is_covered now (r ∷ left) j ≡ true
weaken_covered now r j left h = ground (arith, h)

weaken_all :
    (now : ℕ) (r : Job) (left jobs : List Job)
    → every (is_covered now left) jobs ≡ true
    → every (is_covered now (r ∷ left)) jobs ≡ true
weaken_all now r left [] h = refl
weaken_all now r left (j ∷ jobs) h =
    ground (arith, weaken_covered now r j left, weaken_all now r left jobs)

keep-true :
    (p : Job → Bool) (j : Job) (jobs : List Job) → p j ≡ true → keep p (j ∷ jobs) ≡ j ∷ keep p jobs
keep-true p j jobs h = rw h refl

keep-false :
    (p : Job → Bool) (j : Job) (jobs : List Job) → p j ≡ false → keep p (j ∷ jobs) ≡ keep p jobs
keep-false p j jobs h = rw h refl

all_covered :
    (now : ℕ) (jobs : List Job) → every (is_covered now (keep (λ j. j.enabled) jobs)) jobs ≡ true
all_covered now [] = refl
all_covered now (j ∷ jobs) = elim (Bool-cases j.enabled) [
  | inl on ↦
      ap (λ left. every (is_covered now left) (j ∷ jobs)) (keep-true (λ j. j.enabled) j jobs on)
      ∙ ground (arith, weaken_all now j (keep (λ j. j.enabled) jobs) jobs (all_covered now jobs))
  | inr off ↦
      ap (λ left. every (is_covered now left) (j ∷ jobs)) (keep-false (λ j. j.enabled) j jobs off)
      ∙ ground (arith, off, all_covered now jobs)
]

no_due :
    (src : Sources) (now ran : ℕ) (jobs jobs' : List Job)
    → every (is_covered now []) jobs ≡ true
    → (run_jobs src now (keep (λ j. j.enabled) jobs) ran jobs').0 ≡ ran
unfolding run_jobs
no_due src now ran [] jobs' h = refl
no_due src now ran (j ∷ jobs) jobs' h = elim (Bool-cases j.enabled) [
  | inl on ↦
      let idle : is_due j now ≡ false = ground (arith, on, h) in
      ap (λ left. (run_jobs src now left ran jobs').0) (keep-true (λ j. j.enabled) j jobs on)
      ∙ rw (idle, run_jobs) (no_due src now ran jobs jobs' (ground (arith, h)))
  | inr off ↦
      ap (λ left. (run_jobs src now left ran jobs').0) (keep-false (λ j. j.enabled) j jobs off)
      ∙ no_due src now ran jobs jobs' (ground (arith, h))
]

-- Where every job has an interval of a second at least, a second pass at the time of the first one
-- counts no job as run, however the first one's collectors ended.
pub pass-clears :
    (src : Sources) (now : ℕ) (jobs : List Job)
    → every has_interval jobs ≡ true
    → (run_due_jobs src now (run_due_jobs src now jobs).1).0 ≡ 0
unfolding run_due_jobs
pass-clears src now jobs pos =
    let after = (run_jobs src now (keep (λ j. j.enabled) jobs) 0 jobs).1 in
    no_due src now 0 after after
      (run_jobs-clears src now 0 (keep (λ j. j.enabled) jobs) jobs pos (all_covered now jobs))
