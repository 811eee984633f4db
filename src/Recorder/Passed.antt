-- ===== src/Recorder/Passed.antt =====
-- What a pass of the recorder over the due jobs makes of the table (code/backend/recorder.py).
use grindstone.Prelude.{
  some, ℕ, ◌+◌, String, ◌≡◌, refl, sym, ap, ◌∙◌, Bool, true, false, ◌&&◌, not, List, [], ◌∷◌, ◌++◌,
  map, keep, contains, length, arith, nat_eq, Bool-cases, if◌then◌else◌, inl, inr,
}
use grindstone.Prelude.{distinct}
use grindstone.Recorder.Jobs.{Job}
use grindstone.Recorder.Ids.{ids, update_one, alone, moved, still_distinct}
use grindstone.Recorder.Runs.{
  is_due, finish, Collected, collected, failed_with, finish_collected, is_future_chain, run_job,
  run_jobs, run_due_jobs, Sources,
}

-- The rows and the status that a run is written down with.
abbrev pub written : Collected → ℕ × String
written (collected rows) = (rows, "ok")
written (failed_with status) = (0, status)

abbrev pub outcome : Sources → Job → ℕ × String
outcome src j =
    if is_future_chain j && not (src.has_tasty j.slot.user_id)
    then (0, "locked — sign in to record (TastyTrade)")
    else if not (is_future_chain j) && not (src.has_creds j.slot.user_id)
    then (0, "locked — sign in to record")
    else written (src.collect j)

-- A job whose turn it is, and what becomes of it: it is stamped, with the rows and the status of its run.
abbrev pub has_turn : ℕ → Job → Bool
has_turn now j = j.enabled && is_due j now

abbrev pub stamped : ℕ → ℕ × String → Job → Job
stamped now (rows, status) j = record j {
  last_run_at = some now;
  last_status = status;
  last_rows = rows;
}

abbrev pub after_pass : Sources → ℕ → Job → Job
after_pass src now j = if has_turn now j then stamped now (outcome src j) j else j

finish-one :
    (now rows : ℕ) (status : String) (before : List Job) (j : Job) (after : List Job)
    → contains (ids before) j.id ≡ false
    → contains (ids after) j.id ≡ false
    → finish j now rows status (before ++ j ∷ after)
      ≡ before ++ stamped now (rows, status) j ∷ after
unfolding finish
finish-one now rows status before j after h h' =
    update_one (stamped now (rows, status)) before j after h h'

finish_collected-one :
    (now : ℕ) (c : Collected) (before : List Job) (j : Job) (after : List Job)
    → contains (ids before) j.id ≡ false
    → contains (ids after) j.id ≡ false
    → finish_collected j now c (before ++ j ∷ after) ≡ before ++ stamped now (written c) j ∷ after
finish_collected-one now (collected rows) before j after h h' =
    finish-one now rows "ok" before j after h h'
finish_collected-one now (failed_with status) before j after h h' =
    finish-one now 0 status before j after h h'

run_job-one :
    (src : Sources) (now : ℕ) (before : List Job) (j : Job) (after : List Job)
    → contains (ids before) j.id ≡ false
    → contains (ids after) j.id ≡ false
    → run_job src j now (before ++ j ∷ after) ≡ before ++ stamped now (outcome src j) j ∷ after
unfolding run_job
run_job-one src now before j after h h' =
    let ends = finish_collected-one now (src.collect j) before j after h h' in
    elim (Bool-cases (is_future_chain j)) [
      | inl future ↦ elim (Bool-cases (src.has_tasty j.slot.user_id)) [
        | inl allowed ↦ rw (future, allowed) ends
        | inr locked ↦ rw (future, locked) (finish-one now 0 _ before j after h h')
      ]
      | inr other ↦ elim (Bool-cases (src.has_creds j.slot.user_id)) [
        | inl allowed ↦ rw (other, allowed) ends
        | inr locked ↦ rw (other, locked) (finish-one now 0 _ before j after h h')
      ]
    ]

abbrev ended : ℕ → List Job → ℕ × List Job
ended ran jobs = (ran, jobs)

module _ (src : Sources) (now : ℕ) where
  -- The pass goes on behind the job `k`.
  goes_on :
      (ran n : ℕ) (before : List Job) (k : Job) (left jobs after : List Job)
      → run_jobs src now left ran ((before ++ k ∷ []) ++ jobs) ≡ (n, (before ++ k ∷ []) ++ after)
      → run_jobs src now left ran (before ++ k ∷ jobs) ≡ (n, before ++ k ∷ after)
  goes_on ran n before k left jobs after h =
      ap (λ js. run_jobs src now left ran js) (sym (moved before k jobs))
      ∙ h
      ∙ ap (ended n) (moved before k after)

  -- One job of the query, by its switch and by whether it is due.
  next_job :
      (b d : Bool) (ran : ℕ) (j : Job) (jobs rows : List Job)
      → j.enabled ≡ b
      → is_due j now ≡ d
      → run_jobs src now (keep (λ j. j.enabled) (j ∷ jobs)) ran rows ≡ (
          if b && d
          then run_jobs src now (keep (λ j. j.enabled) jobs) (ran + 1) (run_job src j now rows)
          else run_jobs src now (keep (λ j. j.enabled) jobs) ran rows)
  unfolding run_jobs
  next_job b d ran j jobs rows e e' =
      ap (λ c. run_jobs src now (if c then j ∷ left else left) ran rows) e ∙ reads b d e'
    where
      left : List Job
      left = keep (λ j. j.enabled) jobs

      reads :
          (b d : Bool)
          → is_due j now ≡ d
          → run_jobs src now (if b then j ∷ left else left) ran rows ≡ (
              if b && d
              then run_jobs src now left (ran + 1) (run_job src j now rows)
              else run_jobs src now left ran rows)
      reads false d q = refl
      reads true false q = rw (q, run_jobs) refl
      reads true true q = rw (q, run_jobs) refl

  -- What the pass comes to, with the job `j` become what its turn makes of it.
  abbrev reached : ℕ → List Job → Job → List Job → Bool → ℕ × List Job
  reached ran before j jobs turn = (
    ran + length (if turn then j ∷ keep (has_turn now) jobs else keep (has_turn now) jobs),
    before ++ (if turn then stamped now (outcome src j) j else j) ∷ map (after_pass src now) jobs,
  )

  by_turn :
      (turn : Bool) (ran : ℕ) (before : List Job) (j : Job) (jobs : List Job)
      → distinct (ids (before ++ j ∷ jobs)) ≡ true
      → ((k : Job) (n : ℕ)
          → k.id ≡ j.id
          → run_jobs src now (keep (λ j. j.enabled) jobs) n ((before ++ k ∷ []) ++ jobs) ≡ (
            n + length (keep (has_turn now) jobs),
            (before ++ k ∷ []) ++ map (after_pass src now) jobs,
          ))
      → (if turn
          then run_jobs src now
              (keep (λ j. j.enabled) jobs)
              (ran + 1)
              (run_job src j now (before ++ j ∷ jobs))
          else run_jobs src now (keep (λ j. j.enabled) jobs) ran (before ++ j ∷ jobs))
        ≡ reached ran before j jobs turn
  by_turn false ran before j jobs h rest =
      goes_on ran _ before j (keep (λ j. j.enabled) jobs) jobs (map (after_pass src now) jobs)
        (rest j ran refl)
  by_turn true ran before j jobs h rest =
      let single = alone before j jobs h in
      let k = stamped now (outcome src j) j in
      ap (λ rows. run_jobs src now (keep (λ j. j.enabled) jobs) (ran + 1) rows)
        (run_job-one src now before j jobs single.0 single.1)
      ∙ goes_on (ran + 1) _ before k (keep (λ j. j.enabled) jobs) jobs
          (map (after_pass src now) jobs) (rest k (ran + 1) refl)
      ∙ ap (λ n. ended n (before ++ k ∷ map (after_pass src now) jobs)) (omega arith)

  run_jobs-exact :
      (ran : ℕ) (before jobs : List Job)
      → distinct (ids (before ++ jobs)) ≡ true
      → run_jobs src now (keep (λ j. j.enabled) jobs) ran (before ++ jobs)
        ≡ (ran + length (keep (has_turn now) jobs), before ++ map (after_pass src now) jobs)
  unfolding run_jobs
  run_jobs-exact ran before [] h = ap (λ n. ended n (before ++ [])) (omega arith)
  run_jobs-exact ran before (j ∷ jobs) h =
      next_job j.enabled (is_due j now) ran j jobs (before ++ j ∷ jobs) refl refl
      ∙ by_turn (has_turn now j) ran before j jobs h (λ k n same.
        run_jobs-exact n (before ++ k ∷ []) jobs (still_distinct before j k jobs same h))

  -- A pass runs every job that is enabled and due, and no other, and counts them: where the ids of the jobs
  -- differ, each of those is stamped with the time, and with the rows and the status that its collector
  -- brought, or with the reason why no key is at hand for it; any other job of the table is as it was.
  pub run_due_jobs-exact :
      (jobs : List Job)
      → distinct (ids jobs) ≡ true
      → run_due_jobs src now jobs
        ≡ (length (keep (has_turn now) jobs), map (after_pass src now) jobs)
  unfolding run_due_jobs
  run_due_jobs-exact jobs h =
      run_jobs-exact 0 [] jobs h ∙ ap (λ n. ended n (map (after_pass src now) jobs)) (omega arith)
