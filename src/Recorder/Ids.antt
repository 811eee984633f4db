-- ===== src/Recorder/Ids.antt =====
-- Lists of jobs whose ids differ (the table record_jobs of code/backend/recorder.py).
use grindstone.Prelude.{
  ◌||◌, ℕ, ◌≡◌, refl, ap, ◌∙◌, true, false, List, [], ◌∷◌, ◌++◌, map, contains, arith, ◌==◌, nat_eq,
  beq_refl,
}
use grindstone.Prelude.{distinct}
use grindstone.Recorder.Jobs.{Job, update_job}

abbrev pub id_of_job : Job → ℕ
id_of_job j = j.id

abbrev pub ids : List Job → List ℕ
ids jobs = map id_of_job jobs

-- An update of a job changes no job with another id.
update_other :
    (id : ℕ) (change : Job → Job) (jobs : List Job)
    → contains (ids jobs) id ≡ false
    → update_job id change jobs ≡ jobs
unfolding update_job
update_other id change [] h = refl
update_other id change (j ∷ jobs) h =
    let other : (j.id == id) ≡ false = ground (arith, h) in
    rw (other, update_other id change jobs (ground (arith, h))) refl

pub update_one :
    (change : Job → Job) (before : List Job) (j : Job) (after : List Job)
    → contains (ids before) j.id ≡ false
    → contains (ids after) j.id ≡ false
    → update_job j.id change (before ++ j ∷ after) ≡ before ++ change j ∷ after
unfolding update_job
update_one change [] j after h h' = rw (beq_refl j.id, update_other j.id change after h') refl
update_one change (k ∷ before) j after h h' =
    let other : (k.id == j.id) ≡ false = ground (arith, h) in
    rw (other, update_one change before j after (ground (arith, h)) h') refl

contains-middle :
    (before : List Job) (j : Job) (jobs : List Job) (x : ℕ)
    → contains (ids (before ++ j ∷ jobs)) x
      ≡ (contains (ids before) x || (j.id == x || contains (ids jobs) x))
contains-middle [] j jobs x = refl
contains-middle (b ∷ before) j jobs x = ground (arith, contains-middle before j jobs x)

pub alone :
    (before : List Job) (j : Job) (jobs : List Job)
    → distinct (ids (before ++ j ∷ jobs)) ≡ true
    → (contains (ids before) j.id ≡ false) × (contains (ids jobs) j.id ≡ false)
alone [] j jobs h = (refl, ground (arith, h))
alone (b ∷ before) j jobs h =
    let later = alone before j jobs (ground (arith, h)) in
    (ground (arith, h, later.0, contains-middle before j jobs b.id), later.1)

pub moved :
    (before : List Job) (k : Job) (jobs : List Job)
    → (before ++ k ∷ []) ++ jobs ≡ before ++ k ∷ jobs
moved [] k jobs = refl
moved (b ∷ before) k jobs = ap (λ js. b ∷ js) (moved before k jobs)

ids-change :
    (before : List Job) (j k : Job) (jobs : List Job)
    → k.id ≡ j.id
    → ids (before ++ k ∷ jobs) ≡ ids (before ++ j ∷ jobs)
ids-change [] j k jobs same = ap (λ i. i ∷ ids jobs) same
ids-change (b ∷ before) j k jobs same = ap (λ is. b.id ∷ is) (ids-change before j k jobs same)

pub still_distinct :
    (before : List Job) (j k : Job) (jobs : List Job)
    → k.id ≡ j.id
    → distinct (ids (before ++ j ∷ jobs)) ≡ true
    → distinct (ids ((before ++ k ∷ []) ++ jobs)) ≡ true
still_distinct before j k jobs same h =
    ap (λ js. distinct (ids js)) (moved before k jobs)
    ∙ ap (λ is. distinct is) (ids-change before j k jobs same)
    ∙ h
