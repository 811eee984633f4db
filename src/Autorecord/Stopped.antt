-- ===== src/Autorecord/Stopped.antt =====
-- What `on_favorite_removed` of code/backend/autorecord.py promises: it stops the jobs and deletes
-- nothing.
use grindstone.Prelude.{
  ℕ, ◌≡◌, refl, ◌∙◌, Bool, true, false, not, Option, none, some, List, [], ◌∷◌, map, arith, every,
  Text, ◌==◌, nat_eq, if◌then◌else◌, Bool-cases, inl, inr, beq_refl,
}
use grindstone.Recorder.{Slot, Job, update_job}
use grindstone.Autorecord.Stars.{
  Spec, specs, slot_of, existing, disable, stop_found, stop_specs, clean, on_favorite_removed,
}
use grindstone.Autorecord.Started.{is_on, is_recorded, changed, existing-update_job}

-- A job without the two columns that say whether it runs.
abbrev pub unswitched : Job → Job
unswitched j = record j { enabled = false; last_status = "" }

unswitched-disable :
    (id : ℕ) (j : Job) → unswitched (if j.id == id then disable j else j) ≡ unswitched j
unswitched-disable id j = elim (Bool-cases (j.id == id)) [
  | inl same ↦ rw same refl
  | inr other ↦ rw other refl
]

unswitched-update_job :
    (id : ℕ) (jobs : List Job) → map unswitched (update_job id disable jobs) ≡ map unswitched jobs
unfolding update_job
unswitched-update_job id [] = refl
unswitched-update_job id (j ∷ jobs) = cc (unswitched-disable id j, unswitched-update_job id jobs)

unswitched-stop_found :
    (found : Option Job) (jobs : List Job)
    → map unswitched (stop_found found jobs) ≡ map unswitched jobs
unswitched-stop_found none jobs = refl
unswitched-stop_found (some j) jobs = elim (Bool-cases j.enabled) [
  | inl on ↦ rw on (unswitched-update_job j.id jobs)
  | inr off ↦ rw off refl
]

off-disable : (id : ℕ) (o : Option Job) → is_on o ≡ false → is_on (changed id disable o) ≡ false
off-disable id none h = refl
off-disable id (some j) h = ground (arith, h)

stop_found-monotone :
    (found : Option Job) (k : Slot) (jobs : List Job)
    → is_recorded k jobs ≡ false
    → is_recorded k (stop_found found jobs) ≡ false
stop_found-monotone none k jobs h = h
stop_found-monotone (some j) k jobs h = elim (Bool-cases j.enabled) [
  | inl on ↦ rw on (
      rw (existing-update_job k j.id disable jobs (λ i. refl))
        (off-disable j.id (existing k jobs) h))
  | inr off ↦ rw off h
]

stop_found-stops :
    (found : Option Job) (k : Slot) (jobs : List Job)
    → existing k jobs ≡ found
    → is_recorded k (stop_found found jobs) ≡ false
stop_found-stops none k jobs e = rw e refl
stop_found-stops (some j) k jobs e = elim (Bool-cases j.enabled) [
  | inl on ↦
      rw on
        (rw (existing-update_job k j.id disable jobs (λ i. refl)) (rw e (rw (beq_refl j.id) refl)))
  | inr off ↦ rw off (rw e off)
]

module _ (user : ℕ) (symbol : Text) where
  unswitched-stop_specs :
      (rest : List Spec) (jobs : List Job)
      → map unswitched (stop_specs user symbol rest jobs).1 ≡ map unswitched jobs
  unfolding stop_specs
  unswitched-stop_specs [] jobs = refl
  unswitched-stop_specs (spec ∷ rest) jobs =
      unswitched-stop_specs rest (stop_found (existing (slot_of user symbol spec) jobs) jobs)
      ∙ unswitched-stop_found (existing (slot_of user symbol spec) jobs) jobs

  stop_specs-monotone :
      (rest : List Spec) (k : Slot) (jobs : List Job)
      → is_recorded k jobs ≡ false
      → is_recorded k (stop_specs user symbol rest jobs).1 ≡ false
  unfolding stop_specs
  stop_specs-monotone [] k jobs h = h
  stop_specs-monotone (spec ∷ rest) k jobs h =
      stop_specs-monotone rest k (stop_found (existing (slot_of user symbol spec) jobs) jobs)
        (stop_found-monotone (existing (slot_of user symbol spec) jobs) k jobs h)

  stop_specs-stops :
      (rest : List Spec) (jobs : List Job)
      → every
          (λ spec.
            not (is_recorded (slot_of user symbol spec) (stop_specs user symbol rest jobs).1))
          rest
        ≡ true
  unfolding stop_specs
  stop_specs-stops [] jobs = refl
  stop_specs-stops (spec ∷ rest) jobs =
      let k = slot_of user symbol spec in
      let found = existing (slot_of user symbol spec) jobs in
      ground (
        arith,
        stop_specs-monotone rest k (stop_found found jobs) (stop_found-stops found k jobs refl),
        stop_specs-stops rest (stop_found found jobs),
      )

-- Un-starring deletes no job and changes nothing of any but whether it runs and its last status.
pub unstar_deletes_nothing :
    (user : ℕ) (symbol : Text) (enabled : Bool) (jobs : List Job)
    → map unswitched (on_favorite_removed user symbol enabled jobs).1 ≡ map unswitched jobs
unfolding on_favorite_removed
unstar_deletes_nothing user symbol false jobs = refl
unstar_deletes_nothing user symbol true jobs = unswitched-stop_specs user (clean symbol) specs jobs

-- With the setting on, no job that the app finds for an entry of the plan is enabled after the symbol
-- was un-starred.
pub unstar_stops :
    (user : ℕ) (symbol : Text) (jobs : List Job)
    → every
        (λ spec. not (
          is_recorded
            (slot_of user (clean symbol) spec)
            (on_favorite_removed user symbol true jobs).1))
        specs
      ≡ true
unfolding on_favorite_removed
unstar_stops user symbol jobs = stop_specs-stops user (clean symbol) specs jobs
