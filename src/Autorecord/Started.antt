-- ===== src/Autorecord/Started.antt =====
-- Starring a symbol: what is recorded afterwards (code/backend/autorecord.py).
use grindstone.Prelude.{
  ℕ, String, ◌≡◌, refl, Bool, true, false, ◌||◌, not, Option, none, some, List, [], ◌∷◌, ◌++◌,
  arith, every, ◌==◌, nat_eq, string_eq, Text, if◌then◌else◌, Bool-cases, inl, inr, beq_refl,
}
use grindstone.Recorder.{JobError, Slot, slot_eq, Job, update_job}
use grindstone.Autorecord.Stars.{
  Spec, slot_of, existing, spec_error, enable, added_job, ensure_found, ensure_checked, ensure_spec,
  ensure_specs,
}

-- The job that the app finds for a slot is there and enabled.
abbrev pub is_on : Option Job → Bool
is_on none = false
is_on (some j) = j.enabled

abbrev pub is_recorded : Slot → List Job → Bool
is_recorded k jobs = is_on (existing k jobs)

abbrev pub changed : ℕ → (Job → Job) → Option Job → Option Job
changed id change none = none
changed id change (some j) = some (if j.id == id then change j else j)

abbrev pub or_else : Option Job → Option Job → Option Job
or_else none o = o
or_else (some j) o = some j

slot-change :
    (id : ℕ) (change : Job → Job) (j : Job)
    → ((i : Job) → (change i).slot ≡ i.slot)
    → (if j.id == id then change j else j).slot ≡ j.slot
slot-change id change j keeps = elim (Bool-cases (j.id == id)) [
  | inl same ↦ rw same (keeps j)
  | inr other ↦ rw other refl
]

pub existing-update_job :
    (k : Slot) (id : ℕ) (change : Job → Job) (jobs : List Job)
    → ((j : Job) → (change j).slot ≡ j.slot)
    → existing k (update_job id change jobs) ≡ changed id change (existing k jobs)
unfolding existing update_job
existing-update_job k id change [] keeps = refl
existing-update_job k id change (j ∷ jobs) keeps = elim (Bool-cases (j.slot == k)) [
  | inl here ↦ rw (slot-change id change j keeps, here) refl
  | inr there ↦
      rw (slot-change id change j keeps, there) (existing-update_job k id change jobs keeps)
]

existing-append :
    (k : Slot) (n : Job) (jobs : List Job)
    → existing k (jobs ++ (n ∷ []))
      ≡ or_else (existing k jobs) (if n.slot == k then some n else none)
unfolding existing
existing-append k n [] = refl
existing-append k n (j ∷ jobs) = elim (Bool-cases (j.slot == k)) [
  | inl here ↦ rw here refl
  | inr there ↦ rw there (existing-append k n jobs)
]

on-enable : (id : ℕ) (o : Option Job) → is_on o ≡ true → is_on (changed id enable o) ≡ true
on-enable id none h = cc
on-enable id (some j) h = ground (arith, h)

on-or_else : (o o' : Option Job) → is_on o ≡ true → is_on (or_else o o') ≡ true
on-or_else none o' h = cc
on-or_else (some j) o' h = h

ensure_found-monotone :
    (symbol : Text) (spec : Spec) (k k' : Slot) (found : Option Job) (jobs : List Job)
    → is_recorded k' jobs ≡ true
    → is_recorded k' (ensure_found symbol spec k found jobs).1 ≡ true
ensure_found-monotone symbol spec k k' (some j) jobs h = elim (Bool-cases j.enabled) [
  | inl on ↦ rw on h
  | inr off ↦ rw off (
      rw (existing-update_job k' j.id enable jobs (λ i. refl))
        (on-enable j.id (existing k' jobs) h))
]
ensure_found-monotone symbol spec k k' none jobs h =
    rw (existing-append k' (added_job symbol spec k jobs) jobs) (on-or_else (existing k' jobs) _ h)

ensure_found-records :
    (symbol : Text) (spec : Spec) (k : Slot) (found : Option Job) (jobs : List Job)
    → existing k jobs ≡ found
    → is_recorded k (ensure_found symbol spec k found jobs).1 ≡ true
ensure_found-records symbol spec k (some j) jobs e = elim (Bool-cases j.enabled) [
  | inl on ↦ rw on (rw e on)
  | inr off ↦
      rw off
        (rw (existing-update_job k j.id enable jobs (λ i. refl)) (rw e (rw (beq_refl j.id) refl)))
]
ensure_found-records symbol spec k none jobs e =
    rw (existing-append k (added_job symbol spec k jobs) jobs) (rw e (rw (beq_refl k) refl))

ensure_found-idle :
    (symbol : Text) (spec : Spec) (k : Slot) (found : Option Job) (jobs : List Job)
    → is_on found ≡ true
    → ensure_found symbol spec k found jobs ≡ ([], jobs)
ensure_found-idle symbol spec k none jobs h = cc
ensure_found-idle symbol spec k (some j) jobs h = rw h refl

-- What the plan asks of a symbol is met: each entry of it that is allowed has an enabled job.
abbrev pub is_valid : Option JobError → Bool
is_valid none = true
is_valid (some err) = false

abbrev pub is_met_if : ℕ → Text → Spec → Option JobError → List Job → Bool
is_met_if user symbol spec err jobs =
    not (is_valid err) || is_recorded (slot_of user symbol spec) jobs

abbrev pub is_met : ℕ → Text → Option String → Bool → Spec → List Job → Bool
is_met user symbol asset_class has_tasty spec jobs =
    is_met_if user symbol spec (spec_error symbol asset_class has_tasty spec) jobs

ensure_checked-monotone :
    (user : ℕ) (symbol : Text) (spec : Spec) (err : Option JobError) (k : Slot) (jobs : List Job)
    → is_recorded k jobs ≡ true
    → is_recorded k (ensure_checked user symbol spec err jobs).1 ≡ true
ensure_checked-monotone user symbol spec (some err) k jobs h = h
ensure_checked-monotone user symbol spec none k jobs h =
    ensure_found-monotone symbol spec (slot_of user symbol spec) k
      (existing (slot_of user symbol spec) jobs) jobs h

ensure_checked-meets :
    (user : ℕ) (symbol : Text) (spec : Spec) (err : Option JobError) (jobs : List Job)
    → is_met_if user symbol spec err (ensure_checked user symbol spec err jobs).1 ≡ true
ensure_checked-meets user symbol spec (some err) jobs = refl
ensure_checked-meets user symbol spec none jobs =
    ensure_found-records symbol spec (slot_of user symbol spec)
      (existing (slot_of user symbol spec) jobs) jobs refl

ensure_checked-idle :
    (user : ℕ) (symbol : Text) (spec : Spec) (err : Option JobError) (jobs : List Job)
    → is_met_if user symbol spec err jobs ≡ true
    → ensure_checked user symbol spec err jobs ≡ ([], jobs)
ensure_checked-idle user symbol spec (some err) jobs h = refl
ensure_checked-idle user symbol spec none jobs h =
    ensure_found-idle symbol spec (slot_of user symbol spec)
      (existing (slot_of user symbol spec) jobs) jobs h

module _ (user : ℕ) (symbol : Text) (asset_class : Option String) (has_tasty : Bool) where
  ensure_specs-monotone :
      (rest : List Spec) (k : Slot) (jobs : List Job)
      → is_recorded k jobs ≡ true
      → is_recorded k (ensure_specs user symbol asset_class has_tasty rest jobs).1 ≡ true
  unfolding ensure_specs ensure_spec
  ensure_specs-monotone [] k jobs h = h
  ensure_specs-monotone (spec ∷ rest) k jobs h =
      ensure_specs-monotone rest k (ensure_spec user symbol asset_class has_tasty spec jobs).1 (
        ensure_checked-monotone user symbol spec (spec_error symbol asset_class has_tasty spec) k
          jobs h)

  pub ensure_specs-meets :
      (rest : List Spec) (jobs : List Job)
      → every
          (λ spec.
            is_met user symbol asset_class has_tasty spec
              (ensure_specs user symbol asset_class has_tasty rest jobs).1)
          rest
        ≡ true
  unfolding ensure_specs ensure_spec
  ensure_specs-meets [] jobs = refl
  ensure_specs-meets (spec ∷ rest) jobs =
      let jobs' = (ensure_spec user symbol asset_class has_tasty spec jobs).1 in
      ground (
        arith,
        ensure_checked-meets user symbol spec (spec_error symbol asset_class has_tasty spec) jobs,
        ensure_specs-monotone rest (slot_of user symbol spec) jobs',
        ensure_specs-meets rest jobs',
      )

  pub ensure_specs-idle :
      (rest : List Spec) (jobs : List Job)
      → every (λ spec. is_met user symbol asset_class has_tasty spec jobs) rest ≡ true
      → ensure_specs user symbol asset_class has_tasty rest jobs ≡ ([], jobs)
  unfolding ensure_specs ensure_spec
  ensure_specs-idle [] jobs h = refl
  ensure_specs-idle (spec ∷ rest) jobs h =
      rw
        (ensure_checked-idle user symbol spec (spec_error symbol asset_class has_tasty spec) jobs
          (ground (arith, h)))
        (rw (ensure_specs-idle rest jobs (ground (arith, h))) refl)
