-- ===== src/Autorecord/Starring.antt =====
-- What `on_favorite_added` of code/backend/autorecord.py promises.
use grindstone.Prelude.{
  ℕ, String, ◌≡◌, refl, ◌∙◌, Bool, true, false, ◌&&◌, Option, none, some, List, [], ◌∷◌, any, every,
  Text, Bool-cases, Option-cases, inl, inr,
}
use grindstone.Recorder.{JobError, Job}
use grindstone.Autorecord.Stars.{
  Spec, specs, spec_error, check_specs, recordability, Reason, ensure_specs, add_checked, clean,
  on_favorite_added,
}
use grindstone.Autorecord.Started.{is_valid, is_met, ensure_specs-meets, ensure_specs-idle}

abbrev is_ok : Option Reason → Bool
is_ok none = true
is_ok (some why) = false

check_specs-is_ok :
    (symbol : Text) (asset_class : Option String) (has_tasty : Bool) (rest : List Spec)
    (errors : List JobError)
    → is_ok (check_specs symbol asset_class has_tasty rest errors)
      ≡ any (λ spec. is_valid (spec_error symbol asset_class has_tasty spec)) rest
unfolding check_specs
check_specs-is_ok symbol asset_class has_tasty [] errors = refl
check_specs-is_ok symbol asset_class has_tasty (spec ∷ rest) errors =
    elim (Option-cases (spec_error symbol asset_class has_tasty spec)) [
      | inl valid ↦ rw (valid, check_specs) refl
      | inr (err, invalid) ↦
          rw (invalid, check_specs) (check_specs-is_ok symbol asset_class has_tasty rest _)
    ]

add_checked-recording :
    (user : ℕ) (symbol : Text) (asset_class : Option String) (has_tasty : Bool) (r : Option Reason)
    (jobs : List Job)
    → (add_checked user symbol asset_class has_tasty r jobs).0.recording ≡ is_ok r
add_checked-recording user symbol asset_class has_tasty none jobs = refl
add_checked-recording user symbol asset_class has_tasty (some why) jobs = refl

module _ (user : ℕ) (symbol : Text) (asset_class : Option String) (known has_tasty : Bool)
    (jobs : List Job) where
  -- Starring a symbol records it exactly if the setting is on, the symbol is known, and some entry of
  -- the plan is allowed for it.
  pub recording_exact :
      (enabled : Bool)
      → (on_favorite_added user symbol asset_class known enabled has_tasty jobs).0.recording ≡ (
          enabled
          && (known
              && any
                  (λ spec. is_valid (spec_error (clean symbol) asset_class has_tasty spec))
                  specs))
  unfolding on_favorite_added recordability
  recording_exact false = refl
  recording_exact true =
      add_checked-recording user (clean symbol) asset_class has_tasty
        (recordability (clean symbol) asset_class known has_tasty) jobs
      ∙ elim (Bool-cases known) [
        | inl synced ↦ rw synced (check_specs-is_ok (clean symbol) asset_class has_tasty specs [])
        | inr missing ↦ rw missing refl
      ]

  meets_if :
      (r : Option Reason)
      → (add_checked user (clean symbol) asset_class has_tasty r jobs).0.recording ≡ true
      → every
          (λ spec.
            is_met user
              (clean symbol)
              asset_class
              has_tasty
              spec
              (add_checked user (clean symbol) asset_class has_tasty r jobs).1)
          specs
        ≡ true
  meets_if none h = ensure_specs-meets user (clean symbol) asset_class has_tasty specs jobs
  meets_if (some why) h = cc

  -- When starring a symbol says that it is recorded, each entry of the plan that is allowed for the
  -- symbol has an enabled job in the table afterwards.
  pub star_records :
      (on_favorite_added user symbol asset_class known true has_tasty jobs).0.recording ≡ true
      → every
          (λ spec.
            is_met user
              (clean symbol)
              asset_class
              has_tasty
              spec
              (on_favorite_added user symbol asset_class known true has_tasty jobs).1)
          specs
        ≡ true
  unfolding on_favorite_added
  star_records h = meets_if (recordability (clean symbol) asset_class known has_tasty) h

  again_if :
      (r : Option Reason)
      → (add_checked user (clean symbol) asset_class has_tasty r jobs).0.recording ≡ true
      → let jobs' = (add_checked user (clean symbol) asset_class has_tasty r jobs).1 in
        add_checked user (clean symbol) asset_class has_tasty r jobs'
        ≡ (record { recording = true; reason = none; jobs = [] }, jobs')
  again_if none h =
      rw
        (ensure_specs-idle user (clean symbol) asset_class has_tasty specs
          (ensure_specs user (clean symbol) asset_class has_tasty specs jobs).1
          (ensure_specs-meets user (clean symbol) asset_class has_tasty specs jobs))
        refl
  again_if (some why) h = cc

  -- Starring a symbol again that was recorded starts and resumes nothing and leaves the table as it
  -- is: no job is made twice.
  pub star_again :
      (on_favorite_added user symbol asset_class known true has_tasty jobs).0.recording ≡ true
      → let jobs' = (on_favorite_added user symbol asset_class known true has_tasty jobs).1 in
        on_favorite_added user symbol asset_class known true has_tasty jobs'
        ≡ (record { recording = true; reason = none; jobs = [] }, jobs')
  unfolding on_favorite_added
  star_again h = again_if (recordability (clean symbol) asset_class known has_tasty) h
