-- ===== src/Autorecord/Tests.antt =====
-- Runs of code/backend/autorecord.py at concrete inputs, and the theorems applied there.
use grindstone.Prelude.{
  ◌≡◌, refl, true, false, none, some, List, [], ◌∷◌, map, every, Text, codes, upper, strip,
  text_beq,
}
use grindstone.Recorder.{validate_job, slot_beq, Job, update_job}
use grindstone.Autorecord.Stars.{
  specs, check_specs, recordability, existing, ensure_spec, ensure_specs, Added, started, clean,
  on_favorite_added, stop_specs, on_favorite_removed,
}
use grindstone.Autorecord.Started.{is_met}
use grindstone.Autorecord.Starring.{star_records}
use grindstone.Autorecord.Stopped.{unswitched, unstar_deletes_nothing}

-- A future with a TastyTrade account: its chain is recorded, and its bars are not.
abbrev es : Text
es = codes " /es"

abbrev starred : Added × List Job
starred = on_favorite_added 1 es (some "future") true true true []

one_job : starred.0.jobs ≡ record { id = 1; kind = "chain"; action = started } ∷ []
unfolding on_favorite_added recordability check_specs ensure_specs ensure_spec existing validate_job
    upper strip text_beq
one_job = refl

two_stopped :
    (on_favorite_removed 1
      (codes "SPY")
      true
      (on_favorite_added 1 (codes "spy") none true true false []).1).0
    ≡ 1 ∷ 2 ∷ []
unfolding on_favorite_added recordability check_specs ensure_specs ensure_spec existing validate_job
    upper strip stop_specs on_favorite_removed slot_beq text_beq update_job
two_stopped = refl

star_records_example :
    every (λ spec. is_met 1 (clean es) (some "future") true spec starred.1) specs ≡ true
unfolding on_favorite_added recordability check_specs validate_job upper strip text_beq
star_records_example = star_records 1 es (some "future") true true [] refl

unstar_deletes_nothing_example :
    map unswitched (on_favorite_removed 1 es true starred.1).1 ≡ map unswitched starred.1
unstar_deletes_nothing_example = unstar_deletes_nothing 1 es true starred.1
