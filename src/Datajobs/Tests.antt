-- ===== src/Datajobs/Tests.antt =====
-- Runs of code/backend/datajobs.py at concrete inputs, and the theorems applied there.
use grindstone.Prelude.{
  ℕ, ◌*◌, ◌≡◌, refl, false, some, [], ◌∷◌, length, Text, codes, upper, strip, nat_eq, ◌==◌,
  if◌then◌else◌, text_beq,
}
use grindstone.Onclick.{Fetched, checked, no_day, outside_plan, pull_days, chain, clamp}
use grindstone.Datajobs.Pull.{
  running, Pull, nothing_to_fetch, refused, work, contracts, pull_day, World, run_pull, start_pull,
}
use grindstone.Datajobs.Counted.{total_skips, finished_counts}
use grindstone.Datajobs.Asked.{IsProper, start_pull-IsProper}

-- The first day of the week has left the provider's plan, the second brings a chain, and the rest
-- are empty.
abbrev answer : Text → ℕ → Fetched
answer s d =
    if d == 738004
    then outside_plan
    else if d == 738005
    then checked (chain (codes "x"))
    else checked no_day

abbrev world : World
world = record { fetch = answer; store = λ s d. contracts 12; stops = λ i. false }

abbrev week : Pull
week = record {
  state = running;
  symbols = codes "SPY" ∷ [];
  first = 738004;
  last = 738008;
  total = 5;
  counts = record { done = 0; written = 0; skipped = 0 };
  notes = [];
  delay = 60;
  eta_seconds = 30;
}

-- Five days are done: one is written, and the other four are reported as five.
five_skipped : (run_pull world week).counts ≡ record { done = 5; written = 12; skipped = 5 }
unfolding run_pull pull_day pull_days
five_skipped = refl

too_old :
    start_pull false (codes "spy" ∷ []) (some 100) (some 200) 60 1000 ≡ refused nothing_to_fetch
unfolding start_pull clamp strip text_beq upper
too_old = refl

finished_counts_example :
    ((run_pull world week).counts.done ≡ length (pull_days 738004 738008) * 1)
    × ((run_pull world week).counts.skipped
        ≡ total_skips world (work (codes "SPY" ∷ []) (pull_days 738004 738008)))
unfolding run_pull pull_day pull_days
finished_counts_example = finished_counts world week refl refl

start_pull-IsProper_example :
    IsProper false
      (codes "spy" ∷ [])
      (some 738004)
      (some 738010)
      738020
      738005
      (start_pull false (codes "spy" ∷ []) (some 738004) (some 738010) 60 738020)
start_pull-IsProper_example =
    start_pull-IsProper false (codes "spy" ∷ []) (some 738004) (some 738010) 60 738020 738005
