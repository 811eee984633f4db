-- ===== src/Onclick/Window.antt =====
-- `window`, `clamp` and `trading_days` of code/backend/onclick.py.
use grindstone.Prelude.{ℕ, ◌+◌, ◌-◌, List, [], ◌∷◌, ◌++◌, ltb, min, max, if◌then◌else◌}
use grindstone.Calendar.{weekdays_from}

-- `WINDOW_DAYS`
abbrev pub window_days : ℕ
window_days = 180

unfoldable pub window : ℕ → ℕ × ℕ
window today = (today - window_days, today - 1)

-- The parts of the note: where the range was cut, and at which day.
pub data Note : Type 0 where
  starts_at : ℕ → Note
  ends_at : ℕ → Note

unfoldable pub clamp : ℕ → ℕ → ℕ → ℕ × ℕ × List Note
unfolding window
clamp start last today =
    let (lo, hi) = window today in
    (
      max start lo,
      min last hi,
      (if ltb start lo then starts_at lo ∷ [] else [])
          ++ (if ltb hi last then ends_at hi ∷ [] else []),
    )

-- `onclick.trading_days`
unfoldable pub pull_days : ℕ → ℕ → List ℕ
unfolding weekdays_from
pull_days start last = weekdays_from (last + 1 - start) start last
