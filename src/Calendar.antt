-- ===== src/Calendar.antt =====
-- Calendar days as Python's proleptic ordinals (`date.toordinal`), and the loops over weekdays of
-- code/backend/coverage.py and code/backend/onclick.py. A day later than the last one that `date`
-- can hold is not modelled.
use grindstone.Prelude.{
  ℕ, zero, suc, ◌+◌, ◌-◌, ◌%◌, ◌≤◌, ◌≡◌, refl, Bool, true, ◌&&◌, List, [], ◌∷◌, arith, ltb, leb,
  if◌then◌else◌, contains, nat_eq,
}

-- `d.weekday()`: Monday is 0.
abbrev pub weekday : ℕ → ℕ
weekday d = (d + 6) % 7

-- `while d <= end: ...; d += 1`, with the rounds left as the first argument.
unfoldable pub weekdays_from : ℕ → ℕ → ℕ → List ℕ
weekdays_from zero d last = []
weekdays_from (suc fuel) d last =
    let rest = weekdays_from fuel (d + 1) last in
    if leb d last then (if ltb (weekday d) 5 then d ∷ rest else rest) else []

-- `coverage.trading_days`
unfoldable pub trading_days : ℕ → ℕ → List ℕ
unfolding weekdays_from
trading_days start last = if ltb last start then [] else weekdays_from (last + 1 - start) start last

-- The days that the loop should list.
abbrev pub is_trading_day : ℕ → ℕ → ℕ → Bool
is_trading_day start last d = leb start d && (leb d last && ltb (weekday d) 5)

abbrev pub is_ascending_from : ℕ → List ℕ → Bool
is_ascending_from lo [] = true
is_ascending_from lo (d ∷ ds) = leb lo d && is_ascending_from (d + 1) ds

pub contains-weekdays_from :
    (fuel d last x : ℕ)
    → last + 1 - d ≤ fuel
    → contains (weekdays_from fuel d last) x ≡ is_trading_day d last x
unfolding weekdays_from
contains-weekdays_from zero d last x h = ground arith
contains-weekdays_from (suc fuel) d last x h =
    ground (arith, contains-weekdays_from fuel (d + 1) last x)

pub contains-trading_days :
    (start last x : ℕ) → contains (trading_days start last) x ≡ is_trading_day start last x
unfolding trading_days
contains-trading_days start last x =
    ground (arith, contains-weekdays_from (last + 1 - start) start last x)

ascending_weaken :
    (lo hi : ℕ) (xs : List ℕ)
    → lo ≤ hi
    → is_ascending_from hi xs ≡ true
    → is_ascending_from lo xs ≡ true
ascending_weaken lo hi [] h a = refl
ascending_weaken lo hi (x ∷ xs) h a = ground arith

weekdays_from_ascending : (fuel d last : ℕ) → is_ascending_from d (weekdays_from fuel d last) ≡ true
unfolding weekdays_from
weekdays_from_ascending zero d last = refl
weekdays_from_ascending (suc fuel) d last = ground (
  arith,
  weekdays_from_ascending fuel (d + 1) last,
  ascending_weaken d (d + 1) (weekdays_from fuel (d + 1) last),
)

pub trading_days_ascending :
    (start last : ℕ) → is_ascending_from start (trading_days start last) ≡ true
unfolding trading_days
trading_days_ascending start last =
    ground (arith, weekdays_from_ascending (last + 1 - start) start last)
