-- ===== src/Coverage/Gaps.antt =====
-- `gaps` and `summary` of code/backend/coverage.py.
use grindstone.Prelude.{
  ℕ, ◌-◌, ◌/◌, Bool, ◌&&◌, ◌||◌, Option, none, some, List, [], ◌∷◌, ◌++◌, map, reverse, ltb, leb,
  length, take, keep, min, max, not, contains, ◌==◌, nat_eq, string_eq, text_eq, Text, String,
  upper, if◌then◌else◌,
}
use grindstone.Calendar.{trading_days}
use grindstone.Coverage.Types.{
  State, have, absent, failed, settled, state_eq, retry_cooldown, Feed, feed_eq, Row, Table,
}
use grindstone.Coverage.Mark.{stored, is_state}

-- The arguments of `gaps` after the feed; `cooldown` is in seconds.
pub record Query : Type 0 where
  pub start : ℕ
  pub last : ℕ
  pub limit : ℕ
  pub prefer_untried : Bool
  pub cooldown : ℕ
  pub newest_first : Bool
  pub max_attempts : ℕ

-- `checked_at > datetime('now', '-N hours')` compares two texts, 'YYYY-MM-DDTHH:MM:SSZ' and
-- 'YYYY-MM-DD HH:MM:SS': first the days, and on one day the characters 'T' and ' ', which differ.
unfoldable pub checked_after : ℕ → ℕ → Bool
checked_after checked cutoff =
    let a = checked / 86400 in let b = cutoff / 86400 in ltb b a || (a == b && ltb b' ' b'T')

abbrev pub in_range : Feed → Query → Row → Bool
in_range f q r = r.feed == stored f && (leb q.start r.period && leb r.period q.last)

abbrev pub is_settled : Row → Bool
is_settled r = contains settled r.state

abbrev pub is_resting : Query → ℕ → Row → Bool
is_resting q now r = checked_after r.checked_at (now - q.cooldown)

abbrev pub is_exhausted : Query → ℕ → Row → Bool
is_exhausted q now r =
    leb q.max_attempts r.attempts && checked_after r.checked_at (now - retry_cooldown)

abbrev pub period_of : Row → ℕ
period_of r = r.period

-- `SELECT period FROM data_cover WHERE ...`
abbrev pub select : (Row → Bool) → Table → List ℕ
select p t = map period_of (keep p t)

-- The set `settled` when the loops over the table are done.
unfoldable pub passed_over : Feed → Query → ℕ → Table → List ℕ
passed_over f q now t =
    select (λ r. in_range f q r && is_settled r) t
    ++ ((if ltb 0 q.cooldown then select (λ r. in_range f q r && is_resting q now r) t else [])
        ++ (if ltb 0 q.max_attempts
            then select (λ r. in_range f q r && is_exhausted q now r) t
            else []))

abbrev pub untried_first : List ℕ → List ℕ → List ℕ
untried_first tried out = keep (λ d. not (contains tried d)) out ++ keep (λ d. contains tried d) out

-- `out` before it is cut to `limit`.
unfoldable pub candidates : Feed → Query → ℕ → Table → List ℕ
unfolding passed_over
candidates f q now t =
    let skip = passed_over f q now t in
    let out = keep (λ d. not (contains skip d)) (trading_days q.start q.last) in
    let ordered = if q.newest_first then reverse out else out in
    if q.prefer_untried
    then untried_first (select (λ r. in_range f q r && is_state failed r) t) ordered
    else ordered

unfoldable pub gaps : Feed → Query → ℕ → Table → List ℕ
unfolding candidates
gaps f q now t = take q.limit (candidates f q now t)

-- One group of the `GROUP BY state` query.
pub record Group : Type 0 where
  pub periods : ℕ
  pub first : Option ℕ
  pub last : Option ℕ

abbrev lowest : List ℕ → Option ℕ
lowest [] = none
lowest (d ∷ ds) = elim (lowest ds) [ none ↦ some d | some m ↦ some (min d m) ]

abbrev highest : List ℕ → Option ℕ
highest [] = none
highest (d ∷ ds) = elim (highest ds) [ none ↦ some d | some m ↦ some (max d m) ]

abbrev of_series : String → Text → String → Row → Bool
of_series kind symbol timeframe r =
    r.feed.kind == kind && (r.feed.symbol == upper symbol && r.feed.timeframe == timeframe)

-- `by_state.get(state, {})`
unfoldable pub group : String → Text → String → State → Table → Group
group kind symbol timeframe s t =
    let ds = select (λ r. of_series kind symbol timeframe r && is_state s r) t in
    record { periods = length ds; first = lowest ds; last = highest ds }

pub record Summary : Type 0 where
  pub have_periods : ℕ
  pub absent_periods : ℕ
  pub failed_periods : ℕ
  pub first : Option ℕ
  pub last : Option ℕ

unfoldable pub summary : String → Text → String → Table → Summary
unfolding group
summary kind symbol timeframe t =
    let held = group kind symbol timeframe have t in
    record {
      have_periods = held.periods;
      absent_periods = (group kind symbol timeframe absent t).periods;
      failed_periods = (group kind symbol timeframe failed t).periods;
      first = held.first;
      last = held.last;
    }
