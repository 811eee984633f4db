-- ===== src/Coverage/Tests.antt =====
-- Runs of code/backend/coverage.py at concrete inputs, and the theorems applied there.
use grindstone.Prelude.{
  ℕ, ◌+◌, ◌*◌, ◌≡◌, refl, ◌⊎◌, true, false, ◌&&◌, some, List, [], ◌∷◌, arith, contains, ◌==◌,
  nat_eq, string_eq, codes, upper, text_beq, if◌then◌else◌,
}
use grindstone.Calendar.{trading_days}
use grindstone.Coverage.Types.{
  State, have, absent, failed, unknown, authoritative, earns_authority, Feed, feed_beq, feed_eq,
  Row,
}
use grindstone.Coverage.Mark.{stored, state_of, claim, mark}
use grindstone.Coverage.Gaps.{Query, candidates, gaps, checked_after}
use grindstone.Coverage.Wanted.{is_wanted, gaps_exact}
use grindstone.Coverage.Claims.{state_of-mark}
use grindstone.Coverage.Earned.{Call, replay, was_returned, absent_is_earned}
use grindstone.Coverage.Retry.{unanswered_is_retried, cooldown_overstays}

-- 2021-08-02, a Monday.
abbrev monday : ℕ
monday = 738004

abbrev spy : Feed
spy = record { provider = "alpaca-iex"; kind = "bars"; symbol = codes "spy"; timeframe = "1Day" }

abbrev onclick_chain : Feed
onclick_chain = record {
  provider = "onclick";
  kind = "chain";
  symbol = codes "SPY";
  timeframe = "";
}

abbrev week : ℕ → ℕ → Query
week cooldown attempts = record {
  start = monday;
  last = monday + 6;
  limit = 5000;
  prefer_untried = false;
  cooldown = cooldown;
  newest_first = true;
  max_attempts = attempts;
}

-- Four minutes past midnight, and 23 hours later on that day.
abbrev early : ℕ
early = 86400 * 738004 + 240

abbrev late : ℕ
late = early + 82800

abbrev row : State → ℕ → ℕ → Row
row s checked attempts = record {
  feed = stored spy;
  period = monday;
  state = s;
  rows = 0;
  checked_at = checked;
  detail = "";
  attempts = attempts;
}

week_days : trading_days monday (monday + 6) ≡ 738004 ∷ 738005 ∷ 738006 ∷ 738007 ∷ 738008 ∷ []
unfolding trading_days
week_days = refl

-- The newest day first, and the answered Monday left out.
gaps-answered :
    gaps spy (week 0 3) late (row absent early 0 ∷ []) ≡ 738008 ∷ 738007 ∷ 738006 ∷ 738005 ∷ []
unfolding gaps trading_days feed_beq text_beq upper checked_after
gaps-answered = refl

marks_failed : mark spy monday failed 0 "" early [] ≡ some (row failed early 1 ∷ [])
unfolding mark upper
marks_failed = refl

gaps_exact_example :
    contains (gaps spy (week 0 3) late (row failed early 3 ∷ [])) monday
    ≡ is_wanted spy (week 0 3) late (row failed early 3 ∷ []) monday
unfolding candidates trading_days feed_beq text_beq upper checked_after
gaps_exact_example = gaps_exact spy (week 0 3) late (row failed early 3 ∷ []) monday (omega arith)

state_of-mark_example : state_of (row failed early 1 ∷ []) spy monday ≡ (
    if stored spy == stored spy && monday == monday
    then (claim [] spy failed "").0
    else state_of [] spy monday)
state_of-mark_example = state_of-mark spy spy monday monday failed 0 "" early [] marks_failed

unanswered_is_retried_example :
    contains (gaps spy (week 72000 3) (late + 86400) (row failed early 1 ∷ [])) monday ≡ true
unfolding claim candidates trading_days feed_beq text_beq upper checked_after
unanswered_is_retried_example =
    unanswered_is_retried spy (week 72000 3) monday failed 0 "" early (late + 86400) [] refl
      marks_failed refl refl (omega arith) (omega arith) (omega arith)

cooldown_overstays_example :
    contains (gaps spy (week 72000 0) late (row failed early 1 ∷ [])) monday ≡ false
unfolding claim
cooldown_overstays_example =
    cooldown_overstays spy (week 72000 0) monday failed 0 "" early late [] refl marks_failed refl
      (omega arith) (omega arith) refl

-- OnclickMedia's first empty day is not believed; after a day that it returned, the next one is.
abbrev history : List Call
history =
    record {
      feed = onclick_chain;
      period = monday;
      state = absent;
      rows = 0;
      detail = "";
      now = early;
    }
    ∷ record {
      feed = onclick_chain;
      period = 738005;
      state = have;
      rows = 1;
      detail = "";
      now = early;
    }
    ∷ record {
      feed = onclick_chain;
      period = 738006;
      state = absent;
      rows = 0;
      detail = "";
      now = early;
    }
    ∷ []

earns :
    (state_of (replay history []) onclick_chain monday ≡ unknown)
    × (state_of (replay history []) onclick_chain 738006 ≡ absent)
unfolding state_of replay mark upper feed_beq text_beq
earns = (refl, refl)

absent_is_earned_example :
    (contains (authoritative "chain") "onclick" ≡ true)
    ⊎ ((contains (earns_authority "chain") "onclick" ≡ true)
        × (was_returned history (stored onclick_chain) ≡ true))
absent_is_earned_example = absent_is_earned history onclick_chain 738006 earns.1
