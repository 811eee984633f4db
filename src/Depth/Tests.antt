-- ===== src/Depth/Tests.antt =====
-- Runs of code/backend/depth.py at concrete inputs, and the theorems applied there.
use grindstone.Prelude.{
  Bool, not, is_less, ℕ, false, ◌&&◌, ◌||◌, ◌==◌, string_eq, ◌≡◌, refl, true, none, some, List, [],
  ◌∷◌, contains, nat_eq, text_eq, Text, codes, upper, strip, text_beq, if◌then◌else◌,
}
use grindstone.Depth.Plan.{plan, because}
use grindstone.Depth.Queue.{idle, submit, Event, submitting, taking, ending, advance, advance_all}
use grindstone.History.Tables.{Bar, BarTables, bar_hist_store}
use grindstone.History.Spans.{BarSpan, bar_hist_span, bar_hist_mark}
use grindstone.History.Held.{has_bar}
use grindstone.Depth.Plan.{providers_for}
use grindstone.Depth.Queue.{clean_symbol}
use grindstone.Depth.Fill.{
  Dates, Clock, Feeds, crashed, seen_by_plan, deep_timeframe, is_set, fill_head, fill_tail,
  fill_planned, fill,
}
use grindstone.Depth.Filled.{fill_loses_nothing}
use grindstone.Depth.Horizon.{is_given, head_is_held, horizon_exact, horizon_is_stored}
use grindstone.Depth.Pending.{pending, pending_exact}

abbrev spy : Text
spy = codes "SPY"

-- Opened twice, filled, and opened again; another symbol waits.
abbrev visits : List Event
visits =
    submitting 1 spy
    ∷ submitting 1 (codes "spy ")
    ∷ taking
    ∷ submitting 1 spy
    ∷ submitting 2 (codes "USO")
    ∷ ending
    ∷ []

one_waits : (advance_all visits idle).seen ≡ codes "USO" ∷ []
unfolding advance_all advance submit upper strip text_beq
one_waits = refl

tail_only :
    plan (record { n = 10; hi = some 738004; is_deep = true }) none 738006
    ≡ record { head = false; tail_from = some 738005; reason = because false (some 738005) }
unfolding plan
tail_only = refl

pending_exact_example :
    pending (advance_all visits idle) spy
    ≡ (if contains (advance_all visits idle).seen spy then 1 else 0)
pending_exact_example = pending_exact visits spy

abbrev blank : Text
blank = []

abbrev dates : Dates
dates = record { date_of = λ t. none; moment_of = λ t. none; iso = λ n. [] }

abbrev clock : Clock
clock = record { today = 738006; now = 5; date = 738006; stamp = codes "2021-08-05T00:00:00" }

abbrev old_bar : Bar ℕ
old_bar = record { ts = codes "1993-01-29"; values = 43 }

-- The broker fails with an exception that is not caught.
abbrev feeds : Feeds ℕ
feeds = record { asset_class = none; deep = old_bar ∷ []; broker = some (λ sym start. crashed) }

abbrev no_bars : BarTables ℕ
no_bars = record { bars = []; sources = []; marks = [] }

abbrev filled : BarTables ℕ
filled = (fill dates feeds clock spy no_bars).0

stamp_is_given : (clock.stamp == []) ≡ false
unfolding text_beq
stamp_is_given = refl

unmarked : is_set (bar_hist_span (clean_symbol spy) deep_timeframe no_bars).deep_at ≡ false
unfolding bar_hist_span text_beq
unmarked = refl

is_marked : is_set (bar_hist_span (clean_symbol spy) deep_timeframe filled).deep_at ≡ true
unfolding bar_hist_span fill fill_planned fill_head fill_tail plan bar_hist_store bar_hist_mark
    is_less text_beq upper strip
is_marked = refl

fill_loses_nothing_example : has_bar spy deep_timeframe (codes "1993-01-29") filled ≡ (
    has_bar spy deep_timeframe (codes "1993-01-29") no_bars
    || ((clean_symbol spy == spy)
        && (deep_timeframe == deep_timeframe)
        && has_bar spy deep_timeframe (codes "1993-01-29") filled))
fill_loses_nothing_example =
    fill_loses_nothing dates feeds clock spy spy deep_timeframe (codes "1993-01-29") no_bars

abbrev reached : Bool
reached =
    is_set (bar_hist_span (clean_symbol spy) deep_timeframe no_bars).deep_at
    || (is_given (providers_for none) && is_given feeds.deep)

abbrev span_after : BarSpan
span_after = bar_hist_span (clean_symbol spy) deep_timeframe filled

horizon_exact_example :
    (is_set span_after.deep_at ≡ reached)
    × ((plan (seen_by_plan dates span_after) none 738100).head
        ≡ (is_given (providers_for none) && ((span_after.n == 0) || not reached)))
horizon_exact_example = horizon_exact dates feeds clock spy no_bars none 738100 stamp_is_given

horizon_is_stored_example :
    head_is_held
      (clean_symbol spy)
      (bar_hist_span (clean_symbol spy) deep_timeframe no_bars)
      feeds.deep
      filled
    ≡ true
horizon_is_stored_example =
    horizon_is_stored dates feeds clock spy no_bars stamp_is_given unmarked is_marked
