-- ===== src/History/Tests.antt =====
-- Runs of the permanent bars of code/backend/marketdb.py, and the theorems applied there.
use grindstone.Prelude.{
  is_less, ℕ, ◌≡◌, refl, true, ◌&&◌, some, List, [], ◌∷◌, codes, text_eq, ◌==◌, text_beq,
  if◌then◌else◌, Text,
}
use grindstone.History.Tables.{Bar, BarTables, bar_hist_store, bar_hist_read, newest_bars, timed}
use grindstone.History.Spliced.{alternate, is_told, is_used, bar_hist_read_tells}
use grindstone.History.Kept.{are_joined, kept_bar, last_or, kept_bar-bar_hist_store}

abbrev bar : Text → ℕ → Bar ℕ
bar at price = record { ts = at; values = price }

abbrev nothing : BarTables ℕ
nothing = record { bars = []; sources = []; marks = [] }

abbrev monday : Text
monday = codes "2024-01-08"

abbrev tuesday : Text
tuesday = codes "2024-01-09"

abbrev spy : Text
spy = codes "SPY"

abbrev daily : Text
daily = codes "1Day"

abbrev deep : List (Bar ℕ)
deep = bar monday 470 ∷ bar tuesday 471 ∷ bar [] 0 ∷ []

abbrev with_deep : BarTables ℕ
with_deep = (bar_hist_store spy daily deep (codes "yahoo") nothing).0

abbrev with_tail : BarTables ℕ
with_tail = (bar_hist_store spy daily (bar tuesday 472 ∷ []) (codes "alpaca") with_deep).0

two_segments : bar_hist_read spy daily 10 with_tail ≡ (
  bar monday 470 ∷ bar tuesday 472 ∷ [],
  record { source = codes "yahoo"; start = monday; end = monday }
      ∷ record { source = codes "alpaca"; start = tuesday; end = tuesday }
      ∷ [],
)
unfolding bar_hist_store bar_hist_read is_less text_beq
two_segments = refl

deep_is_joined : are_joined with_deep.sources with_deep.bars ≡ true
unfolding bar_hist_store text_beq
deep_is_joined = refl

kept_bar-bar_hist_store_example : kept_bar spy daily tuesday with_tail ≡ (
    if (spy == spy) && (daily == daily)
    then last_or tuesday
        (some (codes "alpaca"))
        (timed (bar tuesday 472 ∷ []))
        (kept_bar spy daily tuesday with_deep)
    else kept_bar spy daily tuesday with_deep)
kept_bar-bar_hist_store_example =
    kept_bar-bar_hist_store spy daily spy daily tuesday (bar tuesday 472 ∷ []) (codes "alpaca")
      with_deep deep_is_joined

bar_hist_read_tells_example :
    (is_told (codes "yahoo") (bar_hist_read spy daily 10 with_tail).1
      ≡ is_used (codes "yahoo") (newest_bars spy daily 10 with_tail))
    × (alternate (bar_hist_read spy daily 10 with_tail).1 ≡ true)
bar_hist_read_tells_example = bar_hist_read_tells spy daily (codes "yahoo") 10 with_tail
