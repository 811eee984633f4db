-- ===== src/Depth/Fill.antt =====
-- `Deepener.fill` of code/backend/depth.py, on the tables of code/backend/marketdb.py.
use grindstone.Prelude.{
  is_less, ℕ, ◌+◌, ◌*◌, String, Bool, true, false, ◌&&◌, ◌||◌, not, Option, none, some, List, [],
  ◌∷◌, ◌++◌, keep, take, ltb, ◌==◌, nat_eq, string_eq, text_eq, Text, codes, if◌then◌else◌,
}
use grindstone.History.Tables.{Bar, BarTables, bar_hist_store}
use grindstone.History.Spans.{BarSpan, bar_hist_span, bar_hist_mark}
use grindstone.Depth.Plan.{Span, Todo, plan}
use grindstone.Depth.Queue.{clean_symbol}

abbrev pub deep_timeframe : Text
deep_timeframe = codes "1Day"

-- Seconds.
abbrev pub tail_cooldown : ℕ
tail_cooldown = 900

-- `date.fromisoformat` and `datetime.fromisoformat`, which may refuse a text, and `date.isoformat`. A
-- moment is a number of microseconds.
pub record Dates : Type 0 where
  pub date_of : Text → Option ℕ
  pub moment_of : Text → Option ℕ
  pub iso : ℕ → Text

-- The clock: the day of the first plan, and the moment after it with its day and its text.
pub record Clock : Type 0 where
  pub today : ℕ
  pub now : ℕ
  pub date : ℕ
  pub stamp : Text

-- What the broker answers: bars, a BrokerError, or another exception.
pub data BrokerAnswer (V : Type 0) : Type 0 where
  sent : List (Bar V) → BrokerAnswer V
  broker_error : BrokerAnswer V
  crashed : BrokerAnswer V

-- What there is outside: the class of the symbol, the series of the keyless feed, which is asked once
-- at most, and the broker's answer to a symbol and a start, where the user has credentials.
pub record Feeds (V : Type 0) : Type 0 where
  pub asset_class : Option String
  pub deep : List (Bar V)
  pub broker : Option (Text → Text → BrokerAnswer V)

abbrev pub blank_or : Option Text → Text
blank_or none = []
blank_or (some t) = t

-- `span.get("deep_at")` as a test.
abbrev pub is_set : Option Text → Bool
is_set o = not (blank_or o == [])

-- What `plan` reads of a span.
abbrev pub seen_by_plan : Dates → BarSpan → Span
seen_by_plan py span = record {
  n = span.n;
  hi = py.date_of (take 10 (blank_or span.hi));
  is_deep = is_set span.deep_at;
}

-- `b["ts"][:10] < day`, and the same of every bar if there is no day.
abbrev pub is_before_day : {V : Type 0} → Text → Bar V → Bool
is_before_day day b = (day == []) || is_less (take 10 b.ts) day

abbrev pub is_after_day : {V : Type 0} → Text → Bar V → Bool
is_after_day day b = (day == []) || is_less day (take 10 b.ts)

abbrev pub is_equity : Option String → Bool
is_equity none = true
is_equity (some c) = (c == "") || (c == "us_equity")

-- `f"deepest {deep_series()[0]['ts'][:10]} via yahoo (delayed)"`
abbrev pub deepest : {V : Type 0} → Bar V → Text
deepest b = codes "deepest " ++ take 10 b.ts ++ codes " via yahoo (delayed)"

abbrev pub yahoo : Text
yahoo = codes "yahoo (delayed)"

abbrev pub alpaca : Text
alpaca = codes "alpaca (IEX)"

-- `if bars: wrote += bar_hist_store(...)`
abbrev pub store_any : {V : Type 0} → Text → List (Bar V) → Text → BarTables V × ℕ → BarTables V × ℕ
store_any sym [] source (t, wrote) = (t, wrote)
store_any sym (b ∷ bs) source (t, wrote) =
    let done = bar_hist_store sym deep_timeframe (b ∷ bs) source t in (done.0, wrote + done.1)

abbrev pub mark_deep : {V : Type 0} → Text → Text → List (Bar V) → BarTables V → BarTables V
mark_deep sym stamp [] t = t
mark_deep sym stamp (b ∷ bs) t =
    bar_hist_mark sym deep_timeframe (some stamp) none (some (deepest b)) t

-- The head: what is older than the span is stored, and then the horizon is marked.
unfoldable pub fill_head :
    {V : Type 0} → Text → Text → List (Bar V) → BarSpan → BarTables V → BarTables V × ℕ
fill_head sym stamp deep span t =
    let done =
      store_any sym (keep (is_before_day (take 10 (blank_or span.lo))) deep) yahoo (t, 0) in
    (mark_deep sym stamp deep done.0, done.1)

abbrev pub within : ℕ → Option ℕ → Bool
within now none = false
within now (some before) = ltb now (before + tail_cooldown * 1_000_000)

-- The last look at the tail is less than the cooldown ago.
abbrev pub is_fresh_look : Dates → ℕ → Option Text → Bool
is_fresh_look py now o = is_set o && within now (py.moment_of (blank_or o))

abbrev pub tail_start : Dates → Option ℕ → Text
tail_start py none = codes "2016-01-01T00:00:00Z"
tail_start py (some day) = py.iso day ++ codes "T00:00:00Z"

abbrev pub has_tail : Option ℕ → ℕ → Bool
has_tail none n = n == 0
has_tail (some day) n = true

module _ {V : Type 0} (py : Dates) where
  abbrev pub ask : Bool → Option (Text → Text → BrokerAnswer V) → Text → Text → BrokerAnswer V
  ask true (some broker) sym start = broker sym start
  ask true none sym start = sent []
  ask false broker sym start = sent []

  -- The newer bars of the keyless feed.
  abbrev pub from_feed : List (Bar V) → BarSpan → List (Bar V)
  from_feed deep span = keep (is_after_day (take 10 (blank_or span.hi))) deep

  -- The bars of the tail and their source; none for an exception that is not caught.
  abbrev pub tail_bars : List (Bar V) → BarSpan → BrokerAnswer V → Option (List (Bar V) × Text)
  tail_bars deep span crashed = none
  tail_bars deep span broker_error = some (from_feed deep span, yahoo)
  tail_bars deep span (sent []) = some (from_feed deep span, yahoo)
  tail_bars deep span (sent (b ∷ bs)) = some (b ∷ bs, alpaca)

  -- The tables, and the number of bars written if there was no exception.
  abbrev pub store_tail :
      Text → Text → Option (List (Bar V) × Text) → BarTables V × ℕ → BarTables V × Option ℕ
  store_tail sym stamp none (t, wrote) = (t, none)
  store_tail sym stamp (some (got, source)) (t, wrote) =
      let done = store_any sym got source (t, wrote) in
      (bar_hist_mark sym deep_timeframe none (some stamp) none done.0, some done.1)

  unfoldable pub fill_tail :
      Feeds V → Clock → Text → BarSpan → Todo → BarTables V × ℕ → BarTables V × Option ℕ
  fill_tail feeds clock sym span todo (t, wrote) =
      if has_tail todo.tail_from span.n && not (is_fresh_look py clock.now span.tail_at)
      then store_tail sym clock.stamp
          (tail_bars feeds.deep span
            (ask (is_equity feeds.asset_class) feeds.broker sym (tail_start py todo.tail_from)))
          (t, wrote)
      else (t, some wrote)

  -- `fill` of a symbol that is clean, after the first span and plan.
  unfoldable pub fill_planned :
      Feeds V → Clock → Text → BarSpan → Todo → BarTables V → BarTables V × Option ℕ
  unfolding fill_head fill_tail
  fill_planned feeds clock sym span todo t =
      if todo.head
      then (let head = fill_head sym clock.stamp feeds.deep span t in
          let again = bar_hist_span sym deep_timeframe head.0 in
          fill_tail feeds clock sym again
            (plan (seen_by_plan py again) feeds.asset_class clock.date) head)
      else fill_tail feeds clock sym span todo (t, 0)

  -- `fill`: the tables and the number of bars written; none if the broker's exception ended it.
  unfoldable pub fill : Feeds V → Clock → Text → BarTables V → BarTables V × Option ℕ
  unfolding fill_planned
  fill feeds clock symbol t =
      let sym = clean_symbol symbol in
      let span = bar_hist_span sym deep_timeframe t in
      fill_planned feeds clock sym span (plan (seen_by_plan py span) feeds.asset_class clock.today)
        t
