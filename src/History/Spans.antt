-- ===== src/History/Spans.antt =====
-- `bar_hist_span` and `bar_hist_mark` of code/backend/marketdb.py: what is held, and what was reached.
use grindstone.Prelude.{
  is_less, ℕ, Bool, ◌&&◌, Option, none, some, List, [], ◌∷◌, map, keep, length, ◌==◌, text_eq, Text,
  if◌then◌else◌,
}
use grindstone.History.Tables.{BarRow, MetaRow, BarTables, is_series}

pub record BarSpan : Type 0 where
  pub lo : Option Text
  pub hi : Option Text
  pub n : ℕ
  pub deep_at : Option Text
  pub tail_at : Option Text
  pub note : Text

-- `MIN(ts)` and `MAX(ts)`
abbrev pub least : List Text → Option Text
least [] = none
least (t ∷ ts) = some (lesser_of t (least ts))
  where
    lesser_of : Text → Option Text → Text
    lesser_of t none = t
    lesser_of t (some s) = if is_less s t then s else t

abbrev pub most : List Text → Option Text
most [] = none
most (t ∷ ts) = some (greater_of t (most ts))
  where
    greater_of : Text → Option Text → Text
    greater_of t none = t
    greater_of t (some s) = if is_less t s then s else t

abbrev pub is_mark : Text → Text → MetaRow → Bool
is_mark symbol timeframe m = (m.symbol == symbol) && (m.timeframe == timeframe)

abbrev pub mark_of : Text → Text → List MetaRow → Option MetaRow
mark_of symbol timeframe [] = none
mark_of symbol timeframe (m ∷ ms) =
    if is_mark symbol timeframe m then some m else mark_of symbol timeframe ms

abbrev pub span_from : List Text → Option MetaRow → BarSpan
span_from ts none = record {
  lo = least ts;
  hi = most ts;
  n = length ts;
  deep_at = none;
  tail_at = none;
  note = [];
}
span_from ts (some m) = record {
  lo = least ts;
  hi = most ts;
  n = length ts;
  deep_at = m.deep_at;
  tail_at = m.tail_at;
  note = m.note;
}

-- `COALESCE(new, old)`
abbrev pub coalesce : Option Text → Option Text → Option Text
coalesce none old = old
coalesce (some t) old = some t

abbrev pub noted : Option Text → Text → Text
noted none old = old
noted (some t) old = t

-- `INSERT INTO bar_hist_meta ... ON CONFLICT (symbol, timeframe) DO UPDATE SET ...`
abbrev pub upsert_mark :
    Text → Text → Option Text → Option Text → Option Text → List MetaRow → List MetaRow
upsert_mark symbol timeframe deep tail note [] =
    record {
      symbol = symbol;
      timeframe = timeframe;
      deep_at = deep;
      tail_at = tail;
      note = noted note [];
    }
    ∷ []
upsert_mark symbol timeframe deep tail note (m ∷ ms) =
    if is_mark symbol timeframe m
    then record m {
      deep_at = coalesce deep m.deep_at;
      tail_at = coalesce tail m.tail_at;
      note = noted note m.note;
    }
      ∷ ms
    else m ∷ upsert_mark symbol timeframe deep tail note ms

module _ {V : Type 0} where
  unfoldable pub bar_hist_span : Text → Text → BarTables V → BarSpan
  bar_hist_span symbol timeframe t =
      span_from (map (λ (r : BarRow V). r.ts) (keep (is_series symbol timeframe) t.bars))
        (mark_of symbol timeframe t.marks)

  unfoldable pub bar_hist_mark :
      Text → Text → Option Text → Option Text → Option Text → BarTables V → BarTables V
  bar_hist_mark symbol timeframe deep tail note t = record t {
    marks = upsert_mark symbol timeframe deep tail note t.marks;
  }
