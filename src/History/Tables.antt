-- ===== src/History/Tables.antt =====
-- `_src_id`, `bar_hist_store` and `bar_hist_read` of code/backend/marketdb.py. The five numbers of a bar are of any type `V`.
use grindstone.Prelude.{
  is_less, ℕ, suc, Bool, ◌&&◌, not, Option, none, some, List, [], ◌∷◌, ◌++◌, map, keep, take,
  length, reverse, get_elem?, ◌==◌, nat_eq, text_eq, Text, if◌then◌else◌,
}

-- A bar of a feed; no timestamp is the empty one.
pub record Bar (V : Type 0) : Type 0 where
  pub ts : Text
  pub values : V

pub record BarRow (V : Type 0) : Type 0 where
  pub symbol : Text
  pub timeframe : Text
  pub ts : Text
  pub values : V
  pub src : ℕ

pub record MetaRow : Type 0 where
  pub symbol : Text
  pub timeframe : Text
  pub deep_at : Option Text
  pub tail_at : Option Text
  pub note : Text

-- The tables. The id of a source is its place in `sources`, of which nothing is ever deleted; SQLite
-- counts from 1.
pub record BarTables (V : Type 0) : Type 0 where
  pub bars : List (BarRow V)
  pub sources : List Text
  pub marks : List MetaRow

-- `SELECT id FROM bar_hist_src WHERE name=?`
abbrev pub id_of : Text → List Text → ℕ
id_of name [] = 0
id_of name (s ∷ ss) = if s == name then 0 else suc (id_of name ss)

-- `INSERT OR IGNORE INTO bar_hist_src (name) VALUES (?)`
abbrev pub add_source : Text → List Text → List Text
add_source name [] = name ∷ []
add_source name (s ∷ ss) = if s == name then s ∷ ss else s ∷ add_source name ss

module _ {V : Type 0} where
  abbrev pub is_series : Text → Text → BarRow V → Bool
  is_series symbol timeframe r = (r.symbol == symbol) && (r.timeframe == timeframe)

  abbrev pub is_bar : Text → Text → Text → BarRow V → Bool
  is_bar symbol timeframe ts r = is_series symbol timeframe r && (r.ts == ts)

  -- `INSERT OR REPLACE INTO bar_hist`
  abbrev pub replace_bar : Text → Text → ℕ → Bar V → List (BarRow V) → List (BarRow V)
  replace_bar symbol timeframe sid b [] =
      record { symbol = symbol; timeframe = timeframe; ts = b.ts; values = b.values; src = sid }
      ∷ []
  replace_bar symbol timeframe sid b (r ∷ rs) =
      if is_bar symbol timeframe b.ts r
      then record r { values = b.values; src = sid } ∷ rs
      else r ∷ replace_bar symbol timeframe sid b rs

  -- `executemany`
  abbrev pub replace_all : Text → Text → ℕ → List (Bar V) → List (BarRow V) → List (BarRow V)
  replace_all symbol timeframe sid [] rows = rows
  replace_all symbol timeframe sid (b ∷ bs) rows =
      replace_all symbol timeframe sid bs (replace_bar symbol timeframe sid b rows)

  -- `[b for b in bars if b.get("ts")]`
  abbrev pub timed : List (Bar V) → List (Bar V)
  timed bars = keep (λ b. not (b.ts == [])) bars

  abbrev pub store_rows : Text → Text → List (Bar V) → Text → BarTables V → BarTables V × ℕ
  store_rows symbol timeframe [] source t = (t, 0)
  store_rows symbol timeframe (b ∷ bs) source t = (
    record t {
      bars =
          replace_all symbol timeframe (id_of source (add_source source t.sources)) (b ∷ bs) t.bars;
      sources = add_source source t.sources;
    },
    length (b ∷ bs),
  )

  -- `bar_hist_store`: the tables, and the number of bars written.
  unfoldable pub bar_hist_store : Text → Text → List (Bar V) → Text → BarTables V → BarTables V × ℕ
  bar_hist_store symbol timeframe bars source t = store_rows symbol timeframe (timed bars) source t

  -- A bar, joined with the name of its source.
  abbrev pub with_source : BarRow V → Option Text → List (Bar V × Text)
  with_source r none = []
  with_source r (some s) = (record { ts = r.ts; values = r.values }, s) ∷ []

  abbrev pub joined : List Text → List (BarRow V) → List (Bar V × Text)
  joined sources [] = []
  joined sources (r ∷ rs) = with_source r (get_elem? sources r.src) ++ joined sources rs

  -- `ORDER BY ts DESC`
  abbrev pub insert_newest : (Bar V × Text) → List (Bar V × Text) → List (Bar V × Text)
  insert_newest b [] = b ∷ []
  insert_newest b (c ∷ cs) = if is_less b.0.ts c.0.ts then c ∷ insert_newest b cs else b ∷ c ∷ cs

  abbrev pub latest_first : List (Bar V × Text) → List (Bar V × Text)
  latest_first [] = []
  latest_first (b ∷ bs) = insert_newest b (latest_first bs)

pub record SourceSegment : Type 0 where
  pub source : Text
  pub start : Text
  pub end : Text

-- The body of the loop over the bars, on the segments in reverse order.
abbrev pub extend : Text → Text → List SourceSegment → List SourceSegment
extend day source [] = record { source = source; start = day; end = day } ∷ []
extend day source (s ∷ ss) =
    if s.source == source
    then record s { end = day } ∷ ss
    else record { source = source; start = day; end = day } ∷ s ∷ ss

module _ {V : Type 0} where
  abbrev pub extend_all : List (Bar V × Text) → List SourceSegment → List SourceSegment
  extend_all [] out = out
  extend_all (b ∷ bs) out = extend_all bs (extend (take 10 b.0.ts) b.1 out)

  -- The rows of the query of `bar_hist_read`, oldest first.
  abbrev pub newest_bars : Text → Text → ℕ → BarTables V → List (Bar V × Text)
  newest_bars symbol timeframe limit t =
      reverse
        (take limit (latest_first (joined t.sources (keep (is_series symbol timeframe) t.bars))))

  unfoldable pub bar_hist_read : Text → Text → ℕ → BarTables V → List (Bar V) × List SourceSegment
  bar_hist_read symbol timeframe limit t = (
    map (λ (b : Bar V × Text). b.0) (newest_bars symbol timeframe limit t),
    reverse (extend_all (newest_bars symbol timeframe limit t) []),
  )
