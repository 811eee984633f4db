-- ===== src/History/Held.antt =====
-- Which bars of which series are held (code/backend/marketdb.py).
use grindstone.Prelude.{
  ℕ, ◌≡◌, refl, Bool, ◌&&◌, ◌||◌, List, [], ◌∷◌, any, ◌==◌, text_eq, Text, Bool-cases, inl, inr,
  arith, ◌∙◌, Option,
}
use grindstone.History.Tables.{
  Bar, BarRow, BarTables, is_bar, replace_bar, replace_all, timed, store_rows, bar_hist_store,
}
use grindstone.History.Spans.{bar_hist_mark}
use grindstone.History.Kept.{same_bar, is_same}

module _ {V : Type 0} where
  -- A row of the series at the time.
  abbrev pub has_bar : Text → Text → Text → BarTables V → Bool
  has_bar symbol timeframe ts t = any (is_bar symbol timeframe ts) t.bars

  abbrev pub has_time : Text → List (Bar V) → Bool
  has_time ts bars = any (λ b. b.ts == ts) bars

  module _ (symbol timeframe symbol' timeframe' ts' : Text) where
    any-replace_bar :
        (sid : ℕ) (b : Bar V) (rows : List (BarRow V))
        → any (is_bar symbol' timeframe' ts') (replace_bar symbol timeframe sid b rows) ≡ (
            any (is_bar symbol' timeframe' ts') rows
            || (is_same symbol timeframe symbol' timeframe' && (b.ts == ts')))
    any-replace_bar sid b [] = ground arith
    any-replace_bar sid b (r ∷ rs) = elim (Bool-cases (is_bar symbol timeframe b.ts r)) [
      | inl is ↦ rw is (ground (arith, same_bar symbol timeframe symbol' timeframe' ts' b.ts r is))
      | inr apart ↦ rw apart (ground (arith, any-replace_bar sid b rs))
    ]

    any-replace_all :
        (sid : ℕ) (bs : List (Bar V)) (rows : List (BarRow V))
        → any (is_bar symbol' timeframe' ts') (replace_all symbol timeframe sid bs rows) ≡ (
            any (is_bar symbol' timeframe' ts') rows
            || (is_same symbol timeframe symbol' timeframe' && has_time ts' bs))
    any-replace_all sid [] rows = ground arith
    any-replace_all sid (b ∷ bs) rows =
        any-replace_all sid bs (replace_bar symbol timeframe sid b rows)
        ∙ ground (arith, any-replace_bar sid b rows)

    has_bar-store_rows :
        (bars : List (Bar V)) (source : Text) (t : BarTables V)
        → has_bar symbol' timeframe' ts' (store_rows symbol timeframe bars source t).0 ≡ (
            has_bar symbol' timeframe' ts' t
            || (is_same symbol timeframe symbol' timeframe' && has_time ts' bars))
    has_bar-store_rows [] source t = ground arith
    has_bar-store_rows (b ∷ bs) source t = any-replace_all _ (b ∷ bs) t.bars

    -- After a store, the bars that were held are held, and those of its series at the times that were
    -- given.
    pub has_bar-bar_hist_store :
        (bars : List (Bar V)) (source : Text) (t : BarTables V)
        → has_bar symbol' timeframe' ts' (bar_hist_store symbol timeframe bars source t).0 ≡ (
            has_bar symbol' timeframe' ts' t
            || (is_same symbol timeframe symbol' timeframe' && has_time ts' (timed bars)))
    unfolding bar_hist_store
    has_bar-bar_hist_store bars source t = has_bar-store_rows (timed bars) source t

  pub has_bar-bar_hist_mark :
      (symbol timeframe symbol' timeframe' ts' : Text) (deep tail remark : Option Text)
      (t : BarTables V)
      → has_bar symbol' timeframe' ts' (bar_hist_mark symbol timeframe deep tail remark t)
        ≡ has_bar symbol' timeframe' ts' t
  unfolding bar_hist_mark
  has_bar-bar_hist_mark symbol timeframe symbol' timeframe' ts' deep tail remark t = refl
