-- ===== src/History/Marked.antt =====
-- What a mark changes of a span (code/backend/marketdb.py).
use grindstone.Prelude.{
  ◌≡◌, refl, true, false, ◌&&◌, Option, none, some, List, [], ◌∷◌, map, keep, ◌==◌, text_eq, Text,
  if◌then◌else◌, Bool-cases, inl, inr, arith,
}
use grindstone.History.Tables.{MetaRow, BarTables, is_series}
use grindstone.History.Spans.{
  BarSpan, is_mark, mark_of, span_from, coalesce, noted, upsert_mark, bar_hist_span, bar_hist_mark,
}

-- A mark with the fields that are given, and the others as they were.
abbrev pub marked : Option Text → Option Text → Option Text → BarSpan → BarSpan
marked deep tail note s = record s {
  deep_at = coalesce deep s.deep_at;
  tail_at = coalesce tail s.tail_at;
  note = noted note s.note;
}

module _ (symbol timeframe symbol' timeframe' : Text) (deep tail note : Option Text) where
  coalesce_nothing : (o : Option Text) → coalesce o none ≡ o
  coalesce_nothing none = refl
  coalesce_nothing (some t) = refl

  same_series :
      (m : MetaRow)
      → is_mark symbol timeframe m ≡ true
      → is_mark symbol' timeframe' m ≡ ((symbol == symbol') && (timeframe == timeframe'))
  same_series m h =
      rw
        (
          (text_eq.same_iff m.symbol symbol).0 (ground (arith, h)),
          (text_eq.same_iff m.timeframe timeframe).0 (ground (arith, h)),
        )
        refl

  other_series :
      (m : MetaRow)
      → is_mark symbol timeframe m ≡ false
      → is_mark symbol' timeframe' m ≡ true
      → ((symbol == symbol') && (timeframe == timeframe')) ≡ false
  other_series m h h' = ground (
    arith,
    h,
    h',
    text_eq.same_iff m.symbol symbol,
    text_eq.same_iff m.symbol symbol',
    text_eq.same_iff symbol symbol',
    text_eq.same_iff m.timeframe timeframe,
    text_eq.same_iff m.timeframe timeframe',
    text_eq.same_iff timeframe timeframe',
  )

  span_from-upsert_mark :
      (ts : List Text) (ms : List MetaRow)
      → span_from ts (mark_of symbol' timeframe' (upsert_mark symbol timeframe deep tail note ms))
        ≡ (if (symbol == symbol') && (timeframe == timeframe')
            then marked deep tail note (span_from ts (mark_of symbol' timeframe' ms))
            else span_from ts (mark_of symbol' timeframe' ms))
  span_from-upsert_mark ts [] =
      elim (Bool-cases ((symbol == symbol') && (timeframe == timeframe'))) [
        | inl is ↦ rw is (rw (coalesce_nothing deep, coalesce_nothing tail) refl)
        | inr other ↦ rw other refl
      ]
  span_from-upsert_mark ts (m ∷ ms) = elim (Bool-cases (is_mark symbol timeframe m)) [
    | inl is ↦ rw is (elim (Bool-cases ((symbol == symbol') && (timeframe == timeframe'))) [
      | inl same ↦ rw (same_series m is, same) refl
      | inr other ↦ rw (same_series m is, other) refl
    ])
    | inr apart ↦ rw apart (elim (Bool-cases (is_mark symbol' timeframe' m)) [
      | inl found ↦ rw (found, other_series m apart found) refl
      | inr absent ↦ rw absent (span_from-upsert_mark ts ms)
    ])
  ]

  -- After `bar_hist_mark`, the span of the marked series has the fields that were given and keeps every
  -- other, so a mark of the tail never erases the deep one; and the span of any other series is what it
  -- was.
  pub bar_hist_span-bar_hist_mark :
      {V : Type 0} (t : BarTables V)
      → bar_hist_span symbol' timeframe' (bar_hist_mark symbol timeframe deep tail note t) ≡ (
          if (symbol == symbol') && (timeframe == timeframe')
          then marked deep tail note (bar_hist_span symbol' timeframe' t)
          else bar_hist_span symbol' timeframe' t)
  unfolding bar_hist_span bar_hist_mark
  bar_hist_span-bar_hist_mark t =
      span_from-upsert_mark (map (λ r. r.ts) (keep (is_series symbol' timeframe') t.bars)) t.marks
