-- ===== src/Depth/Filled.antt =====
-- What a fill of code/backend/depth.py leaves in the permanent bars, interrupted or not.
use grindstone.Prelude.{
  ℕ, ◌≡◌, refl, Bool, false, ◌&&◌, ◌||◌, not, Option, none, some, List, [], ◌∷◌, keep, take, ◌==◌,
  nat_eq, string_eq, text_eq, Text, Bool-cases, inl, inr, arith, ◌∙◌,
}
use grindstone.History.Tables.{Bar, BarTables, timed}
use grindstone.History.Spans.{BarSpan, bar_hist_span}
use grindstone.History.Kept.{is_same}
use grindstone.History.Held.{has_bar, has_time, has_bar-bar_hist_store, has_bar-bar_hist_mark}
use grindstone.Depth.Plan.{Todo, plan}
use grindstone.Depth.Queue.{clean_symbol}
use grindstone.Depth.Fill.{
  deep_timeframe, Dates, Clock, Feeds, blank_or, seen_by_plan, is_before_day, deepest, yahoo,
  store_any, mark_deep, fill_head, store_tail, has_tail, is_fresh_look, fill_tail, fill_planned,
  fill,
}

module _ {V : Type 0} (sym symbol' timeframe' ts' : Text) where
  abbrev pub is_held : BarTables V → Bool
  is_held t = has_bar symbol' timeframe' ts' t

  -- The tables hold what they held, and what is new is of the series that is filled.
  abbrev pub Extends : BarTables V → BarTables V → Type 0
  Extends t u =
      (b : Bool) × (is_held u ≡ (is_held t || (is_same sym deep_timeframe symbol' timeframe' && b)))

  Extends-trans : (t u v : BarTables V) → Extends t u → Extends u v → Extends t v
  Extends-trans t u v (b, e) (c, e') = (b || c, ground (arith, e, e'))

  has_bar-store_any :
      (bs : List (Bar V)) (source : Text) (t : BarTables V) (n : ℕ)
      → is_held (store_any sym bs source (t, n)).0
        ≡ (is_held t || (is_same sym deep_timeframe symbol' timeframe' && has_time ts' (timed bs)))
  has_bar-store_any [] source t n = ground arith
  has_bar-store_any (b ∷ bs) source t n =
      has_bar-bar_hist_store sym deep_timeframe symbol' timeframe' ts' (b ∷ bs) source t

  has_bar-mark_deep :
      (stamp : Text) (deep : List (Bar V)) (t : BarTables V)
      → is_held (mark_deep sym stamp deep t) ≡ is_held t
  has_bar-mark_deep stamp [] t = refl
  has_bar-mark_deep stamp (b ∷ bs) t =
      has_bar-bar_hist_mark sym deep_timeframe symbol' timeframe' ts' (some stamp) none
        (some (deepest b)) t

  pub has_bar-fill_head :
      (stamp : Text) (deep : List (Bar V)) (span : BarSpan) (t : BarTables V)
      → is_held (fill_head sym stamp deep span t).0 ≡ (
          is_held t
          || (is_same sym deep_timeframe symbol' timeframe'
              && has_time ts' (timed (keep (is_before_day (take 10 (blank_or span.lo))) deep))))
  unfolding fill_head
  has_bar-fill_head stamp deep span t =
      has_bar-mark_deep stamp deep _
      ∙ has_bar-store_any (keep (is_before_day (take 10 (blank_or span.lo))) deep) yahoo t 0

  store_tail-Extends :
      (py : Dates) (stamp : Text) (got : Option (List (Bar V) × Text)) (t : BarTables V) (n : ℕ)
      → Extends t (store_tail py sym stamp got (t, n)).0
  store_tail-Extends py stamp none t n = (false, ground arith)
  store_tail-Extends py stamp (some (got, source)) t n = (
    has_time ts' (timed got),
    has_bar-bar_hist_mark sym deep_timeframe symbol' timeframe' ts' none (some stamp) none _
        ∙ has_bar-store_any got source t n,
  )

  pub fill_tail-Extends :
      (py : Dates) (feeds : Feeds V) (clock : Clock) (span : BarSpan) (todo : Todo)
      (t : BarTables V) (n : ℕ)
      → Extends t (fill_tail py feeds clock sym span todo (t, n)).0
  unfolding fill_tail
  fill_tail-Extends py feeds clock span todo t n =
      elim (Bool-cases
        (has_tail todo.tail_from span.n && not (is_fresh_look py clock.now span.tail_at))) [
          | inl looks ↦ rw looks (store_tail-Extends py clock.stamp _ t n)
          | inr rests ↦ rw rests (false, ground arith)
        ]

  fill_planned-Extends :
      (py : Dates) (feeds : Feeds V) (clock : Clock) (span : BarSpan) (todo : Todo)
      (t : BarTables V)
      → Extends t (fill_planned py feeds clock sym span todo t).0
  unfolding fill_planned
  fill_planned-Extends py feeds clock span todo t = elim (Bool-cases todo.head) [
    | inl head ↦
        let u = fill_head sym clock.stamp feeds.deep span t in
        let again = bar_hist_span sym deep_timeframe u.0 in
        let todo' = plan (seen_by_plan py again) feeds.asset_class clock.date in
        rw head (
          Extends-trans t u.0 (fill_tail py feeds clock sym again todo' u).0
            (
              has_time ts' (timed (keep (is_before_day (take 10 (blank_or span.lo))) feeds.deep)),
              has_bar-fill_head clock.stamp feeds.deep span t,
            )
            (fill_tail-Extends py feeds clock again todo' u.0 u.1))
    | inr no_head ↦ rw no_head (fill_tail-Extends py feeds clock span todo t 0)
  ]

-- A fill loses no bar of any series, and changes no series but its own: every bar that was held is held
-- after it, and a bar of another series is held after it only if it was held. This holds as well when the
-- broker's exception ends the fill.
pub fill_loses_nothing :
    {V : Type 0} (py : Dates) (feeds : Feeds V) (clock : Clock)
    (symbol symbol' timeframe' ts' : Text)
    → (t : BarTables V)
    → has_bar symbol' timeframe' ts' (fill py feeds clock symbol t).0 ≡ (
        has_bar symbol' timeframe' ts' t
        || ((clean_symbol symbol == symbol')
            && (deep_timeframe == timeframe')
            && has_bar symbol' timeframe' ts' (fill py feeds clock symbol t).0))
unfolding fill
fill_loses_nothing py feeds clock symbol symbol' timeframe' ts' t =
    let sym = clean_symbol symbol in
    let span = bar_hist_span sym deep_timeframe t in
    let (b, e) =
      fill_planned-Extends sym symbol' timeframe' ts' py feeds clock span
        (plan (seen_by_plan py span) feeds.asset_class clock.today) t in
    ground (arith, e)
