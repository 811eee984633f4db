-- ===== src/Depth/Horizon.antt =====
-- When a fill of code/backend/depth.py claims that the head was walked to its horizon.
use grindstone.Prelude.{
  ℕ, ◌≡◌, refl, Bool, true, false, ◌&&◌, ◌||◌, not, Option, none, some, List, [], ◌∷◌, keep, take,
  every, String, ◌==◌, nat_eq, string_eq, text_eq, Text, Bool-cases, inl, inr, arith, ◌∙◌, ap,
  beq_refl,
}
use grindstone.History.Tables.{Bar, BarTables, timed, store_rows, bar_hist_store}
use grindstone.History.Spans.{BarSpan, coalesce, bar_hist_span, bar_hist_mark, span_from, mark_of}
use grindstone.History.Tables.{MetaRow}
use grindstone.History.Marked.{bar_hist_span-bar_hist_mark}
use grindstone.History.Held.{has_bar, has_time}
use grindstone.Depth.Plan.{Span, Todo, plan, plan_from, providers_for}
use grindstone.Depth.Queue.{clean_symbol}
use grindstone.Depth.Filled.{has_bar-fill_head, fill_tail-Extends}
use grindstone.Depth.Fill.{
  deep_timeframe, Dates, Clock, Feeds, blank_or, is_set, seen_by_plan, is_before_day, deepest,
  yahoo, store_any, mark_deep, fill_head, store_tail, has_tail, is_fresh_look, fill_tail,
  fill_planned, fill,
}

abbrev pub is_given : {A : Type 0} → List A → Bool
is_given [] = false
is_given (a ∷ rest) = true

deep_from :
    (ts ts' : List Text) (m : Option MetaRow) → (span_from ts m).deep_at ≡ (span_from ts' m).deep_at
deep_from ts ts' none = refl
deep_from ts ts' (some m) = refl

module _ {V : Type 0} (sym : Text) where
  -- The marker of the series that is filled.
  abbrev deep_of : BarTables V → Option Text
  deep_of t = (bar_hist_span sym deep_timeframe t).deep_at

  deep_of-store_rows :
      (bs : List (Bar V)) (source : Text) (t : BarTables V)
      → deep_of (store_rows sym deep_timeframe bs source t).0 ≡ deep_of t
  unfolding bar_hist_span
  deep_of-store_rows [] source t = refl
  deep_of-store_rows (b ∷ bs) source t = deep_from _ _ (mark_of sym deep_timeframe t.marks)

  deep_of-store_any :
      (bs : List (Bar V)) (source : Text) (t : BarTables V) (n : ℕ)
      → deep_of (store_any sym bs source (t, n)).0 ≡ deep_of t
  unfolding bar_hist_store
  deep_of-store_any [] source t n = refl
  deep_of-store_any (b ∷ bs) source t n = deep_of-store_rows (timed (b ∷ bs)) source t

  deep_of-bar_hist_mark :
      (deep tail remark : Option Text) (t : BarTables V)
      → deep_of (bar_hist_mark sym deep_timeframe deep tail remark t) ≡ coalesce deep (deep_of t)
  deep_of-bar_hist_mark deep tail remark t =
      ap (λ (s : BarSpan). s.deep_at)
        (bar_hist_span-bar_hist_mark sym deep_timeframe sym deep_timeframe deep tail remark t)
      ∙ rw (beq_refl sym, beq_refl deep_timeframe) refl

  deep_of-mark_deep :
      (stamp : Text) (deep : List (Bar V)) (t : BarTables V)
      → (stamp == []) ≡ false
      → is_set (deep_of (mark_deep sym stamp deep t)) ≡ (is_set (deep_of t) || is_given deep)
  deep_of-mark_deep stamp [] t h = ground arith
  deep_of-mark_deep stamp (b ∷ bs) t h =
      rw (deep_of-bar_hist_mark (some stamp) none (some (deepest b)) t) (ground (arith, h))

  deep_of-fill_head :
      (stamp : Text) (deep : List (Bar V)) (span : BarSpan) (t : BarTables V)
      → (stamp == []) ≡ false
      → is_set (deep_of (fill_head sym stamp deep span t).0) ≡ (is_set (deep_of t) || is_given deep)
  unfolding fill_head
  deep_of-fill_head stamp deep span t h =
      deep_of-mark_deep stamp deep _ h
      ∙ ap (λ o. is_set o || is_given deep)
          (deep_of-store_any (keep (is_before_day (take 10 (blank_or span.lo))) deep) yahoo t 0)

  deep_of-store_tail :
      (py : Dates) (stamp : Text) (got : Option (List (Bar V) × Text)) (t : BarTables V) (n : ℕ)
      → deep_of (store_tail py sym stamp got (t, n)).0 ≡ deep_of t
  deep_of-store_tail py stamp none t n = refl
  deep_of-store_tail py stamp (some (got, source)) t n =
      deep_of-bar_hist_mark none (some stamp) none _ ∙ deep_of-store_any got source t n

  deep_of-fill_tail :
      (py : Dates) (feeds : Feeds V) (clock : Clock) (span : BarSpan) (todo : Todo)
      (t : BarTables V) (n : ℕ)
      → deep_of (fill_tail py feeds clock sym span todo (t, n)).0 ≡ deep_of t
  unfolding fill_tail
  deep_of-fill_tail py feeds clock span todo t n =
      elim (Bool-cases
        (has_tail todo.tail_from span.n && not (is_fresh_look py clock.now span.tail_at))) [
          | inl looks ↦ rw looks (deep_of-store_tail py clock.stamp _ t n)
          | inr rests ↦ rw rests refl
        ]

  deep_of-fill_planned :
      (py : Dates) (feeds : Feeds V) (clock : Clock) (span : BarSpan) (todo : Todo)
      (t : BarTables V)
      → (clock.stamp == []) ≡ false
      → is_set (deep_of (fill_planned py feeds clock sym span todo t).0)
        ≡ (is_set (deep_of t) || (todo.head && is_given feeds.deep))
  unfolding fill_planned
  deep_of-fill_planned py feeds clock span todo t h = elim (Bool-cases todo.head) [
    | inl head ↦
        let u = fill_head sym clock.stamp feeds.deep span t in
        let again = bar_hist_span sym deep_timeframe u.0 in
        let todo' = plan (seen_by_plan py again) feeds.asset_class clock.date in
        rw head (
          ap is_set (deep_of-fill_tail py feeds clock again todo' u.0 u.1)
          ∙ deep_of-fill_head clock.stamp feeds.deep span t h)
    | inr no_head ↦
        rw no_head (ap is_set (deep_of-fill_tail py feeds clock span todo t 0) ∙ ground arith)
  ]

head_of_plan :
    (providers : List String) (span : Span) (now : ℕ)
    → (plan_from providers span now).head
      ≡ (is_given providers && ((span.n == 0) || not span.is_deep))
head_of_plan [] span now = refl
head_of_plan (p ∷ ps) span now = ground arith

-- What a fill makes of the horizon.
horizon_after :
    {V : Type 0} (py : Dates) (feeds : Feeds V) (clock : Clock) (symbol : Text) (t : BarTables V)
    → (clock.stamp == []) ≡ false
    → is_set
        (bar_hist_span
          (clean_symbol symbol)
          deep_timeframe
          (fill py feeds clock symbol t).0).deep_at
      ≡ (is_set (bar_hist_span (clean_symbol symbol) deep_timeframe t).deep_at
          || (is_given (providers_for feeds.asset_class) && is_given feeds.deep))
unfolding fill plan
horizon_after py feeds clock symbol t h =
    let sym = clean_symbol symbol in
    let span = bar_hist_span sym deep_timeframe t in
    let todo = plan (seen_by_plan py span) feeds.asset_class clock.today in
    deep_of-fill_planned sym py feeds clock span todo t h
    ∙ ground
        (arith, head_of_plan (providers_for feeds.asset_class) (seen_by_plan py span) clock.today)

-- After a fill, the horizon is marked as reached exactly if it was, or if the class of the symbol has a
-- source and the keyless feed gave any bar. And the next fill's plan, on whatever day and for whatever
-- class it finds then, has the head walked exactly if that class has a source, and the series holds no bar
-- or its horizon was neither marked before the first fill nor reached by it.
pub horizon_exact :
    {V : Type 0} (py : Dates) (feeds : Feeds V) (clock : Clock) (symbol : Text) (t : BarTables V)
    (next_class : Option String) (next_day : ℕ)
    → (clock.stamp == []) ≡ false
    → let sym = clean_symbol symbol in
      let before = bar_hist_span sym deep_timeframe t in
      let after = bar_hist_span sym deep_timeframe (fill py feeds clock symbol t).0 in
      let reached =
        is_set before.deep_at
        || (is_given (providers_for feeds.asset_class) && is_given feeds.deep) in
      (is_set after.deep_at ≡ reached)
      × ((plan (seen_by_plan py after) next_class next_day).head
          ≡ (is_given (providers_for next_class) && ((after.n == 0) || not reached)))
unfolding plan
horizon_exact py feeds clock symbol t next_class next_day h =
    let after =
      bar_hist_span (clean_symbol symbol) deep_timeframe (fill py feeds clock symbol t).0 in
    let marked = horizon_after py feeds clock symbol t h in
    (
      marked,
      head_of_plan (providers_for next_class) (seen_by_plan py after) next_day
          ∙ ap (λ b. is_given (providers_for next_class) && ((after.n == 0) || not b)) marked,
    )

-- The bar has no time, or is not of the part that is asked for, or passes.
abbrev or_passes : {V : Type 0} → (Bar V → Bool) → (Text → Bool) → Bar V → Bool
or_passes p held b = ((b.ts == []) || not (p b)) || held b.ts

later :
    {V : Type 0} (p : Bar V → Bool) (b : Bar V) (bs : List (Bar V)) (ts : Text)
    → has_time ts (timed (keep p bs)) ≡ true
    → has_time ts (timed (keep p (b ∷ bs))) ≡ true
later p b bs ts e = elim (Bool-cases (p b)) [
  | inl asked ↦ rw asked (ground (arith, e))
  | inr other ↦ rw other e
]

every-timed :
    {V : Type 0} (p : Bar V → Bool) (held : Text → Bool) (bs : List (Bar V))
    → ((ts : Text) → has_time ts (timed (keep p bs)) ≡ true → held ts ≡ true)
    → every (or_passes p held) bs ≡ true
every-timed p held [] h = refl
every-timed p held (b ∷ bs) h =
    let rest = every-timed p held bs (λ ts e. h ts (later p b bs ts e)) in
    elim (Bool-cases (b.ts == [])) [
      | inl empty ↦ rw empty rest
      | inr timed_bar ↦ elim (Bool-cases (p b)) [
        | inl asked ↦
            rw (timed_bar, asked, h b.ts (rw asked (rw timed_bar (rw (beq_refl b.ts) refl)))) rest
        | inr other ↦ rw (timed_bar, other) rest
      ]
    ]

-- The bars that the head needs of the keyless feed are held.
abbrev pub head_is_held : {V : Type 0} → Text → BarSpan → List (Bar V) → BarTables V → Bool
head_is_held sym span deep u =
    every
      (or_passes (is_before_day (take 10 (blank_or span.lo)))
        (λ ts. has_bar sym deep_timeframe ts u))
      deep

module _ {V : Type 0} (py : Dates) (feeds : Feeds V) (clock : Clock) (sym : Text)
    (span : BarSpan) where
  fill_planned-head_is_held :
      (todo : Todo) (t : BarTables V)
      → todo.head ≡ true
      → head_is_held sym span feeds.deep (fill_planned py feeds clock sym span todo t).0 ≡ true
  unfolding fill_planned
  fill_planned-head_is_held todo t head =
      let u = fill_head sym clock.stamp feeds.deep span t in
      let again = bar_hist_span sym deep_timeframe u.0 in
      let todo' = plan (seen_by_plan py again) feeds.asset_class clock.date in
      every-timed (is_before_day (take 10 (blank_or span.lo))) _ feeds.deep (λ ts timed_bar.
        let (b, e) =
          fill_tail-Extends sym sym deep_timeframe ts py feeds clock again todo' u.0 u.1 in
        rw head (
          rw e (
            rw
              (has_bar-fill_head sym sym deep_timeframe ts clock.stamp feeds.deep span t, timed_bar)
              (rw (beq_refl sym, beq_refl deep_timeframe) (ground arith)))))

-- A fill never claims a horizon that it did not store: where the mark was not set and is set after the
-- fill, every bar that the keyless feed gave, has a time and is older than what was there is held, even
-- if the broker's exception ended the fill.
pub horizon_is_stored :
    {V : Type 0} (py : Dates) (feeds : Feeds V) (clock : Clock) (symbol : Text) (t : BarTables V)
    → (clock.stamp == []) ≡ false
    → is_set (bar_hist_span (clean_symbol symbol) deep_timeframe t).deep_at ≡ false
    → is_set
        (bar_hist_span
          (clean_symbol symbol)
          deep_timeframe
          (fill py feeds clock symbol t).0).deep_at
      ≡ true
    → head_is_held
        (clean_symbol symbol)
        (bar_hist_span (clean_symbol symbol) deep_timeframe t)
        feeds.deep
        (fill py feeds clock symbol t).0
      ≡ true
unfolding fill plan
horizon_is_stored py feeds clock symbol t stamp before after =
    let sym = clean_symbol symbol in
    let span = bar_hist_span sym deep_timeframe t in
    let todo = plan (seen_by_plan py span) feeds.asset_class clock.today in
    fill_planned-head_is_held py feeds clock sym span todo t (
      ground (
        arith,
        before,
        after,
        horizon_after py feeds clock symbol t stamp,
        head_of_plan (providers_for feeds.asset_class) (seen_by_plan py span) clock.today,
      ))
