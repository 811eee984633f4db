-- ===== src/History/Kept.antt =====
-- What `bar_hist_store` of code/backend/marketdb.py keeps: every bar, with the name of its source.
use grindstone.Prelude.{
  ℕ, zero, suc, ◌≡◌, refl, Bool, true, false, ◌&&◌, Option, none, some, List, [], ◌∷◌, every, ltb,
  length, get_elem?, ◌==◌, nat_eq, text_eq, Text, if◌then◌else◌, Bool-cases, inl, inr, arith,
  beq_refl, ap, ◌∙◌,
}
use grindstone.History.Tables.{
  Bar, BarRow, BarTables, id_of, add_source, is_bar, replace_bar, replace_all, timed, store_rows,
  bar_hist_store,
}

found_source :
    (name : Text) (ss : List Text)
    → get_elem? (add_source name ss) (id_of name (add_source name ss)) ≡ some name
found_source name [] = rw (beq_refl name) refl
found_source name (s ∷ ss) = elim (Bool-cases (s == name)) [
  | inl is ↦ rw is (rw is (ap some ((text_eq.same_iff s name).0 is)))
  | inr other ↦ rw other (rw other (found_source name ss))
]

older_source :
    (name : Text) (i : ℕ) (ss : List Text)
    → ltb i (length ss) ≡ true
    → get_elem? (add_source name ss) i ≡ get_elem? ss i
older_source name i [] h = ground (arith, h)
older_source name zero (s ∷ ss) h = elim (Bool-cases (s == name)) [
  | inl is ↦ rw is refl
  | inr other ↦ rw other refl
]
older_source name (suc i) (s ∷ ss) h = elim (Bool-cases (s == name)) [
  | inl is ↦ rw is refl
  | inr other ↦ rw other (older_source name i ss (ground (arith, h)))
]

-- Two series are the same.
abbrev pub is_same : Text → Text → Text → Text → Bool
is_same symbol timeframe symbol' timeframe' = (symbol == symbol') && (timeframe == timeframe')

module _ {V : Type 0} where
  -- The ids of all rows are ids of sources.
  abbrev pub are_joined : List Text → List (BarRow V) → Bool
  are_joined sources rows = every (λ r. ltb r.src (length sources)) rows

  abbrev find_row : Text → Text → Text → List (BarRow V) → Option (BarRow V)
  find_row symbol timeframe ts [] = none
  find_row symbol timeframe ts (r ∷ rs) =
      if is_bar symbol timeframe ts r then some r else find_row symbol timeframe ts rs

  -- The numbers of a row, and its source.
  abbrev content : List Text → Option (BarRow V) → Option (V × Option Text)
  content sources none = none
  content sources (some r) = some (r.values, get_elem? sources r.src)

  -- The bar that is kept of a series at a time, and the name of its source.
  abbrev pub kept_bar : Text → Text → Text → BarTables V → Option (V × Option Text)
  kept_bar symbol timeframe ts t = content t.sources (find_row symbol timeframe ts t.bars)

  -- The last of the bars with the timestamp, from the source, or what there was.
  abbrev pub last_or :
      Text → Option Text → List (Bar V) → Option (V × Option Text) → Option (V × Option Text)
  last_or ts source [] old = old
  last_or ts source (b ∷ bs) old =
      last_or ts source bs (if b.ts == ts then some (b.values, source) else old)

  content_older :
      (symbol timeframe ts name : Text) (ss : List Text) (rows : List (BarRow V))
      → are_joined ss rows ≡ true
      → content (add_source name ss) (find_row symbol timeframe ts rows)
        ≡ content ss (find_row symbol timeframe ts rows)
  content_older symbol timeframe ts name ss [] h = refl
  content_older symbol timeframe ts name ss (r ∷ rs) h =
      elim (Bool-cases (is_bar symbol timeframe ts r)) [
        | inl is ↦ rw is (rw (older_source name r.src ss (ground (arith, h))) refl)
        | inr other ↦ rw other (content_older symbol timeframe ts name ss rs (ground (arith, h)))
      ]

  module _ (symbol timeframe symbol' timeframe' ts' : Text) where
    pub same_bar :
        (ts : Text) (r : BarRow V)
        → is_bar symbol timeframe ts r ≡ true
        → is_bar symbol' timeframe' ts' r
          ≡ (is_same symbol timeframe symbol' timeframe' && (ts == ts'))
    same_bar ts r h =
        rw
          (
            (text_eq.same_iff r.symbol symbol).0 (ground (arith, h)),
            (text_eq.same_iff r.timeframe timeframe).0 (ground (arith, h)),
            (text_eq.same_iff r.ts ts).0 (ground (arith, h)),
          )
          refl

    other_bar :
        (ts : Text) (r : BarRow V)
        → is_bar symbol timeframe ts r ≡ false
        → is_bar symbol' timeframe' ts' r ≡ true
        → (is_same symbol timeframe symbol' timeframe' && (ts == ts')) ≡ false
    other_bar ts r h h' = ground (
      arith,
      h,
      h',
      text_eq.same_iff r.symbol symbol,
      text_eq.same_iff r.symbol symbol',
      text_eq.same_iff symbol symbol',
      text_eq.same_iff r.timeframe timeframe,
      text_eq.same_iff r.timeframe timeframe',
      text_eq.same_iff timeframe timeframe',
      text_eq.same_iff r.ts ts,
      text_eq.same_iff r.ts ts',
      text_eq.same_iff ts ts',
    )

    replace_exact :
        (ss : List Text) (sid : ℕ) (b : Bar V) (rows : List (BarRow V))
        → content ss (find_row symbol' timeframe' ts' (replace_bar symbol timeframe sid b rows)) ≡ (
            if is_same symbol timeframe symbol' timeframe' && (b.ts == ts')
            then some (b.values, get_elem? ss sid)
            else content ss (find_row symbol' timeframe' ts' rows))
    replace_exact ss sid b [] =
        elim (Bool-cases (is_same symbol timeframe symbol' timeframe' && (b.ts == ts'))) [
          | inl is ↦ rw is refl
          | inr other ↦ rw other refl
        ]
    replace_exact ss sid b (r ∷ rs) = elim (Bool-cases (is_bar symbol timeframe b.ts r)) [
      | inl is ↦
          rw is (elim (Bool-cases (is_same symbol timeframe symbol' timeframe' && (b.ts == ts'))) [
            | inl same ↦ rw (same_bar b.ts r is, same) refl
            | inr other ↦ rw (same_bar b.ts r is, other) refl
          ])
      | inr apart ↦ rw apart (elim (Bool-cases (is_bar symbol' timeframe' ts' r)) [
        | inl found ↦ rw (found, other_bar b.ts r apart found) refl
        | inr absent ↦ rw absent (replace_exact ss sid b rs)
      ])
    ]

    replace_all_exact :
        (ss : List Text) (sid : ℕ) (bs : List (Bar V)) (rows : List (BarRow V))
        → content ss (find_row symbol' timeframe' ts' (replace_all symbol timeframe sid bs rows))
          ≡ (if is_same symbol timeframe symbol' timeframe'
              then last_or ts'
                  (get_elem? ss sid)
                  bs
                  (content ss (find_row symbol' timeframe' ts' rows))
              else content ss (find_row symbol' timeframe' ts' rows))
    replace_all_exact ss sid [] rows =
        elim (Bool-cases (is_same symbol timeframe symbol' timeframe')) [
          | inl is ↦ rw is refl
          | inr other ↦ rw other refl
        ]
    replace_all_exact ss sid (b ∷ bs) rows =
        replace_all_exact ss sid bs (replace_bar symbol timeframe sid b rows)
        ∙ rw (replace_exact ss sid b rows)
            (elim (Bool-cases (is_same symbol timeframe symbol' timeframe')) [
              | inl is ↦ rw is refl
              | inr other ↦ rw other refl
            ])

    -- What a store makes of what there was.
    abbrev told : Option Text → List (Bar V) → Option (V × Option Text) → Option (V × Option Text)
    told source bs old =
        if is_same symbol timeframe symbol' timeframe' then last_or ts' source bs old else old

    store_rows_exact :
        (bars : List (Bar V)) (source : Text) (t : BarTables V)
        → are_joined t.sources t.bars ≡ true
        → kept_bar symbol' timeframe' ts' (store_rows symbol timeframe bars source t).0 ≡ (
            if is_same symbol timeframe symbol' timeframe'
            then last_or ts' (some source) bars (kept_bar symbol' timeframe' ts' t)
            else kept_bar symbol' timeframe' ts' t)
    store_rows_exact [] source t h =
        elim (Bool-cases (is_same symbol timeframe symbol' timeframe')) [
          | inl is ↦ rw is refl
          | inr other ↦ rw other refl
        ]
    store_rows_exact (b ∷ bs) source t h =
        replace_all_exact (add_source source t.sources) (id_of source (add_source source t.sources))
          (b ∷ bs) t.bars
        ∙ ap
            (λ o.
              told o (b ∷ bs)
                (content (add_source source t.sources) (find_row symbol' timeframe' ts' t.bars)))
            (found_source source t.sources)
        ∙ ap (told (some source) (b ∷ bs))
            (content_older symbol' timeframe' ts' source t.sources t.bars h)

    -- After `bar_hist_store`, a series has at each time the last of the bars that were given for that
    -- time, with the name of their source, and where none was given what it had; and any other series
    -- has what it had. The rows refer to sources, and a bar without a time is left out.
    pub kept_bar-bar_hist_store :
        (bars : List (Bar V)) (source : Text) (t : BarTables V)
        → are_joined t.sources t.bars ≡ true
        → kept_bar symbol' timeframe' ts' (bar_hist_store symbol timeframe bars source t).0 ≡ (
            if (symbol == symbol') && (timeframe == timeframe')
            then last_or ts' (some source) (timed bars) (kept_bar symbol' timeframe' ts' t)
            else kept_bar symbol' timeframe' ts' t)
    unfolding bar_hist_store
    kept_bar-bar_hist_store bars source t h = store_rows_exact (timed bars) source t h
