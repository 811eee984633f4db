-- ===== src/History/Spliced.antt =====
-- The segments that `bar_hist_read` of code/backend/marketdb.py tells a spliced series by.
use grindstone.Prelude.{
  ℕ, ◌≡◌, refl, Bool, true, ◌&&◌, ◌||◌, any, ◌∙◌, not, List, [], ◌∷◌, ◌++◌, take, reverse, ◌==◌,
  text_eq, Text, arith,
}
use mathlib.Core.List.{reverse-cons}
use grindstone.History.Tables.{
  Bar, BarTables, SourceSegment, extend, extend_all, newest_bars, bar_hist_read,
}

-- No two segments that follow each other have the same source.
abbrev pub alternate : List SourceSegment → Bool
alternate [] = true
alternate (s ∷ []) = true
alternate (s ∷ r ∷ ss) = not (s.source == r.source) && alternate (r ∷ ss)

alternate-extend :
    (day source : Text) (ss : List SourceSegment)
    → alternate ss ≡ true
    → alternate (extend day source ss) ≡ true
alternate-extend day source [] h = refl
alternate-extend day source (s ∷ []) h =
    ground (arith, text_eq.same_iff s.source source, text_eq.same_iff source s.source)
alternate-extend day source (s ∷ r ∷ ss) h =
    ground (arith, h, text_eq.same_iff s.source source, text_eq.same_iff source s.source)

alternate-extend_all :
    {V : Type 0} (bs : List (Bar V × Text)) (out : List SourceSegment)
    → alternate out ≡ true
    → alternate (extend_all bs out) ≡ true
alternate-extend_all [] out h = h
alternate-extend_all (b ∷ bs) out h =
    alternate-extend_all bs (extend (take 10 b.0.ts) b.1 out)
      (alternate-extend (take 10 b.0.ts) b.1 out h)

two_last :
    (ss : List SourceSegment) (r s : SourceSegment)
    → alternate ((ss ++ (r ∷ [])) ++ (s ∷ []))
      ≡ (alternate (ss ++ (r ∷ [])) && not (r.source == s.source))
two_last [] r s = ground arith
two_last (x ∷ []) r s = ground arith
two_last (x ∷ y ∷ ss) r s = ground (arith, two_last (y ∷ ss) r s)

alternate-reverse : (ss : List SourceSegment) → alternate ss ≡ true → alternate (reverse ss) ≡ true
alternate-reverse [] h = refl
alternate-reverse (s ∷ []) h = refl
alternate-reverse (s ∷ r ∷ ss) h =
    rw (reverse-cons s (r ∷ ss), reverse-cons r ss)
      (rw (two_last (reverse ss) r s) (
        rw (← reverse-cons r ss) (
          ground (
            arith,
            alternate-reverse (r ∷ ss),
            h,
            text_eq.same_iff s.source r.source,
            text_eq.same_iff r.source s.source,
          ))))

abbrev pub is_told : Text → List SourceSegment → Bool
is_told source ss = any (λ s. s.source == source) ss

abbrev pub is_used : {V : Type 0} → Text → List (Bar V × Text) → Bool
is_used source bs = any (λ b. b.1 == source) bs

is_told-extend :
    (day x source : Text) (ss : List SourceSegment)
    → is_told source (extend day x ss) ≡ ((x == source) || is_told source ss)
is_told-extend day x source [] = refl
is_told-extend day x source (s ∷ ss) = ground (
  arith,
  text_eq.same_iff s.source x,
  text_eq.same_iff s.source source,
  text_eq.same_iff x source,
)

is_told-extend_all :
    {V : Type 0} (source : Text) (bs : List (Bar V × Text)) (out : List SourceSegment)
    → is_told source (extend_all bs out) ≡ (is_used source bs || is_told source out)
is_told-extend_all source [] out = refl
is_told-extend_all source (b ∷ bs) out = ground (
  arith,
  is_told-extend_all source bs (extend (take 10 b.0.ts) b.1 out),
  is_told-extend (take 10 b.0.ts) b.1 source out,
)

is_told-append :
    (source : Text) (ss : List SourceSegment) (s : SourceSegment)
    → is_told source (ss ++ (s ∷ [])) ≡ (is_told source ss || (s.source == source))
is_told-append source [] s = ground arith
is_told-append source (r ∷ ss) s = ground (arith, is_told-append source ss s)

is_told-reverse :
    (source : Text) (ss : List SourceSegment) → is_told source (reverse ss) ≡ is_told source ss
is_told-reverse source [] = refl
is_told-reverse source (s ∷ ss) =
    rw (reverse-cons s ss)
      (ground (arith, is_told-append source (reverse ss) s, is_told-reverse source ss))

-- The segments that `bar_hist_read` returns name a source exactly if a bar that is returned came from
-- it, and no two that follow each other name the same.
pub bar_hist_read_tells :
    {V : Type 0} (symbol timeframe source : Text) (limit : ℕ) (t : BarTables V)
    → (is_told source (bar_hist_read symbol timeframe limit t).1
        ≡ is_used source (newest_bars symbol timeframe limit t))
      × (alternate (bar_hist_read symbol timeframe limit t).1 ≡ true)
unfolding bar_hist_read
bar_hist_read_tells symbol timeframe source limit t = (
  is_told-reverse source (extend_all (newest_bars symbol timeframe limit t) [])
      ∙ is_told-extend_all source (newest_bars symbol timeframe limit t) []
      ∙ ground arith,
  alternate-reverse (extend_all (newest_bars symbol timeframe limit t) [])
      (alternate-extend_all (newest_bars symbol timeframe limit t) [] refl),
)
