-- ===== src/Wheels/Valid.antt =====
-- What `validate` of code/backend/wheels.py lets through.
use grindstone.Prelude.{
  nat_eq, ℕ, suc, ◌≡◌, refl, Bool, true, ◌&&◌, some, List, [], ◌∷◌, map, leb, length, every,
  contains, ◌==◌, text_eq, Text, arith, Result, Ensures, gives, fails, Ensures-bind, Ensures-check,
  Ensures-require, require,
}
use grindstone.Unicode.{Unicode, is_icon}
use grindstone.Json.{Json, text, object, Fields, one_of, text_within}
use grindstone.Wheels.Vocabulary.{
  routes, tools, chart_tools, data_tools, Kind, wheel, nav, tool, ticker, link, chart, exchange,
  placeholder, empty, max_link_address, max_link_icon,
}
use grindstone.Wheels.Document.{
  Segment, to_wheel, to_page, run_tool, chart_tool, data_tool, symbol_of, to_address, announced,
  blank, Wheel,
}
use grindstone.Wheels.Segments.{
  SegmentFault, located, is_link, clean_segment, read_segment, read_segments,
}

abbrev pub is_within : ℕ → ℕ → Text → Bool
is_within lo hi t = leb lo (length t) && leb (length t) hi

-- The ids that the document declares.
abbrev pub wheel_ids : List Wheel → List Text
wheel_ids ws = map (λ (w : Wheel). w.id) ws

pub one_of-contains :
    (ts : List Text) (j : Json) (t : Text) → one_of ts j ≡ some t → contains ts t ≡ true
unfolding one_of
one_of-contains ts (text s) t h = ground (arith, h)
one_of-contains ts _ t h = cc

text_within-is_within :
    (lo hi : ℕ) (j : Json) (t : Text) → text_within lo hi j ≡ some t → is_within lo hi t ≡ true
unfolding text_within
text_within-is_within lo hi (text s) t h = ground (arith, h)
text_within-is_within lo hi _ t h = cc

pub Ensures-one_of :
    {E : Type 0} (ts : List Text) (j : Json) (e : E)
    → Ensures (contains ts) (require (one_of ts j) e)
Ensures-one_of ts j e = Ensures-require (one_of ts j) e (one_of-contains ts j)

pub Ensures-text_within :
    {E : Type 0} (lo hi : ℕ) (j : Json) (e : E)
    → Ensures (is_within lo hi) (require (text_within lo hi j) e)
Ensures-text_within lo hi j e =
    Ensures-require (text_within lo hi j) e (text_within-is_within lo hi j)

Ensures-located :
    {A : Type 0} {p : A → Bool} {r : Result SegmentFault A} (id : Text) (n : ℕ)
    → Ensures p r
    → Ensures p (located id n r)
unfolding located
Ensures-located id n (gives h) = gives h
Ensures-located id n fails = fails

module _ (u : Unicode) where
  -- Each reference of a segment leads somewhere, and its texts are of a size that is allowed.
  abbrev pub is_segment : List Text → Segment → Bool
  is_segment ids (to_wheel label target) = is_within 0 20 label && contains ids target
  is_segment ids (to_page label route) = is_within 0 20 label && contains routes route
  is_segment ids (run_tool label t) = is_within 0 20 label && contains tools t
  is_segment ids (chart_tool label t) = is_within 0 20 label && contains chart_tools t
  is_segment ids (data_tool label t) = is_within 0 20 label && contains data_tools t
  is_segment ids (symbol_of label t) = is_within 0 20 label
  is_segment ids (to_address label address icon) =
      is_within 0 20 label
      && (is_within 1 max_link_address address
          && (is_link u address && (is_within 0 max_link_icon icon && is_icon icon)))
  is_segment ids (announced label) = is_within 0 20 label
  is_segment ids (blank label) = is_within 0 20 label

  clean_segment_lem :
      (ids : List Text) (k : Kind) (label : Text) (f : Fields)
      → is_within 0 20 label ≡ true
      → Ensures (is_segment ids) (clean_segment u ids k label f)
  unfolding clean_segment
  clean_segment_lem ids wheel label f h =
      Ensures-bind (Ensures-one_of _ _ _) (λ t known. gives (ground (arith, h, known)))
  clean_segment_lem ids nav label f h =
      Ensures-bind (Ensures-one_of _ _ _) (λ t known. gives (ground (arith, h, known)))
  clean_segment_lem ids tool label f h =
      Ensures-bind (Ensures-one_of _ _ _) (λ t known. gives (ground (arith, h, known)))
  clean_segment_lem ids chart label f h =
      Ensures-bind (Ensures-one_of _ _ _) (λ t known. gives (rw (h, known) refl))
  clean_segment_lem ids exchange label f h =
      Ensures-bind (Ensures-one_of _ _ _) (λ t known. gives (ground (arith, h, known)))
  clean_segment_lem ids ticker label f h =
      Ensures-bind (Ensures-text_within _ _ _ _) (λ t fits. Ensures-check _ _ _ (λ ticks. gives h))
  clean_segment_lem ids link label f h = Ensures-bind (Ensures-text_within _ _ _ _) (λ address fits.
      Ensures-check _ _ _ (λ leads. Ensures-bind (Ensures-text_within _ _ _ _) (λ icon small.
        Ensures-check _ _ _ (λ local. gives (ground (arith, h, fits, leads, small, local))))))
  clean_segment_lem ids placeholder label f h = gives h
  clean_segment_lem ids empty label f h = gives h

  read_segment_lem : (ids : List Text) (j : Json) → Ensures (is_segment ids) (read_segment u ids j)
  unfolding read_segment
  read_segment_lem ids (object f) =
      Ensures-bind (Ensures-require {q = λ k. true} _ _ (λ k known. refl)) (λ k known.
        Ensures-bind (Ensures-text_within _ _ _ _)
          (λ label fits. clean_segment_lem ids k label f fits))
  read_segment_lem ids _ = fails

  pub read_segments_lem :
      (ids : List Text) (id : Text) (n : ℕ) (js : List Json)
      → Ensures
          (λ ss. (length ss == length js) && every (is_segment ids) ss)
          (read_segments u ids id n js)
  unfolding read_segments
  read_segments_lem ids id n [] = gives refl
  read_segments_lem ids id n (j ∷ js) =
      Ensures-bind (Ensures-located id n (read_segment_lem ids j)) (λ s fits.
        Ensures-bind (read_segments_lem ids id (suc n) js)
          (λ rest others. gives (ground (arith, fits, others))))
