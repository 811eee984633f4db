-- ===== src/Chart/Read.antt =====
-- The readers of code/backend/chartobjects.py: numbers, times, ids, and the objects made of them.
use grindstone.Prelude.{
  ℕ, ◌/◌, ◌%◌, ◌*◌, Bool, false, ◌&&◌, ◌||◌, not, Option, none, some, List, [], ◌∷◌, ltb, leb,
  contains, ◌==◌, nat_eq, text_eq, Text, codes, if◌then◌else◌, Result, ok, refused, ◌>>=◌, ◌>>◌,
  check, require,
}
use Prim.Native.Nat.{◌^◌}
use grindstone.Json.{
  Float, finite, infinite, nan, Json, null, integer, float, object, Fields, value_of, text_within,
}
use grindstone.Chart.Objects.{
  max_id, DrawKind, Axis, time, price, choice, place_axes, Point, Anchor, candle, free, on_line,
  Place, at_bar, at_level,
}

-- The messages of `_fail`, less the places that they name, and the OverflowError of `float`.
pub data ChartFault : Type 0 where
  overflow : ChartFault
  not_a_number not_finite not_whole no_bar_time : ChartFault
  bad_id : ChartFault
  duplicate : Text → ChartFault
  not_an_object not_a_list too_many unknown_kind unknown_axis unknown_part : ChartFault
  points_missing owned_not_boolean : ChartFault
  point_count : Text → DrawKind → ℕ → ChartFault
  dangling : ChartFault
  second_missing held_on_itself second_given value_missing no_whole_line value_given : ChartFault
  too_many_legs unknown_side unknown_right date_not_text not_a_date : ChartFault
  strike_not_positive dte_tol_range strike_tol_range bad_slot bad_tag hidden_not_boolean :
      ChartFault
  too_large : ℕ → ChartFault

-- What the source asks of Python: `float` of an int, which may overflow, and `date.fromisoformat`.
pub record Python : Type 0 where
  pub float_of : Bool → ℕ → Option Float
  pub is_date : Text → Bool

abbrev pub finite_only : Float → Result ChartFault Float
finite_only (finite negative digits scale) = ok (finite negative digits scale)
finite_only _ = refused not_finite

-- `0 < f`
abbrev pub is_positive : Float → Bool
is_positive (finite negative digits scale) = not negative && ltb 0 digits
is_positive (infinite negative) = not negative
is_positive nan = false

-- `0 <= f <= n`
abbrev pub is_from_zero_to : ℕ → Float → Bool
is_from_zero_to n (finite negative digits scale) =
    (not negative || (digits == 0)) && leb digits (n * 10 ^ scale)
is_from_zero_to n _ = false

-- `int(f)`, where `f` is finite and whole.
abbrev pub whole_of : Float → Result ChartFault ℕ
whole_of (finite negative digits scale) =
    if digits % (10 ^ scale) == 0 then ok (digits / 10 ^ scale) else refused not_whole
whole_of _ = refused not_whole

-- `_id`: `seen` is extended by the caller.
unfoldable pub read_id : List Text → Json → Result ChartFault Text
read_id seen j = do
  id ← require (text_within 1 max_id j) bad_id
  check (not (contains seen id)) (duplicate id)
  ok id

pub data AnchorKind : Type 0 where
  candle_kind line_kind free_kind : AnchorKind

-- `ANCHOR_KINDS`
abbrev anchor_kinds : List (Text × AnchorKind)
anchor_kinds =
    (codes "candle", candle_kind) ∷ (codes "line", line_kind) ∷ (codes "free", free_kind) ∷ []

module _ (py : Python) where
  -- `_num`
  unfoldable pub read_num : Json → Result ChartFault Float
  read_num (integer negative n) = require (py.float_of negative n) overflow >>= finite_only
  read_num (float f) = finite_only f
  read_num _ = refused not_a_number

  abbrev pub bar_time : Float → Result ChartFault ℕ
  bar_time f = do n ← whole_of f; check (is_positive f) no_bar_time; ok n

  -- `_time`
  unfoldable pub read_time : Json → Result ChartFault ℕ
  read_time (integer negative n) = require (py.float_of negative n) overflow >>= bar_time
  read_time (float f) = bar_time f
  read_time _ = refused not_a_number

  -- `_point`
  unfoldable pub read_point : Json → Result ChartFault Point
  unfolding read_time read_num
  read_point (object f) = do
    t ← read_time (value_of f (codes "time"))
    p ← read_num (value_of f (codes "price"))
    ok (record { at_time = t; at_price = p })
  read_point _ = refused not_an_object

  unfoldable pub read_points : List Json → Result ChartFault (List Point)
  unfolding read_point
  read_points [] = ok []
  read_points (j ∷ js) = do p ← read_point j; ps ← read_points js; ok (p ∷ ps)

  abbrev anchor_of : AnchorKind → Fields → Result ChartFault Anchor
  anchor_of candle_kind f = do t ← read_time (value_of f (codes "time")); ok (candle t)
  anchor_of free_kind f = do
    t ← read_time (value_of f (codes "time"))
    p ← read_num (value_of f (codes "price"))
    ok (free t p)
  anchor_of line_kind f = do
    id ← require (text_within 1 max_id (value_of f (codes "drawingId"))) bad_id
    along ← read_num (value_of f (codes "u"))
    t ← read_time (value_of f (codes "time"))
    p ← read_num (value_of f (codes "price"))
    ok (on_line id along t p)

  -- `_anchor`
  unfoldable pub read_anchor : Json → Result ChartFault Anchor
  unfolding read_time read_num
  read_anchor (object f) = do
    kind ← require (choice anchor_kinds (value_of f (codes "kind"))) unknown_kind
    anchor_of kind f
  read_anchor _ = refused not_an_object

  abbrev place_of : Axis → Json → Result ChartFault Place
  place_of time j = do t ← read_time j; ok (at_bar t)
  place_of price j = do p ← read_num j; ok (at_level p)

  -- `_place`, of a place that is not null.
  unfoldable pub read_place : Json → Result ChartFault (Option Place)
  unfolding read_time read_num
  read_place null = ok none
  read_place (object f) = do
    axis ← require (choice place_axes (value_of f (codes "axis"))) unknown_axis
    place ← place_of axis (value_of f (codes "at"))
    ok (some place)
  read_place _ = refused not_an_object
