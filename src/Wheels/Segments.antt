-- ===== src/Wheels/Segments.antt =====
-- The segments of a wheel in `validate` of code/backend/wheels.py, and the tests of texts that it makes.
use grindstone.Prelude.{
  ℕ, suc, Bool, ◌||◌, List, [], ◌∷◌, nat_eq, text_eq, Text, codes, Result, ok, refused, ◌>>=◌, ◌>>◌,
  check, require,
}
use grindstone.Unicode.{Unicode, without, replace, before_query, all_alnum, is_gs, is_web, is_icon}
use grindstone.Json.{Json, text, object, Fields, value_of, value_or, one_of, text_within}
use grindstone.Wheels.Vocabulary.{
  routes, tools, chart_tools, data_tools, Kind, kind_of, wheel, nav, tool, ticker, link, chart,
  exchange, placeholder, empty, max_link_address, max_link_icon,
}
use grindstone.Wheels.Document.{
  Segment, to_wheel, to_page, run_tool, chart_tool, data_tool, symbol_of, to_address, announced,
  blank,
}

-- The messages of `_fail` about a segment.
pub data SegmentFault : Type 0 where
  must_be_an_object unknown_type long_label unknown_target unknown_route unknown_tool : SegmentFault
  unknown_chart_tool unknown_data_tool bad_ticker bad_address not_a_link : SegmentFault
  large_icon foreign_icon : SegmentFault

-- The messages of `_fail`, with what they name. A segment is named by its wheel and its number.
pub data WheelFault : Type 0 where
  not_an_object needs_config_and_wheels wheel_count wheel_not_object bad_wheel_id : WheelFault
  duplicate_id bad_name bad_symbol builtin_deleted segment_count : Text → WheelFault
  at_segment : Text → ℕ → SegmentFault → WheelFault
  bad_display locked_missing classes_not_object too_many_classes : WheelFault
  bad_class class_unbound : Text → WheelFault

-- The fault, with the segment that it is at.
unfoldable pub located : {A : Type 0} → Text → ℕ → Result SegmentFault A → Result WheelFault A
located id n (ok a) = ok a
located id n (refused fault) = refused (at_segment id n fault)

module _ (u : Unicode) where
  abbrev pub is_wheel_id : Text → Bool
  is_wheel_id t = u.is_identifier (replace b'-' b'_' t)

  abbrev pub is_ticker : Text → Bool
  is_ticker t = all_alnum u (without b'.' t)

  abbrev pub is_link : Text → Bool
  is_link address = is_gs u (before_query address) || (is_web address)

  -- The branches on the type of a segment, with its label.
  unfoldable pub clean_segment : List Text → Kind → Text → Fields → Result SegmentFault Segment
  clean_segment ids wheel label f = do
    target ← require (one_of ids (value_of f (codes "wheel"))) unknown_target
    ok (to_wheel label target)
  clean_segment ids nav label f = do
    route ← require (one_of routes (value_of f (codes "route"))) unknown_route
    ok (to_page label route)
  clean_segment ids tool label f = do
    t ← require (one_of tools (value_of f (codes "tool"))) unknown_tool
    ok (run_tool label t)
  clean_segment ids chart label f = do
    t ← require (one_of chart_tools (value_of f (codes "tool"))) unknown_chart_tool
    ok (chart_tool label t)
  clean_segment ids exchange label f = do
    t ← require (one_of data_tools (value_of f (codes "tool"))) unknown_data_tool
    ok (data_tool label t)
  clean_segment ids ticker label f = do
    t ← require (text_within 1 8 (value_of f (codes "ticker"))) bad_ticker
    check (is_ticker t) bad_ticker
    ok (symbol_of label (u.uppercase t))
  clean_segment ids link label f = do
    address ← require (text_within 1 max_link_address (value_of f (codes "address"))) bad_address
    check (is_link address) not_a_link
    icon ← require (text_within 0 max_link_icon (value_or f (codes "icon") (text []))) large_icon
    check (is_icon icon) foreign_icon
    ok (to_address label address icon)
  clean_segment ids placeholder label f = ok (announced label)
  clean_segment ids empty label f = ok (blank label)

  unfoldable pub read_segment : List Text → Json → Result SegmentFault Segment
  unfolding clean_segment
  read_segment ids (object f) = do
    kind ← require (kind_of (value_of f (codes "type"))) unknown_type
    label ← require (text_within 0 20 (value_or f (codes "label") (text []))) long_label
    clean_segment ids kind label f
  read_segment ids _ = refused must_be_an_object

  -- The loop over the segments of a wheel, with the number of the next.
  unfoldable pub read_segments : List Text → Text → ℕ → List Json → Result WheelFault (List Segment)
  unfolding read_segment
  read_segments ids id n [] = ok []
  read_segments ids id n (j ∷ js) = do
    s ← located id n (read_segment ids j)
    rest ← read_segments ids id (suc n) js
    ok (s ∷ rest)
