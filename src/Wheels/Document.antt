-- ===== src/Wheels/Document.antt =====
-- The document of code/backend/wheels.py: what `validate` returns, as a value and as the JSON that is
-- stored, and the default document.
use grindstone.Prelude.{
  Bool, true, false, Option, none, some, List, [], ◌∷◌, ◌++◌, map, Text, codes,
}
use grindstone.Json.{Json, null, boolean, integer, text, array, object, array_of, object_of}
use grindstone.Wheels.Vocabulary.{
  doc_version, default_class_wheels, Kind, kind_name, wheel, nav, tool, ticker, link, chart,
  exchange, placeholder, empty,
}

-- A cleaned segment: its label, and what its type has besides. An icon that is not stored is `[]`.
pub data Segment : Type 0 where
  to_wheel : Text → Text → Segment
  to_page : Text → Text → Segment
  run_tool : Text → Text → Segment
  chart_tool : Text → Text → Segment
  data_tool : Text → Text → Segment
  symbol_of : Text → Text → Segment
  to_address : Text → Text → Text → Segment
  announced : Text → Segment
  blank : Text → Segment

pub record Wheel : Type 0 where
  pub id : Text
  pub name : Text
  pub symbol : Text
  pub builtin : Bool
  pub dynamic : Option Text
  pub segments : List Segment

pub data Display : Type 0 where
  percent price : Display

-- `version` is `doc_version` in each, and `config` is held by its four entries.
pub record Doc : Type 0 where
  pub display : Display
  pub colors : Bool
  pub locked : Option Text
  pub class_wheels : List (Text × Text)
  pub wheels : List Wheel

-- The entries of each object, in the order of the source.
abbrev entry : Text → Text → Text × Json
entry k t = (k, text t)

abbrev start_of : Kind → Text → List (Text × Json)
start_of k label = (codes "type", text (kind_name k)) ∷ (codes "label", text label) ∷ []

abbrev icon_entry : Text → List (Text × Json)
icon_entry [] = []
icon_entry (c ∷ icon) = entry (codes "icon") (c ∷ icon) ∷ []

abbrev segment_entries : Segment → List (Text × Json)
segment_entries (to_wheel label target) = start_of wheel label ++ entry (codes "wheel") target ∷ []
segment_entries (to_page label route) = start_of nav label ++ entry (codes "route") route ∷ []
segment_entries (run_tool label t) = start_of tool label ++ entry (codes "tool") t ∷ []
segment_entries (chart_tool label t) = start_of chart label ++ entry (codes "tool") t ∷ []
segment_entries (data_tool label t) = start_of exchange label ++ entry (codes "tool") t ∷ []
segment_entries (symbol_of label t) = start_of ticker label ++ entry (codes "ticker") t ∷ []
segment_entries (to_address label address icon) =
    start_of link label ++ entry (codes "address") address ∷ icon_entry icon
segment_entries (announced label) = start_of placeholder label
segment_entries (blank label) = start_of empty label

abbrev pub segment_json : Segment → Json
segment_json s = object (object_of (segment_entries s))

abbrev dynamic_entry : Option Text → List (Text × Json)
dynamic_entry none = []
dynamic_entry (some k) = entry (codes "dynamic") k ∷ []

abbrev pub wheel_entries : Wheel → List (Text × Json)
wheel_entries w =
    entry (codes "id") w.id
    ∷ entry (codes "name") w.name
    ∷ entry (codes "symbol") w.symbol
    ∷ (codes "builtin", boolean w.builtin)
    ∷ (dynamic_entry w.dynamic
        ++ (codes "segments", array (array_of (map segment_json w.segments))) ∷ [])

abbrev pub wheel_json : Wheel → Json
wheel_json w = object (object_of (wheel_entries w))

abbrev pub display_name : Display → Text
display_name percent = codes "percent"
display_name price = codes "price"

abbrev pub locked_json : Option Text → Json
locked_json none = null
locked_json (some id) = text id

abbrev pub class_entries : List (Text × Text) → List (Text × Json)
class_entries [] = []
class_entries ((cls, id) ∷ cs) = (cls, text id) ∷ class_entries cs

abbrev config_json : Doc → Json
config_json d = object (
    object_of (
      entry (codes "ticker_display") (display_name d.display)
      ∷ (codes "ticker_colors", boolean d.colors)
      ∷ (codes "locked", locked_json d.locked)
      ∷ (codes "class_wheels", object (object_of (class_entries d.class_wheels)))
      ∷ []))

-- The dict that `validate` returns.
abbrev pub doc_json : Doc → Json
doc_json d = object (
    object_of (
      (codes "version", integer false doc_version)
      ∷ (codes "config", config_json d)
      ∷ (codes "wheels", array (array_of (map wheel_json d.wheels)))
      ∷ []))

abbrev static_wheel : Text → Text → Text → List Segment → Wheel
static_wheel id name symbol segments = record {
  id = id;
  name = name;
  symbol = symbol;
  builtin = true;
  dynamic = none;
  segments = segments;
}

abbrev dynamic_wheel : Text → Text → Text → Wheel
dynamic_wheel id name symbol = record {
  id = id;
  name = name;
  symbol = symbol;
  builtin = true;
  dynamic = some id;
  segments = [];
}

-- The wheels of `default_doc`, each as the source lists it.
abbrev main_wheel : Wheel
main_wheel = static_wheel (codes "main") (codes "Main") (codes "◆") (
    data_tool (codes "Get data") (codes "data:get")
    ∷ to_page (codes "Home") (codes "idle")
    ∷ to_wheel (codes "Tabs") (codes "tabs")
    ∷ to_page (codes "News") (codes "news")
    ∷ run_tool (codes "Search") (codes "search")
    ∷ to_page (codes "Charts") (codes "charts")
    ∷ to_wheel (codes "Favorites") (codes "favorites")
    ∷ data_tool (codes "Post data") (codes "data:post")
    ∷ [])

abbrev chart_wheel : Wheel
chart_wheel = static_wheel (codes "chart") (codes "Chart") (codes "📈") (
    to_wheel (codes "Draw") (codes "chart-draw")
    ∷ chart_tool (codes "Drawings") (codes "vis:draw")
    ∷ to_wheel (codes "Indicators") (codes "chart-ind")
    ∷ chart_tool (codes "Ind. visibility") (codes "vis:ind")
    ∷ to_wheel (codes "Main") (codes "main")
    ∷ to_wheel (codes "Timeframe") (codes "chart-tf")
    ∷ to_wheel (codes "Measure") (codes "chart-measure")
    ∷ to_wheel (codes "Tickers") (codes "chart-tickers")
    ∷ [])

abbrev chart_draw_wheel : Wheel
chart_draw_wheel = static_wheel (codes "chart-draw") (codes "Draw") (codes "✎") (
    chart_tool (codes "Line (any angle)") (codes "trend")
    ∷ chart_tool (codes "H-line") (codes "hline")
    ∷ chart_tool (codes "V-line") (codes "vline")
    ∷ chart_tool (codes "Circle") (codes "circle")
    ∷ to_wheel (codes "Chart") (codes "chart")
    ∷ chart_tool (codes "Trim") (codes "trim")
    ∷ chart_tool (codes "Delete") (codes "delete")
    ∷ [])

abbrev chart_measure_wheel : Wheel
chart_measure_wheel = static_wheel (codes "chart-measure") (codes "Measure") (codes "⤢") (
    chart_tool (codes "Measure") (codes "measure")
    ∷ chart_tool (codes "Inspect candle") (codes "inspect")
    ∷ chart_tool (codes "Clear measures") (codes "clearmeasure")
    ∷ to_wheel (codes "Chart") (codes "chart")
    ∷ [])

abbrev chart_add_wheel : Wheel
chart_add_wheel = dynamic_wheel (codes "chart-add") (codes "Add symbol") (codes "+")

abbrev chart_ind_wheel : Wheel
chart_ind_wheel = dynamic_wheel (codes "chart-ind") (codes "Indicators") (codes "∿")

abbrev chart_tickers_wheel : Wheel
chart_tickers_wheel = dynamic_wheel (codes "chart-tickers") (codes "Show/Hide") (codes "◑")

abbrev chart_tf_wheel : Wheel
chart_tf_wheel = dynamic_wheel (codes "chart-tf") (codes "Timeframe") (codes "⏱")

abbrev ai_wheel : Wheel
ai_wheel = static_wheel (codes "ai") (codes "AI") (codes "AI") (
    announced (codes "Chat")
    ∷ announced (codes "Summarize page")
    ∷ announced (codes "News digest")
    ∷ to_wheel (codes "Main") (codes "main")
    ∷ announced (codes "Explain chart")
    ∷ announced (codes "Indicators")
    ∷ [])

abbrev tabs_wheel : Wheel
tabs_wheel = dynamic_wheel (codes "tabs") (codes "Tabs") (codes "⧉")

abbrev favorites_wheel : Wheel
favorites_wheel = dynamic_wheel (codes "favorites") (codes "Favorites") (codes "★")

abbrev pub default_doc : Doc
default_doc = record {
  display = percent;
  colors = true;
  locked = none;
  class_wheels = default_class_wheels;
  wheels =
      main_wheel ∷ chart_wheel ∷ chart_draw_wheel ∷ chart_measure_wheel ∷ chart_add_wheel
      ∷ chart_ind_wheel ∷ chart_tickers_wheel ∷ chart_tf_wheel ∷ ai_wheel ∷ tabs_wheel
      ∷ favorites_wheel ∷ [];
}
