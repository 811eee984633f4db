-- ===== src/Wheels/Vocabulary.antt =====
-- The constants of code/backend/wheels.py, and what it asks of Python's Unicode tables.
use grindstone.Prelude.{
  ℕ, Bool, ◌*◌, List, [], ◌∷◌, Text, codes, Option, none, some, map, ◌++◌, if◌then◌else◌, contains,
  text_eq, ◌≡◌, refl, text_beq, nat_eq, ◌==◌,
}
use grindstone.Json.{Json, text}

abbrev pub doc_key : Text
doc_key = codes "gesture_wheels"

abbrev pub doc_version : ℕ
doc_version = 7

abbrev pub default_class_wheels : List (Text × Text)
default_class_wheels = (codes "chart", codes "chart") ∷ []

abbrev pub max_class_wheels : ℕ
max_class_wheels = 24

abbrev pub max_wheels : ℕ
max_wheels = 16

abbrev pub max_segments : ℕ
max_segments = 12

abbrev pub min_segments : ℕ
min_segments = 2

abbrev pub routes : List Text
routes =
    codes "idle"
    ∷ codes "accounts"
    ∷ codes "data"
    ∷ codes "settings"
    ∷ codes "news"
    ∷ codes "charts"
    ∷ []

abbrev pub tools : List Text
tools = codes "search" ∷ []

abbrev pub timeframes : List Text
timeframes = codes "1Min" ∷ codes "5Min" ∷ codes "15Min" ∷ codes "1Hour" ∷ codes "1Day" ∷ []

abbrev pub chart_tools : List Text
chart_tools =
    (codes "pointer"
      ∷ codes "trend"
      ∷ codes "hline"
      ∷ codes "vline"
      ∷ codes "circle"
      ∷ codes "delete"
      ∷ codes "trim"
      ∷ codes "clear"
      ∷ codes "measure"
      ∷ codes "inspect"
      ∷ codes "clearmeasure"
      ∷ codes "ind:vol"
      ∷ codes "ind:sma20"
      ∷ codes "ind:sma50"
      ∷ codes "ind:ema20"
      ∷ codes "ind:rsi14"
      ∷ codes "settings"
      ∷ codes "normalize"
      ∷ codes "vis:draw"
      ∷ codes "vis:ind"
      ∷ codes "isolate"
      ∷ [])
    ++ map (λ t. codes "tf:" ++ t) timeframes

abbrev pub data_tools : List Text
data_tools = codes "data:get" ∷ codes "data:post" ∷ []

-- `SEG_TYPES`
pub data Kind : Type 0 where
  wheel nav tool ticker link chart exchange placeholder empty : Kind

abbrev pub kind_name : Kind → Text
kind_name wheel = codes "wheel"
kind_name nav = codes "nav"
kind_name tool = codes "tool"
kind_name ticker = codes "ticker"
kind_name link = codes "link"
kind_name chart = codes "chart"
kind_name exchange = codes "data"
kind_name placeholder = codes "placeholder"
kind_name empty = codes "empty"

abbrev pub seg_types : List Kind
seg_types = wheel ∷ nav ∷ tool ∷ ticker ∷ link ∷ chart ∷ exchange ∷ placeholder ∷ empty ∷ []

-- `stype in SEG_TYPES`, and which.
abbrev find_kind : List Kind → Text → Option Kind
find_kind [] t = none
find_kind (k ∷ ks) t = if kind_name k == t then some k else find_kind ks t

unfoldable pub kind_of : Json → Option Kind
kind_of (text t) = find_kind seg_types t
kind_of _ = none

pub kind_of-kind_name : (k : Kind) → kind_of (text (kind_name k)) ≡ some k
unfolding kind_of text_beq
kind_of-kind_name wheel = refl
kind_of-kind_name nav = refl
kind_of-kind_name tool = refl
kind_of-kind_name ticker = refl
kind_of-kind_name link = refl
kind_of-kind_name chart = refl
kind_of-kind_name exchange = refl
kind_of-kind_name placeholder = refl
kind_of-kind_name empty = refl

abbrev pub max_link_address : ℕ
max_link_address = 300

abbrev pub max_link_icon : ℕ
max_link_icon = 128 * 1024

abbrev pub dynamic_kinds : List Text
dynamic_kinds =
    codes "tabs"
    ∷ codes "favorites"
    ∷ codes "chart-add"
    ∷ codes "chart-ind"
    ∷ codes "chart-tickers"
    ∷ codes "chart-tf"
    ∷ []

abbrev pub builtin_ids : List Text
builtin_ids =
    codes "main"
    ∷ codes "ai"
    ∷ codes "tabs"
    ∷ codes "favorites"
    ∷ codes "chart"
    ∷ codes "chart-add"
    ∷ codes "chart-ind"
    ∷ codes "chart-tickers"
    ∷ codes "chart-draw"
    ∷ codes "chart-measure"
    ∷ codes "chart-tf"
    ∷ []

unfoldable pub is_dynamic_kind : Text → Bool
is_dynamic_kind t = contains dynamic_kinds t

unfoldable pub is_builtin : Text → Bool
is_builtin id = contains builtin_ids id
