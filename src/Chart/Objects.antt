-- ===== src/Chart/Objects.antt =====
-- The vocabulary of code/backend/chartobjects.py, and the objects that its `validate` returns. A price
-- is a finite float, and a time a whole number of seconds.
use grindstone.Prelude.{
  ℕ, Bool, ◌*◌, Option, none, some, List, [], ◌∷◌, Text, codes, text_eq, ◌==◌, if◌then◌else◌,
}
use grindstone.Json.{Json, text, Float}

abbrev pub max_legs : ℕ
max_legs = 12

abbrev pub max_dte_tol_days : ℕ
max_dte_tol_days = 60

abbrev pub max_strike_tol : ℕ
max_strike_tol = 500

abbrev pub max_chart_key : ℕ
max_chart_key = 120

abbrev pub max_id : ℕ
max_id = 64

abbrev pub max_per_kind : ℕ
max_per_kind = 500

abbrev pub max_doc_bytes : ℕ
max_doc_bytes = 256 * 1024

-- `DRAW_KINDS`
pub data DrawKind : Type 0 where
  trend hline vline circle : DrawKind

-- `POINTS_FOR`
abbrev pub points_for : DrawKind → ℕ
points_for trend = 2
points_for hline = 1
points_for vline = 1
points_for circle = 2

-- `PLACE_AXES`
pub data Axis : Type 0 where
  time price : Axis

-- `ENTITY_PARTS`
pub data Part : Type 0 where
  line a b : Part

pub data Side : Type 0 where
  long short : Side

pub data Right : Type 0 where
  put call : Right

-- The value that the text names (`v in NAMES`).
abbrev pub named : {A : Type 0} → List (Text × A) → Text → Option A
named [] t = none
named ((name, v) ∷ rest) t = if name == t then some v else named rest t

abbrev pub choice : {A : Type 0} → List (Text × A) → Json → Option A
choice names (text t) = named names t
choice names _ = none

abbrev pub draw_kinds : List (Text × DrawKind)
draw_kinds =
    (codes "trend", trend)
    ∷ (codes "hline", hline)
    ∷ (codes "vline", vline)
    ∷ (codes "circle", circle)
    ∷ []

abbrev pub place_axes : List (Text × Axis)
place_axes = (codes "time", time) ∷ (codes "price", price) ∷ []

abbrev pub entity_parts : List (Text × Part)
entity_parts = (codes "line", line) ∷ (codes "a", a) ∷ (codes "b", b) ∷ []

abbrev pub leg_sides : List (Text × Side)
leg_sides = (codes "long", long) ∷ (codes "short", short) ∷ []

abbrev pub leg_rights : List (Text × Right)
leg_rights = (codes "P", put) ∷ (codes "C", call) ∷ []

pub record Point : Type 0 where
  pub at_time : ℕ
  pub at_price : Float

pub record Drawing : Type 0 where
  pub id : Text
  pub kind : DrawKind
  pub points : List Point
  pub leg_owned : Bool

-- A line's anchor has the snapshot of the moment behind it.
pub data Anchor : Type 0 where
  candle : ℕ → Anchor
  free : ℕ → Float → Anchor
  on_line : Text → Float → ℕ → Float → Anchor

pub data Place : Type 0 where
  at_bar : ℕ → Place
  at_level : Float → Place

pub record Measure : Type 0 where
  pub id : Text
  pub from : Anchor
  pub to : Anchor
  pub place : Option Place

pub record Pin : Type 0 where
  pub id : Text
  pub at : ℕ

-- A reference to a drawing, or to a part or a coordinate of one.
pub record Ref : Type 0 where
  pub target : Text
  pub part : Part
  pub axis : Option Axis

-- What the kind of a constraint adds to its first reference.
pub data Relation : Type 0 where
  lock : Relation
  held_on : Ref → Relation
  slope : Float → Relation

pub record Constraint : Type 0 where
  pub id : Text
  pub subject : Ref
  pub relation : Relation

-- `hosts` has the fields with ids that are there, in the order of the source.
pub record Leg : Type 0 where
  pub id : Text
  pub side : Side
  pub right : Right
  pub expiration : Text
  pub strike : Float
  pub dte_tol : Float
  pub strike_tol : Float
  pub slot : ℕ
  pub hosts : List (Text × Text)
  pub group : Option Text
  pub pick : Option Text
  pub hidden : Bool

-- What `validate` returns. `view` is its preset; `none` is a document without a view.
pub record ChartDoc : Type 0 where
  pub drawings : List Drawing
  pub measures : List Measure
  pub pins : List Pin
  pub constraints : List Constraint
  pub legs : List Leg
  pub preset : Option Text

abbrev pub empty_doc : ChartDoc
empty_doc = record {
  drawings = [];
  measures = [];
  pins = [];
  constraints = [];
  legs = [];
  preset = none;
}
