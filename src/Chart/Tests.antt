-- ===== src/Chart/Tests.antt =====
-- Runs of code/backend/chartobjects.py, and the theorems applied there.
use grindstone.Prelude.{
  ℕ, ◌≡◌, refl, true, false, ◌&&◌, none, some, List, [], ◌∷◌, Text, codes, text_eq, nat_eq, ◌==◌,
  leb, length, ok, refused, ◌>>=◌, check, require, text_beq,
}
use grindstone.Json.{
  Json, finite, null, integer, float, text, array, object, array_of, object_of, text_within,
}
use grindstone.Chart.Objects.{max_doc_bytes, hline, lock, line, ChartDoc}
use grindstone.Chart.Read.{Python, read_num, read_time, read_id, read_point, read_points, dangling}
use grindstone.Chart.Collect.{
  read_all, list_at, read_drawing, read_ref, axis_of, read_relation, read_constraint,
}
use grindstone.Chart.Document.{validate_fields, validate_chart}
use grindstone.Chart.Whole.{is_sound_chart, validate_chart-is_sound}
use grindstone.Chart.Stored.{ChartRow, ChartCodec, attribute_error, get_chart}

abbrev python : Python
python = record {
  float_of = λ negative n. some (finite negative n 0);
  is_date = λ t. length t == 10;
}

abbrev small : ChartDoc → ℕ
small d = 100

abbrev level : Json
level = object (
    object_of (
      (codes "id", text (codes "d1"))
      ∷ (codes "kind", text (codes "hline"))
      ∷ (
        codes "points",
        array (
            array_of (
              object (
                object_of (
                  (codes "time", integer false 1700000000)
                  ∷ (codes "price", float (finite false 4505 1))
                  ∷ []))
              ∷ [])),
      )
      ∷ []))

abbrev locked_to : Text → Json
locked_to target = object (
    object_of (
      (codes "id", text (codes "c1"))
      ∷ (codes "kind", text (codes "lock"))
      ∷ (
        codes "a",
        object (object_of ((codes "id", text target) ∷ (codes "part", text (codes "line")) ∷ [])),
      )
      ∷ []))

abbrev chart_with : Text → Json
chart_with target = object (
    object_of (
      (codes "version", integer false 1)
      ∷ (codes "drawings", array (array_of (level ∷ [])))
      ∷ (codes "constraints", array (array_of (locked_to target ∷ [])))
      ∷ []))

abbrev drawn : ChartDoc
drawn = record {
  drawings =
      record {
        id = codes "d1";
        kind = hline;
        points = record { at_time = 1700000000; at_price = finite false 4505 1 } ∷ [];
        leg_owned = false;
      }
      ∷ [];
  measures = [];
  pins = [];
  constraints =
      record {
        id = codes "c1";
        subject = record { target = codes "d1"; part = line; axis = none };
        relation = lock;
      }
      ∷ [];
  legs = [];
  preset = none;
}

accepts : validate_chart python small (chart_with (codes "d1")) ≡ ok drawn
unfolding validate_chart validate_fields read_all list_at read_drawing read_constraint read_ref
    axis_of read_relation read_id read_points read_point read_time read_num text_beq ◌>>=◌ check
    require text_within
accepts = refl

-- A constraint on a drawing that is not there is refused.
refuses_dangling : validate_chart python small (chart_with (codes "d2")) ≡ refused dangling
unfolding validate_chart validate_fields read_all list_at read_drawing read_constraint read_ref
    axis_of read_relation read_id read_points read_point read_time read_num text_beq ◌>>=◌ check
    require text_within
refuses_dangling = refl

validate_chart-is_sound_example : (is_sound_chart drawn && leb (small drawn) max_doc_bytes) ≡ true
validate_chart-is_sound_example =
    validate_chart-is_sound python small (chart_with (codes "d1")) drawn accepts

abbrev codec : ChartCodec Json
codec = record { dumps = λ d. chart_with (codes "d1"); loads = λ v. some v; size = λ v. 100 }

abbrev table : List (ChartRow Json)
table = record { user = 7; key = codes "SPY"; doc = chart_with (codes "d1"); updated = 1 } ∷ []

got_drawn : get_chart python codec table 7 (codes "SPY") ≡ ok drawn
unfolding get_chart text_beq
got_drawn = rw accepts refl

-- A row that is valid JSON and no object is not read as a corrupt one.
no_object_crashes :
    get_chart python codec
      (record { user = 7; key = codes "SPY"; doc = null; updated = 1 } ∷ [])
      7
      (codes "SPY")
    ≡ refused attribute_error
unfolding get_chart text_beq
no_object_crashes = refl
