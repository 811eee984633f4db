-- ===== src/Wheels/Whole.antt =====
-- A whole document of wheels: what code/backend/wheels.py wants of one, stated apart from its code.
use grindstone.Prelude.{
  distinct, ℕ, Bool, true, false, ◌&&◌, not, Option, none, some, List, leb, length, every, contains,
  ◌==◌, nat_eq, text_eq, Text,
}
use grindstone.Unicode.{Unicode}
use grindstone.Wheels.Vocabulary.{
  max_class_wheels, max_wheels, max_segments, min_segments, is_dynamic_kind, is_builtin,
  builtin_ids,
}
use grindstone.Wheels.Document.{Wheel, Doc}
use grindstone.Wheels.Segments.{is_wheel_id}
use grindstone.Wheels.Validate.{is_class_name}
use grindstone.Wheels.Valid.{is_within, wheel_ids, is_segment}

abbrev pub is_same : Bool → Bool → Bool
is_same true b = b
is_same false b = not b

-- A wheel is dynamic by a kind of its own, and one whose id is such a kind is dynamic.
abbrev pub is_dynamic : Text → Option Text → Bool
is_dynamic id (some k) = is_dynamic_kind k
is_dynamic id none = not (is_dynamic_kind id)

-- A dynamic wheel has no segments; another has as many as a wheel may have.
abbrev pub is_size : Option Text → ℕ → Bool
is_size (some k) n = n == 0
is_size none n = leb min_segments n && leb n max_segments

abbrev pub is_locked : List Text → Option Text → Bool
is_locked ids none = true
is_locked ids (some id) = contains ids id

abbrev pub is_bound : List Text → Text × Text → Bool
is_bound ids (cls, id) = is_class_name cls && contains ids id

module _ (u : Unicode) where
  abbrev pub is_named : Text → Text → Text → Bool
  is_named id name symbol =
      (is_within 1 32 id && is_wheel_id u id) && (is_within 1 24 name && is_within 1 4 symbol)

  abbrev pub is_wheel : List Text → Wheel → Bool
  is_wheel ids w =
      is_named w.id w.name w.symbol
      && (is_same w.builtin (is_builtin w.id)
          && (is_dynamic w.id w.dynamic
              && (is_size w.dynamic (length w.segments) && every (is_segment u ids) w.segments)))

  abbrev pub is_whole : Doc → Bool
  is_whole d =
      (leb 1 (length d.wheels) && leb (length d.wheels) max_wheels)
      && (distinct (wheel_ids d.wheels)
          && (every (contains (wheel_ids d.wheels)) builtin_ids
              && (every (is_wheel (wheel_ids d.wheels)) d.wheels
                  && (is_locked (wheel_ids d.wheels) d.locked
                      && (leb (length d.class_wheels) max_class_wheels
                          && every (is_bound (wheel_ids d.wheels)) d.class_wheels)))))
