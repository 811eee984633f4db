-- ===== src/Chart/Collect.antt =====
-- The five loops of `validate` in code/backend/chartobjects.py, and `validate`.
use grindstone.Prelude.{
  Bool, true, false, not, Option, none, some, List, [], ◌∷◌, leb, length, contains, ◌==◌, nat_eq,
  text_eq, Text, codes, if◌then◌else◌, Result, ok, refused, ◌>>=◌, ◌>>◌, check, require,
}
use grindstone.Json.{Json, null, boolean, text, array, object, items, value_of, text_within}
use grindstone.Chart.Objects.{
  max_id, max_per_kind, points_for, Axis, Part, line, choice, draw_kinds, place_axes, entity_parts,
  Drawing, Measure, Pin, Ref, Relation, lock, held_on, slope, Constraint,
}
use grindstone.Chart.Read.{
  ChartFault, not_an_object, not_a_list, too_many, unknown_kind, unknown_axis, unknown_part,
  points_missing, owned_not_boolean, point_count, dangling, second_missing, held_on_itself,
  second_given, value_missing, no_whole_line, value_given, Python, read_num, read_time, read_id,
  read_points, read_anchor, read_place,
}

-- A loop that reads each object by the ids that were seen before, and adds its own to them.
module _ {A : Type 0} (read : List Text → Json → Result ChartFault A) (id_of : A → Text) where
  unfoldable pub read_all : List Text → List Json → Result ChartFault (List A)
  read_all seen [] = ok []
  read_all seen (j ∷ js) = do x ← read seen j; xs ← read_all (id_of x ∷ seen) js; ok (x ∷ xs)

-- `_list`, of the value under the name.
unfoldable pub list_at : Json → Result ChartFault (List Json)
list_at null = ok []
list_at (array js) = check (leb (length (items js)) max_per_kind) too_many >> ok (items js)
list_at _ = refused not_a_list

abbrev pub points_of : Json → Result ChartFault (List Json)
points_of (array js) = ok (items js)
points_of _ = refused points_missing

-- A flag that is absent, null or a boolean.
abbrev pub flag : ChartFault → Json → Result ChartFault Bool
flag fault null = ok false
flag fault (boolean b) = ok b
flag fault _ = refused fault

-- A tag that is absent, null or a text of 1 to 64 characters.
unfoldable pub tag : ChartFault → Json → Result ChartFault (Option Text)
tag fault null = ok none
tag fault j = do t ← require (text_within 1 max_id j) fault; ok (some t)

abbrev pub is_null : Json → Bool
is_null null = true
is_null _ = false

module _ (py : Python) where
  unfoldable pub read_drawing : List Text → Json → Result ChartFault Drawing
  unfolding read_id read_points
  read_drawing seen (object f) = do
    kind ← require (choice draw_kinds (value_of f (codes "kind"))) unknown_kind
    id ← read_id seen (value_of f (codes "id"))
    js ← points_of (value_of f (codes "points"))
    check (length js == points_for kind) (point_count id kind (length js))
    owned ← flag owned_not_boolean (value_of f (codes "legOwned"))
    points ← read_points py js
    ok (record { id = id; kind = kind; points = points; leg_owned = owned })
  read_drawing seen _ = refused not_an_object

  unfoldable pub read_measure : List Text → Json → Result ChartFault Measure
  unfolding read_id read_anchor read_place
  read_measure seen (object f) = do
    id ← read_id seen (value_of f (codes "id"))
    from ← read_anchor py (value_of f (codes "a"))
    to ← read_anchor py (value_of f (codes "b"))
    place ← read_place py (value_of f (codes "place"))
    ok (record { id = id; from = from; to = to; place = place })
  read_measure seen _ = refused not_an_object

  unfoldable pub read_pin : List Text → Json → Result ChartFault Pin
  unfolding read_id read_time
  read_pin seen (object f) = do
    id ← read_id seen (value_of f (codes "id"))
    t ← read_time py (value_of f (codes "time"))
    ok (record { id = id; at = t })
  read_pin seen _ = refused not_an_object

-- The axis of a reference, which may be absent.
unfoldable pub axis_of : Json → Result ChartFault (Option Axis)
axis_of null = ok none
axis_of j = do axis ← require (choice place_axes j) unknown_axis; ok (some axis)

abbrev pub text_in : List Text → Json → Option Text
text_in known (text t) = if contains known t then some t else none
text_in known _ = none

-- `_ref`: the reference is to a drawing of the document.
unfoldable pub read_ref : List Text → Json → Result ChartFault Ref
unfolding axis_of
read_ref known (object f) = do
  part ← require (choice entity_parts (value_of f (codes "part"))) unknown_part
  target ← require (text_in known (value_of f (codes "id"))) dangling
  axis ← axis_of (value_of f (codes "axis"))
  ok (record { target = target; part = part; axis = axis })
read_ref known _ = refused not_an_object

-- `CONSTRAINT_KINDS`
pub data ConstraintKind : Type 0 where
  lock_kind on_kind slope_kind : ConstraintKind

abbrev pub constraint_kinds : List (Text × ConstraintKind)
constraint_kinds =
    (codes "lock", lock_kind) ∷ (codes "on", on_kind) ∷ (codes "slope", slope_kind) ∷ []

abbrev pub is_whole_line : Part → Option Axis → Bool
is_whole_line line none = true
is_whole_line _ _ = false

module _ (py : Python) where
  -- The branches on the kind of a constraint, with its first reference and the values of "b" and
  -- "value".
  unfoldable pub read_relation :
      List Text → ConstraintKind → Ref → Json → Json → Result ChartFault Relation
  unfolding read_ref read_num
  read_relation known lock_kind a b value = do
    check (is_null b) second_given
    check (is_null value) value_given
    ok lock
  read_relation known on_kind a b value = do
    check (not (is_null b)) second_missing
    r ← read_ref known b
    check (not (r.target == a.target)) held_on_itself
    check (is_null value) value_given
    ok (held_on r)
  read_relation known slope_kind a b value = do
    check (is_null b) second_given
    check (not (is_null value)) value_missing
    s ← read_num py value
    check (is_whole_line a.part a.axis) no_whole_line
    ok (slope s)

  unfoldable pub read_constraint : List Text → List Text → Json → Result ChartFault Constraint
  unfolding read_id read_relation
  read_constraint known seen (object f) = do
    kind ← require (choice constraint_kinds (value_of f (codes "kind"))) unknown_kind
    id ← read_id seen (value_of f (codes "id"))
    a ← read_ref known (value_of f (codes "a"))
    r ← read_relation known kind a (value_of f (codes "b")) (value_of f (codes "value"))
    ok (record { id = id; subject = a; relation = r })
  read_constraint known seen _ = refused not_an_object
