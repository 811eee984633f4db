-- ===== src/Wheels/Validate.antt =====
-- `validate` of code/backend/wheels.py.
use grindstone.Prelude.{
  ℕ, Bool, true, false, ◌&&◌, ◌||◌, not, Option, none, some, List, [], ◌∷◌, map, leb, length, every,
  contains, ◌==◌, nat_eq, text_eq, Text, codes, if◌then◌else◌, Result, ok, refused, ◌>>=◌, ◌>>◌,
  check, require,
}
use grindstone.Unicode.{Unicode}
use grindstone.Json.{
  Json, null, boolean, text, array, object, Fields, end, items, pairs, value_of, value_or, truth,
  one_of, text_within,
}
use grindstone.Wheels.Vocabulary.{
  is_dynamic_kind, is_builtin, default_class_wheels, max_class_wheels, max_wheels, max_segments,
  min_segments, dynamic_kinds, builtin_ids,
}
use grindstone.Wheels.Document.{Wheel, Display, percent, price, Doc}
use grindstone.Wheels.Segments.{
  WheelFault, not_an_object, needs_config_and_wheels, wheel_count, wheel_not_object, bad_wheel_id,
  duplicate_id, bad_name, bad_symbol, builtin_deleted, segment_count, bad_display, locked_missing,
  classes_not_object, too_many_classes, bad_class, class_unbound, is_wheel_id, read_segments,
}

abbrev is_class_char : ℕ → Bool
is_class_char c =
    (leb b'a' c && leb c b'z')
    || ((leb b'0' c && leb c b'9') || (c == b':' || (c == b'_' || c == b'-')))

-- `_CLASS_RE.fullmatch`
abbrev pub is_class_name : Text → Bool
is_class_name [] = false
is_class_name (c ∷ s) = (leb b'a' c && leb c b'z') && (leb (length s) 23 && every is_class_char s)

-- What the first loop over the wheels reads of one, and its entries, for the second.
pub record Head : Type 0 where
  pub head_id : Text
  pub head_name : Text
  pub head_symbol : Text
  pub entries : Fields

-- `wh.get("dynamic") if ... in DYNAMIC_KINDS else (wid if wid in DYNAMIC_KINDS else None)`
abbrev pub dynamic_or : Text → Option Text → Option Text
dynamic_or id (some k) = some k
dynamic_or id none = if is_dynamic_kind id then some id else none

abbrev pub dynamic_of : Text → Fields → Option Text
dynamic_of id f = dynamic_or id (one_of dynamic_kinds (value_of f (codes "dynamic")))

-- `segments or []`, if it is a list of a size that is allowed.
abbrev pub sized : List Json → Option (List Json)
sized js = if leb min_segments (length js) && leb (length js) max_segments then some js else none

abbrev pub list_of : Json → Option (List Json)
list_of (array js) = sized (items js)
list_of _ = none

-- `segments` of a wheel: none if it is dynamic.
abbrev pub stored_segments : Option Text → Json → Option (List Json)
stored_segments (some k) j = some []
stored_segments none j = if truth j then list_of j else sized []

module _ (u : Unicode) where
  -- The first loop over the wheels, with the ids before.
  unfoldable pub read_head : List Text → Json → Result WheelFault Head
  read_head seen (object f) = do
    id ← require (text_within 1 32 (value_of f (codes "id"))) bad_wheel_id
    check (is_wheel_id u id) bad_wheel_id
    check (not (contains seen id)) (duplicate_id id)
    name ← require (text_within 1 24 (value_of f (codes "name"))) (bad_name id)
    symbol ← require (text_within 1 4 (value_of f (codes "symbol"))) (bad_symbol id)
    ok (record { head_id = id; head_name = name; head_symbol = symbol; entries = f })
  read_head seen _ = refused wheel_not_object

  unfoldable pub read_heads : List Text → List Json → Result WheelFault (List Head)
  unfolding read_head
  read_heads seen [] = ok []
  read_heads seen (j ∷ js) = do
    h ← read_head seen j
    rest ← read_heads (h.head_id ∷ seen) js
    ok (h ∷ rest)

  -- The second loop over the wheels.
  unfoldable pub read_wheel : List Text → Head → Result WheelFault Wheel
  unfolding read_segments
  read_wheel ids h = do
    let dynamic = dynamic_of h.head_id h.entries
    js ←
        require (stored_segments dynamic (value_of h.entries (codes "segments")))
          (segment_count h.head_id)
    segments ← read_segments u ids h.head_id 1 js
    ok (record {
      id = h.head_id;
      name = h.head_name;
      symbol = h.head_symbol;
      builtin = is_builtin h.head_id;
      dynamic = dynamic;
      segments = segments;
    })

  unfoldable pub read_wheels : List Text → List Head → Result WheelFault (List Wheel)
  unfolding read_wheel
  read_wheels ids [] = ok []
  read_wheels ids (h ∷ hs) = do w ← read_wheel ids h; rest ← read_wheels ids hs; ok (w ∷ rest)

-- The loop over the built-in wheels.
unfoldable pub check_builtins : List Text → List Text → Result WheelFault (Unit {0})
check_builtins ids [] = ok tt
check_builtins ids (b ∷ bs) = check (contains ids b) (builtin_deleted b) >> check_builtins ids bs

abbrev pub display_of : Json → Option Display
display_of (text t) =
    if t == codes "percent" then some percent else if t == codes "price" then some price else none
display_of _ = none

-- The locked wheel: `none` is a refusal, and `some none` is no wheel.
abbrev pub locked_of : List Text → Json → Option (Option Text)
locked_of ids null = some none
locked_of ids (text t) = if contains ids t then some (some t) else none
locked_of ids _ = none

-- The loop over the class bindings: the keys of a dict differ, so that each is added at the end.
unfoldable pub read_classes :
    List Text → List (Text × Json) → Result WheelFault (List (Text × Text))
read_classes ids [] = ok []
read_classes ids ((cls, j) ∷ rest) = do
  check (is_class_name cls) (bad_class cls)
  id ← require (one_of ids j) (class_unbound cls)
  others ← read_classes ids rest
  ok ((cls, id) ∷ others)

unfoldable pub class_wheels_of : List Text → Json → Result WheelFault (List (Text × Text))
unfolding read_classes
class_wheels_of ids null = read_classes ids (map (λ p. (p.0, text p.1)) default_class_wheels)
class_wheels_of ids (object f) =
    check (leb (length (pairs f)) max_class_wheels) too_many_classes >> read_classes ids (pairs f)
class_wheels_of ids _ = refused classes_not_object

abbrev pub head_ids : List Head → List Text
head_ids hs = map (λ (h : Head). h.head_id) hs

module _ (u : Unicode) where
  -- `validate` of a list of wheels and the entries of a configuration.
  unfoldable pub validate_parts : Fields → List Json → Result WheelFault Doc
  unfolding read_heads check_builtins read_wheels class_wheels_of
  validate_parts config js = do
    check (leb 1 (length js) && leb (length js) max_wheels) wheel_count
    heads ← read_heads u [] js
    let ids = head_ids heads
    check_builtins ids builtin_ids
    wheels ← read_wheels u ids heads
    display ←
        require (display_of (value_or config (codes "ticker_display") (text (codes "percent"))))
          bad_display
    locked ← require (locked_of ids (value_of config (codes "locked"))) locked_missing
    class_wheels ← class_wheels_of ids (value_of config (codes "class_wheels"))
    ok (record {
      display = display;
      colors = truth (value_or config (codes "ticker_colors") (boolean true));
      locked = locked;
      class_wheels = class_wheels;
      wheels = wheels;
    })

  -- `config or {}`
  abbrev pub with_config : Json → Json → Result WheelFault Doc
  with_config (object config) (array js) = validate_parts config (items js)
  with_config _ _ = refused needs_config_and_wheels

  abbrev pub or_empty : Json → Json
  or_empty j = if truth j then j else object end

  unfoldable pub validate : Json → Result WheelFault Doc
  unfolding validate_parts
  validate (object f) =
      with_config (or_empty (value_of f (codes "config"))) (value_of f (codes "wheels"))
  validate _ = refused not_an_object
