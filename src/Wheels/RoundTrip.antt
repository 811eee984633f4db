-- ===== src/Wheels/RoundTrip.antt =====
-- `validate` of code/backend/wheels.py reads back the documents that it returns.
use grindstone.Prelude.{
  distinct, are_fresh, are_fresh-cons, suc, ◌≡◌, refl, Bool, true, false, ◌&&◌, not, Option, none,
  some, List, [], ◌∷◌, map, leb, length, every, contains, nat_eq, text_eq, Text, arith, ok, ◌>>=◌,
  check, require, ap, text_beq,
}
use grindstone.Unicode.{Unicode}
use grindstone.Json.{
  text, array, object, one_of, array_of, object_of, items-array_of, pairs-object_of,
}
use grindstone.Wheels.Vocabulary.{
  max_class_wheels, max_wheels, dynamic_kinds, is_dynamic_kind, is_builtin, builtin_ids,
}
use grindstone.Wheels.Document.{
  Segment, segment_json, wheel_json, class_entries, doc_json, locked_json, display_name, Wheel, Doc,
  Display, percent, price,
}
use grindstone.Wheels.Segments.{read_segments}
use grindstone.Wheels.Valid.{wheel_ids}
use grindstone.Wheels.Whole.{
  is_named, is_dynamic, is_size, is_locked, is_bound, is_wheel, is_whole, is_same,
}
use grindstone.Wheels.ReadBack.{
  one_of_known, and_left, and_right, is_settled, read_segments_json, head_of, read_head_json,
}
use grindstone.Wheels.Validate.{
  is_class_name, stored_segments, read_heads, read_wheel, read_wheels, check_builtins, display_of,
  locked_of, read_classes, class_wheels_of, head_ids, validate_parts, validate,
}

length-map : {A B : Type 0} (f : A → B) (xs : List A) → length (map f xs) ≡ length xs
length-map f [] = refl
length-map f (x ∷ xs) = ap suc (length-map f xs)

is_same-eq : (a b : Bool) → is_same a b ≡ true → b ≡ a
is_same-eq true b h = h
is_same-eq false b h = ground arith

-- The list of segments, as the second loop finds it.
stored_known :
    (ss : List Segment)
    → is_size none (length ss) ≡ true
    → stored_segments none (array (array_of (map segment_json ss))) ≡ some (map segment_json ss)
stored_known [] h = cc
stored_known (s ∷ ss) h =
    rw (items-array_of (map segment_json ss), length-map segment_json ss) (rw h refl)

abbrev parts_of : Text → Text → Text → Bool → Option Text → List Segment → Wheel
parts_of id name symbol builtin dynamic segments = record {
  id = id;
  name = name;
  symbol = symbol;
  builtin = builtin;
  dynamic = dynamic;
  segments = segments;
}

module _ (u : Unicode) where
  read_heads_json :
      (seen : List Text) (ws : List Wheel)
      → every (λ (w : Wheel). is_named u w.id w.name w.symbol) ws ≡ true
      → distinct (wheel_ids ws) ≡ true
      → are_fresh seen (wheel_ids ws) ≡ true
      → read_heads u seen (map wheel_json ws) ≡ ok (map head_of ws)
  unfolding read_heads ◌>>=◌
  read_heads_json seen [] named differ fresh = refl
  read_heads_json seen (w ∷ ws) named differ fresh =
      let rest = wheel_ids ws in
      let others : are_fresh (w.id ∷ seen) rest ≡ true =
        ground (arith, are_fresh-cons w.id seen rest) in
      rw
        (
          read_head_json u seen w (and_left (is_named u w.id w.name w.symbol) _ named)
              (ground (arith, fresh)),
          read_heads_json (w.id ∷ seen) ws (and_right (is_named u w.id w.name w.symbol) _ named)
              (and_right (not (contains rest w.id)) _ differ) others,
        )
        refl

  read_static :
      (ids : List Text) (id name symbol : Text) (builtin : Bool) (ss : List Segment)
      → is_wheel u ids (parts_of id name symbol builtin none ss) ≡ true
      → every (is_settled u) ss ≡ true
      → read_wheel u ids (head_of (parts_of id name symbol builtin none ss))
        ≡ ok (parts_of id name symbol builtin none ss)
  unfolding read_wheel ◌>>=◌ require text_beq one_of
  read_static ids id name symbol builtin ss h k =
      let kind = and_right (is_named u id name symbol) _ h in
      let size = and_right (is_same builtin (is_builtin id)) _ kind in
      let sized = and_right (is_dynamic id none) _ size in
      let static : is_dynamic_kind id ≡ false =
        ground (arith, and_left (is_dynamic id none) _ size) in
      rw
        (
          static,
          stored_known ss (and_left (is_size none (length ss)) _ sized),
          read_segments_json u ids id 1 ss (and_right (is_size none (length ss)) _ sized) k,
          is_same-eq builtin (is_builtin id) (and_left (is_same builtin (is_builtin id)) _ kind),
        )
        refl

  read_dynamic :
      (ids : List Text) (id name symbol kind : Text) (builtin : Bool)
      → is_wheel u ids (parts_of id name symbol builtin (some kind) []) ≡ true
      → read_wheel u ids (head_of (parts_of id name symbol builtin (some kind) []))
        ≡ ok (parts_of id name symbol builtin (some kind) [])
  unfolding read_wheel ◌>>=◌ require text_beq read_segments is_dynamic_kind
  read_dynamic ids id name symbol kind builtin h =
      let rest = and_right (is_named u id name symbol) _ h in
      let size = and_right (is_same builtin (is_builtin id)) _ rest in
      rw
        (
          one_of_known dynamic_kinds kind (and_left (is_dynamic_kind kind) _ size),
          is_same-eq builtin (is_builtin id) (and_left (is_same builtin (is_builtin id)) _ rest),
        )
        refl

  read_wheel_parts :
      (ids : List Text) (id name symbol : Text) (builtin : Bool) (dynamic : Option Text)
      → (ss : List Segment) → is_wheel u ids (parts_of id name symbol builtin dynamic ss) ≡ true
      → every (is_settled u) ss ≡ true
      → read_wheel u ids (head_of (parts_of id name symbol builtin dynamic ss))
        ≡ ok (parts_of id name symbol builtin dynamic ss)
  read_wheel_parts ids id name symbol builtin none ss h k =
      read_static ids id name symbol builtin ss h k
  read_wheel_parts ids id name symbol builtin (some kind) [] h k =
      read_dynamic ids id name symbol kind builtin h
  read_wheel_parts ids id name symbol builtin (some kind) (s ∷ ss) h k = absurd (ground (arith, h))

  read_wheels_json :
      (ids : List Text) (ws : List Wheel)
      → every (is_wheel u ids) ws ≡ true
      → every (λ (w : Wheel). every (is_settled u) w.segments) ws ≡ true
      → read_wheels u ids (map head_of ws) ≡ ok ws
  unfolding read_wheels ◌>>=◌
  read_wheels_json ids [] h k = refl
  read_wheels_json ids (w ∷ ws) h k =
      rw
        (
          read_wheel_parts ids w.id w.name w.symbol w.builtin w.dynamic w.segments
              (and_left (is_wheel u ids w) _ h) (and_left (every (is_settled u) w.segments) _ k),
          read_wheels_json ids ws (and_right (is_wheel u ids w) _ h)
              (and_right (every (is_settled u) w.segments) _ k),
        )
        refl

head_ids-head_of : (ws : List Wheel) → head_ids (map head_of ws) ≡ wheel_ids ws
head_ids-head_of [] = refl
head_ids-head_of (w ∷ ws) = ap (◌∷◌ w.id) (head_ids-head_of ws)

check_builtins_known :
    (ids bs : List Text) → every (contains ids) bs ≡ true → check_builtins ids bs ≡ ok tt
unfolding check_builtins ◌>>=◌ check
check_builtins_known ids [] h = refl
check_builtins_known ids (b ∷ bs) h =
    rw (and_left (contains ids b) _ h, check_builtins_known ids bs (and_right (contains ids b) _ h))
      refl

read_classes_json :
    (ids : List Text) (cs : List (Text × Text))
    → every (is_bound ids) cs ≡ true
    → read_classes ids (class_entries cs) ≡ ok cs
unfolding read_classes ◌>>=◌ check require
read_classes_json ids [] h = refl
read_classes_json ids ((cls, id) ∷ cs) h =
    let bound = and_left (is_bound ids (cls, id)) _ h in
    rw
      (
        and_left (is_class_name cls) _ bound,
        one_of_known ids id (and_right (is_class_name cls) _ bound),
        read_classes_json ids cs (and_right (is_bound ids (cls, id)) _ h),
      )
      refl

length-class_entries : (cs : List (Text × Text)) → length (class_entries cs) ≡ length cs
length-class_entries [] = refl
length-class_entries ((cls, id) ∷ cs) = ap suc (length-class_entries cs)

class_wheels_json :
    (ids : List Text) (cs : List (Text × Text))
    → leb (length cs) max_class_wheels ≡ true
    → every (is_bound ids) cs ≡ true
    → class_wheels_of ids (object (object_of (class_entries cs))) ≡ ok cs
unfolding class_wheels_of ◌>>=◌ check
class_wheels_json ids cs few h =
    rw (pairs-object_of (class_entries cs), length-class_entries cs)
      (rw (few, read_classes_json ids cs h) refl)

display_json : (d : Display) → display_of (text (display_name d)) ≡ some d
unfolding text_beq
display_json percent = refl
display_json price = refl

locked_known :
    (ids : List Text) (l : Option Text)
    → is_locked ids l ≡ true
    → locked_of ids (locked_json l) ≡ some l
locked_known ids none h = refl
locked_known ids (some id) h = rw h refl

every_named :
    (u : Unicode) (ids : List Text) (ws : List Wheel)
    → every (is_wheel u ids) ws ≡ true
    → every (λ (w : Wheel). is_named u w.id w.name w.symbol) ws ≡ true
every_named u ids [] h = refl
every_named u ids (w ∷ ws) h =
    let named = and_left (is_named u w.id w.name w.symbol) _ (and_left (is_wheel u ids w) _ h) in
    rw (named, every_named u ids ws (and_right (is_wheel u ids w) _ h)) refl

are_fresh-nil : (ids : List Text) → are_fresh [] ids ≡ true
are_fresh-nil [] = refl
are_fresh-nil (x ∷ ids) = are_fresh-nil ids

module _ (u : Unicode) where
  -- Every ticker of the document is a ticker still.
  abbrev pub are_settled : Doc → Bool
  are_settled d = every (λ (w : Wheel). every (is_settled u) w.segments) d.wheels

  -- `validate` accepts a whole document as it stands, when its tickers are settled: what it returns is
  -- the document itself, with no edit of its own.
  pub validate-doc_json :
      (d : Doc) → is_whole u d ≡ true → are_settled d ≡ true → validate u (doc_json d) ≡ ok d
  unfolding validate validate_parts ◌>>=◌ check require text_beq
  validate-doc_json d h k =
      let ids = wheel_ids d.wheels in
      let count = and_left (leb 1 (length d.wheels) && leb (length d.wheels) max_wheels) _ h in
      let h1 = and_right (leb 1 (length d.wheels) && leb (length d.wheels) max_wheels) _ h in
      let h2 = and_right (distinct ids) _ h1 in
      let h3 = and_right (every (contains ids) builtin_ids) _ h2 in
      let wheels = and_left (every (is_wheel u ids) d.wheels) _ h3 in
      let h4 = and_right (every (is_wheel u ids) d.wheels) _ h3 in
      let h5 = and_right (is_locked ids d.locked) _ h4 in
      rw (items-array_of (map wheel_json d.wheels), length-map wheel_json d.wheels)
        (rw
          (
            count,
            read_heads_json u [] d.wheels (every_named u ids d.wheels wheels)
                (and_left (distinct ids) _ h1) (are_fresh-nil ids),
            head_ids-head_of d.wheels,
          )
          (rw
            (
              check_builtins_known ids builtin_ids
                  (and_left (every (contains ids) builtin_ids) _ h2),
              read_wheels_json u ids d.wheels wheels k,
              display_json d.display,
              locked_known ids d.locked (and_left (is_locked ids d.locked) _ h4),
              class_wheels_json ids d.class_wheels
                  (and_left (leb (length d.class_wheels) max_class_wheels) _ h5)
                  (and_right (leb (length d.class_wheels) max_class_wheels) _ h5),
            )
            refl))
