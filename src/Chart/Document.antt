-- ===== src/Chart/Document.antt =====
-- The legs of code/backend/chartobjects.py, its `validate`, and `is_empty`.
use grindstone.Prelude.{
  ℕ, Bool, true, false, ◌&&◌, ◌||◌, not, Option, none, some, List, [], ◌∷◌, ◌++◌, map, ltb, leb,
  length, every, ◌==◌, nat_eq, text_eq, Text, codes, if◌then◌else◌, Result, ok, refused, ◌>>=◌,
  ◌>>◌, check, require,
}
use grindstone.Json.{Json, integer, text, object, Fields, value_of}
use grindstone.Chart.Objects.{
  max_legs, max_dte_tol_days, max_strike_tol, max_doc_bytes, choice, leg_sides, leg_rights, Drawing,
  Measure, Pin, Constraint, Leg, ChartDoc,
}
use grindstone.Chart.Read.{
  ChartFault, not_an_object, too_many_legs, unknown_side, unknown_right, date_not_text, not_a_date,
  strike_not_positive, dte_tol_range, strike_tol_range, bad_id, bad_slot, bad_tag,
  hidden_not_boolean, too_large, Python, is_positive, is_from_zero_to, read_num, read_id,
}
use grindstone.Chart.Collect.{
  read_all, list_at, flag, tag, read_drawing, read_measure, read_pin, read_constraint,
}

-- A small integer, and no boolean.
abbrev pub small_slot : Json → Option ℕ
small_slot (integer negative n) = if (not negative || (n == 0)) && ltb n 64 then some n else none
small_slot _ = none

abbrev pub any_text : Json → Option Text
any_text (text t) = some t
any_text _ = none

-- The fields that may name a drawing. It need not exist.
abbrev pub host_fields : List Text
host_fields =
    codes "hostId"
    ∷ codes "timeHostId"
    ∷ codes "priceHostId"
    ∷ codes "strikeHostA"
    ∷ codes "strikeHostB"
    ∷ codes "timeHostA"
    ∷ codes "timeHostB"
    ∷ []

abbrev pub add_host : Text → Option Text → List (Text × Text) → List (Text × Text)
add_host name none hosts = hosts
add_host name (some id) hosts = (name, id) ∷ hosts

unfoldable pub read_hosts : List Text → Fields → Result ChartFault (List (Text × Text))
read_hosts [] f = ok []
read_hosts (name ∷ names) f = do
  host ← tag bad_id (value_of f name)
  hosts ← read_hosts names f
  ok (add_host name host hosts)

module _ (py : Python) where
  unfoldable pub read_leg : List Text → Json → Result ChartFault Leg
  unfolding read_hosts
  read_leg seen (object f) = do
    id ← read_id seen (value_of f (codes "id"))
    side ← require (choice leg_sides (value_of f (codes "side"))) unknown_side
    right ← require (choice leg_rights (value_of f (codes "right"))) unknown_right
    day ← require (any_text (value_of f (codes "expiration"))) date_not_text
    check (py.is_date day) not_a_date
    strike ← read_num py (value_of f (codes "strike"))
    check (is_positive strike) strike_not_positive
    dte_tol ← read_num py (value_of f (codes "dteTol"))
    check (is_from_zero_to max_dte_tol_days dte_tol) dte_tol_range
    strike_tol ← read_num py (value_of f (codes "strikeTol"))
    check (is_from_zero_to max_strike_tol strike_tol) strike_tol_range
    slot ← require (small_slot (value_of f (codes "slot"))) bad_slot
    hosts ← read_hosts host_fields f
    group ← tag bad_tag (value_of f (codes "group"))
    pick ← tag bad_tag (value_of f (codes "pick"))
    hidden ← flag hidden_not_boolean (value_of f (codes "hidden"))
    ok (record {
      id = id;
      side = side;
      right = right;
      expiration = day;
      strike = strike;
      dte_tol = dte_tol;
      strike_tol = strike_tol;
      slot = slot;
      hosts = hosts;
      group = group;
      pick = pick;
      hidden = hidden;
    })
  read_leg seen _ = refused not_an_object

abbrev is_preset_char : ℕ → Bool
is_preset_char c =
    (leb b'a' c && leb c b'z') || ((leb b'0' c && leb c b'9') || (c == b'_' || c == b'-'))

-- `re.fullmatch(r"[a-z0-9_-]{1,32}", preset)`
abbrev pub is_preset : Text → Bool
is_preset t = (leb 1 (length t) && leb (length t) 32) && every is_preset_char t

abbrev pub preset_in : Json → Option Text
preset_in (text t) = if is_preset t then some t else none
preset_in _ = none

-- A view that is malformed is dropped.
abbrev pub preset_of : Json → Option Text
preset_of (object f) = preset_in (value_of f (codes "preset"))
preset_of _ = none

abbrev pub drawing_ids : List Drawing → List Text
drawing_ids ds = map (λ (d : Drawing). d.id) ds

abbrev pub measure_ids : List Measure → List Text
measure_ids ms = map (λ (m : Measure). m.id) ms

abbrev pub pin_ids : List Pin → List Text
pin_ids ps = map (λ (p : Pin). p.id) ps

abbrev pub constraint_ids : List Constraint → List Text
constraint_ids cs = map (λ (c : Constraint). c.id) cs

abbrev pub leg_ids : List Leg → List Text
leg_ids ls = map (λ (l : Leg). l.id) ls

-- `len(json.dumps(clean))` is the argument `size`.
module _ (py : Python) (size : ChartDoc → ℕ) where
  unfoldable pub validate_fields : Fields → Result ChartFault ChartDoc
  validate_fields f = do
    ds ← list_at (value_of f (codes "drawings"))
    drawings ← read_all (read_drawing py) (λ d. d.id) [] ds
    let drawn = drawing_ids drawings
    ms ← list_at (value_of f (codes "measures"))
    measures ← read_all (read_measure py) (λ m. m.id) drawn ms
    let measured = measure_ids measures ++ drawn
    ps ← list_at (value_of f (codes "pins"))
    pins ← read_all (read_pin py) (λ p. p.id) measured ps
    let pinned = pin_ids pins ++ measured
    cs ← list_at (value_of f (codes "constraints"))
    constraints ← read_all (read_constraint py drawn) (λ c. c.id) pinned cs
    let constrained = constraint_ids constraints ++ pinned
    ls ← list_at (value_of f (codes "legs"))
    check (leb (length ls) max_legs) too_many_legs
    legs ← read_all (read_leg py) (λ l. l.id) constrained ls
    let doc : ChartDoc = record {
      drawings = drawings;
      measures = measures;
      pins = pins;
      constraints = constraints;
      legs = legs;
      preset = preset_of (value_of f (codes "view"));
    }
    check (leb (size doc) max_doc_bytes) (too_large (size doc))
    ok doc

  unfoldable pub validate_chart : Json → Result ChartFault ChartDoc
  unfolding validate_fields
  validate_chart (object f) = validate_fields f
  validate_chart _ = refused not_an_object

abbrev pub is_nil {ℓ} : {A : Type ℓ} → List A → Bool
is_nil [] = true
is_nil (x ∷ xs) = false

-- `is_empty`
unfoldable pub is_empty_chart : ChartDoc → Bool
is_empty_chart d = not (
    not (is_nil d.drawings)
    || (not (is_nil d.measures)
        || (not (is_nil d.pins) || (not (is_nil d.constraints) || not (is_nil d.legs)))))
