-- ===== src/Chart/Whole.antt =====
-- A chart document that `validate` of code/backend/chartobjects.py returns is sound.
use grindstone.Prelude.{
  ℕ, ◌≡◌, refl, Bool, true, ◌&&◌, ◌||◌, not, Option, List, [], ◌∷◌, ◌++◌, leb, length, every, ◌==◌,
  nat_eq, text_eq, Text, codes, ok, Ensures, gives, Ensures-bind, Ensures-check, Ensures-any,
  Ensures-ok, distinct, are_fresh, distinct-append, arith,
}
use grindstone.Json.{Json, object, Fields, value_of}
use grindstone.Chart.Objects.{
  max_legs, max_doc_bytes, Drawing, Measure, Pin, Constraint, Leg, ChartDoc,
}
use grindstone.Chart.Read.{Python}
use grindstone.Chart.Document.{
  drawing_ids, measure_ids, pin_ids, constraint_ids, leg_ids, validate_fields, validate_chart,
  is_nil, is_empty_chart, preset_of,
}
use grindstone.Chart.Sound.{
  is_drawing, is_constraint, is_leg, read_drawing_lem, read_measure_lem, read_pin_lem,
  read_constraint_lem, read_leg_lem, read_all_lem,
}

-- The ids of a document, of all five collections.
abbrev pub all_ids : ChartDoc → List Text
all_ids d =
    leg_ids d.legs
    ++ (constraint_ids d.constraints
        ++ (pin_ids d.pins ++ (measure_ids d.measures ++ drawing_ids d.drawings)))

abbrev pub is_sound_chart : ChartDoc → Bool
is_sound_chart d =
    distinct (all_ids d)
    && (every is_drawing d.drawings
        && (every (is_constraint (drawing_ids d.drawings)) d.constraints
            && (every is_leg d.legs && leb (length d.legs) max_legs)))

-- New ids in front of those that were seen.
extends :
    (b c : Bool) (ids seen : List Text)
    → (b && (distinct ids && (are_fresh seen ids && c))) ≡ true
    → distinct seen ≡ true
    → distinct (ids ++ seen) ≡ true
extends b c ids seen h k = distinct-append ids seen (ground (arith, h)) (ground (arith, h)) k

and_left : (a b : Bool) → (a && b) ≡ true → a ≡ true
and_left a b h = ground arith

and_right : (a b : Bool) → (a && b) ≡ true → b ≡ true
and_right a b h = ground arith

and_intro : (b c : Bool) → b ≡ true → c ≡ true → (b && c) ≡ true
and_intro b c h k = ground arith

-- The facts of the five loops, put together.
sound_of :
    (ds : List Drawing) (ms : List Measure) (ps : List Pin) (cs : List Constraint) (ls : List Leg)
    → (preset : Option Text) (nd nm np nc nl : ℕ)
    → let drawn = drawing_ids ds in
      let measured = measure_ids ms ++ drawn in
      let pinned = pin_ids ps ++ measured in
      let constrained = constraint_ids cs ++ pinned in
      let read : List Text → List Text → ℕ → ℕ → Bool =
        λ seen ids n m. distinct ids && (are_fresh seen ids && (n == m)) in
      (every is_drawing ds && read [] drawn (length ds) nd) ≡ true
      → (every (λ m. true) ms && read drawn (measure_ids ms) (length ms) nm) ≡ true
      → (every (λ p. true) ps && read measured (pin_ids ps) (length ps) np) ≡ true
      → (every (is_constraint drawn) cs && read pinned (constraint_ids cs) (length cs) nc) ≡ true
      → (every is_leg ls && read constrained (leg_ids ls) (length ls) nl) ≡ true
      → leb nl max_legs ≡ true
      → is_sound_chart (record {
        drawings = ds;
        measures = ms;
        pins = ps;
        constraints = cs;
        legs = ls;
        preset = preset;
      })
        ≡ true
sound_of ds ms ps cs ls preset nd nm np nc nl hd hm hp hc hl few =
    let drawn = drawing_ids ds in
    let measured = measure_ids ms ++ drawn in
    let pinned = pin_ids ps ++ measured in
    let constrained = constraint_ids cs ++ pinned in
    let d1 : distinct drawn ≡ true = ground (arith, hd) in
    let d2 = extends (every (λ m. true) ms) (length ms == nm) (measure_ids ms) drawn hm d1 in
    let d3 = extends (every (λ p. true) ps) (length ps == np) (pin_ids ps) measured hp d2 in
    let d4 =
      extends (every (is_constraint drawn) cs) (length cs == nc) (constraint_ids cs) pinned hc d3 in
    let d5 = extends (every is_leg ls) (length ls == nl) (leg_ids ls) constrained hl d4 in
    let points : every is_drawing ds ≡ true = ground (arith, hd) in
    let refer : every (is_constraint drawn) cs ≡ true = ground (arith, hc) in
    let fit : every is_leg ls ≡ true = ground (arith, hl) in
    rw (d5, points, refer, fit) (ground (arith, few, hl))

-- Constraints without drawings would refer to none.
drawn_or_free :
    (ds : List Drawing) (cs : List Constraint) (a b c : Bool)
    → every (is_constraint (drawing_ids ds)) cs ≡ true
    → not (not (is_nil ds) || (a || (b || (not (is_nil cs) || c))))
      ≡ not (not (is_nil ds) || (a || (b || c)))
drawn_or_free (x ∷ ds) cs a b c h = refl
drawn_or_free [] [] a b c h = refl
drawn_or_free [] (x ∷ cs) a b c h = cc

constraints_of :
    (size : ChartDoc → ℕ) (d : ChartDoc)
    → (is_sound_chart d && leb (size d) max_doc_bytes) ≡ true
    → every (is_constraint (drawing_ids d.drawings)) d.constraints ≡ true
constraints_of size d h =
    and_left (every (is_constraint (drawing_ids d.drawings)) d.constraints) _ (
      and_right (every is_drawing d.drawings) _
        (and_right (distinct (all_ids d)) _ (and_left (is_sound_chart d) _ h)))

module _ (py : Python) (size : ChartDoc → ℕ) where
  validate_fields_lem :
      (f : Fields)
      → Ensures (λ d. is_sound_chart d && leb (size d) max_doc_bytes) (validate_fields py size f)
  unfolding validate_fields
  validate_fields_lem f = Ensures-bind (Ensures-any _) (λ ds d.
      Ensures-bind (read_all_lem _ (λ x. x.id) is_drawing (read_drawing_lem py) _ _) (λ drawings hd.
        Ensures-bind (Ensures-any _) (λ ms m.
          Ensures-bind (read_all_lem _ (λ x. x.id) (λ x. true) (read_measure_lem py) _ _)
            (λ measures hm. Ensures-bind (Ensures-any _) (λ ps p.
              Ensures-bind (read_all_lem _ (λ x. x.id) (λ x. true) (read_pin_lem py) _ _)
                (λ pins hp. Ensures-bind (Ensures-any _) (λ cs c.
                  Ensures-bind
                    (read_all_lem _ (λ x. x.id) (is_constraint (drawing_ids drawings))
                      (read_constraint_lem py (drawing_ids drawings)) _ _)
                    (λ constraints hc. Ensures-bind (Ensures-any _) (λ ls l.
                      Ensures-check _ _ _ (λ few.
                        Ensures-bind (read_all_lem _ (λ x. x.id) is_leg (read_leg_lem py) _ _)
                          (λ legs hl. Ensures-check _ _ _ (λ small. gives (
                            and_intro
                              (is_sound_chart (record {
                                drawings = drawings;
                                measures = measures;
                                pins = pins;
                                constraints = constraints;
                                legs = legs;
                                preset = preset_of (value_of f (codes "view"));
                              }))
                              _
                              (sound_of drawings measures pins constraints legs
                                (preset_of (value_of f (codes "view"))) (length ds) (length ms)
                                (length ps) (length cs) (length ls) hd hm hp hc hl few)
                              small)))))))))))))

  -- A chart document that `validate` returns is sound: the ids of all its objects differ, a drawing has
  -- the points of its kind, a constraint refers to drawings of the document and holds none to itself,
  -- a slope drives a whole line, there are twelve legs at most, the strike and the tolerances of each
  -- are in range, and the document is no larger than the limit.
  pub validate_chart-is_sound :
      (j : Json) (d : ChartDoc)
      → validate_chart py size j ≡ ok d
      → (is_sound_chart d && leb (size d) max_doc_bytes) ≡ true
  unfolding validate_chart
  validate_chart-is_sound (object f) d e = Ensures-ok (validate_fields_lem f) e
  validate_chart-is_sound _ d e = cc

  -- Of a document that `validate` returns, `is_empty` says the same with its constraints taken away:
  -- they cannot be there without a drawing.
  pub constraints_need_drawings :
      (j : Json) (d : ChartDoc)
      → validate_chart py size j ≡ ok d
      → is_empty_chart d ≡ is_empty_chart (record d { constraints = [] })
  unfolding is_empty_chart
  constraints_need_drawings j d e =
      drawn_or_free d.drawings d.constraints (not (is_nil d.measures)) (not (is_nil d.pins))
        (not (is_nil d.legs)) (constraints_of size d (validate_chart-is_sound j d e))
