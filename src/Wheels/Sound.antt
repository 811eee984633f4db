-- ===== src/Wheels/Sound.antt =====
-- A document that `validate` of code/backend/wheels.py returns is whole: its ids differ, every wheel
-- that it refers to exists, and its parts are of the sizes that the shell can show.
use grindstone.Prelude.{
  distinct, are_fresh, are_fresh-cons, Ensures-ok, Ensures-map, beq_refl, ℕ, ◌≡◌, refl, Bool, true,
  false, ◌&&◌, not, Option, none, some, List, [], ◌∷◌, map, leb, length, every, contains, ◌==◌,
  nat_eq, text_eq, Text, codes, arith, Bool-cases, inl, inr, ok, require, Ensures, gives, fails,
  Ensures-bind, Ensures-check, Ensures-require,
}
use grindstone.Unicode.{Unicode}
use grindstone.Json.{
  Json, null, boolean, text, array, object, Fields, items, pairs, value_of, value_or, one_of, truth,
}
use grindstone.Wheels.Vocabulary.{
  default_class_wheels, max_class_wheels, max_wheels, dynamic_kinds, is_dynamic_kind, builtin_ids,
}
use grindstone.Wheels.Document.{Wheel, Doc}
use grindstone.Wheels.Segments.{WheelFault}
use grindstone.Wheels.Validate.{
  Head, dynamic_of, dynamic_or, stored_segments, read_head, read_heads, read_wheel, read_wheels,
  check_builtins, locked_of, read_classes, class_wheels_of, head_ids, validate_parts, with_config,
  or_empty, validate,
}
use grindstone.Wheels.Valid.{
  wheel_ids, one_of-contains, Ensures-one_of, Ensures-text_within, read_segments_lem,
}
use grindstone.Wheels.Whole.{is_named, is_dynamic, is_size, is_locked, is_bound, is_wheel, is_whole}

module _ (u : Unicode) where
  abbrev is_head : Head → Bool
  is_head h = is_named u h.head_id h.head_name h.head_symbol

dynamic_or-is_dynamic :
    (id : Text) (o : Option Text)
    → ((k : Text) → o ≡ some k → is_dynamic_kind k ≡ true)
    → is_dynamic id (dynamic_or id o) ≡ true
dynamic_or-is_dynamic id (some k) h = h k refl
dynamic_or-is_dynamic id none h = elim (Bool-cases (is_dynamic_kind id)) [
  | inl dynamic ↦ rw dynamic dynamic
  | inr static ↦ rw static (rw static refl)
]

dynamic_of-is_dynamic : (id : Text) (f : Fields) → is_dynamic id (dynamic_of id f) ≡ true
unfolding is_dynamic_kind
dynamic_of-is_dynamic id f =
    dynamic_or-is_dynamic id (one_of dynamic_kinds (value_of f (codes "dynamic")))
      (λ k e. one_of-contains dynamic_kinds (value_of f (codes "dynamic")) k e)

-- The wheels have the ids of the heads.
abbrev have_ids : List Head → List Wheel → Bool
have_ids [] [] = true
have_ids (h ∷ hs) (w ∷ ws) = (w.id == h.head_id) && have_ids hs ws
have_ids _ _ = false

have_ids-map :
    (hs : List Head) (ws : List Wheel) → have_ids hs ws ≡ true → wheel_ids ws ≡ head_ids hs
have_ids-map [] [] e = refl
have_ids-map [] (w ∷ ws) e = cc
have_ids-map (h ∷ hs) [] e = cc
have_ids-map (h ∷ hs) (w ∷ ws) e =
    ground (arith, have_ids-map hs ws, text_eq.same_iff w.id h.head_id)

have_ids-length : (hs : List Head) (ws : List Wheel) → have_ids hs ws ≡ true → length ws ≡ length hs
have_ids-length [] [] e = refl
have_ids-length [] (w ∷ ws) e = cc
have_ids-length (h ∷ hs) [] e = cc
have_ids-length (h ∷ hs) (w ∷ ws) e = ground (arith, have_ids-length hs ws)

stored_segments_lem :
    (o : Option Text) (j : Json) (js : List Json)
    → stored_segments o j ≡ some js
    → is_size o (length js) ≡ true
stored_segments_lem (some k) j js e = ground arith
stored_segments_lem none (array is) js e = ground arith
stored_segments_lem none _ js e = ground arith

Ensures-stored :
    (o : Option Text) (j : Json) (e : WheelFault)
    → Ensures (λ js. is_size o (length js)) (require (stored_segments o j) e)
Ensures-stored o j e = Ensures-require _ _ (stored_segments_lem o j)

module _ (u : Unicode) where
  read_head_lem :
      (seen : List Text) (j : Json)
      → Ensures (λ h. is_head u h && not (contains seen h.head_id)) (read_head u seen j)
  unfolding read_head
  read_head_lem seen (object f) = Ensures-bind (Ensures-text_within _ _ _ _) (λ id fits.
      Ensures-check _ _ _ (λ identifies. Ensures-check _ _ _ (λ fresh.
        Ensures-bind (Ensures-text_within _ _ _ _) (λ name named.
          Ensures-bind (Ensures-text_within _ _ _ _)
            (λ symbol short. gives (ground (arith, fits, identifies, fresh, named, short)))))))
  read_head_lem seen _ = fails

  read_heads_lem :
      (seen : List Text) (js : List Json)
      → Ensures
          (λ hs.
            every (is_head u) hs
            && (distinct (head_ids hs)
                && (are_fresh seen (head_ids hs) && (length hs == length js))))
          (read_heads u seen js)
  unfolding read_heads
  read_heads_lem seen [] = gives refl
  read_heads_lem seen (j ∷ js) = Ensures-bind (read_head_lem seen j) (λ h fits.
      Ensures-bind (read_heads_lem (h.head_id ∷ seen) js) (λ hs others.
        gives (ground (arith, fits, others, are_fresh-cons h.head_id seen (head_ids hs)))))

  read_wheel_lem :
      (ids : List Text) (h : Head)
      → is_head u h ≡ true
      → Ensures (λ w. is_wheel u ids w && (w.id == h.head_id)) (read_wheel u ids h)
  unfolding read_wheel
  read_wheel_lem ids h named =
      let dynamic = dynamic_of h.head_id h.entries in
      Ensures-bind (Ensures-stored dynamic (value_of h.entries (codes "segments")) _) (λ js size.
        Ensures-bind (read_segments_lem u ids h.head_id 1 js) (λ ss fits. gives (
          ground (
            arith,
            named,
            size,
            fits,
            dynamic_of-is_dynamic h.head_id h.entries,
            beq_refl h.head_id,
          ))))

  read_wheels_lem :
      (ids : List Text) (hs : List Head)
      → every (is_head u) hs ≡ true
      → Ensures (λ ws. every (is_wheel u ids) ws && have_ids hs ws) (read_wheels u ids hs)
  unfolding read_wheels
  read_wheels_lem ids [] named = gives refl
  read_wheels_lem ids (h ∷ hs) named =
      Ensures-bind (read_wheel_lem ids h (ground (arith, named))) (λ w fits.
        Ensures-bind (read_wheels_lem ids hs (ground (arith, named)))
          (λ ws others. gives (ground (arith, fits, others))))

check_builtins_lem :
    (ids bs : List Text) → Ensures (λ done. every (contains ids) bs) (check_builtins ids bs)
unfolding check_builtins
check_builtins_lem ids [] = gives refl
check_builtins_lem ids (b ∷ bs) =
    Ensures-check _ _ _
      (λ is. Ensures-map _ (λ done e. ground (arith, is, e)) (check_builtins_lem ids bs))

read_classes_lem :
    (ids : List Text) (ps : List (Text × Json))
    → Ensures (λ cs. every (is_bound ids) cs && (length cs == length ps)) (read_classes ids ps)
unfolding read_classes
read_classes_lem ids [] = gives refl
read_classes_lem ids ((cls, j) ∷ ps) = Ensures-check _ _ _ (λ valid.
    Ensures-bind (Ensures-one_of _ _ _) (λ id known.
      Ensures-bind (read_classes_lem ids ps)
        (λ cs others. gives (ground (arith, valid, known, others)))))

class_wheels_lem :
    (ids : List Text) (j : Json)
    → Ensures
        (λ cs. every (is_bound ids) cs && leb (length cs) max_class_wheels)
        (class_wheels_of ids j)
unfolding class_wheels_of
class_wheels_lem ids null =
    Ensures-map _ (λ cs e. ground (arith, e))
      (read_classes_lem ids (map (λ p. (p.0, text p.1)) default_class_wheels))
class_wheels_lem ids (object f) =
    Ensures-check _ _ _
      (λ few. Ensures-map _ (λ cs e. ground (arith, few, e)) (read_classes_lem ids (pairs f)))
class_wheels_lem ids _ = fails

locked_lem :
    (ids : List Text) (j : Json) (l : Option Text)
    → locked_of ids j ≡ some l
    → is_locked ids l ≡ true
locked_lem ids null l e = ground arith
locked_lem ids (text t) l e = ground arith
locked_lem ids _ l e = ground arith

module _ (u : Unicode) where
  is_whole_of :
      (hs : List Head) (n : ℕ) (d : Doc)
      → have_ids hs d.wheels ≡ true
      → (leb 1 n && leb n max_wheels) ≡ true
      → (every (is_head u) hs
          && (distinct (head_ids hs) && (are_fresh [] (head_ids hs) && (length hs == n))))
        ≡ true
      → every (contains (head_ids hs)) builtin_ids ≡ true
      → every (is_wheel u (head_ids hs)) d.wheels ≡ true
      → is_locked (head_ids hs) d.locked ≡ true
      → (every (is_bound (head_ids hs)) d.class_wheels
          && leb (length d.class_wheels) max_class_wheels)
        ≡ true
      → is_whole u d ≡ true
  is_whole_of hs n d same count heads builtins fit locks bound =
      let sized : (leb 1 (length d.wheels) && leb (length d.wheels) max_wheels) ≡ true =
        ground (arith, count, heads, have_ids-length hs d.wheels same) in
      let differ : distinct (head_ids hs) ≡ true = ground (arith, heads) in
      rw (have_ids-map hs d.wheels same)
        (rw (sized, differ, builtins, fit, locks) (ground (arith, bound)))

  validate_parts_lem :
      (config : Fields) (js : List Json) → Ensures (is_whole u) (validate_parts u config js)
  unfolding validate_parts
  validate_parts_lem config js = Ensures-check _ _ _ (λ count.
      Ensures-bind (read_heads_lem u [] js) (λ hs heads.
        Ensures-bind (check_builtins_lem (head_ids hs) builtin_ids) (λ done builtins.
          Ensures-bind (read_wheels_lem u (head_ids hs) hs (ground (arith, heads))) (λ ws fit.
            Ensures-bind (Ensures-require {q = λ d. true} _ _ (λ d known. refl)) (λ d shown.
              Ensures-bind (Ensures-require {q = is_locked (head_ids hs)} _ _ (locked_lem _ _))
                (λ l locks. Ensures-bind (class_wheels_lem (head_ids hs) _) (λ cs bound.
                  let same : have_ids hs ws ≡ true = ground (arith, fit) in
                  gives (
                    is_whole_of hs (length js)
                      (record {
                        display = d;
                        colors = truth (value_or config (codes "ticker_colors") (boolean true));
                        locked = l;
                        class_wheels = cs;
                        wheels = ws;
                      })
                      same (ground (arith, count)) heads builtins (ground (arith, fit)) locks
                      bound))))))))

  with_config_lem : (c ws : Json) → Ensures (is_whole u) (with_config u c ws)
  with_config_lem (object config) (array js) = validate_parts_lem config (items js)
  with_config_lem (object config) _ = fails
  with_config_lem _ _ = fails

  pub Ensures-validate : (j : Json) → Ensures (is_whole u) (validate u j)
  unfolding validate
  Ensures-validate (object f) =
      with_config_lem (or_empty u (value_of f (codes "config"))) (value_of f (codes "wheels"))
  Ensures-validate _ = fails

  -- A document that `validate` returns is whole: its ids differ, the built-in wheels are there, every
  -- wheel that a segment, a class or the lock refers to exists, a segment's route or tool is one
  -- that the shell has, and a dynamic wheel has no segments and another has two to twelve.
  pub validate-is_whole : (j : Json) (d : Doc) → validate u j ≡ ok d → is_whole u d ≡ true
  validate-is_whole j d e = Ensures-ok (Ensures-validate j) e
