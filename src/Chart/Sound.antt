-- ===== src/Chart/Sound.antt =====
-- The objects that the loops of `validate` in code/backend/chartobjects.py return are sound.
use grindstone.Prelude.{
  ℕ, ◌≡◌, refl, Bool, true, ◌&&◌, not, some, List, [], ◌∷◌, map, ltb, length, every, contains, ◌==◌,
  nat_eq, text_eq, Text, codes, Result, Ensures, gives, fails, Ensures-bind, Ensures-check,
  Ensures-require, Ensures-any, distinct, are_fresh, are_fresh-cons, arith,
}
use grindstone.Json.{Json, integer, text, object, value_of}
use grindstone.Chart.Objects.{
  max_dte_tol_days, max_strike_tol, points_for, Drawing, Ref, Relation, lock, held_on, slope,
  Constraint, Leg,
}
use grindstone.Chart.Read.{ChartFault, Python, is_positive, is_from_zero_to, read_id, read_points}
use grindstone.Chart.Collect.{
  read_all, read_drawing, read_measure, read_pin, read_constraint, read_ref, read_relation,
  is_whole_line, text_in, ConstraintKind, lock_kind, on_kind, slope_kind,
}
use grindstone.Chart.Document.{small_slot, read_leg}

-- A drawing has the points of its kind.
abbrev pub is_drawing : Drawing → Bool
is_drawing d = length d.points == points_for d.kind

-- What a constraint refers to is there; it holds no drawing to itself, and a slope drives a whole line.
abbrev pub is_relation : List Text → Ref → Relation → Bool
is_relation known a lock = true
is_relation known a (held_on b) = contains known b.target && not (b.target == a.target)
is_relation known a (slope s) = is_whole_line a.part a.axis

abbrev pub is_constraint : List Text → Constraint → Bool
is_constraint known c = contains known c.subject.target && is_relation known c.subject c.relation

abbrev pub is_leg : Leg → Bool
is_leg l =
    is_positive l.strike
    && (is_from_zero_to max_dte_tol_days l.dte_tol
        && (is_from_zero_to max_strike_tol l.strike_tol && ltb l.slot 64))

read_id_lem :
    (seen : List Text) (j : Json) → Ensures (λ id. not (contains seen id)) (read_id seen j)
unfolding read_id
read_id_lem seen j =
    Ensures-bind (Ensures-any _) (λ id is. Ensures-check _ _ _ (λ fresh. gives fresh))

module _ {A : Type 0} (read : List Text → Json → Result ChartFault A) (id_of : A → Text)
    (p : A → Bool)
    (each : (seen : List Text) (j : Json)
      → Ensures (λ x. p x && not (contains seen (id_of x))) (read seen j)) where
  pub read_all_lem :
      (seen : List Text) (js : List Json)
      → Ensures
          (λ xs.
            every p xs
            && (distinct (map id_of xs)
                && (are_fresh seen (map id_of xs) && (length xs == length js))))
          (read_all read id_of seen js)
  unfolding read_all
  read_all_lem seen [] = gives refl
  read_all_lem seen (j ∷ js) = Ensures-bind (each seen j) (λ x fits.
      Ensures-bind (read_all_lem (id_of x ∷ seen) js) (λ xs others.
        gives (ground (arith, fits, others, are_fresh-cons (id_of x) seen (map id_of xs)))))

module _ (py : Python) where
  read_points_lem : (js : List Json) → Ensures (λ ps. length ps == length js) (read_points py js)
  unfolding read_points
  read_points_lem [] = gives refl
  read_points_lem (j ∷ js) =
      Ensures-bind (Ensures-any _)
        (λ p is. Ensures-bind (read_points_lem js) (λ ps many. gives (ground (arith, many))))

  pub read_drawing_lem :
      (seen : List Text) (j : Json)
      → Ensures (λ d. is_drawing d && not (contains seen d.id)) (read_drawing py seen j)
  unfolding read_drawing
  read_drawing_lem seen (object f) = Ensures-bind (Ensures-any _) (λ kind k.
      Ensures-bind (read_id_lem _ _) (λ id fresh. Ensures-bind (Ensures-any _) (λ js l.
        Ensures-check _ _ _ (λ count. Ensures-bind (Ensures-any _) (λ owned o.
          Ensures-bind (read_points_lem js)
            (λ ps many. gives (ground (arith, count, many, fresh))))))))
  read_drawing_lem seen _ = fails

  pub read_measure_lem :
      (seen : List Text) (j : Json)
      → Ensures (λ m. true && not (contains seen m.id)) (read_measure py seen j)
  unfolding read_measure
  read_measure_lem seen (object f) = Ensures-bind (read_id_lem _ _) (λ id fresh.
      Ensures-bind (Ensures-any _) (λ from l.
        Ensures-bind (Ensures-any _)
          (λ to r. Ensures-bind (Ensures-any _) (λ place p. gives fresh))))
  read_measure_lem seen _ = fails

  pub read_pin_lem :
      (seen : List Text) (j : Json)
      → Ensures (λ p. true && not (contains seen p.id)) (read_pin py seen j)
  unfolding read_pin
  read_pin_lem seen (object f) =
      Ensures-bind (read_id_lem _ _)
        (λ id fresh. Ensures-bind (Ensures-any _) (λ t is. gives fresh))
  read_pin_lem seen _ = fails

text_in-contains :
    (known : List Text) (j : Json) (t : Text) → text_in known j ≡ some t → contains known t ≡ true
text_in-contains known (text s) t h = ground (arith, h)
text_in-contains known _ t h = cc

read_ref_lem :
    (known : List Text) (j : Json) → Ensures (λ r. contains known r.target) (read_ref known j)
unfolding read_ref
read_ref_lem known (object f) = Ensures-bind (Ensures-any _) (λ part is.
    Ensures-bind (Ensures-require {q = contains known} _ _ (text_in-contains known _))
      (λ target there. Ensures-bind (Ensures-any _) (λ axis has. gives there)))
read_ref_lem known _ = fails

module _ (py : Python) where
  read_relation_lem :
      (known : List Text) (kind : ConstraintKind) (a : Ref) (b value : Json)
      → Ensures (is_relation known a) (read_relation py known kind a b value)
  unfolding read_relation
  read_relation_lem known lock_kind a b value =
      Ensures-check _ _ _ (λ one. Ensures-check _ _ _ (λ none. gives refl))
  read_relation_lem known on_kind a b value = Ensures-check _ _ _ (λ given.
      Ensures-bind (read_ref_lem _ _) (λ r there.
        Ensures-check _ _ _
          (λ other. Ensures-check _ _ _ (λ none. gives (ground (arith, there, other))))))
  read_relation_lem known slope_kind a b value = Ensures-check _ _ _ (λ one.
      Ensures-check _ _ _ (λ given.
        Ensures-bind (Ensures-any _) (λ s is. Ensures-check _ _ _ (λ whole. gives whole))))

  pub read_constraint_lem :
      (known seen : List Text) (j : Json)
      → Ensures
          (λ c. is_constraint known c && not (contains seen c.id))
          (read_constraint py known seen j)
  unfolding read_constraint
  read_constraint_lem known seen (object f) = Ensures-bind (Ensures-any _) (λ kind is.
      Ensures-bind (read_id_lem _ _) (λ id fresh. Ensures-bind (read_ref_lem _ _) (λ a there.
        Ensures-bind (read_relation_lem _ _ _ _ _)
          (λ r fits. gives (ground (arith, fresh, there, fits))))))
  read_constraint_lem known seen _ = fails

small_slot-lt : (j : Json) (n : ℕ) → small_slot j ≡ some n → ltb n 64 ≡ true
small_slot-lt (integer negative m) n h = ground (arith, h)
small_slot-lt _ n h = cc

module _ (py : Python) where
  pub read_leg_lem :
      (seen : List Text) (j : Json)
      → Ensures (λ l. is_leg l && not (contains seen l.id)) (read_leg py seen j)
  unfolding read_leg
  read_leg_lem seen (object f) = Ensures-bind (read_id_lem _ _) (λ id fresh.
      Ensures-bind (Ensures-any _) (λ side k1. Ensures-bind (Ensures-any _) (λ right k2.
        Ensures-bind (Ensures-any _) (λ day k3. Ensures-check _ _ _ (λ k4.
          Ensures-bind (Ensures-any _) (λ strike k5. Ensures-check _ _ _ (λ positive.
            Ensures-bind (Ensures-any _) (λ dte k6. Ensures-check _ _ _ (λ days.
              Ensures-bind (Ensures-any _) (λ tol k7. Ensures-check _ _ _ (λ dollars.
                Ensures-bind
                  (Ensures-require {q = λ n. ltb n 64} _ _
                    (small_slot-lt (value_of f (codes "slot"))))
                  (λ slot small. Ensures-bind (Ensures-any _) (λ hosts k8.
                    Ensures-bind (Ensures-any _) (λ group k9.
                      Ensures-bind (Ensures-any _) (λ pick k10.
                        Ensures-bind (Ensures-any _) (λ hid k11.
                          gives
                            (ground (arith, fresh, positive, days, dollars, small))))))))))))))))))
  read_leg_lem seen _ = fails
