-- ===== src/Prelude/Distinct.antt =====
-- Lists with no element twice, and elements that were not seen before.
use mathlib.Core.Path.{◌≡◌, refl}
use mathlib.Core.Bool.{Bool, true, ◌&&◌, not}
use mathlib.Core.List.{List, [], ◌∷◌, ◌++◌}
use native.Mathlib.Omega.{arith}
use grindstone.Prelude.Lists.{every}
use grindstone.Prelude.Keys.{Eq, contains, contains-append}

module _ {ℓ} {A : Type ℓ} ⦃e : Eq A⦄ where
  abbrev pub distinct : List A → Bool
  distinct [] = true
  distinct (x ∷ xs) = not (contains xs x) && distinct xs

  -- None of the elements is among those that were seen.
  abbrev pub are_fresh : List A → List A → Bool
  are_fresh seen xs = every (λ x. not (contains seen x)) xs

  pub are_fresh-cons :
      (a : A) (seen xs : List A)
      → are_fresh (a ∷ seen) xs ≡ (not (contains xs a) && are_fresh seen xs)
  are_fresh-cons a seen [] = refl
  are_fresh-cons a seen (x ∷ xs) =
      ground (arith, are_fresh-cons a seen xs, e.same_iff a x, e.same_iff x a)

  pub distinct-append :
      (xs ys : List A)
      → distinct xs ≡ true
      → are_fresh ys xs ≡ true
      → distinct ys ≡ true
      → distinct (xs ++ ys) ≡ true
  distinct-append [] ys h fresh k = k
  distinct-append (x ∷ xs) ys h fresh k =
      ground (arith, distinct-append xs ys, contains-append xs ys x)
