-- ===== src/Prelude/Keys.antt =====
-- Equality tests: one operator for every type with an instance, and membership by it.
use Prim.Native.Nat.{ℕ, zero, suc, ◌≤◌}
use Prim.Native.String.{String}
use mathlib.Core.Path.{◌≡◌, refl, ap}
use mathlib.Core.Logic.{◌↔◌}
use mathlib.Core.Bool.{Bool, true, false, ◌&&◌, ◌||◌}
use mathlib.Core.List.{List, [], ◌∷◌, ◌++◌, reverse, map, reverse-cons}
use native.Mathlib.Omega.{arith}
use text.Mathlib.Text.{◌==◌ as str_eq}
use text.Mathlib.TextEquality.{eq_iff}
use grindstone.Prelude.Tests.{nat_beq, nat_beq_iff}
use grindstone.Prelude.Lists.{keep, any, every, take, length, length-append}

-- A test of equality, and that it decides equality.
pub record Eq {ℓ} (A : Type ℓ) : Type ℓ where
  pub same : A → A → Bool
  pub same_iff : (x y : A) → (same x y ≡ true) ↔ (x ≡ y)

instance abbrev pub string_eq : Eq String
string_eq = record { same_iff = eq_iff; same = str_eq }

instance abbrev pub nat_eq : Eq ℕ
nat_eq = record { same_iff = nat_beq_iff; same = nat_beq }

abbrev pub ◌==◌ {ℓ} : {A : Type ℓ} ⦃e : Eq A⦄ → A → A → Bool

infix 50 ◌==◌
◌==◌ ⦃e = tests⦄ = tests.same

module _ {ℓ} {A : Type ℓ} ⦃e : Eq A⦄ where
  -- `x in xs`
  abbrev pub contains : List A → A → Bool
  contains [] a = false
  contains (x ∷ xs) a = (x == a) || contains xs a

  pub beq_refl : (a : A) → (a == a) ≡ true
  beq_refl a = (e.same_iff a a).1 refl

  pub contains-append :
      (xs ys : List A) (a : A) → contains (xs ++ ys) a ≡ (contains xs a || contains ys a)
  contains-append [] ys a = refl
  contains-append (x ∷ xs) ys a = ground (arith, contains-append xs ys a)

  pub contains-reverse : (xs : List A) (a : A) → contains (reverse xs) a ≡ contains xs a
  contains-reverse [] a = refl
  contains-reverse (x ∷ xs) a =
      rw reverse-cons (rw contains-append (ground (arith, contains-reverse xs a)))

  -- A filter whose test agrees on equal elements.
  pub contains-keep :
      (p : A → Bool) (xs : List A) (a : A) → contains (keep p xs) a ≡ (contains xs a && p a)
  contains-keep p [] a = refl
  contains-keep p (x ∷ xs) a =
      ground (arith, contains-keep p xs a, (e.same_iff x a).0, λ (h : x ≡ a). ap p h)

  pub contains-map {κ} :
      {B : Type κ} (f : B → A) (p : B → Bool) (xs : List B) (a : A)
      → contains (map f (keep p xs)) a ≡ any (λ x. p x && (f x == a)) xs
  contains-map f p [] a = refl
  contains-map f p (x ∷ xs) a = ground (arith, contains-map f p xs a)

  pub contains-take :
      (n : ℕ) (xs : List A) (a : A) → contains (take n xs) a ≡ true → contains xs a ≡ true
  contains-take zero xs a h = cc
  contains-take (suc n) [] a h = h
  contains-take (suc n) (x ∷ xs) a h = ground (arith, contains-take n xs a)

  pub every-contains :
      (p : A → Bool) (xs : List A) (a : A) → every p xs ≡ true → contains xs a ≡ true → p a ≡ true
  every-contains p [] a h k = cc
  every-contains p (x ∷ xs) a h k =
      ground (arith, every-contains p xs a, (e.same_iff x a).0, λ (q : x ≡ a). ap p q)

pub take_all {ℓ} : {A : Type ℓ} (n : ℕ) (xs : List A) → length xs ≤ n → take n xs ≡ xs
take_all zero [] h = refl
take_all zero (x ∷ xs) h = absurd (omega arith)
take_all (suc n) [] h = refl
take_all (suc n) (x ∷ xs) h = ground (arith, take_all n xs)

module _ {ℓ} {A : Type ℓ} where
  pub any-append : (p : A → Bool) (xs ys : List A) → any p (xs ++ ys) ≡ (any p xs || any p ys)
  any-append p [] ys = refl
  any-append p (x ∷ xs) ys = ground (arith, any-append p xs ys)

  pub any-or : (p q : A → Bool) (xs : List A) → any (λ x. p x || q x) xs ≡ (any p xs || any q xs)
  any-or p q [] = refl
  any-or p q (x ∷ xs) = ground (arith, any-or p q xs)

  -- A test that no element passes.
  pub any-false : (xs : List A) → any (λ x. false) xs ≡ false
  any-false [] = refl
  any-false (x ∷ xs) = any-false xs

  pub any-and : (b : Bool) (p : A → Bool) (xs : List A) → any (λ x. b && p x) xs ≡ (b && any p xs)
  any-and true p xs = refl
  any-and false p xs = any-false xs

module _ {ℓ} {A : Type ℓ} where
  pub any-reverse : (p : A → Bool) (xs : List A) → any p (reverse xs) ≡ any p xs
  any-reverse p [] = refl
  any-reverse p (x ∷ xs) = rw reverse-cons (rw any-append (ground (arith, any-reverse p xs)))

  pub any-take : (p : A → Bool) (n : ℕ) (xs : List A) → any p (take n xs) ≡ true → any p xs ≡ true
  any-take p zero xs h = cc
  any-take p (suc n) [] h = h
  any-take p (suc n) (x ∷ xs) h = ground (arith, any-take p n xs)

  pub every-append :
      (p : A → Bool) (xs ys : List A) → every p (xs ++ ys) ≡ (every p xs && every p ys)
  every-append p [] ys = refl
  every-append p (x ∷ xs) ys = ground (arith, every-append p xs ys)

  pub every-reverse : (p : A → Bool) (xs : List A) → every p (reverse xs) ≡ every p xs
  every-reverse p [] = refl
  every-reverse p (x ∷ xs) = rw reverse-cons (rw every-append (ground (arith, every-reverse p xs)))

  pub every-take :
      (p : A → Bool) (n : ℕ) (xs : List A) → every p xs ≡ true → every p (take n xs) ≡ true
  every-take p zero xs h = refl
  every-take p (suc n) [] h = refl
  every-take p (suc n) (x ∷ xs) h = ground (arith, every-take p n xs)

  pub length-reverse : (xs : List A) → length (reverse xs) ≡ length xs
  length-reverse [] = refl
  length-reverse (x ∷ xs) = rw reverse-cons (rw length-append (omega (arith, length-reverse xs)))
