-- ===== src/Prelude/Results.antt =====
-- A result or the reason of a refusal, for code that raises, with a rule for what a result satisfies.
use mathlib.Core.Path.{◌≡◌, refl}
use mathlib.Core.Bool.{Bool, true, false}
use mathlib.Core.Option.{Option, none, some}
use native.Mathlib.Omega.{arith}

pub data Result {ℓ κ} (E : Type ℓ) (A : Type κ) : Type (ℓ ⊔ κ) where
  ok : A → Result E A
  refused : E → Result E A

module _ {ℓ} {E : Type ℓ} where
  infixl 5 ◌>>=◌ ◌>>◌
  unfoldable pub ◌>>=◌ {κ μ} :
      {A : Type κ} {B : Type μ} → Result E A → (A → Result E B) → Result E B
  ok a >>= f = f a
  refused e >>= f = refused e

  abbrev pub ◌>>◌ {κ} : {B : Type κ} → Result E (Unit {0}) → Result E B → Result E B
  m >> k = m >>= λ _. k

  -- `if not b: raise e`
  unfoldable pub check : Bool → E → Result E (Unit {0})
  check true e = ok tt
  check false e = refused e

  unfoldable pub require {κ} : {A : Type κ} → Option A → E → Result E A
  require none e = refused e
  require (some a) e = ok a

  -- A result, if there is one, passes the test.
  pub data Ensures {A : Type 0} (p : A → Bool) : Result E A → Type ℓ where
    gives : {a : A} → p a ≡ true → Ensures p (ok a)
    fails : {e : E} → Ensures p (refused e)

  pub Ensures-bind :
      {A B : Type 0} {p : B → Bool} {q : A → Bool} {m : Result E A} {f : A → Result E B}
      → Ensures q m
      → ((a : A) → q a ≡ true → Ensures p (f a))
      → Ensures p (m >>= f)
  unfolding ◌>>=◌
  Ensures-bind (gives {a} h) k = k a h
  Ensures-bind fails k = fails

  pub Ensures-check :
      {B : Type 0} {p : B → Bool} (b : Bool) (e : E) (f : Unit {0} → Result E B)
      → (b ≡ true → Ensures p (f tt))
      → Ensures p (check b e >>= f)
  unfolding ◌>>=◌ check
  Ensures-check true e f h = h refl
  Ensures-check false e f h = fails

  pub Ensures-require :
      {A : Type 0} {q : A → Bool} (o : Option A) (e : E)
      → ((a : A) → o ≡ some a → q a ≡ true)
      → Ensures q (require o e)
  unfolding require
  Ensures-require none e h = fails
  Ensures-require (some a) e h = gives (h a refl)

  pub Ensures-ok :
      {A : Type 0} {p : A → Bool} {m : Result E A} {a : A} → Ensures p m → m ≡ ok a → p a ≡ true
  Ensures-ok (gives h) e = ground (arith, h)
  Ensures-ok fails e = cc

  pub Ensures-map :
      {A : Type 0} {p q : A → Bool} (m : Result E A)
      → ((a : A) → p a ≡ true → q a ≡ true)
      → Ensures p m
      → Ensures q m
  Ensures-map m h (gives {a} e) = gives (h a e)
  Ensures-map m h fails = fails

  -- Inversion of a successful bind.
  pub bind-eq-ok {κ μ} :
      {A : Type κ} {B : Type μ} (m : Result E A) (f : A → Result E B) {b : B}
      → (m >>= f) ≡ ok b
      → (a : A) × (m ≡ ok a) × (f a ≡ ok b)
  unfolding ◌>>=◌
  bind-eq-ok (ok a) f h = (a, refl, h)
  bind-eq-ok (refused e) f h = cc

  -- Nothing is asked of the result.
  pub Ensures-any : {A : Type 0} (m : Result E A) → Ensures (λ a. true) m
  Ensures-any (ok a) = gives refl
  Ensures-any (refused e) = fails
