-- ===== src/Notepad/Codec.antt =====
-- An encoding of JSON values as texts that is read back, for the tests of code/backend/notepad.py: what
-- they need of the JSON library can be had.
use grindstone.Prelude.{
  ℕ, zero, suc, ◌+◌, ◌≤◌, ◌≡◌, refl, Bool, true, false, Option, none, some, [], ◌∷◌, length, nat_eq,
  Text, arith,
}
use grindstone.Json.{
  Json, null, boolean, integer, float, text, array, object, Items, nil, cons, Fields, end, field,
  finite, infinite, nan,
}

abbrev bit : Bool → ℕ
bit true = suc zero
bit false = zero

abbrev bool_of : ℕ → Bool
bool_of zero = false
bool_of (suc n) = true

abbrev code_text : Text → Text → Text
code_text [] r = zero ∷ r
code_text (c ∷ t) r = suc c ∷ code_text t r

-- A value in front of the rest.
unfoldable mutual
  pub code : Json → Text → Text
  code null r = zero ∷ r
  code (boolean b) r = suc zero ∷ bit b ∷ r
  code (integer s n) r = suc (suc zero) ∷ bit s ∷ n ∷ r
  code (float (finite s d k)) r = suc (suc (suc zero)) ∷ bit s ∷ d ∷ k ∷ r
  code (float (infinite s)) r = suc (suc (suc (suc zero))) ∷ bit s ∷ r
  code (float nan) r = suc (suc (suc (suc (suc zero)))) ∷ r
  code (text t) r = suc (suc (suc (suc (suc (suc zero))))) ∷ code_text t r
  code (array js) r = suc (suc (suc (suc (suc (suc (suc zero)))))) ∷ code_items js r
  code (object f) r = suc (suc (suc (suc (suc (suc (suc (suc zero))))))) ∷ code_fields f r

  pub code_items : Items → Text → Text
  code_items nil r = zero ∷ r
  code_items (cons j js) r = suc zero ∷ code j (code_items js r)

  pub code_fields : Fields → Text → Text
  code_fields end r = zero ∷ r
  code_fields (field k j f) r = suc zero ∷ code_text k (code j (code_fields f r))

abbrev read_text : Text → Option (Text × Text)
read_text [] = none
read_text (zero ∷ r) = some ([], r)
read_text (suc c ∷ r) = consed c (read_text r)
  where
    consed : ℕ → Option (Text × Text) → Option (Text × Text)
    consed c none = none
    consed c (some (t, r)) = some (c ∷ t, r)

read_text-code_text : (t r : Text) → read_text (code_text t r) ≡ some (t, r)
read_text-code_text [] r = refl
read_text-code_text (c ∷ t) r = rw (read_text-code_text t r) refl

abbrev and_then : {A B : Type 0} → Option A → (A → Option B) → Option B
and_then none f = none
and_then (some a) f = f a

abbrev over : {A B : Type 0} → (A → B) → Option (A × Text) → Option (B × Text)
over f o = and_then o (λ p. some (f p.0, p.1))

-- The value in front, with fuel for its depth.
unfoldable mutual
  pub read : ℕ → Text → Option (Json × Text)
  read (suc n) (zero ∷ r) = some (null, r)
  read (suc n) (suc zero ∷ b ∷ r) = some (boolean (bool_of b), r)
  read (suc n) (suc (suc zero) ∷ s ∷ m ∷ r) = some (integer (bool_of s) m, r)
  read (suc n) (suc (suc (suc zero)) ∷ s ∷ d ∷ k ∷ r) = some (float (finite (bool_of s) d k), r)
  read (suc n) (suc (suc (suc (suc zero))) ∷ s ∷ r) = some (float (infinite (bool_of s)), r)
  read (suc n) (suc (suc (suc (suc (suc zero)))) ∷ r) = some (float nan, r)
  read (suc n) (suc (suc (suc (suc (suc (suc zero))))) ∷ r) = over text (read_text r)
  read (suc n) (suc (suc (suc (suc (suc (suc (suc zero)))))) ∷ r) = over array (read_items n r)
  read (suc n) (suc (suc (suc (suc (suc (suc (suc (suc zero))))))) ∷ r) =
      over object (read_fields n r)
  read _ _ = none

  pub read_items : ℕ → Text → Option (Items × Text)
  read_items (suc n) (zero ∷ r) = some (nil, r)
  read_items (suc n) (suc zero ∷ r) = and_then (read n r) (λ p. over (cons p.0) (read_items n p.1))
  read_items _ _ = none

  pub read_fields : ℕ → Text → Option (Fields × Text)
  read_fields (suc n) (zero ∷ r) = some (end, r)
  read_fields (suc n) (suc zero ∷ r) =
      and_then (read_text r)
        (λ q. and_then (read n q.1) (λ p. over (field q.0 p.0) (read_fields n p.1)))
  read_fields _ _ = none

abbrev mutual
  depth_of : Json → ℕ
  depth_of (array js) = suc (size_items js)
  depth_of (object f) = suc (size_fields f)
  depth_of _ = suc zero

  size_items : Items → ℕ
  size_items nil = suc zero
  size_items (cons j js) = suc (depth_of j + size_items js)

  size_fields : Fields → ℕ
  size_fields end = suc zero
  size_fields (field k j f) = suc (depth_of j + size_fields f)

bool_of-bit : (b : Bool) → bool_of (bit b) ≡ b
bool_of-bit true = refl
bool_of-bit false = refl

size_pos : (j : Json) → 1 ≤ depth_of j
size_pos (array js) = omega arith
size_pos (object f) = omega arith
size_pos _ = omega arith

size_items_pos : (js : Items) → 1 ≤ size_items js
size_items_pos nil = omega arith
size_items_pos (cons j js) = omega arith

size_fields_pos : (f : Fields) → 1 ≤ size_fields f
size_fields_pos end = omega arith
size_fields_pos (field k j f) = omega arith

mutual
  unfolding read code

  read-code : (n : ℕ) (j : Json) (r : Text) → depth_of j ≤ n → read n (code j r) ≡ some (j, r)
  read-code zero j r h = absurd (omega (arith, h, size_pos j))
  read-code (suc n) null r h = refl
  read-code (suc n) (boolean b) r h = rw (bool_of-bit b) refl
  read-code (suc n) (integer s m) r h = rw (bool_of-bit s) refl
  read-code (suc n) (float (finite s d k)) r h = rw (bool_of-bit s) refl
  read-code (suc n) (float (infinite s)) r h = rw (bool_of-bit s) refl
  read-code (suc n) (float nan) r h = refl
  read-code (suc n) (text t) r h = rw (read_text-code_text t r) refl
  read-code (suc n) (array js) r h = rw (read_items-code_items n js r (omega (arith, h))) refl
  read-code (suc n) (object f) r h = rw (read_fields-code_fields n f r (omega (arith, h))) refl

  read_items-code_items :
      (n : ℕ) (js : Items) (r : Text)
      → size_items js ≤ n
      → read_items n (code_items js r) ≡ some (js, r)
  read_items-code_items zero js r h = absurd (omega (arith, h, size_items_pos js))
  read_items-code_items (suc n) nil r h = refl
  read_items-code_items (suc n) (cons j js) r h =
      rw (read-code n j (code_items js r) (omega (arith, h)))
        (rw (read_items-code_items n js r (omega (arith, h))) refl)

  read_fields-code_fields :
      (n : ℕ) (f : Fields) (r : Text)
      → size_fields f ≤ n
      → read_fields n (code_fields f r) ≡ some (f, r)
  read_fields-code_fields zero f r h = absurd (omega (arith, h, size_fields_pos f))
  read_fields-code_fields (suc n) end r h = refl
  read_fields-code_fields (suc n) (field k j f) r h =
      rw (read_text-code_text k (code j (code_fields f r))) (
        rw (read-code n j (code_fields f r) (omega (arith, h)))
          (rw (read_fields-code_fields n f r (omega (arith, h))) refl))

length-code_text : (t r : Text) → length r ≤ length (code_text t r)
length-code_text [] r = omega arith
length-code_text (c ∷ t) r = omega (arith, length-code_text t r)

mutual
  unfolding code

  size-code : (j : Json) (r : Text) → depth_of j + length r ≤ length (code j r)
  size-code null r = omega arith
  size-code (boolean b) r = omega arith
  size-code (integer s n) r = omega arith
  size-code (float (finite s d k)) r = omega arith
  size-code (float (infinite s)) r = omega arith
  size-code (float nan) r = omega arith
  size-code (text t) r = omega (arith, length-code_text t r)
  size-code (array js) r = omega (arith, size-code_items js r)
  size-code (object f) r = omega (arith, size-code_fields f r)

  size-code_items : (js : Items) (r : Text) → size_items js + length r ≤ length (code_items js r)
  size-code_items nil r = omega arith
  size-code_items (cons j js) r = omega (arith, size-code j (code_items js r), size-code_items js r)

  size-code_fields : (f : Fields) (r : Text) → size_fields f + length r ≤ length (code_fields f r)
  size-code_fields end r = omega arith
  size-code_fields (field k j f) r = omega (
    arith,
    length-code_text k (code j (code_fields f r)),
    size-code j (code_fields f r),
    size-code_fields f r,
  )

unfoldable pub coded : Json → Text
unfolding code
coded j = code j []

unfoldable pub decoded : Text → Option Json
unfolding read
decoded t = and_then (read (length t) t) (λ p. some p.0)

pub decoded-coded : (j : Json) → decoded (coded j) ≡ some j
unfolding decoded coded
decoded-coded j = rw (read-code (length (code j [])) j [] (omega (arith, size-code j []))) refl
