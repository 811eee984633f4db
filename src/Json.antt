-- ===== src/Json.antt =====
-- The values that `json.loads` returns, as the stored documents of code/backend/wheels.py are read
-- from them, with what Python's `dict.get`, truth and `==` say of them.
use grindstone.Prelude.{
  ℕ, ◌≡◌, refl, Bool, true, false, ◌&&◌, ◌||◌, not, ap, Option, none, some, List, [], ◌∷◌, Text,
  text_eq, nat_eq, ◌==◌, ◌*◌, contains, length, leb, if◌then◌else◌,
}
use Prim.Native.Nat.{◌^◌}

-- A finite float is a decimal fraction: its sign, its digits, and the power of ten below them.
pub data Float : Type 0 where
  finite : Bool → ℕ → ℕ → Float
  infinite : Bool → Float
  nan : Float

mutual
  pub data Json : Type 0 where
    null : Json
    boolean : Bool → Json
    integer : Bool → ℕ → Json
    float : Float → Json
    text : Text → Json
    array : Items → Json
    object : Fields → Json

  pub data Items : Type 0 where
    nil : Items
    cons : Json → Items → Items

  pub data Fields : Type 0 where
    end : Fields
    field : Text → Json → Fields → Fields

abbrev pub items : Items → List Json
items nil = []
items (cons j js) = j ∷ items js

abbrev pub array_of : List Json → Items
array_of [] = nil
array_of (j ∷ js) = cons j (array_of js)

pub items-array_of : (js : List Json) → items (array_of js) ≡ js
items-array_of [] = refl
items-array_of (j ∷ js) = ap (◌∷◌ j) (items-array_of js)

-- `d.items()`
abbrev pub pairs : Fields → List (Text × Json)
pairs end = []
pairs (field k j f) = (k, j) ∷ pairs f

abbrev pub object_of : List (Text × Json) → Fields
object_of [] = end
object_of ((k, j) ∷ ps) = field k j (object_of ps)

pub pairs-object_of : (ps : List (Text × Json)) → pairs (object_of ps) ≡ ps
pairs-object_of [] = refl
pairs-object_of ((k, j) ∷ ps) = ap (◌∷◌ (k, j)) (pairs-object_of ps)

-- `d.get(key, default)`
abbrev pub value_or : Fields → Text → Json → Json
value_or end key otherwise = otherwise
value_or (field k j f) key otherwise = if k == key then j else value_or f key otherwise

-- `d.get(key)`
abbrev pub value_of : Fields → Text → Json
value_of f key = value_or f key null

-- `bool(j)`
abbrev pub truth : Json → Bool
truth null = false
truth (boolean b) = b
truth (integer negative n) = not (n == 0)
truth (float (finite negative digits scale)) = not (digits == 0)
truth (float (infinite negative)) = true
truth (float nan) = true
truth (text []) = false
truth (text (c ∷ t)) = true
truth (array nil) = false
truth (array (cons j js)) = true
truth (object end) = false
truth (object (field k j f)) = true

-- `j == n`, for a number `n`.
abbrev pub equals_nat : ℕ → Json → Bool
equals_nat n null = false
equals_nat n (boolean true) = n == 1
equals_nat n (boolean false) = n == 0
equals_nat n (integer negative m) = m == n && (not negative || n == 0)
equals_nat n (float (finite negative digits scale)) =
    digits == n * 10 ^ scale && (not negative || n == 0)
equals_nat n (float (infinite negative)) = false
equals_nat n (float nan) = false
equals_nat n (text t) = false
equals_nat n (array js) = false
equals_nat n (object f) = false

-- The text, where the value is one of the texts (`j in texts`).
unfoldable pub one_of : List Text → Json → Option Text
one_of ts (text t) = if contains ts t then some t else none
one_of ts _ = none

-- The text, where the value is one, of `lo` to `hi` characters.
unfoldable pub text_within : ℕ → ℕ → Json → Option Text
text_within lo hi (text t) = if leb lo (length t) && leb (length t) hi then some t else none
text_within lo hi _ = none
