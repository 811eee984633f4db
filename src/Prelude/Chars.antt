-- ===== src/Prelude/Chars.antt =====
-- Text as a list of code points, with the methods of Python's `str` that the program calls.
-- `upper` changes the ASCII letters only: symbols are ASCII.
use Prim.Native.Nat.{ℕ, ◌-◌}
use Prim.Native.Char.{code}
use Prim.Native.String.{String}
use mathlib.Core.Path.{◌≡◌, refl}
use mathlib.Core.Bool.{Bool, true, false, ◌&&◌, ◌||◌}
use mathlib.Core.List.{List, [], ◌∷◌, map, reverse}
use native.Mathlib.Omega.{arith}
use mathlib.Core.Logic.{◌↔◌}
use grindstone.Prelude.Tests.{leb, ltb, if◌then◌else◌}
use grindstone.Prelude.Keys.{Eq, ◌==◌, nat_eq}

abbrev pub Text : Type 0
Text = List ℕ

abbrev pub codes : String → Text
codes String.[] = []
codes (String.◌∷◌ c s) = code c ∷ codes s

unfoldable pub text_beq : Text → Text → Bool
text_beq [] [] = true
text_beq [] (y ∷ ys) = false
text_beq (x ∷ xs) [] = false
text_beq (x ∷ xs) (y ∷ ys) = (x == y) && text_beq xs ys

text_beq→eq : (a b : Text) → text_beq a b ≡ true → a ≡ b
unfolding text_beq
text_beq→eq [] [] h = refl
text_beq→eq [] (y ∷ b) h = cc
text_beq→eq (x ∷ a) [] h = cc
text_beq→eq (x ∷ a) (y ∷ b) h = ground (arith, text_beq→eq a b)

text_beq_refl : (a : Text) → text_beq a a ≡ true
unfolding text_beq
text_beq_refl [] = refl
text_beq_refl (x ∷ a) = ground (arith, text_beq_refl a)

pub text_beq_iff : (a b : Text) → (text_beq a b ≡ true) ↔ (a ≡ b)
text_beq_iff a b = (text_beq→eq a b, λ e. rw e (text_beq_refl b))

instance abbrev pub text_eq : Eq Text
text_eq = record { same_iff = text_beq_iff; same = text_beq }

abbrev pub to_upper : ℕ → ℕ
to_upper c = if leb b'a' c && leb c b'z' then c - 32 else c

-- `s.upper()`
unfoldable pub upper : Text → Text
upper = map to_upper

-- The characters that `str.strip` removes.
abbrev pub is_space : ℕ → Bool
is_space c =
    (leb 9 c && leb c 13)
    || ((leb 28 c && leb c 32)
        || (c == 0x85
            || (c == 0xa0
                || (c == 0x1680
                    || ((leb 0x2000 c && leb c 0x200a)
                        || (c == 0x2028
                            || (c == 0x2029 || (c == 0x202f || (c == 0x205f || c == 0x3000)))))))))

unfoldable pub lstrip : Text → Text
lstrip [] = []
lstrip (c ∷ s) = if is_space c then lstrip s else c ∷ s

-- `s.strip()`
unfoldable pub strip : Text → Text
unfolding lstrip
strip s = reverse (lstrip (reverse (lstrip s)))

-- `s.startswith(p)`
abbrev pub starts_with : Text → Text → Bool
starts_with s [] = true
starts_with [] (x ∷ p) = false
starts_with (c ∷ s) (x ∷ p) = (c == x) && starts_with s p

to_upper_idem : (c : ℕ) → to_upper (to_upper c) ≡ to_upper c
to_upper_idem c = ground arith

pub upper_idem : (s : Text) → upper (upper s) ≡ upper s
unfolding upper
upper_idem [] = refl
upper_idem (c ∷ s) = cc (to_upper_idem c, upper_idem s)

-- The order of texts, by which SQLite compares timestamps.
unfoldable pub is_less : Text → Text → Bool
is_less [] [] = false
is_less [] (y ∷ ys) = true
is_less (x ∷ xs) [] = false
is_less (x ∷ xs) (y ∷ ys) = ltb x y || ((x == y) && is_less xs ys)
