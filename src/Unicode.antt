-- ===== src/Unicode.antt =====
-- The tests of texts that code/backend/wheels.py and code/backend/favorites.py share, and what they ask
-- of Python's Unicode tables.
use grindstone.Prelude.{
  ℕ, ◌-◌, Bool, true, false, ◌&&◌, ◌||◌, not, [], ◌∷◌, map, reverse, length, take, keep, every,
  ◌==◌, nat_eq, Text, codes, starts_with, if◌then◌else◌,
}

-- `str.isidentifier`, `str.isalnum` of a text of one character, `str.upper` and `str.lower`, by the Unicode tables
-- of the Python that runs the program.
pub record Unicode : Type 0 where
  pub is_identifier : Text → Bool
  pub is_alnum : ℕ → Bool
  pub uppercase : Text → Text
  pub lowercase : Text → Text

-- `s.replace(old, "")`
abbrev pub without : ℕ → Text → Text
without c s = keep (λ x. not (x == c)) s

abbrev pub replace : ℕ → ℕ → Text → Text
replace old new s = map (λ c. if c == old then new else c) s

-- `addr.split("?", 1)[0]`
abbrev pub before_query : Text → Text
before_query [] = []
before_query (c ∷ s) = if c == b'?' then [] else c ∷ before_query s

abbrev pub ends_with : Text → Text → Bool
ends_with s p = starts_with (reverse s) (reverse p)

-- `addr.startswith(("http://", "https://"))`
abbrev pub is_web : Text → Bool
is_web address = starts_with address (codes "http://") || starts_with address (codes "https://")

-- An icon is empty or a data URI of an image.
abbrev pub is_icon : Text → Bool
is_icon [] = true
is_icon (c ∷ icon) = starts_with (c ∷ icon) (codes "data:image/")

module _ (u : Unicode) where
  -- `s.isalnum()`
  abbrev pub all_alnum : Text → Bool
  all_alnum [] = false
  all_alnum (c ∷ s) = u.is_alnum c && every u.is_alnum s

  -- The name of a page: letters, digits and dashes before ".gs".
  abbrev pub is_gs : Text → Bool
  is_gs head =
      ends_with head (codes ".gs") && all_alnum (without b'-' (take (length head - 3) head))
