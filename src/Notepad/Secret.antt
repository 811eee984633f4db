-- ===== src/Notepad/Secret.antt =====
-- `_SECRET_SHAPES` of code/backend/notepad.py, as searches of a text. What is searched is the output of
-- json.dumps, which is ASCII, so the classes of the patterns are those of ASCII.
use grindstone.Prelude.{
  ℕ, zero, suc, ◌+◌, Bool, true, false, ◌&&◌, ◌||◌, not, List, [], ◌∷◌, leb, ◌==◌, nat_eq, text_eq,
  Text, codes, starts_with, is_space, length, any, if◌then◌else◌,
}

abbrev pub is_capital_or_digit : ℕ → Bool
is_capital_or_digit c = (leb b'A' c && leb c b'Z') || (leb b'0' c && leb c b'9')

-- `\w`
abbrev pub is_word_char : ℕ → Bool
is_word_char c = is_capital_or_digit c || ((leb b'a' c && leb c b'z') || c == b'_')

-- The rest of the text after `n` characters.
abbrev pub drop_chars : ℕ → Text → Text
drop_chars zero t = t
drop_chars (suc n) [] = []
drop_chars (suc n) (c ∷ t) = drop_chars n t

-- The characters at the start that pass.
abbrev pub run_of : (ℕ → Bool) → Text → ℕ
run_of p [] = 0
run_of p (c ∷ t) = if p c then suc (run_of p t) else 0

-- `\b` after a word character.
abbrev pub word_ends : Text → Bool
word_ends [] = true
word_ends (c ∷ t) = not (is_word_char c)

-- `PK[A-Z0-9]{16,}\b` after the two letters. A shorter match than the whole run ends before a word
-- character, so only the whole run can match.
abbrev pub is_key_tail : Text → Bool
is_key_tail t =
    leb 16 (run_of is_capital_or_digit t) && word_ends (drop_chars (run_of is_capital_or_digit t) t)

-- `\bPK[A-Z0-9]{16,}\b` where the text starts; `inside` says that a word character is before it.
abbrev pub key_here : Text → Bool → Text → Bool
key_here letters inside t =
    not inside && (starts_with t letters && is_key_tail (drop_chars (length letters) t))

-- `re.search` for it.
abbrev pub key_in : Text → Bool → Text → Bool
key_in letters inside [] = false
key_in letters inside (c ∷ t) = key_here letters inside (c ∷ t) || key_in letters (is_word_char c) t

abbrev pub to_lower : ℕ → ℕ
to_lower c = if leb b'A' c && leb c b'Z' then c + 32 else c

-- `(?i)` with a word in lower case.
abbrev pub starts_as : Text → Text → Bool
starts_as t [] = true
starts_as [] (x ∷ p) = false
starts_as (c ∷ t) (x ∷ p) = (to_lower c == x) && starts_as t p

abbrev pub skip_space : Text → Text
skip_space t = drop_chars (run_of is_space t) t

-- `\s*\S{16,}`
abbrev pub is_value : Text → Bool
is_value t = leb 16 (run_of (λ c. not (is_space c)) (skip_space t))

abbrev pub assigns : Text → Bool
assigns [] = false
assigns (c ∷ t) = (c == b':' || c == b'=') && is_value t

-- `\s*[:=]\s*\S{16,}`
abbrev pub is_assigned : Text → Bool
is_assigned t = assigns (skip_space t)

abbrev pub assigned_after : Text → Text → Bool
assigned_after word t = starts_as t word && is_assigned (drop_chars (length word) t)

abbrev pub secret_words : List Text
secret_words =
    codes "secretkey"
    ∷ codes "secret_key"
    ∷ codes "secret-key"
    ∷ codes "apikey"
    ∷ codes "api_key"
    ∷ codes "api-key"
    ∷ codes "password"
    ∷ codes "token"
    ∷ []

-- The third pattern where the text starts. A match of `\bsecret\b` ends before no word character.
abbrev pub assignment_here : Bool → Text → Bool
assignment_here inside t =
    any (λ word. assigned_after word t) secret_words
    || (not inside && (word_ends (drop_chars 6 t) && assigned_after (codes "secret") t))

abbrev pub assignment_in : Bool → Text → Bool
assignment_in inside [] = false
assignment_in inside (c ∷ t) = assignment_here inside (c ∷ t) || assignment_in (is_word_char c) t

unfoldable pub is_secret : Text → Bool
is_secret t = key_in (codes "PK") false t || (key_in (codes "AK") false t || assignment_in false t)
