-- ===== src/Notepad/Found.antt =====
-- What the searches of code/backend/notepad.py find, stated apart from them: an Alpaca key anywhere.
use grindstone.Prelude.{
  ℕ, ◌≤◌, ◌≡◌, refl, ap, ◌∙◌, Bool, true, false, ◌||◌, not, [], ◌∷◌, ◌++◌, length, every, ◌==◌,
  nat_eq, text_eq, Text, codes, arith, Bool-cases, inl, inr, ok,
}
use grindstone.Json.{Json}
use grindstone.Notepad.Secret.{
  is_capital_or_digit, is_word_char, drop_chars, run_of, word_ends, is_key_tail, key_here, key_in,
  is_secret,
}
use grindstone.Notepad.Payload.{validate_payload}
use grindstone.Notepad.Sealed.{validate_payload-is_safe}

-- The text before a place ends with a word character.
abbrev pub ends_inside : Bool → Text → Bool
ends_inside inside [] = inside
ends_inside inside (c ∷ t) = ends_inside (is_word_char c) t

run_of-append :
    (run post : Text)
    → every is_capital_or_digit run ≡ true
    → word_ends post ≡ true
    → run_of is_capital_or_digit (run ++ post) ≡ length run
run_of-append [] [] h e = refl
run_of-append [] (c ∷ post) h e = ground (arith, e)
run_of-append (c ∷ run) post h e = ground (arith, h, run_of-append run post)

drop_chars-append : (run post : Text) → drop_chars (length run) (run ++ post) ≡ post
drop_chars-append [] post = refl
drop_chars-append (c ∷ run) post = drop_chars-append run post

key_in-append :
    (letters : Text) (inside : Bool) (pre : Text) (c : ℕ) (t : Text)
    → key_here letters (ends_inside inside pre) (c ∷ t) ≡ true
    → key_in letters inside (pre ++ (c ∷ t)) ≡ true
key_in-append letters inside [] c t h = rw h refl
key_in-append letters inside (d ∷ pre) c t h =
    rw (key_in-append letters (is_word_char d) pre c t h) (ground arith)

tail_found :
    (run post : Text)
    → every is_capital_or_digit run ≡ true
    → 16 ≤ length run
    → word_ends post ≡ true
    → is_key_tail (run ++ post) ≡ true
tail_found run post caps long e =
    rw (run_of-append run post caps e) (rw (drop_chars-append run post, e) (ground (arith, long)))

first_or : (a b : Bool) → a ≡ true → (a || b) ≡ true
first_or a b h = ground (arith, h)

second_or : (a b : Bool) → b ≡ true → (a || b) ≡ true
second_or a b h = ground (arith, h)

-- An Alpaca key: P or A, K, and sixteen capitals or digits or more, that no word character touches.
pub is_secret-key :
    (pre run post : Text) (c : ℕ)
    → (c == b'P' || c == b'A') ≡ true
    → ends_inside false pre ≡ false
    → every is_capital_or_digit run ≡ true
    → 16 ≤ length run
    → word_ends post ≡ true
    → is_secret (pre ++ (c ∷ b'K' ∷ (run ++ post))) ≡ true
unfolding is_secret
is_secret-key pre run post c letter before caps long after = elim (Bool-cases (c == b'P')) [
  | inl p ↦
      let found : key_in (codes "PK") false (pre ++ (c ∷ b'K' ∷ (run ++ post))) ≡ true =
        key_in-append (codes "PK") false pre c (b'K' ∷ (run ++ post))
          (rw (before, (nat_eq.same_iff c b'P').0 p) (tail_found run post caps long after)) in
      first_or _ _ found
  | inr other ↦
      let a : (c == b'A') ≡ true = ground (arith, letter, other) in
      let found : key_in (codes "AK") false (pre ++ (c ∷ b'K' ∷ (run ++ post))) ≡ true =
        key_in-append (codes "AK") false pre c (b'K' ∷ (run ++ post))
          (rw (before, (nat_eq.same_iff c b'A').0 a) (tail_found run post caps long after)) in
      second_or _ _ (first_or _ _ found)
]

pub no_key_enters :
    (dumps : Json → Text) (payload clean : Json) (pre run post : Text) (c : ℕ)
    → validate_payload dumps payload ≡ ok clean
    → (c == b'P' || c == b'A') ≡ true
    → ends_inside false pre ≡ false
    → every is_capital_or_digit run ≡ true
    → 16 ≤ length run
    → word_ends post ≡ true
    → ¬ (dumps clean ≡ pre ++ (c ∷ b'K' ∷ (run ++ post)))
no_key_enters dumps payload clean pre run post c valid letter before caps long after e =
    let found = is_secret-key pre run post c letter before caps long after in
    let safe : not (is_secret (dumps clean)) ≡ true =
      ground (arith, validate_payload-is_safe dumps payload clean valid) in
    absurd (clash (is_secret (dumps clean)) (ap is_secret e ∙ found) safe)
  where
    clash : (b : Bool) → b ≡ true → not b ≡ true → ⊥
    clash b h k = ground (arith, h, k)
