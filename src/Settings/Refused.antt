-- ===== src/Settings/Refused.antt =====
-- What `put` of code/backend/settings.py writes, whether it returns or refuses.
use grindstone.Prelude.{
  ℕ, ◌≡◌, refl, false, ◌&&◌, Option, none, some, List, [], ◌∷◌, map, contains, ◌==◌, nat_eq,
  text_eq, Text, Result, ok, refused, arith, ◌∙◌,
}
use grindstone.Json.{Json}
use grindstone.UserSettings.{Row, select_value, upsert_value, select_value-upsert_value}
use grindstone.Settings.Store.{
  Numbers, Raised, coerce_key, write_then, write_all, put_answer, put_known, put_settings, unknown,
}

-- The keys of an update.
abbrev pub keys_of : List (Text × Json) → List Text
keys_of updates = map (λ (p : Text × Json). p.0) updates

module _ {V : Type 0} (py : Numbers) (dumps : Json → V) (loads : V → Option Json) where
  write_then_keeps :
      (user user' : ℕ) (key key' : Text) (later : List (Row V) → List (Row V) × Option Raised)
      → (rows : List (Row V)) (r : Result Raised Json) → ((user == user') && (key == key')) ≡ false
      → ((rs : List (Row V)) → select_value user' key' (later rs).0 ≡ select_value user' key' rs)
      → select_value user' key' (write_then py dumps loads user key later rows r).0
        ≡ select_value user' key' rows
  write_then_keeps user user' key key' later rows (ok w) other h =
      h (upsert_value user key (dumps w) rows)
      ∙ select_value-upsert_value user user' key key' (dumps w) rows
      ∙ rw other refl
  write_then_keeps user user' key key' later rows (refused e) other h = refl

  write_all_keeps :
      (user user' : ℕ) (key' : Text) (updates : List (Text × Json)) (rows : List (Row V))
      → ((user == user') && contains (keys_of updates) key') ≡ false
      → select_value user' key' (write_all py dumps loads user updates rows).0
        ≡ select_value user' key' rows
  unfolding write_all
  write_all_keeps user user' key' [] rows h = refl
  write_all_keeps user user' key' ((key, v) ∷ updates) rows h =
      write_then_keeps user user' key key' (λ rs. write_all py dumps loads user updates rs) rows
        (coerce_key py key v) (ground (arith, h))
        (λ rs. write_all_keeps user user' key' updates rs (ground (arith, h)))

  answer_table :
      (user : ℕ) (r : List (Row V) × Option Raised) → (put_answer py dumps loads user r).0 ≡ r.0
  answer_table user (rows, none) = refl
  answer_table user (rows, some e) = refl

  put_known_keeps :
      (user user' : ℕ) (key' : Text) (updates : List (Text × Json)) (rows : List (Row V))
      (ks : List Text)
      → ((user == user') && contains (keys_of updates) key') ≡ false
      → select_value user' key' (put_known py dumps loads user updates rows ks).0
        ≡ select_value user' key' rows
  put_known_keeps user user' key' updates rows [] h =
      rw (answer_table user (write_all py dumps loads user updates rows))
        (write_all_keeps user user' key' updates rows h)
  put_known_keeps user user' key' updates rows (k ∷ ks) h = refl

  -- `put` leaves every other setting alone, whether it returns, refuses an unknown key or raises: the
  -- stored value of a key that is not in the update, or of another user, is what it was.
  pub put_keeps :
      (user user' : ℕ) (key' : Text) (updates : List (Text × Json)) (rows : List (Row V))
      → ((user == user') && contains (keys_of updates) key') ≡ false
      → select_value user' key' (put_settings py dumps loads user updates rows).0
        ≡ select_value user' key' rows
  unfolding put_settings
  put_keeps user user' key' updates rows h =
      put_known_keeps user user' key' updates rows (unknown updates) h
