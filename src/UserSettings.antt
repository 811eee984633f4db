-- ===== src/UserSettings.antt =====
-- The table `user_settings` of app.db, which code/backend/settings.py and code/backend/wheels.py keep
-- their values in: one row for a user and a key. The stored text is of any type `V`.
use grindstone.Prelude.{
  ℕ, ◌≡◌, refl, Bool, ◌&&◌, Option, none, some, List, [], ◌∷◌, Text, text_eq, nat_eq, ◌==◌, arith,
  if◌then◌else◌, beq_refl,
}

pub record Row (V : Type 0) : Type 0 where
  pub user : ℕ
  pub key : Text
  pub value : V

module _ {V : Type 0} where
  abbrev pub is_at : ℕ → Text → Row V → Bool
  is_at user key r = (r.user == user) && (r.key == key)

  -- `SELECT value FROM user_settings WHERE user_id=? AND key=?`
  abbrev pub select_value : ℕ → Text → List (Row V) → Option V
  select_value user key [] = none
  select_value user key (r ∷ rs) =
      if is_at user key r then some r.value else select_value user key rs

  -- `INSERT INTO user_settings ... ON CONFLICT(user_id, key) DO UPDATE SET value=excluded.value`
  abbrev pub upsert_value : ℕ → Text → V → List (Row V) → List (Row V)
  upsert_value user key v [] = record { user = user; key = key; value = v } ∷ []
  upsert_value user key v (r ∷ rs) =
      if is_at user key r then record r { value = v } ∷ rs else r ∷ upsert_value user key v rs

  pub select_value-upsert_value :
      (user user' : ℕ) (key key' : Text) (v : V) (rs : List (Row V))
      → select_value user' key' (upsert_value user key v rs)
        ≡ (if (user == user') && (key == key') then some v else select_value user' key' rs)
  select_value-upsert_value user user' key key' v [] = refl
  select_value-upsert_value user user' key key' v (r ∷ rs) = ground (
    arith,
    select_value-upsert_value user user' key key' v rs,
    text_eq.same_iff r.key key,
    text_eq.same_iff r.key key',
    text_eq.same_iff key key',
    text_eq.same_iff key' key,
  )

  pub select_value-upsert_value_self :
      (user : ℕ) (key : Text) (v : V) (rs : List (Row V))
      → select_value user key (upsert_value user key v rs) ≡ some v
  select_value-upsert_value_self user key v rs =
      rw select_value-upsert_value (rw (beq_refl user, beq_refl key) refl)
