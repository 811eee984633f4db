-- ===== src/Settings/Within.antt =====
-- What `get_all` of code/backend/settings.py returns: every setting, and each within its bounds.
use grindstone.Prelude.{
  ℕ, ◌≤◌, ◌≡◌, refl, Option, none, some, List, [], ◌∷◌, keep, ◌==◌, nat_eq, text_eq, Text, codes,
  text_beq, Result, ok, refused, ◌>>=◌, bind-eq-ok, arith, Bool-cases, inl, inr, ◌∙◌,
}
use grindstone.Json.{Json, one_of}
use grindstone.UserSettings.{Row}
use grindstone.Settings.Spec.{SettingSpec, setting_specs}
use grindstone.Settings.Store.{
  Numbers, Raised, value_error, type_error, overflow_error, key_error, lesser, greater, to_float,
  coerce, spec_in, defaults, assign, assigned, read_value, read_rows, get_all, coerce_key,
}
use grindstone.Settings.Refused.{keys_of}
use grindstone.Settings.Coerced.{chart_state, coerce_key_twice}

-- Each value is one that `_coerce` leaves as it is.
pub data IsSettled (py : Numbers) : List (Text × Json) → Type 0 where
  no_settings : IsSettled py []
  with_setting :
      {key : Text} {v : Json} {out : List (Text × Json)}
      → coerce_key py key v ≡ ok v
      → IsSettled py out
      → IsSettled py ((key, v) ∷ out)

module _ (py : Numbers) (small : py.dumped_size chart_state ≤ 8192) where
  chart_state_stays : coerce_key py (codes "multi_chart") chart_state ≡ ok chart_state
  unfolding coerce_key coerce setting_specs text_beq
  chart_state_stays = ground arith

  defaults-IsSettled : IsSettled py defaults
  unfolding defaults setting_specs coerce_key coerce to_float lesser greater one_of text_beq ◌>>=◌
  defaults-IsSettled = with_setting refl (
      with_setting refl (
        with_setting refl (
          with_setting refl (
            with_setting refl (
              with_setting refl (
                with_setting refl (
                  with_setting refl (
                    with_setting refl (
                      with_setting refl (
                        with_setting refl (
                          with_setting refl (
                            with_setting refl (
                              with_setting refl (
                                with_setting refl (
                                  with_setting refl (
                                    with_setting refl (
                                      with_setting refl (
                                        with_setting chart_state_stays no_settings))))))))))))))))))

  by_spec :
      (key : Text) (s : SettingSpec) (v : Json)
      → spec_in setting_specs key ≡ some s
      → coerce_key py key v ≡ coerce py s.kind s.default v
  unfolding coerce_key
  by_spec key s v is = rw is refl

  assign-IsSettled :
      (key : Text) (w : Json) (out : List (Text × Json))
      → coerce_key py key w ≡ ok w
      → IsSettled py out
      → IsSettled py (assign key w out)
  assign-IsSettled key w [] h no_settings = no_settings
  assign-IsSettled key w ((k, v) ∷ out) h (with_setting e es) = elim (Bool-cases (k == key)) [
    | inl is ↦ rw is (with_setting (rw ((text_eq.same_iff k key).0 is) h) es)
    | inr other ↦ rw other (with_setting e (assign-IsSettled key w out h es))
  ]

  keys_of-assign :
      (key : Text) (w : Json) (out : List (Text × Json)) → keys_of (assign key w out) ≡ keys_of out
  keys_of-assign key w [] = refl
  keys_of-assign key w ((k, v) ∷ out) = elim (Bool-cases (k == key)) [
    | inl is ↦ rw is refl
    | inr other ↦ rw other (rw (keys_of-assign key w out) refl)
  ]

  module _ {V : Type 0} (loads : V → Option Json) where
    -- All settings are there, and each is settled.
    abbrev IsWhole : List (Text × Json) → Type 0
    IsWhole out = (keys_of out ≡ keys_of defaults) × IsSettled py out

    stays :
        (out out' : List (Text × Json))
        → ◌≡◌ {A = Result Raised (List (Text × Json))} (ok out) (ok out')
        → IsWhole out
        → IsWhole out'
    stays out out' e whole = let same : out ≡ out' = cc e in rw (← same) whole

    assigned-IsWhole :
        (key : Text) (out out' : List (Text × Json)) (r : Result Raised Json)
        → ((w : Json) → r ≡ ok w → coerce_key py key w ≡ ok w)
        → assigned py loads key out r ≡ ok out'
        → IsWhole out
        → IsWhole out'
    assigned-IsWhole key out out' (ok w) h e (keys, each) =
        stays (assign key w out) out' e
          (keys_of-assign key w out ∙ keys, assign-IsSettled key w out (h w refl) each)
    assigned-IsWhole key out out' (refused overflow_error) h e whole = cc
    assigned-IsWhole key out out' (refused value_error) h e whole = stays out out' e whole
    assigned-IsWhole key out out' (refused type_error) h e whole = stays out out' e whole
    assigned-IsWhole key out out' (refused key_error) h e whole = cc

    read_value-IsWhole :
        (key : Text) (out out' : List (Text × Json)) (s : Option SettingSpec) (v : Option Json)
        → spec_in setting_specs key ≡ s
        → read_value py loads key out s v ≡ ok out'
        → IsWhole out
        → IsWhole out'
    read_value-IsWhole key out out' none v is e whole = stays out out' e whole
    read_value-IsWhole key out out' (some s) none is e whole = stays out out' e whole
    read_value-IsWhole key out out' (some s) (some v) is e whole =
        assigned-IsWhole key out out' (coerce py s.kind s.default v)
          (λ w found. coerce_key_twice py key v w small (by_spec key s v is ∙ found)) e whole

    read_rows-IsWhole :
        (rs : List (Row V)) (out out' : List (Text × Json))
        → read_rows py loads rs out ≡ ok out'
        → IsWhole out
        → IsWhole out'
    unfolding read_rows
    read_rows-IsWhole [] out out' e whole = stays out out' e whole
    read_rows-IsWhole (r ∷ rs) out out' e whole =
        let (mid, read, e') =
          bind-eq-ok (read_value py loads r.key out (spec_in setting_specs r.key) (loads r.value))
            (λ o. read_rows py loads rs o) e in
        read_rows-IsWhole rs mid out' e' (
          read_value-IsWhole r.key out mid (spec_in setting_specs r.key) (loads r.value) refl read
            whole)

    -- Whatever the table holds, what `get_all` returns has every setting, in the order of `SPEC` and no
    -- other, and each value is one that `_coerce` leaves as it is, when the default of `multi_chart` is
    -- within the limit.
    pub get_all-IsWhole :
        (rows : List (Row V)) (user : ℕ) (out : List (Text × Json))
        → get_all py loads rows user ≡ ok out
        → (keys_of out ≡ keys_of defaults) × IsSettled py out
    unfolding get_all
    get_all-IsWhole rows user out e =
        read_rows-IsWhole (keep (λ (r : Row V). r.user == user) rows) defaults out e
          (refl, defaults-IsSettled)
