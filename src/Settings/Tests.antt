-- ===== src/Settings/Tests.antt =====
-- Runs of code/backend/settings.py, and the theorems applied there.
use grindstone.Prelude.{
  ℕ, ◌≡◌, refl, false, ◌&&◌, none, some, [], ◌∷◌, codes, text_eq, nat_eq, ◌==◌, contains, ok,
  refused, ◌>>=◌, text_beq, Option, arith,
}
use grindstone.Json.{Json, finite, null, integer, float, text, one_of}
use grindstone.UserSettings.{select_value}
use grindstone.Settings.Spec.{setting_specs}
use grindstone.Settings.Store.{
  Numbers, to_float, lesser, greater, coerce, coerce_key, put_settings, unknown_settings, is_known,
}
use grindstone.Settings.Refused.{keys_of, put_keeps}
use grindstone.Settings.Within.{IsSettled, get_all-IsWhole}
use grindstone.UserSettings.{Row}
use grindstone.Settings.Store.{assign, defaults, read_rows, get_all}
use grindstone.Prelude.{List}

abbrev python : Numbers
python = record {
  float_of_int = λ negative n. some (finite negative n 0);
  float_of_text = λ t. none;
  dumped_size = λ f. 100;
}

abbrev kept : Json → Json
kept j = j

abbrev loaded : Json → Option Json
loaded j = some j

boost_is_bounded :
    coerce_key python (codes "inhouse_boost") (integer false 9) ≡ ok (float (finite false 40 1))
unfolding coerce_key setting_specs coerce to_float lesser greater text_beq ◌>>=◌
boost_is_bounded = refl

theme_falls_back :
    coerce_key python (codes "theme") (text (codes "pink")) ≡ ok (text (codes "dark"))
unfolding coerce_key setting_specs coerce one_of text_beq
theme_falls_back = refl

unknown_is_refused :
    put_settings python kept loaded 7 ((codes "colour", null) ∷ []) []
    ≡ ([], refused (unknown_settings (codes "colour" ∷ [])))
unfolding put_settings is_known setting_specs text_beq
unknown_is_refused = refl

abbrev owner : ℕ
owner = 7

not_theme : ((owner == 7) && contains (codes "hist_dte_pct" ∷ []) (codes "theme")) ≡ false
unfolding text_beq
not_theme = refl

put_keeps_example :
    select_value 7
      (codes "theme")
      (put_settings python kept loaded 7 ((codes "hist_dte_pct", integer false 5) ∷ []) []).0
    ≡ none
put_keeps_example =
    put_keeps python kept loaded 7 7 (codes "theme") ((codes "hist_dte_pct", integer false 5) ∷ [])
      [] not_theme

abbrev light : List (Row Json)
light = record { user = 7; key = codes "theme"; value = text (codes "light") } ∷ []

light_is_read :
    get_all python loaded light 7 ≡ ok (assign (codes "theme") (text (codes "light")) defaults)
unfolding get_all read_rows defaults setting_specs coerce one_of text_beq ◌>>=◌
light_is_read = refl

get_all-IsWhole_example :
    (keys_of (assign (codes "theme") (text (codes "light")) defaults) ≡ keys_of defaults)
    × IsSettled python (assign (codes "theme") (text (codes "light")) defaults)
get_all-IsWhole_example =
    get_all-IsWhole python (omega arith) loaded light 7
      (assign (codes "theme") (text (codes "light")) defaults) light_is_read
