-- ===== src/Settings/Store.antt =====
-- `_coerce`, `defaults`, `get_all`, `put` and `schema` of code/backend/settings.py, on the table
-- user_settings.
use grindstone.Prelude.{
  ℕ, ◌*◌, Bool, true, false, ◌&&◌, not, Option, none, some, List, [], ◌∷◌, map, keep, ltb, take,
  ◌==◌, nat_eq, text_eq, Text, String, if◌then◌else◌, Result, ok, refused, ◌>>=◌,
}
use Prim.Native.Nat.{◌^◌}
use grindstone.Json.{
  Float, finite, infinite, nan, Json, boolean, integer, float, text, object, truth, one_of,
}
use grindstone.UserSettings.{Row, upsert_value}
use grindstone.Settings.Spec.{
  SettingKind, switch, number, choices, path, blob, SettingSpec, setting_specs,
}

-- What `float` and `json.dumps` do: `float` of an int may overflow, and of a text may not be one.
pub record Numbers : Type 0 where
  pub float_of_int : Bool → ℕ → Option Float
  pub float_of_text : Text → Option Float
  pub dumped_size : Json → ℕ

-- The exceptions of `float`.
pub data Raised : Type 0 where
  value_error type_error overflow_error key_error : Raised

-- `f < g`
abbrev pub less : Float → Float → Bool
less (finite true a s) (finite true b t) = ltb (b * 10 ^ s) (a * 10 ^ t)
less (finite true a s) (finite false b t) = not ((a == 0) && (b == 0))
less (finite false a s) (finite true b t) = false
less (finite false a s) (finite false b t) = ltb (a * 10 ^ t) (b * 10 ^ s)
less (finite n a s) (infinite m) = not m
less (infinite n) (finite m b t) = n
less (infinite n) (infinite m) = n && not m
less (finite n a s) nan = false
less (infinite n) nan = false
less nan g = false

-- Python's `min(a, b)` and `max(a, b)`: the first of them, unless the second is beyond it.
unfoldable pub lesser : Float → Float → Float
lesser a b = if less b a then b else a

unfoldable pub greater : Float → Float → Float
greater a b = if less a b then b else a

module _ (py : Numbers) where
  abbrev or_raise : Raised → Option Float → Result Raised Float
  or_raise e none = refused e
  or_raise e (some f) = ok f

  -- `float(value)`
  unfoldable pub to_float : Json → Result Raised Float
  to_float (boolean true) = ok (finite false 1 0)
  to_float (boolean false) = ok (finite false 0 0)
  to_float (integer negative n) = or_raise overflow_error (py.float_of_int negative n)
  to_float (float f) = ok f
  to_float (text t) = or_raise value_error (py.float_of_text t)
  to_float _ = refused type_error

  abbrev chosen : Json → Option Text → Json
  chosen otherwise (some t) = text t
  chosen otherwise none = otherwise

  abbrev pub path_of : Json → Json → Json
  path_of otherwise (text t) = text (take 1024 t)
  path_of otherwise _ = otherwise

  abbrev pub blob_of : Json → Json → Json
  blob_of otherwise (object f) =
      if ltb 8192 (py.dumped_size (object f)) then otherwise else object f
  blob_of otherwise _ = otherwise

  -- `_coerce`, by the kind of the setting and its default.
  unfoldable pub coerce : SettingKind → Json → Json → Result Raised Json
  unfolding to_float
  coerce switch otherwise value = ok (boolean (truth value))
  coerce (number low high step) otherwise value = do
    v ← to_float value
    ok (float (greater low (lesser high v)))
  coerce (choices names) otherwise value = ok (chosen otherwise (one_of names value))
  coerce path otherwise value = ok (path_of otherwise value)
  coerce blob otherwise value = ok (blob_of otherwise value)

abbrev pub spec_in : List SettingSpec → Text → Option SettingSpec
spec_in [] key = none
spec_in (s ∷ ss) key = if s.key == key then some s else spec_in ss key

-- `defaults`
unfoldable pub defaults : List (Text × Json)
unfolding setting_specs
defaults = map (λ (s : SettingSpec). (s.key, s.default)) setting_specs

-- `out[key] = value`, of a key that is there.
abbrev pub assign : Text → Json → List (Text × Json) → List (Text × Json)
assign key v [] = []
assign key v ((k, w) ∷ out) = if k == key then (k, v) ∷ out else (k, w) ∷ assign key v out

module _ {V : Type 0} (py : Numbers) (loads : V → Option Json) where
  -- `except (ValueError, TypeError): pass`
  abbrev pub assigned :
      Text → List (Text × Json) → Result Raised Json → Result Raised (List (Text × Json))
  assigned key out (ok v) = ok (assign key v out)
  assigned key out (refused value_error) = ok out
  assigned key out (refused type_error) = ok out
  assigned key out (refused e) = refused e

  abbrev pub read_value :
      Text
      → List (Text × Json)
      → Option SettingSpec
      → Option Json
      → Result Raised (List (Text × Json))
  read_value key out none v = ok out
  read_value key out (some s) none = ok out
  read_value key out (some s) (some v) = assigned key out (coerce py s.kind s.default v)

  -- The loop of `get_all` over the rows of the user.
  unfoldable pub read_rows : List (Row V) → List (Text × Json) → Result Raised (List (Text × Json))
  read_rows [] out = ok out
  read_rows (r ∷ rs) out = do
    out' ← read_value r.key out (spec_in setting_specs r.key) (loads r.value)
    read_rows rs out'

  unfoldable pub get_all : List (Row V) → ℕ → Result Raised (List (Text × Json))
  unfolding read_rows
  get_all rows user = read_rows (keep (λ r. r.user == user) rows) defaults

module _ (py : Numbers) where
  -- `_coerce(key, value)`
  abbrev pub coerce_by : Option SettingSpec → Json → Result Raised Json
  coerce_by none v = refused key_error
  coerce_by (some s) v = coerce py s.kind s.default v

  unfoldable pub coerce_key : Text → Json → Result Raised Json
  coerce_key key v = coerce_by (spec_in setting_specs key) v

pub data PutRefusal : Type 0 where
  unknown_settings : List Text → PutRefusal
  raised : Raised → PutRefusal

abbrev pub is_some : {A : Type 0} → Option A → Bool
is_some none = false
is_some (some a) = true

unfoldable pub is_known : Text → Bool
is_known key = is_some (spec_in setting_specs key)

-- `[k for k in updates if k not in SPEC]`
abbrev pub unknown : List (Text × Json) → List Text
unknown updates = map (λ (p : Text × Json). p.0) (keep (λ p. not (is_known p.0)) updates)

module _ {V : Type 0} (py : Numbers) (dumps : Json → V) (loads : V → Option Json) where
  -- The body of the loop of `put`, with what is left of the loop.
  abbrev pub write_then :
      ℕ
      → Text
      → (List (Row V) → List (Row V) × Option Raised)
      → List (Row V)
      → Result Raised Json
      → List (Row V) × Option Raised
  write_then user key later rows (ok v) = later (upsert_value user key (dumps v) rows)
  write_then user key later rows (refused e) = (rows, some e)

  -- The loop of `put`: the table, and the exception that ended it, if there was one.
  unfoldable pub write_all : ℕ → List (Text × Json) → List (Row V) → List (Row V) × Option Raised
  unfolding coerce_key
  write_all user [] rows = (rows, none)
  write_all user ((key, v) ∷ updates) rows =
      write_then user key (λ rows'. write_all user updates rows') rows (coerce_key py key v)

  abbrev pub read_back :
      ℕ → Result Raised (List (Text × Json)) → Result PutRefusal (List (Text × Json))
  read_back user (ok out) = ok out
  read_back user (refused e) = refused (raised e)

  abbrev pub put_answer :
      ℕ → List (Row V) × Option Raised → List (Row V) × Result PutRefusal (List (Text × Json))
  put_answer user (rows, some e) = (rows, refused (raised e))
  put_answer user (rows, none) = (rows, read_back user (get_all py loads rows user))

  abbrev pub put_known :
      ℕ
      → List (Text × Json)
      → List (Row V)
      → List Text
      → List (Row V) × Result PutRefusal (List (Text × Json))
  put_known user updates rows [] = put_answer user (write_all user updates rows)
  put_known user updates rows (k ∷ ks) = (rows, refused (unknown_settings (k ∷ ks)))

  -- `put`: the table, and the settings that are returned or the reason that there are none.
  unfoldable pub put_settings :
      ℕ → List (Text × Json) → List (Row V) → List (Row V) × Result PutRefusal (List (Text × Json))
  unfolding write_all
  put_settings user updates rows = put_known user updates rows (unknown updates)

-- `v.get("group", "Other")`
abbrev pub group_or : Option String → String
group_or none = "Other"
group_or (some g) = g

-- `schema`: the key and the group of each setting, and what it is.
unfoldable pub schema : List (Text × String × SettingSpec)
unfolding setting_specs
schema = map (λ (s : SettingSpec). (s.key, group_or s.group, s)) setting_specs
