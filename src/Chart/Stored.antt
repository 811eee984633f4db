-- ===== src/Chart/Stored.antt =====
-- The table chart_objects: `get`, `put` and `list_keys` of code/backend/chartobjects.py. A document is
-- stored as what `json.dumps` writes, of any type, which `json.loads` reads or refuses with a
-- ValueError; `updated` is the time of the write.
use grindstone.Prelude.{
  ℕ, Bool, ◌&&◌, not, Option, none, some, List, [], ◌∷◌, map, keep, ltb, ◌==◌, nat_eq, text_eq,
  Text, codes, if◌then◌else◌, Result, ok, refused, ◌>>=◌, require,
}
use grindstone.Json.{Json, object, value_of, equals_nat, text_within}
use grindstone.Chart.Objects.{max_chart_key, ChartDoc, empty_doc}
use grindstone.Chart.Read.{ChartFault, overflow, bad_id, Python}
use grindstone.Chart.Document.{validate_chart, is_empty_chart}

abbrev pub chart_version : ℕ
chart_version = 1

pub record ChartRow (V : Type 0) : Type 0 where
  pub user : ℕ
  pub key : Text
  pub doc : V
  pub updated : ℕ

pub record ChartCodec (V : Type 0) : Type 0 where
  pub dumps : ChartDoc → V
  pub loads : V → Option Json
  pub size : V → ℕ

-- What `get` lets through: `stored.get` of a value that is no dict, and an OverflowError.
pub data ChartCrash : Type 0 where
  attribute_error overflow_error : ChartCrash

module _ {V : Type 0} where
  abbrev pub is_chart : ℕ → Text → ChartRow V → Bool
  is_chart user key r = (r.user == user) && (r.key == key)

  abbrev pub find_chart : ℕ → Text → List (ChartRow V) → Option V
  find_chart user key [] = none
  find_chart user key (r ∷ rs) = if is_chart user key r then some r.doc else find_chart user key rs

  -- `DELETE FROM chart_objects WHERE user_id=? AND key=?`
  abbrev pub delete_chart : ℕ → Text → List (ChartRow V) → List (ChartRow V)
  delete_chart user key rs = keep (λ r. not (is_chart user key r)) rs

  -- `INSERT INTO chart_objects ... ON CONFLICT(user_id, key) DO UPDATE`
  abbrev pub store_chart : ℕ → Text → V → ℕ → List (ChartRow V) → List (ChartRow V)
  store_chart user key v now [] = record { user = user; key = key; doc = v; updated = now } ∷ []
  store_chart user key v now (r ∷ rs) =
      if is_chart user key r
      then record r { doc = v; updated = now } ∷ rs
      else r ∷ store_chart user key v now rs

  -- `ORDER BY updated DESC`
  abbrev pub insert_chart : ChartRow V → List (ChartRow V) → List (ChartRow V)
  insert_chart r [] = r ∷ []
  insert_chart r (s ∷ ss) = if ltb r.updated s.updated then s ∷ insert_chart r ss else r ∷ s ∷ ss

  abbrev pub by_updated : List (ChartRow V) → List (ChartRow V)
  by_updated [] = []
  by_updated (r ∷ rs) = insert_chart r (by_updated rs)

  -- The keys of `list_keys`, in its order.
  unfoldable pub listed_keys : ℕ → List (ChartRow V) → List Text
  listed_keys user rs = map (λ (r : ChartRow V). r.key) (by_updated (keep (λ r. r.user == user) rs))

-- `clean_key`
abbrev pub chart_key : Json → Result ChartFault Text
chart_key j = require (text_within 1 max_chart_key j) bad_id

module _ {V : Type 0} (py : Python) (codec : ChartCodec V) where
  abbrev pub size_of : ChartDoc → ℕ
  size_of d = codec.size (codec.dumps d)

  -- `except (ValueError, TypeError): return empty_doc()`
  abbrev pub or_blank : Result ChartFault ChartDoc → Result ChartCrash ChartDoc
  or_blank (ok d) = ok d
  or_blank (refused overflow) = refused overflow_error
  or_blank (refused why) = ok empty_doc

  abbrev pub read_chart : Option Json → Result ChartCrash ChartDoc
  read_chart none = ok empty_doc
  read_chart (some (object f)) =
      if equals_nat chart_version (value_of f (codes "version"))
      then or_blank (validate_chart py size_of (object f))
      else ok empty_doc
  read_chart (some _) = refused attribute_error

  abbrev pub read_found : Option V → Result ChartCrash ChartDoc
  read_found none = ok empty_doc
  read_found (some v) = read_chart (codec.loads v)

  -- `get`, of a key that `clean_key` accepts.
  unfoldable pub get_chart : List (ChartRow V) → ℕ → Text → Result ChartCrash ChartDoc
  get_chart rs user key = read_found (find_chart user key rs)

  -- The table after the document was validated.
  unfoldable pub put_clean : ℕ → List (ChartRow V) → ℕ → Text → ChartDoc → List (ChartRow V)
  put_clean now rs user key d =
      if is_empty_chart d
      then delete_chart user key rs
      else store_chart user key (codec.dumps d) now rs

  -- `put`
  unfoldable pub put_chart :
      ℕ → List (ChartRow V) → ℕ → Json → Json → Result ChartFault (List (ChartRow V) × ChartDoc)
  unfolding put_clean
  put_chart now rs user key j = do
    k ← chart_key key
    clean ← validate_chart py size_of j
    ok (put_clean now rs user k clean, clean)
