-- ===== src/Wheels/Stored.antt =====
-- `get` and `put` of code/backend/wheels.py: a user's document in the table of settings. The texts that
-- `json.dumps` writes are of any type, and `json.loads` reads them or raises a ValueError.
use grindstone.Prelude.{
  ℕ, Option, none, some, List, codes, text_eq, if◌then◌else◌, Result, ok, refused, ◌>>=◌,
}
use grindstone.Unicode.{Unicode}
use grindstone.Json.{Json, object, value_of, equals_nat}
use grindstone.UserSettings.{Row, select_value, upsert_value}
use grindstone.Wheels.Vocabulary.{doc_key, doc_version}
use grindstone.Wheels.Document.{Doc, default_doc, doc_json}
use grindstone.Wheels.Segments.{WheelFault}
use grindstone.Wheels.Validate.{validate}

-- `stored.get` of a value that is not a dict.
pub data Crash : Type 0 where
  attribute_error : Crash

pub record Codec (V : Type 0) : Type 0 where
  pub dumps : Json → V
  pub loads : V → Option Json

module _ {V : Type 0} (u : Unicode) (codec : Codec V) where
  -- `except (ValueError, TypeError): return default_doc()`
  abbrev pub or_default : Result WheelFault Doc → Doc
  or_default (ok d) = d
  or_default (refused why) = default_doc

  abbrev pub read_document : Option Json → Result Crash Doc
  read_document none = ok default_doc
  read_document (some (object f)) =
      if equals_nat doc_version (value_of f (codes "version"))
      then ok (or_default (validate u (object f)))
      else ok default_doc
  read_document (some _) = refused attribute_error

  abbrev pub read_row : Option V → Result Crash Doc
  read_row none = ok default_doc
  read_row (some v) = read_document (codec.loads v)

  -- `get`
  unfoldable pub get_doc : List (Row V) → ℕ → Result Crash Doc
  get_doc rows user = read_row (select_value user doc_key rows)

  -- `put`: the table, and the document that is returned.
  unfoldable pub put_doc : List (Row V) → ℕ → Json → Result WheelFault (List (Row V) × Doc)
  put_doc rows user j = do
    clean ← validate u j
    ok (upsert_value user doc_key (codec.dumps (doc_json clean)) rows, clean)
