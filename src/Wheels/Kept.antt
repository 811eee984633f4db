-- ===== src/Wheels/Kept.antt =====
-- What `get` and `put` of code/backend/wheels.py keep of a document.
use grindstone.Prelude.{
  ℕ, ◌≡◌, refl, true, Option, none, some, List, Text, codes, text_eq, nat_eq, Result, ok, refused,
  Bool-cases, inl, inr, text_beq, contains, bind-eq-ok, Ensures, Ensures-ok, gives, fails,
}
use grindstone.Unicode.{Unicode}
use grindstone.Json.{Json, object, value_of, equals_nat}
use grindstone.UserSettings.{Row, select_value, upsert_value, select_value-upsert_value_self}
use grindstone.Wheels.Vocabulary.{doc_key, doc_version, builtin_ids, is_builtin, is_dynamic_kind}
use grindstone.Wheels.Document.{Doc, default_doc, doc_json}
use grindstone.Wheels.Segments.{WheelFault, is_wheel_id}
use grindstone.Wheels.Validate.{validate}
use grindstone.Wheels.Whole.{is_whole}
use grindstone.Wheels.Sound.{validate-is_whole, Ensures-validate}
use grindstone.Wheels.RoundTrip.{are_settled, validate-doc_json}
use grindstone.Wheels.Stored.{Codec, or_default, read_document, read_row, get_doc, put_doc}

-- The built-in ids are identifiers of Python, with `_` for `-`.
abbrev pub KnowsBuiltins : Unicode → Type 0
KnowsBuiltins u = (t : Text) → contains builtin_ids t ≡ true → is_wheel_id u t ≡ true

default_is_whole : (u : Unicode) → KnowsBuiltins u → is_whole u default_doc ≡ true
unfolding text_beq is_builtin is_dynamic_kind
default_is_whole u h =
    rw
      (
        h (codes "main") refl,
        h (codes "ai") refl,
        h (codes "tabs") refl,
        h (codes "favorites") refl,
        h (codes "chart") refl,
        h (codes "chart-add") refl,
        h (codes "chart-ind") refl,
        h (codes "chart-tickers") refl,
        h (codes "chart-draw") refl,
        h (codes "chart-measure") refl,
        h (codes "chart-tf") refl,
      )
      refl

module _ {V : Type 0} (u : Unicode) (codec : Codec V) where
  read_default :
      (d : Doc)
      → is_whole u d ≡ true
      → are_settled u d ≡ true
      → read_document u codec (some (doc_json d)) ≡ ok d
  unfolding text_beq
  read_default d h k = rw (validate-doc_json u d h k) refl

  -- What `put` leaves in the table.
  put_doc_lem :
      (rows rows' : List (Row V)) (user : ℕ) (j : Json) (d : Doc)
      → put_doc u codec rows user j ≡ ok (rows', d)
      → (validate u j ≡ ok d) × (rows' ≡ upsert_value user doc_key (codec.dumps (doc_json d)) rows)
  unfolding put_doc
  put_doc_lem rows rows' user j d e =
      let (clean, valid, rest) =
        bind-eq-ok (validate u j)
          (λ clean. ok (upsert_value user doc_key (codec.dumps (doc_json clean)) rows, clean)) e in
      (cc rest, cc rest)

  -- After `put`, `get` returns the document that `put` returned: for the same user, when `loads` reads
  -- back what `dumps` wrote and the tickers of the document are settled.
  pub get_doc-put_doc :
      (rows rows' : List (Row V)) (user : ℕ) (j : Json) (d : Doc)
      → ((j : Json) → codec.loads (codec.dumps j) ≡ some j)
      → put_doc u codec rows user j ≡ ok (rows', d)
      → are_settled u d ≡ true
      → get_doc u codec rows' user ≡ ok d
  unfolding get_doc
  get_doc-put_doc rows rows' user j d back stored settled =
      let (valid, written) = put_doc_lem rows rows' user j d stored in
      rw
        (
          written,
          select_value-upsert_value_self user doc_key (codec.dumps (doc_json d)) rows,
          back (doc_json d),
        )
        (read_default d (validate-is_whole u j d valid) settled)

  or_default-is_whole :
      (r : Result WheelFault Doc)
      → KnowsBuiltins u
      → Ensures (is_whole u) r
      → is_whole u (or_default u codec r) ≡ true
  or_default-is_whole (ok d) h e = Ensures-ok e refl
  or_default-is_whole (refused why) h e = default_is_whole u h

  read_document_lem :
      (o : Option Json) → KnowsBuiltins u → Ensures (is_whole u) (read_document u codec o)
  read_document_lem none h = gives (default_is_whole u h)
  read_document_lem (some (object f)) h =
      elim (Bool-cases (equals_nat doc_version (value_of f (codes "version")))) [
        | inl current ↦
            rw current (
              gives (or_default-is_whole (validate u (object f)) h (Ensures-validate u (object f))))
        | inr old ↦ rw old (gives (default_is_whole u h))
      ]
  read_document_lem (some _) h = fails

  read_row_lem : (o : Option V) → KnowsBuiltins u → Ensures (is_whole u) (read_row u codec o)
  read_row_lem none h = gives (default_is_whole u h)
  read_row_lem (some v) h = read_document_lem (codec.loads v) h

  -- Whatever the table holds for a user, a document that `get` returns is whole, when the built-in ids
  -- are identifiers: it is never a mixture of an old document and a new one.
  pub get_doc-is_whole :
      (rows : List (Row V)) (user : ℕ) (d : Doc)
      → KnowsBuiltins u
      → get_doc u codec rows user ≡ ok d
      → is_whole u d ≡ true
  unfolding get_doc
  get_doc-is_whole rows user d h e = Ensures-ok (read_row_lem (select_value user doc_key rows) h) e
