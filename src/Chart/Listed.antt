-- ===== src/Chart/Listed.antt =====
-- Which charts are listed, and what is read of one: `list_keys`, `put` and `get` of
-- code/backend/chartobjects.py.
use grindstone.Prelude.{
  ℕ, ◌≡◌, refl, Bool, true, false, ◌&&◌, ◌||◌, not, Option, none, some, List, [], ◌∷◌, map, keep,
  any, ◌==◌, nat_eq, text_eq, Text, codes, if◌then◌else◌, Result, ok, refused, contains,
  contains-map, arith, Bool-cases, inl, inr, Ensures, gives, fails, Ensures-ok, ◌∙◌, leb,
}
use grindstone.Json.{Json, object, value_of, equals_nat}
use grindstone.Chart.Objects.{ChartDoc, max_doc_bytes}
use grindstone.Chart.Read.{ChartFault, overflow, Python}
use grindstone.Chart.Document.{validate_chart, is_empty_chart}
use grindstone.Chart.Whole.{is_sound_chart, validate_chart-is_sound}
use grindstone.Chart.Stored.{
  chart_version, ChartRow, ChartCodec, is_chart, find_chart, delete_chart, store_chart,
  insert_chart, by_updated, listed_keys, size_of, or_blank, read_chart, read_found, get_chart,
  put_clean,
}

module _ {V : Type 0} where
  abbrev keys : List (ChartRow V) → List Text
  keys rs = map (λ (r : ChartRow V). r.key) rs

  contains-insert_chart :
      (r : ChartRow V) (rs : List (ChartRow V)) (k : Text)
      → contains (keys (insert_chart r rs)) k ≡ ((r.key == k) || contains (keys rs) k)
  contains-insert_chart r [] k = refl
  contains-insert_chart r (s ∷ rs) k = ground (arith, contains-insert_chart r rs k)

  contains-by_updated :
      (rs : List (ChartRow V)) (k : Text) → contains (keys (by_updated rs)) k ≡ contains (keys rs) k
  contains-by_updated [] k = refl
  contains-by_updated (r ∷ rs) k =
      ground (arith, contains-insert_chart r (by_updated rs) k, contains-by_updated rs k)

  contains-listed_keys :
      (user : ℕ) (rs : List (ChartRow V)) (k : Text)
      → contains (listed_keys user rs) k ≡ any (is_chart user k) rs
  unfolding listed_keys
  contains-listed_keys user rs k =
      contains-by_updated (keep (λ r. r.user == user) rs) k
      ∙ contains-map (λ (r : ChartRow V). r.key) (λ r. r.user == user) rs k

  any-delete_chart :
      (user user' : ℕ) (key key' : Text) (rs : List (ChartRow V))
      → any (is_chart user' key') (delete_chart user key rs)
        ≡ (if (user == user') && (key == key') then false else any (is_chart user' key') rs)
  any-delete_chart user user' key key' [] = ground arith
  any-delete_chart user user' key key' (r ∷ rs) = ground (
    arith,
    any-delete_chart user user' key key' rs,
    text_eq.same_iff r.key key,
    text_eq.same_iff r.key key',
    text_eq.same_iff key key',
  )

  any-store_chart :
      (user user' : ℕ) (key key' : Text) (v : V) (now : ℕ) (rs : List (ChartRow V))
      → any (is_chart user' key') (store_chart user key v now rs)
        ≡ (if (user == user') && (key == key') then true else any (is_chart user' key') rs)
  any-store_chart user user' key key' v now [] = ground arith
  any-store_chart user user' key key' v now (r ∷ rs) = ground (
    arith,
    any-store_chart user user' key key' v now rs,
    text_eq.same_iff r.key key,
    text_eq.same_iff r.key key',
    text_eq.same_iff key key',
    text_eq.same_iff key' key,
  )

first : (a b : Bool) → (a && b) ≡ true → a ≡ true
first a b h = ground arith

module _ {V : Type 0} (py : Python) (codec : ChartCodec V) where
  -- After a document was put, its chart is listed exactly if the document is not empty; and any other
  -- chart, of this user or another, is listed exactly if it was.
  pub listed_keys-put_clean :
      (now user user' : ℕ) (key key' : Text) (d : ChartDoc) (rs : List (ChartRow V))
      → contains (listed_keys user' (put_clean py codec now rs user key d)) key' ≡ (
          if (user == user') && (key == key')
          then not (is_empty_chart d)
          else contains (listed_keys user' rs) key')
  unfolding put_clean
  listed_keys-put_clean now user user' key key' d rs = elim (Bool-cases (is_empty_chart d)) [
    | inl empty ↦
        rw
          (
            empty,
            contains-listed_keys user' (delete_chart user key rs) key',
            contains-listed_keys user' rs key',
          )
          (any-delete_chart user user' key key' rs)
    | inr full ↦
        rw
          (
            full,
            contains-listed_keys user' (store_chart user key (codec.dumps d) now rs) key',
            contains-listed_keys user' rs key',
          )
          (any-store_chart user user' key key' (codec.dumps d) now rs)
  ]

  or_blank_lem :
      (r : Result ChartFault ChartDoc)
      → ((d : ChartDoc) → r ≡ ok d → is_sound_chart d ≡ true)
      → Ensures is_sound_chart (or_blank py codec r)
  or_blank_lem (ok d) h = gives (h d refl)
  or_blank_lem (refused overflow) h = fails
  or_blank_lem (refused _) h = gives refl

  validated :
      (j : Json) (d : ChartDoc)
      → validate_chart py (size_of py codec) j ≡ ok d
      → is_sound_chart d ≡ true
  validated j d e =
      first (is_sound_chart d) (leb (size_of py codec d) max_doc_bytes)
        (validate_chart-is_sound py (size_of py codec) j d e)

  read_chart_lem : (o : Option Json) → Ensures is_sound_chart (read_chart py codec o)
  read_chart_lem none = gives refl
  read_chart_lem (some (object f)) =
      elim (Bool-cases (equals_nat chart_version (value_of f (codes "version")))) [
        | inl current ↦
            rw current (
              or_blank_lem (validate_chart py (size_of py codec) (object f)) (validated (object f)))
        | inr old ↦ rw old (gives refl)
      ]
  read_chart_lem (some _) = fails

  read_found_lem : (o : Option V) → Ensures is_sound_chart (read_found py codec o)
  read_found_lem none = gives refl
  read_found_lem (some v) = read_chart_lem (codec.loads v)

  -- Whatever the table holds, a document that `get` returns is sound.
  pub get_chart-is_sound :
      (rs : List (ChartRow V)) (user : ℕ) (key : Text) (d : ChartDoc)
      → get_chart py codec rs user key ≡ ok d
      → is_sound_chart d ≡ true
  unfolding get_chart
  get_chart-is_sound rs user key d e = Ensures-ok (read_found_lem (find_chart user key rs)) e
