-- ===== src/Notepad/Store.antt =====
-- The table of code/backend/notepad.py: `list_entries`, `add`, `get`, `edit` and `remove`.
use grindstone.Prelude.{
  ℕ, Bool, false, ◌&&◌, not, Option, none, some, List, [], ◌∷◌, ◌++◌, map, keep, any, take, length,
  leb, ◌==◌, nat_eq, text_eq, Text, codes, is_less, if◌then◌else◌, Result, ok, refused, ◌>>=◌, ◌>>◌,
  check, require,
}
use grindstone.Json.{Json, null, text, object, Fields, end, field}
use grindstone.Notepad.Payload.{max_entries, max_pad_label, PadFault, validate_payload}

pub record PadRow : Type 0 where
  pub user : ℕ
  pub id : Text
  pub payload : Text
  pub label : Text
  pub added_at : Text

-- A row with its payload read.
pub record PadEntry : Type 0 where
  pub id : Text
  pub payload : Json
  pub label : Text
  pub added_at : Text

-- Why a change is refused: what NotepadError says, the primary key, or an exception of another kind.
pub data StoreFault : Type 0 where
  invalid : PadFault → StoreFault
  full no_entry other_kind id_taken raised : StoreFault

abbrev pub is_entry : ℕ → Text → PadRow → Bool
is_entry user id r = (r.user == user) && (r.id == id)

abbrev pub is_owned : ℕ → PadRow → Bool
is_owned user r = r.user == user

abbrev pub new_row : ℕ → Text → Text → Text → Text → PadRow
new_row user id stamp payload label = record {
  user = user;
  id = id;
  payload = payload;
  label = label;
  added_at = stamp;
}

abbrev pub entry_from : PadRow → Option Json → Option PadEntry
entry_from r none = none
entry_from r (some j) =
    some (record { id = r.id; payload = j; label = r.label; added_at = r.added_at })

-- `ORDER BY added_at DESC`
abbrev pub insert_latest : PadRow → List PadRow → List PadRow
insert_latest r [] = r ∷ []
insert_latest r (s ∷ ss) =
    if is_less r.added_at s.added_at then s ∷ insert_latest r ss else r ∷ s ∷ ss

abbrev pub latest : List PadRow → List PadRow
latest [] = []
latest (r ∷ rs) = insert_latest r (latest rs)

abbrev pub some_entry : Option PadEntry → List PadEntry
some_entry none = []
some_entry (some e) = e ∷ []

abbrev pub field_at : Fields → Text → Option Json
field_at end key = none
field_at (field k j f) key = if k == key then some j else field_at f key

-- `j[key]`, which raises where there is none.
abbrev pub item_of : Json → Text → Option Json
item_of (object f) key = field_at f key
item_of _ key = none

abbrev pub payload_kind : Json → Option Json
payload_kind j = item_of j (codes "kind")

-- The JSON library.
pub record PadJson : Type 0 where
  pub dumps : Json → Text
  pub loads : Text → Option Json

module _ (py : PadJson) where
  -- The entries of the rows whose payload can be read.
  abbrev pub readable : List PadRow → List PadEntry
  readable [] = []
  readable (r ∷ rs) = some_entry (entry_from r (py.loads r.payload)) ++ readable rs

  unfoldable pub list_entries : ℕ → List PadRow → List PadEntry
  list_entries user rows = readable (latest (keep (is_owned user) rows))

  -- `get`
  unfoldable pub get_entry : ℕ → Text → List PadRow → Option PadEntry
  get_entry user id [] = none
  get_entry user id (r ∷ rs) =
      if is_entry user id r then entry_from r (py.loads r.payload) else get_entry user id rs

  abbrev pub valid_or : {A : Type 0} → Result PadFault A → Result StoreFault A
  valid_or (ok a) = ok a
  valid_or (refused e) = refused (invalid e)

  -- `add`, with the id that uuid4 gives and the text of the moment.
  unfoldable pub add_entry :
      ℕ → Text → Text → Json → Text → List PadRow → Result StoreFault (List PadRow × PadEntry)
  add_entry user id stamp payload label rows = do
    clean ← valid_or (validate_payload py.dumps payload)
    check (not (leb max_entries (length (keep (is_owned user) rows)))) full
    check (not (any (is_entry user id) rows)) id_taken
    ok (
      rows ++ new_row user id stamp (py.dumps clean) (take max_pad_label label) ∷ [],
      record { id = id; payload = clean; label = take max_pad_label label; added_at = stamp },
    )

  -- `new_payload["kind"] == existing["payload"]["kind"]`
  abbrev pub same_text : Json → Json → Bool
  same_text (text s) (text t) = s == t
  same_text _ _ = false

  abbrev pub same_kind : Option Json → Option Json → Result StoreFault (Unit {0})
  same_kind (some k) (some l) = check (same_text k l) other_kind
  same_kind _ _ = refused raised

  -- The payload after an edit; `null` stands for an edit without one.
  unfoldable pub edited_payload : Json → Json → Result StoreFault Json
  edited_payload existing null = ok existing
  edited_payload existing payload = do
    clean ← valid_or (validate_payload py.dumps payload)
    same_kind (payload_kind clean) (payload_kind existing)
    ok clean

  abbrev pub edited_label : Text → Option Text → Text
  edited_label existing none = existing
  edited_label existing (some label) = take max_pad_label label

  -- `UPDATE notepad SET payload=?, label=? WHERE user_id=? AND id=?`
  abbrev pub update_rows : ℕ → Text → Text → Text → List PadRow → List PadRow
  update_rows user id payload label rows =
      map (λ r. if is_entry user id r then record r { payload = payload; label = label } else r)
        rows

  -- `edit`
  unfoldable pub edit_entry :
      ℕ → Text → Json → Option Text → List PadRow → Result StoreFault (List PadRow × PadEntry)
  unfolding edited_payload get_entry
  edit_entry user id payload label rows = do
    existing ← require (get_entry user id rows) no_entry
    new ← edited_payload existing.payload payload
    ok (
      update_rows user id (py.dumps new) (edited_label existing.label label) rows,
      record existing { payload = new; label = edited_label existing.label label },
    )

-- `remove`
unfoldable pub remove_entry : ℕ → Text → List PadRow → List PadRow × Bool
remove_entry user id rows = (keep (λ r. not (is_entry user id r)) rows, any (is_entry user id) rows)
