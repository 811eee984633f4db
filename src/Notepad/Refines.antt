-- ===== src/Notepad/Refines.antt =====
-- The calls of code/backend/notepad.py on its table do what a notepad allows.
use grindstone.Prelude.{
  true, ℕ, ◌≡◌, refl, sym, ap, ◌∙◌, Option, some, List, [], ◌∷◌, take, nat_eq, text_eq, Text,
  Result, ok, refused, inl, inr, beq_refl,
}
use grindstone.Json.{Json}
use grindstone.Notepad.Payload.{max_pad_label}
use grindstone.Notepad.Store.{
  PadRow, PadEntry, StoreFault, PadJson, new_row, add_entry, edited_label, edit_entry, remove_entry,
}
use grindstone.Notepad.Accepted.{
  AddedEntry, add_entry-AddedEntry, EditedEntry, edit_entry-EditedEntry,
}
use grindstone.Notepad.Granted.{Result-cases, succeeds, may_succeed, granted}
use grindstone.Notepad.Pad.{
  PadCall, adding, editing, removing, Allowed, pad_of, viewed, pad_of-append, free_entry,
  pad_of-keep, pad_of-update_rows, found_entry,
}

abbrev pub rows_after : List PadRow → Result StoreFault (List PadRow × PadEntry) → List PadRow
rows_after rows (ok (rows', e)) = rows'
rows_after rows (refused e) = rows

-- The table after a call; a call that raises leaves it as it is.
unfoldable pub call : PadJson → PadCall → List PadRow → List PadRow
unfolding add_entry edit_entry remove_entry
call py (adding user id stamp payload label) rows =
    rows_after rows (add_entry py user id stamp payload label rows)
call py (editing user id payload label) rows =
    rows_after rows (edit_entry py user id payload label rows)
call py (removing user id) rows = (remove_entry user id rows).0

unfoldable pub call_all : PadJson → List PadCall → List PadRow → List PadRow
call_all py [] rows = rows
call_all py (c ∷ cs) rows = call_all py cs (call py c rows)

module _ (py : PadJson) (reads_back : (j : Json) → py.loads (py.dumps j) ≡ some j) where
  add_entry-Allowed :
      (user : ℕ) (id stamp : Text) (payload : Json) (label : Text) (rows rows' : List PadRow)
      → AddedEntry py user id stamp payload label rows rows'
      → Allowed py (adding user id stamp payload label) true (pad_of py rows) (pad_of py rows')
  unfolding Allowed
  add_entry-Allowed user id stamp payload label rows rows' a =
      let r = new_row user id stamp (py.dumps a.clean) (take max_pad_label label) in
      (
        a.clean,
        free_entry py user id rows a.free,
        a.valid,
        λ user' id'.
            ap (λ rs. pad_of py rs user' id') (sym a.same)
            ∙ pad_of-append py user user' id id' rows r a.free
                (rw (beq_refl user, beq_refl id) refl)
            ∙ rw (reads_back a.clean) refl,
      )

  edit_entry-Allowed :
      (user : ℕ) (id : Text) (payload : Json) (label : Option Text) (rows rows' : List PadRow)
      → EditedEntry py user id payload label rows rows'
      → Allowed py (editing user id payload label) true (pad_of py rows) (pad_of py rows')
  unfolding Allowed
  edit_entry-Allowed user id payload label rows rows' d =
      let label' = edited_label py d.existing.label label in
      (
        d.existing.payload,
        d.new,
        d.existing.label,
        ap (viewed py) d.there,
        d.is_edit,
        λ user' id'.
            ap (λ rs. pad_of py rs user' id') (sym d.same)
            ∙ pad_of-update_rows py user user' id id' (py.dumps d.new) label' rows
                (found_entry py user id rows d.existing d.there)
            ∙ rw (reads_back d.new) refl,
      )

  -- What a call that returns, or is refused, does to the abstract notepad.
  keeps_to :
      (c : PadCall) (rows : List PadRow)
      → Allowed py c (succeeds py c rows) (pad_of py rows) (pad_of py (call py c rows))
  unfolding call succeeds Allowed
  keeps_to (adding user id stamp payload label) rows =
      elim (Result-cases (add_entry py user id stamp payload label rows)) [
        | inl (p, e) ↦ rw e (
            add_entry-Allowed user id stamp payload label rows p.0
              (add_entry-AddedEntry py user id stamp payload label rows p e))
        | inr (f, e) ↦ rw e (λ u i. refl)
      ]
  keeps_to (editing user id payload label) rows =
      elim (Result-cases (edit_entry py user id payload label rows)) [
        | inl (p, e) ↦ rw e (
            edit_entry-Allowed user id payload label rows p.0
              (edit_entry-EditedEntry py user id payload label rows p e))
        | inr (f, e) ↦ rw e (λ u i. refl)
      ]
  keeps_to (removing user id) rows = λ user' id'. pad_of-keep py user user' id id' rows

  -- Each call refines the abstract notepad, for every table, when loads reads back what dumps wrote. An
  -- `add` returns exactly if its payload is valid, its user has fewer entries than the limit and its id is
  -- free, and then puts the cleaned payload, with the label cut, at its user's and its id's place. An `edit`
  -- returns exactly if the entry there can be read, and no payload is given or a valid one of the same kind,
  -- and then changes that entry to the cleaned payload, if one is given, and to the label cut, if one is
  -- given. A `remove` takes the entry there away. No other entry of any user changes, and a refused call
  -- changes nothing.
  pub call_refines :
      (c : PadCall) (rows : List PadRow)
      → (succeeds py c rows ≡ may_succeed py c rows)
        × Allowed py c (succeeds py c rows) (pad_of py rows) (pad_of py (call py c rows))
  call_refines c rows = (granted py c rows, keeps_to c rows)
