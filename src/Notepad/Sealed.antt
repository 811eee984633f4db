-- ===== src/Notepad/Sealed.antt =====
-- No credential enters the table of code/backend/notepad.py, and it stays within its caps.
use grindstone.Prelude.{
  ℕ, ◌+◌, ◌≤◌, ◌≡◌, refl, ap, ◌∙◌, Bool, true, false, ◌&&◌, not, Option, some, List, [], ◌∷◌, ◌++◌,
  keep, codes, take, length, leb, All, nat_eq, text_eq, Text, if◌then◌else◌, Result, ok, require,
  bind-eq-ok, arith, Bool-cases, inl, inr,
}
use grindstone.Json.{Json, value_of, equals_nat, one_of}
use grindstone.Notepad.Secret.{is_secret}
use grindstone.Notepad.Payload.{
  max_entries, max_entry_bytes, max_pad_label, PadFault, fields_of, not_payload, bad_version,
  unknown_kind, note_kinds, payload_of, too_large, credential, check_blob, validate_payload,
  clean_data, clean_provenance,
}
use grindstone.Notepad.Store.{
  PadRow, PadEntry, PadJson, is_entry, is_owned, new_row, get_entry, entry_from, add_entry,
  edited_label, update_rows, edit_entry, remove_entry,
}
use grindstone.Notepad.Accepted.{
  check-eq-ok, only_true, AddedEntry, add_entry-AddedEntry, EditedEntry, edit_entry-EditedEntry,
  IsEdit, kept, replaced,
}
use grindstone.Notepad.Pad.{PadCall, adding, editing, removing}
use grindstone.Notepad.Granted.{Result-cases}
use grindstone.Notepad.Refines.{call, call_all}

abbrev pub is_safe : Text → Bool
is_safe blob = leb (length blob) max_entry_bytes && not (is_secret blob)

check_blob-is_safe : (blob : Text) → check_blob blob ≡ ok tt → is_safe blob ≡ true
unfolding check_blob
check_blob-is_safe blob h =
    let (small, h1) = check-eq-ok (leb (length blob) max_entry_bytes) too_large _ tt h in
    let clear = only_true (not (is_secret blob)) credential h1 in rw (small, clear) refl

same_json : (j k : Json) → ◌≡◌ {A = Result PadFault Json} (ok j) (ok k) → j ≡ k
same_json j k h = cc

pub validate_payload-is_safe :
    (dumps : Json → Text) (payload clean : Json)
    → validate_payload dumps payload ≡ ok clean
    → is_safe (dumps clean) ≡ true
unfolding validate_payload
validate_payload-is_safe dumps payload clean h =
    let (p, e1, h1) = bind-eq-ok (require (fields_of payload) not_payload) _ h in
    let (e2, h2) = check-eq-ok (equals_nat 1 (value_of p (codes "v"))) bad_version _ clean h1 in
    let (kind, e3, h3) =
      bind-eq-ok (require (one_of note_kinds (value_of p (codes "kind"))) unknown_kind) _ h2 in
    let (d, e4, h4) = bind-eq-ok (clean_data kind (value_of p (codes "data"))) _ h3 in
    let (provenance, e5, h5) =
      bind-eq-ok (clean_provenance (value_of p (codes "provenance"))) _ h4 in
    let (unit, e6, h6) = bind-eq-ok (check_blob (dumps (payload_of kind d provenance))) _ h5 in
    let same : payload_of kind d provenance ≡ clean = same_json _ _ h6 in
    rw (← same) (check_blob-is_safe (dumps (payload_of kind d provenance)) e6)

module _ (py : PadJson) (reads_back : (j : Json) → py.loads (py.dumps j) ≡ some j) where
  -- The payload is the text of a value, small enough, and has no credential.
  abbrev pub IsSealed : PadRow → Type 0
  IsSealed r = (j : Json) × (r.payload ≡ py.dumps j) × (is_safe (py.dumps j) ≡ true)

  -- No user has more entries than the cap, and every row is sealed.
  pub record IsPad (rows : List PadRow) : Type 0 where
    pub few : (user : ℕ) → length (keep (is_owned user) rows) ≤ max_entries
    pub sealed : All IsSealed rows

  All-append :
      (rows : List PadRow) (r : PadRow)
      → All IsSealed rows
      → IsSealed r
      → All IsSealed (rows ++ r ∷ [])
  All-append [] r h s = (s, tt)
  All-append (q ∷ rows) r h s = (h.0, All-append rows r h.1 s)

  All-keep :
      (p : PadRow → Bool) (rows : List PadRow) → All IsSealed rows → All IsSealed (keep p rows)
  All-keep p [] h = tt
  All-keep p (r ∷ rows) h = elim (Bool-cases (p r)) [
    | inl stays ↦ rw stays (h.0, All-keep p rows h.1)
    | inr goes ↦ rw goes (All-keep p rows h.1)
  ]

  All-update_rows :
      (user : ℕ) (id label : Text) (j : Json) (rows : List PadRow)
      → is_safe (py.dumps j) ≡ true
      → All IsSealed rows
      → All IsSealed (update_rows py user id (py.dumps j) label rows)
  All-update_rows user id label j [] safe h = tt
  All-update_rows user id label j (r ∷ rows) safe h = elim (Bool-cases (is_entry user id r)) [
    | inl is ↦ rw is ((j, refl, safe), All-update_rows user id label j rows safe h.1)
    | inr other ↦ rw other (h.0, All-update_rows user id label j rows safe h.1)
  ]

  entry-is_safe :
      (r : PadRow) (e : PadEntry)
      → IsSealed r
      → entry_from r (py.loads r.payload) ≡ some e
      → is_safe (py.dumps e.payload) ≡ true
  entry-is_safe r e (j, is, safe) h =
      let read : py.loads r.payload ≡ some j = ap py.loads is ∙ reads_back j in
      let same : j ≡ e.payload = entry_payload r e j (rw read at h) in rw (← same) safe
    where
      entry_payload :
          (r : PadRow) (e : PadEntry) (j : Json) → entry_from r (some j) ≡ some e → j ≡ e.payload
      entry_payload r e j h = cc h

  get_entry-is_safe :
      (user : ℕ) (id : Text) (rows : List PadRow) (e : PadEntry)
      → All IsSealed rows
      → get_entry py user id rows ≡ some e
      → is_safe (py.dumps e.payload) ≡ true
  unfolding get_entry
  get_entry-is_safe user id [] e h found = cc
  get_entry-is_safe user id (r ∷ rows) e h found = elim (Bool-cases (is_entry user id r)) [
    | inl is ↦ entry-is_safe r e h.0 (rw is at found)
    | inr other ↦ get_entry-is_safe user id rows e h.1 (rw other at found)
  ]

  owned-append :
      (user : ℕ) (rows : List PadRow) (r : PadRow)
      → length (keep (is_owned user) (rows ++ r ∷ []))
        ≡ length (keep (is_owned user) rows) + (if is_owned user r then 1 else 0)
  owned-append user [] r = ground arith
  owned-append user (q ∷ rows) r = ground (arith, owned-append user rows r)

  owned-update_rows :
      (user user' : ℕ) (id payload label : Text) (rows : List PadRow)
      → length (keep (is_owned user') (update_rows py user id payload label rows))
        ≡ length (keep (is_owned user') rows)
  owned-update_rows user user' id payload label [] = refl
  owned-update_rows user user' id payload label (r ∷ rows) =
      ground (arith, owned-update_rows user user' id payload label rows)

  owned-keep :
      (user : ℕ) (p : PadRow → Bool) (rows : List PadRow)
      → length (keep (is_owned user) (keep p rows)) ≤ length (keep (is_owned user) rows)
  owned-keep user p [] = omega arith
  owned-keep user p (r ∷ rows) = ground (arith, owned-keep user p rows)

  one_more :
      (user user' : ℕ) (rows : List PadRow) (r : PadRow)
      → r.user ≡ user
      → ((v : ℕ) → length (keep (is_owned v) rows) ≤ max_entries)
      → leb max_entries (length (keep (is_owned user) rows)) ≡ false
      → length (keep (is_owned user') (rows ++ r ∷ [])) ≤ max_entries
  one_more user user' rows r is few room = ground (
    arith,
    owned-append user' rows r,
    few user,
    few user',
    is,
    ap (λ v. length (keep (is_owned v) rows)),
  )

  Added-IsPad :
      (user : ℕ) (id stamp : Text) (payload : Json) (label : Text) (rows rows' : List PadRow)
      → AddedEntry py user id stamp payload label rows rows'
      → IsPad rows
      → IsPad rows'
  Added-IsPad user id stamp payload label rows rows' a pad =
      let r = new_row user id stamp (py.dumps a.clean) (take max_pad_label label) in
      rw (← a.same) (record {
        few = λ user'. one_more user user' rows r refl pad.few a.room;
        sealed =
            All-append rows r pad.sealed
              (a.clean, refl, validate_payload-is_safe py.dumps payload a.clean a.valid);
      })

  edit-is_safe :
      (payload old new : Json)
      → IsEdit py payload old new
      → is_safe (py.dumps old) ≡ true
      → is_safe (py.dumps new) ≡ true
  edit-is_safe payload old new (kept none_given same) safe = rw (← same) safe
  edit-is_safe payload old new (replaced valid kinds) safe =
      validate_payload-is_safe py.dumps payload new valid

  Edited-IsPad :
      (user : ℕ) (id : Text) (payload : Json) (label : Option Text) (rows rows' : List PadRow)
      → EditedEntry py user id payload label rows rows'
      → IsPad rows
      → IsPad rows'
  Edited-IsPad user id payload label rows rows' d pad =
      let safe =
        edit-is_safe payload d.existing.payload d.new d.is_edit
          (get_entry-is_safe user id rows d.existing pad.sealed d.there) in
      rw (← d.same) (record {
        few = λ user'.
            rw
              (owned-update_rows user user' id (py.dumps d.new)
                (edited_label py d.existing.label label) rows)
              (pad.few user');
        sealed =
            All-update_rows user id (edited_label py d.existing.label label) d.new rows safe
              pad.sealed;
      })

  call-IsPad : (c : PadCall) (rows : List PadRow) → IsPad rows → IsPad (call py c rows)
  unfolding call remove_entry
  call-IsPad (adding user id stamp payload label) rows pad =
      elim (Result-cases (add_entry py user id stamp payload label rows)) [
        | inl (p, e) ↦ rw e (
            Added-IsPad user id stamp payload label rows p.0
              (add_entry-AddedEntry py user id stamp payload label rows p e) pad)
        | inr (f, e) ↦ rw e pad
      ]
  call-IsPad (editing user id payload label) rows pad =
      elim (Result-cases (edit_entry py user id payload label rows)) [
        | inl (p, e) ↦ rw e (
            Edited-IsPad user id payload label rows p.0
              (edit_entry-EditedEntry py user id payload label rows p e) pad)
        | inr (f, e) ↦ rw e pad
      ]
  call-IsPad (removing user id) rows pad = record {
    few = λ user'.
        omega (arith, owned-keep user' (λ r. not (is_entry user id r)) rows, pad.few user');
    sealed = All-keep (λ r. not (is_entry user id r)) rows pad.sealed;
  }

  calls_keep : (cs : List PadCall) (rows : List PadRow) → IsPad rows → IsPad (call_all py cs rows)
  unfolding call_all
  calls_keep [] rows pad = pad
  calls_keep (c ∷ cs) rows pad = calls_keep cs (call py c rows) (call-IsPad c rows pad)

  -- Whatever is called, from an empty table: no user has more than 32 entries, and the payload of every
  -- row is the text of a value, within the size limit and free of what looks like a credential. It is
  -- assumed that loads reads back what dumps wrote.
  pub calls-IsPad : (cs : List PadCall) → IsPad (call_all py cs [])
  calls-IsPad cs = calls_keep cs [] (record { few = λ user. omega arith; sealed = tt })
