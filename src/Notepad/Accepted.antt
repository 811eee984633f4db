-- ===== src/Notepad/Accepted.antt =====
-- What is known of a call of code/backend/notepad.py that was not refused.
use grindstone.Prelude.{
  ℕ, ◌≡◌, refl, ap, Bool, true, false, not, Option, none, some, List, [], ◌∷◌, ◌++◌, keep, any,
  take, length, leb, text_eq, Text, Result, ok, refused, ◌>>=◌, ◌>>◌, check, require, bind-eq-ok,
  arith,
}
use grindstone.Json.{Json, null, text}
use grindstone.Notepad.Payload.{max_entries, max_pad_label, PadFault, validate_payload}
use grindstone.Notepad.Store.{
  PadRow, PadEntry, StoreFault, full, no_entry, other_kind, id_taken, PadJson, is_entry, is_owned,
  new_row, payload_kind, get_entry, valid_or, add_entry, same_text, same_kind, edited_payload,
  edited_label, update_rows, edit_entry,
}

pub check-eq-ok :
    {E A : Type 0} (b : Bool) (e : E) (m : Result E A) (a : A)
    → (check b e >> m) ≡ ok a
    → (b ≡ true) × (m ≡ ok a)
unfolding check ◌>>=◌
check-eq-ok true e m a h = (refl, h)
check-eq-ok false e m a h = cc

pub require-eq-ok :
    {E A : Type 0} (o : Option A) (e : E) (a : A)
    → ◌≡◌ {A = Result E A} (require o e) (ok a)
    → o ≡ some a
unfolding require
require-eq-ok none e a h = cc
require-eq-ok (some b) e a h = let same : b ≡ a = cc h in ap some same

pub only_true : {E : Type 0} (b : Bool) (e : E) → check b e ≡ ok tt → b ≡ true
unfolding check
only_true true e h = refl
only_true false e h = cc

module _ (py : PadJson) where
  validated : (r : Result PadFault Json) (clean : Json) → valid_or py r ≡ ok clean → r ≡ ok clean
  validated (ok j) clean h = let same : j ≡ clean = cc h in ap ok same
  validated (refused e) clean h = cc

  first_of :
      (p q : List PadRow × PadEntry)
      → ◌≡◌ {A = Result StoreFault (List PadRow × PadEntry)} (ok p) (ok q)
      → p.0 ≡ q.0
  first_of p q h = let same : p ≡ q = cc h in ap (λ (x : List PadRow × PadEntry). x.0) same

  -- An `add` that returns: the payload was valid, there was room, the id was free.
  pub record AddedEntry (user : ℕ) (id stamp : Text) (payload : Json) (label : Text)
      (rows rows' : List PadRow) : Type 0 where
    pub clean : Json
    pub valid : validate_payload py.dumps payload ≡ ok clean
    pub room : leb max_entries (length (keep (is_owned user) rows)) ≡ false
    pub free : any (is_entry user id) rows ≡ false
    pub same :
        rows ++ new_row user id stamp (py.dumps clean) (take max_pad_label label) ∷ [] ≡ rows'

  pub add_entry-AddedEntry :
      (user : ℕ) (id stamp : Text) (payload : Json) (label : Text) (rows : List PadRow)
      → (p : List PadRow × PadEntry) → add_entry py user id stamp payload label rows ≡ ok p
      → AddedEntry user id stamp payload label rows p.0
  unfolding add_entry
  add_entry-AddedEntry user id stamp payload label rows p h =
      let (clean, valid, h1) = bind-eq-ok (valid_or py (validate_payload py.dumps payload)) _ h in
      let (room, h2) =
        check-eq-ok (not (leb max_entries (length (keep (is_owned user) rows)))) full _ _ h1 in
      let (free, h3) = check-eq-ok (not (any (is_entry user id) rows)) id_taken _ _ h2 in
      record {
        clean = clean;
        valid = validated (validate_payload py.dumps payload) clean valid;
        room = ground (arith, room);
        free = ground (arith, free);
        same = first_of _ p h3;
      }

  -- An `edit` that returns: the entry was there, and the payload is the one it had, where none is given, or
  -- the one that is given, cleaned and of the same kind.
  pub data IsEdit (payload old new : Json) : Type 0 where
    kept : payload ≡ null → old ≡ new → IsEdit payload old new
    replaced :
        validate_payload py.dumps payload ≡ ok new
        → payload_kind new ≡ payload_kind old
        → IsEdit payload old new

  pub record EditedEntry (user : ℕ) (id : Text) (payload : Json) (label : Option Text)
      (rows rows' : List PadRow) : Type 0 where
    pub existing : PadEntry
    pub new : Json
    pub there : get_entry py user id rows ≡ some existing
    pub is_edit : IsEdit payload existing.payload new
    pub same :
        update_rows py user id (py.dumps new) (edited_label py existing.label label) rows ≡ rows'

  same_text-eq : (j k : Json) → same_text py j k ≡ true → j ≡ k
  same_text-eq (text s) (text t) h = ap text ((text_eq.same_iff s t).0 h)
  same_text-eq _ _ h = cc

  same_kind-eq-ok : (k l : Option Json) → same_kind py k l ≡ ok tt → k ≡ l
  same_kind-eq-ok none l h = cc
  same_kind-eq-ok (some j) none h = cc
  same_kind-eq-ok (some j) (some k) h =
      ap some (same_text-eq j k (only_true (same_text py j k) other_kind h))

  same_json : (j k : Json) → ◌≡◌ {A = Result StoreFault Json} (ok j) (ok k) → j ≡ k
  same_json j k h = cc

  replaced_payload :
      (payload old new : Json)
      → (valid_or py (validate_payload py.dumps payload) >>= λ clean.
          same_kind py (payload_kind clean) (payload_kind old) >> ok clean)
        ≡ ok new
      → IsEdit payload old new
  replaced_payload payload old new h =
      let (clean, valid, h1) = bind-eq-ok (valid_or py (validate_payload py.dumps payload)) _ h in
      let (unit, kinds, h2) =
        bind-eq-ok (same_kind py (payload_kind clean) (payload_kind old)) _ h1 in
      let same : clean ≡ new = same_json clean new h2 in
      rw (← same) (
        replaced (validated (validate_payload py.dumps payload) clean valid)
          (same_kind-eq-ok (payload_kind clean) (payload_kind old) kinds))

  edited_payload-IsEdit :
      (payload old new : Json) → edited_payload py old payload ≡ ok new → IsEdit payload old new
  unfolding edited_payload
  edited_payload-IsEdit null old new h = kept refl (same_json old new h)
  edited_payload-IsEdit _ old new h = replaced_payload _ old new h

  pub edit_entry-EditedEntry :
      (user : ℕ) (id : Text) (payload : Json) (label : Option Text) (rows : List PadRow)
      → (p : List PadRow × PadEntry) → edit_entry py user id payload label rows ≡ ok p
      → EditedEntry user id payload label rows p.0
  unfolding edit_entry
  edit_entry-EditedEntry user id payload label rows p h =
      let (existing, there, h1) = bind-eq-ok (require (get_entry py user id rows) no_entry) _ h in
      let (new, edit, h2) = bind-eq-ok (edited_payload py existing.payload payload) _ h1 in
      record {
        existing = existing;
        new = new;
        there = require-eq-ok (get_entry py user id rows) no_entry existing there;
        is_edit = edited_payload-IsEdit payload existing.payload new edit;
        same = first_of _ p h2;
      }
