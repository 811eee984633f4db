-- ===== src/Notepad/Granted.antt =====
-- Which calls on the notepad return, and which are refused (code/backend/notepad.py).
use grindstone.Prelude.{
  ap, ◌∙◌, ℕ, ◌≡◌, refl, Bool, true, false, ◌&&◌, not, Option, none, some, List, any, keep, length,
  leb, ltb, arith, nat_eq, text_eq, Result, ok, refused, check, require, ◌>>=◌, inl, inr, ◌⊎◌,
  Bool-cases,
}
use grindstone.Json.{Json, null}
use grindstone.Notepad.Payload.{PadFault, validate_payload, max_entries}
use grindstone.Notepad.Store.{
  PadRow, PadEntry, StoreFault, PadJson, is_entry, is_owned, get_entry, valid_or, payload_kind,
  same_text, same_kind, edited_payload, add_entry, edit_entry, full, id_taken, no_entry,
}
use grindstone.Notepad.Pad.{PadCall, adding, editing, removing}

-- A split on a result that keeps the equation.
pub Result-cases :
    {E A : Type 0} (r : Result E A) → ((a : A) × (r ≡ ok a)) ⊎ ((e : E) × (r ≡ refused e))
Result-cases (ok a) = inl (a, refl)
Result-cases (refused e) = inr (e, refl)

abbrev pub is_ok : {A : Type 0} → Result StoreFault A → Bool
is_ok (ok a) = true
is_ok (refused e) = false

-- Whether the call returns; `remove` always does.
unfoldable pub succeeds : PadJson → PadCall → List PadRow → Bool
unfolding add_entry edit_entry
succeeds py (adding user id stamp payload label) rows =
    is_ok (add_entry py user id stamp payload label rows)
succeeds py (editing user id payload label) rows = is_ok (edit_entry py user id payload label rows)
succeeds py (removing user id) rows = true

-- The kinds are there, and are the same text.
abbrev pub are_same_kind : PadJson → Option Json → Option Json → Bool
are_same_kind py (some k) (some l) = same_text py k l
are_same_kind py _ _ = false

abbrev pub is_valid : PadJson → Json → Bool
is_valid py payload = is_ok (valid_or py (validate_payload py.dumps payload))

-- The payload of an edit is none, or is valid and of the kind of the entry.
abbrev pub fits : PadJson → Json → Result PadFault Json → Bool
fits py existing (ok clean) = are_same_kind py (payload_kind clean) (payload_kind existing)
fits py existing (refused e) = false

abbrev pub may_become : PadJson → Json → Json → Bool
may_become py existing null = true
may_become py existing payload = fits py existing (validate_payload py.dumps payload)

abbrev pub may_edit : PadJson → Json → Option PadEntry → Bool
may_edit py payload none = false
may_edit py payload (some e) = may_become py e.payload payload

-- An `add` needs a valid payload, a user with fewer entries than the limit, and a free id; an `edit` an
-- entry that can be read, and a payload that fits.
abbrev pub may_succeed : PadJson → PadCall → List PadRow → Bool
may_succeed py (adding user id stamp payload label) rows =
    is_valid py payload
    && (ltb (length (keep (is_owned user) rows)) max_entries && not (any (is_entry user id) rows))
may_succeed py (editing user id payload label) rows =
    may_edit py payload (get_entry py user id rows)
may_succeed py (removing user id) rows = true

module _ (py : PadJson) where
  kind_passes : (k l : Option Json) → is_ok (same_kind py k l) ≡ are_same_kind py k l
  unfolding check
  kind_passes none l = refl
  kind_passes (some k) none = refl
  kind_passes (some k) (some l) = elim (Bool-cases (same_text py k l)) [
    | inl same ↦ rw same refl
    | inr differ ↦ rw differ refl
  ]

  is_ok-then :
      {A B : Type 0} (m : Result StoreFault A) (f : A → B) → is_ok (m >>= λ a. ok (f a)) ≡ is_ok m
  unfolding ◌>>=◌
  is_ok-then (ok a) f = refl
  is_ok-then (refused e) f = refl

  -- Two checks between a result and what is made of it.
  is_ok-checks :
      {A B : Type 0} (m : Result StoreFault A) (a b : Bool) (e e' : StoreFault) (f : A → B)
      → is_ok (m >>= λ x. check a e >>= λ _. check b e' >>= λ _. ok (f x)) ≡ (is_ok m && (a && b))
  unfolding ◌>>=◌ check
  is_ok-checks (refused d) a b e e' f = refl
  is_ok-checks (ok x) false b e e' f = refl
  is_ok-checks (ok x) true false e e' f = refl
  is_ok-checks (ok x) true true e e' f = refl

  fits_or_not :
      (existing : Json) (r : Result PadFault Json)
      → is_ok (
          valid_or py r >>= λ clean.
          same_kind py (payload_kind clean) (payload_kind existing) >>= λ _. ok clean)
        ≡ fits py existing r
  unfolding ◌>>=◌
  fits_or_not existing (refused e) = refl
  fits_or_not existing (ok clean) =
      is_ok-then (same_kind py (payload_kind clean) (payload_kind existing)) (λ _. clean)
      ∙ kind_passes (payload_kind clean) (payload_kind existing)

  becomes :
      (existing payload : Json)
      → is_ok (edited_payload py existing payload) ≡ may_become py existing payload
  unfolding edited_payload
  becomes existing null = refl
  becomes existing _ = fits_or_not existing (validate_payload py.dumps _)

  edits :
      {B : Type 0} (payload : Json) (o : Option PadEntry) (f : PadEntry → Json → B)
      → is_ok
          (require o no_entry >>= λ e. edited_payload py e.payload payload >>= λ new. ok (f e new))
        ≡ may_edit py payload o
  unfolding ◌>>=◌ require
  edits payload none f = refl
  edits payload (some e) f =
      is_ok-then (edited_payload py e.payload payload) (f e) ∙ becomes e.payload payload

  not_full : (n : ℕ) → not (leb max_entries n) ≡ ltb n max_entries
  not_full n = ground arith

  pub granted : (c : PadCall) (rows : List PadRow) → succeeds py c rows ≡ may_succeed py c rows
  unfolding succeeds add_entry edit_entry
  granted (adding user id stamp payload label) rows =
      is_ok-checks (valid_or py (validate_payload py.dumps payload))
        (not (leb max_entries (length (keep (is_owned user) rows))))
        (not (any (is_entry user id) rows)) full id_taken _
      ∙ ap (λ b. is_valid py payload && (b && not (any (is_entry user id) rows)))
          (not_full (length (keep (is_owned user) rows)))
  granted (editing user id payload label) rows = edits payload (get_entry py user id rows) _
  granted (removing user id) rows = refl
