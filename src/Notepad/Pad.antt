-- ===== src/Notepad/Pad.antt =====
-- What a notepad is, apart from its table, and that code/backend/notepad.py implements it.
use grindstone.Prelude.{
  take, ℕ, ◌≡◌, refl, ◌∙◌, Bool, true, false, ◌&&◌, not, Option, none, some, List, [], ◌∷◌, ◌++◌,
  keep, any, ◌==◌, nat_eq, text_eq, Text, if◌then◌else◌, ok, arith, Bool-cases, inl, inr,
}
use grindstone.Json.{Json}
use grindstone.Notepad.Payload.{validate_payload, max_pad_label}
use grindstone.Notepad.Accepted.{IsEdit}
use grindstone.Notepad.Store.{
  PadRow, PadEntry, PadJson, is_entry, entry_from, edited_label, get_entry, update_rows,
}

-- The abstract notepad: the payload and the label of each entry of each user.
abbrev pub Pad : Type 0
Pad = ℕ → Text → Option (Json × Text)

abbrev pub is_at : ℕ → Text → ℕ → Text → Bool
is_at user id user' id' = (user == user') && (id == id')

-- The one pad is the other, but for one entry.
abbrev pub Changes : Pad → ℕ → Text → Option (Json × Text) → Pad → Type 0
Changes f user id entry g =
    (user' : ℕ) (id' : Text)
    → g user' id' ≡ (if is_at user id user' id' then entry else f user' id')

-- A call of a route, with the id and the moment that an `add` is given.
pub data PadCall : Type 0 where
  adding : ℕ → Text → Text → Json → Text → PadCall
  editing : ℕ → Text → Json → Option Text → PadCall
  removing : ℕ → Text → PadCall

abbrev pub AreSame : Pad → Pad → Type 0
AreSame f g = (user : ℕ) (id : Text) → g user id ≡ f user id

module _ (py : PadJson) where
  -- What a call may do to a notepad. Refused, it changes nothing. An `add` puts its payload, cleaned, and
  -- its label, cut, at its own id, which was free. An `edit` changes the entry of its own id, which was
  -- there: the payload to the given one, cleaned and of the same kind, if one is given, and the label to
  -- the given one, cut, if one is given. A `remove` takes away the entry of its own id.
  unfoldable pub Allowed : PadCall → Bool → Pad → Pad → Type 0
  Allowed c false f g = AreSame f g
  Allowed (adding user id stamp payload label) true f g =
      (j : Json) × (f user id ≡ none)
      × (validate_payload py.dumps payload ≡ ok j)
      × Changes f user id (some (j, take max_pad_label label)) g
  Allowed (editing user id payload label) true f g =
      (j : Json) × (j' : Json) × (old : Text) × (f user id ≡ some (j, old))
      × IsEdit py payload j j'
      × Changes f user id (some (j', edited_label py old label)) g
  Allowed (removing user id) true f g = Changes f user id none g

  abbrev pub viewed : Option PadEntry → Option (Json × Text)
  viewed none = none
  viewed (some e) = some (e.payload, e.label)

  -- What the rows say.
  abbrev pub pad_of : List PadRow → Pad
  pad_of rows user id = viewed (get_entry py user id rows)

  abbrev pub read_pad_row : PadRow → Option (Json × Text)
  read_pad_row r = viewed (entry_from r (py.loads r.payload))

  pad_of-cons :
      (user : ℕ) (id : Text) (r : PadRow) (rs : List PadRow)
      → pad_of (r ∷ rs) user id ≡ (if is_entry user id r then read_pad_row r else pad_of rs user id)
  unfolding get_entry
  pad_of-cons user id r rs = elim (Bool-cases (is_entry user id r)) [
    | inl is ↦ rw is refl
    | inr other ↦ rw other refl
  ]

  same_entry :
      (user user' : ℕ) (id id' : Text) (r : PadRow)
      → is_entry user id r ≡ true
      → is_entry user' id' r ≡ is_at user id user' id'
  same_entry user user' id id' r h =
      rw
        (
          (nat_eq.same_iff r.user user).0 (ground (arith, h)),
          (text_eq.same_iff r.id id).0 (ground (arith, h)),
        )
        refl

  other_entry :
      (user user' : ℕ) (id id' : Text) (r : PadRow)
      → is_entry user id r ≡ false
      → is_entry user' id' r ≡ true
      → is_at user id user' id' ≡ false
  other_entry user user' id id' r h h' =
      ground
        (arith, h, h', text_eq.same_iff r.id id, text_eq.same_iff r.id id', text_eq.same_iff id id')

  pub pad_of-append :
      (user user' : ℕ) (id id' : Text) (rows : List PadRow) (r : PadRow)
      → any (is_entry user id) rows ≡ false
      → is_entry user id r ≡ true
      → pad_of (rows ++ r ∷ []) user' id'
        ≡ (if is_at user id user' id' then read_pad_row r else pad_of rows user' id')
  unfolding get_entry
  pad_of-append user user' id id' [] r free new =
      pad_of-cons user' id' r [] ∙ rw (same_entry user user' id id' r new) refl
  pad_of-append user user' id id' (s ∷ rows) r free new = elim (Bool-cases (is_entry user' id' s)) [
    | inl found ↦ rw (found, other_entry user user' id id' s (ground (arith, free)) found) refl
    | inr absent ↦ rw absent (pad_of-append user user' id id' rows r (ground (arith, free)) new)
  ]

  pub free_entry :
      (user : ℕ) (id : Text) (rows : List PadRow)
      → any (is_entry user id) rows ≡ false
      → pad_of rows user id ≡ none
  unfolding get_entry
  free_entry user id [] free = refl
  free_entry user id (r ∷ rows) free =
      pad_of-cons user id r rows
      ∙ (let other : is_entry user id r ≡ false = ground (arith, free) in
          rw other (free_entry user id rows (ground (arith, free))))

  pub pad_of-keep :
      (user user' : ℕ) (id id' : Text) (rows : List PadRow)
      → pad_of (keep (λ r. not (is_entry user id r)) rows) user' id'
        ≡ (if is_at user id user' id' then none else pad_of rows user' id')
  unfolding get_entry
  pad_of-keep user user' id id' [] = elim (Bool-cases (is_at user id user' id')) [
    | inl same ↦ rw same refl
    | inr other ↦ rw other refl
  ]
  pad_of-keep user user' id id' (r ∷ rows) = elim (Bool-cases (is_entry user id r)) [
    | inl is ↦ rw is (
        pad_of-keep user user' id id' rows ∙ (elim (Bool-cases (is_at user id user' id')) [
          | inl same ↦ rw same refl
          | inr other ↦ rw (other, same_entry user user' id id' r is, other) refl
        ]))
    | inr apart ↦ rw apart (elim (Bool-cases (is_entry user' id' r)) [
      | inl found ↦ rw (found, other_entry user user' id id' r apart found) refl
      | inr absent ↦ rw absent (pad_of-keep user user' id id' rows)
    ])
  ]

  abbrev pub read_as : Text → Option Json → Option (Json × Text)
  read_as label none = none
  read_as label (some j) = some (j, label)

  read_row_as : (r : PadRow) (o : Option Json) → viewed (entry_from r o) ≡ read_as r.label o
  read_row_as r none = refl
  read_row_as r (some j) = refl

  rest_is_kept :
      (user user' : ℕ) (id id' : Text) (payload label : Text) (rows : List PadRow)
      → is_at user id user' id' ≡ false
      → pad_of (update_rows py user id payload label rows) user' id' ≡ pad_of rows user' id'
  unfolding get_entry
  rest_is_kept user user' id id' payload label [] other = refl
  rest_is_kept user user' id id' payload label (r ∷ rows) other =
      elim (Bool-cases (is_entry user id r)) [
        | inl is ↦
            let apart : is_entry user' id' r ≡ false = same_entry user user' id id' r is ∙ other in
            rw is (rw apart (rest_is_kept user user' id id' payload label rows other))
        | inr no_entry_here ↦ rw no_entry_here (elim (Bool-cases (is_entry user' id' r)) [
          | inl found ↦ rw found refl
          | inr absent ↦ rw absent (rest_is_kept user user' id id' payload label rows other)
        ])
      ]

  pub pad_of-update_rows :
      (user user' : ℕ) (id id' : Text) (payload label : Text) (rows : List PadRow)
      → any (is_entry user id) rows ≡ true
      → pad_of (update_rows py user id payload label rows) user' id' ≡ (
          if is_at user id user' id'
          then read_as label (py.loads payload)
          else pad_of rows user' id')
  unfolding get_entry
  pad_of-update_rows user user' id id' payload label [] there = cc
  pad_of-update_rows user user' id id' payload label (r ∷ rows) there =
      elim (Bool-cases (is_entry user id r)) [
        | inl is ↦
            let r' = record r { payload = payload; label = label } in
            rw is (
              pad_of-cons user' id' r' (update_rows py user id payload label rows)
              ∙ (elim (Bool-cases (is_at user id user' id')) [
                | inl same ↦
                    rw (same_entry user user' id id' r' is, same)
                      (read_row_as r' (py.loads payload))
                | inr other ↦
                    rw (same_entry user user' id id' r' is, other)
                      (rest_is_kept user user' id id' payload label rows other)
              ]))
        | inr apart ↦ rw apart (elim (Bool-cases (is_entry user' id' r)) [
          | inl found ↦ rw (found, other_entry user user' id id' r apart found) refl
          | inr absent ↦ rw absent (
              pad_of-update_rows user user' id id' payload label rows
                (ground (arith, there, apart)))
        ])
      ]

  pub found_entry :
      (user : ℕ) (id : Text) (rows : List PadRow) (e : PadEntry)
      → get_entry py user id rows ≡ some e
      → any (is_entry user id) rows ≡ true
  unfolding get_entry
  found_entry user id [] e h = cc
  found_entry user id (r ∷ rows) e h = elim (Bool-cases (is_entry user id r)) [
    | inl is ↦ rw is refl
    | inr other ↦ rw other (found_entry user id rows e (rw other at h))
  ]
