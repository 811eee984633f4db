-- ===== src/Notepad/Label.antt =====
-- `summaries` of code/backend/notepad.py, with `_destination` and `_default_label`.
use grindstone.Prelude.{
  ℕ, ◌-◌, Bool, false, ◌&&◌, ◌||◌, Option, none, some, List, [], ◌∷◌, ◌++◌, leb, length, take,
  every, ◌==◌, nat_eq, text_eq, Text, codes, strip, if◌then◌else◌, Result, ok, ◌>>=◌, require,
}
use grindstone.Json.{
  Fields, Json, integer, text, array, object, items, pairs, truth, value_or, value_of,
}
use grindstone.Unicode.{Unicode}
use grindstone.Notepad.Secret.{drop_chars}
use grindstone.Notepad.Payload.{fields_of, text_of}
use grindstone.Notepad.Store.{
  PadRow, PadEntry, StoreFault, raised, PadJson, list_entries, item_of, payload_kind,
}

-- `str(j)`, `format(j, "g")` of a number, and the digits that `\d` means.
pub record Formats : Type 0 where
  pub shown : Json → Text
  pub general : Json → Option Text
  pub is_digit : ℕ → Bool

-- `a or b`
abbrev pub first_true : Json → Json → Json
first_true a b = if truth a then a else b

abbrev pub entry_fields : Json → Text → Result StoreFault Fields
entry_fields j key = do f ← require (item_of j key) raised; require (fields_of f) raised

-- `prov.get("symbol") or d.get("underlying") or ""`
abbrev pub pad_symbol : Fields → Fields → Json
pad_symbol provenance d =
    first_true (value_of provenance (codes "symbol"))
      (first_true (value_of d (codes "underlying")) (text []))

abbrev pub is_capital_or_dot : ℕ → Bool
is_capital_or_dot c = (leb b'A' c && leb c b'Z') || c == b'.'

module _ (u : Unicode) (f : Formats) where
  -- `\d{6}[CP]\d{8}`
  abbrev pub is_occ_tail : Text → Bool
  is_occ_tail t =
      every f.is_digit (take 6 t)
      && (is_right (take 1 (drop_chars 6 t))
          && (every f.is_digit (drop_chars 7 t) && length t == 15))
    where
      is_right : Text → Bool
      is_right (c ∷ []) = c == b'C' || c == b'P'
      is_right _ = false

  -- The first group of `([A-Z.]{1,6})\d{6}[CP]\d{8}`, of the whole text.
  unfoldable pub occ_root : Text → Text
  occ_root t =
      let n = length t - 15 in
      if leb 16 (length t)
        && (leb n 6 && (every is_capital_or_dot (take n t) && is_occ_tail (drop_chars n t)))
      then take n t
      else []

  abbrev pub upper_of : Json → Result StoreFault Text
  upper_of j = do t ← require (text_of j) raised; ok (u.uppercase t)

  -- The symbol of a contract, from its OCC symbol if there is no other.
  abbrev pub contract_symbol : Text → Json → Result StoreFault Text
  contract_symbol [] occ = if truth occ then (do t ← upper_of occ; ok (occ_root t)) else ok []
  contract_symbol (c ∷ sym) occ = ok (c ∷ sym)

  abbrev pub chain_page : Text → Text
  chain_page [] = []
  chain_page (c ∷ sym) = codes "opt.gs?s=" ++ c ∷ sym

  abbrev pub contract_page : Text → Json → Text
  contract_page [] occ = []
  contract_page (c ∷ sym) occ =
      if truth occ
      then codes "opt.gs?s=" ++ (c ∷ sym) ++ codes "&occ=" ++ f.shown occ
      else chain_page (c ∷ sym)

  abbrev pub is_kind : Json → Text → Bool
  is_kind (text k) name = k == name
  is_kind _ name = false

  unfoldable pub destination_by : Json → Fields → Text → Result StoreFault Text
  unfolding occ_root
  destination_by kind d sym =
      if is_kind kind (codes "contract")
      then (do
        s ← contract_symbol sym (first_true (value_of d (codes "occ_symbol")) (text []))
        ok (contract_page s (first_true (value_of d (codes "occ_symbol")) (text []))))
      else if is_kind kind (codes "chain")
      then ok (chain_page sym)
      else if is_kind kind (codes "backtest-spec")
      then ok (codes "backtest.gs")
      else if is_kind kind (codes "note")
      then ok (codes "notepad.gs")
      else ok []

  -- `_destination`
  unfoldable pub destination : Json → Result StoreFault Text
  unfolding destination_by
  destination p = do
    kind ← require (payload_kind p) raised
    d ← entry_fields p (codes "data")
    provenance ← entry_fields p (codes "provenance")
    sym ← upper_of (pad_symbol provenance d)
    destination_by kind d sym

  -- `len(j)`
  abbrev pub len_of : Json → Option ℕ
  len_of (array js) = some (length (items js))
  len_of (object fs) = some (length (pairs fs))
  len_of (text t) = some (length t)
  len_of _ = none

  -- The characters at which `splitlines` ends a line.
  abbrev pub ends_line : ℕ → Bool
  ends_line c =
      (leb 10 c && leb c 13)
      || ((leb 28 c && leb c 30) || (c == 0x85 || (c == 0x2028 || c == 0x2029)))

  abbrev pub line_of : Text → Text
  line_of [] = []
  line_of (c ∷ t) = if ends_line c then [] else c ∷ line_of t

  abbrev pub or_note : Text → Text
  or_note [] = codes "note"
  or_note (c ∷ t) = c ∷ t

  abbrev pub chain_label : Fields → Json → Result StoreFault Text
  chain_label d sym = do
    contracts ← require (item_of (object d) (codes "contracts")) raised
    n ← require (len_of contracts) raised
    ok (strip (codes "chain " ++ f.shown sym ++ codes " ×" ++ f.shown (integer false n)))

  -- A slice of anything but a text raises here; Python slices a list too.
  abbrev pub contract_label : Fields → Result StoreFault Text
  contract_label d = do
    strike ← require (item_of (object d) (codes "strike")) raised
    number ← require (f.general strike) raised
    right ← require (item_of (object d) (codes "right")) raised
    expiration ← require (item_of (object d) (codes "expiration")) raised
    date ← require (text_of expiration) raised
    ok (number ++ f.shown right ++ codes " " ++ drop_chars 5 date)

  abbrev pub note_label : Fields → Result StoreFault Text
  note_label d = do
    j ← require (item_of (object d) (codes "text")) raised
    t ← require (text_of j) raised
    ok (or_note (take 32 (or_note (line_of (strip t)))))

  abbrev pub label_by : Json → Fields → Json → Result StoreFault Text
  label_by kind d sym =
      if is_kind kind (codes "chain")
      then chain_label d sym
      else if is_kind kind (codes "contract")
      then contract_label d
      else if is_kind kind (codes "note")
      then note_label d
      else ok (strip (f.shown kind ++ codes " " ++ f.shown sym))

  -- `_default_label`
  unfoldable pub default_label : Json → Result StoreFault Text
  default_label p = do
    kind ← require (payload_kind p) raised
    d ← entry_fields p (codes "data")
    provenance ← entry_fields p (codes "provenance")
    label_by kind d (pad_symbol provenance d)

  pub record PadSummary : Type 0 where
    pub id : Text
    pub kind : Json
    pub label : Text
    pub address : Json
    pub destination : Text

  abbrev pub label_or : Text → Json → Result StoreFault Text
  label_or [] p = default_label p
  label_or (c ∷ label) p = ok (c ∷ label)

  unfoldable pub summarise : PadEntry → Result StoreFault PadSummary
  unfolding destination default_label
  summarise e = do
    kind ← require (payload_kind e.payload) raised
    label ← label_or e.label e.payload
    provenance ← entry_fields e.payload (codes "provenance")
    page ← destination e.payload
    ok (record {
      id = e.id;
      kind = kind;
      label = label;
      address = value_or provenance (codes "address") (text []);
      destination = page;
    })

  unfoldable pub summarise_all : List PadEntry → Result StoreFault (List PadSummary)
  unfolding summarise
  summarise_all [] = ok []
  summarise_all (e ∷ es) = do s ← summarise e; rest ← summarise_all es; ok (s ∷ rest)

  unfoldable pub summaries : PadJson → ℕ → List PadRow → Result StoreFault (List PadSummary)
  unfolding summarise_all list_entries
  summaries py user rows = summarise_all (list_entries py user rows)
