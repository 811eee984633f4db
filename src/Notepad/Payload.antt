-- ===== src/Notepad/Payload.antt =====
-- `validate_payload` of code/backend/notepad.py and its parts.
use grindstone.Prelude.{
  ℕ, suc, Bool, true, false, ◌||◌, not, Option, none, some, List, [], ◌∷◌, ◌++◌, leb, length, ◌==◌,
  nat_eq, text_eq, Text, codes, if◌then◌else◌, Result, ok, refused, ◌>>=◌, ◌>>◌, check, require,
}
use grindstone.Json.{
  Json, null, boolean, integer, float, text, array, object, Fields, items, array_of, pairs,
  object_of, value_of, equals_nat, one_of, text_within,
}
use grindstone.Notepad.Secret.{is_secret}

abbrev pub max_entries : ℕ
max_entries = 32

abbrev pub max_entry_bytes : ℕ
max_entry_bytes = 262144

abbrev pub max_pad_label : ℕ
max_pad_label = 80

abbrev pub max_note_chars : ℕ
max_note_chars = 20000

abbrev pub note_kinds : List Text
note_kinds =
    codes "chart-doc"
    ∷ codes "drawing"
    ∷ codes "leg"
    ∷ codes "chain"
    ∷ codes "contract"
    ∷ codes "form"
    ∷ codes "backtest-spec"
    ∷ codes "note"
    ∷ []

abbrev pub workspaces : List Text
workspaces = codes "user" ∷ codes "agent" ∷ []

-- The reasons of `_fail`.
pub data PadFault : Type 0 where
  no_provenance bad_workspace no_captured_at bad_address : PadFault
  bad_option : Text → PadFault
  not_contract no_occ_symbol no_expiration no_strike bad_right : PadFault
  not_numeric : Text → PadFault
  in_contract : ℕ → PadFault → PadFault
  no_data no_text long_note no_contracts no_form_kind no_values : PadFault
  not_scalar : Text → PadFault
  not_payload bad_version unknown_kind too_large credential : PadFault

-- The entry of a dict, where there is a text.
abbrev pub entry_of : Text → Option Text → List (Text × Json)
entry_of key none = []
entry_of key (some t) = (key, text t) ∷ []

-- `isinstance(j, dict)`
abbrev pub fields_of : Json → Option Fields
fields_of (object f) = some f
fields_of _ = none

abbrev pub list_of_items : Json → Option (List Json)
list_of_items (array js) = some (items js)
list_of_items _ = none

abbrev pub text_of : Json → Option Text
text_of (text t) = some t
text_of _ = none

-- `isinstance(j, str) and j`
abbrev pub some_text : Json → Option Text
some_text (text (c ∷ t)) = some (c ∷ t)
some_text _ = none

-- `isinstance(j, (int, float))`: a bool is an int.
abbrev pub is_number : Json → Bool
is_number (boolean b) = true
is_number (integer negative n) = true
is_number (float f) = true
is_number _ = false

-- `isinstance(j, (str, int, float, bool)) or j is None`
abbrev pub is_scalar : Json → Bool
is_scalar (array js) = false
is_scalar (object f) = false
is_scalar _ = true

-- The text that is there, if anything is, of at most so many characters.
abbrev pub optional_text : ℕ → ℕ → PadFault → Json → Result PadFault (Option Text)
optional_text lo hi fault null = ok none
optional_text lo hi fault j = do t ← require (text_within lo hi j) fault; ok (some t)

-- The loop over the options of a provenance.
unfoldable pub clean_options : Fields → List Text → Result PadFault (List (Text × Json))
clean_options p [] = ok []
clean_options p (key ∷ keys) = do
  t ← optional_text 0 120 (bad_option key) (value_of p key)
  rest ← clean_options p keys
  ok (entry_of key t ++ rest)

abbrev pub provenance_options : List Text
provenance_options =
    codes "page"
    ∷ codes "key"
    ∷ codes "symbol"
    ∷ codes "timeframe"
    ∷ codes "axis"
    ∷ codes "user"
    ∷ []

-- `_clean_provenance`
unfoldable pub clean_provenance : Json → Result PadFault (List (Text × Json))
unfolding clean_options
clean_provenance j = do
  p ← require (fields_of j) no_provenance
  workspace ← require (one_of workspaces (value_of p (codes "workspace"))) bad_workspace
  captured ← require (some_text (value_of p (codes "capturedAt"))) no_captured_at
  address ← optional_text 1 200 bad_address (value_of p (codes "address"))
  options ← clean_options p provenance_options
  ok (
      (codes "workspace", text workspace)
        ∷ (codes "capturedAt", text captured)
        ∷ entry_of (codes "address") address
      ++ options)

abbrev pub is_missing : Json → Bool
is_missing null = true
is_missing _ = false

-- The loop over the numbers of a contract.
unfoldable pub clean_numbers : Fields → List Text → Result PadFault (List (Text × Json))
clean_numbers r [] = ok []
clean_numbers r (key ∷ keys) = do
  check (is_missing (value_of r key) || is_number (value_of r key)) (not_numeric key)
  rest ← clean_numbers r keys
  ok (if is_missing (value_of r key) then rest else (key, value_of r key) ∷ rest)

abbrev pub contract_numbers : List Text
contract_numbers =
    codes "bid"
    ∷ codes "ask"
    ∷ codes "last"
    ∷ codes "iv"
    ∷ codes "delta"
    ∷ codes "gamma"
    ∷ codes "theta"
    ∷ codes "vega"
    ∷ codes "rho"
    ∷ codes "mid"
    ∷ codes "annual"
    ∷ codes "dte"
    ∷ []

-- `_clean_contract_row`
unfoldable pub clean_contract_row : Json → Result PadFault (List (Text × Json))
unfolding clean_numbers
clean_contract_row j = do
  r ← require (fields_of j) not_contract
  occ ← require (some_text (value_of r (codes "occ_symbol"))) no_occ_symbol
  expiration ← require (text_of (value_of r (codes "expiration"))) no_expiration
  check (is_number (value_of r (codes "strike"))) no_strike
  right ← require (one_of (codes "C" ∷ codes "P" ∷ []) (value_of r (codes "right"))) bad_right
  numbers ← clean_numbers r contract_numbers
  ok (
      (codes "occ_symbol", text occ)
      ∷ (codes "expiration", text expiration)
      ∷ (codes "strike", value_of r (codes "strike"))
      ∷ (codes "right", text right)
      ∷ numbers)

abbrev pub at_row : {A : Type 0} → ℕ → Result PadFault A → Result PadFault A
at_row i (ok a) = ok a
at_row i (refused e) = refused (in_contract i e)

unfoldable pub clean_rows : ℕ → List Json → Result PadFault (List Json)
clean_rows i [] = ok []
clean_rows i (j ∷ js) = do
  row ← at_row i (clean_contract_row j)
  rest ← clean_rows (suc i) js
  ok (object (object_of row) ∷ rest)

-- `if isinstance(data.get(f), str): out[f] = data[f]`
abbrev pub text_entries : Fields → List Text → List (Text × Json)
text_entries d [] = []
text_entries d (key ∷ keys) = entry_of key (text_of (value_of d key)) ++ text_entries d keys

abbrev pub object_entry : Text → Option Fields → List (Text × Json)
object_entry key none = []
object_entry key (some f) = (key, object f) ∷ []

-- A list with something in it.
abbrev pub not_empty : Option (List Json) → Option (List Json)
not_empty (some (j ∷ js)) = some (j ∷ js)
not_empty _ = none

unfoldable pub clean_note : Fields → Result PadFault (List (Text × Json))
clean_note d = do
  t ← require (text_of (value_of d (codes "text"))) no_text
  check (leb (length t) max_note_chars) long_note
  ok ((codes "text", text t) ∷ [])

unfoldable pub clean_chain : Fields → Result PadFault (List (Text × Json))
unfolding clean_rows
clean_chain d = do
  rows ← require (not_empty (list_of_items (value_of d (codes "contracts")))) no_contracts
  clean ← clean_rows 0 rows
  ok (
      (codes "contracts", array (array_of clean))
        ∷ text_entries d (codes "underlying" ∷ codes "source" ∷ codes "reason" ∷ [])
      ++ object_entry (codes "query") (fields_of (value_of d (codes "query"))))

unfoldable pub check_scalars : List (Text × Json) → Result PadFault (Unit {0})
check_scalars [] = ok tt
check_scalars ((k, v) ∷ ps) = do check (is_scalar v) (not_scalar k); check_scalars ps

unfoldable pub clean_form : Fields → Result PadFault (List (Text × Json))
unfolding check_scalars
clean_form d = do
  kind ← require (some_text (value_of d (codes "formKind"))) no_form_kind
  values ← require (fields_of (value_of d (codes "values"))) no_values
  check_scalars (pairs values)
  ok (pairs d)

-- `_clean_data`, of one of the kinds: of a note, a chain, a contract, a form, or what is left as it is.
unfoldable pub clean_kind : Text → Fields → Result PadFault (List (Text × Json))
unfolding clean_note clean_chain clean_contract_row clean_form
clean_kind kind d =
    if kind == codes "note"
    then clean_note d
    else if kind == codes "chain"
    then clean_chain d
    else if kind == codes "contract"
    then clean_contract_row (object d)
    else if kind == codes "form"
    then clean_form d
    else ok (pairs d)

unfoldable pub clean_data : Text → Json → Result PadFault (List (Text × Json))
unfolding clean_kind
clean_data kind j = do d ← require (fields_of j) no_data; clean_kind kind d

-- The payload that is returned.
abbrev pub payload_of : Text → List (Text × Json) → List (Text × Json) → Json
payload_of kind d provenance = object (
    object_of (
      (codes "v", integer false 1)
      ∷ (codes "kind", text kind)
      ∷ (codes "data", object (object_of d))
      ∷ (codes "provenance", object (object_of provenance))
      ∷ []))

-- The size of what would be stored, and the search for a credential.
unfoldable pub check_blob : Text → Result PadFault (Unit {0})
check_blob blob = do
  check (leb (length blob) max_entry_bytes) too_large
  check (not (is_secret blob)) credential

unfoldable pub validate_payload : (Json → Text) → Json → Result PadFault Json
unfolding clean_data clean_provenance check_blob
validate_payload dumps payload = do
  p ← require (fields_of payload) not_payload
  check (equals_nat 1 (value_of p (codes "v"))) bad_version
  kind ← require (one_of note_kinds (value_of p (codes "kind"))) unknown_kind
  d ← clean_data kind (value_of p (codes "data"))
  provenance ← clean_provenance (value_of p (codes "provenance"))
  check_blob (dumps (payload_of kind d provenance))
  ok (payload_of kind d provenance)
