-- ===== src/Favorites/Store.antt =====
-- The table of favorites: `validate_new`, `list_`, `add` and `remove` of code/backend/favorites.py.
use grindstone.Prelude.{
  ℕ, suc, Bool, true, false, ◌&&◌, ◌||◌, not, Option, none, some, List, [], ◌∷◌, ◌++◌, map, keep,
  any, max, ltb, leb, length, ◌==◌, nat_eq, text_eq, Text, codes, if◌then◌else◌, Result, ok,
  refused, ◌>>=◌, ◌>>◌, check, require, ◌*◌,
}
use grindstone.Json.{Json, text, text_within}
use grindstone.Unicode.{Unicode, without, before_query, all_alnum, is_gs, is_web, is_icon}

abbrev pub max_favorites : ℕ
max_favorites = 48

abbrev pub max_key : ℕ
max_key = 300

abbrev pub max_label : ℕ
max_label = 24

abbrev pub max_icon_chars : ℕ
max_icon_chars = 128 * 1024

-- `KINDS`
pub data Kind : Type 0 where
  symbol page web : Kind

abbrev pub kind_named : Json → Option Kind
kind_named (text t) =
    if t == codes "symbol"
    then some symbol
    else if t == codes "page"
    then some page
    else if t == codes "web"
    then some web
    else none
kind_named _ = none

-- The messages of `_fail`.
pub data Fault : Type 0 where
  bad_kind bad_key bad_label large_icon foreign_icon bad_symbol no_page no_url too_many : Fault

-- What `validate_new` returns.
pub record Clean : Type 0 where
  pub kind : Kind
  pub key : Text
  pub label : Text
  pub icon : Text

-- A leading '/' is a futures root.
abbrev pub core : Text → Text
core [] = []
core (c ∷ s) = if c == b'/' then s else c ∷ s

-- `"?" + key.split("?", 1)[1]`, or nothing.
abbrev pub from_query : Text → Text
from_query [] = []
from_query (c ∷ s) = if c == b'?' then c ∷ s else from_query s

module _ (u : Unicode) where
  abbrev is_symbol : Text → Bool
  is_symbol s = (leb 1 (length s) && leb (length s) 8) && all_alnum u (without b'.' s)

  -- The branches on the kind: the key as it is stored.
  unfoldable pub clean_key : Kind → Text → Result Fault Text
  clean_key symbol key =
      check (is_symbol (core (u.uppercase key))) bad_symbol >> ok (u.uppercase key)
  clean_key page key =
      check (is_gs u (before_query key)) no_page
      >> ok (u.lowercase (before_query key) ++ from_query key)
  clean_key web key = check (is_web key) no_url >> ok key

  unfoldable pub validate_new : Json → Json → Json → Json → Result Fault Clean
  unfolding clean_key
  validate_new kind key label icon = do
    kind' ← require (kind_named kind) bad_kind
    key' ← require (text_within 1 max_key key) bad_key
    label' ← require (text_within 1 max_label label) bad_label
    icon' ← require (text_within 0 max_icon_chars icon) large_icon
    check (is_icon icon') foreign_icon
    stored ← clean_key kind' key'
    ok (record { kind = kind'; key = stored; label = label'; icon = icon' })

pub record Row : Type 0 where
  pub id : ℕ
  pub user : ℕ
  pub favorite : Clean
  pub pos : ℕ

unfoldable pub kind_beq : Kind → Kind → Bool
kind_beq symbol symbol = true
kind_beq page page = true
kind_beq web web = true
kind_beq _ _ = false

-- `WHERE user_id=? AND kind=? AND key=?`
abbrev pub is_star : ℕ → Kind → Text → Row → Bool
is_star user kind key r =
    (r.user == user) && (kind_beq r.favorite.kind kind && (r.favorite.key == key))

abbrev pub find : (Row → Bool) → List Row → Option Row
find p [] = none
find p (r ∷ rs) = if p r then some r else find p rs

abbrev pub is_of : ℕ → Row → Bool
is_of user r = r.user == user

-- The greatest of the numbers, or 0.
abbrev pub greatest : List ℕ → ℕ
greatest [] = 0
greatest (n ∷ ns) = max n (greatest ns)

abbrev pub is_empty : Text → Bool
is_empty [] = true
is_empty (c ∷ t) = false

abbrev pub with_icon : Text → Row → Row
with_icon icon r = record r { favorite = record r.favorite { icon = icon } }

-- `UPDATE favorites SET icon=? WHERE id=?`
abbrev pub set_icon : ℕ → Text → List Row → List Row
set_icon id icon rs = map (λ r. if r.id == id then with_icon icon r else r) rs

-- `INSERT INTO favorites`: the next id is above every other, and the next position is the user's.
unfoldable pub inserted : ℕ → Clean → List Row → Row
inserted user c rs = record {
  id = suc (greatest (map (λ (r : Row). r.id) rs));
  user = user;
  favorite = c;
  pos = suc (greatest (map (λ (r : Row). r.pos) (keep (is_of user) rs)));
}

-- `add` of what was validated, with the row that is there.
unfoldable pub add_found : ℕ → Clean → List Row → Option Row → Result Fault (List Row × Row)
unfolding inserted
add_found user c rs (some r) =
    if not (is_empty c.icon) && is_empty r.favorite.icon
    then ok (set_icon r.id c.icon rs, with_icon c.icon r)
    else ok (rs, r)
add_found user c rs none =
    if leb max_favorites (length (keep (is_of user) rs))
    then refused too_many
    else ok (rs ++ inserted user c rs ∷ [], inserted user c rs)

abbrev pub add_clean : ℕ → Clean → List Row → Result Fault (List Row × Row)
add_clean user c rs = add_found user c rs (find (is_star user c.kind c.key) rs)

-- `add`: the table, and the row that is returned.
unfoldable pub add :
    Unicode → ℕ → Json → Json → Json → Json → List Row → Result Fault (List Row × Row)
unfolding validate_new add_found
add u user kind key label icon rs = do c ← validate_new u kind key label icon; add_clean user c rs

-- `remove`: the table, and whether a row was deleted.
unfoldable pub remove : ℕ → ℕ → List Row → List Row × Bool
remove user id rs =
    (keep (λ r. not (is_of user r && (r.id == id))) rs, any (λ r. is_of user r && (r.id == id)) rs)

-- `ORDER BY pos, id`
abbrev pub is_before : Row → Row → Bool
is_before r s = ltb r.pos s.pos || ((r.pos == s.pos) && leb r.id s.id)

abbrev pub insert_row : Row → List Row → List Row
insert_row r [] = r ∷ []
insert_row r (s ∷ ss) = if is_before r s then r ∷ s ∷ ss else s ∷ insert_row r ss

abbrev pub in_order : List Row → List Row
in_order [] = []
in_order (r ∷ rs) = insert_row r (in_order rs)

-- `list_`
unfoldable pub list : ℕ → List Row → List Row
list user rs = in_order (keep (is_of user) rs)
