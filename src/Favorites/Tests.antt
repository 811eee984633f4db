-- ===== src/Favorites/Tests.antt =====
-- A run of `fetch_icon` of code/backend/favorites.py, and the theorem applied there.
use grindstone.Prelude.{
  ◌&&◌, ◌||◌, leb, upper, ok, ◌>>=◌, require, check, text_beq, ℕ, zero, suc, ◌≡◌, refl, true, none,
  some, [], ◌∷◌, codes, nat_eq, ◌==◌,
}
use grindstone.Json.{text, text_within}
use grindstone.Unicode.{Unicode}
use grindstone.Favorites.Store.{
  symbol, Clean, Row, kind_beq, is_star, find, inserted, add_found, add_clean, add, validate_new,
}
use grindstone.Favorites.Limits.{IsTable, adds, start, next, Reach-IsTable}
use grindstone.Favorites.Icon.{Answer, redirect, replied, Web, hops, fetch_icon}
use grindstone.Favorites.Guarded.{is_guarded, is_small, fetch_icon_guarded}

-- A public address redirects to a second one, and that to one in the local network.
abbrev answer : ℕ → Answer ℕ
answer zero = redirect (some 1)
answer (suc zero) = redirect (some 2)
answer (suc (suc u)) = replied 200 (codes "image/png") ((1 ∷ []) ∷ [])

abbrev web : Web ℕ
web = record { is_http = λ u. true; is_blocked = λ u. u == 2; request = answer }

stops_at_local : fetch_icon web 0 ≡ (none, 0 ∷ 1 ∷ [])
unfolding fetch_icon hops
stops_at_local = refl

fetch_icon_guarded_example :
    (is_small (fetch_icon web 0).0 ≡ true) × (is_guarded web 4 (fetch_icon web 0).1 ≡ true)
fetch_icon_guarded_example = fetch_icon_guarded web 0

-- The tables of Unicode, on lower-case ASCII.
abbrev ascii : Unicode
ascii = record {
  is_identifier = λ t. true;
  is_alnum = λ c. leb b'a' c && leb c b'z' || leb b'A' c && leb c b'Z';
  uppercase = upper;
  lowercase = λ t. t;
}

abbrev spy : Row
spy = record {
  id = 1;
  user = 7;
  favorite = record { kind = symbol; key = codes "SPY"; label = codes "Spy"; icon = [] };
  pos = 1;
}

starred :
    add ascii 7 (text (codes "symbol")) (text (codes "spy")) (text (codes "Spy")) (text []) []
    ≡ ok (spy ∷ [], spy)
unfolding add validate_new add_found ◌>>=◌ require check text_within text_beq upper
starred = refl

Reach-IsTable_example : IsTable (spy ∷ [])
Reach-IsTable_example = Reach-IsTable ascii (spy ∷ []) (
    next [] (spy ∷ []) (start [] refl) (
      adds 7 (text (codes "symbol")) (text (codes "spy")) (text (codes "Spy")) (text []) []
        (spy ∷ []) spy starred))

abbrev qqq : Clean
qqq = record { kind = symbol; key = codes "QQQ"; label = codes "Q"; icon = [] }

not_starred : find (is_star 7 qqq.kind qqq.key) (spy ∷ []) ≡ none
unfolding text_beq kind_beq
not_starred = refl

qqq_added :
    add_clean 7 qqq (spy ∷ [])
    ≡ ok (spy ∷ inserted 7 qqq (spy ∷ []) ∷ [], inserted 7 qqq (spy ∷ []))
unfolding add_found text_beq kind_beq
qqq_added = refl
