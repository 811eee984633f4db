-- ===== src/Favorites/Limits.antt =====
-- The table of favorites of code/backend/favorites.py stays within its limits.
use grindstone.Prelude.{
  ℕ, ◌+◌, ◌≤◌, ◌<◌, ◌≡◌, refl, Bool, true, false, ◌&&◌, not, Option, none, some, List, [], ◌∷◌,
  ◌++◌, map, keep, any, leb, length, ◌==◌, nat_eq, text_eq, Text, arith, if◌then◌else◌, Result, ok,
  refused, bind-eq-ok, Bool-cases, inl, inr, ap, any-append, ◌∙◌,
}
use grindstone.Json.{Json}
use grindstone.Unicode.{Unicode}
use grindstone.Favorites.Store.{
  max_favorites, Kind, symbol, page, web, Fault, Clean, Row, kind_beq, is_star, find, is_of,
  greatest, is_empty, with_icon, set_icon, inserted, add_found, add_clean, add, validate_new,
  remove,
}

-- The row is a favorite of the same user, kind and key.
abbrev pub is_same_star : Row → Row → Bool
is_same_star r s = is_star r.user r.favorite.kind r.favorite.key s

-- The constraint UNIQUE (user_id, kind, key), and the primary key.
abbrev pub is_unique : List Row → Bool
is_unique [] = true
is_unique (r ∷ rs) =
    (not (any (is_same_star r) rs) && not (any (λ s. s.id == r.id) rs)) && is_unique rs

abbrev pub count_of : ℕ → List Row → ℕ
count_of user rs = length (keep (is_of user) rs)

-- No user has too many, no favorite is there twice, and the ids differ.
pub record IsTable (rs : List Row) : Type 0 where
  pub few : (user : ℕ) → count_of user rs ≤ max_favorites
  pub unique : is_unique rs ≡ true

any-set_icon :
    (p : Row → Bool) (f : Row → Row) (rs : List Row)
    → ((s : Row) → p (f s) ≡ p s)
    → any p (map f rs) ≡ any p rs
any-set_icon p f [] same = refl
any-set_icon p f (r ∷ rs) same = rw (same r, any-set_icon p f rs same) refl

is_unique-set_icon :
    (id : ℕ) (icon : Text) (rs : List Row) → is_unique (set_icon id icon rs) ≡ is_unique rs
is_unique-set_icon id icon [] = refl
is_unique-set_icon id icon (r ∷ rs) =
    let f : Row → Row = λ s. if s.id == id then with_icon icon s else s in
    let stars = any-set_icon (is_same_star r) f rs (λ s. ground arith) in
    let ids = any-set_icon (λ s. s.id == r.id) f rs (λ s. ground arith) in
    elim (Bool-cases (r.id == id)) [
      | inl is ↦ rw is (rw (stars, ids, is_unique-set_icon id icon rs) refl)
      | inr other ↦ rw other (rw (stars, ids, is_unique-set_icon id icon rs) refl)
    ]

count_of-set_icon :
    (user id : ℕ) (icon : Text) (rs : List Row)
    → count_of user (set_icon id icon rs) ≡ count_of user rs
count_of-set_icon user id icon [] = refl
count_of-set_icon user id icon (r ∷ rs) = ground (arith, count_of-set_icon user id icon rs)

count_of-append :
    (user : ℕ) (rs : List Row) (x : Row)
    → count_of user (rs ++ x ∷ []) ≡ count_of user rs + (if is_of user x then 1 else 0)
count_of-append user [] x = ground arith
count_of-append user (r ∷ rs) x = ground (arith, count_of-append user rs x)

any-find : (p : Row → Bool) (rs : List Row) → find p rs ≡ none → any p rs ≡ false
any-find p [] e = refl
any-find p (r ∷ rs) e = ground (arith, any-find p rs)

-- An id above every other is none of them.
id_above :
    (id : ℕ) (rs : List Row)
    → greatest (map (λ (r : Row). r.id) rs) < id
    → any (λ s. s.id == id) rs ≡ false
id_above id [] h = refl
id_above id (r ∷ rs) h = ground (arith, id_above id rs)

kind_beq_sym : (k l : Kind) → kind_beq k l ≡ kind_beq l k
unfolding kind_beq
kind_beq_sym symbol symbol = refl
kind_beq_sym symbol page = refl
kind_beq_sym symbol web = refl
kind_beq_sym page symbol = refl
kind_beq_sym page page = refl
kind_beq_sym page web = refl
kind_beq_sym web symbol = refl
kind_beq_sym web page = refl
kind_beq_sym web web = refl

is_same_star_sym : (r s : Row) → is_same_star r s ≡ is_same_star s r
is_same_star_sym r s = ground (
  arith,
  kind_beq_sym r.favorite.kind s.favorite.kind,
  text_eq.same_iff r.favorite.key s.favorite.key,
  text_eq.same_iff s.favorite.key r.favorite.key,
)

is_unique-append :
    (rs : List Row) (x : Row)
    → is_unique rs ≡ true
    → any (is_same_star x) rs ≡ false
    → any (λ s. s.id == x.id) rs ≡ false
    → is_unique (rs ++ x ∷ []) ≡ true
is_unique-append [] x h star id = refl
is_unique-append (r ∷ rs) x h star id =
    rw (any-append (is_same_star r) rs (x ∷ []), any-append (λ s. s.id == r.id) rs (x ∷ []))
      (ground (arith, is_unique-append rs x, is_same_star_sym r x))

room_for :
    (user user' : ℕ) (c : Clean) (rs : List Row)
    → ((v : ℕ) → count_of v rs ≤ max_favorites)
    → leb max_favorites (count_of user rs) ≡ false
    → count_of user' (rs ++ inserted user c rs ∷ []) ≤ max_favorites
unfolding inserted
room_for user user' c rs few room = ground (
  arith,
  count_of-append user' rs (inserted user c rs),
  few user,
  few user',
  ap (λ v. count_of v rs),
)

inserted-IsTable :
    (user : ℕ) (c : Clean) (rs : List Row)
    → IsTable rs
    → find (is_star user c.kind c.key) rs ≡ none
    → leb max_favorites (count_of user rs) ≡ false
    → IsTable (rs ++ inserted user c rs ∷ [])
unfolding inserted
inserted-IsTable user c rs t e room = record {
  few = λ user'. room_for user user' c rs t.few room;
  unique =
      is_unique-append rs (inserted user c rs) t.unique (any-find (is_star user c.kind c.key) rs e)
        (id_above (inserted user c rs).id rs (omega arith));
}

set_icon-IsTable :
    (id : ℕ) (icon : Text) (rs : List Row) → IsTable rs → IsTable (set_icon id icon rs)
set_icon-IsTable id icon rs t = record {
  few = λ user. rw (count_of-set_icon user id icon rs) (t.few user);
  unique = is_unique-set_icon id icon rs ∙ t.unique;
}

table :
    (rs rs' : List Row) (r r' : Row)
    → ◌≡◌ {A = Result Fault (List Row × Row)} (ok (rs, r)) (ok (rs', r'))
    → rs ≡ rs'
table rs rs' r r' e = cc

not_ok : {fault : Fault} {a : List Row × Row} → refused fault ≡ ok a → ⊥
not_ok e = cc

add_found-IsTable :
    (user : ℕ) (c : Clean) (rs rs' : List Row) (r : Row) (o : Option Row)
    → IsTable rs
    → find (is_star user c.kind c.key) rs ≡ o
    → add_found user c rs o ≡ ok (rs', r)
    → IsTable rs'
unfolding add_found
add_found-IsTable user c rs rs' r (some s) t e h =
    elim (Bool-cases (not (is_empty c.icon) && is_empty s.favorite.icon)) [
      | inl up ↦
          rw (← table (set_icon s.id c.icon rs) rs' (with_icon c.icon s) r (rw up at h))
            (set_icon-IsTable s.id c.icon rs t)
      | inr keeps ↦ rw (← table rs rs' s r (rw keeps at h)) t
    ]
add_found-IsTable user c rs rs' r none t e h =
    elim (Bool-cases (leb max_favorites (count_of user rs))) [
      | inl full ↦ absurd (not_ok (rw full at h))
      | inr room ↦
          rw (← table (rs ++ inserted user c rs ∷ []) rs' (inserted user c rs) r (rw room at h))
            (inserted-IsTable user c rs t e room)
    ]

any_kept : (p q : Row → Bool) (rs : List Row) → any p rs ≡ false → any p (keep q rs) ≡ false
any_kept p q [] h = refl
any_kept p q (r ∷ rs) h = ground (arith, any_kept p q rs)

is_unique-keep :
    (q : Row → Bool) (rs : List Row) → is_unique rs ≡ true → is_unique (keep q rs) ≡ true
is_unique-keep q [] h = refl
is_unique-keep q (r ∷ rs) h =
    ground (
      arith,
      is_unique-keep q rs,
      any_kept (is_same_star r) q rs,
      any_kept (λ s. s.id == r.id) q rs,
    )

count_of-keep :
    (user : ℕ) (q : Row → Bool) (rs : List Row) → count_of user (keep q rs) ≤ count_of user rs
count_of-keep user q [] = omega arith
count_of-keep user q (r ∷ rs) = ground (arith, count_of-keep user q rs)

-- What changes the table: an `add` that is not refused, or a `remove`.
pub data Step (u : Unicode) : List Row → List Row → Type 0 where
  adds :
      (user : ℕ) (kind key label icon : Json) (rs rs' : List Row) (r : Row)
      → add u user kind key label icon rs ≡ ok (rs', r)
      → Step u rs rs'
  removes : (user id : ℕ) (rs rs' : List Row) → (remove user id rs).0 ≡ rs' → Step u rs rs'

pub data Reach (u : Unicode) : List Row → Type 0 where
  start : (rs : List Row) → [] ≡ rs → Reach u rs
  next : (rs rs' : List Row) → Reach u rs → Step u rs rs' → Reach u rs'

Step-IsTable : (u : Unicode) (rs rs' : List Row) → Step u rs rs' → IsTable rs → IsTable rs'
unfolding add remove
Step-IsTable u _ _ (adds user kind key label icon rs rs' r h) t =
    let (c, valid, done) =
      bind-eq-ok (validate_new u kind key label icon) (λ c. add_clean user c rs) h in
    add_found-IsTable user c rs rs' r (find (is_star user c.kind c.key) rs) t refl done
Step-IsTable u _ _ (removes user id rs rs' e) t =
    let gone : Row → Bool = λ r. not (is_of user r && (r.id == id)) in
    rw (← e) (record {
      few = λ v. omega (arith, t.few v, count_of-keep v gone rs);
      unique = is_unique-keep gone rs t.unique;
    })

-- Whatever is starred and un-starred, from an empty table: no user has more than 48 favorites, no
-- favorite of a user is there twice, and the ids differ.
pub Reach-IsTable : (u : Unicode) (rs : List Row) → Reach u rs → IsTable rs
Reach-IsTable u _ (start rs e) = rw (← e) (record { few = λ v. omega arith; unique = refl })
Reach-IsTable u _ (next rs rs' before step) = Step-IsTable u rs rs' step (Reach-IsTable u rs before)
