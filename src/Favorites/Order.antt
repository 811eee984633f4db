-- ===== src/Favorites/Order.antt =====
-- A new favorite comes last in the list of its user: `list_` of code/backend/favorites.py.
use grindstone.Prelude.{
  ℕ, ◌<◌, ◌≡◌, refl, Bool, true, none, List, [], ◌∷◌, ◌++◌, map, keep, every, ltb, leb, length,
  nat_eq, text_eq, arith, Result, ok, refused, Bool-cases, inl, inr, ap, beq_refl,
}
use grindstone.Favorites.Store.{
  max_favorites, Fault, Clean, Row, is_star, find, is_of, greatest, inserted, add_found, add_clean,
  is_before, insert_row, in_order, list,
}

not_ok : {fault : Fault} {a : List Row × Row} → refused fault ≡ ok a → ⊥
not_ok e = cc

-- The row comes after every other.
abbrev is_last : Row → List Row → Bool
is_last x rs = every (λ r. ltb r.pos x.pos) rs

insert_row-append :
    (r x : Row) (rs : List Row)
    → ltb r.pos x.pos ≡ true
    → insert_row r (rs ++ x ∷ []) ≡ insert_row r rs ++ x ∷ []
insert_row-append r x [] h = rw h refl
insert_row-append r x (s ∷ rs) h = elim (Bool-cases (is_before r s)) [
  | inl before ↦ rw before refl
  | inr after ↦ rw after (ap (◌∷◌ s) (insert_row-append r x rs h))
]

in_order-append :
    (x : Row) (rs : List Row)
    → is_last x rs ≡ true
    → in_order (rs ++ x ∷ []) ≡ in_order rs ++ x ∷ []
in_order-append x [] h = refl
in_order-append x (r ∷ rs) h =
    rw (in_order-append x rs (ground (arith, h)))
      (insert_row-append r x (in_order rs) (ground (arith, h)))

keep-append :
    (p : Row → Bool) (rs : List Row) (x : Row)
    → p x ≡ true
    → keep p (rs ++ x ∷ []) ≡ keep p rs ++ x ∷ []
keep-append p [] x h = rw h refl
keep-append p (r ∷ rs) x h = elim (Bool-cases (p r)) [
  | inl is ↦ rw is (ap (◌∷◌ r) (keep-append p rs x h))
  | inr other ↦ rw other (keep-append p rs x h)
]

below_greatest :
    (n : ℕ) (rs : List Row)
    → greatest (map (λ (r : Row). r.pos) rs) < n
    → every (λ r. ltb r.pos n) rs ≡ true
below_greatest n [] h = refl
below_greatest n (r ∷ rs) h = ground (arith, below_greatest n rs)

list-inserted :
    (user : ℕ) (c : Clean) (rs : List Row)
    → list user (rs ++ inserted user c rs ∷ []) ≡ list user rs ++ inserted user c rs ∷ []
unfolding list inserted
list-inserted user c rs = rw (keep-append (is_of user) rs (inserted user c rs) (beq_refl user)) (
    in_order-append (inserted user c rs) (keep (is_of user) rs)
      (below_greatest (inserted user c rs).pos (keep (is_of user) rs) (omega arith)))

ended :
    (user : ℕ) (c : Clean) (rs rs' : List Row) (r : Row)
    → ◌≡◌ {A = Result Fault (List Row × Row)}
        (ok (rs ++ inserted user c rs ∷ [], inserted user c rs))
        (ok (rs', r))
    → list user rs' ≡ list user rs ++ r ∷ []
ended user c rs rs' r e =
    let tables : rs ++ inserted user c rs ∷ [] ≡ rs' = cc e in
    let rows : inserted user c rs ≡ r = cc e in rw (← tables, ← rows) (list-inserted user c rs)

-- A favorite that was not there and that `add` does not refuse comes last in the list of the user,
-- behind every one before it, whose order stays.
pub list-add_clean :
    (user : ℕ) (c : Clean) (rs rs' : List Row) (r : Row)
    → find (is_star user c.kind c.key) rs ≡ none
    → add_clean user c rs ≡ ok (rs', r)
    → list user rs' ≡ list user rs ++ r ∷ []
unfolding add_found
list-add_clean user c rs rs' r e h =
    let h' = rw (e, add_found) at h in
    elim (Bool-cases (leb max_favorites (length (keep (is_of user) rs)))) [
      | inl full ↦ absurd (not_ok (rw full at h'))
      | inr room ↦ ended user c rs rs' r (rw room at h')
    ]
