-- ===== src/Favorites/Starred.antt =====
-- Starring twice, the limits of the table, and the place of a new favorite: code/backend/favorites.py.
use grindstone.Prelude.{
  ℕ, ◌≡◌, refl, Bool, true, false, ◌&&◌, not, Option, none, some, List, [], ◌∷◌, ◌++◌, map, keep,
  leb, length, ◌==◌, nat_eq, text_eq, arith, if◌then◌else◌, Result, ok, refused, ◌>>=◌, bind-eq-ok,
  Bool-cases, inl, inr, ap, beq_refl, ◌∙◌,
}
use grindstone.Json.{Json}
use grindstone.Unicode.{Unicode}
use grindstone.Favorites.Store.{
  max_favorites, Kind, symbol, page, web, Fault, Clean, Row, kind_beq, is_star, find, is_of,
  is_empty, with_icon, set_icon, inserted, add_found, add_clean, add, validate_new,
}

kind_beq_refl : (k : Kind) → kind_beq k k ≡ true
unfolding kind_beq
kind_beq_refl symbol = refl
kind_beq_refl page = refl
kind_beq_refl web = refl

found : (s r : Row) → some s ≡ some r → s ≡ r
found s r e = cc

-- A change that the test does not see.
find-map :
    (p : Row → Bool) (f : Row → Row) (rs : List Row) (r : Row)
    → ((s : Row) → p (f s) ≡ p s)
    → find p rs ≡ some r
    → find p (map f rs) ≡ some (f r)
find-map p f [] r same e = cc
find-map p f (s ∷ rs) r same e = elim (Bool-cases (p s)) [
  | inl is ↦ rw (same s, is) (ap (λ (t : Row). some (f t)) (found s r (rw is at e)))
  | inr other ↦ rw (same s, other) (find-map p f rs r same (rw other at e))
]

find-append :
    (p : Row → Bool) (rs : List Row) (x : Row)
    → find p rs ≡ none
    → p x ≡ true
    → find p (rs ++ x ∷ []) ≡ some x
find-append p [] x e h = rw h refl
find-append p (s ∷ rs) x e h = ground (arith, find-append p rs x)

not_ok : {fault : Fault} {a : List Row × Row} → refused fault ≡ ok a → ⊥
not_ok e = cc

not_both : (b : Bool) → (not b && b) ≡ false
not_both true = refl
not_both false = refl

abbrev stars : ℕ → Clean → Row → Bool
stars user c = is_star user c.kind c.key

kept_again :
    (user : ℕ) (c : Clean) (rs : List Row) (r : Row)
    → find (stars user c) rs ≡ some r
    → (not (is_empty c.icon) && is_empty r.favorite.icon) ≡ false
    → add_clean user c rs ≡ ok (rs, r)
unfolding add_found
kept_again user c rs r e h = rw (e, add_found) (rw h refl)

upgraded_again :
    (user : ℕ) (c : Clean) (rs : List Row) (r : Row)
    → find (stars user c) rs ≡ some r
    → (not (is_empty c.icon) && is_empty r.favorite.icon) ≡ true
    → add_clean user c (set_icon r.id c.icon rs) ≡ ok (set_icon r.id c.icon rs, with_icon c.icon r)
upgraded_again user c rs r e h =
    kept_again user c (set_icon r.id c.icon rs) (with_icon c.icon r)
      (find-map (stars user c) (λ s. if s.id == r.id then with_icon c.icon s else s) rs r
          (λ s. ground arith) e
        ∙ rw (beq_refl r.id) refl)
      (not_both (is_empty c.icon))

inserted_again :
    (user : ℕ) (c : Clean) (rs : List Row)
    → find (stars user c) rs ≡ none
    → add_clean user c (rs ++ inserted user c rs ∷ [])
      ≡ ok (rs ++ inserted user c rs ∷ [], inserted user c rs)
unfolding inserted
inserted_again user c rs e =
    kept_again user c (rs ++ inserted user c rs ∷ []) (inserted user c rs)
      (find-append (stars user c) rs (inserted user c rs) e
        (rw (beq_refl user, kind_beq_refl c.kind, beq_refl c.key) refl))
      (not_both (is_empty c.icon))

-- What was done once changes nothing again, by the equations of the table and the row.
same_outcome :
    (user : ℕ) (c : Clean) (rs rs' : List Row) (r r' : Row)
    → ◌≡◌ {A = Result Fault (List Row × Row)} (ok (rs, r)) (ok (rs', r'))
    → add_clean user c rs ≡ ok (rs, r)
    → add_clean user c rs' ≡ ok (rs', r')
same_outcome user c rs rs' r r' e h =
    let tables : rs ≡ rs' = cc e in let rows : r ≡ r' = cc e in rw (← tables, ← rows) h

-- The step after `find`, with what it found.
again :
    (user : ℕ) (c : Clean) (rs rs' : List Row) (r : Row) (o : Option Row)
    → find (is_star user c.kind c.key) rs ≡ o
    → add_found user c rs o ≡ ok (rs', r)
    → add_clean user c rs' ≡ ok (rs', r)
unfolding add_found
again user c rs rs' r (some s) e h =
    elim (Bool-cases (not (is_empty c.icon) && is_empty s.favorite.icon)) [
      | inl up ↦
          same_outcome user c (set_icon s.id c.icon rs) rs' (with_icon c.icon s) r (rw up at h)
            (upgraded_again user c rs s e up)
      | inr keeps ↦ same_outcome user c rs rs' s r (rw keeps at h) (kept_again user c rs s e keeps)
    ]
again user c rs rs' r none e h =
    elim (Bool-cases (leb max_favorites (length (keep (is_of user) rs)))) [
      | inl full ↦ absurd (not_ok (rw full at h))
      | inr room ↦
          same_outcome user c (rs ++ inserted user c rs ∷ []) rs' (inserted user c rs) r
            (rw room at h) (inserted_again user c rs e)
    ]

-- Starring is idempotent: what `add` returned it returns again for the same favorite, and the table
-- stays as the first call left it.
pub add_twice :
    (u : Unicode) (user : ℕ) (kind key label icon : Json) (rs rs' : List Row) (r : Row)
    → add u user kind key label icon rs ≡ ok (rs', r)
    → add u user kind key label icon rs' ≡ ok (rs', r)
unfolding add
add_twice u user kind key label icon rs rs' r h =
    let (c, valid, done) =
      bind-eq-ok (validate_new u kind key label icon) (λ c. add_clean user c rs) h in
    rw (valid)
      (unfold ◌>>=◌ in again user c rs rs' r (find (is_star user c.kind c.key) rs) refl done)
