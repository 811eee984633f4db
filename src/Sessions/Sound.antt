-- ===== src/Sessions/Sound.antt =====
-- Each entry of the store has a token and a buffer of its own (code/backend/sessions.py).
use grindstone.Prelude.{
  ℕ, ◌+◌, ◌-◌, String, ◌≡◌, refl, Bool, true, false, ◌&&◌, ◌||◌, not, Option, none, some, List, [],
  ◌∷◌, map, arith, ltb, any, ◌==◌, nat_eq, string_eq, eq_iff, Bool-cases, Option-cases, inl, inr,
}
use grindstone.Sessions.Store.{
  Entry, Store, new_entry, find, pop, put, touch, create, drop, get, get_found, drop_all, tokens_of,
  revoke_user, revoke_all, Call, creating, getting, revoking, revoking_user, revoking_all, perform,
  perform_all, token_of,
}

abbrev pub has_token : String → List Entry → Bool
has_token tk es = any (λ e. e.token == tk) es

abbrev pub owns : ℕ → List Entry → Bool
owns a es = any (λ e. e.buffer == a) es

-- The buffers are in use, and no two entries share a token or a buffer.
abbrev pub are_sound : ℕ → List Entry → Bool
are_sound next [] = true
are_sound next (e ∷ es) =
    ltb e.buffer next
    && (not (has_token e.token es) && (not (owns e.buffer es) && are_sound next es))

abbrev pub is_sound : Store → Bool
is_sound s = are_sound s.next s.by_token

has_token-pop :
    (tk t : String) (es : List Entry) → has_token t es ≡ false → has_token t (pop tk es) ≡ false
has_token-pop tk t [] h = refl
has_token-pop tk t (e ∷ es) h = ground (arith, has_token-pop tk t es)

owns-pop : (tk : String) (a : ℕ) (es : List Entry) → owns a es ≡ false → owns a (pop tk es) ≡ false
owns-pop tk a [] h = refl
owns-pop tk a (e ∷ es) h = ground (arith, owns-pop tk a es)

are_sound-pop :
    (next : ℕ) (tk : String) (es : List Entry)
    → are_sound next es ≡ true
    → are_sound next (pop tk es) ≡ true
are_sound-pop next tk [] h = refl
are_sound-pop next tk (e ∷ es) h =
    ground (arith, are_sound-pop next tk es, has_token-pop tk e.token es, owns-pop tk e.buffer es)

pub has_token-touch :
    (tk t : String) (now : ℕ) (es : List Entry) → has_token t (touch tk now es) ≡ has_token t es
has_token-touch tk t now [] = refl
has_token-touch tk t now (e ∷ es) = ground (arith, has_token-touch tk t now es)

pub owns-touch : (tk : String) (a now : ℕ) (es : List Entry) → owns a (touch tk now es) ≡ owns a es
owns-touch tk a now [] = refl
owns-touch tk a now (e ∷ es) = ground (arith, owns-touch tk a now es)

are_sound-touch :
    (next : ℕ) (tk : String) (now : ℕ) (es : List Entry)
    → are_sound next (touch tk now es) ≡ are_sound next es
are_sound-touch next tk now [] = refl
are_sound-touch next tk now (e ∷ es) = ground (
  arith,
  are_sound-touch next tk now es,
  has_token-touch tk e.token now es,
  owns-touch tk e.buffer now es,
)

has_token-put :
    (n : Entry) (t : String) (es : List Entry)
    → has_token n.token es ≡ false
    → has_token t (put n es) ≡ (has_token t es || n.token == t)
has_token-put n t [] h = ground arith
has_token-put n t (e ∷ es) h = ground (arith, has_token-put n t es)

pub owns-put :
    (n : Entry) (a : ℕ) (es : List Entry)
    → has_token n.token es ≡ false
    → owns a (put n es) ≡ (owns a es || n.buffer == a)
owns-put n a [] h = ground arith
owns-put n a (e ∷ es) h = ground (arith, owns-put n a es)

are_sound-put :
    (next : ℕ) (n : Entry) (es : List Entry)
    → n.buffer ≡ next
    → has_token n.token es ≡ false
    → are_sound next es ≡ true
    → are_sound (next + 1) (put n es) ≡ true
are_sound-put next n [] here fresh h = ground arith
are_sound-put next n (e ∷ es) here fresh h = ground (
  arith,
  are_sound-put next n es here,
  has_token-put n e.token es,
  owns-put n e.buffer es,
  eq_iff n.token e.token,
  eq_iff e.token n.token,
)

pub drop-is_sound : (tk : String) (s : Store) → is_sound s ≡ true → is_sound (drop tk s) ≡ true
unfolding drop
drop-is_sound tk s h = elim (Option-cases (find tk s.by_token)) [
  | inl missing ↦ rw missing h
  | inr (e, found) ↦ rw found (are_sound-pop s.next tk s.by_token h)
]

pub drop_all-is_sound :
    (tks : List String) (s : Store) → is_sound s ≡ true → is_sound (drop_all tks s) ≡ true
unfolding drop_all
drop_all-is_sound [] s h = h
drop_all-is_sound (tk ∷ tks) s h = drop_all-is_sound tks (drop tk s) (drop-is_sound tk s h)

get_found-is_sound :
    (tk : String) (now : ℕ) (found : Option Entry) (s : Store)
    → is_sound s ≡ true
    → is_sound (get_found tk now found s).1 ≡ true
get_found-is_sound tk now none s h = h
get_found-is_sound tk now (some e) s h =
    elim (Bool-cases (ltb s.idle_seconds (now - e.last_seen))) [
      | inl idle ↦ rw idle (drop-is_sound tk s h)
      | inr busy ↦ rw busy (rw (are_sound-touch s.next tk now s.by_token) h)
    ]

get-is_sound :
    (token : Option String) (now : ℕ) (s : Store)
    → is_sound s ≡ true
    → is_sound (get token now s).1 ≡ true
unfolding get
get-is_sound none now s h = h
get-is_sound (some tk) now s h = elim (Bool-cases (tk == "")) [
  | inl empty ↦ rw empty h
  | inr named ↦ rw named (get_found-is_sound tk now (find tk s.by_token) s h)
]

-- A token that is created is not in the store.
abbrev pub is_fresh : Call → Store → Bool
is_fresh (creating user name dek tk now) s = not (has_token tk s.by_token)
is_fresh _ s = true

abbrev pub are_fresh : List Call → Store → Bool
are_fresh [] s = true
are_fresh (c ∷ cs) s = is_fresh c s && are_fresh cs (perform c s)

pub perform-is_sound :
    (c : Call) (s : Store) → is_fresh c s ≡ true → is_sound s ≡ true → is_sound (perform c s) ≡ true
unfolding perform create revoke_user revoke_all
perform-is_sound (creating user name dek tk now) s fresh h =
    are_sound-put s.next (new_entry user name tk now s) s.by_token refl (ground (arith, fresh)) h
perform-is_sound (getting tk now) s fresh h = get-is_sound tk now s h
perform-is_sound (revoking tk) s fresh h = drop-is_sound tk s h
perform-is_sound (revoking_user user) s fresh h = drop_all-is_sound (tokens_of user s) s h
perform-is_sound revoking_all s fresh h = drop_all-is_sound (map token_of s.by_token) s h

-- Any calls whose created tokens are fresh keep a token and a buffer of its own for each entry.
pub perform_all-is_sound :
    (cs : List Call) (s : Store)
    → are_fresh cs s ≡ true
    → is_sound s ≡ true
    → is_sound (perform_all cs s) ≡ true
unfolding perform_all
perform_all-is_sound [] s fresh h = h
perform_all-is_sound (c ∷ cs) s fresh h =
    perform_all-is_sound cs (perform c s) (ground (arith, fresh))
      (perform-is_sound c s (ground (arith, fresh)) h)
