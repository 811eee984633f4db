-- ===== src/Sessions/Wiped.antt =====
-- No key outlives its session (code/backend/sessions.py): a buffer that no entry owns holds zeros only.
use grindstone.Prelude.{
  ℕ, ◌-◌, String, ◌≡◌, refl, Bool, true, false, ◌||◌, Option, none, some, List, [], ◌∷◌, map, arith,
  ltb, every, ◌==◌, nat_eq, string_eq, Bool-cases, inl, inr, beq_refl, ap,
}
use grindstone.Sessions.Store.{
  Entry, Store, new_entry, new_store, find, pop, wipe, create, drop, drop_found, get, get_found,
  drop_all, tokens_of, revoke_user, revoke_all, Call, creating, getting, revoking, revoking_user,
  revoking_all, perform, perform_all, token_of,
}
use grindstone.Sessions.Sound.{owns, owns-touch, owns-put, is_fresh, are_fresh}

abbrev pub is_zero : List ℕ → Bool
is_zero bytes = every (λ b. b == 0) bytes

-- The buffer at an address is owned by an entry, or holds zeros only.
abbrev pub is_kept_or_wiped : ℕ → Store → Bool
is_kept_or_wiped a s = owns a s.by_token || is_zero (s.heap a)

zeros : (bytes : List ℕ) → is_zero (map (λ b. 0) bytes) ≡ true
zeros [] = refl
zeros (b ∷ bytes) = zeros bytes

abbrev owns_buffer : ℕ → Option Entry → Bool
owns_buffer a none = false
owns_buffer a (some e) = e.buffer == a

owns-pop_found :
    (tk : String) (a : ℕ) (es : List Entry)
    → owns a es ≡ (owns_buffer a (find tk es) || owns a (pop tk es))
owns-pop_found tk a [] = refl
owns-pop_found tk a (x ∷ es) = elim (Bool-cases (x.token == tk)) [
  | inl here ↦ rw here refl
  | inr there ↦ rw there (ground (arith, owns-pop_found tk a es))
]

is_zero-wipe :
    (a x : ℕ) (heap : ℕ → List ℕ) → is_zero (heap x) ≡ true → is_zero (wipe a heap x) ≡ true
is_zero-wipe a x heap h = elim (Bool-cases (x == a)) [
  | inl here ↦ rw here (zeros (heap x))
  | inr there ↦ rw there h
]

wiped : (a : ℕ) (heap : ℕ → List ℕ) → is_zero (wipe a heap a) ≡ true
wiped a heap = rw (beq_refl a) (zeros (heap a))

drop_found-keeps :
    (tk : String) (a : ℕ) (found : Option Entry) (s : Store)
    → (owns a s.by_token ≡ (owns_buffer a found || owns a (pop tk s.by_token)))
    → is_kept_or_wiped a s ≡ true
    → is_kept_or_wiped a (drop_found tk found s) ≡ true
drop_found-keeps tk a none s split h = h
drop_found-keeps tk a (some e) s split h = elim (Bool-cases (e.buffer == a)) [
  | inl mine ↦
      ground (arith, wiped a s.heap, λ (h : e.buffer ≡ a). ap (λ b. is_zero (wipe b s.heap a)) h)
  | inr other ↦ ground (arith, split, other, is_zero-wipe e.buffer a s.heap)
]

drop-keeps :
    (tk : String) (a : ℕ) (s : Store)
    → is_kept_or_wiped a s ≡ true
    → is_kept_or_wiped a (drop tk s) ≡ true
unfolding drop
drop-keeps tk a s h =
    drop_found-keeps tk a (find tk s.by_token) s (owns-pop_found tk a s.by_token) h

drop_all-keeps :
    (tks : List String) (a : ℕ) (s : Store)
    → is_kept_or_wiped a s ≡ true
    → is_kept_or_wiped a (drop_all tks s) ≡ true
unfolding drop_all
drop_all-keeps [] a s h = h
drop_all-keeps (tk ∷ tks) a s h = drop_all-keeps tks a (drop tk s) (drop-keeps tk a s h)

get_found-keeps :
    (tk : String) (now a : ℕ) (found : Option Entry) (s : Store)
    → is_kept_or_wiped a s ≡ true
    → is_kept_or_wiped a (get_found tk now found s).1 ≡ true
get_found-keeps tk now a none s h = h
get_found-keeps tk now a (some e) s h = elim (Bool-cases (ltb s.idle_seconds (now - e.last_seen))) [
  | inl idle ↦ rw idle (drop-keeps tk a s h)
  | inr busy ↦ rw busy (rw (owns-touch tk a now s.by_token) h)
]

get-keeps :
    (token : Option String) (now a : ℕ) (s : Store)
    → is_kept_or_wiped a s ≡ true
    → is_kept_or_wiped a (get token now s).1 ≡ true
unfolding get
get-keeps none now a s h = h
get-keeps (some tk) now a s h = elim (Bool-cases (tk == "")) [
  | inl empty ↦ rw empty h
  | inr named ↦ rw named (get_found-keeps tk now a (find tk s.by_token) s h)
]

perform-keeps :
    (c : Call) (a : ℕ) (s : Store)
    → is_fresh c s ≡ true
    → is_kept_or_wiped a s ≡ true
    → is_kept_or_wiped a (perform c s) ≡ true
unfolding perform create revoke_user revoke_all
perform-keeps (creating user name dek tk now) a s fresh h =
    rw (owns-put (new_entry user name tk now s) a s.by_token (ground (arith, fresh)))
      (ground (arith, h))
perform-keeps (getting tk now) a s fresh h = get-keeps tk now a s h
perform-keeps (revoking tk) a s fresh h = drop-keeps tk a s h
perform-keeps (revoking_user user) a s fresh h = drop_all-keeps (tokens_of user s) a s h
perform-keeps revoking_all a s fresh h = drop_all-keeps (map token_of s.by_token) a s h

kept_or_wiped :
    (cs : List Call) (a : ℕ) (s : Store)
    → are_fresh cs s ≡ true
    → is_kept_or_wiped a s ≡ true
    → is_kept_or_wiped a (perform_all cs s) ≡ true
unfolding perform_all
kept_or_wiped [] a s fresh h = h
kept_or_wiped (c ∷ cs) a s fresh h =
    kept_or_wiped cs a (perform c s) (ground (arith, fresh))
      (perform-keeps c a s (ground (arith, fresh)) h)

-- After any calls of a new store whose created tokens are fresh, every buffer that was ever made
-- either belongs to a session in the store or holds zeros only: no key outlives its session.
pub no_key_outlives :
    (idle : ℕ) (cs : List Call) (a : ℕ)
    → are_fresh cs (new_store idle) ≡ true
    → owns a (perform_all cs (new_store idle)).by_token ≡ false
    → is_zero ((perform_all cs (new_store idle)).heap a) ≡ true
no_key_outlives idle cs a fresh unowned =
    ground (arith, unowned, kept_or_wiped cs a (new_store idle) fresh refl)
