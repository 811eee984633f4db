-- ===== src/Sessions/Newest.antt =====
-- `any_for_user` of code/backend/sessions.py gives the newest session of the user.
use grindstone.Prelude.{
  ℕ, ◌-◌, ◌≤◌, ◌≡◌, refl, Bool, true, false, ◌&&◌, ◌||◌, not, Option, none, some, List, [], ◌∷◌,
  arith, ltb, leb, any, every, ◌==◌, nat_eq, string_eq, if◌then◌else◌, Bool-cases, inl, inr,
  beq_refl,
}
use grindstone.Sessions.Store.{Entry, Store, Snapshot, newest, newest_snapshot, any_for_user}

unfoldable pub same_entry : Entry → Entry → Bool
same_entry a b =
    a.token == b.token
    && (a.user_id == b.user_id
        && (a.username == b.username && (a.buffer == b.buffer && a.last_seen == b.last_seen)))

same_entry_refl : (a : Entry) → same_entry a a ≡ true
unfolding same_entry
same_entry_refl a = ground (arith, beq_refl a.token, beq_refl a.username)

abbrev is_older : ℕ → ℕ → Entry → Bool
is_older user n e = not (e.user_id == user) || leb e.last_seen n

-- The entry is one of the list and the user's, and none of the user's entries was seen later; or the
-- user has no entry.
abbrev pub is_newest : ℕ → List Entry → Option Entry → Bool
is_newest user es none = not (any (λ e. e.user_id == user) es)
is_newest user es (some b) =
    any (same_entry b) es
    && (b.user_id == user && every (λ e. not (e.user_id == user) || leb e.last_seen b.last_seen) es)

grow_newer :
    (user : ℕ) (b e : Entry) (es : List Entry) (r : Option Entry)
    → (e.user_id == user) ≡ true
    → b.last_seen ≤ e.last_seen
    → is_newest user (e ∷ es) r ≡ true
    → is_newest user (b ∷ e ∷ es) r ≡ true
grow_newer user b e es none mine le h = ground arith
grow_newer user b e es (some r) mine le h = ground arith

grow_older :
    (user : ℕ) (b e : Entry) (es : List Entry) (r : Option Entry)
    → (b.user_id == user) ≡ true
    → (e.user_id == user && ltb b.last_seen e.last_seen) ≡ false
    → is_newest user (b ∷ es) r ≡ true
    → is_newest user (b ∷ e ∷ es) r ≡ true
grow_older user b e es none mine older h = ground arith
grow_older user b e es (some r) mine older h = ground arith

newest-some :
    (user : ℕ) (es : List Entry) (b : Entry)
    → (b.user_id == user) ≡ true
    → is_newest user (b ∷ es) (newest user es (some b)) ≡ true
unfolding newest
newest-some user [] b mine = ground (arith, same_entry_refl b)
newest-some user (e ∷ es) b mine =
    elim (Bool-cases (e.user_id == user && ltb b.last_seen e.last_seen)) [
      | inl newer ↦
          let own : (e.user_id == user) ≡ true = ground (arith, newer) in
          rw (newer, newest)
            (grow_newer user b e es (newest user es (some e)) own (ground (arith, newer))
              (newest-some user es e own))
      | inr older ↦
          rw (older, newest)
            (grow_older user b e es (newest user es (some b)) mine older
              (newest-some user es b mine))
    ]

skip_other :
    (user : ℕ) (e : Entry) (es : List Entry) (r : Option Entry)
    → (e.user_id == user) ≡ false
    → is_newest user es r ≡ true
    → is_newest user (e ∷ es) r ≡ true
skip_other user e es none other h = ground arith
skip_other user e es (some r) other h = ground arith

newest-is_newest : (user : ℕ) (es : List Entry) → is_newest user es (newest user es none) ≡ true
unfolding newest
newest-is_newest user [] = refl
newest-is_newest user (e ∷ es) = elim (Bool-cases (e.user_id == user)) [
  | inl mine ↦ rw (mine, newest) (newest-some user es e mine)
  | inr other ↦
      rw (other, newest)
        (skip_other user e es (newest user es none) other (newest-is_newest user es))
]

-- What `any_for_user` returns for a newest session: its user and key, if it is not idle.
abbrev pub if_active : ℕ → Store → Option Entry → Option Snapshot
if_active now s none = none
if_active now s (some b) =
    if leb (now - b.last_seen) s.idle_seconds
    then some (record { user_id = b.user_id; username = b.username; dek = s.heap b.buffer })
    else none

active_same :
    (now : ℕ) (s : Store) (best : Option Entry) → newest_snapshot now s best ≡ if_active now s best
active_same now s none = refl
active_same now s (some b) = ground arith

-- `any_for_user` gives the user and the key of a session of the user that no other session of the
-- user was seen later than, unless that session is idle for too long; and nothing if the user has no
-- session.
pub any_for_user_exact :
    (user now : ℕ) (s : Store)
    → (best : Option Entry) × (is_newest user s.by_token best ≡ true)
      × (any_for_user user now s ≡ if_active now s best)
unfolding any_for_user
any_for_user_exact user now s = (
  newest user s.by_token none,
  newest-is_newest user s.by_token,
  active_same now s (newest user s.by_token none),
)
