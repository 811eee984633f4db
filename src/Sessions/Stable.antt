-- ===== src/Sessions/Stable.antt =====
-- What the calls of the store do to a session (code/backend/sessions.py): it gives the key it was
-- created with, or none, and revoking a user ends that user's sessions and no other.
use grindstone.Prelude.{
  ℕ, ◌-◌, String, ◌≡◌, refl, sym, ◌∙◌, ◌⊎◌, Bool, true, false, Option, none, some, List, [], ◌∷◌,
  map, arith, ltb, any, keep, contains, ◌==◌, nat_eq, string_eq, if◌then◌else◌, Bool-cases, inl,
  inr, beq_refl,
}
use grindstone.Sessions.Store.{
  Snapshot, Entry, Store, new_entry, find, alloc, snapshot, create, drop, get, get_found, drop_all,
  tokens_of, revoke_user, revoke_all, Call, creating, getting, revoking, revoking_user,
  revoking_all, perform, perform_all, token_of,
}
use grindstone.Sessions.Sound.{
  has_token, are_sound, is_sound, drop-is_sound, is_fresh, are_fresh, perform-is_sound,
}
use grindstone.Sessions.Keys.{
  view_in, view, view_in-touch, view_in-alloc, view_in-put, view-drop, lone_token,
}

view-drop_all :
    (tks : List String) (s : Store) (t : String)
    → is_sound s ≡ true
    → view (drop_all tks s) t ≡ (if contains tks t then none else view s t)
unfolding drop_all
view-drop_all [] s t h = refl
view-drop_all (tk ∷ tks) s t h =
    view-drop_all tks (drop tk s) t (drop-is_sound tk s h) ∙ ground (arith, view-drop tk s t h)

-- A token is left alone or loses its session, unless it is the one that a call creates.
abbrev pub Survives : Store → Store → String → Type 0
Survives s s' t = (view s' t ≡ none) ⊎ (view s' t ≡ view s t)

unless {ℓ} : {A : Type ℓ} (b : Bool) {x y z : A} → x ≡ (if b then y else z) → (x ≡ y) ⊎ (x ≡ z)
unless true h = inl h
unless false h = inr h

get_found-Survives :
    (tk : String) (now : ℕ) (found : Option Entry) (s : Store) (t : String)
    → is_sound s ≡ true
    → Survives s (get_found tk now found s).1 t
get_found-Survives tk now none s t h = inr refl
get_found-Survives tk now (some e) s t h =
    elim (Bool-cases (ltb s.idle_seconds (now - e.last_seen))) [
      | inl idle ↦ rw idle (unless (tk == t) (view-drop tk s t h))
      | inr busy ↦ rw busy (inr (view_in-touch tk now s.heap s.by_token t))
    ]

get-Survives :
    (token : Option String) (now : ℕ) (s : Store) (t : String)
    → is_sound s ≡ true
    → Survives s (get token now s).1 t
unfolding get
get-Survives none now s t h = inr refl
get-Survives (some tk) now s t h = elim (Bool-cases (tk == "")) [
  | inl empty ↦ rw empty (inr refl)
  | inr named ↦ rw named (get_found-Survives tk now (find tk s.by_token) s t h)
]

-- A call gives a new session its user and key, and is seen by no other token.
view-create :
    (user : ℕ) (name : String) (dek : List ℕ) (tk : String) (now : ℕ) (s : Store) (t : String)
    → is_sound s ≡ true
    → has_token tk s.by_token ≡ false
    → view (create user name dek tk now s) t
      ≡ (if tk == t then some (record { user_id = user; username = name; dek = dek }) else view s t)
unfolding create
view-create user name dek tk now s t h fresh =
    view_in-put (new_entry user name tk now s) (alloc s.next dek s.heap) s.by_token t fresh
    ∙ rw (view_in-alloc s.next dek s.heap s.by_token t h) (rw (beq_refl s.next) refl)

abbrev pub creates : String → Call → Bool
creates t (creating user name dek tk now) = tk == t
creates t _ = false

perform-Survives :
    (c : Call) (s : Store) (t : String)
    → is_fresh c s ≡ true
    → creates t c ≡ false
    → is_sound s ≡ true
    → Survives s (perform c s) t
unfolding perform revoke_user revoke_all
perform-Survives (creating user name dek tk now) s t fresh other h =
    inr (view-create user name dek tk now s t h (ground (arith, fresh)) ∙ rw other refl)
perform-Survives (getting tk now) s t fresh other h = get-Survives tk now s t h
perform-Survives (revoking tk) s t fresh other h = unless (tk == t) (view-drop tk s t h)
perform-Survives (revoking_user user) s t fresh other h =
    unless (contains (tokens_of user s) t) (view-drop_all (tokens_of user s) s t h)
perform-Survives revoking_all s t fresh other h =
    unless (contains (map token_of s.by_token) t) (view-drop_all (map token_of s.by_token) s t h)

Survives-both :
    (s s' s'' : Store) (t : String) → Survives s s' t → Survives s' s'' t → Survives s s'' t
Survives-both s s' s'' t a (inl gone) = inl gone
Survives-both s s' s'' t (inl gone) (inr same) = inl (same ∙ gone)
Survives-both s s' s'' t (inr same) (inr same') = inr (same' ∙ same)

perform_all-Survives :
    (cs : List Call) (s : Store) (t : String)
    → are_fresh cs s ≡ true
    → any (creates t) cs ≡ false
    → is_sound s ≡ true
    → Survives s (perform_all cs s) t
unfolding perform_all
perform_all-Survives [] s t fresh other h = inr refl
perform_all-Survives (c ∷ cs) s t fresh other h =
    Survives-both s (perform c s) (perform_all cs (perform c s)) t
      (perform-Survives c s t (ground (arith, fresh)) (ground (arith, other)) h)
      (perform_all-Survives cs (perform c s) t (ground (arith, fresh)) (ground (arith, other))
        (perform-is_sound c s (ground (arith, fresh)) h))

abbrev snapshot_of : (ℕ → List ℕ) → Option Entry → Option Snapshot
snapshot_of heap none = none
snapshot_of heap (some e) = some (snapshot heap e)

view_in-find :
    (heap : ℕ → List ℕ) (tk : String) (es : List Entry)
    → snapshot_of heap (find tk es) ≡ view_in heap es tk
view_in-find heap tk [] = refl
view_in-find heap tk (x ∷ es) = elim (Bool-cases (x.token == tk)) [
  | inl here ↦ rw here refl
  | inr there ↦ rw there (view_in-find heap tk es)
]

get_found-gives :
    (tk : String) (now : ℕ) (found : Option Entry) (s : Store)
    → ((get_found tk now found s).0 ≡ none)
      ⊎ ((get_found tk now found s).0 ≡ snapshot_of s.heap found)
get_found-gives tk now none s = inl refl
get_found-gives tk now (some e) s = elim (Bool-cases (ltb s.idle_seconds (now - e.last_seen))) [
  | inl idle ↦ rw idle (inl refl)
  | inr busy ↦ rw busy (inr refl)
]

get-gives :
    (tk : String) (now : ℕ) (s : Store)
    → ((get (some tk) now s).0 ≡ none) ⊎ ((get (some tk) now s).0 ≡ view s tk)
unfolding get
get-gives tk now s = elim (Bool-cases (tk == "")) [
  | inl empty ↦ rw empty (inl refl)
  | inr named ↦
      rw (named, sym (view_in-find s.heap tk s.by_token))
        (get_found-gives tk now (find tk s.by_token) s)
]

either_of {ℓ} :
    {A : Type ℓ} {o v w x : Option A}
    → (o ≡ none) ⊎ (o ≡ v)
    → (v ≡ none) ⊎ (v ≡ w)
    → w ≡ x
    → (o ≡ none) ⊎ (o ≡ x)
either_of (inl h) k e = inl h
either_of (inr h) (inl k) e = inl (h ∙ k)
either_of (inr h) (inr k) e = inr (h ∙ k ∙ e)

-- Once a session is created under a fresh token, and whatever calls follow (with fresh tokens, and
-- none that creates this token again), `get` of the token returns either nothing or the user and the
-- very key that the session was created with: never a wiped key, and never another user's.
pub get-key :
    (user : ℕ) (name : String) (dek : List ℕ) (tk : String) (at now : ℕ) (cs : List Call)
    (s : Store)
    → is_sound s ≡ true
    → has_token tk s.by_token ≡ false
    → are_fresh cs (create user name dek tk at s) ≡ true
    → any (creates tk) cs ≡ false
    → ((get (some tk) now (perform_all cs (create user name dek tk at s))).0 ≡ none)
      ⊎ ((get (some tk) now (perform_all cs (create user name dek tk at s))).0
          ≡ some (record { user_id = user; username = name; dek = dek }))
unfolding create perform
get-key user name dek tk at now cs s h fresh later other =
    let after = create user name dek tk at s in
    let sound : is_sound after ≡ true =
      perform-is_sound (creating user name dek tk at) s (rw fresh refl) h in
    either_of (get-gives tk now (perform_all cs after))
      (perform_all-Survives cs after tk later other sound)
      (view-create user name dek tk at s tk h fresh ∙ rw (beq_refl tk) refl)

-- The session of one user is ended.
abbrev pub ended_for : ℕ → Option Snapshot → Option Snapshot
ended_for user none = none
ended_for user (some v) = if v.user_id == user then none else some v

not_kept :
    (user : ℕ) (es : List Entry) (t : String)
    → has_token t es ≡ false
    → contains (map token_of (keep (λ e. e.user_id == user) es)) t ≡ false
not_kept user [] t h = refl
not_kept user (e ∷ es) t h = ground (arith, not_kept user es t)

ended_in :
    (user next : ℕ) (heap : ℕ → List ℕ) (es : List Entry) (t : String)
    → are_sound next es ≡ true
    → (if contains (map token_of (keep (λ e. e.user_id == user) es)) t
        then none
        else view_in heap es t)
      ≡ ended_for user (view_in heap es t)
ended_in user next heap [] t h = refl
ended_in user next heap (e ∷ es) t h = elim (Bool-cases (e.token == t)) [
  | inl here ↦ elim (Bool-cases (e.user_id == user)) [
    | inl mine ↦ rw (here, mine, here) refl
    | inr other ↦ rw (here, other) (rw (not_kept user es t (lone_token next e es t h here)) refl)
  ]
  | inr there ↦
      let rest = ended_in user next heap es t (ground (arith, h)) in
      elim (Bool-cases (e.user_id == user)) [
        | inl mine ↦ rw (there, mine, there) rest
        | inr other ↦ rw (there, other) rest
      ]
]

-- `revoke_user` ends each session of the user, and leaves the user and key of every other session
-- as they were.
pub revoke_user_exact :
    (user : ℕ) (s : Store) (t : String)
    → is_sound s ≡ true
    → view (revoke_user user s).1 t ≡ ended_for user (view s t)
unfolding revoke_user
revoke_user_exact user s t h =
    view-drop_all (tokens_of user s) s t h ∙ ended_in user s.next s.heap s.by_token t h
