-- ===== src/Sessions/Keys.antt =====
-- A session gives the key that it was created with, or none (code/backend/sessions.py).
use grindstone.Prelude.{
  ℕ, String, ◌≡◌, refl, sym, ◌∙◌, ◌⊎◌, Bool, true, false, Option, none, some, List, [], ◌∷◌, arith,
  ◌==◌, nat_eq, string_eq, eq_iff, if◌then◌else◌, Option-cases, inl, inr, beq_refl, ap,
}
use grindstone.Sessions.Store.{
  Snapshot, Entry, Store, find, pop, put, touch, alloc, wipe, snapshot, drop,
}
use grindstone.Sessions.Sound.{has_token, owns, are_sound, is_sound}

-- What the entry of a token, if there is one, says of its user and key.
abbrev pub view_in : (ℕ → List ℕ) → List Entry → String → Option Snapshot
view_in heap [] t = none
view_in heap (e ∷ es) t = if e.token == t then some (snapshot heap e) else view_in heap es t

abbrev pub view : Store → String → Option Snapshot
view s t = view_in s.heap s.by_token t

view_in-absent :
    (heap : ℕ → List ℕ) (es : List Entry) (t : String)
    → has_token t es ≡ false
    → view_in heap es t ≡ none
view_in-absent heap [] t h = refl
view_in-absent heap (e ∷ es) t h = ground (arith, view_in-absent heap es t)

snapshot-wipe :
    (a : ℕ) (heap : ℕ → List ℕ) (e : Entry)
    → (e.buffer == a) ≡ false
    → snapshot (wipe a heap) e ≡ snapshot heap e
snapshot-wipe a heap e h = rw h refl

view_in-wipe :
    (a : ℕ) (heap : ℕ → List ℕ) (es : List Entry) (t : String)
    → owns a es ≡ false
    → view_in (wipe a heap) es t ≡ view_in heap es t
view_in-wipe a heap [] t h = refl
view_in-wipe a heap (e ∷ es) t h = ground (arith, view_in-wipe a heap es t, snapshot-wipe a heap e)

snapshot-alloc :
    (next : ℕ) (dek : List ℕ) (heap : ℕ → List ℕ) (e : Entry)
    → (e.buffer == next) ≡ false
    → snapshot (alloc next dek heap) e ≡ snapshot heap e
snapshot-alloc next dek heap e h = rw h refl

pub view_in-alloc :
    (next : ℕ) (dek : List ℕ) (heap : ℕ → List ℕ) (es : List Entry) (t : String)
    → are_sound next es ≡ true
    → view_in (alloc next dek heap) es t ≡ view_in heap es t
view_in-alloc next dek heap [] t h = refl
view_in-alloc next dek heap (e ∷ es) t h =
    ground (arith, view_in-alloc next dek heap es t, snapshot-alloc next dek heap e)

pub view_in-touch :
    (tk : String) (now : ℕ) (heap : ℕ → List ℕ) (es : List Entry) (t : String)
    → view_in heap (touch tk now es) t ≡ view_in heap es t
view_in-touch tk now heap [] t = refl
view_in-touch tk now heap (e ∷ es) t = ground (arith, view_in-touch tk now heap es t)

pub view_in-put :
    (n : Entry) (heap : ℕ → List ℕ) (es : List Entry) (t : String)
    → has_token n.token es ≡ false
    → view_in heap (put n es) t
      ≡ (if n.token == t then some (snapshot heap n) else view_in heap es t)
view_in-put n heap [] t h = refl
view_in-put n heap (e ∷ es) t h =
    ground (arith, view_in-put n heap es t, eq_iff e.token t, eq_iff n.token t)

if_some {ℓ} :
    {A : Type ℓ} (b : Bool) (x : A) (o : Option A) {e : A}
    → (if b then some x else o) ≡ some e
    → ((b ≡ true) × (x ≡ e)) ⊎ ((b ≡ false) × (o ≡ some e))
if_some true x o h = inl (refl, cc)
if_some false x o h = inr (refl, h)

found_owns :
    (tk : String) (es : List Entry) {e : Entry} → find tk es ≡ some e → owns e.buffer es ≡ true
found_owns tk [] h = cc
found_owns tk (x ∷ es) h = elim (if_some (x.token == tk) x (find tk es) h) [
  | inl (here, same) ↦ rw (sym same) (rw (beq_refl x.buffer) refl)
  | inr (there, later) ↦ ground (arith, found_owns tk es later)
]

lone_buffer :
    (next : ℕ) (x : Entry) (es : List Entry)
    → are_sound next (x ∷ es) ≡ true
    → owns x.buffer es ≡ false
lone_buffer next x es h = ground (arith, h)

pub lone_token :
    (next : ℕ) (x : Entry) (es : List Entry) (t : String)
    → are_sound next (x ∷ es) ≡ true
    → (x.token == t) ≡ true
    → has_token t es ≡ false
lone_token next x es t h same =
    ap (λ k. has_token k es) (sym ((eq_iff x.token t).0 same)) ∙ ground (arith, h)

other_buffer :
    (next : ℕ) (x : Entry) (es : List Entry) (b : ℕ)
    → are_sound next (x ∷ es) ≡ true
    → owns b es ≡ true
    → (x.buffer == b) ≡ false
other_buffer next x es b h owned =
    ground (arith, lone_buffer next x es h, owned, λ (q : x.buffer ≡ b). ap (λ a. owns a es) q)

view_in-pop :
    (tk : String) (next : ℕ) (heap : ℕ → List ℕ) (es : List Entry) (t : String) {e : Entry}
    → are_sound next es ≡ true
    → find tk es ≡ some e
    → view_in (wipe e.buffer heap) (pop tk es) t ≡ (if tk == t then none else view_in heap es t)
view_in-pop tk next heap [] t h found = cc
view_in-pop tk next heap (x ∷ es) t {e} h found =
    elim (if_some (x.token == tk) x (find tk es) found) [
      | inl (here, same) ↦
          rw (here, sym same)
            (view_in-wipe x.buffer heap es t (lone_buffer next x es h)
              ∙ ground (
                arith,
                lone_token next x es t h,
                view_in-absent heap es t,
                eq_iff x.token tk,
                eq_iff tk t,
                eq_iff x.token t,
                here,
              ))
      | inr (there, later) ↦ rw there (
          ground (
            arith,
            view_in-pop tk next heap es t (ground (arith, h)) later,
            snapshot-wipe e.buffer heap x
                (other_buffer next x es e.buffer h (found_owns tk es later)),
            there,
            eq_iff x.token tk,
            eq_iff x.token t,
            eq_iff tk t,
          ))
    ]

find-none : (tk : String) (es : List Entry) → find tk es ≡ none → has_token tk es ≡ false
find-none tk [] h = refl
find-none tk (e ∷ es) h = ground (arith, find-none tk es)

-- A drop ends the session of its token and leaves every other session's view as it was.
pub view-drop :
    (tk : String) (s : Store) (t : String)
    → is_sound s ≡ true
    → view (drop tk s) t ≡ (if tk == t then none else view s t)
unfolding drop
view-drop tk s t h = elim (Option-cases (find tk s.by_token)) [
  | inl missing ↦ rw missing (
      ground (
        arith,
        view_in-absent s.heap s.by_token tk (find-none tk s.by_token missing),
        eq_iff tk t,
        λ (q : tk ≡ t). ap (view_in s.heap s.by_token) q,
      ))
  | inr (e, found) ↦ rw found (view_in-pop tk s.next s.heap s.by_token t h found)
]
