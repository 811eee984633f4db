-- ===== src/Coverage/Earned.antt =====
-- Who may leave an `absent` in the table: a sequence of marks from an empty one.
use grindstone.Prelude.{
  ℕ, String, ◌≡◌, refl, ap, ◌⊎◌, inl, inr, Bool, true, ◌&&◌, ◌||◌, Option, none, some, List, [],
  ◌∷◌, arith, any, every, All, contains, ◌==◌, string_eq, Option-cases,
}
use grindstone.Coverage.Types.{
  State, have, absent, failed, unknown, other, state_eq, authoritative, earns_authority, Feed,
  feed_eq, feed_beq_iff, Row, Table,
}
use grindstone.Coverage.Mark.{
  stored, is_state, may_claim_absent, find_state, state_of, upsert, claim, mark, marked_row,
}
use grindstone.Coverage.Claims.{mark-eq-some}

-- The arguments of one call of `mark`.
pub record Call : Type 0 where
  pub feed : Feed
  pub period : ℕ
  pub state : State
  pub rows : ℕ
  pub detail : String
  pub now : ℕ

abbrev mark_call : Call → Table → Option Table
mark_call c t = mark c.feed c.period c.state c.rows c.detail c.now t

abbrev commit : Table → Option Table → Table
commit t none = t
commit t (some u) = u

-- The calls in turn; one that raises changes nothing.
unfoldable pub replay : List Call → Table → Table
replay [] t = t
replay (c ∷ cs) t = replay cs (commit t (mark_call c t))

-- Some call says that data of the feed was returned.
abbrev pub was_returned : List Call → Feed → Bool
was_returned cs g = any (λ c. c.state == have && stored c.feed == g) cs

abbrev entitled : (Feed → Bool) → Feed → Bool
entitled returned g =
    contains (authoritative g.kind) g.provider
    || (contains (earns_authority g.kind) g.provider && returned g)

abbrev is_earned : (Feed → Bool) → State → Feed → Bool
is_earned returned have g = returned g
is_earned returned absent g = entitled returned g
is_earned returned _ g = true

abbrev earned_row : (Feed → Bool) → Row → Bool
earned_row returned r = is_earned returned r.state r.feed

module _ (returned : Feed → Bool) where
  returned_of_row :
      (g : Feed) (t : Table)
      → every (earned_row returned) t ≡ true
      → any (λ r. r.feed == g && is_state have r) t ≡ true
      → returned g ≡ true
  returned_of_row g [] h k = cc
  returned_of_row g (r ∷ t) h k =
      ground
        (arith, returned_of_row g t, (feed_beq_iff r.feed g).0, λ (e : r.feed ≡ g). ap returned e)

  entitled_of_claim :
      (f : Feed) (t : Table)
      → every (earned_row returned) t ≡ true
      → may_claim_absent t f ≡ true
      → entitled returned (stored f) ≡ true
  unfolding may_claim_absent
  entitled_of_claim f t h k = ground (arith, returned_of_row (stored f) t)

  every-upsert :
      (r : Row) (t : Table)
      → earned_row returned r ≡ true
      → every (earned_row returned) t ≡ true
      → every (earned_row returned) (upsert r t) ≡ true
  unfolding upsert
  every-upsert r [] h k = ground arith
  every-upsert r (x ∷ t) h k = ground (arith, every-upsert r t)

  claim-earned :
      (s : State) (f : Feed) (t : Table) (detail : String)
      → (s ≡ have → returned (stored f) ≡ true)
      → every (earned_row returned) t ≡ true
      → is_earned returned (claim t f s detail).0 (stored f) ≡ true
  unfolding claim
  claim-earned have f t detail h k = h refl
  claim-earned absent f t detail h k = ground (arith, entitled_of_claim f t)
  claim-earned failed f t detail h k = refl
  claim-earned unknown f t detail h k = refl
  claim-earned (other x) f t detail h k = refl

  mark-earned :
      (c : Call) (t : Table) {u : Table}
      → (c.state ≡ have → returned (stored c.feed) ≡ true)
      → every (earned_row returned) t ≡ true
      → mark_call c t ≡ some u
      → every (earned_row returned) u ≡ true
  mark-earned c t h k e = rw (mark-eq-some c.feed c.period c.state c.rows c.detail c.now t e) (
      every-upsert (marked_row c.feed c.period c.state c.rows c.detail c.now t) t
        (claim-earned c.state c.feed t c.detail h k) k)

  replay-earned :
      (cs : List Call) (t : Table)
      → All (λ c. c.state ≡ have → returned (stored c.feed) ≡ true) cs
      → every (earned_row returned) t ≡ true
      → every (earned_row returned) (replay cs t) ≡ true
  unfolding replay
  replay-earned [] t h k = k
  replay-earned (c ∷ cs) t h k =
      replay-earned cs (commit t (mark_call c t)) h.1 (elim (Option-cases (mark_call c t)) [
        | inl refused ↦ rw refused k
        | inr (u, e) ↦ rw e (mark-earned c t h.0 k e)
      ])

  earned_of_find_state :
      (g : Feed) (p : ℕ) (t : Table)
      → every (earned_row returned) t ≡ true
      → find_state g p t ≡ absent
      → entitled returned g ≡ true
  earned_of_find_state g p [] h e = cc
  earned_of_find_state g p (r ∷ t) h e = ground (
    arith,
    earned_of_find_state g p t,
    (feed_beq_iff r.feed g).0,
    λ (same : r.feed ≡ g). ap (entitled returned) same,
  )

pub was_returned-weaken :
    (c : Call) (cs : List Call) (g : Feed)
    → was_returned cs g ≡ true
    → was_returned (c ∷ cs) g ≡ true
was_returned-weaken c cs g h = ground arith

-- Every call of a list is among those of a longer one.
returned_calls :
    (cs ds : List Call)
    → ((g : Feed) → was_returned cs g ≡ true → was_returned ds g ≡ true)
    → All (λ c. c.state ≡ have → was_returned ds (stored c.feed) ≡ true) cs
returned_calls [] ds h = tt
returned_calls (c ∷ cs) ds h = (
  λ e. h (stored c.feed) (ground (arith, (feed_beq_iff (stored c.feed) (stored c.feed)).1 refl)),
  returned_calls cs ds (λ g k. h g (was_returned-weaken c cs g k)),
)

-- After any calls of `mark` on an empty table, a period is `absent` only if its provider is
-- authoritative for the kind, or is one that can earn that and some call said that it had returned
-- data of the same feed.
pub absent_is_earned :
    (cs : List Call) (f : Feed) (p : ℕ)
    → state_of (replay cs []) f p ≡ absent
    → (contains (authoritative f.kind) f.provider ≡ true)
      ⊎ ((contains (earns_authority f.kind) f.provider ≡ true)
          × (was_returned cs (stored f) ≡ true))
unfolding state_of
absent_is_earned cs f p h = ground (
  arith,
  earned_of_find_state (was_returned cs) (stored f) p (replay cs [])
      (replay-earned (was_returned cs) cs [] (returned_calls cs cs (λ g k. k)) refl) h,
)
