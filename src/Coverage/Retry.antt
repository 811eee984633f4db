-- ===== src/Coverage/Retry.antt =====
-- What `gaps` says of a period after `mark`: an answered one never comes back, an unanswered one
-- does when it has rested.
use grindstone.Prelude.{
  ℕ, ◌+◌, ◌-◌, ◌/◌, ◌≤◌, ◌<◌, String, ◌≡◌, refl, ap, ◌∙◌, Bool, true, false, ◌&&◌, ◌||◌, some, inl,
  inr, [], ◌∷◌, arith, any, not, contains, nat_eq, length, if◌then◌else◌, Bool-cases,
}
use grindstone.Calendar.{is_trading_day}
use grindstone.Coverage.Types.{State, Feed, feed_eq, feed_beq_iff, Row, Table}
use grindstone.Coverage.Mark.{
  find_state, state_of, stored, in_slot, count_attempt, upsert, claim, mark, marked_row,
}
use grindstone.Coverage.Gaps.{Query, candidates, gaps}
use grindstone.Coverage.Wanted.{is_answered, rests, is_wanted, gaps_wanted, gaps_exact}
use grindstone.Coverage.Claims.{mark-eq-some}

-- No two rows of the table have one slot: its primary key.
abbrev pub is_unique : Table → Bool
is_unique [] = true
is_unique (r ∷ t) = not (any (in_slot r.feed r.period) t) && is_unique t

-- How often the slot has been asked about without an answer.
abbrev pub attempts_of : Feed → ℕ → Table → ℕ
attempts_of k p [] = 0
attempts_of k p (r ∷ t) = if in_slot k p r then r.attempts else attempts_of k p t

-- The row of the slot after `upsert`.
abbrev pub written : Row → Table → Row
written r t = record r { attempts = count_attempt r.state (attempts_of r.feed r.period t + 1) }

in_slot_self : (r : Row) → in_slot r.feed r.period r ≡ true
in_slot_self r = ground (arith, (feed_beq_iff r.feed r.feed).1 refl)

any-in_slot-upsert :
    (k : Feed) (p : ℕ) (r : Row) (t : Table)
    → any (in_slot k p) (upsert r t) ≡ (in_slot k p r || any (in_slot k p) t)
unfolding upsert
any-in_slot-upsert k p r [] = refl
any-in_slot-upsert k p r (x ∷ t) = ground (
  arith,
  any-in_slot-upsert k p r t,
  feed_beq_iff x.feed r.feed,
  feed_beq_iff x.feed k,
  feed_beq_iff r.feed k,
)

pub upsert-is_unique : (r : Row) (t : Table) → is_unique t ≡ true → is_unique (upsert r t) ≡ true
unfolding upsert
upsert-is_unique r [] h = refl
upsert-is_unique r (x ∷ t) h = ground (
  arith,
  upsert-is_unique r t,
  any-in_slot-upsert x.feed x.period r t,
  feed_beq_iff x.feed r.feed,
  feed_beq_iff r.feed x.feed,
)

-- A table with a row for each slot at most keeps that under `mark`.
pub mark-is_unique :
    (f : Feed) (p : ℕ) (s : State) (n : ℕ) (detail : String) (now : ℕ) (t : Table) {u : Table}
    → is_unique t ≡ true
    → mark f p s n detail now t ≡ some u
    → is_unique u ≡ true
mark-is_unique f p s n detail now t h e =
    rw (mark-eq-some f p s n detail now t e)
      (upsert-is_unique (marked_row f p s n detail now t) t h)

none_in_slot :
    (test : Row → Bool) (k : Feed) (p : ℕ) (t : Table)
    → any (in_slot k p) t ≡ false
    → any (λ x. in_slot k p x && test x) t ≡ false
none_in_slot test k p [] h = refl
none_in_slot test k p (r ∷ t) h = ground (arith, none_in_slot test k p t)

slot_period : (k : Feed) (p : ℕ) (x : Row) → in_slot k p x ≡ true → (x.feed ≡ k) × (x.period ≡ p)
slot_period k p x h = ground (arith, (feed_beq_iff x.feed k).0)

unique_rest : (x : Row) (t : Table) → is_unique (x ∷ t) ≡ true → is_unique t ≡ true
unique_rest x t h = ground arith

first_alone :
    (x : Row) (t : Table) → is_unique (x ∷ t) ≡ true → any (in_slot x.feed x.period) t ≡ false
first_alone x t h = ground arith

not_in_rest :
    (k : Feed) (p : ℕ) (x : Row) (t : Table)
    → in_slot k p x ≡ true
    → is_unique (x ∷ t) ≡ true
    → any (in_slot k p) t ≡ false
not_in_rest k p x t here h =
    let (same_feed, same_period) = slot_period k p x here in
    rw (← same_feed, ← same_period) (first_alone x t h)

-- A question about the slot that was written is a question about the row that was written.
any-upsert :
    (test : Row → Bool) (r : Row) (t : Table)
    → is_unique t ≡ true
    → any (λ x. in_slot r.feed r.period x && test x) (upsert r t) ≡ test (written r t)
unfolding upsert
any-upsert test r [] h = ground (arith, in_slot_self r)
any-upsert test r (x ∷ t) h = elim (Bool-cases (in_slot r.feed r.period x)) [
  | inl here ↦ rw here (
      rw (none_in_slot test r.feed r.period t (not_in_rest r.feed r.period x t here h))
        (ground (arith, in_slot_self r)))
  | inr there ↦ rw (there, any, there) (any-upsert test r t (unique_rest x t h))
]

-- Whether `gaps` may return the period that was marked depends on the row that was written.
wanted_after_mark :
    (f : Feed) (q : Query) (p : ℕ) (s : State) (n : ℕ) (detail : String) (now later : ℕ) (t : Table)
    {u : Table}
    → is_unique t ≡ true
    → mark f p s n detail now t ≡ some u
    → is_wanted f q later u p ≡ (
        is_trading_day q.start q.last p
        && not (rests q later (written (marked_row f p s n detail now t) t)))
wanted_after_mark f q p s n detail now later t h e = rw (mark-eq-some f p s n detail now t e) (
    ap (λ b. is_trading_day q.start q.last p && not b)
      (any-upsert (rests q later) (marked_row f p s n detail now t) t h))

answered_rests :
    (k : Feed) (p : ℕ) (q : Query) (later : ℕ) (t : Table)
    → is_answered (find_state k p t) ≡ true
    → any (λ r. in_slot k p r && rests q later r) t ≡ true
answered_rests k p q later [] h = cc
answered_rests k p q later (r ∷ t) h = elim (Bool-cases (in_slot k p r)) [
  | inl here ↦ ground (arith, here)
  | inr there ↦ ground (arith, there, answered_rests k p q later t)
]

-- A period whose state is `have` or `absent` is never returned by `gaps`, whatever its options.
pub answered_is_final :
    (f : Feed) (q : Query) (p later : ℕ) (t : Table)
    → is_answered (state_of t f p) ≡ true
    → contains (gaps f q later t) p ≡ false
unfolding state_of
answered_is_final f q p later t h =
    ground (arith, gaps_wanted f q later t p, answered_rests (stored f) p q later t h)

module _ (f : Feed) (q : Query) (p : ℕ) (s : State) (n : ℕ) (detail : String) (now later : ℕ)
    (t : Table) {u : Table} (unique : is_unique t ≡ true)
    (marked : mark f p s n detail now t ≡ some u) where
  -- A period whose mark was stored as neither `have` nor `absent` is returned again by a later `gaps`
  -- over a range of weekdays around it whose limit cuts nothing off, once the days of both cooldowns'
  -- beginnings lie after the day of the mark.
  pub unanswered_is_retried :
      is_answered (claim t f s detail).0 ≡ false
      → is_trading_day q.start q.last p ≡ true
      → length (candidates f q later u) ≤ q.limit
      → now / 86400 < (later - q.cooldown) / 86400
      → now / 86400 < (later - 72000) / 86400
      → contains (gaps f q later u) p ≡ true
  unanswered_is_retried open_still trading fits rested parked =
      gaps_exact f q later u p fits
      ∙ wanted_after_mark f q p s n detail now later t unique marked
      ∙ ground arith

  -- A period that has been asked about as often as `max_attempts` allows, with no answer, is left out
  -- of every `gaps` from the mark until the end of the day that the 20-hour cooldown begins on.
  pub exhausted_is_parked :
      is_answered (claim t f s detail).0 ≡ false
      → 0 < q.max_attempts
      → q.max_attempts ≤ attempts_of (stored f) p t + 1
      → (later - 72000) / 86400 ≤ now / 86400
      → contains (gaps f q later u) p ≡ false
  exhausted_is_parked open_still capped tried recent = ground (
    arith,
    gaps_wanted f q later u p,
    wanted_after_mark f q p s n detail now later t unique marked,
  )

  -- The cooldown is longer than it says: a period that was marked with no answer before the time
  -- `cooldown` seconds back, but on the day of that time, is still left out by `gaps`.
  pub cooldown_overstays :
      is_answered (claim t f s detail).0 ≡ false
      → 0 < q.cooldown
      → now + q.cooldown < later
      → now / 86400 ≡ (later - q.cooldown) / 86400
      → contains (gaps f q later u) p ≡ false
  cooldown_overstays open_still cooled over same_day = ground (
    arith,
    gaps_wanted f q later u p,
    wanted_after_mark f q p s n detail now later t unique marked,
  )
