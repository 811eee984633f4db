-- ===== src/Coverage/Wanted.antt =====
-- What `gaps` lists, against a description that does not follow its queries.
use mathlib.Core.Path.{fun_ext}
use grindstone.Prelude.{
  ℕ, ◌-◌, ◌/◌, ◌≤◌, ◌≡◌, refl, Bool, true, false, ◌&&◌, ◌||◌, List, [], arith, ltb, leb, length,
  any, not, contains, ◌==◌, nat_eq, contains-keep, contains-map, contains-append, contains-take,
  contains-reverse, take_all, any-or, any-and, if◌then◌else◌, reverse, sym, ◌∙◌, ap,
}
use grindstone.Calendar.{trading_days, is_trading_day, contains-trading_days}
use grindstone.Coverage.Types.{
  State, have, absent, failed, unknown, other, Feed, feed_eq, Row, Table, settled, state_eq,
  retry_cooldown,
}
use grindstone.Coverage.Mark.{stored, in_slot}
use grindstone.Coverage.Gaps.{
  Query, in_range, is_settled, is_resting, is_exhausted, select, passed_over, untried_first,
  candidates, gaps, checked_after,
}

-- A row keeps its period out of the queries' answer.
abbrev blocks : Query → ℕ → Row → Bool
blocks q now r =
    is_settled r
    || ((ltb 0 q.cooldown && is_resting q now r) || (ltb 0 q.max_attempts && is_exhausted q now r))

-- The provider has answered for the period.
abbrev pub is_answered : State → Bool
is_answered have = true
is_answered absent = true
is_answered _ = false

-- A row was checked on the day of the time `ago` seconds back, or later.
abbrev pub is_recent : ℕ → ℕ → Row → Bool
is_recent ago now r = leb ((now - ago) / 86400) (r.checked_at / 86400)

-- Why a period is not asked about: it is answered, or was asked too recently, or too often.
abbrev pub rests : Query → ℕ → Row → Bool
rests q now r =
    is_answered r.state
    || ((ltb 0 q.cooldown && is_recent q.cooldown now r)
        || (ltb 0 q.max_attempts && (leb q.max_attempts r.attempts && is_recent 72000 now r)))

-- A weekday of the range whose row, if there is one, does not rest.
abbrev pub is_wanted : Feed → Query → ℕ → Table → ℕ → Bool
is_wanted f q now t d =
    is_trading_day q.start q.last d && not (any (λ r. in_slot (stored f) d r && rests q now r) t)

settled_lem : (s : State) → contains settled s ≡ is_answered s
settled_lem have = refl
settled_lem absent = refl
settled_lem failed = refl
settled_lem unknown = refl
settled_lem (other x) = refl

checked_after_lem :
    (checked cutoff : ℕ) → checked_after checked cutoff ≡ leb (cutoff / 86400) (checked / 86400)
unfolding checked_after
checked_after_lem checked cutoff = ground arith

blocks_lem : (q : Query) (now : ℕ) (r : Row) → blocks q now r ≡ rests q now r
blocks_lem q now r = rw (
  settled_lem r.state,
  checked_after_lem r.checked_at (now - q.cooldown),
  checked_after_lem r.checked_at (now - retry_cooldown),
)

abbrev blocks_at : Feed → Query → ℕ → ℕ → Row → Bool
blocks_at f q now d r = (in_range f q r && blocks q now r) && r.period == d

merge_tests :
    (r x y z k b c : Bool)
    → ((r && (x || ((b && y) || (c && z)))) && k)
      ≡ (((r && x) && k) || ((b && ((r && y) && k)) || (c && ((r && z) && k))))
merge_tests false x y z k true true = refl
merge_tests false x y z k true false = refl
merge_tests false x y z k false true = refl
merge_tests false x y z k false false = refl
merge_tests true x y z k true true = ground arith
merge_tests true x y z k true false = ground arith
merge_tests true x y z k false true = ground arith
merge_tests true x y z k false false = ground arith

-- Three queries over one range, two of them under a switch, are one query.
any_merge :
    (R A B C K : Row → Bool) (b c : Bool) (t : Table)
    → (any (λ r. (R r && A r) && K r) t
        || ((b && any (λ r. (R r && B r) && K r) t) || (c && any (λ r. (R r && C r) && K r) t)))
      ≡ any (λ r. (R r && (A r || ((b && B r) || (c && C r)))) && K r) t
any_merge R A B C K b c t =
    simp (fun_ext (λ (r : Row). merge_tests (R r) (A r) (B r) (C r) (K r) b c), any-or, any-and)

contains-if :
    (b : Bool) (xs : List ℕ) (d : ℕ) → contains (if b then xs else []) d ≡ (b && contains xs d)
contains-if true xs d = refl
contains-if false xs d = refl

contains-select :
    (p : Row → Bool) (t : Table) (d : ℕ)
    → contains (select p t) d ≡ any (λ r. p r && r.period == d) t
contains-select p t d = contains-map (λ (r : Row). r.period) p t d

contains-passed_over :
    (f : Feed) (q : Query) (now : ℕ) (t : Table) (d : ℕ)
    → contains (passed_over f q now t) d ≡ any (blocks_at f q now d) t
unfolding passed_over
contains-passed_over f q now t d =
    simp (contains-append, contains-if, contains-map)
      (any_merge (in_range f q) is_settled (is_resting q now) (is_exhausted q now)
        (λ r. r.period == d) (ltb 0 q.cooldown) (ltb 0 q.max_attempts) t)

slot_test :
    (b c : Bool) (lo hi d p : ℕ)
    → lo ≤ d
    → d ≤ hi
    → (((b && (leb lo p && leb p hi)) && c) && p == d) ≡ ((b && p == d) && c)
slot_test true true lo hi d p h k = ground arith
slot_test true false lo hi d p h k = ground arith
slot_test false c lo hi d p h k = refl

-- In the range, the rows of the feed and the period are those of the slot.
any-blocks_at :
    (f : Feed) (q : Query) (now d : ℕ) (t : Table)
    → q.start ≤ d
    → d ≤ q.last
    → any (blocks_at f q now d) t ≡ any (λ r. in_slot (stored f) d r && rests q now r) t
any-blocks_at f q now d t h k =
    ap (λ (p : Row → Bool). any p t)
      (fun_ext (λ r.
        slot_test (r.feed == stored f) (blocks q now r) q.start q.last d r.period h k
        ∙ ap (λ b. in_slot (stored f) d r && b) (blocks_lem q now r)))

contains-untried_first :
    (tried out : List ℕ) (d : ℕ) → contains (untried_first tried out) d ≡ contains out d
contains-untried_first tried out d = simp (contains-append, contains-keep) (ground arith)

contains-ordered :
    (b c : Bool) (tried out : List ℕ) (d : ℕ)
    → let ordered = if b then reverse out else out in
      contains (if c then untried_first tried ordered else ordered) d ≡ contains out d
contains-ordered true true tried out d =
    contains-untried_first tried (reverse out) d ∙ contains-reverse out d
contains-ordered true false tried out d = contains-reverse out d
contains-ordered false true tried out d = contains-untried_first tried out d
contains-ordered false false tried out d = refl

contains-candidates :
    (f : Feed) (q : Query) (now : ℕ) (t : Table) (d : ℕ)
    → contains (candidates f q now t) d ≡ is_wanted f q now t d
unfolding candidates
contains-candidates f q now t d =
    contains-ordered q.newest_first q.prefer_untried _ _ d
    ∙ contains-keep (λ x. not (contains (passed_over f q now t) x)) (trading_days q.start q.last) d
    ∙ rw (contains-trading_days q.start q.last d)
        (ground (arith, contains-passed_over f q now t d, any-blocks_at f q now d t))

-- Every period that `gaps` returns is a weekday of the range which is neither settled nor resting
-- nor exhausted.
pub gaps_wanted :
    (f : Feed) (q : Query) (now : ℕ) (t : Table) (d : ℕ)
    → contains (gaps f q now t) d ≡ true
    → is_wanted f q now t d ≡ true
unfolding gaps
gaps_wanted f q now t d h =
    sym (contains-candidates f q now t d) ∙ contains-take q.limit (candidates f q now t) d h

-- Where the limit cuts nothing off, `gaps` returns the weekdays of the range which are neither
-- settled nor resting nor exhausted, each of them and no other.
pub gaps_exact :
    (f : Feed) (q : Query) (now : ℕ) (t : Table) (d : ℕ)
    → length (candidates f q now t) ≤ q.limit
    → contains (gaps f q now t) d ≡ is_wanted f q now t d
unfolding gaps
gaps_exact f q now t d fits =
    rw (take_all q.limit (candidates f q now t) fits) (contains-candidates f q now t d)
