-- ===== src/Datajobs/Asked.antt =====
-- What a pull that starts asks for (code/backend/datajobs.py).
use grindstone.Prelude.{
  none, Option, [], ◌∷◌, ◌⊎◌, ℕ, ◌*◌, ◌<◌, ◌≡◌, refl, sym, ◌∙◌, Bool, true, false, ◌&&◌, not, some,
  List, arith, any, ltb, leb, length, contains, ◌==◌, nat_eq, Text, beq_refl, Bool-cases, inl, inr,
}
use grindstone.Calendar.{is_trading_day}
use grindstone.Onclick.{window, clamp, pull_days}
use grindstone.Onclick.Laws.{clamp_exact, pull_days_exact}
use grindstone.Datajobs.Pull.{
  tickers, is_future, Start, Pull, Refusal, already_running, bad_dates, no_ticker, futures_only,
  nothing_to_fetch, refused, started, start_range, start_pull, min_delay, max_delay,
}

-- The day is a weekday of the asked range, and in the provider's window.
abbrev pub may_ask : ℕ → ℕ → ℕ → ℕ → Bool
may_ask s e today d = let (lo, hi) = window today in is_trading_day s e d && (leb lo d && leb d hi)

abbrev same_answer : Bool → Bool → Bool
same_answer true b = b
same_answer false b = not b

-- What a pull asks for: some tickers and none of a future, the days that it may ask for and no other, at
-- the pace that is allowed; and its total is the number of its requests.
abbrev pub asks_properly : ℕ → ℕ → ℕ → ℕ → Pull → Bool
asks_properly s e today d p =
    not (any is_future p.symbols)
    && (ltb 0 (length p.symbols)
        && ((leb min_delay p.delay && leb p.delay max_delay)
            && (p.total == length (pull_days p.first p.last) * length p.symbols
                && same_answer (contains (pull_days p.first p.last) d) (may_ask s e today d))))

-- The day may be asked for, where both dates are given.
abbrev pub may_ask_between : Option ℕ → Option ℕ → ℕ → ℕ → Bool
may_ask_between (some s) (some e) today d = may_ask s e today d
may_ask_between _ _ today d = false

-- The refusal has its reason.
abbrev pub HasReason : Bool → List Text → Option ℕ → Option ℕ → ℕ → ℕ → Refusal → Type 0
HasReason is_alive symbols s e today d already_running = is_alive ≡ true
HasReason is_alive symbols s e today d bad_dates = (s ≡ none) ⊎ (e ≡ none)
HasReason is_alive symbols s e today d no_ticker = tickers symbols ≡ []
HasReason is_alive symbols s e today d futures_only = any is_future (tickers symbols) ≡ true
HasReason is_alive symbols s e today d nothing_to_fetch = may_ask_between s e today d ≡ false

abbrev pub IsProper : Bool → List Text → Option ℕ → Option ℕ → ℕ → ℕ → Start → Type 0
IsProper is_alive symbols s e today d (refused why) = HasReason is_alive symbols s e today d why
IsProper is_alive symbols s e today d (started p) =
    (is_alive ≡ false)
    × (first : ℕ) × (last : ℕ) × (s ≡ some first)
    × (e ≡ some last)
    × (p.symbols ≡ tickers symbols)
    × (asks_properly first last today d p ≡ true)

same_answer_refl : (a b : Bool) → a ≡ b → same_answer a b ≡ true
same_answer_refl true b h = sym h
same_answer_refl false true h = cc
same_answer_refl false false h = refl

asked_days :
    (s e today d : ℕ)
    → let (a, b, notes) = clamp s e today in contains (pull_days a b) d ≡ may_ask s e today d
asked_days s e today d =
    let (a, b, notes) = clamp s e today in
    pull_days_exact a b d ∙ ground (arith, (clamp_exact s e today d).0)

no_days : (a b d : ℕ) → ltb b a ≡ true → contains (pull_days a b) d ≡ false
no_days a b d h = pull_days_exact a b d ∙ ground (arith, h)

range-IsProper :
    (symbols : List Text) (s e today d delay : ℕ)
    → any is_future (tickers symbols) ≡ false
    → 0 < length (tickers symbols)
    → IsProper false symbols
        (some s)
        (some e)
        today
        d
        (start_range (tickers symbols) (clamp s e today) delay)
range-IsProper symbols s e today d delay no_future some_ticker =
    let (a, b, notes) = clamp s e today in
    let syms = tickers symbols in
    elim (Bool-cases (ltb b a)) [
      | inl empty ↦ rw empty (sym (asked_days s e today d) ∙ no_days a b d empty)
      | inr full ↦ rw full (
        refl,
        s,
        e,
        refl,
        refl,
        refl,
        rw no_future (
            rw
              (same_answer_refl (contains (pull_days a b) d) (may_ask s e today d)
                (asked_days s e today d))
              (rw (beq_refl (length (pull_days a b) * length syms)) (ground (arith, some_ticker)))),
      )
    ]

no_elements : {A : Type 0} (xs : List A) → (length xs == 0) ≡ true → xs ≡ []
no_elements [] h = refl
no_elements (x ∷ xs) h = absurd (ground (arith, h))

-- Whatever it is given, `start_pull` refuses for a reason, or starts a pull. It refuses because a pull
-- runs, because one of the two dates is none, because no ticker is given, because one is of a future, or
-- because no day may be asked for. It starts a pull only where no other runs and both dates are given: for
-- the tickers that are given, on the weekdays that lie in the asked range and in the provider's window and
-- on no other day, at a pace between the two delays, and with the number of its requests as its total.
pub start_pull-IsProper :
    (is_alive : Bool) (symbols : List Text) (s e : Option ℕ) (delay today d : ℕ)
    → IsProper is_alive symbols s e today d (start_pull is_alive symbols s e delay today)
unfolding start_pull
start_pull-IsProper true symbols s e delay today d = refl
start_pull-IsProper false symbols none e delay today d = inl refl
start_pull-IsProper false symbols (some s) none delay today d = inr refl
start_pull-IsProper false symbols (some s) (some e) delay today d =
    elim (Bool-cases (length (tickers symbols) == 0)) [
      | inl no_tickers ↦ rw no_tickers (no_elements (tickers symbols) no_tickers)
      | inr some_tickers ↦ elim (Bool-cases (any is_future (tickers symbols))) [
        | inl future ↦ rw (some_tickers, future) future
        | inr shares ↦
            rw (some_tickers, shares)
              (range-IsProper symbols s e today d delay shares (ground (arith, some_tickers)))
      ]
    ]
