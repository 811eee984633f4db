-- ===== src/Onclick/Laws.antt =====
-- What the window, the guard and the retries of code/backend/onclick.py come to.
use grindstone.Prelude.{
  ℕ, zero, suc, ◌+◌, ◌-◌, ◌≤◌, ◌<◌, ◌≡◌, refl, ◌↔◌, inl, inr, Bool, true, false, ◌&&◌, List, [],
  ◌∷◌, ◌++◌, ap, arith, ltb, leb, contains, nat_eq, length, Option, none, some, Option-cases,
  if◌then◌else◌,
}
use native.Mathlib.Numerals.{add-one}
use grindstone.Calendar.{is_trading_day, contains-weekdays_from}
use grindstone.Onclick.Window.{window, window_days, Note, starts_at, ends_at, clamp, pull_days}
use grindstone.Onclick.Fetch.{
  Response, Fetched, gave_up, final_answer, fetch_loop, fetch_day, after_attempt, network_fault,
}

notes_empty :
    (b c : Bool) (x y : Note)
    → (((if b then x ∷ [] else []) ++ (if c then y ∷ [] else [])) ≡ [])
      ↔ ((b ≡ false) × (c ≡ false))
notes_empty true c x y = (λ h. cc, λ h. cc)
notes_empty false true x y = (λ h. cc, λ h. cc)
notes_empty false false x y = (λ h. (refl, refl), λ h. refl)

-- A day lies in the clamped range exactly if it lies in the range that was asked for and in the
-- window, and the note is empty exactly if the asked range lies in the window at both ends.
pub clamp_exact :
    (start last today d : ℕ)
    → let (lo, hi) = window today in
      let (s, e, notes) = clamp start last today in
      ((leb s d && leb d e) ≡ ((leb start d && leb d last) && (leb lo d && leb d hi)))
      × ((notes ≡ []) ↔ ((lo ≤ start) × (last ≤ hi)))
unfolding clamp
clamp_exact start last today d =
    let early = ltb start (today - window_days) in
    let late = ltb (today - 1) last in
    let cut = notes_empty early late (starts_at (today - window_days)) (ends_at (today - 1)) in
    (ground arith, (λ h. ground (arith, cut.0 h), λ h. cut.1 (ground arith)))

-- The days to pull are the weekdays of the range, each of them and no other.
pub pull_days_exact :
    (start last d : ℕ) → contains (pull_days start last) d ≡ is_trading_day start last d
unfolding pull_days
pull_days_exact start last d = contains-weekdays_from (last + 1 - start) start last d (omega arith)

abbrev or_later : Option Fetched → ℕ → Option ℕ → Option ℕ
or_later (some r) attempt later = some attempt
or_later none attempt later = later

-- The first of the attempts left, from `attempt` on, whose response is final.
abbrev pub first_final : (ℕ → Response) → ℕ → ℕ → Option ℕ
first_final serve zero attempt = none
first_final serve (suc left) attempt =
    or_later (final_answer (serve attempt)) attempt (first_final serve left (attempt + 1))

-- How the attempts from `attempt` on end, given the first one that is final: with its answer after a
-- sleep for each attempt before it, or, if there is none, with the last response.
abbrev pub EndsAt : (ℕ → Response) → ℕ → ℕ → Option ℕ → Fetched × List ℕ → Type 0
EndsAt serve retries attempt (some i) (result, sleeps) =
    (final_answer (serve i) ≡ some result) × (attempt + length sleeps ≡ i)
EndsAt serve retries attempt none (result, sleeps) =
    (result ≡ gave_up (serve retries)) × (attempt + length sleeps ≡ retries)

EndsAt-later :
    (serve : ℕ → Response) (retries attempt : ℕ) (last : Option ℕ) (later : Fetched × List ℕ)
    → attempt < retries
    → EndsAt serve retries (attempt + 1) last later
    → EndsAt serve retries attempt last (after_attempt retries attempt none later)
EndsAt-later serve retries attempt (some i) later h e = ground arith
EndsAt-later serve retries attempt none later h e = ground arith

fetch_loop_exact :
    (serve : ℕ → Response) (retries left attempt : ℕ) (last : Response)
    → attempt + left ≡ retries
    → EndsAt serve retries attempt
        (first_final serve (suc left) attempt)
        (fetch_loop serve retries (suc left) attempt last)
unfolding fetch_loop
fetch_loop_exact serve retries zero attempt last e =
    elim (Option-cases (final_answer (serve attempt))) [
      | inl transient ↦ rw transient (ground (arith, ap serve))
      | inr (r, final) ↦ rw final (final, omega arith)
    ]
fetch_loop_exact serve retries (suc left) attempt last e =
    elim (Option-cases (final_answer (serve attempt))) [
      | inl transient ↦ rw transient (
          EndsAt-later serve retries attempt (first_final serve (suc left) (attempt + 1))
            (fetch_loop serve retries (suc left) (attempt + 1) (serve attempt)) (omega arith)
            (fetch_loop_exact serve retries left (attempt + 1) (serve attempt) (omega arith)))
      | inr (r, final) ↦ rw final (final, omega arith)
    ]

-- `fetch_day` ends at the first attempt whose response is final, with that answer, and has then slept
-- once for each attempt before it; if none of its `retries + 1` attempts is final, it raises with the
-- last one's fault after `retries` sleeps.
pub fetch_day_exact :
    (serve : ℕ → Response) (retries : ℕ)
    → EndsAt serve retries 0 (first_final serve (retries + 1) 0) (fetch_day serve retries)
unfolding fetch_day
fetch_day_exact serve retries =
    rw add-one (fetch_loop_exact serve retries retries 0 network_fault (omega arith))
