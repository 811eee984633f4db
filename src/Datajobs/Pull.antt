-- ===== src/Datajobs/Pull.antt =====
-- `start_pull` of code/backend/datajobs.py and the thread that it starts. A date is an ordinal, or
-- `none` for a text that is no date. What the archive makes of a body is a parameter. The texts of
-- "last" and of the error, and the closing of the connections, are left out.
use grindstone.Prelude.{
  ℕ, ◌+◌, ◌*◌, ◌/◌, Bool, true, false, Option, none, some, List, [], ◌∷◌, ◌++◌, map, min, max, any,
  keep, not, length, ltb, ◌==◌, nat_eq, text_eq, Text, codes, upper, strip, starts_with,
  if◌then◌else◌,
}
use grindstone.Onclick.{
  Note, clamp, pull_days, no_day, mismatch, chain, Fetched, checked, outside_plan, gave_up,
}

pub data State : Type 0 where
  running stopped done error : State

pub record Counts : Type 0 where
  pub done : ℕ
  pub written : ℕ
  pub skipped : ℕ

-- `self._pull`; the delay is in tenths of a second.
pub record Pull : Type 0 where
  pub state : State
  pub symbols : List Text
  pub first : ℕ
  pub last : ℕ
  pub total : ℕ
  pub counts : Counts
  pub notes : List Note
  pub delay : ℕ
  pub eta_seconds : ℕ

-- Why `start_pull` refuses.
pub data Refusal : Type 0 where
  already_running bad_dates no_ticker futures_only nothing_to_fetch : Refusal

-- `onclick.MIN_DELAY` and `onclick.MAX_DELAY`
abbrev pub min_delay : ℕ
min_delay = 50

abbrev pub max_delay : ℕ
max_delay = 100

abbrev pub tickers : List Text → List Text
tickers symbols = map (λ s. upper (strip s)) (keep (λ s. not (strip s == [])) symbols)

abbrev pub is_future : Text → Bool
is_future s = starts_with s (codes "/")

pub data Start : Type 0 where
  refused : Refusal → Start
  started : Pull → Start

abbrev pub start_range : List Text → ℕ × ℕ × List Note → ℕ → Start
start_range syms (s, e, notes) delay =
    if ltb e s
    then refused nothing_to_fetch
    else let total = length (pull_days s e) * length syms in
      let pace = max min_delay (min delay max_delay) in
      started (record {
        state = running;
        symbols = syms;
        first = s;
        last = e;
        total = total;
        counts = record { done = 0; written = 0; skipped = 0 };
        notes = notes;
        delay = pace;
        eta_seconds = total * pace / 10;
      })

abbrev pub start_dates : List Text → Option ℕ → Option ℕ → ℕ → ℕ → Start
start_dates symbols (some s) (some e) delay today =
    if length (tickers symbols) == 0
    then refused no_ticker
    else if any is_future (tickers symbols)
    then refused futures_only
    else start_range (tickers symbols) (clamp s e today) delay
start_dates symbols _ _ delay today = refused bad_dates

-- `is_alive` tells whether a pull's thread runs.
unfoldable pub start_pull : Bool → List Text → Option ℕ → Option ℕ → ℕ → ℕ → Start
start_pull is_alive symbols start last delay today =
    if is_alive then refused already_running else start_dates symbols start last delay today

-- The pairs that the nested loops go through.
abbrev pub at_day : Text → ℕ → Text × ℕ
at_day s d = (s, d)

unfoldable pub work : List Text → List ℕ → List (Text × ℕ)
work [] days = []
work (s ∷ syms) days = map (at_day s) days ++ work syms days

-- What the archive makes of a body: the number of contracts, or an exception.
pub data Imported : Type 0 where
  contracts : ℕ → Imported
  import_failed : Imported

abbrev pub count_import : Imported → Counts → Option Counts
count_import (contracts n) c =
    some (record { done = c.done + 1; written = c.written + n; skipped = c.skipped })
count_import import_failed c = none

abbrev skip : ℕ → Counts → Counts
skip n c = record { done = c.done + 1; written = c.written; skipped = c.skipped + n }

-- One round of the loop; `none` is an exception. After a `PermissionError` the day is counted by the
-- handler, and `body = None` then leads to the last branch, which counts it again.
unfoldable pub pull_day : Fetched → Imported → Counts → Option Counts
pull_day (checked no_day) i c = some (skip 1 c)
pull_day (checked mismatch) i c = some (skip 1 c)
pull_day (checked (chain body)) i c = count_import i c
pull_day outside_plan i c = some (skip 2 c)
pull_day (gave_up fault) i c = none

-- What the puller meets: the answer of `fetch_day`, what the archive makes of it, and whether a stop
-- was asked for before the i-th round.
pub record World : Type 0 where
  pub fetch : Text → ℕ → Fetched
  pub store : Text → ℕ → Imported
  pub stops : ℕ → Bool

-- The loop from the i-th pair on: how it ends, and the counts then.
unfoldable pub pull_loop : World → ℕ → List (Text × ℕ) → Counts → State × Counts
pull_loop w i [] c = (done, c)
pull_loop w i ((s, d) ∷ rest) c = elim (w.stops i) [
  | true ↦ (stopped, c)
  | false ↦ elim (pull_day (w.fetch s d) (w.store s d) c) [
    | none ↦ (error, c)
    | some c' ↦ pull_loop w (i + 1) rest c'
  ]
]

-- The thread's `run`, on the pull that was started.
unfoldable pub run_pull : World → Pull → Pull
unfolding work pull_loop
run_pull w p =
    let (state, c) = pull_loop w 0 (work p.symbols (pull_days p.first p.last)) p.counts in
    record p { state = state; counts = c }
