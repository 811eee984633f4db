-- ===== src/Recorder/Chains.antt =====
-- `_backfill_chains` of code/backend/recorder.py: the chain history of a symbol, by the coverage table, the
-- puller's fetch and the two stores. The log lines and the closing of the connection are left out.
use grindstone.Prelude.{
  ℕ, ◌+◌, String, Bool, true, false, ◌&&◌, Option, none, some, List, [], ◌∷◌, ◌++◌, ltb,
  if◌then◌else◌, max, Text,
}
use grindstone.Coverage.{
  State, have, absent, failed, unknown, Feed, Table, Query, gaps, mark, reconcile_chain,
  max_attempts_default,
}
use grindstone.Onclick.{
  window, Response, Fetched, checked, outside_plan, gave_up, no_day, mismatch, chain, fetch_day,
}

-- `CHAIN_DAYS_PER_CYCLE`
abbrev pub chain_days_per_cycle : ℕ
chain_days_per_cycle = 3

abbrev pub onclick_feed : Text → Feed
onclick_feed symbol = record {
  provider = "onclick";
  kind = "chain";
  symbol = symbol;
  timeframe = "";
}

-- What becomes of a body. `import_chain` files each row under the row's own date, whatever day was asked
-- for, and commits day by day; `append_day` files all rows under the day that was asked for, and returns
-- how many it wrote. Either both stores returned, with the days that the engine's store filed and the
-- rows that each says; or the archive's call raised after the engine's store filed its days; or the parse
-- or the engine's store raised, after the days that were committed before it.
pub data StoreAnswer : Type 0 where
  both : List ℕ → ℕ → ℕ → StoreAnswer
  archive_raised engine_raised : List ℕ → StoreAnswer

-- What there is outside: the server's responses for a day, the stores, the text of an exception, the
-- clock at each day, and whether a stop is asked for before a day or while its pause lasts.
pub record Outside : Type 0 where
  pub serve : ℕ → ℕ → Response
  pub keeps : ℕ → Text → StoreAnswer
  pub message : Fetched → String
  pub now : ℕ → ℕ
  pub stops : ℕ → Bool
  pub wakes : ℕ → Bool

-- The coverage table, and the days of which each store was given rows.
pub record Stores : Type 0 where
  pub table : Table
  pub engine : List ℕ
  pub archive : List ℕ

-- Where the loop is: the stores, the number of days done, and whether an exception ended it.
pub record Cycle : Type 0 where
  pub stores : Stores
  pub done : ℕ
  pub raised : Bool

abbrev pub with_table : Stores → Option Table → Option Stores
with_table s none = none
with_table s (some t) = some (record s { table = t })

-- A day that the fetch raised for is followed by no pause.
abbrev pub is_paced : Fetched → Bool
is_paced (checked c) = true
is_paced _ = false

module _ (o : Outside) (symbol : Text) where
  abbrev pub mark_day : ℕ → State → ℕ → String → Stores → Option Stores
  mark_day day state rows detail s =
      with_table s (mark (onclick_feed symbol) day state rows detail (o.now day) s.table)

  -- What is done with a body that came.
  abbrev pub file_engine : List ℕ → Stores → Stores
  file_engine days s = record s { engine = days ++ s.engine }

  -- `append_day` writes under the asked day, if it writes any row.
  abbrev pub file_archive : ℕ → ℕ → Stores → Stores
  file_archive day archived s = if ltb 0 archived then record s { archive = day ∷ s.archive } else s

  abbrev pub store_day : ℕ → StoreAnswer → Stores → Stores × Option Stores
  store_day day (engine_raised days) s = (file_engine days s, none)
  store_day day (archive_raised days) s = (file_engine days s, none)
  store_day day (both days contracts archived) s =
      let s' = file_archive day archived (file_engine days s) in
      (s', mark_day day have (max contracts archived) "" s')

  -- The body of the loop: the stores if an exception ends it, and the stores if none does.
  unfoldable pub settle_day : ℕ → Fetched → Stores → Stores × Option Stores
  settle_day day outside_plan s = (s, mark_day day unknown 0 (o.message outside_plan) s)
  settle_day day (gave_up r) s = (s, mark_day day failed 0 (o.message (gave_up r)) s)
  settle_day day (checked mismatch) s =
      (s, mark_day day failed 0 "columns differ (open session, no greeks)" s)
  settle_day day (checked (chain body)) s = store_day day (o.keeps day body) s
  settle_day day (checked no_day) s = (s, mark_day day absent 0 "empty response" s)

  abbrev pub cycle_of : Stores → ℕ → Bool → Cycle
  cycle_of s done raised = record { stores = s; done = done; raised = raised }

  -- The loop over the gaps that are left.
  unfoldable pub settle_days : List ℕ → ℕ → Stores → Cycle
  unfolding settle_day
  settle_days [] done s = cycle_of s done false
  settle_days (day ∷ days) done s = elim (o.stops day) [
    | true ↦ cycle_of s done false
    | false ↦
        let (s', u) = settle_day day (fetch_day (o.serve day) 2).0 s in
        elim u [
          | none ↦ cycle_of s' done true
          | some v ↦ elim (is_paced (fetch_day (o.serve day) 2).0 && o.wakes day) [
            | true ↦ cycle_of v (done + 1) false
            | false ↦ settle_days days (done + 1) v
          ]
        ]
  ]

  abbrev pub chain_query : ℕ × ℕ → Query
  chain_query (lo, hi) = record {
    start = lo;
    last = hi;
    limit = chain_days_per_cycle;
    prefer_untried = true;
    cooldown = 0;
    newest_first = true;
    max_attempts = max_attempts_default;
  }

  abbrev pub reconciled : Stores → Option (ℕ × Table) → Option Stores
  reconciled s none = none
  reconciled s (some (n, t)) = some (record s { table = t })

  -- `if known: coverage.reconcile_chain(...)`; no list stands for an error of the archive.
  abbrev pub reconcile_known : Option (List (Option ℕ)) → ℕ → Stores → Option Stores
  reconcile_known none now s = some s
  reconcile_known (some []) now s = some s
  reconcile_known (some (d ∷ ds)) now s =
      reconciled s (reconcile_chain (onclick_feed symbol) (d ∷ ds) now s.table)

  abbrev pub settle_gaps : ℕ → ℕ → Stores → Option Stores → Cycle
  settle_gaps today now s none = cycle_of s 0 true
  settle_gaps today now s (some u) =
      settle_days (gaps (onclick_feed symbol) (chain_query (window today)) now u.table) 0 u

  unfoldable pub backfill_chains : Option (List (Option ℕ)) → ℕ → ℕ → Stores → Cycle
  unfolding settle_days
  backfill_chains known today now s = settle_gaps today now s (reconcile_known known now s)
