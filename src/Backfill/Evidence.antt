-- ===== src/Backfill/Evidence.antt =====
-- What the effects of `run_one` and `run` mean for the backfill (code/backend/backfill.py): no false
-- `absent`, no second request for what was answered, and how far a run gets.
use grindstone.Prelude.{
  take, ℕ, zero, suc, Option, none, ◌+◌, ◌<◌, ◌≡◌, refl, sym, ap, ◌∙◌, Bool, true, false, ◌&&◌,
  ◌||◌, not, some, inl, inr, List, [], ◌∷◌, arith, any, ltb, length, contains, ◌==◌, nat_eq,
  string_eq, if◌then◌else◌, Bool-cases, beq_refl,
}
use grindstone.Coverage.{
  State, have, absent, unknown, state_eq, authoritative, feed_eq, Table, stored, has_older,
  state_of, Feed, gaps, Query,
}
use grindstone.Coverage.Wanted.{is_answered}
use grindstone.Coverage.Retry.{answered_is_final}
use grindstone.Backfill.Plan.{Chunk}
use grindstone.Backfill.Work.{
  Fetched, fetched, raised, Report, asked_range, run_one, run_chunks, RunReport, run_report, run,
}
use grindstone.Backfill.Effects.{fetch_outcome, day_outcome, run_one_exact}

-- The fetch that `run_one` makes, of the clamped range.
abbrev pub fetched_for : Chunk → (ℕ → ℕ → Fetched) → ℕ → Fetched
fetched_for c fetch today = let (start, last, notes) = asked_range c today in fetch start last

same_feed : (f : Feed) → (f == f) ≡ true
same_feed f = beq_refl f

absent_tests :
    (a b d : Bool)
    → (if a then unknown else (if b then have else (if d then absent else unknown))) ≡ absent
    → (a ≡ false) × (b ≡ false) × (d ≡ true)
absent_tests a b d e = ground arith

absent_outcome :
    (c : Chunk) (r : Fetched) (t : Table) (x : ℕ)
    → fetch_outcome c r t x ≡ absent
    → (rows : List ℕ) × (r ≡ fetched rows)
      × (contains rows x ≡ false)
      × (contains (authoritative c.feed.kind) c.feed.provider ≡ true)
      × ((length rows == 0 && not (has_older t c.feed c.start)) ≡ false)
absent_outcome c (raised message) t x e = cc
absent_outcome c (fetched rows) t x e =
    let (none_at_all, missed, entitled) =
      absent_tests (length rows == 0 && not (has_older t c.feed c.start)) (contains rows x)
        (contains (authoritative c.feed.kind) c.feed.provider) e in
    (rows, refl, missed, entitled, none_at_all)

window_outcome : (b : Bool) (s : State) → (if b then unknown else s) ≡ absent → s ≡ absent
window_outcome true s e = cc
window_outcome false s e = e

outside_window :
    (c : Chunk) (fetch : ℕ → ℕ → Fetched) (today : ℕ) (t : Table) (x : ℕ)
    → (c.feed.provider == "onclick") ≡ false
    → day_outcome c fetch today t x ≡ fetch_outcome c (fetched_for c fetch today) t x
outside_window c fetch today t x elsewhere = rw elsewhere

answered_tests :
    (n : ℕ) (a b : Bool)
    → 0 < n
    → is_answered
        (if n == 0 && a then unknown else (if b then have else (if true then absent else unknown)))
      ≡ true
answered_tests n a b h = ground arith

answered_outcome :
    (c : Chunk) (r : Fetched) (rows : List ℕ) (t : Table) (x : ℕ)
    → r ≡ fetched rows
    → 0 < length rows
    → contains (authoritative c.feed.kind) c.feed.provider ≡ true
    → is_answered (fetch_outcome c r t x) ≡ true
answered_outcome c r rows t x came some_rows entitled =
    rw (came, entitled)
      (answered_tests (length rows) (not (has_older t c.feed c.start)) (contains rows x) some_rows)

module _ (c : Chunk) (fetch : ℕ → ℕ → Fetched) (today now : ℕ) (t : Table) {report : Report}
    {u : Table} (ran : run_one c fetch today now t ≡ some (report, u)) where
  day_state :
      (x : ℕ) → contains c.days x ≡ true → state_of u c.feed x ≡ day_outcome c fetch today t x
  day_state x inside =
      let (report', u', ends, decided) = run_one_exact c fetch today now t in
      let same : u ≡ u' = cc (ran, ends) in
      rw same (decided c.feed x ∙ rw (same_feed (stored c.feed), inside))

  -- After `run_one` a day of the chunk is `absent` only if the provider is authoritative for the
  -- kind, and its fetch returned rows, or the table held data older than the chunk, but the day was
  -- not among them.
  pub absent_needs_evidence :
      (x : ℕ)
      → contains c.days x ≡ true
      → state_of u c.feed x ≡ absent
      → (rows : List ℕ) × (fetched_for c fetch today ≡ fetched rows)
        × (contains rows x ≡ false)
        × (contains (authoritative c.feed.kind) c.feed.provider ≡ true)
        × ((length rows == 0 && not (has_older t c.feed c.start)) ≡ false)
  absent_needs_evidence x inside e = absent_outcome c (fetched_for c fetch today) t x (
      window_outcome (c.feed.provider == "onclick" && ltb last start) _
        (sym (day_state x inside) ∙ e))
    where
      start : ℕ
      start = (asked_range c today).0

      last : ℕ
      last = (asked_range c today).1

  -- Once `run_one` has fetched some rows of a chunk from a provider that is authoritative for its
  -- kind, and is not OnclickMedia, no later `gaps` returns a day of that chunk.
  pub fetched_chunk_is_done :
      (rows : List ℕ) (x later : ℕ) (q : Query)
      → contains c.days x ≡ true
      → contains (authoritative c.feed.kind) c.feed.provider ≡ true
      → (c.feed.provider == "onclick") ≡ false
      → fetched_for c fetch today ≡ fetched rows
      → 0 < length rows
      → contains (gaps c.feed q later u) x ≡ false
  fetched_chunk_is_done rows x later q inside entitled elsewhere came some_rows =
      answered_is_final c.feed q x later u (
        ap is_answered (day_state x inside ∙ outside_window c fetch today t x elsewhere)
        ∙ answered_outcome c (fetched_for c fetch today) rows t x came some_rows entitled)

or_false : (a b : Bool) → (a || b) ≡ false → (a ≡ false) × (b ≡ false)
or_false a b h = ground arith

-- How many of `n` chunks come before the first one, from the i-th on, that is stopped at.
abbrev pub before_stop : (ℕ → Bool) → ℕ → ℕ → ℕ
before_stop stops i zero = 0
before_stop stops i (suc n) = if stops i then 0 else suc (before_stop stops (i + 1) n)

-- Whether some chunk of the list covers a day of a feed.
abbrev pub covers : List Chunk → Feed → ℕ → Bool
covers cs g x = any (λ c. stored c.feed == stored g && contains c.days x) cs

-- The reports and the table of working the chunks one after the other, each by `run_one` on the table that
-- the one before it left.
pub data Worked (fetch : Chunk → ℕ → ℕ → Fetched) (today now : ℕ)
    : List Chunk → Table → List Report → Table → Type 0 where
  worked_none : {t : Table} → Worked fetch today now [] t [] t
  worked_one :
      {c : Chunk} {cs : List Chunk} {t u v : Table} {r : Report} {rs : List Report}
      → run_one c (fetch c) today now t ≡ some (r, u)
      → Worked fetch today now cs u rs v
      → Worked fetch today now (c ∷ cs) t (r ∷ rs) v

run_total :
    (fetch : Chunk → ℕ → ℕ → Fetched) (stops : ℕ → Bool) (i today now : ℕ) (cs : List Chunk)
    (t : Table)
    → (stopped : Bool) × (rs : List Report) × (u : Table) × (run_chunks fetch stops i today now cs t
        ≡ some (stopped, rs, u))
      × (length rs ≡ before_stop stops i (length cs))
      × (stopped ≡ ltb (length rs) (length cs))
      × Worked fetch today now (take (before_stop stops i (length cs)) cs) t rs u
      × ((g : Feed) (x : ℕ) → covers cs g x ≡ false → state_of u g x ≡ state_of t g x)
unfolding run_chunks
run_total fetch stops i today now [] t =
    (false, [], t, refl, refl, refl, worked_none, λ g x h. refl)
run_total fetch stops i today now (c ∷ cs) t = elim (Bool-cases (stops i)) [
  | inl stop ↦ (
    true,
    [],
    t,
    rw (stop, run_chunks),
    rw stop,
    ground arith,
    rw stop worked_none,
    λ g x h. refl,
  )
  | inr go ↦
      let (r, u, ends, decided) = run_one_exact c (fetch c) today now t in
      let (stopped, rs, v, later, count, early, worked, kept) =
        run_total fetch stops (i + 1) today now cs u in
      (
        stopped,
        r ∷ rs,
        v,
        rw (go, run_chunks, ends, later),
        rw go (ap suc count),
        early ∙ ground arith,
        rw go (worked_one ends worked),
        λ g x h.
            let (other_chunk, rest) =
              or_false (stored c.feed == stored g && contains c.days x) _ h in
            kept g x rest ∙ decided g x ∙ rw other_chunk,
      )
]

-- `run` never raises, whatever the provider does. Its results and its table are those of working the
-- chunks by `run_one`, in order and each on the table that the one before it left, up to the first chunk at
-- which `should_stop` answers true, or all of them; and it says whether it was stopped.
pub run_exact :
    (fetch : Chunk → ℕ → ℕ → Fetched) (stops : ℕ → Bool) (today now : ℕ) (cs : List Chunk)
    (t : Table)
    → (report : RunReport) × (u : Table) × (run fetch stops today now cs t ≡ some (report, u))
      × (report.planned ≡ length cs)
      × (length report.results ≡ before_stop stops 0 (length cs))
      × (report.stopped ≡ ltb (length report.results) report.planned)
      × Worked fetch today now (take (before_stop stops 0 (length cs)) cs) t report.results u
unfolding run
run_exact fetch stops today now cs t =
    let (stopped, rs, u, ends, count, early, worked, kept) =
      run_total fetch stops 0 today now cs t in
    (
      record { planned = length cs; stopped = stopped; results = rs },
      u,
      rw (ends, run),
      refl,
      count,
      early,
      worked,
    )

run_end :
    (e : Option (Bool × List Report × Table)) (n : ℕ) {b : Bool} {rs : List Report} {v : Table}
    {report : RunReport} {u : Table}
    → e ≡ some (b, rs, v)
    → run_report n e ≡ some (report, u)
    → v ≡ u
run_end none n ends h = cc
run_end (some (b, rs, v)) n ends h = cc

-- The state of a slot that no chunk of the list covers is kept by `run`.
pub run_keeps :
    (fetch : Chunk → ℕ → ℕ → Fetched) (stops : ℕ → Bool) (today now : ℕ) (cs : List Chunk)
    (t : Table) {report : RunReport} {u : Table}
    → run fetch stops today now cs t ≡ some (report, u)
    → (g : Feed) (x : ℕ) → covers cs g x ≡ false
    → state_of u g x ≡ state_of t g x
unfolding run
run_keeps fetch stops today now cs t ran g x uncovered =
    let (stopped, rs, v, ends, count, early, worked, kept) =
      run_total fetch stops 0 today now cs t in
    ap (λ w. state_of w g x) (sym (run_end _ (length cs) ends ran)) ∙ kept g x uncovered
