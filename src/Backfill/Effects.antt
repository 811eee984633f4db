-- ===== src/Backfill/Effects.antt =====
-- What `run_one` of code/backend/backfill.py writes: the state of each day of the chunk, and of no
-- other slot. It never raises.
use grindstone.Prelude.{
  ℕ, String, ◌≡◌, refl, inl, inr, true, ◌&&◌, not, some, List, [], ◌∷◌, ltb, length, contains, ◌==◌,
  nat_eq, string_eq, if◌then◌else◌, Bool-cases,
}
use grindstone.Coverage.{
  State, have, failed, unknown, states, state_eq, authoritative, Feed, feed_eq, Table,
}
use grindstone.Coverage.{
  has_older, upsert, marked_row, Counts, no_counts, mark_days, missing_claim, count_claim,
}
use grindstone.Coverage.Claims.{stands, mark_known, Decides, Decides-nil, Decides-cons}
use grindstone.Onclick.{Note}
use grindstone.Backfill.Plan.{Chunk}
use grindstone.Backfill.Work.{
  Fetched, fetched, raised, Report, mark_each, failed_report, empty_report, skipped_report,
  done_report, empty_detail, outside_detail, record_fetch, asked_range, run_one,
}

mark_each_total :
    (f : Feed) (ds : List ℕ) (s : State) (detail : String) (now : ℕ) (t : Table)
    → contains states s ≡ true
    → stands f s ≡ true
    → (u : Table) × (mark_each f ds s detail now t ≡ some u) × Decides f ds (λ x. s) t u
unfolding mark_each
mark_each_total f [] s detail now t known firm = (t, refl, Decides-nil f (λ x. s) t)
mark_each_total f (d ∷ ds) s detail now t known firm =
    let after = upsert (marked_row f d s 0 detail now t) t in
    let (u, ends, rest) = mark_each_total f ds s detail now after known firm in
    (
      u,
      rw (mark_known f d s 0 detail now t known, mark_each) ends,
      Decides-cons f d ds (λ x. s) 0 detail now t u known firm rest,
    )

-- The state of a day of a fetch, by whether it came back.
abbrev pub came_back : State → List ℕ → ℕ → State
came_back missing got x = if contains got x then have else missing

came_back_known :
    (f : Feed) (missing : State) (got : List ℕ) (x : ℕ)
    → contains states missing ≡ true
    → stands f missing ≡ true
    → (contains states (came_back missing got x) ≡ true)
      × (stands f (came_back missing got x) ≡ true)
came_back_known f missing got x known firm = elim (Bool-cases (contains got x)) [
  | inl came ↦ rw came (refl, refl)
  | inr went ↦ rw went (known, firm)
]

mark_days_total :
    (f : Feed) (got : List ℕ) (missing : State) (now : ℕ) (ds : List ℕ) (c : Counts) (t : Table)
    → contains states missing ≡ true
    → stands f missing ≡ true
    → (c' : Counts) × (u : Table) × (mark_days f got missing now ds c t ≡ some (c', u))
      × Decides f ds (came_back missing got) t u
unfolding mark_days
mark_days_total f got missing now [] c t known firm =
    (c, t, refl, Decides-nil f (came_back missing got) t)
mark_days_total f got missing now (d ∷ ds) c t known firm =
    let s = came_back missing got d in
    let n : ℕ = if contains got d then 1 else 0 in
    let after = upsert (marked_row f d s n "" now t) t in
    let ok = came_back_known f missing got d known firm in
    let (c', u, ends, rest) =
      mark_days_total f got missing now ds (count_claim s c) after known firm in
    (
      c',
      u,
      rw (mark_known f d s n "" now t ok.0, mark_days) ends,
      Decides-cons f d ds (came_back missing got) n "" now t u ok.0 ok.1 rest,
    )

missing_claim-stands :
    (f : Feed)
    → let s = missing_claim (authoritative f.kind) f.provider in
      (contains states s ≡ true) × (stands f s ≡ true)
missing_claim-stands f = elim (Bool-cases (contains (authoritative f.kind) f.provider)) [
  | inl entitled ↦ rw entitled (refl, refl)
  | inr not_entitled ↦ rw not_entitled (refl, refl)
]

-- What a fetch decides for a day of the chunk: an exception is `failed`; a window with no rows at
-- all, of a provider that has returned nothing older, is `unknown`; otherwise a day that came back
-- is `have`, and one that did not is `absent` for an authoritative provider and `unknown` for others.
abbrev pub fetch_outcome : Chunk → Fetched → Table → ℕ → State
fetch_outcome c (raised message) t x = failed
fetch_outcome c (fetched rows) t x =
    if length rows == 0 && not (has_older t c.feed c.start)
    then unknown
    else came_back (missing_claim (authoritative c.feed.kind) c.feed.provider) rows x

record_fetch_total :
    (c : Chunk) (notes : List Note) (r : Fetched) (now : ℕ) (t : Table)
    → (report : Report) × (u : Table) × (record_fetch c notes r now t ≡ some (report, u))
      × Decides c.feed c.days (fetch_outcome c r t) t u
unfolding record_fetch
record_fetch_total c notes (raised message) now t =
    let (u, ends, states_of_days) = mark_each_total c.feed c.days failed message now t refl refl in
    (failed_report message, u, rw ends, states_of_days)
record_fetch_total c notes (fetched rows) now t =
    elim (Bool-cases (length rows == 0 && not (has_older t c.feed c.start))) [
      | inl empty ↦
          let (u, ends, states_of_days) =
            mark_each_total c.feed c.days unknown empty_detail now t refl refl in
          (empty_report c notes, u, rw (empty, ends), λ g x. rw empty (states_of_days g x))
      | inr some_rows ↦
          let firm = missing_claim-stands c.feed in
          let (c', u, ends, states_of_days) =
            mark_days_total c.feed rows (missing_claim (authoritative c.feed.kind) c.feed.provider)
              now c.days no_counts t firm.0 firm.1 in
          (
            done_report (length rows) notes c',
            u,
            rw (some_rows, ends),
            λ g x. rw some_rows (states_of_days g x),
          )
    ]

-- What `run_one` decides for a day of the chunk: `unknown` where OnclickMedia's window no longer
-- meets the chunk, and what the fetch of the clamped range decides otherwise.
abbrev pub day_outcome : Chunk → (ℕ → ℕ → Fetched) → ℕ → Table → ℕ → State
day_outcome c fetch today t x =
    let (start, last, notes) = asked_range c today in
    if c.feed.provider == "onclick" && ltb last start
    then unknown
    else fetch_outcome c (fetch start last) t x

-- `run_one` never raises, whatever the provider does; afterwards each day of the chunk has the state
-- that was decided for it, and every other slot of the table the state that it had.
pub run_one_exact :
    (c : Chunk) (fetch : ℕ → ℕ → Fetched) (today now : ℕ) (t : Table)
    → (report : Report) × (u : Table) × (run_one c fetch today now t ≡ some (report, u))
      × Decides c.feed c.days (day_outcome c fetch today t) t u
unfolding run_one
run_one_exact c fetch today now t =
    let (start, last, notes) = asked_range c today in
    elim (Bool-cases (c.feed.provider == "onclick" && ltb last start)) [
      | inl outside ↦
          let (u, ends, states_of_days) =
            mark_each_total c.feed c.days unknown outside_detail now t refl refl in
          (skipped_report notes, u, rw (outside, ends), λ g x. rw outside (states_of_days g x))
      | inr inside ↦
          let (report, u, ends, states_of_days) =
            record_fetch_total c notes (fetch start last) now t in
          (report, u, rw inside ends, λ g x. rw inside (states_of_days g x))
    ]
