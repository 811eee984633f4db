-- ===== src/Backfill/Plan.antt =====
-- `Chunk`, `plan` and `remaining` of code/backend/backfill.py.
use grindstone.Prelude.{
  ℕ, ◌-◌, Bool, true, false, ◌||◌, List, [], ◌∷◌, ◌++◌, map, reverse, ltb, leb, length, take,
  if◌then◌else◌,
}
use grindstone.Coverage.{Feed, Table, Query, gaps, max_attempts_default}

-- `CHUNK_DAYS` and `MAX_CHUNKS_PER_RUN`
abbrev pub chunk_days_default : ℕ
chunk_days_default = 30

abbrev pub max_chunks_per_run : ℕ
max_chunks_per_run = 40

pub record Chunk : Type 0 where
  pub feed : Feed
  pub start : ℕ
  pub last : ℕ
  pub days : List ℕ

-- The list `run` while it grows; it is never empty, and its ends are `run[0]` and `run[-1]`.
pub record Run : Type 0 where
  pub first : ℕ
  pub last : ℕ
  pub days : List ℕ

abbrev pub start_run : ℕ → Run
start_run d = record { first = d; last = d; days = d ∷ [] }

abbrev pub extend_run : Run → ℕ → Run
extend_run r d = record { first = r.first; last = d; days = r.days ++ (d ∷ []) }

unfoldable pub must_break : ℕ → Run → ℕ → Bool
must_break chunk_days r d = leb chunk_days (d - r.first) || ltb 5 (d - r.last)

-- The loop over `dates[1:]`, over ascending dates.
unfoldable pub split_runs : ℕ → Run → List ℕ → List Run
split_runs n r [] = r ∷ []
split_runs n r (d ∷ ds) = elim (must_break n r d) [
  | true ↦ r ∷ split_runs n (start_run d) ds
  | false ↦ split_runs n (extend_run r d) ds
]

-- `sorted`
unfoldable pub insert : ℕ → List ℕ → List ℕ
insert d [] = d ∷ []
insert d (x ∷ xs) = if leb d x then d ∷ (x ∷ xs) else x ∷ insert d xs

unfoldable pub sorted : List ℕ → List ℕ
unfolding insert
sorted [] = []
sorted (d ∷ ds) = insert d (sorted ds)

-- `_chunk`
abbrev pub to_chunk : Feed → Run → Chunk
to_chunk f r = record { feed = f; start = r.first; last = r.last; days = r.days }

-- The query that `plan` makes, all options of `gaps` at their defaults.
abbrev pub plain_query : ℕ → ℕ → ℕ → Query
plain_query start last limit = record {
  start = start;
  last = last;
  limit = limit;
  prefer_untried = false;
  cooldown = 0;
  newest_first = true;
  max_attempts = max_attempts_default;
}

unfoldable pub plan_runs : ℕ → List ℕ → List Run
unfolding split_runs
plan_runs n [] = []
plan_runs n (d ∷ ds) = split_runs n (start_run d) ds

unfoldable pub plan : Feed → ℕ → ℕ → ℕ → ℕ → ℕ → Table → List Chunk
unfolding plan_runs sorted
plan f start last chunk_days max_chunks now t =
    let dates = sorted (gaps f (plain_query start last 5000) now t) in
    take max_chunks (reverse (map (to_chunk f) (plan_runs chunk_days dates)))

unfoldable pub remaining : Feed → ℕ → ℕ → ℕ → Table → ℕ
remaining f start last now t = length (gaps f (plain_query start last 10000000) now t)
