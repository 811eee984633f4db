-- ===== src/Recorder/Prune.antt =====
-- `prune` of code/backend/recorder.py, with one reading of the clock. Of a recorded row only what it
-- is filed under and its time are kept.
use grindstone.Prelude.{
  ℕ, ◌+◌, ◌-◌, ◌*◌, String, ◌≡◌, ◌↔◌, Bool, true, ◌&&◌, not, List, [], ◌∷◌, arith, ltb, max, length,
  keep, Eq, ◌==◌, nat_eq, string_eq, text_eq, text_beq_iff, eq_iff, Text, if◌then◌else◌,
}
use grindstone.Recorder.Jobs.{Job}

pub record Series : Type 0 where
  pub symbol : Text
  pub timeframe : String

unfoldable pub series_beq : Series → Series → Bool
series_beq a b = a.symbol == b.symbol && a.timeframe == b.timeframe

pub series_beq_iff : (a b : Series) → (series_beq a b ≡ true) ↔ (a ≡ b)
unfolding series_beq
series_beq_iff a b = ground (arith, text_beq_iff a.symbol b.symbol, eq_iff a.timeframe b.timeframe)

instance abbrev pub series_eq : Eq Series
series_eq = record { same_iff = series_beq_iff; same = series_beq }

-- A row of `rec_bars` or `rec_chain`.
pub record Recorded (K : Type 0) : Type 0 where
  pub key : K
  pub ts : ℕ

-- One item of `bars_keep` or `chain_keep`.
pub record Promise (K : Type 0) : Type 0 where
  pub key : K
  pub days : ℕ

abbrev pub cutoff : ℕ → ℕ → ℕ
cutoff now days = now - days * 86400

module _ {K : Type 0} ⦃e : Eq K⦄ where
  -- `keep[k] = max(keep.get(k, 0), days)`
  abbrev pub raise_to : Promise K → List (Promise K) → List (Promise K)
  raise_to p [] = p ∷ []
  raise_to p (q ∷ qs) =
      if q.key == p.key then record q { days = max q.days p.days } ∷ qs else q ∷ raise_to p qs

  abbrev pub longest : List (Promise K) → List (Promise K) → List (Promise K)
  longest [] qs = qs
  longest (p ∷ ps) qs = longest ps (raise_to p qs)

  abbrev pub is_old : ℕ → Promise K → Recorded K → Bool
  is_old now p r = r.key == p.key && ltb r.ts (cutoff now p.days)

  -- The deletes of one table, with the count of the rows that they remove.
  abbrev pub delete_old : ℕ → List (Promise K) → List (Recorded K) → ℕ × List (Recorded K)
  delete_old now [] rows = (0, rows)
  delete_old now (p ∷ ps) rows =
      let (n, left) = delete_old now ps (keep (λ r. not (is_old now p r)) rows) in
      (length (keep (λ r. is_old now p r) rows) + n, left)

unfoldable pub bars_promises : List Job → List (Promise Series)
bars_promises [] = []
bars_promises (j ∷ jobs) =
    if j.slot.kind == "bars"
    then record {
      key = record { symbol = j.slot.symbol; timeframe = j.slot.timeframe };
      days = j.retention_days;
    }
      ∷ bars_promises jobs
    else bars_promises jobs

unfoldable pub chain_promises : List Job → List (Promise Text)
chain_promises [] = []
chain_promises (j ∷ jobs) =
    if j.slot.kind == "chain"
    then record { key = j.slot.symbol; days = j.retention_days } ∷ chain_promises jobs
    else chain_promises jobs

-- `max([...], default=90)`, with the largest so far.
abbrev pub most_days : ℕ → List Job → ℕ
most_days best [] = best
most_days best (j ∷ jobs) = most_days (max best j.retention_days) jobs

abbrev pub days_of_news : List Job → ℕ
days_of_news [] = 90
days_of_news (j ∷ jobs) = most_days j.retention_days jobs

unfoldable pub news_days : List Job → ℕ
news_days jobs = days_of_news (keep (λ j. j.slot.kind == "news") jobs)

-- The tables that are pruned; of a news item only its time is kept.
pub record Tables : Type 0 where
  pub bars : List (Recorded Series)
  pub chain : List (Recorded Text)
  pub news : List ℕ

pub record Removed : Type 0 where
  pub bars : ℕ
  pub chain : ℕ
  pub news : ℕ

unfoldable pub prune : ℕ → List Job → Tables → Removed × Tables
prune now jobs t =
    let (n, bars) = delete_old now (longest (bars_promises jobs) []) t.bars in
    let (m, chain) = delete_old now (longest (chain_promises jobs) []) t.chain in
    let before = cutoff now (news_days jobs) in
    (
      record { bars = n; chain = m; news = length (keep (λ ts. ltb ts before) t.news) },
      record { bars = bars; chain = chain; news = keep (λ ts. not (ltb ts before)) t.news },
    )
