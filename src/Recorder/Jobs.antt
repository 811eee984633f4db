-- ===== src/Recorder/Jobs.antt =====
-- The jobs, and `validate_job` of code/backend/recorder.py.
use grindstone.Prelude.{
  ℕ, String, ◌≡◌, ◌↔◌, Bool, true, false, ◌&&◌, ◌||◌, not, Option, none, some, List, [], ◌∷◌, arith,
  leb, ltb, contains, max, Eq, ◌==◌, nat_eq, string_eq, text_eq, text_beq_iff, eq_iff, Text,
  if◌then◌else◌,
}

-- `TIMEFRAMES`, the keys.
abbrev pub timeframes : List String
timeframes = "1Min" ∷ "5Min" ∷ "15Min" ∷ "1Hour" ∷ "1Day" ∷ []

-- `MIN_INTERVAL` and `FOREVER_DAYS`
abbrev pub min_interval : ℕ
min_interval = 60

abbrev pub forever_days : ℕ
forever_days = 36500

-- The errors of `validate_job`, without the symbol that some of the texts name.
pub data JobError : Type 0 where
  unknown_kind : String → JobError
  symbol_required needs_tasty no_futures_bars : JobError
  no_index : String → JobError
  no_crypto bad_timeframe short_interval bad_retention : JobError

abbrev pub is_bars_or_chain : String → Bool
is_bars_or_chain kind = kind == "bars" || kind == "chain"

abbrev pub is_class : Option String → String → Bool
is_class none name = false
is_class (some c) name = c == name

-- `none` is a valid job. An interval or a retention below 0 is refused like 0.
unfoldable pub validate_job :
    String → Text → String → ℕ → ℕ → Option String → Bool → Option JobError
validate_job kind symbol timeframe interval retention asset_class has_tasty =
    if not (is_bars_or_chain kind || kind == "news")
    then some (unknown_kind kind)
    else if is_bars_or_chain kind && symbol == []
    then some symbol_required
    else if is_class asset_class "future" && (kind == "chain" && not has_tasty)
    then some needs_tasty
    else if is_class asset_class "future" && kind == "bars"
    then some no_futures_bars
    else if is_class asset_class "index" && is_bars_or_chain kind
    then some (no_index kind)
    else if is_class asset_class "crypto" && is_bars_or_chain kind
    then some no_crypto
    else if kind == "bars" && not (contains timeframes timeframe)
    then some bad_timeframe
    else if ltb interval min_interval
    then some short_interval
    else if not (leb 1 retention && leb retention forever_days)
    then some bad_retention
    else none

-- The columns that say what a job records, and for whom.
pub record Slot : Type 0 where
  pub user_id : ℕ
  pub kind : String
  pub symbol : Text
  pub timeframe : String

unfoldable pub slot_beq : Slot → Slot → Bool
slot_beq a b =
    a.user_id == b.user_id
    && (a.kind == b.kind && (a.symbol == b.symbol && a.timeframe == b.timeframe))

pub slot_beq_iff : (a b : Slot) → (slot_beq a b ≡ true) ↔ (a ≡ b)
unfolding slot_beq
slot_beq_iff a b =
    ground
      (arith, eq_iff a.kind b.kind, text_beq_iff a.symbol b.symbol, eq_iff a.timeframe b.timeframe)

instance abbrev pub slot_eq : Eq Slot
slot_eq = record { same_iff = slot_beq_iff; same = slot_beq }

-- A row of `record_jobs`. `last_run_at` is `none` for a text that is no time.
pub record Job : Type 0 where
  pub id : ℕ
  pub slot : Slot
  pub interval_seconds : ℕ
  pub retention_days : ℕ
  pub enabled : Bool
  pub last_run_at : Option ℕ
  pub last_status : String
  pub last_rows : ℕ

-- `UPDATE record_jobs SET ... WHERE id=?`
unfoldable pub update_job : ℕ → (Job → Job) → List Job → List Job
update_job id change [] = []
update_job id change (j ∷ jobs) = (if j.id == id then change j else j) ∷ update_job id change jobs

-- The id that a row is given: one more than the largest.
abbrev pub last_id : List Job → ℕ
last_id [] = 0
last_id (j ∷ jobs) = max j.id (last_id jobs)
