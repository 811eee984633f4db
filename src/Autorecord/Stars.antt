-- ===== src/Autorecord/Stars.antt =====
-- `recordability`, `on_favorite_added`, `on_favorite_removed` and `sync_all` of
-- code/backend/autorecord.py. The log lines are left out.
use grindstone.Prelude.{
  ℕ, ◌+◌, String, Bool, true, false, ◌&&◌, not, Option, none, some, List, [], ◌∷◌, ◌++◌, max, any,
  ◌==◌, nat_eq, string_eq, Text, codes, upper, strip, starts_with, if◌then◌else◌,
}
use grindstone.Recorder.{
  JobError, unknown_kind, symbol_required, needs_tasty, no_futures_bars, no_index, no_crypto,
  bad_timeframe, short_interval, bad_retention, validate_job, forever_days, Slot, slot_eq, Job,
  update_job, last_id,
}

pub record Spec : Type 0 where
  pub kind : String
  pub timeframe : String
  pub interval_seconds : ℕ
  pub retention_days : ℕ

-- `PLAN`
abbrev pub bars_spec : Spec
bars_spec = record {
  kind = "bars";
  timeframe = "1Day";
  interval_seconds = 3600;
  retention_days = forever_days;
}

abbrev pub chain_spec : Spec
chain_spec = record {
  kind = "chain";
  timeframe = "";
  interval_seconds = 900;
  retention_days = forever_days;
}

abbrev pub specs : List Spec
specs = bars_spec ∷ chain_spec ∷ []

abbrev pub slot_of : ℕ → Text → Spec → Slot
slot_of user symbol spec = record {
  user_id = user;
  kind = spec.kind;
  symbol = symbol;
  timeframe = spec.timeframe;
}

-- `_existing`: the first job of the slot.
unfoldable pub existing : Slot → List Job → Option Job
existing k [] = none
existing k (j ∷ jobs) = if j.slot == k then some j else existing k jobs

-- Whether two texts of errors about one symbol are the same.
abbrev pub error_beq : JobError → JobError → Bool
error_beq (unknown_kind a) (unknown_kind b) = a == b
error_beq symbol_required symbol_required = true
error_beq needs_tasty needs_tasty = true
error_beq no_futures_bars no_futures_bars = true
error_beq (no_index a) (no_index b) = a == b
error_beq no_crypto no_crypto = true
error_beq bad_timeframe bad_timeframe = true
error_beq short_interval short_interval = true
error_beq bad_retention bad_retention = true
error_beq _ _ = false

-- Why a symbol cannot be recorded.
pub data Reason : Type 0 where
  not_built_in not_synced : Reason
  refused : List JobError → Reason

abbrev pub spec_error : Text → Option String → Bool → Spec → Option JobError
spec_error symbol asset_class has_tasty spec =
    validate_job spec.kind symbol spec.timeframe spec.interval_seconds spec.retention_days
      asset_class has_tasty

-- The loop over `PLAN`; `none` is "it can be recorded".
unfoldable pub check_specs : Text → Option String → Bool → List Spec → List JobError → Option Reason
check_specs symbol asset_class has_tasty [] errors = some (refused errors)
check_specs symbol asset_class has_tasty (spec ∷ rest) errors =
    elim (spec_error symbol asset_class has_tasty spec) [
      | none ↦ none
      | some err ↦
          check_specs symbol asset_class has_tasty rest
            (if any (error_beq err) errors then errors else errors ++ (err ∷ []))
    ]

unfoldable pub recordability : Text → Option String → Bool → Bool → Option Reason
recordability symbol asset_class known has_tasty =
    if not known
    then some (if starts_with symbol (codes "/") then not_built_in else not_synced)
    else check_specs symbol asset_class has_tasty specs []

pub data Action : Type 0 where
  resumed started : Action

pub record Started : Type 0 where
  pub id : ℕ
  pub kind : String
  pub action : Action

abbrev pub enable : Job → Job
enable j = record j { enabled = true }

-- A job as the database makes it, with the defaults of the columns.
abbrev pub new_job : ℕ → Slot → ℕ → ℕ → Job
new_job id k interval retention = record {
  id = id;
  slot = k;
  interval_seconds = interval;
  retention_days = retention;
  enabled = true;
  last_run_at = none;
  last_status = "never ran";
  last_rows = 0;
}

-- A futures chain is recorded once an hour at most.
abbrev pub interval_for : Text → Spec → ℕ
interval_for symbol spec =
    if spec.kind == "chain" && starts_with symbol (codes "/")
    then max spec.interval_seconds 3600
    else spec.interval_seconds

abbrev pub added_job : Text → Spec → Slot → List Job → Job
added_job symbol spec k jobs =
    new_job (last_id jobs + 1) k (interval_for symbol spec) spec.retention_days

abbrev pub ensure_found : Text → Spec → Slot → Option Job → List Job → List Started × List Job
ensure_found symbol spec k (some j) jobs = if j.enabled then ([], jobs) else (
  record { id = j.id; kind = spec.kind; action = resumed } ∷ [],
  update_job j.id enable jobs,
)
ensure_found symbol spec k none jobs = (
  record { id = last_id jobs + 1; kind = spec.kind; action = started } ∷ [],
  jobs ++ (added_job symbol spec k jobs ∷ []),
)

abbrev pub ensure_checked : ℕ → Text → Spec → Option JobError → List Job → List Started × List Job
ensure_checked user symbol spec (some err) jobs = ([], jobs)
ensure_checked user symbol spec none jobs =
    let k = slot_of user symbol spec in ensure_found symbol spec k (existing k jobs) jobs

-- One round of the loop of `on_favorite_added`.
unfoldable pub ensure_spec :
    ℕ → Text → Option String → Bool → Spec → List Job → List Started × List Job
ensure_spec user symbol asset_class has_tasty spec jobs =
    ensure_checked user symbol spec (spec_error symbol asset_class has_tasty spec) jobs

unfoldable pub ensure_specs :
    ℕ → Text → Option String → Bool → List Spec → List Job → List Started × List Job
ensure_specs user symbol asset_class has_tasty [] jobs = ([], jobs)
ensure_specs user symbol asset_class has_tasty (spec ∷ rest) jobs =
    let (a, jobs') = ensure_spec user symbol asset_class has_tasty spec jobs in
    let (b, jobs'') = ensure_specs user symbol asset_class has_tasty rest jobs' in (a ++ b, jobs'')

pub record Added : Type 0 where
  pub recording : Bool
  pub reason : Option Reason
  pub jobs : List Started

-- `symbol.upper().strip()`
abbrev pub clean : Text → Text
clean symbol = strip (upper symbol)

abbrev pub add_checked :
    ℕ → Text → Option String → Bool → Option Reason → List Job → Added × List Job
add_checked user symbol asset_class has_tasty (some why) jobs =
    (record { recording = false; reason = some why; jobs = [] }, jobs)
add_checked user symbol asset_class has_tasty none jobs =
    let (made, jobs') = ensure_specs user symbol asset_class has_tasty specs jobs in
    (record { recording = true; reason = none; jobs = made }, jobs')

unfoldable pub on_favorite_added :
    ℕ → Text → Option String → Bool → Bool → Bool → List Job → Added × List Job
on_favorite_added user symbol asset_class known enabled has_tasty jobs =
    if not enabled
    then (record { recording = false; reason = none; jobs = [] }, jobs)
    else let s = clean symbol in
      add_checked user s asset_class has_tasty (recordability s asset_class known has_tasty) jobs

abbrev pub disable : Job → Job
disable j = record j { enabled = false; last_status = "stopped: no longer a favourite" }

abbrev pub stop_found : Option Job → List Job → List Job
stop_found none jobs = jobs
stop_found (some j) jobs = if j.enabled then update_job j.id disable jobs else jobs

-- The ids of "stopped".
abbrev pub stopped_id : Option Job → List ℕ
stopped_id none = []
stopped_id (some j) = if j.enabled then j.id ∷ [] else []

unfoldable pub stop_specs : ℕ → Text → List Spec → List Job → List ℕ × List Job
stop_specs user symbol [] jobs = ([], jobs)
stop_specs user symbol (spec ∷ rest) jobs =
    let found = existing (slot_of user symbol spec) jobs in
    let (ids, jobs') = stop_specs user symbol rest (stop_found found jobs) in
    (stopped_id found ++ ids, jobs')

unfoldable pub on_favorite_removed : ℕ → Text → Bool → List Job → List ℕ × List Job
on_favorite_removed user symbol enabled jobs =
    if not enabled then ([], jobs) else stop_specs user (clean symbol) specs jobs

-- `sync_all`: the symbols that were started, and those that were skipped with the reason.
unfoldable pub sync_all :
    ℕ
    → List Text
    → (Text → Option String × Bool)
    → Bool
    → Bool
    → List Job
    → (List Text × List (Text × Option Reason)) × List Job
sync_all user [] classify enabled has_tasty jobs = (([], []), jobs)
sync_all user (sym ∷ syms) classify enabled has_tasty jobs =
    if not enabled
    then (([], []), jobs)
    else let (asset_class, known) = classify sym in
      let (r, jobs') = on_favorite_added user sym asset_class known true has_tasty jobs in
      let ((began, skipped), jobs'') = sync_all user syms classify enabled has_tasty jobs' in
      if r.recording
      then ((upper sym ∷ began, skipped), jobs'')
      else ((began, (upper sym, r.reason) ∷ skipped), jobs'')
