-- ===== src/Coverage/Mark.antt =====
-- `mark`, `may_claim_absent`, `has_older`, `state_of`, `record_bar_days` and the reconcilers of
-- code/backend/coverage.py. A failure of the database itself is not modelled.
use Prim.Native.String.{◌++◌}
use grindstone.Prelude.{
  ℕ, ◌+◌, String, Bool, true, false, ◌&&◌, Option, none, some, List, [], ◌∷◌, ltb, any, not,
  contains, ◌==◌, nat_eq, string_eq, upper, if◌then◌else◌,
}
use grindstone.Coverage.Types.{
  State, have, absent, unknown, states, state_eq, authoritative, earns_authority, Feed, feed_eq,
  Row, Table,
}

-- The feed as the queries name it: `symbol.upper()`.
abbrev pub stored : Feed → Feed
stored f = record f { symbol = upper f.symbol }

abbrev pub is_state : State → Row → Bool
is_state s r = r.state == s

abbrev pub in_slot : Feed → ℕ → Row → Bool
in_slot f period r = r.feed == f && r.period == period

unfoldable pub may_claim_absent : Table → Feed → Bool
may_claim_absent t f =
    if contains (authoritative f.kind) f.provider
    then true
    else if not (contains (earns_authority f.kind) f.provider)
    then false
    else any (λ r. r.feed == stored f && is_state have r) t

unfoldable pub has_older : Table → Feed → ℕ → Bool
has_older t f before = any (λ r. r.feed == stored f && (is_state have r && ltb r.period before)) t

abbrev pub find_state : Feed → ℕ → Table → State
find_state f period [] = unknown
find_state f period (r ∷ t) = if in_slot f period r then r.state else find_state f period t

unfoldable pub state_of : Table → Feed → ℕ → State
state_of t f period = find_state (stored f) period t

-- `CASE WHEN state IN ('have','absent') THEN 0 ELSE ... END`
abbrev pub count_attempt : State → ℕ → ℕ
count_attempt have n = 0
count_attempt absent n = 0
count_attempt _ n = n

-- The `INSERT ... ON CONFLICT DO UPDATE` of `mark`.
unfoldable pub upsert : Row → Table → Table
upsert r [] = record r { attempts = count_attempt r.state 1 } ∷ []
upsert r (x ∷ t) =
    if in_slot r.feed r.period x
    then record r { attempts = count_attempt r.state (x.attempts + 1) } ∷ t
    else x ∷ upsert r t

abbrev downgraded_detail : Feed → String → String
downgraded_detail f detail =
    (if detail == "" then "" else detail ++ " | ")
    ++ (f.provider ++ (" is not authoritative for " ++ (f.kind ++ "; empty != absent")))

-- What is stored of a claim: an `absent` that the provider may not claim becomes `unknown`.
unfoldable pub claim : Table → Feed → State → String → State × String
unfolding may_claim_absent
claim t f state detail =
    if state == absent && not (may_claim_absent t f)
    then (unknown, downgraded_detail f detail)
    else (state, detail)

-- The row that `mark` hands to the database; `attempts` is decided there.
abbrev pub marked_row : Feed → ℕ → State → ℕ → String → ℕ → Table → Row
marked_row f period state rows detail now t =
    let (s, d) = claim t f state detail in
    record {
      feed = stored f;
      period = period;
      state = s;
      rows = rows;
      checked_at = now;
      detail = d;
      attempts = 0;
    }

-- `none` is the `ValueError` for a state that is not in `STATES`.
unfoldable pub mark : Feed → ℕ → State → ℕ → String → ℕ → Table → Option Table
unfolding claim upsert
mark f period state rows detail now t =
    if not (contains states state)
    then none
    else some (upsert (marked_row f period state rows detail now t) t)

abbrev pub Counts : Type 0
Counts = record { have : ℕ; absent : ℕ; unknown : ℕ }

abbrev pub no_counts : Counts
no_counts = record { have = 0; absent = 0; unknown = 0 }

-- The claim of `record_bar_days` and of `backfill.run_one` for a day that did not come back.
abbrev pub missing_claim : List String → String → State
missing_claim entitled provider = if contains entitled provider then absent else unknown

-- `counts[claim] += 1`
abbrev pub count_claim : State → Counts → Counts
count_claim have c = record { have = c.have + 1; absent = c.absent; unknown = c.unknown }
count_claim absent c = record { have = c.have; absent = c.absent + 1; unknown = c.unknown }
count_claim _ c = record { have = c.have; absent = c.absent; unknown = c.unknown + 1 }

-- The loop over the days of one fetch: a day that came back is `have`, any other is `missing`.
unfoldable pub mark_days :
    Feed → List ℕ → State → ℕ → List ℕ → Counts → Table → Option (Counts × Table)
mark_days f got missing now [] c t = some (c, t)
mark_days f got missing now (d ∷ ds) c t =
    let came = contains got d in
    let s : State = if came then have else missing in
    elim (mark f d s (if came then 1 else 0) "" now t) [
      | none ↦ none
      | some t' ↦ mark_days f got missing now ds (count_claim s c) t'
    ]

-- `record_bar_days`: its feed has the kind "bars".
unfoldable pub record_bar_days : Feed → List ℕ → List ℕ → ℕ → Table → Option (Counts × Table)
record_bar_days f asked got now t =
    let bars = record f { kind = "bars" } in
    mark_days bars got (missing_claim (authoritative "bars") f.provider) now asked no_counts t

-- The loop of `reconcile_bars` and `reconcile_chain` over the days already on disk; `none` in the
-- list is an empty text, which is passed over.
unfoldable pub reconcile : Feed → String → ℕ → List (Option ℕ) → ℕ → Table → Option (ℕ × Table)
reconcile f detail now [] n t = some (n, t)
reconcile f detail now (none ∷ ds) n t = reconcile f detail now ds n t
reconcile f detail now (some d ∷ ds) n t = elim (mark f d have 1 detail now t) [
  | none ↦ none
  | some t' ↦ reconcile f detail now ds (n + 1) t'
]

-- `on_disk` is what the query on `rec_bars` finds.
unfoldable pub reconcile_bars : Feed → List (Option ℕ) → ℕ → Table → Option (ℕ × Table)
reconcile_bars f on_disk now =
    reconcile (record f { kind = "bars" }) "reconciled from rows already recorded" now on_disk 0

unfoldable pub reconcile_chain : Feed → List (Option ℕ) → ℕ → Table → Option (ℕ × Table)
reconcile_chain f dates now =
    reconcile (record f { kind = "chain"; timeframe = "" })
      "reconciled from the archive already on disk" now dates 0
