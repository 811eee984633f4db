-- ===== src/Depth/Plan.antt =====
-- `providers_for` and `plan` of code/backend/depth.py. A date is an ordinal.
use grindstone.Prelude.{
  ℕ, ◌+◌, String, Bool, true, false, ◌||◌, not, Option, none, some, List, [], ◌∷◌, leb, ◌==◌,
  nat_eq, string_eq, if◌then◌else◌,
}

-- `PROVIDER_ORDER.get(asset_class or "us_equity", ("alpaca", "yahoo"))`
abbrev pub named_providers : String → List String
named_providers c =
    if c == "index" || c == "future"
    then "yahoo" ∷ []
    else if c == "crypto"
    then []
    else "alpaca" ∷ "yahoo" ∷ []

abbrev pub providers_for : Option String → List String
providers_for none = named_providers "us_equity"
providers_for (some c) = if c == "" then named_providers "us_equity" else named_providers c

-- What is stored of a symbol: the number of bars, the day of the newest one (`none` for a text that
-- is no date), and whether the head was walked to its horizon.
pub record Span : Type 0 where
  pub n : ℕ
  pub hi : Option ℕ
  pub is_deep : Bool

-- The key "reason".
pub data Reason : Type 0 where
  no_source nothing_stored : Reason
  because : Bool → Option ℕ → Reason

pub record Todo : Type 0 where
  pub head : Bool
  pub tail_from : Option ℕ
  pub reason : Reason

-- The day after the newest bar, if a day has passed since.
abbrev pub tail_after : Option ℕ → ℕ → Option ℕ
tail_after none now = none
tail_after (some last) now = if leb (last + 1) now then some (last + 1) else none

abbrev pub plan_stored : Span → ℕ → Todo
plan_stored span now = record {
  head = not span.is_deep;
  tail_from = tail_after span.hi now;
  reason = because (not span.is_deep) (tail_after span.hi now);
}

abbrev pub plan_from : List String → Span → ℕ → Todo
plan_from [] span now = record { head = false; tail_from = none; reason = no_source }
plan_from (p ∷ ps) span now =
    if span.n == 0
    then record { head = true; tail_from = none; reason = nothing_stored }
    else plan_stored span now

unfoldable pub plan : Span → Option String → ℕ → Todo
plan span asset_class now = plan_from (providers_for asset_class) span now
