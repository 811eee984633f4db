-- ===== src/Coverage/Types.antt =====
-- The states, the policy constants and the rows of `data_cover` (code/backend/coverage.py).
use mathlib.Core.Logic.{◌↔◌}
use grindstone.Prelude.{
  ℕ, String, ◌≡◌, Bool, true, false, ◌&&◌, List, [], ◌∷◌, arith, eq_iff, keep, not, contains, Eq,
  ◌==◌, string_eq, text_eq, text_beq_iff, Text, if◌then◌else◌,
}

-- The values of `state`; `other` is any text that is not in `STATES`.
pub data State : Type 0 where
  have absent failed unknown : State
  other : String → State

abbrev pub state_beq : State → State → Bool
state_beq have have = true
state_beq absent absent = true
state_beq failed failed = true
state_beq unknown unknown = true
state_beq (other a) (other b) = a == b
state_beq _ _ = false

pub state_beq_iff : (a b : State) → (state_beq a b ≡ true) ↔ (a ≡ b)
state_beq_iff have b = ground arith
state_beq_iff absent b = ground arith
state_beq_iff failed b = ground arith
state_beq_iff unknown b = ground arith
state_beq_iff (other x) (other y) = ground (arith, eq_iff x y)
state_beq_iff (other x) _ = ground arith

instance abbrev pub state_eq : Eq State
state_eq = record { same_iff = state_beq_iff; same = state_beq }

-- `STATES`, `RETRYABLE` and `SETTLED`, the last derived from the other two.
abbrev pub states : List State
states = have ∷ absent ∷ failed ∷ unknown ∷ []

abbrev pub retryable : List State
retryable = failed ∷ unknown ∷ []

abbrev pub settled : List State
settled = keep (λ s. not (contains retryable s)) states

-- `AUTHORITATIVE.get(kind, frozenset())`
abbrev pub authoritative : String → List String
authoritative kind =
    if kind == "bars"
    then "alpaca-iex" ∷ "alpaca-sip" ∷ []
    else if kind == "chain"
    then "alpaca-iex" ∷ "alpaca-sip" ∷ []
    else []

-- `EARNS_AUTHORITY.get(kind, frozenset())`
abbrev pub earns_authority : String → List String
earns_authority kind = if kind == "chain" then "onclick" ∷ [] else []

-- `RETRY_COOLDOWN_HOURS`, in seconds.
abbrev pub retry_cooldown : ℕ
retry_cooldown = 72000

abbrev pub max_attempts_default : ℕ
max_attempts_default = 3

-- The columns that every query names together.
pub record Feed : Type 0 where
  pub provider : String
  pub kind : String
  pub symbol : Text
  pub timeframe : String

unfoldable pub feed_beq : Feed → Feed → Bool
feed_beq f g =
    f.provider == g.provider
    && (f.kind == g.kind && (f.symbol == g.symbol && f.timeframe == g.timeframe))

pub feed_beq_iff : (f g : Feed) → (feed_beq f g ≡ true) ↔ (f ≡ g)
unfolding feed_beq
feed_beq_iff f g = ground (
  arith,
  eq_iff f.provider g.provider,
  eq_iff f.kind g.kind,
  text_beq_iff f.symbol g.symbol,
  eq_iff f.timeframe g.timeframe,
)

instance abbrev pub feed_eq : Eq Feed
feed_eq = record { same_iff = feed_beq_iff; same = feed_beq }

pub record Row : Type 0 where
  pub feed : Feed
  pub period : ℕ
  pub state : State
  pub rows : ℕ
  pub checked_at : ℕ
  pub detail : String
  pub attempts : ℕ

abbrev pub Table : Type 0
Table = List Row
