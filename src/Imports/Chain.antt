-- ===== src/Imports/Chain.antt =====
-- `import_chain` of code/backend/btdata.py on the rows of a parsed file. Dates, the arithmetic of prices
-- and the failures of the database are parameters; the texts of a refusal and the progress are left out.
use grindstone.Prelude.{
  ℕ, suc, ◌+◌, ◌*◌, Bool, true, false, ◌&&◌, not, Option, none, some, List, [], ◌∷◌, keep, any,
  length, ltb, Eq, nat_eq, text_eq, ◌==◌, Text, codes, upper, is_less, if◌then◌else◌,
}
use grindstone.Imports.Contracts.{ContractKey, OptRow, replace_rows}

-- `chainimport.ChainRow`
pub record ChainRow (N : Type 0) : Type 0 where
  pub date : Text
  pub symbol : Text
  pub expiration : Text
  pub strike : N
  pub right : Text
  pub bid : Option N
  pub ask : Option N
  pub last : Option N
  pub mark : Option N
  pub volume : Option N
  pub open_interest : Option N
  pub iv : Option N
  pub delta : Option N

-- A date of Python: year, month, day and `weekday()`.
pub record Date : Type 0 where
  pub year : ℕ
  pub month : ℕ
  pub day : ℕ
  pub weekday : ℕ

-- `date.fromisoformat`; and of floats: zero, `x > 0`, `x <= y`, `0.5 * (x + y)`, and
-- `int(round(x * 1000))`, which raises for a NaN and for an infinity.
pub record ImportPython (N K : Type 0) : Type 0 where
  pub date_of : Text → Option Date
  pub zero : N
  pub is_positive : N → Bool
  pub is_at_most : N → N → Bool
  pub middle : N → N → N
  pub thousandths : N → Option K

pub record SourceRow : Type 0 where
  pub src : Text
  pub first_at : Text
  pub last_at : Text

-- The id of a source is its place in `sources`, of which nothing is deleted; SQLite counts from 1.
pub record ChainStore (N K : Type 0) : Type 0 where
  pub opt : List (OptRow N K)
  pub sources : List SourceRow

-- The dict that `import_chain` returns.
pub record ImportReport : Type 0 where
  pub days : ℕ
  pub contracts : ℕ
  pub source : Text
  pub first : Option Text
  pub last : Option Text

-- A report, an `ImportRefused`, or another exception.
pub data ImportAnswer : Type 0 where
  imported : ImportReport → ImportAnswer
  wrong_symbol closed_day raised : ImportAnswer

abbrev pub ymd : Date → ℕ
ymd t = t.year * 10000 + t.month * 100 + t.day

-- `INSERT INTO sources ... ON CONFLICT(src) DO UPDATE`
abbrev pub touch_source : Text → Text → List SourceRow → List SourceRow
touch_source src stamp [] = record { src = src; first_at = stamp; last_at = stamp } ∷ []
touch_source src stamp (s ∷ ss) =
    if s.src == src then record s { last_at = stamp } ∷ ss else s ∷ touch_source src stamp ss

abbrev pub source_id : Text → List SourceRow → ℕ
source_id src [] = 0
source_id src (s ∷ ss) = if s.src == src then 0 else suc (source_id src ss)

abbrev pub insert_day : Text → List Text → List Text
insert_day day [] = day ∷ []
insert_day day (t ∷ ts) =
    if day == t then t ∷ ts else if is_less day t then day ∷ t ∷ ts else t ∷ insert_day day ts

abbrev pub last_of : List Text → Option Text
last_of [] = none
last_of (t ∷ []) = some t
last_of (t ∷ u ∷ ts) = last_of (u ∷ ts)

abbrev pub first_day : List Text → Option Text
first_day [] = none
first_day (t ∷ ts) = some t

abbrev pub report_of : ℕ → ℕ → Text → List Text → ImportReport
report_of days contracts source by_day = record {
  days = days;
  contracts = contracts;
  source = source;
  first = first_day by_day;
  last = last_of by_day;
}

module _ {N : Type 0} where
  -- `sorted(by_day)`
  abbrev pub days_in : List (ChainRow N) → List Text
  days_in [] = []
  days_in (r ∷ rs) = insert_day r.date (days_in rs)

  -- `by_day[day]`
  abbrev pub rows_of : Text → List (ChainRow N) → List (ChainRow N)
  rows_of day rows = keep (λ r. r.date == day) rows

module _ {N K : Type 0} where
  module _ (py : ImportPython N K) where
    abbrev pub or_zero : Option N → N
    or_zero none = py.zero
    or_zero (some x) = x

    abbrev pub last_traded : Option N → Option N
    last_traded none = none
    last_traded (some x) = if py.is_positive x then some x else none

    abbrev pub mark_price : Option N → ChainRow N → Option N
    mark_price (some m) r = some m
    mark_price none r =
        if py.is_positive (or_zero r.bid) && py.is_at_most (or_zero r.bid) (or_zero r.ask)
        then some (py.middle (or_zero r.bid) (or_zero r.ask))
        else last_traded r.last

    abbrev pub key_from : Option Date → Option Date → Text → Option K → Option (ContractKey K)
    key_from (some d) (some x) right (some k) =
        some
          (record { d = ymd d; exp = ymd x; cp = if right == codes "C" then 0 else 1; strike = k })
    key_from _ _ right _ = none

    -- The key of a row; `none` where a date or the strike raises.
    abbrev pub key_of : ChainRow N → Option (ContractKey K)
    key_of r =
        key_from (py.date_of r.date) (py.date_of r.expiration) r.right (py.thousandths r.strike)

    abbrev pub quoted : ℕ → ChainRow N → ContractKey K → OptRow N K
    quoted sid r k = record {
      key = k;
      bid = r.bid;
      ask = r.ask;
      mark = mark_price r.mark r;
      vol = r.volume;
      oi = r.open_interest;
      delta = r.delta;
      iv = r.iv;
      src_id = sid;
    }

    abbrev pub and_row :
        ℕ
        → ChainRow N
        → Option (ContractKey K)
        → Option (List (OptRow N K))
        → Option (List (OptRow N K))
    and_row sid r (some k) (some out) = some (quoted sid r k ∷ out)
    and_row sid r _ _ = none

    -- `out`, unless a row raises.
    abbrev pub out_of : ℕ → List (ChainRow N) → Option (List (OptRow N K))
    out_of sid [] = some []
    out_of sid (r ∷ rs) = and_row sid r (key_of r) (out_of sid rs)

    abbrev pub weekday_answer : Option Date → Option ImportAnswer → Option ImportAnswer
    weekday_answer none rest = some raised
    weekday_answer (some t) rest = if ltb t.weekday 5 then rest else some closed_day

    -- The loop over the days that refuses a weekend; `none` if every day passes.
    abbrev pub check_days : List Text → Option ImportAnswer
    check_days [] = none
    check_days (day ∷ days) = weekday_answer (py.date_of day) (check_days days)

    module _ ⦃e : Eq K⦄ where
      -- The loop that writes, one transaction a day; `breaks` tells the days on which the database fails.
      unfoldable pub write_days :
          (Text → Bool)
          → ℕ
          → List Text
          → List (ChainRow N)
          → List (OptRow N K)
          → ℕ
          → ℕ
          → List (OptRow N K) × Option (ℕ × ℕ)
      write_days breaks sid [] rows opt days contracts = (opt, some (days, contracts))
      write_days breaks sid (day ∷ rest) rows opt days contracts =
          elim (out_of sid (rows_of day rows)) [
            | none ↦ (opt, none)
            | some out ↦ elim (breaks day) [
              | true ↦ (opt, none)
              | false ↦
                  write_days breaks sid rest rows (replace_rows out opt) (days + 1)
                    (contracts + length out)
            ]
          ]

      abbrev pub answer_of : Text → List Text → Option (ℕ × ℕ) → ImportAnswer
      answer_of source by_day none = raised
      answer_of source by_day (some (days, contracts)) =
          imported (report_of days contracts source by_day)

      abbrev pub write_checked :
          (Text → Bool)
          → Text
          → List (ChainRow N)
          → ChainStore N K
          → Option ImportAnswer
          → ChainStore N K × ImportAnswer
      write_checked breaks source rows s (some a) = (s, a)
      write_checked breaks source rows s none =
          let (opt, end) =
            write_days breaks (source_id source s.sources) (days_in rows) rows s.opt 0 0 in
          (record s { opt = opt }, answer_of source (days_in rows) end)

      -- The source is committed first, and stays whatever follows.
      unfoldable pub import_chain :
          (Text → Bool)
          → Text
          → List (ChainRow N)
          → Text
          → Text
          → ChainStore N K
          → ChainStore N K × ImportAnswer
      unfolding write_days
      import_chain breaks underlying rows source stamp s =
          let s' = record s { sources = touch_source source stamp s.sources } in
          if any (λ r. not (r.symbol == upper underlying)) rows
          then (s', wrong_symbol)
          else write_checked breaks source rows s' (check_days (days_in rows))
