-- ===== src/Imports/Tests.antt =====
-- Runs of code/backend/btdata.py at concrete inputs, and the theorems applied there.
use grindstone.Prelude.{
  ℕ, ◌≡◌, refl, ◌&&◌, true, false, none, some, List, [], ◌∷◌, ◌⊎◌, any, leb, ltb, nat_eq, text_eq,
  text_beq, ◌==◌, Text, codes, upper, is_less, if◌then◌else◌,
}
use grindstone.Imports.{
  ContractKey, has_contract, ChainRow, Date, ImportPython, ChainStore, ImportAnswer, raised,
  wrong_symbol, closed_day, import_chain, write_days,
}
use grindstone.Imports.Written.{is_contract}
use grindstone.Imports.Sessions.{is_session, import_safe}
use grindstone.Imports.Whole.{is_report, import_exact, all_or_nothing}

abbrev july : ℕ → ℕ → Date
july day weekday = record { year = 2026; month = 7; day = day; weekday = weekday }

-- A price is a number of thousandths, and 999 stands for a NaN.
abbrev python : ImportPython ℕ ℕ
python = record {
  date_of = λ t.
      if t == codes "2026-07-16"
      then some (july 16 3)
      else if t == codes "2026-07-17"
      then some (july 17 4)
      else if t == codes "2026-07-18"
      then some (july 18 5)
      else none;
  zero = 0;
  is_positive = λ x. ltb 0 x;
  is_at_most = leb;
  middle = λ x y. x;
  thousandths = λ x. if x == 999 then none else some x;
}

abbrev row : Text → Text → ℕ → ChainRow ℕ
row symbol date strike = record {
  date = date;
  symbol = symbol;
  expiration = codes "2026-07-17";
  strike = strike;
  right = codes "C";
  bid = some 1;
  ask = some 2;
  last = none;
  mark = none;
  volume = none;
  open_interest = none;
  iv = none;
  delta = none;
}

abbrev thursday : ChainRow ℕ
thursday = row (codes "SPY") (codes "2026-07-16") 500000

abbrev friday : ℕ → ChainRow ℕ
friday strike = row (codes "SPY") (codes "2026-07-17") strike

abbrev saturday : ChainRow ℕ
saturday = row (codes "SPY") (codes "2026-07-18") 500000

abbrev empty_store : ChainStore ℕ ℕ
empty_store = record { opt = []; sources = [] }

abbrev on_thursday : ContractKey ℕ
on_thursday = record { d = 20260716; exp = 20260717; cp = 0; strike = 500000 }

abbrev run_import : List (ChainRow ℕ) → ChainStore ℕ ℕ × ImportAnswer
run_import rows =
    import_chain python (λ day. false) (codes "spy") rows (codes "csv") (codes "now") empty_store

saturday_is_refused : (run_import (thursday ∷ saturday ∷ [])).1 ≡ closed_day
unfolding import_chain write_days text_beq upper is_less
saturday_is_refused = refl

another_symbol_is_refused :
    (run_import (thursday ∷ row (codes "QQQ") (codes "2026-07-16") 500000 ∷ [])).1 ≡ wrong_symbol
unfolding import_chain write_days text_beq upper is_less
another_symbol_is_refused = refl

-- A strike that is not a number on the second day raises after the first day was committed.
half_imported :
    ((run_import (friday 999 ∷ thursday ∷ [])).1 ≡ raised)
    × (has_contract on_thursday (run_import (friday 999 ∷ thursday ∷ [])).0.opt ≡ true)
unfolding import_chain write_days text_beq upper is_less
half_imported = (refl, refl)

abbrev two_days : List (ChainRow ℕ)
two_days = friday 500000 ∷ thursday ∷ []

import_safe_example :
    any (λ r. is_contract python on_thursday r && is_session python (codes "spy") r) two_days ≡ true
unfolding import_chain write_days text_beq upper is_less
import_safe_example =
    import_safe python on_thursday (λ day. false) (codes "csv") two_days (codes "spy") (codes "now")
      empty_store refl

import_exact_example :
    has_contract on_thursday (run_import two_days).0.opt
    ≡ any (is_contract python on_thursday) two_days
unfolding import_chain write_days text_beq upper is_less
import_exact_example =
    import_exact python (λ day. false) two_days (codes "csv") (codes "spy") (codes "now")
      on_thursday empty_store refl

all_or_nothing_example :
    ((run_import two_days).0.opt ≡ []) ⊎ (is_report (run_import two_days).1 ≡ true)
unfolding import_chain write_days text_beq upper is_less
all_or_nothing_example =
    all_or_nothing python (λ day. false) two_days (codes "csv") (codes "spy") (codes "now")
      empty_store refl (λ day. refl)
