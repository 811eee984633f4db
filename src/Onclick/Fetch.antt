-- ===== src/Onclick/Fetch.antt =====
-- `check_body` and `fetch_day` of code/backend/onclick.py.
use grindstone.Prelude.{
  ℕ, zero, suc, ◌+◌, ◌*◌, Bool, ◌&&◌, ◌||◌, List, [], ◌∷◌, ltb, leb, ◌==◌, nat_eq, text_eq, Text,
  text_beq, codes, strip, if◌then◌else◌, Option, none, some,
}

-- `HEADER`
abbrev pub header : Text
header =
    codes
      "date,symbol,expiration,strike,type,last,mark,bid,bid_size,ask,ask_size,change,percent_change,volume,open_interest,implied_volatility,delta,gamma,theta,vega,rho"

-- The characters that end a line for `str.splitlines`.
abbrev is_line_break : ℕ → Bool
is_line_break c =
    (leb 10 c && leb c 13)
    || ((leb 28 c && leb c 30) || (c == 0x85 || (c == 0x2028 || c == 0x2029)))

-- `text.splitlines()[0]`
unfoldable pub first_line : Text → Text
first_line [] = []
first_line (c ∷ s) = if is_line_break c then [] else c ∷ first_line s

-- What `check_body` says of a body: there is no such day, the columns are not the archive's
-- (`MISMATCH`), or the body with its spaces stripped.
pub data Checked : Type 0 where
  no_day mismatch : Checked
  chain : Text → Checked

unfoldable pub check_stripped : Text → Checked
unfolding first_line
check_stripped [] = no_day
check_stripped (c ∷ s) =
    if text_beq (strip (first_line (c ∷ s))) header then chain (c ∷ s) else mismatch

unfoldable pub check_body : Text → Checked
unfolding check_stripped
check_body body = check_stripped (strip body)

-- What one request brings: a decoded body, an HTTP error, or a fault of the network.
pub data Response : Type 0 where
  body : Text → Response
  http_error : ℕ → Response
  network_fault : Response

-- How `fetch_day` ends: a checked body, `PermissionError`, or `RuntimeError` with the last fault.
pub data Fetched : Type 0 where
  checked : Checked → Fetched
  outside_plan : Fetched
  gave_up : Response → Fetched

-- The end that a response makes at once, if it does.
unfoldable pub final_answer : Response → Option Fetched
final_answer (body b) = some (checked (check_body b))
final_answer (http_error code) =
    if code == 400 || code == 404
    then some (checked no_day)
    else if code == 403
    then some outside_plan
    else none
final_answer network_fault = none

-- One round of the loop, beside what the later rounds would bring: an answer ends it; any other
-- response is slept on, but after the last attempt.
abbrev pub after_attempt : ℕ → ℕ → Option Fetched → Fetched × List ℕ → Fetched × List ℕ
after_attempt retries attempt (some result) later = (result, [])
after_attempt retries attempt none (result, sleeps) =
    (result, if ltb attempt retries then (15 * (attempt + 1)) ∷ sleeps else sleeps)

-- The loop over `range(retries + 1)`: the attempts left, the attempt, and the last fault. Beside the
-- result stand the sleeps, in tenths of a second.
unfoldable pub fetch_loop : (ℕ → Response) → ℕ → ℕ → ℕ → Response → Fetched × List ℕ
fetch_loop serve retries zero attempt last = (gave_up last, [])
fetch_loop serve retries (suc left) attempt last =
    after_attempt retries attempt (final_answer (serve attempt))
      (fetch_loop serve retries left (attempt + 1) (serve attempt))

-- `retries` is at least 0, so the loop runs, and its first `last` is never reported.
unfoldable pub fetch_day : (ℕ → Response) → ℕ → Fetched × List ℕ
unfolding fetch_loop
fetch_day serve retries = fetch_loop serve retries (retries + 1) 0 network_fault
