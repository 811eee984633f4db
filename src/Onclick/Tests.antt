-- ===== src/Onclick/Tests.antt =====
-- Runs of code/backend/onclick.py at concrete inputs, and the theorems applied there.
use grindstone.Prelude.{ℕ, zero, suc, strip, text_beq, ◌≡◌, refl, List, [], ◌∷◌, nat_eq, codes}
use grindstone.Onclick.Window.{clamp, starts_at, ends_at}
use grindstone.Onclick.Fetch.{
  Response, http_error, network_fault, checked, gave_up, no_day, mismatch, check_body, final_answer,
  fetch_day,
}

-- Two faults, and then a 404.
abbrev answers : ℕ → Response
answers zero = http_error 500
answers (suc zero) = network_fault
answers (suc (suc n)) = http_error 404

cuts_both : clamp 100 1000 1000 ≡ (820, 999, starts_at 820 ∷ ends_at 999 ∷ [])
unfolding clamp
cuts_both = refl

short_header : check_body (codes "date,symbol\n2026-08-06,SPY\n") ≡ mismatch
unfolding check_body strip text_beq
short_header = refl

blank_body : check_body (codes " \n") ≡ no_day
unfolding check_body strip
blank_body = refl

third_answer : fetch_day answers 2 ≡ (checked no_day, 15 ∷ 30 ∷ [])
unfolding fetch_day final_answer
third_answer = refl

gives_up : fetch_day answers 1 ≡ (gave_up network_fault, 15 ∷ [])
unfolding fetch_day final_answer
gives_up = refl

abbrev two_sleeps : List ℕ
two_sleeps = 15 ∷ 30 ∷ []
