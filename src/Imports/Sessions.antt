-- ===== src/Imports/Sessions.antt =====
-- Which contracts an import leaves in the store of the backtests (code/backend/btdata.py).
use grindstone.Prelude.{
  ◌≡◌, refl, sym, ap, ◌∙◌, Bool, true, false, ◌&&◌, ◌||◌, not, Option, none, some, List, [], ◌∷◌,
  any, contains, ltb, arith, Eq, nat_eq, text_eq, ◌==◌, Text, upper, Bool-cases, inl, inr,
}
use grindstone.Imports.{
  ContractKey, has_contract, ChainRow, Date, ImportPython, ChainStore, ImportAnswer, closed_day,
  touch_source, source_id, days_in, weekday_answer, check_days, write_checked, import_chain,
}
use grindstone.Imports.Written.{on_days, is_contract, write_days-safe}

abbrev pub is_weekday : Option Date → Bool
is_weekday none = false
is_weekday (some t) = ltb t.weekday 5

module _ {N K : Type 0} (py : ImportPython N K) where
  abbrev pub is_session : Text → ChainRow N → Bool
  is_session underlying r = r.symbol == upper underlying && is_weekday (py.date_of r.date)

  weekday_answer-passes :
      (o : Option Date) (rest : Option ImportAnswer)
      → weekday_answer py o rest ≡ none
      → (is_weekday o ≡ true) × (rest ≡ none)
  weekday_answer-passes none rest h = cc
  weekday_answer-passes (some t) rest h = elim (Bool-cases (ltb t.weekday 5)) [
    | inl clear ↦ (clear, rw clear at h)
    | inr closed ↦ absurd (no_answer (rw closed at h))
  ]
    where
      no_answer : some closed_day ≡ none → ⊥
      no_answer q = cc

  checked_days :
      (days : List Text) (x : Text)
      → check_days py days ≡ none
      → contains days x ≡ true
      → is_weekday (py.date_of x) ≡ true
  checked_days [] x h q = cc
  checked_days (day ∷ days) x h q =
      let passes = weekday_answer-passes (py.date_of day) (check_days py days) h in
      elim (Bool-cases (day == x)) [
        | inl is ↦
            ap (λ t. is_weekday (py.date_of t)) (sym ((text_eq.same_iff day x).0 is)) ∙ passes.0
        | inr apart ↦ checked_days days x passes.1 (ground (arith, q, apart))
      ]

  -- A row of a file of one symbol whose days were all checked.
  any-sessions :
      (underlying : Text) (days : List Text) (p : ChainRow N → Bool) (rows : List (ChainRow N))
      → any (λ r. not (r.symbol == upper underlying)) rows ≡ false
      → check_days py days ≡ none
      → on_days p days rows ≡ true
      → any (λ r. p r && is_session underlying r) rows ≡ true
  any-sessions underlying days p [] one clear h = h
  any-sessions underlying days p (r ∷ rs) one clear h =
      ground (arith, one, h, any-sessions underlying days p rs, checked_days days r.date clear)

  module _ ⦃e : Eq K⦄ (k : ContractKey K) (breaks : Text → Bool) (source : Text)
      (rows : List (ChainRow N)) where
    abbrev IsSafe : Text → ChainStore N K → ChainStore N K → Type 0
    IsSafe underlying s s' =
        has_contract k s'.opt ≡ true
        → (has_contract k s.opt || any (λ r. is_contract py k r && is_session underlying r) rows)
          ≡ true

    checked-IsSafe :
        (underlying : Text) (s : ChainStore N K) (a : Option ImportAnswer)
        → any (λ r. not (r.symbol == upper underlying)) rows ≡ false
        → check_days py (days_in rows) ≡ a
        → IsSafe underlying s (write_checked py breaks source rows s a).0
    checked-IsSafe underlying s (some a) one clear h = rw h refl
    checked-IsSafe underlying s none one clear h =
        let safe =
          write_days-safe py k breaks (source_id source s.sources) rows (days_in rows) s.opt 0 0
            h in
        ground
          (arith, safe, any-sessions underlying (days_in rows) (is_contract py k) rows one clear)

    -- However an import ends, a contract in the store afterwards was there before, or a row of the file
    -- gives it that is of the symbol imported and of a weekday.
    pub import_safe :
        (underlying stamp : Text) (s : ChainStore N K)
        → has_contract k (import_chain py breaks underlying rows source stamp s).0.opt ≡ true
        → (has_contract k s.opt || any (λ r. is_contract py k r && is_session underlying r) rows)
          ≡ true
    unfolding import_chain
    import_safe underlying stamp s h =
        elim (Bool-cases (any (λ r. not (r.symbol == upper underlying)) rows)) [
          | inl mixed ↦
              let before : has_contract k s.opt ≡ true = rw (import_chain, mixed) at h in
              rw before refl
          | inr one ↦
              checked-IsSafe underlying (record s { sources = touch_source source stamp s.sources })
                (check_days py (days_in rows)) one refl (rw (import_chain, one) at h)
        ]
