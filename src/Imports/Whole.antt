-- ===== src/Imports/Whole.antt =====
-- When an import is all or nothing (code/backend/btdata.py).
use grindstone.Prelude.{
  ℕ, ◌+◌, ◌≡◌, refl, sym, ap, ◌∙◌, Bool, true, false, ◌||◌, not, Option, none, some, List, [], ◌∷◌,
  ◌⊎◌, any, every, length, ltb, arith, Eq, nat_eq, text_eq, ◌==◌, Text, upper, Bool-cases,
  Option-cases, inl, inr,
}
use grindstone.Imports.{
  ContractKey, OptRow, has_contract, replace_rows, ChainRow, Date, ImportPython, ChainStore,
  ImportAnswer, imported, closed_day, raised, touch_source, source_id, days_in, rows_of, key_of,
  and_row, out_of, weekday_answer, check_days, write_days, answer_of, write_checked, import_chain,
}
use grindstone.Imports.Written.{on_days_in, is_contract, write_days-exact}

abbrev pub is_report : ImportAnswer → Bool
is_report (imported r) = true
is_report _ = false

abbrev pub is_given : {A : Type 0} → Option A → Bool
is_given none = false
is_given (some a) = true

module _ {N K : Type 0} (py : ImportPython N K) where
  -- Its dates and its strike can be read.
  abbrev pub is_readable : ChainRow N → Bool
  is_readable r = is_given (key_of py r)

  weekday_answer-refuses :
      (o : Option Date) (rest : Option ImportAnswer) (a : ImportAnswer)
      → ((b : ImportAnswer) → rest ≡ some b → is_report b ≡ false)
      → weekday_answer py o rest ≡ some a
      → is_report a ≡ false
  weekday_answer-refuses none rest a c h = let same : raised ≡ a = cc h in rw (← same) refl
  weekday_answer-refuses (some t) rest a c h = elim (Bool-cases (ltb t.weekday 5)) [
    | inl works ↦ c a (rw works at h)
    | inr closed ↦
        let refusal : some closed_day ≡ some a = rw closed at h in
        let same : closed_day ≡ a = cc refusal in rw (← same) refl
  ]

  -- The check of the days never reports a success.
  check_days-refuses :
      (days : List Text) (a : ImportAnswer) → check_days py days ≡ some a → is_report a ≡ false
  check_days-refuses [] a h = cc
  check_days-refuses (day ∷ days) a h =
      weekday_answer-refuses (py.date_of day) (check_days py days) a (check_days-refuses days) h

  and_row-reads :
      (sid : ℕ) (r : ChainRow N) (o : Option (ContractKey K)) (m : Option (List (OptRow N K)))
      → is_given o ≡ true
      → is_given m ≡ true
      → is_given (and_row py sid r o m) ≡ true
  and_row-reads sid r none m h h' = cc
  and_row-reads sid r (some k) none h h' = cc
  and_row-reads sid r (some k) (some out) h h' = refl

  out_of-reads :
      (sid : ℕ) (day : Text) (rows : List (ChainRow N))
      → every is_readable rows ≡ true
      → is_given (out_of py sid (rows_of day rows)) ≡ true
  out_of-reads sid day [] h = refl
  out_of-reads sid day (r ∷ rs) h = elim (Bool-cases (r.date == day)) [
    | inl here ↦ rw here (
        and_row-reads sid r (key_of py r) (out_of py sid (rows_of day rs)) (ground (arith, h))
          (out_of-reads sid day rs (ground (arith, h))))
    | inr elsewhere ↦ rw elsewhere (out_of-reads sid day rs (ground (arith, h)))
  ]

  module _ ⦃e : Eq K⦄ (breaks : Text → Bool) (rows : List (ChainRow N)) where
    write_days-ends :
        (sid : ℕ) (days : List Text) (opt : List (OptRow N K)) (n c : ℕ)
        → every is_readable rows ≡ true
        → ((day : Text) → breaks day ≡ false)
        → is_given (write_days py breaks sid days rows opt n c).1 ≡ true
    unfolding write_days
    write_days-ends sid [] opt n c h well = refl
    write_days-ends sid (day ∷ rest) opt n c h well =
        elim (Option-cases (out_of py sid (rows_of day rows))) [
          | inl raises ↦ absurd (unread (rw raises at (out_of-reads sid day rows h)))
          | inr (out, read) ↦
              rw (write_days, read, well day)
                (write_days-ends sid rest (replace_rows out opt) (n + 1) (c + length out) h well)
        ]
      where
        unread : false ≡ true → ⊥
        unread q = cc

    answer_of-report :
        (source : Text) (days : List Text) (end : Option (ℕ × ℕ))
        → is_given end ≡ is_report (answer_of py source days end)
    answer_of-report source days none = refl
    answer_of-report source days (some (n, c)) = refl

    module _ (source : Text) where
      checked-exact :
          (k : ContractKey K) (s : ChainStore N K) (a : Option ImportAnswer)
          → ((b : ImportAnswer) → a ≡ some b → is_report b ≡ false)
          → is_report (write_checked py breaks source rows s a).1 ≡ true
          → has_contract k (write_checked py breaks source rows s a).0.opt
            ≡ (has_contract k s.opt || any (is_contract py k) rows)
      checked-exact k s (some b) c h = absurd (clash (sym (c b refl) ∙ h))
        where
          clash : false ≡ true → ⊥
          clash q = cc
      checked-exact k s none c h =
          let p = write_days py breaks (source_id source s.sources) (days_in rows) rows s.opt 0 0 in
          elim (Option-cases p.1) [
            | inl breaks_off ↦ absurd (
                clash
                  (ap (λ q. is_report (answer_of py source (days_in rows) q)) (sym breaks_off) ∙ h))
            | inr (end, ends) ↦
                write_days-exact py k breaks (source_id source s.sources) rows (days_in rows) s.opt
                  0 0 end ends
                ∙ ap (λ b. has_contract k s.opt || b) (on_days_in (is_contract py k) rows)
          ]
        where
          clash : false ≡ true → ⊥
          clash q = cc

      checked-whole :
          (s : ChainStore N K) (a : Option ImportAnswer)
          → every is_readable rows ≡ true
          → ((day : Text) → breaks day ≡ false)
          → ((write_checked py breaks source rows s a).0.opt ≡ s.opt)
            ⊎ (is_report (write_checked py breaks source rows s a).1 ≡ true)
      checked-whole s (some b) h well = inl refl
      checked-whole s none h well = inr (
          sym (answer_of-report source (days_in rows) _)
          ∙ write_days-ends (source_id source s.sources) (days_in rows) s.opt 0 0 h well)

      -- After an import that ends with a report, the store has the contracts that it had and those of
      -- all rows of the file, and no other.
      pub import_exact :
          (underlying stamp : Text) (k : ContractKey K) (s : ChainStore N K)
          → is_report (import_chain py breaks underlying rows source stamp s).1 ≡ true
          → has_contract k (import_chain py breaks underlying rows source stamp s).0.opt
            ≡ (has_contract k s.opt || any (is_contract py k) rows)
      unfolding import_chain
      import_exact underlying stamp k s h =
          elim (Bool-cases (any (λ r. not (r.symbol == upper underlying)) rows)) [
            | inl mixed ↦ absurd (clash (rw (import_chain, mixed) at h))
            | inr one ↦
                rw (import_chain, one)
                  (checked-exact k (record s { sources = touch_source source stamp s.sources })
                    (check_days py (days_in rows)) (check_days-refuses (days_in rows))
                    (rw (import_chain, one) at h))
          ]
        where
          clash : false ≡ true → ⊥
          clash q = cc

      -- An import of rows whose dates and strikes can be read, during which the database does not fail,
      -- changes no contract of the store or ends with a report.
      pub all_or_nothing :
          (underlying stamp : Text) (s : ChainStore N K)
          → every is_readable rows ≡ true
          → ((day : Text) → breaks day ≡ false)
          → ((import_chain py breaks underlying rows source stamp s).0.opt ≡ s.opt)
            ⊎ (is_report (import_chain py breaks underlying rows source stamp s).1 ≡ true)
      unfolding import_chain
      all_or_nothing underlying stamp s h well =
          elim (Bool-cases (any (λ r. not (r.symbol == upper underlying)) rows)) [
            | inl mixed ↦ inl (rw (import_chain, mixed) refl)
            | inr one ↦
                rw (import_chain, one)
                  (checked-whole (record s { sources = touch_source source stamp s.sources })
                    (check_days py (days_in rows)) h well)
          ]
