-- ===== src/Imports/Written.antt =====
-- What the loop of `import_chain` that writes the days leaves in the table (code/backend/btdata.py).
use grindstone.Prelude.{
  is_less, beq_refl, ℕ, ◌+◌, ◌≡◌, refl, sym, ap, ◌∙◌, Bool, true, false, ◌&&◌, ◌||◌, Option, none,
  some, List, [], ◌∷◌, any, contains, length, arith, Eq, nat_eq, text_eq, ◌==◌, Text, Bool-cases,
  Option-cases, inl, inr,
}
use grindstone.Imports.{
  ContractKey, key_eq, OptRow, has_contract, replace_rows, has_contract-replace_rows, ChainRow,
  ImportPython, days_in, insert_day, rows_of, key_of, quoted, and_row, out_of, write_days,
}

contains-insert_day :
    (day x : Text) (days : List Text)
    → contains (insert_day day days) x ≡ (day == x || contains days x)
contains-insert_day day x [] = ground arith
contains-insert_day day x (t ∷ ts) = elim (Bool-cases (day == t)) [
  | inl is ↦ rw is (ground (arith, ap (λ q. q == x) ((text_eq.same_iff day t).0 is)))
  | inr apart ↦ elim (Bool-cases (is_less day t)) [
    | inl before ↦ rw (apart, before) refl
    | inr after ↦ rw (apart, after) (ground (arith, contains-insert_day day x ts))
  ]
]

module _ {N : Type 0} where
  -- A row of one of the days that passes the test.
  abbrev pub on_days : (ChainRow N → Bool) → List Text → List (ChainRow N) → Bool
  on_days p days rows = any (λ r. contains days r.date && p r) rows

  any-rows_of :
      (p : ChainRow N → Bool) (day : Text) (days : List Text) (rows : List (ChainRow N))
      → on_days p (day ∷ days) rows ≡ (any p (rows_of day rows) || on_days p days rows)
  any-rows_of p day days [] = refl
  any-rows_of p day days (r ∷ rs) = ground (
    arith,
    any-rows_of p day days rs,
    text_eq.same_iff r.date day,
    text_eq.same_iff day r.date,
    λ (q : r.date ≡ day). sym q,
    λ (q : day ≡ r.date). sym q,
  )

  on_no_days : (p : ChainRow N → Bool) (rows : List (ChainRow N)) → on_days p [] rows ≡ false
  on_no_days p [] = refl
  on_no_days p (r ∷ rs) = on_no_days p rs

  any-all_days :
      (p : ChainRow N → Bool) (days : List Text) (rows : List (ChainRow N))
      → ((x : Text) → contains (days_in rows) x ≡ true → contains days x ≡ true)
      → on_days p days rows ≡ any p rows
  any-all_days p days [] h = refl
  any-all_days p days (r ∷ rs) h =
      let here : contains days r.date ≡ true =
        h r.date (contains-insert_day r.date r.date (days_in rs) ∙ rw (beq_refl r.date) refl) in
      let there =
        any-all_days p days rs
          (λ x q. h x (contains-insert_day r.date x (days_in rs) ∙ ground (arith, q))) in
      rw (here, there) refl

  -- Every row is of one of the file's days.
  pub on_days_in :
      (p : ChainRow N → Bool) (rows : List (ChainRow N))
      → on_days p (days_in rows) rows ≡ any p rows
  on_days_in p rows = any-all_days p (days_in rows) rows (λ x h. h)

module _ {N K : Type 0} (py : ImportPython N K) ⦃e : Eq K⦄ where
  abbrev pub is_key : ContractKey K → Option (ContractKey K) → Bool
  is_key k none = false
  is_key k (some k') = k' == k

  -- The row is of the contract.
  abbrev pub is_contract : ContractKey K → ChainRow N → Bool
  is_contract k r = is_key k (key_of py r)

  and_row-exact :
      (k : ContractKey K) (sid : ℕ) (r : ChainRow N) (b : Bool) (o : Option (ContractKey K))
      (m : Option (List (OptRow N K))) (out : List (OptRow N K))
      → ((rest : List (OptRow N K)) → m ≡ some rest → has_contract k rest ≡ b)
      → and_row py sid r o m ≡ some out
      → has_contract k out ≡ (is_key k o || b)
  and_row-exact k sid r b none m out h q = cc
  and_row-exact k sid r b (some k') none out h q = cc
  and_row-exact k sid r b (some k') (some rest) out h q =
      let same : quoted py sid r k' ∷ rest ≡ out = cc q in rw (← same) (ground (arith, h rest refl))

  out_of-exact :
      (k : ContractKey K) (sid : ℕ) (rows : List (ChainRow N)) (out : List (OptRow N K))
      → out_of py sid rows ≡ some out
      → has_contract k out ≡ any (is_contract k) rows
  out_of-exact k sid [] out h = let same : [] ≡ out = cc h in rw (← same) refl
  out_of-exact k sid (r ∷ rs) out h =
      and_row-exact k sid r _ (key_of py r) (out_of py sid rs) out (out_of-exact k sid rs) h

  module _ (k : ContractKey K) (breaks : Text → Bool) (sid : ℕ) (rows : List (ChainRow N)) where
    -- One day's rows, and those of the days that follow.
    day_and_rest :
        (day : Text) (rest : List Text) (opt out : List (OptRow N K))
        → out_of py sid (rows_of day rows) ≡ some out
        → (has_contract k (replace_rows out opt) || on_days (is_contract k) rest rows)
          ≡ (has_contract k opt || on_days (is_contract k) (day ∷ rest) rows)
    day_and_rest day rest opt out h = ground (
      arith,
      has_contract-replace_rows k out opt,
      out_of-exact k sid (rows_of day rows) out h,
      any-rows_of (is_contract k) day rest rows,
    )

    -- Whether the loop ends well or not, a contract of the table was there, or is of a row of the days.
    pub write_days-safe :
        (days : List Text) (opt : List (OptRow N K)) (n c : ℕ)
        → has_contract k (write_days py breaks sid days rows opt n c).0 ≡ true
        → (has_contract k opt || on_days (is_contract k) days rows) ≡ true
    unfolding write_days
    write_days-safe [] opt n c h = rw h refl
    write_days-safe (day ∷ rest) opt n c h =
        elim (Option-cases (out_of py sid (rows_of day rows))) [
          | inl raises ↦
              let before : has_contract k opt ≡ true = rw (write_days, raises) at h in
              rw before refl
          | inr (out, read) ↦ elim (Bool-cases (breaks day)) [
            | inl broken ↦
                let before : has_contract k opt ≡ true = rw (write_days, read, broken) at h in
                rw before refl
            | inr well ↦
                sym (day_and_rest day rest opt out read)
                ∙ write_days-safe rest (replace_rows out opt) (n + 1) (c + length out)
                    (rw (write_days, read, well) at h)
          ]
        ]

    -- If the loop ends well, the table has what it had and the rows of the days.
    pub write_days-exact :
        (days : List Text) (opt : List (OptRow N K)) (n c : ℕ) (end : ℕ × ℕ)
        → (write_days py breaks sid days rows opt n c).1 ≡ some end
        → has_contract k (write_days py breaks sid days rows opt n c).0
          ≡ (has_contract k opt || on_days (is_contract k) days rows)
    unfolding write_days
    write_days-exact [] opt n c end h = ground (arith, on_no_days (is_contract k) rows)
    write_days-exact (day ∷ rest) opt n c end h =
        elim (Option-cases (out_of py sid (rows_of day rows))) [
          | inl raises ↦ absurd (no_end (rw (write_days, raises) at h))
          | inr (out, read) ↦ elim (Bool-cases (breaks day)) [
            | inl broken ↦ absurd (no_end (rw (write_days, read, broken) at h))
            | inr well ↦
                rw (write_days, read, well)
                  (write_days-exact rest (replace_rows out opt) (n + 1) (c + length out) end
                      (rw (write_days, read, well) at h)
                    ∙ day_and_rest day rest opt out read)
          ]
        ]
      where
        no_end : none ≡ some end → ⊥
        no_end q = cc
