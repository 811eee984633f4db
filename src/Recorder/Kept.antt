-- ===== src/Recorder/Kept.antt =====
-- No recorded row that some job still keeps is pruned (code/backend/recorder.py).
use grindstone.Prelude.{
  ℕ, ◌≡◌, refl, sym, ap, ◌∙◌, Bool, true, false, ◌&&◌, ◌||◌, not, List, [], ◌∷◌, arith, any, every,
  ltb, leb, max, keep, Eq, ◌==◌, Bool-cases, inl, inr, if◌then◌else◌, text_eq,
}
use grindstone.Recorder.Jobs.{Job}
use grindstone.Recorder.Prune.{
  series_eq, Recorded, Promise, cutoff, raise_to, longest, is_old, delete_old, bars_promises,
  chain_promises, Tables, prune,
}

old_max :
    (now ts a b : ℕ)
    → ltb ts (cutoff now (max a b)) ≡ (ltb ts (cutoff now a) && ltb ts (cutoff now b))
old_max now ts a b = ground arith

module _ {K : Type 0} ⦃e : Eq K⦄ (now : ℕ) (r : Recorded K) where
  abbrev is_for : Promise K → Bool
  is_for p = r.key == p.key

  -- The promise reaches back to the row.
  abbrev reaches : Promise K → Bool
  reaches p = leb (cutoff now p.days) r.ts

  abbrev survives : List (Promise K) → Bool
  survives ps = every (λ p. not (is_old now p r)) ps

  abbrev pub has_promise : List (Promise K) → Bool
  has_promise ps = any is_for ps

  -- At most one item of the dict is for the row.
  abbrev is_single : List (Promise K) → Bool
  is_single [] = true
  is_single (p ∷ ps) = if is_for p then not (has_promise ps) else is_single ps

  no_promise : (ps : List (Promise K)) → has_promise ps ≡ false → survives ps ≡ true
  no_promise [] h = refl
  no_promise (p ∷ ps) h = ground (arith, no_promise ps)

  no_promise_single : (ps : List (Promise K)) → has_promise ps ≡ false → is_single ps ≡ true
  no_promise_single [] h = refl
  no_promise_single (p ∷ ps) h = ground (arith, no_promise_single ps)

  rest_single :
      (q : Promise K) (ps : List (Promise K)) → is_single (q ∷ ps) ≡ true → is_single ps ≡ true
  rest_single q ps h = ground (arith, h, no_promise_single ps)

  same_test : (p q : Promise K) → (q.key == p.key) ≡ true → is_for q ≡ is_for p
  same_test p q h = ap (λ k. r.key == k) ((e.same_iff q.key p.key).0 h)

  both_for : (p q : Promise K) → is_for p ≡ true → is_for q ≡ true → (q.key == p.key) ≡ true
  both_for p q h k =
      (e.same_iff q.key p.key).1 (sym ((e.same_iff r.key q.key).0 k) ∙ (e.same_iff r.key p.key).0 h)

  survives-raise :
      (p : Promise K) (ps : List (Promise K))
      → is_single ps ≡ true
      → survives (raise_to p ps) ≡ (
          if is_for p
          then (if has_promise ps then survives ps || reaches p else reaches p)
          else survives ps)
  survives-raise p [] h = ground arith
  survives-raise p (q ∷ ps) h = elim (Bool-cases (q.key == p.key)) [
    | inl same ↦
        rw same
          (ground (arith, same_test p q same, old_max now r.ts q.days p.days, no_promise ps, h))
    | inr other ↦ rw other (
        ground
          (arith, both_for p q, other, survives-raise p ps (rest_single q ps h), no_promise ps, h))
  ]

  has_promise-raise :
      (p : Promise K) (ps : List (Promise K))
      → has_promise (raise_to p ps) ≡ (has_promise ps || is_for p)
  has_promise-raise p [] = ground arith
  has_promise-raise p (q ∷ ps) = elim (Bool-cases (q.key == p.key)) [
    | inl same ↦ rw same (ground (arith, same_test p q same))
    | inr other ↦ rw other (ground (arith, has_promise-raise p ps))
  ]

  is_single-raise :
      (p : Promise K) (ps : List (Promise K))
      → is_single ps ≡ true
      → is_single (raise_to p ps) ≡ true
  is_single-raise p [] h = ground arith
  is_single-raise p (q ∷ ps) h = elim (Bool-cases (q.key == p.key)) [
    | inl same ↦ rw same (ground (arith, h))
    | inr other ↦ rw other (
        ground (
          arith,
          both_for p q,
          other,
          has_promise-raise p ps,
          is_single-raise p ps (rest_single q ps h),
          h,
        ))
  ]

  -- Some promise for the row reaches back to it.
  abbrev pub is_promised : List (Promise K) → Bool
  is_promised ps = any (λ p. is_for p && reaches p) ps

  -- The row is kept if it was never promised to anybody, or some promise for it reaches back to it.
  abbrev pub is_kept : List (Promise K) → Bool
  is_kept ps = not (has_promise ps) || is_promised ps

  survives-longest :
      (ps qs : List (Promise K))
      → is_single qs ≡ true
      → survives (longest ps qs)
        ≡ (if has_promise qs then survives qs || is_promised ps else is_kept ps)
  survives-longest [] qs h = ground (arith, no_promise qs)
  survives-longest (p ∷ ps) qs h =
      survives-longest ps (raise_to p qs) (is_single-raise p qs h)
      ∙ ground (arith, survives-raise p qs h, has_promise-raise p qs, no_promise qs)

keep-keep :
    {A : Type 0} (p q : A → Bool) (xs : List A) → keep p (keep q xs) ≡ keep (λ x. q x && p x) xs
keep-keep p q [] = refl
keep-keep p q (x ∷ xs) = elim (Bool-cases (q x)) [
  | inl holds ↦ rw holds (rw (keep-keep p q xs) refl)
  | inr fails ↦ rw fails (keep-keep p q xs)
]

keep-all : {A : Type 0} (xs : List A) → keep (λ x. true) xs ≡ xs
keep-all [] = refl
keep-all (x ∷ xs) = ap (λ l. x ∷ l) (keep-all xs)

keep_same :
    {A : Type 0} (p q : A → Bool) (xs : List A) → ((x : A) → p x ≡ q x) → keep p xs ≡ keep q xs
keep_same p q [] same = refl
keep_same p q (x ∷ xs) same = rw (same x, keep_same p q xs same) refl

module _ {K : Type 0} ⦃e : Eq K⦄ (now : ℕ) where
  delete_old-keep :
      (ps : List (Promise K)) (rows : List (Recorded K))
      → (delete_old now ps rows).1 ≡ keep (λ r. survives now r ps) rows
  delete_old-keep [] rows = sym (keep-all rows)
  delete_old-keep (p ∷ ps) rows =
      delete_old-keep ps (keep (λ r. not (is_old now p r)) rows)
      ∙ keep-keep (λ r. survives now r ps) (λ r. not (is_old now p r)) rows

  delete_longest :
      (ps : List (Promise K)) (rows : List (Recorded K))
      → (delete_old now (longest ps []) rows).1 ≡ keep (λ r. is_kept now r ps) rows
  delete_longest ps rows =
      delete_old-keep (longest ps []) rows
      ∙ keep_same (λ r. survives now r (longest ps [])) (λ r. is_kept now r ps) rows
          (λ r. survives-longest now r ps [] refl)

-- `prune` keeps, of the bars and of the chains, exactly the rows that no job is for, and those that
-- the retention of at least one of the jobs for them reaches back to.
pub prune_exact :
    (now : ℕ) (jobs : List Job) (t : Tables)
    → ((prune now jobs t).1.bars ≡ keep (λ r. is_kept now r (bars_promises jobs)) t.bars)
      × ((prune now jobs t).1.chain ≡ keep (λ r. is_kept now r (chain_promises jobs)) t.chain)
unfolding prune
prune_exact now jobs t = (
  delete_longest now (bars_promises jobs) t.bars,
  delete_longest now (chain_promises jobs) t.chain,
)
