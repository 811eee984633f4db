-- ===== src/Recorder/Settled.antt =====
-- A chain day that the backfill of code/backend/recorder.py settles as `have` is in both stores.
use grindstone.Prelude.{
  ℕ, ◌+◌, ◌≡◌, refl, beq_refl, Option-cases, Bool, true, false, ◌&&◌, ◌||◌, Option, none, some,
  List, [], ◌∷◌, contains, contains-append, ltb, ◌++◌, String, max, ◌==◌, nat_eq, arith, Bool-cases,
  inl, inr, Text,
}
use grindstone.Coverage.{
  State, have, absent, failed, unknown, state_eq, Feed, feed_eq, Table, mark, reconcile_chain,
}
use grindstone.Onclick.{Fetched, checked, outside_plan, gave_up, no_day, mismatch, chain, fetch_day}
use grindstone.Recorder.Chains.{
  onclick_feed, StoreAnswer, both, archive_raised, engine_raised, file_engine, Outside, Stores,
  with_table, mark_day, store_day, settle_day, settle_days, is_paced, reconciled, reconcile_known,
  settle_gaps, backfill_chains,
}
use grindstone.Recorder.Had.{is_had, is_listed, had-mark, had-reconcile}

no_stores : {u : Stores} → none ≡ some u → ⊥
no_stores e = cc

-- The body, if both stores returned, had a row of the day that was asked for, and the archive wrote one.
abbrev pub files_day : ℕ → StoreAnswer → Bool
files_day day (both days contracts archived) = contains days day && ltb 0 archived
files_day day _ = true

-- What the server sends for a day is of that day, as far as the stores take it.
abbrev pub IsHonest : Outside → Type 0
IsHonest o = (day : ℕ) (body : Text) → files_day day (o.keeps day body) ≡ true

module _ (o : Outside) (symbol : Text) (g : Feed) (x : ℕ) (base : Bool) where
  -- If the day is had, it was, or both stores have it.
  abbrev Covers : Stores → Type 0
  Covers s =
      is_had s.table g x ≡ true → (base || (contains s.engine x && contains s.archive x)) ≡ true

  -- The end of a day covers, whether an exception ends it or not.
  abbrev CoversBoth : Stores × Option Stores → Type 0
  CoversBoth p = Covers p.0 × ((u : Stores) → p.1 ≡ some u → Covers u)

  with_table-Covers :
      (s u : Stores) (m : Option Table)
      → ((t : Table) → m ≡ some t → Covers (record s { table = t }))
      → with_table s m ≡ some u
      → Covers u
  with_table-Covers s u none c e = cc
  with_table-Covers s u (some t) c e =
      let same : record s { table = t } ≡ u = cc e in rw (← same) (c t refl)

  mark_day-Covers :
      (day : ℕ) (state : State) (rows : ℕ) (detail : String) (s u : Stores)
      → ((state == have) ≡ true → (contains s.engine day && contains s.archive day) ≡ true)
      → Covers s
      → mark_day o symbol day state rows detail s ≡ some u
      → Covers u
  mark_day-Covers day state rows detail s u kept c =
      with_table-Covers s u (mark (onclick_feed symbol) day state rows detail (o.now day) s.table)
        (λ t marks had. covered t (
          had-mark (onclick_feed symbol) g day x state rows detail (o.now day) s.table t marks had))
    where
      covered :
          (t : Table)
          → (is_had s.table g x || ((state == have) && (day == x))) ≡ true
          → (base || (contains s.engine x && contains s.archive x)) ≡ true
      covered t h = elim (Bool-cases (is_had s.table g x)) [
        | inl before ↦ c before
        | inr not_before ↦
            let says : ((state == have) && (day == x)) ≡ true = ground (arith, h, not_before) in
            let is_day : day ≡ x = (nat_eq.same_iff day x).0 (ground (arith, says)) in
            rw (← is_day) (ground (arith, kept (ground (arith, says))))
      ]

  -- A mark that does not say `have` of a table that covers.
  plain-Covers :
      (day : ℕ) (state : State) (rows : ℕ) (detail : String) (s : Stores)
      → (state == have) ≡ false
      → Covers s
      → CoversBoth (s, mark_day o symbol day state rows detail s)
  plain-Covers day state rows detail s plain c =
      (c, λ u e. mark_day-Covers day state rows detail s u (λ h. absurd (clash h plain)) c e)
    where
      clash : (state == have) ≡ true → (state == have) ≡ false → ⊥
      clash h k = ground (arith, h, k)

  file_engine-Covers :
      (days : List ℕ) (s : Stores) → Covers s → Covers (file_engine o symbol days s)
  file_engine-Covers days s c had = ground (arith, c had, contains-append days s.engine x)

  store_day-Covers :
      (day : ℕ) (k : StoreAnswer) (s : Stores)
      → files_day day k ≡ true
      → Covers s
      → CoversBoth (store_day o symbol day k s)
  store_day-Covers day (engine_raised days) s filed c =
      (file_engine-Covers days s c, λ u e. absurd (no_stores e))
  store_day-Covers day (archive_raised days) s filed c =
      (file_engine-Covers days s c, λ u e. absurd (no_stores e))
  store_day-Covers day (both days contracts archived) s filed c =
      let wrote : ltb 0 archived ≡ true = ground (arith, filed) in
      let s' : Stores = record s { engine = days ++ s.engine; archive = day ∷ s.archive } in
      let c' : Covers s' = λ had. ground (arith, c had, contains-append days s.engine x) in
      rw wrote (
        c',
        λ u e.
            mark_day-Covers day have (max contracts archived) "" s' u
              (λ h. rw (contains-append days s.engine day, beq_refl day) (ground (arith, filed))) c'
              e,
      )

  settle_day-Covers :
      (honest : IsHonest o) (day : ℕ) (f : Fetched) (s : Stores)
      → Covers s
      → CoversBoth (settle_day o symbol day f s)
  unfolding settle_day
  settle_day-Covers honest day outside_plan s c = plain-Covers day unknown 0 _ s refl c
  settle_day-Covers honest day (gave_up r) s c = plain-Covers day failed 0 _ s refl c
  settle_day-Covers honest day (checked mismatch) s c = plain-Covers day failed 0 _ s refl c
  settle_day-Covers honest day (checked (chain body)) s c =
      store_day-Covers day (o.keeps day body) s (honest day body) c
  settle_day-Covers honest day (checked no_day) s c = plain-Covers day absent 0 _ s refl c

  settle_days-Covers :
      (honest : IsHonest o) (days : List ℕ) (done : ℕ) (s : Stores)
      → Covers s
      → Covers (settle_days o symbol days done s).stores
  unfolding settle_days
  settle_days-Covers honest [] done s c = c
  settle_days-Covers honest (day ∷ days) done s c = elim (Bool-cases (o.stops day)) [
    | inl stops ↦ rw (settle_days, stops) c
    | inr goes ↦
        let p = settle_day o symbol day (fetch_day (o.serve day) 2).0 s in
        let (c0, c1) = settle_day-Covers honest day (fetch_day (o.serve day) 2).0 s c in
        elim (Option-cases p.1) [
          | inl raises ↦ rw (settle_days, goes, raises) c0
          | inr (v, returns) ↦
              elim (Bool-cases (is_paced (fetch_day (o.serve day) 2).0 && o.wakes day)) [
                | inl wakes ↦ rw (settle_days, goes, returns, wakes) (c1 v returns)
                | inr sleeps ↦
                    rw (settle_days, goes, returns, sleeps)
                      (settle_days-Covers honest days (done + 1) v (c1 v returns))
              ]
        ]
  ]

abbrev pub days_of : Option (List (Option ℕ)) → List (Option ℕ)
days_of none = []
days_of (some ds) = ds

module _ (o : Outside) (symbol : Text) (g : Feed) (x : ℕ) (known : Option (List (Option ℕ)))
    (now : ℕ) (s : Stores) where
  abbrev was_known : Bool
  was_known = is_had s.table g x || is_listed (days_of known) x

  reconciled-Covers :
      (ds : List (Option ℕ)) (r : Option (ℕ × Table)) (u : Stores)
      → reconcile_chain (onclick_feed symbol) ds now s.table ≡ r
      → reconciled o symbol s r ≡ some u
      → Covers o symbol g x (is_had s.table g x || is_listed ds x) u
  unfolding reconcile_chain
  reconciled-Covers ds none u e q = absurd (no_stores q)
  reconciled-Covers ds (some (n, t)) u e q =
      let same : record s { table = t } ≡ u = cc q in
      rw (← same) (λ had. ground (arith, had-reconcile _ g _ now x ds 0 s.table n t e had))

  reconcile_known-Covers :
      (k : Option (List (Option ℕ))) (u : Stores)
      → reconcile_known o symbol k now s ≡ some u
      → Covers o symbol g x (is_had s.table g x || is_listed (days_of k) x) u
  reconcile_known-Covers none u e = let same : s ≡ u = cc e in rw (← same) (λ had. rw had refl)
  reconcile_known-Covers (some []) u e = let same : s ≡ u = cc e in rw (← same) (λ had. rw had refl)
  reconcile_known-Covers (some (d ∷ ds)) u e = reconciled-Covers (d ∷ ds) _ u refl e

  settle_gaps-Covers :
      (honest : IsHonest o) (today : ℕ) (u : Option Stores)
      → ((v : Stores) → u ≡ some v → Covers o symbol g x was_known v)
      → Covers o symbol g x was_known (settle_gaps o symbol today now s u).stores
  settle_gaps-Covers honest today none c = λ had. rw had refl
  settle_gaps-Covers honest today (some v) c =
      settle_days-Covers o symbol g x was_known honest _ 0 v (c v refl)

  pub had_needs_stores :
      (honest : IsHonest o) (today : ℕ)
      → is_had (backfill_chains o symbol known today now s).stores.table g x ≡ true
      → ((is_had s.table g x || is_listed (days_of known) x)
          || (contains (backfill_chains o symbol known today now s).stores.engine x
              && contains (backfill_chains o symbol known today now s).stores.archive x))
        ≡ true
  unfolding backfill_chains
  had_needs_stores honest today h =
      settle_gaps-Covers honest today (reconcile_known o symbol known now s)
        (reconcile_known-Covers known) h
