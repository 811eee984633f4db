-- ===== src/Datajobs/Counted.antt =====
-- What the counts of a pull come to (code/backend/datajobs.py).
use grindstone.Prelude.{
  ℕ, suc, ◌+◌, ◌*◌, ◌≡◌, refl, sym, ap, ◌∙◌, some, List, [], ◌∷◌, map, arith, length, length-append,
  Text, Bool-cases, Option-cases, inl, inr,
}
use grindstone.Onclick.{pull_days, no_day, mismatch, chain, Fetched, checked, outside_plan, gave_up}
use grindstone.Datajobs.Pull.{
  State, stopped, done, error, Counts, Pull, at_day, work, Imported, contracts, import_failed,
  pull_day, World, pull_loop, run_pull,
}

length-map_pairs : (s : Text) (ds : List ℕ) → length (map (at_day s) ds) ≡ length ds
length-map_pairs s [] = refl
length-map_pairs s (d ∷ ds) = ap suc (length-map_pairs s ds)

length-work :
    (syms : List Text) (days : List ℕ) → length (work syms days) ≡ length days * length syms
unfolding work
length-work [] days = omega arith
length-work (s ∷ syms) days =
    rw (length-append (map (at_day s) days) (work syms days))
      (rw (length-map_pairs s days) (omega (arith, length-work syms days)))

-- What a day adds to "skipped": one if nothing was stored of it, and two if the plan does not cover it.
abbrev pub skips : Fetched → ℕ
skips (checked no_day) = 1
skips (checked mismatch) = 1
skips (checked (chain body)) = 0
skips outside_plan = 2
skips (gave_up fault) = 0

abbrev pub total_skips : World → List (Text × ℕ) → ℕ
total_skips w [] = 0
total_skips w ((s, d) ∷ rest) = skips (w.fetch s d) + total_skips w rest

same_some : {c c' : Counts} → some c ≡ some c' → c ≡ c'
same_some h = cc h

same_state : {a b : State × Counts} → a ≡ b → a.0 ≡ b.0
same_state h = ap (λ (r : State × Counts). r.0) h

changed : {c c' : Counts} → c ≡ c' → (c'.done ≡ c.done) × (c'.skipped ≡ c.skipped)
changed e = (sym (ap (λ (k : Counts). k.done) e), sym (ap (λ (k : Counts). k.skipped) e))

day_counts :
    (f : Fetched) (i : Imported) (c c' : Counts)
    → pull_day f i c ≡ some c'
    → (c'.done ≡ c.done + 1) × (c'.skipped ≡ c.skipped + skips f)
unfolding pull_day
day_counts (checked no_day) i c c' h = changed (same_some h)
day_counts (checked mismatch) i c c' h = changed (same_some h)
day_counts (checked (chain body)) (contracts n) c c' h = ground (arith, changed (same_some h))
day_counts (checked (chain body)) import_failed c c' h = cc
day_counts outside_plan i c c' h = changed (same_some h)
day_counts (gave_up fault) i c c' h = cc

loop_counts :
    (w : World) (i : ℕ) (pairs : List (Text × ℕ)) (c c' : Counts)
    → pull_loop w i pairs c ≡ (done, c')
    → (c'.done ≡ c.done + length pairs) × (c'.skipped ≡ c.skipped + total_skips w pairs)
unfolding pull_loop
loop_counts w i [] c c' h = ground (arith, changed (ap (λ (r : State × Counts). r.1) h))
loop_counts w i ((s, d) ∷ rest) c c' h = elim (Bool-cases (w.stops i)) [
  | inl stop ↦
      let ends : pull_loop w i ((s, d) ∷ rest) c ≡ (stopped, c) = rw (stop, pull_loop) refl in
      let clash : stopped ≡ done = same_state (sym ends ∙ h) in cc clash
  | inr go ↦ elim (Option-cases (pull_day (w.fetch s d) (w.store s d) c)) [
    | inl broke ↦
        let ends : pull_loop w i ((s, d) ∷ rest) c ≡ (error, c) = rw (go, pull_loop, broke) refl in
        let clash : error ≡ done = same_state (sym ends ∙ h) in cc clash
    | inr (next, counted) ↦
        let ends : pull_loop w i ((s, d) ∷ rest) c ≡ pull_loop w (i + 1) rest next =
          rw (go, pull_loop, counted) refl in
        let here = day_counts (w.fetch s d) (w.store s d) c next counted in
        let later = loop_counts w (i + 1) rest next c' (sym ends ∙ h) in
        (omega (arith, here.0, later.0), omega (arith, here.1, later.1))
  ]
]

zero_add : (n : ℕ) → 0 + n ≡ n
zero_add n = omega arith

abbrev ends_with : State → Counts → State × Counts
ends_with s c = (s, c)

done_counts :
    (w : World) (pairs : List (Text × ℕ)) (c : Counts) (r : State × Counts)
    → pull_loop w 0 pairs c ≡ r
    → r.0 ≡ done
    → (r.1.done ≡ c.done + length pairs) × (r.1.skipped ≡ c.skipped + total_skips w pairs)
done_counts w pairs c (state, c') h e = loop_counts w 0 pairs c c' (h ∙ ap (λ s. ends_with s c') e)

-- A pull that was started with its counts at zero and that ends as done has counted every pair of a
-- symbol and a weekday as done; "skipped" counts each day that nothing was stored of once, but a day
-- outside the provider's plan twice.
pub finished_counts :
    (w : World) (p : Pull)
    → p.counts ≡ record { done = 0; written = 0; skipped = 0 }
    → (run_pull w p).state ≡ done
    → ((run_pull w p).counts.done ≡ length (pull_days p.first p.last) * length p.symbols)
      × ((run_pull w p).counts.skipped ≡ total_skips w (work p.symbols (pull_days p.first p.last)))
unfolding run_pull
finished_counts w p fresh e =
    let pairs = work p.symbols (pull_days p.first p.last) in
    let counted = done_counts w pairs p.counts (pull_loop w 0 pairs p.counts) refl e in
    (
      counted.0 ∙ rw fresh (zero_add _ ∙ length-work p.symbols (pull_days p.first p.last)),
      counted.1 ∙ rw fresh (zero_add _),
    )
