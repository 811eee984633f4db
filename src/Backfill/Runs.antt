-- ===== src/Backfill/Runs.antt =====
-- The work list of code/backend/backfill.py: nothing is lost or invented when the missing days are
-- sorted and cut into chunks, and each chunk is short.
use grindstone.Prelude.{
  ℕ, suc, ◌-◌, ◌≤◌, ◌<◌, ◌≡◌, refl, sym, ap, ◌∙◌, Bool, true, false, ◌&&◌, ◌||◌, List, [], ◌∷◌, map,
  reverse, arith, any, every, ltb, leb, length, take_all, contains, nat_eq, contains-append,
  any-reverse, any-take, every-append, every-reverse, every-take, length-reverse, Bool-cases, inl,
  inr,
}
use grindstone.Coverage.{Feed, Table, gaps}
use grindstone.Backfill.Plan.{
  Chunk, Run, start_run, extend_run, must_break, split_runs, insert, sorted, to_chunk, plain_query,
  plan_runs, plan,
}

any-split_runs :
    (n : ℕ) (r : Run) (ds : List ℕ) (x : ℕ)
    → any (λ s. contains s.days x) (split_runs n r ds) ≡ (contains r.days x || contains ds x)
unfolding split_runs
any-split_runs n r [] x = refl
any-split_runs n r (d ∷ ds) x = elim (Bool-cases (must_break n r d)) [
  | inl break ↦ rw (break, split_runs) (ground (arith, any-split_runs n (start_run d) ds x))
  | inr go ↦
      rw (go, split_runs)
        (any-split_runs n (extend_run r d) ds x
          ∙ rw (contains-append r.days (d ∷ []) x) (ground arith))
]

contains-insert : (d : ℕ) (xs : List ℕ) (x : ℕ) → contains (insert d xs) x ≡ contains (d ∷ xs) x
unfolding insert
contains-insert d [] x = refl
contains-insert d (y ∷ xs) x = ground (arith, contains-insert d xs x)

contains-sorted : (xs : List ℕ) (x : ℕ) → contains (sorted xs) x ≡ contains xs x
unfolding sorted
contains-sorted [] x = refl
contains-sorted (d ∷ xs) x = ground (arith, contains-insert d (sorted xs) x, contains-sorted xs x)

any-plan_runs :
    (n : ℕ) (ds : List ℕ) (x : ℕ) → any (λ s. contains s.days x) (plan_runs n ds) ≡ contains ds x
unfolding plan_runs
any-plan_runs n [] x = refl
any-plan_runs n (d ∷ ds) x = any-split_runs n (start_run d) ds x ∙ ground arith

any-chunks :
    (f : Feed) (rs : List Run) (x : ℕ)
    → any (λ (c : Chunk). contains c.days x) (map (to_chunk f) rs) ≡ any (λ s. contains s.days x) rs
any-chunks f [] x = refl
any-chunks f (r ∷ rs) x = ground (arith, any-chunks f rs x)

-- Ascending days from `lo` on.
abbrev pub is_sorted_from : ℕ → List ℕ → Bool
is_sorted_from lo [] = true
is_sorted_from lo (d ∷ ds) = leb lo d && is_sorted_from d ds

sorted_from-insert :
    (lo d : ℕ) (xs : List ℕ)
    → lo ≤ d
    → is_sorted_from lo xs ≡ true
    → is_sorted_from lo (insert d xs) ≡ true
unfolding insert
sorted_from-insert lo d [] h k = ground arith
sorted_from-insert lo d (x ∷ xs) h k = ground (arith, sorted_from-insert x d xs)

sorted_ascends : (xs : List ℕ) → is_sorted_from 0 (sorted xs) ≡ true
unfolding sorted
sorted_ascends [] = refl
sorted_ascends (d ∷ xs) = sorted_from-insert 0 d (sorted xs) (omega arith) (sorted_ascends xs)

-- The days of a run lie between its ends, and it spans fewer than `n` days.
abbrev is_compact : ℕ → Run → Bool
is_compact n r = ltb (r.last - r.first) n && every (λ d. leb r.first d && leb d r.last) r.days

abbrev pub is_compact_chunk : ℕ → Chunk → Bool
is_compact_chunk n c = ltb (c.last - c.start) n && every (λ d. leb c.start d && leb d c.last) c.days

widen :
    (lo hi hi' : ℕ) (xs : List ℕ)
    → hi ≤ hi'
    → every (λ d. leb lo d && leb d hi) xs ≡ true
    → every (λ d. leb lo d && leb d hi') xs ≡ true
widen lo hi hi' [] h k = refl
widen lo hi hi' (x ∷ xs) h k = ground (arith, widen lo hi hi' xs)

compact_start : (n d : ℕ) → 0 < n → is_compact n (start_run d) ≡ true
compact_start n d h = ground arith

compact_extend :
    (n : ℕ) (r : Run) (d : ℕ)
    → r.first ≤ r.last
    → r.last ≤ d
    → must_break n r d ≡ false
    → is_compact n r ≡ true
    → is_compact n (extend_run r d) ≡ true
unfolding must_break
compact_extend n r d h k go c =
    rw (every-append (λ x. leb r.first x && leb x d) r.days (d ∷ []))
      (ground (arith, widen r.first r.last d r.days k))

split_runs_compact :
    (n : ℕ) (r : Run) (ds : List ℕ)
    → 0 < n
    → r.first ≤ r.last
    → is_sorted_from r.last ds ≡ true
    → is_compact n r ≡ true
    → every (is_compact n) (split_runs n r ds) ≡ true
unfolding split_runs
split_runs_compact n r [] pos order ascends c = rw c
split_runs_compact n r (d ∷ ds) pos order ascends c = elim (Bool-cases (must_break n r d)) [
  | inl break ↦
      rw (break, split_runs)
        (rw c (
          split_runs_compact n (start_run d) ds pos (omega arith) (ground arith)
            (compact_start n d pos)))
  | inr go ↦
      rw (go, split_runs)
        (split_runs_compact n (extend_run r d) ds pos (ground arith) (ground arith)
          (compact_extend n r d order (ground arith) go c))
]

length-chunks : (f : Feed) (rs : List Run) → length (map (to_chunk f) rs) ≡ length rs
length-chunks f [] = refl
length-chunks f (r ∷ rs) = ap suc (length-chunks f rs)

compact_chunks :
    (f : Feed) (n : ℕ) (rs : List Run)
    → every (is_compact n) rs ≡ true
    → every (is_compact_chunk n) (map (to_chunk f) rs) ≡ true
compact_chunks f n [] h = refl
compact_chunks f n (r ∷ rs) h = ground (arith, compact_chunks f n rs)

plan_runs_compact :
    (n : ℕ) (ds : List ℕ)
    → 0 < n
    → is_sorted_from 0 ds ≡ true
    → every (is_compact n) (plan_runs n ds) ≡ true
unfolding plan_runs
plan_runs_compact n [] pos ascends = refl
plan_runs_compact n (d ∷ ds) pos ascends =
    split_runs_compact n (start_run d) ds pos (omega arith) (ground arith) (compact_start n d pos)

module _ (f : Feed) (start last n max_chunks now : ℕ) (t : Table) where
  missing : List ℕ
  missing = gaps f (plain_query start last 5000) now t

  runs : List Run
  runs = plan_runs n (sorted missing)

  chunks_hold :
      (x : ℕ) → any (λ c. contains c.days x) (reverse (map (to_chunk f) runs)) ≡ contains missing x
  unfolding runs
  chunks_hold x =
      any-reverse (λ (c : Chunk). contains c.days x) (map (to_chunk f) runs)
      ∙ any-chunks f runs x
      ∙ any-plan_runs n (sorted missing) x
      ∙ contains-sorted missing x

  all_taken : length runs ≤ max_chunks → length (reverse (map (to_chunk f) runs)) ≤ max_chunks
  all_taken h = rw (length-reverse (map (to_chunk f) runs)) (rw (length-chunks f runs) h)

  -- A day of a chunk of `plan` is one that `gaps` returns.
  pub plan_invents_nothing :
      (x : ℕ)
      → any (λ c. contains c.days x) (plan f start last n max_chunks now t) ≡ true
      → contains (gaps f (plain_query start last 5000) now t) x ≡ true
  unfolding plan runs missing
  plan_invents_nothing x h =
      sym (chunks_hold x) ∙ any-take (λ (c : Chunk). contains c.days x) max_chunks _ h

  -- Where the cap on the chunks cuts none off, the days of the chunks of `plan` are the days that
  -- `gaps` returns, each of them and no other.
  pub plan_exact :
      (x : ℕ)
      → length (plan_runs n (sorted (gaps f (plain_query start last 5000) now t))) ≤ max_chunks
      → any (λ c. contains c.days x) (plan f start last n max_chunks now t)
        ≡ contains (gaps f (plain_query start last 5000) now t) x
  unfolding plan runs missing
  plan_exact x fits =
      rw (take_all max_chunks (reverse (map (to_chunk f) runs)) (all_taken fits)) (chunks_hold x)

  -- With a positive span, every chunk of `plan` spans fewer than `chunk_days` days from its start to
  -- its end, and all its days lie between the two.
  pub plan_compact :
      0 < n → every (is_compact_chunk n) (plan f start last n max_chunks now t) ≡ true
  unfolding plan runs missing
  plan_compact pos = every-take (is_compact_chunk n) max_chunks _ (
      every-reverse (is_compact_chunk n) (map (to_chunk f) runs)
      ∙ compact_chunks f n runs (plan_runs_compact n (sorted missing) pos (sorted_ascends missing)))
