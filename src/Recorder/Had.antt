-- ===== src/Recorder/Had.antt =====
-- Which days a mark or a reconciliation makes had (code/backend/coverage.py), for the chain backfill of
-- code/backend/recorder.py.
use grindstone.Prelude.{
  ℕ, ◌+◌, ◌≡◌, sym, ap, ◌∙◌, Option-cases, Bool, true, false, ◌&&◌, ◌||◌, not, Option, none, some,
  List, [], ◌∷◌, String, ◌==◌, nat_eq, arith, Bool-cases, inl, inr,
}
use grindstone.Coverage.{
  State, have, absent, unknown, state_eq, Feed, feed_eq, Table, stored, state_of, claim,
  may_claim_absent, mark, reconcile,
}
use grindstone.Coverage.Claims.{state_of-mark}

abbrev pub is_had : Table → Feed → ℕ → Bool
is_had t g x = state_of t g x == have

abbrev pub is_listed : List (Option ℕ) → ℕ → Bool
is_listed [] x = false
is_listed (none ∷ ds) x = is_listed ds x
is_listed (some d ∷ ds) x = (d == x) || is_listed ds x

not_had :
    (t : Table) (f : Feed) (s : State) (detail : String)
    → ((claim t f s detail).0 == have) ≡ true
    → (s == have) ≡ true
unfolding claim
not_had t f s detail h = elim (Bool-cases ((s == absent) && not (may_claim_absent t f))) [
  | inl less ↦ absurd (no_have (rw less at h))
  | inr as_is ↦ rw as_is at h
]
  where
    no_have : (unknown == have) ≡ true → ⊥
    no_have e = cc

-- A mark makes a day had only if it says so.
pub had-mark :
    (f g : Feed) (p x : ℕ) (s : State) (n : ℕ) (detail : String) (now : ℕ) (t u : Table)
    → mark f p s n detail now t ≡ some u
    → is_had u g x ≡ true
    → (is_had t g x || ((s == have) && (p == x))) ≡ true
had-mark f g p x s n detail now t u e h =
    let now_is = state_of-mark f g p x s n detail now t e in
    elim (Bool-cases ((stored f == stored g) && (p == x))) [
      | inl here ↦
          let says =
            not_had t f s detail (rw here at (ap (λ (z : State). z == have) (sym now_is) ∙ h)) in
          rw says (ground (arith, here))
      | inr apart ↦
          let before : is_had t g x ≡ true =
            rw apart at (ap (λ (z : State). z == have) (sym now_is) ∙ h) in
          rw before (ground arith)
    ]

pub had-reconcile :
    (f g : Feed) (detail : String) (now x : ℕ) (ds : List (Option ℕ)) (n : ℕ) (t : Table) (m : ℕ)
    (u : Table)
    → reconcile f detail now ds n t ≡ some (m, u)
    → is_had u g x ≡ true
    → (is_had t g x || is_listed ds x) ≡ true
unfolding reconcile
had-reconcile f g detail now x [] n t m u e h =
    let same : t ≡ u = cc e in rw same (ground (arith, h))
had-reconcile f g detail now x (none ∷ ds) n t m u e h =
    had-reconcile f g detail now x ds n t m u e h
had-reconcile f g detail now x (some d ∷ ds) n t m u e h =
    elim (Option-cases (mark f d have 1 detail now t)) [
      | inl fails ↦ absurd (no_result (rw (reconcile, fails) at e))
      | inr (v, marks) ↦
          let later =
            had-reconcile f g detail now x ds (n + 1) v m u (rw (reconcile, marks) at e) h in
          ground (arith, later, had-mark f g d x have 1 detail now t v marks)
    ]
  where
    no_result : ◌≡◌ {A = Option (ℕ × Table)} none (some (m, u)) → ⊥
    no_result q = cc
