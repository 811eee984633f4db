-- ===== src/Depth/Pending.antt =====
-- A symbol is queued or filled at most once at a time (code/backend/depth.py).
use grindstone.Prelude.{
  ℕ, ◌+◌, ◌≡◌, refl, sym, ap, ◌∙◌, ◌&&◌, not, Option, none, some, List, [], ◌∷◌, ◌++◌, arith,
  contains, contains-keep, ◌==◌, nat_eq, text_eq, text_beq_iff, Text, if◌then◌else◌, Bool-cases,
  inl, inr,
}
use grindstone.Depth.Queue.{
  Deepener, idle, clean_symbol, request, submit, take_from, end_fill, Event, submitting, taking,
  ending, advance, advance_all,
}

abbrev pub queued : List (ℕ × Text) → Text → ℕ
queued [] t = 0
queued ((user, s) ∷ rest) t = (if s == t then 1 else 0) + queued rest t

abbrev pub being_filled : Option Text → Text → ℕ
being_filled none t = 0
being_filled (some s) t = if s == t then 1 else 0

-- How often a symbol is queued or being filled.
abbrev pub pending : Deepener → Text → ℕ
pending s t = being_filled s.filling t + queued s.queue t

abbrev pub once_if_seen : List Text → Text → ℕ
once_if_seen seen t = if contains seen t then 1 else 0

queued-append :
    (q : List (ℕ × Text)) (user : ℕ) (sym t : Text)
    → queued (q ++ (request user sym ∷ [])) t ≡ queued q t + (if sym == t then 1 else 0)
queued-append [] user sym t = ground arith
queued-append ((u, s) ∷ q) user sym t = ground (arith, queued-append q user sym t)

queued_more :
    (n : ℕ) (q : List (ℕ × Text)) (user : ℕ) (sym t : Text)
    → n + queued (q ++ (request user sym ∷ [])) t ≡ n + queued q t + (if sym == t then 1 else 0)
queued_more n q user sym t = rw (queued-append q user sym t) (omega arith)

pub IsExact : Deepener → Type 0
IsExact s = (t : Text) → pending s t ≡ once_if_seen s.seen t

submit-IsExact :
    (user : ℕ) (symbol : Text) (s : Deepener) → IsExact s → IsExact (submit user symbol s).1
unfolding submit IsExact
submit-IsExact user symbol s h t = elim (Bool-cases (clean_symbol symbol == [])) [
  | inl empty ↦ rw empty (h t)
  | inr named ↦ elim (Bool-cases (contains s.seen (clean_symbol symbol))) [
    | inl known ↦ rw (named, known) (h t)
    | inr fresh ↦
        rw (named, fresh)
          (queued_more (being_filled s.filling t) s.queue user (clean_symbol symbol) t
            ∙ ground (
              arith,
              h t,
              fresh,
              text_beq_iff (clean_symbol symbol) t,
              λ (q : clean_symbol symbol ≡ t). ap (contains s.seen) q,
            ))
  ]
]

take-IsExact :
    (f : Option Text) (q : List (ℕ × Text)) (s : Deepener)
    → s.filling ≡ f
    → s.queue ≡ q
    → IsExact s
    → IsExact (take_from f q s)
unfolding IsExact
take-IsExact none [] s e e' h t = h t
take-IsExact none ((u, k) ∷ q) s e e' h t =
    ground (arith, h t, ap (λ f. being_filled f t) e, ap (λ q. queued q t) e')
take-IsExact (some f) q s e e' h t = h t

end-IsExact : (f : Option Text) (s : Deepener) → s.filling ≡ f → IsExact s → IsExact (end_fill f s)
unfolding IsExact
end-IsExact none s e h t = h t
end-IsExact (some f) s e h t =
    rw (contains-keep (λ k. not (k == f)) s.seen t)
      (ground (arith, h t, ap (λ g. being_filled g t) e, text_beq_iff f t, text_beq_iff t f))

advance-IsExact : (e : Event) (s : Deepener) → IsExact s → IsExact (advance e s)
unfolding advance
advance-IsExact (submitting user symbol) s h = submit-IsExact user symbol s h
advance-IsExact taking s h = take-IsExact s.filling s.queue s refl refl h
advance-IsExact ending s h = end-IsExact s.filling s refl h

advance_all-IsExact : (es : List Event) (s : Deepener) → IsExact s → IsExact (advance_all es s)
unfolding advance_all
advance_all-IsExact [] s h = h
advance_all-IsExact (e ∷ es) s h = advance_all-IsExact es (advance e s) (advance-IsExact e s h)

-- Whatever is submitted, and however the worker's steps fall between, a symbol that is marked as seen
-- is queued or being filled exactly once, and any other not at all.
pub pending_exact :
    (es : List Event) (t : Text)
    → pending (advance_all es idle) t ≡ (if contains (advance_all es idle).seen t then 1 else 0)
unfolding IsExact
pending_exact es t = advance_all-IsExact es idle (λ k. refl) t

-- After any steps, a submit is accepted exactly if the symbol is not blank and is neither queued nor
-- being filled.
pub submit_exact :
    (es : List Event) (user : ℕ) (symbol : Text)
    → let s = advance_all es idle in
      (submit user symbol s).0
      ≡ (not (clean_symbol symbol == []) && pending s (clean_symbol symbol) == 0)
unfolding submit
submit_exact es user symbol =
    let s = advance_all es idle in
    let exact = pending_exact es (clean_symbol symbol) in
    elim (Bool-cases (clean_symbol symbol == [])) [
      | inl empty ↦ rw empty refl
      | inr named ↦ elim (Bool-cases (contains s.seen (clean_symbol symbol))) [
        | inl known ↦ rw (named, known) (ground (arith, exact, known))
        | inr fresh ↦ rw (named, fresh) (ground (arith, exact, fresh))
      ]
    ]
