-- ===== src/Depth/Queue.antt =====
-- The queue of `Deepener` (code/backend/depth.py): `submit`, and the worker's loop as its two steps,
-- taking a symbol and ending its fill. A submit is one step: nothing but its own symbol's place in
-- the queue depends on the time between its lock and its `put`.
use grindstone.Prelude.{
  ℕ, Bool, true, false, not, Option, none, some, List, [], ◌∷◌, ◌++◌, contains, keep, ◌==◌, text_eq,
  Text, upper, strip, if◌then◌else◌,
}

pub record Deepener : Type 0 where
  pub queue : List (ℕ × Text)
  pub seen : List Text
  pub filling : Option Text

abbrev pub idle : Deepener
idle = record { queue = []; seen = []; filling = none }

abbrev pub clean_symbol : Text → Text
clean_symbol symbol = strip (upper symbol)

abbrev pub request : ℕ → Text → ℕ × Text
request user sym = (user, sym)

unfoldable pub submit : ℕ → Text → Deepener → Bool × Deepener
submit user symbol s =
    let sym = clean_symbol symbol in
    if sym == []
    then (false, s)
    else if contains s.seen sym
    then (false, s)
    else (true, record s { seen = sym ∷ s.seen; queue = s.queue ++ (request user sym ∷ []) })

-- `self._q.get(...)`, when the worker is free.
abbrev pub take_from : Option Text → List (ℕ × Text) → Deepener → Deepener
take_from none ((user, sym) ∷ rest) s = record s { queue = rest; filling = some sym }
take_from _ _ s = s

-- The `finally` of the loop: the fill has ended, well or with an exception.
abbrev pub end_fill : Option Text → Deepener → Deepener
end_fill none s = s
end_fill (some sym) s = record s { filling = none; seen = keep (λ t. not (t == sym)) s.seen }

pub data Event : Type 0 where
  submitting : ℕ → Text → Event
  taking ending : Event

unfoldable pub advance : Event → Deepener → Deepener
advance (submitting user symbol) s = (submit user symbol s).1
advance taking s = take_from s.filling s.queue s
advance ending s = end_fill s.filling s

unfoldable pub advance_all : List Event → Deepener → Deepener
advance_all [] s = s
advance_all (e ∷ es) s = advance_all es (advance e s)
