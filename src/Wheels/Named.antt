-- ===== src/Wheels/Named.antt =====
-- The segment that a refusal of code/backend/wheels.py names.
use grindstone.Prelude.{
  ℕ, suc, ◌+◌, ◌≡◌, refl, Bool, true, false, List, [], ◌∷◌, ◌++◌, length, every, Text, arith,
  Result, ok, refused, ◌>>=◌, ◌∙◌, ap,
}
use grindstone.Unicode.{Unicode}
use grindstone.Json.{Json}
use grindstone.Wheels.Document.{Segment}
use grindstone.Wheels.Segments.{
  SegmentFault, WheelFault, at_segment, located, read_segment, read_segments,
}

abbrev pub succeeds : {E A : Type 0} → Result E A → Bool
succeeds (ok a) = true
succeeds (refused e) = false

module _ (u : Unicode) (ids : List Text) (id : Text) where
  after_segment :
      (r : Result SegmentFault Segment) (n : ℕ) (later : Result WheelFault (List Segment))
      (e : WheelFault)
      → succeeds r ≡ true
      → later ≡ refused e
      → (located id n r >>= λ s. later >>= λ rest. ok (s ∷ rest)) ≡ refused e
  unfolding ◌>>=◌ located
  after_segment (ok s) n later e h k = rw k refl
  after_segment (refused fault) n later e h k = cc

  -- A list of segments is refused at the first one that is no segment: the refusal has the reason of
  -- that one, the wheel, and the number of the one, counted from the number that the list starts at.
  pub read_segments_first :
      (n : ℕ) (before : List Json) (j : Json) (after : List Json) (fault : SegmentFault)
      → every (λ b. succeeds (read_segment u ids b)) before ≡ true
      → read_segment u ids j ≡ refused fault
      → read_segments u ids id n (before ++ j ∷ after)
        ≡ refused (at_segment id (n + length before) fault)
  unfolding read_segments
  read_segments_first n [] j after fault h k = rw k (unfold ◌>>=◌ located in ground arith)
  read_segments_first n (b ∷ before) j after fault h k =
      after_segment (read_segment u ids b) n (read_segments u ids id (suc n) (before ++ j ∷ after))
        (at_segment id (n + length (b ∷ before)) fault) (ground (arith, h))
        (read_segments_first (suc n) before j after fault (ground (arith, h)) k
          ∙ ap (λ m. refused (at_segment id m fault)) (omega arith))
