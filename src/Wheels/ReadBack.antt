-- ===== src/Wheels/ReadBack.antt =====
-- The loops of `validate` in code/backend/wheels.py over what `validate` has returned: segments and heads.
use grindstone.Prelude.{
  ℕ, suc, ◌≡◌, refl, Bool, true, false, ◌&&◌, some, List, [], ◌∷◌, map, every, contains, ◌==◌,
  nat_eq, text_eq, Text, arith, ok, ◌>>=◌, check, require, text_beq,
}
use grindstone.Unicode.{Unicode}
use grindstone.Json.{text, one_of, text_within, object_of}
use grindstone.Wheels.Vocabulary.{
  routes, tools, chart_tools, data_tools, kind_of, max_link_address, max_link_icon,
}
use grindstone.Wheels.Document.{
  Segment, to_wheel, to_page, run_tool, chart_tool, data_tool, symbol_of, to_address, announced,
  blank, segment_json, wheel_json, wheel_entries, Wheel,
}
use grindstone.Wheels.Segments.{
  is_wheel_id, is_ticker, is_link, clean_segment, read_segment, read_segments, located,
}
use grindstone.Wheels.Valid.{is_within, is_segment}
use grindstone.Wheels.Whole.{is_named}
use grindstone.Wheels.Validate.{Head, read_head}

pub one_of_known : (ts : List Text) (t : Text) → contains ts t ≡ true → one_of ts (text t) ≡ some t
unfolding one_of
one_of_known ts t h = rw h refl

pub text_within_fits :
    (lo hi : ℕ) (t : Text) → is_within lo hi t ≡ true → text_within lo hi (text t) ≡ some t
unfolding text_within
text_within_fits lo hi t h = rw h refl

pub and_left : (a b : Bool) → (a && b) ≡ true → a ≡ true
and_left a b h = ground arith

pub and_right : (a b : Bool) → (a && b) ≡ true → b ≡ true
and_right a b h = ground arith

pub label_fits :
    (label : Text) (b : Bool)
    → (is_within 0 20 label && b) ≡ true
    → text_within 0 20 (text label) ≡ some label
label_fits label b h = text_within_fits 0 20 label (and_left (is_within 0 20 label) b h)

-- What the first loop reads of a wheel that was stored.
abbrev pub head_of : Wheel → Head
head_of w = record {
  head_id = w.id;
  head_name = w.name;
  head_symbol = w.symbol;
  entries = object_of (wheel_entries w);
}

module _ (u : Unicode) where
  -- A ticker that is stored is a ticker still, and of no other case: `upper` may have made it longer.
  abbrev pub is_settled : Segment → Bool
  is_settled (symbol_of label t) = is_within 1 8 t && (is_ticker u t && (u.uppercase t == t))
  is_settled _ = true

  read_segment_json :
      (ids : List Text) (s : Segment)
      → is_segment u ids s ≡ true
      → is_settled s ≡ true
      → read_segment u ids (segment_json s) ≡ ok s
  unfolding read_segment clean_segment text_beq kind_of ◌>>=◌ require check
  read_segment_json ids (to_wheel label t) h k =
      rw (label_fits label _ h, one_of_known ids t (and_right (is_within 0 20 label) _ h)) refl
  read_segment_json ids (to_page label t) h k =
      rw (label_fits label _ h, one_of_known routes t (and_right (is_within 0 20 label) _ h)) refl
  read_segment_json ids (run_tool label t) h k =
      rw (label_fits label _ h, one_of_known tools t (and_right (is_within 0 20 label) _ h)) refl
  read_segment_json ids (chart_tool label t) h k =
      rw (label_fits label _ h, one_of_known chart_tools t (and_right (is_within 0 20 label) _ h))
        refl
  read_segment_json ids (data_tool label t) h k =
      rw (label_fits label _ h, one_of_known data_tools t (and_right (is_within 0 20 label) _ h))
        refl
  read_segment_json ids (symbol_of label t) h k =
      let fits = text_within_fits 1 8 t (and_left (is_within 1 8 t) _ k) in
      let ticks = and_left (is_ticker u t) _ (and_right (is_within 1 8 t) _ k) in
      let upper = and_right (is_ticker u t) _ (and_right (is_within 1 8 t) _ k) in
      rw (text_within_fits 0 20 label h, fits, ticks, (text_eq.same_iff (u.uppercase t) t).0 upper)
        refl
  read_segment_json ids (to_address label address []) h k =
      let rest = and_right (is_within 0 20 label) _ h in
      let leads = and_right (is_within 1 max_link_address address) _ rest in
      let small = and_right (is_link u address) _ leads in
      rw
        (
          label_fits label _ h,
          text_within_fits 1 max_link_address address
              (and_left (is_within 1 max_link_address address) _ rest),
          and_left (is_link u address) _ leads,
          text_within_fits 0 max_link_icon [] (and_left (is_within 0 max_link_icon []) _ small),
        )
        refl
  read_segment_json ids (to_address label address (c ∷ icon)) h k =
      let rest = and_right (is_within 0 20 label) _ h in
      let leads = and_right (is_within 1 max_link_address address) _ rest in
      let small = and_right (is_link u address) _ leads in
      rw
        (
          label_fits label _ h,
          text_within_fits 1 max_link_address address
              (and_left (is_within 1 max_link_address address) _ rest),
          and_left (is_link u address) _ leads,
          text_within_fits 0 max_link_icon (c ∷ icon)
              (and_left (is_within 0 max_link_icon (c ∷ icon)) _ small),
          and_right (is_within 0 max_link_icon (c ∷ icon)) _ small,
        )
        refl
  read_segment_json ids (announced label) h k = rw (text_within_fits 0 20 label h) refl
  read_segment_json ids (blank label) h k = rw (text_within_fits 0 20 label h) refl

  pub read_segments_json :
      (ids : List Text) (id : Text) (n : ℕ) (ss : List Segment)
      → every (is_segment u ids) ss ≡ true
      → every is_settled ss ≡ true
      → read_segments u ids id n (map segment_json ss) ≡ ok ss
  unfolding read_segments ◌>>=◌ located
  read_segments_json ids id n [] h k = refl
  read_segments_json ids id n (s ∷ ss) h k =
      rw
        (
          read_segment_json ids s (and_left (is_segment u ids s) _ h) (and_left (is_settled s) _ k),
          read_segments_json ids id (suc n) ss (and_right (is_segment u ids s) _ h)
              (and_right (is_settled s) _ k),
        )
        refl

  pub read_head_json :
      (seen : List Text) (w : Wheel)
      → is_named u w.id w.name w.symbol ≡ true
      → contains seen w.id ≡ false
      → read_head u seen (wheel_json w) ≡ ok (head_of w)
  unfolding read_head ◌>>=◌ require check text_beq
  read_head_json seen w h k =
      let fits = and_left (is_within 1 32 w.id && is_wheel_id u w.id) _ h in
      let named = and_right (is_within 1 32 w.id && is_wheel_id u w.id) _ h in
      rw
        (
          text_within_fits 1 32 w.id (and_left (is_within 1 32 w.id) _ fits),
          and_right (is_within 1 32 w.id) _ fits,
          k,
          text_within_fits 1 24 w.name (and_left (is_within 1 24 w.name) _ named),
          text_within_fits 1 4 w.symbol (and_right (is_within 1 24 w.name) _ named),
        )
        refl
