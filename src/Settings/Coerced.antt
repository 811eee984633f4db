-- ===== src/Settings/Coerced.antt =====
-- A value that `_coerce` of code/backend/settings.py returned is one that it leaves as it is.
use grindstone.Prelude.{
  ℕ, zero, suc, ◌≤◌, ◌≡◌, refl, Bool, true, false, not, Option, none, some, List, [], ◌∷◌, ltb, leb,
  take, take_all, length, every, contains, ◌==◌, nat_eq, text_eq, Text, text_beq, Result, ok, ◌>>=◌,
  bind-eq-ok, arith, Bool-cases, inl, inr,
}
use grindstone.Json.{
  Float, finite, infinite, nan, Json, boolean, float, text, object, truth, one_of,
}
use grindstone.Settings.Spec.{
  SettingKind, switch, number, choices, path, blob, SettingSpec, setting_specs, multi_chart_spec,
}
use grindstone.Settings.Store.{
  Numbers, Raised, less, lesser, greater, to_float, coerce, spec_in, coerce_by, coerce_key,
}

less_irrefl : (f : Float) → less f f ≡ false
less_irrefl (finite true a s) = ground arith
less_irrefl (finite false a s) = ground arith
less_irrefl (infinite true) = refl
less_irrefl (infinite false) = refl
less_irrefl nan = refl

clamp_twice :
    (low high v : Float)
    → less low high ≡ true
    → greater low (lesser high (greater low (lesser high v))) ≡ greater low (lesser high v)
unfolding lesser greater
clamp_twice low high v h = elim (Bool-cases (less v high)) [
  | inl below ↦ elim (Bool-cases (less low v)) [
    | inl above ↦ rw (below, above) (rw (below, above) refl)
    | inr under ↦ rw (below, under) (rw (h, less_irrefl low) refl)
  ]
  | inr over ↦ rw (over, h) (rw (less_irrefl high, h) refl)
]

-- A default that the coercion leaves as it is, and bounds in their order.
abbrev pub is_proper : Numbers → SettingKind → Json → Bool
is_proper py switch otherwise = true
is_proper py (number low high step) otherwise = less low high
is_proper py (choices names) (text t) = contains names t
is_proper py (choices names) _ = false
is_proper py path (text t) = leb (length t) 1024
is_proper py path _ = false
is_proper py blob (object f) = not (ltb 8192 (py.dumped_size (object f)))
is_proper py blob _ = false

length-take : (n : ℕ) (t : Text) → length (take n t) ≤ n
length-take zero t = omega arith
length-take (suc n) [] = omega arith
length-take (suc n) (c ∷ t) = omega (arith, length-take n t)

cut_again : (t : Text) → take 1024 (take 1024 t) ≡ take 1024 t
cut_again t = take_all 1024 (take 1024 t) (length-take 1024 t)

-- What a search found, if anything, passes the test.
abbrev holds? : (SettingSpec → Bool) → Option SettingSpec → Bool
holds? p none = true
holds? p (some s) = p s

module _ (py : Numbers) where
  -- A value that is left as it is, by another name.
  moved :
      (k : SettingKind) (otherwise x w : Json)
      → ◌≡◌ {A = Result Raised Json} (ok x) (ok w)
      → coerce py k otherwise x ≡ ok x
      → coerce py k otherwise w ≡ ok w
  moved k otherwise x w e h = let same : x ≡ w = cc e in rw (← same) h

  chosen_default :
      (names : List Text) (otherwise : Json)
      → is_proper py (choices names) otherwise ≡ true
      → coerce py (choices names) otherwise otherwise ≡ ok otherwise
  unfolding coerce one_of
  chosen_default names (text t) h = rw h refl
  chosen_default names _ h = cc

  path_default :
      (otherwise : Json)
      → is_proper py path otherwise ≡ true
      → coerce py path otherwise otherwise ≡ ok otherwise
  unfolding coerce
  path_default (text t) h = rw (take_all 1024 t (ground (arith, h))) refl
  path_default _ h = cc

  blob_default :
      (otherwise : Json)
      → is_proper py blob otherwise ≡ true
      → coerce py blob otherwise otherwise ≡ ok otherwise
  unfolding coerce
  blob_default (object f) h = ground (arith, h)
  blob_default _ h = cc

  coerce_twice :
      (k : SettingKind) (otherwise v w : Json)
      → is_proper py k otherwise ≡ true
      → coerce py k otherwise v ≡ ok w
      → coerce py k otherwise w ≡ ok w
  unfolding coerce one_of
  coerce_twice switch otherwise v w h e = moved switch otherwise (boolean (truth v)) w e refl
  coerce_twice (number low high step) otherwise v w h e =
      let (f, read, e') =
        bind-eq-ok (to_float py v) (λ f. ok (float (greater low (lesser high f)))) e in
      moved (number low high step) otherwise (float (greater low (lesser high f))) w e'
        (unfold to_float ◌>>=◌ in rw (clamp_twice low high f h) refl)
  coerce_twice (choices names) otherwise (text t) w h e = elim (Bool-cases (contains names t)) [
    | inl is ↦ moved (choices names) otherwise (text t) w (rw is at e) (rw is refl)
    | inr other ↦
        moved (choices names) otherwise otherwise w (rw other at e)
          (chosen_default names otherwise h)
  ]
  coerce_twice (choices names) otherwise _ w h e =
      moved (choices names) otherwise otherwise w e (chosen_default names otherwise h)
  coerce_twice path otherwise (text t) w h e =
      moved path otherwise (text (take 1024 t)) w e (rw (cut_again t) refl)
  coerce_twice path otherwise _ w h e =
      moved path otherwise otherwise w e (path_default otherwise h)
  coerce_twice blob otherwise (object f) w h e =
      elim (Bool-cases (ltb 8192 (py.dumped_size (object f)))) [
        | inl large ↦ moved blob otherwise otherwise w (rw large at e) (blob_default otherwise h)
        | inr small ↦ moved blob otherwise (object f) w (rw small at e) (rw small refl)
      ]
  coerce_twice blob otherwise _ w h e =
      moved blob otherwise otherwise w e (blob_default otherwise h)

  by_spec_twice :
      (o : Option SettingSpec) (v w : Json)
      → holds? (λ s. is_proper py s.kind s.default) o ≡ true
      → coerce_by py o v ≡ ok w
      → coerce_by py o w ≡ ok w
  by_spec_twice none v w h e = cc
  by_spec_twice (some s) v w h e = coerce_twice s.kind s.default v w h e

spec_in-holds :
    (p : SettingSpec → Bool) (ss : List SettingSpec) (key : Text)
    → every p ss ≡ true
    → holds? p (spec_in ss key) ≡ true
spec_in-holds p [] key h = refl
spec_in-holds p (s ∷ ss) key h = elim (Bool-cases (s.key == key)) [
  | inl is ↦ rw is (ground (arith, h))
  | inr other ↦ rw other (spec_in-holds p ss key (ground (arith, h)))
]

-- The default of `multi_chart`, as a value.
abbrev pub chart_state : Json
chart_state = multi_chart_spec.default

specs_are_proper :
    (py : Numbers)
    → py.dumped_size chart_state ≤ 8192
    → every (λ s. is_proper py s.kind s.default) setting_specs ≡ true
unfolding setting_specs text_beq
specs_are_proper py h = ground (arith, h)

-- A value that `_coerce` returned is one that `_coerce` leaves as it is, for every key and whatever it
-- was made from, when the default of `multi_chart` is within the limit.
pub coerce_key_twice :
    (py : Numbers) (key : Text) (v w : Json)
    → py.dumped_size chart_state ≤ 8192
    → coerce_key py key v ≡ ok w
    → coerce_key py key w ≡ ok w
unfolding coerce_key
coerce_key_twice py key v w small e =
    by_spec_twice py (spec_in setting_specs key) v w
      (spec_in-holds (λ s. is_proper py s.kind s.default) setting_specs key
        (specs_are_proper py small))
      e
