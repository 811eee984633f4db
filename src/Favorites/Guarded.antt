-- ===== src/Favorites/Guarded.antt =====
-- What `fetch_icon` of code/backend/favorites.py contacts, and what it returns.
use grindstone.Prelude.{
  ℕ, zero, suc, ◌+◌, ◌≤◌, ◌≡◌, refl, Bool, true, false, ◌&&◌, Option, none, some, ◌==◌, nat_eq,
  List, [], ◌∷◌, ◌++◌, arith, every, ltb, leb, not, length, length-append, Text, Bool-cases, inl,
  inr, if◌then◌else◌,
}
use grindstone.Favorites.Icon.{
  max_icon_bytes, Answer, redirect, replied, fault, Web, Icon, read_chunks, icon_of, is_text,
  media_of, read_reply, contacted_first, follow, hops, fetch_icon,
}

-- Every address was an http(s) address of a host that is not blocked, and there are `n` at most.
abbrev pub is_guarded : {U : Type 0} → Web U → ℕ → List U → Bool
is_guarded w n us = every (λ u. w.is_http u && not (w.is_blocked u)) us && leb (length us) n

-- The icon, if there is one, has some bytes and no more than the cap.
abbrev pub is_small : Option Icon → Bool
is_small none = true
is_small (some icon) = ltb 0 (length icon.bytes) && leb (length icon.bytes) max_icon_bytes

abbrev at_most : Option (List ℕ) → Bool
at_most none = true
at_most (some got) = leb (length got) max_icon_bytes

read_chunks_small :
    (got : List ℕ) (cs : List (List ℕ))
    → length got ≤ max_icon_bytes
    → at_most (read_chunks got cs) ≡ true
unfolding read_chunks
read_chunks_small got [] h = ground arith
read_chunks_small got (c ∷ cs) h = elim (Bool-cases (ltb max_icon_bytes (length got + length c))) [
  | inl large ↦ rw large refl
  | inr small ↦
      rw small (read_chunks_small (got ++ c) cs (rw (length-append got c) (ground (arith, small))))
]

icon_of_small :
    (media : Text) (o : Option (List ℕ)) → at_most o ≡ true → is_small (icon_of media o) ≡ true
icon_of_small media none h = refl
icon_of_small media (some []) h = refl
icon_of_small media (some (b ∷ bytes)) h = ground (arith, h)

unless_small :
    (b : Bool) (o : Option Icon) → is_small o ≡ true → is_small (if b then none else o) ≡ true
unless_small true o h = refl
unless_small false o h = h

read_reply_small :
    (status : ℕ) (header : Text) (chunks : List (List ℕ))
    → is_small (read_reply status header chunks) ≡ true
unfolding read_reply
read_reply_small status header chunks =
    let media = media_of header in
    let icon = icon_of media (read_chunks [] chunks) in
    unless_small (not (status == 200)) (if is_text media then none else icon) (
      unless_small (is_text media) icon
        (icon_of_small media (read_chunks [] chunks) (read_chunks_small [] chunks (omega arith))))

module _ {U : Type 0} (w : Web U) where
  abbrev is_fine : ℕ → Option Icon × List U → Bool
  is_fine n (icon, us) = is_small icon && is_guarded w n us

  follow_fine :
      (n : ℕ) (later : U → Option Icon × List U) (a : Answer U)
      → ((u : U) → is_fine n (later u) ≡ true)
      → is_fine n (follow later a) ≡ true
  follow_fine n later (redirect none) h = ground arith
  follow_fine n later (redirect (some next)) h = h next
  follow_fine n later (replied status header chunks) h =
      ground (arith, read_reply_small status header chunks)
  follow_fine n later fault h = ground arith

  contacted_fine :
      (n : ℕ) (u : U) (r : Option Icon × List U)
      → w.is_http u ≡ true
      → w.is_blocked u ≡ false
      → is_fine n r ≡ true
      → is_fine (suc n) (contacted_first u r) ≡ true
  contacted_fine n u (icon, us) http free h = ground arith

  hops_fine : (left : ℕ) (u : U) → is_fine left (hops w left u) ≡ true
  unfolding hops
  hops_fine zero u = refl
  hops_fine (suc left) u = elim (Bool-cases (w.is_http u)) [
    | inr other ↦ rw other (ground arith)
    | inl http ↦ elim (Bool-cases (w.is_blocked u)) [
      | inl blocked ↦ rw (http, blocked) (ground arith)
      | inr free ↦
          rw (http, free)
            (contacted_fine left u (follow (λ next. hops w left next) (w.request u)) http free
              (follow_fine left (λ next. hops w left next) (w.request u) (λ k. hops_fine left k)))
    ]
  ]

  -- `fetch_icon` contacts four addresses at most, redirects included, each of them an http(s) address
  -- of a host that is not blocked; and an icon that it returns has some bytes and 64 KB at most.
  pub fetch_icon_guarded :
      (u : U) → (is_small (fetch_icon w u).0 ≡ true) × (is_guarded w 4 (fetch_icon w u).1 ≡ true)
  unfolding fetch_icon
  fetch_icon_guarded u = elim (Bool-cases (w.is_http u)) [
    | inr other ↦ rw other (refl, refl)
    | inl http ↦ rw http (ground (arith, hops_fine 4 u), ground (arith, hops_fine 4 u))
  ]
