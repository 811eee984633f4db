-- ===== src/Favorites/Icon.antt =====
-- `fetch_icon` of code/backend/favorites.py. The addresses, their parsing and joining, the guard on a
-- host and the network are parameters: an address is of any type, with a test of its scheme, a test
-- of its host (`_blocked_host`), and what a request for it brings.
use grindstone.Prelude.{
  ℕ, zero, suc, ◌+◌, Bool, ◌||◌, Option, none, some, List, [], ◌∷◌, ◌++◌, ltb, not, length, ◌==◌,
  nat_eq, Text, text_eq, codes, starts_with, strip, if◌then◌else◌,
}

abbrev pub max_icon_bytes : ℕ
max_icon_bytes = 65536

abbrev pub max_redirects : ℕ
max_redirects = 3

-- What a request brings: a redirect to the joined address, if it names one; a status, the header
-- "content-type" and the chunks of the body; or an exception.
pub data Answer (U : Type 0) : Type 0 where
  redirect : Option U → Answer U
  replied : ℕ → Text → List (List ℕ) → Answer U
  fault : Answer U

pub record Web (U : Type 0) : Type 0 where
  pub is_http : U → Bool
  pub is_blocked : U → Bool
  pub request : U → Answer U

-- The media type and the bytes of the data URI.
pub record Icon : Type 0 where
  pub media : Text
  pub bytes : List ℕ

-- `.split(";")[0]`
abbrev pub before_semicolon : Text → Text
before_semicolon [] = []
before_semicolon (c ∷ s) = if c == b';' then [] else c ∷ before_semicolon s

-- The loop over the chunks, with the bytes so far; `none` is an icon that is too large.
unfoldable pub read_chunks : List ℕ → List (List ℕ) → Option (List ℕ)
read_chunks got [] = some got
read_chunks got (c ∷ cs) =
    let rest = read_chunks (got ++ c) cs in
    if ltb max_icon_bytes (length got + length c) then none else rest

abbrev pub icon_of : Text → Option (List ℕ) → Option Icon
icon_of media none = none
icon_of media (some []) = none
icon_of media (some (b ∷ bytes)) = some (record {
  media = if starts_with media (codes "image/") then media else codes "image/x-icon";
  bytes = b ∷ bytes;
})

abbrev pub is_text : Text → Bool
is_text media = starts_with media (codes "text/") || starts_with media (codes "application/json")

abbrev pub media_of : Text → Text
media_of header = strip (before_semicolon header)

-- `""` is `none`.
unfoldable pub read_reply : ℕ → Text → List (List ℕ) → Option Icon
read_reply status header chunks =
    if not (status == 200)
    then none
    else let media = media_of header in
      if is_text media then none else icon_of media (read_chunks [] chunks)

module _ {U : Type 0} where
  abbrev pub contacted_first : U → Option Icon × List U → Option Icon × List U
  contacted_first u (icon, us) = (icon, u ∷ us)

  -- What a request leads to: `later` is the next round, for the address of a redirect.
  abbrev pub follow : (U → Option Icon × List U) → Answer U → Option Icon × List U
  follow later (redirect none) = (none, [])
  follow later (redirect (some next)) = later next
  follow later (replied status header chunks) = (read_reply status header chunks, [])
  follow later fault = (none, [])

  -- The loop over the hops, with those that are left: the icon, and the addresses that were requested.
  unfoldable pub hops : Web U → ℕ → U → Option Icon × List U
  hops w zero u = (none, [])
  hops w (suc left) u =
      if not (w.is_http u)
      then (none, [])
      else if w.is_blocked u
      then (none, [])
      else contacted_first u (follow (λ next. hops w left next) (w.request u))

  -- `fetch_icon`, of an address that could be parsed.
  unfoldable pub fetch_icon : Web U → U → Option Icon × List U
  unfolding hops
  fetch_icon w u = if not (w.is_http u) then (none, []) else hops w (max_redirects + 1) u
