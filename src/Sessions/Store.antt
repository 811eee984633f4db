-- ===== src/Sessions/Store.antt =====
-- The state and the methods of `SessionStore` (code/backend/sessions.py). Each method holds the lock
-- for its whole body, so it is one step. A time is a number of ticks of the monotonic clock. The
-- random token is an argument of `create`.
use grindstone.Prelude.{
  ℕ, ◌+◌, ◌-◌, String, Bool, true, ◌&&◌, Option, none, some, List, [], ◌∷◌, map, ltb, keep, length,
  ◌==◌, nat_eq, string_eq, if◌then◌else◌,
}

-- `SessionSnapshot`: it holds a copy of the key.
pub record Snapshot : Type 0 where
  pub user_id : ℕ
  pub username : String
  pub dek : List ℕ

-- `_Entry`, with the token that it stands under. `buffer` is the address of its `bytearray`.
pub record Entry : Type 0 where
  pub token : String
  pub user_id : ℕ
  pub username : String
  pub buffer : ℕ
  pub last_seen : ℕ

-- The store, with the byte arrays that were made for it: `next` is the first address not in use.
pub record Store : Type 0 where
  pub heap : ℕ → List ℕ
  pub next : ℕ
  pub by_token : List Entry
  pub idle_seconds : ℕ

-- `SessionStore(idle_seconds)`
abbrev pub new_store : ℕ → Store
new_store idle = record { heap = λ a. []; next = 0; by_token = []; idle_seconds = idle }

abbrev pub find : String → List Entry → Option Entry
find tk [] = none
find tk (e ∷ es) = if e.token == tk then some e else find tk es

abbrev pub pop : String → List Entry → List Entry
pop tk [] = []
pop tk (e ∷ es) = if e.token == tk then es else e ∷ pop tk es

-- `self._by_token[token] = ...`
abbrev pub put : Entry → List Entry → List Entry
put e [] = e ∷ []
put e (x ∷ xs) = if x.token == e.token then e ∷ xs else x ∷ put e xs

-- `e.last_seen = now`
abbrev pub touch : String → ℕ → List Entry → List Entry
touch tk now [] = []
touch tk now (e ∷ es) =
    if e.token == tk then record e { last_seen = now } ∷ es else e ∷ touch tk now es

-- `bytearray(dek)`, at the address `a`.
abbrev pub alloc : ℕ → List ℕ → (ℕ → List ℕ) → ℕ → List ℕ
alloc a dek heap x = if x == a then dek else heap x

-- `for i in range(len(e.dek)): e.dek[i] = 0`
abbrev pub wipe : ℕ → (ℕ → List ℕ) → ℕ → List ℕ
wipe a heap x = if x == a then map (λ b. 0) (heap x) else heap x

abbrev pub snapshot : (ℕ → List ℕ) → Entry → Snapshot
snapshot heap e = record { user_id = e.user_id; username = e.username; dek = heap e.buffer }

abbrev pub new_entry : ℕ → String → String → ℕ → Store → Entry
new_entry user name tk now s = record {
  token = tk;
  user_id = user;
  username = name;
  buffer = s.next;
  last_seen = now;
}

unfoldable pub create : ℕ → String → List ℕ → String → ℕ → Store → Store
create user name dek tk now s = record s {
  heap = alloc s.next dek s.heap;
  next = s.next + 1;
  by_token = put (new_entry user name tk now s) s.by_token;
}

abbrev pub drop_found : String → Option Entry → Store → Store
drop_found tk none s = s
drop_found tk (some e) s = record s { heap = wipe e.buffer s.heap; by_token = pop tk s.by_token }

-- `_drop`
unfoldable pub drop : String → Store → Store
drop tk s = drop_found tk (find tk s.by_token) s

abbrev pub get_found : String → ℕ → Option Entry → Store → Option Snapshot × Store
get_found tk now none s = (none, s)
get_found tk now (some e) s =
    if ltb s.idle_seconds (now - e.last_seen)
    then (none, drop tk s)
    else (some (snapshot s.heap e), record s { by_token = touch tk now s.by_token })

unfoldable pub get : Option String → ℕ → Store → Option Snapshot × Store
get none now s = (none, s)
get (some tk) now s = if tk == "" then (none, s) else get_found tk now (find tk s.by_token) s

abbrev pub token_of : Entry → String
token_of e = e.token

unfoldable pub drop_all : List String → Store → Store
drop_all [] s = s
drop_all (tk ∷ tks) s = drop_all tks (drop tk s)

abbrev pub tokens_of : ℕ → Store → List String
tokens_of user s = map token_of (keep (λ e. e.user_id == user) s.by_token)

unfoldable pub revoke_user : ℕ → Store → ℕ × Store
revoke_user user s = (length (tokens_of user s), drop_all (tokens_of user s) s)

unfoldable pub revoke_all : Store → Store
revoke_all s = drop_all (map token_of s.by_token) s

-- `best is None or e.last_seen > best.last_seen`
abbrev pub is_newer : Entry → Option Entry → Bool
is_newer e none = true
is_newer e (some best) = ltb best.last_seen e.last_seen

unfoldable pub newest : ℕ → List Entry → Option Entry → Option Entry
newest user [] best = best
newest user (e ∷ es) best =
    newest user es (if e.user_id == user && is_newer e best then some e else best)

abbrev pub newest_snapshot : ℕ → Store → Option Entry → Option Snapshot
newest_snapshot now s none = none
newest_snapshot now s (some e) =
    if ltb s.idle_seconds (now - e.last_seen) then none else some (snapshot s.heap e)

unfoldable pub any_for_user : ℕ → ℕ → Store → Option Snapshot
any_for_user user now s = newest_snapshot now s (newest user s.by_token none)

-- The calls of the store that change it.
pub data Call : Type 0 where
  creating : ℕ → String → List ℕ → String → ℕ → Call
  getting : Option String → ℕ → Call
  revoking : String → Call
  revoking_user : ℕ → Call
  revoking_all : Call

unfoldable pub perform : Call → Store → Store
perform (creating user name dek tk now) s = create user name dek tk now s
perform (getting tk now) s = (get tk now s).1
perform (revoking tk) s = drop tk s
perform (revoking_user user) s = (revoke_user user s).1
perform revoking_all s = revoke_all s

unfoldable pub perform_all : List Call → Store → Store
perform_all [] s = s
perform_all (c ∷ cs) s = perform_all cs (perform c s)
