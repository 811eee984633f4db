-- ===== src/Coverage/Claims.antt =====
-- What `mark` stores: the slot that it writes, the others, and who may claim `absent`.
use grindstone.Prelude.{
  ◌||◌, ap, List, ℕ, String, ◌≡◌, refl, Bool, true, false, ◌&&◌, none, some, [], ◌∷◌, arith, not,
  contains, ◌==◌, nat_eq, string_eq, if◌then◌else◌,
}
use grindstone.Coverage.Types.{
  authoritative, absent, have, failed, unknown, other, State, states, state_eq, Feed, feed_eq,
  feed_beq_iff, Row, Table,
}
use grindstone.Coverage.Mark.{
  may_claim_absent, stored, in_slot, find_state, state_of, upsert, claim, mark, marked_row,
}

find_state-upsert :
    (k : Feed) (p : ℕ) (r : Row) (t : Table)
    → find_state k p (upsert r t) ≡ (if in_slot k p r then r.state else find_state k p t)
unfolding upsert
find_state-upsert k p r [] = refl
find_state-upsert k p r (x ∷ t) = ground (
  arith,
  find_state-upsert k p r t,
  feed_beq_iff x.feed r.feed,
  feed_beq_iff x.feed k,
  feed_beq_iff r.feed k,
)

guard-eq-some {ℓ} :
    {A : Type ℓ} (b : Bool) (a : A) {u : A} → (if not b then none else some a) ≡ some u → u ≡ a
guard-eq-some true a h = cc
guard-eq-some false a h = cc

pub mark-eq-some :
    (f : Feed) (p : ℕ) (s : State) (n : ℕ) (detail : String) (now : ℕ) (t : Table) {u : Table}
    → mark f p s n detail now t ≡ some u
    → u ≡ upsert (marked_row f p s n detail now t) t
unfolding mark
mark-eq-some f p s n detail now t h =
    guard-eq-some (contains states s) (upsert (marked_row f p s n detail now t) t) h

-- A mark that is accepted sets the state of its own slot, to what the provider may claim, and
-- leaves the state of every other slot as it was.
pub state_of-mark :
    (f g : Feed) (p x : ℕ) (s : State) (n : ℕ) (detail : String) (now : ℕ) (t : Table) {u : Table}
    → mark f p s n detail now t ≡ some u
    → state_of u g x
      ≡ (if stored f == stored g && p == x then (claim t f s detail).0 else state_of t g x)
unfolding state_of
state_of-mark f g p x s n detail now t h =
    rw (mark-eq-some f p s n detail now t h)
      (find_state-upsert (stored g) x (marked_row f p s n detail now t) t)

-- A claim that is stored as it is, whatever the table says.
abbrev pub stands : Feed → State → Bool
stands f s = not (s == absent) || contains (authoritative f.kind) f.provider

pub claim-stands :
    (t : Table) (f : Feed) (s : State) (detail : String)
    → stands f s ≡ true
    → (claim t f s detail).0 ≡ s
unfolding claim may_claim_absent
claim-stands t f have detail h = refl
claim-stands t f absent detail h = rw h
claim-stands t f failed detail h = refl
claim-stands t f unknown detail h = refl
claim-stands t f (other x) detail h = refl

pub mark_known :
    (f : Feed) (p : ℕ) (s : State) (n : ℕ) (detail : String) (now : ℕ) (t : Table)
    → contains states s ≡ true
    → mark f p s n detail now t ≡ some (upsert (marked_row f p s n detail now t) t)
unfolding mark
mark_known f p s n detail now t h = rw h

-- What a loop over days leaves: each of its days of the feed has the state `decided` for it, and
-- every other slot is as it was.
abbrev pub Decides : Feed → List ℕ → (ℕ → State) → Table → Table → Type 0
Decides f ds decided t u =
    (g : Feed) (x : ℕ)
    → state_of u g x ≡ (if stored f == stored g && contains ds x then decided x else state_of t g x)

pub Decides-nil : (f : Feed) (decided : ℕ → State) (t : Table) → Decides f [] decided t t
Decides-nil f decided t g x = ground arith

-- One mark, then the rest of the loop.
pub Decides-cons :
    (f : Feed) (d : ℕ) (ds : List ℕ) (decided : ℕ → State) (n : ℕ) (detail : String) (now : ℕ)
    (t v : Table)
    → contains states (decided d) ≡ true
    → stands f (decided d) ≡ true
    → Decides f ds decided (upsert (marked_row f d (decided d) n detail now t) t) v
    → Decides f (d ∷ ds) decided t v
Decides-cons f d ds decided n detail now t v known firm rest g x = ground (
  arith,
  rest g x,
  state_of-mark f g d x (decided d) n detail now t
      (mark_known f d (decided d) n detail now t known),
  claim-stands t f (decided d) detail firm,
  λ (e : d ≡ x). ap decided e,
)
