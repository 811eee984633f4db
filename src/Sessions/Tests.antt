-- ===== src/Sessions/Tests.antt =====
-- Runs of code/backend/sessions.py at concrete inputs, and the theorems applied there.
use grindstone.Prelude.{ℕ, ◌≡◌, refl, ◌⊎◌, true, some, none, List, [], ◌∷◌}
use grindstone.Sessions.Store.{
  Store, new_store, create, get, drop, drop_all, revoke_user, Call, creating, getting,
  revoking_user, perform, perform_all,
}
use grindstone.Sessions.Wiped.{is_zero, no_key_outlives}
use grindstone.Sessions.Stable.{get-key}

abbrev start : Store
start = new_store 900

abbrev key : List ℕ
key = 7 ∷ 8 ∷ 9 ∷ []

-- Two users sign in, the first one twice; then the first one signs out everywhere.
abbrev day : List Call
day =
    creating 1 "ann" key "t1" 100
    ∷ creating 2 "bob" (5 ∷ 6 ∷ []) "t2" 200
    ∷ creating 1 "ann" key "t3" 300
    ∷ getting (some "t2") 400
    ∷ revoking_user 1
    ∷ []

abbrev evening : Store
evening = record {
  heap = (perform_all day start).heap;
  next = 3;
  by_token =
      record { token = "t2"; user_id = 2; username = "bob"; buffer = 1; last_seen = 400 } ∷ [];
  idle_seconds = 900;
}

ends_with_bob : (perform_all day start).by_token ≡ evening.by_token
unfolding perform_all perform create get revoke_user drop_all drop
ends_with_bob = refl

anns_key_is_wiped : (perform_all day start).heap 0 ≡ 0 ∷ 0 ∷ 0 ∷ []
unfolding perform_all perform create get revoke_user drop_all drop
anns_key_is_wiped = refl

idle_is_dropped : (get (some "t1") 1001 (create 1 "ann" key "t1" 100 start)).0 ≡ none
unfolding get create
idle_is_dropped = refl

no_key_outlives_example : is_zero ((perform_all day start).heap 2) ≡ true
unfolding perform_all perform create get revoke_user drop_all drop
no_key_outlives_example = no_key_outlives 900 day 2 refl refl

abbrev later : List Call
later = creating 2 "bob" (5 ∷ 6 ∷ []) "t2" 200 ∷ revoking_user 2 ∷ []

get-key_example :
    ((get (some "t1") 500 (perform_all later (create 1 "ann" key "t1" 100 start))).0 ≡ none)
    ⊎ ((get (some "t1") 500 (perform_all later (create 1 "ann" key "t1" 100 start))).0
        ≡ some (record { user_id = 1; username = "ann"; dek = key }))
unfolding perform create revoke_user
get-key_example = get-key 1 "ann" key "t1" 100 500 later start refl refl refl refl
