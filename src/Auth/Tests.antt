-- ===== src/Auth/Tests.antt =====
-- Users and tokens, and the theorems at concrete inputs.
use clean_node_server.Common.{
  ltb, ◌≡◌, refl, String, true, false, List, [], ◌∷◌, Option, none, some, arith, string_eq,
}
use clean_node_server.Session.{SessionData, Sessions, get, inherited}
use clean_node_server.Auth.{
  ltb, current_session, auth_is_owner, auth_can, auth_create_reset_token, auth_consume_reset_token,
}
use clean_node_server.Auth.Checks.{is_owner, grants, grants-current_session}
use clean_node_server.Auth.Tokens.{TokenEvent, created, consumed, consume-create, token_events}

abbrev user : String → String → SessionData
user id role = record { user_id = id; role = role; claims = []; created_at = 0; expires_at = 9000 }

abbrev sessions : Sessions
sessions =
    ("s1", user "ann" "user") ∷ ("s2", user "bob" "admin") ∷ ("s3", user "eve" "toString") ∷ []

abbrev no_arrays : String → Option (List String)
no_arrays json = none

-- The role of an inherited name makes the check throw.
checks :
    ((auth_is_owner 10 (some "s1") "ann" sessions).0 ≡ true)
    × ((auth_can no_arrays 10 (some "s1") [] "write" sessions).0 ≡ some false)
    × ((auth_can no_arrays 10 (some "s3") [] "write" sessions).0 ≡ none)
unfolding auth_is_owner auth_can get inherited
checks = (refl, refl, refl)

ann-is_owner : grants no_arrays (is_owner "ann") 10 (some "s1") sessions ≡ true
unfolding auth_is_owner get grants
ann-is_owner = refl

grants-current_session_example :
    (session : SessionData) × ((current_session 10 (some "s1") sessions).0 ≡ some session)
    × (ltb session.expires_at 10 ≡ false)
grants-current_session_example =
    grants-current_session no_arrays (is_owner "ann") 10 (some "s1") sessions ann-is_owner

abbrev hashed : String → String
hashed token = token

abbrev others : List TokenEvent
others = created 1500 "u" 8 60 ∷ consumed 1600 "v" ∷ []

consume-create_example :
    let issued = (auth_create_reset_token hashed 1000 "t" 7 60 []).1 in
    let used = auth_consume_reset_token hashed 2000 "t" (token_events hashed others issued) in
    (used.0 ≡ 7)
    × ((auth_consume_reset_token hashed 3000 "t" (token_events hashed [] used.1)).0 ≡ 0)
consume-create_example =
    consume-create hashed 1000 "t" 7 60 [] others 2000 [] 3000 refl refl tt refl
      ((refl, omega arith), ((refl, omega arith), tt)) tt
