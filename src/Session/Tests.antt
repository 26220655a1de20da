-- ===== src/Session/Tests.antt =====
-- The store on concrete sessions, and its theorems at concrete inputs.
use clean_node_server.Session.Values.{inherited_key}
use clean_node_server.Session.Lifetime.{get-perform_all_over, stores, extends, perform_all}
use clean_node_server.Session.Lifetime.Answers.{answers-cleanup}
use clean_node_server.Common.{◌≡◌, refl, true, [], ◌∷◌, none, some, arith, nat_eq, string_eq}
use clean_node_server.Session.{
  key_tested, value_deleted, claim_text, inherited, in_object, value_read, assign, stored, extended,
  updated, update, store_value, delete_value, text, new_session, has_key, get_value, extend,
  destroy, default_session_ttl, cleanup, Sessions, SessionData, get, create,
}

session_calls : Unit {0}
unfolding create new_session get destroy cleanup update updated extend extended store_value stored
    assign get_value value_read in_object inherited claim_text delete_value value_deleted has_key
    key_tested
session_calls = tt

-- A session of one hour, made at time 1000.
abbrev hour : SessionData
hour = record {
  user_id = "7";
  role = "user";
  claims = ("lang", text "en") ∷ [];
  created_at = 1000;
  expires_at = 3601000;
}

abbrev store : Sessions
store = ("s1", hour) ∷ []

store_runs :
    (create 1000 "s1" "7" "user" (("lang", text "en") ∷ []) default_session_ttl [] ≡ store)
    × ((get 3601000 "s1" store).0 ≡ some hour)
    × (get 3601001 "s1" store ≡ (none, []))
    × ((get_value 2000 "s1" "lang" store).0 ≡ some "en")
    × ((get_value 2000 "s1" "cart" (store_value 1500 "s1" "cart" "3" store).1).0 ≡ some "3")
    × ((has_key 2000 "s1" "toString" store).0 ≡ true)
    × (cleanup 3601001 store ≡ [])
unfolding session_calls default_session_ttl
store_runs = (refl, refl, refl, refl, refl, refl, refl)

answers-cleanup_example : (get 3000 "s1" (cleanup 2000 store)).0 ≡ (get 3000 "s1" store).0
answers-cleanup_example = (answers-cleanup 2000 3000 "s1" store (omega arith) (refl, tt)).0

get-perform_all_over_example :
    (get 5000000 "s1"
      (perform_all store ((4000000, stores "s1" "a" "b") ∷ (4000001, extends "s1" 60) ∷ []))).0
    ≡ none
unfolding session_calls
get-perform_all_over_example =
    get-perform_all_over 3601001 5000000 "s1"
      ((4000000, stores "s1" "a" "b") ∷ (4000001, extends "s1" 60) ∷ []) store (omega arith)
      (omega arith, (omega arith, tt)) (refl, tt) refl

inherited_key_example : (has_key 2000 "s1" "toString" store).0 ≡ true
unfolding session_calls
inherited_key_example = (inherited_key 2000 "s1" "toString" store hour refl refl refl).0
