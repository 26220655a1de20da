-- ===== src/SessionBridge/Tests.antt =====
-- The bridge over both stores, on a concrete session.
use clean_node_server.Common.{◌≡◌, refl, true, false, [], ◌∷◌, some, string_eq}
use clean_node_server.Session.{SessionData, Sessions, get, assign, in_object, claim_text}
use clean_node_server.SessionBridge.{
  memory_store, broker_store, change_shared, changed, current, session_cookie, session_set_csrf,
  session_get_csrf, session_extend, session_exists,
}
use clean_node_server.SessionBridge.Csrf.{session_get_csrf-set_csrf, session_get_csrf-broker}

abbrev ann : SessionData
ann = record { user_id = "7"; role = "user"; claims = []; created_at = 0; expires_at = 9000 }

abbrev sessions : Sessions
sessions = ("s1", ann) ∷ []

bridge_calls : Unit {0}
unfolding get assign in_object claim_text memory_store broker_store change_shared changed current
    session_cookie session_set_csrf session_get_csrf session_extend session_exists
bridge_calls = tt

ann-found : (get 10 "s1" sessions).0 ≡ some ann
unfolding get
ann-found = refl

-- A worker cannot extend a session.
bridge_runs :
    ((session_exists memory_store 10 (some "s1") sessions).0 ≡ true)
    × ((session_exists memory_store 9001 (some "s1") sessions).0 ≡ false)
    × (session_extend broker_store true 10 (some "s1") 60 sessions [] ≡ (false, sessions, []))
unfolding bridge_calls
bridge_runs = (refl, refl, refl)

session_get_csrf-set_csrf_example :
    let (stored, after) = session_set_csrf memory_store 10 (some "s1") "t" sessions in
    (stored ≡ true) × ((session_get_csrf memory_store 20 (some "s1") after).0 ≡ "t")
session_get_csrf-set_csrf_example =
    session_get_csrf-set_csrf 10 "s1" sessions ann refl ann-found 20 "t"

session_get_csrf-broker_example :
    let (stored, after) = session_set_csrf broker_store 10 (some "s1") "t" sessions in
    (stored ≡ true)
    × (session_get_csrf broker_store 20 (some "s1") after
        ≡ session_get_csrf broker_store 20 (some "s1") sessions)
session_get_csrf-broker_example = session_get_csrf-broker 10 "s1" sessions ann refl ann-found 20 "t"
