-- ===== src/Session/Lifetime/Lookups.antt =====
-- What look-ups find after a session is made, and after a clean-up.
use clean_node_server.Common.{
  ℕ, ◌+◌, ◌*◌, ◌≤◌, ◌≡◌, refl, String, false, [], ◌∷◌, Option, none, some, arith, nat_eq, string_eq,
  ◌==◌, if◌then◌else◌, ltb,
}
use clean_node_server.Common.Assoc
use clean_node_server.Session.{
  new_session, Sessions, SessionData, ClaimsObject, create, get, cleanup,
}

-- What a look-up at time `t` gives, over the Map alone.
abbrev pub live_at : ℕ → Option SessionData → Option SessionData
live_at t none = none
live_at t (some s) = if ltb s.expires_at t then none else some s

pub get-live_at : (t : ℕ) (id : String) (m : Sessions) → (get t id m).0 ≡ live_at t (Assoc.get id m)
unfolding get
get-live_at t id m = ground arith

-- A new session is found under its id at every time up to its expiry and at no later time, and
-- the look-ups of other ids are as before.
pub get-create :
    (now ttl t : ℕ) (id j user_id role : String) (claims : ClaimsObject) (m : Sessions)
    → (get t j (create now id user_id role claims ttl m)).0 ≡ (
        if id == j
        then if ltb (now + ttl * 1000) t
          then none
          else some (record {
            user_id = user_id;
            role = role;
            claims = claims;
            created_at = now;
            expires_at = now + ttl * 1000;
          })
        else (get t j m).0)
unfolding create
get-create now ttl t id j user_id role claims m =
    rw
      (
        get-live_at t j (Assoc.set id (new_session now user_id role claims ttl) m),
        get-live_at t j m,
        Assoc.get-set id j _ m,
      )
      (ground arith)

pub cleanup-has :
    (now : ℕ) (id : String) (m : Sessions)
    → Assoc.has id m ≡ false
    → Assoc.has id (cleanup now m) ≡ false
unfolding cleanup
cleanup-has now id [] h = refl
cleanup-has now id ((j, s) ∷ m) h = ground (arith, cleanup-has now id m)

-- A look-up that follows a clean-up, at the same time or later, gives the session that it would have
-- given without the clean-up.
pub get-cleanup :
    (now t : ℕ) (id : String) (m : Sessions)
    → now ≤ t
    → Assoc.IsMap m
    → (get t id (cleanup now m)).0 ≡ (get t id m).0
unfolding cleanup
get-cleanup now t id m h d = rw (get-live_at t id (cleanup now m), get-live_at t id m) (scan m d)
  where
    scan :
        (m : Sessions)
        → Assoc.IsMap m
        → live_at t (Assoc.get id (cleanup now m)) ≡ live_at t (Assoc.get id m)
    scan [] d = refl
    scan ((j, s) ∷ m) (new, d) = ground (
      arith,
      string_eq.beq_iff j id,
      scan m d,
      cleanup-has now id m,
      Assoc.get-eq-none id (cleanup now m),
    )
