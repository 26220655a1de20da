-- ===== src/Auth/Checks.antt =====
-- Who passes the checks of the current user.
use clean_node_server.Common.{
  ltb, ℕ, ◌≡◌, String, Bool, true, false, List, Option, none, some, arith, string_eq, Option-cases,
  inl, inr,
}
use clean_node_server.Session.{SessionData, Sessions, get}
use clean_node_server.Auth.{
  ltb, RolesJson, Roles, has_includes, current_session, auth_require_auth, auth_require_role,
  auth_require_any_role, auth_has_any_role, auth_check, auth_is_admin, auth_is_owner, auth_can,
  session_can,
}

pub data AuthCheck : Type 0 where
  authenticated checked_in : AuthCheck
  has_role : String → AuthCheck
  has_one_of has_any_of : RolesJson → AuthCheck
  is_admin : AuthCheck
  is_owner : String → AuthCheck
  can : Roles → String → AuthCheck

abbrev pub is_yes : Option Bool → Bool
is_yes none = false
is_yes (some b) = b

-- Roles that are not an array and not a string are refused to everybody.
abbrev pub is_sound : AuthCheck → Bool
is_sound (has_one_of roles) = has_includes roles
is_sound (has_any_of roles) = has_includes roles
is_sound _ = true

current_session-live :
    (now : ℕ) (id : Option String) (s : Sessions) (session : SessionData)
    → (current_session now id s).0 ≡ some session
    → ltb session.expires_at now ≡ false
unfolding current_session get
current_session-live now none s session e = absurd (cc)
current_session-live now (some id) s session e = ground (arith, e)

module _ (array_of : String → Option (List String)) where
  unfoldable pub grants : AuthCheck → ℕ → Option String → Sessions → Bool
  unfolding auth_require_auth auth_require_role auth_require_any_role auth_is_admin auth_is_owner
      auth_can auth_check auth_has_any_role
  grants authenticated now id s = (auth_require_auth now id s).0
  grants checked_in now id s = (auth_check now id s).0
  grants (has_role role) now id s = (auth_require_role now id role s).0
  grants (has_one_of roles) now id s = (auth_require_any_role now id roles s).0
  grants (has_any_of roles) now id s = (auth_has_any_role now id roles s).0
  grants is_admin now id s = (auth_is_admin now id s).0
  grants (is_owner user) now id s = (auth_is_owner now id user s).0
  grants (can roles permission) now id s = is_yes (auth_can array_of now id roles permission s).0

  grants-none :
      (c : AuthCheck) (now : ℕ) (id : Option String) (s : Sessions)
      → (current_session now id s).0 ≡ none
      → grants c now id s ≡ false
  unfolding grants
  grants-none authenticated now id s e = ground (arith, e)
  grants-none checked_in now id s e = ground (arith, e)
  grants-none (has_role role) now id s e = ground (arith, e)
  grants-none (has_one_of roles) now id s e = ground (arith, e)
  grants-none (has_any_of roles) now id s e = ground (arith, e)
  grants-none is_admin now id s e = ground (arith, e)
  grants-none (is_owner user) now id s e = ground (arith, e)
  grants-none (can roles permission) now id s e = ground (arith, e)

  -- Every check that grants something has found a session of the request that has not expired: that of
  -- a login, of a role or of one of several, in both forms of each, of an administrator, of an owner, and
  -- of a permission.
  pub grants-current_session :
      (c : AuthCheck) (now : ℕ) (id : Option String) (s : Sessions)
      → grants c now id s ≡ true
      → (session : SessionData) × ((current_session now id s).0 ≡ some session)
        × (ltb session.expires_at now ≡ false)
  grants-current_session c now id s h = elim (Option-cases (current_session now id s).0) [
    | inl e ↦ absurd (ground (arith, grants-none c now id s e, h))
    | inr (session, e) ↦ (session, e, current_session-live now id s session e)
  ]

  -- An administrator passes every check, but that of roles that are not an array and not a string.
  grants-admin :
      (c : AuthCheck) (now : ℕ) (id : Option String) (s : Sessions)
      → is_sound c ≡ true
      → grants is_admin now id s ≡ true
      → grants c now id s ≡ true
  unfolding grants session_can
  grants-admin authenticated now id s h k = ground (arith, h, k)
  grants-admin checked_in now id s h k = ground (arith, h, k)
  grants-admin (has_role role) now id s h k = ground (arith, h, k)
  grants-admin (has_one_of roles) now id s h k = ground (arith, h, k)
  grants-admin (has_any_of roles) now id s h k = ground (arith, h, k)
  grants-admin is_admin now id s h k = k
  grants-admin (is_owner user) now id s h k = ground (arith, h, k)
  grants-admin (can roles permission) now id s h k = ground (arith, h, k)
