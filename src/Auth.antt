-- ===== src/Auth.antt =====
-- bridge/auth.ts over the session store in memory: checks of the current user, roles, and tokens for the
-- reset of a password. Texts that the source reads as JSON come as the value that JSON.parse gives.
pub mod Checks
pub mod Tokens
pub mod Tests
use Prim.Native.Char.{code}
use Prim.Native.String.{[] as no_chars, ◌∷◌ as then_char}
use clean_node_server.Common.{
  ℕ, zero, suc, ◌+◌, ◌-◌, ◌*◌, ◌^◌, ◌≤◌, ◌≡◌, String, Bool, true, false, not, ◌&&◌, ◌||◌, List, [],
  ◌∷◌, ◌++◌, Option, none, some, elem, nat_eq, string_eq, ◌==◌, if◌then◌else◌, ltb, leb,
}
use clean_node_server.Common.Assoc
use clean_node_server.Session.{
  SessionData, ClaimsObject, Claim, text, other, Sessions, create, get, destroy, inherited,
  default_session_ttl,
}
use clean_node_server.Types.{Cookie, CookieOptions}

-- What JSON.parse gives for a list of roles: an array, of which only the strings matter, a string, or a
-- value without `includes`. A text that is not JSON counts as the last, since both are caught.
pub data RolesJson : Type 0 where
  roles_array : List String → RolesJson
  roles_text : String → RolesJson
  no_roles : RolesJson

abbrev is_prefix : String → String → Bool
is_prefix no_chars t = true
is_prefix (then_char c s) no_chars = false
is_prefix (then_char c s) (then_char d t) = code c == code d && is_prefix s t

-- `t.includes(s)` for strings
pub includes : String → String → Bool
includes s no_chars = is_prefix s no_chars
includes s (then_char d t) = is_prefix s (then_char d t) || includes s t

pub roles_include : String → RolesJson → Bool
unfolding includes
roles_include role (roles_array roles) = elem role roles
roles_include role (roles_text roles) = includes role roles
roles_include role no_roles = false

pub has_includes : RolesJson → Bool
has_includes (roles_array roles) = true
has_includes (roles_text roles) = true
has_includes no_roles = false

abbrev pub admin : String
admin = "admin"

-- An empty id counts as none.
pub current_session : ℕ → Option String → Sessions → Option SessionData × Sessions
current_session now none s = (none, s)
current_session now (some id) s = if id == "" then (none, s) else get now id s

-- A check of the session; without one it fails.
abbrev pub checked : (SessionData → Bool) → Option SessionData × Sessions → Bool × Sessions
checked test (none, s) = (false, s)
checked test (some session, s) = (test session, s)

pub auth_require_auth : ℕ → Option String → Sessions → Bool × Sessions
unfolding current_session
auth_require_auth now id s = checked (λ session. true) (current_session now id s)

pub auth_check : ℕ → Option String → Sessions → Bool × Sessions
unfolding current_session
auth_check now id s = checked (λ session. true) (current_session now id s)

pub auth_require_role : ℕ → Option String → String → Sessions → Bool × Sessions
unfolding current_session
auth_require_role now id role s =
    checked (λ session. if session.role == role then true else session.role == admin)
      (current_session now id s)

abbrev any_role : RolesJson → SessionData → Bool
any_role roles session =
    if has_includes roles
    then (if roles_include session.role roles then true else session.role == admin)
    else false

pub auth_require_any_role : ℕ → Option String → RolesJson → Sessions → Bool × Sessions
unfolding current_session roles_include has_includes
auth_require_any_role now id roles s = checked (any_role roles) (current_session now id s)

pub auth_has_any_role : ℕ → Option String → RolesJson → Sessions → Bool × Sessions
unfolding current_session roles_include has_includes
auth_has_any_role now id roles s = checked (any_role roles) (current_session now id s)

pub auth_is_admin : ℕ → Option String → Sessions → Bool × Sessions
unfolding current_session
auth_is_admin now id s = checked (λ session. session.role == admin) (current_session now id s)

pub auth_is_owner : ℕ → Option String → String → Sessions → Bool × Sessions
unfolding current_session
auth_is_owner now id user s =
    checked (λ session. if session.user_id == user then true else session.role == admin)
      (current_session now id s)

-- The fields of the JSON object; without a session the text is empty.
pub auth_get_session :
    ℕ → Option String → Sessions → Option (String × String × ClaimsObject) × Sessions
unfolding current_session
auth_get_session now id s =
    let (found, rest) = current_session now id s in
    (
      (elim found [
        | none ↦ none
        | some session ↦ some (session.user_id, session.role, session.claims)
      ]),
      rest,
    )

pub auth_user : ℕ → Option String → Sessions → Option (String × String × ClaimsObject) × Sessions
unfolding current_session
auth_user now id s =
    let (found, rest) = current_session now id s in
    (
      (elim found [
        | none ↦ none
        | some session ↦ some (session.user_id, session.role, session.claims)
      ]),
      rest,
    )

pub auth_user_id : ℕ → Option String → Sessions → String × Sessions
unfolding current_session
auth_user_id now id s =
    let (found, rest) = current_session now id s in
    ((elim found [ none ↦ "" | some session ↦ session.user_id ]), rest)

pub auth_user_role : ℕ → Option String → Sessions → String × Sessions
unfolding current_session
auth_user_role now id s =
    let (found, rest) = current_session now id s in
    ((elim found [ none ↦ "" | some session ↦ session.role ]), rest)

abbrev pub Roles : Type 0
Roles = List (String × List String)

abbrev pub allows : String → List String → Bool
allows permission permissions = elem "*" permissions || elem permission permissions

abbrev pub registered_allows : String → String → Roles → Bool
registered_allows role permission roles = elim (Assoc.get role roles) [
  | none ↦ false
  | some permissions ↦ allows permission permissions
]

abbrev pub role_permissions : List (String × List String)
role_permissions =
    ("admin", "*" ∷ [])
    ∷ ("editor", "read" ∷ "write" ∷ "edit" ∷ "delete" ∷ [])
    ∷ ("author", "read" ∷ "write" ∷ "edit" ∷ [])
    ∷ ("user", "read" ∷ [])
    ∷ []

-- `rolePermissions[session.role]` of an object literal: for a name inherited from Object.prototype the
-- call of `includes` throws, which is `none`.
pub fallback : String → String → Option Bool
fallback role permission = elim (Assoc.get role role_permissions) [
  | some permissions ↦ some (allows permission permissions)
  | none ↦ if inherited role then none else some false
]

-- The strings in a claim that is an array: a parameter, as the claim is kept as JSON.
module _ (array_of : String → Option (List String)) where
  pub claimed_permission : String → ClaimsObject → Bool
  claimed_permission permission claims = elim (Assoc.get "permissions" claims) [
    | none ↦ false
    | some (text s) ↦ false
    | some (other json) ↦ elim (array_of json) [
      | none ↦ false
      | some permissions ↦ elem permission permissions
    ]
  ]

  pub session_can : Roles → String → SessionData → Option Bool
  unfolding claimed_permission fallback
  session_can roles permission session =
      if session.role == admin
      then some true
      else if claimed_permission permission session.claims
      then some true
      else if registered_allows session.role permission roles
      then some true
      else fallback session.role permission

  pub auth_can : ℕ → Option String → Roles → String → Sessions → Option Bool × Sessions
  unfolding current_session session_can
  auth_can now id roles permission s =
      let (found, rest) = current_session now id s in
      (
        (elim found [ none ↦ some false | some session ↦ session_can roles permission session ]),
        rest,
      )

-- The entries of the parsed object; a value that is no array is left out.
pub roles_register : List (String × Option (List String)) → Roles → Roles
roles_register [] roles = roles
roles_register ((role, none) ∷ entries) roles = roles_register entries roles
roles_register ((role, some permissions) ∷ entries) roles =
    roles_register entries (Assoc.set role permissions roles)

pub role_has_permission : String → String → Roles → Bool
role_has_permission role permission roles = registered_allows role permission roles

pub role_get_permissions : String → Roles → List String
role_get_permissions role roles = elim (Assoc.get role roles) [
  | none ↦ []
  | some permissions ↦ permissions
]

pub record ResetTokenEntry : Type 0 where
  pub user_id : ℕ
  pub expires_at : ℕ

abbrev pub ResetTokens : Type 0
ResetTokens = List (String × ResetTokenEntry)

pub sweep_reset_tokens : ℕ → ResetTokens → ResetTokens
sweep_reset_tokens now [] = []
sweep_reset_tokens now ((hash, entry) ∷ tokens) =
    let rest = sweep_reset_tokens now tokens in
    if leb entry.expires_at now then rest else (hash, entry) ∷ rest

-- `n <= 0` of a 32-bit pattern
abbrev pub not_positive : ℕ → Bool
not_positive n = n == 0 || leb (2 ^ 31) n

-- SHA-256 in hexadecimal is a parameter.
module _ (sha256_hex : String → String) where
  -- `token` is what randomBytes gave; an empty result stands for a refusal.
  pub auth_create_reset_token : ℕ → String → ℕ → ℕ → ResetTokens → String × ResetTokens
  unfolding sweep_reset_tokens
  auth_create_reset_token now token user_id ttl_seconds tokens =
      if not_positive user_id || not_positive ttl_seconds
      then ("", tokens)
      else (let swept = sweep_reset_tokens now tokens in
          if Assoc.has (sha256_hex token) swept then ("", swept) else (
            token,
            Assoc.set (sha256_hex token)
                (record { user_id = user_id; expires_at = now + ttl_seconds * 1000 }) swept,
          ))

  pub auth_consume_reset_token : ℕ → String → ResetTokens → ℕ × ResetTokens
  auth_consume_reset_token now token tokens =
      if token == "" then (0, tokens) else elim (Assoc.get (sha256_hex token) tokens) [
        | none ↦ (0, tokens)
        | some entry ↦
            let rest = Assoc.delete (sha256_hex token) tokens in
            (if leb entry.expires_at now then 0 else entry.user_id, rest)
      ]

-- The parsed argument of `_auth_set_session`, whose fields are strings and an object where present.
pub record SessionJson : Type 0 where
  pub user_id : Option String
  pub role : Option String
  pub claims : Option ClaimsObject

abbrev or_blank : Option String → String
or_blank none = ""
or_blank (some s) = s

abbrev or_no_claims : Option ClaimsObject → ClaimsObject
or_no_claims none = []
or_no_claims (some claims) = claims

abbrev pub session_cookie : String → Cookie
session_cookie id = record {
  name = "session_id";
  value = id;
  options = some (record {
    max_age = none;
    http_only = some true;
    secure = none;
    same_site = some "lax";
    path = some "/";
  });
}

abbrev pub cleared_cookie : Cookie
cleared_cookie = record {
  name = "session_id";
  value = "";
  options = some (record {
    max_age = some 0;
    http_only = some true;
    secure = none;
    same_site = none;
    path = some "/";
  });
}

-- `none` for a text that is not JSON. The last part is of the cookies of the response.
pub auth_set_session :
    ℕ → String → Option SessionJson → Sessions → List Cookie → Bool × Sessions × List Cookie
auth_set_session now new_id none s cookies = (false, s, cookies)
auth_set_session now new_id (some json) s cookies = (
  true,
  create now new_id (or_blank json.user_id) (or_blank json.role) (or_no_claims json.claims)
      default_session_ttl s,
  cookies ++ session_cookie new_id ∷ [],
)

pub auth_clear_session : Option String → Sessions → List Cookie → Bool × Sessions × List Cookie
auth_clear_session none s cookies = (false, s, cookies)
auth_clear_session (some id) s cookies =
    if id == ""
    then (false, s, cookies)
    else (let (destroyed, rest) = destroy id s in
        (destroyed, rest, if destroyed then cookies ++ cleared_cookie ∷ [] else cookies))
