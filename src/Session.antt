-- ===== src/Session.antt =====
-- session/store.ts: the in-memory session store. Times are the values of Date.now(), and a session
-- id is what crypto.randomBytes gave.
pub mod Lifetime
pub mod Values
pub mod Tests
use clean_node_server.Common.{
  ℕ, zero, suc, ◌+◌, ◌-◌, ◌*◌, ◌<◌, ◌≤◌, ◌≡◌, ◌≢◌, refl, sym, ap, subst, ◌∙◌, String, Bool, true,
  false, not, ◌&&◌, ◌||◌, ◌⊎◌, inl, inr, List, [], ◌∷◌, ◌++◌, Option, none, some, arith, length,
  get_elem?, set, nat_eq, string_eq, ◌==◌, if◌then◌else◌, if_cases, ltb, leb, elem, without, All,
  Bool-cases, Option-cases,
}
use clean_node_server.Common.Assoc

-- A value of a claims object: a string, or another value as its JSON text.
pub data Claim : Type 0 where
  text : String → Claim
  other : String → Claim

-- A claims object: its own properties.
abbrev pub ClaimsObject : Type 0
ClaimsObject = List (String × Claim)

pub record SessionData : Type 0 where
  pub user_id : String
  pub role : String
  pub claims : ClaimsObject
  pub created_at : ℕ
  pub expires_at : ℕ

-- The names that an object inherits from Object.prototype: `in` sees them too.
abbrev prototype_names : List String
prototype_names =
    "constructor" ∷ "__defineGetter__" ∷ "__defineSetter__" ∷ "hasOwnProperty" ∷ "__lookupGetter__"
    ∷ "__lookupSetter__" ∷ "isPrototypeOf" ∷ "propertyIsEnumerable" ∷ "toString" ∷ "valueOf"
    ∷ "__proto__" ∷ "toLocaleString" ∷ []

unfoldable pub inherited : String → Bool
inherited key = elem key prototype_names

-- `key in claims`
unfoldable pub in_object : String → ClaimsObject → Bool
in_object key claims = Assoc.has key claims || inherited key

-- `claims[key] = value` for a string: on the inherited `__proto__` it does nothing.
unfoldable pub assign : String → String → ClaimsObject → ClaimsObject
assign key value claims =
    if key == "__proto__" && not (Assoc.has key claims)
    then claims
    else Assoc.set key (text value) claims

-- `typeof val === 'string' ? val : JSON.stringify(val)`: `undefined` for an inherited function, and
-- "{}" for the inherited `__proto__`.
unfoldable pub claim_text : String → ClaimsObject → Option String
claim_text key claims = elim (Assoc.get key claims) [
  | none ↦ if key == "__proto__" then some "{}" else none
  | some (text s) ↦ some s
  | some (other json) ↦ some json
]

abbrev pub Sessions : Type 0
Sessions = List (String × SessionData)

pub default_session_ttl : ℕ
default_session_ttl = 3600

pub new_session : ℕ → String → String → ClaimsObject → ℕ → SessionData
new_session now user_id role claims ttl_seconds = record {
  user_id = user_id;
  role = role;
  claims = claims;
  created_at = now;
  expires_at = now + ttl_seconds * 1000;
}

pub create : ℕ → String → String → String → ClaimsObject → ℕ → Sessions → Sessions
unfolding new_session
create now id user_id role claims ttl_seconds sessions =
    Assoc.set id (new_session now user_id role claims ttl_seconds) sessions

-- An expired session is deleted by the look-up that finds it.
unfoldable pub get : ℕ → String → Sessions → Option SessionData × Sessions
get now id sessions = elim (Assoc.get id sessions) [
  | none ↦ (none, sessions)
  | some s ↦ if ltb s.expires_at now then (none, Assoc.delete id sessions) else (some s, sessions)
]

pub destroy : String → Sessions → Bool × Sessions
destroy id sessions = (Assoc.has id sessions, Assoc.delete id sessions)

pub cleanup : ℕ → Sessions → Sessions
cleanup now [] = []
cleanup now ((id, s) ∷ sessions) =
    let rest = cleanup now sessions in if ltb s.expires_at now then rest else (id, s) ∷ rest

-- What `update` and the operations on values do once `get` has found the session.
abbrev pub with_session {ℓ} :
    {A : Type ℓ}
    → ℕ
    → String
    → A
    → (SessionData → Sessions → A × Sessions)
    → Sessions
    → A × Sessions
with_session now id missing found sessions =
    let (o, rest) = get now id sessions in elim o [ none ↦ (missing, rest) | some s ↦ found s rest ]

abbrev or_keep {ℓ} : {A : Type ℓ} → Option A → A → A
or_keep none a = a
or_keep (some b) a = b

pub updated :
    String
    → Option String
    → Option String
    → Option ClaimsObject
    → SessionData
    → Sessions
    → Bool × Sessions
updated id user_id role claims s rest = (true, Assoc.set id merged rest)
  where
    merged : SessionData
    merged = record s {
      user_id = or_keep user_id s.user_id;
      role = or_keep role s.role;
      claims = or_keep claims s.claims;
    }

pub update :
    ℕ → String → Option String → Option String → Option ClaimsObject → Sessions → Bool × Sessions
unfolding updated
update now id user_id role claims = with_session now id false (updated id user_id role claims)

pub extended : ℕ → String → ℕ → SessionData → Sessions → Bool × Sessions
extended now id ttl_seconds s rest =
    (true, Assoc.set id (record s { expires_at = now + ttl_seconds * 1000 }) rest)

pub extend : ℕ → String → ℕ → Sessions → Bool × Sessions
unfolding extended
extend now id ttl_seconds = with_session now id false (extended now id ttl_seconds)

pub clear : Sessions → Sessions
clear sessions = []

pub size : Sessions → ℕ
size sessions = length sessions

pub stored : String → String → String → SessionData → Sessions → Bool × Sessions
unfolding assign
stored id key value s rest =
    (true, Assoc.set id (record s { claims = assign key value s.claims }) rest)

pub store_value : ℕ → String → String → String → Sessions → Bool × Sessions
unfolding stored
store_value now id key value = with_session now id false (stored id key value)

pub value_read : String → SessionData → Sessions → Option String × Sessions
unfolding in_object claim_text
value_read key s rest = (if in_object key s.claims then claim_text key s.claims else none, rest)

pub get_value : ℕ → String → String → Sessions → Option String × Sessions
unfolding value_read
get_value now id key = with_session now id none (value_read key)

pub value_deleted : String → String → SessionData → Sessions → Bool × Sessions
unfolding in_object
value_deleted id key s rest =
    if in_object key s.claims
    then (true, Assoc.set id (record s { claims = Assoc.delete key s.claims }) rest)
    else (false, rest)

pub delete_value : ℕ → String → String → Sessions → Bool × Sessions
unfolding value_deleted
delete_value now id key = with_session now id false (value_deleted id key)

pub key_tested : String → SessionData → Sessions → Bool × Sessions
unfolding in_object
key_tested key s rest = (in_object key s.claims, rest)

pub has_key : ℕ → String → String → Sessions → Bool × Sessions
unfolding key_tested
has_key now id key = with_session now id false (key_tested key)
