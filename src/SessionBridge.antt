-- ===== src/SessionBridge.antt =====
-- bridge/session.ts: the session of a request, over an interface of session stores. The memory store
-- hands out its own objects; a worker's store asks the main thread and hands out copies.
pub mod Csrf
pub mod Tests
use clean_node_server.Common.{
  ℕ, zero, suc, ◌+◌, ◌*◌, ◌≡◌, String, Bool, true, false, not, ◌&&◌, ◌||◌, List, [], ◌∷◌, ◌++◌,
  Option, none, some, string_eq, ◌==◌, if◌then◌else◌, ltb,
}
use clean_node_server.Common.Assoc
use clean_node_server.Session.{
  SessionData, ClaimsObject, Claim, text, Sessions, create, get, destroy, extend, store_value,
  get_value, delete_value, has_key, in_object, claim_text, assign, default_session_ttl,
}
use clean_node_server.Types.{Cookie, CookieOptions}

-- `change_claims` is what a change of the claims of the object that `get` has returned does to the
-- store. The optional operations are `none` where the store has no such method.
pub record SessionStore (S : Type 0) : Type 0 where
  pub create_session : ℕ → String → String → String → ClaimsObject → ℕ → S → S
  pub find : ℕ → String → S → Option SessionData × S
  pub destroy_session : String → S → Bool × S
  pub extend_session : Option (ℕ → String → ℕ → S → Bool × S)
  pub store : Option (ℕ → String → String → String → S → Bool × S)
  pub read : Option (ℕ → String → String → S → Option String × S)
  pub remove : Option (ℕ → String → String → S → Bool × S)
  pub has : Option (ℕ → String → String → S → Bool × S)
  pub change_claims : String → (ClaimsObject → ClaimsObject) → S → S

pub change_shared : String → (ClaimsObject → ClaimsObject) → Sessions → Sessions
change_shared id change s = elim (Assoc.get id s) [
  | none ↦ s
  | some d ↦ Assoc.set id (record d { claims = change d.claims }) s
]

pub memory_store : SessionStore Sessions
memory_store = record {
  create_session = create;
  find = get;
  destroy_session = destroy;
  extend_session = some extend;
  store = some store_value;
  read = some get_value;
  remove = some delete_value;
  has = some has_key;
  change_claims = change_shared;
}

-- BrokerSessionStore has no `extend`, and what it returns has been parsed from JSON.
pub broker_store : SessionStore Sessions
broker_store = record memory_store { extend_session = none; change_claims = λ id change s. s }

abbrev pub or_blank : Option String → String
or_blank none = ""
or_blank (some s) = s

-- A token is stored as a string. String(...) reads it as it is; of the claims of a new session it gives
-- an object or an array in another form than its JSON text.
abbrev pub csrf_key : String
csrf_key = "_csrf_token"

module _ (production : Bool) where
  pub session_cookie : String → ℕ → Cookie
  session_cookie id ttl_seconds = record {
    name = "session_id";
    value = id;
    options = some (record {
      max_age = some ttl_seconds;
      http_only = some true;
      secure = some production;
      same_site = some "lax";
      path = some "/";
    });
  }

pub cleared : String → Cookie
cleared name = record {
  name = name;
  value = "";
  options = some (record {
    max_age = some 0;
    http_only = some true;
    secure = none;
    same_site = none;
    path = some "/";
  });
}

-- The parsed options of `_http_set_cookie`, of the types that it tests.
pub http_set_cookie : String → String → CookieOptions → List Cookie → List Cookie
http_set_cookie name value options cookies =
    cookies
    ++ record {
      name = name;
      value = value;
      options = some (record {
        max_age = options.max_age;
        http_only = some (elim options.http_only [ none ↦ true | some b ↦ b ]);
        secure = some (elim options.secure [ none ↦ false | some b ↦ b ]);
        same_site = options.same_site;
        path = some (elim options.path [ none ↦ "/" | some p ↦ p ]);
      });
    }
      ∷ []

pub http_delete_cookie : String → List Cookie → List Cookie
unfolding cleared
http_delete_cookie name cookies = cookies ++ cleared name ∷ []

-- The session of the request, if it has an id.
abbrev pub with_id {ℓ} :
    {S : Type 0} {A : Type ℓ} → Option String → A → (String → S → A × S) → S → A × S
with_id none missing run s = (missing, s)
with_id (some id) missing run s = if id == "" then (missing, s) else run id s

abbrev pub told {ℓ} :
    {S : Type 0} {A : Type ℓ} → A → (SessionData → A) → Option SessionData × S → A × S
told missing tell (none, s) = (missing, s)
told missing tell (some d, s) = (tell d, s)

-- The claim of an inherited function is `undefined`, which readers get as an empty text.
abbrev pub claim_of : String → SessionData → String
claim_of key d = if in_object key d.claims then or_blank (claim_text key d.claims) else ""

module _ {S : Type 0} (sessions : SessionStore S) where
  pub current : ℕ → Option String → S → Option SessionData × S
  current now id s = with_id id none (λ i. sessions.find now i) s

  pub session_get : ℕ → Option String → S → Option SessionData × S
  unfolding current
  session_get now id s = current now id s

  pub session_user_id : ℕ → Option String → S → String × S
  unfolding current
  session_user_id now id s = told "" (λ d. d.user_id) (current now id s)

  pub session_role : ℕ → Option String → S → String × S
  unfolding current
  session_role now id s = told "" (λ d. d.role) (current now id s)

  pub session_claim : ℕ → Option String → String → S → String × S
  unfolding current
  session_claim now id key s = told "" (claim_of key) (current now id s)

  pub session_exists : ℕ → Option String → S → Bool × S
  unfolding current
  session_exists now id s = told false (λ d. true) (current now id s)

  -- What the fallback does to the claims of the object that it has found.
  pub changed : ℕ → String → (SessionData → Bool) → (ClaimsObject → ClaimsObject) → S → Bool × S
  changed now id test change s =
      let (found, rest) = sessions.find now id s in
      elim found [
        | none ↦ (false, rest)
        | some d ↦ if test d then (true, sessions.change_claims id change rest) else (false, rest)
      ]

  pub session_store : ℕ → Option String → String → String → S → Bool × S
  unfolding changed
  session_store now id key value s =
      with_id id false
        (λ i. elim sessions.store [
          | some store ↦ store now i key value
          | none ↦ changed now i (λ d. true) (assign key value)
        ])
        s

  pub session_get_value : ℕ → Option String → String → S → String × S
  session_get_value now id key s =
      with_id id ""
        (λ i s. elim sessions.read [
          | some read ↦ let (value, rest) = read now i key s in (or_blank value, rest)
          | none ↦ told "" (claim_of key) (sessions.find now i s)
        ])
        s

  pub session_delete : ℕ → Option String → String → S → Bool × S
  unfolding changed
  session_delete now id key s =
      with_id id false
        (λ i. elim sessions.remove [
          | some remove ↦ remove now i key
          | none ↦ changed now i (λ d. in_object key d.claims) (Assoc.delete key)
        ])
        s

  pub session_has_key : ℕ → Option String → String → S → Bool × S
  session_has_key now id key s =
      with_id id false
        (λ i s. elim sessions.has [
          | some has ↦ has now i key s
          | none ↦ told false (λ d. in_object key d.claims) (sessions.find now i s)
        ])
        s

  pub session_set_csrf : ℕ → Option String → String → S → Bool × S
  unfolding changed
  session_set_csrf now id token s =
      with_id id false (λ i. changed now i (λ d. true) (assign csrf_key token)) s

  pub session_get_csrf : ℕ → Option String → S → String × S
  unfolding current
  session_get_csrf now id s = told "" (claim_of csrf_key) (current now id s)

  -- `claims` is the parsed text, an empty object if it is not JSON; `id` is the one that the new session
  -- gets.
  pub session_create_with_ttl :
      Bool
      → ℕ
      → String
      → String
      → String
      → ClaimsObject
      → ℕ
      → S
      → List Cookie
      → String × S × List Cookie
  unfolding session_cookie
  session_create_with_ttl production now id user_id role claims ttl_seconds s cookies = (
    id,
    sessions.create_session now id user_id role claims ttl_seconds s,
    cookies ++ session_cookie production id ttl_seconds ∷ [],
  )

  pub session_create :
      Bool
      → ℕ
      → String
      → String
      → String
      → ClaimsObject
      → S
      → List Cookie
      → String × S × List Cookie
  unfolding session_cookie
  session_create production now id user_id role claims s cookies = (
    id,
    sessions.create_session now id user_id role claims default_session_ttl s,
    cookies ++ session_cookie production id default_session_ttl ∷ [],
  )

  pub session_destroy : Option String → S → List Cookie → Bool × S × List Cookie
  unfolding cleared
  session_destroy none s cookies = (false, s, cookies)
  session_destroy (some id) s cookies =
      if id == ""
      then (false, s, cookies)
      else (let (destroyed, rest) = sessions.destroy_session id s in
          (destroyed, rest, if destroyed then cookies ++ cleared "session_id" ∷ [] else cookies))

  pub session_extend : Bool → ℕ → Option String → ℕ → S → List Cookie → Bool × S × List Cookie
  unfolding session_cookie
  session_extend production now none ttl_seconds s cookies = (false, s, cookies)
  session_extend production now (some id) ttl_seconds s cookies =
      if id == "" then (false, s, cookies) else elim sessions.extend_session [
        | none ↦ (false, s, cookies)
        | some extend ↦
            let (extended, rest) = extend now id ttl_seconds s in
            (
              extended,
              rest,
              if extended
                  then cookies ++ session_cookie production id ttl_seconds ∷ []
                  else cookies,
            )
      ]
