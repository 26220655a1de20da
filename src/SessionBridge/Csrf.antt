-- ===== src/SessionBridge/Csrf.antt =====
-- The token against request forgery, in the main thread and in a worker.
use clean_node_server.Common.{
  ℕ, ◌≡◌, ap, ◌∙◌, String, true, false, none, some, arith, string_eq, ◌==◌, if◌then◌else◌, ltb,
}
use clean_node_server.Common.Assoc
use clean_node_server.Session.{
  SessionData, Sessions, ClaimsObject, text, get, assign, in_object, claim_text,
}
use clean_node_server.SessionBridge.{
  csrf_key, claim_of, SessionStore, memory_store, broker_store, change_shared, session_set_csrf,
  session_get_csrf, changed, current,
}

get-found :
    (now : ℕ) (id : String) (s : Sessions) (d : SessionData)
    → (get now id s).0 ≡ some d
    → (Assoc.get id s ≡ some d) × (ltb d.expires_at now ≡ false)
unfolding get
get-found now id s d h = ground (arith, h)

claim_of-assign :
    (token : String) (d : SessionData)
    → claim_of csrf_key (record d { claims = assign csrf_key token d.claims }) ≡ token
unfolding assign in_object claim_text
claim_of-assign token d = ground (
  arith,
  Assoc.get-set_self csrf_key (text token) d.claims,
  Assoc.has-set csrf_key csrf_key (text token) d.claims,
)

changed-found :
    {S : Type 0} (sessions : SessionStore S) (now : ℕ) (id : String)
    (change : ClaimsObject → ClaimsObject) (s : S) (d : SessionData) (rest : S)
    → sessions.find now id s ≡ (some d, rest)
    → changed sessions now id (λ d. true) change s ≡ (true, sessions.change_claims id change rest)
unfolding changed
changed-found sessions now id change s d rest e =
    ap
      (λ p. elim p.0 [
        | none ↦ (false, p.1)
        | some d ↦ (true, sessions.change_claims id change p.1)
      ])
      e

module _ (now : ℕ) (id : String) (s : Sessions) (d : SessionData) (h : (id == "") ≡ false)
    (e : (get now id s).0 ≡ some d) where
  get-same : get now id s ≡ (some d, s)
  unfolding get
  get-same = let (f, g) = get-found now id s d e in rw (f, get) (rw (g))

  set_shared :
      (token : String)
      → change_shared id (assign csrf_key token) s
        ≡ Assoc.set id (record d { claims = assign csrf_key token d.claims }) s
  unfolding change_shared
  set_shared token = rw ((get-found now id s d e).0, change_shared)

  session_set_csrf-memory :
      (token : String)
      → session_set_csrf memory_store now (some id) token s
        ≡ (true, Assoc.set id (record d { claims = assign csrf_key token d.claims }) s)
  unfolding session_set_csrf memory_store
  session_set_csrf-memory token = rw (h) (
      changed-found memory_store now id (assign csrf_key token) s d s get-same
      ∙ ap (λ t. (true, t)) (set_shared token))

  session_set_csrf-broker :
      (token : String) → session_set_csrf broker_store now (some id) token s ≡ (true, s)
  unfolding session_set_csrf broker_store memory_store
  session_set_csrf-broker token =
      rw (h) (changed-found broker_store now id (assign csrf_key token) s d s get-same)

  session_get_csrf-set :
      (later : ℕ) (token : String)
      → (session_get_csrf memory_store later
          (some id)
          (Assoc.set id (record d { claims = assign csrf_key token d.claims }) s)).0
        ≡ (if ltb d.expires_at later then "" else token)
  unfolding session_get_csrf current memory_store get
  session_get_csrf-set later token = ground (
    arith,
    h,
    Assoc.get-set_self id (record d { claims = assign csrf_key token d.claims }) s,
    claim_of-assign token d,
  )

  -- In the main thread, the token that is set for a session is the one that is read as long as the
  -- session has not expired.
  pub session_get_csrf-set_csrf :
      (later : ℕ) (token : String)
      → let (stored, after) = session_set_csrf memory_store now (some id) token s in
        (stored ≡ true)
        × ((session_get_csrf memory_store later (some id) after).0
            ≡ (if ltb d.expires_at later then "" else token))
  session_get_csrf-set_csrf later token = (
    ap (λ p. p.0) (session_set_csrf-memory token),
    ap (λ p. (session_get_csrf memory_store later (some id) p.1).0) (session_set_csrf-memory token)
        ∙ session_get_csrf-set later token,
  )

  -- In a worker, setting the token of a session reports success and changes nothing: what is read is
  -- what was read before.
  pub session_get_csrf-broker :
      (later : ℕ) (token : String)
      → let (stored, after) = session_set_csrf broker_store now (some id) token s in
        (stored ≡ true)
        × (session_get_csrf broker_store later (some id) after
            ≡ session_get_csrf broker_store later (some id) s)
  session_get_csrf-broker later token = (
    ap (λ p. p.0) (session_set_csrf-broker token),
    ap (λ p. session_get_csrf broker_store later (some id) p.1) (session_set_csrf-broker token),
  )
