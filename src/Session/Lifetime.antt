-- ===== src/Session/Lifetime.antt =====
-- How long a session lives: until it expires, is destroyed or replaced, and never again after that.
pub mod Lookups
pub mod Answers
use clean_node_server.Common.{
  ltb→lt, ℕ, ◌+◌, ◌*◌, ◌<◌, ◌≤◌, ◌≡◌, ◌≢◌, refl, sym, ap, ◌∙◌, String, Bool, true, false, inl, inr,
  List, [], ◌∷◌, Option, none, some, arith, nat_eq, string_eq, ◌==◌, if◌then◌else◌, if_cases, ltb,
  All, Option-cases,
}
use clean_node_server.Common.Assoc
use clean_node_server.Session.{
  new_session, key_tested, value_deleted, value_read, stored, extended, updated, in_object,
  with_session, clear, Sessions, SessionData, ClaimsObject, create, get, destroy, cleanup, update,
  extend, store_value, get_value, delete_value, has_key,
}
use clean_node_server.Session.Lifetime.Lookups.{
  live_at, get-live_at, get-create, cleanup-has, get-cleanup,
}

pub data Call : Type 0 where
  creates : String → String → String → ClaimsObject → ℕ → Call
  gets destroys : String → Call
  cleans clears : Call
  updates : String → Option String → Option String → Option ClaimsObject → Call
  extends : String → ℕ → Call
  stores : String → String → String → Call
  reads deletes tests_key : String → String → Call

-- The store after a call at time `now`.
pub perform : ℕ → Call → Sessions → Sessions
perform now (creates id user_id role claims ttl) m = create now id user_id role claims ttl m
perform now (gets id) m = (get now id m).1
perform now (destroys id) m = (destroy id m).1
perform now cleans m = cleanup now m
perform now clears m = clear m
perform now (updates id user_id role claims) m = (update now id user_id role claims m).1
perform now (extends id ttl) m = (extend now id ttl m).1
perform now (stores id key value) m = (store_value now id key value m).1
perform now (reads id key) m = (get_value now id key m).1
perform now (deletes id key) m = (delete_value now id key m).1
perform now (tests_key id key) m = (has_key now id key m).1

pub perform_all : Sessions → List (ℕ × Call) → Sessions
perform_all m [] = m
perform_all m ((now, c) ∷ cs) = perform_all (perform now c m) cs

-- A session that is absent, or expired before time `t`.
abbrev pub IsOver : ℕ → Option SessionData → Type 0
IsOver t none = Unit {0}
IsOver t (some s) = s.expires_at < t

abbrev pub IsCreation : Call → Type 0
IsCreation (creates _ _ _ _ _) = Unit {0}
IsCreation _ = ⊥

-- A call at time `t` or later that does not create session `id`.
abbrev pub IsOther : ℕ → String → ℕ × Call → Type 0
IsOther t id (now, creates j _ _ _ _) = (t ≤ now) × (j ≢ id)
IsOther t id (now, _) = t ≤ now

pub get-cases {κ} :
    (P : Option SessionData × Sessions → Type κ) (now : ℕ) (j : String) (m : Sessions)
    → (Assoc.get j m ≡ none → P (none, m))
    → ((s : SessionData) → Assoc.get j m ≡ some s → s.expires_at < now → P (none, Assoc.delete j m))
    → ((s : SessionData) → Assoc.get j m ≡ some s → now ≤ s.expires_at → P (some s, m))
    → P (get now j m)
unfolding get
get-cases P now j m absent expired found = elim (Option-cases (Assoc.get j m)) [
  | inl e ↦ rw (e, get) (absent e)
  | inr (s, e) ↦
      rw (e, get)
        (if_cases P (ltb s.expires_at now) _ _ (λ h. expired s e (ltb→lt _ _ h))
          (λ h. found s e (ground arith)))
]

-- What a call that begins with `get` can come to.
pub with_session-cases {ℓ κ} :
    {A : Type ℓ} (P : A × Sessions → Type κ) (now : ℕ) (j : String) (missing : A)
    (found : SessionData → Sessions → A × Sessions) (m : Sessions)
    → (Assoc.get j m ≡ none → P (missing, m))
    → ((s : SessionData)
        → Assoc.get j m ≡ some s
        → s.expires_at < now
        → P (missing, Assoc.delete j m))
    → ((s : SessionData) → Assoc.get j m ≡ some s → now ≤ s.expires_at → P (found s m))
    → P (with_session now j missing found m)
with_session-cases P now j missing found m absent expired live =
    get-cases
      (λ (r : Option SessionData × Sessions).
        P (elim r.0 [ none ↦ (missing, r.1) | some s ↦ found s r.1 ]))
      now j m absent expired live

get-found :
    (now : ℕ) (j : String) (m : Sessions) (s : SessionData)
    → (get now j m).0 ≡ some s
    → get now j m ≡ (some s, m)
get-found now j m s =
    get-cases (λ (r : Option SessionData × Sessions). r.0 ≡ some s → r ≡ (some s, m)) now j m
      (λ _ f. cc) (λ _ _ _ f. cc) (λ s' _ _ f. ap (λ o. (o, m)) f)

pub with_session-found {ℓ} :
    {A : Type ℓ} (now : ℕ) (j : String) (missing : A)
    (found : SessionData → Sessions → A × Sessions) (m : Sessions) (s : SessionData)
    → (get now j m).0 ≡ some s
    → with_session now j missing found m ≡ found s m
with_session-found {A} now j missing found m s e =
    ap
      (λ (r : Option SessionData × Sessions). elim r.0 as (λ _. A × Sessions) [
        | none ↦ (missing, r.1)
        | some s ↦ found s r.1
      ])
      (get-found now j m s e)

pub with_session-missing {ℓ} :
    {A : Type ℓ} (now : ℕ) (j : String) (missing : A)
    (found : SessionData → Sessions → A × Sessions) (m : Sessions)
    → (get now j m).0 ≡ none
    → with_session now j missing found m ≡ (missing, (get now j m).1)
with_session-missing {A} now j missing found m e =
    ap
      (λ (o : Option SessionData). elim o as (λ _. A × Sessions) [
        | none ↦ (missing, (get now j m).1)
        | some s ↦ found s (get now j m).1
      ])
      e

cleanup-IsMap : (now : ℕ) (m : Sessions) → Assoc.IsMap m → Assoc.IsMap (cleanup now m)
unfolding cleanup
cleanup-IsMap now [] h = tt
cleanup-IsMap now ((j, s) ∷ m) (new, h) =
    if_cases (λ (r : Sessions). Assoc.IsMap r) (ltb s.expires_at now) _ _
      (λ _. cleanup-IsMap now m h) (λ _. (cleanup-has now j m new, cleanup-IsMap now m h))

clear-IsMap : (m : Sessions) → Assoc.IsMap (clear m)
unfolding clear
clear-IsMap m = tt

clear-IsOver : (t : ℕ) (id : String) (m : Sessions) → IsOver t (Assoc.get id (clear m))
unfolding clear
clear-IsOver t id m = tt

-- What deletion, the clean-up, clearing and a change of a live session keep, every call but `create` keeps.
module _ {κ} (P : Sessions → Type κ) (now : ℕ) (m : Sessions) (h : P m)
    (deleted : (id : String) → P (Assoc.delete id m)) (cleaned : P (cleanup now m))
    (cleared : P (clear m))
    (changed : (id : String) (s s' : SessionData)
      → Assoc.get id m ≡ some s
      → now ≤ s.expires_at
      → P (Assoc.set id s' m)) where
  session-keeps {ℓ} :
      {A : Type ℓ} (id : String) (missing : A) (found : SessionData → Sessions → A × Sessions)
      → ((s : SessionData) → Assoc.get id m ≡ some s → now ≤ s.expires_at → P (found s m).1)
      → P (with_session now id missing found m).1
  session-keeps {A} id missing found live =
      with_session-cases (λ (r : A × Sessions). P r.1) now id missing found m (λ _. h)
        (λ _ _ _. deleted id) live

  perform-keeps : (c : Call) → ¬ IsCreation c → P (perform now c m)
  unfolding perform destroy update updated extend extended store_value stored get_value value_read
      delete_value value_deleted has_key key_tested
  perform-keeps (creates id user_id role claims ttl) n = absurd (n tt)
  perform-keeps (gets id) n =
      get-cases (λ (r : Option SessionData × Sessions). P r.1) now id m (λ _. h)
        (λ _ _ _. deleted id) (λ _ _ _. h)
  perform-keeps (destroys id) n = deleted id
  perform-keeps cleans n = cleaned
  perform-keeps clears n = cleared
  perform-keeps (updates id user_id role claims) n =
      session-keeps id false (updated id user_id role claims) (λ s e l. changed id s _ e l)
  perform-keeps (extends id ttl) n =
      session-keeps id false (extended now id ttl) (λ s e l. changed id s _ e l)
  perform-keeps (stores id key value) n =
      session-keeps id false (stored id key value) (λ s e l. changed id s _ e l)
  perform-keeps (reads id key) n = session-keeps id none (value_read key) (λ _ _ _. h)
  perform-keeps (deletes id key) n = session-keeps id false (value_deleted id key) (λ s e l.
      if_cases (λ (r : Bool × Sessions). P r.1) (in_object key s.claims) _ _
        (λ _. changed id s (record s { claims = Assoc.delete key s.claims }) e l) (λ _. h))
  perform-keeps (tests_key id key) n = session-keeps id false (key_tested key) (λ _ _ _. h)

-- Calls keep the ids of the store distinct.
pub perform-IsMap :
    (now : ℕ) (c : Call) (m : Sessions) → Assoc.IsMap m → Assoc.IsMap (perform now c m)
unfolding perform create
perform-IsMap now (creates id user_id role claims ttl) m h = Assoc.set-IsMap id _ m h
perform-IsMap now c m h =
    perform-keeps (λ r. Assoc.IsMap r) now m h (λ id. Assoc.delete-IsMap id m h)
      (cleanup-IsMap now m h) (clear-IsMap m) (λ id s s' e l. Assoc.set-IsMap id s' m h) c (λ x. x)

cleanup-IsOver :
    (t now : ℕ) (id : String) (m : Sessions)
    → Assoc.IsMap m
    → IsOver t (Assoc.get id m)
    → IsOver t (Assoc.get id (cleanup now m))
unfolding cleanup
cleanup-IsOver t now id [] d over = over
cleanup-IsOver t now id ((j, s) ∷ m) (new, d) over = ground (
  arith,
  string_eq.beq_iff j id,
  cleanup-IsOver t now id m d,
  cleanup-has now id m,
  Assoc.get-eq-none id (cleanup now m),
)

perform-IsOver :
    (t : ℕ) (id : String) (c : ℕ × Call) (m : Sessions)
    → IsOther t id c
    → Assoc.IsMap m
    → IsOver t (Assoc.get id m)
    → IsOver t (Assoc.get id (perform c.0 c.1 m))
unfolding perform create
perform-IsOver t id (now, creates j user_id role claims ttl) m (later, other) d over =
    rw (Assoc.get-set_ne j id (new_session now user_id role claims ttl) m other) over
perform-IsOver t id (now, c) m later d over =
    perform-keeps (λ r. IsOver t (Assoc.get id r)) now m over
      (λ j. ground (arith, Assoc.get-delete j id m)) (cleanup-IsOver t now id m d over)
      (clear-IsOver t id m)
      (λ j s s' e l. ground (arith, Assoc.get-set j id s' m, string_eq.beq_iff j id)) c (λ x. x)

perform_all-IsOver :
    (t : ℕ) (id : String) (cs : List (ℕ × Call)) (m : Sessions)
    → All (IsOther t id) cs
    → Assoc.IsMap m
    → IsOver t (Assoc.get id m)
    → IsOver t (Assoc.get id (perform_all m cs))
unfolding perform_all
perform_all-IsOver t id [] m h d over = over
perform_all-IsOver t id (c ∷ cs) m h d over =
    perform_all-IsOver t id cs (perform c.0 c.1 m) h.1 (perform-IsMap c.0 c.1 m d)
      (perform-IsOver t id c m h.0 d over)

-- Once a session has expired or is gone, no sequence of later calls brings it back: unless one of
-- them creates a session under the same id, every later look-up fails.
pub get-perform_all_over :
    (t later : ℕ) (id : String) (cs : List (ℕ × Call)) (m : Sessions)
    → t ≤ later
    → All (IsOther t id) cs
    → Assoc.IsMap m
    → (get t id m).0 ≡ none
    → (get later id (perform_all m cs)).0 ≡ none
get-perform_all_over t later id cs m h others d e = rw get-live_at (
    expired-none (Assoc.get id (perform_all m cs)) (
      perform_all-IsOver t id cs m others d
        (none-IsOver (Assoc.get id m) (sym (get-live_at t id m) ∙ e))))
  where
    none-IsOver : (o : Option SessionData) → live_at t o ≡ none → IsOver t o
    none-IsOver none g = tt
    none-IsOver (some s) g = ground arith

    expired-none : (o : Option SessionData) → IsOver t o → live_at later o ≡ none
    expired-none none g = refl
    expired-none (some s) g = ground arith

-- A destroyed session is gone at once, and `destroy` reports whether it was there.
pub destroy-get :
    (t : ℕ) (id j : String) (m : Sessions)
    → ((destroy id m).0 ≡ Assoc.has id m)
      × ((get t j (destroy id m).1).0 ≡ (if id == j then none else (get t j m).0))
unfolding destroy
destroy-get t id j m = (
  refl,
  rw (get-live_at t j (Assoc.delete id m), get-live_at t j m, Assoc.get-delete id j m)
      (ground arith),
)

-- `extend` moves the expiry of a session that a look-up finds, and nothing else of it.
pub extend-get :
    (now ttl t : ℕ) (id : String) (m : Sessions) (s : SessionData)
    → (get now id m).0 ≡ some s
    → ((extend now id ttl m).0 ≡ true)
      × ((get t id (extend now id ttl m).1).0 ≡ (
          if ltb (now + ttl * 1000) t
          then none
          else some (record s { expires_at = now + ttl * 1000 })))
unfolding extend extended
extend-get now ttl t id m s e =
    rw (with_session-found now id false (extended now id ttl) m s e)
      (refl, rw get-live_at (rw Assoc.get-set_self refl))
