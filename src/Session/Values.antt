-- ===== src/Session/Values.antt =====
-- The values that a session keeps under keys: storing, reading, deleting, testing.
use clean_node_server.Common.{
  beq_refl, beq-ne, ℕ, ◌≤◌, ◌≡◌, ◌≢◌, refl, sym, ◌∙◌, String, true, false, ◌||◌, inl, inr, Option,
  none, some, arith, nat_eq, string_eq, ◌==◌, if◌then◌else◌, Bool-cases,
}
use clean_node_server.Common.Assoc
use clean_node_server.Session.{
  value_deleted, key_tested, value_read, text, inherited, claim_text, stored, in_object, assign,
  Sessions, SessionData, ClaimsObject, get, store_value, get_value, delete_value, has_key,
}
use clean_node_server.Session.Lifetime.{with_session-found}
use clean_node_server.Session.Lifetime.Lookups.{get-live_at, live_at}

assign-get :
    (key j value : String) (c : ClaimsObject)
    → key ≢ "__proto__"
    → Assoc.get j (assign key value c) ≡ (if key == j then some (text value) else Assoc.get j c)
unfolding assign
assign-get key j value c h = rw (beq-ne key "__proto__" h) (Assoc.get-set key j (text value) c)

assign-has :
    (key j value : String) (c : ClaimsObject)
    → key ≢ "__proto__"
    → Assoc.has j (assign key value c) ≡ (key == j || Assoc.has j c)
unfolding assign
assign-has key j value c h = rw (beq-ne key "__proto__" h) (Assoc.has-set key j (text value) c)

-- What reading a key of a claims object gives.
read : String → ClaimsObject → Option String
read key c = if in_object key c then claim_text key c else none

read-assign :
    (key j value : String) (c : ClaimsObject)
    → key ≢ "__proto__"
    → read j (assign key value c) ≡ (if key == j then some value else read j c)
unfolding read in_object claim_text
read-assign key j value c h = ground (arith, assign-get key j value c h, assign-has key j value c h)

get-set_live :
    (t : ℕ) (id : String) (s : SessionData) (m : Sessions)
    → t ≤ s.expires_at
    → (get t id (Assoc.set id s m)).0 ≡ some s
get-set_live t id s m h = rw get-live_at (rw Assoc.get-set_self (ground arith))

get-later :
    (now t : ℕ) (id : String) (m : Sessions) (s : SessionData)
    → (get now id m).0 ≡ some s
    → t ≤ s.expires_at
    → (get t id m).0 ≡ some s
get-later now t id m s e h = rw get-live_at (go (Assoc.get id m) (sym (get-live_at now id m) ∙ e))
  where
    go : (o : Option SessionData) → live_at now o ≡ some s → live_at t o ≡ some s
    go none f = cc
    go (some s') f = ground arith

found-alive :
    (now : ℕ) (id : String) (m : Sessions) (s : SessionData)
    → (get now id m).0 ≡ some s
    → now ≤ s.expires_at
found-alive now id m s e = go (Assoc.get id m) (sym (get-live_at now id m) ∙ e)
  where
    go : (o : Option SessionData) → live_at now o ≡ some s → now ≤ s.expires_at
    go none f = cc
    go (some s') f = ground arith

has_key-found :
    (t : ℕ) (id j : String) (m : Sessions) (s : SessionData)
    → (get t id m).0 ≡ some s
    → has_key t id j m ≡ (in_object j s.claims, m)
unfolding has_key key_tested
has_key-found t id j m s e = with_session-found t id false (key_tested j) m s e

in_object-delete :
    (key j : String) (c : ClaimsObject)
    → in_object j (Assoc.delete key c) ≡ (if key == j then inherited j else in_object j c)
unfolding in_object
in_object-delete key j c = ground (arith, Assoc.has-delete key j c)

in_object-absent :
    (key j : String) (c : ClaimsObject)
    → in_object key c ≡ false
    → in_object j c ≡ (if key == j then inherited j else in_object j c)
unfolding in_object
in_object-absent key j c h = elim (Bool-cases (key == j)) [
  | inl same ↦ let e : key ≡ j = (string_eq.beq_iff key j).0 same in rw (same, ← e) (ground arith)
  | inr other ↦ rw other
]

module _ (now t : ℕ) (id key : String) (m : Sessions) (s : SessionData)
    (found : (get now id m).0 ≡ some s) (alive : t ≤ s.expires_at) where
  -- A value stored under a key of a live session is read back while the session lives, and the
  -- values under the other keys stay as they are. The key `__proto__` is excepted.
  get_value-store_value :
      (j value : String)
      → key ≢ "__proto__"
      → ((store_value now id key value m).0 ≡ true)
        × ((get_value t id j (store_value now id key value m).1).0
            ≡ (if key == j then some value else (get_value t id j m).0))
  unfolding store_value stored get_value value_read
  get_value-store_value j value h =
      let s' : SessionData = record s { claims = assign key value s.claims } in
      rw (with_session-found now id false (stored id key value) m s found) (
        refl,
        rw
            (with_session-found t id none (value_read j) (Assoc.set id s' m) s'
              (get-set_live t id s' m alive))
            (rw
              (with_session-found t id none (value_read j) m s (get-later now t id m s found alive))
              (unfold read in read-assign key j value s.claims h)),
      )

  -- A deleted key of a live session is gone while the session lives, except that every name that
  -- objects inherit still counts as present; the other keys stay as they are.
  pub has_key-delete_value :
      (j : String)
      → ((delete_value now id key m).0 ≡ in_object key s.claims)
        × ((has_key t id j (delete_value now id key m).1).0
            ≡ (if key == j then inherited j else (has_key t id j m).0))
  unfolding delete_value value_deleted
  has_key-delete_value j = rw (with_session-found now id false (value_deleted id key) m s found) (
      rw (has_key-found t id j m s (get-later now t id m s found alive))
        (elim (Bool-cases (in_object key s.claims)) [
          | inl present ↦
              let s' : SessionData = record s { claims = Assoc.delete key s.claims } in
              rw present (
                refl,
                rw (has_key-found t id j (Assoc.set id s' m) s' (get-set_live t id s' m alive))
                    (in_object-delete key j s.claims),
              )
          | inr absent ↦ rw absent (
            refl,
            rw (has_key-found t id j m s (get-later now t id m s found alive))
                (in_object-absent key j s.claims absent),
          )
        ]))

-- A name that objects inherit, stored in no session, is reported as a key of every live session;
-- deleting it reports success and leaves it; and reading it gives no value, except for `__proto__`.
pub inherited_key :
    (now : ℕ) (id key : String) (m : Sessions) (s : SessionData)
    → (get now id m).0 ≡ some s
    → inherited key ≡ true
    → Assoc.has key s.claims ≡ false
    → ((has_key now id key m).0 ≡ true)
      × ((delete_value now id key m).0 ≡ true)
      × ((has_key now id key (delete_value now id key m).1).0 ≡ true)
      × ((get_value now id key m).0 ≡ (if key == "__proto__" then some "{}" else none))
unfolding get_value value_read claim_text in_object
inherited_key now id key m s found name free =
    let alive : now ≤ s.expires_at = found-alive now id m s found in
    let (gone, after) = has_key-delete_value now now id key m s found alive key in
    (
      rw (has_key-found now id key m s found) (unfold in_object in (ground arith)),
      gone ∙ (unfold in_object in (ground arith)),
      after ∙ (ground (arith, beq_refl key)),
      rw (with_session-found now id none (value_read key) m s found)
          (ground (arith, Assoc.get-eq-none key s.claims free)),
    )
