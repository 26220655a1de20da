-- ===== src/Session/Lifetime/Answers.antt =====
-- What the operations answer after a clean-up.
use clean_node_server.Common.{
  arith, ℕ, ◌≡◌, ◌≤◌, ◌∙◌, refl, sym, ap, String, false, Option, none, inl, inr, Option-cases,
  string_eq,
}
use clean_node_server.Common.Assoc
use clean_node_server.Session.{
  SessionData, Sessions, ClaimsObject, with_session, get, cleanup, update, updated, extend,
  extended, store_value, stored, get_value, value_read, delete_value, value_deleted, has_key,
  key_tested,
}
use clean_node_server.Session.Lifetime.{with_session-found, with_session-missing}
use clean_node_server.Session.Lifetime.Lookups.{get-cleanup}

-- An operation that begins with a look-up, and answers from the session that it finds.
with_session-answer {ℓ} :
    {A : Type ℓ} (t : ℕ) (id : String) (missing : A) (found : SessionData → Sessions → A × Sessions)
    (m m' : Sessions)
    → ((s : SessionData) (r r' : Sessions) → (found s r).0 ≡ (found s r').0)
    → (get t id m).0 ≡ (get t id m').0
    → (with_session t id missing found m).0 ≡ (with_session t id missing found m').0
with_session-answer t id missing found m m' alone e = elim (Option-cases (get t id m').0) [
  | inl g ↦
      ap (λ p. p.0) (with_session-missing t id missing found m (e ∙ g))
      ∙ sym (ap (λ p. p.0) (with_session-missing t id missing found m' g))
  | inr (s, g) ↦
      ap (λ p. p.0) (with_session-found t id missing found m s (e ∙ g))
      ∙ alone s m m'
      ∙ sym (ap (λ p. p.0) (with_session-found t id missing found m' s g))
]

-- After a clean-up, at the same time or later, `get`, `update`, `extend`, `storeValue`, `getValue`,
-- `deleteValue` and `hasKey` answer for every session what they would have answered without it.
pub answers-cleanup :
    (now t : ℕ) (id : String) (m : Sessions)
    → now ≤ t
    → Assoc.IsMap m
    → let c = cleanup now m in
      ((get t id c).0 ≡ (get t id m).0)
      × ((user_id role : Option String) (claims : Option ClaimsObject)
          → (update t id user_id role claims c).0 ≡ (update t id user_id role claims m).0)
      × ((ttl : ℕ) → (extend t id ttl c).0 ≡ (extend t id ttl m).0)
      × ((key value : String) → (store_value t id key value c).0 ≡ (store_value t id key value m).0)
      × ((key : String) → (get_value t id key c).0 ≡ (get_value t id key m).0)
      × ((key : String) → (delete_value t id key c).0 ≡ (delete_value t id key m).0)
      × ((key : String) → (has_key t id key c).0 ≡ (has_key t id key m).0)
unfolding update updated extend extended store_value stored get_value value_read delete_value
    value_deleted has_key key_tested
answers-cleanup now t id m h d =
    let e = get-cleanup now t id m h d in
    let c = cleanup now m in
    (
      e,
      λ user_id role claims.
          with_session-answer t id false (updated id user_id role claims) c m (λ s r r'. refl) e,
      λ ttl. with_session-answer t id false (extended t id ttl) c m (λ s r r'. refl) e,
      λ key value. with_session-answer t id false (stored id key value) c m (λ s r r'. refl) e,
      λ key. with_session-answer t id none (value_read key) c m (λ s r r'. refl) e,
      λ key. with_session-answer t id false (value_deleted id key) c m (λ s r r'. ground arith) e,
      λ key. with_session-answer t id false (key_tested key) c m (λ s r r'. refl) e,
    )
