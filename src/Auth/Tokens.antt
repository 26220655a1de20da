-- ===== src/Auth/Tokens.antt =====
-- A reset token works once, and only before it expires.
use clean_node_server.Common.{
  beq_refl, ℕ, ◌+◌, ◌*◌, ◌≤◌, ◌≡◌, refl, ap, ◌∙◌, String, false, ◌||◌, List, [], ◌∷◌, Option, none,
  some, arith, All, nat_eq, string_eq, ◌==◌, if◌then◌else◌, leb, Option-cases, inl, inr,
}
use clean_node_server.Common.Assoc
use clean_node_server.Auth.{
  ResetTokens, ResetTokenEntry, sweep_reset_tokens, auth_create_reset_token,
  auth_consume_reset_token, not_positive,
}

pub data TokenEvent : Type 0 where
  created : ℕ → String → ℕ → ℕ → TokenEvent
  consumed : ℕ → String → TokenEvent

abbrev pub time_of : TokenEvent → ℕ
time_of (created now token user_id ttl_seconds) = now
time_of (consumed now token) = now

abbrev pub token_of : TokenEvent → String
token_of (created now token user_id ttl_seconds) = token
token_of (consumed now token) = token

abbrev still_valid : ℕ → Option ResetTokenEntry → Option ResetTokenEntry
still_valid now none = none
still_valid now (some entry) = if leb entry.expires_at now then none else some entry

abbrev user_of : Option ResetTokenEntry → ℕ
user_of none = 0
user_of (some entry) = entry.user_id

has-sweep :
    (now : ℕ) (hash : String) (tokens : ResetTokens)
    → Assoc.has hash tokens ≡ false
    → Assoc.has hash (sweep_reset_tokens now tokens) ≡ false
unfolding sweep_reset_tokens
has-sweep now hash [] h = refl
has-sweep now hash ((j, e) ∷ tokens) h = ground (arith, has-sweep now hash tokens)

sweep-IsMap :
    (now : ℕ) (tokens : ResetTokens)
    → Assoc.IsMap tokens
    → Assoc.IsMap (sweep_reset_tokens now tokens)
unfolding sweep_reset_tokens
sweep-IsMap now [] h = tt
sweep-IsMap now ((j, e) ∷ tokens) h =
    ground (arith, h.0, sweep-IsMap now tokens h.1, has-sweep now j tokens h.0)

get-sweep :
    (now : ℕ) (hash : String) (tokens : ResetTokens)
    → Assoc.IsMap tokens
    → Assoc.get hash (sweep_reset_tokens now tokens) ≡ still_valid now (Assoc.get hash tokens)
unfolding sweep_reset_tokens
get-sweep now hash [] h = refl
get-sweep now hash ((j, e) ∷ tokens) h = ground (
  arith,
  get-sweep now hash tokens h.1,
  has-sweep now j tokens h.0,
  Assoc.get-eq-none j (sweep_reset_tokens now tokens),
  string_eq.beq_iff j hash,
)

module _ (sha256_hex : String → String) where
  pub token_event : TokenEvent → ResetTokens → ResetTokens
  token_event (created now token user_id ttl_seconds) tokens =
      (auth_create_reset_token sha256_hex now token user_id ttl_seconds tokens).1
  token_event (consumed now token) tokens = (auth_consume_reset_token sha256_hex now token tokens).1

  pub token_events : List TokenEvent → ResetTokens → ResetTokens
  unfolding token_event
  token_events [] tokens = tokens
  token_events (e ∷ es) tokens = token_events es (token_event e tokens)

  -- Another token, handled no later.
  abbrev pub IsOther : String → ℕ → TokenEvent → Type 0
  IsOther token later e =
      ((sha256_hex (token_of e) == sha256_hex token) ≡ false) × (time_of e ≤ later)

  token_event-IsMap :
      (e : TokenEvent) (tokens : ResetTokens)
      → Assoc.IsMap tokens
      → Assoc.IsMap (token_event e tokens)
  unfolding token_event auth_create_reset_token auth_consume_reset_token
  token_event-IsMap (created now token user_id ttl_seconds) tokens h = ground (
    arith,
    h,
    sweep-IsMap now tokens h,
    Assoc.set-IsMap (sha256_hex token)
        (record { user_id = user_id; expires_at = now + ttl_seconds * 1000 })
        (sweep_reset_tokens now tokens) (sweep-IsMap now tokens h),
  )
  token_event-IsMap (consumed now token) tokens h =
      ground (arith, h, Assoc.delete-IsMap (sha256_hex token) tokens h)

  still_valid-token_event :
      (token : String) (later : ℕ) (e : TokenEvent) (tokens : ResetTokens)
      → Assoc.IsMap tokens
      → IsOther token later e
      → still_valid later (Assoc.get (sha256_hex token) (token_event e tokens))
        ≡ still_valid later (Assoc.get (sha256_hex token) tokens)
  unfolding token_event auth_create_reset_token auth_consume_reset_token
  still_valid-token_event token later (created now t user_id ttl_seconds) tokens d h = ground (
    arith,
    h,
    get-sweep now (sha256_hex token) tokens d,
    Assoc.get-set (sha256_hex t) (sha256_hex token)
        (record { user_id = user_id; expires_at = now + ttl_seconds * 1000 })
        (sweep_reset_tokens now tokens),
  )
  still_valid-token_event token later (consumed now t) tokens d h =
      ground (arith, h, Assoc.get-delete (sha256_hex t) (sha256_hex token) tokens)

  still_valid-token_events :
      (token : String) (later : ℕ) (es : List TokenEvent) (tokens : ResetTokens)
      → Assoc.IsMap tokens
      → All (IsOther token later) es
      → still_valid later (Assoc.get (sha256_hex token) (token_events es tokens))
        ≡ still_valid later (Assoc.get (sha256_hex token) tokens)
  unfolding token_events
  still_valid-token_events token later [] tokens d h = refl
  still_valid-token_events token later (e ∷ es) tokens d h =
      still_valid-token_events token later es (token_event e tokens) (token_event-IsMap e tokens d)
        h.1
      ∙ still_valid-token_event token later e tokens d h.0

  token_events-IsMap :
      (es : List TokenEvent) (tokens : ResetTokens)
      → Assoc.IsMap tokens
      → Assoc.IsMap (token_events es tokens)
  unfolding token_events
  token_events-IsMap [] tokens d = d
  token_events-IsMap (e ∷ es) tokens d =
      token_events-IsMap es (token_event e tokens) (token_event-IsMap e tokens d)

  consume-user :
      (later : ℕ) (token : String) (tokens : ResetTokens)
      → (token == "") ≡ false
      → (auth_consume_reset_token sha256_hex later token tokens).0
        ≡ (elim (still_valid later (Assoc.get (sha256_hex token) tokens)) [
          | none ↦ 0
          | some entry ↦ entry.user_id
        ])
  unfolding auth_consume_reset_token
  consume-user later token tokens h = elim (Option-cases (Assoc.get (sha256_hex token) tokens)) [
    | inl e ↦ ground (arith, h, e)
    | inr (entry, e) ↦ ground (arith, h, e)
  ]

  consume-gone :
      (later : ℕ) (token : String) (tokens : ResetTokens)
      → (token == "") ≡ false
      → Assoc.get (sha256_hex token) (auth_consume_reset_token sha256_hex later token tokens).1
        ≡ none
  unfolding auth_consume_reset_token
  consume-gone later token tokens h = elim (Option-cases (Assoc.get (sha256_hex token) tokens)) [
    | inl e ↦ ground (arith, h, e)
    | inr (entry, e) ↦ ground (
      arith,
      h,
      e,
      Assoc.get-delete (sha256_hex token) (sha256_hex token) tokens,
      beq_refl (sha256_hex token),
    )
  ]

  create-entry :
      (now : ℕ) (token : String) (user_id ttl_seconds : ℕ) (tokens : ResetTokens)
      → (not_positive user_id || not_positive ttl_seconds) ≡ false
      → Assoc.has (sha256_hex token) tokens ≡ false
      → Assoc.get
          (sha256_hex token)
          (auth_create_reset_token sha256_hex now token user_id ttl_seconds tokens).1
        ≡ some (record { user_id = user_id; expires_at = now + ttl_seconds * 1000 })
  unfolding auth_create_reset_token
  create-entry now token user_id ttl_seconds tokens h k =
      rw (h, has-sweep now (sha256_hex token) tokens k)
        (Assoc.get-set_self (sha256_hex token)
          (record { user_id = user_id; expires_at = now + ttl_seconds * 1000 })
          (sweep_reset_tokens now tokens))

  -- A reset token that was issued for a positive user and lifetime gives this user when it is consumed
  -- before it expires, and 0 from then on, whatever other tokens are created and consumed in between;
  -- consumed again, it gives 0. The clock does not run backwards, and no other token has its hash.
  pub consume-create :
      (now : ℕ) (token : String) (user_id ttl_seconds : ℕ) (tokens : ResetTokens)
      (es : List TokenEvent) (later : ℕ) (afterwards : List TokenEvent) (last : ℕ)
      → (not_positive user_id || not_positive ttl_seconds) ≡ false
      → (token == "") ≡ false
      → Assoc.IsMap tokens
      → Assoc.has (sha256_hex token) tokens ≡ false
      → All (IsOther token later) es
      → All (IsOther token last) afterwards
      → let issued = (auth_create_reset_token sha256_hex now token user_id ttl_seconds tokens).1 in
        let used = auth_consume_reset_token sha256_hex later token (token_events es issued) in
        (used.0 ≡ (if leb (now + ttl_seconds * 1000) later then 0 else user_id))
        × ((auth_consume_reset_token sha256_hex last token (token_events afterwards used.1)).0 ≡ 0)
  unfolding token_event
  consume-create now token user_id ttl_seconds tokens es later afterwards last h k d m o q =
      let issued = token_event (created now token user_id ttl_seconds) tokens in
      let d1 = token_event-IsMap (created now token user_id ttl_seconds) tokens d in
      let d2 = token_events-IsMap es issued d1 in
      let d3 = token_event-IsMap (consumed later token) (token_events es issued) d2 in
      (
        consume-user later token (token_events es issued) k
            ∙ ap user_of (
                still_valid-token_events token later es issued d1 o
                ∙ ap (still_valid later) (create-entry now token user_id ttl_seconds tokens h m))
            ∙ ground arith,
        consume-user last token
              (token_events afterwards
                (token_event (consumed later token) (token_events es issued)))
              k
            ∙ ap user_of (
                still_valid-token_events token last afterwards
                  (token_event (consumed later token) (token_events es issued)) d3 q
                ∙ ap (still_valid last) (consume-gone later token (token_events es issued) k)),
      )
