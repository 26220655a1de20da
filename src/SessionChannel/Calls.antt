-- ===== src/SessionChannel/Calls.antt =====
-- What the worker is told is what the store in the main thread says.
use clean_node_server.Common.{
  take-append, length-drop, All, length-append, subst, ℕ, suc, ◌≡◌, refl, sym, ap, ◌∙◌, String,
  Bool, true, false, not, List, [], ◌∷◌, none, some, arith, length, take, drop, nat_eq,
  if◌then◌else◌, ltb, Bool-cases, inl, inr,
}
use clean_node_server.Session.{Sessions}
use clean_node_server.SessionChannel.{
  session_idle, channel_step, callback, channel_run, wake, handle_op, answer_op, calls, reads,
  answers, wakes, times_out, returned, process_op, answers, too_large, session_done, overwrite,
  session_pending, fits, calls, call, SessionOp, SessionOpResult, Codec, Channel, ChannelEvent,
  CallResult,
}

-- The protocol without a buffer: where the call of the worker stands.
pub data Phase : Type 0 where
  resting : Phase
  asked : SessionOp → Phase
  under_way : SessionOp → Phase
  answered : SessionOpResult → Phase
  unanswered : Phase

pub record Direct : Type 0 where
  pub phase : Phase
  pub sessions : Sessions
  pub results : List CallResult

pub length-overwrite :
    {A : Type 0} (xs ys : List A) → fits xs ys ≡ true → length (overwrite xs ys) ≡ length ys
length-overwrite xs ys h =
    ground (arith, length-append xs (drop (length xs) ys), length-drop (length xs) ys, h)

abbrev pub is_timeout : ChannelEvent → Bool
is_timeout times_out = true
is_timeout _ = false

module _ {Byte : Type 0} (codec : Codec Byte) (size : ℕ) where
  abbrev within : List Byte → Bool
  within bytes = not (ltb size (length bytes))

  -- A step of the protocol, with operations and answers of `size` bytes at most. Without timeouts.
  pub direct_at : ChannelEvent → Phase → Direct → Direct
  direct_at (calls op) resting d =
      if within (codec.encode_op op)
      then record d { phase = asked op }
      else record d { results = too_large (length (codec.encode_op op)) ∷ d.results }
  direct_at reads (asked op) d = record d { phase = under_way op }
  direct_at (answers now id) (under_way op) d =
      let (r, after) = process_op now id op d.sessions in
      record d {
        phase = if within (codec.encode_result r) then answered r else unanswered;
        sessions = after;
      }
  direct_at wakes (answered r) d = record d { phase = resting; results = returned r ∷ d.results }
  direct_at _ _ d = d

  pub direct_run : List ChannelEvent → Direct → Direct
  unfolding direct_at
  direct_run [] d = d
  direct_run (e ∷ es) d = direct_run es (direct_at e d.phase d)

  abbrev AtPhase : Phase → Channel Byte → Type 0
  AtPhase resting c = (c.waiting ≡ false) × (c.posted ≡ 0) × (c.taken ≡ none)
  AtPhase (asked op) c =
      (c.waiting ≡ true)
      × (c.posted ≡ 1)
      × (c.taken ≡ none)
      × (c.state ≡ session_pending)
      × (take c.len c.data_buf ≡ codec.encode_op op)
  AtPhase (under_way op) c =
      (c.waiting ≡ true) × (c.posted ≡ 0) × (c.taken ≡ some op) × (c.state ≡ session_pending)
  AtPhase (answered r) c =
      (c.waiting ≡ true)
      × (c.posted ≡ 0)
      × (c.taken ≡ none)
      × (c.state ≡ session_done)
      × (take c.len c.data_buf ≡ codec.encode_result r)
  AtPhase unanswered c =
      (c.waiting ≡ true) × (c.posted ≡ 0) × (c.taken ≡ none) × (c.state ≡ session_pending)

  abbrev is_over : Phase → Bool
  is_over unanswered = true
  is_over _ = false

  record IsFollowing (d : Direct) (c : Channel Byte) : Type 0 where
    full : length c.data_buf ≡ size
    sessions : c.sessions ≡ d.sessions
    results : c.results ≡ d.results
    at : AtPhase d.phase c
    exited : c.exited ≡ is_over d.phase

  IsFollowing-at :
      {d e : Direct} {b c : Channel Byte} → e ≡ d → b ≡ c → IsFollowing d c → IsFollowing e b
  IsFollowing-at {d} {e} {b} {c} u v f =
      subst (λ x. IsFollowing x b) (sym u) (subst (IsFollowing d) (sym v) f)

  module _ (s : Sessions) (rs : List CallResult) (c : Channel Byte) where
    abbrev at_phase : Phase → Direct
    at_phase p = record { phase = p; sessions = s; results = rs }

    abbrev asking : SessionOp → Channel Byte
    asking op = record c {
      data_buf = overwrite (codec.encode_op op) c.data_buf;
      len = length (codec.encode_op op);
      state = session_pending;
      posted = suc c.posted;
      waiting = true;
    }

    abbrev answering : SessionOpResult → Sessions → Channel Byte
    answering r after = record c {
      taken = none;
      sessions = after;
      data_buf = overwrite (codec.encode_result r) c.data_buf;
      len = length (codec.encode_result r);
      state = session_done;
    }

    call-IsFollowing :
        (op : SessionOp) (p : Phase)
        → IsFollowing (at_phase p) c
        → IsFollowing (direct_at (calls op) p (at_phase p)) (call codec op c)
    unfolding direct_at call
    call-IsFollowing op resting f = elim (Bool-cases (within (codec.encode_op op))) [
      | inl h ↦
          IsFollowing-at {d = at_phase (asked op)} {c = asking op} (rw (h))
            (ground (arith, f.at, f.full, h))
            (record {
              full =
                  length-overwrite (codec.encode_op op) c.data_buf (ground (arith, f.full, h))
                  ∙ f.full;
              sessions = f.sessions;
              results = f.results;
              exited = f.exited;
              at = (
                refl,
                ap suc f.at.1,
                f.at.2,
                refl,
                take-append (codec.encode_op op) (drop (length (codec.encode_op op)) c.data_buf),
              );
            })
      | inr h ↦
          IsFollowing-at
            {d = record (at_phase resting) {
              results = too_large (length (codec.encode_op op)) ∷ rs;
            }}
            {c = record c { results = too_large (length (codec.encode_op op)) ∷ c.results }}
            (rw (h)) (ground (arith, f.at, f.full, h))
            (record {
              full = f.full;
              sessions = f.sessions;
              results = ap (◌∷◌ (too_large (length (codec.encode_op op)))) f.results;
              exited = f.exited;
              at = f.at;
            })
    ]
    call-IsFollowing op (asked o) f = IsFollowing-at refl (ground (arith, f.at)) f
    call-IsFollowing op (under_way o) f = IsFollowing-at refl (ground (arith, f.at)) f
    call-IsFollowing op (answered r) f = IsFollowing-at refl (ground (arith, f.at)) f
    call-IsFollowing op unanswered f = IsFollowing-at refl (ground (arith, f.at)) f

    handle_op-IsFollowing :
        (p : Phase)
        → IsFollowing (at_phase p) c
        → IsFollowing (direct_at reads p (at_phase p)) (handle_op codec c)
    unfolding direct_at handle_op
    handle_op-IsFollowing resting f = IsFollowing-at refl (ground (arith, f.at)) f
    handle_op-IsFollowing (asked o) f =
        IsFollowing-at {c = record c { posted = 0; taken = some o }} refl
          (ground (arith, f.at, codec.op_trip o))
          (record {
            full = f.full;
            sessions = f.sessions;
            results = f.results;
            exited = f.exited;
            at = (f.at.0, refl, refl, f.at.3);
          })
    handle_op-IsFollowing (under_way o) f = IsFollowing-at refl (ground (arith, f.at)) f
    handle_op-IsFollowing (answered r) f = IsFollowing-at refl (ground (arith, f.at)) f
    handle_op-IsFollowing unanswered f = IsFollowing-at refl (ground (arith, f.at)) f

    answer_op-IsFollowing :
        (now : ℕ) (id : String) (p : Phase)
        → IsFollowing (at_phase p) c
        → IsFollowing (direct_at (answers now id) p (at_phase p)) (answer_op codec now id c)
    unfolding direct_at answer_op
    answer_op-IsFollowing now id resting f = IsFollowing-at refl (ground (arith, f.at)) f
    answer_op-IsFollowing now id (asked o) f = IsFollowing-at refl (ground (arith, f.at)) f
    answer_op-IsFollowing now id (under_way o) f =
        elim (Bool-cases (within (codec.encode_result (process_op now id o s).0))) [
          | inl h ↦
              IsFollowing-at
                {d = record (at_phase (answered (process_op now id o s).0)) {
                  sessions = (process_op now id o s).1;
                }}
                {c = answering (process_op now id o s).0 (process_op now id o s).1} (rw (h))
                (ground (arith, f.at, f.full, f.sessions, h))
                (record {
                  full =
                      length-overwrite (codec.encode_result (process_op now id o s).0) c.data_buf
                        (ground (arith, f.full, h))
                      ∙ f.full;
                  sessions = refl;
                  results = f.results;
                  exited = f.exited;
                  at = (
                    f.at.0,
                    f.at.1,
                    refl,
                    refl,
                    take-append (codec.encode_result (process_op now id o s).0)
                        (drop (length (codec.encode_result (process_op now id o s).0)) c.data_buf),
                  );
                })
          | inr h ↦
              IsFollowing-at
                {d = record (at_phase unanswered) { sessions = (process_op now id o s).1 }}
                {c = record c { taken = none; sessions = (process_op now id o s).1; exited = true }}
                (rw (h)) (ground (arith, f.at, f.full, f.sessions, h))
                (record {
                  full = f.full;
                  sessions = refl;
                  results = f.results;
                  exited = refl;
                  at = (f.at.0, f.at.1, refl, f.at.3);
                })
        ]
    answer_op-IsFollowing now id (answered r) f = IsFollowing-at refl (ground (arith, f.at)) f
    answer_op-IsFollowing now id unanswered f = IsFollowing-at refl (ground (arith, f.at)) f

    wake-IsFollowing :
        (p : Phase)
        → IsFollowing (at_phase p) c
        → IsFollowing (direct_at wakes p (at_phase p)) (wake codec c)
    unfolding direct_at wake
    wake-IsFollowing resting f = IsFollowing-at refl (ground (arith, f.at)) f
    wake-IsFollowing (asked o) f = IsFollowing-at refl (ground (arith, f.at)) f
    wake-IsFollowing (under_way o) f = IsFollowing-at refl (ground (arith, f.at)) f
    wake-IsFollowing (answered r) f =
        IsFollowing-at
          {c = record c { state = session_idle; waiting = false; results = returned r ∷ c.results }}
          refl (ground (arith, f.at, codec.result_trip r))
          (record {
            full = f.full;
            sessions = f.sessions;
            results = ap (◌∷◌ (returned r)) f.results;
            exited = f.exited;
            at = (refl, f.at.1, f.at.2);
          })
    wake-IsFollowing unanswered f = IsFollowing-at refl (ground (arith, f.at)) f

  callback-IsFollowing :
      (e : ChannelEvent) (d : Direct) (c : Channel Byte)
      → is_timeout e ≡ false
      → IsFollowing d c
      → IsFollowing (direct_at e d.phase d) (callback codec e c)
  unfolding callback
  callback-IsFollowing (calls op) d c h f = call-IsFollowing d.sessions d.results c op d.phase f
  callback-IsFollowing reads d c h f = handle_op-IsFollowing d.sessions d.results c d.phase f
  callback-IsFollowing (answers now id) d c h f =
      answer_op-IsFollowing d.sessions d.results c now id d.phase f
  callback-IsFollowing wakes d c h f = wake-IsFollowing d.sessions d.results c d.phase f
  callback-IsFollowing times_out d c h f = absurd (cc)

  direct_at-over :
      (e : ChannelEvent) (p : Phase) (d : Direct) → is_over p ≡ true → direct_at e p d ≡ d
  unfolding direct_at
  direct_at-over (calls op) unanswered d h = refl
  direct_at-over reads unanswered d h = refl
  direct_at-over (answers now id) unanswered d h = refl
  direct_at-over wakes unanswered d h = refl
  direct_at-over times_out unanswered d h = refl
  direct_at-over e resting d h = absurd (cc)
  direct_at-over e (asked op) d h = absurd (cc)
  direct_at-over e (under_way op) d h = absurd (cc)
  direct_at-over e (answered r) d h = absurd (cc)

  step-IsFollowing :
      (e : ChannelEvent) (d : Direct) (c : Channel Byte)
      → is_timeout e ≡ false
      → IsFollowing d c
      → IsFollowing (direct_at e d.phase d) (channel_step codec e c)
  unfolding channel_step
  step-IsFollowing e d c h f = elim (Bool-cases c.exited) [
    | inl over ↦
        IsFollowing-at (direct_at-over e d.phase d (sym f.exited ∙ over)) (rw (over, channel_step))
          f
    | inr live ↦ IsFollowing-at refl (rw (live, channel_step)) (callback-IsFollowing e d c h f)
  ]

  run-IsFollowing :
      (es : List ChannelEvent) (d : Direct) (c : Channel Byte)
      → All (λ e. is_timeout e ≡ false) es
      → IsFollowing d c
      → IsFollowing (direct_run es d) (channel_run codec es c)
  unfolding direct_run channel_run
  run-IsFollowing [] d c h f = f
  run-IsFollowing (e ∷ es) d c h f =
      run-IsFollowing es (direct_at e d.phase d) (channel_step codec e c) h.1
        (step-IsFollowing e d c h.0 f)

abbrev pub quiet : {Byte : Type 0} → List Byte → Sessions → Channel Byte
quiet buf s = record {
  state = session_idle;
  len = 0;
  data_buf = buf;
  waiting = false;
  posted = 0;
  taken = none;
  sessions = s;
  results = [];
  exited = false;
}

-- As long as no call times out, the worker's calls return what the operations give on the sessions of the
-- main thread, in the order of the calls and at the time they are answered, or throw because the
-- operation does not fit the buffer, and the sessions are what the operations make of them: the run over
-- the shared buffer agrees with the protocol without one, whatever callbacks come in whatever order, up to
-- the first answer that does not fit, on which the process exits.
pub channel_run-direct :
    {Byte : Type 0} (codec : Codec Byte) (buf : List Byte) (s : Sessions) (es : List ChannelEvent)
    → All (λ e. is_timeout e ≡ false) es
    → ((channel_run codec es (quiet buf s)).results
        ≡ (direct_run codec
            (length buf)
            es
            (record { phase = resting; sessions = s; results = [] })).results)
      × ((channel_run codec es (quiet buf s)).sessions
          ≡ (direct_run codec
              (length buf)
              es
              (record { phase = resting; sessions = s; results = [] })).sessions)
channel_run-direct codec buf s es h =
    let f =
      run-IsFollowing codec (length buf) es (record { phase = resting; sessions = s; results = [] })
        (quiet buf s) h
        (record {
          full = refl;
          sessions = refl;
          results = refl;
          at = (refl, refl, refl);
          exited = refl;
        }) in
    (f.results, f.sessions)
