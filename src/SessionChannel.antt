-- ===== src/SessionChannel.antt =====
-- session/broker-store.ts, session/session-channel.ts and session/broker-types.ts: a worker thread asks
-- the main thread for its sessions through a shared buffer. JSON and UTF-8 are a
-- parameter, a codec, and so is the type of a byte, since bytes are only copied.
pub mod Calls
pub mod Late
pub mod Tests
use clean_node_server.Common.{
  ℕ, zero, suc, ◌+◌, ◌-◌, ◌<◌, ◌≤◌, ◌≡◌, String, Bool, true, false, not, ◌&&◌, List, [], ◌∷◌, ◌++◌,
  Option, none, some, length, take, drop, nat_eq, ◌==◌, if◌then◌else◌, ltb,
}
use clean_node_server.Session.{
  SessionData, ClaimsObject, Sessions, create, get, destroy, cleanup, store_value, get_value,
  delete_value, has_key,
}

-- `other_op` stands for an object whose `op` is none of these.
pub data SessionOp : Type 0 where
  creates : String → String → ClaimsObject → ℕ → SessionOp
  gets destroys : String → SessionOp
  cleans_up : SessionOp
  stores_value : String → String → String → SessionOp
  gets_value deletes_value has_the_key : String → String → SessionOp
  other_op : SessionOp

pub record SessionOpResult : Type 0 where
  pub ok : Bool
  pub session_id : Option String
  pub session : Option SessionData
  pub value : Option String
  pub found : Option Bool

pub plain_result : Bool → SessionOpResult
plain_result ok = record { ok = ok; session_id = none; session = none; value = none; found = none }

pub session_data_buffer_size : ℕ
session_data_buffer_size = 262144

abbrev pub session_idle : ℕ
session_idle = 0

abbrev pub session_pending : ℕ
session_pending = 1

abbrev pub session_done : ℕ
session_done = 2

-- The first argument is the time and the second the id that a new session gets.
pub process_op : ℕ → String → SessionOp → Sessions → SessionOpResult × Sessions
unfolding plain_result
process_op now id (creates user_id role claims ttl_seconds) s = (
  record (plain_result true) { session_id = some id },
  create now id user_id role claims ttl_seconds s,
)
process_op now id (gets j) s =
    let (session, rest) = get now j s in (record (plain_result true) { session = session }, rest)
process_op now id (destroys j) s = let (ok, rest) = destroy j s in (plain_result ok, rest)
process_op now id cleans_up s = (plain_result true, cleanup now s)
process_op now id (stores_value j key value) s =
    let (ok, rest) = store_value now j key value s in (plain_result ok, rest)
process_op now id (gets_value j key) s =
    let (value, rest) = get_value now j key s in
    (record (plain_result true) { value = value }, rest)
process_op now id (deletes_value j key) s =
    let (ok, rest) = delete_value now j key s in (plain_result ok, rest)
process_op now id (has_the_key j key) s =
    let (found, rest) = has_key now j key s in
    (record (plain_result true) { found = some found }, rest)
process_op now id other_op s = (plain_result false, s)

-- JSON.stringify with TextEncoder, and TextDecoder with JSON.parse, which can throw. What the store and
-- the broker send comes back as it was.
pub record Codec (Byte : Type 0) : Type 0 where
  pub encode_op : SessionOp → List Byte
  pub decode_op : List Byte → Option SessionOp
  pub encode_result : SessionOpResult → List Byte
  pub decode_result : List Byte → Option SessionOpResult
  pub op_trip : (op : SessionOp) → decode_op (encode_op op) ≡ some op
  pub result_trip : (r : SessionOpResult) → decode_result (encode_result r) ≡ some r

-- What a call of the broker returns or throws.
pub data CallResult : Type 0 where
  returned : SessionOpResult → CallResult
  too_large : ℕ → CallResult
  timed_out : CallResult
  unparsable : CallResult

-- `waiting`: the worker is blocked. `exited`: the process has ended. `posted` counts the messages that the main thread has not taken, and
-- `taken` is the operation that `handleOp` has read and not answered. `results` has the latest first.
pub record Channel (Byte : Type 0) : Type 0 where
  pub state : ℕ
  pub len : ℕ
  pub data_buf : List Byte
  pub waiting : Bool
  pub posted : ℕ
  pub taken : Option SessionOp
  pub sessions : Sessions
  pub results : List CallResult
  pub exited : Bool

-- `dataBuf.set(bytes)`, for bytes that fit.
abbrev pub overwrite : {Byte : Type 0} → List Byte → List Byte → List Byte
overwrite bytes buf = bytes ++ drop (length bytes) buf

abbrev pub fits : {Byte : Type 0} → List Byte → List Byte → Bool
fits bytes buf = not (ltb (length buf) (length bytes))

pub data ChannelEvent : Type 0 where
  calls : SessionOp → ChannelEvent
  reads : ChannelEvent
  answers : ℕ → String → ChannelEvent
  wakes : ChannelEvent
  times_out : ChannelEvent

module _ {Byte : Type 0} (codec : Codec Byte) where
  -- `call`, until it waits. A worker that waits calls nothing.
  pub call : SessionOp → Channel Byte → Channel Byte
  call op c =
      if c.waiting
      then c
      else (let bytes = codec.encode_op op in
          if fits bytes c.data_buf
          then record c {
            data_buf = overwrite bytes c.data_buf;
            len = length bytes;
            state = session_pending;
            posted = suc c.posted;
            waiting = true;
          }
          else record c { results = too_large (length bytes) ∷ c.results })

  -- `handleOp`, until it waits for the store. The process exits on an error of JSON.parse.
  pub handle_op : Channel Byte → Channel Byte
  handle_op c = elim c.posted [
    | zero ↦ c
    | suc n ↦ elim c.taken [
      | some _ ↦ c
      | none ↦ elim (codec.decode_op (take c.len c.data_buf)) [
        | none ↦ record c { posted = n; exited = true }
        | some op ↦ record c { posted = n; taken = some op }
      ]
    ]
  ]

  -- The rest of `handleOp`: an answer that does not fit throws a RangeError, which nobody handles, and
  -- the process exits on it.
  pub answer_op : ℕ → String → Channel Byte → Channel Byte
  unfolding process_op
  answer_op now id c = elim c.taken [
    | none ↦ c
    | some op ↦
        let (r, after) = process_op now id op c.sessions in
        let bytes = codec.encode_result r in
        let done = record c { taken = none; sessions = after } in
        if fits bytes c.data_buf
        then record done {
          data_buf = overwrite bytes c.data_buf;
          len = length bytes;
          state = session_done;
        }
        else record done { exited = true }
  ]

  abbrev parsed : Option SessionOpResult → CallResult
  parsed none = unparsable
  parsed (some r) = returned r

  -- The end of `call`, when Atomics.wait sees that the state is not 'pending'.
  pub wake : Channel Byte → Channel Byte
  wake c =
      if c.waiting && not (c.state == session_pending)
      then record c {
        state = session_idle;
        waiting = false;
        results = parsed (codec.decode_result (take c.len c.data_buf)) ∷ c.results;
      }
      else c

  -- The end of `call` after five seconds without an answer.
  pub time_out : Channel Byte → Channel Byte
  time_out c =
      if c.waiting && c.state == session_pending
      then record c { state = session_idle; waiting = false; results = timed_out ∷ c.results }
      else c

  -- A callback of the worker or of the main thread.
  pub callback : ChannelEvent → Channel Byte → Channel Byte
  unfolding call handle_op answer_op wake time_out
  callback (calls op) c = call op c
  callback reads c = handle_op c
  callback (answers now id) c = answer_op now id c
  callback wakes c = wake c
  callback times_out c = time_out c

  -- A process that has exited runs no callbacks.
  pub channel_step : ChannelEvent → Channel Byte → Channel Byte
  unfolding callback
  channel_step e c = if c.exited then c else callback e c

  pub channel_run : List ChannelEvent → Channel Byte → Channel Byte
  unfolding channel_step
  channel_run [] c = c
  channel_run (e ∷ es) c = channel_run es (channel_step e c)
