-- ===== src/SessionChannel/Tests.antt =====
-- A codec whose bytes are the values themselves, and the theorems at concrete inputs.
use clean_node_server.Common.{
  ◌≡◌, refl, String, List, [], ◌∷◌, Option, none, some, ◌⊎◌, inl, inr, string_eq,
}
use clean_node_server.Session.{Sessions, SessionData}
use clean_node_server.SessionChannel.{
  calls, reads, answers, wakes, times_out, timed_out, returned, gets, stores_value, SessionOp,
  SessionOpResult, Codec, ChannelEvent, channel_run, process_op,
}
use clean_node_server.SessionChannel.Calls.{quiet, channel_run-direct, direct_run, resting}
use clean_node_server.SessionChannel.Late.{late_answer, unanswered_op}

abbrev Value : Type 0
Value = SessionOp ⊎ SessionOpResult

abbrev op_in : List Value → Option SessionOp
op_in (inl op ∷ []) = some op
op_in _ = none

abbrev result_in : List Value → Option SessionOpResult
result_in (inr r ∷ _) = some r
result_in _ = none

abbrev values : Codec Value
values = record {
  encode_op = λ op. inl op ∷ [];
  decode_op = op_in;
  encode_result = λ r. inr r ∷ inr r ∷ [];
  decode_result = result_in;
  op_trip = λ op. refl;
  result_trip = λ r. refl;
}

abbrev of_user : String → SessionData
of_user user = record {
  user_id = user;
  role = "user";
  claims = [];
  created_at = 0;
  expires_at = 9000;
}

abbrev sessions : Sessions
sessions = ("a", of_user "ann") ∷ ("b", of_user "bob") ∷ []

-- Room for two values.
abbrev room : List Value
room = inl (gets "") ∷ inl (gets "") ∷ []

abbrev exchange : List ChannelEvent
exchange =
    calls (gets "a")
    ∷ reads
    ∷ answers 10 ""
    ∷ wakes
    ∷ calls (gets "b")
    ∷ reads
    ∷ answers 20 ""
    ∷ wakes
    ∷ []

channel_run-direct_example :
    ((channel_run values exchange (quiet room sessions)).results
      ≡ (direct_run values 2 exchange
          (record { phase = resting; sessions = sessions; results = [] })).results)
    × ((channel_run values exchange (quiet room sessions)).sessions
        ≡ (direct_run values 2 exchange
            (record { phase = resting; sessions = sessions; results = [] })).sessions)
channel_run-direct_example =
    channel_run-direct values room sessions exchange
      (refl, (refl, (refl, (refl, (refl, (refl, (refl, (refl, tt))))))))

-- The session of ann is the answer to the question about bob.
late_answer_example :
    (channel_run values
      (calls (gets "a") ∷ reads ∷ times_out ∷ calls (gets "b") ∷ answers 6000 "" ∷ wakes ∷ [])
      (quiet room sessions)).results
    ≡ returned (process_op 6000 "" (gets "a") sessions).0 ∷ timed_out ∷ []
late_answer_example = late_answer values room sessions (gets "a") 6000 "" (gets "b") refl refl refl

abbrev narrow : List Value
narrow = inl (gets "") ∷ []

unanswered_op_example :
    (channel_run values
      (calls (stores_value "a" "k" "v") ∷ reads ∷ answers 10 "" ∷ times_out ∷ calls (gets "b") ∷ [])
      (quiet narrow sessions)).results
    ≡ []
unanswered_op_example =
    (unanswered_op values narrow sessions (stores_value "a" "k" "v") 10 ""
      (times_out ∷ calls (gets "b") ∷ []) refl refl).1
