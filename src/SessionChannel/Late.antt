-- ===== src/SessionChannel/Late.antt =====
-- Calls that time out.
use clean_node_server.Common.{
  if◌then◌else◌, none, take-append, subst, ℕ, ◌≡◌, refl, sym, ap, ◌∙◌, String, true, false, not,
  List, [], ◌∷◌, some, arith, length, drop, nat_eq, ltb,
}
use clean_node_server.Session.{Sessions}
use clean_node_server.SessionChannel.{
  overwrite, calls, reads, answers, wakes, times_out, timed_out, returned, SessionOp, Codec,
  Channel, ChannelEvent, channel_run, channel_step, callback, call, handle_op, answer_op, wake,
  time_out, fits, process_op, session_pending,
}
use clean_node_server.SessionChannel.Calls.{quiet, length-overwrite}

fits-overwrite :
    {A : Type 0} (xs ys buf : List A)
    → fits ys buf ≡ true
    → fits xs (overwrite ys buf) ≡ fits xs buf
fits-overwrite xs ys buf h = ap (λ n. not (ltb n (length xs))) (length-overwrite ys buf h)

module _ {Byte : Type 0} (codec : Codec Byte) (buf : List Byte) (s : Sessions) (a : SessionOp) where
  -- The operation has been read, and waits for the store.
  abbrev under_way_channel : Channel Byte
  under_way_channel = record (quiet buf s) {
    state = session_pending;
    len = length (codec.encode_op a);
    data_buf = overwrite (codec.encode_op a) buf;
    waiting = true;
    taken = some a;
  }

  called :
      fits (codec.encode_op a) buf ≡ true
      → channel_run codec (calls a ∷ reads ∷ []) (quiet buf s) ≡ under_way_channel
  unfolding channel_run channel_step callback call handle_op
  called h = ground (
    arith,
    h,
    codec.op_trip a,
    take-append (codec.encode_op a) (drop (length (codec.encode_op a)) buf),
  )

  -- If a call times out after the main thread has read it, and the worker calls again before the answer,
  -- then the second call returns the result of the first one, for all operations and answers that fit.
  pub late_answer :
      (now : ℕ) (id : String) (b : SessionOp)
      → fits (codec.encode_op a) buf ≡ true
      → fits (codec.encode_op b) buf ≡ true
      → fits (codec.encode_result (process_op now id a s).0) buf ≡ true
      → (channel_run codec
          (calls a ∷ reads ∷ times_out ∷ calls b ∷ answers now id ∷ wakes ∷ [])
          (quiet buf s)).results
        ≡ returned (process_op now id a s).0 ∷ timed_out ∷ []
  unfolding channel_run channel_step callback call handle_op answer_op wake time_out
  late_answer now id b h k l =
      ap (λ c. (channel_run codec (times_out ∷ calls b ∷ answers now id ∷ wakes ∷ []) c).results)
        (called h)
      ∙ rw (
        fits-overwrite (codec.encode_op b) (codec.encode_op a) buf h ∙ k,
        fits-overwrite (codec.encode_result (process_op now id a s).0) (codec.encode_op b)
              (overwrite (codec.encode_op a) buf)
              (fits-overwrite (codec.encode_op b) (codec.encode_op a) buf h ∙ k)
            ∙ fits-overwrite (codec.encode_result (process_op now id a s).0) (codec.encode_op a) buf
                h
            ∙ l,
        take-append (codec.encode_result (process_op now id a s).0) (
            drop (length (codec.encode_result (process_op now id a s).0))
              (overwrite (codec.encode_op b) (overwrite (codec.encode_op a) buf))),
        codec.result_trip (process_op now id a s).0,
      )

  channel_run-exited :
      (es : List ChannelEvent) (c : Channel Byte) → c.exited ≡ true → channel_run codec es c ≡ c
  unfolding channel_run channel_step
  channel_run-exited [] c h = refl
  channel_run-exited (e ∷ es) c h =
      ap (λ b. channel_run codec es (if b then c else callback codec e c)) h
      ∙ channel_run-exited es c h

  unanswered :
      (now : ℕ) (id : String)
      → fits (codec.encode_op a) buf ≡ true
      → fits (codec.encode_result (process_op now id a s).0) buf ≡ false
      → answer_op codec now id under_way_channel ≡ record under_way_channel {
        taken = none;
        sessions = (process_op now id a s).1;
        exited = true;
      }
  unfolding answer_op
  unanswered now id h k =
      rw (
        fits-overwrite (codec.encode_result (process_op now id a s).0) (codec.encode_op a) buf h
        ∙ k)

  -- An answer that does not fit the buffer ends the process: whatever callbacks would have followed, the
  -- call returns nothing, though its operation fits and has been carried out on the sessions.
  pub unanswered_op :
      (now : ℕ) (id : String) (es : List ChannelEvent)
      → fits (codec.encode_op a) buf ≡ true
      → fits (codec.encode_result (process_op now id a s).0) buf ≡ false
      → let c = channel_run codec (calls a ∷ reads ∷ answers now id ∷ es) (quiet buf s) in
        (c.exited ≡ true) × (c.results ≡ []) × (c.sessions ≡ (process_op now id a s).1)
  unfolding channel_run channel_step callback answer_op
  unanswered_op now id es h k =
      let over : Channel Byte = record under_way_channel {
        taken = none;
        sessions = (process_op now id a s).1;
        exited = true;
      } in
      let ends : channel_run codec (calls a ∷ reads ∷ answers now id ∷ es) (quiet buf s) ≡ over =
        ap (λ c. channel_run codec (answers now id ∷ es) c) (called h)
        ∙ ap (channel_run codec es) (unanswered now id h k)
        ∙ channel_run-exited es over refl in
      subst
        (λ (c : Channel Byte).
          (c.exited ≡ true) × (c.results ≡ []) × (c.sessions ≡ (process_op now id a s).1))
        (sym ends) (refl, refl, refl)
