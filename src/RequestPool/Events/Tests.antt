-- ===== src/RequestPool/Events/Tests.antt =====
-- Runs of the pool on concrete events, and its theorems at concrete inputs.
use clean_node_server.RequestPool.Events.Bounds.{run-initialize-Fits}
use clean_node_server.RequestPool.Events.Closing.{total_workers-created_closed, run-close}
use clean_node_server.RequestPool.Events.Outcomes.{answer-delivers}
use clean_node_server.RequestPool.Events.Progress.{run-elapse-settled, run-initialize-timers}
use clean_node_server.RequestPool.Events.Waiting.{run-initialize-InOrder}
use clean_node_server.RequestPool.Events.Waiting.Answers.{InOrder}
use clean_node_server.Common.{
  ◌≤◌, ◌≡◌, refl, true, false, not, ◌&&◌, List, [], ◌∷◌, none, some, arith, length, nat_eq,
  string_eq, ltb, elem,
}
use clean_node_server.Common.Assoc
use clean_node_server.Types.{RequestContext}
use clean_node_server.RequestPool.{
  drain_from, drain_queue, assign, remove, runs, handle_worker_crash, answer_pending,
  on_worker_message, idle_slot, start_refs, start_slots, settle, is_free, send_to_slot, find_slot,
  timed_out_queued, resolved, overloaded, initialize, answered, rejected, WorkerMessage,
  PendingDispatch, DispatchResult, RequestWorkerPool,
}
use clean_node_server.RequestPool.Events.{
  total_workers, count_some, close_done, reject_all, close, recreated, retry, create_failed,
  install, created, terminated, retire, unqueue, queued, expire, elapse, find_free, send,
  terminates, schedule, creates, new_dispatch, elapses, dispatch, crashes, closing_ends, closes,
  answers, step, run, dispatches, Event,
}
use clean_node_server.RequestPool.Events.Busy.{run-initialize-IsBusy}
use clean_node_server.RequestPool.Events.Busy.Answers.{IsBusy}

abbrev get_home : RequestContext
get_home = record {
  method = "GET";
  path = "/";
  params = [];
  query = [];
  headers = [];
  body = "";
  cookies = [];
  session_id = none;
}

-- One worker and room for one request in the queue: the third request is refused.
abbrev three_requests : List Event
three_requests = dispatches get_home "a" ∷ dispatches get_home "b" ∷ dispatches get_home "c" ∷ []

abbrev page : DispatchResult
page = record { status = 200; headers = []; body = "ok"; cookies = [] }

abbrev page_message : WorkerMessage
page_message = record { id = 0; answer = answered page; needs_restart = false }

pool_calls : Unit {0}
unfolding run step dispatch schedule send find_free find_slot send_to_slot is_free settle initialize
    start_slots start_refs idle_slot new_dispatch on_worker_message answer_pending elapse expire
    handle_worker_crash queued unqueue retire runs remove assign terminated created install
    drain_queue drain_from create_failed retry recreated close reject_all close_done total_workers
    count_some
pool_calls = tt

abbrev full_pool : RequestWorkerPool
full_pool = run (initialize 1 1) three_requests

runs_pool :
    (full_pool.settled ≡ (2, rejected overloaded) ∷ [])
    × (full_pool.timers ≡ 1 ∷ 0 ∷ [])
    × ((step full_pool (answers 0 page_message)).settled
        ≡ (0, resolved page) ∷ (2, rejected overloaded) ∷ [])
    × ((step full_pool (answers 0 page_message)).queue ≡ [])
    × ((step full_pool (crashes 0)).terminating ≡ 0 ∷ [])
    × ((run full_pool (crashes 0 ∷ terminates 0 ∷ creates 0 ∷ [])).queue ≡ [])
    × ((step full_pool (elapses 1)).settled
        ≡ (1, rejected (timed_out_queued 1)) ∷ (2, rejected overloaded) ∷ [])
unfolding pool_calls
runs_pool = (refl, refl, refl, refl, refl, refl, refl)

run-initialize-Fits_example : length (run (initialize 1 1) three_requests).queue ≤ 1
run-initialize-Fits_example = run-initialize-Fits 1 1 three_requests

run-initialize-IsBusy_example : IsBusy (run (initialize 1 1) three_requests)
run-initialize-IsBusy_example = run-initialize-IsBusy 1 1 three_requests

run-initialize-InOrder_example : InOrder (run (initialize 1 1) three_requests)
run-initialize-InOrder_example = run-initialize-InOrder 1 1 three_requests

run-initialize-timers_example :
    elem 1 full_pool.timers ≡ (ltb 1 full_pool.next_id && not (Assoc.has 1 full_pool.settled))
run-initialize-timers_example = run-initialize-timers 1 1 three_requests 1

run-elapse-settled_example : Assoc.has 0 (step full_pool (elapses 0)).settled ≡ true
unfolding pool_calls
run-elapse-settled_example = run-elapse-settled 1 1 three_requests 0 (omega arith)

abbrev first_request : PendingDispatch
first_request = new_dispatch 0 get_home "a"

abbrev second_request : PendingDispatch
second_request = new_dispatch 1 get_home "b"

answer-delivers_example :
    (step full_pool (answers 0 page_message)).settled
    ≡ (0, resolved page) ∷ (2, rejected overloaded) ∷ []
unfolding pool_calls
answer-delivers_example =
    (answer-delivers 0 page_message
      (record { pending = some first_request; retiring = false; index = 0 }) first_request full_pool
      refl refl refl).0

run-close_example :
    dispatch get_home "e" (run (step full_pool closes) (answers 0 page_message ∷ elapses 1 ∷ []))
    ≡ (run (step full_pool closes) (answers 0 page_message ∷ elapses 1 ∷ []), none)
run-close_example =
    (run-close 1 1 three_requests (answers 0 page_message ∷ elapses 1 ∷ []) get_home "e").2

-- The worker has crashed and its replacement is being started when the pool closes.
abbrev closed_pool : RequestWorkerPool
closed_pool = run full_pool (crashes 0 ∷ terminates 0 ∷ closes ∷ [])

total_workers-created_closed_example :
    total_workers (step (step closed_pool closing_ends) (creates 0)) ≡ 1
unfolding pool_calls
total_workers-created_closed_example = (total_workers-created_closed 0 closed_pool refl refl).1
