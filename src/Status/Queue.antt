-- ===== src/Status/Queue.antt =====
-- `handleErr`, `processNextItem` and `runWorker`, over the rate limited work queue.
pub mod Retries
use cluster_machine_approver.Prelude.{
  ℕ, zero, suc, Bool, true, false, Option, none, some, List, [], ◌∷◌, String, Error, ltb,
  if◌then◌else◌,
}

-- client-go's workqueue.RateLimitingInterface, as far as the controller uses it: `get` is what Get
-- returns when it does not block, `none` for a queue that is shut down and empty. `elapse` is the
-- time that the delays of `AddRateLimited` wait for.
pub record RateLimitingQueue : Type 1 where
  pub Queue : Type 0
  pub get : Queue → Option String × Queue
  pub done : String → Queue → Queue
  pub forget : String → Queue → Queue
  pub add_rate_limited : String → Queue → Queue
  pub num_requeues : String → Queue → ℕ
  pub add : String → Queue → Queue
  pub shut_down : Queue → Queue
  pub elapse : Queue → Queue

-- Whether the key was dropped, which is reported, and the queue after it.
unfoldable pub handle_err :
    (q : RateLimitingQueue) → Option Error → String → q.Queue → q.Queue × Bool
handle_err q none key s = (q.forget key s, false)
handle_err q (some e) key s =
    if ltb (q.num_requeues key s) 30
    then (q.add_rate_limited key s, false)
    else (q.forget key s, true)

abbrev on_key : (q : RateLimitingQueue) → Option Error → Option String → q.Queue → q.Queue × Bool
on_key q result none s = (s, false)
on_key q result (some key) s = (q.done key (handle_err q result key s).0, true)

-- `result` is what `statusAvailable` returns; the answer false ends the worker.
unfoldable pub process_next_item : (q : RateLimitingQueue) → Option Error → q.Queue → q.Queue × Bool
process_next_item q result s = let (key, s') = q.get s in on_key q result key s'

-- `runWorker`, with what `statusAvailable` returns call by call, and whether it has returned. Where
-- the list ends, the worker waits in Get.
unfoldable pub run_worker : (q : RateLimitingQueue) → List (Option Error) → q.Queue → q.Queue × Bool
unfolding process_next_item
run_worker q [] s = (s, false)
run_worker q (result ∷ results) s =
    let (s', more) = process_next_item q result s in
    let rest = run_worker q results s' in if more then rest else (s', true)
