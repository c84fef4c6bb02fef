-- ===== src/Status/Run.antt =====
-- The informer's handlers of `NewStatusController`, `Run`, and `watchVersionGetter`.
pub mod Goroutines
pub mod Triggers
pub mod Loops
use Prim.Native.String
use cluster_machine_approver.Prelude.{
  ℕ, zero, suc, Bool, true, false, List, [], ◌∷◌, ◌++◌, String, Error, caches_not_synced,
  if◌then◌else◌,
}
use cluster_machine_approver.Status.Queue.{RateLimitingQueue}

abbrev pub queue_key : String
queue_key = "trigger"

-- The events on the ClusterOperator of the program's name, which alone the informer lists.
pub data InformerEvent : Type 0 where
  add_func update_func delete_func : InformerEvent

unfoldable pub on_informer_event : (q : RateLimitingQueue) → InformerEvent → q.Queue → q.Queue
on_informer_event q add_func s = q.add queue_key s
on_informer_event q update_func s = q.add queue_key s
on_informer_event q delete_func s = q.add queue_key s

-- What the loop of `watchVersionGetter` receives.
pub data Signal : Type 0 where
  stopped version_changed : Signal

-- Before the loop: always one trigger.
unfoldable pub watch_first : (q : RateLimitingQueue) → q.Queue → q.Queue
watch_first q s = q.add queue_key s

-- One turn of the loop: the queue, and whether the function returns.
unfoldable pub on_signal : (q : RateLimitingQueue) → Signal → q.Queue → q.Queue × Bool
on_signal q stopped s = (s, true)
on_signal q version_changed s = (q.add queue_key s, false)

watch_loop : (q : RateLimitingQueue) → List Signal → q.Queue → q.Queue × Bool
unfolding on_signal
watch_loop q [] s = (s, false)
watch_loop q (signal ∷ signals) s =
    let (s', over) = on_signal q signal s in
    let rest = watch_loop q signals s' in if over then (s', true) else rest

-- The queue once the signals are received, and whether the function has returned.
unfoldable pub watch_version_getter :
    (q : RateLimitingQueue) → List Signal → q.Queue → q.Queue × Bool
unfolding watch_first watch_loop
watch_version_getter q signals s = watch_loop q signals (watch_first q s)

-- What `Run` does, in order.
pub data RunAction : Type 0 where
  run_informer : RunAction
  wait_for_sync : RunAction
  handle_error : Error → RunAction
  watch_versions : RunAction
  start_worker : RunAction
  wait_for_stop : RunAction
  shut_down_queue : RunAction

start_workers : (threadiness : ℕ) → List RunAction
start_workers zero = []
start_workers (suc n) = start_worker ∷ start_workers n

after_sync : (threadiness : ℕ) → (synced : Bool) → List RunAction
unfolding start_workers
after_sync threadiness false = handle_error caches_not_synced ∷ []
after_sync threadiness true = watch_versions ∷ start_workers threadiness ++ wait_for_stop ∷ []

-- `synced` is what WaitForCacheSync returns; the shutdown is deferred.
unfoldable pub run : (threadiness : ℕ) → (synced : Bool) → List RunAction
unfolding after_sync
run threadiness synced =
    run_informer ∷ wait_for_sync ∷ after_sync threadiness synced ++ shut_down_queue ∷ []
