-- ===== src/Status/Run/Goroutines.antt =====
-- What the goroutines that `Run` starts do to the queue, in any order, with one worker.
use cluster_machine_approver.Prelude.{
  ◌≡◌, ◌⊎◌, Bool, true, false, Option, none, some, List, ◌∷◌, String, Error,
}
use cluster_machine_approver.Status.Queue.{RateLimitingQueue, handle_err}
use cluster_machine_approver.Status.Run.{
  InformerEvent, on_informer_event, stopped, version_changed, on_signal, watch_first, RunAction,
  run_informer, wait_for_sync, handle_error, watch_versions, start_worker, wait_for_stop,
  shut_down_queue, run,
}

-- A view of the queue, as its documentation tells of it: the keys to be handed out, those handed out
-- and not done, and all that it was given.
pub record QueueView (q : RateLimitingQueue) : Type 1 where
  pub waits : String → q.Queue → Bool
  pub processing : String → q.Queue → Bool
  pub is_shut_down : q.Queue → Bool
  pub Knows : String → q.Queue → Type 0

-- An operation that leaves the view as it is, except for keys that start to wait.
pub record Keeps (q : RateLimitingQueue) (v : QueueView q) (f : q.Queue → q.Queue)
    (New : String → Type 0) : Type 0 where
  pub waits : (k : String) (s : q.Queue) → v.waits k s ≡ true → v.waits k (f s) ≡ true
  pub processing : (k : String) (s : q.Queue) → v.processing k (f s) ≡ v.processing k s
  pub is_shut_down : (s : q.Queue) → v.is_shut_down (f s) ≡ v.is_shut_down s
  pub knows : (k : String) (s : q.Queue) → v.Knows k (f s) → New k ⊎ v.Knows k s

-- What the queue's documentation says: an added key waits, unless the queue is shut down; a key that
-- waits and is not processed is handed out, if it is the only one; a key that is done is not
-- processed, and waits if it was added meanwhile.
pub record QueueLaws (q : RateLimitingQueue) (v : QueueView q) : Type 1 where
  pub add_waits :
      (k : String) (s : q.Queue) → v.is_shut_down s ≡ false → v.waits k (q.add k s) ≡ true
  pub add : (k : String) → Keeps q v (q.add k) (λ k'. k' ≡ k)
  pub forget : (k : String) → Keeps q v (q.forget k) (λ k'. k' ≡ k)
  pub add_rate_limited : (k : String) → Keeps q v (q.add_rate_limited k) (λ k'. k' ≡ k)
  pub elapse : Keeps q v q.elapse (λ k'. true ≡ false)
  pub get_only :
      (k : String) (s : q.Queue)
      → v.waits k s ≡ true
      → v.processing k s ≡ false
      → ((k' : String) → v.Knows k' s → k' ≡ k)
      → (q.get s).0 ≡ some k
  pub get_knows : (k : String) (s : q.Queue) → (q.get s).0 ≡ some k → v.Knows k s
  pub get_keeps : (k : String) (s : q.Queue) → v.Knows k (q.get s).1 → v.Knows k s
  pub get_shut_down : (s : q.Queue) → v.is_shut_down (q.get s).1 ≡ v.is_shut_down s
  pub done_waits :
      (k k' : String) (s : q.Queue) → v.waits k s ≡ true → v.waits k (q.done k' s) ≡ true
  pub done_frees : (k : String) (s : q.Queue) → v.processing k (q.done k s) ≡ false
  pub done_knows : (k k' : String) (s : q.Queue) → v.Knows k (q.done k' s) → v.Knows k s
  pub done_shut_down : (k : String) (s : q.Queue) → v.is_shut_down (q.done k s) ≡ v.is_shut_down s

-- `watchVersionGetter` before it is launched, before its first add, in its loop, and after it.
pub data Watcher : Type 0 where
  not_launched launched looping returned : Watcher

-- The controller: what `Run` has still to do, its goroutines, the stop channel, and the queue. The
-- flag `owed` is set by each trigger, and cleared when the worker takes a key and so begins to report.
pub record System (q : RateLimitingQueue) : Type 0 where
  pub todo : List RunAction
  pub informing : Bool
  pub watcher : Watcher
  pub working : Bool
  pub busy : Option String
  pub stop_closed : Bool
  pub owed : Bool
  pub queue : q.Queue

module _ (q : RateLimitingQueue) where
  -- The start of `Run`, on a new queue.
  unfoldable pub start_of : (synced : Bool) → q.Queue → System q
  start_of synced s = record {
    todo = run 1 synced;
    informing = false;
    watcher = not_launched;
    working = false;
    busy = none;
    stop_closed = false;
    owed = false;
    queue = s;
  }

  unfoldable pub act : RunAction → System q → System q
  act run_informer c = record c { informing = true }
  act wait_for_sync c = c
  act (handle_error e) c = c
  act watch_versions c = record c { watcher = launched }
  act start_worker c = record c { working = true }
  act wait_for_stop c = c
  act shut_down_queue c = record c { queue = q.shut_down c.queue }

  abbrev pub MayAct : RunAction → System q → Type 0
  MayAct a c = (a ≡ wait_for_stop) → c.stop_closed ≡ true

  -- One step of one of the goroutines.
  pub data Step (c : System q) : System q → Type 0 where
    main_step :
        (a : RunAction) (rest : List RunAction)
        → c.todo ≡ a ∷ rest
        → MayAct a c
        → Step c (act a (record c { todo = rest }))
    stop_step : Step c (record c { stop_closed = true })
    informer_step :
        (event : InformerEvent)
        → c.informing ≡ true
        → Step c (record c { owed = true; queue = on_informer_event q event c.queue })
    first_step :
        c.watcher ≡ launched
        → Step c (record c { watcher = looping; owed = true; queue = watch_first q c.queue })
    version_step :
        c.watcher ≡ looping
        → Step c (record c { owed = true; queue = (on_signal q version_changed c.queue).0 })
    watch_stop_step :
        c.watcher ≡ looping
        → c.stop_closed ≡ true
        → Step c (record c { watcher = returned; queue = (on_signal q stopped c.queue).0 })
    take_step :
        (k : String)
        → c.working ≡ true
        → c.busy ≡ none
        → (q.get c.queue).0 ≡ some k
        → Step c (record c { busy = some k; owed = false; queue = (q.get c.queue).1 })
    finish_step :
        (k : String) (result : Option Error)
        → c.busy ≡ some k
        → Step c (record c { busy = none; queue = q.done k (handle_err q result k c.queue).0 })
    elapse_step : Step c (record c { queue = q.elapse c.queue })

  pub data Reach (c : System q) : System q → Type 0 where
    here : Reach c c
    next : {d e : System q} → Reach c d → Step d e → Reach c e
