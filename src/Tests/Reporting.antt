-- ===== src/Tests/Reporting.antt =====
-- The status controller on a queue of one place.
use cluster_machine_approver.Prelude.{
  ◌≡◌, ap, ◌⊎◌, refl, inl, inr, Bool, true, false, Option, none, some, [], ◌∷◌, String,
  if◌then◌else◌, arith, Bool-cases,
}
use cluster_machine_approver.Status.Queue.{RateLimitingQueue}
use cluster_machine_approver.Status.Run.{
  queue_key, run_informer, wait_for_sync, watch_versions, start_worker, wait_for_stop, watch_first,
  shut_down_queue, run,
}
use cluster_machine_approver.Status.Run.Goroutines.{
  QueueView, Keeps, QueueLaws, System, looping, start_of, main_step, first_step, Reach, here, next,
  act,
}
use cluster_machine_approver.Status.Run.Triggers.{IsNew, IsRunning, trigger_served, shut_downs}

record Place : Type 0 where
  waiting : Option String
  is_busy : Bool
  is_closed : Bool

abbrev put : String → Place → Place
put k s = if s.is_closed then s else record s { waiting = some k }

abbrev take_from : (is_busy : Bool) → Option String → Place → Option String × Place
take_from true o s = (none, s)
take_from false none s = (none, s)
take_from false (some k) s = (some k, record s { waiting = none; is_busy = true })

abbrev queue : RateLimitingQueue
queue = record {
  Queue = Place;
  get = λ s. take_from s.is_busy s.waiting s;
  done = λ k s. record s { is_busy = false };
  forget = λ k s. s;
  add_rate_limited = put;
  num_requeues = λ k s. 0;
  add = put;
  shut_down = λ s. record s { is_closed = true };
  elapse = λ s. s;
}

abbrev is_some : Option String → Bool
is_some none = false
is_some (some k) = true

abbrev view : QueueView queue
view = record {
  waits = λ k s. is_some s.waiting;
  processing = λ k s. s.is_busy;
  is_shut_down = λ s. s.is_closed;
  Knows = λ k s. s.waiting ≡ some k;
}

put_knows :
    (k k' : String) (s : Place) → (put k s).waiting ≡ some k' → (k' ≡ k) ⊎ (s.waiting ≡ some k')
put_knows k k' s h = elim (Bool-cases s.is_closed) [
  | inl shut ↦ inr (rw shut at h)
  | inr opened ↦ inl cc
]

put-Keeps : (k : String) → Keeps queue view (put k) (λ k'. k' ≡ k)
put-Keeps k = record {
  waits = λ k' s h. ground arith;
  processing = λ k' s. ground arith;
  is_shut_down = λ s. ground arith;
  knows = λ k' s h. put_knows k k' s h;
}

module _ (k : String) where
  take_only :
      (b : Bool) (o : Option String) (s : Place)
      → is_some o ≡ true
      → b ≡ false
      → ((k' : String) → o ≡ some k' → k' ≡ k)
      → (take_from b o s).0 ≡ some k
  take_only true o s waits free only = cc
  take_only false none s waits free only = cc
  take_only false (some k') s waits free only = ap some (only k' refl)

  take_knows :
      (b : Bool) (o : Option String) (s : Place) → (take_from b o s).0 ≡ some k → o ≡ some k
  take_knows true o s h = cc
  take_knows false none s h = h
  take_knows false (some k') s h = h

  take_keeps :
      (b : Bool) (o : Option String) (s : Place)
      → (take_from b o s).1.waiting ≡ some k
      → s.waiting ≡ some k
  take_keeps true o s h = h
  take_keeps false none s h = h
  take_keeps false (some k') s h = cc

take_open : (b : Bool) (o : Option String) (s : Place) → (take_from b o s).1.is_closed ≡ s.is_closed
take_open true o s = refl
take_open false none s = refl
take_open false (some k) s = refl

laws : QueueLaws queue view
laws = record {
  add_waits = λ k s opened. ground arith;
  add = put-Keeps;
  forget = λ k. record {
    waits = λ k' s h. h;
    processing = λ k' s. refl;
    is_shut_down = λ s. refl;
    knows = λ k' s h. inr h;
  };
  add_rate_limited = put-Keeps;
  elapse = record {
    waits = λ k s h. h;
    processing = λ k s. refl;
    is_shut_down = λ s. refl;
    knows = λ k s h. inr h;
  };
  get_only = λ k s waits free only. take_only k s.is_busy s.waiting s waits free only;
  get_knows = λ k s h. take_knows k s.is_busy s.waiting s h;
  get_keeps = λ k s h. take_keeps k s.is_busy s.waiting s h;
  get_shut_down = λ s. take_open s.is_busy s.waiting s;
  done_waits = λ k k' s h. h;
  done_frees = λ k s. refl;
  done_knows = λ k k' s h. h;
  done_shut_down = λ k s. refl;
}

abbrev empty_place : Place
empty_place = record { waiting = none; is_busy = false; is_closed = false }

new : IsNew queue view empty_place
new = record { knows = λ k h. cc; processing = refl; is_shut_down = refl }

-- After the caches are synced and the watcher has added its first key.
abbrev triggered : System queue
triggered = record {
  todo = wait_for_stop ∷ shut_down_queue ∷ [];
  informing = true;
  watcher = looping;
  working = true;
  busy = none;
  stop_closed = false;
  owed = true;
  queue = record { waiting = some queue_key; is_busy = false; is_closed = false };
}

Reach-triggered : Reach queue (start_of queue true empty_place) triggered
unfolding start_of run act watch_first
Reach-triggered =
    next
      (next
        (next
          (next (next here (main_step run_informer _ refl (λ e. cc)))
            (main_step wait_for_sync _ refl (λ e. cc)))
          (main_step watch_versions _ refl (λ e. cc)))
        (main_step start_worker _ refl (λ e. cc)))
      (first_step refl)

IsRunning-triggered : IsRunning triggered
unfolding shut_downs
IsRunning-triggered = refl

trigger_served_example : (queue.get triggered.queue).0 ≡ some queue_key
trigger_served_example =
    trigger_served queue view true empty_place triggered laws new Reach-triggered
      IsRunning-triggered refl refl
