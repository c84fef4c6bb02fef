-- ===== src/Status/Run/Triggers.antt =====
-- No trigger of a report is lost.
use cluster_machine_approver.Prelude.{
  ℕ, suc, ◌≤◌, ◌≡◌, refl, ap, ◌∙◌, inl, inr, Bool, true, false, Option, none, some, List, [], ◌∷◌,
  String, Error, arith, Bool-cases, ltb,
}
use cluster_machine_approver.Status.Queue.{RateLimitingQueue, handle_err}
use cluster_machine_approver.Status.Run.{
  queue_key, watch_first, on_signal, stopped, version_changed, InformerEvent, add_func, update_func,
  delete_func, on_informer_event, RunAction, run_informer, wait_for_sync, handle_error,
  watch_versions, start_worker, wait_for_stop, shut_down_queue, run,
}
use cluster_machine_approver.Status.Run.Goroutines.{
  QueueView, Keeps, QueueLaws, System, start_of, act, Step, main_step, stop_step, informer_step,
  first_step, version_step, watch_stop_step, take_step, finish_step, elapse_step, Reach, here, next,
}

-- How often the queue is still to be shut down.
unfoldable pub shut_downs : List RunAction → ℕ
shut_downs [] = 0
shut_downs (shut_down_queue ∷ rest) = suc (shut_downs rest)
shut_downs (run_informer ∷ rest) = shut_downs rest
shut_downs (wait_for_sync ∷ rest) = shut_downs rest
shut_downs (handle_error e ∷ rest) = shut_downs rest
shut_downs (watch_versions ∷ rest) = shut_downs rest
shut_downs (start_worker ∷ rest) = shut_downs rest
shut_downs (wait_for_stop ∷ rest) = shut_downs rest

-- `Run` has not returned.
abbrev pub IsRunning : {q : RateLimitingQueue} → System q → Type 0
IsRunning c = shut_downs c.todo ≡ 1

-- A queue just made.
pub record IsNew (q : RateLimitingQueue) (v : QueueView q) (s : q.Queue) : Type 0 where
  pub knows : (k : String) → ¬ v.Knows k s
  pub processing : v.processing queue_key s ≡ false
  pub is_shut_down : v.is_shut_down s ≡ false

run_once : (synced : Bool) → shut_downs (run 1 synced) ≡ 1
unfolding shut_downs run
run_once true = refl
run_once false = refl

module _ (q : RateLimitingQueue) (v : QueueView q) (laws : QueueLaws q v) where
  -- What holds of the queue, what is owed and what is processed until the queue is shut down.
  record Good (s : q.Queue) (owed : Bool) (busy : Option String) : Type 0 where
    open_queue : v.is_shut_down s ≡ false
    only : (k : String) → v.Knows k s → k ≡ queue_key
    waits : owed ≡ true → v.waits queue_key s ≡ true
    free : busy ≡ none → v.processing queue_key s ≡ false
    key : (k : String) → busy ≡ some k → k ≡ queue_key

  record Inv (todo : List RunAction) (s : q.Queue) (owed : Bool) (busy : Option String)
      : Type 0 where
    once : shut_downs todo ≤ 1
    good : shut_downs todo ≡ 1 → Good s owed busy

  abbrev InvOf : System q → Type 0
  InvOf c = Inv c.todo c.queue c.owed c.busy

  module _ (s : q.Queue) (owed : Bool) (busy : Option String) (g : Good s owed busy) where
    add-Good : Good (q.add queue_key s) true busy
    add-Good =
        let keeps = laws.add queue_key in
        record {
          open_queue = keeps.is_shut_down s ∙ g.open_queue;
          only = λ k known. elim (keeps.knows k s known) [ inl e ↦ e | inr old ↦ g.only k old ];
          waits = λ _. laws.add_waits queue_key s g.open_queue;
          free = λ idle. keeps.processing queue_key s ∙ g.free idle;
          key = g.key;
        }

    informer-Good : (event : InformerEvent) → Good (on_informer_event q event s) true busy
    unfolding on_informer_event
    informer-Good add_func = add-Good
    informer-Good update_func = add-Good
    informer-Good delete_func = add-Good

    elapse-Good : Good (q.elapse s) owed busy
    elapse-Good =
        let keeps = laws.elapse in
        record {
          open_queue = keeps.is_shut_down s ∙ g.open_queue;
          only = λ k known. elim (keeps.knows k s known) [ inl e ↦ cc | inr old ↦ g.only k old ];
          waits = λ h. keeps.waits queue_key s (g.waits h);
          free = λ idle. keeps.processing queue_key s ∙ g.free idle;
          key = g.key;
        }

    take-Good : (k : String) → (q.get s).0 ≡ some k → Good (q.get s).1 false (some k)
    take-Good k taken = record {
      open_queue = laws.get_shut_down s ∙ g.open_queue;
      only = λ k' known. g.only k' (laws.get_keeps k' s known);
      waits = λ h. cc;
      free = λ idle. cc;
      key = λ k' same. g.only k' (laws.get_knows k' s (taken ∙ same));
    }

    finish-Good :
        (f : q.Queue → q.Queue)
        → Keeps q v f (λ k. k ≡ queue_key)
        → Good (q.done queue_key (f s)) owed none
    finish-Good f keeps = record {
      open_queue = laws.done_shut_down queue_key (f s) ∙ keeps.is_shut_down s ∙ g.open_queue;
      only = λ k known. elim (keeps.knows k s (laws.done_knows k queue_key (f s) known)) [
        | inl e ↦ e
        | inr old ↦ g.only k old
      ];
      waits = λ h. laws.done_waits queue_key queue_key (f s) (keeps.waits queue_key s (g.waits h));
      free = λ idle. laws.done_frees queue_key (f s);
      key = λ k same. cc;
    }

    finish_with :
        (k : String) (result : Option Error)
        → k ≡ queue_key
        → Good (q.done k (handle_err q result k s).0) owed none
    unfolding handle_err
    finish_with k none same = rw same (finish-Good (q.forget queue_key) (laws.forget queue_key))
    finish_with k (some e) same = elim (Bool-cases (ltb (q.num_requeues queue_key s) 30)) [
      | inl few ↦
          rw (same, few)
            (finish-Good (q.add_rate_limited queue_key) (laws.add_rate_limited queue_key))
      | inr many ↦ rw (same, many) (finish-Good (q.forget queue_key) (laws.forget queue_key))
    ]

  watch-Good :
      (s : q.Queue) (owed : Bool) (busy : Option String)
      → Good s owed busy
      → Good (watch_first q s) true busy
  unfolding watch_first
  watch-Good s owed busy g = add-Good s owed busy g

  signal-Good :
      (s : q.Queue) (owed : Bool) (busy : Option String)
      → Good s owed busy
      → Good (on_signal q version_changed s).0 true busy
  unfolding on_signal
  signal-Good s owed busy g = add-Good s owed busy g

  stop-Good :
      (s : q.Queue) (owed : Bool) (busy : Option String)
      → Good s owed busy
      → Good (on_signal q stopped s).0 owed busy
  unfolding on_signal
  stop-Good s owed busy g = g

  step-Inv :
      (todo : List RunAction) (s s' : q.Queue) (owed owed' : Bool) (busy busy' : Option String)
      → (Good s owed busy → Good s' owed' busy')
      → Inv todo s owed busy
      → Inv todo s' owed' busy'
  step-Inv todo s s' owed owed' busy busy' keeps i = record {
    once = i.once;
    good = λ h. keeps (i.good h);
  }

  less-Inv :
      (todo rest : List RunAction) (s : q.Queue) (owed : Bool) (busy : Option String)
      → shut_downs todo ≡ shut_downs rest
      → Inv todo s owed busy
      → Inv rest s owed busy
  less-Inv todo rest s owed busy e i = record {
    once = omega (arith, i.once, e);
    good = λ h. i.good (e ∙ h);
  }

  main-Inv :
      (a : RunAction) (rest : List RunAction) (c : System q)
      → c.todo ≡ a ∷ rest
      → InvOf c
      → InvOf (act q a (record c { todo = rest }))
  unfolding act shut_downs
  main-Inv run_informer rest c e i = less-Inv c.todo rest c.queue c.owed c.busy (ap shut_downs e) i
  main-Inv wait_for_sync rest c e i = less-Inv c.todo rest c.queue c.owed c.busy (ap shut_downs e) i
  main-Inv (handle_error x) rest c e i =
      less-Inv c.todo rest c.queue c.owed c.busy (ap shut_downs e) i
  main-Inv watch_versions rest c e i =
      less-Inv c.todo rest c.queue c.owed c.busy (ap shut_downs e) i
  main-Inv start_worker rest c e i = less-Inv c.todo rest c.queue c.owed c.busy (ap shut_downs e) i
  main-Inv wait_for_stop rest c e i = less-Inv c.todo rest c.queue c.owed c.busy (ap shut_downs e) i
  main-Inv shut_down_queue rest c e i =
      let none_left : shut_downs rest ≡ 0 = omega (arith, i.once, ap shut_downs e) in
      record { once = omega (arith, none_left); good = λ h. absurd (omega (arith, none_left, h)) }

  Step-Inv : {c d : System q} → Step q c d → InvOf c → InvOf d
  Step-Inv {c} (main_step a rest e may) i = main-Inv a rest c e i
  Step-Inv stop_step i = i
  Step-Inv {c} (informer_step event on) i =
      step-Inv c.todo c.queue _ c.owed _ c.busy _ (λ g. informer-Good c.queue c.owed c.busy g event)
        i
  Step-Inv {c} (first_step on) i =
      step-Inv c.todo c.queue _ c.owed _ c.busy _ (watch-Good c.queue c.owed c.busy) i
  Step-Inv {c} (version_step on) i =
      step-Inv c.todo c.queue _ c.owed _ c.busy _ (signal-Good c.queue c.owed c.busy) i
  Step-Inv {c} (watch_stop_step on over) i =
      step-Inv c.todo c.queue _ c.owed _ c.busy _ (stop-Good c.queue c.owed c.busy) i
  Step-Inv {c} (take_step k on idle taken) i =
      step-Inv c.todo c.queue _ c.owed _ c.busy _ (λ g. take-Good c.queue c.owed c.busy g k taken) i
  Step-Inv {c} (finish_step k result busy) i =
      step-Inv c.todo c.queue _ c.owed _ c.busy _
        (λ g. finish_with c.queue c.owed c.busy g k result (g.key k busy)) i
  Step-Inv {c} elapse_step i =
      step-Inv c.todo c.queue _ c.owed _ c.busy _ (elapse-Good c.queue c.owed c.busy) i

  start-Inv : (synced : Bool) (s : q.Queue) → IsNew q v s → InvOf (start_of q synced s)
  unfolding start_of
  start-Inv synced s new = record {
    once = omega (arith, run_once synced);
    good = λ _. record {
      open_queue = new.is_shut_down;
      only = λ k known. absurd (new.knows k known);
      waits = λ h. cc;
      free = λ _. new.processing;
      key = λ k h. cc;
    };
  }

  Reach-Inv : {c d : System q} → InvOf c → Reach q c d → InvOf d
  Reach-Inv i here = i
  Reach-Inv i (next r st) = Step-Inv st (Reach-Inv i r)

-- On a queue that behaves as documented and was new at the start, whatever the order of the steps of
-- `Run`, the informer, the watcher and the one worker: until the queue is shut down, if a trigger has
-- come since the worker last took a key and the worker is not busy, then Get hands out the trigger's
-- key.
pub trigger_served :
    (q : RateLimitingQueue) (v : QueueView q) (synced : Bool) (s : q.Queue) (c : System q)
    → QueueLaws q v
    → IsNew q v s
    → Reach q (start_of q synced s) c
    → IsRunning c
    → c.owed ≡ true
    → c.busy ≡ none
    → (q.get c.queue).0 ≡ some queue_key
trigger_served q v synced s c laws new r running owed idle =
    let i = Reach-Inv q v laws (start-Inv q v laws synced s new) r in
    let g = i.good running in laws.get_only queue_key c.queue (g.waits owed) (g.free idle) g.only
