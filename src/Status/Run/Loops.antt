-- ===== src/Status/Run/Loops.antt =====
-- The loops of the worker and of the watcher, and the workers that `Run` starts.
use cluster_machine_approver.Prelude.{
  ℕ, zero, suc, ◌≡◌, refl, Bool, true, false, Option, none, List, [], ◌∷◌, Error, any, inl, inr,
  Bool-cases, Option-cases,
}
use cluster_machine_approver.Status.Queue.{RateLimitingQueue, process_next_item, run_worker}
use cluster_machine_approver.Status.Run.{
  queue_key, Signal, stopped, version_changed, on_signal, watch_first, watch_loop,
  watch_version_getter,
}

-- The changes of the version that are received before the stop.
unfoldable pub changes_before_stop : List Signal → ℕ
changes_before_stop [] = 0
changes_before_stop (stopped ∷ signals) = 0
changes_before_stop (version_changed ∷ signals) = suc (changes_before_stop signals)

abbrev is_stop : Signal → Bool
is_stop stopped = true
is_stop version_changed = false

unfoldable pub add_times : (q : RateLimitingQueue) → ℕ → q.Queue → q.Queue
add_times q zero s = s
add_times q (suc n) s = add_times q n (q.add queue_key s)

watch_loop-adds :
    (q : RateLimitingQueue) (signals : List Signal) (s : q.Queue)
    → watch_loop q signals s ≡ (add_times q (changes_before_stop signals) s, any is_stop signals)
unfolding watch_loop on_signal changes_before_stop add_times
watch_loop-adds q [] s = refl
watch_loop-adds q (stopped ∷ signals) s = refl
watch_loop-adds q (version_changed ∷ signals) s = watch_loop-adds q signals (q.add queue_key s)

-- The watcher adds the key once at the start and once for each change of the version before the stop,
-- and returns exactly when the stop is among what it receives.
pub watch_version_getter-adds :
    (q : RateLimitingQueue) (signals : List Signal) (s : q.Queue)
    → watch_version_getter q signals s
      ≡ (add_times q (suc (changes_before_stop signals)) s, any is_stop signals)
unfolding watch_version_getter watch_first add_times
watch_version_getter-adds q signals s = watch_loop-adds q signals (q.add queue_key s)

-- The queue after some items are processed, if Get handed out each.
pub data Processed (q : RateLimitingQueue) : q.Queue → List (Option Error) → q.Queue → Type 0 where
  at_start : {s : q.Queue} → Processed q s [] s
  item :
      {s : q.Queue} (result : Option Error) {results : List (Option Error)} {t : q.Queue}
      → (process_next_item q result s).1 ≡ true
      → Processed q (process_next_item q result s).0 results t
      → Processed q s (result ∷ results) t

process_next_item-quit :
    (q : RateLimitingQueue) (result : Option Error) (s : q.Queue)
    → (process_next_item q result s).1 ≡ false
    → (q.get s).0 ≡ none
unfolding process_next_item
process_next_item-quit q result s h = elim (Option-cases (q.get s).0) [
  | inl quit ↦ quit
  | inr (key, found) ↦ cc
]

-- A worker that has returned processed some items, each of which Get handed out, and then met a queue
-- from which Get hands out nothing more.
pub run_worker-ends :
    (q : RateLimitingQueue) (results : List (Option Error)) (s : q.Queue)
    → (run_worker q results s).1 ≡ true
    → (done : List (Option Error)) × (t : q.Queue) × Processed q s done t × ((q.get t).0 ≡ none)
unfolding run_worker
run_worker-ends q [] s h = cc
run_worker-ends q (result ∷ results) s h = elim (Bool-cases (process_next_item q result s).1) [
  | inl more ↦
      let (done, t, processed, quit) =
        run_worker-ends q results (process_next_item q result s).0 (rw more at h) in
      (result ∷ done, t, item result more processed, quit)
  | inr over ↦ ([], s, at_start, process_next_item-quit q result s over)
]
