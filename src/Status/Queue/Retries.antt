-- ===== src/Status/Queue/Retries.antt =====
-- How often a key is tried again when every try fails.
use cluster_machine_approver.Prelude.{
  ℕ, zero, suc, ◌≤◌, ◌<◌, ◌≡◌, refl, ap, ◌∙◌, true, false, some, String, Error, arith,
}
use cluster_machine_approver.Status.Queue.{RateLimitingQueue, handle_err}

-- What the queue's documentation says of the count.
pub record CountsRequeues (q : RateLimitingQueue) : Type 0 where
  pub after_add :
      (key : String) (s : q.Queue)
      → q.num_requeues key (q.add_rate_limited key s) ≡ suc (q.num_requeues key s)
  pub after_forget : (key : String) (s : q.Queue) → q.num_requeues key (q.forget key s) ≡ 0

-- The queue after a number of failures in a row, the last one's report left out.
unfoldable pub fail_times : (q : RateLimitingQueue) → Error → String → ℕ → q.Queue → q.Queue
fail_times q e key zero s = s
fail_times q e key (suc n) s = (handle_err q (some e) key (fail_times q e key n s)).0

module _ (q : RateLimitingQueue) (counts : CountsRequeues q) (e : Error) (key : String)
    (s : q.Queue) where
  fail_times-count :
      (n : ℕ) → n ≤ 30 → q.num_requeues key s ≡ 0 → q.num_requeues key (fail_times q e key n s) ≡ n
  unfolding fail_times handle_err
  fail_times-count zero h start = start
  fail_times-count (suc n) h start =
      let ih = fail_times-count n (omega arith) start in
      ground (arith, ih, counts.after_add key (fail_times q e key n s))

module _ (q : RateLimitingQueue) (e : Error) (key : String) where
  handle_err_few :
      (s : q.Queue)
      → q.num_requeues key s < 30
      → handle_err q (some e) key s ≡ (q.add_rate_limited key s, false)
  unfolding handle_err
  handle_err_few s few = ground arith

  handle_err_full :
      (s : q.Queue)
      → q.num_requeues key s ≡ 30
      → handle_err q (some e) key s ≡ (q.forget key s, true)
  unfolding handle_err
  handle_err_full s full = ground arith

  fail_times-suc :
      (n : ℕ) (s : q.Queue)
      → fail_times q e key (suc n) s ≡ (handle_err q (some e) key (fail_times q e key n s)).0
  unfolding fail_times
  fail_times-suc n s = refl

-- On a queue that counts as documented, a key that starts with no requeues is put back after each of
-- the first thirty failures in a row and not reported, and after the thirty-first it is reported and
-- forgotten, so that its count is zero again.
pub handle_err_retries :
    (q : RateLimitingQueue) (e : Error) (key : String) (s : q.Queue) (n : ℕ)
    → CountsRequeues q
    → q.num_requeues key s ≡ 0
    → n < 30
    → (handle_err q (some e) key (fail_times q e key n s)
        ≡ (q.add_rate_limited key (fail_times q e key n s), false))
      × ((handle_err q (some e) key (fail_times q e key 30 s)).1 ≡ true)
      × (q.num_requeues key (fail_times q e key 31 s) ≡ 0)
handle_err_retries q e key s n counts start few =
    let full = fail_times-count q counts e key s 30 (omega arith) start in
    let last = handle_err_full q e key (fail_times q e key 30 s) full in
    (
      handle_err_few q e key (fail_times q e key n s)
          (omega (arith, fail_times-count q counts e key s n (omega arith) start)),
      ap (λ r. r.1) last,
      ap (q.num_requeues key) (fail_times-suc q e key 30 s ∙ ap (λ r. r.0) last)
          ∙ counts.after_forget key (fail_times q e key 30 s),
    )
