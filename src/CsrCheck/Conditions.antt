-- ===== src/CsrCheck/Conditions.antt =====
-- The conditions and the age of a request: `inTimeSpan`, `isApproved`, `isRecentlyApproved`,
-- `isApprovedByCMA`, `recentlyPendingNodeCSRs`. The clock is the argument `now`.
pub mod Laws
use cluster_machine_approver.Prelude.{
  ℕ, ◌+◌, Bool, false, ◌&&◌, ◌||◌, not, Option, none, some, List, [], ◌∷◌, String, ◌==◌, any, find,
  if◌then◌else◌,
}
use cluster_machine_approver.Prelude.Int.{pos, ◌+ℤ◌, ◌-ℤ◌, ltb_ℤ}
use cluster_machine_approver.Kube.{Time, Condition, Csr, certificate_approved}
use cluster_machine_approver.Kube.Outside.{Libs}
use cluster_machine_approver.CsrCheck.{
  max_pending_delta, max_approved_delta, max_machine_clock_skew,
}
use cluster_machine_approver.CsrCheck.Requester.{
  is_req_from_node_bootstrapper, is_request_from_node_user,
}

-- `check.After(start) && check.Before(end)`
unfoldable pub in_time_span : (start end check : Time) → Bool
in_time_span start end check = ltb_ℤ start check && ltb_ℤ check end

abbrev pub csr_condition_approve_message : String
csr_condition_approve_message =
    "This CSR was approved by the Node CSR Approver (cluster-machine-approver)"

unfoldable pub is_approval : Condition → Bool
is_approval condition = condition.type == certificate_approved

unfoldable pub is_approved : Csr → Bool
is_approved csr = any is_approval csr.conditions

-- `return` from inside the loop, at the first approval.
abbrev pub on_first : (Condition → Bool) → Option Condition → Bool
on_first test none = false
on_first test (some condition) = test condition

unfoldable pub is_recently_approved : (now : Time) → Csr → Bool
is_recently_approved now csr =
    let start = now -ℤ pos max_approved_delta in
    let end = now +ℤ pos max_machine_clock_skew in
    on_first (λ condition. in_time_span start end condition.last_transition_time)
      (find is_approval csr.conditions)

unfoldable pub is_approved_by_cma : Csr → Bool
is_approved_by_cma csr =
    on_first (λ condition. condition.message == csr_condition_approve_message)
      (find is_approval csr.conditions)

-- The test under which `pending` is incremented.
unfoldable pub is_pending : Libs → (now : Time) → Csr → Bool
is_pending lib now csr =
    let start = now -ℤ pos max_pending_delta in
    let end = now +ℤ pos max_machine_clock_skew in
    in_time_span start end csr.creation_timestamp
    && ((is_req_from_node_bootstrapper lib csr || is_request_from_node_user csr)
        && not (is_approved csr))

unfoldable pub count_pending : Libs → (now : Time) → (pending : ℕ) → List Csr → ℕ
count_pending lib now pending [] = pending
count_pending lib now pending (csr ∷ csrs) =
    count_pending lib now (if is_pending lib now csr then pending + 1 else pending) csrs

unfoldable pub recently_pending_node_csrs : Libs → (now : Time) → List Csr → ℕ
unfolding count_pending
recently_pending_node_csrs lib now csrs = count_pending lib now 0 csrs
