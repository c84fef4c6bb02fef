-- ===== src/Controller/Limits.antt =====
-- The brake on a flood of requests: `getMaxPending`, `max`, `reconcileLimits`, and the two variables
-- that the metrics read.
pub mod Laws
use cluster_machine_approver.Prelude.{
  ℕ, ◌+◌, ◌%◌, ◌^◌, Bool, true, false, List, length, ltb, if◌then◌else◌,
}
use cluster_machine_approver.Kube.{Time, Csr, Node}
use cluster_machine_approver.Kube.Outside.{Libs}
use cluster_machine_approver.MachineHandler.{Machine}
use cluster_machine_approver.CsrCheck.{max_diff_between_pending_csrs_and_machines_count}
use cluster_machine_approver.CsrCheck.Conditions.{recently_pending_node_csrs}

-- What a reconcile changes: the package's variables `MaxPendingCSRs` and `PendingCSRs`, and the
-- approvals sent to the API server, the last first.
pub record State : Type 0 where
  pub max_pending_csrs : ℕ  -- uint32
  pub pending_csrs : ℕ  -- uint32
  pub sent : List Csr

abbrev pub u32 : ℕ → ℕ
u32 n = n % 2 ^ 32

unfoldable pub max : ℕ → ℕ → ℕ
max x y = if ltb x y then y else x

unfoldable pub get_max_pending : List Machine → List Node → ℕ
unfolding max
get_max_pending machines nodes =
    max (length machines) (length nodes) + max_diff_between_pending_csrs_and_machines_count

unfoldable pub reconcile_limits :
    Libs → (now : Time) → List Machine → List Node → List Csr → State → State × Bool
reconcile_limits lib now machines nodes csrs s =
    let max_pending = get_max_pending machines nodes in
    let pending = recently_pending_node_csrs lib now csrs in
    (
      record s { max_pending_csrs = u32 max_pending; pending_csrs = u32 pending },
      if ltb max_pending pending then true else false,
    )
