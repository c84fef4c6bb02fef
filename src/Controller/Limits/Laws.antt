-- ===== src/Controller/Limits/Laws.antt =====
-- When the brake is on, and what the metrics show.
use cluster_machine_approver.Prelude.{ℕ, ◌+◌, ◌<◌, ◌^◌, ◌≡◌, ◌↔◌, true, List, length, arith}
use cluster_machine_approver.Kube.{Time, Csr, Node}
use cluster_machine_approver.Kube.Outside.{Libs}
use cluster_machine_approver.MachineHandler.{Machine}
use cluster_machine_approver.CsrCheck.Conditions.{recently_pending_node_csrs}
use cluster_machine_approver.Controller.Limits.{State, get_max_pending, reconcile_limits}

-- The limit is a hundred above the larger of the two counts.
pub get_max_pending_lem :
    (machines : List Machine) (nodes : List Node) (n : ℕ)
    → (get_max_pending machines nodes < n)
      ↔ ((length machines + 100 < n) × (length nodes + 100 < n))
unfolding get_max_pending
get_max_pending_lem machines nodes n = ground arith

-- The brake is on exactly when more than a hundred requests more than there are machines, and more
-- than a hundred more than there are nodes, are recently pending.
pub reconcile_limits_iff :
    (lib : Libs) (now : Time) (machines : List Machine) (nodes : List Node) (csrs : List Csr)
    (s : State)
    → ((reconcile_limits lib now machines nodes csrs s).1 ≡ true) ↔ (
        (length machines + 100 < recently_pending_node_csrs lib now csrs)
        × (length nodes + 100 < recently_pending_node_csrs lib now csrs))
unfolding reconcile_limits
reconcile_limits_iff lib now machines nodes csrs s =
    let (to, from) = get_max_pending_lem machines nodes (recently_pending_node_csrs lib now csrs) in
    ((λ h. to (ground arith)), λ h. ground (arith, from h))

-- The metrics show the count and the limit, if both are below 2^32; nothing is sent.
pub reconcile_limits_state :
    (lib : Libs) (now : Time) (machines : List Machine) (nodes : List Node) (csrs : List Csr)
    (s : State)
    → recently_pending_node_csrs lib now csrs < 2 ^ 32
    → get_max_pending machines nodes < 2 ^ 32
    → (reconcile_limits lib now machines nodes csrs s).0 ≡ record s {
      max_pending_csrs = get_max_pending machines nodes;
      pending_csrs = recently_pending_node_csrs lib now csrs;
    }
unfolding reconcile_limits
reconcile_limits_state lib now machines nodes csrs s small_count small_limit = ground arith
