-- ===== src/Metrics/Laws.antt =====
-- What the metrics show after the limits have been computed.
use cluster_machine_approver.Prelude.{◌<◌, ◌^◌, ◌≡◌, refl, ap, List, [], ◌∷◌, map}
use cluster_machine_approver.Kube.{Time, Csr, Node}
use cluster_machine_approver.Kube.Outside.{Libs}
use cluster_machine_approver.MachineHandler.{Machine}
use cluster_machine_approver.CsrCheck.Conditions.{recently_pending_node_csrs}
use cluster_machine_approver.Controller.Limits.{State, get_max_pending, reconcile_limits}
use cluster_machine_approver.Controller.Limits.Laws.{reconcile_limits_state}
use cluster_machine_approver.Metrics.{describe, collect_metrics}

-- After the limits have been computed from counts below 2^32, the metrics are the described ones, in
-- their order, with the number of recently pending requests and the limit.
pub collect_metrics-reconcile_limits :
    (lib : Libs) (now : Time) (machines : List Machine) (nodes : List Node) (csrs : List Csr)
    (s : State)
    → recently_pending_node_csrs lib now csrs < 2 ^ 32
    → get_max_pending machines nodes < 2 ^ 32
    → (map (λ m. m.desc) (collect_metrics (reconcile_limits lib now machines nodes csrs s).0)
        ≡ describe)
      × (map (λ m. m.value) (collect_metrics (reconcile_limits lib now machines nodes csrs s).0)
          ≡ recently_pending_node_csrs lib now csrs ∷ get_max_pending machines nodes ∷ [])
unfolding collect_metrics describe
collect_metrics-reconcile_limits lib now machines nodes csrs s small_count small_limit =
    let state = reconcile_limits_state lib now machines nodes csrs s small_count small_limit in
    (refl, ap (λ t. t.pending_csrs ∷ t.max_pending_csrs ∷ []) state)
