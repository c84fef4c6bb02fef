-- ===== src/Tests/Controlling.antt =====
-- The filters of the controller, its brake, and the metrics.
use cluster_machine_approver.Prelude.{
  none, String, ℕ, zero, suc, ◌≡◌, refl, ◌+◌, ◌^◌, ◌<◌, true, some, List, [], ◌∷◌, map, length, ok,
  arith,
}
use cluster_machine_approver.Kube.{Csr, ConfigMap, Condition}
use cluster_machine_approver.CsrCheck.Conditions.{
  is_approved, recently_pending_node_csrs, is_pending, in_time_span,
}
use cluster_machine_approver.Controller.Filters.{
  ca_config_map_filter, config_map_object, to_csrs, lookup, csr_object, update, csr_predicate,
  pending_cert_filter,
}
use cluster_machine_approver.Controller.Filters.Laws.{
  passing, to_csrs-passing, IsNewBundle, ca_config_map_filter_update_iff,
}
use cluster_machine_approver.Controller.Limits.{reconcile_limits, get_max_pending}
use cluster_machine_approver.Controller.Limits.Laws.{reconcile_limits_iff}
use cluster_machine_approver.Controller.Approve.{approve, approved_condition, with_condition}
use cluster_machine_approver.Controller.Approve.Twice.{approve_twice}
use cluster_machine_approver.Controller.Approve.Laws.{IsUpdated, with_condition-IsUpdated}
use cluster_machine_approver.Metrics.{describe, collect_metrics}
use cluster_machine_approver.Metrics.Laws.{collect_metrics-reconcile_limits}
use cluster_machine_approver.Prelude.Int.{◌-ℤ◌, ◌+ℤ◌}
use cluster_machine_approver.CsrCheck.Requester.{
  is_req_from_node_bootstrapper, is_request_from_node_user,
}
use cluster_machine_approver.GoStd.Strings.{has_prefix}
use cluster_machine_approver.Controller.Filters.Events.{remaining, IsOpen, csr_predicate_iff}
use cluster_machine_approver.Tests.World.{
  lib, start, certificates, machines, node2, client_csr, serving_csr, ca_config_map, at_hour,
}

abbrev pub approved_client_csr : Csr
approved_client_csr = record client_csr { conditions = approved_condition (at_hour 90) ∷ [] }

abbrev rejected : Condition
rejected = record {
  type = "Approved";
  status = "False";
  reason = "Other";
  message = "by hand";
  last_update_time = at_hour 90;
  last_transition_time = at_hour 90;
}

abbrev empty_config_map : ConfigMap
empty_config_map = record ca_config_map { items = [] }

abbrev repeated : ℕ → List Csr
repeated zero = []
repeated (suc n) = client_csr ∷ repeated n

flood_is_stopped :
    (reconcile_limits lib (at_hour 101) machines (node2 ∷ []) (repeated 103) start).1 ≡ true
unfolding reconcile_limits get_max_pending recently_pending_node_csrs is_pending in_time_span ◌-ℤ◌
    ◌+ℤ◌ is_req_from_node_bootstrapper is_approved
flood_is_stopped = refl

new_bundle_seen :
    ca_config_map_filter
      (config_map_object empty_config_map)
      (some (config_map_object ca_config_map))
    ≡ some true
unfolding ca_config_map_filter lookup
new_bundle_seen = refl

pub few_pending : recently_pending_node_csrs lib (at_hour 101) (client_csr ∷ serving_csr ∷ []) ≡ 2
unfolding recently_pending_node_csrs is_pending in_time_span ◌-ℤ◌ ◌+ℤ◌ is_req_from_node_bootstrapper
    is_request_from_node_user has_prefix is_approved
few_pending = refl

limit_is : get_max_pending machines (node2 ∷ []) ≡ 102
unfolding get_max_pending
limit_is = refl

limit_fits : get_max_pending machines (node2 ∷ []) < 2 ^ 32
limit_fits = omega (arith, limit_is)

reconcile_limits_iff_example :
    (length machines + 100 < recently_pending_node_csrs lib (at_hour 101) (repeated 103))
    × (length (node2 ∷ []) + 100 < recently_pending_node_csrs lib (at_hour 101) (repeated 103))
reconcile_limits_iff_example =
    (reconcile_limits_iff lib (at_hour 101) machines (node2 ∷ []) (repeated 103) start).0
      flood_is_stopped

to_csrs-passing_example :
    to_csrs (at_hour 101) (ok (client_csr ∷ approved_client_csr ∷ serving_csr ∷ []))
    ≡ map
        (λ csr. csr.name)
        (passing (at_hour 101) (client_csr ∷ approved_client_csr ∷ serving_csr ∷ []))
to_csrs-passing_example =
    to_csrs-passing (at_hour 101) (client_csr ∷ approved_client_csr ∷ serving_csr ∷ [])

with_condition-IsUpdated_example :
    IsUpdated
      (approved_condition (at_hour 101))
      (rejected ∷ [])
      (with_condition (approved_condition (at_hour 101)) (rejected ∷ [])).0
      (with_condition (approved_condition (at_hour 101)) (rejected ∷ [])).1
with_condition-IsUpdated_example =
    with_condition-IsUpdated (approved_condition (at_hour 101)) (rejected ∷ [])

approve_twice_example :
    approve certificates
      (at_hour 102)
      (record serving_csr {
        conditions = (with_condition (approved_condition (at_hour 101)) serving_csr.conditions).0;
      })
      start
    ≡ (start, none)
approve_twice_example = approve_twice certificates (at_hour 101) (at_hour 102) serving_csr start

ca_config_map_filter_update_iff_example :
    (bundle : String) × IsNewBundle empty_config_map ca_config_map bundle
ca_config_map_filter_update_iff_example =
    (ca_config_map_filter_update_iff empty_config_map ca_config_map).0 new_bundle_seen

collect_metrics-reconcile_limits_example :
    (map
        (λ m. m.desc)
        (collect_metrics
          (reconcile_limits lib
            (at_hour 101)
            machines
            (node2 ∷ [])
            (client_csr ∷ serving_csr ∷ [])
            start).0)
      ≡ describe)
    × (map
          (λ m. m.value)
          (collect_metrics
            (reconcile_limits lib
              (at_hour 101)
              machines
              (node2 ∷ [])
              (client_csr ∷ serving_csr ∷ [])
              start).0)
        ≡ recently_pending_node_csrs lib (at_hour 101) (client_csr ∷ serving_csr ∷ [])
          ∷ get_max_pending machines (node2 ∷ [])
          ∷ [])
collect_metrics-reconcile_limits_example =
    collect_metrics-reconcile_limits lib (at_hour 101) machines (node2 ∷ [])
      (client_csr ∷ serving_csr ∷ []) start (omega (arith, few_pending)) limit_fits

client_waits :
    csr_predicate (at_hour 101) (update (csr_object approved_client_csr) (csr_object client_csr))
    ≡ some true
unfolding csr_predicate pending_cert_filter is_approved
client_waits = refl

csr_predicate_iff_example :
    (csr : Csr) × (remaining (update (csr_object approved_client_csr) (csr_object client_csr))
      ≡ some (csr_object csr))
    × IsOpen (at_hour 101) csr
csr_predicate_iff_example =
    (csr_predicate_iff (at_hour 101)
        (update (csr_object approved_client_csr) (csr_object client_csr))).0
      client_waits
