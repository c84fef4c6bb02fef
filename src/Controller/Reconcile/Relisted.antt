-- ===== src/Controller/Reconcile/Relisted.antt =====
-- The order in which the API server lists requests and nodes.
use mathlib.Core.Path.{fun_ext}
use mathlib.Core.List.{Permᴰ}
use cluster_machine_approver.Prelude.{
  ◌≡◌, refl, sym, ap, ap₂, Option, none, some, List, String, Error, Result, ok, err, approve_failed,
  length, if◌then◌else◌, ◌>>=◌,
}
use cluster_machine_approver.Kube.{Time, Csr, Node}
use cluster_machine_approver.Kube.Outside.{Libs}
use cluster_machine_approver.MachineHandler.{Machine}
use cluster_machine_approver.CsrCheck.Conditions.{is_approved}
use cluster_machine_approver.CsrCheck.Conditions.Laws.{recently_pending_node_csrs-perm}
use cluster_machine_approver.Controller.Limits.{State, reconcile_limits, get_max_pending}
use cluster_machine_approver.Controller.Approve.{approve}
use cluster_machine_approver.Controller.KubeletCa.{get_kubelet_ca, parse_csr}
use cluster_machine_approver.Controller.Reconcile.{
  CertificateApprover, on_parsed, on_verdict, wrap_outcome, and_then, on_found, on_inputs,
  list_all_machines, limits_of_list, on_client, reconcile_csr, reconcile_limits_uncached,
  read_inputs, reconcile_inputs, reconcile,
}
use cluster_machine_approver.Controller.Reconcile.Order.{
  UniqueNames, by_name, find-perm, length-perm, authorize_csr-lists,
}

-- The approver whose server lists these requests and nodes, and answers so to the list at the end.
unfoldable pub relisted :
    CertificateApprover → List Csr → List Node → (at_end : Result (List Csr)) → CertificateApprover
relisted m csrs nodes at_end = record m {
  node_client = record m.node_client { list_csrs = ok csrs; list_nodes = ok nodes };
  certificates = record m.certificates { list = at_end };
}

-- The same error, or the same requests in any order.
pub data Reordered : (before after : Result (List Csr)) → Type 0 where
  same_error : (e : Error) → Reordered (err e) (err e)
  permuted : {xs ys : List Csr} → Permᴰ xs ys → Reordered (ok xs) (ok ys)

module _ (lib : Libs) (m : CertificateApprover) (csrs : List Csr) (nodes : List Node)
    (at_end : Result (List Csr)) where
  reconcile_csr-relisted :
      (csr : Csr) (machines : List Machine) (s : State)
      → reconcile_csr lib (relisted m csrs nodes at_end) csr machines s
        ≡ reconcile_csr lib m csr machines s
  unfolding reconcile_csr relisted get_kubelet_ca approve
  reconcile_csr-relisted csr machines s =
      ap (λ go_on. if is_approved csr then (s, none) else on_parsed go_on (parse_csr lib csr) s)
        (fun_ext λ parsed.
          ap
            (λ v.
              on_verdict v
                (wrap_outcome (approve_failed csr.name)
                  (approve m.certificates m.now_at_approval csr s))
                s)
            (authorize_csr-lists lib m.node_client m.config machines (some csr) (some parsed)
              (get_kubelet_ca lib m.node_client) (ok csrs) (ok nodes)))

module _ (lib : Libs) (machines : List Machine) (nodes nodes' : List Node)
    (same : length nodes' ≡ length nodes) where
  max_pending-nodes : get_max_pending machines nodes' ≡ get_max_pending machines nodes
  unfolding get_max_pending
  max_pending-nodes = rw same refl

  limits-perm :
      (now : Time) {csrs csrs' : List Csr} (s : State)
      → Permᴰ csrs csrs'
      → reconcile_limits lib now machines nodes' csrs' s
        ≡ reconcile_limits lib now machines nodes csrs s
  unfolding reconcile_limits
  limits-perm now s p =
      let (counted, few) = recently_pending_node_csrs-perm lib now ∣ p ∣₁ in
      rw (max_pending-nodes, counted) refl

  limits_of_list-perm :
      (now : Time) {r r' : Result (List Csr)} (s : State)
      → Reordered r r'
      → limits_of_list lib now machines nodes' r' s ≡ limits_of_list lib now machines nodes r s
  limits_of_list-perm now s (same_error e) = refl
  limits_of_list-perm now s (permuted p) = ap (λ o. (o.0, none)) (limits-perm now s p)

  uncached-nodes :
      (m : CertificateApprover) (csrs : List Csr) (at_end : Result (List Csr)) (s : State)
      → Reordered m.certificates.list at_end
      → reconcile_limits_uncached lib (relisted m csrs nodes' at_end) machines nodes' s
        ≡ reconcile_limits_uncached lib m machines nodes s
  unfolding reconcile_limits_uncached relisted
  uncached-nodes m csrs at_end s fresh =
      ap (λ o. on_client m.certificates.new_for_config o s)
        (limits_of_list-perm m.now_at_end s fresh)

  found-relisted :
      (m : CertificateApprover) (csrs : List Csr) (at_end : Result (List Csr)) (o : Option Csr)
      (s : State)
      → Reordered m.certificates.list at_end
      → on_found lib (relisted m csrs nodes' at_end) machines nodes' o s
        ≡ on_found lib m machines nodes o s
  found-relisted m csrs at_end none s fresh = refl
  found-relisted m csrs at_end (some csr) s fresh =
      ap₂ and_then (reconcile_csr-relisted lib m csrs nodes' at_end csr machines s)
        (fun_ext λ s'. uncached-nodes m csrs at_end s' fresh)

  inputs-relisted :
      (m : CertificateApprover) (name : String) (csrs csrs' : List Csr) (at_end : Result (List Csr))
      (s : State)
      → UniqueNames csrs
      → Permᴰ csrs csrs'
      → Reordered m.certificates.list at_end
      → reconcile_inputs lib
          (relisted m csrs' nodes' at_end)
          name
          (record { csrs = csrs'; machines = machines; nodes = nodes' })
          s
        ≡ reconcile_inputs lib m name (record { csrs = csrs; machines = machines; nodes = nodes }) s
  unfolding reconcile_inputs relisted
  inputs-relisted m name csrs csrs' at_end s unique p fresh =
      let limited = reconcile_limits lib m.now_at_start machines nodes csrs s in
      rw (limits-perm m.now_at_start s p, find-perm name unique p)
        (ap (λ o. if limited.1 then (limited.0, none) else o)
          (found-relisted m csrs' at_end (by_name name csrs) limited.0 fresh))

-- Once the machines are read, or cannot be, both lists lead to the same.
read-relisted :
    (lib : Libs) (m : CertificateApprover) (name : String) (csrs csrs' : List Csr)
    (nodes nodes' : List Node) (at_end : Result (List Csr)) (s : State)
    → UniqueNames csrs
    → Permᴰ csrs csrs'
    → Reordered m.certificates.list at_end
    → length nodes' ≡ length nodes
    → (r : Result (List Machine))
    → on_inputs
        (reconcile_inputs lib (relisted m csrs' nodes' at_end) name)
        (r >>= (λ machines. ok (record { csrs = csrs'; machines = machines; nodes = nodes' })))
        s
      ≡ on_inputs
          (reconcile_inputs lib m name)
          (r >>= (λ machines. ok (record { csrs = csrs; machines = machines; nodes = nodes })))
          s
read-relisted lib m name csrs csrs' nodes nodes' at_end s unique p fresh same (err e) = refl
read-relisted lib m name csrs csrs' nodes nodes' at_end s unique p fresh same (ok machines) =
    inputs-relisted lib machines nodes nodes' same m name csrs csrs' at_end s unique p fresh

-- A reconcile does not depend on the order in which the API server lists the requests and the nodes,
-- nor on that of the list at the end, which it reads once more, if no two of the requests listed first
-- have one name: it ends in the same state and with the same error.
pub reconcile-relisted :
    (lib : Libs) (m : CertificateApprover) (name : String) (csrs csrs' : List Csr)
    (nodes nodes' : List Node) (at_end at_end' : Result (List Csr)) (s : State)
    → UniqueNames csrs
    → Permᴰ csrs csrs'
    → Permᴰ nodes nodes'
    → Reordered at_end at_end'
    → reconcile lib (relisted m csrs' nodes' at_end') name s
      ≡ reconcile lib (relisted m csrs nodes at_end) name s
unfolding reconcile read_inputs relisted
reconcile-relisted lib m name csrs csrs' nodes nodes' at_end at_end' s unique p q fresh =
    read-relisted lib (relisted m csrs nodes at_end) name csrs csrs' nodes nodes' at_end' s unique p
      fresh (sym (length-perm q))
      (list_all_machines m.machine_api m.machine_namespace m.api_group_versions)
