-- ===== src/Controller/Cluster/Identity.antt =====
-- In whose name the approved requests of the cluster are.
use Prim.Native.String
use cluster_machine_approver.Prelude.{List, ◌≡◌, sym, none, some, [], String, ok, subst}
use cluster_machine_approver.Kube.{Csr, CertificateRequest}
use cluster_machine_approver.Kube.Outside.{Libs}
use cluster_machine_approver.CsrCheck.{node_bootstrapper_username}
use cluster_machine_approver.CsrCheck.Authorize.Spec.{new_node, known_node}
use cluster_machine_approver.Controller.KubeletCa.{parse_csr}
use cluster_machine_approver.Controller.Reconcile.{CertificateApprover}
use cluster_machine_approver.Controller.Reconcile.Safety.{Grounds}
use cluster_machine_approver.Controller.Cluster.{
  bare, ApiServer, Cluster, Kubelets, during, ClusterEvent, Reach,
}
use cluster_machine_approver.Controller.Cluster.Abstract.{approvals}
use cluster_machine_approver.Controller.Cluster.Grounded.{cluster_safe}

-- The certificate is in the name of the node that has asked for it, or it is a client certificate of
-- a node, with no other names, that the node bootstrapper has asked for.
pub data InOwnName (lib : Libs) (x : Csr) : Type 0 where
  of_node :
      (request : CertificateRequest) (node : String)
      → parse_csr lib x ≡ ok request
      → x.username ≡ String.◌++◌ "system:node:" node
      → request.common_name ≡ x.username
      → InOwnName lib x
  of_bootstrapper :
      (request : CertificateRequest) (node : String)
      → parse_csr lib x ≡ ok request
      → x.username ≡ node_bootstrapper_username
      → request.common_name ≡ String.◌++◌ "system:node:" node
      → request.dns_names ≡ []
      → request.ip_addresses ≡ []
      → InOwnName lib x

Grounds-InOwnName :
    (lib : Libs) (k : Kubelets) (m : CertificateApprover) (name : String) (csr : Csr)
    → Grounds (during lib k) m name csr
    → InOwnName lib (bare csr)
unfolding bare parse_csr
Grounds-InOwnName lib k m name csr g = elim g.may.authorized [
  | new_node node r enabled fresh ↦
      of_bootstrapper g.may.request node g.may.parsed fresh.bootstrapper.user r.name r.no_dns_names
        r.no_ip_addresses
  | known_node node other s way ↦ of_node g.may.request node g.may.parsed s.user s.same_name
]

-- If no stored request carries this program's approval at the start, then in every later state of the
-- cluster each that does asks for a certificate in the name of the node that made the request, or was
-- made by the node bootstrapper, for a node's name without DNS names and addresses.
pub cluster-InOwnName :
    (lib : Libs) (server : ApiServer) (past : List ClusterEvent) (c d : Cluster) (n : String)
    (x : Csr)
    → ((k : String) → approvals c.store k ≡ none)
    → Reach lib server c past d
    → approvals d.store n ≡ some x
    → InOwnName lib x
cluster-InOwnName lib server past c d n x clean r h =
    let g = cluster_safe lib server past c d n x clean r h in
    subst (λ y. InOwnName lib y) (sym g.same)
      (Grounds-InOwnName lib g.kubelets g.approver g.name g.csr g.grounds)
