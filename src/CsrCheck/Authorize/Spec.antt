-- ===== src/CsrCheck/Authorize/Spec.antt =====
-- Who may have a certificate, told without the code: a new node, or a known node by one of three ways.
use cluster_machine_approver.Prelude.{◌≡◌, false, Option, some, List, String, ok}
use cluster_machine_approver.Kube.{Csr, CertificateRequest, Certificate, CertPool, Network}
use cluster_machine_approver.Kube.Outside.{Libs, Client}
use cluster_machine_approver.Config.{ClusterMachineApproverConfig}
use cluster_machine_approver.MachineHandler.{Machine}
use cluster_machine_approver.MachineHandler.Find.{IsFirst, HasNodeRef}
use cluster_machine_approver.NodeClient.Laws.{IsClientRequest}
use cluster_machine_approver.CsrCheck.Contents.Laws.{IsServingRequest}
use cluster_machine_approver.CsrCheck.Renewal.Laws.{IsRenewal}
use cluster_machine_approver.CsrCheck.Egress.Laws.{IsEgressRenewal}
use cluster_machine_approver.CsrCheck.MachineNames.Laws.{Vouches}
use cluster_machine_approver.CsrCheck.ClientFlow.Laws.{IsNewNode}
use cluster_machine_approver.CsrCheck.ServingCert.{get_serving_cert}

module _ (lib : Libs) (c : Client) (machines : List Machine) where
  -- The ways of a serving certificate: the names of the certificate that the kubelet presents, the
  -- addresses of the machine, or the former with the egress addresses, under OpenShift SDN alone.
  pub data ServingWay (node : String) (csr : CertificateRequest) (ca : Option CertPool)
      : Type 0 where
    by_renewal :
        (pool : CertPool) (cert : Certificate)
        → ca ≡ some pool
        → get_serving_cert lib c node (some pool) ≡ ok cert
        → IsRenewal lib node csr cert pool
        → ServingWay node csr ca
    by_machine :
        (machine : Machine)
        → IsFirst (HasNodeRef node) machines machine
        → Vouches lib machine csr
        → ServingWay node csr ca
    by_egress :
        (pool : CertPool) (cert : Certificate) (network : Network)
        → ca ≡ some pool
        → get_serving_cert lib c node (some pool) ≡ ok cert
        → c.get_network "cluster" ≡ ok network
        → network.network_type ≡ "OpenShiftSDN"
        → IsEgressRenewal lib c node csr cert pool
        → ServingWay node csr ca

  pub data IsAuthorized (config : ClusterMachineApproverConfig) (req : Csr)
      (csr : CertificateRequest) (ca : Option CertPool) : Type 0 where
    new_node :
        (node : String)
        → IsClientRequest req csr node
        → config.node_client_cert.disabled ≡ false
        → IsNewNode c machines req node
        → IsAuthorized config req csr ca
    known_node :
        (node : String)
        → ((other : String) → ¬ IsClientRequest req csr other)
        → IsServingRequest req csr node
        → ServingWay node csr ca
        → IsAuthorized config req csr ca
