-- ===== src/CsrCheck/ServingCert.antt =====
-- `getServingCert` and `nodeInternalIP`: the certificate that a node's kubelet presents.
pub mod Laws
use cluster_machine_approver.Prelude.{
  Option, none, some, List, [], ◌∷◌, String, ◌==◌, no_ca, no_internal_addresses, Result, ok, err,
  ◌>>=◌, if◌then◌else◌,
}
use cluster_machine_approver.GoStd.Strings.{itoa, join_host_port}
use cluster_machine_approver.Kube.{Certificate, CertPool, Node, NodeAddress, node_internal_ip}
use cluster_machine_approver.Kube.Outside.{Libs, Client}

unfoldable pub first_internal_ip : (node_name : String) → List NodeAddress → Result String
first_internal_ip node_name [] = err (no_internal_addresses node_name)
first_internal_ip node_name (address ∷ addresses) =
    if address.type == node_internal_ip
    then ok address.address
    else first_internal_ip node_name addresses

unfoldable pub node_internal_ip_of : Node → Result String
unfolding first_internal_ip
node_internal_ip_of node = first_internal_ip node.name node.addresses

-- The roots are a pointer.
unfoldable pub get_serving_cert :
    Libs → Client → (node_name : String) → Option CertPool → Result Certificate
get_serving_cert lib c node_name none = err no_ca
get_serving_cert lib c node_name (some ca) = do
  node ← c.get_node node_name
  host ← node_internal_ip_of node
  lib.dial (join_host_port host (itoa node.kubelet_port)) ca host
