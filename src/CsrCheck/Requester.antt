-- ===== src/CsrCheck/Requester.antt =====
-- Who asks: `isReqFromNodeBootstrapper`, `isRequestFromNodeUser`.
use cluster_machine_approver.Prelude.{Bool, ◌&&◌, ◌==◌}
use cluster_machine_approver.GoStd.Strings.{has_prefix}
use cluster_machine_approver.Kube.{Csr}
use cluster_machine_approver.Kube.Outside.{Libs}
use cluster_machine_approver.CsrCheck.{
  node_user_prefix, node_bootstrapper_username, node_bootstrapper_groups,
}

unfoldable pub is_req_from_node_bootstrapper : Libs → Csr → Bool
is_req_from_node_bootstrapper lib req =
    req.username == node_bootstrapper_username && lib.sets.equal node_bootstrapper_groups req.groups

unfoldable pub is_request_from_node_user : Csr → Bool
is_request_from_node_user csr = has_prefix csr.username node_user_prefix
