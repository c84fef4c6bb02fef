-- ===== src/Controller/Reconcile/Denied.antt =====
-- `reconcileCSR` for a request that somebody has denied.
use cluster_machine_approver.Prelude.{◌≡◌, refl, ap, ◌∙◌, none, some, List, ◌∷◌, Option}
use cluster_machine_approver.Kube.{
  Time, Condition, Csr, CertificateRequest, CertPool, certificate_denied,
}
use cluster_machine_approver.Kube.Outside.{Libs, Client}
use cluster_machine_approver.Config.{ClusterMachineApproverConfig}
use cluster_machine_approver.MachineHandler.{Machine}
use cluster_machine_approver.NodeClient.{is_node_client_cert, has_exact_usages}
use cluster_machine_approver.CsrCheck.Requester.{
  is_req_from_node_bootstrapper, is_request_from_node_user,
}
use cluster_machine_approver.CsrCheck.Contents.{validate_csr_contents}
use cluster_machine_approver.CsrCheck.ClientFlow.{authorize_node_client_csr, judge_machine}
use cluster_machine_approver.CsrCheck.Conditions.{is_approval, is_approved, is_pending}
use cluster_machine_approver.CsrCheck.Authorize.{authorize_csr}
use cluster_machine_approver.CsrCheck.Authorize.Decision.{authorize_csr_iff, authorize_csr_complete}
use cluster_machine_approver.Controller.Limits.{State}
use cluster_machine_approver.Controller.Approve.Laws.{approved_csr}
use cluster_machine_approver.Controller.KubeletCa.{get_kubelet_ca, parse_csr}
use cluster_machine_approver.Controller.Reconcile.{CertificateApprover, reconcile_csr}
use cluster_machine_approver.Controller.Reconcile.OneRequest.{MayApprove, reconcile_csr-approves}

-- The request with one more condition.
abbrev pub with_first : Condition → Csr → Csr
with_first c csr = record csr { conditions = c ∷ csr.conditions }

module _ (c : Condition) (denied : c.type ≡ certificate_denied) (csr : Csr) where
  denied-is_approved : is_approved (with_first c csr) ≡ is_approved csr
  unfolding is_approved is_approval
  denied-is_approved = rw denied refl

  denied-is_pending :
      (lib : Libs) (now : Time) → is_pending lib now (with_first c csr) ≡ is_pending lib now csr
  unfolding is_pending is_req_from_node_bootstrapper is_request_from_node_user
  denied-is_pending lib now = rw denied-is_approved refl

-- The decision does not read the conditions.
authorize_csr-conditions :
    (lib : Libs) (cl : Client) (config : ClusterMachineApproverConfig) (machines : List Machine)
    (c : Condition) (req : Csr) (csr : CertificateRequest) (ca : Option CertPool)
    → authorize_csr lib cl config machines (some (with_first c req)) (some csr) ca
      ≡ authorize_csr lib cl config machines (some req) (some csr) ca
unfolding authorize_csr is_node_client_cert has_exact_usages validate_csr_contents
    authorize_node_client_csr judge_machine is_req_from_node_bootstrapper
authorize_csr-conditions lib cl config machines c req csr ca = refl

denied-MayApprove :
    (lib : Libs) (m : CertificateApprover) (machines : List Machine) (c : Condition) (csr : Csr)
    → c.type ≡ certificate_denied
    → MayApprove lib m machines csr
    → MayApprove lib m machines (with_first c csr)
unfolding parse_csr
denied-MayApprove lib m machines c csr denied may =
    let ca = get_kubelet_ca lib m.node_client in
    let same = authorize_csr-conditions lib m.node_client m.config machines c csr may.request ca in
    let before =
      authorize_csr_complete lib m.node_client m.config machines csr may.request ca
        may.authorized in
    record {
      pending = denied-is_approved c denied csr ∙ may.pending;
      request = may.request;
      parsed = may.parsed;
      authorized =
          (authorize_csr_iff lib m.node_client m.config machines (with_first c csr) may.request
              ca).0
            (ap (λ v. v.0) (same ∙ before));
    }

-- A Denied condition is not looked at: a request that may be approved counts as pending with one as it
-- does without it, and, if the certificates client can be made, its reconcile sends its approval,
-- behind the Denied condition.
pub reconcile_csr_denied :
    (lib : Libs) (m : CertificateApprover) (machines : List Machine) (c : Condition) (csr : Csr)
    (now : Time) (s : State)
    → c.type ≡ certificate_denied
    → MayApprove lib m machines csr
    → m.certificates.new_for_config ≡ none
    → (is_pending lib now (with_first c csr) ≡ is_pending lib now csr)
      × ((reconcile_csr lib m (with_first c csr) machines s).0.sent
          ≡ approved_csr m.now_at_approval (with_first c csr) ∷ s.sent)
reconcile_csr_denied lib m machines c csr now s denied may made = (
  denied-is_pending c denied csr lib now,
  ap (λ t. t.sent)
      (reconcile_csr-approves lib m machines (with_first c csr) s
        (denied-MayApprove lib m machines c csr denied may) made),
)
