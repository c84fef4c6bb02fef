-- ===== src/Controller/Reconcile/Disabled.antt =====
-- `Reconcile` with the flow for client certificates disabled.
use cluster_machine_approver.Prelude.{◌≡◌, ◌⊎◌, inl, inr, true, ◌∷◌, String, ok}
use cluster_machine_approver.Kube.{Csr, CertificateRequest}
use cluster_machine_approver.Kube.Outside.{Libs}
use cluster_machine_approver.CsrCheck.Authorize.Spec.{new_node, known_node}
use cluster_machine_approver.CsrCheck.Contents.Laws.{IsServingRequest}
use cluster_machine_approver.Controller.Limits.{State}
use cluster_machine_approver.Controller.Approve.Laws.{approved_csr}
use cluster_machine_approver.Controller.KubeletCa.{parse_csr}
use cluster_machine_approver.Controller.Reconcile.{CertificateApprover, reconcile}
use cluster_machine_approver.Controller.Reconcile.Safety.{Grounds, reconcile_safe}

-- The request for a serving certificate of the node that has made it.
pub record OfServing (lib : Libs) (csr : Csr) : Type 0 where
  pub request : CertificateRequest
  pub node : String
  pub parsed : parse_csr lib csr ≡ ok request
  pub serving : IsServingRequest csr request node

disabled-OfServing :
    (lib : Libs) (m : CertificateApprover) (name : String) (csr : Csr)
    → m.config.node_client_cert.disabled ≡ true
    → Grounds lib m name csr
    → OfServing lib csr
disabled-OfServing lib m name csr disabled g = elim g.may.authorized [
  | new_node node r enabled fresh ↦ absurd cc
  | known_node node other s way ↦ record {
    request = g.may.request;
    node = node;
    parsed = g.may.parsed;
    serving = s;
  }
]

-- With the flow for client certificates disabled, a reconcile sends nothing or the approval of one
-- request, which is a serving request of the node that made it.
pub reconcile_disabled :
    (lib : Libs) (m : CertificateApprover) (name : String) (s : State)
    → m.config.node_client_cert.disabled ≡ true
    → ((reconcile lib m name s).0.sent ≡ s.sent)
      ⊎ ((csr : Csr) × OfServing lib csr
          × ((reconcile lib m name s).0.sent ≡ approved_csr m.now_at_approval csr ∷ s.sent))
reconcile_disabled lib m name s disabled = elim (reconcile_safe lib m name s) [
  | inl quiet ↦ inl quiet
  | inr (csr, g, sent) ↦ inr (csr, disabled-OfServing lib m name csr disabled g, sent)
]
