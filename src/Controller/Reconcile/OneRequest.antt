-- ===== src/Controller/Reconcile/OneRequest.antt =====
-- `reconcileCSR`: what it sends for one request.
use cluster_machine_approver.Prelude.{
  ◌≡◌, refl, ap, ◌∙◌, inl, inr, true, false, Option, none, some, List, ◌∷◌, Error, approve_failed,
  Result, ok, err, Bool-cases, Option-cases,
}
use cluster_machine_approver.Kube.{Csr, CertificateRequest}
use cluster_machine_approver.Kube.Outside.{Libs}
use cluster_machine_approver.MachineHandler.{Machine}
use cluster_machine_approver.CsrCheck.ClientFlow.{Verdict}
use cluster_machine_approver.CsrCheck.Conditions.{is_approved}
use cluster_machine_approver.CsrCheck.Authorize.{authorize_csr}
use cluster_machine_approver.CsrCheck.Authorize.Spec.{IsAuthorized}
use cluster_machine_approver.CsrCheck.Authorize.Decision.{authorize_csr_iff, authorize_csr_complete}
use cluster_machine_approver.Controller.Limits.{State}
use cluster_machine_approver.Controller.Approve.{approve}
use cluster_machine_approver.Controller.Approve.Laws.{
  approved_csr, approve_unapproved, approve_no_client,
}
use cluster_machine_approver.Controller.KubeletCa.{get_kubelet_ca, parse_csr}
use cluster_machine_approver.Controller.Reconcile.{
  CertificateApprover, wrap_outcome, on_verdict, on_parsed, reconcile_csr,
}

-- A request that this program may approve: not approved yet, readable, and authorised.
pub record MayApprove (lib : Libs) (m : CertificateApprover) (machines : List Machine) (csr : Csr)
    : Type 0 where
  pub pending : is_approved csr ≡ false
  pub request : CertificateRequest
  pub parsed : parse_csr lib csr ≡ ok request
  pub authorized :
      IsAuthorized lib m.node_client machines m.config csr request
        (get_kubelet_ca lib m.node_client)

-- Either nothing is sent, or the one approval is.
pub data Outcome (lib : Libs) (m : CertificateApprover) (machines : List Machine) (csr : Csr)
    (before after : List Csr) : Type 0 where
  quiet : after ≡ before → Outcome lib m machines csr before after
  approves :
      MayApprove lib m machines csr
      → m.certificates.new_for_config ≡ none
      → after ≡ approved_csr m.now_at_approval csr ∷ before
      → Outcome lib m machines csr before after

wrap_outcome-state : (f : Error → Error) (o : State × Option Error) → (wrap_outcome f o).0 ≡ o.0
wrap_outcome-state f (s, none) = refl
wrap_outcome-state f (s, some e) = refl

module _ (lib : Libs) (m : CertificateApprover) (machines : List Machine) (csr : Csr)
    (s : State) where
  sent_after : Verdict → List Csr
  sent_after v =
      (on_verdict v
        (wrap_outcome (approve_failed csr.name) (approve m.certificates m.now_at_approval csr s))
        s).0.sent

  approve-Outcome :
      MayApprove lib m machines csr
      → Outcome lib m machines csr s.sent
          (wrap_outcome
            (approve_failed csr.name)
            (approve m.certificates m.now_at_approval csr s)).0.sent
  approve-Outcome may =
      let same =
        wrap_outcome-state (approve_failed csr.name)
          (approve m.certificates m.now_at_approval csr s) in
      elim (Option-cases m.certificates.new_for_config) [
        | inl made ↦ approves may made (
            ap (λ t. t.sent)
              (same
                ∙ ap (λ o. o.0)
                    (approve_unapproved m.certificates m.now_at_approval csr s may.pending made)))
        | inr (e, failed) ↦ quiet (
            ap (λ t. t.sent)
              (same
                ∙ ap (λ o. o.0)
                    (approve_no_client m.certificates m.now_at_approval csr s e may.pending
                      failed)))
      ]

  verdict-Outcome :
      (v : Verdict)
      → (v.0 ≡ true → MayApprove lib m machines csr)
      → Outcome lib m machines csr s.sent (sent_after v)
  unfolding sent_after
  verdict-Outcome (true, e) may = approve-Outcome (may refl)
  verdict-Outcome (false, e) may = quiet refl

  parsed-Outcome :
      is_approved csr ≡ false
      → (r : Result CertificateRequest) → parse_csr lib csr ≡ r
      → Outcome lib m machines csr s.sent
          (on_parsed
            (λ parsed_csr.
              on_verdict
                (authorize_csr lib m.node_client m.config machines
                  (some csr)
                  (some parsed_csr)
                  (get_kubelet_ca lib m.node_client))
                (wrap_outcome
                  (approve_failed csr.name)
                  (approve m.certificates m.now_at_approval csr s))
                s)
            r
            s).0.sent
  unfolding sent_after
  parsed-Outcome pending (err e) p = quiet refl
  parsed-Outcome pending (ok request) p =
      let ca = get_kubelet_ca lib m.node_client in
      verdict-Outcome
        (authorize_csr lib m.node_client m.config machines (some csr) (some request) ca)
        (λ h. record {
          pending = pending;
          request = request;
          parsed = p;
          authorized = (authorize_csr_iff lib m.node_client m.config machines csr request ca).0 h;
        })

  -- The reconcile of one request sends nothing, or, if the request may be approved and the client can
  -- be made, its approval alone.
  pub reconcile_csr-Outcome :
      Outcome lib m machines csr s.sent (reconcile_csr lib m csr machines s).0.sent
  unfolding reconcile_csr
  reconcile_csr-Outcome = elim (Bool-cases (is_approved csr)) [
    | inl done ↦ rw done (quiet refl)
    | inr pending ↦ rw pending (parsed-Outcome pending (parse_csr lib csr) refl)
  ]

  -- It does send the approval of a request that may be approved.
  pub reconcile_csr-approves :
      MayApprove lib m machines csr
      → m.certificates.new_for_config ≡ none
      → (reconcile_csr lib m csr machines s).0
        ≡ record s { sent = approved_csr m.now_at_approval csr ∷ s.sent }
  unfolding reconcile_csr
  reconcile_csr-approves may made =
      let yes =
        authorize_csr_complete lib m.node_client m.config machines csr may.request
          (get_kubelet_ca lib m.node_client) may.authorized in
      let same =
        wrap_outcome-state (approve_failed csr.name)
          (approve m.certificates m.now_at_approval csr s) in
      rw (may.pending, may.parsed, yes)
        (same
          ∙ ap (λ o. o.0)
              (approve_unapproved m.certificates m.now_at_approval csr s may.pending made))
