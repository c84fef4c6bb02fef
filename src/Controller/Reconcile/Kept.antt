-- ===== src/Controller/Reconcile/Kept.antt =====
-- What reconciling one request leaves of the two variables that the metrics read.
use cluster_machine_approver.Prelude.{
  ◌≡◌, refl, inl, inr, true, false, Option, none, some, List, Error, Result, ok, err, Bool-cases,
  Option-cases,
}
use cluster_machine_approver.Kube.{Time, Csr, CertificateRequest}
use cluster_machine_approver.Kube.Outside.{Libs}
use cluster_machine_approver.MachineHandler.{Machine}
use cluster_machine_approver.CsrCheck.ClientFlow.{Verdict}
use cluster_machine_approver.CsrCheck.Conditions.{is_approved}
use cluster_machine_approver.CsrCheck.Authorize.{authorize_csr}
use cluster_machine_approver.Controller.Limits.{State}
use cluster_machine_approver.Controller.Approve.{
  CertificatesApi, approve, with_condition, approved_condition, send,
}
use cluster_machine_approver.Controller.KubeletCa.{get_kubelet_ca, parse_csr}
use cluster_machine_approver.Controller.Reconcile.{
  CertificateApprover, wrap_outcome, on_verdict, on_parsed, reconcile_csr,
}

-- The variables of two states are the same.
pub record SameCounts (s t : State) : Type 0 where
  pub max_pending : t.max_pending_csrs ≡ s.max_pending_csrs
  pub pending : t.pending_csrs ≡ s.pending_csrs

send-SameCounts : (api : CertificatesApi) (csr : Csr) (s : State) → SameCounts s (send api csr s).0
send-SameCounts api csr s = elim (Option-cases api.new_for_config) [
  | inl made ↦ rw made (record { max_pending = refl; pending = refl })
  | inr (e, failed) ↦ rw failed (record { max_pending = refl; pending = refl })
]

approve-SameCounts :
    (api : CertificatesApi) (now : Time) (csr : Csr) (s : State)
    → SameCounts s (approve api now csr s).0
unfolding approve
approve-SameCounts api now csr s =
    elim (Bool-cases (with_condition (approved_condition now) csr.conditions).1) [
      | inl needed ↦ rw needed (
          send-SameCounts api
            (record csr { conditions = (with_condition (approved_condition now) csr.conditions).0 })
            s)
      | inr unchanged ↦ rw unchanged (record { max_pending = refl; pending = refl })
    ]

wrap-SameCounts :
    (f : Error → Error) (s : State) (o : State × Option Error)
    → SameCounts s o.0
    → SameCounts s (wrap_outcome f o).0
wrap-SameCounts f s (t, none) h = h
wrap-SameCounts f s (t, some e) h = h

verdict-SameCounts :
    (v : Verdict) (approved : State × Option Error) (s : State)
    → SameCounts s approved.0
    → SameCounts s (on_verdict v approved s).0
verdict-SameCounts (true, e) approved s h = h
verdict-SameCounts (false, e) approved s h = record { max_pending = refl; pending = refl }

parsed-SameCounts :
    (go_on : CertificateRequest → State × Option Error) (r : Result CertificateRequest) (s : State)
    → ((request : CertificateRequest) → SameCounts s (go_on request).0)
    → SameCounts s (on_parsed go_on r s).0
parsed-SameCounts go_on (err e) s h = record { max_pending = refl; pending = refl }
parsed-SameCounts go_on (ok request) s h = h request

pub reconcile_csr-SameCounts :
    (lib : Libs) (m : CertificateApprover) (csr : Csr) (machines : List Machine) (s : State)
    → SameCounts s (reconcile_csr lib m csr machines s).0
unfolding reconcile_csr
reconcile_csr-SameCounts lib m csr machines s = elim (Bool-cases (is_approved csr)) [
  | inl done ↦ rw done (record { max_pending = refl; pending = refl })
  | inr waits ↦ rw waits (
      parsed-SameCounts _ (parse_csr lib csr) s λ request.
        verdict-SameCounts
          (authorize_csr lib m.node_client m.config machines (some csr) (some request)
            (get_kubelet_ca lib m.node_client))
          _ s
          (wrap-SameCounts _ s (approve m.certificates m.now_at_approval csr s)
            (approve-SameCounts m.certificates m.now_at_approval csr s)))
]
