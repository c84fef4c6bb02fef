-- ===== src/Controller/Reconcile/Once.antt =====
-- `Reconcile` for the name of a request that is approved.
use cluster_machine_approver.Prelude.{
  ◌≡◌, sym, ◌∙◌, inl, inr, true, some, String, ◌==◌, ok, find, ok_injective,
}
use cluster_machine_approver.Kube.{Csr}
use cluster_machine_approver.Kube.Outside.{Libs}
use cluster_machine_approver.CsrCheck.Conditions.{is_approved}
use cluster_machine_approver.Controller.Limits.{State}
use cluster_machine_approver.Controller.Reconcile.{
  CertificateApprover, Inputs, read_inputs, reconcile,
}
use cluster_machine_approver.Controller.Reconcile.Safety.{Grounds, reconcile_safe}

no-Grounds :
    (lib : Libs) (m : CertificateApprover) (name : String) (csr other : Csr) (i : Inputs)
    → read_inputs m ≡ ok i
    → find (λ x. x.name == name) i.csrs ≡ some csr
    → is_approved csr ≡ true
    → ¬ Grounds lib m name other
no-Grounds lib m name csr other i read found done g =
    let same : g.inputs ≡ i = ok_injective (sym g.read ∙ read) in
    let both : csr ≡ other = cc (g.found, found, same) in cc (g.may.pending, done, both)

-- If the first listed request of the reconciled name is approved, by whomever, the reconcile sends
-- nothing.
pub reconcile_once :
    (lib : Libs) (m : CertificateApprover) (name : String) (csr : Csr) (i : Inputs) (s : State)
    → read_inputs m ≡ ok i
    → find (λ x. x.name == name) i.csrs ≡ some csr
    → is_approved csr ≡ true
    → (reconcile lib m name s).0.sent ≡ s.sent
reconcile_once lib m name csr i s read found done = elim (reconcile_safe lib m name s) [
  | inl quiet ↦ quiet
  | inr (other, g, sent) ↦ absurd (no-Grounds lib m name csr other i read found done g)
]
