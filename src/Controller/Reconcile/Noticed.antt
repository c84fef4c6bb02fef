-- ===== src/Controller/Reconcile/Noticed.antt =====
-- From the event on a request to its approval: the filters and `Reconcile` together.
use cluster_machine_approver.Prelude.{◌≡◌, inl, true, some, List, ◌∷◌, Memᴰ, ok}
use cluster_machine_approver.Kube.{Time, Csr}
use cluster_machine_approver.Kube.Outside.{Libs}
use cluster_machine_approver.Controller.Limits.{State}
use cluster_machine_approver.Controller.Filters.{csr_object, Event, csr_predicate, to_csrs}
use cluster_machine_approver.Controller.Filters.Laws.{to_csrs-pending}
use cluster_machine_approver.Controller.Filters.Events.{remaining, csr_predicate_iff}
use cluster_machine_approver.Controller.Approve.Laws.{approved_csr}
use cluster_machine_approver.Controller.Reconcile.{CertificateApprover, reconcile}
use cluster_machine_approver.Controller.Reconcile.Safety.{Grounds, reconcile_live}

-- A request that a reconcile has the grounds to approve gets that reconcile: an event of it other than
-- its deletion passes the filter, and so does the request among those listed when the CA bundle
-- changes; and the reconcile of its name sends its approval.
pub reconcile_noticed :
    (lib : Libs) (m : CertificateApprover) (csr : Csr) (now : Time) (e : Event) (csrs : List Csr)
    (s : State)
    → Grounds lib m csr.name csr
    → remaining e ≡ some (csr_object csr)
    → Memᴰ csr csrs
    → (csr_predicate now e ≡ some true)
      × Memᴰ csr.name (to_csrs now (ok csrs))
      × ((reconcile lib m csr.name s).0.sent ≡ approved_csr m.now_at_approval csr ∷ s.sent)
reconcile_noticed lib m csr now e csrs s g same listed = (
  (csr_predicate_iff now e).1 (csr, same, inl g.may.pending),
  to_csrs-pending now csr csrs g.may.pending listed,
  reconcile_live lib m csr.name csr s g,
)
