-- ===== src/Controller/Cluster/Abstract.antt =====
-- What the program promises its cluster: the requests that carry its approval, by their names, and how
-- they may change.
use cluster_machine_approver.Prelude.{
  ◌≡◌, ◌⊎◌, Option, none, some, List, [], ◌∷◌, String, ◌==◌, if◌then◌else◌,
}
use cluster_machine_approver.Kube.{Csr}
use cluster_machine_approver.Kube.Outside.{Libs}
use cluster_machine_approver.CsrCheck.Conditions.{is_approved_by_cma}
use cluster_machine_approver.Controller.Reconcile.{CertificateApprover}
use cluster_machine_approver.Controller.Reconcile.Safety.{Grounds}
use cluster_machine_approver.Controller.Cluster.{
  Store, bare, Kubelets, during, ClusterEvent, reconciled, by_others,
}

-- The approved requests, without their conditions.
abbrev pub Approvals : Type 0
Approvals = String → Option Csr

unfoldable pub approval_of : Option Csr → Option Csr
approval_of none = none
approval_of (some csr) = if is_approved_by_cma csr then some (bare csr) else none

-- The abstract view of a store.
unfoldable pub approvals : Store → Approvals
approvals s n = approval_of (s n)

unfoldable pub granted : Approvals → (name : String) → Csr → Approvals
granted a name csr n = if n == name then some csr else a n

-- What an event may do to the approvals. The reconcile of a name changes nothing, or approves the one
-- request that this reconcile, with its own answers, has the grounds to approve. Others may bring about
-- the loss of some approvals.
pub data Allowed (lib : Libs) (a : Approvals) : ClusterEvent → Approvals → Type 1 where
  idle :
      {k : Kubelets} {m : CertificateApprover} {name : String}
      → Allowed lib a (reconciled k m name) a
  grant :
      {k : Kubelets} {m : CertificateApprover} {name : String} (csr : Csr)
      → Grounds (during lib k) m name csr
      → Allowed lib a (reconciled k m name) (granted a csr.name (bare csr))
  lose : (b : Approvals) → ((n : String) → (b n ≡ a n) ⊎ (b n ≡ none)) → Allowed lib a by_others b

-- A run of the abstract approver, with what has happened in it, the last first.
pub data AllowedRun (lib : Libs) (a : Approvals) : List ClusterEvent → Approvals → Type 1 where
  start : AllowedRun lib a [] a
  then_step :
      {past : List ClusterEvent} {event : ClusterEvent} {b c : Approvals}
      → AllowedRun lib a past b
      → Allowed lib b event c
      → AllowedRun lib a (event ∷ past) c
