-- ===== src/Controller/Cluster/Refines.antt =====
-- The cluster's steps are steps of the abstract approver.
use mathlib.Core.Path.{fun_ext}
use cluster_machine_approver.Prelude.{
  suc, ◌-◌, ◌≡◌, refl, sym, ap, ◌∙◌, ◌≢◌, ◌⊎◌, inl, inr, true, Option, none, some, List, [], ◌∷◌,
  Memᴰ, String, ◌==◌, eq_iff, subst, length, arith, Bool-cases, Option-cases,
}
use cluster_machine_approver.Kube.{Csr}
use cluster_machine_approver.Kube.Outside.{Libs}
use cluster_machine_approver.CsrCheck.Conditions.{is_approved_by_cma}
use cluster_machine_approver.Controller.Approve.Laws.{approved_csr, approved_csr-is_approved}
use cluster_machine_approver.Controller.Reconcile.{CertificateApprover, reconcile}
use cluster_machine_approver.Controller.Reconcile.Safety.{Grounds, reconcile_safe}
use cluster_machine_approver.Controller.Cluster.{
  Store, bare, ApiServer, RefusesConflicts, Cluster, take, new_sent, deliver, after_reconcile,
  Kubelets, during, ClusterEvent, reconciled, OthersMay, unchanged, deleted, created, changed, Step,
  reconcile_step, others_step, Reach, here, next,
}
use cluster_machine_approver.Controller.Cluster.Abstract.{
  approval_of, approvals, granted, Allowed, idle, grant, lose, AllowedRun, start, then_step,
}

new_sent-none : (s : List Csr) → new_sent s s ≡ []
new_sent-none s = let nothing : length s - length s ≡ 0 = omega arith in ap (λ n. take n s) nothing

pub new_sent-one : (x : Csr) (s : List Csr) → new_sent s (x ∷ s) ≡ x ∷ []
new_sent-one x s =
    let one : suc (length s) - length s ≡ 1 = omega arith in ap (λ n. take n (x ∷ s)) one

pub same_conditions :
    (x y : Csr) → is_approved_by_cma (record y { conditions = x.conditions }) ≡ is_approved_by_cma x
unfolding is_approved_by_cma
same_conditions x y = refl

approval_of_update :
    (x y : Csr)
    → is_approved_by_cma x ≡ true
    → bare y ≡ bare x
    → approval_of (some (record y { conditions = x.conditions })) ≡ some (bare x)
unfolding approval_of bare
approval_of_update x y signed same = rw (same_conditions x y, signed) (ap some same)

-- An accepted approval of this program is a grant.
update-granted :
    (server : ApiServer) (x y : Csr) (s : Store)
    → is_approved_by_cma x ≡ true
    → s x.name ≡ some y
    → bare y ≡ bare x
    → approvals (server.update x s) ≡ granted (approvals s) x.name (bare x)
unfolding approvals granted
update-granted server x y s signed stored same = fun_ext λ n. elim (Bool-cases (n == x.name)) [
  | inl e ↦
      rw (e, (eq_iff n x.name).0 e, server.updated x y s stored)
        (approval_of_update x y signed same)
  | inr e ↦
      let other : n ≢ x.name = λ q. ground (arith, eq_iff n x.name) in
      rw (e, server.elsewhere x s n other) refl
]

others-keep :
    {o o' : Option Csr}
    → OthersMay o o'
    → (approval_of o' ≡ approval_of o) ⊎ (approval_of o' ≡ none)
unfolding approval_of
others-keep unchanged = inl refl
others-keep deleted = inr refl
others-keep (created y unsigned) = inr (rw unsigned refl)
others-keep (changed y y' same unsigned) = elim (Bool-cases (is_approved_by_cma y')) [
  | inl signed ↦ inl (rw (signed, unsigned signed) (ap some same))
  | inr lost ↦ inr (rw lost refl)
]

module _ (lib : Libs) (server : ApiServer) where
  deliver-Allowed :
      (k : Kubelets) (m : CertificateApprover) (name : String) (csr : Csr) (s : Store)
      → Grounds (during lib k) m name csr
      → RefusesConflicts m.certificates (approved_csr m.now_at_approval csr ∷ []) s
      → Allowed lib
          (approvals s)
          (reconciled k m name)
          (approvals (deliver server m.certificates (approved_csr m.now_at_approval csr ∷ []) s))
  unfolding approved_csr bare
  deliver-Allowed k m name csr s g refuses =
      let x = approved_csr m.now_at_approval csr in
      let (approved, signed) = approved_csr-is_approved m.now_at_approval csr g.may.pending in
      elim (Option-cases (m.certificates.update_approval x)) [
        | inl accepted ↦
            let (y, stored, same) = refuses x (Memᴰ.head refl) accepted in
            rw accepted (
              subst (Allowed lib (approvals s) (reconciled k m name))
                (sym (update-granted server x y s signed stored same)) (grant csr g))
        | inr (e, refused) ↦ rw refused idle
      ]

  reconcile-Allowed :
      (k : Kubelets) (m : CertificateApprover) (name : String) (c : Cluster)
      → RefusesConflicts m.certificates
          (new_sent c.state.sent (reconcile (during lib k) m name c.state).0.sent)
          c.store
      → Allowed lib
          (approvals c.store)
          (reconciled k m name)
          (approvals (after_reconcile (during lib k) server m name c).store)
  unfolding after_reconcile
  reconcile-Allowed k m name c refuses = elim (reconcile_safe (during lib k) m name c.state) [
    | inl quiet ↦ rw (quiet, new_sent-none c.state.sent) idle
    | inr (csr, g, sent) ↦
        let one =
          ap (new_sent c.state.sent) sent
          ∙ new_sent-one (approved_csr m.now_at_approval csr) c.state.sent in
        rw one (
          deliver-Allowed k m name csr c.store g
            (subst (λ l. RefusesConflicts m.certificates l c.store) one refuses))
  ]

  Step-Allowed :
      {event : ClusterEvent} {c d : Cluster}
      → Step lib server c event d
      → Allowed lib (approvals c.store) event (approvals d.store)
  unfolding approvals
  Step-Allowed {c = c} (reconcile_step k m name refuses) = reconcile-Allowed k m name c refuses
  Step-Allowed (others_step s may) = lose (approvals s) (λ n. others-keep (may n))

-- The cluster refines the abstract approver: take any run of the cluster, with a server that changes
-- only the conditions of the named request and refuses conflicting updates, and with others who do
-- not write this program's approval. Then the stored requests that carry the approval change, event by
-- event, as is allowed: a reconcile changes nothing or approves the one request that this very
-- reconcile, by its name and by what it has read, has the grounds to approve, and by what others do no
-- approval is added or altered.
pub cluster_refines :
    (lib : Libs) (server : ApiServer) (past : List ClusterEvent) (c d : Cluster)
    → Reach lib server c past d
    → AllowedRun lib (approvals c.store) past (approvals d.store)
cluster_refines lib server past c d r = go r
  where
    go :
        {events : List ClusterEvent} {e : Cluster}
        → Reach lib server c events e
        → AllowedRun lib (approvals c.store) events (approvals e.store)
    go here = start
    go (next r' st) = then_step (go r') (Step-Allowed lib server st)
