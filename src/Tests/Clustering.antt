-- ===== src/Tests/Clustering.antt =====
-- One reconcile against a server that stores the request of worker-2.
use cluster_machine_approver.Prelude.{
  List, ◌≡◌, refl, sym, ap, ◌∙◌, inl, inr, true, Option, none, some, [], ◌∷◌, Memᴰ, String, ◌==◌,
  eq_iff, eq_refl, subst, arith, Bool-cases, if◌then◌else◌,
}
use cluster_machine_approver.Kube.{Csr}
use cluster_machine_approver.CsrCheck.Conditions.{is_approved_by_cma}
use cluster_machine_approver.Controller.Approve.Laws.{approved_csr}
use cluster_machine_approver.Controller.Reconcile.{reconcile}
use cluster_machine_approver.Controller.Cluster.{
  Store, bare, ApiServer, Cluster, Kubelets, ClusterEvent, reconciled, RefusesConflicts, new_sent,
  after_reconcile, reconcile_step, Reach, here, next,
}
use cluster_machine_approver.Controller.Cluster.Abstract.{approvals, approval_of, AllowedRun}
use cluster_machine_approver.Controller.Cluster.Refines.{cluster_refines, new_sent-one}
use cluster_machine_approver.Controller.Cluster.Grounded.{WasGranted, cluster_safe, cluster_live}
use cluster_machine_approver.Controller.Cluster.Identity.{InOwnName, cluster-InOwnName}
use cluster_machine_approver.Tests.Reconciling.{serving-Grounds, sent_csr, csr_sent}
use cluster_machine_approver.Tests.World.{lib, approver, start, serving_csr}

abbrev with_conditions_of : Csr → Option Csr → Option Csr
with_conditions_of x none = none
with_conditions_of x (some y) = some (record y { conditions = x.conditions })

abbrev update : Csr → Store → Store
update x s n = if n == x.name then with_conditions_of x (s n) else s n

update_elsewhere : (x : Csr) (s : Store) (n : String) → ¬ (n ≡ x.name) → update x s n ≡ s n
update_elsewhere x s n other = ground (arith, eq_iff n x.name)

abbrev server : ApiServer
server = record {
  update = update;
  updated = λ x y s stored. rw (eq_refl x.name, stored) refl;
  elsewhere = update_elsewhere;
}

abbrev stored : Store
stored n = if n == "csr-2" then some serving_csr else none

abbrev before : Cluster
before = record { store = stored; state = start }

abbrev after : Cluster
after = after_reconcile lib server approver "csr-2" before

sent_one : new_sent start.sent (reconcile lib approver "csr-2" start).0.sent ≡ sent_csr ∷ []
sent_one = ap (new_sent start.sent) csr_sent ∙ new_sent-one sent_csr start.sent

stored_same : (x : Csr) → x ≡ sent_csr → (y : Csr) × (stored x.name ≡ some y) × (bare y ≡ bare x)
unfolding bare approved_csr
stored_same x e = (serving_csr, ap (λ z. stored z.name) e, sym (ap bare e))

refuses :
    RefusesConflicts approver.certificates
      (new_sent start.sent (reconcile lib approver "csr-2" start).0.sent)
      stored
refuses x sent accepted = of_one (subst (λ l. Memᴰ x l) sent_one sent)
  where
    of_one : Memᴰ x (sent_csr ∷ []) → (y : Csr) × (stored x.name ≡ some y) × (bare y ≡ bare x)
    of_one (Memᴰ.head e) = stored_same x e
    of_one (Memᴰ.tail k) = elim k [ ]

abbrev kubelets : Kubelets
kubelets = record { verify = lib.verify; dial = lib.dial }

abbrev past : List ClusterEvent
past = reconciled kubelets approver "csr-2" ∷ []

one_step : Reach lib server before past after
one_step = next here (reconcile_step kubelets approver "csr-2" refuses)

clean : (k : String) → approvals stored k ≡ none
unfolding approvals approval_of is_approved_by_cma
clean k = elim (Bool-cases (k == "csr-2")) [ inl e ↦ rw e refl | inr e ↦ rw e refl ]

cluster_refines_example : AllowedRun lib (approvals stored) past (approvals after.store)
cluster_refines_example = cluster_refines lib server past before after one_step

cluster_live_example :
    (z : Csr) × (after.store "csr-2" ≡ some z)
    × (bare z ≡ bare serving_csr)
    × (is_approved_by_cma z ≡ true)
cluster_live_example =
    cluster_live lib server approver "csr-2" serving_csr serving_csr before serving-Grounds refl
      refl refl

approved_after : approvals after.store "csr-2" ≡ some (bare serving_csr)
unfolding approvals approval_of
approved_after =
    let (z, there, same, signed) =
      cluster_live lib server approver "csr-2" serving_csr serving_csr before serving-Grounds refl
        refl refl in
    rw (there, signed) (ap some same)

cluster_safe_example : WasGranted lib past "csr-2" (bare serving_csr)
cluster_safe_example =
    cluster_safe lib server past before after "csr-2" (bare serving_csr) clean one_step
      approved_after

cluster-InOwnName_example : InOwnName lib (bare serving_csr)
cluster-InOwnName_example =
    cluster-InOwnName lib server past before after "csr-2" (bare serving_csr) clean one_step
      approved_after
