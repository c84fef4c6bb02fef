-- ===== src/Controller/Cluster/Grounded.antt =====
-- Which stored requests carry the program's approval, and that a pending one gets it.
use cluster_machine_approver.Prelude.{
  List, [], ◌∷◌, Memᴰ, refl, ◌≡◌, sym, ◌∙◌, inl, inr, true, none, some, String, ◌==◌, eq_iff, arith,
  Bool-cases,
}
use cluster_machine_approver.Kube.{Csr}
use cluster_machine_approver.Kube.Outside.{Libs}
use cluster_machine_approver.CsrCheck.Conditions.{is_approved_by_cma}
use cluster_machine_approver.Controller.Approve.Laws.{approved_csr, approved_csr-is_approved}
use cluster_machine_approver.Controller.Reconcile.{CertificateApprover}
use cluster_machine_approver.Controller.Reconcile.Safety.{Grounds, reconcile_live}
use cluster_machine_approver.Controller.Cluster.{
  bare, ApiServer, Cluster, Kubelets, during, ClusterEvent, reconciled, after_reconcile, Reach,
}
use cluster_machine_approver.Controller.Cluster.Abstract.{
  Approvals, approvals, granted, Allowed, idle, grant, lose, AllowedRun, start, then_step,
}
use cluster_machine_approver.Controller.Cluster.Refines.{
  new_sent-one, same_conditions, cluster_refines,
}

-- The event, among those that have happened, in which a request of this name and content was approved:
-- a reconcile that, by its name and by what it has read, had the grounds for that.
pub record WasGranted (lib : Libs) (past : List ClusterEvent) (n : String) (x : Csr) : Type 1 where
  pub kubelets : Kubelets
  pub approver : CertificateApprover
  pub name : String
  pub happened : Memᴰ (reconciled kubelets approver name) past
  pub csr : Csr
  pub grounds : Grounds (during lib kubelets) approver name csr
  pub same_name : n ≡ csr.name
  pub same : x ≡ bare csr

WasGranted-later :
    {lib : Libs} {past : List ClusterEvent} {event : ClusterEvent} {n : String} {x : Csr}
    → WasGranted lib past n x
    → WasGranted lib (event ∷ past) n x
WasGranted-later w = record {
  kubelets = w.kubelets;
  approver = w.approver;
  name = w.name;
  happened = Memᴰ.tail w.happened;
  csr = w.csr;
  grounds = w.grounds;
  same_name = w.same_name;
  same = w.same;
}

module _ (lib : Libs) where
  -- Each approval in an abstract state was granted.
  AllGranted : List ClusterEvent → Approvals → Type 1
  AllGranted past a = (n : String) (x : Csr) → a n ≡ some x → WasGranted lib past n x

  Allowed-keeps :
      (past : List ClusterEvent) {event : ClusterEvent} {a b : Approvals}
      → Allowed lib a event b
      → AllGranted past a
      → AllGranted (event ∷ past) b
  unfolding AllGranted granted
  Allowed-keeps past idle inv n x h = WasGranted-later (inv n x h)
  Allowed-keeps past {a = a} (grant {k} {m} {name} csr g) inv n x h =
      elim (Bool-cases (n == csr.name)) [
        | inl e ↦ record {
          kubelets = k;
          approver = m;
          name = name;
          happened = Memᴰ.head refl;
          csr = csr;
          grounds = g;
          same_name = (eq_iff n csr.name).0 e;
          same = ground arith;
        }
        | inr e ↦ WasGranted-later (inv n x (ground arith))
      ]
  Allowed-keeps past (lose b kept) inv n x h = elim (kept n) [
    | inl e ↦ WasGranted-later (inv n x (sym e ∙ h))
    | inr gone ↦ cc
  ]

  AllowedRun-keeps :
      {a : Approvals} {past : List ClusterEvent} {b : Approvals}
      → AllowedRun lib a past b
      → AllGranted [] a
      → AllGranted past b
  AllowedRun-keeps start inv = inv
  AllowedRun-keeps (then_step r st) inv = Allowed-keeps _ st (AllowedRun-keeps r inv)

-- If no stored request carries this program's approval at the start, then in every later state of the
-- cluster each that does was approved by a reconcile of the run: one of its events is a reconcile that,
-- by its name, its clients' answers and the kubelets' answers, had the grounds to approve a request of
-- that stored name, which is the same in everything but its conditions.
pub cluster_safe :
    (lib : Libs) (server : ApiServer) (past : List ClusterEvent) (c d : Cluster) (n : String)
    (x : Csr)
    → ((k : String) → approvals c.store k ≡ none)
    → Reach lib server c past d
    → approvals d.store n ≡ some x
    → WasGranted lib past n x
unfolding AllGranted
cluster_safe lib server past c d n x clean r h =
    AllowedRun-keeps lib (cluster_refines lib server past c d r) (λ k y e. at_start k y e) n x h
  where
    at_start : (k : String) (y : Csr) → approvals c.store k ≡ some y → WasGranted lib [] k y
    at_start k y e = let none_there = clean k in cc

-- If the grounds to approve a request are given, the server stores it with that content and accepts
-- the update, then after the reconcile the stored request has this program's approval and is the same
-- in everything but its conditions.
pub cluster_live :
    (lib : Libs) (server : ApiServer) (m : CertificateApprover) (name : String) (csr y : Csr)
    (c : Cluster)
    → Grounds lib m name csr
    → c.store csr.name ≡ some y
    → bare y ≡ bare csr
    → m.certificates.update_approval (approved_csr m.now_at_approval csr) ≡ none
    → (z : Csr) × ((after_reconcile lib server m name c).store csr.name ≡ some z)
      × (bare z ≡ bare csr)
      × (is_approved_by_cma z ≡ true)
unfolding after_reconcile approved_csr bare
cluster_live lib server m name csr y c g stored same accepted =
    let x = approved_csr m.now_at_approval csr in
    let (approved, signed) = approved_csr-is_approved m.now_at_approval csr g.may.pending in
    (
      record y { conditions = x.conditions },
      rw (reconcile_live lib m name csr c.state g, new_sent-one x c.state.sent, accepted)
          (server.updated x y c.store stored),
      same,
      same_conditions x y ∙ signed,
    )
