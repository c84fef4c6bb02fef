-- ===== src/Controller/Reconcile/Runs.antt =====
-- Any sequence of reconciles, each with its own answers of the servers and its own clock.
use cluster_machine_approver.Prelude.{◌≡◌, ◌∙◌, inl, inr, true, [], ◌∷◌, Memᴰ, String, subst, ap}
use cluster_machine_approver.Kube.{Csr}
use cluster_machine_approver.Kube.Outside.{Libs}
use cluster_machine_approver.CsrCheck.Conditions.{is_approved, is_approved_by_cma}
use cluster_machine_approver.Controller.Limits.{State}
use cluster_machine_approver.Controller.Approve.Laws.{approved_csr, approved_csr-is_approved}
use cluster_machine_approver.Controller.Reconcile.{CertificateApprover, reconcile}
use cluster_machine_approver.Controller.Reconcile.Safety.{Grounds, reconcile_safe}

module _ (lib : Libs) where
  -- One reconcile of some name.
  pub data Step : State → State → Type 1 where
    step :
        (m : CertificateApprover) (name : String) (s t : State)
        → t ≡ (reconcile lib m name s).0
        → Step s t

  pub data Reach (s : State) : State → Type 1 where
    here : Reach s s
    next : {t u : State} → Reach s t → Step t u → Reach s u

  -- An approval with the reconcile that sent it.
  pub record IsGrounded (sent : Csr) : Type 1 where
    pub approver : CertificateApprover
    pub name : String
    pub csr : Csr
    pub grounds : Grounds lib approver name csr
    pub same : sent ≡ approved_csr approver.now_at_approval csr

  Step-keeps :
      {s t : State}
      → Step s t
      → ((x : Csr) → Memᴰ x s.sent → IsGrounded x)
      → (x : Csr) → Memᴰ x t.sent
      → IsGrounded x
  Step-keeps (step m name s t e) inv x k = elim (reconcile_safe lib m name s) [
    | inl quiet ↦ inv x (subst (λ l. Memᴰ x l) (ap (λ u. u.sent) e ∙ quiet) k)
    | inr (csr, g, sent) ↦ new csr g (subst (λ l. Memᴰ x l) (ap (λ u. u.sent) e ∙ sent) k)
  ]
    where
      new :
          (csr : Csr)
          → Grounds lib m name csr
          → Memᴰ x (approved_csr m.now_at_approval csr ∷ s.sent)
          → IsGrounded x
      new csr g (Memᴰ.head p) = record {
        approver = m;
        name = name;
        csr = csr;
        grounds = g;
        same = p;
      }
      new csr g (Memᴰ.tail k') = inv x k'

-- However many reconciles have run, from a state in which nothing was sent: every approval that was
-- sent was sent by a reconcile that had the grounds for it.
pub Reach-IsGrounded :
    (lib : Libs) (s t : State)
    → s.sent ≡ []
    → Reach lib s t
    → (x : Csr) → Memᴰ x t.sent
    → IsGrounded lib x
Reach-IsGrounded lib s t start r = go r
  where
    at_start : (x : Csr) → Memᴰ x s.sent → IsGrounded lib x
    at_start x k = none_in (subst (λ l. Memᴰ x l) start k)
      where
        none_in : Memᴰ x [] → IsGrounded lib x
        none_in m = elim m [ ]

    go : {u : State} → Reach lib s u → (x : Csr) → Memᴰ x u.sent → IsGrounded lib x
    go here = at_start
    go (next r' st) = Step-keeps lib st (go r')

-- And every approval that was sent is approved, by this program, though it was not approved before.
pub Reach-signed :
    (lib : Libs) (s t : State)
    → s.sent ≡ []
    → Reach lib s t
    → (x : Csr) → Memᴰ x t.sent
    → (is_approved x ≡ true) × (is_approved_by_cma x ≡ true)
Reach-signed lib s t start r x k =
    let g = Reach-IsGrounded lib s t start r x k in
    let (approved, by_cma) =
      approved_csr-is_approved g.approver.now_at_approval g.csr g.grounds.may.pending in
    (ap is_approved g.same ∙ approved, ap is_approved_by_cma g.same ∙ by_cma)
