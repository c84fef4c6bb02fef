-- ===== src/Controller/Reconcile/Uint32.antt =====
-- The two variables that the metrics read are uint32 values.
use cluster_machine_approver.Prelude.{
  ℕ, ◌<◌, ◌^◌, ◌≡◌, refl, sym, subst, String, Result, ok, err, arith,
}
use cluster_machine_approver.Kube.Outside.{Libs}
use cluster_machine_approver.Controller.Limits.{State, u32}
use cluster_machine_approver.Controller.Reconcile.{
  CertificateApprover, Inputs, on_inputs, read_inputs, reconcile_inputs, reconcile,
}
use cluster_machine_approver.Controller.Reconcile.Runs.{step, Reach, here, next}
use cluster_machine_approver.Controller.Reconcile.Variables.{Counts, inputs-Counts}

-- The variables are uint32 values.
pub record AreUint32 (s : State) : Type 0 where
  pub max_pending : s.max_pending_csrs < 2 ^ 32
  pub pending : s.pending_csrs < 2 ^ 32

u32-lt : (n : ℕ) → u32 n < 2 ^ 32
u32-lt n = omega arith

Counts-AreUint32 :
    (lib : Libs) (m : CertificateApprover) (name : String) (i : Inputs) (s t : State)
    → Counts lib m name i s t
    → AreUint32 t
Counts-AreUint32 lib m name i s t c = record {
  max_pending = subst (λ n. n < 2 ^ 32) (sym c.max_pending) (u32-lt _);
  pending = subst (λ n. n < 2 ^ 32) (sym c.pending) (u32-lt _);
}

reconcile-AreUint32 :
    (lib : Libs) (m : CertificateApprover) (name : String) (s : State)
    → AreUint32 s
    → AreUint32 (reconcile lib m name s).0
unfolding reconcile
reconcile-AreUint32 lib m name s fits = by_read (read_inputs m) refl
  where
    by_read :
        (r : Result Inputs)
        → read_inputs m ≡ r
        → AreUint32 (on_inputs (reconcile_inputs lib m name) r s).0
    by_read (err e) read = fits
    by_read (ok i) read = Counts-AreUint32 lib m name i s _ (inputs-Counts lib m name i s)

-- The two variables stay below 2^32 in any sequence of reconciles.
pub Reach-AreUint32 : (lib : Libs) (s t : State) → AreUint32 s → Reach lib s t → AreUint32 t
Reach-AreUint32 lib s t fits r = go r
  where
    go : {u : State} → Reach lib s u → AreUint32 u
    go here = fits
    go (next r' (step m name a b e)) =
        subst AreUint32 (sym e) (reconcile-AreUint32 lib m name a (go r'))
