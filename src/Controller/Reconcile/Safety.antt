-- ===== src/Controller/Reconcile/Safety.antt =====
-- `Reconcile`: what it sends, and when.
use cluster_machine_approver.Prelude.{
  ◌+◌, ◌≤◌, ◌≡◌, refl, ap, ◌∙◌, ◌⊎◌, inl, inr, false, Option, none, some, List, ◌∷◌, String, ◌==◌,
  Error, Result, ok, err, find, length, leb, subst, arith, Bool-cases, Option-cases,
}
use cluster_machine_approver.Kube.{Csr, Node}
use cluster_machine_approver.Kube.Outside.{Libs}
use cluster_machine_approver.MachineHandler.{Machine}
use cluster_machine_approver.CsrCheck.Conditions.{recently_pending_node_csrs}
use cluster_machine_approver.Controller.Limits.{State, reconcile_limits}
use cluster_machine_approver.Controller.Limits.Laws.{reconcile_limits_iff}
use cluster_machine_approver.Controller.Approve.Laws.{approved_csr}
use cluster_machine_approver.Controller.Reconcile.{
  CertificateApprover, Inputs, read_inputs, reconcile_inputs, reconcile_csr,
  reconcile_limits_uncached, limits_of_list, and_then, on_found, on_inputs, reconcile,
}
use cluster_machine_approver.Controller.Reconcile.OneRequest.{
  MayApprove, quiet, approves, reconcile_csr-Outcome, reconcile_csr-approves,
}

-- Not more than a hundred recently pending requests beyond the machines, or beyond the nodes.
abbrev pub WithinLimits : Libs → CertificateApprover → Inputs → Type 0
WithinLimits lib m i =
    let pending = recently_pending_node_csrs lib m.now_at_start i.csrs in
    (pending ≤ length i.machines + 100) ⊎ (pending ≤ length i.nodes + 100)

-- What must hold for the reconcile of a name to send an approval: everything could be read, the
-- requests are within the limits, and the first request of that name may be approved.
pub record Grounds (lib : Libs) (m : CertificateApprover) (name : String) (csr : Csr) : Type 0 where
  pub inputs : Inputs
  pub read : read_inputs m ≡ ok inputs
  pub within : WithinLimits lib m inputs
  pub found : find (λ x. x.name == name) inputs.csrs ≡ some csr
  pub may : MayApprove lib m inputs.machines csr
  pub made : m.certificates.new_for_config ≡ none

limits-sent :
    (lib : Libs) (m : CertificateApprover) (machines : List Machine) (nodes : List Node) (s : State)
    → (reconcile_limits_uncached lib m machines nodes s).0.sent ≡ s.sent
unfolding reconcile_limits_uncached reconcile_limits
limits-sent lib m machines nodes s = elim (Option-cases m.certificates.new_for_config) [
  | inl made ↦ rw made (listed m.certificates.list)
  | inr (e, failed) ↦ rw failed
]
  where
    listed :
        (r : Result (List Csr))
        → (limits_of_list lib m.now_at_end machines nodes r s).0.sent ≡ s.sent
    listed (ok csrs) = refl
    listed (err e) = refl

and_then-sent :
    (o : State × Option Error) (k : State → State × Option Error)
    → ((s : State) → (k s).0.sent ≡ s.sent)
    → (and_then o k).0.sent ≡ o.0.sent
and_then-sent (s, some e) k h = refl
and_then-sent (s, none) k h = h s

limits_keep_sent :
    (lib : Libs) (m : CertificateApprover) (i : Inputs) (s : State)
    → (reconcile_limits lib m.now_at_start i.machines i.nodes i.csrs s).0.sent ≡ s.sent
unfolding reconcile_limits
limits_keep_sent lib m i s = refl

within-on :
    (lib : Libs) (m : CertificateApprover) (i : Inputs) (s : State)
    → WithinLimits lib m i
    → (reconcile_limits lib m.now_at_start i.machines i.nodes i.csrs s).1 ≡ false
within-on lib m i s w =
    let (to, from) = reconcile_limits_iff lib m.now_at_start i.machines i.nodes i.csrs s in
    elim (Bool-cases (reconcile_limits lib m.now_at_start i.machines i.nodes i.csrs s).1) [
      | inl off ↦ let (a, b) = to off in absurd (ground arith)
      | inr on ↦ on
    ]

module _ (lib : Libs) (m : CertificateApprover) (name : String) where
  -- Nothing is sent, or the one approval on its grounds.
  abbrev Sends : (before after : List Csr) → Type 0
  Sends before after =
      (after ≡ before)
      ⊎ ((csr : Csr) × Grounds lib m name csr
          × (after ≡ approved_csr m.now_at_approval csr ∷ before))

  pub not_off :
      (i : Inputs) (s : State)
      → (reconcile_limits lib m.now_at_start i.machines i.nodes i.csrs s).1 ≡ false
      → WithinLimits lib m i
  not_off i s h =
      let (to, from) = reconcile_limits_iff lib m.now_at_start i.machines i.nodes i.csrs s in
      elim (Bool-cases
        (leb (recently_pending_node_csrs lib m.now_at_start i.csrs) (length i.machines + 100))) [
          | inl few ↦ inl (ground arith)
          | inr many ↦ inr (ground (arith, from))
        ]

  found-Sends :
      (i : Inputs) (s : State) (o : Option Csr)
      → read_inputs m ≡ ok i
      → WithinLimits lib m i
      → find (λ x. x.name == name) i.csrs ≡ o
      → Sends s.sent (on_found lib m i.machines i.nodes o s).0.sent
  found-Sends i s none read within found = inl refl
  found-Sends i s (some csr) read within found =
      let same =
        and_then-sent (reconcile_csr lib m csr i.machines s)
          (λ s'. reconcile_limits_uncached lib m i.machines i.nodes s')
          (limits-sent lib m i.machines i.nodes) in
      elim (reconcile_csr-Outcome lib m i.machines csr s) [
        | quiet e ↦ inl (same ∙ e)
        | approves may made e ↦ inr (
          csr,
          record {
            inputs = i;
            read = read;
            within = within;
            found = found;
            may = may;
            made = made;
          },
          same ∙ e,
        )
      ]

  inputs-Sends :
      (r : Result Inputs) (s : State)
      → read_inputs m ≡ r
      → Sends s.sent (on_inputs (reconcile_inputs lib m name) r s).0.sent
  unfolding reconcile_inputs
  inputs-Sends (err e) s read = inl refl
  inputs-Sends (ok i) s read =
      let limited = reconcile_limits lib m.now_at_start i.machines i.nodes i.csrs s in
      elim (Bool-cases limited.1) [
        | inl off ↦ rw off (inl (limits_keep_sent lib m i s))
        | inr on ↦ rw on (
            subst
              (λ l.
                Sends l
                  (on_found lib m i.machines i.nodes (find (λ x. x.name == name) i.csrs)
                    limited.0).0.sent)
              (limits_keep_sent lib m i s)
              (found-Sends i limited.0 (find (λ x. x.name == name) i.csrs) read (not_off i s on)
                refl))
      ]

-- One reconcile sends at most one approval. It sends one only if everything could be read, not more
-- than a hundred requests beyond the machines or beyond the nodes are recently pending, and the
-- first listed request of the reconciled name is not approved, parses and is authorised, and the
-- certificates client can be made; what it sends is that request with the approval added behind its conditions.
pub reconcile_safe :
    (lib : Libs) (m : CertificateApprover) (name : String) (s : State)
    → ((reconcile lib m name s).0.sent ≡ s.sent)
      ⊎ ((csr : Csr) × Grounds lib m name csr
          × ((reconcile lib m name s).0.sent ≡ approved_csr m.now_at_approval csr ∷ s.sent))
unfolding reconcile
reconcile_safe lib m name s = inputs-Sends lib m name (read_inputs m) s refl

-- If everything can be read, the recently pending requests are within the limits, the first listed
-- request of the name is not approved, parses and is authorised, and the certificates client can be
-- made, the reconcile sends the approval of that request, in front of what was sent before.
pub reconcile_live :
    (lib : Libs) (m : CertificateApprover) (name : String) (csr : Csr) (s : State)
    → Grounds lib m name csr
    → (reconcile lib m name s).0.sent ≡ approved_csr m.now_at_approval csr ∷ s.sent
unfolding reconcile reconcile_inputs
reconcile_live lib m name csr s g =
    let i = g.inputs in
    let limited = reconcile_limits lib m.now_at_start i.machines i.nodes i.csrs s in
    let same =
      and_then-sent (reconcile_csr lib m csr i.machines limited.0)
        (λ s'. reconcile_limits_uncached lib m i.machines i.nodes s')
        (limits-sent lib m i.machines i.nodes) in
    rw (g.read, within-on lib m i s g.within, g.found)
      (same
        ∙ ap (λ t. t.sent) (reconcile_csr-approves lib m i.machines csr limited.0 g.may g.made)
        ∙ ap (λ l. approved_csr m.now_at_approval csr ∷ l) (limits_keep_sent lib m i s))
