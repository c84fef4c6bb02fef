-- ===== src/Controller/Reconcile/Variables.antt =====
-- The two variables that the metrics read.
use cluster_machine_approver.Prelude.{
  ℕ, ◌+◌, ◌<◌, ap, Bool, length, ◌≡◌, refl, inl, inr, Option, none, some, List, String, ◌==◌, Error,
  Result, ok, err, find, Bool-cases,
}
use cluster_machine_approver.Kube.{Csr}
use cluster_machine_approver.Kube.Outside.{Libs}
use cluster_machine_approver.CsrCheck.Conditions.{recently_pending_node_csrs}
use cluster_machine_approver.Controller.Limits.{State, u32, get_max_pending, reconcile_limits}
use cluster_machine_approver.Controller.Reconcile.{
  CertificateApprover, Inputs, and_then, on_found, on_client, limits_of_list, read_inputs,
  reconcile_csr, reconcile_inputs, reconcile_limits_uncached, reconcile,
}
use cluster_machine_approver.Controller.Limits.Laws.{reconcile_limits_iff}
use cluster_machine_approver.Controller.Reconcile.Safety.{WithinLimits, not_off}
use cluster_machine_approver.Controller.Reconcile.Kept.{SameCounts, reconcile_csr-SameCounts}

module _ (lib : Libs) (m : CertificateApprover) (name : String) (i : Inputs) (s : State) where
  -- The brake's answer on the lists that were read, with the variables set.
  abbrev pub limited : State × Bool
  limited = reconcile_limits lib m.now_at_start i.machines i.nodes i.csrs s

  -- Why the requests are not counted once more in a fresh list.
  pub data NotRefreshed : Type 0 where
    over_limits :
        length i.machines + 100 < recently_pending_node_csrs lib m.now_at_start i.csrs
        → length i.nodes + 100 < recently_pending_node_csrs lib m.now_at_start i.csrs
        → NotRefreshed
    not_found : find (λ csr. csr.name == name) i.csrs ≡ none → NotRefreshed
    not_reconciled :
        (csr : Csr) (e : Error)
        → find (λ csr. csr.name == name) i.csrs ≡ some csr
        → (reconcile_csr lib m csr i.machines limited.0).1 ≡ some e
        → NotRefreshed
    no_certificates_client : (e : Error) → m.certificates.new_for_config ≡ some e → NotRefreshed
    not_listed : (e : Error) → m.certificates.list ≡ err e → NotRefreshed

  -- The number of recently pending requests that the variable shows: of the list read, or of the fresh
  -- one, once the first request of the name was reconciled without an error.
  pub data Shown : ℕ → Type 0 where
    of_read : NotRefreshed → Shown (recently_pending_node_csrs lib m.now_at_start i.csrs)
    of_fresh :
        (csr : Csr) (csrs : List Csr)
        → WithinLimits lib m i
        → find (λ csr. csr.name == name) i.csrs ≡ some csr
        → (reconcile_csr lib m csr i.machines limited.0).1 ≡ none
        → m.certificates.new_for_config ≡ none
        → m.certificates.list ≡ ok csrs
        → Shown (recently_pending_node_csrs lib m.now_at_end csrs)

  pub record Counts (t : State) : Type 0 where
    pub max_pending : t.max_pending_csrs ≡ u32 (get_max_pending i.machines i.nodes)
    pub shown : ℕ
    pub why : Shown shown
    pub pending : t.pending_csrs ≡ u32 shown

  unrefreshed : {t : State} → SameCounts limited.0 t → NotRefreshed → Counts t
  unfolding reconcile_limits
  unrefreshed same why = record {
    max_pending = same.max_pending;
    shown = recently_pending_node_csrs lib m.now_at_start i.csrs;
    why = of_read why;
    pending = same.pending;
  }

  limited-same : SameCounts limited.0 limited.0
  limited-same = record { max_pending = refl; pending = refl }

  module _ (within : WithinLimits lib m i) (csr : Csr)
      (found : find (λ csr. csr.name == name) i.csrs ≡ some csr) where
    listed-Counts :
        (r : Result (List Csr)) (t : State)
        → (reconcile_csr lib m csr i.machines limited.0).1 ≡ none
        → m.certificates.new_for_config ≡ none
        → m.certificates.list ≡ r
        → SameCounts limited.0 t
        → Counts (limits_of_list lib m.now_at_end i.machines i.nodes r t).0
    unfolding reconcile_limits
    listed-Counts (err e) t reconciled made listed same = unrefreshed same (not_listed e listed)
    listed-Counts (ok csrs) t reconciled made listed same = record {
      max_pending = refl;
      shown = recently_pending_node_csrs lib m.now_at_end csrs;
      why = of_fresh csr csrs within found reconciled made listed;
      pending = refl;
    }

    client-Counts :
        (o : Option Error) (t : State)
        → (reconcile_csr lib m csr i.machines limited.0).1 ≡ none
        → m.certificates.new_for_config ≡ o
        → SameCounts limited.0 t
        → Counts
            (on_client o
              (limits_of_list lib m.now_at_end i.machines i.nodes m.certificates.list t)
              t).0
    client-Counts none t reconciled made same =
        listed-Counts m.certificates.list t reconciled made refl same
    client-Counts (some e) t reconciled failed same =
        unrefreshed same (no_certificates_client e failed)

    uncached-Counts :
        (t : State)
        → (reconcile_csr lib m csr i.machines limited.0).1 ≡ none
        → SameCounts limited.0 t
        → Counts (reconcile_limits_uncached lib m i.machines i.nodes t).0
    unfolding reconcile_limits_uncached
    uncached-Counts t reconciled same =
        client-Counts m.certificates.new_for_config t reconciled refl same

    and_then-Counts :
        (o : State × Option Error)
        → reconcile_csr lib m csr i.machines limited.0 ≡ o
        → SameCounts limited.0 o.0
        → Counts (and_then o (λ t. reconcile_limits_uncached lib m i.machines i.nodes t)).0
    and_then-Counts (t, some e) came same =
        unrefreshed same (not_reconciled csr e found (ap (λ o. o.1) came))
    and_then-Counts (t, none) came same = uncached-Counts t (ap (λ o. o.1) came) same

  found-Counts :
      (o : Option Csr)
      → WithinLimits lib m i
      → find (λ csr. csr.name == name) i.csrs ≡ o
      → Counts (on_found lib m i.machines i.nodes o limited.0).0
  found-Counts none within found = unrefreshed limited-same (not_found found)
  found-Counts (some csr) within found =
      and_then-Counts within csr found (reconcile_csr lib m csr i.machines limited.0) refl
        (reconcile_csr-SameCounts lib m csr i.machines limited.0)

  pub inputs-Counts : Counts (reconcile_inputs lib m name i s).0
  unfolding reconcile_inputs
  inputs-Counts = elim (Bool-cases limited.1) [
    | inl off ↦
        let (machines, nodes) =
          (reconcile_limits_iff lib m.now_at_start i.machines i.nodes i.csrs s).0 off in
        rw off (unrefreshed limited-same (over_limits machines nodes))
    | inr on ↦
        rw on
          (found-Counts (find (λ csr. csr.name == name) i.csrs) (not_off lib m name i s on) refl)
  ]

-- Once everything is read, and on whatever branch the reconcile ends, the variable of the limit holds
-- that of the machines and nodes read, modulo 2^32, and the other holds the number of recently
-- pending requests, modulo 2^32: of the fresh list, if the requests are within the limits, the first
-- of the name is reconciled without an error, the certificates client can be made and the list be
-- read, and of the list read first, if one of these fails or there is no request of the name.
pub reconcile-Counts :
    (lib : Libs) (m : CertificateApprover) (name : String) (i : Inputs) (s : State)
    → read_inputs m ≡ ok i
    → Counts lib m name i s (reconcile lib m name s).0
unfolding reconcile
reconcile-Counts lib m name i s read = rw read (inputs-Counts lib m name i s)
